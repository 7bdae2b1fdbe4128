-- ===== src/Vk/Setup/Scan.antt =====
-- `find_setup_txts` of src/vk/setup.rs: it ends, and it finds the markers of a binary.
use groth16_solana.Prelude.{
  ℕ, zero, suc, ◌+◌, ◌≤◌, ◌<◌, ◌≡◌, refl, ap, true, some, List, [], ◌∷◌, Result, ok, err, ◌>>=◌,
  length, take, drop, arith, Option-cases, Result-cases, inl, inr, length-drop, >>=-eq-ok,
  ok_injective, ok_or, ok_or-eq-ok,
}
use groth16_solana.Prelude.Bytes.{Bytes}
use groth16_solana.Vk.Setup.{
  SetupTxt, SetupTxtError, setup_txt_begin, setup_txt_end, parse_body, find_bytes, read_txt, scan,
  find_setup_txts,
}
use groth16_solana.Vk.Setup.Text.{starts_with}

starts_with-bound : (needle bs : Bytes) → starts_with needle bs ≡ true → length needle ≤ length bs
unfolding starts_with
starts_with-bound [] bs h = omega arith
starts_with-bound (n ∷ needle) [] h = cc
starts_with-bound (n ∷ needle) (b ∷ bs) h = ground (arith, starts_with-bound needle bs)

-- What is found lies inside.
find_bytes-bound :
    (bs needle : Bytes) (k : ℕ) → find_bytes bs needle ≡ some k → k + length needle ≤ length bs
unfolding find_bytes
find_bytes-bound [] needle k e = cc
find_bytes-bound (b ∷ bs) needle k e = elim (Option-cases (find_bytes bs needle)) [
  | inl none_left ↦ ground (arith, starts_with-bound needle (b ∷ bs))
  | inr (n, here) ↦
      ground (arith, starts_with-bound needle (b ∷ bs), find_bytes-bound bs needle n here)
]

read_txt-bound :
    (binary : Bytes) (offset : ℕ) {r : SetupTxt × ℕ}
    → read_txt binary offset ≡ ok r
    → (offset < r.1) × (r.1 ≤ length binary)
unfolding read_txt
read_txt-bound binary offset {r} e =
    let rest = drop (offset + length setup_txt_begin) binary in
    let (n, e1, k1) = >>=-eq-ok (ok_or _ (find_bytes rest setup_txt_end)) _ e in
    let (txt, e2, k2) = >>=-eq-ok (parse_body (take n rest) offset) _ k1 in
    let inside : n + length setup_txt_end ≤ length rest =
      find_bytes-bound rest setup_txt_end n (ok_or-eq-ok _ _ e1) in
    let next : offset + length setup_txt_begin + n + length setup_txt_end ≡ r.1 =
      ap (λ p. p.1) (ok_injective k2) in
    (
      omega (arith, next),
      omega (arith, next, inside, length-drop (offset + length setup_txt_begin) binary),
    )

-- With more fuel than there are bytes left, the loop ends.
scan-ends :
    (fuel : ℕ) (binary : Bytes) (pos : ℕ)
    → pos ≤ length binary
    → length binary < pos + fuel
    → (r : Result SetupTxtError (List SetupTxt)) × (scan fuel binary pos ≡ some r)
unfolding scan
scan-ends zero binary pos le h = absurd (omega arith)
scan-ends (suc fuel) binary pos le h =
    elim (Option-cases (find_bytes (drop pos binary) setup_txt_begin)) [
      | inl e ↦ (ok [], rw (e, scan) refl)
      | inr (start, e) ↦ elim (Result-cases (read_txt binary (pos + start))) [
        | inl (p, e') ↦
            let (later, inside) = read_txt-bound binary (pos + start) e' in
            let (r, rest) = scan-ends fuel binary p.1 inside (omega arith) in
            (r >>= λ found. ok (p.0 ∷ found), rw (e, scan) (rw (e', rest) refl))
        | inr (x, e') ↦ (err x, rw (e, scan) (rw e' refl))
      ]
    ]

-- The search ends for every binary: one round for each of its bytes and one more are enough.
pub find_setup_txts-ends :
    (binary : Bytes)
    → (r : Result SetupTxtError (List SetupTxt)) × (find_setup_txts binary ≡ some r)
unfolding find_setup_txts
find_setup_txts-ends binary = scan-ends (suc (length binary)) binary 0 (omega arith) (omega arith)
