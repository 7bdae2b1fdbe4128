-- ===== src/ProofParser/Coordinate.antt =====
-- `convert_coordinate` of src/proof_parser.rs.
use groth16_solana.Prelude.{
  ℕ, ◌+◌, ◌-◌, ◌^◌, ◌≤◌, ◌<◌, ◌≡◌, refl, ◌∙◌, ap, sym, subst, ◌⊎◌, inl, inr, true, false, some,
  none, ◌++◌, Result, ok, err, ok_injective, length, ltb, arith, All, drop-replicate, Bool-cases,
}
use groth16_solana.Prelude.Bytes.{Bytes, IsByte, IsArray, append-IsArray}
use groth16_solana.Prelude.Buffer.{zeros, zeros-IsArray, copy_from_slice-zero}
use groth16_solana.Prelude.Little.{le_value, le_value-append_zeros}
use groth16_solana.Errors.{Groth16Error, proof_conversion_error, from_serialization_error}
use groth16_solana.Negate.{fq_modulus}
use groth16_solana.ProofParser.Points.{Ark, pad_coordinate, convert_coordinate}
use groth16_solana.ProofParser.Laws.{IsArk}

pub padded :
    (bs : Bytes) → All IsByte bs → length bs ≤ 32 → IsArray 32 (bs ++ zeros (32 - length bs))
padded bs h k =
    subst (λ (n : ℕ). IsArray n (bs ++ zeros (32 - length bs))) {x = length bs + (32 - length bs)}
      {y = 32} (omega arith)
      (append-IsArray (length bs) (32 - length bs) (record { size = refl; bytes = h })
        (zeros-IsArray (32 - length bs)))

pub le_value-padded : (bs : Bytes) → le_value (bs ++ zeros (32 - length bs)) ≡ le_value bs
unfolding zeros
le_value-padded bs = le_value-append_zeros bs (32 - length bs)

pad_coordinate-some :
    (bs : Bytes) → length bs ≤ 32 → pad_coordinate bs ≡ some (bs ++ zeros (32 - length bs))
unfolding pad_coordinate zeros
pad_coordinate-some bs k =
    let room : ltb 32 (length bs) ≡ false = ground arith in
    rw room (
      ap some (
        copy_from_slice-zero (length bs) bs (zeros 32) refl
        ∙ ap (λ t. bs ++ t) (drop-replicate (length bs) 32 0)))

pad_coordinate-none : (bs : Bytes) → 32 < length bs → pad_coordinate bs ≡ none
unfolding pad_coordinate
pad_coordinate-none bs k = let full : ltb 32 (length bs) ≡ true = ground arith in rw full refl

module _ (ark : Ark) (laws : IsArk ark) where
  -- The outcomes of a coordinate.
  abbrev pub Converts : ℕ → Result Groth16Error (Ark.Fq ark) → Type 0
  Converts n r =
      ((n < fq_modulus) × ((x : Ark.Fq ark) × (r ≡ ok x) × (laws.value x ≡ n)))
      ⊎ ((fq_modulus ≤ n)
          × (n < 2 ^ 256)
          × ((message : Bytes) × (r ≡ err (from_serialization_error message))))
      ⊎ ((2 ^ 256 ≤ n) × (r ≡ err proof_conversion_error))

  -- A coordinate below p becomes the field element of that value. One between p and 2^256 is refused by
  -- arkworks, and one that needs more than 32 bytes by its size.
  pub convert_coordinate_lem : (n : ℕ) → Converts n (convert_coordinate ark (ark.to_bytes_le n))
  unfolding convert_coordinate
  convert_coordinate_lem n =
      let le = ark.to_bytes_le n in
      elim (Bool-cases (ltb n (2 ^ 256))) [
        | inl small ↦
            let k = laws.short n (ground arith) in
            let a = padded le (laws.to_bytes_le-bytes n) k in
            let v : le_value (le ++ zeros (32 - length le)) ≡ n =
              le_value-padded le ∙ laws.le_value-to_bytes_le n in
            elim (Bool-cases (ltb n fq_modulus)) [
              | inl below ↦
                  let (x, e, vx) = laws.deserialize-below _ a (ground (arith, v)) in
                  inl (ground arith, (x, rw (pad_coordinate-some le k) (rw e refl), vx ∙ v))
              | inr above ↦
                  let (message, e) = laws.deserialize-above _ a (ground (arith, v)) in
                  inr (
                    inl (
                      ground arith,
                      ground arith,
                      (message, rw (pad_coordinate-some le k) (rw e refl)),
                    ))
            ]
        | inr large ↦
            inr (inr (ground arith, rw (pad_coordinate-none le (laws.long n (ground arith))) refl))
      ]

  pub coordinate-ok :
      (n : ℕ) {x : Ark.Fq ark}
      → convert_coordinate ark (ark.to_bytes_le n) ≡ ok x
      → (n < fq_modulus) × (laws.value x ≡ n)
  coordinate-ok n {x} e = elim (convert_coordinate_lem n) [
    | inl (below, (x', e', v)) ↦ (below, ap laws.value (ok_injective (sym e ∙ e')) ∙ v)
    | inr (inl (lo, hi, (message, e'))) ↦ absurd (cc (e, e'))
    | inr (inr (large, e')) ↦ absurd (cc (e, e'))
  ]
