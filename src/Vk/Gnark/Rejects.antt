-- ===== src/Vk/Gnark/Rejects.antt =====
-- Files that `parse_gnark_vk_bytes` of src/vk/gnark.rs refuses behind a good K column.
use groth16_solana.Prelude.{
  ℕ, ◌^◌, ◌<◌, ◌≡◌, ◌≢◌, refl, ◌∙◌, ap, true, false, ◌∷◌, ◌++◌, ok, err, length, arith, ltb, ◌==◌,
  length-drop,
}
use groth16_solana.Prelude.Bytes.{Bytes, to_be}
use groth16_solana.Errors.{
  Groth16Error, bsb22_invalid_verifying_key_binary, bsb22_unsupported_multi_commitment,
  bsb22_committed_public_inputs_unsupported,
}
use groth16_solana.Groth16.Layout.{concat}
use groth16_solana.Vk.Gnark.{
  Groth16VerifyingkeyOwned, Head, take_head, take_ic, skip_committed, take_nb_commitments,
  parse_gnark_vk_bytes,
}
use groth16_solana.Vk.Gnark.Reader.{Cursor, new}
use groth16_solana.Vk.Gnark.Reader.Laws.{left, IsIn}
use groth16_solana.Vk.Gnark.Format.{trailer, IsGnarkKey}
use groth16_solana.Vk.Gnark.Reads.{
  number-Reads, take_head-Reads, take_ic-Reads, take_nb_commitments-Reads, take_commitment-Reads,
  trailer-parts, points,
}

-- A file with any bytes in place of the trailer.
abbrev pub file_with : Bytes → Bytes → Groth16VerifyingkeyOwned → Bytes → Bytes
file_with beta_g1 delta_g1 vk rest =
    vk.vk_alpha_g1
    ++ (beta_g1
        ++ (vk.vk_beta_g2
            ++ (vk.vk_gamma_g2
                ++ (delta_g1
                    ++ (vk.vk_delta_g2
                        ++ (to_be 4 (length vk.vk_ic) ++ (concat vk.vk_ic ++ rest)))))))

module _ (beta_g1 delta_g1 : Bytes) (vk : Groth16VerifyingkeyOwned) (g : IsGnarkKey vk)
    (hb : length beta_g1 ≡ 64) (hd : length delta_g1 ≡ 64) (rest : Bytes)
    (small : length (file_with beta_g1 delta_g1 vk rest) < 2 ^ 64) where
  abbrev file : Bytes
  file = file_with beta_g1 delta_g1 vk rest

  -- The parser up to the trailer.
  up_to_trailer :
      (h : Head) × (c : Cursor) × (c' : Cursor) × (take_head (new file) ≡ ok (h, c))
      × (take_ic c ≡ ok ((length vk.vk_ic, vk.vk_ic), c'))
      × (left c' ≡ rest)
      × IsIn file c'
  up_to_trailer =
      let r1 =
        take_head-Reads {file = file} (new file) vk beta_g1 delta_g1
          (to_be 4 (length vk.vk_ic) ++ (concat vk.vk_ic ++ rest))
          (unfold new in record { buf = refl; pos = omega arith; size = small }) g hb hd
          (unfold new in refl) in
      let r2 =
        take_ic-Reads r1.cursor vk.vk_ic rest r1.inside r1.content g.ic (omega (arith, g.count))
          g.small in
      (_, r1.cursor, r2.cursor, r1.result, r2.result, r2.content, r2.inside)

  -- If the counts and the committed wires are refused, so is the file.
  refused :
      (e : Groth16Error)
      → ((c : Cursor) → left c ≡ rest → IsIn file c → take_nb_commitments c ≡ err e)
      → parse_gnark_vk_bytes file ≡ err e
  unfolding parse_gnark_vk_bytes
  refused e h =
      let (head, c, c', e1, e2, l, i) = up_to_trailer in rw e1 (rw e2 (rw (h c' l i) refl))

  -- More than one commitment is refused as such, whatever follows the count.
  pub parse_gnark_vk_bytes-multi :
      (n : ℕ) (more : Bytes)
      → rest ≡ to_be 4 n ++ more
      → 1 < n
      → n < 2 ^ 32
      → parse_gnark_vk_bytes file ≡ err bsb22_unsupported_multi_commitment
  unfolding take_nb_commitments
  parse_gnark_vk_bytes-multi n more e big bound = refused bsb22_unsupported_multi_commitment many
    where
      many :
          (c : Cursor)
          → left c ≡ rest
          → IsIn file c
          → take_nb_commitments c ≡ err bsb22_unsupported_multi_commitment
      many c l i =
          let r = number-Reads c n more i (l ∙ e) bound in
          let two : ltb 1 n ≡ true = ground arith in rw r.result (rw two refl)

  -- A circuit that commits to public inputs is refused as such, whatever follows the count of wires.
  pub parse_gnark_vk_bytes-committed :
      (n : ℕ) (more : Bytes)
      → rest ≡ to_be 4 1 ++ (to_be 4 n ++ more)
      → 0 < n
      → n < 2 ^ 32
      → parse_gnark_vk_bytes file ≡ err bsb22_committed_public_inputs_unsupported
  unfolding take_nb_commitments skip_committed
  parse_gnark_vk_bytes-committed n more e pos bound =
      refused bsb22_committed_public_inputs_unsupported wires
    where
      wires :
          (c : Cursor)
          → left c ≡ rest
          → IsIn file c
          → take_nb_commitments c ≡ err bsb22_committed_public_inputs_unsupported
      wires c l i =
          let r1 = number-Reads c 1 (to_be 4 n ++ more) i (l ∙ e) (omega arith) in
          let r2 = number-Reads r1.cursor n more r1.inside r1.content bound in
          let some_wire : (n == 0) ≡ false = ground arith in
          rw r1.result (rw r2.result (rw some_wire refl))

  -- A good file with more bytes behind it is refused as malformed.
  pub parse_gnark_vk_bytes-trailing :
      (x : ℕ) (more : Bytes)
      → rest ≡ trailer vk.vk_commitment ++ (x ∷ more)
      → parse_gnark_vk_bytes file ≡ err bsb22_invalid_verifying_key_binary
  unfolding parse_gnark_vk_bytes
  parse_gnark_vk_bytes-trailing x more e =
      let (head, c, c', e1, e2, l, i) = up_to_trailer in
      let r3 =
        take_nb_commitments-Reads c' vk.vk_commitment (points vk.vk_commitment (x ∷ more)) i
          (l ∙ e ∙ trailer-parts vk.vk_commitment (x ∷ more)) in
      let r4 =
        take_commitment-Reads r3.cursor vk.vk_commitment (x ∷ more) r3.inside g.commitment
          r3.content in
      rw e1
        (rw e2 (rw r3.result (rw r4.result (rw (not_at_end r4.cursor r4.inside r4.content) refl))))
    where
      not_at_end : (c : Cursor) → IsIn file c → left c ≡ x ∷ more → (c.pos == length file) ≡ false
      not_at_end c i l =
          let short : c.pos ≢ length file = λ same. absurd (
            omega (
              arith,
              same,
              length-drop c.pos c.buf,
              ap (λ t. length t) i.buf,
              ap (λ t. length t) l,
            )) in
          ground arith
