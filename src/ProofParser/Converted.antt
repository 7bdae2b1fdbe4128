-- ===== src/ProofParser/Converted.antt =====
-- The proofs of src/proof_parser.rs: the first point is negated as `negate_g1_be` of src/groth16.rs
-- does it.
use groth16_solana.Prelude.{
  ℕ, ◌-◌, ◌%◌, ◌<◌, ◌≡◌, ◌≢◌, refl, ◌∙◌, ap, ap₂, sym, ◌⊎◌, inl, inr, ◌++◌, reverse, ok, >>=-eq-ok,
  ok_injective, map_err, length, take, drop, arith, take-append, drop-append,
}
use groth16_solana.Prelude.Bytes.{
  Bytes, IsArray, be_value, to_be, to_be-IsArray, append-IsArray, be_value_injective,
}
use groth16_solana.Prelude.Buffer.{
  zeros, copy_from_slice, copy_from_slice-zero, copy_from_slice-append,
}
use groth16_solana.Prelude.Little.{le_value, be_value-reverse, reverse-IsArray, be_value-to_be}
use groth16_solana.Errors.{from_serialization_error}
use groth16_solana.Negate.{fq_modulus, negate_g1_be}
use groth16_solana.Negate.Point.{y_value, y_value-zeros, same_point, negate_g1_be_lem}
use groth16_solana.ProofParser.Points.{
  Ark, CircomG1, CircomProof, convert_g1, convert_g2, write_fq, convert_proof,
}
use groth16_solana.ProofParser.Laws.{IsArk}
use groth16_solana.ProofParser.Affine.{IsPoint, convert_g1-ok}

origin : to_be 32 0 ++ to_be 32 0 ≡ zeros 64
unfolding to_be zeros
origin = refl

room_x : length (take 32 (drop 0 (zeros 65))) ≡ 32
unfolding zeros
room_x = refl

room_y : length (take 32 (drop 32 (zeros 65))) ≡ 32
unfolding zeros
room_y = refl

module _ (ark : Ark) (laws : IsArk ark) where
  -- A coordinate that is written to its half of the buffer.
  write_fq_lem :
      (lo hi : ℕ) (x : Ark.Fq ark) (buf : Bytes)
      → length (take 32 (drop lo buf)) ≡ 32
      → (out : Bytes) × (write_fq ark lo hi x buf ≡ ok (copy_from_slice lo hi out buf))
        × IsArray 32 out
        × (le_value out ≡ laws.value x)
  unfolding write_fq
  write_fq_lem lo hi x buf size =
      let (out, e, a, v) = laws.serialize x (take 32 (drop lo buf)) size in (out, rw e refl, a, v)

  -- The first point in the verifier's layout.
  point_be :
      (x y : Bytes)
      → IsArray 32 x
      → IsArray 32 y
      → ark.convert_endianness_32_64 (x ++ y) ≡ reverse x ++ reverse y
  point_be x y ax ay =
      laws.endianness (x ++ y) (append-IsArray 32 32 ax ay)
      ∙ ap₂ (λ s t. reverse s ++ reverse t) (take-append 32 x y ax.size)
          (drop-append 32 x y ax.size)

  -- The uncompressed big-endian form of a point.
  abbrev pub uncompressed : CircomG1 → Bytes
  uncompressed point = to_be 32 point.x ++ to_be 32 point.y

  uncompressed-IsArray : (point : CircomG1) → IsArray 64 (uncompressed point)
  uncompressed-IsArray point =
      append-IsArray 32 32 (to_be-IsArray 32 point.x) (to_be-IsArray 32 point.y)

  uncompressed_y :
      (point : CircomG1) → point.y < fq_modulus → y_value (uncompressed point) ≡ point.y
  uncompressed_y point h =
      ap be_value
        (drop-append 32 (to_be 32 point.x) (to_be 32 point.y) (to_be-IsArray 32 point.x).size)
      ∙ be_value-to_be 32 point.y (omega (arith, h))

  negated_y :
      (point : CircomG1) (affine : Ark.G1Affine ark)
      → IsPoint ark laws point affine
      → y_value (negate_g1_be (uncompressed point)) ≡ (fq_modulus - point.y) % fq_modulus
  negated_y point affine h =
      let y : y_value (uncompressed point) ≡ point.y = uncompressed_y point h.y_below in
      let (array, x, cases) =
        negate_g1_be_lem (uncompressed point) (uncompressed-IsArray point)
          (omega (arith, y, h.y_below)) in
      by_cases y cases
    where
      zero_point : point.x ≡ 0 → point.y ≡ 0 → uncompressed point ≡ zeros 64
      zero_point x0 y0 = ap₂ (λ x y. to_be 32 x ++ to_be 32 y) x0 y0 ∙ origin

      by_cases :
          y_value (uncompressed point) ≡ point.y
          → ((uncompressed point ≡ zeros 64) × (negate_g1_be (uncompressed point) ≡ zeros 64))
            ⊎ ((uncompressed point ≢ zeros 64)
                × (y_value (negate_g1_be (uncompressed point))
                    ≡ fq_modulus - y_value (uncompressed point)))
          → y_value (negate_g1_be (uncompressed point)) ≡ (fq_modulus - point.y) % fq_modulus
      by_cases y (inl (e, k)) = omega (arith, y, ap y_value e, ap y_value k, y_value-zeros)
      by_cases y (inr (ne, v)) = elim h.order [
        | inl (x0, y0) ↦ absurd (ne (zero_point x0 y0))
        | inr lo ↦ omega (arith, v, y, lo, h.y_below)
      ]

  filled :
      (x y : Bytes)
      → IsArray 32 x
      → IsArray 32 y
      → take 64 (copy_from_slice 32 64 y (copy_from_slice 0 32 x (zeros 65))) ≡ x ++ y
  filled x y ax ay =
      ap (λ t. take 64 (copy_from_slice 32 64 y t)) (copy_from_slice-zero 32 x (zeros 65) ax.size)
      ∙ ap (take 64) (copy_from_slice-append 32 64 32 x y (drop 32 (zeros 65)) ax.size ay.size refl)
      ∙ take-append 64 (x ++ y) _ (append-IsArray 32 32 ax ay).size

  -- The bytes of the negated point, from the two coordinates that were written.
  negated_bytes :
      (point : CircomG1) (affine : Ark.G1Affine ark) (x y : Bytes)
      → IsPoint ark laws point affine
      → IsArray 32 x
      → IsArray 32 y
      → le_value x ≡ laws.value (ark.g1_x (ark.g1_neg affine))
      → le_value y ≡ laws.value (ark.g1_y (ark.g1_neg affine))
      → ark.convert_endianness_32_64 (x ++ y) ≡ negate_g1_be (uncompressed point)
  negated_bytes point affine x y h ax ay vx vy =
      let rx = reverse-IsArray 32 ax in
      let ry = reverse-IsArray 32 ay in
      let tx = to_be-IsArray 32 point.x in
      let (array, front, cases) =
        negate_g1_be_lem (uncompressed point) (uncompressed-IsArray point)
          (omega (arith, uncompressed_y point h.y_below, h.y_below)) in
      let same_x : reverse x ≡ to_be 32 point.x =
        be_value_injective (reverse x) (to_be 32 point.x) rx.bytes tx.bytes (rx.size ∙ sym tx.size)
          (be_value-reverse x
            ∙ vx
            ∙ laws.neg_x affine
            ∙ h.x
            ∙ sym (be_value-to_be 32 point.x (omega (arith, h.x_below)))) in
      point_be x y ax ay
      ∙ same_point (reverse x ++ reverse y) (negate_g1_be (uncompressed point))
          (append-IsArray 32 32 rx ry) array
          (take-append 32 (reverse x) (reverse y) rx.size
            ∙ same_x
            ∙ sym (take-append 32 (to_be 32 point.x) (to_be 32 point.y) tx.size)
            ∙ sym front)
          (ap be_value (drop-append 32 (reverse x) (reverse y) rx.size)
            ∙ be_value-reverse y
            ∙ vy
            ∙ laws.neg_y affine
            ∙ ap (λ (t : ℕ). (fq_modulus - t) % fq_modulus) h.y
            ∙ sym (negated_y point affine h))

  written_point :
      (point : CircomG1) (affine : Ark.G1Affine ark) (buf_x buf_y : Bytes)
      → IsPoint ark laws point affine
      → write_fq ark 0 32 (ark.g1_x (ark.g1_neg affine)) (zeros 65) ≡ ok buf_x
      → write_fq ark 32 64 (ark.g1_y (ark.g1_neg affine)) buf_x ≡ ok buf_y
      → ark.convert_endianness_32_64 (take 64 buf_y) ≡ negate_g1_be (uncompressed point)
  written_point point affine buf_x buf_y h ex ey =
      let (x, ex', ax, vx) = write_fq_lem 0 32 (ark.g1_x (ark.g1_neg affine)) (zeros 65) room_x in
      let at_x : buf_x ≡ copy_from_slice 0 32 x (zeros 65) = ok_injective (sym ex ∙ ex') in
      let (y, ey', ay, vy) = write_fq_lem 32 64 (ark.g1_y (ark.g1_neg affine)) buf_x (
        ap (λ t. length (take 32 (drop 32 t))) (at_x ∙ copy_from_slice-zero 32 x (zeros 65) ax.size)
        ∙ ap (λ t. length (take 32 t)) (drop-append 32 x (drop 32 (zeros 65)) ax.size)
        ∙ room_y) in
      let at_y : buf_y ≡ copy_from_slice 32 64 y (copy_from_slice 0 32 x (zeros 65)) =
        ok_injective (sym ey ∙ ey') ∙ ap (copy_from_slice 32 64 y) at_x in
      ap (λ t. ark.convert_endianness_32_64 (take 64 t)) at_y
      ∙ ap ark.convert_endianness_32_64 (filled x y ax ay)
      ∙ negated_bytes point affine x y h ax ay vx vy

  -- A proof that is converted has its first point negated: its bytes are what `negate_g1_be` makes of
  -- the uncompressed point, whose coordinates are below p.
  pub convert_proof-negate_g1_be :
      (proof : CircomProof) {proof_a proof_b proof_c : Bytes}
      → convert_proof ark proof ≡ ok (proof_a, proof_b, proof_c)
      → (proof.a.x < fq_modulus)
        × (proof.a.y < fq_modulus)
        × (proof_a ≡ negate_g1_be (uncompressed proof.a))
  unfolding convert_proof
  convert_proof-negate_g1_be proof {proof_a} {proof_b} {proof_c} e =
      let (a, ea, k1) = >>=-eq-ok (convert_g1 ark proof.a) _ e in
      let (b, eb, k2) = >>=-eq-ok (convert_g2 ark proof.b) _ k1 in
      let (c, ec, k3) = >>=-eq-ok (convert_g1 ark proof.c) _ k2 in
      let (buf_x, ex, k4) =
        >>=-eq-ok (write_fq ark 0 32 (ark.g1_x (ark.g1_neg a)) (zeros 65)) _ k3 in
      let (buf_y, ey, k5) = >>=-eq-ok (write_fq ark 32 64 (ark.g1_y (ark.g1_neg a)) buf_x) _ k4 in
      let (b_bytes, ebb, k6) =
        >>=-eq-ok (map_err from_serialization_error (ark.serialize_g2 b (zeros 129))) _ k5 in
      let (c_bytes, ecb, k7) =
        >>=-eq-ok (map_err from_serialization_error (ark.serialize_g1 c (zeros 65))) _ k6 in
      let h = convert_g1-ok ark laws proof.a ea in
      (
        h.x_below,
        h.y_below,
        sym (ap (λ r. r.0) (ok_injective k7)) ∙ written_point proof.a a buf_x buf_y h ex ey,
      )
