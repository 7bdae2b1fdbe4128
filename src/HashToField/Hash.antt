-- ===== src/HashToField/Hash.antt =====
-- `hash_to_field_bn254_fr` of src/hash_to_field.rs as a whole.
use groth16_solana.Prelude.{
  ℕ, ◌+◌, ◌*◌, ◌%◌, ◌^◌, ◌≤◌, ◌<◌, ◌≡◌, refl, ap, ◌∙◌, [], ◌∷◌, ◌++◌, length, arith, All, subst,
}
use groth16_solana.Prelude.Bytes.{
  Bytes, IsArray, be_value, be_value-append, to_be, take-IsArray, append-IsArray, length-to_be,
  to_be-IsArray,
}
use groth16_solana.HashToField.{Limbs, FrOps, reduce_be_l48, limbs_to_be, hash_to_field_bn254_fr}
use groth16_solana.HashToField.Expand.{
  expand_message_xmd, expand_message_xmd_sha256_l48-eq-expand_message_xmd,
}
use groth16_solana.HashToField.Reduce.{
  fr_modulus, limbs_value, IsBigInt, IsMontgomery, reduce_be_l48_lem,
}

to_be-word : (l : ℕ) → l < 2 ^ 64 → be_value (to_be 8 l) ≡ l
unfolding be_value to_be
to_be-word l h = omega arith

be_value-limbs_to_be :
    (ls : Limbs) → All (λ l. l < 2 ^ 64) ls → be_value (limbs_to_be ls) ≡ limbs_value ls
unfolding limbs_value
be_value-limbs_to_be [] h = unfold be_value in refl
be_value-limbs_to_be (l ∷ ls) (hl, h) =
    be_value-append (limbs_to_be ls) (to_be 8 l)
    ∙ omega (
      arith,
      ap (λ (k : ℕ). be_value (limbs_to_be ls) * 256 ^ k) (length-to_be 8 l),
      to_be-word l hl,
      be_value-limbs_to_be ls h,
    )

limbs_to_be-IsArray : (ls : Limbs) (n : ℕ) → length ls * 8 ≡ n → IsArray n (limbs_to_be ls)
limbs_to_be-IsArray [] n e = record { size = omega arith; bytes = tt }
limbs_to_be-IsArray (l ∷ ls) n e =
    subst (λ (k : ℕ). IsArray k (limbs_to_be ls ++ to_be 8 l)) {x = length ls * 8 + 8} {y = n}
      (omega arith)
      (append-IsArray (length ls * 8) 8 (limbs_to_be-IsArray ls (length ls * 8) refl)
        (to_be-IsArray 8 l))

module _ (sha256 : Bytes → Bytes) (digest : (x : Bytes) → IsArray 32 (sha256 x)) where
  expand_message_xmd-IsArray : (msg dst : Bytes) → IsArray 48 (expand_message_xmd sha256 msg dst)
  unfolding expand_message_xmd
  expand_message_xmd-IsArray msg dst =
      take-IsArray 48 64 (omega arith) (append-IsArray 32 32 (digest _) (digest _))

  -- For every hash with 32-byte digests and a DST of at most 255 bytes the result is RFC 9380's
  -- expanded message as an integer modulo r, in 32 big-endian bytes; so it is below r.
  pub hash_to_field_bn254_fr_lem :
      (fr : FrOps) (msg dst : Bytes)
      → IsMontgomery fr
      → length dst ≤ 255
      → (be_value (hash_to_field_bn254_fr sha256 fr msg dst)
          ≡ be_value (expand_message_xmd sha256 msg dst) % fr_modulus)
        × IsArray 32 (hash_to_field_bn254_fr sha256 fr msg dst)
        × (be_value (hash_to_field_bn254_fr sha256 fr msg dst) < fr_modulus)
  unfolding hash_to_field_bn254_fr
  hash_to_field_bn254_fr_lem fr msg dst m h =
      rw
        (expand_message_xmd_sha256_l48-eq-expand_message_xmd sha256 (λ x. (digest x).size) msg dst
          h)
        (
          value,
          limbs_to_be-IsArray (reduce_be_l48 fr raw) 32 (omega (arith, reduced.1.size)),
          omega (arith, value),
        )
    where
      raw : Bytes
      raw = expand_message_xmd sha256 msg dst

      reduced :
          (limbs_value (reduce_be_l48 fr raw) ≡ be_value raw % fr_modulus)
          × IsBigInt (reduce_be_l48 fr raw)
      reduced = reduce_be_l48_lem fr raw m (expand_message_xmd-IsArray msg dst)

      value : be_value (limbs_to_be (reduce_be_l48 fr raw)) ≡ be_value raw % fr_modulus
      value = be_value-limbs_to_be (reduce_be_l48 fr raw) reduced.1.words ∙ reduced.0
