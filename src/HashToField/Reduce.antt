-- ===== src/HashToField/Reduce.antt =====
-- `reduce_be_l48` of src/hash_to_field.rs: the two halves give the 384-bit integer modulo r.
use groth16_solana.Prelude.{
  ℕ, ◌+◌, ◌-◌, ◌*◌, ◌%◌, ◌^◌, ◌≤◌, ◌<◌, ◌≡◌, refl, ap, ◌∙◌, [], ◌∷◌, length, drop, arith, All,
  length-drop, ap₂,
}
use groth16_solana.Prelude.Bytes.{Bytes, IsArray, be_value}
use groth16_solana.Prelude.Words.{word, word-lt, word_step, be_value-empty}
use groth16_solana.HashToField.{Limbs, FrOps, limb, reduce_be_l48}

-- The order r of the scalar field.
abbrev pub fr_modulus : ℕ
fr_modulus = 21888242871839275222246405745257275088548364400416034343698204186575808495617

-- The inverse of 2^256 modulo r.
abbrev pub r_inv : ℕ
r_inv = 9915499612839321149637521777990102151350674507940716049588462388200839649614

r_inv_lem : 2 ^ 256 * r_inv % fr_modulus ≡ 1
r_inv_lem = refl

unfoldable pub limbs_value : Limbs → ℕ
limbs_value [] = 0
limbs_value (l ∷ ls) = l + 2 ^ 64 * limbs_value ls

pub record IsBigInt (ls : Limbs) : Type 0 where
  pub size : length ls ≡ 4
  pub words : All (λ l. l < 2 ^ 64) ls

-- What arkworks documents of its Montgomery arithmetic on canonical limbs: `new` enters Montgomery
-- form, a product loses one factor 2^256, and a sum is that of the limbs, both reduced.
pub record IsMontgomery (fr : FrOps) : Type 0 where
  pub new_lem :
      (x : Limbs)
      → limbs_value x < fr_modulus
      → limbs_value (fr.new x) ≡ limbs_value x * 2 ^ 256 % fr_modulus
  pub mul_lem :
      (x y : Limbs)
      → limbs_value x < fr_modulus
      → limbs_value y < fr_modulus
      → limbs_value (fr.mul x y) ≡ limbs_value x * limbs_value y * r_inv % fr_modulus
  pub add_lem :
      (x y : Limbs)
      → limbs_value x < fr_modulus
      → limbs_value y < fr_modulus
      → limbs_value (fr.add x y) ≡ (limbs_value x + limbs_value y) % fr_modulus
  pub add-IsBigInt : (x y : Limbs) → IsBigInt (fr.add x y)

limb-eq-word :
    (raw : Bytes) (i o : ℕ) → IsArray 48 raw → 48 - 8 * (i + 1) ≡ o → limb raw i ≡ word raw o
limb-eq-word raw i o h e =
    ap (λ (n : ℕ). word raw n) {x = length raw - 8 * (i + 1)} {y = o} (omega (arith, h.size))

-- The six words make up the whole integer.
words_of_raw :
    (raw : Bytes)
    → IsArray 48 raw
    → be_value raw
      ≡ word raw 40
        + 2 ^ 64 * word raw 32
        + 2 ^ 128 * word raw 24
        + 2 ^ 192 * word raw 16
        + 2 ^ 256 * word raw 8
        + 2 ^ 320 * word raw 0
words_of_raw raw h = omega (
  arith,
  word_step 48 raw 0 8 40 h refl refl,
  word_step 48 raw 8 16 32 h refl refl,
  word_step 48 raw 16 24 24 h refl refl,
  word_step 48 raw 24 32 16 h refl refl,
  word_step 48 raw 32 40 8 h refl refl,
  word_step 48 raw 40 48 0 h refl refl,
  be_value-empty (drop 48 raw) (omega (arith, length-drop 48 raw, h.size)),
)

limbs_of_raw :
    (raw : Bytes)
    → IsArray 48 raw
    → be_value raw
      ≡ limb raw 0
        + 2 ^ 64 * limb raw 1
        + 2 ^ 128 * limb raw 2
        + 2 ^ 192 * limb raw 3
        + 2 ^ 256 * limb raw 4
        + 2 ^ 320 * limb raw 5
limbs_of_raw raw h = omega (
  arith,
  words_of_raw raw h,
  limb-eq-word raw 0 40 h refl,
  limb-eq-word raw 1 32 h refl,
  limb-eq-word raw 2 24 h refl,
  limb-eq-word raw 3 16 h refl,
  limb-eq-word raw 4 8 h refl,
  limb-eq-word raw 5 0 h refl,
)

-- Three words stay below 2^192, hence below r.
limbs_value-three : (a b c : ℕ) → limbs_value (a ∷ b ∷ c ∷ 0 ∷ []) ≡ a + 2 ^ 64 * b + 2 ^ 128 * c
unfolding limbs_value
limbs_value-three a b c = omega arith

limb-lt :
    (raw : Bytes) (i o : ℕ) → IsArray 48 raw → 48 - 8 * (i + 1) ≡ o → o ≤ 40 → limb raw i < 2 ^ 64
limb-lt raw i o h e le = omega (arith, limb-eq-word raw i o h e, word-lt 48 raw o h (omega arith))

montgomery_step :
    (high low : ℕ)
    → (high * (2 ^ 192 * 2 ^ 256 % fr_modulus) * r_inv % fr_modulus + low) % fr_modulus
      ≡ (high * 2 ^ 192 + low) % fr_modulus
montgomery_step high low = omega arith

module _ (fr : FrOps) (m : IsMontgomery fr) (high one low : Limbs) (h l : ℕ) where
  mul_new :
      limbs_value high ≡ h
      → h < 2 ^ 192
      → limbs_value one ≡ 2 ^ 192
      → limbs_value (fr.mul high (fr.new one))
        ≡ h * (2 ^ 192 * 2 ^ 256 % fr_modulus) * r_inv % fr_modulus
  mul_new eh hh eo =
      m.mul_lem high (fr.new one) (omega arith) (omega (arith, new_one))
      ∙ ap₂ (λ (a b : ℕ). a * b * r_inv % fr_modulus) eh new_one
    where
      new_one : limbs_value (fr.new one) ≡ 2 ^ 192 * 2 ^ 256 % fr_modulus
      new_one = m.new_lem one (omega arith) ∙ ap (λ (a : ℕ). a * 2 ^ 256 % fr_modulus) eo

  halves :
      limbs_value high ≡ h
      → h < 2 ^ 192
      → limbs_value one ≡ 2 ^ 192
      → limbs_value low ≡ l
      → l < 2 ^ 192
      → limbs_value (fr.add (fr.mul high (fr.new one)) low) ≡ (h * 2 ^ 192 + l) % fr_modulus
  halves eh hh eo el hl =
      m.add_lem (fr.mul high (fr.new one)) low (omega (arith, mul_new eh hh eo)) (omega arith)
      ∙ ap₂ (λ (a b : ℕ). (a + b) % fr_modulus) (mul_new eh hh eo) el
      ∙ montgomery_step h l

-- Under the laws of Montgomery arithmetic the reduction of 48 bytes is their big-endian value
-- modulo r, as four 64-bit limbs.
pub reduce_be_l48_lem :
    (fr : FrOps) (raw : Bytes)
    → IsMontgomery fr
    → IsArray 48 raw
    → (limbs_value (reduce_be_l48 fr raw) ≡ be_value raw % fr_modulus)
      × IsBigInt (reduce_be_l48 fr raw)
unfolding reduce_be_l48
reduce_be_l48_lem fr raw m h = (value, m.add-IsBigInt _ _)
  where
    low : Limbs
    low = limb raw 0 ∷ limb raw 1 ∷ limb raw 2 ∷ 0 ∷ []

    high : Limbs
    high = limb raw 3 ∷ limb raw 4 ∷ limb raw 5 ∷ 0 ∷ []

    one : Limbs
    one = 0 ∷ 0 ∷ 0 ∷ 1 ∷ []

    value : limbs_value (fr.add (fr.mul high (fr.new one)) low) ≡ be_value raw % fr_modulus
    value =
        halves fr m high one low (limb raw 3 + 2 ^ 64 * limb raw 4 + 2 ^ 128 * limb raw 5)
          (limb raw 0 + 2 ^ 64 * limb raw 1 + 2 ^ 128 * limb raw 2) (limbs_value-three _ _ _)
          (omega (
            arith,
            limb-lt raw 3 16 h refl (omega arith),
            limb-lt raw 4 8 h refl (omega arith),
            limb-lt raw 5 0 h refl (omega arith),
          ))
          (unfold limbs_value in refl) (limbs_value-three _ _ _)
          (omega (
            arith,
            limb-lt raw 0 40 h refl (omega arith),
            limb-lt raw 1 32 h refl (omega arith),
            limb-lt raw 2 24 h refl (omega arith),
          ))
        ∙ ap (λ (n : ℕ). n % fr_modulus) (omega (arith, limbs_of_raw raw h))
