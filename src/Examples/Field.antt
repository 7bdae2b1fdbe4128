-- ===== src/Examples/Field.antt =====
-- Montgomery arithmetic modulo r on four limbs, as an instance of the field's interface.
use groth16_solana.Prelude.{ℕ, ◌+◌, ◌*◌, ◌/◌, ◌%◌, ◌^◌, ◌<◌, ◌≡◌, [], ◌∷◌, arith}
use groth16_solana.HashToField.{Limbs, FrOps}
use groth16_solana.HashToField.Reduce.{fr_modulus, r_inv, limbs_value, IsBigInt, IsMontgomery}

unfoldable pub limbs_of : ℕ → Limbs
limbs_of n = n % 2 ^ 64 ∷ n / 2 ^ 64 % 2 ^ 64 ∷ n / 2 ^ 128 % 2 ^ 64 ∷ n / 2 ^ 192 % 2 ^ 64 ∷ []

limbs_value-limbs_of : (n : ℕ) → n < 2 ^ 256 → limbs_value (limbs_of n) ≡ n
unfolding limbs_value limbs_of
limbs_value-limbs_of n h = omega arith

limbs_of-IsBigInt : (n : ℕ) → IsBigInt (limbs_of n)
unfolding limbs_of
limbs_of-IsBigInt n = record {
  size = omega arith;
  words = (omega arith, (omega arith, (omega arith, (omega arith, tt))));
}

reduced : (n : ℕ) → limbs_value (limbs_of (n % fr_modulus)) ≡ n % fr_modulus
reduced n = limbs_value-limbs_of (n % fr_modulus) (omega arith)

abbrev pub fr : FrOps
fr = record {
  new = λ x. limbs_of (limbs_value x * 2 ^ 256 % fr_modulus);
  mul = λ x y. limbs_of (limbs_value x * limbs_value y * r_inv % fr_modulus);
  add = λ x y. limbs_of ((limbs_value x + limbs_value y) % fr_modulus);
}

pub fr-IsMontgomery : IsMontgomery fr
fr-IsMontgomery = record {
  new_lem = λ x h. reduced (limbs_value x * 2 ^ 256);
  mul_lem = λ x y h k. reduced (limbs_value x * limbs_value y * r_inv);
  add_lem = λ x y h k. reduced (limbs_value x + limbs_value y);
  add-IsBigInt = λ x y. limbs_of-IsBigInt ((limbs_value x + limbs_value y) % fr_modulus);
}
