-- ===== src/Negate/Limbs.antt =====
-- The borrow chain of `negate_g1_be` in src/groth16.rs.
use groth16_solana.Prelude.{
  ℕ, ◌+◌, ◌-◌, ◌*◌, ◌%◌, ◌^◌, ◌≤◌, ◌<◌, ◌≡◌, refl, [], ◌∷◌, reverse, arith,
}
use groth16_solana.Negate.{sub_limb, sub_limbs, fq, fq_modulus}

-- The integer of four limbs, the most significant first.
abbrev pub limbs_value_be : ℕ → ℕ → ℕ → ℕ → ℕ
limbs_value_be n0 n1 n2 n3 = 2 ^ 192 * n0 + 2 ^ 128 * n1 + 2 ^ 64 * n2 + n3

-- One round subtracts exactly, owing 2^64 where it borrows, and never borrows twice.
sub_limb_lem :
    (f y borrow : ℕ)
    → f < 2 ^ 64
    → y < 2 ^ 64
    → borrow ≤ 1
    → ((sub_limb f y borrow).0 + y + borrow ≡ f + 2 ^ 64 * (sub_limb f y borrow).1)
      × ((sub_limb f y borrow).0 < 2 ^ 64)
      × ((sub_limb f y borrow).1 ≤ 1)
unfolding sub_limb
sub_limb_lem f y borrow hf hy hb = ground arith

pub record Difference (y0 y1 y2 y3 : ℕ) : Type 0 where
  pub n0 : ℕ
  pub n1 : ℕ
  pub n2 : ℕ
  pub n3 : ℕ
  pub computed :
      sub_limbs (reverse fq) (reverse (y0 ∷ y1 ∷ y2 ∷ y3 ∷ [])) 0 [] ≡ n0 ∷ n1 ∷ n2 ∷ n3 ∷ []
  pub below : (n0 < 2 ^ 64) × (n1 < 2 ^ 64) × (n2 < 2 ^ 64) × (n3 < 2 ^ 64)
  pub exact :
      limbs_value_be n0 n1 n2 n3 ≡ (fq_modulus + 2 ^ 256 - limbs_value_be y0 y1 y2 y3) % 2 ^ 256

-- The chain computes p - y modulo 2^256.
pub difference :
    (y0 y1 y2 y3 : ℕ)
    → y0 < 2 ^ 64
    → y1 < 2 ^ 64
    → y2 < 2 ^ 64
    → y3 < 2 ^ 64
    → Difference y0 y1 y2 y3
difference y0 y1 y2 y3 h0 h1 h2 h3 =
    let r3 = sub_limb 0x3c208c16d87cfd47 y3 0 in
    let l3 = sub_limb_lem 0x3c208c16d87cfd47 y3 0 (omega arith) h3 (omega arith) in
    let r2 = sub_limb 0x97816a916871ca8d y2 r3.1 in
    let l2 = sub_limb_lem 0x97816a916871ca8d y2 r3.1 (omega arith) h2 l3.2 in
    let r1 = sub_limb 0xb85045b68181585d y1 r2.1 in
    let l1 = sub_limb_lem 0xb85045b68181585d y1 r2.1 (omega arith) h1 l2.2 in
    let r0 = sub_limb 0x30644e72e131a029 y0 r1.1 in
    let l0 = sub_limb_lem 0x30644e72e131a029 y0 r1.1 (omega arith) h0 l1.2 in
    record {
      n0 = r0.0;
      n1 = r1.0;
      n2 = r2.0;
      n3 = r3.0;
      computed = unfold sub_limbs in refl;
      below = (l0.1, l1.1, l2.1, l3.1);
      exact = omega arith;
    }
