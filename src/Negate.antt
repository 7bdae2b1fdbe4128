-- ===== src/Negate.antt =====
-- src/groth16.rs, `negate_g1_be`: the negation of an uncompressed G1 point on u64 limbs.
pub mod Limbs
pub mod Point
use groth16_solana.Prelude.{
  ℕ, ◌+◌, ◌-◌, ◌*◌, ◌%◌, ◌^◌, ◌≤◌, ◌<◌, ◌≡◌, ◌≢◌, refl, ◌∙◌, ap, sym, Bool, true, false, ◌&&◌, List,
  [], ◌∷◌, ◌++◌, ltb, ◌==◌, length, take, drop, reverse, arith, if◌then◌else◌, Bool-cases, inl, inr,
}
use groth16_solana.Prelude.Bytes.{Bytes, IsByte, IsArray, be_value, to_be}
use groth16_solana.Prelude.ByteEq.{bytes_eq}
use groth16_solana.Prelude.Words.{word}
use groth16_solana.Prelude.Buffer.{zeros, copy_from_slice}

-- `u64::overflowing_sub`
abbrev pub overflowing_sub : ℕ → ℕ → ℕ × Bool
overflowing_sub a b = ((a + 2 ^ 64 - b) % 2 ^ 64, ltb a b)

-- `b as u64`
abbrev pub as_u64 : Bool → ℕ
as_u64 b = if b then 1 else 0

-- One round of the loop: `fq - y - borrow` on one limb, with the next borrow.
unfoldable pub sub_limb : ℕ → ℕ → ℕ → ℕ × ℕ
sub_limb fq y borrow =
    let (diff, b1) = overflowing_sub fq y in
    let (diff, b2) = overflowing_sub diff borrow in (diff, as_u64 b1 + as_u64 b2)

-- The base field's modulus p, and `FQ`, its limbs, the most significant first.
abbrev pub fq_modulus : ℕ
fq_modulus = 21888242871839275222246405745257275088696311157297823662689037894645226208583

abbrev pub fq : List ℕ
fq = 0x30644e72e131a029 ∷ 0xb85045b68181585d ∷ 0x97816a916871ca8d ∷ 0x3c208c16d87cfd47 ∷ []

-- `for i in (0..4).rev()`: the limbs come least significant first, and the differences are put in
-- front of those already computed.
unfoldable pub sub_limbs : List ℕ → List ℕ → ℕ → List ℕ → List ℕ
unfolding sub_limb
sub_limbs (f ∷ fs) (y ∷ ys) borrow neg_y =
    let (diff, borrow) = sub_limb f y borrow in sub_limbs fs ys borrow (diff ∷ neg_y)
sub_limbs fs ys borrow neg_y = neg_y

-- `result[i..i + 8].copy_from_slice(&limb.to_be_bytes())` for the limbs from byte `i` on.
unfoldable pub write_limbs : ℕ → List ℕ → Bytes → Bytes
write_limbs i [] buf = buf
write_limbs i (l ∷ ls) buf = write_limbs (i + 8) ls (copy_from_slice i (i + 8) (to_be 8 l) buf)

unfoldable pub negate_g1_be : Bytes → Bytes
negate_g1_be g1 =
    if bytes_eq g1 (zeros 64)
    then zeros 64
    else (let result = copy_from_slice 0 32 (take 32 g1) (zeros 64) in
        -- `u64::from_be_bytes([g1[i], .., g1[i + 7]])`
        let y = word g1 32 ∷ word g1 40 ∷ word g1 48 ∷ word g1 56 ∷ [] in
        write_limbs 32 (sub_limbs (reverse fq) (reverse y) 0 []) result)
