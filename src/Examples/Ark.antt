-- ===== src/Examples/Ark.antt =====
-- Field elements as numbers modulo p, and the generator of G1 in a proof.
use groth16_solana.Prelude.{
  ℕ, ◌+◌, ◌-◌, ◌*◌, ◌%◌, ◌^◌, ◌≤◌, ◌<◌, ◌≡◌, refl, ◌∙◌, ap, sym, inl, inr, Bool, true, false, ◌&&◌,
  not, Option, none, some, [], ◌++◌, reverse, Result, ok, err, length, take, drop, ltb, ◌==◌,
  if◌then◌else◌, arith, Bool-cases,
}
use mathlib.Core.List.{reverse-reverse}
use groth16_solana.Prelude.Bytes.{Bytes, be_value, to_be, to_be-IsArray}
use groth16_solana.Prelude.Buffer.{zeros, copy_from_slice}
use groth16_solana.Prelude.Little.{
  le_value, be_value-reverse, reverse-IsArray, le_value-lt, be_value-to_be,
}
use groth16_solana.Negate.{fq_modulus, negate_g1_be}
use groth16_solana.ProofParser.Points.{
  Ark, CircomProof, pad_coordinate, convert_coordinate, convert_g1, convert_fq2, convert_g2,
  write_fq, convert_proof,
}
use groth16_solana.ProofParser.Laws.{IsArk}
use groth16_solana.ProofParser.Coordinate.{
  padded, le_value-padded, Converts, convert_coordinate_lem,
}
use groth16_solana.ProofParser.Converted.{uncompressed, convert_proof-negate_g1_be}
use groth16_solana.Examples.Libraries.{
  to_bytes_le, le_value-to_bytes_le, to_bytes_le-bytes, length-to_bytes_le, le_digits,
}

long : (n : ℕ) → 2 ^ 256 ≤ n → 32 < length (to_bytes_le n)
long n h = elim (Bool-cases (ltb 32 (length (to_bytes_le n)))) [
  | inl yes_long ↦ ground arith
  | inr fits ↦
      let le = to_bytes_le n in
      absurd (
        omega (
          arith,
          h,
          le_value-lt _ (padded le (to_bytes_le-bytes n) (ground arith)),
          le_value-padded le,
          le_value-to_bytes_le n,
        ))
]

-- `none` is the identity.
abbrev Affine : Type 0
Affine = Option (ℕ × ℕ)

abbrev on_curve : ℕ → ℕ → Bool
on_curve x y = ((y * y) % fq_modulus == (x * x * x + 3) % fq_modulus) && not (y % fq_modulus == 0)

abbrev check : Affine → Result Bytes (Unit {0})
check none = ok tt
check (some (x, y)) = if on_curve x y then ok tt else err []

abbrev neg : Affine → Affine
neg none = none
neg (some (x, y)) = some (x, (fq_modulus - y % fq_modulus) % fq_modulus)

abbrev x_of : Affine → ℕ
x_of none = 0
x_of (some (x, y)) = x

abbrev y_of : Affine → ℕ
y_of none = 0
y_of (some (x, y)) = y

unfoldable deserialize : Bytes → Result Bytes ℕ
deserialize bs = if ltb (le_value bs) fq_modulus then ok (le_value bs) else err []

abbrev ark : Ark
ark = record {
  to_bytes_le = to_bytes_le;
  Fq = ℕ;
  deserialize_fq = deserialize;
  is_zero = λ x. x % fq_modulus == 0;
  serialize_fq = λ x buf. ok (reverse (to_be 32 (x % fq_modulus)));
  G1Affine = Affine;
  g1_identity = none;
  g1_new_unchecked = λ x y. some (x, y);
  g1_check = check;
  g1_neg = neg;
  g1_x = x_of;
  g1_y = y_of;
  serialize_g1 = λ point buf. ok buf;
  G2Affine = (ℕ × ℕ) × (ℕ × ℕ);
  g2_identity = ((0, 0), (0, 0));
  g2_new_unchecked = λ x y. (x, y);
  g2_check = λ point. ok tt;
  serialize_g2 = λ point buf. ok buf;
  convert_endianness_32_64 = λ bs. reverse (take 32 bs) ++ reverse (drop 32 bs);
  convert_endianness_64_128 = λ bs. reverse (take 64 bs) ++ reverse (drop 64 bs);
}

below : (v : ℕ) → v < fq_modulus → (ltb v fq_modulus) ≡ true
below v h = ground arith

above : (v : ℕ) → fq_modulus ≤ v → (ltb v fq_modulus) ≡ false
above v h = ground arith

written : (x : ℕ) → le_value (reverse (to_be 32 (x % fq_modulus))) ≡ x % fq_modulus
written x =
    sym (be_value-reverse (reverse (to_be 32 (x % fq_modulus))))
    ∙ ap be_value (reverse-reverse (to_be 32 (x % fq_modulus)))
    ∙ be_value-to_be 32 (x % fq_modulus) (omega arith)

neg_y :
    (point : Affine)
    → y_of (neg point) % fq_modulus ≡ (fq_modulus - y_of point % fq_modulus) % fq_modulus
neg_y none = refl
neg_y (some (x, y)) = omega arith

neg_x : (point : Affine) → x_of (neg point) % fq_modulus ≡ x_of point % fq_modulus
neg_x none = refl
neg_x (some (x, y)) = refl

odd : (x y : ℕ) → check (some (x, y)) ≡ ok tt → 0 < y % fq_modulus
odd x y h = ground arith

ark-IsArk : IsArk ark
unfolding deserialize
ark-IsArk = record {
  le_value-to_bytes_le = le_value-to_bytes_le;
  to_bytes_le-bytes = to_bytes_le-bytes;
  short = length-to_bytes_le;
  long = long;
  value = λ x. x % fq_modulus;
  deserialize-below = λ bs a h. (le_value bs, rw (below (le_value bs) h) refl, omega (arith, h));
  deserialize-above = λ bs a h. ([], rw (above (le_value bs) h) refl);
  serialize = λ x buf h. (
    reverse (to_be 32 (x % fq_modulus)),
    refl,
    reverse-IsArray 32 (to_be-IsArray 32 (x % fq_modulus)),
    written x,
  );
  zero_test = λ x. refl;
  identity_x = refl;
  identity_y = refl;
  point_x = λ x y. refl;
  point_y = λ x y. refl;
  neg_x = neg_x;
  neg_y = neg_y;
  odd_order = odd;
  endianness = λ bs h. refl;
}

abbrev proof : CircomProof
proof = record {
  a = record { x = 1; y = 2 };
  b = record { x = (3, 4); y = (5, 6) };
  c = record { x = 1; y = 2 };
}

convert_coordinate_lem_example : Converts ark ark-IsArk 7 (convert_coordinate ark (to_bytes_le 7))
convert_coordinate_lem_example = convert_coordinate_lem ark ark-IsArk 7

converted :
    convert_proof ark proof ≡ ok (to_be 32 1 ++ to_be 32 (fq_modulus - 2), zeros 128, zeros 64)
unfolding convert_proof convert_g1 convert_g2 convert_fq2 convert_coordinate pad_coordinate write_fq
    copy_from_slice zeros deserialize le_value to_be le_digits
converted = refl

convert_proof-negate_g1_be_example :
    (proof.a.x < fq_modulus)
    × (proof.a.y < fq_modulus)
    × (to_be 32 1 ++ to_be 32 (fq_modulus - 2) ≡ negate_g1_be (uncompressed ark ark-IsArk proof.a))
convert_proof-negate_g1_be_example = convert_proof-negate_g1_be ark ark-IsArk proof converted
