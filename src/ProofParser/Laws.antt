-- ===== src/ProofParser/Laws.antt =====
-- What num_bigint, arkworks and solana_bn254 document of the operations that src/proof_parser.rs calls.
use groth16_solana.Prelude.{
  ℕ, ◌-◌, ◌%◌, ◌^◌, ◌≤◌, ◌<◌, ◌≡◌, ◌++◌, reverse, ok, err, length, take, drop, ◌==◌, All,
}
use groth16_solana.Prelude.Bytes.{Bytes, IsByte, IsArray}
use groth16_solana.Prelude.Little.{le_value}
use groth16_solana.Negate.{fq_modulus}
use groth16_solana.ProofParser.Points.{Ark}

pub record IsArk (ark : Ark) : Type 0 where
  -- num_bigint: no digits beyond those that the value needs.
  pub le_value-to_bytes_le : (n : ℕ) → le_value (ark.to_bytes_le n) ≡ n
  pub to_bytes_le-bytes : (n : ℕ) → All IsByte (ark.to_bytes_le n)
  pub short : (n : ℕ) → n < 2 ^ 256 → length (ark.to_bytes_le n) ≤ 32
  pub long : (n : ℕ) → 2 ^ 256 ≤ n → 32 < length (ark.to_bytes_le n)
  -- arkworks: field elements are the integers below p, read only in canonical form.
  pub value : Ark.Fq ark → ℕ
  pub deserialize-below :
      (bs : Bytes)
      → IsArray 32 bs
      → le_value bs < fq_modulus
      → (x : Ark.Fq ark) × (ark.deserialize_fq bs ≡ ok x) × (value x ≡ le_value bs)
  pub deserialize-above :
      (bs : Bytes)
      → IsArray 32 bs
      → fq_modulus ≤ le_value bs
      → (message : Bytes) × (ark.deserialize_fq bs ≡ err message)
  pub serialize :
      (x : Ark.Fq ark) (buf : Bytes)
      → length buf ≡ 32
      → (out : Bytes) × (ark.serialize_fq x buf ≡ ok out)
        × IsArray 32 out
        × (le_value out ≡ value x)
  pub zero_test : (x : Ark.Fq ark) → ark.is_zero x ≡ (value x == 0)
  -- arkworks: affine points, the identity as (0, 0), and negation.
  pub identity_x : value (ark.g1_x ark.g1_identity) ≡ 0
  pub identity_y : value (ark.g1_y ark.g1_identity) ≡ 0
  pub point_x : (x y : Ark.Fq ark) → ark.g1_x (ark.g1_new_unchecked x y) ≡ x
  pub point_y : (x y : Ark.Fq ark) → ark.g1_y (ark.g1_new_unchecked x y) ≡ y
  pub neg_x :
      (point : Ark.G1Affine ark) → value (ark.g1_x (ark.g1_neg point)) ≡ value (ark.g1_x point)
  pub neg_y :
      (point : Ark.G1Affine ark)
      → value (ark.g1_y (ark.g1_neg point)) ≡ (fq_modulus - value (ark.g1_y point)) % fq_modulus
  -- The group has odd order, so no point passes the check whose y is zero.
  pub odd_order : (x y : Ark.Fq ark) → ark.g1_check (ark.g1_new_unchecked x y) ≡ ok tt → 0 < value y
  -- solana_bn254: each 32 bytes are reversed.
  pub endianness :
      (bs : Bytes)
      → IsArray 64 bs
      → ark.convert_endianness_32_64 bs ≡ reverse (take 32 bs) ++ reverse (drop 32 bs)
