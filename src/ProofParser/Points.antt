-- ===== src/ProofParser/Points.antt =====
-- src/proof_parser.rs: the points of circom-prover's proofs as arkworks points and as bytes. The field
-- and the points of arkworks, the integers of num_bigint, and `convert_endianness` of solana_bn254
-- are parameters.
use groth16_solana.Prelude.{
  ℕ, Bool, ◌&&◌, Option, none, some, Result, ok, ◌>>=◌, map_err, ok_or, length, take, drop, ltb,
  if◌then◌else◌,
}
use groth16_solana.Prelude.Bytes.{Bytes}
use groth16_solana.Prelude.Buffer.{zeros, copy_from_slice}
use groth16_solana.Errors.{Groth16Error, proof_conversion_error, from_serialization_error}

-- `circom_prover::prover::circom`: coordinates are integers, those of G2 pairs of them.
pub record CircomG1 : Type 0 where
  pub x : ℕ
  pub y : ℕ

pub record CircomG2 : Type 0 where
  pub x : ℕ × ℕ
  pub y : ℕ × ℕ

pub record CircomProof : Type 0 where
  pub a : CircomG1
  pub b : CircomG2
  pub c : CircomG1

-- What the code calls of ark_bn254, num_bigint and solana_bn254. A serialization writes to the front
-- of the buffer that it gets and gives that buffer back; errors are their messages.
pub record Ark : Type 1 where
  pub to_bytes_le : ℕ → Bytes
  pub Fq : Type 0
  pub deserialize_fq : Bytes → Result Bytes Fq
  pub is_zero : Fq → Bool
  pub serialize_fq : Fq → Bytes → Result Bytes Bytes
  pub G1Affine : Type 0
  pub g1_identity : G1Affine
  pub g1_new_unchecked : Fq → Fq → G1Affine
  pub g1_check : G1Affine → Result Bytes (Unit {0})
  pub g1_neg : G1Affine → G1Affine
  pub g1_x : G1Affine → Fq
  pub g1_y : G1Affine → Fq
  pub serialize_g1 : G1Affine → Bytes → Result Bytes Bytes
  pub G2Affine : Type 0
  pub g2_identity : G2Affine
  pub g2_new_unchecked : Fq × Fq → Fq × Fq → G2Affine
  pub g2_check : G2Affine → Result Bytes (Unit {0})
  pub serialize_g2 : G2Affine → Bytes → Result Bytes Bytes
  pub convert_endianness_32_64 : Bytes → Bytes
  pub convert_endianness_64_128 : Bytes → Bytes

-- `[0u8; 32]` with `coordinate_le` at its front; `none` if there is no room for it.
unfoldable pub pad_coordinate : Bytes → Option Bytes
pad_coordinate coordinate_le =
    if ltb 32 (length coordinate_le)
    then none
    else some (copy_from_slice 0 (length coordinate_le) coordinate_le (zeros 32))

module _ (ark : Ark) where
  unfoldable pub convert_coordinate : Bytes → Result Groth16Error (Ark.Fq ark)
  convert_coordinate coordinate_le = do
    coordinate_padded ← ok_or proof_conversion_error (pad_coordinate coordinate_le)
    map_err from_serialization_error (ark.deserialize_fq coordinate_padded)

  unfoldable pub convert_g1 : CircomG1 → Result Groth16Error (Ark.G1Affine ark)
  convert_g1 point = do
    x ← convert_coordinate (ark.to_bytes_le point.x)
    y ← convert_coordinate (ark.to_bytes_le point.y)
    let affine =
        if ark.is_zero x && ark.is_zero y then ark.g1_identity else ark.g1_new_unchecked x y
    checked ← map_err from_serialization_error (ark.g1_check affine)
    ok affine

  unfoldable pub convert_fq2 : ℕ × ℕ → Result Groth16Error (Ark.Fq ark × Ark.Fq ark)
  convert_fq2 (c0, c1) = do
    x0 ← convert_coordinate (ark.to_bytes_le c0)
    x1 ← convert_coordinate (ark.to_bytes_le c1)
    ok (x0, x1)

  -- `Fq2::is_zero`
  abbrev pub is_zero_fq2 : Ark.Fq ark × Ark.Fq ark → Bool
  is_zero_fq2 (c0, c1) = ark.is_zero c0 && ark.is_zero c1

  unfoldable pub convert_g2 : CircomG2 → Result Groth16Error (Ark.G2Affine ark)
  convert_g2 point = do
    x ← convert_fq2 point.x
    y ← convert_fq2 point.y
    let affine =
        if is_zero_fq2 x && is_zero_fq2 y then ark.g2_identity else ark.g2_new_unchecked x y
    checked ← map_err from_serialization_error (ark.g2_check affine)
    ok affine

  -- `field.serialize_with_mode(&mut buf[lo..lo + 32], Compress::No)?`
  unfoldable pub write_fq : ℕ → ℕ → Ark.Fq ark → Bytes → Result Groth16Error Bytes
  write_fq lo hi field buf = do
    written ← map_err from_serialization_error (ark.serialize_fq field (take 32 (drop lo buf)))
    ok (copy_from_slice lo hi written buf)

  unfoldable pub convert_proof : CircomProof → Result Groth16Error (Bytes × Bytes × Bytes)
  convert_proof circom_proof = do
    proof_a_point ← convert_g1 circom_proof.a
    let proof_a_neg = ark.g1_neg proof_a_point
    proof_b_point ← convert_g2 circom_proof.b
    proof_c_point ← convert_g1 circom_proof.c
    proof_a_x ← write_fq 0 32 (ark.g1_x proof_a_neg) (zeros 65)
    proof_a_serialized ← write_fq 32 64 (ark.g1_y proof_a_neg) proof_a_x
    let proof_a = ark.convert_endianness_32_64 (take 64 proof_a_serialized)
    proof_b_serialized ←
        map_err from_serialization_error (ark.serialize_g2 proof_b_point (zeros 129))
    let proof_b = ark.convert_endianness_64_128 (take 128 proof_b_serialized)
    proof_c_serialized ←
        map_err from_serialization_error (ark.serialize_g1 proof_c_point (zeros 65))
    let proof_c = ark.convert_endianness_32_64 (take 64 proof_c_serialized)
    ok (proof_a, proof_b, proof_c)
