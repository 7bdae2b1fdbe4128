-- ===== src/Syscalls/Solana.antt =====
-- src/syscalls.rs, `target_os = "solana"`: the wrappers around the runtime's syscalls.
use groth16_solana.Prelude.{ℕ, Result, ok, err, List, [], ◌∷◌, ◌==◌, if◌then◌else◌}
use groth16_solana.Prelude.Bytes.{Bytes}
use groth16_solana.Prelude.Buffer.{zeros}
use groth16_solana.Errors.{
  Groth16Error, preparing_inputs_g1_addition_failed, preparing_inputs_g1_mul_failed,
  proof_verification_failed, decompressing_g1_failed, decompressing_g2_failed,
}
use groth16_solana.Syscalls.{Syscalls}

-- The runtime, from `pinocchio::syscalls`: an operation's number, the input and the result buffer
-- give a return code and what the buffer holds afterwards.
pub record Runtime : Type 0 where
  pub sol_alt_bn128_group_op : ℕ → Bytes → Bytes → ℕ × Bytes
  pub sol_alt_bn128_compression : ℕ → Bytes → Bytes → ℕ × Bytes
  pub sol_sha256 : List Bytes → Bytes → Bytes

abbrev pub g1_add_be : ℕ
g1_add_be = 0

abbrev pub g1_mul_be : ℕ
g1_mul_be = 2

abbrev pub pairing_op_be : ℕ
pairing_op_be = 3

abbrev pub g1_decompress_op_be : ℕ
g1_decompress_op_be = 1

abbrev pub g2_decompress_op_be : ℕ
g2_decompress_op_be = 3

-- `if rc != 0 { return Err(e); } Ok(result)`
unfoldable pub checked : Groth16Error → ℕ × Bytes → Result Groth16Error Bytes
checked e (rc, result) = if rc == 0 then ok result else err e

module _ (rt : Runtime) where
  open rt use {sol_alt_bn128_group_op, sol_alt_bn128_compression, sol_sha256}

  unfoldable pub g1_addition_be : Bytes → Result Groth16Error Bytes
  unfolding checked
  g1_addition_be input =
      checked preparing_inputs_g1_addition_failed
        (sol_alt_bn128_group_op g1_add_be input (zeros 64))

  unfoldable pub g1_multiplication_be : Bytes → Result Groth16Error Bytes
  unfolding checked
  g1_multiplication_be input =
      checked preparing_inputs_g1_mul_failed (sol_alt_bn128_group_op g1_mul_be input (zeros 64))

  unfoldable pub pairing_be : Bytes → Result Groth16Error Bytes
  unfolding checked
  pairing_be input =
      checked proof_verification_failed (sol_alt_bn128_group_op pairing_op_be input (zeros 32))

  unfoldable pub g1_decompress_be : Bytes → Result Groth16Error Bytes
  unfolding checked
  g1_decompress_be input =
      checked decompressing_g1_failed
        (sol_alt_bn128_compression g1_decompress_op_be input (zeros 64))

  unfoldable pub g2_decompress_be : Bytes → Result Groth16Error Bytes
  unfolding checked
  g2_decompress_be input =
      checked decompressing_g2_failed
        (sol_alt_bn128_compression g2_decompress_op_be input (zeros 128))

  unfoldable pub sha256 : Bytes → Bytes
  sha256 input = sol_sha256 (input ∷ []) (zeros 32)

  abbrev pub syscalls : Syscalls
  syscalls = record {
    g1_addition_be = g1_addition_be;
    g1_multiplication_be = g1_multiplication_be;
    pairing_be = pairing_be;
    g1_decompress_be = g1_decompress_be;
    g2_decompress_be = g2_decompress_be;
    sha256 = sha256;
  }
