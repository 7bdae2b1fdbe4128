-- ===== src/Syscalls/Host.antt =====
-- src/syscalls.rs, off chain: the wrappers around the crates `solana_bn254` and `sha2`.
use groth16_solana.Prelude.{
  ℕ, Result, Option, none, some, length, ◌==◌, if◌then◌else◌, ◌>>=◌, map_err, ok_or,
}
use groth16_solana.Prelude.Bytes.{Bytes}
use groth16_solana.Errors.{
  Groth16Error, preparing_inputs_g1_addition_failed, preparing_inputs_g1_mul_failed,
  proof_verification_failed, decompressing_g1_failed, decompressing_g2_failed,
}
use groth16_solana.Syscalls.{Syscalls}

-- The two crates. Their errors stand as numbers, of which the code reads nothing; the first three
-- return a `Vec<u8>`, the decompressions return arrays.
pub record Crates : Type 0 where
  pub alt_bn128_g1_addition_be : Bytes → Result ℕ Bytes
  pub alt_bn128_g1_multiplication_be : Bytes → Result ℕ Bytes
  pub alt_bn128_pairing_be : Bytes → Result ℕ Bytes
  pub alt_bn128_g1_decompress_be : Bytes → Result ℕ Bytes
  pub alt_bn128_g2_decompress_be : Bytes → Result ℕ Bytes
  pub sha256_digest : Bytes → Bytes

-- `TryInto<[u8; n]>` for `Vec<u8>`
unfoldable pub try_into : ℕ → Bytes → Option Bytes
try_into n bs = if length bs == n then some bs else none

module _ (crates : Crates) where
  unfoldable pub g1_addition_be : Bytes → Result Groth16Error Bytes
  unfolding try_into
  g1_addition_be input = do
    result ←
        map_err (λ _. preparing_inputs_g1_addition_failed) (crates.alt_bn128_g1_addition_be input)
    ok_or preparing_inputs_g1_addition_failed (try_into 64 result)

  unfoldable pub g1_multiplication_be : Bytes → Result Groth16Error Bytes
  unfolding try_into
  g1_multiplication_be input = do
    result ←
        map_err (λ _. preparing_inputs_g1_mul_failed) (crates.alt_bn128_g1_multiplication_be input)
    ok_or preparing_inputs_g1_mul_failed (try_into 64 result)

  unfoldable pub pairing_be : Bytes → Result Groth16Error Bytes
  unfolding try_into
  pairing_be input = do
    result ← map_err (λ _. proof_verification_failed) (crates.alt_bn128_pairing_be input)
    ok_or proof_verification_failed (try_into 32 result)

  unfoldable pub g1_decompress_be : Bytes → Result Groth16Error Bytes
  g1_decompress_be input =
      map_err (λ _. decompressing_g1_failed) (crates.alt_bn128_g1_decompress_be input)

  unfoldable pub g2_decompress_be : Bytes → Result Groth16Error Bytes
  g2_decompress_be input =
      map_err (λ _. decompressing_g2_failed) (crates.alt_bn128_g2_decompress_be input)

  unfoldable pub sha256 : Bytes → Bytes
  sha256 input = crates.sha256_digest input

  abbrev pub syscalls : Syscalls
  syscalls = record {
    g1_addition_be = g1_addition_be;
    g1_multiplication_be = g1_multiplication_be;
    pairing_be = pairing_be;
    g1_decompress_be = g1_decompress_be;
    g2_decompress_be = g2_decompress_be;
    sha256 = sha256;
  }
