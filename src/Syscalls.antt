-- ===== src/Syscalls.antt =====
-- src/syscalls.rs: the curve operations and the hash that the verifier calls. The rest of the crate
-- sees them through one interface, which the on-chain and the host backend fill.
pub mod Solana
pub mod Host
pub mod Agreement
use groth16_solana.Prelude.{Result}
use groth16_solana.Prelude.Bytes.{Bytes}
use groth16_solana.Errors.{Groth16Error}

pub record Syscalls : Type 0 where
  pub g1_addition_be : Bytes → Result Groth16Error Bytes
  pub g1_multiplication_be : Bytes → Result Groth16Error Bytes
  pub pairing_be : Bytes → Result Groth16Error Bytes
  pub g1_decompress_be : Bytes → Result Groth16Error Bytes
  pub g2_decompress_be : Bytes → Result Groth16Error Bytes
  pub sha256 : Bytes → Bytes
