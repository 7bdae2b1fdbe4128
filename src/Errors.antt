-- ===== src/Errors.antt =====
-- src/errors.rs: the crate's error type and its numeric codes, with every feature switched on.
pub mod Codes
use groth16_solana.Prelude.{ℕ}
use groth16_solana.Prelude.Bytes.{Bytes}

pub data Groth16Error : Type 0 where
  proof_verification_failed : Groth16Error
  preparing_inputs_g1_addition_failed : Groth16Error
  preparing_inputs_g1_mul_failed : Groth16Error
  invalid_public_inputs_length : Groth16Error
  decompressing_g1_failed : Groth16Error
  decompressing_g2_failed : Groth16Error
  public_input_greater_than_field_size : Groth16Error
  arkworks_serialization_error : Bytes → Groth16Error
  proof_conversion_error : Groth16Error
  missing_commitment_key : Groth16Error
  commitment_pok_verification_failed : Groth16Error
  bsb22_unsupported_multi_commitment : Groth16Error
  bsb22_invalid_verifying_key_binary : Groth16Error
  unexpected_commitment_key : Groth16Error
  bsb22_committed_public_inputs_unsupported : Groth16Error
  bsb22_vk_file_io_failed : Groth16Error
  bsb22_invalid_commitment_point : Groth16Error
  bsb22_inconsistent_commitment_state : Groth16Error
  forgeable_production_vk : Groth16Error

-- `impl From<Groth16Error> for u32`
unfoldable pub to_u32 : Groth16Error → ℕ
to_u32 proof_verification_failed = 1
to_u32 preparing_inputs_g1_addition_failed = 2
to_u32 preparing_inputs_g1_mul_failed = 3
to_u32 invalid_public_inputs_length = 6
to_u32 decompressing_g1_failed = 7
to_u32 decompressing_g2_failed = 8
to_u32 public_input_greater_than_field_size = 9
to_u32 (arkworks_serialization_error message) = 10
to_u32 proof_conversion_error = 11
to_u32 missing_commitment_key = 12
to_u32 commitment_pok_verification_failed = 13
to_u32 bsb22_unsupported_multi_commitment = 15
to_u32 bsb22_invalid_verifying_key_binary = 16
to_u32 unexpected_commitment_key = 17
to_u32 bsb22_committed_public_inputs_unsupported = 18
to_u32 bsb22_vk_file_io_failed = 19
to_u32 bsb22_invalid_commitment_point = 20
to_u32 bsb22_inconsistent_commitment_state = 21
to_u32 forgeable_production_vk = 22

-- `From<ark_serialize::SerializationError>`: the error is kept as its message.
unfoldable pub from_serialization_error : Bytes → Groth16Error
from_serialization_error = arkworks_serialization_error
