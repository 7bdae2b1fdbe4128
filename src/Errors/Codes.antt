-- ===== src/Errors/Codes.antt =====
-- The numeric codes of src/errors.rs tell the variants apart.
use groth16_solana.Prelude.{◌≡◌, refl, Option, none, some, List, [], ◌∷◌, get_elem?}
use groth16_solana.Errors

-- The variants by code, the four codes that were retired among the gaps.
abbrev pub variants : List (Option Errors.Groth16Error)
variants =
    none
    ∷ some Errors.proof_verification_failed
    ∷ some Errors.preparing_inputs_g1_addition_failed
    ∷ some Errors.preparing_inputs_g1_mul_failed
    ∷ none
    ∷ none
    ∷ some Errors.invalid_public_inputs_length
    ∷ some Errors.decompressing_g1_failed
    ∷ some Errors.decompressing_g2_failed
    ∷ some Errors.public_input_greater_than_field_size
    ∷ some (Errors.arkworks_serialization_error [])
    ∷ some Errors.proof_conversion_error
    ∷ some Errors.missing_commitment_key
    ∷ some Errors.commitment_pok_verification_failed
    ∷ none
    ∷ some Errors.bsb22_unsupported_multi_commitment
    ∷ some Errors.bsb22_invalid_verifying_key_binary
    ∷ some Errors.unexpected_commitment_key
    ∷ some Errors.bsb22_committed_public_inputs_unsupported
    ∷ some Errors.bsb22_vk_file_io_failed
    ∷ some Errors.bsb22_invalid_commitment_point
    ∷ some Errors.bsb22_inconsistent_commitment_state
    ∷ some Errors.forgeable_production_vk
    ∷ []

-- The error without the message that the code does not carry.
abbrev pub without_message : Errors.Groth16Error → Errors.Groth16Error
without_message (Errors.arkworks_serialization_error message) =
    Errors.arkworks_serialization_error []
without_message e = e

-- Looking up the code of an error in the table of variants gives the error back, except for the
-- message; so the codes of two variants differ, and no error has one of the retired codes 0, 4, 5
-- and 14.
pub get_elem?-to_u32 :
    (e : Errors.Groth16Error)
    → get_elem? variants (Errors.to_u32 e) ≡ some (some (without_message e))
unfolding Errors.to_u32
get_elem?-to_u32 (Errors.arkworks_serialization_error message) = refl
get_elem?-to_u32 e = refl
