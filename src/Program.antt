-- ===== src/Program.antt =====
-- tests/program/src/lib.rs: the Solana program that verifies one proof per instruction. The keys that
-- its build script generates are a parameter; log messages are left out.
pub mod Payload
pub mod Runs
pub mod Fixtures
use groth16_solana.Prelude
use groth16_solana.Prelude.{
  ℕ, zero, suc, ◌+◌, ◌*◌, not, List, [], ◌∷◌, Result, ok, err, ◌>>=◌, ◌>>◌, map_err, reject_if,
  length, leb, ◌==◌, if◌then◌else◌, Option, none, some, ◌++◌,
}
use groth16_solana.Prelude.Bytes.{Bytes}
use groth16_solana.Errors.{Groth16Error, to_u32}
use groth16_solana.Syscalls.{Syscalls}
use groth16_solana.HashToField.{FrOps}
use groth16_solana.Negate.{negate_g1_be}
use groth16_solana.Groth16
use groth16_solana.Groth16.{Groth16Verifyingkey, new, new_with_commitment}

-- The variants of `solana_program`'s error that the program returns.
pub data ProgramError : Type 0 where
  invalid_instruction_data : ProgramError
  custom : ℕ → ProgramError

-- The keys baked in for 1, 2, 4 and 8 public inputs.
pub record Keys : Type 0 where
  pub vk_plain_1 : Groth16Verifyingkey
  pub vk_plain_2 : Groth16Verifyingkey
  pub vk_plain_4 : Groth16Verifyingkey
  pub vk_plain_8 : Groth16Verifyingkey
  pub vk_bsb22_1 : Groth16Verifyingkey
  pub vk_bsb22_2 : Groth16Verifyingkey
  pub vk_bsb22_4 : Groth16Verifyingkey
  pub vk_bsb22_8 : Groth16Verifyingkey

abbrev pub proof_len : ℕ
proof_len = 64 + 128 + 64

abbrev pub commitment_len : ℕ
commitment_len = 64 + 64

unfoldable pub plain_payload_len : ℕ → ℕ
plain_payload_len nr_inputs = proof_len + nr_inputs * 32

unfoldable pub bsb22_payload_len : ℕ → ℕ
bsb22_payload_len nr_inputs = proof_len + commitment_len + nr_inputs * 32

-- A proof as the benchmark's fixtures hold it, with A not negated.
pub record Fixture : Type 0 where
  pub selector : ℕ
  pub nr_inputs : ℕ
  pub proof_a : Bytes
  pub proof_b : Bytes
  pub proof_c : Bytes
  pub commitment : Option (Bytes × Bytes)
  pub public_inputs : Bytes

abbrev pub commitment_bytes : Option (Bytes × Bytes) → Bytes → Bytes
commitment_bytes none rest = rest
commitment_bytes (some (commitment, pok)) rest = commitment ++ (pok ++ rest)

abbrev pub payload_len : Option (Bytes × Bytes) → ℕ → ℕ
payload_len none nr_inputs = plain_payload_len nr_inputs
payload_len (some pair) nr_inputs = bsb22_payload_len nr_inputs

-- `none` where the assertion on the length panics.
unfoldable pub build_ix_data : Fixture → Option Bytes
build_ix_data f =
    let bytes =
      f.selector
      ∷ (negate_g1_be f.proof_a
          ++ (f.proof_b ++ (f.proof_c ++ commitment_bytes f.commitment f.public_inputs))) in
    if length bytes == 1 + payload_len f.commitment f.nr_inputs then some bytes else none

-- `data.split_at_checked(k)`: the array, and the rest of `data`.
unfoldable pub take : ℕ → Bytes → Result ProgramError (Bytes × Bytes)
take k bytes =
    if leb k (length bytes)
    then ok (Prelude.take k bytes, Prelude.drop k bytes)
    else err invalid_instruction_data

-- `data.chunks_exact(32)` zipped with `n` arrays
unfoldable pub chunks : ℕ → Bytes → List Bytes
chunks zero bytes = []
chunks (suc n) bytes = Prelude.take 32 bytes ∷ chunks n (Prelude.drop 32 bytes)

unfoldable pub parse_public_inputs : ℕ → Bytes → Result ProgramError (List Bytes)
parse_public_inputs n bytes = do
  reject_if (not (length bytes == n * 32)) invalid_instruction_data
  ok (chunks n bytes)

-- `|e| ProgramError::Custom(u32::from(e))`
abbrev pub code : Groth16Error → ProgramError
code e = custom (to_u32 e)

module _ (sys : Syscalls) (fr : FrOps) where
  unfoldable pub verify : ℕ → Bytes → Groth16Verifyingkey → Result ProgramError (Unit {0})
  verify n payload vk = do
    (proof_a, payload) ← take 64 payload
    (proof_b, payload) ← take 128 payload
    (proof_c, payload) ← take 64 payload
    public_inputs ← parse_public_inputs n payload
    verifier ← map_err code (new proof_a proof_b proof_c public_inputs vk)
    map_err code (Groth16.verify sys fr verifier).0

  unfoldable pub verify_with_bsb22_commitment :
      ℕ → Bytes → Groth16Verifyingkey → Result ProgramError (Unit {0})
  verify_with_bsb22_commitment n payload vk = do
    (proof_a, payload) ← take 64 payload
    (proof_b, payload) ← take 128 payload
    (proof_c, payload) ← take 64 payload
    (commitment, payload) ← take 64 payload
    (pok, payload) ← take 64 payload
    public_inputs ← parse_public_inputs n payload
    verifier ←
        map_err code (new_with_commitment proof_a proof_b proof_c commitment pok public_inputs vk)
    map_err code (Groth16.verify sys fr verifier).0

  unfoldable pub process_instruction : Keys → Bytes → Result ProgramError (Unit {0})
  process_instruction keys [] = err invalid_instruction_data
  process_instruction keys (selector ∷ payload) =
      if selector == 0
      then verify 1 payload keys.vk_plain_1
      else if selector == 1
      then verify 2 payload keys.vk_plain_2
      else if selector == 2
      then verify 4 payload keys.vk_plain_4
      else if selector == 3
      then verify 8 payload keys.vk_plain_8
      else if selector == 4
      then verify_with_bsb22_commitment 1 payload keys.vk_bsb22_1
      else if selector == 5
      then verify_with_bsb22_commitment 2 payload keys.vk_bsb22_2
      else if selector == 6
      then verify_with_bsb22_commitment 4 payload keys.vk_bsb22_4
      else if selector == 7
      then verify_with_bsb22_commitment 8 payload keys.vk_bsb22_8
      else err invalid_instruction_data
