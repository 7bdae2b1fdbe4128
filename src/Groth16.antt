-- ===== src/Groth16.antt =====
-- src/groth16.rs: verifying keys, the verifier object, and its constructors and checks, with the
-- feature `bsb22` on. Byte arrays are lists of numbers. The references that the Rust verifier holds
-- are the values; only `prepared_public_inputs` is ever written after construction.
pub mod Valid
pub mod Layout
pub mod Curve
pub mod Prepare
pub mod Object
pub mod Answers
pub mod Refinement
pub mod Verify
pub mod Errors
pub mod Forgery
use groth16_solana.Prelude.{
  ℕ, zero, suc, ◌+◌, ◌≡◌, Bool, true, false, ◌&&◌, not, Option, none, some, List, [], ◌∷◌, ◌++◌,
  Result, ok, err, ◌>>=◌, ◌>>◌, map_err, ok_or, reject_if, is_some, length, get_elem?, get_or, ◌==◌,
  if◌then◌else◌,
}
use groth16_solana.Prelude.Bytes.{Bytes}
use groth16_solana.Prelude.Buffer.{zeros, copy_from_slice}
use groth16_solana.Errors.{
  Groth16Error, proof_verification_failed, preparing_inputs_g1_addition_failed,
  preparing_inputs_g1_mul_failed, invalid_public_inputs_length,
  public_input_greater_than_field_size, missing_commitment_key, commitment_pok_verification_failed,
  unexpected_commitment_key, bsb22_invalid_commitment_point, bsb22_inconsistent_commitment_state,
}
use groth16_solana.Syscalls.{Syscalls}
use groth16_solana.HashToField.{FrOps, hash_to_field_bn254_fr}
use groth16_solana.FieldSize.{is_less_than_bn254_field_size_be}

pub record CommitmentVerifyingKey : Type 0 where
  pub g2 : Bytes
  pub g_sigma_neg_g2 : Bytes

pub record Groth16Verifyingkey : Type 0 where
  pub nr_pubinputs : ℕ
  pub vk_alpha_g1 : Bytes
  pub vk_beta_g2 : Bytes
  pub vk_gamma_g2 : Bytes
  pub vk_delta_g2 : Bytes
  pub vk_ic : List Bytes
  pub vk_commitment : Option CommitmentVerifyingKey

-- `NR_INPUTS` is the length of `public_inputs`, an array type in Rust.
pub record Groth16Verifier : Type 0 where
  pub proof_a : Bytes
  pub proof_b : Bytes
  pub proof_c : Bytes
  pub public_inputs : List Bytes
  pub prepared_public_inputs : Bytes
  pub verifyingkey : Groth16Verifyingkey
  pub proof_commitment : Option Bytes
  pub proof_commitment_pok : Option Bytes

unfoldable pub new :
    Bytes → Bytes → Bytes → List Bytes → Groth16Verifyingkey → Result Groth16Error Groth16Verifier
new proof_a proof_b proof_c public_inputs verifyingkey = do
  reject_if (is_some verifyingkey.vk_commitment) unexpected_commitment_key
  reject_if (not (length public_inputs + 1 == length verifyingkey.vk_ic))
      invalid_public_inputs_length
  ok (record {
    proof_a = proof_a;
    proof_b = proof_b;
    proof_c = proof_c;
    public_inputs = public_inputs;
    prepared_public_inputs = zeros 64;
    verifyingkey = verifyingkey;
    proof_commitment = none;
    proof_commitment_pok = none;
  })

unfoldable pub new_with_commitment :
    Bytes
    → Bytes
    → Bytes
    → Bytes
    → Bytes
    → List Bytes
    → Groth16Verifyingkey
    → Result Groth16Error Groth16Verifier
new_with_commitment proof_a proof_b proof_c commitment pok public_inputs verifyingkey = do
  reject_if (not (is_some verifyingkey.vk_commitment)) missing_commitment_key
  reject_if (not (length public_inputs + 2 == length verifyingkey.vk_ic))
      invalid_public_inputs_length
  ok (record {
    proof_a = proof_a;
    proof_b = proof_b;
    proof_c = proof_c;
    public_inputs = public_inputs;
    prepared_public_inputs = zeros 64;
    verifyingkey = verifyingkey;
    proof_commitment = some commitment;
    proof_commitment_pok = some pok;
  })

-- `b"bsb22-commitment"`
abbrev pub bsb22_dst : Bytes
bsb22_dst =
    b'b' ∷ b's' ∷ b'b' ∷ b'2' ∷ b'2' ∷ b'-' ∷ b'c' ∷ b'o' ∷ b'm' ∷ b'm' ∷ b'i' ∷ b't' ∷ b'm' ∷ b'e'
    ∷ b'n' ∷ b't' ∷ []

-- `pairing_input` of `verify_common`: four pairs of a G1 and a G2 point.
unfoldable pub pairing_input : Groth16Verifier → Bytes
pairing_input v =
    let input = zeros 768 in
    let input = copy_from_slice 0 64 v.proof_a input in
    let input = copy_from_slice 64 192 v.proof_b input in
    let input = copy_from_slice 192 256 v.prepared_public_inputs input in
    let input = copy_from_slice 256 384 v.verifyingkey.vk_gamma_g2 input in
    let input = copy_from_slice 384 448 v.proof_c input in
    let input = copy_from_slice 448 576 v.verifyingkey.vk_delta_g2 input in
    let input = copy_from_slice 576 640 v.verifyingkey.vk_alpha_g1 input in
    copy_from_slice 640 768 v.verifyingkey.vk_beta_g2 input

-- `pok_input` of `verify_commitment_pok`: two pairs.
unfoldable pub pok_input : Bytes → Bytes → CommitmentVerifyingKey → Bytes
pok_input commitment pok key =
    let input = zeros 384 in
    let input = copy_from_slice 0 64 commitment input in
    let input = copy_from_slice 64 192 key.g_sigma_neg_g2 input in
    let input = copy_from_slice 192 256 pok input in copy_from_slice 256 384 key.g2 input

-- `res[31] != 1`. Results of the pairing are arrays of 32 bytes.
abbrev pub is_not_one : Bytes → Bool
is_not_one res = not (get_or res 31 0 == 1)

-- `a.is_some() != b.is_some()`
abbrev pub disagree {ℓ κ} : {A : Type ℓ} {B : Type κ} → Option A → Option B → Bool
disagree none none = false
disagree (some a) (some b) = false
disagree _ _ = true

-- The end of `prepare_inputs`: `self` is written only if there was no error.
unfoldable pub store :
    Groth16Verifier → Result Groth16Error Bytes → Result Groth16Error (Unit {0}) × Groth16Verifier
store v (ok p) = (ok tt, record v { prepared_public_inputs = p })
store v (err e) = (err e, v)

module _ (sys : Syscalls) (fr : FrOps) where
  unfoldable pub g1_add : Bytes → Bytes → Result Groth16Error Bytes
  g1_add point acc =
      let add_input = copy_from_slice 64 128 acc (copy_from_slice 0 64 point (zeros 128)) in
      map_err (λ _. preparing_inputs_g1_addition_failed) (sys.g1_addition_be add_input)

  unfoldable pub g1_mul_add : Bytes → Bytes → Bytes → Result Groth16Error Bytes
  g1_mul_add point scalar acc = do
    let mul_input = copy_from_slice 64 96 scalar (copy_from_slice 0 64 point (zeros 96))
    mul_res ← map_err (λ _. preparing_inputs_g1_mul_failed) (sys.g1_multiplication_be mul_input)
    g1_add mul_res acc

  -- The loop of `prepare_inputs` from the input number `i` on; `acc` is `prepared_public_inputs`.
  unfoldable pub add_inputs : Bool → List Bytes → ℕ → List Bytes → Bytes → Result Groth16Error Bytes
  add_inputs check vk_ic i [] acc = ok acc
  add_inputs check vk_ic i (input ∷ inputs) acc = do
    reject_if (check && not (is_less_than_bn254_field_size_be input))
        public_input_greater_than_field_size
    input_ic ← ok_or invalid_public_inputs_length (get_elem? vk_ic (i + 1))
    acc' ← g1_mul_add input_ic input acc
    add_inputs check vk_ic (i + 1) inputs acc'

  -- The `bsb22` block of `prepare_inputs`.
  unfoldable pub add_commitment :
      Groth16Verifyingkey → ℕ → Option Bytes → Bytes → Result Groth16Error Bytes
  add_commitment vk nr_inputs none acc = ok acc
  add_commitment vk nr_inputs (some commitment) acc = do
    let commitment_hash_fe = hash_to_field_bn254_fr sys.sha256 fr commitment bsb22_dst
    commitment_hash_ic ← ok_or invalid_public_inputs_length (get_elem? vk.vk_ic (nr_inputs + 1))
    acc' ← g1_mul_add commitment_hash_ic commitment_hash_fe acc
    map_err (λ _. bsb22_invalid_commitment_point) (g1_add commitment acc')

  -- What `prepare_inputs` stores if it succeeds.
  unfoldable pub prepared : Bool → Groth16Verifier → Result Groth16Error Bytes
  prepared check v = do
    first ← ok_or invalid_public_inputs_length (get_elem? v.verifyingkey.vk_ic 0)
    acc ← add_inputs check v.verifyingkey.vk_ic 0 v.public_inputs first
    reject_if (disagree v.verifyingkey.vk_commitment v.proof_commitment)
        bsb22_inconsistent_commitment_state
    add_commitment v.verifyingkey (length v.public_inputs) v.proof_commitment acc

  unfoldable pub prepare_inputs :
      Bool → Groth16Verifier → Result Groth16Error (Unit {0}) × Groth16Verifier
  unfolding store
  prepare_inputs check v = store v (prepared check v)

  -- The `match` of `verify_commitment_pok`.
  unfoldable pub by_state :
      Option Bytes → Option Bytes → Option CommitmentVerifyingKey → Result Groth16Error (Unit {0})
  by_state (some commitment) (some pok) (some key) = do
    pok_res ←
        map_err (λ _. commitment_pok_verification_failed)
          (sys.pairing_be (pok_input commitment pok key))
    reject_if (is_not_one pok_res) commitment_pok_verification_failed
  by_state none none none = ok tt
  by_state _ _ _ = err bsb22_inconsistent_commitment_state

  unfoldable pub verify_commitment_pok : Groth16Verifier → Result Groth16Error (Unit {0})
  verify_commitment_pok v =
      by_state v.proof_commitment v.proof_commitment_pok v.verifyingkey.vk_commitment

  -- What `verify_common` does after the inputs are prepared.
  unfoldable pub check_pairings : Groth16Verifier → Result Groth16Error (Unit {0})
  check_pairings v = do
    pairing_res ← map_err (λ _. proof_verification_failed) (sys.pairing_be (pairing_input v))
    reject_if (is_not_one pairing_res) proof_verification_failed
    verify_commitment_pok v

  unfoldable pub verify_common :
      Bool → Groth16Verifier → Result Groth16Error (Unit {0}) × Groth16Verifier
  verify_common check v =
      let (result, v') = prepare_inputs check v in (result >> check_pairings v', v')

  unfoldable pub verify : Groth16Verifier → Result Groth16Error (Unit {0}) × Groth16Verifier
  verify = verify_common true

  unfoldable pub verify_unchecked :
      Groth16Verifier → Result Groth16Error (Unit {0}) × Groth16Verifier
  verify_unchecked = verify_common false
