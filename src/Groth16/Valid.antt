-- ===== src/Groth16/Valid.antt =====
-- The invariant of verifier objects (src/groth16.rs): the BSB22 parts are all there or all missing,
-- and the key has an IC point for the constant, for each public input, and for the commitment.
use groth16_solana.Prelude.{
  ◌+◌, ◌≡◌, ◌≢◌, ◌⊎◌, inl, inr, ◌↔◌, none, some, List, ok, err, length, arith, Option-cases,
}
use groth16_solana.Prelude.Bytes.{Bytes}
use groth16_solana.Prelude.Buffer.{zeros}
use groth16_solana.Errors.{missing_commitment_key, unexpected_commitment_key}
use groth16_solana.Groth16.{
  CommitmentVerifyingKey, Groth16Verifyingkey, Groth16Verifier, new, new_with_commitment,
}

-- No commitment anywhere.
pub record IsPlain (v : Groth16Verifier) : Type 0 where
  pub commitment : v.proof_commitment ≡ none
  pub pok : v.proof_commitment_pok ≡ none
  pub key : v.verifyingkey.vk_commitment ≡ none
  pub ic : length v.verifyingkey.vk_ic ≡ length v.public_inputs + 1

-- A commitment, its proof of knowledge and its key.
pub record IsCommitted (v : Groth16Verifier) : Type 0 where
  pub commitment : Bytes
  pub commitment_lem : v.proof_commitment ≡ some commitment
  pub pok : Bytes
  pub pok_lem : v.proof_commitment_pok ≡ some pok
  pub key : CommitmentVerifyingKey
  pub key_lem : v.verifyingkey.vk_commitment ≡ some key
  pub ic : length v.verifyingkey.vk_ic ≡ length v.public_inputs + 2

abbrev pub IsValid : Groth16Verifier → Type 0
IsValid v = IsPlain v ⊎ IsCommitted v

module _ (a b c : Bytes) (inputs : List Bytes) (vk : Groth16Verifyingkey) where
  -- `new` accepts exactly the keys without a commitment key that have one IC point more than there
  -- are public inputs.
  pub new_iff :
      ((v : Groth16Verifier) × (new a b c inputs vk ≡ ok v))
      ↔ ((vk.vk_commitment ≡ none) × (length vk.vk_ic ≡ length inputs + 1))
  unfolding new
  new_iff = (λ p. needs p.0 p.1, λ h. (_, gives h))
    where
      needs :
          (v : Groth16Verifier)
          → new a b c inputs vk ≡ ok v
          → (vk.vk_commitment ≡ none) × (length vk.vk_ic ≡ length inputs + 1)
      needs v e = ground arith

      gives :
          (vk.vk_commitment ≡ none) × (length vk.vk_ic ≡ length inputs + 1)
          → new a b c inputs vk
            ≡ ok (record {
              proof_a = a;
              proof_b = b;
              proof_c = c;
              public_inputs = inputs;
              prepared_public_inputs = zeros 64;
              verifyingkey = vk;
              proof_commitment = none;
              proof_commitment_pok = none;
            })
      gives h = ground arith

  -- An object from `new` has no commitment parts, and its key has one IC point for the constant and
  -- one for each of its public inputs.
  pub new-IsPlain : {v : Groth16Verifier} → new a b c inputs vk ≡ ok v → IsPlain v
  unfolding new
  new-IsPlain {v} e = ground arith

module _ (a b c commitment pok : Bytes) (inputs : List Bytes) (vk : Groth16Verifyingkey) where
  -- `new_with_commitment` accepts exactly the keys with a commitment key that have two IC points
  -- more than there are public inputs.
  pub new_with_commitment_iff :
      ((v : Groth16Verifier) × (new_with_commitment a b c commitment pok inputs vk ≡ ok v)) ↔ (
        ((key : CommitmentVerifyingKey) × (vk.vk_commitment ≡ some key))
        × (length vk.vk_ic ≡ length inputs + 2))
  unfolding new_with_commitment
  new_with_commitment_iff = (λ p. needs p.0 p.1, λ h. (_, gives h.0.0 h.0.1 h.1))
    where
      needs :
          (v : Groth16Verifier)
          → new_with_commitment a b c commitment pok inputs vk ≡ ok v
          → ((key : CommitmentVerifyingKey) × (vk.vk_commitment ≡ some key))
            × (length vk.vk_ic ≡ length inputs + 2)
      needs v e = ground arith

      gives :
          (key : CommitmentVerifyingKey)
          → vk.vk_commitment ≡ some key
          → length vk.vk_ic ≡ length inputs + 2
          → new_with_commitment a b c commitment pok inputs vk
            ≡ ok (record {
              proof_a = a;
              proof_b = b;
              proof_c = c;
              public_inputs = inputs;
              prepared_public_inputs = zeros 64;
              verifyingkey = vk;
              proof_commitment = some commitment;
              proof_commitment_pok = some pok;
            })
      gives key k h = ground arith

  -- An object from `new_with_commitment` has the commitment, its proof of knowledge and a key for
  -- them, and one IC point more than an object from `new`.
  pub new_with_commitment-IsCommitted :
      {v : Groth16Verifier}
      → new_with_commitment a b c commitment pok inputs vk ≡ ok v
      → IsCommitted v
  unfolding new_with_commitment
  new_with_commitment-IsCommitted {v} e = record {
    commitment = commitment;
    commitment_lem = ground arith;
    pok = pok;
    pok_lem = ground arith;
    key = (new_with_commitment_iff.0 (v, e)).0.0;
    key_lem = ground (arith, (new_with_commitment_iff.0 (v, e)).0.1);
    ic = ground arith;
  }

  -- The two constructors divide the keys: whichever fits the key, the other refuses it for its
  -- commitment key, whatever the number of inputs.
  pub constructors_exclusive :
      ((new a b c inputs vk ≡ err unexpected_commitment_key)
        × (new_with_commitment a b c commitment pok inputs vk ≢ err missing_commitment_key))
      ⊎ ((new a b c inputs vk ≢ err unexpected_commitment_key)
          × (new_with_commitment a b c commitment pok inputs vk ≡ err missing_commitment_key))
  unfolding new new_with_commitment
  constructors_exclusive = elim (Option-cases vk.vk_commitment) [
    | inl e ↦ inr (ground arith, ground arith)
    | inr (key, e) ↦ inl (ground arith, ground arith)
  ]
