-- ===== src/Examples/Verifier.antt =====
-- Proofs over the small groups, verified by the theorems on src/groth16.rs.
use groth16_solana.Prelude.{
  ◌+◌, ◌-◌, ◌^◌, ◌≡◌, refl, true, false, none, some, List, [], ◌∷◌, inl, ◌↔◌, ok, err, ◌>>=◌,
  length, All,
}
use groth16_solana.Prelude.Bytes.{Bytes, IsArray, to_be, to_be-IsArray}
use groth16_solana.Prelude.Buffer.{zeros}
use groth16_solana.Prelude.Lex.{lex_lt}
use groth16_solana.Errors.{public_input_greater_than_field_size}
use groth16_solana.FieldSize.{fr_modulus_be, is_less_than_bn254_field_size_be}
use groth16_solana.Groth16.{
  CommitmentVerifyingKey, Groth16Verifyingkey, Groth16Verifier, new, new_with_commitment, verify,
  verify_unchecked, verify_common, prepare_inputs, prepared, add_inputs,
}
use groth16_solana.Groth16.Valid
use groth16_solana.Groth16.Valid.{IsPlain, IsCommitted, IsValid}
use groth16_solana.Groth16.Layout.{IsSized}
use groth16_solana.Groth16.Curve.{
  Key, CommitmentKey, Proof, plain_spec, plain_unchecked, committed_unchecked, committed_spec,
  encode_key, encode_commitment_key,
}
use groth16_solana.Groth16.Refinement.{
  verify_unchecked_lem, verify-plain_spec, verify-committed_spec,
}
use groth16_solana.Groth16.Verify.{verify_common-IsValid, verify_common_idem}
use groth16_solana.Groth16.Errors.{IsVerifyError, verify_common-IsVerifyError}
use groth16_solana.Examples.Field.{fr, fr-IsMontgomery}
use groth16_solana.Examples.Curve.{curve, sys, sys-Implements, sha256-IsArray, encode_g1, encode_g2}

abbrev key : Key curve
key = record {
  alpha = true;
  beta = true;
  gamma = true;
  delta = false;
  ic0 = true;
  ics = true ∷ false ∷ [];
}

abbrev commitment_key : CommitmentKey curve
commitment_key = record { g = true; g_sigma_neg = true }

abbrev proof : Proof curve
proof = record { a = true; b = true; c = false }

-- The public inputs 5 and 2.
abbrev pub inputs : List Bytes
inputs = to_be 32 5 ∷ to_be 32 2 ∷ []

inputs-IsArray : All (IsArray 32) inputs
inputs-IsArray = (to_be-IsArray 32 5, (to_be-IsArray 32 2, tt))

abbrev pub plain_key : Groth16Verifyingkey
plain_key = encode_key curve key 2 [] none

abbrev pub bsb22_key : Groth16Verifyingkey
bsb22_key = encode_key curve key 2 (true ∷ []) (some (encode_commitment_key curve commitment_key))

-- The object that `new` gives for the plain key.
abbrev verifier : Groth16Verifier
verifier = record {
  proof_a = encode_g1 true;
  proof_b = encode_g2 true;
  proof_c = encode_g1 false;
  public_inputs = inputs;
  prepared_public_inputs = zeros 64;
  verifyingkey = plain_key;
  proof_commitment = none;
  proof_commitment_pok = none;
}

verifier-IsValid : IsValid verifier
verifier-IsValid = inl (record { commitment = refl; pok = refl; key = refl; ic = refl })

verifier-IsSized : IsSized verifier
unfolding encode_g1 encode_g2 zeros
verifier-IsSized = record {
  a = refl;
  b = refl;
  c = refl;
  prepared = refl;
  key = record { alpha = refl; beta = refl; gamma = refl; delta = refl };
}

verify-plain_spec_example :
    (new (encode_g1 true) (encode_g2 true) (encode_g1 false) inputs plain_key >>= λ v.
    (verify sys fr v).0)
    ≡ plain_spec curve key proof inputs
verify-plain_spec_example =
    verify-plain_spec curve sys fr sys-Implements key proof inputs 2 inputs-IsArray refl

verify-committed_spec_example :
    (new_with_commitment
        (encode_g1 true)
        (encode_g2 true)
        (encode_g1 false)
        (encode_g1 true)
        (encode_g1 true)
        inputs
        bsb22_key
      >>= λ v. (verify sys fr v).0)
    ≡ committed_spec curve sys key true commitment_key proof true true inputs
verify-committed_spec_example =
    verify-committed_spec curve sys fr sys-Implements key true commitment_key proof true true inputs
      2 fr-IsMontgomery sha256-IsArray inputs-IsArray refl

new_iff_example :
    ((v : Groth16Verifier) × (new
          (encode_g1 true)
          (encode_g2 true)
          (encode_g1 false)
          inputs
          plain_key
        ≡ ok v))
    ↔ ((plain_key.vk_commitment ≡ none) × (length plain_key.vk_ic ≡ length inputs + 1))
new_iff_example = Valid.new_iff (encode_g1 true) (encode_g2 true) (encode_g1 false) inputs plain_key

new_with_commitment_iff_example :
    ((v : Groth16Verifier) × (new_with_commitment
          (encode_g1 true)
          (encode_g2 true)
          (encode_g1 false)
          (encode_g1 true)
          (encode_g1 true)
          inputs
          bsb22_key
        ≡ ok v))
    ↔ (((key' : CommitmentVerifyingKey) × (bsb22_key.vk_commitment ≡ some key'))
        × (length bsb22_key.vk_ic ≡ length inputs + 2))
new_with_commitment_iff_example =
    Valid.new_with_commitment_iff (encode_g1 true) (encode_g2 true) (encode_g1 false)
      (encode_g1 true) (encode_g1 true) inputs bsb22_key

-- The object that `new_with_commitment` gives.
abbrev committed_verifier : Groth16Verifier
committed_verifier = record {
  proof_a = encode_g1 true;
  proof_b = encode_g2 true;
  proof_c = encode_g1 false;
  public_inputs = inputs;
  prepared_public_inputs = zeros 64;
  verifyingkey = bsb22_key;
  proof_commitment = some (encode_g1 true);
  proof_commitment_pok = some (encode_g1 true);
}

verify_common-IsValid_example :
    ((p : Bytes) × ((verify_common sys fr true verifier).1
        ≡ record verifier { prepared_public_inputs = p }))
    × IsValid (verify_common sys fr true verifier).1
verify_common-IsValid_example = verify_common-IsValid sys fr true verifier verifier-IsValid

verify_common_idem_example :
    verify_common sys fr true (verify_common sys fr true verifier).1
    ≡ verify_common sys fr true verifier
verify_common_idem_example = verify_common_idem sys fr true verifier

-- The first input, 2^256 - 1, is above r.
abbrev large_inputs : List Bytes
large_inputs = to_be 32 (2 ^ 256 - 1) ∷ to_be 32 2 ∷ []

verify_unchecked_lem_example :
    ((new (encode_g1 true) (encode_g2 true) (encode_g1 false) large_inputs plain_key >>= λ v.
    (verify_unchecked sys fr v).0)
      ≡ plain_unchecked curve key proof large_inputs)
    × ((new_with_commitment
            (encode_g1 true)
            (encode_g2 true)
            (encode_g1 false)
            (encode_g1 true)
            (encode_g1 true)
            large_inputs
            bsb22_key
          >>= λ v. (verify_unchecked sys fr v).0)
        ≡ committed_unchecked curve sys key true commitment_key proof true true large_inputs)
verify_unchecked_lem_example =
    verify_unchecked_lem curve sys fr sys-Implements key true commitment_key proof true true
      large_inputs 2 fr-IsMontgomery sha256-IsArray
      (to_be-IsArray 32 (2 ^ 256 - 1), (to_be-IsArray 32 2, tt)) refl

-- The same object with the public inputs r and 2.
abbrev verifier_r : Groth16Verifier
verifier_r = record verifier { public_inputs = fr_modulus_be ∷ to_be 32 2 ∷ [] }

verifier_r-IsValid : IsValid verifier_r
verifier_r-IsValid = inl (record { commitment = refl; pok = refl; key = refl; ic = refl })

verifier_r_fails :
    (verify_common sys fr true verifier_r).0 ≡ err public_input_greater_than_field_size
unfolding verify_common prepare_inputs prepared add_inputs is_less_than_bn254_field_size_be lex_lt
verifier_r_fails = refl

verify_common-IsVerifyError_example : IsVerifyError public_input_greater_than_field_size
verify_common-IsVerifyError_example =
    verify_common-IsVerifyError sys fr true verifier_r public_input_greater_than_field_size
      verifier_r-IsValid verifier_r_fails
