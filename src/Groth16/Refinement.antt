-- ===== src/Groth16/Refinement.antt =====
-- The verifier of src/groth16.rs implements the specification of Groth16/Curve.
use groth16_solana.Prelude.{false, ℕ, ◌≡◌, true, none, some, List, [], ◌∷◌, ◌>>=◌, length, All}
use groth16_solana.Prelude.Bytes.{Bytes, IsArray}
use groth16_solana.Syscalls.{Syscalls}
use groth16_solana.HashToField.{FrOps}
use groth16_solana.HashToField.Reduce.{IsMontgomery}
use groth16_solana.Groth16.{new, new_with_commitment, verify, verify_unchecked}
use groth16_solana.Groth16.Curve
use groth16_solana.Groth16.Curve.{
  Curve, Implements, input_sum, all_in_field, pairing_word, encode_pairs, plain_spec,
  plain_unchecked, committed_unchecked, committed_spec, encode_key, encode_commitment_key,
  groth16_equation, commitment_scalar, pok_equation,
}
use groth16_solana.Groth16.Answers.{verify_common-plain, verify_common-committed}

module _ (c : Curve) (sys : Syscalls) (fr : FrOps) (i : Implements c sys) (k : Curve.Key c) where
  open c use {G1, G2, add, scale, encode_g1, encode_g2}

  -- A plain Groth16 proof, from the bytes of its points to the answer: with one 32-byte input for
  -- each IC point, constructing the verifier and running `verify` answers ok exactly if every
  -- input is below r and the pairing equation holds for the inputs' sum; otherwise it names the
  -- first of the two that fails.
  pub verify-plain_spec :
      (p : Curve.Proof c) (inputs : List Bytes) (nr : ℕ)
      → All (IsArray 32) inputs
      → length inputs ≡ length k.ics
      → (new (encode_g1 p.a) (encode_g2 p.b) (encode_g1 p.c) inputs (encode_key c k nr [] none)
          >>= λ v. (verify sys fr v).0)
        ≡ plain_spec c k p inputs
  unfolding verify
  verify-plain_spec p inputs nr h e = verify_common-plain c sys fr i k true p inputs nr h e

  -- A proof with a BSB22 commitment: the input sum has two more terms, the commitment's hash times
  -- the last IC point and the commitment itself, and the proof of knowledge is checked last. Each of
  -- the three errors is reported exactly if its check is the first to fail.
  pub verify-committed_spec :
      (k_last : G1) (ck : Curve.CommitmentKey c) (p : Curve.Proof c) (d pok : G1)
      (inputs : List Bytes) (nr : ℕ)
      → IsMontgomery fr
      → ((x : Bytes) → IsArray 32 (sys.sha256 x))
      → All (IsArray 32) inputs
      → length inputs ≡ length k.ics
      → (new_with_commitment
            (encode_g1 p.a)
            (encode_g2 p.b)
            (encode_g1 p.c)
            (encode_g1 d)
            (encode_g1 pok)
            inputs
            (encode_key c k nr (k_last ∷ []) (some (encode_commitment_key c ck)))
          >>= λ v. (verify sys fr v).0)
        ≡ committed_spec c sys k k_last ck p d pok inputs
  unfolding verify
  verify-committed_spec k_last ck p d pok inputs nr m digest h e =
      verify_common-committed c sys fr i k true k_last ck p d pok inputs nr m digest h e

  -- With one 32-byte input for each public IC point, 32-byte digests and the laws of Montgomery
  -- arithmetic, `verify_unchecked` answers by the equations alone, whatever the inputs' values are:
  -- on plain proofs the pairing equation, on proofs with a commitment the pairing equation and then the
  -- knowledge check; it never reports an input that is too large.
  pub verify_unchecked_lem :
      (k_last : G1) (ck : Curve.CommitmentKey c) (p : Curve.Proof c) (d pok : G1)
      (inputs : List Bytes) (nr : ℕ)
      → IsMontgomery fr
      → ((x : Bytes) → IsArray 32 (sys.sha256 x))
      → All (IsArray 32) inputs
      → length inputs ≡ length k.ics
      → ((new (encode_g1 p.a) (encode_g2 p.b) (encode_g1 p.c) inputs (encode_key c k nr [] none)
            >>= λ v. (verify_unchecked sys fr v).0)
          ≡ plain_unchecked c k p inputs)
        × ((new_with_commitment
                (encode_g1 p.a)
                (encode_g2 p.b)
                (encode_g1 p.c)
                (encode_g1 d)
                (encode_g1 pok)
                inputs
                (encode_key c k nr (k_last ∷ []) (some (encode_commitment_key c ck)))
              >>= λ v. (verify_unchecked sys fr v).0)
            ≡ committed_unchecked c sys k k_last ck p d pok inputs)
  unfolding verify_unchecked
  verify_unchecked_lem k_last ck p d pok inputs nr m digest h e = (
    verify_common-plain c sys fr i k false p inputs nr h e,
    verify_common-committed c sys fr i k false k_last ck p d pok inputs nr m digest h e,
  )
