-- ===== src/Groth16/Answers.antt =====
-- The answers of `verify_common` of src/groth16.rs on the objects of the two constructors.
use groth16_solana.Prelude.{
  Bool, ◌||◌, ℕ, suc, ◌+◌, ◌≡◌, refl, ◌∙◌, ap, sym, not, Option, none, some, List, [], ◌∷◌, ◌++◌,
  map, ok, err, ◌>>=◌, ◌>>◌, length, if◌then◌else◌, arith, get_elem?, All, map_err, Bool-cases, inl,
  inr, length-append, eq→==, length-map, reject_if, get_elem?-map_last,
}
use groth16_solana.Prelude.Bytes.{Bytes, IsArray, be_value}
use groth16_solana.Prelude.Buffer.{zeros}
use groth16_solana.Errors.{
  public_input_greater_than_field_size, proof_verification_failed, invalid_public_inputs_length,
  bsb22_invalid_commitment_point, commitment_pok_verification_failed,
}
use groth16_solana.Syscalls.{Syscalls}
use groth16_solana.HashToField.{FrOps, hash_to_field_bn254_fr}
use groth16_solana.HashToField.Hash.{hash_to_field_bn254_fr_lem}
use groth16_solana.HashToField.Reduce.{IsMontgomery}
use groth16_solana.Groth16.{
  Groth16Verifier, new, new_with_commitment, prepared, verify_common, by_state,
  verify_commitment_pok, add_commitment, CommitmentVerifyingKey, Groth16Verifyingkey, bsb22_dst,
  pok_input,
}
use groth16_solana.Groth16.Layout.{pok_input_lem}
use groth16_solana.Groth16.Curve
use groth16_solana.Groth16.Curve.{
  Curve, Implements, input_sum, all_in_field, pairing_word, encode_pairs, plain_spec,
  plain_unchecked, committed_unchecked, committed_spec, encode_key, encode_commitment_key,
  groth16_equation, commitment_scalar, pok_equation,
}
use groth16_solana.Groth16.Prepare.{g1_mul_add-add, g1_add-add}
use groth16_solana.Groth16.Object.{
  is_not_one-pairing_word, object, check_pairings-object, add_inputs-object, verify_common-if,
  if_bind,
}

module _ (c : Curve) (sys : Syscalls) (fr : FrOps) (i : Implements c sys) (k : Curve.Key c) where
  open c use {G1, G2, add, scale, encode_g1, encode_g2}

  -- A run on the object of `new`, with or without the test of the inputs.
  pub verify_common-plain :
      (check : Bool) (p : Curve.Proof c) (inputs : List Bytes) (nr : ℕ)
      → All (IsArray 32) inputs
      → length inputs ≡ length k.ics
      → (new (encode_g1 p.a) (encode_g2 p.b) (encode_g1 p.c) inputs (encode_key c k nr [] none)
          >>= λ v. (verify_common sys fr check v).0)
        ≡ (if not check || all_in_field c inputs
            then plain_unchecked c k p inputs
            else err public_input_greater_than_field_size)
  verify_common-plain check p inputs nr h e =
      ap (λ r. r >>= λ v. (verify_common sys fr check v).0) constructed
      ∙ verify_common-if sys fr check (object' (zeros 64)) (not check || all_in_field c inputs)
          (encode_g1 l) public_input_greater_than_field_size sum
      ∙ ap
          (λ r.
            if not check || all_in_field c inputs
            then r
            else err public_input_greater_than_field_size)
          (check_pairings-object c sys fr i k p inputs nr [] none none none l
            ∙ ap (λ r. if groth16_equation c k p l then r else err proof_verification_failed)
                (unfold verify_commitment_pok by_state in refl))
    where
      l : G1
      l = input_sum c k.ic0 inputs k.ics

      object' : Bytes → Groth16Verifier
      object' = object c sys fr i k p inputs nr [] none none none

      constructed :
          new (encode_g1 p.a) (encode_g2 p.b) (encode_g1 p.c) inputs (encode_key c k nr [] none)
          ≡ ok (object' (zeros 64))
      constructed =
          unfold new in
          ap (λ t. reject_if (not t) invalid_public_inputs_length >> ok (object' (zeros 64)))
            (eq→== (length inputs + 1) (length (encode_key c k nr [] none).vk_ic)
              (omega (arith, e, length-map encode_g1 (k.ics ++ []), length-append k.ics [])))

      sum : prepared sys fr check (object' (zeros 64)) ≡ (
          if not check || all_in_field c inputs
          then ok (encode_g1 l)
          else err public_input_greater_than_field_size)
      sum =
          unfold prepared add_commitment in
          ap (λ r. r >>= λ acc. ok acc)
            (add_inputs-object c sys fr i k p inputs nr [] none none none check h e)
          ∙ if_bind (not check || all_in_field c inputs) (encode_g1 l)
              public_input_greater_than_field_size (λ acc. ok acc) (encode_g1 l) refl

  pok-pok_equation :
      (ck : Curve.CommitmentKey c) (d pok : G1)
      → by_state sys fr
          (some (encode_g1 d))
          (some (encode_g1 pok))
          (some (encode_commitment_key c ck))
        ≡ (if pok_equation c ck d pok then ok tt else err commitment_pok_verification_failed)
  unfolding by_state
  pok-pok_equation ck d pok =
      rw (paired, is_not_one-pairing_word)
        (elim (Bool-cases (pok_equation c ck d pok)) [ inl e ↦ rw e | inr e ↦ rw e ])
    where
      paired :
          sys.pairing_be (pok_input (encode_g1 d) (encode_g1 pok) (encode_commitment_key c ck))
          ≡ ok (pairing_word (pok_equation c ck d pok))
      paired =
          ap sys.pairing_be (
            pok_input_lem (encode_g1 d) (encode_g1 pok) (encode_commitment_key c ck) (i.g1_size d)
              (i.g1_size pok) (i.g2_size ck.g) (i.g2_size ck.g_sigma_neg))
          ∙ i.pairing ((d, ck.g_sigma_neg) ∷ (pok, ck.g) ∷ [])

  -- The commitment's hash times the last IC point, and the commitment itself, join the sum.
  add_commitment-add :
      (k_last d l : G1) (nr n : ℕ) (key : Option CommitmentVerifyingKey)
      → IsMontgomery fr
      → ((x : Bytes) → IsArray 32 (sys.sha256 x))
      → length k.ics ≡ n
      → add_commitment sys fr
          (encode_key c k nr (k_last ∷ []) key)
          n
          (some (encode_g1 d))
          (encode_g1 l)
        ≡ ok (encode_g1 (add d (add (scale (commitment_scalar c sys d) k_last) l)))
  unfolding add_commitment
  add_commitment-add k_last d l nr n key m digest e =
      let hash = hash_to_field_bn254_fr sys.sha256 fr (encode_g1 d) bsb22_dst in
      let hashed =
        hash_to_field_bn254_fr_lem sys.sha256 digest fr (encode_g1 d) bsb22_dst m (omega arith) in
      rw (here, g1_mul_add-add c sys fr i k_last l hash hashed.1)
        (ap (map_err (λ _. bsb22_invalid_commitment_point))
            (g1_add-add c sys fr i d (add (scale (be_value hash) k_last) l))
          ∙ ap (λ (s : ℕ). ok (encode_g1 (add d (add (scale s k_last) l)))) hashed.0)
    where
      here :
          get_elem? (encode_g1 k.ic0 ∷ map encode_g1 (k.ics ++ (k_last ∷ []))) (n + 1)
          ≡ some (encode_g1 k_last)
      here =
          ap (λ (t : ℕ). get_elem? (encode_g1 k.ic0 ∷ map encode_g1 (k.ics ++ (k_last ∷ []))) t)
            {x = n + 1} {y = suc n} (omega arith)
          ∙ get_elem?-map_last encode_g1 k.ics k_last n e

  -- The same for the object of `new_with_commitment`.
  pub verify_common-committed :
      (check : Bool) (k_last : G1) (ck : Curve.CommitmentKey c) (p : Curve.Proof c) (d pok : G1)
      (inputs : List Bytes) (nr : ℕ)
      → IsMontgomery fr
      → ((x : Bytes) → IsArray 32 (sys.sha256 x))
      → All (IsArray 32) inputs
      → length inputs ≡ length k.ics
      → (new_with_commitment
            (encode_g1 p.a)
            (encode_g2 p.b)
            (encode_g1 p.c)
            (encode_g1 d)
            (encode_g1 pok)
            inputs
            (encode_key c k nr (k_last ∷ []) (some (encode_commitment_key c ck)))
          >>= λ v. (verify_common sys fr check v).0)
        ≡ (if not check || all_in_field c inputs
            then committed_unchecked c sys k k_last ck p d pok inputs
            else err public_input_greater_than_field_size)
  verify_common-committed check k_last ck p d pok inputs nr m digest h e =
      ap (λ r. r >>= λ v. (verify_common sys fr check v).0) constructed
      ∙ verify_common-if sys fr check (object' (zeros 64)) (not check || all_in_field c inputs)
          (encode_g1 l) public_input_greater_than_field_size sum
      ∙ ap
          (λ r.
            if not check || all_in_field c inputs
            then r
            else err public_input_greater_than_field_size)
          (check_pairings-object c sys fr i k p inputs nr (k_last ∷ []) key (some (encode_g1 d))
              (some (encode_g1 pok)) l
            ∙ ap (λ r. if groth16_equation c k p l then r else err proof_verification_failed)
                (unfold verify_commitment_pok in pok-pok_equation ck d pok))
    where
      key : Option CommitmentVerifyingKey
      key = some (encode_commitment_key c ck)

      vk : Groth16Verifyingkey
      vk = encode_key c k nr (k_last ∷ []) key

      l0 : G1
      l0 = input_sum c k.ic0 inputs k.ics

      l : G1
      l = add d (add (scale (commitment_scalar c sys d) k_last) l0)

      object' : Bytes → Groth16Verifier
      object' =
          object c sys fr i k p inputs nr (k_last ∷ []) key (some (encode_g1 d))
            (some (encode_g1 pok))

      constructed :
          new_with_commitment
            (encode_g1 p.a)
            (encode_g2 p.b)
            (encode_g1 p.c)
            (encode_g1 d)
            (encode_g1 pok)
            inputs
            vk
          ≡ ok (object' (zeros 64))
      constructed =
          unfold new_with_commitment in
          ap (λ t. reject_if (not t) invalid_public_inputs_length >> ok (object' (zeros 64)))
            (eq→== (length inputs + 2) (length vk.vk_ic) (
              omega (
                arith,
                e,
                length-map encode_g1 (k.ics ++ (k_last ∷ [])),
                length-append k.ics (k_last ∷ []),
              )))

      share :
          add_commitment sys fr vk (length inputs) (some (encode_g1 d)) (encode_g1 l0)
          ≡ ok (encode_g1 l)
      share = add_commitment-add k_last d l0 nr (length inputs) key m digest (sym e)

      sum : prepared sys fr check (object' (zeros 64)) ≡ (
          if not check || all_in_field c inputs
          then ok (encode_g1 l)
          else err public_input_greater_than_field_size)
      sum =
          unfold prepared in
          ap (λ r. r >>= λ acc. add_commitment sys fr vk (length inputs) (some (encode_g1 d)) acc)
            (add_inputs-object c sys fr i k p inputs nr (k_last ∷ []) key (some (encode_g1 d))
              (some (encode_g1 pok)) check h e)
          ∙ if_bind (not check || all_in_field c inputs) (encode_g1 l0)
              public_input_greater_than_field_size
              (λ acc. add_commitment sys fr vk (length inputs) (some (encode_g1 d)) acc)
              (encode_g1 l) share
