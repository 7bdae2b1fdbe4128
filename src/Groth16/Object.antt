-- ===== src/Groth16/Object.antt =====
-- Runs of src/groth16.rs on verifier objects over encoded points, for plain and BSB22 keys alike.
use groth16_solana.Prelude.{
  ◌||◌, ℕ, suc, ◌+◌, ◌≡◌, refl, ◌∙◌, ap, Bool, true, false, not, Option, List, [], ◌∷◌, ◌++◌, map,
  Result, ok, err, ◌>>=◌, length, if◌then◌else◌, arith, get_elem?, All, Bool-cases, inl, inr,
  length-append,
}
use groth16_solana.Prelude.Bytes.{Bytes, IsArray, be_value}
use groth16_solana.Prelude.Buffer.{zeros}
use groth16_solana.Errors.{
  Groth16Error, public_input_greater_than_field_size, proof_verification_failed,
}
use groth16_solana.Syscalls.{Syscalls}
use groth16_solana.HashToField.{FrOps}
use groth16_solana.Groth16.{
  Groth16Verifier, prepared, check_pairings, verify_common, verify_commitment_pok, add_inputs,
  CommitmentVerifyingKey, pairing_input, is_not_one,
}
use groth16_solana.Groth16.Layout.{pairing_input_lem, IsSized}
use groth16_solana.Groth16.Curve
use groth16_solana.Groth16.Curve.{
  Curve, Implements, input_sum, all_in_field, pairing_word, encode_pairs, plain_spec,
  committed_spec, encode_key, encode_commitment_key, groth16_equation, commitment_scalar,
  pok_equation,
}
use groth16_solana.Groth16.Prepare.{add_inputs-input_sum}
use groth16_solana.Groth16.Verify.{verify_common-ok, verify_common-err}

pub is_not_one-pairing_word : (b : Bool) → is_not_one (pairing_word b) ≡ not b
unfolding zeros
is_not_one-pairing_word true = refl
is_not_one-pairing_word false = refl

-- IC points behind those of the inputs do not change the sum.
pub input_sum-append :
    (c : Curve) (acc : c.G1) (inputs : List Bytes) (ics more : List c.G1)
    → length inputs ≡ length ics
    → input_sum c acc inputs (ics ++ more) ≡ input_sum c acc inputs ics
unfolding input_sum
input_sum-append c acc [] ics more e = refl
input_sum-append c acc (x ∷ xs) [] more e = absurd (omega arith)
input_sum-append c acc (x ∷ xs) (ic ∷ ics) more e =
    input_sum-append c (c.add (c.scale (be_value x) ic) acc) xs ics more (omega arith)

module _ (c : Curve) (sys : Syscalls) (fr : FrOps) (i : Implements c sys) (k : Curve.Key c)
    (p : Curve.Proof c) (inputs : List Bytes) (nr : ℕ) (more : List c.G1)
    (key : Option CommitmentVerifyingKey) (d pok : Option Bytes) where
  open c use {G1, G2, encode_g1, encode_g2}

  -- The verifier object over encoded points, with any stored sum and any BSB22 parts.
  abbrev pub object : Bytes → Groth16Verifier
  object prep = record {
    proof_a = encode_g1 p.a;
    proof_b = encode_g2 p.b;
    proof_c = encode_g1 p.c;
    public_inputs = inputs;
    prepared_public_inputs = prep;
    verifyingkey = encode_key c k nr more key;
    proof_commitment = d;
    proof_commitment_pok = pok;
  }

  pub pairing-object :
      (l : G1)
      → sys.pairing_be (pairing_input (object (encode_g1 l)))
        ≡ ok (pairing_word (groth16_equation c k p l))
  pairing-object l =
      ap sys.pairing_be (pairing_input_lem (object (encode_g1 l)) sized)
      ∙ i.pairing ((p.a, p.b) ∷ (l, k.gamma) ∷ (p.c, k.delta) ∷ (k.alpha, k.beta) ∷ [])
    where
      sized : IsSized (object (encode_g1 l))
      sized = record {
        a = i.g1_size p.a;
        b = i.g2_size p.b;
        c = i.g1_size p.c;
        prepared = i.g1_size l;
        key = record {
          alpha = i.g1_size k.alpha;
          beta = i.g2_size k.beta;
          gamma = i.g2_size k.gamma;
          delta = i.g2_size k.delta;
        };
      }

  pub check_pairings-object :
      (l : G1)
      → check_pairings sys fr (object (encode_g1 l)) ≡ (
          if groth16_equation c k p l
          then verify_commitment_pok sys fr (object (encode_g1 l))
          else err proof_verification_failed)
  unfolding check_pairings
  check_pairings-object l =
      rw (pairing-object l, is_not_one-pairing_word)
        (elim (Bool-cases (groth16_equation c k p l)) [ inl e ↦ rw e | inr e ↦ rw e ])

  pub add_inputs-object :
      (check : Bool)
      → All (IsArray 32) inputs
      → length inputs ≡ length k.ics
      → add_inputs sys fr check (encode_key c k nr more key).vk_ic 0 inputs (encode_g1 k.ic0) ≡ (
          if not check || all_in_field c inputs
          then ok (encode_g1 (input_sum c k.ic0 inputs k.ics))
          else err public_input_greater_than_field_size)
  add_inputs-object check h e =
      add_inputs-input_sum c sys fr i check (encode_key c k nr more key).vk_ic 0 inputs
        (k.ics ++ more) k.ic0 shifted h (omega (arith, e, length-append k.ics more))
      ∙ ap
          (λ l.
            if not check || all_in_field c inputs
            then ok (encode_g1 l)
            else err public_input_greater_than_field_size)
          (input_sum-append c k.ic0 inputs k.ics more e)
    where
      shifted :
          (j : ℕ)
          → get_elem? (encode_key c k nr more key).vk_ic (0 + 1 + j)
            ≡ get_elem? (map encode_g1 (k.ics ++ more)) j
      shifted j =
          ap (λ (n : ℕ). get_elem? (encode_key c k nr more key).vk_ic n) {x = 0 + 1 + j} {y = suc j}
            (omega arith)

-- A run whose preparation branches on one test.
pub verify_common-if :
    (sys : Syscalls) (fr : FrOps) (check : Bool) (v : Groth16Verifier) (b : Bool) (l : Bytes)
    (e : Groth16Error)
    → prepared sys fr check v ≡ (if b then ok l else err e)
    → (verify_common sys fr check v).0
      ≡ (if b then check_pairings sys fr (record v { prepared_public_inputs = l }) else err e)
verify_common-if sys fr check v true l e h = ap (λ r. r.0) (verify_common-ok sys fr check v l h)
verify_common-if sys fr check v false l e h = ap (λ r. r.0) (verify_common-err sys fr check v e h)

pub if_bind :
    {A B : Type 0} (b : Bool) (a : A) (e : Groth16Error) (f : A → Result Groth16Error B) (a' : B)
    → f a ≡ ok a'
    → ((if b then ok a else err e) >>= f) ≡ (if b then ok a' else err e)
if_bind true a e f a' h = h
if_bind false a e f a' h = refl
