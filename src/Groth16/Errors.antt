-- ===== src/Groth16/Errors.antt =====
-- The errors that verification in src/groth16.rs can report, whatever the syscalls answer.
use groth16_solana.Prelude.{
  ℕ, zero, suc, ◌+◌, ◌<◌, ◌≤◌, ◌≡◌, inl, inr, Bool, true, false, ◌&&◌, not, Option, none, some,
  List, [], ◌∷◌, Result, ok, err, ◌>>=◌, ◌>>◌, length, get_elem?, arith, map_err, ok_or, reject_if,
  Result-cases, subst,
}
use groth16_solana.Prelude.Bytes.{Bytes}
use groth16_solana.Errors
use groth16_solana.Errors.{
  Groth16Error, public_input_greater_than_field_size, invalid_public_inputs_length,
  bsb22_inconsistent_commitment_state,
}
use groth16_solana.Syscalls.{Syscalls}
use groth16_solana.HashToField.{FrOps}
use groth16_solana.FieldSize.{is_less_than_bn254_field_size_be}
use groth16_solana.Groth16.{
  Groth16Verifier, g1_add, g1_mul_add, add_inputs, add_commitment, prepared, by_state,
  verify_commitment_pok, check_pairings, verify_common, disagree, Groth16Verifyingkey,
  CommitmentVerifyingKey, is_not_one,
}
use groth16_solana.Groth16.Valid.{IsValid}
use groth16_solana.Groth16.Verify.{verify_common-ok, verify_common-err}

-- The answers to bad proofs and bad inputs. All other errors of the crate would be faults of the
-- object itself.
abbrev pub IsVerifyError : Groth16Error → Type 0
IsVerifyError Errors.proof_verification_failed = Unit
IsVerifyError Errors.preparing_inputs_g1_addition_failed = Unit
IsVerifyError Errors.preparing_inputs_g1_mul_failed = Unit
IsVerifyError Errors.public_input_greater_than_field_size = Unit
IsVerifyError Errors.commitment_pok_verification_failed = Unit
IsVerifyError Errors.bsb22_invalid_commitment_point = Unit
IsVerifyError _ = ⊥

-- `r` fails with such errors only.
abbrev Fails : {A : Type 0} → Result Groth16Error A → Type 0
Fails (ok a) = Unit
Fails (err e) = IsVerifyError e

Fails-bind :
    {A B : Type 0} (m : Result Groth16Error A) (f : A → Result Groth16Error B)
    → Fails m
    → ((a : A) → Fails (f a))
    → Fails (m >>= f)
Fails-bind (ok a) f hm hf = hf a
Fails-bind (err e) f hm hf = hm

Fails-map_err :
    {A : Type 0} (e : Groth16Error) (m : Result Groth16Error A)
    → IsVerifyError e
    → Fails (map_err (λ _. e) m)
Fails-map_err e (ok a) h = tt
Fails-map_err e (err x) h = h

Fails-reject_if : (b : Bool) (e : Groth16Error) → IsVerifyError e → Fails (reject_if b e)
Fails-reject_if true e h = h
Fails-reject_if false e h = tt

-- An index that is in range is never an error.
Fails-get :
    (xs : List Bytes) (n : ℕ) (e : Groth16Error) → n < length xs → Fails (ok_or e (get_elem? xs n))
Fails-get [] n e h = elim h [ ]
Fails-get (x ∷ xs) zero e h = tt
Fails-get (x ∷ xs) (suc n) e h = Fails-get xs n e (omega arith)

module _ (sys : Syscalls) (fr : FrOps) where
  Fails-g1_add : (p q : Bytes) → Fails (g1_add sys fr p q)
  unfolding g1_add
  Fails-g1_add p q = Fails-map_err _ (sys.g1_addition_be _) tt

  Fails-g1_mul_add : (p s q : Bytes) → Fails (g1_mul_add sys fr p s q)
  unfolding g1_mul_add
  Fails-g1_mul_add p s q =
      Fails-bind _ _ (Fails-map_err _ (sys.g1_multiplication_be _) tt) (λ m. Fails-g1_add m q)

  Fails-add_inputs :
      (check : Bool) (vk_ic : List Bytes) (n : ℕ) (inputs : List Bytes) (acc : Bytes)
      → n + 1 + length inputs ≤ length vk_ic
      → Fails (add_inputs sys fr check vk_ic n inputs acc)
  unfolding add_inputs
  Fails-add_inputs check vk_ic n [] acc h = tt
  Fails-add_inputs check vk_ic n (x ∷ xs) acc h =
      let next = λ (acc' : Bytes). Fails-add_inputs check vk_ic (n + 1) xs acc' (omega arith) in
      Fails-bind _ _ (Fails-reject_if (check && not (is_less_than_bn254_field_size_be x)) _ tt)
        (λ _.
          Fails-bind _ _ (Fails-get vk_ic (n + 1) _ (omega arith))
            (λ ic. Fails-bind _ _ (Fails-g1_mul_add ic x acc) next))

  Fails-add_commitment :
      (vk : Groth16Verifyingkey) (n : ℕ) (commitment acc : Bytes)
      → n + 1 < length vk.vk_ic
      → Fails (add_commitment sys fr vk n (some commitment) acc)
  unfolding add_commitment
  Fails-add_commitment vk n commitment acc h =
      Fails-bind _ _ (Fails-get vk.vk_ic (n + 1) _ h) (λ ic.
        Fails-bind _ _ (Fails-g1_mul_add ic _ acc)
          (λ acc'. Fails-map_err _ (g1_add sys fr commitment acc') tt))

  Fails-committed :
      (vk : Groth16Verifyingkey) (n : ℕ) (acc : Bytes) (kc : Option CommitmentVerifyingKey)
      (d : Option Bytes) (key : CommitmentVerifyingKey) (commitment : Bytes)
      → kc ≡ some key
      → d ≡ some commitment
      → n + 1 < length vk.vk_ic
      → Fails (
          reject_if (disagree kc d) bsb22_inconsistent_commitment_state
          >> add_commitment sys fr vk n d acc)
  Fails-committed vk n acc none d key commitment ek ed h = cc
  Fails-committed vk n acc (some k) none key commitment ek ed h = cc
  Fails-committed vk n acc (some k) (some x) key commitment ek ed h =
      Fails-add_commitment vk n x acc h

  Fails-prepared :
      (check : Bool) (v : Groth16Verifier) → IsValid v → Fails (prepared sys fr check v)
  unfolding prepared
  Fails-prepared check v (inl h) =
      Fails-bind _ _ (Fails-get v.verifyingkey.vk_ic 0 _ (omega (arith, h.ic))) (λ first.
        Fails-bind _ _
          (Fails-add_inputs check v.verifyingkey.vk_ic 0 v.public_inputs first
            (omega (arith, h.ic)))
          (λ acc. rw (h.key, h.commitment) (unfold add_commitment in tt)))
  Fails-prepared check v (inr h) =
      Fails-bind _ _ (Fails-get v.verifyingkey.vk_ic 0 _ (omega (arith, h.ic))) (λ first.
        Fails-bind _ _
          (Fails-add_inputs check v.verifyingkey.vk_ic 0 v.public_inputs first
            (omega (arith, h.ic)))
          (λ acc.
            Fails-committed v.verifyingkey (length v.public_inputs) acc v.verifyingkey.vk_commitment
              v.proof_commitment h.key h.commitment h.key_lem h.commitment_lem
              (omega (arith, h.ic))))

  Fails-check_pairings :
      (v : Groth16Verifier) (p : Bytes)
      → IsValid v
      → Fails (check_pairings sys fr (record v { prepared_public_inputs = p }))
  unfolding check_pairings verify_commitment_pok
  Fails-check_pairings v p h =
      Fails-bind _ _ (Fails-map_err _ (sys.pairing_be _) tt)
        (λ res. Fails-bind _ _ (Fails-reject_if (is_not_one res) _ tt) (λ _. pok h))
    where
      pok :
          IsValid v
          → Fails (
              by_state sys fr v.proof_commitment v.proof_commitment_pok
                v.verifyingkey.vk_commitment)
      pok (inl g) = rw (g.commitment, g.pok, g.key) (unfold by_state in tt)
      pok (inr g) =
          rw (g.commitment_lem, g.pok_lem, g.key_lem)
            (unfold by_state in
              Fails-bind _ _ (Fails-map_err _ (sys.pairing_be _) tt)
                (λ res. Fails-reject_if (is_not_one res) _ tt))

  -- On an object from the constructors, verification reports one of six errors: a public input
  -- that is too large, a point that a syscall rejects, an invalid commitment point, or one of the
  -- two pairing checks. It never reports a wrong number of IC points or a mixed BSB22 state.
  pub verify_common-IsVerifyError :
      (check : Bool) (v : Groth16Verifier) (e : Groth16Error)
      → IsValid v
      → (verify_common sys fr check v).0 ≡ err e
      → IsVerifyError e
  verify_common-IsVerifyError check v e h q =
      subst Fails q (elim (Result-cases (prepared sys fr check v)) [
        | inl (p, k) ↦ rw (verify_common-ok sys fr check v p k) (Fails-check_pairings v p h)
        | inr (x, k) ↦
            rw (verify_common-err sys fr check v x k) (subst Fails k (Fails-prepared check v h))
      ])
