-- ===== src/Groth16/Verify.antt =====
-- `verify` and `verify_unchecked` of src/groth16.rs on the verifier object: what they write, and
-- what running them again gives.
use groth16_solana.Prelude.{
  ◌≡◌, refl, ◌∙◌, ap, sym, inl, inr, Bool, Result, ok, err, ◌>>◌, Result-cases, subst,
}
use groth16_solana.Prelude.Bytes.{Bytes}
use groth16_solana.Errors.{Groth16Error}
use groth16_solana.Syscalls.{Syscalls}
use groth16_solana.HashToField.{FrOps}
use groth16_solana.Groth16.{
  Groth16Verifier, prepared, store, prepare_inputs, check_pairings, verify_common,
}
use groth16_solana.Groth16.Valid.{IsValid}

-- The end of `verify_common`.
abbrev finish :
    Syscalls
    → FrOps
    → Result Groth16Error (Unit {0}) × Groth16Verifier
    → Result Groth16Error (Unit {0}) × Groth16Verifier
finish sys fr (result, v) = (result >> check_pairings sys fr v, v)

module _ (sys : Syscalls) (fr : FrOps) where
  -- The two ways a run of `verify_common` can go.
  pub verify_common-ok :
      (check : Bool) (v : Groth16Verifier) (p : Bytes)
      → prepared sys fr check v ≡ ok p
      → verify_common sys fr check v ≡ (
        check_pairings sys fr (record v { prepared_public_inputs = p }),
        record v { prepared_public_inputs = p },
      )
  unfolding verify_common prepare_inputs
  verify_common-ok check v p e = ap (λ r. finish sys fr (store v r)) e

  pub verify_common-err :
      (check : Bool) (v : Groth16Verifier) (e : Groth16Error)
      → prepared sys fr check v ≡ err e
      → verify_common sys fr check v ≡ (err e, v)
  unfolding verify_common prepare_inputs
  verify_common-err check v e h = ap (λ r. finish sys fr (store v r)) h

  prepared-again :
      (check : Bool) (v : Groth16Verifier) (p : Bytes)
      → prepared sys fr check (record v { prepared_public_inputs = p }) ≡ prepared sys fr check v
  unfolding prepared
  prepared-again check v p = refl

  -- A run writes the prepared inputs and nothing else, so it keeps the invariant of the
  -- constructors.
  pub verify_common-IsValid :
      (check : Bool) (v : Groth16Verifier)
      → IsValid v
      → ((p : Bytes) × ((verify_common sys fr check v).1 ≡ record v { prepared_public_inputs = p }))
        × IsValid (verify_common sys fr check v).1
  verify_common-IsValid check v h = let (p, e) = frame in ((p, e), subst IsValid (sym e) (kept p h))
    where
      frame :
          (p : Bytes) × ((verify_common sys fr check v).1 ≡ record v { prepared_public_inputs = p })
      frame = elim (Result-cases (prepared sys fr check v)) [
        | inl (p, e) ↦ (p, ap (λ r. r.1) (verify_common-ok check v p e))
        | inr (x, e) ↦ (v.prepared_public_inputs, ap (λ r. r.1) (verify_common-err check v x e))
      ]

      kept : (p : Bytes) → IsValid v → IsValid (record v { prepared_public_inputs = p })
      kept p (inl g) =
          inl (record { commitment = g.commitment; pok = g.pok; key = g.key; ic = g.ic })
      kept p (inr g) = inr (record {
        commitment = g.commitment;
        commitment_lem = g.commitment_lem;
        pok = g.pok;
        pok_lem = g.pok_lem;
        key = g.key;
        key_lem = g.key_lem;
        ic = g.ic;
      })

  -- Verifying the same object again gives the same answer and the same object: nothing is
  -- accumulated in it.
  pub verify_common_idem :
      (check : Bool) (v : Groth16Verifier)
      → verify_common sys fr check (verify_common sys fr check v).1 ≡ verify_common sys fr check v
  verify_common_idem check v = elim (Result-cases (prepared sys fr check v)) [
    | inl (p, e) ↦
        let once = verify_common-ok check v p e in
        ap (λ r. verify_common sys fr check r.1) once
        ∙ verify_common-ok check (record v { prepared_public_inputs = p }) p
            (prepared-again check v p ∙ e)
        ∙ sym once
    | inr (x, e) ↦ ap (λ r. verify_common sys fr check r.1) (verify_common-err check v x e)
  ]
