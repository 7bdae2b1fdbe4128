-- ===== src/Program/Payload.antt =====
-- The payloads of tests/program/src/lib.rs, split and parsed.
use groth16_solana.Prelude
use groth16_solana.Prelude.{
  ℕ, zero, suc, ◌+◌, ◌-◌, ◌*◌, ◌≤◌, ◌≡◌, ◌≢◌, refl, ◌∙◌, ap, ap₂, Bool, true, false, not, List, [],
  ◌∷◌, ◌++◌, Result, ok, err, ◌>>=◌, ◌>>◌, map_err, reject_if, length, leb, ◌==◌, if◌then◌else◌,
  arith, All, length-append, take-append, drop-append, eq→==, length-drop, Bool-cases, inl, inr,
}
use groth16_solana.Prelude.Bytes.{Bytes}
use groth16_solana.Groth16.Layout.{concat}
use groth16_solana.Program.{
  ProgramError, invalid_instruction_data, take, chunks, parse_public_inputs,
}

pub take-front : (k : ℕ) (xs rest : Bytes) → length xs ≡ k → take k (xs ++ rest) ≡ ok (xs, rest)
unfolding take
take-front k xs rest h =
    rw enough (ap₂ (λ a b. ok (a, b)) (take-append k xs rest h) (drop-append k xs rest h))
  where
    enough : leb k (length (xs ++ rest)) ≡ true
    enough = ground (arith, length-append xs rest)

chunks-concat :
    (inputs : List Bytes) (n : ℕ)
    → All (λ x. length x ≡ 32) inputs
    → length inputs ≡ n
    → chunks n (concat inputs) ≡ inputs
unfolding chunks concat
chunks-concat [] zero h e = refl
chunks-concat [] (suc n) h e = absurd (omega arith)
chunks-concat (x ∷ inputs) zero h e = absurd (omega arith)
chunks-concat (x ∷ inputs) (suc n) (hx, h) e =
    ap₂ ◌∷◌ (take-append 32 x (concat inputs) hx)
      (ap (chunks n) (drop-append 32 x (concat inputs) hx) ∙ chunks-concat inputs n h (omega arith))

pub length-concat :
    (inputs : List Bytes)
    → All (λ x. length x ≡ 32) inputs
    → length (concat inputs) ≡ length inputs * 32
unfolding concat
length-concat [] h = refl
length-concat (x ∷ inputs) (hx, h) =
    omega (arith, length-append x (concat inputs), length-concat inputs h)

pub parse_public_inputs-concat :
    (inputs : List Bytes) (n : ℕ)
    → All (λ x. length x ≡ 32) inputs
    → length inputs ≡ n
    → parse_public_inputs n (concat inputs) ≡ ok inputs
unfolding parse_public_inputs
parse_public_inputs-concat inputs n h e =
    rw (eq→== (length (concat inputs)) (n * 32) (omega (arith, e, length-concat inputs h)))
      (ap ok (chunks-concat inputs n h e))

-- Taking from data and going on with what is left: whatever the length that the rest needs, wrong
-- data is refused by one of the two.
pub take-refuses :
    {A : Type 0} (k m w : ℕ) (bytes : Bytes) (next : Bytes → Bytes → Result ProgramError A)
    → ((x rest : Bytes) → length rest ≢ m → next x rest ≡ err invalid_instruction_data)
    → k + m ≡ w
    → length bytes ≢ w
    → (take k bytes >>= λ p. next p.0 p.1) ≡ err invalid_instruction_data
unfolding take
take-refuses k m w bytes next h sum e = elim (Bool-cases (leb k (length bytes))) [
  | inl enough ↦
      let le : k ≤ length bytes = ground arith in
      rw enough (
        h (Prelude.take k bytes) (Prelude.drop k bytes)
          (λ same. e (omega (arith, same, sum, length-drop k bytes))))
  | inr short ↦ rw short refl
]

pub parse_public_inputs-refuses :
    {A : Type 0} (n : ℕ) (bytes : Bytes) (next : List Bytes → Result ProgramError A)
    → length bytes ≢ n * 32
    → (parse_public_inputs n bytes >>= next) ≡ err invalid_instruction_data
unfolding parse_public_inputs
parse_public_inputs-refuses n bytes next e =
    let wrong : (length bytes == n * 32) ≡ false = ground arith in rw wrong refl
