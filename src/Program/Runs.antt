-- ===== src/Program/Runs.antt =====
-- What the instructions of tests/program/src/lib.rs do, on well-formed and on other payloads.
use groth16_solana.Prelude.{
  some_injective, ℕ, zero, suc, ◌+◌, ◌*◌, ◌^◌, ◌≡◌, ◌≢◌, refl, ◌∙◌, ap, List, [], ◌∷◌, ◌++◌, some,
  Result, ok, err, ◌>>=◌, map_err, length, get_elem?, arith, All,
}
use groth16_solana.Prelude.Bytes.{Bytes}
use groth16_solana.Syscalls.{Syscalls}
use groth16_solana.HashToField.{FrOps}
use groth16_solana.Groth16
use groth16_solana.Groth16.{Groth16Verifier, Groth16Verifyingkey, new, new_with_commitment}
use groth16_solana.Groth16.Layout.{concat}
use groth16_solana.Program.{
  invalid_instruction_data, Keys, plain_payload_len, bsb22_payload_len, code, verify,
  verify_with_bsb22_commitment, process_instruction,
}
use groth16_solana.Program.Payload.{
  take-front, parse_public_inputs-concat, take-refuses, parse_public_inputs-refuses,
}

-- The lengths of the parts of a payload.
pub record IsParts (a b c : Bytes) (inputs : List Bytes) : Type 0 where
  pub a_size : length a ≡ 64
  pub b_size : length b ≡ 128
  pub c_size : length c ≡ 64
  pub input_sizes : All (λ x. length x ≡ 32) inputs

-- The keys in the order of their selectors, for 2^0 to 2^3 public inputs.
abbrev pub plain_keys : Keys → List Groth16Verifyingkey
plain_keys keys = keys.vk_plain_1 ∷ keys.vk_plain_2 ∷ keys.vk_plain_4 ∷ keys.vk_plain_8 ∷ []

abbrev pub bsb22_keys : Keys → List Groth16Verifyingkey
bsb22_keys keys = keys.vk_bsb22_1 ∷ keys.vk_bsb22_2 ∷ keys.vk_bsb22_4 ∷ keys.vk_bsb22_8 ∷ []

map_err-bind :
    {E F A B : Type 0} (f : E → F) (m : Result E A) (k : A → Result E B)
    → (map_err f m >>= λ a. map_err f (k a)) ≡ map_err f (m >>= k)
map_err-bind f (ok a) k = refl
map_err-bind f (err e) k = refl

module _ (sys : Syscalls) (fr : FrOps) where
  verify-parts :
      (n : ℕ) (a b c : Bytes) (inputs : List Bytes) (vk : Groth16Verifyingkey)
      → IsParts a b c inputs
      → length inputs ≡ n
      → verify sys fr n (a ++ (b ++ (c ++ concat inputs))) vk
        ≡ map_err code (new a b c inputs vk >>= λ v. (Groth16.verify sys fr v).0)
  unfolding verify
  verify-parts n a b c inputs vk s e = rw (take-front 64 a (b ++ (c ++ concat inputs)) s.a_size) (
      rw (take-front 128 b (c ++ concat inputs) s.b_size) (
        rw
          (
            take-front 64 c (concat inputs) s.c_size,
            parse_public_inputs-concat inputs n s.input_sizes e,
          )
          (map_err-bind code (new a b c inputs vk) (λ v. (Groth16.verify sys fr v).0))))

  verify_with_bsb22_commitment-parts :
      (n : ℕ) (a b c commitment pok : Bytes) (inputs : List Bytes) (vk : Groth16Verifyingkey)
      → IsParts a b c inputs
      → length commitment ≡ 64
      → length pok ≡ 64
      → length inputs ≡ n
      → verify_with_bsb22_commitment sys fr n
          (a ++ (b ++ (c ++ (commitment ++ (pok ++ concat inputs)))))
          vk
        ≡ map_err code (
            new_with_commitment a b c commitment pok inputs vk >>= λ v. (Groth16.verify sys fr v).0)
  unfolding verify_with_bsb22_commitment
  verify_with_bsb22_commitment-parts n a b c commitment pok inputs vk s hd hp e =
      rw (take-front 64 a (b ++ (c ++ (commitment ++ (pok ++ concat inputs)))) s.a_size) (
        rw (take-front 128 b (c ++ (commitment ++ (pok ++ concat inputs))) s.b_size) (
          rw (take-front 64 c (commitment ++ (pok ++ concat inputs)) s.c_size) (
            rw (take-front 64 commitment (pok ++ concat inputs) hd) (
              rw
                (
                  take-front 64 pok (concat inputs) hp,
                  parse_public_inputs-concat inputs n s.input_sizes e,
                )
                (map_err-bind code (new_with_commitment a b c commitment pok inputs vk)
                  (λ v. (Groth16.verify sys fr v).0))))))

  plain_run :
      (n : ℕ) (vk' vk : Groth16Verifyingkey) (a b c : Bytes) (inputs : List Bytes)
      → some vk' ≡ some vk
      → IsParts a b c inputs
      → length inputs ≡ n
      → verify sys fr n (a ++ (b ++ (c ++ concat inputs))) vk'
        ≡ map_err code (new a b c inputs vk >>= λ v. (Groth16.verify sys fr v).0)
  plain_run n vk' vk a b c inputs k p e =
      verify-parts n a b c inputs vk' p e
      ∙ ap (λ key. map_err code (new a b c inputs key >>= λ v. (Groth16.verify sys fr v).0))
          (some_injective k)

  bsb22_run :
      (n : ℕ) (vk' vk : Groth16Verifyingkey) (a b c commitment pok : Bytes) (inputs : List Bytes)
      → some vk' ≡ some vk
      → IsParts a b c inputs
      → length commitment ≡ 64
      → length pok ≡ 64
      → length inputs ≡ n
      → verify_with_bsb22_commitment sys fr n
          (a ++ (b ++ (c ++ (commitment ++ (pok ++ concat inputs)))))
          vk'
        ≡ map_err code (
            new_with_commitment a b c commitment pok inputs vk >>= λ v. (Groth16.verify sys fr v).0)
  bsb22_run n vk' vk a b c d pok inputs k p hd hp e =
      verify_with_bsb22_commitment-parts n a b c d pok inputs vk' p hd hp e
      ∙ ap
          (λ key.
            map_err code
              (new_with_commitment a b c d pok inputs key >>= λ v. (Groth16.verify sys fr v).0))
          (some_injective k)

  -- The selectors 0 to 3 verify a plain proof with 1, 2, 4 or 8 public inputs: the payload is A, B, C
  -- and the inputs, and the answer is that of the verifier, with its error's code.
  pub process_instruction-new :
      (keys : Keys) (s : ℕ) (vk : Groth16Verifyingkey) (a b c : Bytes) (inputs : List Bytes)
      → get_elem? (plain_keys keys) s ≡ some vk
      → IsParts a b c inputs
      → length inputs ≡ 2 ^ s
      → process_instruction sys fr keys (s ∷ (a ++ (b ++ (c ++ concat inputs))))
        ≡ map_err code (new a b c inputs vk >>= λ v. (Groth16.verify sys fr v).0)
  unfolding process_instruction
  process_instruction-new keys zero vk a b c inputs k p e =
      plain_run 1 keys.vk_plain_1 vk a b c inputs k p e
  process_instruction-new keys (suc zero) vk a b c inputs k p e =
      plain_run 2 keys.vk_plain_2 vk a b c inputs k p e
  process_instruction-new keys (suc (suc zero)) vk a b c inputs k p e =
      plain_run 4 keys.vk_plain_4 vk a b c inputs k p e
  process_instruction-new keys (suc (suc (suc zero))) vk a b c inputs k p e =
      plain_run 8 keys.vk_plain_8 vk a b c inputs k p e
  process_instruction-new keys (suc (suc (suc (suc s)))) vk a b c inputs k p e = cc

  -- The selectors 4 to 7 do the same with a commitment and its proof of knowledge between C and the
  -- inputs.
  pub process_instruction-new_with_commitment :
      (keys : Keys) (s : ℕ) (vk : Groth16Verifyingkey) (a b c commitment pok : Bytes)
      (inputs : List Bytes)
      → get_elem? (bsb22_keys keys) s ≡ some vk
      → IsParts a b c inputs
      → length commitment ≡ 64
      → length pok ≡ 64
      → length inputs ≡ 2 ^ s
      → process_instruction sys fr keys
          ((4 + s) ∷ (a ++ (b ++ (c ++ (commitment ++ (pok ++ concat inputs))))))
        ≡ map_err code (
            new_with_commitment a b c commitment pok inputs vk >>= λ v. (Groth16.verify sys fr v).0)
  unfolding process_instruction
  process_instruction-new_with_commitment keys zero vk a b c d pok inputs k p hd hp e =
      bsb22_run 1 keys.vk_bsb22_1 vk a b c d pok inputs k p hd hp e
  process_instruction-new_with_commitment keys (suc zero) vk a b c d pok inputs k p hd hp e =
      bsb22_run 2 keys.vk_bsb22_2 vk a b c d pok inputs k p hd hp e
  process_instruction-new_with_commitment keys (suc (suc zero)) vk a b c d pok inputs k p hd hp e =
      bsb22_run 4 keys.vk_bsb22_4 vk a b c d pok inputs k p hd hp e
  process_instruction-new_with_commitment keys (suc (suc (suc zero))) vk a b c d pok inputs k p hd
        hp e =
      bsb22_run 8 keys.vk_bsb22_8 vk a b c d pok inputs k p hd hp e
  process_instruction-new_with_commitment keys (suc (suc (suc (suc s)))) vk a b c d pok inputs k p
        hd hp e =
      cc

  -- A payload of any other length is refused before a verifier is built.
  verify-refuses :
      (n : ℕ) (payload : Bytes) (vk : Groth16Verifyingkey)
      → length payload ≢ plain_payload_len n
      → verify sys fr n payload vk ≡ err invalid_instruction_data
  unfolding verify plain_payload_len
  verify-refuses n payload vk e =
      take-refuses 64 (192 + n * 32) (256 + n * 32) payload _
        (λ a rest e1.
          take-refuses 128 (64 + n * 32) (192 + n * 32) rest _
            (λ b rest e2.
              take-refuses 64 (n * 32) (64 + n * 32) rest _
                (λ c rest e3. parse_public_inputs-refuses n rest _ e3) (omega arith) e2)
            (omega arith) e1)
        (omega arith) (λ q. e (omega (arith, q)))

  -- The same for payloads with a commitment.
  pub verify_with_bsb22_commitment-refuses :
      (n : ℕ) (payload : Bytes) (vk : Groth16Verifyingkey)
      → length payload ≢ bsb22_payload_len n
      → verify_with_bsb22_commitment sys fr n payload vk ≡ err invalid_instruction_data
  unfolding verify_with_bsb22_commitment bsb22_payload_len
  verify_with_bsb22_commitment-refuses n payload vk e =
      take-refuses 64 (320 + n * 32) (384 + n * 32) payload _
        (λ a rest e1.
          take-refuses 128 (192 + n * 32) (320 + n * 32) rest _
            (λ b rest e2.
              take-refuses 64 (128 + n * 32) (192 + n * 32) rest _
                (λ c rest e3.
                  take-refuses 64 (64 + n * 32) (128 + n * 32) rest _
                    (λ d rest e4.
                      take-refuses 64 (n * 32) (64 + n * 32) rest _
                        (λ pok rest e5. parse_public_inputs-refuses n rest _ e5) (omega arith) e4)
                    (omega arith) e3)
                (omega arith) e2)
            (omega arith) e1)
        (omega arith) (λ q. e (omega (arith, q)))
