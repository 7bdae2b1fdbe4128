-- ===== src/Groth16/Curve.antt =====
-- What the verifier of src/groth16.rs promises, on points of abstract groups: Groth16's pairing
-- equation over the public inputs, and with BSB22 the commitment's share and its proof of knowledge.
use groth16_solana.Prelude.{
  ℕ, ◌%◌, ◌≡◌, Bool, true, ◌&&◌, Option, List, [], ◌∷◌, ◌++◌, map, Result, ok, err, length, ltb,
  if◌then◌else◌,
}
use groth16_solana.Prelude.Bytes.{Bytes, IsArray, be_value}
use groth16_solana.Prelude.Buffer.{zeros}
use groth16_solana.Errors.{
  Groth16Error, proof_verification_failed, public_input_greater_than_field_size,
  commitment_pok_verification_failed,
}
use groth16_solana.Syscalls.{Syscalls}
use groth16_solana.HashToField.Reduce.{fr_modulus}
use groth16_solana.HashToField.Expand.{expand_message_xmd}
use groth16_solana.Groth16.{CommitmentVerifyingKey, Groth16Verifyingkey, bsb22_dst}
use groth16_solana.Groth16.Layout.{concat}

-- BN254 as the verifier uses it: the groups, their uncompressed encodings, and the test whether a
-- product of pairings is one.
pub record Curve : Type 1 where
  pub G1 : Type 0
  pub G2 : Type 0
  pub add : G1 → G1 → G1
  pub scale : ℕ → G1 → G1
  pub encode_g1 : G1 → Bytes
  pub encode_g2 : G2 → Bytes
  pub product_is_one : List (G1 × G2) → Bool

abbrev pub encode_pairs : (c : Curve) → List (c.G1 × c.G2) → List Bytes
encode_pairs c [] = []
encode_pairs c ((p, q) ∷ ps) = c.encode_g1 p ∷ c.encode_g2 q ∷ encode_pairs c ps

-- The 32-byte word 1 or 0.
abbrev pub pairing_word : Bool → Bytes
pairing_word b = zeros 31 ++ ((if b then 1 else 0) ∷ [])

-- The documented behaviour of the syscalls on encoded points.
pub record Implements (c : Curve) (sys : Syscalls) : Type 0 where
  pub g1_size : (p : c.G1) → length (c.encode_g1 p) ≡ 64
  pub g2_size : (q : c.G2) → length (c.encode_g2 q) ≡ 128
  pub addition :
      (p q : c.G1)
      → sys.g1_addition_be (c.encode_g1 p ++ c.encode_g1 q) ≡ ok (c.encode_g1 (c.add p q))
  pub multiplication :
      (p : c.G1) (scalar : Bytes)
      → IsArray 32 scalar
      → sys.g1_multiplication_be (c.encode_g1 p ++ scalar)
        ≡ ok (c.encode_g1 (c.scale (be_value scalar) p))
  pub pairing :
      (ps : List (c.G1 × c.G2))
      → sys.pairing_be (concat (encode_pairs c ps)) ≡ ok (pairing_word (c.product_is_one ps))

module _ (curve : Curve) where
  open curve use {G1, G2, add, scale, encode_g1, encode_g2, product_is_one}

  pub record Key : Type 0 where
    pub alpha : G1
    pub beta : G2
    pub gamma : G2
    pub delta : G2
    pub ic0 : G1
    pub ics : List G1

  pub record CommitmentKey : Type 0 where
    pub g : G2
    pub g_sigma_neg : G2

  pub record Proof : Type 0 where
    pub a : G1
    pub b : G2
    pub c : G1

  -- `acc` plus each point times the input at its place; points without an input do not count.
  unfoldable pub input_sum : G1 → List Bytes → List G1 → G1
  input_sum acc [] ics = acc
  input_sum acc (x ∷ xs) [] = acc
  input_sum acc (x ∷ xs) (ic ∷ ics) = input_sum (add (scale (be_value x) ic) acc) xs ics

  unfoldable pub all_in_field : List Bytes → Bool
  all_in_field [] = true
  all_in_field (x ∷ xs) = ltb (be_value x) fr_modulus && all_in_field xs

  -- e(A, B) · e(L, γ) · e(C, δ) · e(α, β) = 1
  abbrev pub groth16_equation : Key → Proof → G1 → Bool
  groth16_equation k p l =
      product_is_one ((p.a, p.b) ∷ (l, k.gamma) ∷ (p.c, k.delta) ∷ (k.alpha, k.beta) ∷ [])

  -- e(D, -σG) · e(pok, G) = 1
  abbrev pub pok_equation : CommitmentKey → G1 → G1 → Bool
  pok_equation ck d pok = product_is_one ((d, ck.g_sigma_neg) ∷ (pok, ck.g) ∷ [])

  abbrev pub plain_spec : Key → Proof → List Bytes → Result Groth16Error (Unit {0})
  plain_spec k p inputs =
      if all_in_field inputs
      then if groth16_equation k p (input_sum k.ic0 inputs k.ics)
        then ok tt
        else err proof_verification_failed
      else err public_input_greater_than_field_size

  -- The answer where the inputs are not tested.
  abbrev pub plain_unchecked : Key → Proof → List Bytes → Result Groth16Error (Unit {0})
  plain_unchecked k p inputs =
      if groth16_equation k p (input_sum k.ic0 inputs k.ics)
      then ok tt
      else err proof_verification_failed

  -- The commitment as a scalar, as gnark hashes it.
  abbrev pub commitment_scalar : Syscalls → G1 → ℕ
  commitment_scalar sys d =
      be_value (expand_message_xmd sys.sha256 (encode_g1 d) bsb22_dst) % fr_modulus

  abbrev pub committed_spec :
      Syscalls
      → Key
      → G1
      → CommitmentKey
      → Proof
      → G1
      → G1
      → List Bytes
      → Result Groth16Error (Unit {0})
  committed_spec sys k k_last ck p d pok inputs =
      let l = add d (add (scale (commitment_scalar sys d) k_last) (input_sum k.ic0 inputs k.ics)) in
      if all_in_field inputs
      then if groth16_equation k p l
        then if pok_equation ck d pok then ok tt else err commitment_pok_verification_failed
        else err proof_verification_failed
      else err public_input_greater_than_field_size

  abbrev pub committed_unchecked :
      Syscalls
      → Key
      → G1
      → CommitmentKey
      → Proof
      → G1
      → G1
      → List Bytes
      → Result Groth16Error (Unit {0})
  committed_unchecked sys k k_last ck p d pok inputs =
      let l = add d (add (scale (commitment_scalar sys d) k_last) (input_sum k.ic0 inputs k.ics)) in
      if groth16_equation k p l
      then if pok_equation ck d pok then ok tt else err commitment_pok_verification_failed
      else err proof_verification_failed

  -- The key as the program holds it.
  abbrev pub encode_key : Key → ℕ → List G1 → Option CommitmentVerifyingKey → Groth16Verifyingkey
  encode_key k nr more commitment = record {
    nr_pubinputs = nr;
    vk_alpha_g1 = encode_g1 k.alpha;
    vk_beta_g2 = encode_g2 k.beta;
    vk_gamma_g2 = encode_g2 k.gamma;
    vk_delta_g2 = encode_g2 k.delta;
    vk_ic = encode_g1 k.ic0 ∷ map encode_g1 (k.ics ++ more);
    vk_commitment = commitment;
  }

  abbrev pub encode_commitment_key : CommitmentKey → CommitmentVerifyingKey
  encode_commitment_key ck = record {
    g2 = encode_g2 ck.g;
    g_sigma_neg_g2 = encode_g2 ck.g_sigma_neg;
  }
