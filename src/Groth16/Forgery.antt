-- ===== src/Groth16/Forgery.antt =====
-- Why src/vk/setup.rs refuses a production key with delta equal to gamma: the verifier of
-- src/groth16.rs accepts a proof for any public inputs then.
use groth16_solana.Prelude.{
  ℕ, ◌≡◌, ◌∙◌, ap, sym, true, none, List, [], ◌∷◌, ok, err, ◌>>=◌, length, All, if◌then◌else◌,
}
use groth16_solana.Prelude.Bytes.{Bytes, IsArray}
use groth16_solana.Prelude.ByteEq.{bytes_eq→eq}
use groth16_solana.Errors.{proof_verification_failed, public_input_greater_than_field_size}
use groth16_solana.Syscalls.{Syscalls}
use groth16_solana.HashToField.{FrOps}
use groth16_solana.Groth16.{new, verify}
use groth16_solana.Groth16.Curve
use groth16_solana.Groth16.Curve.{
  Curve, Implements, encode_key, input_sum, all_in_field, plain_spec, groth16_equation,
}
use groth16_solana.Groth16.Refinement.{verify-plain_spec}
use groth16_solana.Vk.Setup.{delta_equals_gamma}

-- What a pairing satisfies with inverses in G1: the order of the pairs does not matter, a pair and
-- its inverse cancel, and an empty product is one. Points with one encoding are the same.
pub record IsPairing (c : Curve) (neg : c.G1 → c.G1) : Type 0 where
  pub swap :
      (p p' : c.G1) (q q' : c.G2) (ps : List (c.G1 × c.G2))
      → c.product_is_one ((p, q) ∷ (p', q') ∷ ps) ≡ c.product_is_one ((p', q') ∷ (p, q) ∷ ps)
  pub rotate :
      (p : c.G1) (q : c.G2) (x y z : c.G1 × c.G2)
      → c.product_is_one ((p, q) ∷ x ∷ y ∷ z ∷ []) ≡ c.product_is_one (x ∷ y ∷ (p, q) ∷ z ∷ [])
  pub cancel :
      (p : c.G1) (q : c.G2) (ps : List (c.G1 × c.G2))
      → c.product_is_one ((p, q) ∷ (neg p, q) ∷ ps) ≡ c.product_is_one ps
  pub empty : c.product_is_one [] ≡ true
  pub injective : (q q' : c.G2) → c.encode_g2 q ≡ c.encode_g2 q' → q ≡ q'

module _ (c : Curve) (sys : Syscalls) (fr : FrOps) (i : Implements c sys) (neg : c.G1 → c.G1)
    (m : IsPairing c neg) (k : Curve.Key c) where
  open c use {encode_g1, encode_g2, product_is_one}

  -- The proof that anybody can write down: -α, β, and minus the inputs' sum.
  abbrev pub forged : List Bytes → Curve.Proof c
  forged inputs = record { a = neg k.alpha; b = k.beta; c = neg (input_sum c k.ic0 inputs k.ics) }

  equation_holds :
      (inputs : List Bytes)
      → k.gamma ≡ k.delta
      → groth16_equation c k (forged inputs) (input_sum c k.ic0 inputs k.ics) ≡ true
  equation_holds inputs e =
      let l = input_sum c k.ic0 inputs k.ics in
      m.rotate (neg k.alpha) k.beta (l, k.gamma) (neg l, k.delta) (k.alpha, k.beta)
      ∙ ap
          (λ d.
            product_is_one
              ((l, k.gamma) ∷ (neg l, d) ∷ (neg k.alpha, k.beta) ∷ (k.alpha, k.beta) ∷ []))
          (sym e)
      ∙ m.cancel l k.gamma ((neg k.alpha, k.beta) ∷ (k.alpha, k.beta) ∷ [])
      ∙ m.swap (neg k.alpha) k.alpha k.beta k.beta []
      ∙ m.cancel k.alpha k.beta []
      ∙ m.empty

  -- With a key whose delta equals its gamma, the verifier accepts a proof made from the key alone for
  -- every vector of public inputs below r.
  pub verify-forged :
      (inputs : List Bytes) (nr : ℕ)
      → All (IsArray 32) inputs
      → length inputs ≡ length k.ics
      → all_in_field c inputs ≡ true
      → delta_equals_gamma (encode_g2 k.gamma) (encode_g2 k.delta) ≡ true
      → (new
            (encode_g1 (neg k.alpha))
            (encode_g2 k.beta)
            (encode_g1 (neg (input_sum c k.ic0 inputs k.ics)))
            inputs
            (encode_key c k nr [] none)
          >>= λ v. (verify sys fr v).0)
        ≡ ok tt
  unfolding delta_equals_gamma
  verify-forged inputs nr h e f d =
      verify-plain_spec c sys fr i k (forged inputs) inputs nr h e
      ∙ ap
          (λ b.
            if b
            then if groth16_equation c k (forged inputs) (input_sum c k.ic0 inputs k.ics)
              then ok tt
              else err proof_verification_failed
            else err public_input_greater_than_field_size)
          f
      ∙ ap (λ b. if b then ok tt else err proof_verification_failed)
          (equation_holds inputs
            (m.injective k.gamma k.delta (bytes_eq→eq (encode_g2 k.gamma) (encode_g2 k.delta) d)))
