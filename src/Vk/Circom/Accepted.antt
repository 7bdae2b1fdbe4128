-- ===== src/Vk/Circom/Accepted.antt =====
-- The keys that src/vk/circom.rs converts fit the verifier of src/groth16.rs.
use groth16_solana.Prelude.{
  subst, ℕ, suc, ◌+◌, ◌≡◌, ◌∙◌, ap, sym, false, ◌&&◌, List, [], ◌∷◌, ok, >>=-eq-ok, reject_if-eq-ok,
  ok_injective, length, arith,
}
use groth16_solana.Prelude.Bytes.{Bytes}
use groth16_solana.Groth16.{Groth16Verifier, Groth16Verifyingkey, new}
use groth16_solana.Groth16.Layout.{concat}
use groth16_solana.Groth16.Valid.{new_iff}
use groth16_solana.Vk.Setup.{SetupKind, delta_equals_gamma}
use groth16_solana.Vk.Setup.Text.{ascii}
use groth16_solana.Vk.Setup.Metadata.{is_production}
use groth16_solana.Vk.Source.{decimal}
use groth16_solana.Vk.Circom.{
  Libraries, RawVerifyingKey, g1_field, g2_field, ic_points, count_pubinputs, convert_key,
}
use groth16_solana.Vk.Circom.Values.{IsBigUint}
use groth16_solana.Vk.Circom.Sizes.{
  IsCompiled, IsProjective, length-g1_field, length-g2_field, sizes-ic_points,
}

module _ (lib : Libraries) (big : IsBigUint lib) where
  length-ic_points :
      (index : ℕ) (points : List (List Bytes)) {out : List Bytes}
      → ic_points lib index points ≡ ok out
      → length out ≡ length points
  unfolding ic_points
  length-ic_points index [] e = ap length (sym (ok_injective e))
  length-ic_points index (point ∷ points) e =
      let (bytes, e1, k1) =
        >>=-eq-ok (g1_field lib point (concat (ascii "IC[" ∷ decimal index ∷ ascii "]" ∷ []))) _
          e in
      let (rest, e2, k2) = >>=-eq-ok (ic_points lib (suc index) points) _ k1 in
      ap length (sym (ok_injective k2)) ∙ ap suc (length-ic_points (suc index) points e2)

  count_pubinputs-ok :
      (points : List (List Bytes)) {count : ℕ}
      → count_pubinputs lib points ≡ ok count
      → length points ≡ count + 1
  unfolding count_pubinputs
  count_pubinputs-ok [] e = absurd cc
  count_pubinputs-ok (point ∷ points) e = omega (arith, ok_injective e)

  -- A key whose points have three projective coordinates each, if it is converted, has the lengths that
  -- the array types of the generated const fix, is taken by `new` with as many public inputs as it says,
  -- and has a delta other than its gamma if it is a production key.
  pub convert_key-new :
      (raw_vk : RawVerifyingKey) (setup : SetupKind) {vk : Groth16Verifyingkey}
      (proof_a proof_b proof_c : Bytes) (public_inputs : List Bytes)
      → IsProjective raw_vk
      → convert_key lib raw_vk setup ≡ ok vk
      → length public_inputs ≡ vk.nr_pubinputs
      → IsCompiled vk
        × ((v : Groth16Verifier) × (new proof_a proof_b proof_c public_inputs vk ≡ ok v))
        × ((is_production setup && delta_equals_gamma vk.vk_gamma_g2 vk.vk_delta_g2) ≡ false)
  unfolding convert_key
  convert_key-new raw_vk setup {vk} proof_a proof_b proof_c public_inputs three e n =
      let (count, e0, k0) = >>=-eq-ok (count_pubinputs lib raw_vk.ic) _ e in
      let (alpha, e1, k1) = >>=-eq-ok (g1_field lib raw_vk.vk_alpha_1 (ascii "vk_alpha_1")) _ k0 in
      let (beta, e2, k2) = >>=-eq-ok (g2_field lib raw_vk.vk_beta_2 (ascii "vk_beta_2")) _ k1 in
      let (gamma, e3, k3) = >>=-eq-ok (g2_field lib raw_vk.vk_gamma_2 (ascii "vk_gamma_2")) _ k2 in
      let (delta, e4, k4) = >>=-eq-ok (g2_field lib raw_vk.vk_delta_2 (ascii "vk_delta_2")) _ k3 in
      let (sound, k5) =
        reject_if-eq-ok (is_production setup && delta_equals_gamma gamma delta) _ _ k4 in
      let (points, e6, k6) = >>=-eq-ok (ic_points lib 0 raw_vk.ic) _ k5 in
      let same = sym (ok_injective k6) in
      let sizes : length vk.vk_ic ≡ length public_inputs + 1 = omega (
        arith,
        n,
        ap (λ k. length k.vk_ic) same,
        ap (λ k. k.nr_pubinputs) same,
        length-ic_points 0 raw_vk.ic e6,
        count_pubinputs-ok raw_vk.ic e0,
      ) in
      (
        subst IsCompiled (sym same) (record {
          alpha = length-g1_field lib big raw_vk.vk_alpha_1 (ascii "vk_alpha_1") e1 three.alpha;
          beta = length-g2_field lib big raw_vk.vk_beta_2 (ascii "vk_beta_2") e2 three.beta;
          gamma = length-g2_field lib big raw_vk.vk_gamma_2 (ascii "vk_gamma_2") e3 three.gamma;
          delta = length-g2_field lib big raw_vk.vk_delta_2 (ascii "vk_delta_2") e4 three.delta;
          ic = sizes-ic_points lib big 0 raw_vk.ic e6 three.ic;
        }),
        (new_iff proof_a proof_b proof_c public_inputs vk).1
            (ap (λ k. k.vk_commitment) same, sizes),
        ap (λ k. is_production setup && delta_equals_gamma k.vk_gamma_g2 k.vk_delta_g2) same
            ∙ sound,
      )
