-- ===== src/Vk/Circom/Sizes.antt =====
-- The lengths of the points that src/vk/circom.rs converts.
use groth16_solana.Prelude.{
  some_injective, ℕ, suc, ◌+◌, ◌*◌, ◌≡◌, refl, ◌∙◌, ap, sym, subst, Option, some, none, List, [],
  ◌∷◌, ◌++◌, Result, ok, err, map_err, >>=-eq-ok, ok_injective, length, length-append, arith, All,
}
use groth16_solana.Prelude.Bytes.{Bytes}
use groth16_solana.Groth16.{Groth16Verifyingkey}
use groth16_solana.Groth16.Layout.{concat}
use groth16_solana.Vk.Setup.Text.{ascii}
use groth16_solana.Vk.Source.{decimal}
use groth16_solana.Vk.Circom.{
  Libraries, RawVerifyingKey, VkParseError, split_last, affine_components,
  bigint_string_to_be_bytes, component_le, process_g1_component, process_g2_component, g1_bytes,
  g2_bytes, g1_field, g2_field, ic_points,
}
use groth16_solana.Vk.Circom.Values.{IsBigUint, word-resize, process_g2_component_lem}

-- The lengths that the array types of `Groth16Verifyingkey` fix: a const with other lengths does not
-- compile.
pub record IsCompiled (vk : Groth16Verifyingkey) : Type 0 where
  pub alpha : length vk.vk_alpha_g1 ≡ 64
  pub beta : length vk.vk_beta_g2 ≡ 128
  pub gamma : length vk.vk_gamma_g2 ≡ 128
  pub delta : length vk.vk_delta_g2 ≡ 128
  pub ic : All (λ point. length point ≡ 64) vk.vk_ic

-- Every point of the JSON key has three projective coordinates.
pub record IsProjective (raw_vk : RawVerifyingKey) : Type 0 where
  pub alpha : length raw_vk.vk_alpha_1 ≡ 3
  pub beta : length raw_vk.vk_beta_2 ≡ 3
  pub gamma : length raw_vk.vk_gamma_2 ≡ 3
  pub delta : length raw_vk.vk_delta_2 ≡ 3
  pub ic : All (λ point. length point ≡ 3) raw_vk.ic

affine-eq-ok :
    {A : Type 0} (o : Option A) (e : VkParseError) {a : A}
    → elim o [ none ↦ err e | some a ↦ ok a ] ≡ ok a
    → o ≡ some a
affine-eq-ok none e h = absurd cc
affine-eq-ok (some a) e h = ap some (ok_injective h)

front-eq-some :
    {A : Type 0} (x : A) (o : Option (List A)) {front : List A}
    → elim o [ none ↦ none | some front ↦ some (x ∷ front) ] ≡ some front
    → (rest : List A) × (o ≡ some rest) × (x ∷ rest ≡ front)
front-eq-some x none h = absurd cc
front-eq-some x (some rest) h = (rest, refl, some_injective h)

length-split_last :
    {A : Type 0} (xs : List A) {front : List A}
    → split_last xs ≡ some front
    → length xs ≡ length front + 1
unfolding split_last
length-split_last [] e = absurd cc
length-split_last (x ∷ []) e = omega (arith, ap length (some_injective e))
length-split_last (x ∷ y ∷ xs) e =
    let (rest, h, same) = front-eq-some x (split_last (y ∷ xs)) e in
    omega (arith, length-split_last (y ∷ xs) h, ap length same)

length-affine_components :
    {A : Type 0} (xs : List A) (name : Bytes) {front : List A}
    → affine_components xs name ≡ ok front
    → length xs ≡ length front + 1
unfolding affine_components
length-affine_components xs name e = length-split_last xs (affine-eq-ok (split_last xs) _ e)

parse-eq-ok :
    (f : Bytes → VkParseError) (m : Result Bytes ℕ) {n : ℕ} → map_err f m ≡ ok n → m ≡ ok n
parse-eq-ok f (ok n) h = ap ok (ok_injective h)
parse-eq-ok f (err e) h = absurd cc

module _ (lib : Libraries) (big : IsBigUint lib) where
  length-process_g1_component :
      (component : Bytes) {out : Bytes}
      → process_g1_component lib component ≡ ok out
      → length out ≡ 32
  unfolding process_g1_component bigint_string_to_be_bytes
  length-process_g1_component component e =
      let (n, e1, k1) = >>=-eq-ok (map_err _ (lib.parse component)) _ e in
      ap length (sym (ok_injective k1)) ∙ (word-resize lib big n).array.size

  parsed : (c : Bytes) {le : Bytes} → component_le lib c ≡ ok le → (n : ℕ) × (lib.parse c ≡ ok n)
  unfolding component_le
  parsed c e =
      let (n, e1, k1) = >>=-eq-ok (map_err _ (lib.parse c)) _ e in
      (n, parse-eq-ok _ (lib.parse c) e1)

  length-process_g2_component :
      (components : List Bytes) {part0 part1 : Bytes}
      → process_g2_component lib components ≡ ok (part0, part1)
      → length part0 + length part1 ≡ 64
  unfolding process_g2_component
  length-process_g2_component [] e = absurd cc
  length-process_g2_component (c ∷ []) e = absurd cc
  length-process_g2_component (c0 ∷ c1 ∷ []) e =
      let (le0, e0, k0) = >>=-eq-ok (component_le lib c0) _ e in
      let (le1, e1, k1) = >>=-eq-ok (component_le lib c1) _ k0 in
      let (n0, p0) = parsed c0 e0 in
      let (n1, p1) = parsed c1 e1 in
      let (q0, q1, same, w1, w0) = process_g2_component_lem lib big c0 c1 n0 n1 p0 p1 in
      let parts = ok_injective (sym e ∙ same) in
      omega (
        arith,
        ap (λ p. length p.0) parts,
        ap (λ p. length p.1) parts,
        w1.array.size,
        w0.array.size,
      )
  length-process_g2_component (c0 ∷ c1 ∷ c2 ∷ cs) e = absurd cc

  length-g1_bytes :
      (components : List Bytes) {out : Bytes}
      → g1_bytes lib components ≡ ok out
      → length out ≡ 32 * length components
  unfolding g1_bytes
  length-g1_bytes [] e = ap length (sym (ok_injective e))
  length-g1_bytes (component ∷ components) e =
      let (bytes, e1, k1) = >>=-eq-ok (process_g1_component lib component) _ e in
      let (rest, e2, k2) = >>=-eq-ok (g1_bytes lib components) _ k1 in
      omega (
        arith,
        ap length (ok_injective k2),
        length-append bytes rest,
        length-process_g1_component component e1,
        length-g1_bytes components e2,
      )

  length-g2_bytes :
      (pairs : List (List Bytes)) {out : Bytes}
      → g2_bytes lib pairs ≡ ok out
      → length out ≡ 64 * length pairs
  unfolding g2_bytes
  length-g2_bytes [] e = ap length (sym (ok_injective e))
  length-g2_bytes (pair ∷ pairs) e =
      let ((part0, part1), e1, k1) = >>=-eq-ok (process_g2_component lib pair) _ e in
      let (rest, e2, k2) = >>=-eq-ok (g2_bytes lib pairs) _ k1 in
      omega (
        arith,
        ap length (ok_injective k2),
        length-append part0 (part1 ++ rest),
        length-append part1 rest,
        length-process_g2_component pair e1,
        length-g2_bytes pairs e2,
      )

  pub length-g1_field :
      (point : List Bytes) (name : Bytes) {out : Bytes}
      → g1_field lib point name ≡ ok out
      → length point ≡ 3
      → length out ≡ 64
  unfolding g1_field
  length-g1_field point name e h =
      let (components, e1, k1) = >>=-eq-ok (affine_components point name) _ e in
      omega (arith, h, length-affine_components point name e1, length-g1_bytes components k1)

  pub length-g2_field :
      (point : List (List Bytes)) (name : Bytes) {out : Bytes}
      → g2_field lib point name ≡ ok out
      → length point ≡ 3
      → length out ≡ 128
  unfolding g2_field
  length-g2_field point name e h =
      let (pairs, e1, k1) = >>=-eq-ok (affine_components point name) _ e in
      omega (arith, h, length-affine_components point name e1, length-g2_bytes pairs k1)

  pub sizes-ic_points :
      (index : ℕ) (points : List (List Bytes)) {out : List Bytes}
      → ic_points lib index points ≡ ok out
      → All (λ point. length point ≡ 3) points
      → All (λ point. length point ≡ 64) out
  unfolding ic_points
  sizes-ic_points index [] e h = subst (All (λ point. length point ≡ 64)) (ok_injective e) tt
  sizes-ic_points index (point ∷ points) e (hp, h) =
      let name = concat (ascii "IC[" ∷ decimal index ∷ ascii "]" ∷ []) in
      let (bytes, e1, k1) = >>=-eq-ok (g1_field lib point name) _ e in
      let (rest, e2, k2) = >>=-eq-ok (ic_points lib (suc index) points) _ k1 in
      subst (All (λ point. length point ≡ 64)) (ok_injective k2)
        (length-g1_field point name e1 hp, sizes-ic_points (suc index) points e2 h)
