-- ===== src/Groth16/Prepare.antt =====
-- `prepare_inputs` of src/groth16.rs computes the public-input sum of the curve.
use groth16_solana.Prelude.{
  ℕ, suc, ◌+◌, ◌≤◌, ◌≡◌, refl, ◌∙◌, ap, Bool, true, false, ◌||◌, not, some, List, [], ◌∷◌, ◌++◌,
  map, ok, err, ◌>>=◌, length, ltb, if◌then◌else◌, arith, get_elem?, All, map_err, Bool-cases, inl,
  inr,
}
use groth16_solana.Prelude.Bytes.{Bytes, IsArray, be_value}
use groth16_solana.Prelude.Buffer.{zeros, copy_from_slice, fill_start, fill_next, fill_end}
use groth16_solana.Errors.{
  public_input_greater_than_field_size, preparing_inputs_g1_addition_failed,
  preparing_inputs_g1_mul_failed,
}
use groth16_solana.Syscalls.{Syscalls}
use groth16_solana.HashToField.{FrOps}
use groth16_solana.HashToField.Reduce.{fr_modulus}
use groth16_solana.FieldSize.{is_less_than_bn254_field_size_be_lem}
use groth16_solana.Groth16.{g1_add, g1_mul_add, add_inputs}
use groth16_solana.Groth16.Curve.{Curve, Implements, input_sum, all_in_field}

-- The input buffers of the two group operations.
add_input_lem :
    (p q : Bytes)
    → length p ≡ 64
    → length q ≡ 64
    → copy_from_slice 64 128 q (copy_from_slice 0 64 p (zeros 128)) ≡ p ++ q
add_input_lem p q hp hq = fill_end 128 (
    fill_next 64 128 64 64 0 q (fill_next 0 64 64 128 64 p (fill_start 128) hp refl refl) hq refl
      refl)

mul_input_lem :
    (p s : Bytes)
    → length p ≡ 64
    → length s ≡ 32
    → copy_from_slice 64 96 s (copy_from_slice 0 64 p (zeros 96)) ≡ p ++ s
mul_input_lem p s hp hs = fill_end 96 (
    fill_next 64 96 32 32 0 s (fill_next 0 64 64 96 32 p (fill_start 96) hp refl refl) hs refl refl)

module _ (c : Curve) (sys : Syscalls) (fr : FrOps) (i : Implements c sys) where
  open c use {G1, G2, add, scale, encode_g1}

  pub g1_add-add : (p q : G1) → g1_add sys fr (encode_g1 p) (encode_g1 q) ≡ ok (encode_g1 (add p q))
  unfolding g1_add
  g1_add-add p q =
      rw (add_input_lem (encode_g1 p) (encode_g1 q) (i.g1_size p) (i.g1_size q))
        (ap (map_err (λ _. preparing_inputs_g1_addition_failed)) (i.addition p q))

  pub g1_mul_add-add :
      (p q : G1) (s : Bytes)
      → IsArray 32 s
      → g1_mul_add sys fr (encode_g1 p) s (encode_g1 q)
        ≡ ok (encode_g1 (add (scale (be_value s) p) q))
  unfolding g1_mul_add
  g1_mul_add-add p q s h = rw (mul_input_lem (encode_g1 p) s (i.g1_size p) h.size) (
      ap
        (λ r.
          map_err (λ _. preparing_inputs_g1_mul_failed) r >>= λ m. g1_add sys fr m (encode_g1 q))
        (i.multiplication p s h)
      ∙ g1_add-add (scale (be_value s) p) q)

  ic_here :
      (vk_ic : List Bytes) (n : ℕ) (ic : G1) (ics : List G1)
      → ((j : ℕ) → get_elem? vk_ic (n + 1 + j) ≡ get_elem? (map encode_g1 (ic ∷ ics)) j)
      → get_elem? vk_ic (n + 1) ≡ some (encode_g1 ic)
  ic_here vk_ic n ic ics at =
      ap (λ (k : ℕ). get_elem? vk_ic k) {x = n + 1} {y = n + 1 + 0} (omega arith) ∙ at 0

  ic_later :
      (vk_ic : List Bytes) (n : ℕ) (ic : G1) (ics : List G1)
      → ((j : ℕ) → get_elem? vk_ic (n + 1 + j) ≡ get_elem? (map encode_g1 (ic ∷ ics)) j)
      → (j : ℕ) → get_elem? vk_ic (n + 1 + 1 + j) ≡ get_elem? (map encode_g1 ics) j
  ic_later vk_ic n ic ics at j =
      ap (λ (k : ℕ). get_elem? vk_ic k) {x = n + 1 + 1 + j} {y = n + 1 + suc j} (omega arith)
      ∙ at (suc j)

  -- The loop over the inputs, from any input on: `ics` are the IC points from there.
  pub add_inputs-input_sum :
      (check : Bool) (vk_ic : List Bytes) (n : ℕ) (inputs : List Bytes) (ics : List G1) (acc : G1)
      → ((j : ℕ) → get_elem? vk_ic (n + 1 + j) ≡ get_elem? (map encode_g1 ics) j)
      → All (IsArray 32) inputs
      → length inputs ≤ length ics
      → add_inputs sys fr check vk_ic n inputs (encode_g1 acc) ≡ (
          if not check || all_in_field c inputs
          then ok (encode_g1 (input_sum c acc inputs ics))
          else err public_input_greater_than_field_size)
  unfolding add_inputs all_in_field input_sum
  add_inputs-input_sum true vk_ic n [] ics acc at h le = refl
  add_inputs-input_sum false vk_ic n [] ics acc at h le = refl
  add_inputs-input_sum check vk_ic n (x ∷ xs) [] acc at h le = absurd (omega arith)
  add_inputs-input_sum true vk_ic n (x ∷ xs) (ic ∷ ics) acc at (hx, hxs) le =
      let rest =
        add_inputs-input_sum true vk_ic (n + 1) xs ics (add (scale (be_value x) ic) acc)
          (ic_later vk_ic n ic ics at) hxs (omega arith) in
      rw (is_less_than_bn254_field_size_be_lem x hx)
        (elim (Bool-cases (ltb (be_value x) fr_modulus)) [
          | inl low ↦ rw (low, ic_here vk_ic n ic ics at, g1_mul_add-add ic acc x hx) rest
          | inr high ↦ rw high
        ])
  add_inputs-input_sum false vk_ic n (x ∷ xs) (ic ∷ ics) acc at (hx, hxs) le =
      rw (ic_here vk_ic n ic ics at, g1_mul_add-add ic acc x hx)
        (add_inputs-input_sum false vk_ic (n + 1) xs ics (add (scale (be_value x) ic) acc)
          (ic_later vk_ic n ic ics at) hxs (omega arith))
