-- ===== src/ProofParser.antt =====
-- src/proof_parser.rs: public inputs and compressed proofs from circom-prover's output. The digits of
-- a `BigUint` and the compression of solana_bn254 are parameters.
pub mod Points
pub mod Affine
pub mod Laws
pub mod Coordinate
pub mod Converted
use groth16_solana.Prelude.{
  ◌<◌, ◌^◌, ℕ, ◌+◌, ◌-◌, ◌≤◌, ◌≡◌, refl, ◌∙◌, ap, ap₂, sym, subst, zero, suc, false, Option, none,
  some, List, [], ◌∷◌, ◌++◌, map, Result, ok, ◌>>=◌, map_err, length, take, ltb, ◌==◌,
  if◌then◌else◌, arith, All, eq→==, length-append, length-map, take-append, append-nil, Bool-cases,
  inl, inr,
}
use groth16_solana.Prelude.Bytes.{Bytes, IsByte, IsArray, be_value, append-IsArray}
use groth16_solana.Prelude.Buffer.{zeros, zeros-IsArray}
use groth16_solana.Errors.{Groth16Error, proof_conversion_error}

-- num_bigint's `BigUint::to_bytes_be` gives the digits of a number, the most significant first.
module _ (to_bytes_be : ℕ → Bytes) where
  -- One round of the loop of `convert_public_inputs`.
  unfoldable pub convert_public_input : ℕ → Bytes
  convert_public_input signal_bigint =
      let bytes = to_bytes_be signal_bigint in
      let padded = if ltb (length bytes) 32 then zeros (32 - length bytes) ++ bytes else bytes in
      take 32 padded

  -- `none` where the last conversion panics because the number of inputs is not `n`.
  unfoldable pub convert_public_inputs : ℕ → List ℕ → Option (List Bytes)
  convert_public_inputs n pub_inputs =
      let public_inputs_vec = map convert_public_input pub_inputs in
      if length public_inputs_vec == n then some public_inputs_vec else none

-- The compression of points by solana_bn254; of its errors the code reads nothing.
pub record Compression : Type 0 where
  pub alt_bn128_g1_compress_be : Bytes → Result ℕ Bytes
  pub alt_bn128_g2_compress_be : Bytes → Result ℕ Bytes

unfoldable pub convert_proof_to_compressed :
    Compression → Bytes → Bytes → Bytes → Result Groth16Error (Bytes × Bytes × Bytes)
convert_proof_to_compressed bn254 proof_a proof_b proof_c = do
  compressed_a ← map_err (λ _. proof_conversion_error) (bn254.alt_bn128_g1_compress_be proof_a)
  compressed_c ← map_err (λ _. proof_conversion_error) (bn254.alt_bn128_g1_compress_be proof_c)
  compressed_b ← map_err (λ _. proof_conversion_error) (bn254.alt_bn128_g2_compress_be proof_b)
  ok (compressed_a, compressed_b, compressed_c)

-- What num_bigint documents: the digits have the number's value, and there are no more of them than
-- the number needs.
pub record IsToBytesBe (to_bytes_be : ℕ → Bytes) : Type 0 where
  pub value : (n : ℕ) → be_value (to_bytes_be n) ≡ n
  pub bytes : (n : ℕ) → All IsByte (to_bytes_be n)
  pub short : (n : ℕ) → n < 2 ^ 256 → length (to_bytes_be n) ≤ 32

be_value-zeros : (n : ℕ) (bs : Bytes) → be_value (zeros n ++ bs) ≡ be_value bs
unfolding be_value zeros
be_value-zeros zero bs = refl
be_value-zeros (suc n) bs = omega (arith, be_value-zeros n bs)

all_taken : (n : ℕ) (xs : Bytes) → length xs ≡ n → take n xs ≡ xs
all_taken n xs e = ap (take n) (sym (append-nil xs)) ∙ take-append n xs [] e

module _ (to_bytes_be : ℕ → Bytes) (big : IsToBytesBe to_bytes_be) where
  convert_public_input_lem :
      (n : ℕ)
      → n < 2 ^ 256
      → IsArray 32 (convert_public_input to_bytes_be n)
        × (be_value (convert_public_input to_bytes_be n) ≡ n)
  unfolding convert_public_input
  convert_public_input_lem n h = elim (Bool-cases (ltb (length (to_bytes_be n)) 32)) [
    | inl short ↦
        let bs = to_bytes_be n in
        let array : IsArray (32 - length bs + length bs) (zeros (32 - length bs) ++ bs) =
          append-IsArray (32 - length bs) (length bs) (zeros-IsArray (32 - length bs))
            (record { size = refl; bytes = big.bytes n }) in
        let array' : IsArray 32 (zeros (32 - length bs) ++ bs) =
          subst (λ (m : ℕ). IsArray m (zeros (32 - length bs) ++ bs))
            {x = 32 - length bs + length bs} {y = 32} (omega (arith, big.short n h)) array in
        rw short (
          subst (λ out. IsArray 32 out × (be_value out ≡ n))
            (sym (all_taken 32 (zeros (32 - length bs) ++ bs) array'.size))
            (array', be_value-zeros (32 - length bs) bs ∙ big.value n))
    | inr long ↦
        let full : length (to_bytes_be n) ≡ 32 = ground (arith, big.short n h) in
        rw long (
          subst (λ out. IsArray 32 out × (be_value out ≡ n))
            (sym (all_taken 32 (to_bytes_be n) full))
            (record { size = full; bytes = big.bytes n }, big.value n))
  ]

  all_converted :
      (pub_inputs : List ℕ)
      → All (λ n. n < 2 ^ 256) pub_inputs
      → All (IsArray 32) (map (convert_public_input to_bytes_be) pub_inputs)
        × (map be_value (map (convert_public_input to_bytes_be) pub_inputs) ≡ pub_inputs)
  all_converted [] w = (tt, refl)
  all_converted (n ∷ pub_inputs) (w, ws) =
      let (array, value) = convert_public_input_lem n w in
      let (arrays, values) = all_converted pub_inputs ws in ((array, arrays), ap₂ ◌∷◌ value values)

  -- As many signals below 2^256 as the verifier expects become 32-byte inputs of the same values, and
  -- nothing panics.
  pub convert_public_inputs_lem :
      (n : ℕ) (pub_inputs : List ℕ)
      → All (λ signal. signal < 2 ^ 256) pub_inputs
      → length pub_inputs ≡ n
      → (inputs : List Bytes) × (convert_public_inputs to_bytes_be n pub_inputs ≡ some inputs)
        × All (IsArray 32) inputs
        × (map be_value inputs ≡ pub_inputs)
  unfolding convert_public_inputs
  convert_public_inputs_lem n pub_inputs w e =
      let (arrays, values) = all_converted pub_inputs w in
      (
        map (convert_public_input to_bytes_be) pub_inputs,
        rw
            (eq→== (length (map (convert_public_input to_bytes_be) pub_inputs)) n
              (length-map (convert_public_input to_bytes_be) pub_inputs ∙ e))
            refl,
        arrays,
        values,
      )

  -- A signal that needs more than 32 bytes is cut to its leading 32, so it becomes another value: its
  -- bytes behind those do not count.
  convert_public_input-append :
      (n : ℕ) (front back : Bytes)
      → to_bytes_be n ≡ front ++ back
      → IsArray 32 front
      → convert_public_input to_bytes_be n ≡ front
  unfolding convert_public_input
  convert_public_input-append n front back e a =
      let long : ltb (length (front ++ back)) 32 ≡ false =
        ground (arith, length-append front back, a.size) in
      rw (e, long) (take-append 32 front back a.size)
