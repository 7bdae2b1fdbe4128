-- ===== src/Examples/ProofParser.antt =====
-- Signals of circom-prover as public inputs.
use groth16_solana.Prelude.{
  ℕ, ◌+◌, ◌^◌, ◌≡◌, refl, ◌∙◌, some, List, [], ◌∷◌, map, reverse, length, arith, All,
}
use groth16_solana.Prelude.Bytes.{Bytes, IsArray, be_value}
use groth16_solana.Prelude.Little.{be_value-reverse, reverse-IsArray}
use groth16_solana.ProofParser.{IsToBytesBe, convert_public_inputs, convert_public_inputs_lem}
use groth16_solana.Examples.Libraries.{
  to_bytes_le, le_value-to_bytes_le, to_bytes_le-bytes, length-to_bytes_le,
}

abbrev to_bytes_be : ℕ → Bytes
to_bytes_be n = reverse (to_bytes_le n)

array : (n : ℕ) → IsArray (length (to_bytes_le n)) (to_bytes_be n)
array n =
    reverse-IsArray (length (to_bytes_le n)) (record { size = refl; bytes = to_bytes_le-bytes n })

to_bytes_be-IsToBytesBe : IsToBytesBe to_bytes_be
to_bytes_be-IsToBytesBe = record {
  value = λ n. be_value-reverse (to_bytes_le n) ∙ le_value-to_bytes_le n;
  bytes = λ n. (array n).bytes;
  short = λ n h. omega (arith, (array n).size, length-to_bytes_le n h);
}

convert_public_inputs_lem_example :
    (inputs : List Bytes) × (convert_public_inputs to_bytes_be 2 (5 ∷ (2 ^ 200 + 7) ∷ [])
      ≡ some inputs)
    × All (IsArray 32) inputs
    × (map be_value inputs ≡ 5 ∷ (2 ^ 200 + 7) ∷ [])
convert_public_inputs_lem_example =
    convert_public_inputs_lem to_bytes_be to_bytes_be-IsToBytesBe 2 (5 ∷ (2 ^ 200 + 7) ∷ [])
      (omega arith, (omega arith, tt)) refl
