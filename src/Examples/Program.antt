-- ===== src/Examples/Program.antt =====
-- Instructions for the program of tests/program, over the small groups.
use groth16_solana.Prelude.{
  none, some, ◌+◌, ◌≡◌, ◌^◌, some, refl, true, false, ◌++◌, ◌∷◌, ◌>>=◌, map_err, arith,
}
use groth16_solana.Prelude.Bytes.{Bytes, be_value, to_be, to_be-IsArray, length-to_be}
use groth16_solana.Groth16
use groth16_solana.Groth16.{Groth16Verifyingkey, new, new_with_commitment}
use groth16_solana.Groth16.Layout.{concat}
use groth16_solana.Program.{Keys, code, process_instruction, build_ix_data}
use groth16_solana.Program.Runs.{
  IsParts, process_instruction-new, process_instruction-new_with_commitment,
}
use groth16_solana.Negate.{negate_g1_be}
use groth16_solana.Negate.Point.{y_value}
use groth16_solana.Program.Fixtures.{fixture, process_instruction-build_ix_data}
use groth16_solana.Examples.Field.{fr}
use groth16_solana.Examples.Curve.{sys, encode_g1, encode_g2, g1_size, g2_size}
use groth16_solana.Examples.Verifier.{plain_key, bsb22_key, inputs}

abbrev keys : Keys
keys = record {
  vk_plain_1 = plain_key;
  vk_plain_2 = plain_key;
  vk_plain_4 = plain_key;
  vk_plain_8 = plain_key;
  vk_bsb22_1 = bsb22_key;
  vk_bsb22_2 = bsb22_key;
  vk_bsb22_4 = bsb22_key;
  vk_bsb22_8 = bsb22_key;
}

parts : IsParts (encode_g1 true) (encode_g2 true) (encode_g1 false) inputs
parts = record {
  a_size = g1_size true;
  b_size = g2_size true;
  c_size = g1_size false;
  input_sizes = (length-to_be 32 5, (length-to_be 32 2, tt));
}

process_instruction-new_example :
    process_instruction sys fr keys
      (1 ∷ (encode_g1 true ++ (encode_g2 true ++ (encode_g1 false ++ concat inputs))))
    ≡ map_err code (
        new (encode_g1 true) (encode_g2 true) (encode_g1 false) inputs plain_key >>= λ v.
        (Groth16.verify sys fr v).0)
process_instruction-new_example =
    process_instruction-new sys fr keys 1 plain_key (encode_g1 true) (encode_g2 true)
      (encode_g1 false) inputs refl parts refl

process_instruction-new_with_commitment_example :
    process_instruction sys fr keys (
      5
      ∷ (encode_g1 true
          ++ (encode_g2 true
              ++ (encode_g1 false ++ (encode_g1 true ++ (encode_g1 true ++ concat inputs))))))
    ≡ map_err code (
        new_with_commitment
          (encode_g1 true)
          (encode_g2 true)
          (encode_g1 false)
          (encode_g1 true)
          (encode_g1 true)
          inputs
          bsb22_key
        >>= λ v. (Groth16.verify sys fr v).0)
process_instruction-new_with_commitment_example =
    process_instruction-new_with_commitment sys fr keys 1 bsb22_key (encode_g1 true)
      (encode_g2 true) (encode_g1 false) (encode_g1 true) (encode_g1 true) inputs refl parts
      (g1_size true) (g1_size true) refl

-- The generator (1, 2) as the point A.
abbrev generator : Bytes
generator = to_be 64 (2 ^ 256 + 2)

generator_y : y_value generator ≡ 2
unfolding be_value to_be
generator_y = refl

process_instruction-build_ix_data_example :
    ((bytes : Bytes) × (build_ix_data
          (fixture 1 generator (encode_g2 true) (encode_g1 false) none inputs)
        ≡ some bytes)
      × (process_instruction sys fr keys bytes
          ≡ map_err code (
              new (negate_g1_be generator) (encode_g2 true) (encode_g1 false) inputs plain_key
              >>= λ v. (Groth16.verify sys fr v).0)))
    × ((bytes : Bytes) × (build_ix_data (
            fixture 5 generator
              (encode_g2 true)
              (encode_g1 false)
              (some (encode_g1 true, encode_g1 false))
              inputs)
          ≡ some bytes)
        × (process_instruction sys fr keys bytes
            ≡ map_err code (
                new_with_commitment
                  (negate_g1_be generator)
                  (encode_g2 true)
                  (encode_g1 false)
                  (encode_g1 true)
                  (encode_g1 false)
                  inputs
                  bsb22_key
                >>= λ v. (Groth16.verify sys fr v).0)))
process_instruction-build_ix_data_example =
    process_instruction-build_ix_data generator (encode_g2 true) (encode_g1 false) inputs
      (to_be-IsArray 64 (2 ^ 256 + 2)) (omega (arith, generator_y))
      (record {
        a_size = (to_be-IsArray 64 (2 ^ 256 + 2)).size;
        b_size = g2_size true;
        c_size = g1_size false;
        input_sizes = (length-to_be 32 5, (length-to_be 32 2, tt));
      })
      sys fr keys 1 plain_key bsb22_key (encode_g1 true) (encode_g1 false) refl refl (g1_size true)
      (g1_size false) refl
