-- ===== src/Examples/Points.antt =====
-- Negation of the point (1, 2), the generator of BN254's G1.
use groth16_solana.Prelude.{◌+◌, ◌-◌, ◌^◌, ◌≡◌, ◌≢◌, ◌⊎◌, inr, refl, take, arith}
use groth16_solana.Prelude.Bytes.{Bytes, IsArray, be_value, to_be, to_be-IsArray}
use groth16_solana.Prelude.Buffer.{zeros}
use groth16_solana.Negate.{negate_g1_be, fq_modulus}
use groth16_solana.Negate.Point.{y_value, negate_g1_be_lem, negate_g1_be_involutive}

abbrev generator : Bytes
generator = to_be 64 (2 ^ 256 + 2)

generator_y : y_value generator ≡ 2
unfolding be_value to_be
generator_y = refl

negate_g1_be_lem_example :
    IsArray 64 (negate_g1_be generator)
    × (take 32 (negate_g1_be generator) ≡ take 32 generator)
    × (((generator ≡ zeros 64) × (negate_g1_be generator ≡ zeros 64))
        ⊎ ((generator ≢ zeros 64)
            × (y_value (negate_g1_be generator) ≡ fq_modulus - y_value generator)))
negate_g1_be_lem_example =
    negate_g1_be_lem generator (to_be-IsArray 64 (2 ^ 256 + 2)) (omega (arith, generator_y))

negate_g1_be_involutive_example : negate_g1_be (negate_g1_be generator) ≡ generator
negate_g1_be_involutive_example =
    negate_g1_be_involutive generator (to_be-IsArray 64 (2 ^ 256 + 2))
      (inr (omega (arith, generator_y), omega (arith, generator_y)))
