-- ===== src/Examples/Hash.antt =====
-- The commitment hash and the field check on concrete bytes.
use groth16_solana.Prelude.{◌+◌, ◌*◌, ◌%◌, ◌<◌, ◌≡◌, ltb, arith, length}
use groth16_solana.Prelude.Bytes.{Bytes, IsArray, be_value, to_be, to_be-IsArray}
use groth16_solana.Prelude.Buffer.{zeros}
use groth16_solana.HashToField.{
  reduce_be_l48, hash_to_field_bn254_fr, expand_message_xmd_sha256_l48,
}
use groth16_solana.HashToField.Expand.{
  expand_message_xmd, expand_message_xmd_sha256_l48-eq-expand_message_xmd,
}
use groth16_solana.HashToField.Reduce.{fr_modulus, limbs_value, IsBigInt, reduce_be_l48_lem}
use groth16_solana.HashToField.Hash.{hash_to_field_bn254_fr_lem}
use groth16_solana.FieldSize.{
  is_less_than_bn254_field_size_be, is_less_than_bn254_field_size_be_lem,
}
use groth16_solana.Groth16.{bsb22_dst}
use groth16_solana.Examples.Field.{fr, fr-IsMontgomery}

-- A stand-in for SHA-256 that depends on its input: the length, in 32 bytes.
abbrev digest : Bytes → Bytes
digest x = to_be 32 (length x)

digest-IsArray : (x : Bytes) → IsArray 32 (digest x)
digest-IsArray x = to_be-IsArray 32 (length x)

expand_example :
    expand_message_xmd_sha256_l48 digest (zeros 64) bsb22_dst
    ≡ expand_message_xmd digest (zeros 64) bsb22_dst
expand_example =
    expand_message_xmd_sha256_l48-eq-expand_message_xmd digest (λ x. (digest-IsArray x).size)
      (zeros 64) bsb22_dst (omega arith)

reduce_be_l48_lem_example :
    (limbs_value (reduce_be_l48 fr (to_be 48 (fr_modulus * 3 + 7)))
      ≡ be_value (to_be 48 (fr_modulus * 3 + 7)) % fr_modulus)
    × IsBigInt (reduce_be_l48 fr (to_be 48 (fr_modulus * 3 + 7)))
reduce_be_l48_lem_example =
    reduce_be_l48_lem fr (to_be 48 (fr_modulus * 3 + 7)) fr-IsMontgomery
      (to_be-IsArray 48 (fr_modulus * 3 + 7))

hash_to_field_bn254_fr_lem_example :
    (be_value (hash_to_field_bn254_fr digest fr (zeros 64) bsb22_dst)
      ≡ be_value (expand_message_xmd digest (zeros 64) bsb22_dst) % fr_modulus)
    × IsArray 32 (hash_to_field_bn254_fr digest fr (zeros 64) bsb22_dst)
    × (be_value (hash_to_field_bn254_fr digest fr (zeros 64) bsb22_dst) < fr_modulus)
hash_to_field_bn254_fr_lem_example =
    hash_to_field_bn254_fr_lem digest digest-IsArray fr (zeros 64) bsb22_dst fr-IsMontgomery
      (omega arith)

is_less_than_bn254_field_size_be_lem_example :
    is_less_than_bn254_field_size_be (to_be 32 fr_modulus)
    ≡ ltb (be_value (to_be 32 fr_modulus)) fr_modulus
is_less_than_bn254_field_size_be_lem_example =
    is_less_than_bn254_field_size_be_lem (to_be 32 fr_modulus) (to_be-IsArray 32 fr_modulus)
