-- ===== src/FieldSize.antt =====
-- src/groth16.rs, `FR_MODULUS_BE` and `is_less_than_bn254_field_size_be`.
use groth16_solana.Prelude.{ℕ, ◌≡◌, refl, ◌∙◌, ap, Bool, [], ◌∷◌, ltb, arith}
use groth16_solana.Prelude.Bytes.{Bytes, IsArray, be_value}
use groth16_solana.Prelude.Lex.{lex_lt, lex_lt-eq-ltb}
use groth16_solana.HashToField.Reduce.{fr_modulus}

abbrev pub fr_modulus_be : Bytes
fr_modulus_be =
    0x30 ∷ 0x64 ∷ 0x4e ∷ 0x72 ∷ 0xe1 ∷ 0x31 ∷ 0xa0 ∷ 0x29 ∷ 0xb8 ∷ 0x50 ∷ 0x45 ∷ 0xb6 ∷ 0x81 ∷ 0x81
    ∷ 0x58 ∷ 0x5d ∷ 0x28 ∷ 0x33 ∷ 0xe8 ∷ 0x48 ∷ 0x79 ∷ 0xb9 ∷ 0x70 ∷ 0x91 ∷ 0x43 ∷ 0xe1 ∷ 0xf5
    ∷ 0x93 ∷ 0xf0 ∷ 0x00 ∷ 0x00 ∷ 0x01 ∷ []

-- The comparison is that of the arrays' `Ord`, which is lexicographic.
unfoldable pub is_less_than_bn254_field_size_be : Bytes → Bool
is_less_than_bn254_field_size_be bytes = lex_lt bytes fr_modulus_be

-- Of 32 bytes the test says whether their big-endian value is below the order r of the scalar field.
pub is_less_than_bn254_field_size_be_lem :
    (bytes : Bytes)
    → IsArray 32 bytes
    → is_less_than_bn254_field_size_be bytes ≡ ltb (be_value bytes) fr_modulus
unfolding is_less_than_bn254_field_size_be
is_less_than_bn254_field_size_be_lem bytes h =
    lex_lt-eq-ltb bytes fr_modulus_be h.bytes (omega arith) h.size
    ∙ ap (λ (n : ℕ). ltb (be_value bytes) n) {x = be_value fr_modulus_be} {y = fr_modulus}
        (unfold be_value in refl)
