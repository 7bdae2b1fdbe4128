-- ===== src/Vk/Setup/Body.antt =====
-- `parse_body` of src/vk/setup.rs reads what `to_marker` writes.
use groth16_solana.Prelude.{
  ℕ, ◌/◌, ◌%◌, ◌<◌, ◌≡◌, refl, ◌∙◌, ap, Bool, true, false, not, ◌&&◌, ltb, List, [], ◌∷◌, ◌++◌, ok,
  ◌==◌, arith, All, All-append,
}
use groth16_solana.Prelude.Bytes.{Bytes, IsByte, IsArray}
use groth16_solana.Prelude.ByteEq.{bytes_eq, bytes_eq_refl}
use groth16_solana.Vk.Setup.{
  SetupTxt, field_name, field_insecure_test_setup, field_proving_key_sha256, hex_digit, to_hex,
  bool_text, body, field, parse_bool, parse_body,
}
use groth16_solana.Vk.Setup.Text.{split_nul}
use groth16_solana.Vk.Setup.Hex.{is_utf8-ascii, from_hex-to_hex}

-- A byte of a name: ASCII, and not one of NUL and `=`.
abbrev pub is_name_byte : ℕ → Bool
is_name_byte b = not (b == 0) && ltb b 128 && not (b == b'=')

abbrev pub IsNameByte : ℕ → Type 0
IsNameByte b = is_name_byte b ≡ true

-- What the Rust type says of a text's digest, and what identifiers are: the name of a const.
pub record IsWritable (txt : SetupTxt) : Type 0 where
  pub name : All IsNameByte txt.name
  pub digest : IsArray 32 txt.proving_key_sha256

abbrev are_name_bytes : Bytes → Bool
are_name_bytes [] = true
are_name_bytes (b ∷ bs) = is_name_byte b && are_name_bytes bs

all_name_bytes : (bs : Bytes) → are_name_bytes bs ≡ true → All IsNameByte bs
all_name_bytes [] h = tt
all_name_bytes (b ∷ bs) h = (ground arith, all_name_bytes bs (ground arith))

not_nul : (b : ℕ) → IsNameByte b → (b == 0) ≡ false
not_nul b h = ground arith

ascii_byte : (b : ℕ) → IsNameByte b → b < 128
ascii_byte b h = ground arith

ascii_bytes : (bs : Bytes) → All IsNameByte bs → All (λ b. b < 128) bs
ascii_bytes [] h = tt
ascii_bytes (b ∷ bs) (hb, h) = (ascii_byte b hb, ascii_bytes bs h)

-- A part without NULs ends at the first NUL.
split_nul-part :
    (part rest : Bytes)
    → All IsNameByte part
    → split_nul (part ++ (0 ∷ rest)) ≡ part ∷ split_nul rest
unfolding split_nul
split_nul-part [] rest h = refl
split_nul-part (b ∷ part) rest (hb, h) = rw (not_nul b hb) (rw (split_nul-part part rest h) refl)

to_hex-IsNameByte : (bs : Bytes) → All IsByte bs → All IsNameByte (to_hex bs)
unfolding to_hex
to_hex-IsNameByte [] h = tt
to_hex-IsNameByte (b ∷ bs) (hb, h) =
    (digit (b / 16) (omega arith), (digit (b % 16) (omega arith), to_hex-IsNameByte bs h))
  where
    digit : (n : ℕ) → n < 16 → IsNameByte (hex_digit n)
    digit n k = ground arith

bool_text-IsNameByte : (b : Bool) → All IsNameByte (bool_text b)
bool_text-IsNameByte true = all_name_bytes (bool_text true) refl
bool_text-IsNameByte false = all_name_bytes (bool_text false) refl

name_key : All IsNameByte field_name
name_key = all_name_bytes field_name refl

insecure_key : All IsNameByte field_insecure_test_setup
insecure_key = all_name_bytes field_insecure_test_setup refl

digest_key : All IsNameByte field_proving_key_sha256
digest_key = all_name_bytes field_proving_key_sha256 refl

field-found :
    (offset : ℕ) (key v : Bytes) (parts : List Bytes)
    → field offset key (key ∷ v ∷ parts) ≡ ok (v, parts)
unfolding field
field-found offset key v parts = rw (bytes_eq_refl key) refl

parse_bool-bool_text : (offset : ℕ) (b : Bool) → parse_bool offset (bool_text b) ≡ ok b
unfolding parse_bool bytes_eq
parse_bool-bool_text offset true = refl
parse_bool-bool_text offset false = refl

module _ (txt : SetupTxt) (w : IsWritable txt) where
  digits : All IsNameByte (to_hex txt.proving_key_sha256)
  digits = to_hex-IsNameByte txt.proving_key_sha256 w.digest.bytes

  split_nul-body :
      split_nul (body txt)
      ≡ field_name
        ∷ txt.name
        ∷ field_insecure_test_setup
        ∷ bool_text txt.insecure_test_setup
        ∷ field_proving_key_sha256
        ∷ to_hex txt.proving_key_sha256
        ∷ []
        ∷ []
  unfolding body
  split_nul-body =
      split_nul-part field_name _ name_key
      ∙ ap (λ t. field_name ∷ t)
          (split_nul-part txt.name _ w.name
            ∙ ap (λ t. txt.name ∷ t)
                (split_nul-part field_insecure_test_setup _ insecure_key
                  ∙ ap (λ t. field_insecure_test_setup ∷ t)
                      (split_nul-part (bool_text txt.insecure_test_setup) _
                          (bool_text-IsNameByte txt.insecure_test_setup)
                        ∙ ap (λ t. bool_text txt.insecure_test_setup ∷ t)
                            (split_nul-part field_proving_key_sha256 _ digest_key
                              ∙ ap (λ t. field_proving_key_sha256 ∷ t)
                                  (split_nul-part (to_hex txt.proving_key_sha256) [] digits
                                    ∙ (unfold split_nul in refl))))))

  -- Name bytes and NULs in turn.
  pub body-bytes :
      {P : ℕ → Type 0} → P 0 → ((bs : Bytes) → All IsNameByte bs → All P bs) → All P (body txt)
  unfolding body
  body-bytes {P} z n = part field_name _ name_key (
      part txt.name _ w.name (
        part field_insecure_test_setup _ insecure_key (
          part (bool_text txt.insecure_test_setup) _ (bool_text-IsNameByte txt.insecure_test_setup)
            (part field_proving_key_sha256 _ digest_key
              (part (to_hex txt.proving_key_sha256) [] digits tt)))))
    where
      part : (bs rest : Bytes) → All IsNameByte bs → All P rest → All P (bs ++ (0 ∷ rest))
      part bs rest h r = All-append P bs (0 ∷ rest) (n bs h) (z, r)

  -- Between the delimiters of a marker, the parser reads the text that the marker was written for.
  pub parse_body-body : (offset : ℕ) → parse_body (body txt) offset ≡ ok txt
  unfolding parse_body
  parse_body-body offset =
      rw (is_utf8-ascii (body txt) (body-bytes {P = λ b. b < 128} (omega arith) ascii_bytes)) (
        rw split_nul-body (
          rw (field-found offset field_name _ _) (
            rw
              (
                field-found offset field_insecure_test_setup _ _,
                parse_bool-bool_text offset txt.insecure_test_setup,
              )
              (rw (field-found offset field_proving_key_sha256 _ _)
                (rw (from_hex-to_hex txt.proving_key_sha256 w.digest.bytes w.digest.size) refl)))))
