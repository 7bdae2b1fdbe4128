-- ===== src/Vk/Setup.antt =====
-- src/vk/setup.rs: the kind of a key's setup, and the marker text that a program binary carries for
-- each of its keys.
pub mod Text
pub mod Hex
pub mod Body
pub mod Scan
pub mod Find
pub mod ProvingKey
pub mod Metadata
pub mod ReadBack
pub mod Hashing
pub mod Writing
pub mod Escaped
pub mod Emitted
pub mod Deployed
use groth16_solana.Prelude.{
  ℕ, zero, suc, ◌+◌, ◌/◌, ◌%◌, Bool, true, false, not, ◌&&◌, Option, none, some, List, [], ◌∷◌,
  ◌++◌, Result, ok, err, ◌>>=◌, ◌>>◌, ok_or, reject_if, length, take, drop, ltb, ◌==◌,
  if◌then◌else◌,
}
use groth16_solana.Prelude.Bytes.{Bytes}
use groth16_solana.Prelude.ByteEq.{bytes_eq}
use groth16_solana.Vk.Setup.Text.{
  ascii, is_utf8, split_nul, starts_with, next_index, and_then, from_str_radix_16,
}

pub data SetupKind : Type 0 where
  insecure_test production : SetupKind

unfoldable pub delta_equals_gamma : Bytes → Bytes → Bool
unfolding bytes_eq
delta_equals_gamma vk_gamma_g2 vk_delta_g2 = bytes_eq vk_gamma_g2 vk_delta_g2

abbrev pub setup_txt_begin : Bytes
setup_txt_begin = ascii "=======BEGIN GROTH16 VK SETUP V1=======" ++ (0 ∷ [])

abbrev pub setup_txt_end : Bytes
setup_txt_end = ascii "=======END GROTH16 VK SETUP V1=======" ++ (0 ∷ [])

abbrev pub field_name : Bytes
field_name = ascii "name"

abbrev pub field_insecure_test_setup : Bytes
field_insecure_test_setup = ascii "insecure_test_setup"

abbrev pub field_proving_key_sha256 : Bytes
field_proving_key_sha256 = ascii "proving_key_sha256"

pub record SetupTxt : Type 0 where
  pub name : Bytes
  pub insecure_test_setup : Bool
  pub proving_key_sha256 : Bytes

-- A lower-case digit, as `{:x}` prints it.
abbrev pub hex_digit : ℕ → ℕ
hex_digit n = if ltb n 10 then b'0' + n else 87 + n

-- `{b:02x}` of each byte
unfoldable pub to_hex : Bytes → Bytes
to_hex [] = []
to_hex (b ∷ bs) = hex_digit (b / 16) ∷ hex_digit (b % 16) ∷ to_hex bs

-- The loop of `from_hex` over `digits.chunks_exact(2)`.
unfoldable pub from_hex_pairs : Bytes → Option Bytes
from_hex_pairs (a ∷ b ∷ digits) =
    if is_utf8 [] (a ∷ b ∷ [])
    then and_then (from_str_radix_16 (a ∷ b ∷ []))
        (λ byte. and_then (from_hex_pairs digits) (λ out. some (byte ∷ out)))
    else none
from_hex_pairs digits = some []

unfoldable pub from_hex : Bytes → Option Bytes
from_hex s = if length s == 64 then from_hex_pairs s else none

-- `format!("{}", b)`
abbrev pub bool_text : Bool → Bytes
bool_text true = ascii "true"
bool_text false = ascii "false"

-- The text between the delimiters.
unfoldable pub body : SetupTxt → Bytes
body txt =
    field_name
    ++ (0
        ∷ (txt.name
            ++ (0
                ∷ (field_insecure_test_setup
                    ++ (0
                        ∷ (bool_text txt.insecure_test_setup
                            ++ (0
                                ∷ (field_proving_key_sha256
                                    ++ (0 ∷ (to_hex txt.proving_key_sha256 ++ (0 ∷ [])))))))))))

unfoldable pub to_marker : SetupTxt → Bytes
to_marker txt = setup_txt_begin ++ (body txt ++ setup_txt_end)

pub data SetupTxtError : Type 0 where
  unterminated : ℕ → SetupTxtError
  malformed : ℕ → Bytes → SetupTxtError

-- The closure `field`: the value behind `key`, and the parts behind both.
unfoldable pub field : ℕ → Bytes → List Bytes → Result SetupTxtError (Bytes × List Bytes)
field offset key (k ∷ v ∷ parts) =
    if bytes_eq k key
    then ok (v, parts)
    else err (malformed offset (ascii "expected field `" ++ (key ++ ascii "`")))
field offset key parts = err (malformed offset (ascii "expected field `" ++ (key ++ ascii "`")))

unfoldable pub parse_bool : ℕ → Bytes → Result SetupTxtError Bool
parse_bool offset text =
    if bytes_eq text (ascii "true")
    then ok true
    else if bytes_eq text (ascii "false")
    then ok false
    else err (malformed offset (ascii "insecure_test_setup is not true/false"))

-- `parts.next() == Some("") && parts.next().is_none()`
abbrev pub at_end : List Bytes → Bool
at_end ([] ∷ []) = true
at_end parts = false

unfoldable pub parse_body : Bytes → ℕ → Result SetupTxtError SetupTxt
parse_body text offset = do
  reject_if (not (is_utf8 [] text)) (malformed offset (ascii "not UTF-8"))
  (name, parts) ← field offset field_name (split_nul text)
  (insecure, parts) ← field offset field_insecure_test_setup parts
  insecure_test_setup ← parse_bool offset insecure
  (digest, parts) ← field offset field_proving_key_sha256 parts
  proving_key_sha256 ←
      ok_or (malformed offset (ascii "proving_key_sha256 is not 64 hex digits")) (from_hex digest)
  reject_if (not (at_end parts)) (malformed offset (ascii "unexpected trailing fields"))
  ok (record {
    name = name;
    insecure_test_setup = insecure_test_setup;
    proving_key_sha256 = proving_key_sha256;
  })

-- `haystack.windows(needle.len()).position(|w| w == needle)`; needles are not empty.
unfoldable pub find_bytes : Bytes → Bytes → Option ℕ
find_bytes [] needle = none
find_bytes (b ∷ bs) needle =
    let rest = find_bytes bs needle in
    if starts_with needle (b ∷ bs) then some 0 else next_index rest

-- The body of the loop, for an opening delimiter at `offset`: the text found, and the next `pos`.
unfoldable pub read_txt : Bytes → ℕ → Result SetupTxtError (SetupTxt × ℕ)
read_txt binary offset = do
  let body_start = offset + length setup_txt_begin
  let body_rest = drop body_start binary
  body_len ← ok_or (unterminated offset) (find_bytes body_rest setup_txt_end)
  txt ← parse_body (take body_len body_rest) offset
  ok (txt, body_start + body_len + length setup_txt_end)

-- The loop from `pos` on; `none` if the fuel runs out.
unfoldable pub scan : ℕ → Bytes → ℕ → Option (Result SetupTxtError (List SetupTxt))
scan zero binary pos = none
scan (suc fuel) binary pos = elim (find_bytes (drop pos binary) setup_txt_begin) [
  | none ↦ some (ok [])
  | some start ↦ elim (read_txt binary (pos + start)) [
    | err e ↦ some (err e)
    | ok (txt, pos') ↦
        and_then (scan fuel binary pos') (λ r. some (r >>= λ found. ok (txt ∷ found)))
  ]
]

-- Each round moves `pos` forward inside the binary, so its length is enough fuel.
unfoldable pub find_setup_txts : Bytes → Option (Result SetupTxtError (List SetupTxt))
find_setup_txts binary = scan (suc (length binary)) binary 0
