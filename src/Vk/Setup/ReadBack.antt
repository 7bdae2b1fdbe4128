-- ===== src/Vk/Setup/ReadBack.antt =====
-- A reader of the items that src/vk/setup.rs puts behind a generated key, on their tokens.
use groth16_solana.Prelude.{
  ℕ, ◌+◌, ◌*◌, Bool, true, false, Option, none, some, List, [], ◌∷◌, Result, ok, err, ◌>>=◌, ◌==◌,
}
use groth16_solana.Prelude.Bytes.{Bytes}
use groth16_solana.Prelude.ByteEq.{bytes_eq}
use groth16_solana.Groth16.{Groth16Verifyingkey}
use groth16_solana.Vk.Setup.Text.{ascii, hex_value}
use groth16_solana.Vk.Source.Lexer.{Token, word, start, lex, emit}
use groth16_solana.Vk.Source.Reader.{
  Read, expect, read_word, read_literal, read_bytes, read_key_file,
}

-- Where a reader of a string literal stands: between characters, behind a backslash, behind `\x`, or
-- behind one digit.
pub data Escape : Type 0 where
  outside backslash hex : Escape
  hex_low : ℕ → Escape

abbrev push_char : ℕ → Option Bytes → Option Bytes
push_char c none = none
push_char c (some cs) = some (c ∷ cs)

-- The bytes that a string literal with escapes `\x..` stands for.
unfoldable pub unescape : Escape → Bytes → Option Bytes
unescape outside [] = some []
unescape backslash [] = none
unescape hex [] = none
unescape (hex_low high) [] = none
unescape outside (c ∷ cs) = elim (c == b'\\') [
  | true ↦ unescape backslash cs
  | false ↦ push_char c (unescape outside cs)
]
unescape backslash (c ∷ cs) = elim (c == b'x') [ true ↦ unescape hex cs | false ↦ none ]
unescape hex (c ∷ cs) = elim (hex_value c) [ none ↦ none | some d ↦ unescape (hex_low d) cs ]
unescape (hex_low high) (c ∷ cs) = elim (hex_value c) [
  | none ↦ none
  | some d ↦ push_char (high * 16 + d) (unescape outside cs)
]

pub record Metadata : Type 0 where
  pub digest_name : Bytes
  pub digest : Bytes
  pub insecure_name : Bytes
  pub insecure : Bool
  pub export_name : Bytes
  pub text_name : Bytes
  -- What the exported text puts into the program binary.
  pub text : Option Bytes
  -- Whether the crate builds with the feature `insecure-test-setup` only.
  pub guarded : Bool

unfoldable pub read_bool : List Token → Read Bool
read_bool (word w ∷ ts) = elim (bytes_eq w (ascii "true")) [
  | true ↦ ok (true, ts)
  | false ↦ elim (bytes_eq w (ascii "false")) [ true ↦ ok (false, ts) | false ↦ err ts ]
]
read_bool ts = err ts

-- The compile guard, or the end of the file.
unfoldable pub read_guard : List Token → Result (List Token) Bool
read_guard [] = ok false
read_guard (t ∷ ts) = do
  ts ←
      expect (emit start (ascii "#[cfg(not(feature = \"insecure-test-setup\"))] compile_error!("))
        (t ∷ ts)
  (message, ts) ← read_literal ts
  ts ← expect (emit start (ascii ");")) ts
  elim ts [ [] ↦ ok true | t ∷ ts ↦ err (t ∷ ts) ]

unfoldable pub read_metadata : List Token → Result (List Token) Metadata
read_metadata ts = do
  ts ← expect (emit start (ascii "#[allow(dead_code)] #[rustfmt::skip] pub const ")) ts
  (digest_name, ts) ← read_word ts
  ts ← expect (emit start (ascii ": [u8; 32] = [")) ts
  (digest, ts) ← read_bytes ts
  ts ← expect (emit start (ascii "; #[allow(dead_code)] pub const ")) ts
  (insecure_name, ts) ← read_word ts
  ts ← expect (emit start (ascii ": bool = ")) ts
  (insecure, ts) ← read_bool ts
  ts ← expect (emit start (ascii "; #[unsafe(export_name = ")) ts
  (export_name, ts) ← read_literal ts
  ts ← expect (emit start (ascii ")] #[rustfmt::skip] pub static ")) ts
  (text_name, ts) ← read_word ts
  ts ← expect (emit start (ascii ": &str = ")) ts
  (raw, ts) ← read_literal ts
  ts ← expect (emit start (ascii ";")) ts
  guarded ← read_guard ts
  ok (record {
    digest_name = digest_name;
    digest = digest;
    insecure_name = insecure_name;
    insecure = insecure;
    export_name = export_name;
    text_name = text_name;
    text = unescape outside raw;
    guarded = guarded;
  })

-- The key of a whole generated file, and what the file says of its setup.
unfoldable pub read_generated :
    Bytes → Result (List Token) ((Bytes × Groth16Verifyingkey) × Metadata)
read_generated rust = do
  (key, ts) ← read_key_file (lex start rust)
  metadata ← read_metadata ts
  ok (key, metadata)
