-- ===== src/Vk/Source/Reader.antt =====
-- A reader of generated key files, on their tokens: what the Rust compiler makes of the items that
-- the generators emit. An error is the tokens at which the reader stands.
use groth16_solana.Prelude.{
  ℕ, Bool, true, false, ◌&&◌, Option, none, some, List, [], ◌∷◌, Result, ok, err, ◌>>=◌, ltb, ◌==◌,
  if◌then◌else◌,
}
use groth16_solana.Prelude.Bytes.{Bytes}
use groth16_solana.Prelude.ByteEq.{bytes_eq}
use groth16_solana.Groth16.{Groth16Verifyingkey, CommitmentVerifyingKey}
use groth16_solana.Vk.Setup.Text.{ascii}
use groth16_solana.Vk.Source.Decimal.{read_number}
use groth16_solana.Vk.Source.Lexer.{Token, word, literal, sign, start, emit}

abbrev pub Read : Type 0 → Type 0
Read A = Result (List Token) (A × List Token)

abbrev pub token_eq : Token → Token → Bool
token_eq (word a) (word b) = bytes_eq a b
token_eq (literal a) (literal b) = bytes_eq a b
token_eq (sign a) (sign b) = a == b
token_eq s t = false

-- Fixed tokens.
unfoldable pub expect : List Token → List Token → Result (List Token) (List Token)
expect [] ts = ok ts
expect (p ∷ ps) [] = err []
expect (p ∷ ps) (t ∷ ts) = elim (token_eq p t) [ true ↦ expect ps ts | false ↦ err (t ∷ ts) ]

abbrev pub read_word : List Token → Read Bytes
read_word (word w ∷ ts) = ok (w, ts)
read_word ts = err ts

abbrev pub read_literal : List Token → Read Bytes
read_literal (literal raw ∷ ts) = ok (raw, ts)
read_literal ts = err ts

-- The whole word is a number without a suffix.
unfoldable pub number_of : ℕ × Bytes → List Token → Read ℕ
number_of (n, []) ts = ok (n, ts)
number_of (n, c ∷ cs) ts = err ts

unfoldable pub read_usize : List Token → Read ℕ
read_usize (word w ∷ ts) = number_of (read_number 0 w) ts
read_usize ts = err ts

-- A literal of type `u8`.
unfoldable pub u8_of : ℕ × Bytes → Option ℕ
u8_of (n, suffix) = if bytes_eq suffix (ascii "u8") && ltb n 256 then some n else none

unfoldable pub push_byte : Option ℕ → Read Bytes → Read Bytes
push_byte (some b) (ok (bs, ts)) = ok (b ∷ bs, ts)
push_byte none (ok (bs, ts)) = err ts
push_byte b (err ts) = err ts

-- Literals of type `u8` up to the closing bracket. Commas are passed over.
unfoldable pub read_bytes : List Token → Read Bytes
read_bytes [] = err []
read_bytes (word w ∷ ts) = push_byte (u8_of (read_number 0 w)) (read_bytes ts)
read_bytes (literal raw ∷ ts) = err ts
read_bytes (sign c ∷ ts) = elim (c == b']') [
  | true ↦ ok ([], ts)
  | false ↦ elim (c == b',') [ true ↦ read_bytes ts | false ↦ err ts ]
]

-- To the first row of the rows that follow.
unfoldable pub push_first : Option ℕ → Read (List Bytes) → Read (List Bytes)
push_first (some b) (ok (row ∷ rs, ts)) = ok ((b ∷ row) ∷ rs, ts)
push_first (some b) (ok ([], ts)) = err ts
push_first none (ok (rs, ts)) = err ts
push_first b (err ts) = err ts

unfoldable pub push_row : Read (List Bytes) → Read (List Bytes)
push_row (ok (rs, ts)) = ok ([] ∷ rs, ts)
push_row (err ts) = err ts

-- Byte arrays up to the closing bracket of the list; `true` inside of an array.
unfoldable pub read_rows : Bool → List Token → Read (List Bytes)
read_rows inside [] = err []
read_rows inside (literal raw ∷ ts) = err ts
read_rows false (word w ∷ ts) = err ts
read_rows true (word w ∷ ts) = push_first (u8_of (read_number 0 w)) (read_rows true ts)
read_rows false (sign c ∷ ts) = elim (c == b']') [
  | true ↦ ok ([], ts)
  | false ↦ elim (c == b',') [
    | true ↦ read_rows false ts
    | false ↦ elim (c == b'[') [ true ↦ read_rows true ts | false ↦ err ts ]
  ]
]
read_rows true (sign c ∷ ts) = elim (c == b']') [
  | true ↦ push_row (read_rows false ts)
  | false ↦ elim (c == b',') [ true ↦ read_rows true ts | false ↦ err ts ]
]

-- A `static` with the rows, if there is one.
unfoldable pub read_static : List Token → Read (Option (Bytes × List Bytes))
read_static ts = elim (expect (emit start (ascii "static ")) ts) [
  | err stop ↦ ok (none, ts)
  | ok ts ↦ do
    (static_name, ts) ← read_word ts
    ts ← expect (emit start (ascii ": &[[u8; 64]] = &[")) ts
    (rs, ts) ← read_rows false ts
    ts ← expect (emit start (ascii ";")) ts
    ok (some (static_name, rs), ts)
]

-- The rows in place, or the name of the static.
unfoldable pub read_ic : Option (Bytes × List Bytes) → List Token → Read (List Bytes)
read_ic (some (static_name, rs)) (word w ∷ ts) = elim (bytes_eq w static_name) [
  | true ↦ ok (rs, ts)
  | false ↦ err ts
]
read_ic none (word w ∷ ts) = err ts
read_ic statics ts = do ts ← expect (emit start (ascii "&[")) ts; read_rows false ts

unfoldable pub read_commitment : List Token → Read (Option CommitmentVerifyingKey)
read_commitment ts = elim (expect (emit start (ascii "None ")) ts) [
  | ok ts ↦ ok (none, ts)
  | err stop ↦ do
    ts ← expect (emit start (ascii "Some(CommitmentVerifyingKey { g2: [")) ts
    (g2, ts) ← read_bytes ts
    ts ← expect (emit start (ascii ", g_sigma_neg_g2: [")) ts
    (g_sigma_neg_g2, ts) ← read_bytes ts
    ts ← expect (emit start (ascii ", })")) ts
    ok (some (record { g2 = g2; g_sigma_neg_g2 = g_sigma_neg_g2 }), ts)
]

-- The last field and the end of the const.
unfoldable pub read_end : List Token → Read (Option CommitmentVerifyingKey)
read_end ts = do
  ts ← expect (emit start (ascii ", vk_commitment: ")) ts
  (vk_commitment, ts) ← read_commitment ts
  ts ← expect (emit start (ascii ", };")) ts
  ok (vk_commitment, ts)

-- `pub const NAME: Groth16Verifyingkey = ..;`
unfoldable pub read_const :
    Option (Bytes × List Bytes) → List Token → Read (Bytes × Groth16Verifyingkey)
read_const statics ts = do
  ts ← expect (emit start (ascii "pub const ")) ts
  (const_name, ts) ← read_word ts
  ts ← expect (emit start (ascii ": Groth16Verifyingkey = Groth16Verifyingkey { nr_pubinputs: ")) ts
  (nr_pubinputs, ts) ← read_usize ts
  ts ← expect (emit start (ascii ", vk_alpha_g1: [")) ts
  (vk_alpha_g1, ts) ← read_bytes ts
  ts ← expect (emit start (ascii ", vk_beta_g2: [")) ts
  (vk_beta_g2, ts) ← read_bytes ts
  ts ← expect (emit start (ascii ", vk_gamma_g2: [")) ts
  (vk_gamma_g2, ts) ← read_bytes ts
  ts ← expect (emit start (ascii ", vk_delta_g2: [")) ts
  (vk_delta_g2, ts) ← read_bytes ts
  ts ← expect (emit start (ascii ", vk_ic: ")) ts
  (vk_ic, ts) ← read_ic statics ts
  (vk_commitment, ts) ← read_end ts
  ok (
    (
      const_name,
      record {
        nr_pubinputs = nr_pubinputs;
        vk_alpha_g1 = vk_alpha_g1;
        vk_beta_g2 = vk_beta_g2;
        vk_gamma_g2 = vk_gamma_g2;
        vk_delta_g2 = vk_delta_g2;
        vk_ic = vk_ic;
        vk_commitment = vk_commitment;
      },
    ),
    ts,
  )

-- Up to the next semicolon.
unfoldable pub skip_item : List Token → Result (List Token) (List Token)
skip_item [] = err []
skip_item (word w ∷ ts) = skip_item ts
skip_item (literal raw ∷ ts) = skip_item ts
skip_item (sign c ∷ ts) = elim (c == b';') [ true ↦ ok ts | false ↦ skip_item ts ]

abbrev pub skip_attribute : List Token → List Token
skip_attribute ts = elim (expect (emit start (ascii "#[rustfmt::skip]")) ts) [
  | ok ts ↦ ts
  | err stop ↦ ts
]

-- `use ..;`
unfoldable pub read_import : List Token → Result (List Token) (List Token)
read_import ts = do ts ← expect (emit start (ascii "use ")) ts; skip_item ts

-- The import, the static and the const of a generated file; what follows is left.
unfoldable pub read_key_file : List Token → Read (Bytes × Groth16Verifyingkey)
read_key_file ts = do
  ts ← read_import ts
  (statics, ts) ← read_static ts
  read_const statics (skip_attribute ts)
