-- ===== src/Vk/Source/Reads.antt =====
-- The reader of generated key files gives back the values that the generators print.
use groth16_solana.Prelude.{
  ℕ, ◌^◌, ◌<◌, ◌≡◌, refl, ◌∙◌, ap, sym, true, false, some, List, [], ◌∷◌, ◌++◌, ok, lt→ltb, arith,
  All, append_assoc, append-nil,
}
use groth16_solana.Prelude.Bytes.{Bytes, IsByte}
use groth16_solana.Prelude.ByteEq.{bytes_eq}
use groth16_solana.Vk.Setup.Text.{ascii}
use groth16_solana.Vk.Source.{decimal, byte_literal}
use groth16_solana.Vk.Source.Decimal.{read_number, read_number-decimal}
use groth16_solana.Vk.Source.Lexer.{Token, word, sign, start, emit}
use groth16_solana.Vk.Source.Pieces.{list_tokens, row_tokens, comma, close_bracket}
use groth16_solana.Vk.Source.Reader.{
  number_of, read_usize, u8_of, push_byte, read_bytes, push_first, push_row, read_rows,
}

pub read_usize-decimal :
    (n : ℕ) (ts : List Token) → n < 10 ^ 20 → read_usize (word (decimal n) ∷ ts) ≡ ok (n, ts)
unfolding read_usize
read_usize-decimal n ts h =
    ap (λ w. number_of (read_number 0 w) ts) (sym (append-nil (decimal n)))
    ∙ ap (λ p. number_of p ts) (read_number-decimal n [] h)
    ∙ (unfold read_number number_of in refl)

u8_of-byte_literal : (b : ℕ) → IsByte b → u8_of (read_number 0 (byte_literal b)) ≡ some b
unfolding byte_literal
u8_of-byte_literal b h =
    ap u8_of (read_number-decimal b (ascii "u8") (omega arith) ∙ stops)
    ∙ (unfold u8_of bytes_eq in rw (lt→ltb b 256 h) refl)
  where
    stops : read_number b (ascii "u8") ≡ (b, ascii "u8")
    stops = unfold read_number in refl

pub read_bytes-list_tokens :
    (bs : Bytes) (ts : List Token)
    → All IsByte bs
    → read_bytes (list_tokens bs ++ (close_bracket ∷ ts)) ≡ ok (bs, ts)
unfolding list_tokens read_bytes push_byte
read_bytes-list_tokens [] ts h = refl
read_bytes-list_tokens (b ∷ []) ts (hb, h) = rw (u8_of-byte_literal b hb) refl
read_bytes-list_tokens (b ∷ b' ∷ bs) ts (hb, h) =
    rw (u8_of-byte_literal b hb, read_bytes-list_tokens (b' ∷ bs) ts h) refl

-- One row, given how the rows behind it are read.
read_rows-row :
    (row : Bytes) (rs : List Bytes) (ts rest : List Token)
    → All IsByte row
    → read_rows false ts ≡ ok (rs, rest)
    → read_rows true (list_tokens row ++ (close_bracket ∷ ts)) ≡ ok (row ∷ rs, rest)
unfolding list_tokens read_rows push_first push_row
read_rows-row [] rs ts rest h e = rw e refl
read_rows-row (b ∷ []) rs ts rest (hb, h) e = rw (u8_of-byte_literal b hb, e) refl
read_rows-row (b ∷ b' ∷ row) rs ts rest (hb, h) e =
    rw (u8_of-byte_literal b hb, read_rows-row (b' ∷ row) rs ts rest h e) refl

pub read_rows-row_tokens :
    (before after : Bytes) (rs : List Bytes) (ts : List Token)
    → emit start before ≡ sign b'[' ∷ []
    → emit start after ≡ close_bracket ∷ comma ∷ []
    → All (All IsByte) rs
    → read_rows false (row_tokens before after rs ++ (close_bracket ∷ ts)) ≡ ok (rs, ts)
unfolding row_tokens read_rows
read_rows-row_tokens before after [] ts eb ea h = refl
read_rows-row_tokens before after (row ∷ rs) ts eb ea (hr, h) =
    rw (eb, ea)
      (ap (read_rows true) (append_assoc (list_tokens row) _ (close_bracket ∷ ts))
        ∙ read_rows-row row rs (comma ∷ (row_tokens before after rs ++ (close_bracket ∷ ts))) ts hr
            (read_rows-row_tokens before after rs ts eb ea h))
