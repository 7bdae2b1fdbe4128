-- ===== src/Vk/Source/Pieces/Lexed.antt =====
-- The parts of a generated file in front of the lexer.
use groth16_solana.Prelude.{
  ℕ, ◌<◌, ◌≡◌, refl, ◌∙◌, ap, sym, subst, List, [], ◌∷◌, ◌++◌, length, arith, All, All-append,
  append_assoc, length-append,
}
use groth16_solana.Prelude.Bytes.{Bytes}
use groth16_solana.Vk.Setup.Text.{ascii}
use groth16_solana.Vk.Source.{
  decimal, join, byte_literal, byte_list, Piece, lit, put_name, put_number, put_bytes, put_quoted,
  put_rows, print_rows, print_piece, push_pieces,
}
use groth16_solana.Vk.Source.Decimal.{decimal-all, length-decimal}
use groth16_solana.Vk.Source.Lexer.{
  Token, word, literal, code, text, start, IsWordByte, lex, emit, mode_after, Adds, Adds-literal,
  Adds-append, Adds-word, Adds-close, Adds-nothing,
}
use groth16_solana.Vk.Source.Pieces.{
  word_front, behind_word, word_front-words, word_split, list_tokens, row_tokens, piece_tokens,
  tokens, IsWhole, IsEnd, Fits, piece_onto, tokens_onto,
}

Adds-end : (w t : Bytes) → 0 < length w → IsEnd t → Adds (code w) t (word w ∷ emit start t) start
Adds-end w [] h e = absurd (cc (e.ends))
Adds-end w (c ∷ cs) h e = Adds-close w c cs h (ground (arith, e.ends)) e.whole

-- A word, and the text behind it.
Adds-named :
    (w t : Bytes)
    → 0 < length w
    → All IsWordByte w
    → IsEnd t
    → Adds start (w ++ t) (word w ∷ emit start t) start
Adds-named w t h k e =
    Adds-append start (code w) start w t [] (word w ∷ emit start t) (Adds-word [] w k)
      (Adds-end w t h e)

decimal-words : (n : ℕ) → All IsWordByte (decimal n)
decimal-words = decimal-all IsWordByte (λ d h. ground arith)

byte_literal-words : (b : ℕ) → All IsWordByte (byte_literal b)
unfolding byte_literal
byte_literal-words b =
    All-append IsWordByte (decimal b) (ascii "u8") (decimal-words b) (refl, (refl, tt))

byte_literal-length : (b : ℕ) → 0 < length (byte_literal b)
unfolding byte_literal
byte_literal-length b = omega (arith, length-append (decimal b) (ascii "u8"))

separator : IsEnd (ascii ", ")
unfolding mode_after
separator = record { ends = refl; whole = refl }

Adds-list :
    (bs t : Bytes) → IsEnd t → Adds start (byte_list bs ++ t) (list_tokens bs ++ emit start t) start
unfolding byte_list join list_tokens emit
Adds-list [] t e = Adds-literal start start t e.whole
Adds-list (b ∷ []) t e =
    Adds-named (byte_literal b) t (byte_literal-length b) (byte_literal-words b) e
Adds-list (b ∷ b' ∷ bs) t e =
    subst (λ x. Adds start x (list_tokens (b ∷ b' ∷ bs) ++ emit start t) start) (sym apart)
      (Adds-append start start start (byte_literal b ++ ascii ", ") (byte_list (b' ∷ bs) ++ t)
        (word (byte_literal b) ∷ emit start (ascii ", ")) (list_tokens (b' ∷ bs) ++ emit start t)
        (Adds-named (byte_literal b) (ascii ", ") (byte_literal-length b) (byte_literal-words b)
          separator)
        (Adds-list (b' ∷ bs) t e))
  where
    apart :
        byte_list (b ∷ b' ∷ bs) ++ t ≡ (byte_literal b ++ ascii ", ") ++ (byte_list (b' ∷ bs) ++ t)
    apart =
        append_assoc (byte_literal b) (ascii ", " ++ byte_list (b' ∷ bs)) t
        ∙ sym (append_assoc (byte_literal b) (ascii ", ") (byte_list (b' ∷ bs) ++ t))

Adds-rows :
    (before after : Bytes) (rs : List Bytes)
    → IsWhole before
    → IsEnd after
    → Adds start (print_rows before after rs) (row_tokens before after rs) start
unfolding print_rows row_tokens
Adds-rows before after [] hb ha = Adds-nothing start
Adds-rows before after (row ∷ rs) hb ha =
    Adds-append start start start before _ (emit start before) _
      (Adds-literal start start before hb)
      (subst
        (λ x.
          Adds start x (list_tokens row ++ (emit start after ++ row_tokens before after rs)) start)
        (append_assoc (byte_list row) after (print_rows before after rs))
        (subst (λ ts. Adds start ((byte_list row ++ after) ++ print_rows before after rs) ts start)
          (append_assoc (list_tokens row) (emit start after) (row_tokens before after rs))
          (Adds-append start start start (byte_list row ++ after) (print_rows before after rs)
            (list_tokens row ++ emit start after) (row_tokens before after rs)
            (Adds-list row after ha) (Adds-rows before after rs hb ha))))

-- A string between quotes.
Adds-quoted :
    (raw t : Bytes)
    → Adds (text []) raw [] (text raw)
    → IsWhole t
    → Adds start (b'"' ∷ (raw ++ (b'"' ∷ t))) (literal raw ∷ emit start t) start
Adds-quoted raw t h e rest =
    open_quote
    ∙ ap (lex (text [])) (append_assoc raw (b'"' ∷ t) rest)
    ∙ h (b'"' ∷ (t ++ rest))
    ∙ close_quote
    ∙ ap (λ ts. literal raw ∷ ts) (Adds-literal start start t e rest)
  where
    open_quote :
        lex start (b'"' ∷ ((raw ++ (b'"' ∷ t)) ++ rest))
        ≡ lex (text []) ((raw ++ (b'"' ∷ t)) ++ rest)
    open_quote = unfold lex in refl

    close_quote : lex (text raw) (b'"' ∷ (t ++ rest)) ≡ literal raw ∷ lex start (t ++ rest)
    close_quote = unfold lex in refl

Adds-piece :
    (piece : Piece) → Fits piece → Adds start (print_piece piece) (piece_tokens piece) start
unfolding Fits print_piece piece_tokens
Adds-piece (lit t) h = Adds-literal start start t h
Adds-piece (put_name w t) (n, e) =
    subst (λ x. Adds start x (word (w ++ word_front t) ∷ emit start (behind_word t)) start)
      (append_assoc w (word_front t) (behind_word t) ∙ ap (λ x. w ++ x) (sym (word_split t)))
      (Adds-named (w ++ word_front t) (behind_word t)
        (omega (arith, n.length, length-append w (word_front t)))
        (All-append IsWordByte w (word_front t) n.bytes (word_front-words t)) e)
Adds-piece (put_number n t) e = Adds-named (decimal n) t (length-decimal n) (decimal-words n) e
Adds-piece (put_bytes bs t) e = Adds-list bs t e
Adds-piece (put_quoted raw t) (h, e) = Adds-quoted raw t h e
Adds-piece (put_rows before after rs t) (hb, ha, e) =
    Adds-append start start start (print_rows before after rs) t (row_tokens before after rs)
      (emit start t) (Adds-rows before after rs hb ha) (Adds-literal start start t e)

Adds-pieces :
    (pieces : List Piece) → All Fits pieces → Adds start (push_pieces pieces) (tokens pieces) start
unfolding push_pieces tokens
Adds-pieces [] h = Adds-nothing start
Adds-pieces (piece ∷ pieces) (hp, h) =
    Adds-append start start start (print_piece piece) (push_pieces pieces) (piece_tokens piece)
      (tokens pieces) (Adds-piece piece hp) (Adds-pieces pieces h)

piece_tokens-onto :
    (piece : Piece) (ts : List Token) → piece_tokens piece ++ ts ≡ piece_onto piece ts
unfolding piece_tokens piece_onto
piece_tokens-onto (lit t) ts = refl
piece_tokens-onto (put_name w t) ts = refl
piece_tokens-onto (put_number n t) ts = refl
piece_tokens-onto (put_bytes bs t) ts = append_assoc (list_tokens bs) (emit start t) ts
piece_tokens-onto (put_quoted raw t) ts = refl
piece_tokens-onto (put_rows before after rs t) ts =
    append_assoc (row_tokens before after rs) (emit start t) ts

tokens-onto : (pieces : List Piece) (ts : List Token) → tokens pieces ++ ts ≡ tokens_onto pieces ts
unfolding tokens tokens_onto
tokens-onto [] ts = refl
tokens-onto (piece ∷ pieces) ts =
    append_assoc (piece_tokens piece) (tokens pieces) ts
    ∙ ap (λ us. piece_tokens piece ++ us) (tokens-onto pieces ts)
    ∙ piece_tokens-onto piece (tokens_onto pieces ts)

-- The tokens of a file that the parts make, with other text behind it.
pub lex-push_pieces :
    (pieces : List Piece) (rest : Bytes)
    → All Fits pieces
    → lex start (push_pieces pieces ++ rest) ≡ tokens_onto pieces (lex start rest)
lex-push_pieces pieces rest h = Adds-pieces pieces h rest ∙ tokens-onto pieces (lex start rest)
