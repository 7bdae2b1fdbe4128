-- ===== src/Vk/Source/Pieces.antt =====
-- The tokens of a generated file, part by part.
pub mod Lexed
use groth16_solana.Prelude.{
  ℕ, ◌<◌, ◌≡◌, refl, ◌∙◌, ap, sym, subst, Bool, true, false, not, List, [], ◌∷◌, ◌++◌, length,
  arith, All, All-append, append_assoc, length-append, Bool-cases, inl, inr,
}
use groth16_solana.Prelude.Bytes.{Bytes}
use groth16_solana.Vk.Setup.Text.{ascii}
use groth16_solana.Vk.Source.{
  decimal, join, byte_literal, byte_list, Piece, lit, put_name, put_number, put_bytes, put_quoted,
  put_rows, print_rows, print_piece, push_pieces,
}
use groth16_solana.Vk.Source.Decimal.{decimal-all, length-decimal}
use groth16_solana.Vk.Source.Lexer.{
  Token, word, literal, sign, code, text, start, is_word, IsWordByte, lex, emit, mode_after, Adds,
  Adds-literal, Adds-append, Adds-word, Adds-close, Adds-nothing,
}

-- The characters of a word in front of a text, and what follows them.
unfoldable pub word_front : Bytes → Bytes
word_front [] = []
word_front (c ∷ cs) = elim (is_word c) [ true ↦ c ∷ word_front cs | false ↦ [] ]

unfoldable pub behind_word : Bytes → Bytes
behind_word [] = []
behind_word (c ∷ cs) = elim (is_word c) [ true ↦ behind_word cs | false ↦ c ∷ cs ]

word_front-words : (t : Bytes) → All IsWordByte (word_front t)
unfolding word_front
word_front-words [] = tt
word_front-words (c ∷ cs) = elim (Bool-cases (is_word c)) [
  | inl here ↦ rw (here, All) (here, word_front-words cs)
  | inr other ↦ rw (other, All) tt
]

word_split : (t : Bytes) → t ≡ word_front t ++ behind_word t
unfolding word_front behind_word
word_split [] = refl
word_split (c ∷ cs) = by_case (is_word c) (word_split cs)
  where
    by_case :
        (b : Bool)
        → cs ≡ word_front cs ++ behind_word cs
        → c ∷ cs
          ≡ (elim b [ true ↦ c ∷ word_front cs | false ↦ [] ])
            ++ (elim b [ true ↦ behind_word cs | false ↦ c ∷ cs ])
    by_case true e = ap (λ x. c ∷ x) e
    by_case false e = refl

abbrev pub comma : Token
comma = sign b','

abbrev pub close_bracket : Token
close_bracket = sign b']'

unfoldable pub list_tokens : Bytes → List Token
list_tokens [] = []
list_tokens (b ∷ []) = word (byte_literal b) ∷ []
list_tokens (b ∷ b' ∷ bs) = word (byte_literal b) ∷ comma ∷ list_tokens (b' ∷ bs)

unfoldable pub row_tokens : Bytes → Bytes → List Bytes → List Token
row_tokens before after [] = []
row_tokens before after (row ∷ rs) =
    emit start before ++ (list_tokens row ++ (emit start after ++ row_tokens before after rs))

unfoldable piece_tokens : Piece → List Token
piece_tokens (lit t) = emit start t
piece_tokens (put_name w t) = word (w ++ word_front t) ∷ emit start (behind_word t)
piece_tokens (put_number n t) = word (decimal n) ∷ emit start t
piece_tokens (put_bytes bs t) = list_tokens bs ++ emit start t
piece_tokens (put_quoted raw t) = literal raw ∷ emit start t
piece_tokens (put_rows before after rs t) = row_tokens before after rs ++ emit start t

unfoldable tokens : List Piece → List Token
tokens [] = []
tokens (piece ∷ pieces) = piece_tokens piece ++ tokens pieces

-- A text that ends between tokens.
abbrev pub IsWhole : Bytes → Type 0
IsWhole t = mode_after start t ≡ start

-- A text that ends the word in front of it, and itself between tokens.
abbrev pub ends_word : Bytes → Bool
ends_word [] = false
ends_word (c ∷ cs) = not (is_word c)

pub record IsEnd (t : Bytes) : Type 0 where
  pub ends : ends_word t ≡ true
  pub whole : IsWhole t

pub record IsName (w : Bytes) : Type 0 where
  pub length : 0 < length w
  pub bytes : All IsWordByte w

unfoldable pub Fits : Piece → Type 0
Fits (lit t) = IsWhole t
Fits (put_name w t) = IsName w × IsEnd (behind_word t)
Fits (put_number n t) = IsEnd t
Fits (put_bytes bs t) = IsEnd t
Fits (put_quoted raw t) = Adds (text []) raw [] (text raw) × IsWhole t
Fits (put_rows before after rs t) = IsWhole before × IsEnd after × IsWhole t

-- The tokens of parts in front of others.
unfoldable pub piece_onto : Piece → List Token → List Token
piece_onto (lit t) ts = emit start t ++ ts
piece_onto (put_name w t) ts = word (w ++ word_front t) ∷ (emit start (behind_word t) ++ ts)
piece_onto (put_number n t) ts = word (decimal n) ∷ (emit start t ++ ts)
piece_onto (put_bytes bs t) ts = list_tokens bs ++ (emit start t ++ ts)
piece_onto (put_quoted raw t) ts = literal raw ∷ (emit start t ++ ts)
piece_onto (put_rows before after rs t) ts = row_tokens before after rs ++ (emit start t ++ ts)

unfoldable pub tokens_onto : List Piece → List Token → List Token
tokens_onto [] ts = ts
tokens_onto (piece ∷ pieces) ts = piece_onto piece (tokens_onto pieces ts)
