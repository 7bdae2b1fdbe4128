-- ===== src/Vk/Setup/Escaped.antt =====
-- Text between quotes in the source that src/vk/setup.rs generates, and its escapes.
use groth16_solana.Prelude.{
  ℕ, zero, suc, ◌/◌, ◌%◌, ◌<◌, ◌≡◌, refl, ◌∙◌, ap, sym, Bool, true, false, ◌&&◌, ◌||◌, not, some,
  [], ◌∷◌, ◌++◌, arith, All, append_assoc, append-nil, ◌==◌, Bool-cases, inl, inr,
}
use groth16_solana.Prelude.Bytes.{Bytes, IsByte}
use groth16_solana.Vk.Setup.{hex_digit, to_hex, bool_text}
use groth16_solana.Vk.Setup.Text.{ascii, hex_value}
use groth16_solana.Vk.Setup.Metadata.{replace_nul}
use groth16_solana.Vk.Setup.ReadBack.{outside, unescape}
use groth16_solana.Vk.Source.Lexer.{text, lex, Adds, IsWordByte, IsPlainByte}
use groth16_solana.Vk.Source.Pieces.{IsName}

-- A test that holds of every byte of a literal.
abbrev pub holds : (ℕ → Bool) → Bytes → Bool
holds p [] = true
holds p (b ∷ bs) = p b && holds p bs

pub holds-all : (p : ℕ → Bool) (bs : Bytes) → holds p bs ≡ true → All (λ b. p b ≡ true) bs
holds-all p [] h = tt
holds-all p (b ∷ bs) h = elim (Bool-cases (p b)) [
  | inl here ↦ (here, holds-all p bs (rw here at h))
  | inr other ↦ absurd (cc (h, other))
]

abbrev pub is_plain : ℕ → Bool
is_plain c = not (c == b'"') && not (c == b'\\')

-- A byte of a marker: NUL, or one that stands for itself in a string literal.
abbrev pub is_marker_byte : ℕ → Bool
is_marker_byte c = c == 0 || is_plain c

abbrev pub IsMarkerByte : ℕ → Type 0
IsMarkerByte c = is_marker_byte c ≡ true

pub plain_words : (w : Bytes) → All IsWordByte w → All IsPlainByte w
plain_words [] h = tt
plain_words (c ∷ cs) (hc, h) = (ground arith, plain_words cs h)

pub marker_bytes : (w : Bytes) → All IsPlainByte w → All IsMarkerByte w
marker_bytes [] h = tt
marker_bytes (c ∷ cs) (hc, h) = (ground arith, marker_bytes cs h)

pub to_hex-plain : (bs : Bytes) → All IsByte bs → All IsPlainByte (to_hex bs)
unfolding to_hex
to_hex-plain [] h = tt
to_hex-plain (b ∷ bs) (hb, h) =
    (digit (b / 16) (omega arith), (digit (b % 16) (omega arith), to_hex-plain bs h))
  where
    digit : (n : ℕ) → n < 16 → IsPlainByte (hex_digit n)
    digit n k = ground arith

pub bool_text-words : (b : Bool) → IsName (bool_text b)
bool_text-words true = record { length = omega arith; bytes = (refl, (refl, (refl, (refl, tt)))) }
bool_text-words false = record {
  length = omega arith;
  bytes = (refl, (refl, (refl, (refl, (refl, tt)))));
}

pub not_nul : (b : ℕ) → (suc b == 0) ≡ false
not_nul b = ground arith

pub no_quote : (b : ℕ) → IsMarkerByte (suc b) → (suc b == b'"') ≡ false
no_quote b h = ground arith

pub no_escape : (b : ℕ) → IsMarkerByte (suc b) → (suc b == b'\\') ≡ false
no_escape b h = ground arith

pub Adds-escaped :
    (w bs : Bytes)
    → All IsMarkerByte bs
    → Adds (text w) (replace_nul bs) [] (text (w ++ replace_nul bs))
unfolding replace_nul lex
Adds-escaped w [] h rest = ap (λ t. lex (text t) rest) (sym (append-nil w))
Adds-escaped w (zero ∷ bs) (hb, h) rest =
    Adds-escaped (((w ++ (b'\\' ∷ b'x' ∷ [])) ++ (b'0' ∷ [])) ++ (b'0' ∷ [])) bs h rest
    ∙ ap (λ t. lex (text t) rest) assoc
  where
    assoc :
        (((w ++ (b'\\' ∷ b'x' ∷ [])) ++ (b'0' ∷ [])) ++ (b'0' ∷ [])) ++ replace_nul bs
        ≡ w ++ (ascii "\\x00" ++ replace_nul bs)
    assoc =
        append_assoc ((w ++ (b'\\' ∷ b'x' ∷ [])) ++ (b'0' ∷ [])) (b'0' ∷ []) (replace_nul bs)
        ∙ append_assoc (w ++ (b'\\' ∷ b'x' ∷ [])) (b'0' ∷ []) (b'0' ∷ replace_nul bs)
        ∙ append_assoc w (b'\\' ∷ b'x' ∷ []) (b'0' ∷ b'0' ∷ replace_nul bs)
Adds-escaped w (suc b ∷ bs) (hb, h) rest =
    rw (not_nul b, no_quote b hb, no_escape b hb)
      (Adds-escaped (w ++ (suc b ∷ [])) bs h rest
        ∙ ap (λ t. lex (text t) rest) (append_assoc w (suc b ∷ []) (replace_nul bs)))

pub unescape-replace_nul :
    (bs : Bytes) → All IsMarkerByte bs → unescape outside (replace_nul bs) ≡ some bs
unfolding replace_nul unescape hex_value
unescape-replace_nul [] h = refl
unescape-replace_nul (zero ∷ bs) (hb, h) = rw (unescape-replace_nul bs h) refl
unescape-replace_nul (suc b ∷ bs) (hb, h) =
    rw (not_nul b) (rw (no_escape b hb, unescape) (rw (unescape-replace_nul bs h) refl))
