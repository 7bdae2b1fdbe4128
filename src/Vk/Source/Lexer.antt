-- ===== src/Vk/Source/Lexer.antt =====
-- The tokens of Rust source text, as far as generated files use them: words and numbers, string
-- literals, and single signs. White space and comments are dropped.
use groth16_solana.Prelude.{
  ℕ, ◌<◌, ◌≡◌, refl, ◌∙◌, ap, sym, Bool, true, false, ◌&&◌, ◌||◌, not, List, [], ◌∷◌, ◌++◌, leb,
  ◌==◌, if◌then◌else◌, length, arith, All, append_assoc, append-nil,
}
use groth16_solana.Prelude.Bytes.{Bytes}
use groth16_solana.Vk.Setup.Text.{in_range}
use groth16_solana.Vk.Source.Decimal.{is_digit}

pub data Token : Type 0 where
  word : Bytes → Token
  literal : Bytes → Token
  sign : ℕ → Token

-- What has been read of the token at hand. A string keeps its escapes.
pub data Mode : Type 0 where
  code : Bytes → Mode
  slash : Mode
  comment : Mode
  text : Bytes → Mode
  escape : Bytes → Mode

abbrev pub start : Mode
start = code []

abbrev pub is_word : ℕ → Bool
is_word c = is_digit c || in_range (b'A', b'Z') c || in_range (b'a', b'z') c || c == b'_'

abbrev pub IsWordByte : ℕ → Type 0
IsWordByte c = is_word c ≡ true

abbrev flush : Bytes → List Token
flush [] = []
flush (c ∷ cs) = word (c ∷ cs) ∷ []

-- A byte that ends a word.
abbrev step_sign : ℕ → List Token × Mode
step_sign c =
    if c == b'/'
    then ([], slash)
    else if c == b'"'
    then ([], text [])
    else if leb c b' '
    then ([], start)
    else (sign c ∷ [], start)

abbrev in_front : List Token → List Token × Mode → List Token × Mode
in_front ts (us, mode) = (ts ++ us, mode)

abbrev step : Mode → ℕ → List Token × Mode
step (code w) c = if is_word c then ([], code (w ++ (c ∷ []))) else in_front (flush w) (step_sign c)
step slash c =
    if c == b'/'
    then ([], comment)
    else if is_word c
    then (sign b'/' ∷ [], code (c ∷ []))
    else in_front (sign b'/' ∷ []) (step_sign c)
step comment c = if c == b'\n' then ([], start) else ([], comment)
step (text w) c =
    if c == b'"'
    then (literal w ∷ [], start)
    else if c == b'\\'
    then ([], escape w)
    else ([], text (w ++ (c ∷ [])))
step (escape w) c = ([], text (w ++ (b'\\' ∷ c ∷ [])))

abbrev finish : Mode → List Token
finish (code w) = flush w
finish slash = sign b'/' ∷ []
finish comment = []
finish (text w) = literal w ∷ []
finish (escape w) = literal w ∷ []

unfoldable pub lex : Mode → Bytes → List Token
lex mode [] = finish mode
lex mode (c ∷ cs) = (step mode c).0 ++ lex (step mode c).1 cs

-- The tokens that are complete at the end of a text, and the mode there.
unfoldable pub emit : Mode → Bytes → List Token
emit mode [] = []
emit mode (c ∷ cs) = (step mode c).0 ++ emit (step mode c).1 cs

unfoldable pub mode_after : Mode → Bytes → Mode
mode_after mode [] = mode
mode_after mode (c ∷ cs) = mode_after (step mode c).1 cs

-- A part of a text that adds the tokens `ts`, whatever follows.
abbrev pub Adds : Mode → Bytes → List Token → Mode → Type 0
Adds m bs ts m' = (rest : Bytes) → lex m (bs ++ rest) ≡ ts ++ lex m' rest

lex-append : (m : Mode) (bs : Bytes) → Adds m bs (emit m bs) (mode_after m bs)
unfolding lex emit mode_after
lex-append m [] rest = refl
lex-append m (c ∷ cs) rest =
    ap (λ t. (step m c).0 ++ t) (lex-append (step m c).1 cs rest)
    ∙ sym (append_assoc (step m c).0 (emit (step m c).1 cs) (lex (mode_after (step m c).1 cs) rest))

pub Adds-literal : (m m' : Mode) (bs : Bytes) → mode_after m bs ≡ m' → Adds m bs (emit m bs) m'
Adds-literal m m' bs e rest = lex-append m bs rest ∙ ap (λ t. emit m bs ++ lex t rest) e

pub Adds-nothing : (m : Mode) → Adds m [] [] m
Adds-nothing m rest = refl

pub Adds-append :
    (m m' m'' : Mode) (bs cs : Bytes) (ts us : List Token)
    → Adds m bs ts m'
    → Adds m' cs us m''
    → Adds m (bs ++ cs) (ts ++ us) m''
Adds-append m m' m'' bs cs ts us h k rest =
    ap (lex m) (append_assoc bs cs rest)
    ∙ h (cs ++ rest)
    ∙ ap (λ t. ts ++ t) (k rest)
    ∙ sym (append_assoc ts us (lex m'' rest))

pub Adds-word : (w u : Bytes) → All IsWordByte u → Adds (code w) u [] (code (w ++ u))
unfolding lex
Adds-word w [] h rest = ap (λ t. lex (code t) rest) (sym (append-nil w))
Adds-word w (c ∷ cs) (hc, h) rest =
    rw hc (
      Adds-word (w ++ (c ∷ [])) cs h rest
      ∙ ap (λ t. lex (code t) rest) (append_assoc w (c ∷ []) cs))

-- The end of a word.
pub Adds-close :
    (w : Bytes) (c : ℕ) (cs : Bytes)
    → 0 < length w
    → is_word c ≡ false
    → mode_after start (c ∷ cs) ≡ start
    → Adds (code w) (c ∷ cs) (word w ∷ emit start (c ∷ cs)) start
Adds-close w c cs h hc e rest =
    here w h ∙ ap (λ t. word w ∷ t) (Adds-literal start start (c ∷ cs) e rest)
  where
    here :
        (w : Bytes)
        → 0 < length w
        → lex (code w) (c ∷ (cs ++ rest)) ≡ word w ∷ lex start (c ∷ (cs ++ rest))
    here [] k = absurd (omega arith)
    here (b ∷ w) k = unfold lex in rw hc refl

-- A byte of a string that stands for itself.
abbrev pub IsPlainByte : ℕ → Type 0
IsPlainByte c = (not (c == b'"') && not (c == b'\\')) ≡ true

pub Adds-plain : (w u : Bytes) → All IsPlainByte u → Adds (text w) u [] (text (w ++ u))
unfolding lex
Adds-plain w [] h rest = ap (λ t. lex (text t) rest) (sym (append-nil w))
Adds-plain w (c ∷ cs) (hc, h) rest =
    let no_quote : (c == b'"') ≡ false = ground arith in
    let no_escape : (c == b'\\') ≡ false = ground arith in
    rw (no_quote, no_escape)
      (Adds-plain (w ++ (c ∷ [])) cs h rest
        ∙ ap (λ t. lex (text t) rest) (append_assoc w (c ∷ []) cs))
