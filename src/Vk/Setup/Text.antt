-- ===== src/Vk/Setup/Text.antt =====
-- What src/vk/setup.rs uses of Rust's strings, on their bytes: literals, UTF-8, splitting at NUL, the
-- search for a byte string, and hexadecimal numbers.
use Prim.Native.Char.{code}
use Prim.Native.String.{String}
use groth16_solana.Prelude.{
  ℕ, suc, ◌+◌, ◌-◌, ◌*◌, Bool, true, false, ◌&&◌, ◌||◌, Option, none, some, List, [], ◌∷◌, ltb, leb,
  ◌==◌, if◌then◌else◌,
}
use groth16_solana.Prelude.Bytes.{Bytes}

-- The bytes of an ASCII literal.
abbrev pub ascii : String → Bytes
ascii String.[] = []
ascii (String.◌∷◌ c s) = code c ∷ ascii s

abbrev pub in_range : ℕ × ℕ → ℕ → Bool
in_range (lo, hi) b = leb lo b && leb b hi

-- The bytes that may follow the first byte of a character.
unfoldable pub continuation : ℕ → Option (List (ℕ × ℕ))
continuation b =
    if ltb b 0x80
    then some []
    else if in_range (0xc2, 0xdf) b
    then some ((0x80, 0xbf) ∷ [])
    else if b == 0xe0
    then some ((0xa0, 0xbf) ∷ (0x80, 0xbf) ∷ [])
    else if b == 0xed
    then some ((0x80, 0x9f) ∷ (0x80, 0xbf) ∷ [])
    else if in_range (0xe1, 0xef) b
    then some ((0x80, 0xbf) ∷ (0x80, 0xbf) ∷ [])
    else if b == 0xf0
    then some ((0x90, 0xbf) ∷ (0x80, 0xbf) ∷ (0x80, 0xbf) ∷ [])
    else if in_range (0xf1, 0xf3) b
    then some ((0x80, 0xbf) ∷ (0x80, 0xbf) ∷ (0x80, 0xbf) ∷ [])
    else if b == 0xf4
    then some ((0x80, 0x8f) ∷ (0x80, 0xbf) ∷ (0x80, 0xbf) ∷ [])
    else none

-- `core::str::from_utf8(bs).is_ok()`, behind a prefix that still needs bytes of the given ranges.
unfoldable pub is_utf8 : List (ℕ × ℕ) → Bytes → Bool
is_utf8 [] [] = true
is_utf8 (r ∷ rs) [] = false
is_utf8 [] (b ∷ bs) = elim (continuation b) [ none ↦ false | some rs ↦ is_utf8 rs bs ]
is_utf8 (r ∷ rs) (b ∷ bs) = in_range r b && is_utf8 rs bs

abbrev push_front : ℕ → List Bytes → List Bytes
push_front b [] = []
push_front b (part ∷ parts) = (b ∷ part) ∷ parts

-- `text.split('\0')`
unfoldable pub split_nul : Bytes → List Bytes
split_nul [] = [] ∷ []
split_nul (b ∷ bs) = let parts = split_nul bs in if b == 0 then [] ∷ parts else push_front b parts

unfoldable pub starts_with : Bytes → Bytes → Bool
starts_with [] bs = true
starts_with (n ∷ needle) [] = false
starts_with (n ∷ needle) (b ∷ bs) = n == b && starts_with needle bs

abbrev pub next_index : Option ℕ → Option ℕ
next_index none = none
next_index (some n) = some (suc n)

-- `char::to_digit(16)`
unfoldable pub hex_value : ℕ → Option ℕ
hex_value c =
    if in_range (b'0', b'9') c
    then some (c - b'0')
    else if in_range (b'a', b'f') c
    then some (c - b'a' + 10)
    else if in_range (b'A', b'F') c
    then some (c - b'A' + 10)
    else none

abbrev pub and_then : {A B : Type 0} → Option A → (A → Option B) → Option B
and_then none f = none
and_then (some a) f = f a

-- The digits of a `u8`, with the check for overflow.
unfoldable pub hex_digits : ℕ → Bytes → Option ℕ
hex_digits acc [] = some acc
hex_digits acc (c ∷ cs) =
    and_then (hex_value c)
      (λ d. if ltb (acc * 16 + d) 256 then hex_digits (acc * 16 + d) cs else none)

-- `u8::from_str_radix(s, 16)`. One leading `+` is allowed; a sign alone and the empty string are not.
unfoldable pub from_str_radix_16 : Bytes → Option ℕ
from_str_radix_16 [] = none
from_str_radix_16 (c ∷ []) = if c == b'+' || c == b'-' then none else hex_digits 0 (c ∷ [])
from_str_radix_16 (c ∷ d ∷ cs) =
    if c == b'+' then hex_digits 0 (d ∷ cs) else hex_digits 0 (c ∷ d ∷ cs)
