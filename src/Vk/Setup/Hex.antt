-- ===== src/Vk/Setup/Hex.antt =====
-- The hexadecimal digest of src/vk/setup.rs, printed and read.
use groth16_solana.Prelude.{
  ℕ, ◌+◌, ◌*◌, ◌/◌, ◌%◌, ◌<◌, ◌≡◌, refl, ◌∙◌, ap, true, false, none, some, [], ◌∷◌, length, ◌==◌,
  arith, All, eq→==,
}
use groth16_solana.Prelude.Bytes.{Bytes, IsByte}
use groth16_solana.Vk.Setup.{hex_digit, to_hex, from_hex_pairs, from_hex}
use groth16_solana.Vk.Setup.Text.{continuation, is_utf8, hex_value, hex_digits, from_str_radix_16}

-- Text without bytes from 128 on is UTF-8.
pub is_utf8-ascii : (bs : Bytes) → All (λ b. b < 128) bs → is_utf8 [] bs ≡ true
unfolding is_utf8
is_utf8-ascii [] h = refl
is_utf8-ascii (b ∷ bs) (hb, h) =
    ap (λ r. elim r [ none ↦ false | some rs ↦ is_utf8 rs bs ]) (continuation-ascii b hb)
    ∙ is_utf8-ascii bs h
  where
    continuation-ascii : (b : ℕ) → b < 128 → continuation b ≡ some []
    continuation-ascii b k = unfold continuation in ground arith

hex_value-digit : (n : ℕ) → n < 16 → hex_value (hex_digit n) ≡ some n
unfolding hex_value
hex_value-digit n h = ground arith

hex_digits-two :
    (a b m n : ℕ)
    → m < 16
    → n < 16
    → hex_value a ≡ some m
    → hex_value b ≡ some n
    → hex_digits 0 (a ∷ b ∷ []) ≡ some (m * 16 + n)
unfolding hex_digits
hex_digits-two a b m n hm hn ea eb = rw (ea, eb) (ground arith)

not_plus : (n : ℕ) → n < 16 → (hex_digit n == b'+') ≡ false
not_plus n h = ground arith

from_str_radix_16-digits :
    (m n : ℕ)
    → m < 16
    → n < 16
    → from_str_radix_16 (hex_digit m ∷ hex_digit n ∷ []) ≡ some (m * 16 + n)
unfolding from_str_radix_16
from_str_radix_16-digits m n hm hn = rw (not_plus m hm) (
    hex_digits-two (hex_digit m) (hex_digit n) m n hm hn (hex_value-digit m hm)
      (hex_value-digit n hn))

pub hex_digit-ascii : (n : ℕ) → n < 16 → hex_digit n < 128
hex_digit-ascii n h = ground arith

from_hex_pairs-to_hex : (bs : Bytes) → All IsByte bs → from_hex_pairs (to_hex bs) ≡ some bs
unfolding from_hex_pairs to_hex
from_hex_pairs-to_hex [] h = refl
from_hex_pairs-to_hex (b ∷ bs) (hb, h) =
    rw
      (
        is_utf8-ascii (hex_digit (b / 16) ∷ hex_digit (b % 16) ∷ [])
            (hex_digit-ascii (b / 16) (omega arith), (hex_digit-ascii (b % 16) (omega arith), tt)),
        from_str_radix_16-digits (b / 16) (b % 16) (omega arith) (omega arith),
      )
      (rw (from_hex_pairs-to_hex bs h)
        (ap (λ (n : ℕ). some (n ∷ bs)) {x = b / 16 * 16 + b % 16} {y = b} (omega arith)))

pub length-to_hex : (bs : Bytes) → length (to_hex bs) ≡ 2 * length bs
unfolding to_hex
length-to_hex [] = refl
length-to_hex (b ∷ bs) = omega (arith, length-to_hex bs)

-- Every digest of 32 bytes is read back from its 64 digits.
pub from_hex-to_hex : (bs : Bytes) → All IsByte bs → length bs ≡ 32 → from_hex (to_hex bs) ≡ some bs
unfolding from_hex
from_hex-to_hex bs h e =
    rw (eq→== (length (to_hex bs)) 64 (omega (arith, e, length-to_hex bs)))
      (from_hex_pairs-to_hex bs h)

-- Each value as a plus sign and one digit.
unfoldable pub signed : Bytes → Bytes
signed [] = []
signed (n ∷ ns) = b'+' ∷ hex_digit n ∷ signed ns

length-signed : (ns : Bytes) → length (signed ns) ≡ 2 * length ns
unfolding signed
length-signed [] = refl
length-signed (n ∷ ns) = omega (arith, length-signed ns)

from_str_radix_16-signed : (n : ℕ) → n < 16 → from_str_radix_16 (b'+' ∷ hex_digit n ∷ []) ≡ some n
unfolding from_str_radix_16 hex_digits
from_str_radix_16-signed n h = rw (hex_value-digit n h) (ground arith)

from_hex_pairs-signed : (ns : Bytes) → All (λ n. n < 16) ns → from_hex_pairs (signed ns) ≡ some ns
unfolding from_hex_pairs signed
from_hex_pairs-signed [] h = refl
from_hex_pairs-signed (n ∷ ns) (hn, h) =
    rw
      (
        is_utf8-ascii (b'+' ∷ hex_digit n ∷ []) (omega arith, (hex_digit-ascii n hn, tt)),
        from_str_radix_16-signed n hn,
      )
      (rw (from_hex_pairs-signed ns h) refl)

-- A text of 32 signed digits is read as a digest of 32 small bytes, although its plus signs are not
-- hexadecimal digits.
pub from_hex-signed :
    (ns : Bytes) → All (λ n. n < 16) ns → length ns ≡ 32 → from_hex (signed ns) ≡ some ns
unfolding from_hex
from_hex-signed ns h e =
    rw (eq→== (length (signed ns)) 64 (omega (arith, e, length-signed ns)))
      (from_hex_pairs-signed ns h)
