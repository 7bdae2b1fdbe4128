-- ===== src/Prelude/Bytes.antt =====
-- Byte strings as lists of numbers, and their values as big-endian integers.
use Prim.Native.Nat.{ℕ, zero, suc, ◌+◌, ◌-◌, ◌*◌, ◌/◌, ◌%◌, ◌^◌, ◌≤◌, ◌<◌}
use mathlib.Core.Path.{◌≡◌, refl, ap, ap₂, subst, ◌∙◌}
use mathlib.Core.List.{List, [], ◌∷◌, ◌++◌}
use native.Mathlib.Omega.{arith}
use native.Mathlib.Nat.{pow-suc, zero-add}
use Prim.Native.Nat.add
use groth16_solana.Prelude.Lists.{
  length, take, drop, All, length-append, length-take, length-drop, All-take, All-drop, All-append,
}

abbrev pub Bytes : Type 0
Bytes = List ℕ

abbrev pub IsByte : ℕ → Type 0
IsByte b = b < 256

-- What the type `[u8; n]` says of a list of numbers.
pub record IsArray (n : ℕ) (bs : Bytes) : Type 0 where
  pub size : length bs ≡ n
  pub bytes : All IsByte bs

-- The integer that a big-endian byte string stands for.
unfoldable pub be_value : Bytes → ℕ
be_value [] = 0
be_value (b ∷ bs) = b * 256 ^ length bs + be_value bs

-- `n` big-endian bytes of `v`; for `n = 8` this is `u64::to_be_bytes`.
unfoldable pub to_be : ℕ → ℕ → Bytes
to_be zero v = []
to_be (suc n) v = (v / 256 ^ n % 256) ∷ to_be n v

pub length-to_be : (n v : ℕ) → length (to_be n v) ≡ n
unfolding to_be
length-to_be zero v = refl
length-to_be (suc n) v = ap suc (length-to_be n v)

to_be-IsByte : (n v : ℕ) → All IsByte (to_be n v)
unfolding to_be
to_be-IsByte zero v = tt
to_be-IsByte (suc n) v = (omega arith, to_be-IsByte n v)

pub to_be-IsArray : (n v : ℕ) → IsArray n (to_be n v)
to_be-IsArray n v = record { size = length-to_be n v; bytes = to_be-IsByte n v }

pub pow_add : (m n : ℕ) → 256 ^ (m + n) ≡ 256 ^ m * 256 ^ n
pow_add zero n = rw zero-add (omega arith)
pow_add (suc m) n =
    rw (add.suc m n) (simp pow-suc (omega (arith, ap (λ (t : ℕ). 256 * t) (pow_add m n))))

digit_room : (b m x k : ℕ) → b < 256 → x < m → k ≡ 256 * m → b * m + x < k
digit_room b m x k hb hx e = grind arith

pub be_value-lt : (bs : Bytes) → All IsByte bs → be_value bs < 256 ^ length bs
unfolding be_value
be_value-lt [] h = omega arith
be_value-lt (b ∷ bs) (hb, h) =
    digit_room b (256 ^ length bs) (be_value bs) (256 ^ suc (length bs)) hb (be_value-lt bs h)
      (rw pow-suc (omega arith))

pub be_value-append :
    (xs ys : Bytes) → be_value (xs ++ ys) ≡ be_value xs * 256 ^ length ys + be_value ys
unfolding be_value
be_value-append [] ys = omega arith
be_value-append (x ∷ xs) ys = omega (
  arith,
  be_value-append xs ys,
  ap (λ (t : ℕ). x * t)
      (ap (λ (t : ℕ). 256 ^ t) (length-append xs ys) ∙ pow_add (length xs) (length ys)),
)

pub append-IsArray :
    (n m : ℕ) {xs ys : Bytes} → IsArray n xs → IsArray m ys → IsArray (n + m) (xs ++ ys)
append-IsArray n m {xs} {ys} hx hy = record {
  size = omega (arith, length-append xs ys, hx.size, hy.size);
  bytes = All-append IsByte xs ys hx.bytes hy.bytes;
}

pub take-IsArray : (n m : ℕ) {xs : Bytes} → n ≤ m → IsArray m xs → IsArray n (take n xs)
take-IsArray n m {xs} le h = record {
  size = omega (arith, length-take n xs, h.size);
  bytes = All-take IsByte n xs h.bytes;
}

pub drop-IsArray : (n m : ℕ) {xs : Bytes} → IsArray m xs → IsArray (m - n) (drop n xs)
drop-IsArray n m {xs} h = record {
  size = omega (arith, length-drop n xs, h.size);
  bytes = All-drop IsByte n xs h.bytes;
}

-- One digit in front decides unless the digits are equal.
pub digit_order : (a b m x y : ℕ) → x < m → y < m → a < b → a * m + x < b * m + y
digit_order a b m x y hx hy h = grind arith

digits_unique : (a b m x y : ℕ) → x < m → y < m → a * m + x ≡ b * m + y → (a ≡ b) × (x ≡ y)
digits_unique a b m x y hx hy e = (same, omega (arith, e, ap (λ (t : ℕ). t * m) same))
  where
    same : a ≡ b
    same = ground (arith, digit_order a b m x y, digit_order b a m y x)

-- Arrays of one length with one value are the same.
pub be_value_injective :
    (xs ys : Bytes)
    → All IsByte xs
    → All IsByte ys
    → length xs ≡ length ys
    → be_value xs ≡ be_value ys
    → xs ≡ ys
unfolding be_value
be_value_injective [] [] hx hy e v = refl
be_value_injective [] (y ∷ ys) hx hy e v = absurd (omega arith)
be_value_injective (x ∷ xs) [] hx hy e v = absurd (omega arith)
be_value_injective (x ∷ xs) (y ∷ ys) (hx, hxs) (hy, hys) e v =
    ap₂ ◌∷◌ parts.0 (be_value_injective xs ys hxs hys (omega arith) parts.1)
  where
    parts : (x ≡ y) × (be_value xs ≡ be_value ys)
    parts =
        digits_unique x y (256 ^ length xs) (be_value xs) (be_value ys) (be_value-lt xs hxs)
          (subst (λ (k : ℕ). be_value ys < 256 ^ k) {x = length ys} {y = length xs} (omega arith)
            (be_value-lt ys hys))
          (v
            ∙ ap (λ (k : ℕ). y * 256 ^ k + be_value ys) {x = length ys} {y = length xs}
                (omega arith))
