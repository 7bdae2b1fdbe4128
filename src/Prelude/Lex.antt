-- ===== src/Prelude/Lex.antt =====
-- The `Ord` of byte arrays is lexicographic; on arrays of one length it is the order of their
-- big-endian values.
use groth16_solana.Prelude.Bytes.{Bytes, IsByte, be_value, be_value-lt, digit_order}
use groth16_solana.Prelude.Lists.{length, All}
use groth16_solana.Prelude.Tests.{ltb, if◌then◌else◌}
use Prim.Native.Nat.{ℕ, ◌+◌, ◌*◌, ◌^◌, ◌<◌}
use mathlib.Core.Path.{◌≡◌, refl, ap}
use mathlib.Core.Bool.{Bool, true, false}
use mathlib.Core.List.{[], ◌∷◌}
use native.Mathlib.Omega.{arith}

unfoldable pub lex_lt : Bytes → Bytes → Bool
lex_lt [] [] = false
lex_lt [] (b ∷ ys) = true
lex_lt (a ∷ xs) [] = false
lex_lt (a ∷ xs) (b ∷ ys) = if ltb a b then true else if ltb b a then false else lex_lt xs ys

lex_step :
    (a b m x y : ℕ) (r : Bool)
    → x < m
    → y < m
    → r ≡ ltb x y
    → (if ltb a b then true else if ltb b a then false else r) ≡ ltb (a * m + x) (b * m + y)
lex_step a b m x y r hx hy e =
    ground
      (arith, digit_order a b m x y, digit_order b a m y x, λ (p : a ≡ b). ap (λ (t : ℕ). t * m) p)

pub lex_lt-eq-ltb :
    (xs ys : Bytes)
    → All IsByte xs
    → All IsByte ys
    → length xs ≡ length ys
    → lex_lt xs ys ≡ ltb (be_value xs) (be_value ys)
unfolding lex_lt be_value
lex_lt-eq-ltb [] [] ha hb e = refl
lex_lt-eq-ltb [] (b ∷ ys) ha hb e = absurd (omega arith)
lex_lt-eq-ltb (a ∷ xs) [] ha hb e = absurd (omega arith)
lex_lt-eq-ltb (a ∷ xs) (b ∷ ys) (ha, hxs) (hb, hys) e = rw (ap (λ (t : ℕ). 256 ^ t) ylen) (
    lex_step a b (256 ^ length xs) (be_value xs) (be_value ys) (lex_lt xs ys) (be_value-lt xs hxs)
      (rw (ap (λ (t : ℕ). 256 ^ t) ylen) at (be_value-lt ys hys))
      (lex_lt-eq-ltb xs ys hxs hys (omega arith)))
  where
    ylen : length ys ≡ length xs
    ylen = omega arith
