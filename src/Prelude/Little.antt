-- ===== src/Prelude/Little.antt =====
-- Little-endian byte strings and their reversal.
use Prim.Native.Nat.{ℕ, zero, suc, ◌+◌, ◌*◌, ◌/◌, ◌%◌, ◌^◌, ◌<◌}
use mathlib.Core.Path.{◌≡◌, refl, ap, subst, ◌∙◌}
use mathlib.Core.List.{List, [], ◌∷◌, ◌++◌, reverse, reverse_aux}
use native.Mathlib.Omega.{arith}
use native.Mathlib.Nat.{pow-suc, div-div-eq-div-mul, div-eq_of_lt}
use groth16_solana.Prelude.Lists.{length, take, All, replicate}
use groth16_solana.Prelude.Bytes.{
  Bytes, IsByte, IsArray, be_value, be_value-lt, to_be, length-to_be,
}

-- The integer that a little-endian byte string stands for.
unfoldable pub le_value : Bytes → ℕ
le_value [] = 0
le_value (b ∷ bs) = b + 256 * le_value bs

be_value-reverse_aux :
    (bs acc : Bytes) → be_value (reverse_aux bs acc) ≡ le_value bs * 256 ^ length acc + be_value acc
unfolding le_value be_value
be_value-reverse_aux [] acc = omega arith
be_value-reverse_aux (b ∷ bs) acc =
    be_value-reverse_aux bs (b ∷ acc)
    ∙ step b (le_value bs) (256 ^ length acc) (256 ^ suc (length acc)) (be_value acc)
        (rw pow-suc (omega arith))
  where
    step : (b v m k x : ℕ) → k ≡ 256 * m → v * k + (b * m + x) ≡ (b + 256 * v) * m + x
    step b v m k x e = omega (arith, ap (λ (t : ℕ). v * t) e)

pub be_value-reverse : (bs : Bytes) → be_value (reverse bs) ≡ le_value bs
be_value-reverse bs = be_value-reverse_aux bs [] ∙ (unfold be_value in omega arith)

length-reverse_aux {ℓ} :
    {A : Type ℓ} (xs acc : List A) → length (reverse_aux xs acc) ≡ length xs + length acc
length-reverse_aux [] acc = omega arith
length-reverse_aux (x ∷ xs) acc = omega (arith, length-reverse_aux xs (x ∷ acc))

pub length-reverse {ℓ} : {A : Type ℓ} (xs : List A) → length (reverse xs) ≡ length xs
length-reverse xs = omega (arith, length-reverse_aux xs [])

All-reverse_aux {ℓ κ} :
    {A : Type ℓ} (P : A → Type κ) (xs acc : List A)
    → All P xs
    → All P acc
    → All P (reverse_aux xs acc)
All-reverse_aux P [] acc h k = k
All-reverse_aux P (x ∷ xs) acc (hx, h) k = All-reverse_aux P xs (x ∷ acc) h (hx, k)

pub reverse-IsArray : (n : ℕ) {bs : Bytes} → IsArray n bs → IsArray n (reverse bs)
reverse-IsArray n {bs} h = record {
  size = length-reverse bs ∙ h.size;
  bytes = All-reverse_aux IsByte bs [] h.bytes tt;
}

pub le_value-append_zeros : (bs : Bytes) (n : ℕ) → le_value (bs ++ replicate n 0) ≡ le_value bs
unfolding le_value
le_value-append_zeros [] zero = refl
le_value-append_zeros [] (suc n) = omega (arith, le_value-append_zeros [] n)
le_value-append_zeros (b ∷ bs) n = omega (arith, le_value-append_zeros bs n)

-- Cutting a little-endian string leaves the low bytes.
pub le_value-take :
    (n : ℕ) (bs : Bytes)
    → All IsByte bs
    → (q : ℕ) × (le_value bs ≡ le_value (take n bs) + q * 256 ^ n)
unfolding le_value
le_value-take zero bs h = (le_value bs, omega arith)
le_value-take (suc n) [] h = (0, omega arith)
le_value-take (suc n) (b ∷ bs) (hb, h) =
    let (q, e) = le_value-take n bs h in
    (
      q,
      step b q (le_value bs) (le_value (take n bs)) (256 ^ n) (256 ^ suc n) e
          (rw pow-suc (omega arith)),
    )
  where
    step : (b q v w m k : ℕ) → v ≡ w + q * m → k ≡ 256 * m → b + 256 * v ≡ b + 256 * w + q * k
    step b q v w m k e f = omega (arith, ap (λ (t : ℕ). q * t) f, e)

to_be-rest : (n v : ℕ) → be_value (to_be n v) + v / 256 ^ n * 256 ^ n ≡ v
unfolding be_value to_be
to_be-rest zero v = omega arith
to_be-rest (suc n) v =
    step (v / 256 ^ n) (v / 256 ^ suc n) (256 ^ n) (256 ^ suc n) (be_value (to_be n v)) v
      (256 ^ length (to_be n v)) (rw pow-suc (omega arith))
      (ap (λ (t : ℕ). 256 ^ t) (length-to_be n v)) (to_be-rest n v) split
  where
    split : v / 256 ^ n / 256 ≡ v / 256 ^ suc n
    split = div-div-eq-div-mul v (256 ^ n) 256 ∙ ap (λ (t : ℕ). v / t) (rw pow-suc (omega arith))

    step :
        (q r m k x v l : ℕ)
        → k ≡ 256 * m
        → l ≡ m
        → x + q * m ≡ v
        → q / 256 ≡ r
        → q % 256 * l + x + r * k ≡ v
    step q r m k x v l ek el ex er = omega (
      arith,
      ap (λ (t : ℕ). q % 256 * t) el,
      ap (λ (t : ℕ). r * t) ek,
      ex,
      ap (λ (t : ℕ). t * m) {x = q} {y = q % 256 + 256 * r} (omega (arith, er)),
    )

pub be_value-to_be : (n v : ℕ) → v < 256 ^ n → be_value (to_be n v) ≡ v
be_value-to_be n v h = omega (arith, to_be-rest n v, ap (λ (t : ℕ). t * 256 ^ n) (div-eq_of_lt h))

pub le_value-lt : (bs : Bytes) → IsArray 32 bs → le_value bs < 256 ^ 32
le_value-lt bs a =
    let r = reverse-IsArray 32 a in
    subst (λ (v : ℕ). v < 256 ^ 32) (be_value-reverse bs)
      (subst (λ (n : ℕ). be_value (reverse bs) < 256 ^ n) r.size (be_value-lt (reverse bs) r.bytes))
