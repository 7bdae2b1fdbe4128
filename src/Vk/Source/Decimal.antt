-- ===== src/Vk/Source/Decimal.antt =====
-- The decimal numbers of generated source text, read back.
use groth16_solana.Prelude.{
  ℕ, zero, suc, ◌+◌, ◌-◌, ◌*◌, ◌/◌, ◌%◌, ◌^◌, ◌<◌, ◌≡◌, refl, ◌∙◌, ap, Bool, true, false, [], ◌∷◌,
  ◌++◌, ltb, length, ◌≤◌, arith, All, Bool-cases, inl, inr,
}
use groth16_solana.Prelude.Bytes.{Bytes}
use groth16_solana.Vk.Setup.Text.{in_range}
use groth16_solana.Vk.Source.{digits, decimal}
use native.Mathlib.Nat.{pow-suc}

abbrev pub is_digit : ℕ → Bool
is_digit c = in_range (b'0', b'9') c

-- A number made of the digits in front, behind `acc`, and what follows them.
unfoldable pub read_number : ℕ → Bytes → ℕ × Bytes
read_number acc [] = (acc, [])
read_number acc (c ∷ cs) = elim (is_digit c) [
  | true ↦ read_number (acc * 10 + (c - b'0')) cs
  | false ↦ (acc, c ∷ cs)
]

read_number-digit :
    (acc d : ℕ) (out : Bytes)
    → d < 10
    → read_number acc ((b'0' + d) ∷ out) ≡ read_number (acc * 10 + d) out
unfolding read_number
read_number-digit acc d out h =
    let yes : is_digit (b'0' + d) ≡ true = ground arith in
    rw (yes, read_number) (ap (λ (t : ℕ). read_number t out) (omega arith))

read_number-digits :
    (fuel n : ℕ) (out : Bytes)
    → n < 10 ^ fuel
    → read_number 0 (digits fuel n out) ≡ read_number n out
unfolding digits
read_number-digits zero n out h = ap (λ (t : ℕ). read_number t out) {x = 0} {y = n} (omega arith)
read_number-digits (suc fuel) n out h = elim (Bool-cases (ltb n 10)) [
  | inl small ↦
      rw (small, digits)
        (read_number-digit 0 n out (ground arith) ∙ ap (λ (t : ℕ). read_number t out) (omega arith))
  | inr large ↦
      rw (large, digits)
        (read_number-digits fuel (n / 10) ((b'0' + n % 10) ∷ out) (smaller fuel h)
          ∙ read_number-digit (n / 10) (n % 10) out (omega arith)
          ∙ ap (λ (t : ℕ). read_number t out) (omega arith))
]
  where
    smaller : (fuel : ℕ) → n < 10 ^ suc fuel → n / 10 < 10 ^ fuel
    smaller fuel k = omega (arith, rw pow-suc at k)

digits-append :
    (fuel n : ℕ) (out rest : Bytes) → digits fuel n out ++ rest ≡ digits fuel n (out ++ rest)
unfolding digits
digits-append zero n out rest = refl
digits-append (suc fuel) n out rest = elim (Bool-cases (ltb n 10)) [
  | inl small ↦ rw (small, digits) refl
  | inr large ↦ rw (large, digits) (digits-append fuel (n / 10) ((b'0' + n % 10) ∷ out) rest)
]

pub read_number-decimal :
    (n : ℕ) (rest : Bytes) → n < 10 ^ 20 → read_number 0 (decimal n ++ rest) ≡ read_number n rest
unfolding decimal
read_number-decimal n rest h =
    ap (read_number 0) (digits-append 20 n [] rest) ∙ read_number-digits 20 n rest h

digits-all :
    (P : ℕ → Type 0)
    → ((d : ℕ) → d < 10 → P (b'0' + d))
    → (fuel n : ℕ) (out : Bytes) → All P out
    → All P (digits fuel n out)
unfolding digits
digits-all P p zero n out h = h
digits-all P p (suc fuel) n out h = elim (Bool-cases (ltb n 10)) [
  | inl small ↦ rw (small, digits) (p n (ground arith), h)
  | inr large ↦
      rw (large, digits)
        (digits-all P p fuel (n / 10) ((b'0' + n % 10) ∷ out) (p (n % 10) (omega arith), h))
]

pub decimal-all : (P : ℕ → Type 0) → ((d : ℕ) → d < 10 → P (b'0' + d)) → (n : ℕ) → All P (decimal n)
unfolding decimal
decimal-all P p n = digits-all P p 20 n [] tt

digits-length : (fuel n : ℕ) (out : Bytes) → length out ≤ length (digits fuel n out)
unfolding digits
digits-length zero n out = omega arith
digits-length (suc fuel) n out = elim (Bool-cases (ltb n 10)) [
  | inl small ↦ rw (small, digits) (omega arith)
  | inr large ↦
      rw (large, digits) (omega (arith, digits-length fuel (n / 10) ((b'0' + n % 10) ∷ out)))
]

pub length-decimal : (n : ℕ) → 0 < length (decimal n)
unfolding decimal digits
length-decimal n = elim (Bool-cases (ltb n 10)) [
  | inl small ↦ rw (small, length) (omega arith)
  | inr large ↦ rw (large, length) (omega (arith, digits-length 19 (n / 10) ((b'0' + n % 10) ∷ [])))
]
