-- ===== src/Prelude/Words.antt =====
-- A byte string read in 8-byte big-endian words.
use Prim.Native.Nat.{ℕ, ◌+◌, ◌-◌, ◌*◌, ◌^◌, ◌≤◌, ◌<◌}
use mathlib.Core.Path.{◌≡◌, refl, ap, sym, ◌∙◌, subst}
use mathlib.Core.List.{[], ◌∷◌}
use native.Mathlib.Omega.{arith}
use groth16_solana.Prelude.Lists.{length, take, drop, take-append-drop, length-drop, drop-drop}
use groth16_solana.Prelude.Bytes.{
  Bytes, IsArray, be_value, be_value-append, be_value-lt, take-IsArray, drop-IsArray,
}

-- Some bytes off the front of a byte string whose length is known.
be_value-split :
    (n m : ℕ) (bs : Bytes)
    → length bs ≡ n + m
    → be_value bs ≡ be_value (take n bs) * 256 ^ m + be_value (drop n bs)
be_value-split n m bs e =
    ap be_value (sym (take-append-drop n bs))
    ∙ be_value-append (take n bs) (drop n bs)
    ∙ ap (λ (k : ℕ). be_value (take n bs) * 256 ^ k + be_value (drop n bs)) {x = length (drop n bs)}
        {y = m} (omega (arith, length-drop n bs))

pub be_value-empty : (bs : Bytes) → length bs ≡ 0 → be_value bs ≡ 0
be_value-empty [] e = unfold be_value in refl
be_value-empty (b ∷ bs) e = absurd (omega arith)

-- The word that starts at byte `o`.
abbrev pub word : Bytes → ℕ → ℕ
word raw o = be_value (take 8 (drop o raw))

pub word-lt : (n : ℕ) (raw : Bytes) (o : ℕ) → IsArray n raw → o + 8 ≤ n → word raw o < 2 ^ 64
word-lt n raw o h le =
    let w : IsArray 8 (take 8 (drop o raw)) =
      take-IsArray 8 (n - o) (omega arith) (drop-IsArray o n h) in
    subst (λ (k : ℕ). word raw o < 256 ^ k) w.size (be_value-lt (take 8 (drop o raw)) w.bytes)

-- The rest from byte `o` on is the word there and the rest from byte `p`.
pub word_step :
    (n : ℕ) (raw : Bytes) (o p m : ℕ)
    → IsArray n raw
    → o + 8 ≡ p
    → p + m ≡ n
    → be_value (drop o raw) ≡ word raw o * 256 ^ m + be_value (drop p raw)
word_step n raw o p m h e f =
    be_value-split 8 m (drop o raw) (omega (arith, length-drop o raw, h.size))
    ∙ ap (λ (t : Bytes). word raw o * 256 ^ m + be_value t)
        (drop-drop 8 o raw ∙ ap (λ (k : ℕ). drop k raw) e)
