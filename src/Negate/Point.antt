-- ===== src/Negate/Point.antt =====
-- `negate_g1_be` of src/groth16.rs on points: (x, y) becomes (x, p - y).
use groth16_solana.Prelude.{
  ℕ, ◌+◌, ◌-◌, ◌%◌, ◌^◌, ◌≤◌, ◌<◌, ◌≡◌, ◌≢◌, refl, ◌∙◌, ap, sym, true, false, [], ◌∷◌, ◌++◌, length,
  take, drop, arith, Bool-cases, inl, inr, ◌⊎◌, append_assoc, append-nil, length-append, ap₂, subst,
  length-take, length-drop, take-append, drop-append, take-append-drop,
}
use groth16_solana.Prelude.Bytes.{
  Bytes, IsArray, be_value, to_be, append-IsArray, to_be-IsArray, length-to_be, take-IsArray,
  drop-IsArray, be_value_injective,
}
use groth16_solana.Prelude.Words.{word, word-lt, word_step, be_value-empty}
use groth16_solana.Prelude.Buffer.{
  zeros, zeros-IsArray, copy_from_slice, copy_from_slice-append, copy_from_slice-zero,
}
use groth16_solana.Prelude.ByteEq.{bytes_eq, bytes_eq→eq, bytes_eq_refl}
use groth16_solana.Negate.{write_limbs, negate_g1_be, fq_modulus}
use groth16_solana.Negate.Limbs.{Difference, difference, limbs_value_be}

-- The y coordinate, as an integer.
abbrev pub y_value : Bytes → ℕ
y_value g1 = be_value (drop 32 g1)

y_value-words :
    (g1 : Bytes)
    → IsArray 64 g1
    → y_value g1 ≡ limbs_value_be (word g1 32) (word g1 40) (word g1 48) (word g1 56)
y_value-words g1 h = omega (
  arith,
  word_step 64 g1 32 40 24 h refl refl,
  word_step 64 g1 40 48 16 h refl refl,
  word_step 64 g1 48 56 8 h refl refl,
  word_step 64 g1 56 64 0 h refl refl,
  be_value-empty (drop 64 g1) (omega (arith, length-drop 64 g1, h.size)),
)

four_words : ℕ → ℕ → ℕ → ℕ → Bytes
four_words a b c d = to_be 8 a ++ (to_be 8 b ++ (to_be 8 c ++ to_be 8 d))

be_value-four_words :
    (a b c d : ℕ)
    → a < 2 ^ 64
    → b < 2 ^ 64
    → c < 2 ^ 64
    → d < 2 ^ 64
    → be_value (four_words a b c d) ≡ limbs_value_be a b c d
unfolding four_words to_be be_value
be_value-four_words a b c d ha hb hc hd = omega arith

write_limbs_lem :
    (x : Bytes) (a b c d : ℕ)
    → length x ≡ 32
    → write_limbs 32 (a ∷ b ∷ c ∷ d ∷ []) (copy_from_slice 0 32 x (zeros 64))
      ≡ x ++ four_words a b c d
unfolding write_limbs four_words
write_limbs_lem x a b c d e = rw (copy_from_slice-zero 32 x (zeros 64) e) (
    rw (copy_from_slice-append 32 40 8 x (to_be 8 a) _ e (length-to_be 8 a) refl) (
      rw (copy_from_slice-append 40 48 8 (x ++ to_be 8 a) (to_be 8 b) _ e1 (length-to_be 8 b) refl)
        (rw
          (copy_from_slice-append 48 56 8 ((x ++ to_be 8 a) ++ to_be 8 b) (to_be 8 c) _ e2
            (length-to_be 8 c) refl)
          (rw
            (copy_from_slice-append 56 64 8 (((x ++ to_be 8 a) ++ to_be 8 b) ++ to_be 8 c)
              (to_be 8 d) _ e3 (length-to_be 8 d) refl)
            (rw nothing_left (simp (append_assoc, append-nil)))))))
  where
    e1 : length (x ++ to_be 8 a) ≡ 40
    e1 = omega (arith, e, length-append x (to_be 8 a), length-to_be 8 a)

    e2 : length ((x ++ to_be 8 a) ++ to_be 8 b) ≡ 48
    e2 = omega (arith, e1, length-append (x ++ to_be 8 a) (to_be 8 b), length-to_be 8 b)

    e3 : length (((x ++ to_be 8 a) ++ to_be 8 b) ++ to_be 8 c) ≡ 56
    e3 =
        omega
          (arith, e2, length-append ((x ++ to_be 8 a) ++ to_be 8 b) (to_be 8 c), length-to_be 8 c)

    nothing_left : drop 8 (drop 8 (drop 8 (drop 8 (drop 32 (zeros 64))))) ≡ []
    nothing_left = unfold zeros in refl

-- What the function returns for a point other than the identity: the x bytes, then p - y modulo
-- 2^256 in 32 bytes.
record Negated (g1 : Bytes) : Type 0 where
  y_bytes : Bytes
  computed : negate_g1_be g1 ≡ take 32 g1 ++ y_bytes
  array : IsArray 32 y_bytes
  value : be_value y_bytes ≡ (fq_modulus + 2 ^ 256 - y_value g1) % 2 ^ 256

minus_y :
    (g1 : Bytes)
    → IsArray 64 g1
    → bytes_eq g1 (zeros 64) ≡ false
    → Difference (word g1 32) (word g1 40) (word g1 48) (word g1 56)
    → Negated g1
unfolding negate_g1_be
minus_y g1 h e d = record {
  y_bytes = four_words d.n0 d.n1 d.n2 d.n3;
  computed =
      rw (e, d.computed)
        (write_limbs_lem (take 32 g1) d.n0 d.n1 d.n2 d.n3
          (omega (arith, length-take 32 g1, h.size)));
  array =
      unfold four_words in
      append-IsArray 8 24 (to_be-IsArray 8 d.n0) (
        append-IsArray 8 16 (to_be-IsArray 8 d.n1)
          (append-IsArray 8 8 (to_be-IsArray 8 d.n2) (to_be-IsArray 8 d.n3)));
  value =
      be_value-four_words d.n0 d.n1 d.n2 d.n3 d.below.0 d.below.1 d.below.2 d.below.3
      ∙ d.exact
      ∙ ap (λ (y : ℕ). (fq_modulus + 2 ^ 256 - y) % 2 ^ 256) (sym (y_value-words g1 h));
}

negated : (g1 : Bytes) → IsArray 64 g1 → bytes_eq g1 (zeros 64) ≡ false → Negated g1
negated g1 h e = minus_y g1 h e (
    difference _ _ _ _ (word-lt 64 g1 32 h (omega arith)) (word-lt 64 g1 40 h (omega arith))
      (word-lt 64 g1 48 h (omega arith)) (word-lt 64 g1 56 h (omega arith)))

negate_zeros : (g1 : Bytes) → bytes_eq g1 (zeros 64) ≡ true → negate_g1_be g1 ≡ zeros 64
unfolding negate_g1_be
negate_zeros g1 e = rw e

module _ (g1 : Bytes) (h : IsArray 64 g1) (r : Negated g1) where
  take-negate : take 32 (negate_g1_be g1) ≡ take 32 g1
  take-negate =
      ap (λ t. take 32 t) r.computed
      ∙ take-append 32 (take 32 g1) r.y_bytes (omega (arith, length-take 32 g1, h.size))

  y_value-negate : y_value (negate_g1_be g1) ≡ (fq_modulus + 2 ^ 256 - y_value g1) % 2 ^ 256
  y_value-negate =
      ap y_value r.computed
      ∙ ap be_value
          (drop-append 32 (take 32 g1) r.y_bytes (omega (arith, length-take 32 g1, h.size)))
      ∙ r.value

  negate-IsArray : IsArray 64 (negate_g1_be g1)
  negate-IsArray =
      subst (IsArray 64) (sym r.computed)
        (append-IsArray 32 32 (take-IsArray 32 64 (omega arith) h) r.array)

-- The negation of the identity, 64 zero bytes, is the identity; a point (x, y) with y at most p
-- becomes (x, p - y); the result always has 64 bytes.
pub negate_g1_be_lem :
    (g1 : Bytes)
    → IsArray 64 g1
    → y_value g1 ≤ fq_modulus
    → IsArray 64 (negate_g1_be g1)
      × (take 32 (negate_g1_be g1) ≡ take 32 g1)
      × (((g1 ≡ zeros 64) × (negate_g1_be g1 ≡ zeros 64))
          ⊎ ((g1 ≢ zeros 64) × (y_value (negate_g1_be g1) ≡ fq_modulus - y_value g1)))
negate_g1_be_lem g1 h le = elim (Bool-cases (bytes_eq g1 (zeros 64))) [
  | inl same ↦
      let e = bytes_eq→eq g1 (zeros 64) same in
      let n = negate_zeros g1 same in
      (subst (IsArray 64) (sym n) (zeros-IsArray 64), ap (λ t. take 32 t) (n ∙ sym e), inl (e, n))
  | inr other ↦
      let r = negated g1 h other in
      (
        negate-IsArray g1 h r,
        take-negate g1 h r,
        inr (
          λ e. cc (other, ap (λ t. bytes_eq t (zeros 64)) e, bytes_eq_refl (zeros 64)),
          omega (arith, y_value-negate g1 h r),
        ),
      )
]

pub y_value-zeros : y_value (zeros 64) ≡ 0
unfolding zeros be_value
y_value-zeros = refl

-- Two points with the same x bytes and the same y are the same.
pub same_point :
    (g k : Bytes)
    → IsArray 64 g
    → IsArray 64 k
    → take 32 g ≡ take 32 k
    → y_value g ≡ y_value k
    → g ≡ k
same_point g k hg hk x y =
    sym (take-append-drop 32 g)
    ∙ ap₂ ◌++◌ x (
        be_value_injective (drop 32 g) (drop 32 k) (drop-IsArray 32 64 hg).bytes
          (drop-IsArray 32 64 hk).bytes
          ((drop-IsArray 32 64 hg).size ∙ sym (drop-IsArray 32 64 hk).size) y)
    ∙ take-append-drop 32 k

-- A y strictly between 0 and p rules the identity out.
negate_finite :
    (g1 : Bytes)
    → IsArray 64 g1
    → 0 < y_value g1
    → y_value g1 < fq_modulus
    → IsArray 64 (negate_g1_be g1)
      × (take 32 (negate_g1_be g1) ≡ take 32 g1)
      × (y_value (negate_g1_be g1) ≡ fq_modulus - y_value g1)
negate_finite g1 h lo hi =
    let (array, x, cases) = negate_g1_be_lem g1 h (omega arith) in (array, x, by_cases cases)
  where
    by_cases :
        ((g1 ≡ zeros 64) × (negate_g1_be g1 ≡ zeros 64))
          ⊎ ((g1 ≢ zeros 64) × (y_value (negate_g1_be g1) ≡ fq_modulus - y_value g1))
        → y_value (negate_g1_be g1) ≡ fq_modulus - y_value g1
    by_cases (inl (e, n)) = absurd (omega (arith, ap y_value e, y_value-zeros))
    by_cases (inr (ne, v)) = v

-- Negating twice gives the point back, if it is the identity or its y coordinate lies between 0 and
-- p, both excluded. (A curve point other than the identity has no zero y on BN254.)
pub negate_g1_be_involutive :
    (g1 : Bytes)
    → IsArray 64 g1
    → (g1 ≡ zeros 64) ⊎ ((0 < y_value g1) × (y_value g1 < fq_modulus))
    → negate_g1_be (negate_g1_be g1) ≡ g1
negate_g1_be_involutive g1 h (inl e) = rw e (rw identity identity)
  where
    identity : negate_g1_be (zeros 64) ≡ zeros 64
    identity = negate_zeros (zeros 64) (bytes_eq_refl (zeros 64))
negate_g1_be_involutive g1 h (inr (lo, hi)) =
    let (a1, x1, v1) = negate_finite g1 h lo hi in
    let (a2, x2, v2) = negate_finite (negate_g1_be g1) a1 (omega (arith, v1)) (omega (arith, v1)) in
    same_point (negate_g1_be (negate_g1_be g1)) g1 a2 h (x2 ∙ x1) (omega (arith, v1, v2))
