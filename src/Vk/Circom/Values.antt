-- ===== src/Vk/Circom/Values.antt =====
-- The integers of src/vk/circom.rs as 32-byte strings. What num_bigint documents of
-- `BigUint::to_bytes_le` is the hypothesis `IsBigUint`.
use groth16_solana.Prelude.{
  ℕ, ◌+◌, ◌-◌, ◌*◌, ◌%◌, ◌^◌, ◌<◌, ◌≡◌, refl, ◌∙◌, ap, ap₂, sym, subst, [], ◌∷◌, ◌++◌, reverse, ok,
  length, take, drop, ltb, arith, All, Bool-cases, inl, inr, append-nil, take-append, drop-append,
  All-take, length-take,
}
use mathlib.Core.List.{reverse-append}
use groth16_solana.Prelude.Bytes.{
  Bytes, IsByte, IsArray, be_value, to_be, to_be-IsArray, be_value_injective, append-IsArray,
}
use groth16_solana.Prelude.Buffer.{zeros, zeros-IsArray}
use groth16_solana.Prelude.Little.{
  le_value, be_value-reverse, le_value-lt, reverse-IsArray, le_value-append_zeros, le_value-take,
  be_value-to_be,
}
use groth16_solana.Vk.Circom.{
  Libraries, resize, bigint_string_to_be_bytes, process_g1_component, component_le,
  process_g2_component,
}

pub record IsBigUint (lib : Libraries) : Type 0 where
  pub value : (n : ℕ) → le_value (lib.to_bytes_le n) ≡ n
  pub bytes : (n : ℕ) → All IsByte (lib.to_bytes_le n)

resize-IsArray : (n : ℕ) (bs : Bytes) → All IsByte bs → IsArray n (resize n bs)
unfolding resize
resize-IsArray n bs h = elim (Bool-cases (ltb (length bs) n)) [
  | inl short ↦ rw short (
      subst (λ (k : ℕ). IsArray k (bs ++ zeros (n - length bs))) {x = length bs + (n - length bs)}
        {y = n} (ground arith)
        (append-IsArray (length bs) (n - length bs) (record { size = refl; bytes = h })
          (zeros-IsArray (n - length bs))))
  | inr long ↦
      rw long (record { size = ground (arith, length-take n bs); bytes = All-take IsByte n bs h })
]

-- The 256 low bits of `n`.
pub record IsWordOf (n : ℕ) (out : Bytes) : Type 0 where
  pub array : IsArray 32 out
  pub value : be_value out ≡ n % 2 ^ 256

low_part : (v w q : ℕ) → v ≡ w + q * 256 ^ 32 → w < 256 ^ 32 → w ≡ v % 2 ^ 256
low_part v w q e h = omega arith

resize_parts :
    (bs : Bytes) → All IsByte bs → (q : ℕ) × (le_value bs ≡ le_value (resize 32 bs) + q * 256 ^ 32)
unfolding resize zeros
resize_parts bs h = elim (Bool-cases (ltb (length bs) 32)) [
  | inl short ↦ (0, rw short (omega (arith, le_value-append_zeros bs (32 - length bs))))
  | inr long ↦ rw long (le_value-take 32 bs h)
]

module _ (lib : Libraries) (big : IsBigUint lib) where
  pub word-resize : (n : ℕ) → IsWordOf n (reverse (resize 32 (lib.to_bytes_le n)))
  word-resize n =
      let le = lib.to_bytes_le n in
      let a = resize-IsArray 32 le (big.bytes n) in
      let (q, e) = resize_parts le (big.bytes n) in
      record {
        array = reverse-IsArray 32 a;
        value =
            be_value-reverse (resize 32 le)
            ∙ low_part n (le_value (resize 32 le)) q (sym (big.value n) ∙ e)
                (le_value-lt (resize 32 le) a);
      }

  -- A decimal component of a G1 point becomes 32 big-endian bytes of its 256 low bits: for a component
  -- of 2^256 or more, the bits above are dropped and no error is given.
  pub process_g1_component_lem :
      (component : Bytes) (n : ℕ)
      → lib.parse component ≡ ok n
      → (out : Bytes) × (process_g1_component lib component ≡ ok out) × IsWordOf n out
  unfolding process_g1_component bigint_string_to_be_bytes
  process_g1_component_lem component n e =
      (reverse (resize 32 (lib.to_bytes_le n)), rw e refl, word-resize n)

  -- The components (c0, c1) of a G2 coordinate become c1 and behind it c0, each as 32 big-endian bytes
  -- of the 256 low bits.
  pub process_g2_component_lem :
      (c0 c1 : Bytes) (n0 n1 : ℕ)
      → lib.parse c0 ≡ ok n0
      → lib.parse c1 ≡ ok n1
      → (part0 : Bytes) × (part1 : Bytes) × (process_g2_component lib (c0 ∷ c1 ∷ [])
          ≡ ok (part0, part1))
        × IsWordOf n1 part0
        × IsWordOf n0 part1
  unfolding process_g2_component component_le
  process_g2_component_lem c0 c1 n0 n1 e0 e1 =
      let le0 = resize 32 (lib.to_bytes_le n0) in
      let le1 = resize 32 (lib.to_bytes_le n1) in
      let w0 = word-resize n0 in
      let w1 = word-resize n1 in
      (
        reverse le1,
        reverse le0,
        rw (e0, e1)
            (ap ok (
              ap₂ (λ a b. (a, b))
                (ap (take 32) (reverse-append le0 le1)
                  ∙ take-append 32 (reverse le1) (reverse le0) w1.array.size)
                (ap (λ t. take 32 (drop 32 t)) (reverse-append le0 le1)
                  ∙ ap (take 32) (drop-append 32 (reverse le1) (reverse le0) w1.array.size)
                  ∙ all_taken (reverse le0) w0.array.size))),
        w1,
        w0,
      )
    where
      all_taken : (xs : Bytes) → length xs ≡ 32 → take 32 xs ≡ xs
      all_taken xs h = ap (take 32) (sym (append-nil xs)) ∙ take-append 32 xs [] h

-- A word of a number below 2^256 is the number's big-endian form.
pub word_exact : (n : ℕ) (out : Bytes) → IsWordOf n out → n < 2 ^ 256 → out ≡ to_be 32 n
word_exact n out w h =
    let a = to_be-IsArray 32 n in
    be_value_injective out (to_be 32 n) w.array.bytes a.bytes (w.array.size ∙ sym a.size)
      (w.value ∙ (omega (arith, be_value-to_be 32 n)))
