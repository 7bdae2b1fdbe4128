-- ===== src/HashToField/Expand.antt =====
-- `expand_message_xmd_sha256_l48` of src/hash_to_field.rs against RFC 9380.
use Prim.Native.Nat.{bit_xor}
use groth16_solana.Prelude.{
  ℕ, zero, suc, ◌+◌, ◌%◌, ◌≤◌, ◌≡◌, refl, ap, ◌∙◌, [], ◌∷◌, ◌++◌, length, take, drop, length-append,
  take-append, append_assoc, append-nil, ap₂, sym, arith, length-take, take-append_add,
}
use groth16_solana.Prelude.Bytes.{Bytes}
use groth16_solana.Prelude.Buffer.{
  zeros, length-zeros, copy_from_slice, copy_from_slice-append, set_byte-append,
  copy_from_slice-zero,
}
use groth16_solana.HashToField.{
  append_dst_prime, xor_into, expand_message_xmd_sha256_l48, l_i_b_str, b0_scratch, b1_scratch,
  b2_scratch,
}

-- RFC 9380, section 5.3.1, for an output of 48 bytes.
unfoldable pub strxor : Bytes → Bytes → Bytes
strxor (x ∷ xs) (y ∷ ys) = bit_xor x y ∷ strxor xs ys
strxor xs ys = []

abbrev pub dst_prime : Bytes → Bytes
dst_prime dst = dst ++ (length dst ∷ [])

unfoldable pub expand_message_xmd : (Bytes → Bytes) → Bytes → Bytes → Bytes
expand_message_xmd h msg dst =
    let b0 = h (zeros 64 ++ (msg ++ ((0 ∷ 48 ∷ []) ++ ((0 ∷ []) ++ dst_prime dst)))) in
    let b1 = h (b0 ++ ((1 ∷ []) ++ dst_prime dst)) in
    let b2 = h (strxor b0 b1 ++ ((2 ∷ []) ++ dst_prime dst)) in take 48 (b1 ++ b2)

-- Behind a filled prefix `append_dst_prime` writes DST_prime.
append_dst_prime_lem :
    (dst pre rest : Bytes) (offset : ℕ)
    → length dst ≤ 255
    → length pre ≡ offset
    → append_dst_prime dst (pre ++ rest) offset
      ≡ ((pre ++ dst_prime dst) ++ drop 1 (drop (length dst) rest), length (pre ++ dst_prime dst))
unfolding append_dst_prime
append_dst_prime_lem dst pre rest offset h e =
    rw (copy_from_slice-append offset (offset + length dst) (length dst) pre dst rest e refl refl) (
      rw
        (set_byte-append (offset + length dst) (length dst % 256) (pre ++ dst)
          (drop (length dst) rest) (omega (arith, length-append pre dst)))
        (ap₂ (λ a b. (a, b)) written count))
  where
    small : length dst % 256 ≡ length dst
    small = omega arith

    written :
        ((pre ++ dst) ++ (length dst % 256 ∷ [])) ++ drop 1 (drop (length dst) rest)
        ≡ (pre ++ dst_prime dst) ++ drop 1 (drop (length dst) rest)
    written =
        rw small
          (ap (λ t. t ++ drop 1 (drop (length dst) rest)) (append_assoc pre dst (length dst ∷ [])))

    count : offset + length dst + 1 ≡ length (pre ++ dst_prime dst)
    count = omega (
      arith,
      e,
      length-append pre (dst ++ (length dst ∷ [])),
      length-append dst (length dst ∷ []),
    )

-- The preimages, bracketed as they are filled in.
abbrev b0_preimage : Bytes → Bytes → Bytes
b0_preimage msg dst = (((zeros 64 ++ msg) ++ (0 ∷ 48 ∷ [])) ++ (0 ∷ [])) ++ dst_prime dst

abbrev b1_preimage : Bytes → Bytes → Bytes
b1_preimage b0 dst = (b0 ++ (1 ∷ [])) ++ dst_prime dst

abbrev b2_preimage : Bytes → Bytes → Bytes → Bytes
b2_preimage b0 b1 dst = (strxor b0 b1 ++ (2 ∷ [])) ++ dst_prime dst

zeros_split : zeros 256 ≡ zeros 64 ++ zeros 192
unfolding zeros
zeros_split = refl

b0_scratch_lem :
    (msg dst : Bytes)
    → length dst ≤ 255
    → b0_scratch msg dst ≡ (
      b0_preimage msg dst
          ++ drop 1 (drop (length dst) (drop 1 (drop 2 (drop (length msg) (zeros 192))))),
      length (b0_preimage msg dst),
    )
unfolding b0_scratch
b0_scratch_lem msg dst h = rw zeros_split (
    rw
      (copy_from_slice-append 64 (64 + length msg) (length msg) (zeros 64) msg (zeros 192)
        (length-zeros 64) refl refl)
      (rw
        (copy_from_slice-append (64 + length msg) (64 + length msg + 2) 2 (zeros 64 ++ msg)
          l_i_b_str (drop (length msg) (zeros 192)) e1 refl refl)
        (rw
          (set_byte-append (64 + length msg + 2) 0 ((zeros 64 ++ msg) ++ l_i_b_str)
            (drop 2 (drop (length msg) (zeros 192))) e2)
          (append_dst_prime_lem dst _ _ (64 + length msg + 2 + 1) h e3))))
  where
    e1 : length (zeros 64 ++ msg) ≡ 64 + length msg
    e1 = omega (arith, length-append (zeros 64) msg, length-zeros 64)

    e2 : length ((zeros 64 ++ msg) ++ l_i_b_str) ≡ 64 + length msg + 2
    e2 = omega (arith, e1, length-append (zeros 64 ++ msg) l_i_b_str)

    e3 : length (((zeros 64 ++ msg) ++ l_i_b_str) ++ (0 ∷ [])) ≡ 64 + length msg + 2 + 1
    e3 = omega (arith, e2, length-append ((zeros 64 ++ msg) ++ l_i_b_str) (0 ∷ []))

b1_scratch_lem :
    (b0 dst scratch : Bytes)
    → length dst ≤ 255
    → length b0 ≡ 32
    → b1_scratch b0 dst scratch ≡ (
      b1_preimage b0 dst ++ drop 1 (drop (length dst) (drop 1 (drop 32 scratch))),
      length (b1_preimage b0 dst),
    )
unfolding b1_scratch
b1_scratch_lem b0 dst scratch h e = rw (copy_from_slice-zero 32 b0 scratch e) (
    rw (set_byte-append 32 1 b0 (drop 32 scratch) e)
      (append_dst_prime_lem dst (b0 ++ (1 ∷ [])) _ 33 h (omega (arith, length-append b0 (1 ∷ [])))))

length-strxor : (n : ℕ) (xs ys : Bytes) → length xs ≡ n → length ys ≡ n → length (strxor xs ys) ≡ n
unfolding strxor
length-strxor zero [] ys hx hy = refl
length-strxor zero (x ∷ xs) ys hx hy = absurd (omega arith)
length-strxor (suc n) [] ys hx hy = absurd (omega arith)
length-strxor (suc n) (x ∷ xs) [] hx hy = absurd (omega arith)
length-strxor (suc n) (x ∷ xs) (y ∷ ys) hx hy =
    ap suc (length-strxor n xs ys (omega arith) (omega arith))

xor_into_lem :
    (n : ℕ) (xs ys pre rest : Bytes)
    → length xs ≡ n
    → length ys ≡ n
    → length pre ≡ n
    → xor_into n (pre ++ rest) xs ys ≡ strxor xs ys ++ rest
unfolding xor_into strxor
xor_into_lem zero [] [] [] rest hx hy hp = refl
xor_into_lem zero (x ∷ xs) ys pre rest hx hy hp = absurd (omega arith)
xor_into_lem zero [] (y ∷ ys) pre rest hx hy hp = absurd (omega arith)
xor_into_lem zero [] [] (p ∷ pre) rest hx hy hp = absurd (omega arith)
xor_into_lem (suc n) [] ys pre rest hx hy hp = absurd (omega arith)
xor_into_lem (suc n) (x ∷ xs) [] pre rest hx hy hp = absurd (omega arith)
xor_into_lem (suc n) (x ∷ xs) (y ∷ ys) [] rest hx hy hp = absurd (omega arith)
xor_into_lem (suc n) (x ∷ xs) (y ∷ ys) (p ∷ pre) rest hx hy hp =
    ap (λ t. bit_xor x y ∷ t)
      (xor_into_lem n xs ys pre rest (omega arith) (omega arith) (omega arith))

b2_scratch_lem :
    (b0 b1 dst pre one prime rest : Bytes)
    → length dst ≤ 255
    → length b0 ≡ 32
    → length b1 ≡ 32
    → length pre ≡ 32
    → b2_scratch b0 b1 dst (((pre ++ one) ++ prime) ++ rest) ≡ (
      b2_preimage b0 b1 dst ++ drop 1 (drop (length dst) (drop 1 (one ++ (prime ++ rest)))),
      length (b2_preimage b0 b1 dst),
    )
unfolding b2_scratch
b2_scratch_lem b0 b1 dst pre one prime rest h e0 e1 ep =
    rw (regroup, xor_into_lem 32 b0 b1 pre (one ++ (prime ++ rest)) e0 e1 ep)
      (rw (set_byte-append 32 2 (strxor b0 b1) (one ++ (prime ++ rest)) xlen) (
        append_dst_prime_lem dst (strxor b0 b1 ++ (2 ∷ [])) _ 33 h
          (omega (arith, xlen, length-append (strxor b0 b1) (2 ∷ [])))))
  where
    xlen : length (strxor b0 b1) ≡ 32
    xlen = length-strxor 32 b0 b1 e0 e1

    regroup : ((pre ++ one) ++ prime) ++ rest ≡ pre ++ (one ++ (prime ++ rest))
    regroup = append_assoc (pre ++ one) prime rest ∙ append_assoc pre one (prime ++ rest)

-- What is hashed is the preimage, whatever stands behind it in the scratch buffer.
hashed :
    (sha256 : Bytes → Bytes) (pre rest : Bytes)
    → sha256 (take (length pre) (pre ++ rest)) ≡ sha256 pre
hashed sha256 pre rest = ap sha256 (take-append (length pre) pre rest refl)

-- The output buffer holds the first 48 bytes of b_1 || b_2.
output :
    (b1 b2 : Bytes)
    → length b1 ≡ 32
    → length b2 ≡ 32
    → copy_from_slice 32 48 (take 16 b2) (copy_from_slice 0 32 b1 (zeros 48)) ≡ take 48 (b1 ++ b2)
output b1 b2 e1 e2 = rw (copy_from_slice-zero 32 b1 (zeros 48) e1) (
    rw
      (copy_from_slice-append 32 48 16 b1 (take 16 b2) (drop 32 (zeros 48)) e1
        (omega (arith, length-take 16 b2)) refl)
      (rw nothing_left (append-nil _ ∙ sym (take-append_add 32 16 48 b1 b2 e1 refl))))
  where
    nothing_left : drop 16 (drop 32 (zeros 48)) ≡ []
    nothing_left = unfold zeros in refl

-- The expander computes RFC 9380's expand_message_xmd for every hash with 32-byte digests, every
-- message, and every DST of at most 255 bytes; the stale bytes of the shared scratch buffer are
-- never hashed.
pub expand_message_xmd_sha256_l48-eq-expand_message_xmd :
    (sha256 : Bytes → Bytes)
    → ((x : Bytes) → length (sha256 x) ≡ 32)
    → (msg dst : Bytes) → length dst ≤ 255
    → expand_message_xmd_sha256_l48 sha256 msg dst ≡ expand_message_xmd sha256 msg dst
unfolding expand_message_xmd_sha256_l48 expand_message_xmd
expand_message_xmd_sha256_l48-eq-expand_message_xmd sha256 digest msg dst h =
    rw (b0_scratch_lem msg dst h, hashed sha256 (b0_preimage msg dst))
      (rw
        (
          b1_scratch_lem (sha256 (b0_preimage msg dst)) dst _ h (digest _),
          hashed sha256 (b1_preimage (sha256 (b0_preimage msg dst)) dst),
        )
        (rw
          (b2_scratch_lem (sha256 (b0_preimage msg dst))
            (sha256 (b1_preimage (sha256 (b0_preimage msg dst)) dst)) dst _ (1 ∷ []) (dst_prime dst)
            _ h (digest _) (digest _) (digest _))
          (rw
            (
              hashed sha256 (
                  b2_preimage (sha256 (b0_preimage msg dst))
                    (sha256 (b1_preimage (sha256 (b0_preimage msg dst)) dst)) dst),
              output _ _ (digest _) (digest _),
            )
            (simp append_assoc))))
