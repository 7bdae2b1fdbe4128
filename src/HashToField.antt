-- ===== src/HashToField.antt =====
-- src/hash_to_field.rs: gnark's BSB22 hash of a commitment to a BN254 scalar. `sha256` stands for
-- `syscalls::sha256`; the field arithmetic is arkworks' and is a parameter.
pub mod Expand
pub mod Reduce
pub mod Hash
use Prim.Native.Nat.{bit_xor}
use groth16_solana.Prelude.{
  ℕ, zero, suc, ◌+◌, ◌-◌, ◌*◌, ◌/◌, ◌%◌, ◌^◌, List, [], ◌∷◌, ◌++◌, length, take, drop, map, get_or,
}
use groth16_solana.Prelude.Bytes.{Bytes, be_value, to_be}
use groth16_solana.Prelude.Buffer.{zeros, copy_from_slice, set_byte}

abbrev pub b_in_bytes : ℕ
b_in_bytes = 32

abbrev pub r_in_bytes : ℕ
r_in_bytes = 64

-- `L`, the length of the expanded message
abbrev pub out_len : ℕ
out_len = 48

abbrev pub max_scratch : ℕ
max_scratch = 256

-- `(L as u16).to_be_bytes()`
abbrev pub l_i_b_str : Bytes
l_i_b_str = 0 ∷ 48 ∷ []

-- The closure `append_dst_prime`: the buffer and the offset behind DST_prime.
unfoldable pub append_dst_prime : Bytes → Bytes → ℕ → Bytes × ℕ
append_dst_prime dst scratch offset =
    let scratch = copy_from_slice offset (offset + length dst) dst scratch in
    let scratch = set_byte (offset + length dst) (length dst % 256) scratch in
    (scratch, offset + length dst + 1)

-- The loop over `scratch.iter_mut().zip(b0.iter().zip(b1.iter())).take(n)`.
unfoldable pub xor_into : ℕ → Bytes → Bytes → Bytes → Bytes
xor_into (suc n) (s ∷ scratch) (x ∷ xs) (y ∷ ys) = bit_xor x y ∷ xor_into n scratch xs ys
xor_into n scratch xs ys = scratch

-- The scratch buffer with the preimage of b_0, and the preimage's length.
unfoldable pub b0_scratch : Bytes → Bytes → Bytes × ℕ
unfolding append_dst_prime
b0_scratch msg dst =
    let scratch = zeros max_scratch in
    let offset : ℕ = r_in_bytes in
    let scratch = copy_from_slice offset (offset + length msg) msg scratch in
    let offset = offset + length msg in
    let scratch = copy_from_slice offset (offset + 2) l_i_b_str scratch in
    let offset = offset + 2 in
    let scratch = set_byte offset 0 scratch in
    let offset = offset + 1 in append_dst_prime dst scratch offset

-- The same buffer overwritten with the preimage of b_1.
unfoldable pub b1_scratch : Bytes → Bytes → Bytes → Bytes × ℕ
unfolding append_dst_prime
b1_scratch b0 dst scratch =
    let offset : ℕ = 0 in
    let scratch = copy_from_slice offset (offset + b_in_bytes) b0 scratch in
    let offset = offset + b_in_bytes in
    let scratch = set_byte offset 1 scratch in
    let offset = offset + 1 in append_dst_prime dst scratch offset

-- And with that of b_2.
unfoldable pub b2_scratch : Bytes → Bytes → Bytes → Bytes → Bytes × ℕ
unfolding append_dst_prime xor_into
b2_scratch b0 b1 dst scratch =
    let scratch = xor_into b_in_bytes scratch b0 b1 in
    let offset : ℕ = b_in_bytes in
    let scratch = set_byte offset 2 scratch in
    let offset = offset + 1 in append_dst_prime dst scratch offset

-- The three preimages share one scratch buffer, and only the bytes in front of the offset are hashed.
-- The source's `const` assertions on the lengths refuse a call at compile time; on the calls that
-- compile, no copy leaves the buffer.
unfoldable pub expand_message_xmd_sha256_l48 : (Bytes → Bytes) → Bytes → Bytes → Bytes
expand_message_xmd_sha256_l48 sha256 msg dst =
    let (scratch, offset) = b0_scratch msg dst in
    let b0 = sha256 (take offset scratch) in
    let (scratch, offset) = b1_scratch b0 dst scratch in
    let b1 = sha256 (take offset scratch) in
    let (scratch, offset) = b2_scratch b0 b1 dst scratch in
    let b2 = sha256 (take offset scratch) in
    let out = zeros out_len in
    let out = copy_from_slice 0 b_in_bytes b1 out in
    copy_from_slice b_in_bytes out_len (take (out_len - b_in_bytes) b2) out

-- `ark_ff::BigInt<4>`: four u64 limbs, the least significant first.
abbrev pub Limbs : Type 0
Limbs = List ℕ

-- arkworks' `Fr`, over the limbs that its elements hold. `new_unchecked` and `.0` wrap and unwrap
-- the limbs and change nothing.
pub record FrOps : Type 0 where
  pub new : Limbs → Limbs
  pub mul : Limbs → Limbs → Limbs
  pub add : Limbs → Limbs → Limbs

-- The word `i` of `raw.rchunks_exact(8)`, as `u64::from_be_bytes` reads it.
abbrev pub limb : Bytes → ℕ → ℕ
limb raw i = be_value (take 8 (drop (length raw - 8 * (i + 1)) raw))

unfoldable pub reduce_be_l48 : FrOps → Bytes → Limbs
reduce_be_l48 fr raw =
    let two_pow_192 = fr.new (0 ∷ 0 ∷ 0 ∷ 1 ∷ []) in
    let high : Limbs = limb raw 3 ∷ limb raw 4 ∷ limb raw 5 ∷ 0 ∷ [] in
    let low : Limbs = limb raw 0 ∷ limb raw 1 ∷ limb raw 2 ∷ 0 ∷ [] in
    fr.add (fr.mul high two_pow_192) low

-- `out.chunks_exact_mut(8).zip(limbs.iter().rev())`, each chunk from `limb.to_be_bytes()`
abbrev pub limbs_to_be : Limbs → Bytes
limbs_to_be [] = []
limbs_to_be (l ∷ ls) = limbs_to_be ls ++ to_be 8 l

unfoldable pub hash_to_field_bn254_fr : (Bytes → Bytes) → FrOps → Bytes → Bytes → Bytes
hash_to_field_bn254_fr sha256 fr msg dst =
    limbs_to_be (reduce_be_l48 fr (expand_message_xmd_sha256_l48 sha256 msg dst))
