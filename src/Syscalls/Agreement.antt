-- ===== src/Syscalls/Agreement.antt =====
-- The two backends of src/syscalls.rs against each other.
use groth16_solana.Prelude.{
  zero, suc, refl, ap, ◌∙◌, append-nil, List, Option, some, none, ℕ, ◌≡◌, ◌≢◌, Result, ok, err, [],
  ◌∷◌, length, arith, ◌>>=◌, map_err, ok_or, ==_refl,
}
use groth16_solana.Prelude.Bytes.{Bytes}
use groth16_solana.Prelude.Buffer.{zeros, length-zeros}
use groth16_solana.Groth16.Layout.{concat}
use groth16_solana.Errors
use groth16_solana.Errors.{Groth16Error}
use groth16_solana.Syscalls.Solana
use groth16_solana.Syscalls.Host

-- A syscall answers as the crate's function does: code 0 and its `n` bytes where that succeeds,
-- another code where it fails.
abbrev pub Answers : ℕ → Result ℕ Bytes → ℕ × Bytes → Type 0
Answers n (ok bytes) (rc, result) = (rc ≡ 0) × (result ≡ bytes) × (length bytes ≡ n)
Answers n (err e) (rc, result) = rc ≢ 0

-- An operation: the size of its result, and the crate's function.
abbrev pub Operation : Type 0
Operation = ℕ × (Bytes → Result ℕ Bytes)

-- Solana's numbers of the group operations on big-endian points that the crates have.
abbrev pub group_op : Host.Crates → ℕ → Option Operation
group_op crates zero = some (64, crates.alt_bn128_g1_addition_be)
group_op crates (suc zero) = none
group_op crates (suc (suc zero)) = some (64, crates.alt_bn128_g1_multiplication_be)
group_op crates (suc (suc (suc zero))) = some (32, crates.alt_bn128_pairing_be)
group_op crates (suc (suc (suc (suc op)))) = none

-- Solana's numbers of the decompressions; 0 and 2 are the compressions.
abbrev pub compression_op : Host.Crates → ℕ → Option Operation
compression_op crates zero = none
compression_op crates (suc zero) = some (64, crates.alt_bn128_g1_decompress_be)
compression_op crates (suc (suc zero)) = none
compression_op crates (suc (suc (suc zero))) = some (128, crates.alt_bn128_g2_decompress_be)
compression_op crates (suc (suc (suc (suc op)))) = none

-- The runtime is documented by the operations' numbers, and answers each as the crate's function does
-- into a buffer of the result's size; its hash is that of the slices one behind the other.
pub record Mirrors (rt : Solana.Runtime) (crates : Host.Crates) : Type 0 where
  pub group :
      (op n : ℕ) {f : Bytes → Result ℕ Bytes} (x buffer : Bytes)
      → group_op crates op ≡ some (n, f)
      → length buffer ≡ n
      → Answers n (f x) (rt.sol_alt_bn128_group_op op x buffer)
  pub compression :
      (op n : ℕ) {f : Bytes → Result ℕ Bytes} (x buffer : Bytes)
      → compression_op crates op ≡ some (n, f)
      → length buffer ≡ n
      → Answers n (f x) (rt.sol_alt_bn128_compression op x buffer)
  pub digest :
      (slices : List Bytes) (buffer : Bytes)
      → length buffer ≡ 32
      → rt.sol_sha256 slices buffer ≡ crates.sha256_digest (concat slices)

checked_vec :
    (n : ℕ) (e : Groth16Error) (h : Result ℕ Bytes) (r : ℕ × Bytes)
    → Answers n h r
    → Solana.checked e r ≡ (map_err (λ _. e) h >>= λ bytes. ok_or e (Host.try_into n bytes))
unfolding Solana.checked Host.try_into
checked_vec n e (ok bytes) (rc, result) a = ground (arith, ==_refl n)
checked_vec n e (err c) (rc, result) a = ground arith

checked_array :
    (n : ℕ) (e : Groth16Error) (h : Result ℕ Bytes) (r : ℕ × Bytes)
    → Answers n h r
    → Solana.checked e r ≡ map_err (λ _. e) h
unfolding Solana.checked
checked_array n e (ok bytes) (rc, result) a = ground arith
checked_array n e (err c) (rc, result) a = ground arith

-- Where the runtime does what is documented for each operation's number, with the functions of the
-- crates, the on-chain backend and the host backend are the same functions: results and errors of all
-- six operations agree on every input.
pub syscalls-eq-syscalls :
    (rt : Solana.Runtime) (crates : Host.Crates)
    → Mirrors rt crates
    → Solana.syscalls rt ≡ Host.syscalls crates
unfolding Solana.g1_addition_be Solana.g1_multiplication_be Solana.pairing_be
    Solana.g1_decompress_be Solana.g2_decompress_be Solana.sha256 Host.g1_addition_be
    Host.g1_multiplication_be Host.pairing_be Host.g1_decompress_be Host.g2_decompress_be
    Host.sha256
syscalls-eq-syscalls rt crates m = λ i. record {
  g1_addition_be = λ x.
      checked_vec 64 Errors.preparing_inputs_g1_addition_failed _ _
        (m.group 0 64 x (zeros 64) refl (length-zeros 64)) i;
  g1_multiplication_be = λ x.
      checked_vec 64 Errors.preparing_inputs_g1_mul_failed _ _
        (m.group 2 64 x (zeros 64) refl (length-zeros 64)) i;
  pairing_be = λ x.
      checked_vec 32 Errors.proof_verification_failed _ _
        (m.group 3 32 x (zeros 32) refl (length-zeros 32)) i;
  g1_decompress_be = λ x.
      checked_array 64 Errors.decompressing_g1_failed _ _
        (m.compression 1 64 x (zeros 64) refl (length-zeros 64)) i;
  g2_decompress_be = λ x.
      checked_array 128 Errors.decompressing_g2_failed _ _
        (m.compression 3 128 x (zeros 128) refl (length-zeros 128)) i;
  sha256 = λ x. hashed x i;
}
  where
    hashed : (x : Bytes) → rt.sol_sha256 (x ∷ []) (zeros 32) ≡ crates.sha256_digest x
    hashed x =
        m.digest (x ∷ []) (zeros 32) (length-zeros 32)
        ∙ ap crates.sha256_digest (unfold concat in append-nil x)
