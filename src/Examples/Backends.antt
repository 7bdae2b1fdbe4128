-- ===== src/Examples/Backends.antt =====
-- A runtime and the host's crates that agree, and codes of errors.
use groth16_solana.Prelude.{
  some_injective, zero, suc, subst, some, ℕ, ◌≡◌, refl, Bool, true, false, Result, ok, err, length,
  ◌==◌, if◌then◌else◌, arith,
}
use groth16_solana.Prelude.Bytes.{Bytes, to_be, length-to_be}
use groth16_solana.Groth16.Layout.{concat}
use groth16_solana.Syscalls.Solana
use groth16_solana.Syscalls.Host
use groth16_solana.Syscalls.Agreement.{
  Answers, Mirrors, Operation, group_op, compression_op, syscalls-eq-syscalls,
}

-- An input of `n` bytes is answered with its length in `m` bytes, others are refused with code 6.
abbrev answer : ℕ → ℕ → Bytes → Result ℕ Bytes
answer n m x = if length x == n then ok (to_be m (length x)) else err 6

abbrev crates : Host.Crates
crates = record {
  alt_bn128_g1_addition_be = answer 128 64;
  alt_bn128_g1_multiplication_be = answer 96 64;
  alt_bn128_pairing_be = answer 768 32;
  alt_bn128_g1_decompress_be = answer 32 64;
  alt_bn128_g2_decompress_be = answer 64 128;
  sha256_digest = λ x. to_be 32 (length x);
}

abbrev call : Bytes → Result ℕ Bytes → ℕ × Bytes
call buffer (ok bytes) = (0, bytes)
call buffer (err e) = (e, buffer)

abbrev runtime : Solana.Runtime
runtime = record {
  sol_alt_bn128_group_op = λ op x buffer.
      call buffer
        (if op == 0 then answer 128 64 x else if op == 2 then answer 96 64 x else answer 768 32 x);
  sol_alt_bn128_compression =
      λ op x buffer. call buffer (if op == 1 then answer 32 64 x else answer 64 128 x);
  sol_sha256 = λ xs buffer. to_be 32 (length (concat xs));
}

answers :
    (m : ℕ) (accepted : Bool) (x buffer : Bytes)
    → Answers m
        (if accepted then ok (to_be m (length x)) else err 6)
        (call buffer (if accepted then ok (to_be m (length x)) else err 6))
answers m true x buffer = (refl, refl, length-to_be m (length x))
answers m false x buffer = omega arith

group :
    (op n : ℕ) {f : Bytes → Result ℕ Bytes} (x buffer : Bytes)
    → group_op crates op ≡ some (n, f)
    → Answers n (f x) (runtime.sol_alt_bn128_group_op op x buffer)
group zero n x buffer e =
    subst (λ (p : Operation). Answers p.0 (p.1 x) (runtime.sol_alt_bn128_group_op 0 x buffer))
      (some_injective e) (answers 64 (length x == 128) x buffer)
group (suc zero) n x buffer e = absurd cc
group (suc (suc zero)) n x buffer e =
    subst (λ (p : Operation). Answers p.0 (p.1 x) (runtime.sol_alt_bn128_group_op 2 x buffer))
      (some_injective e) (answers 64 (length x == 96) x buffer)
group (suc (suc (suc zero))) n x buffer e =
    subst (λ (p : Operation). Answers p.0 (p.1 x) (runtime.sol_alt_bn128_group_op 3 x buffer))
      (some_injective e) (answers 32 (length x == 768) x buffer)
group (suc (suc (suc (suc op)))) n x buffer e = absurd cc

compression :
    (op n : ℕ) {f : Bytes → Result ℕ Bytes} (x buffer : Bytes)
    → compression_op crates op ≡ some (n, f)
    → Answers n (f x) (runtime.sol_alt_bn128_compression op x buffer)
compression zero n x buffer e = absurd cc
compression (suc zero) n x buffer e =
    subst (λ (p : Operation). Answers p.0 (p.1 x) (runtime.sol_alt_bn128_compression 1 x buffer))
      (some_injective e) (answers 64 (length x == 32) x buffer)
compression (suc (suc zero)) n x buffer e = absurd cc
compression (suc (suc (suc zero))) n x buffer e =
    subst (λ (p : Operation). Answers p.0 (p.1 x) (runtime.sol_alt_bn128_compression 3 x buffer))
      (some_injective e) (answers 128 (length x == 64) x buffer)
compression (suc (suc (suc (suc op)))) n x buffer e = absurd cc

runtime-Mirrors : Mirrors runtime crates
runtime-Mirrors = record {
  group = λ op n x buffer e size. group op n x buffer e;
  compression = λ op n x buffer e size. compression op n x buffer e;
  digest = λ slices buffer size. refl;
}

syscalls-eq-syscalls_example : Solana.syscalls runtime ≡ Host.syscalls crates
syscalls-eq-syscalls_example = syscalls-eq-syscalls runtime crates runtime-Mirrors
