-- ===== src/Prelude/Buffer.antt =====
-- Fixed buffers that start as zeros and are filled range by range.
use Prim.Native.Nat.{ℕ, zero, suc, ◌+◌, ◌-◌}
use mathlib.Core.Path.{◌≡◌, refl, ap, ◌∙◌}
use mathlib.Core.List.{[], ◌∷◌, ◌++◌, append_assoc, append-nil}
use native.Mathlib.Omega.{arith}
use groth16_solana.Prelude.Lists.{
  length, take, drop, length-append, take-append, drop-append_add, All, replicate, length-replicate,
  drop-replicate,
}
use groth16_solana.Prelude.Bytes.{Bytes, IsByte, IsArray}

-- `[0u8; n]`
unfoldable pub zeros : ℕ → Bytes
zeros n = replicate n 0

pub length-zeros : (n : ℕ) → length (zeros n) ≡ n
unfolding zeros
length-zeros n = length-replicate n 0

-- `buf[lo..hi].copy_from_slice(src)`. Rust panics if `src` is not `hi - lo` long; at every call in
-- the sources the array types give it that length.
unfoldable pub copy_from_slice : ℕ → ℕ → Bytes → Bytes → Bytes
copy_from_slice lo hi src buf = take lo buf ++ (src ++ drop hi buf)

-- A copy right behind the part already filled.
pub copy_from_slice-append :
    (lo hi k : ℕ) (pre src rest : Bytes)
    → length pre ≡ lo
    → length src ≡ k
    → lo + k ≡ hi
    → copy_from_slice lo hi src (pre ++ rest) ≡ (pre ++ src) ++ drop k rest
unfolding copy_from_slice
copy_from_slice-append lo hi k pre src rest hp hs e =
    rw (take-append lo pre rest hp, drop-append_add lo k hi pre rest hp e) (rw append_assoc)

pub copy_from_slice-zeros :
    (lo hi k n m : ℕ) (pre src : Bytes)
    → length pre ≡ lo
    → length src ≡ k
    → lo + k ≡ hi
    → n - k ≡ m
    → copy_from_slice lo hi src (pre ++ zeros n) ≡ (pre ++ src) ++ zeros m
unfolding zeros
copy_from_slice-zeros lo hi k n m pre src hp hs e d =
    copy_from_slice-append lo hi k pre src (zeros n) hp hs e
    ∙ ap (λ t. (pre ++ src) ++ t) (rw (drop-replicate {A = ℕ} k n 0, d))

-- `buf[i] = v`
abbrev pub set_byte : ℕ → ℕ → Bytes → Bytes
set_byte i v buf = copy_from_slice i (i + 1) (v ∷ []) buf

pub set_byte-append :
    (i v : ℕ) (pre rest : Bytes)
    → length pre ≡ i
    → set_byte i v (pre ++ rest) ≡ (pre ++ (v ∷ [])) ++ drop 1 rest
set_byte-append i v pre rest e = copy_from_slice-append i (i + 1) 1 pre (v ∷ []) rest e refl refl

-- A copy to the front of a buffer.
pub copy_from_slice-zero :
    (k : ℕ) (src buf : Bytes) → length src ≡ k → copy_from_slice 0 k src buf ≡ src ++ drop k buf
copy_from_slice-zero k src buf e = copy_from_slice-append 0 k k [] src buf refl e (omega arith)

zeros-IsByte : (n : ℕ) → All IsByte (replicate n 0)
zeros-IsByte zero = tt
zeros-IsByte (suc n) = (omega arith, zeros-IsByte n)

pub zeros-IsArray : (n : ℕ) → IsArray n (zeros n)
unfolding zeros
zeros-IsArray n = record { size = length-replicate n 0; bytes = zeros-IsByte n }

-- `pre` fills the first `lo` bytes of `buf`, and `n` zeros follow.
pub record Filled (lo n : ℕ) (pre buf : Bytes) : Type 0 where
  pub content : buf ≡ pre ++ zeros n
  pub size : length pre ≡ lo

pub fill_start : (n : ℕ) → Filled 0 n [] (zeros n)
fill_start n = record { content = refl; size = refl }

pub fill_next :
    (lo hi k n m : ℕ) {pre buf : Bytes} (src : Bytes)
    → Filled lo n pre buf
    → length src ≡ k
    → lo + k ≡ hi
    → n - k ≡ m
    → Filled hi m (pre ++ src) (copy_from_slice lo hi src buf)
fill_next lo hi k n m {pre} {buf} src f hs e d = record {
  content =
      ap (copy_from_slice lo hi src) f.content
      ∙ copy_from_slice-zeros lo hi k n m pre src f.size hs e d;
  size = omega (arith, f.size, length-append pre src);
}

-- A buffer with no zeros left.
pub fill_end : (lo : ℕ) {pre buf : Bytes} → Filled lo 0 pre buf → buf ≡ pre
unfolding zeros
fill_end lo {pre} f = f.content ∙ append-nil pre
