-- ===== src/Examples/Libraries.antt =====
-- Stand-ins for the libraries that the generators call: a hasher that counts bytes, a disk in memory,
-- and integers as little-endian bytes.
use groth16_solana.Prelude.{
  ℕ, zero, suc, ◌/◌, ◌%◌, ◌^◌, ◌≤◌, ◌<◌, ◌≡◌, refl, ◌∙◌, ap, true, false, ◌⊎◌, inl, inr, List, [],
  ◌∷◌, ◌++◌, Result, ok, err, length, take, drop, ltb, ◌==◌, if◌then◌else◌, arith, All, Bool-cases,
  length-append, length-take, length-drop, take-append,
}
use native.Mathlib.Nat.{pow-suc}
use groth16_solana.Prelude.Bytes.{Bytes, IsByte, to_be, to_be-IsArray}
use groth16_solana.Prelude.ByteEq.{bytes_eq, bytes_eq_refl}
use groth16_solana.Prelude.Little.{le_value}
use groth16_solana.Vk.Setup.ProvingKey.{Sha256, Files, IoError, os_error}
use groth16_solana.Vk.Setup.Hashing.{IsHasher, IsFiles, IsRead}
use groth16_solana.Vk.Setup.Writing.{IsWritableAt}

abbrev pub sha256 : Bytes → Bytes
sha256 bs = to_be 32 (length bs)

abbrev pub sha : Sha256
sha = record { Hasher = Bytes; new = []; update = λ h chunk. h ++ chunk; finalize = λ h. sha256 h }

pub sha-bytes : (h : Sha256.Hasher sha) → All IsByte (sha.finalize h)
sha-bytes h = (to_be-IsArray 32 (length h)).bytes

pub sha-IsHasher : IsHasher sha sha256
sha-IsHasher = record {
  Absorbed = λ h done. h ≡ done;
  at_new = refl;
  at_update = λ h done chunk e. ap (λ t. t ++ chunk) e;
  at_finalize = λ h done e. ap sha256 e;
}

-- The latest content of a path.
unfoldable pub content_of : List (Bytes × Bytes) → Bytes → Result IoError Bytes
content_of [] path = err (os_error 2)
content_of ((p, content) ∷ disk) path = if bytes_eq p path then ok content else content_of disk path

abbrev pub shorter : ℕ → ℕ → ℕ
shorter a b = if ltb a b then a else b

-- A read gives as much as there is room for.
abbrev pub memory : Files
memory = record {
  Disk = List (Bytes × Bytes);
  File = Bytes;
  open_file = content_of;
  read_buf = λ handle buf.
      let n = shorter (length handle) (length buf) in
      ok (n, take n handle ++ drop n buf, drop n handle);
  read = content_of;
  read_to_string = content_of;
  create_dir_all = λ path disk. (ok tt, disk);
  join = λ dir filename. dir ++ (b'/' ∷ filename);
  write = λ path content disk. (ok tt, (path, content) ∷ disk);
}

pub read_progress :
    (handle content : Bytes) (m : ℕ)
    → handle ≡ content
    → 0 < m
    → (0 < shorter (length handle) m) × (shorter (length handle) m ≤ length content)
      ⊎ (shorter (length handle) m ≡ 0) × (content ≡ [])
read_progress handle [] m e room = inr (ground (arith, ap length e), refl)
read_progress handle (c ∷ cs) m e room =
    inl (ground (arith, ap length e), ground (arith, ap length e))

pub memory-reads :
    (handle content buf : Bytes)
    → handle ≡ content
    → 0 < length buf
    → IsRead memory (λ handle content. handle ≡ content) handle content buf
memory-reads handle content buf e room =
    let n = shorter (length handle) (length buf) in
    let taken : length (take n handle) ≡ n = ground (arith, length-take n handle) in
    record {
      n = n;
      buf' = take n handle ++ drop n buf;
      handle' = drop n handle;
      step = refl;
      size = ground (arith, taken, length-drop n buf, length-append (take n handle) (drop n buf));
      room = ground arith;
      chunk = take-append n (take n handle) (drop n buf) taken ∙ ap (take n) e;
      rest = ap (drop n) e;
      progress = read_progress handle content (length buf) e room;
    }

unfoldable pub memory-IsFiles : IsFiles memory
memory-IsFiles = record { Holds = λ handle content. handle ≡ content; reads = memory-reads }

pub memory-IsWritableAt :
    (disk : List (Bytes × Bytes)) (path : Bytes) → IsWritableAt memory disk path
unfolding content_of
memory-IsWritableAt disk path content = ((path, content) ∷ disk, refl, rw (bytes_eq_refl path) refl)

-- `BigUint::to_bytes_le`, with fuel.
unfoldable pub le_digits : ℕ → ℕ → Bytes
le_digits zero n = []
le_digits (suc fuel) n = elim (n == 0) [ true ↦ [] | false ↦ (n % 256) ∷ le_digits fuel (n / 256) ]

abbrev pub to_bytes_le : ℕ → Bytes
to_bytes_le n = le_digits n n

le_value-digits : (fuel n : ℕ) → n ≤ fuel → le_value (le_digits fuel n) ≡ n
unfolding le_digits le_value
le_value-digits zero n h = omega arith
le_value-digits (suc fuel) n h = elim (Bool-cases (n == 0)) [
  | inl z ↦ rw (z, le_digits) (ground arith)
  | inr p ↦ rw (p, le_digits) (omega (arith, le_value-digits fuel (n / 256) (ground arith)))
]

pub le_value-to_bytes_le : (n : ℕ) → le_value (to_bytes_le n) ≡ n
le_value-to_bytes_le n = le_value-digits n n (omega arith)

digits-bytes : (fuel n : ℕ) → All IsByte (le_digits fuel n)
unfolding le_digits
digits-bytes zero n = tt
digits-bytes (suc fuel) n = elim (Bool-cases (n == 0)) [
  | inl z ↦ rw (z, le_digits, All) tt
  | inr p ↦ rw (p, le_digits, All) (omega arith, digits-bytes fuel (n / 256))
]

pub to_bytes_le-bytes : (n : ℕ) → All IsByte (to_bytes_le n)
to_bytes_le-bytes n = digits-bytes n n

length-digits : (k fuel n : ℕ) → n < 256 ^ k → length (le_digits fuel n) ≤ k
unfolding le_digits
length-digits k zero n h = omega arith
length-digits zero (suc fuel) n h =
    let z : (n == 0) ≡ true = ground arith in rw (z, le_digits) (omega arith)
length-digits (suc k) (suc fuel) n h = elim (Bool-cases (n == 0)) [
  | inl z ↦ rw (z, le_digits) (omega arith)
  | inr p ↦ rw (p, le_digits) (omega (arith, length-digits k fuel (n / 256) (smaller n h)))
]
  where
    smaller : (n : ℕ) → n < 256 ^ suc k → n / 256 < 256 ^ k
    smaller n h = omega (arith, rw pow-suc at h)

pub length-to_bytes_le : (n : ℕ) → n < 2 ^ 256 → length (to_bytes_le n) ≤ 32
length-to_bytes_le n h = length-digits 32 n n (omega arith)
