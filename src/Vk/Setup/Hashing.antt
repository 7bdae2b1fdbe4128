-- ===== src/Vk/Setup/Hashing.antt =====
-- The digest of a proving key in src/vk/setup.rs is that of the whole file, however the reads cut it.
-- What the crate sha2 documents of its hasher and the standard library of `Read::read` on files are
-- the hypotheses `IsHasher` and `IsFiles`.
use groth16_solana.Prelude.{
  ℕ, zero, suc, ◌*◌, ◌≤◌, ◌<◌, ◌≡◌, refl, ◌∙◌, ap, sym, subst, true, false, some, [], ◌++◌, ◌⊎◌,
  inl, inr, ok, length, take, drop, ltb, ◌==◌, arith, length-drop, take-append-drop, append_assoc,
  append-nil,
}
use groth16_solana.Prelude.Bytes.{Bytes}
use groth16_solana.Prelude.Buffer.{zeros, length-zeros}
use groth16_solana.Vk.Setup.ProvingKey.{Sha256, Files, hash_loop, proving_key_sha256}

-- A hasher has absorbed the concatenation of its updates, and its result is the digest of those bytes.
pub record IsHasher (sha : Sha256) (sha256 : Bytes → Bytes) : Type 1 where
  pub Absorbed : Sha256.Hasher sha → Bytes → Type 0
  pub at_new : Absorbed sha.new []
  pub at_update :
      (h : Sha256.Hasher sha) (done chunk : Bytes)
      → Absorbed h done
      → Absorbed (sha.update h chunk) (done ++ chunk)
  pub at_finalize :
      (h : Sha256.Hasher sha) (done : Bytes) → Absorbed h done → sha.finalize h ≡ sha256 done

-- The read that `read_buf` made: some bytes in front of what the file still holds are at the front of
-- the buffer, and none only at the end of the file. A read may be shorter than the buffer.
pub record IsRead (fs : Files) (Holds : Files.File fs → Bytes → Type 0) (handle : Files.File fs)
    (content buf : Bytes) : Type 0 where
  pub n : ℕ
  pub buf' : Bytes
  pub handle' : Files.File fs
  pub step : fs.read_buf handle buf ≡ ok (n, buf', handle')
  pub size : length buf' ≡ length buf
  pub room : n ≤ length buf
  pub chunk : take n buf' ≡ take n content
  pub rest : Holds handle' (drop n content)
  pub progress : (0 < n) × (n ≤ length content) ⊎ (n ≡ 0) × (content ≡ [])

pub record IsFiles (fs : Files) : Type 1 where
  -- What an open file still has to give.
  pub Holds : Files.File fs → Bytes → Type 0
  pub reads :
      (handle : Files.File fs) (content buf : Bytes)
      → Holds handle content
      → 0 < length buf
      → IsRead fs Holds handle content buf

module _ (fs : Files) (io : IsFiles fs) (sha : Sha256) (sha256 : Bytes → Bytes)
    (hasher : IsHasher sha sha256) where
  hash_loop-ends :
      (fuel : ℕ) (handle : Files.File fs) (h : Sha256.Hasher sha) (buf done content : Bytes)
      → 0 < length buf
      → io.Holds handle content
      → hasher.Absorbed h done
      → length content < fuel
      → (h' : Sha256.Hasher sha) × (hash_loop fs sha fuel handle h buf ≡ some (ok h'))
        × hasher.Absorbed h' (done ++ content)
  unfolding hash_loop
  hash_loop-ends zero handle h buf done content lb holds absorbed lt = absurd (omega arith)
  hash_loop-ends (suc fuel) handle h buf done content lb holds absorbed lt =
      let r = io.reads handle content buf holds lb in
      elim r.progress [
        | inl (lo, hi) ↦
            let (h', e, k) =
              hash_loop-ends fuel r.handle' (sha.update h (take r.n r.buf')) r.buf'
                (done ++ take r.n r.buf') (drop r.n content) (omega (arith, r.size)) r.rest
                (hasher.at_update h done (take r.n r.buf') absorbed)
                (omega (arith, length-drop r.n content)) in
            let more : (r.n == 0) ≡ false = ground arith in
            let fits : ltb (length r.buf') r.n ≡ false = ground (arith, r.size, r.room) in
            (
              h',
              rw (r.step, hash_loop) (rw (more, hash_loop) (rw (fits, hash_loop) e)),
              subst (hasher.Absorbed h')
                  (append_assoc done (take r.n r.buf') (drop r.n content)
                    ∙ ap (λ t. done ++ (t ++ drop r.n content)) r.chunk
                    ∙ ap (λ t. done ++ t) (take-append-drop r.n content))
                  k,
            )
        | inr (z, e) ↦
            let none_left : (r.n == 0) ≡ true = ground arith in
            (
              h,
              rw (r.step, hash_loop) (rw (none_left, hash_loop) refl),
              subst (hasher.Absorbed h) (sym (append-nil done) ∙ ap (λ t. done ++ t) (sym e))
                  absorbed,
            )
      ]

  -- The digest of a proving key's file is the SHA-256 of its content, however long the reads are; one
  -- read more than there are bytes is enough.
  pub proving_key_sha256_lem :
      (fuel : ℕ) (disk : Files.Disk fs) (path content : Bytes) (handle : Files.File fs)
      → fs.open_file disk path ≡ ok handle
      → io.Holds handle content
      → length content < fuel
      → proving_key_sha256 fs sha fuel disk path ≡ some (ok (sha256 content))
  unfolding proving_key_sha256
  proving_key_sha256_lem fuel disk path content handle opened holds lt =
      let (h, e, absorbed) =
        hash_loop-ends fuel handle sha.new (zeros (64 * 1024)) [] content
          (omega (arith, length-zeros (64 * 1024))) holds hasher.at_new lt in
      rw (opened, proving_key_sha256)
        (rw (e, proving_key_sha256) (ap (λ t. some (ok t)) (hasher.at_finalize h content absorbed)))
