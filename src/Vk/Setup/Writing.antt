-- ===== src/Vk/Setup/Writing.antt =====
-- The end of both key generators, which make the output directory and write the source file.
use groth16_solana.Prelude.{◌≡◌, ap, Result, ok, err, map_err}
use groth16_solana.Prelude.Bytes.{Bytes}
use groth16_solana.Vk.Setup.ProvingKey.{Files, IoError, write_source}

-- Paths at which a write succeeds, whatever the content, and is seen by the next read.
abbrev pub IsWritableAt : (fs : Files) → Files.Disk fs → Bytes → Type 0
IsWritableAt fs disk path =
    (content : Bytes)
    → (disk' : Files.Disk fs) × (fs.write path content disk ≡ (ok tt, disk'))
      × (fs.read disk' path ≡ ok content)

module _ (fs : Files) {E : Type 0} (from_io : IoError → E) where
  pub write_source_lem :
      (output_dir output_filename rust : Bytes) (disk disk1 disk2 : Files.Disk fs)
      → fs.create_dir_all output_dir disk ≡ (ok tt, disk1)
      → fs.write (fs.join output_dir output_filename) rust disk1 ≡ (ok tt, disk2)
      → write_source fs from_io output_dir output_filename rust disk ≡ (ok tt, disk2)
  unfolding write_source
  write_source_lem output_dir output_filename rust disk disk1 disk2 created written =
      rw (ap (λ p. p.0) created, write_source)
        (rw (ap (λ p. p.1) created) (ap (λ p. (map_err from_io p.0, p.1)) written))

  -- What fails is an access to the disk.
  pub write_source-err :
      (output_dir output_filename rust : Bytes) (disk : Files.Disk fs) {e : E}
      → (write_source fs from_io output_dir output_filename rust disk).0 ≡ err e
      → (x : IoError) × (e ≡ from_io x)
  unfolding write_source
  write_source-err output_dir output_filename rust disk {e} =
      let (created, disk') = fs.create_dir_all output_dir disk in
      after created disk' (fs.write (fs.join output_dir output_filename) rust disk')
    where
      failed :
          (r : Result IoError (Unit {0}))
          → map_err from_io r ≡ err e
          → (x : IoError) × (e ≡ from_io x)
      failed (ok done) h = absurd cc
      failed (err x) h = (x, cc)

      after :
          (created : Result IoError (Unit {0})) (disk' : Files.Disk fs)
          (r : Result IoError (Unit {0}) × Files.Disk fs)
          → (elim created as (λ c. Result E (Unit {0}) × Files.Disk fs) [
            | err x ↦ (err (from_io x), disk')
            | ok done ↦ (map_err from_io r.0, r.1)
          ]).0
            ≡ err e
          → (x : IoError) × (e ≡ from_io x)
      after (err x) disk' r h = (x, cc)
      after (ok done) disk' r h = failed r.0 h
