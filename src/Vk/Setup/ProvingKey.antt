-- ===== src/Vk/Setup/ProvingKey.antt =====
-- The digest of the proving key in src/vk/setup.rs. The files of the standard library and the hasher
-- of the crate sha2 are parameters.
use groth16_solana.Prelude.{
  ℕ, zero, suc, ◌*◌, true, false, Option, none, some, Result, ok, err, map_err, length, take, ltb,
  ◌==◌, if◌then◌else◌,
}
use groth16_solana.Prelude.Bytes.{Bytes}
use groth16_solana.Prelude.Buffer.{zeros}

-- `Sha256` of the crate sha2, with the methods of its trait `Digest`.
pub record Sha256 : Type 1 where
  pub Hasher : Type 0
  pub new : Hasher
  pub update : Hasher → Bytes → Hasher
  pub finalize : Hasher → Bytes

-- `io::Error`: one that the system reports, or one that the source makes.
pub data IoError : Type 0 where
  os_error : ℕ → IoError
  invalid_data : IoError

-- `std::fs` on a disk. `read_buf` is `Read::read` of an open file: the number of bytes, the buffer
-- and the file behind it. Paths are byte strings.
pub record Files : Type 1 where
  pub Disk : Type 0
  pub File : Type 0
  pub open_file : Disk → Bytes → Result IoError File
  pub read_buf : File → Bytes → Result IoError (ℕ × Bytes × File)
  pub read : Disk → Bytes → Result IoError Bytes
  pub read_to_string : Disk → Bytes → Result IoError Bytes
  pub create_dir_all : Bytes → Disk → Result IoError (Unit {0}) × Disk
  pub join : Bytes → Bytes → Bytes
  pub write : Bytes → Bytes → Disk → Result IoError (Unit {0}) × Disk

pub data ProvingKeySource : Type 0 where
  file : Bytes → ProvingKeySource
  sha256_of : Bytes → ProvingKeySource

-- `buf.get(..n)`
abbrev pub get_prefix : ℕ → Bytes → Option Bytes
get_prefix n buf = if ltb (length buf) n then none else some (take n buf)

module _ (fs : Files) (sha : Sha256) where
  -- The `loop`, each round with a unit of fuel; `none` if the fuel runs out.
  unfoldable pub hash_loop :
      ℕ → Files.File fs → Sha256.Hasher sha → Bytes → Option (Result IoError (Sha256.Hasher sha))
  hash_loop zero handle hasher buf = none
  hash_loop (suc fuel) handle hasher buf = elim (fs.read_buf handle buf) [
    | err e ↦ some (err e)
    | ok (n, buf', handle') ↦ elim (n == 0) [
      | true ↦ some (ok hasher)
      | false ↦ elim (get_prefix n buf') [
        | none ↦ some (err invalid_data)
        | some chunk ↦ hash_loop fuel handle' (sha.update hasher chunk) buf'
      ]
    ]
  ]

  unfoldable pub proving_key_sha256 : ℕ → Files.Disk fs → Bytes → Option (Result IoError Bytes)
  proving_key_sha256 fuel disk path = elim (fs.open_file disk path) [
    | err e ↦ some (err e)
    | ok handle ↦ elim (hash_loop fuel handle sha.new (zeros (64 * 1024))) [
      | none ↦ none
      | some (err e) ↦ some (err e)
      | some (ok hasher) ↦ some (ok (sha.finalize hasher))
    ]
  ]

  -- `ProvingKeySource::sha256`
  unfoldable pub source_sha256 :
      ℕ → Files.Disk fs → ProvingKeySource → Option (Result IoError Bytes)
  source_sha256 fuel disk (file path) = proving_key_sha256 fuel disk path
  source_sha256 fuel disk (sha256_of digest) = some (ok digest)

module _ (fs : Files) where
  -- `create_dir_all` of the directory and, if that succeeds, `write` of the file.
  unfoldable pub write_source :
      {E : Type 0}
      → (IoError → E)
      → Bytes
      → Bytes
      → Bytes
      → Files.Disk fs
      → Result E (Unit {0}) × Files.Disk fs
  write_source from_io output_dir output_filename rust disk =
      let (created, disk') = fs.create_dir_all output_dir disk in
      elim created [
        | err e ↦ (err (from_io e), disk')
        | ok done ↦
            let (written, disk'') = fs.write (fs.join output_dir output_filename) rust disk' in
            (map_err from_io written, disk'')
      ]
