-- ===== src/Vk/Gnark/Generate.antt =====
-- `generate_bsb22_vk_file` of src/vk/gnark.rs, from the key file to the generated source file.
use groth16_solana.Prelude.{
  some_injective, none-some, sym, ◌∙◌, Result-cases, Option-cases, >>=-eq-ok, reject_if-eq-ok,
  ok_injective, ℕ, ◌^◌, ◌<◌, ◌≡◌, refl, ap, true, false, ◌&&◌, Option, some, ◌⊎◌, inl, inr, Result,
  ok, err, ◌>>=◌, map_err, length, All,
}
use groth16_solana.Prelude.Bytes.{Bytes, IsByte, IsArray}
use groth16_solana.Errors.{Groth16Error, forgeable_production_vk, bsb22_vk_file_io_failed}
use groth16_solana.Vk.Setup.{SetupKind, delta_equals_gamma}
use groth16_solana.Vk.Setup.Metadata.{is_production}
use groth16_solana.Vk.Setup.ProvingKey.{
  Sha256, Files, IoError, ProvingKeySource, source_sha256, write_source,
}
use groth16_solana.Vk.Setup.Writing.{IsWritableAt, write_source_lem}
use groth16_solana.Vk.Source.Pieces.{IsName}
use groth16_solana.Vk.Gnark.{Groth16VerifyingkeyOwned, parse_gnark_vk_bytes}
use groth16_solana.Vk.Gnark.Source.{bsb22_vk_to_rust_const, generate_bsb22_vk_file}
use groth16_solana.Vk.Gnark.Emitted.{Declares, bsb22_vk_to_rust_const_lem}
use groth16_solana.Vk.Gnark.Typed.{parse_gnark_vk_bytes-IsTyped}

module _ (fs : Files) (sha : Sha256)
    (hashes : (h : Sha256.Hasher sha) → All IsByte (sha.finalize h)) (const_name : Bytes)
    (n : IsName const_name) (setup : SetupKind) (digest : Bytes) (d : IsArray 32 digest) where
  -- Refused as forgeable with the disk unchanged, or a source file that declares the key.
  abbrev pub Generates :
      ℕ
      → Bytes
      → Bytes
      → Bytes
      → ProvingKeySource
      → Files.Disk fs
      → Groth16VerifyingkeyOwned
      → Type 0
  Generates fuel input_path output_dir output_filename proving_key disk vk =
      ((is_production setup && delta_equals_gamma vk.vk_gamma_g2 vk.vk_delta_g2) ≡ true)
        × (generate_bsb22_vk_file fs sha fuel input_path output_dir output_filename const_name setup
              proving_key disk
            ≡ some (err forgeable_production_vk, disk))
      ⊎ ((is_production setup && delta_equals_gamma vk.vk_gamma_g2 vk.vk_delta_g2) ≡ false)
        × ((rust : Bytes) × (disk' : Files.Disk fs) × (generate_bsb22_vk_file fs sha fuel input_path
                output_dir output_filename const_name setup proving_key disk
              ≡ some (ok tt, disk'))
            × (fs.read disk' (fs.join output_dir output_filename) ≡ ok rust)
            × Declares sha hashes const_name n setup digest d rust vk)

  -- From a key file that the parser accepts, a digest of the proving key, and a directory that can be
  -- made and written to, the generator makes a source file that declares exactly the parsed key; only a
  -- production key whose delta is its gamma is refused, as forgeable, and then the disk is unchanged.
  pub generate_bsb22_vk_file_lem :
      (fuel : ℕ) (input_path output_dir output_filename : Bytes) (proving_key : ProvingKeySource)
      (disk disk1 : Files.Disk fs) (bytes : Bytes) (vk : Groth16VerifyingkeyOwned)
      → fs.read disk input_path ≡ ok bytes
      → All IsByte bytes
      → length bytes < 2 ^ 64
      → parse_gnark_vk_bytes bytes ≡ ok vk
      → source_sha256 fs sha fuel disk proving_key ≡ some (ok digest)
      → fs.create_dir_all output_dir disk ≡ (ok tt, disk1)
      → IsWritableAt fs disk1 (fs.join output_dir output_filename)
      → Generates fuel input_path output_dir output_filename proving_key disk vk
  unfolding generate_bsb22_vk_file
  generate_bsb22_vk_file_lem fuel input_path output_dir output_filename proving_key disk disk1 bytes
        vk found h small parsed hashed created writable =
      elim (bsb22_vk_to_rust_const_lem sha hashes const_name n setup digest d vk
        (parse_gnark_vk_bytes-IsTyped bytes h small parsed)) [
          | inl (same, e) ↦ inl (
            same,
            rw (found, generate_bsb22_vk_file)
                (rw (parsed, generate_bsb22_vk_file)
                  (rw (hashed, generate_bsb22_vk_file) (rw (e, generate_bsb22_vk_file) refl))),
          )
          | inr (other, (rust, e, declared)) ↦
              let (disk', written, there) = writable rust in
              inr (
                other,
                (
                  rust,
                  disk',
                  rw (found, generate_bsb22_vk_file)
                      (rw (parsed, generate_bsb22_vk_file)
                        (rw (hashed, generate_bsb22_vk_file)
                          (rw (e, generate_bsb22_vk_file)
                            (ap some (
                              write_source_lem fs {E = Groth16Error} (λ e. bsb22_vk_file_io_failed)
                                output_dir output_filename rust disk disk1 disk' created
                                written))))),
                  there,
                  declared,
                ),
              )
        ]

read_ok :
    (m : Result IoError Bytes) {bytes : Bytes}
    → map_err (λ _. bsb22_vk_file_io_failed) m ≡ ok bytes
    → m ≡ ok bytes
read_ok (ok bs) h = ap ok (ok_injective h)
read_ok (err e) h = absurd cc

not_forgeable :
    (sha : Sha256) (vk : Groth16VerifyingkeyOwned) (const_name : Bytes) (setup : SetupKind)
    (digest : Bytes) {rust : Bytes}
    → bsb22_vk_to_rust_const sha vk const_name setup digest ≡ ok rust
    → (is_production setup && delta_equals_gamma vk.vk_gamma_g2 vk.vk_delta_g2) ≡ false
unfolding bsb22_vk_to_rust_const
not_forgeable sha vk const_name setup digest h =
    (reject_if-eq-ok (is_production setup && delta_equals_gamma vk.vk_gamma_g2 vk.vk_delta_g2) _ _
      h).0

module _ (fs : Files) (sha : Sha256) (fuel : ℕ)
    (input_path output_dir output_filename const_name : Bytes) (setup : SetupKind)
    (proving_key : ProvingKeySource) (disk : Files.Disk fs) where
  abbrev run : Option (Result Groth16Error (Unit {0}) × Files.Disk fs)
  run =
      generate_bsb22_vk_file fs sha fuel input_path output_dir output_filename const_name setup
        proving_key disk

  -- What stands before a write: the key file was read and parsed, the proving key was hashed, and the key
  -- is not forgeable.
  pub record IsAccepted (vk : Groth16VerifyingkeyOwned) (digest rust : Bytes) : Type 0 where
    pub bytes : Bytes
    pub found : fs.read disk input_path ≡ ok bytes
    pub parsed : parse_gnark_vk_bytes bytes ≡ ok vk
    pub hashed : source_sha256 fs sha fuel disk proving_key ≡ some (ok digest)
    pub sound : (is_production setup && delta_equals_gamma vk.vk_gamma_g2 vk.vk_delta_g2) ≡ false
    pub source : bsb22_vk_to_rust_const sha vk const_name setup digest ≡ ok rust

  -- An error with the disk as it was, or the write of an accepted key's source.
  abbrev pub Outcome : Result Groth16Error (Unit {0}) → Files.Disk fs → Type 0
  Outcome r disk' =
      ((e : Groth16Error) × (r ≡ err e) × (disk' ≡ disk))
      ⊎ ((vk : Groth16VerifyingkeyOwned) × (digest : Bytes) × (rust : Bytes) × IsAccepted vk digest
            rust
          × (write_source fs (λ e. bsb22_vk_file_io_failed) output_dir output_filename rust disk
              ≡ (r, disk')))

  module _ {r : Result Groth16Error (Unit {0})} {disk' : Files.Disk fs}
      (h : run ≡ some (r, disk')) where
    unchanged : (e : Groth16Error) → run ≡ some (err e, disk) → Outcome r disk'
    unchanged e k =
        let same = some_injective (sym k ∙ h) in
        inl (e, sym (ap (λ p. p.0) same), sym (ap (λ p. p.1) same))

    emitted :
        (vk : Groth16VerifyingkeyOwned) (digest : Bytes)
        → map_err (λ e. bsb22_vk_file_io_failed) (fs.read disk input_path) >>= parse_gnark_vk_bytes
          ≡ ok vk
        → source_sha256 fs sha fuel disk proving_key ≡ some (ok digest)
        → Outcome r disk'
    unfolding generate_bsb22_vk_file
    emitted vk digest e d =
        elim (Result-cases (bsb22_vk_to_rust_const sha vk const_name setup digest)) [
          | inl (rust, s) ↦
              let (bytes, found, parsed) = >>=-eq-ok _ parse_gnark_vk_bytes e in
              inr (
                vk,
                digest,
                rust,
                record {
                  bytes = bytes;
                  found = read_ok (fs.read disk input_path) found;
                  parsed = parsed;
                  hashed = d;
                  sound = not_forgeable sha vk const_name setup digest s;
                  source = s;
                },
                some_injective (
                    sym (
                      rw (e, generate_bsb22_vk_file)
                        (rw (d, generate_bsb22_vk_file) (rw (s, generate_bsb22_vk_file) refl)))
                    ∙ h),
              )
          | inr (x, s) ↦ unchanged x (
              rw (e, generate_bsb22_vk_file)
                (rw (d, generate_bsb22_vk_file) (rw (s, generate_bsb22_vk_file) refl)))
        ]

    hashed_key :
        (vk : Groth16VerifyingkeyOwned)
        → map_err (λ e. bsb22_vk_file_io_failed) (fs.read disk input_path) >>= parse_gnark_vk_bytes
          ≡ ok vk
        → Outcome r disk'
    unfolding generate_bsb22_vk_file
    hashed_key vk e = elim (Option-cases (source_sha256 fs sha fuel disk proving_key)) [
      | inl d ↦ absurd (
          none-some
            (sym (rw (e, generate_bsb22_vk_file) (rw (d, generate_bsb22_vk_file) refl)) ∙ h))
      | inr (hash, d) ↦ elim (Result-cases hash) [
        | inl (digest, k) ↦ emitted vk digest e (d ∙ ap some k)
        | inr (x, k) ↦
            unchanged bsb22_vk_file_io_failed
              (rw (e, generate_bsb22_vk_file) (rw (d ∙ ap some k, generate_bsb22_vk_file) refl))
      ]
    ]

    -- Whatever the files are, a run that ends either answers with an error and leaves the disk as it was,
    -- or the key file was read and parsed, the proving key was hashed, the key is not forgeable, and the
    -- rest of the run is the write of the key's source, with its answer. So a refused key file and a
    -- forgeable production key make no output file and no success.
    pub generate_bsb22_vk_file-refuses : Outcome r disk'
    unfolding generate_bsb22_vk_file
    generate_bsb22_vk_file-refuses =
        elim (Result-cases (
          map_err (λ e. bsb22_vk_file_io_failed) (fs.read disk input_path)
          >>= parse_gnark_vk_bytes)) [
            | inl (vk, e) ↦ hashed_key vk e
            | inr (x, e) ↦ unchanged x (rw (e, generate_bsb22_vk_file) refl)
          ]
