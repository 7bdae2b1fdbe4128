-- ===== src/Vk/Circom/Generate.antt =====
-- `generate_vk_file` of src/vk/circom.rs, from the JSON file to the generated source file.
use groth16_solana.Prelude.{
  ℕ, ◌^◌, ◌<◌, ◌≡◌, refl, ap, true, false, ◌&&◌, some, ok, err, ◌⊎◌, inl, inr, length, All,
}
use groth16_solana.Prelude.Bytes.{Bytes, IsByte, IsArray}
use groth16_solana.Vk.Setup.{SetupKind, delta_equals_gamma}
use groth16_solana.Vk.Setup.Metadata.{is_production}
use groth16_solana.Vk.Setup.ProvingKey.{Sha256, Files, ProvingKeySource, source_sha256}
use groth16_solana.Vk.Setup.Writing.{IsWritableAt, write_source_lem}
use groth16_solana.Vk.Circom.{
  Libraries, VkParseError, io_error, forgeable_production_vk, generate_vk_file,
}
use groth16_solana.Vk.Circom.Values.{IsBigUint}
use groth16_solana.Vk.Circom.Points.{CircomKey, IsCircomKey, IsPrint, g2_be, json_key}
use groth16_solana.Vk.Circom.Read.{Declares, parse_vk_json_to_rust_string_lem}

module _ (fs : Files) (lib : Libraries) (big : IsBigUint lib) (print : ℕ → Bytes)
    (prints : IsPrint lib print) (sha : Sha256)
    (hashes : (h : Sha256.Hasher sha) → All IsByte (sha.finalize h)) (setup : SetupKind)
    (digest : Bytes) (d : IsArray 32 digest) where
  -- Refused as forgeable with the disk unchanged, or a source file that declares the key.
  abbrev pub Generates :
      ℕ → Bytes → Bytes → Bytes → ProvingKeySource → Files.Disk fs → CircomKey → Type 0
  Generates fuel json_path output_dir output_filename proving_key disk key =
      ((is_production setup && delta_equals_gamma (g2_be key.gamma) (g2_be key.delta)) ≡ true)
        × (generate_vk_file fs lib sha fuel json_path output_dir output_filename setup proving_key
              disk
            ≡ some (err forgeable_production_vk, disk))
      ⊎ ((is_production setup && delta_equals_gamma (g2_be key.gamma) (g2_be key.delta)) ≡ false)
        × ((rust : Bytes) × (disk' : Files.Disk fs) × (generate_vk_file fs lib sha fuel json_path
                output_dir output_filename setup proving_key disk
              ≡ some (ok tt, disk'))
            × (fs.read disk' (fs.join output_dir output_filename) ≡ ok rust)
            × Declares lib big print prints sha hashes setup digest d rust key)

  -- From the JSON file of a key with coordinates below 2^256, a digest of the zkey, and a directory that
  -- can be made and written to, the generator makes a source file that declares the key; only a
  -- production key whose delta is its gamma is refused, as forgeable, and then the disk is unchanged.
  pub generate_vk_file_lem :
      (fuel : ℕ) (json_path output_dir output_filename : Bytes) (proving_key : ProvingKeySource)
      (disk disk1 : Files.Disk fs) (json_content : Bytes) (key : CircomKey)
      → fs.read_to_string disk json_path ≡ ok json_content
      → lib.from_json json_content ≡ ok (json_key print key)
      → IsCircomKey key
      → length key.ics < 2 ^ 64
      → source_sha256 fs sha fuel disk proving_key ≡ some (ok digest)
      → fs.create_dir_all output_dir disk ≡ (ok tt, disk1)
      → IsWritableAt fs disk1 (fs.join output_dir output_filename)
      → Generates fuel json_path output_dir output_filename proving_key disk key
  unfolding generate_vk_file
  generate_vk_file_lem fuel json_path output_dir output_filename proving_key disk disk1 json_content
        key found json k small hashed created writable =
      elim (parse_vk_json_to_rust_string_lem lib big print prints sha hashes setup digest d
        json_content key json k small) [
          | inl (same, e) ↦ inl (
            same,
            rw (found, generate_vk_file)
                (rw (hashed, generate_vk_file) (rw (e, generate_vk_file) refl)),
          )
          | inr (other, (rust, e, declared)) ↦
              let (disk', written, there) = writable rust in
              let done =
                write_source_lem fs {E = VkParseError} io_error output_dir output_filename rust disk
                  disk1 disk' created written in
              inr (
                other,
                (
                  rust,
                  disk',
                  rw (found, generate_vk_file)
                      (rw (hashed, generate_vk_file) (rw (e, generate_vk_file) (ap some done))),
                  there,
                  declared,
                ),
              )
        ]
