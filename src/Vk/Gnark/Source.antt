-- ===== src/Vk/Gnark/Source.antt =====
-- src/vk/gnark.rs: the Rust source of a parsed key, and the file that holds it.
use groth16_solana.Prelude.{
  ℕ, ◌&&◌, Option, none, some, List, [], ◌∷◌, ◌++◌, Result, ok, err, ◌>>=◌, ◌>>◌, map_err,
  reject_if,
}
use groth16_solana.Prelude.Bytes.{Bytes}
use groth16_solana.Errors.{Groth16Error, forgeable_production_vk, bsb22_vk_file_io_failed}
use groth16_solana.Groth16.{CommitmentVerifyingKey}
use groth16_solana.Vk.Gnark.{Groth16VerifyingkeyOwned, parse_gnark_vk_bytes}
use groth16_solana.Vk.Setup.{SetupKind, delta_equals_gamma}
use groth16_solana.Vk.Setup.Text.{ascii}
use groth16_solana.Vk.Setup.ProvingKey.{
  Sha256, Files, ProvingKeySource, source_sha256, write_source,
}
use groth16_solana.Vk.Setup.Metadata.{is_production, header_warning, metadata_rust_source}
use groth16_solana.Vk.Source.{Piece, lit, put_name, put_number, put_bytes, put_rows, push_pieces}

-- The import of the types that the const uses.
unfoldable pub imports : Option CommitmentVerifyingKey → Bytes
imports (some key) =
    ascii "use groth16_solana::groth16::{CommitmentVerifyingKey, Groth16Verifyingkey};\n\n"
imports none = ascii "use groth16_solana::groth16::Groth16Verifyingkey;\n\n"

-- What the pushes in front of the metadata put into `out`, the commitment's field first.
unfoldable pub commitment_pieces : Option CommitmentVerifyingKey → List Piece
commitment_pieces (some key) =
    lit (ascii "    vk_commitment: Some(CommitmentVerifyingKey {\n")
    ∷ lit (ascii "        g2: [")
    ∷ put_bytes key.g2 (ascii "],\n")
    ∷ lit (ascii "        g_sigma_neg_g2: [")
    ∷ put_bytes key.g_sigma_neg_g2 (ascii "],\n")
    ∷ lit (ascii "    }),\n")
    ∷ lit (ascii "};\n")
    ∷ []
commitment_pieces none = lit (ascii "    vk_commitment: None,\n") ∷ lit (ascii "};\n") ∷ []

unfoldable pub vk_pieces : Groth16VerifyingkeyOwned → Bytes → SetupKind → List Piece
vk_pieces vk const_name setup =
    lit (ascii "// This file is generated by groth16_solana::vk::gnark.\n")
    ∷ lit (ascii "// Do not edit by hand.\n\n")
    ∷ lit (header_warning setup)
    ∷ lit (imports vk.vk_commitment)
    ∷ lit (ascii "static ")
    ∷ put_name const_name (ascii "_VK_IC: &[[u8; 64]] = &[\n")
    ∷ put_rows (ascii "    [") (ascii "],\n") vk.vk_ic (ascii "];\n\n")
    ∷ lit (ascii "pub const ")
    ∷ put_name const_name (ascii ": Groth16Verifyingkey = Groth16Verifyingkey {\n")
    ∷ lit (ascii "    nr_pubinputs: ")
    ∷ put_number vk.nr_pubinputs (ascii ",\n")
    ∷ lit (ascii "    vk_alpha_g1: [")
    ∷ put_bytes vk.vk_alpha_g1 (ascii "],\n")
    ∷ lit (ascii "    vk_beta_g2: [")
    ∷ put_bytes vk.vk_beta_g2 (ascii "],\n")
    ∷ lit (ascii "    vk_gamma_g2: [")
    ∷ put_bytes vk.vk_gamma_g2 (ascii "],\n")
    ∷ lit (ascii "    vk_delta_g2: [")
    ∷ put_bytes vk.vk_delta_g2 (ascii "],\n")
    ∷ lit (ascii "    vk_ic: ")
    ∷ put_name const_name (ascii "_VK_IC,\n")
    ∷ commitment_pieces vk.vk_commitment

unfoldable pub vk_source : Groth16VerifyingkeyOwned → Bytes → SetupKind → Bytes
vk_source vk const_name setup = push_pieces (vk_pieces vk const_name setup)

unfoldable pub bsb22_vk_to_rust_const :
    Sha256 → Groth16VerifyingkeyOwned → Bytes → SetupKind → Bytes → Result Groth16Error Bytes
bsb22_vk_to_rust_const sha vk const_name setup proving_key_sha256 = do
  reject_if (is_production setup && delta_equals_gamma vk.vk_gamma_g2 vk.vk_delta_g2)
      forgeable_production_vk
  let out = vk_source vk const_name setup
  ok (out ++ metadata_rust_source sha out const_name setup proving_key_sha256)

module _ (fs : Files) (sha : Sha256) where
  -- The fuel is for the reads of the proving key; `none` if it runs out.
  unfoldable pub generate_bsb22_vk_file :
      ℕ
      → Bytes
      → Bytes
      → Bytes
      → Bytes
      → SetupKind
      → ProvingKeySource
      → Files.Disk fs
      → Option (Result Groth16Error (Unit {0}) × Files.Disk fs)
  generate_bsb22_vk_file fuel input_path output_dir output_filename const_name setup proving_key
        disk =
      elim (map_err (λ e. bsb22_vk_file_io_failed) (fs.read disk input_path)
        >>= parse_gnark_vk_bytes) [
          | err e ↦ some (err e, disk)
          | ok vk ↦ elim (source_sha256 fs sha fuel disk proving_key) [
            | none ↦ none
            | some (err e) ↦ some (err bsb22_vk_file_io_failed, disk)
            | some (ok digest) ↦ elim (bsb22_vk_to_rust_const sha vk const_name setup digest) [
              | err e ↦ some (err e, disk)
              | ok rust ↦ some (
                  write_source fs (λ e. bsb22_vk_file_io_failed) output_dir output_filename rust
                    disk)
            ]
          ]
        ]
