-- ===== src/Vk/Setup/Metadata.antt =====
-- The Rust source in src/vk/setup.rs that tells of a key's setup: the warning in front of a generated
-- key, and the consts, the exported text and the compile guard behind it.
use groth16_solana.Prelude.{
  Bool, true, false, List, [], ◌∷◌, ◌++◌, length, take, ltb, ◌==◌, if◌then◌else◌,
}
use groth16_solana.Prelude.Bytes.{Bytes}
use groth16_solana.Vk.Setup.{
  SetupKind, insecure_test, production, SetupTxt, to_hex, to_marker, bool_text,
}
use groth16_solana.Vk.Setup.Text.{ascii}
use groth16_solana.Vk.Setup.ProvingKey.{Sha256}
use groth16_solana.Vk.Source.{Piece, lit, put_name, put_bytes, put_quoted, push_pieces}

unfoldable pub header_warning : SetupKind → Bytes
header_warning insecure_test =
    ascii "// INSECURE TEST SETUP: the secret setup randomness is public or\n"
    ++ (ascii "// untrusted. Whoever knows it can make this verifying key accept a\n"
        ++ (ascii "// proof for any public inputs without a valid witness. Do not deploy\n"
            ++ ascii "// it to devnet or mainnet.\n\n"))
header_warning production = []

-- `setup == SetupKind::InsecureTest`
abbrev pub is_insecure : SetupKind → Bool
is_insecure insecure_test = true
is_insecure production = false

-- `setup == SetupKind::Production`
abbrev pub is_production : SetupKind → Bool
is_production insecure_test = false
is_production production = true

-- `marker.replace('\0', "\\x00")`
unfoldable pub replace_nul : Bytes → Bytes
replace_nul [] = []
replace_nul (b ∷ bs) = (if b == 0 then ascii "\\x00" else b ∷ []) ++ replace_nul bs

abbrev pub setup_text : Bytes → SetupKind → Bytes → SetupTxt
setup_text const_name setup proving_key_sha256 = record {
  name = const_name;
  insecure_test_setup = is_insecure setup;
  proving_key_sha256 = proving_key_sha256;
}

-- `symbol_hash.get(..16).unwrap_or(&symbol_hash)`
unfoldable pub symbol_prefix : Bytes → Bytes
symbol_prefix hash = if ltb (length hash) 16 then hash else take 16 hash

-- The name under which the text is exported.
unfoldable pub symbol : Sha256 → Bytes → Bytes → Bytes
symbol sha vk_source marker =
    ascii "groth16_solana_vk_setup_"
    ++ symbol_prefix (to_hex (sha.finalize (sha.update (sha.update sha.new vk_source) marker)))

unfoldable pub compile_guard : Bytes → SetupKind → List Piece
compile_guard const_name insecure_test =
    lit (ascii "\n#[cfg(not(feature = \"insecure-test-setup\"))]\ncompile_error!(")
    ∷ put_quoted
        (const_name
          ++ (ascii " comes from an insecure test setup: whoever knows its "
              ++ (ascii
                    "setup randomness can make it accept a proof for any public inputs. Enable the "
                  ++ (ascii
                        "`insecure-test-setup` feature only in test builds, not for a devnet or mainnet "
                      ++ ascii "deployment."))))
        (ascii ");\n")
    ∷ []
compile_guard const_name production = []

unfoldable pub metadata_pieces : Sha256 → Bytes → Bytes → SetupKind → Bytes → List Piece
metadata_pieces sha vk_source const_name setup proving_key_sha256 =
    let marker = to_marker (setup_text const_name setup proving_key_sha256) in
    lit (ascii "\n/// SHA-256 of the proving key file this verifying key was generated with.\n")
    ∷ lit (ascii "#[allow(dead_code)]\n#[rustfmt::skip]\n")
    ∷ lit (ascii "pub const ")
    ∷ put_name const_name (ascii "_PROVING_KEY_SHA256: [u8; 32] = [")
    ∷ put_bytes proving_key_sha256 (ascii "];\n")
    ∷ lit (ascii "\n/// `true` for a test setup whose secret randomness is public or untrusted:\n")
    ∷ lit (ascii "/// whoever knows it can make this key accept a proof for any public\n")
    ∷ lit (ascii "/// inputs without a valid witness. Must not be deployed to devnet or\n")
    ∷ lit (ascii "/// mainnet.\n")
    ∷ lit (ascii "#[allow(dead_code)]\n")
    ∷ lit (ascii "pub const ")
    ∷ put_name const_name (ascii "_INSECURE_TEST_SETUP: bool = ")
    ∷ put_name (bool_text (is_insecure setup)) (ascii ";\n")
    ∷ lit (ascii "\n/// The two consts above as a delimited string, exported so it stays in\n")
    ∷ lit (ascii "/// the program binary; read it back with\n")
    ∷ lit (ascii "/// `groth16_solana::vk::setup::find_setup_txts`.\n")
    ∷ lit (ascii "#[unsafe(export_name = ")
    ∷ put_quoted (symbol sha vk_source marker) (ascii ")]\n#[rustfmt::skip]\npub static ")
    ∷ put_name const_name (ascii "_SETUP_TXT: &str = ")
    ∷ put_quoted (replace_nul marker) (ascii ";\n")
    ∷ compile_guard const_name setup

unfoldable pub metadata_rust_source : Sha256 → Bytes → Bytes → SetupKind → Bytes → Bytes
metadata_rust_source sha vk_source const_name setup proving_key_sha256 =
    push_pieces (metadata_pieces sha vk_source const_name setup proving_key_sha256)
