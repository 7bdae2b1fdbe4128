-- ===== src/Vk/Setup/Deployed.antt =====
-- The marker of src/vk/setup.rs, from the generator through the generated file and the program binary to
-- the search that reads it back.
use groth16_solana.Prelude.{
  some_injective, ◌≡◌, refl, ◌∙◌, ap, sym, some, [], ◌∷◌, ◌++◌, ok, ok_injective, arith, All,
}
use groth16_solana.Prelude.Bytes.{Bytes, IsByte, IsArray}
use groth16_solana.Vk.Setup.{SetupKind, SetupTxt, setup_txt_begin, to_marker, find_setup_txts}
use groth16_solana.Vk.Setup.ProvingKey.{Sha256}
use groth16_solana.Vk.Setup.Metadata.{is_insecure, setup_text, metadata_rust_source}
use groth16_solana.Vk.Setup.ReadBack.{Metadata, read_metadata}
use groth16_solana.Vk.Setup.Emitted.{metadata_of, read_metadata-metadata_rust_source}
use groth16_solana.Vk.Setup.Body.{IsNameByte}
use groth16_solana.Vk.Setup.Find.{IsFree, IsAbsent, image, find_setup_txts-image}
use groth16_solana.Vk.Source.Lexer.{start, lex, IsWordByte}
use groth16_solana.Vk.Source.Pieces.{IsName}

name_bytes : (w : Bytes) → All IsWordByte w → All IsNameByte w
name_bytes [] h = tt
name_bytes (c ∷ cs) (hc, h) = (ground arith, name_bytes cs h)

one_marker :
    (before : Bytes) (txt : SetupTxt) (after : Bytes)
    → before ++ (to_marker txt ++ after) ≡ image ((before, txt) ∷ []) after
unfolding image
one_marker before txt after = refl

module _ (const_name : Bytes) (n : IsName const_name) (setup : SetupKind) (digest : Bytes)
    (d : IsArray 32 digest) where
  found :
      (before after : Bytes)
      → IsFree setup_txt_begin before
      → IsAbsent setup_txt_begin after
      → find_setup_txts (before ++ (to_marker (setup_text const_name setup digest) ++ after))
        ≡ some (ok (setup_text const_name setup digest ∷ []))
  found before after hb ha =
      ap find_setup_txts (one_marker before _ after)
      ∙ find_setup_txts-image ((before, setup_text const_name setup digest) ∷ []) after (record {
        gaps = (hb, tt);
        writable = (record { name = name_bytes const_name n.bytes; digest = d }, tt);
        end_gap = ha;
      })

  -- The string that the compiler reads from a generated file and puts into a program binary, between
  -- other bytes among which no further opening delimiter starts, is found there, and says the const's
  -- name, the kind of the setup and the digest.
  pub find_setup_txts-metadata_rust_source :
      (sha : Sha256)
      → ((h : Sha256.Hasher sha) → All IsByte (sha.finalize h))
      → (vk_source : Bytes) (m : Metadata) (text before after : Bytes)
      → read_metadata (lex start (metadata_rust_source sha vk_source const_name setup digest))
        ≡ ok m
      → m.text ≡ some text
      → IsFree setup_txt_begin before
      → IsAbsent setup_txt_begin after
      → find_setup_txts (before ++ (text ++ after))
        ≡ some (
            ok (
              record {
                name = const_name;
                insecure_test_setup = is_insecure setup;
                proving_key_sha256 = digest;
              }
              ∷ []))
  find_setup_txts-metadata_rust_source sha hashes vk_source m text before after e t hb ha =
      let same : m ≡ metadata_of const_name n setup digest d sha hashes vk_source = ok_injective (
        sym e
        ∙ read_metadata-metadata_rust_source const_name n setup digest d sha hashes vk_source) in
      let marker : text ≡ to_marker (setup_text const_name setup digest) =
        some_injective (sym t ∙ ap (λ m. m.text) same) in
      ap (λ t. find_setup_txts (before ++ (t ++ after))) marker ∙ found before after hb ha
