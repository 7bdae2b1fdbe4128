-- ===== src/Vk/Setup/Emitted.antt =====
-- The items that src/vk/setup.rs puts behind a generated key say what the generator was told.
use groth16_solana.Prelude.{
  ◌≡◌, refl, ◌∙◌, ap, sym, Bool, true, false, some, List, [], ◌∷◌, ◌++◌, ok, All, All-append,
  All-take, append-nil, ltb, length, Bool-cases, inl, inr,
}
use groth16_solana.Prelude.Bytes.{Bytes, IsByte, IsArray}
use groth16_solana.Prelude.ByteEq.{bytes_eq}
use groth16_solana.Vk.Setup.{
  SetupKind, insecure_test, production, SetupTxt, setup_txt_begin, setup_txt_end, field_name,
  field_insecure_test_setup, field_proving_key_sha256, to_hex, bool_text, body, to_marker,
}
use groth16_solana.Vk.Setup.Text.{ascii}
use groth16_solana.Vk.Setup.ProvingKey.{Sha256}
use groth16_solana.Vk.Setup.Metadata.{
  is_insecure, setup_text, symbol_prefix, symbol, compile_guard, metadata_pieces,
  metadata_rust_source,
}
use groth16_solana.Vk.Setup.ReadBack.{Metadata, read_bool, read_guard, read_metadata}
use groth16_solana.Vk.Source.{push_pieces}
use groth16_solana.Vk.Source.Lexer.{
  Token, word, text, start, lex, emit, mode_after, Adds, IsPlainByte, Adds-plain,
}
use groth16_solana.Vk.Source.Pieces.{IsName, Fits, word_front, behind_word, piece_onto, tokens_onto}
use groth16_solana.Vk.Source.Pieces.Lexed.{lex-push_pieces}
use groth16_solana.Vk.Source.Reader.{expect}
use groth16_solana.Vk.Source.Reads.{read_bytes-list_tokens}
use groth16_solana.Vk.Setup.Escaped.{
  holds, holds-all, is_plain, is_marker_byte, IsMarkerByte, plain_words, marker_bytes, to_hex-plain,
  bool_text-words, Adds-escaped, unescape-replace_nul,
}

symbol_prefix-plain : (h : Bytes) → All IsPlainByte h → All IsPlainByte (symbol_prefix h)
unfolding symbol_prefix
symbol_prefix-plain h k = elim (Bool-cases (ltb (length h) 16)) [
  | inl short ↦ rw short k
  | inr long ↦ rw long (All-take IsPlainByte 16 h k)
]

read_bool-bool_text :
    (b : Bool) (ts : List Token) → read_bool (word (bool_text b ++ []) ∷ ts) ≡ ok (b, ts)
unfolding read_bool bytes_eq
read_bool-bool_text true ts = refl
read_bool-bool_text false ts = refl

read_guard-compile_guard :
    (const_name : Bytes) (setup : SetupKind)
    → read_guard (tokens_onto (compile_guard const_name setup) []) ≡ ok (is_insecure setup)
unfolding read_guard compile_guard tokens_onto piece_onto expect emit bytes_eq
read_guard-compile_guard const_name insecure_test = refl
read_guard-compile_guard const_name production = refl

module _ (const_name : Bytes) (n : IsName const_name) (setup : SetupKind) (digest : Bytes)
    (d : IsArray 32 digest) where
  name_plain : All IsPlainByte const_name
  name_plain = plain_words const_name n.bytes

  marker-marker_bytes : All IsMarkerByte (to_marker (setup_text const_name setup digest))
  unfolding to_marker body
  marker-marker_bytes =
      All-append IsMarkerByte setup_txt_begin (body txt ++ setup_txt_end)
        (holds-all is_marker_byte setup_txt_begin refl)
        (All-append IsMarkerByte (body txt) setup_txt_end in_body
          (holds-all is_marker_byte setup_txt_end refl))
    where
      txt : SetupTxt
      txt = setup_text const_name setup digest

      part :
          (bs rest : Bytes)
          → All IsMarkerByte bs
          → All IsMarkerByte rest
          → All IsMarkerByte (bs ++ (0 ∷ rest))
      part bs rest h r = All-append IsMarkerByte bs (0 ∷ rest) h (refl, r)

      key : (bs : Bytes) → holds is_marker_byte bs ≡ true → All IsMarkerByte bs
      key bs h = holds-all is_marker_byte bs h

      in_body : All IsMarkerByte (body txt)
      in_body = part field_name _ (key field_name refl) (
          part const_name _ (marker_bytes const_name name_plain) (
            part field_insecure_test_setup _ (key field_insecure_test_setup refl) (
              part (bool_text (is_insecure setup)) _
                (marker_bytes (bool_text (is_insecure setup)) (
                  plain_words (bool_text (is_insecure setup))
                    (bool_text-words (is_insecure setup)).bytes))
                (part field_proving_key_sha256 _ (key field_proving_key_sha256 refl) (
                  part (to_hex digest) []
                    (marker_bytes (to_hex digest) (to_hex-plain digest d.bytes)) tt)))))

  abbrev guard_text : Bytes
  guard_text =
      ascii " comes from an insecure test setup: whoever knows its "
      ++ (ascii "setup randomness can make it accept a proof for any public inputs. Enable the "
          ++ (ascii
                "`insecure-test-setup` feature only in test builds, not for a devnet or mainnet "
              ++ ascii "deployment."))

  quoted_plain : (raw : Bytes) → All IsPlainByte raw → Adds (text []) raw [] (text raw)
  quoted_plain raw h = Adds-plain [] raw h

  Fits-guard : (setup : SetupKind) → All Fits (compile_guard const_name setup)
  unfolding compile_guard Fits mode_after
  Fits-guard production = tt
  Fits-guard insecure_test = (
    refl,
    (
      (
        quoted_plain (const_name ++ guard_text) (
            All-append IsPlainByte const_name guard_text name_plain
              (holds-all is_plain guard_text refl)),
        refl,
      ),
      tt,
    ),
  )

  module _ (sha : Sha256) (hashes : (h : Sha256.Hasher sha) → All IsByte (sha.finalize h))
      (vk_source : Bytes) where
    symbol_plain :
        All IsPlainByte (symbol sha vk_source (to_marker (setup_text const_name setup digest)))
    unfolding symbol
    symbol_plain =
        All-append IsPlainByte (ascii "groth16_solana_vk_setup_") _
          (holds-all is_plain (ascii "groth16_solana_vk_setup_") refl)
          (symbol_prefix-plain _ (to_hex-plain _ (hashes _)))

    Fits-metadata : All Fits (metadata_pieces sha vk_source const_name setup digest)
    unfolding metadata_pieces Fits mode_after word_front behind_word
    Fits-metadata = (
      refl,
      (
        refl,
        (
          refl,
          (
            (n, record { ends = refl; whole = refl }),
            (
              record { ends = refl; whole = refl },
              (
                refl,
                (
                  refl,
                  (
                    refl,
                    (
                      refl,
                      (
                        refl,
                        (
                          refl,
                          (
                            (n, record { ends = refl; whole = refl }),
                            (
                              (
                                bool_text-words (is_insecure setup),
                                record { ends = refl; whole = refl },
                              ),
                              (
                                refl,
                                (
                                  refl,
                                  (
                                    refl,
                                    (
                                      refl,
                                      (
                                        (quoted_plain _ symbol_plain, refl),
                                        (
                                          (n, record { ends = refl; whole = refl }),
                                          (
                                            (Adds-escaped [] _ marker-marker_bytes, refl),
                                            Fits-guard setup,
                                          ),
                                        ),
                                      ),
                                    ),
                                  ),
                                ),
                              ),
                            ),
                          ),
                        ),
                      ),
                    ),
                  ),
                ),
              ),
            ),
          ),
        ),
      ),
    )

    -- What the items behind a generated key say.
    abbrev pub metadata_of : Metadata
    metadata_of = record {
      digest_name = const_name ++ ascii "_PROVING_KEY_SHA256";
      digest = digest;
      insecure_name = const_name ++ ascii "_INSECURE_TEST_SETUP";
      insecure = is_insecure setup;
      export_name = symbol sha vk_source (to_marker (setup_text const_name setup digest));
      text_name = const_name ++ ascii "_SETUP_TXT";
      text = some (to_marker (setup_text const_name setup digest));
      guarded = is_insecure setup;
    }

    read_metadata-tokens :
        read_metadata (tokens_onto (metadata_pieces sha vk_source const_name setup digest) [])
        ≡ ok metadata_of
    unfolding read_metadata metadata_pieces tokens_onto piece_onto expect emit bytes_eq word_front
        behind_word
    read_metadata-tokens = rw (read_bytes-list_tokens digest _ d.bytes) (
        rw (read_bool-bool_text (is_insecure setup) _) (
          rw (read_guard-compile_guard const_name setup) (
            rw
              (unescape-replace_nul (to_marker (setup_text const_name setup digest))
                marker-marker_bytes)
              refl)))

    -- The consts behind a generated key hold the digest and the kind of its setup, the exported text is
    -- the marker for both, and the file has the compile guard exactly if the setup is insecure.
    pub read_metadata-metadata_rust_source :
        read_metadata (lex start (metadata_rust_source sha vk_source const_name setup digest))
        ≡ ok metadata_of
    unfolding metadata_rust_source
    read_metadata-metadata_rust_source =
        ap read_metadata (
          ap (lex start)
            (sym (append-nil (push_pieces (metadata_pieces sha vk_source const_name setup digest))))
          ∙ lex-push_pieces (metadata_pieces sha vk_source const_name setup digest) []
              Fits-metadata)
        ∙ (unfold lex in read_metadata-tokens)
