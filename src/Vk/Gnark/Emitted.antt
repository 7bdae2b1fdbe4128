-- ===== src/Vk/Gnark/Emitted.antt =====
-- The Rust source that src/vk/gnark.rs generates declares the key that it was generated for.
use groth16_solana.Prelude.{
  ◌≡◌, refl, ◌∙◌, ap, true, false, ◌&&◌, Option, none, some, List, [], ◌∷◌, ◌++◌, ok, err, arith,
  All, append-nil, Bool-cases, ◌⊎◌, inl, inr,
}
use groth16_solana.Prelude.Bytes.{Bytes, IsByte, IsArray}
use groth16_solana.Errors.{forgeable_production_vk}
use groth16_solana.Prelude.ByteEq.{bytes_eq, bytes_eq_refl}
use groth16_solana.Groth16.{CommitmentVerifyingKey}
use groth16_solana.Vk.Gnark.{Groth16VerifyingkeyOwned, as_borrowed}
use groth16_solana.Vk.Gnark.Source.{
  imports, commitment_pieces, vk_pieces, vk_source, bsb22_vk_to_rust_const,
}
use groth16_solana.Vk.Setup.{SetupKind, insecure_test, production, delta_equals_gamma}
use groth16_solana.Vk.Setup.Text.{ascii}
use groth16_solana.Vk.Setup.Metadata.{is_production, header_warning, metadata_rust_source}
use groth16_solana.Vk.Setup.ProvingKey.{Sha256}
use groth16_solana.Vk.Setup.ReadBack.{read_generated}
use groth16_solana.Vk.Setup.Emitted.{metadata_of, read_metadata-metadata_rust_source}
use groth16_solana.Vk.Source.Lexer.{Token, sign, start, lex, emit, mode_after}
use groth16_solana.Vk.Source.Pieces.{
  IsName, IsEnd, Fits, word_front, behind_word, piece_onto, tokens_onto,
}
use groth16_solana.Vk.Source.Pieces.Lexed.{lex-push_pieces}
use groth16_solana.Vk.Source.Reader.{
  expect, read_static, read_ic, read_commitment, read_end, read_const, skip_item, read_import,
  read_key_file,
}
use groth16_solana.Vk.Source.Reads.{
  read_usize-decimal, read_bytes-list_tokens, read_rows-row_tokens,
}
use groth16_solana.Vk.Gnark.Typed.{IsTyped, IsCommitment}

abbrev end_bytes : IsEnd (ascii "],\n")
unfolding mode_after
end_bytes = record { ends = refl; whole = refl }

Fits-commitment : (key : Option CommitmentVerifyingKey) → All Fits (commitment_pieces key)
unfolding commitment_pieces Fits mode_after
Fits-commitment none = (refl, (refl, tt))
Fits-commitment (some key) = (refl, (refl, (end_bytes, (refl, (end_bytes, (refl, (refl, tt)))))))

read_end-commitment_pieces :
    (key : Option CommitmentVerifyingKey) (ts : List Token)
    → IsCommitment key
    → read_end (sign b',' ∷ tokens_onto (commitment_pieces key) ts) ≡ ok (key, ts)
unfolding commitment_pieces read_end read_commitment tokens_onto piece_onto expect emit bytes_eq
read_end-commitment_pieces none ts h = refl
read_end-commitment_pieces (some key) ts (h, k) =
    rw (read_bytes-list_tokens key.g2 _ h, read_bytes-list_tokens key.g_sigma_neg_g2 _ k) refl

Fits-vk :
    (vk : Groth16VerifyingkeyOwned) (const_name : Bytes) (setup : SetupKind)
    → IsName const_name
    → All Fits (vk_pieces vk const_name setup)
unfolding vk_pieces Fits mode_after word_front behind_word
Fits-vk vk const_name setup n = (
  refl,
  (
    refl,
    (
      header setup,
      (
        imported vk.vk_commitment,
        (
          refl,
          (
            (n, record { ends = refl; whole = refl }),
            (
              (refl, end_bytes, refl),
              (
                refl,
                (
                  (n, record { ends = refl; whole = refl }),
                  (
                    refl,
                    (
                      record { ends = refl; whole = refl },
                      (
                        refl,
                        (
                          end_bytes,
                          (
                            refl,
                            (
                              end_bytes,
                              (
                                refl,
                                (
                                  end_bytes,
                                  (
                                    refl,
                                    (
                                      end_bytes,
                                      (
                                        refl,
                                        (
                                          (n, record { ends = refl; whole = refl }),
                                          Fits-commitment vk.vk_commitment,
                                        ),
                                      ),
                                    ),
                                  ),
                                ),
                              ),
                            ),
                          ),
                        ),
                      ),
                    ),
                  ),
                ),
              ),
            ),
          ),
        ),
      ),
    ),
  ),
)
  where
    header : (setup : SetupKind) → mode_after start (header_warning setup) ≡ start
    header insecure_test = unfold header_warning in refl
    header production = unfold header_warning in refl

    imported : (key : Option CommitmentVerifyingKey) → mode_after start (imports key) ≡ start
    imported none = unfold imports in refl
    imported (some key) = unfold imports in refl

emit-header_warning : (setup : SetupKind) → emit start (header_warning setup) ≡ []
unfolding header_warning emit
emit-header_warning insecure_test = refl
emit-header_warning production = refl

read_import-imports :
    (key : Option CommitmentVerifyingKey) (ts : List Token)
    → read_import (emit start (imports key) ++ ts) ≡ ok ts
unfolding read_import imports expect skip_item emit bytes_eq
read_import-imports none ts = refl
read_import-imports (some key) ts = refl

read_key_file-vk_pieces :
    (vk : Groth16VerifyingkeyOwned) (const_name : Bytes) (setup : SetupKind) (ts : List Token)
    → IsTyped vk
    → read_key_file (tokens_onto (vk_pieces vk const_name setup) ts)
      ≡ ok ((const_name, as_borrowed vk), ts)
unfolding read_key_file read_static read_const read_ic vk_pieces tokens_onto piece_onto expect emit
    bytes_eq word_front behind_word as_borrowed
read_key_file-vk_pieces vk const_name setup ts h = rw (emit-header_warning setup) (
    rw (read_import-imports vk.vk_commitment _) (
      rw (read_rows-row_tokens (ascii "    [") (ascii "],\n") vk.vk_ic _ refl refl h.ic) (
        rw (read_usize-decimal vk.nr_pubinputs _ (omega (arith, h.count))) (
          rw (read_bytes-list_tokens vk.vk_alpha_g1 _ h.alpha) (
            rw (read_bytes-list_tokens vk.vk_beta_g2 _ h.beta) (
              rw (read_bytes-list_tokens vk.vk_gamma_g2 _ h.gamma) (
                rw (read_bytes-list_tokens vk.vk_delta_g2 _ h.delta) (
                  rw (bytes_eq_refl (const_name ++ ascii "_VK_IC"), read_ic)
                    (rw (read_end-commitment_pieces vk.vk_commitment ts h.commitment)
                      (rw (append-nil const_name) refl))))))))))

read_key_file-vk_source :
    (vk : Groth16VerifyingkeyOwned) (const_name : Bytes) (setup : SetupKind)
    → IsName const_name
    → (rest : Bytes) → IsTyped vk
    → read_key_file (lex start (vk_source vk const_name setup ++ rest))
      ≡ ok ((const_name, as_borrowed vk), lex start rest)
unfolding vk_source
read_key_file-vk_source vk const_name setup n rest h =
    ap read_key_file
      (lex-push_pieces (vk_pieces vk const_name setup) rest (Fits-vk vk const_name setup n))
    ∙ read_key_file-vk_pieces vk const_name setup (lex start rest) h

module _ (sha : Sha256) (hashes : (h : Sha256.Hasher sha) → All IsByte (sha.finalize h))
    (const_name : Bytes) (n : IsName const_name) (setup : SetupKind) (digest : Bytes)
    (d : IsArray 32 digest) where
  -- What a generated file says of a key.
  abbrev pub Declares : Bytes → Groth16VerifyingkeyOwned → Type 0
  Declares rust vk =
      read_generated rust
      ≡ ok (
        (const_name, as_borrowed vk),
        metadata_of const_name n setup digest d sha hashes (vk_source vk const_name setup),
      )

  declares :
      (vk : Groth16VerifyingkeyOwned)
      → IsTyped vk
      → Declares
          (vk_source vk const_name setup
            ++ metadata_rust_source sha (vk_source vk const_name setup) const_name setup digest)
          vk
  unfolding read_generated
  declares vk h =
      rw
        (read_key_file-vk_source vk const_name setup n
          (metadata_rust_source sha (vk_source vk const_name setup) const_name setup digest) h)
        (rw
          (read_metadata-metadata_rust_source const_name n setup digest d sha hashes
            (vk_source vk const_name setup))
          refl)

  -- Refused as forgeable, or printed as a source that declares the key.
  abbrev pub Emits : Groth16VerifyingkeyOwned → Type 0
  Emits vk =
      ((is_production setup && delta_equals_gamma vk.vk_gamma_g2 vk.vk_delta_g2) ≡ true)
        × (bsb22_vk_to_rust_const sha vk const_name setup digest ≡ err forgeable_production_vk)
      ⊎ ((is_production setup && delta_equals_gamma vk.vk_gamma_g2 vk.vk_delta_g2) ≡ false)
        × ((rust : Bytes) × (bsb22_vk_to_rust_const sha vk const_name setup digest ≡ ok rust)
            × Declares rust vk)

  -- A production key whose delta is its gamma is refused as forgeable; from every other key comes a
  -- source that declares exactly that key, with the digest, the kind of the setup and the marker.
  pub bsb22_vk_to_rust_const_lem : (vk : Groth16VerifyingkeyOwned) → IsTyped vk → Emits vk
  unfolding bsb22_vk_to_rust_const
  bsb22_vk_to_rust_const_lem vk h =
      elim (Bool-cases (is_production setup && delta_equals_gamma vk.vk_gamma_g2 vk.vk_delta_g2)) [
        | inl same ↦ inl (same, rw same refl)
        | inr other ↦ inr (other, (_, rw other refl, declares vk h))
      ]
