-- ===== src/Vk/Circom/Read.antt =====
-- The Rust source that src/vk/circom.rs generates declares the key of the JSON file.
use groth16_solana.Prelude.{
  ℕ, ◌^◌, ◌<◌, ◌≡◌, refl, ◌∙◌, ap, sym, true, false, ◌&&◌, none, List, [], ◌∷◌, ◌++◌, map, ok, err,
  ◌⊎◌, inl, inr, length, arith, All, All-append, Bool-cases,
}
use groth16_solana.Prelude.Bytes.{Bytes, IsByte, IsArray, to_be, to_be-IsArray}
use groth16_solana.Prelude.ByteEq.{bytes_eq}
use groth16_solana.Groth16.{Groth16Verifyingkey}
use groth16_solana.Groth16.Layout.{concat}
use groth16_solana.Vk.Setup.{SetupKind, insecure_test, production, delta_equals_gamma}
use groth16_solana.Vk.Setup.Text.{ascii}
use groth16_solana.Vk.Setup.ProvingKey.{Sha256}
use groth16_solana.Vk.Setup.Metadata.{is_production, header_warning, metadata_rust_source}
use groth16_solana.Vk.Setup.ReadBack.{read_generated}
use groth16_solana.Vk.Setup.Emitted.{metadata_of, read_metadata-metadata_rust_source}
use groth16_solana.Vk.Source.Lexer.{Token, start, lex, emit, mode_after}
use groth16_solana.Vk.Source.Pieces.{IsName, IsEnd, Fits, piece_onto, tokens_onto}
use groth16_solana.Vk.Source.Pieces.Lexed.{lex-push_pieces}
use groth16_solana.Vk.Source.Reader.{
  expect, read_static, read_ic, read_commitment, read_end, read_const, skip_item, read_import,
  read_key_file,
}
use groth16_solana.Vk.Source.Reads.{
  read_usize-decimal, read_bytes-list_tokens, read_rows-row_tokens,
}
use groth16_solana.Vk.Circom.{
  Libraries, forgeable_production_vk, circom_pieces, circom_source, parse_vk_json_to_rust_string,
}
use groth16_solana.Vk.Circom.Values.{IsBigUint}
use groth16_solana.Vk.Circom.Points.{
  CircomKey, IsCircomKey, IsPrint, Fq2, g1_be, g2_be, key_bytes, json_key, convert_key-json_key,
}

-- The numbers of a key without a commitment key are bytes, and the count is a `usize`.
pub record IsPlainKey (vk : Groth16Verifyingkey) : Type 0 where
  pub count : vk.nr_pubinputs < 2 ^ 64
  pub alpha : All IsByte vk.vk_alpha_g1
  pub beta : All IsByte vk.vk_beta_g2
  pub gamma : All IsByte vk.vk_gamma_g2
  pub delta : All IsByte vk.vk_delta_g2
  pub ic : All (All IsByte) vk.vk_ic
  pub commitment : vk.vk_commitment ≡ none

abbrev end_bytes : IsEnd (ascii "],\n\n")
unfolding mode_after
end_bytes = record { ends = refl; whole = refl }

abbrev end_rows : IsEnd (ascii "],\n")
unfolding mode_after
end_rows = record { ends = refl; whole = refl }

Fits-circom : (vk : Groth16Verifyingkey) (setup : SetupKind) → All Fits (circom_pieces vk setup)
unfolding circom_pieces Fits mode_after
Fits-circom vk setup = (
  refl,
  (
    refl,
    (
      header setup,
      (
        refl,
        (
          refl,
          (
            refl,
            (
              record { ends = refl; whole = refl },
              (
                refl,
                (
                  end_bytes,
                  (
                    refl,
                    (
                      end_bytes,
                      (
                        refl,
                        (
                          end_bytes,
                          (refl, (end_bytes, (refl, ((refl, end_rows, refl), (refl, (refl, tt)))))),
                        ),
                      ),
                    ),
                  ),
                ),
              ),
            ),
          ),
        ),
      ),
    ),
  ),
)
  where
    header : (setup : SetupKind) → mode_after start (header_warning setup) ≡ start
    header insecure_test = unfold header_warning in refl
    header production = unfold header_warning in refl

emit-header_warning : (setup : SetupKind) → emit start (header_warning setup) ≡ []
unfolding header_warning emit
emit-header_warning insecure_test = refl
emit-header_warning production = refl

read_key_file-circom_pieces :
    (vk : Groth16Verifyingkey) (setup : SetupKind) (ts : List Token)
    → IsPlainKey vk
    → read_key_file (tokens_onto (circom_pieces vk setup) ts) ≡ ok ((ascii "VERIFYINGKEY", vk), ts)
unfolding read_key_file read_import skip_item read_static read_const read_ic read_end
    read_commitment circom_pieces tokens_onto piece_onto expect emit bytes_eq
read_key_file-circom_pieces vk setup ts h = rw (emit-header_warning setup) (
    rw (read_usize-decimal vk.nr_pubinputs _ (omega (arith, h.count))) (
      rw (read_bytes-list_tokens vk.vk_alpha_g1 _ h.alpha) (
        rw (read_bytes-list_tokens vk.vk_beta_g2 _ h.beta) (
          rw (read_bytes-list_tokens vk.vk_gamma_g2 _ h.gamma) (
            rw (read_bytes-list_tokens vk.vk_delta_g2 _ h.delta) (
              rw (read_rows-row_tokens (ascii "\t\t[") (ascii "],\n") vk.vk_ic _ refl refl h.ic) (
                ap (λ c. ok ((ascii "VERIFYINGKEY", record vk { vk_commitment = c }), ts))
                  (sym h.commitment))))))))

key_bytes-IsPlainKey : (key : CircomKey) → length key.ics < 2 ^ 64 → IsPlainKey (key_bytes key)
unfolding key_bytes
key_bytes-IsPlainKey key small = record {
  count = small;
  alpha = g1 key.alpha;
  beta = g2 key.beta;
  gamma = g2 key.gamma;
  delta = g2 key.delta;
  ic = all_g1 (key.ic0 ∷ key.ics);
  commitment = refl;
}
  where
    word : (n : ℕ) (rest : Bytes) → All IsByte rest → All IsByte (to_be 32 n ++ rest)
    word n rest h = All-append IsByte (to_be 32 n) rest (to_be-IsArray 32 n).bytes h

    g1 : (point : ℕ × ℕ) → All IsByte (g1_be point)
    g1 (x, y) = unfold g1_be concat in word x _ (word y [] tt)

    g2 : (point : Fq2 × Fq2) → All IsByte (g2_be point)
    g2 ((x0, x1), (y0, y1)) =
        unfold g2_be concat in word x1 _ (word x0 _ (word y1 _ (word y0 [] tt)))

    all_g1 : (points : List (ℕ × ℕ)) → All (All IsByte) (map g1_be points)
    all_g1 [] = tt
    all_g1 (point ∷ points) = (g1 point, all_g1 points)

read_key_file-circom_source :
    (vk : Groth16Verifyingkey) (setup : SetupKind) (rest : Bytes)
    → IsPlainKey vk
    → read_key_file (lex start (circom_source vk setup ++ rest))
      ≡ ok ((ascii "VERIFYINGKEY", vk), lex start rest)
unfolding circom_source
read_key_file-circom_source vk setup rest h =
    ap read_key_file (lex-push_pieces (circom_pieces vk setup) rest (Fits-circom vk setup))
    ∙ read_key_file-circom_pieces vk setup (lex start rest) h

pub const_name-IsName : IsName (ascii "VERIFYINGKEY")
const_name-IsName = record {
  length = omega arith;
  bytes = (
    refl,
    (refl, (refl, (refl, (refl, (refl, (refl, (refl, (refl, (refl, (refl, (refl, tt))))))))))),
  );
}

module _ (lib : Libraries) (big : IsBigUint lib) (print : ℕ → Bytes) (prints : IsPrint lib print)
    (sha : Sha256) (hashes : (h : Sha256.Hasher sha) → All IsByte (sha.finalize h))
    (setup : SetupKind) (digest : Bytes) (d : IsArray 32 digest) where
  -- What a generated file says of a key.
  abbrev pub Declares : Bytes → CircomKey → Type 0
  Declares rust key =
      read_generated rust
      ≡ ok (
        (ascii "VERIFYINGKEY", key_bytes key),
        metadata_of (ascii "VERIFYINGKEY") const_name-IsName setup digest d sha hashes
            (circom_source (key_bytes key) setup),
      )

  declares :
      (key : CircomKey)
      → length key.ics < 2 ^ 64
      → Declares
          (circom_source (key_bytes key) setup
            ++ metadata_rust_source sha
                (circom_source (key_bytes key) setup)
                (ascii "VERIFYINGKEY")
                setup
                digest)
          key
  unfolding read_generated
  declares key small =
      rw
        (read_key_file-circom_source (key_bytes key) setup
          (metadata_rust_source sha (circom_source (key_bytes key) setup) (ascii "VERIFYINGKEY")
            setup digest)
          (key_bytes-IsPlainKey key small))
        (rw
          (read_metadata-metadata_rust_source (ascii "VERIFYINGKEY") const_name-IsName setup digest
            d sha hashes (circom_source (key_bytes key) setup))
          refl)

  -- Refused as forgeable, or printed as a source that declares the key.
  abbrev pub Emits : Bytes → CircomKey → Type 0
  Emits json_content key =
      ((is_production setup && delta_equals_gamma (g2_be key.gamma) (g2_be key.delta)) ≡ true)
        × (parse_vk_json_to_rust_string lib sha json_content setup digest
            ≡ err forgeable_production_vk)
      ⊎ ((is_production setup && delta_equals_gamma (g2_be key.gamma) (g2_be key.delta)) ≡ false)
        × ((rust : Bytes) × (parse_vk_json_to_rust_string lib sha json_content setup digest
              ≡ ok rust)
            × Declares rust key)

  -- From the JSON file of a key with coordinates below 2^256 comes a Rust source that declares the key in
  -- the verifier's layout, with the digest, the kind of the setup and the marker; only a production key
  -- whose delta is its gamma is refused, as forgeable.
  pub parse_vk_json_to_rust_string_lem :
      (json_content : Bytes) (key : CircomKey)
      → lib.from_json json_content ≡ ok (json_key print key)
      → IsCircomKey key
      → length key.ics < 2 ^ 64
      → Emits json_content key
  unfolding parse_vk_json_to_rust_string
  parse_vk_json_to_rust_string_lem json_content key e k small =
      elim (Bool-cases
        (is_production setup && delta_equals_gamma (g2_be key.gamma) (g2_be key.delta))) [
          | inl same ↦ inl (
            same,
            rw e (rw (convert_key-json_key lib big print prints key setup k) (rw same refl)),
          )
          | inr other ↦ inr (
            other,
            (
              _,
              rw e (rw (convert_key-json_key lib big print prints key setup k) (rw other refl)),
              declares key small,
            ),
          )
        ]
