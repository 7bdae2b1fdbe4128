-- ===== src/Vk/Circom.antt =====
-- src/vk/circom.rs: Rust source from the verifying keys that snarkjs writes as JSON. The parser of
-- serde_json and the integers of num_bigint are parameters.
pub mod Values
pub mod Points
pub mod Read
pub mod Generate
pub mod Sizes
pub mod Accepted
use groth16_solana.Prelude.{
  ℕ, zero, suc, ◌+◌, ◌-◌, Bool, true, false, not, ◌&&◌, Option, none, some, List, [], ◌∷◌, ◌++◌,
  map, reverse, Result, ok, err, ◌>>=◌, ◌>>◌, map_err, ok_or, reject_if, length, take, drop, ltb,
  ◌==◌, if◌then◌else◌,
}
use groth16_solana.Prelude.Bytes.{Bytes}
use groth16_solana.Prelude.Buffer.{zeros}
use groth16_solana.Groth16.{Groth16Verifyingkey}
use groth16_solana.Groth16.Layout.{concat}
use groth16_solana.Vk.Setup.{SetupKind, delta_equals_gamma}
use groth16_solana.Vk.Setup.Text.{ascii}
use groth16_solana.Vk.Setup.ProvingKey.{
  Sha256, Files, IoError, ProvingKeySource, source_sha256, write_source,
}
use groth16_solana.Vk.Setup.Metadata.{is_production, header_warning, metadata_rust_source}
use groth16_solana.Vk.Source.{decimal, Piece, lit, put_number, put_bytes, put_rows, push_pieces}

pub record RawVerifyingKey : Type 0 where
  pub vk_alpha_1 : List Bytes
  pub vk_beta_2 : List (List Bytes)
  pub vk_gamma_2 : List (List Bytes)
  pub vk_delta_2 : List (List Bytes)
  pub ic : List (List Bytes)

pub data VkParseError : Type 0 where
  io_error : IoError → VkParseError
  json_error : ℕ → VkParseError
  invalid_data : Bytes → VkParseError
  forgeable_production_vk : VkParseError

-- `serde_json::from_str`, of whose errors the code reads nothing; `BigUint::from_str` of num_bigint,
-- with the text of its errors; and `BigUint::to_bytes_le`.
pub record Libraries : Type 0 where
  pub from_json : Bytes → Result ℕ RawVerifyingKey
  pub parse : Bytes → Result Bytes ℕ
  pub to_bytes_le : ℕ → Bytes

-- `Vec::resize(n, 0)`
unfoldable pub resize : ℕ → Bytes → Bytes
resize n bs = if ltb (length bs) n then bs ++ zeros (n - length bs) else take n bs

-- The elements but the last; `split_last` without its first result.
unfoldable pub split_last : {A : Type 0} → List A → Option (List A)
split_last [] = none
split_last (x ∷ []) = some []
split_last (x ∷ y ∷ ys) = elim (split_last (y ∷ ys)) [ none ↦ none | some front ↦ some (x ∷ front) ]

unfoldable pub affine_components : {A : Type 0} → List A → Bytes → Result VkParseError (List A)
affine_components point field_name = elim (split_last point) [
  | none ↦ err (
      invalid_data (
        field_name
        ++ (ascii " is empty; expected projective point coordinates "
            ++ ascii "(affine components plus a trailing z component)")))
  | some affine ↦ ok affine
]

module _ (lib : Libraries) where
  unfoldable pub bigint_string_to_be_bytes : Bytes → ℕ → Result VkParseError Bytes
  bigint_string_to_be_bytes s size = do
    bigint ←
        map_err
          (λ e. invalid_data (concat (ascii "Failed to parse bigint '" ∷ s ∷ ascii "': " ∷ e ∷ [])))
          (lib.parse s)
    ok (reverse (resize size (lib.to_bytes_le bigint)))

  unfoldable pub process_g1_component : Bytes → Result VkParseError Bytes
  process_g1_component component = bigint_string_to_be_bytes component 32

  -- `parse::<BigUint>()` and `to_bytes_le` of a component of a G2 coordinate
  unfoldable pub component_le : Bytes → Result VkParseError Bytes
  component_le s = do
    bigint ← map_err (λ e. invalid_data (ascii "Failed to parse bigint: " ++ e)) (lib.parse s)
    ok (lib.to_bytes_le bigint)

  unfoldable pub process_g2_component : List Bytes → Result VkParseError (Bytes × Bytes)
  process_g2_component (c0 ∷ c1 ∷ []) = do
    c0_le ← component_le c0
    c1_le ← component_le c1
    let both = reverse (resize 32 c0_le ++ resize 32 c1_le)
    ok (take 32 both, take 32 (drop 32 both))
  process_g2_component components = err (
      invalid_data
        (ascii "G2 component must have exactly 2 elements, got " ++ decimal (length components)))

  -- `for component in .. { bytes.extend_from_slice(&process_g1_component(component)?) }`
  unfoldable pub g1_bytes : List Bytes → Result VkParseError Bytes
  g1_bytes [] = ok []
  g1_bytes (component ∷ components) = do
    bytes ← process_g1_component component
    rest ← g1_bytes components
    ok (bytes ++ rest)

  unfoldable pub g2_bytes : List (List Bytes) → Result VkParseError Bytes
  g2_bytes [] = ok []
  g2_bytes (pair ∷ pairs) = do
    (part0, part1) ← process_g2_component pair
    rest ← g2_bytes pairs
    ok (part0 ++ (part1 ++ rest))

  unfoldable pub g1_field : List Bytes → Bytes → Result VkParseError Bytes
  g1_field point field_name = do
    components ← affine_components point field_name
    g1_bytes components

  unfoldable pub g2_field : List (List Bytes) → Bytes → Result VkParseError Bytes
  g2_field point field_name = do pairs ← affine_components point field_name; g2_bytes pairs

  -- The loop over `raw_vk.ic.iter().enumerate()`, from an index on.
  unfoldable pub ic_points : ℕ → List (List Bytes) → Result VkParseError (List Bytes)
  ic_points point_index [] = ok []
  ic_points point_index (point ∷ points) = do
    bytes ← g1_field point (concat (ascii "IC[" ∷ decimal point_index ∷ ascii "]" ∷ []))
    rest ← ic_points (suc point_index) points
    ok (bytes ∷ rest)

  -- `raw_vk.ic.len().checked_sub(1)`
  unfoldable pub count_pubinputs : List (List Bytes) → Result VkParseError ℕ
  count_pubinputs [] =
      err (invalid_data (ascii "IC is empty; expected at least the constant K[0] term"))
  count_pubinputs (point ∷ points) = ok (length points)

  -- The bytes that the generated const gets. Its fields are arrays of 64 and 128 bytes: with points of
  -- another number of coordinates than three the source is generated and does not compile.
  unfoldable pub convert_key : RawVerifyingKey → SetupKind → Result VkParseError Groth16Verifyingkey
  convert_key raw_vk setup = do
    nr_pubinputs ← count_pubinputs raw_vk.ic
    alpha_bytes ← g1_field raw_vk.vk_alpha_1 (ascii "vk_alpha_1")
    beta_bytes ← g2_field raw_vk.vk_beta_2 (ascii "vk_beta_2")
    gamma_bytes ← g2_field raw_vk.vk_gamma_2 (ascii "vk_gamma_2")
    delta_bytes ← g2_field raw_vk.vk_delta_2 (ascii "vk_delta_2")
    reject_if (is_production setup && delta_equals_gamma gamma_bytes delta_bytes)
        forgeable_production_vk
    points ← ic_points 0 raw_vk.ic
    ok (record {
      nr_pubinputs = nr_pubinputs;
      vk_alpha_g1 = alpha_bytes;
      vk_beta_g2 = beta_bytes;
      vk_gamma_g2 = gamma_bytes;
      vk_delta_g2 = delta_bytes;
      vk_ic = points;
      vk_commitment = none;
    })

-- What the pushes in front of the metadata put into `output`.
unfoldable pub circom_pieces : Groth16Verifyingkey → SetupKind → List Piece
circom_pieces vk setup =
    lit (ascii "// This file is generated by groth16_solana::vk::circom.\n")
    ∷ lit (ascii "// Do not edit by hand.\n\n")
    ∷ lit (header_warning setup)
    ∷ lit (ascii "use groth16_solana::groth16::Groth16Verifyingkey;\n\n")
    ∷ lit (ascii "#[rustfmt::skip]\n")
    ∷ lit (
        ascii
          "pub const VERIFYINGKEY: Groth16Verifyingkey = Groth16Verifyingkey {\n\tnr_pubinputs: ")
    ∷ put_number vk.nr_pubinputs (ascii ",\n\n")
    ∷ lit (ascii "\tvk_alpha_g1: [")
    ∷ put_bytes vk.vk_alpha_g1 (ascii "],\n\n")
    ∷ lit (ascii "\tvk_beta_g2: [")
    ∷ put_bytes vk.vk_beta_g2 (ascii "],\n\n")
    ∷ lit (ascii "\tvk_gamma_g2: [")
    ∷ put_bytes vk.vk_gamma_g2 (ascii "],\n\n")
    ∷ lit (ascii "\tvk_delta_g2: [")
    ∷ put_bytes vk.vk_delta_g2 (ascii "],\n\n")
    ∷ lit (ascii "\tvk_ic: &[\n")
    ∷ put_rows (ascii "\t\t[") (ascii "],\n") vk.vk_ic (ascii "\t],\n\n")
    ∷ lit (ascii "\tvk_commitment: None,\n")
    ∷ lit (ascii "};\n")
    ∷ []

unfoldable pub circom_source : Groth16Verifyingkey → SetupKind → Bytes
circom_source vk setup = push_pieces (circom_pieces vk setup)

unfoldable pub parse_vk_json_to_rust_string :
    Libraries → Sha256 → Bytes → SetupKind → Bytes → Result VkParseError Bytes
parse_vk_json_to_rust_string lib sha json_content setup proving_key_sha256 = do
  raw_vk ← map_err json_error (lib.from_json json_content)
  vk ← convert_key lib raw_vk setup
  let output = circom_source vk setup
  ok (output ++ metadata_rust_source sha output (ascii "VERIFYINGKEY") setup proving_key_sha256)

-- The fuel is for the reads of the proving key; `none` if it runs out.
unfoldable pub generate_vk_file :
    (fs : Files)
    → Libraries
    → Sha256
    → ℕ
    → Bytes
    → Bytes
    → Bytes
    → SetupKind
    → ProvingKeySource
    → Files.Disk fs
    → Option (Result VkParseError (Unit {0}) × Files.Disk fs)
generate_vk_file fs lib sha fuel json_path output_dir output_filename setup proving_key disk =
    elim (fs.read_to_string disk json_path) [
      | err e ↦ some (err (io_error e), disk)
      | ok json_content ↦ elim (source_sha256 fs sha fuel disk proving_key) [
        | none ↦ none
        | some (err e) ↦ some (err (io_error e), disk)
        | some (ok digest) ↦ elim (parse_vk_json_to_rust_string lib sha json_content setup digest) [
          | err e ↦ some (err e, disk)
          | ok rust_code ↦ some (write_source fs io_error output_dir output_filename rust_code disk)
        ]
      ]
    ]
