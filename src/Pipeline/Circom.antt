-- ===== src/Pipeline/Circom.antt =====
-- A JSON key through the generator of src/vk/circom.rs, and the key that the generated source declares in
-- the verifier of src/groth16.rs.
use groth16_solana.Prelude.{
  ℕ, ◌^◌, ◌<◌, ◌≡◌, refl, ap₂, subst, sym, true, ◌&&◌, none, List, [], ◌∷◌, map, ok, err, ◌>>=◌,
  inl, inr, ◌⊎◌, length, length-map, All, append-nil,
}
use groth16_solana.Prelude.Bytes.{Bytes, IsByte, IsArray}
use groth16_solana.Syscalls.{Syscalls}
use groth16_solana.HashToField.{FrOps}
use groth16_solana.Groth16.{Groth16Verifyingkey, new, verify}
use groth16_solana.Groth16.Curve
use groth16_solana.Groth16.Curve.{Curve, Implements, encode_key, plain_spec}
use groth16_solana.Groth16.Refinement.{verify-plain_spec}
use groth16_solana.Vk.Setup.{SetupKind, delta_equals_gamma}
use groth16_solana.Vk.Setup.Text.{ascii}
use groth16_solana.Vk.Setup.Metadata.{is_production}
use groth16_solana.Vk.Setup.ProvingKey.{Sha256}
use groth16_solana.Vk.Setup.ReadBack.{Metadata, read_generated}
use groth16_solana.Vk.Circom.{Libraries, forgeable_production_vk, parse_vk_json_to_rust_string}
use groth16_solana.Vk.Circom.Values.{IsBigUint}
use groth16_solana.Vk.Circom.Points.{
  CircomKey, IsCircomKey, IsPrint, Fq2, g1_be, g2_be, key_bytes, json_key,
}
use groth16_solana.Vk.Circom.Read.{parse_vk_json_to_rust_string_lem}

-- The affine coordinates of a curve's points, in the layout of the verifier.
pub record Coordinates (c : Curve) : Type 0 where
  pub g1 : Curve.G1 c → ℕ × ℕ
  pub g2 : Curve.G2 c → Fq2 × Fq2
  pub g1_layout : (p : Curve.G1 c) → g1_be (g1 p) ≡ c.encode_g1 p
  pub g2_layout : (q : Curve.G2 c) → g2_be (g2 q) ≡ c.encode_g2 q

-- The numbers of a key, as snarkjs exports them.
abbrev pub circom_key : (c : Curve) → Coordinates c → Curve.Key c → CircomKey
circom_key c at k = record {
  alpha = at.g1 k.alpha;
  beta = at.g2 k.beta;
  gamma = at.g2 k.gamma;
  delta = at.g2 k.delta;
  ic0 = at.g1 k.ic0;
  ics = map at.g1 k.ics;
}

module _ (c : Curve) (at : Coordinates c) (k : Curve.Key c) where
  points : (ps : List (Curve.G1 c)) → map g1_be (map at.g1 ps) ≡ map c.encode_g1 ps
  points [] = refl
  points (p ∷ ps) = ap₂ ◌∷◌ (at.g1_layout p) (points ps)

  key_bytes-circom_key : key_bytes (circom_key c at k) ≡ encode_key c k (length k.ics) [] none
  unfolding key_bytes
  key_bytes-circom_key =
      rw
        (
          at.g1_layout k.alpha,
          at.g2_layout k.beta,
          at.g2_layout k.gamma,
          at.g2_layout k.delta,
          at.g1_layout k.ic0,
          points k.ics,
          length-map at.g1 k.ics,
          append-nil k.ics,
        )
        refl

module _ (c : Curve) (sys : Syscalls) (fr : FrOps) (i : Implements c sys) (at : Coordinates c)
    (k : Curve.Key c) where
  open c use {encode_g1, encode_g2}

  -- The verifier with the key `vk` answers what the curve's equation says under the key `k`.
  abbrev pub Answers : Groth16Verifyingkey → Curve.Proof c → List Bytes → Type 0
  Answers vk p inputs =
      (new (encode_g1 p.a) (encode_g2 p.b) (encode_g1 p.c) inputs vk >>= λ v. (verify sys fr v).0)
      ≡ plain_spec c k p inputs

  Answers-key_bytes :
      (p : Curve.Proof c) (inputs : List Bytes)
      → All (IsArray 32) inputs
      → length inputs ≡ length k.ics
      → Answers (key_bytes (circom_key c at k)) p inputs
  Answers-key_bytes p inputs h n =
      subst (λ vk. Answers vk p inputs) (sym (key_bytes-circom_key c at k))
        (verify-plain_spec c sys fr i k p inputs (length k.ics) h n)

  module _ (lib : Libraries) (big : IsBigUint lib) (print : ℕ → Bytes) (prints : IsPrint lib print)
      (sha : Sha256) (hashes : (h : Sha256.Hasher sha) → All IsByte (sha.finalize h))
      (setup : SetupKind) (digest : Bytes) (d : IsArray 32 digest) where
    -- The generator refuses a key as forgeable, or prints a source whose key answers for `k`.
    abbrev pub Deploys : Bytes → Curve.Proof c → List Bytes → Type 0
    Deploys json_content p inputs =
        ((is_production setup && delta_equals_gamma (encode_g2 k.gamma) (encode_g2 k.delta)) ≡ true)
          × (parse_vk_json_to_rust_string lib sha json_content setup digest
              ≡ err forgeable_production_vk)
        ⊎ ((rust : Bytes) × (parse_vk_json_to_rust_string lib sha json_content setup digest
              ≡ ok rust)
            × ((vk : Groth16Verifyingkey) × (m : Metadata) × (read_generated rust
                  ≡ ok ((ascii "VERIFYINGKEY", vk), m))
                × Answers vk p inputs))

    -- From the JSON file of a key on a curve to the verifier's answer: the generator either refuses
    -- the key, a production key whose encoded delta is its gamma, or prints a Rust source; with the
    -- key that this source declares, constructing the verifier on a proof's points and one 32-byte
    -- input for each IC point and running `verify` answers what the pairing equation of the JSON
    -- file's key says. The coordinates are below 2^256, and there are fewer than 2^64 inputs.
    pub parse_vk_json_to_rust_string-verify :
        (json_content : Bytes) (p : Curve.Proof c) (inputs : List Bytes)
        → lib.from_json json_content ≡ ok (json_key print (circom_key c at k))
        → IsCircomKey (circom_key c at k)
        → length k.ics < 2 ^ 64
        → All (IsArray 32) inputs
        → length inputs ≡ length k.ics
        → Deploys json_content p inputs
    parse_vk_json_to_rust_string-verify json_content p inputs e small few h n =
        elim (parse_vk_json_to_rust_string_lem lib big print prints sha hashes setup digest d
          json_content (circom_key c at k) e small
          (subst (λ m. m < 2 ^ 64) (sym (length-map at.g1 k.ics)) few)) [
            | inl (same, refused) ↦
                inl (rw (sym (at.g2_layout k.gamma), sym (at.g2_layout k.delta)) same, refused)
            | inr (other, (rust, printed, declared)) ↦
                inr (rust, printed, (_, _, declared, Answers-key_bytes p inputs h n))
          ]
