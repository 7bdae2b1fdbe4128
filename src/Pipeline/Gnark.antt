-- ===== src/Pipeline/Gnark.antt =====
-- A gnark key file through the parser and the generator of src/vk/gnark.rs, and the key that the
-- generated source declares in the verifier of src/groth16.rs.
use groth16_solana.Prelude.{
  ◌+◌, ◌^◌, ◌<◌, ◌≡◌, true, ◌&&◌, some, List, [], ◌∷◌, ◌++◌, map, ok, err, ◌>>=◌, inl, inr, ◌⊎◌,
  length, length-map, length-append, All, arith,
}
use groth16_solana.Prelude.Bytes.{Bytes, IsByte, IsArray}
use groth16_solana.Syscalls.{Syscalls}
use groth16_solana.HashToField.{FrOps}
use groth16_solana.HashToField.Reduce.{IsMontgomery}
use groth16_solana.Groth16.{Groth16Verifyingkey, new_with_commitment, verify}
use groth16_solana.Groth16.Curve
use groth16_solana.Groth16.Curve.{
  Curve, Implements, encode_key, encode_commitment_key, committed_spec,
}
use groth16_solana.Groth16.Refinement.{verify-committed_spec}
use groth16_solana.Vk.Setup.{SetupKind, delta_equals_gamma}
use groth16_solana.Vk.Setup.Metadata.{is_production}
use groth16_solana.Vk.Setup.ProvingKey.{Sha256}
use groth16_solana.Vk.Setup.ReadBack.{Metadata, read_generated}
use groth16_solana.Vk.Gnark.{Groth16VerifyingkeyOwned, as_borrowed, parse_gnark_vk_bytes}
use groth16_solana.Vk.Gnark.Format.{IsGnarkKey, write_raw}
use groth16_solana.Vk.Gnark.Typed.{IsTyped}
use groth16_solana.Vk.Gnark.RoundTrip.{parse_gnark_vk_bytes-write_raw}
use groth16_solana.Errors.{forgeable_production_vk}
use groth16_solana.Vk.Source.Pieces.{IsName}
use groth16_solana.Vk.Gnark.Source.{bsb22_vk_to_rust_const}
use groth16_solana.Vk.Gnark.Emitted.{bsb22_vk_to_rust_const_lem}

-- The encodings of a curve's points are bytes.
pub record IsBytewise (c : Curve) : Type 0 where
  pub g1 : (p : c.G1) → All IsByte (c.encode_g1 p)
  pub g2 : (q : c.G2) → All IsByte (c.encode_g2 q)

module _ (c : Curve) (k : Curve.Key c) (k_last : c.G1) (ck : Curve.CommitmentKey c) where
  -- The key of a circuit with a commitment, as gnark exports it.
  abbrev pub gnark_key : Groth16VerifyingkeyOwned
  gnark_key = record {
    nr_pubinputs = length k.ics;
    vk_alpha_g1 = c.encode_g1 k.alpha;
    vk_beta_g2 = c.encode_g2 k.beta;
    vk_gamma_g2 = c.encode_g2 k.gamma;
    vk_delta_g2 = c.encode_g2 k.delta;
    vk_ic = map c.encode_g1 (k.ic0 ∷ (k.ics ++ k_last ∷ []));
    vk_commitment = some (encode_commitment_key c ck);
  }

  all_map :
      (P : Bytes → Type 0)
      → ((p : c.G1) → P (c.encode_g1 p))
      → (ps : List c.G1) → All P (map c.encode_g1 ps)
  all_map P h [] = tt
  all_map P h (p ∷ ps) = (h p, all_map P h ps)

  gnark_key-IsTyped : IsBytewise c → length k.ics + 2 < 2 ^ 32 → IsTyped gnark_key
  gnark_key-IsTyped b small = record {
    count = omega arith;
    alpha = b.g1 k.alpha;
    beta = b.g2 k.beta;
    gamma = b.g2 k.gamma;
    delta = b.g2 k.delta;
    ic = all_map (All IsByte) b.g1 (k.ic0 ∷ (k.ics ++ k_last ∷ []));
    commitment = (b.g2 ck.g, b.g2 ck.g_sigma_neg);
  }

  length-ic : length gnark_key.vk_ic ≡ length k.ics + 2
  length-ic =
      omega
        (arith, length-map c.encode_g1 (k.ics ++ k_last ∷ []), length-append k.ics (k_last ∷ []))

  gnark_key-IsGnarkKey :
      (sys : Syscalls) → Implements c sys → length k.ics + 2 < 2 ^ 32 → IsGnarkKey gnark_key
  gnark_key-IsGnarkKey sys i small = record {
    alpha = i.g1_size k.alpha;
    beta = i.g2_size k.beta;
    gamma = i.g2_size k.gamma;
    delta = i.g2_size k.delta;
    ic = all_map (λ bs. length bs ≡ 64) i.g1_size (k.ic0 ∷ (k.ics ++ k_last ∷ []));
    count = omega (arith, length-ic);
    small = omega (arith, length-ic);
    commitment = (i.g2_size ck.g, i.g2_size ck.g_sigma_neg);
  }

module _ (c : Curve) (sys : Syscalls) (fr : FrOps) (i : Implements c sys) (bytewise : IsBytewise c)
    (m : IsMontgomery fr) (digests : (x : Bytes) → IsArray 32 (sys.sha256 x)) (k : Curve.Key c)
    (k_last : c.G1) (ck : Curve.CommitmentKey c) where
  open c use {G1, encode_g1, encode_g2}

  -- The verifier with the key `vk` answers what the curve's equations say under the key `k`.
  abbrev pub Answers : Groth16Verifyingkey → Curve.Proof c → G1 → G1 → List Bytes → Type 0
  Answers vk p d pok inputs =
      (new_with_commitment (encode_g1 p.a) (encode_g2 p.b) (encode_g1 p.c) (encode_g1 d)
          (encode_g1 pok) inputs vk
        >>= λ v. (verify sys fr v).0)
      ≡ committed_spec c sys k k_last ck p d pok inputs

  Answers-as_borrowed :
      (p : Curve.Proof c) (d pok : G1) (inputs : List Bytes)
      → All (IsArray 32) inputs
      → length inputs ≡ length k.ics
      → Answers (as_borrowed (gnark_key c k k_last ck)) p d pok inputs
  unfolding as_borrowed
  Answers-as_borrowed p d pok inputs h n =
      verify-committed_spec c sys fr i k k_last ck p d pok inputs (length k.ics) m digests h n

  module _ (sha : Sha256) (hashes : (h : Sha256.Hasher sha) → All IsByte (sha.finalize h))
      (const_name : Bytes) (name : IsName const_name) (setup : SetupKind) (digest : Bytes)
      (da : IsArray 32 digest) where
    -- The file is parsed, and the generator refuses the key as forgeable, or prints a source whose key
    -- answers for `k`.
    abbrev pub Deploys : Bytes → Curve.Proof c → G1 → G1 → List Bytes → Type 0
    Deploys file p d pok inputs =
        (vk : Groth16VerifyingkeyOwned) × (parse_gnark_vk_bytes file ≡ ok vk)
        × (((is_production setup && delta_equals_gamma (encode_g2 k.gamma) (encode_g2 k.delta))
                ≡ true)
              × (bsb22_vk_to_rust_const sha vk const_name setup digest
                  ≡ err forgeable_production_vk)
            ⊎ ((rust : Bytes) × (bsb22_vk_to_rust_const sha vk const_name setup digest ≡ ok rust)
                × ((declared : Groth16Verifyingkey) × (meta : Metadata) × (read_generated rust
                      ≡ ok ((const_name, declared), meta))
                    × Answers declared p d pok inputs)))

    -- From gnark's file of a key on a curve, with one commitment, to the verifier's answer: the file is
    -- parsed, and the generator either refuses the key, a production key whose encoded delta is its
    -- gamma, or prints a Rust source; with the key that this source declares, constructing the
    -- verifier on a proof's points, its commitment and one 32-byte input for each public input and
    -- running `verify` answers what the equations of the key and the commitment say. There are fewer
    -- than 2^32 IC points, and the two points of the file that are not in the key may be any 64 bytes.
    pub bsb22_vk_to_rust_const-verify :
        (beta_g1 delta_g1 : Bytes) (p : Curve.Proof c) (d pok : G1) (inputs : List Bytes)
        → length beta_g1 ≡ 64
        → length delta_g1 ≡ 64
        → length k.ics + 2 < 2 ^ 32
        → All (IsArray 32) inputs
        → length inputs ≡ length k.ics
        → Deploys (write_raw beta_g1 delta_g1 (gnark_key c k k_last ck)) p d pok inputs
    bsb22_vk_to_rust_const-verify beta_g1 delta_g1 p d pok inputs hb hd few h n =
        let parsed =
          parse_gnark_vk_bytes-write_raw beta_g1 delta_g1 (gnark_key c k k_last ck)
            (gnark_key-IsGnarkKey c k k_last ck sys i few) hb hd in
        elim (bsb22_vk_to_rust_const_lem sha hashes const_name name setup digest da
          (gnark_key c k k_last ck) (gnark_key-IsTyped c k k_last ck bytewise few)) [
            | inl (same, refused) ↦ (_, parsed, inl (same, refused))
            | inr (other, (rust, printed, declared)) ↦ (
              _,
              parsed,
              inr (rust, printed, (_, _, declared, Answers-as_borrowed p d pok inputs h n)),
            )
          ]
