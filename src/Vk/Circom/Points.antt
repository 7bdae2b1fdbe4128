-- ===== src/Vk/Circom/Points.antt =====
-- src/vk/circom.rs on the keys that snarkjs writes: the generated const has the points of the key in
-- the layout of src/groth16.rs.
use groth16_solana.Prelude.{
  ℕ, suc, ◌^◌, ◌<◌, ◌≡◌, refl, ◌∙◌, ap, ap₂, ◌&&◌, none, List, [], ◌∷◌, map, ok, ◌>>◌, reject_if,
  length, All, length-map,
}
use groth16_solana.Prelude.Bytes.{Bytes, to_be}
use groth16_solana.Groth16.{Groth16Verifyingkey}
use groth16_solana.Groth16.Layout.{concat}
use groth16_solana.Vk.Setup.{SetupKind, delta_equals_gamma}
use groth16_solana.Vk.Setup.Text.{ascii}
use groth16_solana.Vk.Setup.Metadata.{is_production}
use groth16_solana.Vk.Source.{decimal}
use groth16_solana.Vk.Circom.{
  Libraries, RawVerifyingKey, forgeable_production_vk, split_last, affine_components,
  process_g1_component, process_g2_component, g1_bytes, g2_bytes, g1_field, g2_field, ic_points,
  count_pubinputs, convert_key,
}
use groth16_solana.Vk.Circom.Values.{
  IsBigUint, process_g1_component_lem, process_g2_component_lem, word_exact,
}

-- A coordinate in the extension field is `c0 + c1 u`.
abbrev pub Fq2 : Type 0
Fq2 = ℕ × ℕ

pub record CircomKey : Type 0 where
  pub alpha : ℕ × ℕ
  pub beta : Fq2 × Fq2
  pub gamma : Fq2 × Fq2
  pub delta : Fq2 × Fq2
  pub ic0 : ℕ × ℕ
  pub ics : List (ℕ × ℕ)

-- The big-endian layout of the verifier: in G2, c1 stands in front of c0.
unfoldable pub g1_be : ℕ × ℕ → Bytes
g1_be (x, y) = concat (to_be 32 x ∷ to_be 32 y ∷ [])

unfoldable pub g2_be : Fq2 × Fq2 → Bytes
g2_be ((x0, x1), (y0, y1)) = concat (to_be 32 x1 ∷ to_be 32 x0 ∷ to_be 32 y1 ∷ to_be 32 y0 ∷ [])

unfoldable pub key_bytes : CircomKey → Groth16Verifyingkey
key_bytes key = record {
  nr_pubinputs = length key.ics;
  vk_alpha_g1 = g1_be key.alpha;
  vk_beta_g2 = g2_be key.beta;
  vk_gamma_g2 = g2_be key.gamma;
  vk_delta_g2 = g2_be key.delta;
  vk_ic = map g1_be (key.ic0 ∷ key.ics);
  vk_commitment = none;
}

abbrev pub IsWord : ℕ → Type 0
IsWord n = n < 2 ^ 256

abbrev pub IsG1 : ℕ × ℕ → Type 0
IsG1 (x, y) = IsWord x × IsWord y

abbrev pub IsG2 : Fq2 × Fq2 → Type 0
IsG2 ((x0, x1), (y0, y1)) = (IsWord x0 × IsWord x1) × (IsWord y0 × IsWord y1)

pub record IsCircomKey (key : CircomKey) : Type 0 where
  pub alpha : IsG1 key.alpha
  pub beta : IsG2 key.beta
  pub gamma : IsG2 key.gamma
  pub delta : IsG2 key.delta
  pub ic : All IsG1 (key.ic0 ∷ key.ics)

module _ (print : ℕ → Bytes) where
  -- Projective points, as snarkjs writes them: the last component is one.
  abbrev pub json_g1 : ℕ × ℕ → List Bytes
  json_g1 (x, y) = print x ∷ print y ∷ print 1 ∷ []

  abbrev pub json_pair : Fq2 → List Bytes
  json_pair (c0, c1) = print c0 ∷ print c1 ∷ []

  abbrev pub json_g2 : Fq2 × Fq2 → List (List Bytes)
  json_g2 (x, y) = json_pair x ∷ json_pair y ∷ json_pair (1, 0) ∷ []

  unfoldable pub json_key : CircomKey → RawVerifyingKey
  json_key key = record {
    vk_alpha_1 = json_g1 key.alpha;
    vk_beta_2 = json_g2 key.beta;
    vk_gamma_2 = json_g2 key.gamma;
    vk_delta_2 = json_g2 key.delta;
    ic = map json_g1 (key.ic0 ∷ key.ics);
  }

-- `print` writes numbers as num_bigint reads them.
abbrev pub IsPrint : Libraries → (ℕ → Bytes) → Type 0
IsPrint lib print = (n : ℕ) → lib.parse (print n) ≡ ok n

module _ (lib : Libraries) (big : IsBigUint lib) (print : ℕ → Bytes)
    (prints : IsPrint lib print) where
  component : (n : ℕ) → IsWord n → process_g1_component lib (print n) ≡ ok (to_be 32 n)
  component n h =
      let (out, e, w) = process_g1_component_lem lib big (print n) n (prints n) in
      e ∙ ap ok (word_exact n out w h)

  pair :
      (c0 c1 : ℕ)
      → IsWord c0
      → IsWord c1
      → process_g2_component lib (json_pair print (c0, c1)) ≡ ok (to_be 32 c1, to_be 32 c0)
  pair c0 c1 h0 h1 =
      let (part0, part1, e, w1, w0) =
        process_g2_component_lem lib big (print c0) (print c1) c0 c1 (prints c0) (prints c1) in
      e ∙ ap ok (ap₂ (λ a b. (a, b)) (word_exact c1 part0 w1 h1) (word_exact c0 part1 w0 h0))

  g1_field-json :
      (point : ℕ × ℕ) (name : Bytes)
      → IsG1 point
      → g1_field lib (json_g1 print point) name ≡ ok (g1_be point)
  unfolding g1_field affine_components split_last g1_bytes g1_be concat
  g1_field-json (x, y) name (hx, hy) = rw (component x hx, component y hy) refl

  g2_field-json :
      (point : Fq2 × Fq2) (name : Bytes)
      → IsG2 point
      → g2_field lib (json_g2 print point) name ≡ ok (g2_be point)
  unfolding g2_field affine_components split_last g2_bytes g2_be concat
  g2_field-json ((x0, x1), (y0, y1)) name ((h0, h1), (k0, k1)) =
      rw (pair x0 x1 h0 h1, pair y0 y1 k0 k1) refl

  ic_points-json :
      (index : ℕ) (points : List (ℕ × ℕ))
      → All IsG1 points
      → ic_points lib index (map (json_g1 print) points) ≡ ok (map g1_be points)
  unfolding ic_points
  ic_points-json index [] h = refl
  ic_points-json index (point ∷ points) (hp, h) =
      rw (g1_field-json point (concat (ascii "IC[" ∷ decimal index ∷ ascii "]" ∷ [])) hp)
        (rw (ic_points-json (suc index) points h) refl)

  -- A key of snarkjs with coordinates below 2^256 is converted to the verifier's layout, unless it is
  -- declared a production key and its delta is its gamma: then it is refused as forgeable.
  pub convert_key-json_key :
      (key : CircomKey) (setup : SetupKind)
      → IsCircomKey key
      → convert_key lib (json_key print key) setup ≡ (
          reject_if
            (is_production setup && delta_equals_gamma (g2_be key.gamma) (g2_be key.delta))
            forgeable_production_vk
          >> ok (key_bytes key))
  unfolding convert_key json_key count_pubinputs key_bytes
  convert_key-json_key key setup h =
      rw
        (
          g1_field-json key.alpha (ascii "vk_alpha_1") h.alpha,
          g2_field-json key.beta (ascii "vk_beta_2") h.beta,
          g2_field-json key.gamma (ascii "vk_gamma_2") h.gamma,
          g2_field-json key.delta (ascii "vk_delta_2") h.delta,
          ic_points-json 0 (key.ic0 ∷ key.ics) h.ic,
          length-map (json_g1 print) key.ics,
        )
        refl
