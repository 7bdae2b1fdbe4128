-- ===== src/Vk/Gnark/Typed.antt =====
-- The keys of src/vk/gnark.rs have what their Rust types say, if the file is made of bytes.
use groth16_solana.Prelude.{
  ◌^◌, ◌<◌, ◌≡◌, subst, Option, none, some, List, [], ◌∷◌, ◌++◌, ok, length, arith, All,
}
use groth16_solana.Prelude.Bytes.{Bytes, IsByte, to_be}
use groth16_solana.Groth16.{CommitmentVerifyingKey}
use groth16_solana.Groth16.Layout.{concat}
use groth16_solana.Vk.Gnark.{Groth16VerifyingkeyOwned, parse_gnark_vk_bytes}
use groth16_solana.Vk.Gnark.Format.{IsGnarkKey, write_raw, trailer}
use groth16_solana.Vk.Gnark.Sound.{parse_gnark_vk_bytes-IsGnarkKey}

-- What the Rust type says of a commitment key's bytes.
abbrev pub IsCommitment : Option CommitmentVerifyingKey → Type 0
IsCommitment none = Unit {0}
IsCommitment (some key) = All IsByte key.g2 × All IsByte key.g_sigma_neg_g2

-- What the Rust types say of a key's numbers: bytes are below 256, and a count is a `usize`.
pub record IsTyped (vk : Groth16VerifyingkeyOwned) : Type 0 where
  pub count : vk.nr_pubinputs < 2 ^ 64
  pub alpha : All IsByte vk.vk_alpha_g1
  pub beta : All IsByte vk.vk_beta_g2
  pub gamma : All IsByte vk.vk_gamma_g2
  pub delta : All IsByte vk.vk_delta_g2
  pub ic : All (All IsByte) vk.vk_ic
  pub commitment : IsCommitment vk.vk_commitment

All-parts : (xs ys : Bytes) → All IsByte (xs ++ ys) → All IsByte xs × All IsByte ys
All-parts [] ys h = (tt, h)
All-parts (x ∷ xs) ys (hx, h) = let (a, b) = All-parts xs ys h in ((hx, a), b)

behind : (xs ys : Bytes) → All IsByte (xs ++ ys) → All IsByte ys
behind xs ys h = (All-parts xs ys h).1

all_points : (points : List Bytes) → All IsByte (concat points) → All (All IsByte) points
unfolding concat
all_points [] h = tt
all_points (point ∷ points) h =
    let (a, b) = All-parts point (concat points) h in (a, all_points points b)

commitment_bytes :
    (key : Option CommitmentVerifyingKey) → All IsByte (trailer key) → IsCommitment key
commitment_bytes none h = tt
commitment_bytes (some key) h =
    let tail = key.g2 ++ (key.g_sigma_neg_g2 ++ []) in
    let keys = behind (to_be 4 1) tail (
      behind (to_be 4 0) (to_be 4 1 ++ tail)
        (behind (to_be 4 1) (to_be 4 0 ++ (to_be 4 1 ++ tail)) h)) in
    let (a, rest) = All-parts key.g2 (key.g_sigma_neg_g2 ++ []) keys in
    (a, (All-parts key.g_sigma_neg_g2 [] rest).0)

-- The parts of a key in gnark's layout are bytes if the file is made of bytes.
raw_bytes :
    (beta_g1 delta_g1 : Bytes) (vk : Groth16VerifyingkeyOwned)
    → IsGnarkKey vk
    → All IsByte (write_raw beta_g1 delta_g1 vk)
    → IsTyped vk
raw_bytes beta_g1 delta_g1 vk g h =
    let t8 = concat vk.vk_ic ++ trailer vk.vk_commitment in
    let t7 = to_be 4 (length vk.vk_ic) ++ t8 in
    let t6 = vk.vk_delta_g2 ++ t7 in
    let t5 = delta_g1 ++ t6 in
    let t4 = vk.vk_gamma_g2 ++ t5 in
    let t3 = vk.vk_beta_g2 ++ t4 in
    let (alpha, h1) = All-parts vk.vk_alpha_g1 (beta_g1 ++ t3) h in
    let (beta, h3) = All-parts vk.vk_beta_g2 t4 (behind beta_g1 t3 h1) in
    let (gamma, h4) = All-parts vk.vk_gamma_g2 t5 h3 in
    let (delta, h6) = All-parts vk.vk_delta_g2 t7 (behind delta_g1 t6 h4) in
    let (ic, h8) =
      All-parts (concat vk.vk_ic) (trailer vk.vk_commitment)
        (behind (to_be 4 (length vk.vk_ic)) t8 h6) in
    record {
      count = omega (arith, g.count, g.small);
      alpha = alpha;
      beta = beta;
      gamma = gamma;
      delta = delta;
      ic = all_points vk.vk_ic ic;
      commitment = commitment_bytes vk.vk_commitment h8;
    }

-- A key that is parsed from a file of bytes has the numbers that its Rust types say: bytes below 256 in
-- each point, and a count below 2^64.
pub parse_gnark_vk_bytes-IsTyped :
    (bytes : Bytes) {vk : Groth16VerifyingkeyOwned}
    → All IsByte bytes
    → length bytes < 2 ^ 64
    → parse_gnark_vk_bytes bytes ≡ ok vk
    → IsTyped vk
parse_gnark_vk_bytes-IsTyped bytes {vk} h small e =
    let (g, (beta_g1, delta_g1, b, d, written)) =
      parse_gnark_vk_bytes-IsGnarkKey bytes {vk = vk} h small e in
    raw_bytes beta_g1 delta_g1 vk g (subst (All IsByte) written h)
