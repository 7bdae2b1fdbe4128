-- ===== src/Vk/Gnark.antt =====
-- src/vk/gnark.rs: the parser of gnark's `WriteRawTo` binaries.
pub mod Reader
pub mod Format
pub mod Reads
pub mod RoundTrip
mod Points
mod Counts
pub mod Rejects
pub mod Sound
pub mod Constructs
pub mod Source
pub mod Typed
pub mod Emitted
pub mod Generate
use groth16_solana.Prelude.{
  ℕ, zero, suc, ◌+◌, ◌-◌, ◌/◌, Bool, true, false, not, Option, none, some, List, [], ◌∷◌, Result,
  ok, err, ◌>>=◌, ◌>>◌, reject_if, is_some, length, ltb, ◌==◌, if◌then◌else◌,
}
use groth16_solana.Prelude.Bytes.{Bytes}
use groth16_solana.Errors.{
  Groth16Error, bsb22_invalid_verifying_key_binary, bsb22_unsupported_multi_commitment,
  bsb22_committed_public_inputs_unsupported,
}
use groth16_solana.Groth16.{CommitmentVerifyingKey, Groth16Verifyingkey}
use groth16_solana.Vk.Gnark.Reader.{Cursor, new, remaining, skip, take_64, take_128, u32}

pub record Groth16VerifyingkeyOwned : Type 0 where
  pub nr_pubinputs : ℕ
  pub vk_alpha_g1 : Bytes
  pub vk_beta_g2 : Bytes
  pub vk_gamma_g2 : Bytes
  pub vk_delta_g2 : Bytes
  pub vk_ic : List Bytes
  pub vk_commitment : Option CommitmentVerifyingKey

unfoldable pub as_borrowed : Groth16VerifyingkeyOwned → Groth16Verifyingkey
as_borrowed vk = record {
  nr_pubinputs = vk.nr_pubinputs;
  vk_alpha_g1 = vk.vk_alpha_g1;
  vk_beta_g2 = vk.vk_beta_g2;
  vk_gamma_g2 = vk.vk_gamma_g2;
  vk_delta_g2 = vk.vk_delta_g2;
  vk_ic = vk.vk_ic;
  vk_commitment = vk.vk_commitment;
}

-- The points in front of the K column.
pub record Head : Type 0 where
  pub alpha_g1 : Bytes
  pub beta_g2 : Bytes
  pub gamma_g2 : Bytes
  pub delta_g2 : Bytes

unfoldable pub take_head : Cursor → Result Groth16Error (Head × Cursor)
take_head cursor = do
  (alpha_g1, cursor) ← take_64 cursor
  cursor ← skip 64 cursor
  (beta_g2, cursor) ← take_128 cursor
  (gamma_g2, cursor) ← take_128 cursor
  cursor ← skip 64 cursor
  (delta_g2, cursor) ← take_128 cursor
  ok (
    record { alpha_g1 = alpha_g1; beta_g2 = beta_g2; gamma_g2 = gamma_g2; delta_g2 = delta_g2 },
    cursor,
  )

-- `for _ in 0..nb_k { vk_ic.push(cursor.take_64()?); }`
unfoldable pub take_points : ℕ → Cursor → Result Groth16Error (List Bytes × Cursor)
take_points zero cursor = ok ([], cursor)
take_points (suc n) cursor = do
  (point, cursor) ← take_64 cursor
  (points, cursor) ← take_points n cursor
  ok (point ∷ points, cursor)

-- `nb_k` with its two guards, and the K column.
unfoldable pub take_ic : Cursor → Result Groth16Error ((ℕ × List Bytes) × Cursor)
take_ic cursor = do
  (nb_k, cursor) ← u32 cursor
  reject_if (nb_k == 0) bsb22_invalid_verifying_key_binary
  reject_if (ltb (remaining cursor / 64) nb_k) bsb22_invalid_verifying_key_binary
  (vk_ic, cursor) ← take_points nb_k cursor
  ok ((nb_k, vk_ic), cursor)

-- The loop over `outer_len`: each list of committed wires has to be empty.
unfoldable pub skip_committed : ℕ → Cursor → Result Groth16Error Cursor
skip_committed zero cursor = ok cursor
skip_committed (suc n) cursor = do
  (inner_len, cursor) ← u32 cursor
  reject_if (not (inner_len == 0)) bsb22_committed_public_inputs_unsupported
  skip_committed n cursor

-- From `outer_len` to the checks on `nb_commitments`, which is the result.
unfoldable pub take_nb_commitments : Cursor → Result Groth16Error (ℕ × Cursor)
take_nb_commitments cursor = do
  (outer_len, cursor) ← u32 cursor
  reject_if (ltb 1 outer_len) bsb22_unsupported_multi_commitment
  cursor ← skip_committed outer_len cursor
  (nb_commitments, cursor) ← u32 cursor
  reject_if (ltb 1 nb_commitments) bsb22_unsupported_multi_commitment
  reject_if (not (nb_commitments == outer_len)) bsb22_invalid_verifying_key_binary
  ok (nb_commitments, cursor)

unfoldable pub take_commitment_key :
    Cursor → Result Groth16Error (Option CommitmentVerifyingKey × Cursor)
take_commitment_key cursor = do
  (g2, cursor) ← take_128 cursor
  (g_sigma_neg_g2, cursor) ← take_128 cursor
  ok (some (record { g2 = g2; g_sigma_neg_g2 = g_sigma_neg_g2 }), cursor)

unfoldable pub take_commitment :
    Bool → Cursor → Result Groth16Error (Option CommitmentVerifyingKey × Cursor)
take_commitment true cursor = take_commitment_key cursor
take_commitment false cursor = ok (none, cursor)

-- `nr_pubinputs` from `nb_k`.
unfoldable pub pubinputs : Option CommitmentVerifyingKey → ℕ → Result Groth16Error ℕ
pubinputs (some key) nb_k = do
  reject_if (ltb nb_k 2) bsb22_invalid_verifying_key_binary
  ok (nb_k - 2)
pubinputs none nb_k = ok (nb_k - 1)

unfoldable pub parse_gnark_vk_bytes : Bytes → Result Groth16Error Groth16VerifyingkeyOwned
parse_gnark_vk_bytes bytes = do
  (head, cursor) ← take_head (new bytes)
  ((nb_k, vk_ic), cursor) ← take_ic cursor
  (nb_commitments, cursor) ← take_nb_commitments cursor
  (vk_commitment, cursor) ← take_commitment (nb_commitments == 1) cursor
  reject_if (not (cursor.pos == length bytes)) bsb22_invalid_verifying_key_binary
  nr_pubinputs ← pubinputs vk_commitment nb_k
  ok (record {
    nr_pubinputs = nr_pubinputs;
    vk_alpha_g1 = head.alpha_g1;
    vk_beta_g2 = head.beta_g2;
    vk_gamma_g2 = head.gamma_g2;
    vk_delta_g2 = head.delta_g2;
    vk_ic = vk_ic;
    vk_commitment = vk_commitment;
  })
