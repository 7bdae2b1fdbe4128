-- ===== src/Vk/Gnark/RoundTrip.antt =====
-- `parse_gnark_vk_bytes` of src/vk/gnark.rs reads back every key that gnark's layout writes.
use groth16_solana.Prelude.{
  sym, append-nil, ◌^◌, ◌≤◌, ◌<◌, ◌≡◌, refl, ◌∙◌, Option, none, some, [], ◌++◌, ok, length, arith,
  length-append, eq→==,
}
use groth16_solana.Prelude.Bytes.{Bytes, to_be, length-to_be}
use groth16_solana.Groth16.{CommitmentVerifyingKey}
use groth16_solana.Groth16.Layout.{concat}
use groth16_solana.Vk.Gnark.{Groth16VerifyingkeyOwned, parse_gnark_vk_bytes}
use groth16_solana.Vk.Gnark.Reader.{new}
use groth16_solana.Vk.Gnark.Format.{trailer, write_raw, IsSizedCommitment, IsGnarkKey}
use groth16_solana.Vk.Gnark.Reads.{
  take_head-Reads, length-concat, take_ic-Reads, points, take_nb_commitments-Reads,
  take_commitment-Reads, trailer-parts, pubinputs-extra, at_end,
}

length-trailer :
    (key : Option CommitmentVerifyingKey) → IsSizedCommitment key → length (trailer key) ≤ 268
length-trailer none h = omega (
  arith,
  length-append (to_be 4 0) (to_be 4 0 ++ []),
  length-append (to_be 4 0) [],
  length-to_be 4 0,
)
length-trailer (some key) (hg, hs) = omega (
  arith,
  length-append (to_be 4 1) (to_be 4 0 ++ (to_be 4 1 ++ (key.g2 ++ (key.g_sigma_neg_g2 ++ [])))),
  length-append (to_be 4 0) (to_be 4 1 ++ (key.g2 ++ (key.g_sigma_neg_g2 ++ []))),
  length-append (to_be 4 1) (key.g2 ++ (key.g_sigma_neg_g2 ++ [])),
  length-append key.g2 (key.g_sigma_neg_g2 ++ []),
  length-append key.g_sigma_neg_g2 [],
  length-to_be 4 0,
  length-to_be 4 1,
)

module _ (beta_g1 delta_g1 : Bytes) (vk : Groth16VerifyingkeyOwned) (g : IsGnarkKey vk)
    (hb : length beta_g1 ≡ 64) (hd : length delta_g1 ≡ 64) where
  abbrev file : Bytes
  file = write_raw beta_g1 delta_g1 vk

  abbrev tail : Bytes
  tail = to_be 4 (length vk.vk_ic) ++ (concat vk.vk_ic ++ trailer vk.vk_commitment)

  pub length-file : length file < 2 ^ 64
  length-file = omega (
    arith,
    length-append vk.vk_alpha_g1
        (beta_g1 ++ (vk.vk_beta_g2 ++ (vk.vk_gamma_g2 ++ (delta_g1 ++ (vk.vk_delta_g2 ++ tail))))),
    length-append beta_g1
        (vk.vk_beta_g2 ++ (vk.vk_gamma_g2 ++ (delta_g1 ++ (vk.vk_delta_g2 ++ tail)))),
    length-append vk.vk_beta_g2 (vk.vk_gamma_g2 ++ (delta_g1 ++ (vk.vk_delta_g2 ++ tail))),
    length-append vk.vk_gamma_g2 (delta_g1 ++ (vk.vk_delta_g2 ++ tail)),
    length-append delta_g1 (vk.vk_delta_g2 ++ tail),
    length-append vk.vk_delta_g2 tail,
    length-append (to_be 4 (length vk.vk_ic)) (concat vk.vk_ic ++ trailer vk.vk_commitment),
    length-append (concat vk.vk_ic) (trailer vk.vk_commitment),
    length-to_be 4 (length vk.vk_ic),
    length-concat vk.vk_ic g.ic,
    length-trailer vk.vk_commitment g.commitment,
    g.alpha,
    g.beta,
    g.gamma,
    g.delta,
    g.small,
    hb,
    hd,
  )

  -- Every key that gnark writes with at most one commitment, no committed public inputs and fewer
  -- than 2^32 points in its K column is read back from its file, whatever the points `beta_g1`
  -- and `delta_g1` are.
  pub parse_gnark_vk_bytes-write_raw : parse_gnark_vk_bytes file ≡ ok vk
  unfolding parse_gnark_vk_bytes
  parse_gnark_vk_bytes-write_raw =
      let r1 =
        take_head-Reads {file = file} (new file) vk beta_g1 delta_g1 tail
          (unfold new in record { buf = refl; pos = omega arith; size = length-file }) g hb hd
          (unfold new in refl) in
      let r2 =
        take_ic-Reads r1.cursor vk.vk_ic (trailer vk.vk_commitment) r1.inside r1.content g.ic
          (omega (arith, g.count)) g.small in
      let r3 =
        take_nb_commitments-Reads r2.cursor vk.vk_commitment (points vk.vk_commitment []) r2.inside
          (r2.content
            ∙ sym (append-nil (trailer vk.vk_commitment))
            ∙ trailer-parts vk.vk_commitment []) in
      let r4 =
        take_commitment-Reads r3.cursor vk.vk_commitment [] r3.inside g.commitment r3.content in
      rw r1.result (
        rw r2.result (
          rw r3.result (
            rw r4.result (
              rw (eq→== r4.cursor.pos (length file) (at_end r4.cursor r4.inside r4.content)) (
                rw (pubinputs-extra vk.vk_commitment vk.nr_pubinputs (length vk.vk_ic) g.count)
                  refl)))))
