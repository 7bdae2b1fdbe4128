-- ===== src/Vk/Gnark/Sound.antt =====
-- `parse_gnark_vk_bytes` of src/vk/gnark.rs accepts nothing but files in gnark's layout.
use groth16_solana.Prelude.{
  ℕ, ◌^◌, ◌<◌, ◌≡◌, refl, ◌∙◌, ap, Bool, true, false, not, Option, List, ◌++◌, ok, length, arith,
  All, ◌==◌, subst, ==→eq, >>=-eq-ok, reject_if-eq-ok, ok_injective,
}
use groth16_solana.Prelude.Bytes.{Bytes, IsByte, to_be}
use groth16_solana.Groth16.{CommitmentVerifyingKey}
use groth16_solana.Groth16.Layout.{concat}
use groth16_solana.Vk.Gnark.{
  Groth16VerifyingkeyOwned, Head, take_head, take_ic, take_nb_commitments, take_commitment,
  pubinputs, parse_gnark_vk_bytes,
}
use groth16_solana.Vk.Gnark.Reader.{Cursor, new}
use groth16_solana.Vk.Gnark.Reader.Laws.{left, IsIn}
use groth16_solana.Vk.Gnark.Format.{trailer, write_raw, IsGnarkKey}
use groth16_solana.Vk.Gnark.Points.{HeadStep, head-HeadStep, IcStep, ic-IcStep}
use groth16_solana.Vk.Gnark.Counts.{
  CountStep, nb_commitments-CountStep, CommitmentStep, commitment-CommitmentStep, trailer-content,
  nothing_left, pubinputs_count,
}

module _ (file : Bytes) (h : All IsByte file) where
  -- The layout's conditions on a key, with the two points that the key does not hold.
  abbrev Accepted : Groth16VerifyingkeyOwned → Type 0
  Accepted vk =
      IsGnarkKey vk
      × ((beta_g1 : Bytes) × (delta_g1 : Bytes) × (length beta_g1 ≡ 64)
          × (length delta_g1 ≡ 64)
          × (file ≡ write_raw beta_g1 delta_g1 vk))

  assemble :
      {c1 c2 c3 c4 : Cursor} {head : Head} {ic : ℕ × List Bytes} {n nr : ℕ}
      {key : Option CommitmentVerifyingKey}
      → HeadStep file h (new file) head c1
      → IcStep file h c1 ic c2
      → CountStep file h c2 n c3
      → CommitmentStep file h c3 n key c4
      → c4.pos ≡ length file
      → pubinputs key ic.0 ≡ ok nr
      → Accepted (record {
        nr_pubinputs = nr;
        vk_alpha_g1 = head.alpha_g1;
        vk_beta_g2 = head.beta_g2;
        vk_gamma_g2 = head.gamma_g2;
        vk_delta_g2 = head.delta_g2;
        vk_ic = ic.1;
        vk_commitment = key;
      })
  unfolding new
  assemble {c1} {c2} {c3} {c4} {head} {ic} {n} {nr} {key} s t u v e p = (
    record {
      alpha = s.alpha;
      beta = s.beta;
      gamma = s.gamma;
      delta = s.delta;
      ic = t.sizes;
      count = t.count ∙ pubinputs_count file h key ic.0 t.some_point p;
      small = omega (arith, t.count, t.small);
      commitment = v.sizes;
    },
    (s.beta_g1, s.delta_g1, s.skipped_beta, s.skipped_delta, layout),
  )
    where
      rest : left c1 ≡ to_be 4 (length ic.1) ++ (concat ic.1 ++ trailer key)
      rest =
          t.content
          ∙ ap (λ x. to_be 4 (length ic.1) ++ (concat ic.1 ++ x))
              (trailer-content file h c2 c3 c4 n key u v (nothing_left file h c4 v.inside e))

      layout :
          file
          ≡ head.alpha_g1
            ++ (s.beta_g1
                ++ (head.beta_g2
                    ++ (head.gamma_g2
                        ++ (s.delta_g1
                            ++ (head.delta_g2
                                ++ (to_be 4 (length ic.1) ++ (concat ic.1 ++ trailer key)))))))
      layout =
          s.content
          ∙ ap
              (λ x.
                head.alpha_g1
                ++ (s.beta_g1
                    ++ (head.beta_g2 ++ (head.gamma_g2 ++ (s.delta_g1 ++ (head.delta_g2 ++ x))))))
              rest

-- Whatever the parser accepts is a file in gnark's layout for the key that it returns: every length
-- is right, nothing follows, there is at most one commitment, no wire is committed, and the K
-- column has the constant's point, one for each public input, and one for the commitment.
pub parse_gnark_vk_bytes-IsGnarkKey :
    (bytes : Bytes) {vk : Groth16VerifyingkeyOwned}
    → All IsByte bytes
    → length bytes < 2 ^ 64
    → parse_gnark_vk_bytes bytes ≡ ok vk
    → IsGnarkKey vk
      × ((beta_g1 : Bytes) × (delta_g1 : Bytes) × (length beta_g1 ≡ 64)
          × (length delta_g1 ≡ 64)
          × (bytes ≡ write_raw beta_g1 delta_g1 vk))
unfolding parse_gnark_vk_bytes new
parse_gnark_vk_bytes-IsGnarkKey bytes {vk} h small e =
    let (p1, e1, k1) = >>=-eq-ok (take_head (new bytes)) _ e in
    let (p2, e2, k2) = >>=-eq-ok (take_ic p1.1) _ k1 in
    let (p3, e3, k3) = >>=-eq-ok (take_nb_commitments p2.1) _ k2 in
    let (p4, e4, k4) = >>=-eq-ok (take_commitment (p3.0 == 1) p3.1) _ k3 in
    let (g5, k5) = reject_if-eq-ok (not (p4.1.pos == length bytes)) _ _ k4 in
    let (nr, e6, k6) = >>=-eq-ok (pubinputs p4.0 p2.0.0) _ k5 in
    let i : IsIn bytes (new bytes) = start in
    let s1 = head-HeadStep bytes h (new bytes) i e1 in
    let s2 = ic-IcStep bytes h p1.1 s1.inside e2 in
    let s3 = nb_commitments-CountStep bytes h p2.1 s2.inside e3 in
    let s4 = commitment-CommitmentStep bytes h p3.0 p3.1 s3.bound s3.inside e4 in
    let at_end : p4.1.pos ≡ length bytes = ==→eq p4.1.pos (length bytes) (not_false g5) in
    subst (Accepted bytes h) (ok_injective k6) (assemble bytes h s1 s2 s3 s4 at_end e6)
  where
    not_false : {b : Bool} → not b ≡ false → b ≡ true
    not_false {b = true} k = refl
    not_false {b = false} k = cc

    start : IsIn bytes (new bytes)
    start = record { buf = refl; pos = omega arith; size = small }
