-- ===== src/Vk/Gnark/Points.antt =====
-- Inversion of the parser's reads in src/vk/gnark.rs up to the K column: what a success says of the
-- bytes read.
use groth16_solana.Prelude
use groth16_solana.Prelude.{
  ℕ, zero, suc, ◌+◌, ◌-◌, ◌*◌, ◌/◌, ◌^◌, ◌≤◌, ◌<◌, ◌≡◌, refl, ◌∙◌, ap, ap₂, sym, Bool, true, false,
  not, Option, none, some, List, [], ◌∷◌, ◌++◌, Result, ok, err, ◌>>=◌, ◌>>◌, reject_if, length,
  arith, All, ltb, ◌==◌, length-append, append_assoc, length-drop, subst, ==→eq, >>=-eq-ok,
  reject_if-eq-ok, ok_injective, take-append, All-take, All-drop,
}
use groth16_solana.Prelude.Bytes.{
  Bytes, IsByte, be_value, to_be, length-to_be, to_be-IsArray, be_value_injective, be_value-lt,
}
use groth16_solana.Groth16.Layout.{concat}
use groth16_solana.Vk.Gnark.{Head, take_head, take_points, take_ic}
use groth16_solana.Vk.Gnark.Reader.{Cursor, remaining, skip, take_64, take_128, u32}
use groth16_solana.Vk.Gnark.Reader.Laws.{
  left, IsIn, take_64-Step, take_128-Step, u32-Step, skip-Step,
}
use groth16_solana.Vk.Gnark.Reads.{be_value-to_be4}

module _ (file : Bytes) (h : All IsByte file) where
  pub left-IsByte : (c : Cursor) → IsIn file c → All IsByte (left c)
  left-IsByte c i = All-drop IsByte c.pos c.buf (subst (All IsByte) (sym i.buf) h)

  -- Four bytes are the encoding of the number that they give.
  pub number :
      (c : Cursor) {r : ℕ × Cursor}
      → IsIn file c
      → u32 c ≡ ok r
      → (left c ≡ to_be 4 r.0 ++ left r.1) × (r.0 < 2 ^ 32) × IsIn file r.1
  number c {r} i e =
      let (xs, v, s) = u32-Step c i e in
      let bytes : All IsByte xs =
        subst (All IsByte) (ap (Prelude.take 4) s.content ∙ take-append 4 xs (left r.1) s.size)
          (All-take IsByte 4 (left c) (left-IsByte c i)) in
      let small : r.0 < 2 ^ 32 =
        subst (λ (n : ℕ). n < 2 ^ 32) v
          (subst (λ (n : ℕ). be_value xs < 256 ^ n) {x = length xs} {y = 4} s.size
            (be_value-lt xs bytes)) in
      let same : xs ≡ to_be 4 r.0 =
        be_value_injective xs (to_be 4 r.0) bytes (to_be-IsArray 4 r.0).bytes
          (s.size ∙ sym (length-to_be 4 r.0)) (v ∙ sym (be_value-to_be4 r.0 small)) in
      (s.content ∙ ap (λ t. t ++ left r.1) same, small, s.inside)

  pub points :
      (n : ℕ) (c : Cursor) {r : List Bytes × Cursor}
      → IsIn file c
      → take_points n c ≡ ok r
      → (left c ≡ concat r.0 ++ left r.1)
        × All (λ point. length point ≡ 64) r.0
        × (length r.0 ≡ n)
        × IsIn file r.1
  unfolding take_points concat
  points zero c {r} i e =
      subst
        (λ q.
          (left c ≡ concat q.0 ++ left q.1)
          × All (λ point. length point ≡ 64) q.0
          × (length q.0 ≡ 0)
          × IsIn file q.1)
        (ok_injective e) (refl, tt, refl, i)
  points (suc n) c {r} i e =
      let (p, ep, e') = >>=-eq-ok (take_64 c) _ e in
      let (q, eq, e'') = >>=-eq-ok (take_points n p.1) _ e' in
      let s = take_64-Step c i ep in
      let (content, sizes, count, inside) = points n p.1 s.inside eq in
      subst
        (λ q.
          (left c ≡ concat q.0 ++ left q.1)
          × All (λ point. length point ≡ 64) q.0
          × (length q.0 ≡ suc n)
          × IsIn file q.1)
        (ok_injective e'')
        (
          s.content ∙ ap (λ t. p.0 ++ t) content ∙ sym (append_assoc p.0 (concat q.0) (left q.1)),
          (s.size, sizes),
          ap suc count,
          inside,
        )

  -- A head with the two points that the parser skips.
  pub record HeadStep (c : Cursor) (head : Head) (c' : Cursor) : Type 0 where
    pub beta_g1 : Bytes
    pub delta_g1 : Bytes
    pub content :
        left c
        ≡ head.alpha_g1
          ++ (beta_g1
              ++ (head.beta_g2 ++ (head.gamma_g2 ++ (delta_g1 ++ (head.delta_g2 ++ left c')))))
    pub skipped_beta : length beta_g1 ≡ 64
    pub skipped_delta : length delta_g1 ≡ 64
    pub alpha : length head.alpha_g1 ≡ 64
    pub beta : length head.beta_g2 ≡ 128
    pub gamma : length head.gamma_g2 ≡ 128
    pub delta : length head.delta_g2 ≡ 128
    pub inside : IsIn file c'

  pub head-HeadStep :
      (c : Cursor) {r : Head × Cursor} → IsIn file c → take_head c ≡ ok r → HeadStep c r.0 r.1
  unfolding take_head
  head-HeadStep c {r} i e =
      let (p1, e1, k1) = >>=-eq-ok (take_64 c) _ e in
      let (c2, e2, k2) = >>=-eq-ok (skip 64 p1.1) _ k1 in
      let (p3, e3, k3) = >>=-eq-ok (take_128 c2) _ k2 in
      let (p4, e4, k4) = >>=-eq-ok (take_128 p3.1) _ k3 in
      let (c5, e5, k5) = >>=-eq-ok (skip 64 p4.1) _ k4 in
      let (p6, e6, k6) = >>=-eq-ok (take_128 c5) _ k5 in
      let s1 = take_64-Step c i e1 in
      let (beta_g1, s2) = skip-Step p1.1 s1.inside 64 e2 in
      let s3 = take_128-Step c2 s2.inside e3 in
      let s4 = take_128-Step p3.1 s3.inside e4 in
      let (delta_g1, s5) = skip-Step p4.1 s4.inside 64 e5 in
      let s6 = take_128-Step c5 s5.inside e6 in
      subst (λ q. HeadStep c q.0 q.1) (ok_injective k6)
        (record {
          beta_g1 = beta_g1;
          delta_g1 = delta_g1;
          content =
              rw s1.content (
                rw s2.content (rw s3.content (rw s4.content (rw s5.content (rw s6.content refl)))));
          skipped_beta = s2.size;
          skipped_delta = s5.size;
          alpha = s1.size;
          beta = s3.size;
          gamma = s4.size;
          delta = s6.size;
          inside = s6.inside;
        })

  -- The K column, with the guard against an empty one.
  pub record IcStep (c : Cursor) (ic : ℕ × List Bytes) (c' : Cursor) : Type 0 where
    pub content : left c ≡ to_be 4 (length ic.1) ++ (concat ic.1 ++ left c')
    pub sizes : All (λ point. length point ≡ 64) ic.1
    pub count : length ic.1 ≡ ic.0
    pub some_point : 0 < ic.0
    pub small : ic.0 < 2 ^ 32
    pub inside : IsIn file c'

  pub ic-IcStep :
      (c : Cursor) {r : (ℕ × List Bytes) × Cursor}
      → IsIn file c
      → take_ic c ≡ ok r
      → IcStep c r.0 r.1
  unfolding take_ic
  ic-IcStep c {r} i e =
      let (p1, e1, k1) = >>=-eq-ok (u32 c) _ e in
      let (g2, k2) = reject_if-eq-ok (p1.0 == 0) _ _ k1 in
      let (g3, k3) = reject_if-eq-ok (ltb (remaining p1.1 / 64) p1.0) _ _ k2 in
      let (p4, e4, k4) = >>=-eq-ok (take_points p1.0 p1.1) _ k3 in
      let (content, small, inside) = number c i e1 in
      let (content', sizes, count, inside') = points p1.0 p1.1 inside e4 in
      subst (λ q. IcStep c q.0 q.1) (ok_injective k4)
        (record {
          content =
              content
              ∙ ap₂ (λ (n : ℕ) t. to_be 4 n ++ t) {x = p1.0} {y = length p4.0} (sym count) content';
          sizes = sizes;
          count = count;
          some_point = ground arith;
          small = small;
          inside = inside';
        })
