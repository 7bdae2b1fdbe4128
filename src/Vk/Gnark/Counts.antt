-- ===== src/Vk/Gnark/Counts.antt =====
-- Inversion of the parser's reads in src/vk/gnark.rs behind the K column.
use groth16_solana.Prelude.{
  ℕ, zero, suc, ◌+◌, ◌≤◌, ◌<◌, ◌≡◌, refl, ◌∙◌, ap, ap₂, sym, not, Option, none, some, [], ◌∷◌, ◌++◌,
  ok, length, arith, All, ltb, ◌==◌, append_assoc, length-drop, subst, >>=-eq-ok, reject_if-eq-ok,
  ok_injective,
}
use groth16_solana.Prelude.Bytes.{Bytes, IsByte, to_be}
use groth16_solana.Groth16.{CommitmentVerifyingKey}
use groth16_solana.Vk.Gnark.{
  skip_committed, take_nb_commitments, take_commitment_key, take_commitment, pubinputs,
}
use groth16_solana.Vk.Gnark.Reader.{Cursor, take_128, u32}
use groth16_solana.Vk.Gnark.Reader.Laws.{left, IsIn, take_128-Step}
use groth16_solana.Vk.Gnark.Format.{trailer, IsSizedCommitment, extra}
use groth16_solana.Vk.Gnark.Points.{number}

module _ (file : Bytes) (h : All IsByte file) where
  -- `n` empty lists of wires.
  abbrev pub empty_lists : ℕ → Bytes
  empty_lists zero = []
  empty_lists (suc n) = to_be 4 0 ++ empty_lists n

  pub committed :
      (n : ℕ) (c : Cursor) {c' : Cursor}
      → IsIn file c
      → skip_committed n c ≡ ok c'
      → (left c ≡ empty_lists n ++ left c') × IsIn file c'
  unfolding skip_committed
  committed zero c i e = subst (λ q. (left c ≡ left q) × IsIn file q) (ok_injective e) (refl, i)
  committed (suc n) c {c'} i e =
      let (p, e1, k1) = >>=-eq-ok (u32 c) _ e in
      let (g, k2) = reject_if-eq-ok (not (p.0 == 0)) _ _ k1 in
      let (content, small, inside) = number file h c i e1 in
      let (content', inside') = committed n p.1 {c' = c'} inside k2 in
      let none_committed : p.0 ≡ 0 = ground arith in
      (
        content
            ∙ ap₂ (λ (m : ℕ) t. to_be 4 m ++ t) {x = p.0} {y = 0} none_committed content'
            ∙ sym (append_assoc (to_be 4 0) (empty_lists n) (left c')),
        inside',
      )

  pub record CountStep (c : Cursor) (n : ℕ) (c' : Cursor) : Type 0 where
    pub content : left c ≡ to_be 4 n ++ (empty_lists n ++ (to_be 4 n ++ left c'))
    pub bound : n ≤ 1
    pub inside : IsIn file c'

  pub nb_commitments-CountStep :
      (c : Cursor) {r : ℕ × Cursor}
      → IsIn file c
      → take_nb_commitments c ≡ ok r
      → CountStep c r.0 r.1
  unfolding take_nb_commitments
  nb_commitments-CountStep c {r} i e =
      let (p1, e1, k1) = >>=-eq-ok (u32 c) _ e in
      let (g2, k2) = reject_if-eq-ok (ltb 1 p1.0) _ _ k1 in
      let (c3, e3, k3) = >>=-eq-ok (skip_committed p1.0 p1.1) _ k2 in
      let (p4, e4, k4) = >>=-eq-ok (u32 c3) _ k3 in
      let (g5, k5) = reject_if-eq-ok (ltb 1 p4.0) _ _ k4 in
      let (g6, k6) = reject_if-eq-ok (not (p4.0 == p1.0)) _ _ k5 in
      let (content1, small1, inside1) = number file h c i e1 in
      let (content3, inside3) = committed p1.0 p1.1 inside1 e3 in
      let (content4, small4, inside4) = number file h c3 inside3 e4 in
      let same : p1.0 ≡ p4.0 = ground arith in
      subst (λ q. CountStep c q.0 q.1) (ok_injective k6)
        (record {
          content =
              content1
              ∙ ap (λ t. to_be 4 p1.0 ++ t) (content3 ∙ ap (λ t. empty_lists p1.0 ++ t) content4)
              ∙ ap (λ (n : ℕ). to_be 4 n ++ (empty_lists n ++ (to_be 4 p4.0 ++ left p4.1))) same;
          bound = ground arith;
          inside = inside4;
        })

  -- The two points of a Pedersen key.
  abbrev pub key_points : Option CommitmentVerifyingKey → Bytes
  key_points none = []
  key_points (some key) = key.g2 ++ key.g_sigma_neg_g2

  pub record CommitmentStep (c : Cursor) (n : ℕ) (key : Option CommitmentVerifyingKey) (c' : Cursor)
      : Type 0 where
    pub content : left c ≡ key_points key ++ left c'
    pub sizes : IsSizedCommitment key
    pub count : n ≡ extra key
    pub inside : IsIn file c'

  pub commitment-CommitmentStep :
      (n : ℕ) (c : Cursor) {r : Option CommitmentVerifyingKey × Cursor}
      → n ≤ 1
      → IsIn file c
      → take_commitment (n == 1) c ≡ ok r
      → CommitmentStep c n r.0 r.1
  unfolding take_commitment take_commitment_key
  commitment-CommitmentStep zero c {r} b i e =
      subst (λ q. CommitmentStep c 0 q.0 q.1) (ok_injective e)
        (record { content = refl; sizes = tt; count = refl; inside = i })
  commitment-CommitmentStep (suc zero) c {r} b i e =
      let (p1, e1, k1) = >>=-eq-ok (take_128 c) _ e in
      let (p2, e2, k2) = >>=-eq-ok (take_128 p1.1) _ k1 in
      let s1 = take_128-Step c i e1 in
      let s2 = take_128-Step p1.1 s1.inside e2 in
      subst (λ q. CommitmentStep c 1 q.0 q.1) (ok_injective k2)
        (record {
          content =
              s1.content
              ∙ ap (λ t. p1.0 ++ t) s2.content
              ∙ sym (append_assoc p1.0 p2.0 (left p2.1));
          sizes = (s1.size, s2.size);
          count = refl;
          inside = s2.inside;
        })
  commitment-CommitmentStep (suc (suc n)) c b i e = absurd (omega arith)

  pub trailer-content :
      (c1 c2 c3 : Cursor) (n : ℕ) (key : Option CommitmentVerifyingKey)
      → CountStep c1 n c2
      → CommitmentStep c2 n key c3
      → left c3 ≡ []
      → left c1 ≡ trailer key
  unfolding to_be
  trailer-content c1 c2 c3 n none s t e =
      s.content
      ∙ ap (λ (m : ℕ). to_be 4 m ++ (empty_lists m ++ (to_be 4 m ++ left c2))) t.count
      ∙ ap (λ u. to_be 4 0 ++ (to_be 4 0 ++ u)) (t.content ∙ e)
  trailer-content c1 c2 c3 n (some key) s t e =
      s.content
      ∙ ap (λ (m : ℕ). to_be 4 m ++ (empty_lists m ++ (to_be 4 m ++ left c2))) t.count
      ∙ ap (λ u. to_be 4 1 ++ (to_be 4 0 ++ (to_be 4 1 ++ u)))
          (t.content
            ∙ append_assoc key.g2 key.g_sigma_neg_g2 (left c3)
            ∙ ap (λ u. key.g2 ++ (key.g_sigma_neg_g2 ++ u)) e)

  pub nothing_left : (c : Cursor) → IsIn file c → c.pos ≡ length file → left c ≡ []
  nothing_left c i e =
      empty (left c) (omega (arith, length-drop c.pos c.buf, e, ap (λ t. length t) i.buf))
    where
      empty : (xs : Bytes) → length xs ≡ 0 → xs ≡ []
      empty [] k = refl
      empty (x ∷ xs) k = absurd (omega arith)

  pub pubinputs_count :
      (key : Option CommitmentVerifyingKey) (nb_k : ℕ) {nr : ℕ}
      → 0 < nb_k
      → pubinputs key nb_k ≡ ok nr
      → nb_k ≡ nr + 1 + extra key
  unfolding pubinputs
  pubinputs_count none nb_k {nr} h e = omega (arith, ok_injective e)
  pubinputs_count (some key) nb_k {nr} h e =
      let (g, k) = reject_if-eq-ok (ltb nb_k 2) _ _ e in
      let big : 2 ≤ nb_k = ground arith in omega (arith, ok_injective k)
