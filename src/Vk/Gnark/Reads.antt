-- ===== src/Vk/Gnark/Reads.antt =====
-- The parser's reads in src/vk/gnark.rs on the parts of a file in gnark's layout.
use groth16_solana.Prelude.{
  ℕ, zero, suc, ◌+◌, ◌-◌, ◌*◌, ◌/◌, ◌^◌, ◌≤◌, ◌<◌, ◌≡◌, refl, ◌∙◌, ap, false, Option, none, some,
  List, [], ◌∷◌, ◌++◌, ok, length, arith, All, ltb, ◌==◌, length-append, append_assoc, length-drop,
  subst,
}
use groth16_solana.Prelude.Bytes.{Bytes, be_value, to_be, length-to_be}
use groth16_solana.Groth16.{CommitmentVerifyingKey}
use groth16_solana.Groth16.Layout.{concat}
use groth16_solana.Vk.Gnark.{
  Groth16VerifyingkeyOwned, take_head, take_points, take_ic, skip_committed, take_nb_commitments,
  take_commitment_key, take_commitment, pubinputs,
}
use groth16_solana.Vk.Gnark.Reader.{Cursor, remaining, u32}
use groth16_solana.Vk.Gnark.Reader.Laws.{
  left, IsIn, Reads, take_64-Reads, take_128-Reads, u32-Reads, skip-Reads,
}
use groth16_solana.Vk.Gnark.Format.{trailer, IsSizedCommitment, extra, IsGnarkKey}

pub be_value-to_be4 : (v : ℕ) → v < 2 ^ 32 → be_value (to_be 4 v) ≡ v
unfolding be_value to_be
be_value-to_be4 v h = omega arith

pub number-Reads :
    {file : Bytes} (c : Cursor) (v : ℕ) (rest : Bytes)
    → IsIn file c
    → left c ≡ to_be 4 v ++ rest
    → v < 2 ^ 32
    → Reads file (u32 c) v rest
number-Reads {file} c v rest i e h =
    subst (λ (n : ℕ). Reads file (u32 c) n rest) (be_value-to_be4 v h)
      (u32-Reads c (to_be 4 v) rest i e (length-to_be 4 v))

pub take_head-Reads :
    {file : Bytes} (c : Cursor) (vk : Groth16VerifyingkeyOwned) (beta_g1 delta_g1 rest : Bytes)
    → IsIn file c
    → IsGnarkKey vk
    → length beta_g1 ≡ 64
    → length delta_g1 ≡ 64
    → left c
      ≡ vk.vk_alpha_g1
        ++ (beta_g1
            ++ (vk.vk_beta_g2 ++ (vk.vk_gamma_g2 ++ (delta_g1 ++ (vk.vk_delta_g2 ++ rest)))))
    → Reads file
        (take_head c)
        (record {
          alpha_g1 = vk.vk_alpha_g1;
          beta_g2 = vk.vk_beta_g2;
          gamma_g2 = vk.vk_gamma_g2;
          delta_g2 = vk.vk_delta_g2;
        })
        rest
unfolding take_head
take_head-Reads c vk beta_g1 delta_g1 rest i g hb hd e =
    let r1 = take_64-Reads c vk.vk_alpha_g1 _ i e g.alpha in
    let (c2, e2, l2, i2) = skip-Reads r1.cursor beta_g1 _ r1.inside r1.content 64 hb in
    let r3 = take_128-Reads c2 vk.vk_beta_g2 _ i2 l2 g.beta in
    let r4 = take_128-Reads r3.cursor vk.vk_gamma_g2 _ r3.inside r3.content g.gamma in
    let (c5, e5, l5, i5) = skip-Reads r4.cursor delta_g1 _ r4.inside r4.content 64 hd in
    let r6 = take_128-Reads c5 vk.vk_delta_g2 _ i5 l5 g.delta in
    record {
      cursor = r6.cursor;
      result = rw r1.result (rw e2 (rw r3.result (rw r4.result (rw e5 (rw r6.result refl)))));
      content = r6.content;
      inside = r6.inside;
    }

pub take_points-Reads :
    {file : Bytes} (n : ℕ) (c : Cursor) (points : List Bytes) (rest : Bytes)
    → IsIn file c
    → left c ≡ concat points ++ rest
    → All (λ point. length point ≡ 64) points
    → length points ≡ n
    → Reads file (take_points n c) points rest
unfolding take_points concat
take_points-Reads zero c [] rest i e h k = record {
  cursor = c;
  result = refl;
  content = e;
  inside = i;
}
take_points-Reads zero c (x ∷ points) rest i e h k = absurd (omega arith)
take_points-Reads (suc n) c [] rest i e h k = absurd (omega arith)
take_points-Reads (suc n) c (x ∷ points) rest i e (hx, h) k =
    let r1 =
      take_64-Reads c x (concat points ++ rest) i (e ∙ append_assoc x (concat points) rest) hx in
    let r2 = take_points-Reads n r1.cursor points rest r1.inside r1.content h (omega arith) in
    record {
      cursor = r2.cursor;
      result = rw r1.result (rw r2.result refl);
      content = r2.content;
      inside = r2.inside;
    }

pub length-concat :
    (points : List Bytes)
    → All (λ point. length point ≡ 64) points
    → length (concat points) ≡ 64 * length points
unfolding concat
length-concat [] h = refl
length-concat (x ∷ points) (hx, h) =
    omega (arith, length-append x (concat points), length-concat points h)

pub take_ic-Reads :
    {file : Bytes} (c : Cursor) (points : List Bytes) (rest : Bytes)
    → IsIn file c
    → left c ≡ to_be 4 (length points) ++ (concat points ++ rest)
    → All (λ point. length point ≡ 64) points
    → 0 < length points
    → length points < 2 ^ 32
    → Reads file (take_ic c) (length points, points) rest
unfolding take_ic remaining
take_ic-Reads c points rest i e h pos small =
    let r1 = number-Reads c (length points) (concat points ++ rest) i e small in
    let r2 = take_points-Reads (length points) r1.cursor points rest r1.inside r1.content h refl in
    let not_zero : (length points == 0) ≡ false = ground arith in
    let fits : ltb (remaining r1.cursor / 64) (length points) ≡ false =
      enough (remaining r1.cursor) (room r1.cursor r1.content) in
    record {
      cursor = r2.cursor;
      result = rw r1.result (rw not_zero (rw fits (rw r2.result refl)));
      content = r2.content;
      inside = r2.inside;
    }
  where
    room : (c' : Cursor) → left c' ≡ concat points ++ rest → 64 * length points ≤ remaining c'
    room c' l = omega (
      arith,
      length-drop c'.pos c'.buf,
      ap (λ t. length t) l,
      length-append (concat points) rest,
      length-concat points h,
    )

    enough : (n : ℕ) → 64 * length points ≤ n → ltb (n / 64) (length points) ≡ false
    enough n k = ground arith

-- The empty list of committed wires, and the points of the key.
abbrev pub skipped : Option CommitmentVerifyingKey → Bytes
skipped none = []
skipped (some key) = to_be 4 0

abbrev pub points : Option CommitmentVerifyingKey → Bytes → Bytes
points none more = more
points (some key) more = key.g2 ++ (key.g_sigma_neg_g2 ++ more)

pub take_nb_commitments-Reads :
    {file : Bytes} (c : Cursor) (key : Option CommitmentVerifyingKey) (rest : Bytes)
    → IsIn file c
    → left c ≡ to_be 4 (extra key) ++ (skipped key ++ (to_be 4 (extra key) ++ rest))
    → Reads file (take_nb_commitments c) (extra key) rest
unfolding take_nb_commitments skip_committed
take_nb_commitments-Reads c none rest i e =
    let r1 = number-Reads c 0 _ i e (omega arith) in
    let r2 = number-Reads r1.cursor 0 rest r1.inside r1.content (omega arith) in
    record {
      cursor = r2.cursor;
      result = rw r1.result (rw r2.result refl);
      content = r2.content;
      inside = r2.inside;
    }
take_nb_commitments-Reads c (some key) rest i e =
    let r1 = number-Reads c 1 _ i e (omega arith) in
    let r2 = number-Reads r1.cursor 0 _ r1.inside r1.content (omega arith) in
    let r3 = number-Reads r2.cursor 1 rest r2.inside r2.content (omega arith) in
    record {
      cursor = r3.cursor;
      result = rw r1.result (rw r2.result (rw r3.result refl));
      content = r3.content;
      inside = r3.inside;
    }

pub take_commitment-Reads :
    {file : Bytes} (c : Cursor) (key : Option CommitmentVerifyingKey) (more : Bytes)
    → IsIn file c
    → IsSizedCommitment key
    → left c ≡ points key more
    → Reads file (take_commitment (extra key == 1) c) key more
unfolding take_commitment take_commitment_key
take_commitment-Reads c none more i h e = record {
  cursor = c;
  result = refl;
  content = e;
  inside = i;
}
take_commitment-Reads c (some key) more i (hg, hs) e =
    let r1 = take_128-Reads c key.g2 _ i e hg in
    let r2 = take_128-Reads r1.cursor key.g_sigma_neg_g2 more r1.inside r1.content hs in
    record {
      cursor = r2.cursor;
      result = rw r1.result (rw r2.result refl);
      content = r2.content;
      inside = r2.inside;
    }

-- A trailer in front of more bytes, part by part.
pub trailer-parts :
    (key : Option CommitmentVerifyingKey) (more : Bytes)
    → trailer key ++ more
      ≡ to_be 4 (extra key) ++ (skipped key ++ (to_be 4 (extra key) ++ points key more))
unfolding to_be
trailer-parts none more = refl
trailer-parts (some key) more =
    ap (λ t. to_be 4 1 ++ (to_be 4 0 ++ (to_be 4 1 ++ t)))
      (append_assoc key.g2 (key.g_sigma_neg_g2 ++ []) more
        ∙ ap (λ t. key.g2 ++ t) (append_assoc key.g_sigma_neg_g2 [] more))

pub pubinputs-extra :
    (key : Option CommitmentVerifyingKey) (nr nb_k : ℕ)
    → nb_k ≡ nr + 1 + extra key
    → pubinputs key nb_k ≡ ok nr
unfolding pubinputs
pubinputs-extra none nr nb_k e = ap (λ (n : ℕ). ok n) {x = nb_k - 1} {y = nr} (omega (arith, e))
pubinputs-extra (some key) nr nb_k e =
    let big : ltb nb_k 2 ≡ false = ground arith in
    rw big (ap (λ (n : ℕ). ok n) {x = nb_k - 2} {y = nr} (omega (arith, e)))

-- At the end of the buffer nothing is left.
pub at_end : {file : Bytes} (c : Cursor) → IsIn file c → left c ≡ [] → c.pos ≡ length file
at_end c i e =
    omega (arith, i.pos, length-drop c.pos c.buf, ap (λ t. length t) e, ap (λ t. length t) i.buf)
