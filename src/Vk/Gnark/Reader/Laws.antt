-- ===== src/Vk/Gnark/Reader/Laws.antt =====
-- What the reads of src/vk/gnark.rs give and when they succeed, in terms of the bytes still left.
use groth16_solana.Prelude
use groth16_solana.Prelude.{
  ℕ, zero, suc, ◌+◌, ◌-◌, ◌^◌, ◌≤◌, ◌<◌, ◌≡◌, refl, ◌∙◌, ap, ap₂, sym, Bool, true, false, List, [],
  ◌∷◌, ◌++◌, Result, ok, err, ◌>>=◌, length, arith, length-take, length-drop, length-append,
  take-append, drop-append, drop-drop, take-append-drop, ok_injective, append-nil, >>=-eq-ok, ltb,
  leb, subst, ok_or,
}
use groth16_solana.Prelude.Bytes.{Bytes, be_value}
use groth16_solana.Prelude.Buffer.{zeros, copy_from_slice, copy_from_slice-zero}
use groth16_solana.Errors.{Groth16Error}
use groth16_solana.Vk.Gnark.Reader.{Cursor, take, skip, take_64, take_128, u32}

-- What is left to read.
abbrev pub left : Cursor → Bytes
left cursor = Prelude.drop cursor.pos cursor.buf

-- The cursor has not run past the end, and the buffer fits the address space.
pub record IsIn (file : Bytes) (cursor : Cursor) : Type 0 where
  pub buf : cursor.buf ≡ file
  pub pos : cursor.pos ≤ length cursor.buf
  pub size : length cursor.buf < 2 ^ 64

-- `n` bytes `xs` lie between the two cursors.
pub record Step (file : Bytes) (n : ℕ) (xs : Bytes) (c c' : Cursor) : Type 0 where
  pub content : left c ≡ xs ++ left c'
  pub size : length xs ≡ n
  pub pos : c'.pos ≡ c.pos + n
  pub inside : IsIn file c'

ltb-true : (a b : ℕ) → a < b → ltb a b ≡ true
ltb-true a b h = ground arith

leb-true : (a b : ℕ) → a ≤ b → leb a b ≡ true
leb-true a b h = ground arith

abbrev advance : ℕ → Cursor → Cursor
advance n c = record c { pos = c.pos + n }

taken-Step :
    {file : Bytes} (n : ℕ) (c : Cursor)
    → IsIn file c
    → c.pos + n ≤ length c.buf
    → Step file n (Prelude.take n (left c)) c (advance n c)
taken-Step n c i h = record {
  content =
      sym (take-append-drop n (left c))
      ∙ ap (λ t. Prelude.take n (left c) ++ t) (drop-drop n c.pos c.buf);
  size = omega (arith, length-take n (left c), length-drop c.pos c.buf);
  pos = refl;
  inside = record { buf = i.buf; pos = h; size = i.size };
}

-- A read of `n` bytes that are there.
pub take_enough :
    {file : Bytes} (n : ℕ) (c : Cursor)
    → IsIn file c
    → c.pos + n ≤ length c.buf
    → take n c ≡ ok (Prelude.take n (left c), advance n c)
unfolding take
take_enough n c i h = rw (ltb-true (c.pos + n) (2 ^ 64) (omega (arith, i.size))) (
    rw (leb-true (c.pos + n) (length c.buf) h) (
      ap (λ (k : ℕ). ok (Prelude.take k (left c), advance n c)) {x = c.pos + n - c.pos} {y = n}
        (omega arith)))

-- A read that succeeds found its bytes.
take-bound : (n : ℕ) (c : Cursor) {r : Bytes × Cursor} → take n c ≡ ok r → c.pos + n ≤ length c.buf
unfolding take
take-bound n c e = ground arith

-- `m` reads `a` off the front and leaves `rest`.
pub record Reads (file : Bytes) {A : Type 0} (m : Result Groth16Error (A × Cursor)) (a : A)
    (rest : Bytes) : Type 0 where
  pub cursor : Cursor
  pub result : m ≡ ok (a, cursor)
  pub content : left cursor ≡ rest
  pub inside : IsIn file cursor

pub take-Reads :
    {file : Bytes} (n : ℕ) (c : Cursor) (xs rest : Bytes)
    → IsIn file c
    → left c ≡ xs ++ rest
    → length xs ≡ n
    → Reads file (take n c) xs rest
take-Reads n c xs rest i e h = record {
  cursor = advance n c;
  result =
      take_enough n c i enough
      ∙ ap (λ t. ok (t, advance n c)) (ap (Prelude.take n) e ∙ take-append n xs rest h);
  content = sym (drop-drop n c.pos c.buf) ∙ ap (Prelude.drop n) e ∙ drop-append n xs rest h;
  inside = record { buf = i.buf; pos = enough; size = i.size };
}
  where
    enough : c.pos + n ≤ length c.buf
    enough =
        omega
          (arith, i.pos, length-drop c.pos c.buf, ap (λ t. length t) e ∙ length-append xs rest, h)

pub take-Step :
    {file : Bytes} (n : ℕ) (c : Cursor) {r : Bytes × Cursor}
    → IsIn file c
    → take n c ≡ ok r
    → Step file n r.0 c r.1
take-Step {file} n c {r} i e =
    let h = take-bound n c e in
    let same : ok (Prelude.take n (left c), advance n c) ≡ ok r = sym (take_enough n c i h) ∙ e in
    subst (λ p. Step file n p.0 c p.1) (ok_injective same) (taken-Step n c i h)

-- A fresh array of `n` bytes after a copy of `n` bytes.
nothing_left : (n : ℕ) → Prelude.drop n (zeros n) ≡ []
unfolding zeros
nothing_left n =
    Prelude.drop-replicate n n 0
    ∙ ap (λ (k : ℕ). Prelude.replicate {A = ℕ} k 0) {x = n - n} {y = 0} (omega arith)

copied : (n : ℕ) (xs : Bytes) → length xs ≡ n → copy_from_slice 0 n xs (zeros n) ≡ xs
copied n xs h =
    copy_from_slice-zero n xs (zeros n) h ∙ ap (λ t. xs ++ t) (nothing_left n) ∙ append-nil xs

module _ {A : Type 0} (n : ℕ) (f : Bytes → A) where
  -- The reads that convert what `take` gives.
  abbrev pub take_as : Cursor → Result Groth16Error (A × Cursor)
  take_as c = take n c >>= λ r. ok (f r.0, r.1)

  pub take_as-Reads :
      {file : Bytes} (c : Cursor) (xs rest : Bytes)
      → IsIn file c
      → left c ≡ xs ++ rest
      → length xs ≡ n
      → Reads file (take_as c) (f xs) rest
  take_as-Reads c xs rest i e h =
      let t = take-Reads n c xs rest i e h in
      record {
        cursor = t.cursor;
        result = ap (λ m. m >>= λ r. ok (f r.0, r.1)) t.result;
        content = t.content;
        inside = t.inside;
      }

  pub take_as-Step :
      {file : Bytes} (c : Cursor) {r : A × Cursor}
      → IsIn file c
      → take_as c ≡ ok r
      → (xs : Bytes) × (f xs ≡ r.0) × Step file n xs c r.1
  take_as-Step {file} c {r} i e =
      let (p, ep, er) = >>=-eq-ok (take n c) (λ q. ok (f q.0, q.1)) e in
      let s = take-Step n c i ep in
      let same : (f p.0, p.1) ≡ r = ok_injective er in
      (p.0, ap (λ q. q.0) same, subst (λ q. Step file n p.0 c q) (ap (λ q. q.1) same) s)

module _ {file : Bytes} (c : Cursor) (xs rest : Bytes) (i : IsIn file c)
    (e : left c ≡ xs ++ rest) where
  pub take_64-Reads : length xs ≡ 64 → Reads file (take_64 c) xs rest
  unfolding take_64
  take_64-Reads h =
      subst (λ a. Reads file (take_64 c) a rest) (copied 64 xs h)
        (take_as-Reads 64 (λ s. copy_from_slice 0 64 s (zeros 64)) c xs rest i e h)

  pub take_128-Reads : length xs ≡ 128 → Reads file (take_128 c) xs rest
  unfolding take_128
  take_128-Reads h =
      subst (λ a. Reads file (take_128 c) a rest) (copied 128 xs h)
        (take_as-Reads 128 (λ s. copy_from_slice 0 128 s (zeros 128)) c xs rest i e h)

  pub u32-Reads : length xs ≡ 4 → Reads file (u32 c) (be_value xs) rest
  unfolding u32
  u32-Reads h = take_as-Reads 4 be_value c xs rest i e h

  -- `skip` returns the cursor alone.
  pub skip-Reads :
      (n : ℕ) → length xs ≡ n → (c' : Cursor) × (skip n c ≡ ok c') × (left c' ≡ rest) × IsIn file c'
  unfolding skip
  skip-Reads n h =
      let t = take-Reads n c xs rest i e h in
      (t.cursor, ap (λ m. m >>= λ r. ok r.1) t.result, t.content, t.inside)

module _ {file : Bytes} (c : Cursor) (i : IsIn file c) where
  pub take_64-Step : {r : Bytes × Cursor} → take_64 c ≡ ok r → Step file 64 r.0 c r.1
  unfolding take_64
  take_64-Step {r} e =
      let (xs, f, s) = take_as-Step 64 (λ s. copy_from_slice 0 64 s (zeros 64)) c i e in
      subst (λ a. Step file 64 a c r.1) (sym (copied 64 xs s.size) ∙ f) s

  pub take_128-Step : {r : Bytes × Cursor} → take_128 c ≡ ok r → Step file 128 r.0 c r.1
  unfolding take_128
  take_128-Step {r} e =
      let (xs, f, s) = take_as-Step 128 (λ s. copy_from_slice 0 128 s (zeros 128)) c i e in
      subst (λ a. Step file 128 a c r.1) (sym (copied 128 xs s.size) ∙ f) s

  pub u32-Step :
      {r : ℕ × Cursor} → u32 c ≡ ok r → (xs : Bytes) × (be_value xs ≡ r.0) × Step file 4 xs c r.1
  unfolding u32
  u32-Step e = take_as-Step 4 be_value c i e

  pub skip-Step : (n : ℕ) {c' : Cursor} → skip n c ≡ ok c' → (xs : Bytes) × Step file n xs c c'
  unfolding skip
  skip-Step n {c'} e =
      let (p, ep, er) = >>=-eq-ok (take n c) (λ q. ok q.1) e in
      (p.0, subst (λ q. Step file n p.0 c q) (ok_injective er) (take-Step n c i ep))
