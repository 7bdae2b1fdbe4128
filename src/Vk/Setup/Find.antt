-- ===== src/Vk/Setup/Find.antt =====
-- The markers that `find_setup_txts` of src/vk/setup.rs finds.
use groth16_solana.Prelude.{
  ℕ, zero, suc, ◌+◌, ◌≤◌, ◌<◌, ◌≡◌, refl, ◌∙◌, ap, sym, true, false, ◌&&◌, none, some, List, [],
  ◌∷◌, ◌++◌, ok, map, length, drop, ◌==◌, arith, All, length-append, append_assoc, take-append,
  drop-append, drop-drop, ==_refl,
}
use groth16_solana.Prelude.Bytes.{Bytes}
use groth16_solana.Vk.Setup.{
  SetupTxt, setup_txt_begin, setup_txt_end, body, to_marker, find_bytes, read_txt, scan,
  find_setup_txts,
}
use groth16_solana.Vk.Setup.Text.{starts_with, next_index}
use groth16_solana.Vk.Setup.Body.{IsNameByte, IsWritable, body-bytes, parse_body-body}

-- Bytes that no delimiter starts with.
abbrev IsOther : ℕ → Type 0
IsOther b = (b'=' == b) ≡ false

starts_with-append : (needle rest : Bytes) → starts_with needle (needle ++ rest) ≡ true
unfolding starts_with
starts_with-append [] rest = refl
starts_with-append (n ∷ needle) rest = rw (==_refl n) (starts_with-append needle rest)

not_here :
    (needle : Bytes) (b : ℕ) (bs : Bytes) → IsOther b → starts_with (b'=' ∷ needle) (b ∷ bs) ≡ false
unfolding starts_with
not_here needle b bs h = rw h refl

find_bytes-append :
    (gap needle rest : Bytes)
    → All IsOther gap
    → find_bytes (gap ++ ((b'=' ∷ needle) ++ rest)) (b'=' ∷ needle) ≡ some (length gap)
unfolding find_bytes
find_bytes-append [] needle rest h = rw (starts_with-append (b'=' ∷ needle) rest) refl
find_bytes-append (b ∷ gap) needle rest (hb, h) =
    rw (not_here needle b (gap ++ ((b'=' ∷ needle) ++ rest)) hb)
      (ap next_index (find_bytes-append gap needle rest h))

starts_with-long :
    (needle xs ys : Bytes)
    → length needle ≤ length xs
    → starts_with needle (xs ++ ys) ≡ starts_with needle xs
unfolding starts_with
starts_with-long [] xs ys h = refl
starts_with-long (n ∷ needle) [] ys h = absurd (omega (arith, h))
starts_with-long (n ∷ needle) (x ∷ xs) ys h =
    ap (λ b. (n == x) && b) (starts_with-long needle xs ys (omega (arith, h)))

-- Of `gap` and the needle behind it, the needle starts at the end of `gap` and nowhere before.
abbrev pub IsFree : Bytes → Bytes → Type 0
IsFree needle [] = Unit {0}
IsFree needle (b ∷ gap) = (starts_with needle ((b ∷ gap) ++ needle) ≡ false) × IsFree needle gap

-- The needle starts nowhere in the bytes.
abbrev pub IsAbsent : Bytes → Bytes → Type 0
IsAbsent needle [] = Unit {0}
IsAbsent needle (b ∷ bs) = (starts_with needle (b ∷ bs) ≡ false) × IsAbsent needle bs

find_bytes-free :
    (gap : Bytes) (n : ℕ) (needle rest : Bytes)
    → IsFree (n ∷ needle) gap
    → find_bytes (gap ++ ((n ∷ needle) ++ rest)) (n ∷ needle) ≡ some (length gap)
unfolding find_bytes
find_bytes-free [] n needle rest h = rw (starts_with-append (n ∷ needle) rest) refl
find_bytes-free (b ∷ gap) n needle rest (hb, h) =
    rw elsewhere (ap next_index (find_bytes-free gap n needle rest h))
  where
    elsewhere : starts_with (n ∷ needle) (b ∷ (gap ++ ((n ∷ needle) ++ rest))) ≡ false
    elsewhere =
        ap (starts_with (n ∷ needle)) (sym (append_assoc (b ∷ gap) (n ∷ needle) rest))
        ∙ starts_with-long (n ∷ needle) ((b ∷ gap) ++ (n ∷ needle)) rest
            (omega (arith, length-append (b ∷ gap) (n ∷ needle)))
        ∙ hb

find_bytes-absent : (bs : Bytes) (needle : Bytes) → IsAbsent needle bs → find_bytes bs needle ≡ none
unfolding find_bytes
find_bytes-absent [] needle h = refl
find_bytes-absent (b ∷ bs) needle (hb, h) = rw hb (ap next_index (find_bytes-absent bs needle h))

others : (bs : Bytes) → All IsNameByte bs → All IsOther bs
others [] h = tt
others (b ∷ bs) (hb, h) = (ground arith, others bs h)

-- A binary with markers between other bytes.
unfoldable pub image : List (Bytes × SetupTxt) → Bytes → Bytes
image [] end = end
image ((gap, txt) ∷ texts) end = gap ++ (to_marker txt ++ image texts end)

pub record IsImage (texts : List (Bytes × SetupTxt)) (end : Bytes) : Type 0 where
  pub gaps : All (λ p. IsFree setup_txt_begin p.0) texts
  pub writable : All (λ p. IsWritable p.1) texts
  pub end_gap : IsAbsent setup_txt_begin end

read_txt-marker :
    (binary : Bytes) (offset : ℕ) (txt : SetupTxt) (rest : Bytes)
    → IsWritable txt
    → drop offset binary ≡ setup_txt_begin ++ (body txt ++ (setup_txt_end ++ rest))
    → (pos : ℕ) × (read_txt binary offset ≡ ok (txt, pos)) × (drop pos binary ≡ rest)
unfolding read_txt
read_txt-marker binary offset txt rest w e = (
  offset + length setup_txt_begin + length (body txt) + length setup_txt_end,
  rw behind (
      rw
        (
          find_bytes-append (body txt) (drop 1 setup_txt_end) rest
              (body-bytes txt w {P = IsOther} refl others),
          take-append (length (body txt)) (body txt) (setup_txt_end ++ rest) refl,
          parse_body-body txt w offset,
        )
        refl),
  next,
)
  where
    behind : drop (offset + length setup_txt_begin) binary ≡ body txt ++ (setup_txt_end ++ rest)
    behind =
        sym (drop-drop (length setup_txt_begin) offset binary)
        ∙ ap (drop (length setup_txt_begin)) e
        ∙ drop-append (length setup_txt_begin) setup_txt_begin _ refl

    next :
        drop (offset + length setup_txt_begin + length (body txt) + length setup_txt_end) binary
        ≡ rest
    next =
        sym (
          drop-drop (length setup_txt_end) (offset + length setup_txt_begin + length (body txt))
            binary)
        ∙ ap (drop (length setup_txt_end)) (
            sym (drop-drop (length (body txt)) (offset + length setup_txt_begin) binary)
            ∙ ap (drop (length (body txt))) behind
            ∙ drop-append (length (body txt)) (body txt) (setup_txt_end ++ rest) refl)
        ∙ drop-append (length setup_txt_end) setup_txt_end rest refl

scan-image :
    (fuel : ℕ) (binary : Bytes) (pos : ℕ) (texts : List (Bytes × SetupTxt)) (end : Bytes)
    → IsImage texts end
    → drop pos binary ≡ image texts end
    → length texts < fuel
    → scan fuel binary pos ≡ some (ok (map (λ p. p.1) texts))
unfolding image scan
scan-image zero binary pos texts end i e h = absurd (omega arith)
scan-image (suc fuel) binary pos [] end i e h =
    let nothing : find_bytes (drop pos binary) setup_txt_begin ≡ none =
      ap (λ t. find_bytes t setup_txt_begin) e ∙ find_bytes-absent end setup_txt_begin i.end_gap in
    rw (nothing, scan) refl
scan-image (suc fuel) binary pos ((gap, txt) ∷ texts) end i e h =
    let (gap_ok, gaps) = i.gaps in
    let (txt_ok, writable) = i.writable in
    let tail = body txt ++ (setup_txt_end ++ image texts end) in
    let whole : drop pos binary ≡ gap ++ (setup_txt_begin ++ tail) =
      e ∙ ap (λ t. gap ++ t) (unfold to_marker in marker txt (image texts end)) in
    let start : find_bytes (drop pos binary) setup_txt_begin ≡ some (length gap) =
      ap (λ t. find_bytes t setup_txt_begin) whole
      ∙ find_bytes-free gap 61 (drop 1 setup_txt_begin) tail gap_ok in
    let found : drop (pos + length gap) binary ≡ setup_txt_begin ++ tail =
      sym (drop-drop (length gap) pos binary)
      ∙ ap (drop (length gap)) whole
      ∙ drop-append (length gap) gap (setup_txt_begin ++ tail) refl in
    let (pos', read, rest) =
      read_txt-marker binary (pos + length gap) txt (image texts end) txt_ok found in
    let others_found =
      scan-image fuel binary pos' texts end
        (record { gaps = gaps; writable = writable; end_gap = i.end_gap }) rest (omega arith) in
    rw (start, scan) (rw (read, others_found) refl)
  where
    marker :
        (txt : SetupTxt) (rest : Bytes)
        → (setup_txt_begin ++ (body txt ++ setup_txt_end)) ++ rest
          ≡ setup_txt_begin ++ (body txt ++ (setup_txt_end ++ rest))
    marker txt rest =
        append_assoc setup_txt_begin (body txt ++ setup_txt_end) rest
        ∙ ap (λ t. setup_txt_begin ++ t) (append_assoc (body txt) setup_txt_end rest)

length-image :
    (texts : List (Bytes × SetupTxt)) (end : Bytes) → length texts ≤ length (image texts end)
unfolding image to_marker
length-image [] end = omega arith
length-image ((gap, txt) ∷ texts) end = omega (
  arith,
  length-append gap ((setup_txt_begin ++ (body txt ++ setup_txt_end)) ++ image texts end),
  length-append (setup_txt_begin ++ (body txt ++ setup_txt_end)) (image texts end),
  length-append setup_txt_begin (body txt ++ setup_txt_end),
  length-image texts end,
)

-- From a binary in which the markers of some texts lie, in any number, with any bytes in front, between
-- and behind them among which no further opening delimiter starts, the search gives exactly those texts
-- in their order.
pub find_setup_txts-image :
    (texts : List (Bytes × SetupTxt)) (end : Bytes)
    → IsImage texts end
    → find_setup_txts (image texts end) ≡ some (ok (map (λ p. p.1) texts))
unfolding find_setup_txts
find_setup_txts-image texts end i =
    scan-image (suc (length (image texts end))) (image texts end) 0 texts end i refl
      (omega (arith, length-image texts end))
