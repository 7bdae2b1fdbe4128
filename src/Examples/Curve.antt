-- ===== src/Examples/Curve.antt =====
-- The integers modulo two with their product as a pairing: small groups on which the verifier runs.
use groth16_solana.Prelude.{
  ℕ, zero, suc, ◌*◌, ◌/◌, ◌%◌, ◌≡◌, refl, ◌∙◌, ap, ap₂, Bool, true, false, ◌&&◌, not, List, [], ◌∷◌,
  ◌++◌, ok, length, take, drop, get_or, ◌==◌, if◌then◌else◌, arith, take-append, drop-append,
  length-append,
}
use groth16_solana.Prelude.Bytes.{Bytes, IsArray, be_value}
use groth16_solana.Prelude.Buffer.{zeros, zeros-IsArray}
use groth16_solana.Syscalls.{Syscalls}
use groth16_solana.Groth16.Layout.{concat}
use groth16_solana.Groth16.Curve.{Curve, Implements, pairing_word, encode_pairs}

abbrev pub plus : Bool → Bool → Bool
plus true b = not b
plus false b = b

abbrev bit : Bool → Bytes
bit b = (if b then 1 else 0) ∷ []

unfoldable pub encode_g1 : Bool → Bytes
unfolding zeros
encode_g1 b = zeros 63 ++ bit b

unfoldable pub encode_g2 : Bool → Bytes
unfolding zeros
encode_g2 b = zeros 127 ++ bit b

abbrev decode_g1 : Bytes → Bool
decode_g1 bs = get_or bs 63 0 == 1

abbrev pub decode_g2 : Bytes → Bool
decode_g2 bs = get_or bs 127 0 == 1

abbrev pub scale : ℕ → Bool → Bool
scale n p = n % 2 == 1 && p

unfoldable pub pair_sum : List (Bool × Bool) → Bool
pair_sum [] = false
pair_sum ((p, q) ∷ ps) = plus (p && q) (pair_sum ps)

abbrev pub curve : Curve
curve = record {
  G1 = Bool;
  G2 = Bool;
  add = plus;
  scale = scale;
  encode_g1 = encode_g1;
  encode_g2 = encode_g2;
  product_is_one = λ ps. not (pair_sum ps);
}

-- The sum of the first `n` encoded pairs.
unfoldable pub pairing_sum : ℕ → Bytes → Bool
pairing_sum zero bs = false
pairing_sum (suc n) bs =
    plus (decode_g1 (take 64 bs) && decode_g2 (take 128 (drop 64 bs)))
      (pairing_sum n (drop 128 (drop 64 bs)))

abbrev pub sys : Syscalls
sys = record {
  g1_addition_be = λ x. ok (encode_g1 (plus (decode_g1 (take 64 x)) (decode_g1 (drop 64 x))));
  g1_multiplication_be = λ x. ok (encode_g1 (scale (be_value (drop 64 x)) (decode_g1 (take 64 x))));
  pairing_be = λ x. ok (pairing_word (not (pairing_sum (length x / 192) x)));
  g1_decompress_be = λ x. ok (zeros 32 ++ x);
  g2_decompress_be = λ x. ok (zeros 64 ++ x);
  sha256 = λ x. zeros 32;
}

pub g1_size : (p : Bool) → length (encode_g1 p) ≡ 64
unfolding encode_g1 zeros
g1_size true = refl
g1_size false = refl

pub g2_size : (p : Bool) → length (encode_g2 p) ≡ 128
unfolding encode_g2 zeros
g2_size true = refl
g2_size false = refl

decode-encode_g1 : (p : Bool) → decode_g1 (encode_g1 p) ≡ p
unfolding encode_g1 zeros
decode-encode_g1 true = refl
decode-encode_g1 false = refl

pub decode-encode_g2 : (p : Bool) → decode_g2 (encode_g2 p) ≡ p
unfolding encode_g2 zeros
decode-encode_g2 true = refl
decode-encode_g2 false = refl

length-pairs : (ps : List (Bool × Bool)) → length (concat (encode_pairs curve ps)) ≡ 192 * length ps
unfolding concat
length-pairs [] = refl
length-pairs ((p, q) ∷ ps) = omega (
  arith,
  length-append (encode_g1 p) (encode_g2 q ++ concat (encode_pairs curve ps)),
  length-append (encode_g2 q) (concat (encode_pairs curve ps)),
  g1_size p,
  g2_size q,
  length-pairs ps,
)

pairing_sum-pairs :
    (ps : List (Bool × Bool))
    → pairing_sum (length ps) (concat (encode_pairs curve ps)) ≡ pair_sum ps
unfolding pairing_sum pair_sum concat
pairing_sum-pairs [] = refl
pairing_sum-pairs ((p, q) ∷ ps) =
    rw
      (
        take-append 64 (encode_g1 p) (encode_g2 q ++ concat (encode_pairs curve ps)) (g1_size p),
        drop-append 64 (encode_g1 p) (encode_g2 q ++ concat (encode_pairs curve ps)) (g1_size p),
        take-append 128 (encode_g2 q) (concat (encode_pairs curve ps)) (g2_size q),
        drop-append 128 (encode_g2 q) (concat (encode_pairs curve ps)) (g2_size q),
      )
      (ap₂ plus (ap₂ ◌&&◌ (decode-encode_g1 p) (decode-encode_g2 q)) (pairing_sum-pairs ps))

pub sys-Implements : Implements curve sys
sys-Implements = record {
  g1_size = g1_size;
  g2_size = g2_size;
  addition = λ p q.
      ap (λ b. ok (encode_g1 b))
        (ap₂ plus
          (ap decode_g1 (take-append 64 (encode_g1 p) (encode_g1 q) (g1_size p))
            ∙ decode-encode_g1 p)
          (ap decode_g1 (drop-append 64 (encode_g1 p) (encode_g1 q) (g1_size p))
            ∙ decode-encode_g1 q));
  multiplication = λ p s h.
      ap (λ b. ok (encode_g1 b))
        (ap₂ scale (ap be_value (drop-append 64 (encode_g1 p) s (g1_size p)))
          (ap decode_g1 (take-append 64 (encode_g1 p) s (g1_size p)) ∙ decode-encode_g1 p));
  pairing = λ ps.
      ap (λ b. ok (pairing_word (not b)))
        (ap (λ (n : ℕ). pairing_sum n (concat (encode_pairs curve ps)))
            {x = length (concat (encode_pairs curve ps)) / 192} {y = length ps}
            (omega (arith, length-pairs ps))
          ∙ pairing_sum-pairs ps);
}

pub sha256-IsArray : (x : Bytes) → IsArray 32 (sys.sha256 x)
sha256-IsArray x = zeros-IsArray 32
