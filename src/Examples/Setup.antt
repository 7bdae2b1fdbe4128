-- ===== src/Examples/Setup.antt =====
-- Setup texts in a binary, and a key whose delta was never moved.
use groth16_solana.Prelude.{
  ◌+◌, ◌^◌, ◌<◌, ◌≡◌, refl, ◌∙◌, ap, sym, Bool, ◌&&◌, true, false, not, some, none, List, [], ◌∷◌,
  Result, ok, ◌>>=◌, arith, All,
}
use groth16_solana.Prelude.Bytes.{Bytes, be_value, to_be, to_be-IsArray}
use groth16_solana.Prelude.ByteEq.{bytes_eq_refl}
use groth16_solana.Groth16.{new, verify}
use groth16_solana.Groth16.Curve.{Key, input_sum, all_in_field, encode_key}
use groth16_solana.Groth16.Forgery.{IsPairing, verify-forged}
use groth16_solana.Vk.Setup.{SetupTxt, SetupTxtError, from_hex, find_setup_txts, delta_equals_gamma}
use groth16_solana.Vk.Setup.Text.{ascii, starts_with}
use groth16_solana.Vk.Setup.Hex.{signed, from_hex-signed}
use groth16_solana.Vk.Setup.Body.{IsWritable}
use groth16_solana.Vk.Setup.Scan.{find_setup_txts-ends}
use groth16_solana.Vk.Setup.Find.{image, find_setup_txts-image}
use groth16_solana.Examples.Field.{fr}
use groth16_solana.Examples.Curve.{
  curve, sys, sys-Implements, plus, pair_sum, encode_g1, encode_g2, decode-encode_g2, decode_g2,
}

abbrev digest : Bytes
digest = to_be 32 (2 ^ 200 + 171)

abbrev text : SetupTxt
text = record { name = ascii "VK"; insecure_test_setup = true; proving_key_sha256 = digest }

text-IsWritable : IsWritable text
text-IsWritable = record { name = (refl, (refl, tt)); digest = to_be-IsArray 32 (2 ^ 200 + 171) }

-- The digits 0 to 15, twice.
abbrev small_bytes : Bytes
small_bytes =
    0 ∷ 1 ∷ 2 ∷ 3 ∷ 4 ∷ 5 ∷ 6 ∷ 7 ∷ 8 ∷ 9 ∷ 10 ∷ 11 ∷ 12 ∷ 13 ∷ 14 ∷ 15 ∷ 0 ∷ 1 ∷ 2 ∷ 3 ∷ 4 ∷ 5 ∷ 6
    ∷ 7 ∷ 8 ∷ 9 ∷ 10 ∷ 11 ∷ 12 ∷ 13 ∷ 14 ∷ 15 ∷ []

from_hex-signed_example : from_hex (signed small_bytes) ≡ some small_bytes
from_hex-signed_example = from_hex-signed small_bytes small refl
  where
    small : All (λ n. n < 16) small_bytes
    small = ground arith

find_setup_txts-ends_example :
    (r : Result SetupTxtError (List SetupTxt)) × (find_setup_txts
        (image ((ascii "ELF", text) ∷ []) [])
      ≡ some r)
find_setup_txts-ends_example = find_setup_txts-ends (image ((ascii "ELF", text) ∷ []) [])

-- A lone `=` and the start of a delimiter lie around the markers.
find_setup_txts-image_example :
    find_setup_txts (image ((ascii "E=F===", text) ∷ ([], text) ∷ []) (ascii "==end"))
    ≡ some (ok (text ∷ text ∷ []))
unfolding starts_with
find_setup_txts-image_example =
    find_setup_txts-image ((ascii "E=F===", text) ∷ ([], text) ∷ []) (ascii "==end") (record {
      gaps = ((refl, (refl, (refl, (refl, (refl, (refl, tt)))))), (tt, tt));
      writable = (text-IsWritable, (text-IsWritable, tt));
      end_gap = (refl, (refl, (refl, (refl, (refl, tt)))));
    })

plus_swap : (a b s : Bool) → plus a (plus b s) ≡ plus b (plus a s)
plus_swap true true s = refl
plus_swap false b s = refl
plus_swap true false s = refl

plus_cancel : (a s : Bool) → plus a (plus a s) ≡ s
plus_cancel false s = refl
plus_cancel true false = refl
plus_cancel true true = refl

pairing : IsPairing curve (λ p. p)
unfolding pair_sum
pairing = record {
  swap = λ p p' q q' ps. ap not (plus_swap (p && q) (p' && q') (pair_sum ps));
  rotate = λ p q x y z. ap not (
      plus_swap (p && q) (x.0 && x.1) (plus (y.0 && y.1) (plus (z.0 && z.1) false))
      ∙ ap (plus (x.0 && x.1)) (plus_swap (p && q) (y.0 && y.1) (plus (z.0 && z.1) false)));
  cancel = λ p q ps. ap not (plus_cancel (p && q) (pair_sum ps));
  empty = refl;
  injective = λ q q' e. sym (decode-encode_g2 q) ∙ ap decode_g2 e ∙ decode-encode_g2 q';
}

abbrev unmoved : Key curve
unmoved = record {
  alpha = true;
  beta = true;
  gamma = true;
  delta = true;
  ic0 = true;
  ics = true ∷ [];
}

abbrev inputs : List Bytes
inputs = to_be 32 6 ∷ []

verify-forged_example :
    (new
        (encode_g1 true)
        (encode_g2 true)
        (encode_g1 (input_sum curve true inputs (true ∷ [])))
        inputs
        (encode_key curve unmoved 1 [] none)
      >>= λ v. (verify sys fr v).0)
    ≡ ok tt
verify-forged_example =
    verify-forged curve sys fr sys-Implements (λ p. p) pairing unmoved inputs 1
      (to_be-IsArray 32 6, tt) refl in_field same
  where
    in_field : all_in_field curve inputs ≡ true
    in_field = unfold all_in_field be_value to_be in refl

    same : delta_equals_gamma (encode_g2 true) (encode_g2 true) ≡ true
    same = unfold delta_equals_gamma in bytes_eq_refl (encode_g2 true)
