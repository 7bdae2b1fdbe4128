-- ===== src/Examples/Pipeline.antt =====
-- The key of the small groups, from its JSON file to the verifier's answer.
use groth16_solana.Prelude.{
  ◌<◌, All-append, ℕ, ◌≡◌, refl, Bool, true, false, if◌then◌else◌, List, [], ◌∷◌, ok, arith,
}
use groth16_solana.Prelude.Bytes.{Bytes, IsByte, to_be, to_be-IsArray}
use groth16_solana.Prelude.Buffer.{zeros, length-zeros, zeros-IsArray}
use groth16_solana.Groth16.Layout.{concat}
use groth16_solana.Groth16.Curve.{Key, CommitmentKey, Proof}
use groth16_solana.Vk.Setup.{production}
use groth16_solana.Vk.Setup.Text.{ascii}
use groth16_solana.Vk.Circom.{Libraries}
use groth16_solana.Vk.Circom.Values.{IsBigUint}
use groth16_solana.Vk.Circom.Points.{IsCircomKey, IsPrint, g1_be, g2_be, json_key}
use groth16_solana.Pipeline.Circom.{
  Coordinates, circom_key, Deploys, parse_vk_json_to_rust_string-verify,
}
use groth16_solana.Vk.Gnark.Format.{write_raw}
use groth16_solana.Vk.Source.Pieces.{IsName}
use groth16_solana.Pipeline.Gnark
use groth16_solana.Pipeline.Gnark.{IsBytewise, gnark_key, bsb22_vk_to_rust_const-verify}
use groth16_solana.Examples.Field.{fr, fr-IsMontgomery}
use groth16_solana.Examples.Curve.{curve, sys, sys-Implements, sha256-IsArray, encode_g1, encode_g2}
use groth16_solana.Examples.Libraries.{
  sha, sha-bytes, to_bytes_le, le_value-to_bytes_le, to_bytes_le-bytes,
}
use groth16_solana.Examples.Circom.{parse, print}

abbrev bit : Bool → ℕ
bit b = if b then 1 else 0

g1_layout : (p : Bool) → g1_be (0, bit p) ≡ encode_g1 p
unfolding g1_be encode_g1 zeros concat to_be
g1_layout true = refl
g1_layout false = refl

g2_layout : (q : Bool) → g2_be ((0, 0), (bit q, 0)) ≡ encode_g2 q
unfolding g2_be encode_g2 zeros concat to_be
g2_layout true = refl
g2_layout false = refl

abbrev coordinates : Coordinates curve
coordinates = record {
  g1 = λ p. (0, bit p);
  g2 = λ q. ((0, 0), (bit q, 0));
  g1_layout = g1_layout;
  g2_layout = g2_layout;
}

abbrev key : Key curve
key = record { alpha = true; beta = true; gamma = true; delta = false; ic0 = true; ics = true ∷ [] }

abbrev proof : Proof curve
proof = record { a = true; b = true; c = false }

abbrev inputs : List Bytes
inputs = to_be 32 5 ∷ []

key-IsCircomKey : IsCircomKey (circom_key curve coordinates key)
key-IsCircomKey = record {
  alpha = (omega arith, omega arith);
  beta = ((omega arith, omega arith), (omega arith, omega arith));
  gamma = ((omega arith, omega arith), (omega arith, omega arith));
  delta = ((omega arith, omega arith), (omega arith, omega arith));
  ic = ((omega arith, omega arith), ((omega arith, omega arith), tt));
}

abbrev lib : Libraries
lib = record {
  from_json = λ s. ok (json_key print (circom_key curve coordinates key));
  parse = parse;
  to_bytes_le = to_bytes_le;
}

lib-IsBigUint : IsBigUint lib
lib-IsBigUint = record { value = le_value-to_bytes_le; bytes = to_bytes_le-bytes }

prints : IsPrint lib print
prints n = refl

parse_vk_json_to_rust_string-verify_example :
    Deploys curve sys fr sys-Implements coordinates key lib lib-IsBigUint print prints sha sha-bytes
      production
      (to_be 32 171)
      (to_be-IsArray 32 171)
      (ascii "{}")
      proof
      inputs
parse_vk_json_to_rust_string-verify_example =
    parse_vk_json_to_rust_string-verify curve sys fr sys-Implements coordinates key lib
      lib-IsBigUint print prints sha sha-bytes production (to_be 32 171) (to_be-IsArray 32 171)
      (ascii "{}") proof inputs refl key-IsCircomKey (omega arith) (to_be-IsArray 32 5, tt) refl

bit_byte : (b : Bool) → bit b < 256
bit_byte true = omega arith
bit_byte false = omega arith

curve-IsBytewise : IsBytewise curve
unfolding encode_g1 encode_g2
curve-IsBytewise = record {
  g1 = λ p. All-append IsByte (zeros 63) (bit p ∷ []) (zeros-IsArray 63).bytes (bit_byte p, tt);
  g2 = λ q. All-append IsByte (zeros 127) (bit q ∷ []) (zeros-IsArray 127).bytes (bit_byte q, tt);
}

vk-IsName : IsName (ascii "VK")
vk-IsName = record { length = omega arith; bytes = (refl, (refl, tt)) }

abbrev commitment_key : CommitmentKey curve
commitment_key = record { g = true; g_sigma_neg = true }

bsb22_vk_to_rust_const-verify_example :
    Gnark.Deploys curve sys fr sys-Implements curve-IsBytewise fr-IsMontgomery sha256-IsArray key
      true commitment_key sha sha-bytes
      (ascii "VK")
      vk-IsName
      production
      (to_be 32 171)
      (to_be-IsArray 32 171)
      (write_raw (zeros 64) (zeros 64) (gnark_key curve key true commitment_key))
      proof
      true
      true
      inputs
bsb22_vk_to_rust_const-verify_example =
    bsb22_vk_to_rust_const-verify curve sys fr sys-Implements curve-IsBytewise fr-IsMontgomery
      sha256-IsArray key true commitment_key sha sha-bytes (ascii "VK") vk-IsName production
      (to_be 32 171) (to_be-IsArray 32 171) (zeros 64) (zeros 64) proof true true inputs
      (length-zeros 64) (length-zeros 64) (omega arith) (to_be-IsArray 32 5, tt) refl
