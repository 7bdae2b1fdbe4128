-- ===== src/Examples/Gnark.antt =====
-- A small BSB22 key in gnark's layout, written and parsed.
use groth16_solana.Prelude.{
  ◌++◌, ◌^◌, ◌<◌, ◌≡◌, refl, some, [], ◌∷◌, ok, length, arith, All, All-append,
}
use groth16_solana.Prelude.Bytes.{Bytes, IsByte, to_be, to_be-IsArray}
use groth16_solana.Prelude.Buffer.{zeros, zeros-IsArray}
use groth16_solana.Groth16.Layout.{concat}
use groth16_solana.Vk.Gnark.{Groth16VerifyingkeyOwned, parse_gnark_vk_bytes}
use groth16_solana.Vk.Gnark.Format.{trailer, write_raw, IsGnarkKey}
use groth16_solana.Vk.Gnark.RoundTrip.{length-file, parse_gnark_vk_bytes-write_raw}
use groth16_solana.Vk.Gnark.Sound.{parse_gnark_vk_bytes-IsGnarkKey}
use groth16_solana.Vk.Gnark.Rejects.{file_with}
use groth16_solana.Vk.Gnark.Constructs.{Constructs, parse_gnark_vk_bytes-Constructs}

-- One public input, and a commitment.
abbrev pub key : Groth16VerifyingkeyOwned
key = record {
  nr_pubinputs = 1;
  vk_alpha_g1 = zeros 64;
  vk_beta_g2 = zeros 128;
  vk_gamma_g2 = zeros 128;
  vk_delta_g2 = zeros 128;
  vk_ic = zeros 64 ∷ zeros 64 ∷ zeros 64 ∷ [];
  vk_commitment = some (record { g2 = zeros 128; g_sigma_neg_g2 = zeros 128 });
}

key-IsGnarkKey : IsGnarkKey key
unfolding zeros
key-IsGnarkKey = record {
  alpha = refl;
  beta = refl;
  gamma = refl;
  delta = refl;
  ic = (refl, (refl, (refl, tt)));
  count = refl;
  small = omega arith;
  commitment = (refl, refl);
}

abbrev pub file : Bytes
file = write_raw (zeros 64) (zeros 64) key

pub parse_gnark_vk_bytes-write_raw_key : parse_gnark_vk_bytes file ≡ ok key
unfolding zeros
parse_gnark_vk_bytes-write_raw_key =
    parse_gnark_vk_bytes-write_raw (zeros 64) (zeros 64) key key-IsGnarkKey refl refl

parse_gnark_vk_bytes-write_raw_example : parse_gnark_vk_bytes file ≡ ok key
unfolding zeros
parse_gnark_vk_bytes-write_raw_example =
    parse_gnark_vk_bytes-write_raw (zeros 64) (zeros 64) key key-IsGnarkKey refl refl

pub file-IsByte : All IsByte file
unfolding concat
file-IsByte = All-append IsByte g1 _ z64 (
    All-append IsByte g1 _ z64 (
      All-append IsByte g2 _ z128 (
        All-append IsByte g2 _ z128 (
          All-append IsByte g1 _ z64 (
            All-append IsByte g2 _ z128 (
              All-append IsByte (to_be 4 3) _ (to_be-IsArray 4 3).bytes (
                All-append IsByte (concat (g1 ∷ g1 ∷ g1 ∷ [])) _
                  (All-append IsByte g1 _ z64
                    (All-append IsByte g1 _ z64 (All-append IsByte g1 [] z64 tt)))
                  (All-append IsByte (to_be 4 1) _ (to_be-IsArray 4 1).bytes (
                    All-append IsByte (to_be 4 0) _ (to_be-IsArray 4 0).bytes (
                      All-append IsByte (to_be 4 1) _ (to_be-IsArray 4 1).bytes
                        (All-append IsByte g2 _ z128 (All-append IsByte g2 [] z128 tt))))))))))))
  where
    g1 : Bytes
    g1 = zeros 64

    g2 : Bytes
    g2 = zeros 128

    z64 : All IsByte g1
    z64 = (zeros-IsArray 64).bytes

    z128 : All IsByte g2
    z128 = (zeros-IsArray 128).bytes

pub file_small : length file < 2 ^ 64
unfolding zeros
file_small = length-file (zeros 64) (zeros 64) key key-IsGnarkKey refl refl

parse_gnark_vk_bytes-IsGnarkKey_example :
    IsGnarkKey key
    × ((beta_g1 : Bytes) × (delta_g1 : Bytes) × (length beta_g1 ≡ 64)
        × (length delta_g1 ≡ 64)
        × (file ≡ write_raw beta_g1 delta_g1 key))
parse_gnark_vk_bytes-IsGnarkKey_example =
    parse_gnark_vk_bytes-IsGnarkKey file {vk = key} file-IsByte file_small
      parse_gnark_vk_bytes-write_raw_example

parse_gnark_vk_bytes-Constructs_example :
    Constructs (zeros 64) (zeros 128) (zeros 64) (zeros 64) (zeros 64) (to_be 32 5 ∷ []) key
parse_gnark_vk_bytes-Constructs_example =
    parse_gnark_vk_bytes-Constructs (zeros 64) (zeros 128) (zeros 64) (zeros 64) (zeros 64)
      (to_be 32 5 ∷ []) key file file-IsByte file_small parse_gnark_vk_bytes-write_raw_example refl

file_with_multi : length (file_with (zeros 64) (zeros 64) key (to_be 4 2 ++ [])) < 2 ^ 64
unfolding zeros to_be concat
file_with_multi = omega arith

file_with_wire :
    length (file_with (zeros 64) (zeros 64) key (to_be 4 1 ++ (to_be 4 3 ++ []))) < 2 ^ 64
unfolding zeros to_be concat
file_with_wire = omega arith

file_with_trailing :
    length (file_with (zeros 64) (zeros 64) key (trailer key.vk_commitment ++ (7 ∷ []))) < 2 ^ 64
unfolding zeros to_be concat
file_with_trailing = omega arith
