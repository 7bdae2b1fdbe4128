-- ===== src/Examples/Circom.antt =====
-- A small key of snarkjs through the generator.
use groth16_solana.Prelude.{
  ℕ, ◌+◌, ◌^◌, ◌≡◌, refl, false, ◌&&◌, List, [], ◌∷◌, Result, ok, err, some, arith,
}
use groth16_solana.Prelude.Bytes.{Bytes, to_be, to_be-IsArray}
use groth16_solana.Prelude.ByteEq.{bytes_eq}
use groth16_solana.Groth16.{Groth16Verifier, new}
use groth16_solana.Vk.Setup.{insecure_test, production, delta_equals_gamma}
use groth16_solana.Vk.Setup.Text.{ascii}
use groth16_solana.Vk.Setup.Metadata.{is_production}
use groth16_solana.Vk.Setup.ProvingKey.{sha256_of, source_sha256}
use groth16_solana.Vk.Circom.{Libraries, process_g1_component, convert_key}
use groth16_solana.Vk.Circom.Values.{IsBigUint, IsWordOf, process_g1_component_lem}
use groth16_solana.Vk.Circom.Points.{
  CircomKey, IsCircomKey, IsPrint, json_key, key_bytes, convert_key-json_key,
}
use groth16_solana.Vk.Circom.Read.{Emits, parse_vk_json_to_rust_string_lem}
use groth16_solana.Vk.Circom.Generate.{Generates, generate_vk_file_lem}
use groth16_solana.Vk.Circom.Sizes.{IsCompiled, IsProjective}
use groth16_solana.Vk.Circom.Accepted.{convert_key-new}
use groth16_solana.Examples.Libraries.{
  sha, sha-bytes, memory, memory-IsWritableAt, content_of, to_bytes_le, le_value-to_bytes_le,
  to_bytes_le-bytes,
}

-- One public input.
abbrev key : CircomKey
key = record {
  alpha = (1, 2);
  beta = ((3, 4), (5, 6));
  gamma = ((7, 8), (9, 10));
  delta = ((11, 12), (13, 14));
  ic0 = (15, 16);
  ics = (17, 18) ∷ [];
}

key-IsCircomKey : IsCircomKey key
key-IsCircomKey = record {
  alpha = (omega arith, omega arith);
  beta = ((omega arith, omega arith), (omega arith, omega arith));
  gamma = ((omega arith, omega arith), (omega arith, omega arith));
  delta = ((omega arith, omega arith), (omega arith, omega arith));
  ic = ((omega arith, omega arith), ((omega arith, omega arith), tt));
}

-- A number in the JSON file is one character of that code, and the file is always the same.
abbrev pub print : ℕ → Bytes
print n = n ∷ []

abbrev pub parse : Bytes → Result Bytes ℕ
parse (n ∷ []) = ok n
parse s = err (ascii "invalid digit")

abbrev lib : Libraries
lib = record { from_json = λ s. ok (json_key print key); parse = parse; to_bytes_le = to_bytes_le }

lib-IsBigUint : IsBigUint lib
lib-IsBigUint = record { value = le_value-to_bytes_le; bytes = to_bytes_le-bytes }

prints : IsPrint lib print
prints n = refl

abbrev digest : Bytes
digest = to_be 32 171

process_g1_component_lem_example :
    (out : Bytes) × (process_g1_component lib (print (2 ^ 256 + 5)) ≡ ok out)
    × IsWordOf (2 ^ 256 + 5) out
process_g1_component_lem_example =
    process_g1_component_lem lib lib-IsBigUint (print (2 ^ 256 + 5)) (2 ^ 256 + 5) refl

parse_vk_json_to_rust_string_lem_example :
    Emits lib lib-IsBigUint print prints sha sha-bytes production digest
      (to_be-IsArray 32 171)
      (ascii "{}")
      key
parse_vk_json_to_rust_string_lem_example =
    parse_vk_json_to_rust_string_lem lib lib-IsBigUint print prints sha sha-bytes production digest
      (to_be-IsArray 32 171) (ascii "{}") key refl key-IsCircomKey (omega arith)

abbrev disk : List (Bytes × Bytes)
disk = (ascii "vk.json", ascii "{}") ∷ []

found : content_of disk (ascii "vk.json") ≡ ok (ascii "{}")
unfolding content_of bytes_eq
found = refl

given : source_sha256 memory sha 0 disk (sha256_of digest) ≡ some (ok digest)
unfolding source_sha256
given = refl

generate_vk_file_lem_example :
    Generates memory lib lib-IsBigUint print prints sha sha-bytes production digest
      (to_be-IsArray 32 171)
      0
      (ascii "vk.json")
      (ascii "src")
      (ascii "vk.rs")
      (sha256_of digest)
      disk
      key
generate_vk_file_lem_example =
    generate_vk_file_lem memory lib lib-IsBigUint print prints sha sha-bytes production digest
      (to_be-IsArray 32 171) 0 (ascii "vk.json") (ascii "src") (ascii "vk.rs") (sha256_of digest)
      disk disk (ascii "{}") key found refl key-IsCircomKey (omega arith) given refl
      (memory-IsWritableAt disk (ascii "src/vk.rs"))

converted : convert_key lib (json_key print key) insecure_test ≡ ok (key_bytes key)
converted = convert_key-json_key lib lib-IsBigUint print prints key insecure_test key-IsCircomKey

key-IsProjective : IsProjective (json_key print key)
unfolding json_key
key-IsProjective = record {
  alpha = refl;
  beta = refl;
  gamma = refl;
  delta = refl;
  ic = (refl, (refl, tt));
}

convert_key-new_example :
    IsCompiled (key_bytes key)
    × ((v : Groth16Verifier) × (new [] [] [] (to_be 32 5 ∷ []) (key_bytes key) ≡ ok v))
    × ((is_production insecure_test
          && delta_equals_gamma (key_bytes key).vk_gamma_g2 (key_bytes key).vk_delta_g2)
        ≡ false)
convert_key-new_example =
    convert_key-new lib lib-IsBigUint (json_key print key) insecure_test {vk = key_bytes key} [] []
      [] (to_be 32 5 ∷ []) key-IsProjective converted count
  where
    count : 1 ≡ (key_bytes key).nr_pubinputs
    count = unfold key_bytes in refl
