-- ===== src/Examples/Source.antt =====
-- The key of `Examples.Gnark` in a source file, its metadata in a binary, and a small proving key.
use groth16_solana.Prelude.{◌≡◌, refl, false, some, err, List, [], ◌∷◌, ◌++◌, ok, arith}
use groth16_solana.Prelude.Bytes.{Bytes, to_be, to_be-IsArray}
use groth16_solana.Prelude.ByteEq.{bytes_eq}
use groth16_solana.Errors.{bsb22_invalid_verifying_key_binary}
use groth16_solana.Vk.Setup.{insecure_test, production, to_marker, find_setup_txts}
use groth16_solana.Vk.Setup.Text.{ascii, starts_with}
use groth16_solana.Vk.Setup.ProvingKey.{file, sha256_of, proving_key_sha256, source_sha256}
use groth16_solana.Vk.Setup.Metadata.{setup_text}
use groth16_solana.Vk.Setup.Hashing.{proving_key_sha256_lem}
use groth16_solana.Vk.Setup.Emitted.{metadata_of, read_metadata-metadata_rust_source}
use groth16_solana.Vk.Setup.Deployed.{find_setup_txts-metadata_rust_source}
use groth16_solana.Vk.Source.Pieces.{IsName}
use groth16_solana.Vk.Gnark.{parse_gnark_vk_bytes, take_head}
use groth16_solana.Vk.Gnark.Reader.{new, take, take_64}
use groth16_solana.Vk.Gnark.Typed.{IsTyped, parse_gnark_vk_bytes-IsTyped}
use groth16_solana.Vk.Gnark.Source.{generate_bsb22_vk_file}
use groth16_solana.Vk.Gnark.Emitted.{Emits, bsb22_vk_to_rust_const_lem}
use groth16_solana.Vk.Gnark.Generate.{
  Outcome, Generates, generate_bsb22_vk_file_lem, generate_bsb22_vk_file-refuses,
}
use groth16_solana.Examples.Gnark.{key, file-IsByte, file_small, parse_gnark_vk_bytes-write_raw_key}
use groth16_solana.Examples.Gnark
use groth16_solana.Examples.Libraries.{
  sha256, sha, sha-bytes, sha-IsHasher, memory, memory-IsFiles, memory-IsWritableAt, content_of,
}

abbrev vk : Bytes
vk = ascii "VK"

vk-IsName : IsName vk
vk-IsName = record { length = omega arith; bytes = (refl, (refl, tt)) }

abbrev digest : Bytes
digest = to_be 32 171

key-IsTyped : IsTyped key
key-IsTyped =
    parse_gnark_vk_bytes-IsTyped Gnark.file {vk = key} file-IsByte file_small
      parse_gnark_vk_bytes-write_raw_key

bsb22_vk_to_rust_const_lem_example :
    Emits sha sha-bytes vk vk-IsName insecure_test digest (to_be-IsArray 32 171) key
bsb22_vk_to_rust_const_lem_example =
    bsb22_vk_to_rust_const_lem sha sha-bytes vk vk-IsName insecure_test digest
      (to_be-IsArray 32 171) key key-IsTyped

find_setup_txts-metadata_rust_source_example :
    find_setup_txts (ascii "E=F=" ++ (to_marker (setup_text vk production digest) ++ ascii "=d"))
    ≡ some
        (ok (record { name = vk; insecure_test_setup = false; proving_key_sha256 = digest } ∷ []))
unfolding starts_with
find_setup_txts-metadata_rust_source_example =
    find_setup_txts-metadata_rust_source vk vk-IsName production digest (to_be-IsArray 32 171) sha
      sha-bytes (ascii "const")
      (metadata_of vk vk-IsName production digest (to_be-IsArray 32 171) sha sha-bytes
        (ascii "const"))
      (to_marker (setup_text vk production digest)) (ascii "E=F=") (ascii "=d")
      (read_metadata-metadata_rust_source vk vk-IsName production digest (to_be-IsArray 32 171) sha
        sha-bytes (ascii "const"))
      refl (refl, (refl, (refl, (refl, tt)))) (refl, (refl, tt))

-- A key file, and a proving key of five bytes.
abbrev disk : List (Bytes × Bytes)
disk = (ascii "vk.bin", Gnark.file) ∷ (ascii "pk.bin", ascii "proof") ∷ []

found_key : content_of disk (ascii "vk.bin") ≡ ok Gnark.file
unfolding content_of bytes_eq
found_key = refl

found_pk : content_of disk (ascii "pk.bin") ≡ ok (ascii "proof")
unfolding content_of bytes_eq
found_pk = refl

proving_key_sha256_lem_example :
    proving_key_sha256 memory sha 6 disk (ascii "pk.bin") ≡ some (ok (sha256 (ascii "proof")))
unfolding memory-IsFiles
proving_key_sha256_lem_example =
    proving_key_sha256_lem memory memory-IsFiles sha sha256 sha-IsHasher 6 disk (ascii "pk.bin")
      (ascii "proof") (ascii "proof") found_pk refl (omega arith)

hashed :
    source_sha256 memory sha 6 disk (file (ascii "pk.bin")) ≡ some (ok (sha256 (ascii "proof")))
unfolding source_sha256
hashed = proving_key_sha256_lem_example

generate_bsb22_vk_file_lem_example :
    Generates memory sha sha-bytes vk vk-IsName insecure_test
      (sha256 (ascii "proof"))
      (to_be-IsArray 32 5)
      6
      (ascii "vk.bin")
      (ascii "out")
      (ascii "vk.rs")
      (file (ascii "pk.bin"))
      disk
      key
generate_bsb22_vk_file_lem_example =
    generate_bsb22_vk_file_lem memory sha sha-bytes vk vk-IsName insecure_test
      (sha256 (ascii "proof")) (to_be-IsArray 32 5) 6 (ascii "vk.bin") (ascii "out") (ascii "vk.rs")
      (file (ascii "pk.bin")) disk disk Gnark.file key found_key file-IsByte file_small
      parse_gnark_vk_bytes-write_raw_key hashed refl (memory-IsWritableAt disk (ascii "out/vk.rs"))

-- A file that is no key.
abbrev other_disk : List (Bytes × Bytes)
other_disk = (ascii "vk.bin", ascii "key") ∷ []

not_key :
    generate_bsb22_vk_file memory sha 6
      (ascii "vk.bin")
      (ascii "out")
      (ascii "vk.rs")
      vk
      production
      (sha256_of digest)
      other_disk
    ≡ some (err bsb22_invalid_verifying_key_binary, other_disk)
unfolding generate_bsb22_vk_file content_of bytes_eq parse_gnark_vk_bytes take_head take_64 take new
not_key = refl

generate_bsb22_vk_file-refuses_example :
    Outcome memory sha 6
      (ascii "vk.bin")
      (ascii "out")
      (ascii "vk.rs")
      vk
      production
      (sha256_of digest)
      other_disk
      (err bsb22_invalid_verifying_key_binary)
      other_disk
generate_bsb22_vk_file-refuses_example =
    generate_bsb22_vk_file-refuses memory sha 6 (ascii "vk.bin") (ascii "out") (ascii "vk.rs") vk
      production (sha256_of digest) other_disk not_key
