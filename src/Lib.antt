-- ===== src/Lib.antt =====
-- groth16-solana verifies Groth16 proofs over BN254 in Solana programs. A client builds a verifier
-- object from a proof, its public inputs and a verifying key, and runs `verify` on it; the curve
-- arithmetic is done by syscalls. Keys come from the files of other tools. This library models the
-- crate and proves what its parts compute.
--
-- The parts, their sources, and the modules that model them:
-- - src/errors.rs: `Errors`, the enumeration and its numeric codes.
-- - src/syscalls.rs: `Syscalls`, an interface of six operations that the verifier takes as a
--   parameter. `Syscalls.Solana` is the on-chain backend over the runtime's syscalls, `Syscalls.Host`
--   the one over the crates solana_bn254 and sha2; runtime and crates are parameters, and
--   `Syscalls.Agreement` states what Solana documents of the runtime.
-- - src/decompression.rs: `Decompression`, calls of the decompression syscalls.
-- - src/hash_to_field.rs: `HashToField`, gnark's hash of a BSB22 commitment to a scalar. SHA-256 and
--   arkworks' field operations on Montgomery limbs are parameters; `HashToField.Expand` states RFC
--   9380's expand_message_xmd and `HashToField.Reduce` what arkworks documents of its arithmetic.
-- - src/groth16.rs: `Groth16` has the keys, the verifier object, `new`, `new_with_commitment`,
--   `prepare_inputs`, `verify`, `verify_unchecked` and the knowledge check. `Groth16.Curve` is the
--   specification over abstract groups, with the documented behaviour of the syscalls on encoded
--   points as the hypothesis `Implements`. `Groth16.Valid` is the invariant of verifier objects.
-- - src/groth16.rs, `is_less_than_bn254_field_size_be` and `negate_g1_be`: `FieldSize` and `Negate`.
-- - src/vk/gnark.rs: `Vk.Gnark`, the parser of gnark's verifying-key files over the cursor of
--   `Vk.Gnark.Reader`; `Vk.Gnark.Format` states the layout of such a file. `Vk.Gnark.Source` is the
--   generator of Rust source for a parsed key, with the file that holds it.
-- - src/vk/circom.rs: `Vk.Circom`, the generator of Rust source for the JSON keys of snarkjs.
--   serde_json's parser and num_bigint's integers are parameters.
-- - src/vk/setup.rs: `Vk.Setup`, the marker text that a program carries for each key, with its writer,
--   parser and search, on UTF-8 bytes; `Vk.Setup.Text` has what it uses of Rust's strings.
--   `Vk.Setup.ProvingKey` is the digest of a proving key's file, with the file system and the hasher as
--   parameters, and `Vk.Setup.Metadata` the source text behind a generated key.
-- - The generated text: `Vk.Source` has the decimal numbers and byte arrays in it, and a file as a list of
--   parts, each a literal or a value that `format!` prints with the literal behind it. `Vk.Source.Lexer`
--   cuts Rust text into tokens and `Vk.Source.Reader` reads the items of a generated file from them,
--   independently of white space and comments; `Vk.Setup.ReadBack` reads the items on the setup.
-- - src/proof_parser.rs: `ProofParser`, the public inputs and the compressed proof of circom-prover, and
--   `ProofParser.Points`, its points as arkworks points and as bytes. num_bigint, arkworks and
--   solana_bn254 are parameters; `ProofParser.Laws` and `IsToBytesBe` state what they document.
-- - tests/program/src/lib.rs: `Program`, a Solana program that verifies one proof per instruction, and the
--   instruction data that its benchmarks build. The keys that its build script generates are a
--   parameter.
-- - `Pipeline` composes the parts: a key file, of snarkjs or of gnark, through its generator, and the key
--   that the generated source declares in the verifier.
-- - `Examples` applies the results to concrete inputs over the integers modulo two as a curve.
--
-- How the code is rendered: byte arrays are lists of native numbers, and lengths that Rust's array
-- types fix are hypotheses where a result needs them (`IsArray`, `IsSized`). `NR_INPUTS` is the length
-- of `public_inputs`. A method on `&mut self` returns its result together with the new object; `?` is
-- the bind of `Result`. u64 arithmetic is written out modulo 2^64, and `usize` has 64 bits. Loops are
-- structural recursion over the list or the count that the source iterates over, but for the search of
-- `find_setup_txts`, whose fuel is one more than the length of the binary, since every round moves
-- forward inside it. The feature `bsb22` is on.
--
-- The loop that hashes a proving key has as fuel the number of reads; one more than the file's length is
-- enough, since a read gives a byte at least until the end. Decimal numbers have fuel for the 20 digits of
-- a `usize`.
--
-- Not modelled: the crate roots, which declare modules; the tests, their Go fixtures and build scripts; the
-- messages of errors, but for those that the code composes.
pub mod Prelude
pub mod Errors
pub mod Syscalls
pub mod HashToField
pub mod FieldSize
pub mod Negate
pub mod Groth16
pub mod Decompression
pub mod Vk
pub mod Program
pub mod Pipeline
pub mod ProofParser
pub mod Examples
