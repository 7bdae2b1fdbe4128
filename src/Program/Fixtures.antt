-- ===== src/Program/Fixtures.antt =====
-- Instruction data that tests/program/src/lib.rs builds from a fixture, given to the program.
use groth16_solana.Prelude.{
  Option, ℕ, ◌+◌, ◌*◌, ◌^◌, ◌≤◌, ◌≡◌, refl, List, ◌∷◌, ◌++◌, none, some, ◌>>=◌, map_err, length,
  get_elem?, arith, length-append, eq→==,
}
use groth16_solana.Prelude.Bytes.{Bytes, IsArray}
use groth16_solana.Syscalls.{Syscalls}
use groth16_solana.HashToField.{FrOps}
use groth16_solana.Negate.{negate_g1_be, fq_modulus}
use groth16_solana.Negate.Point.{y_value, negate_g1_be_lem}
use groth16_solana.Groth16
use groth16_solana.Groth16.{Groth16Verifyingkey, new, new_with_commitment}
use groth16_solana.Groth16.Layout.{concat}
use groth16_solana.Program.{
  Keys, Fixture, plain_payload_len, bsb22_payload_len, build_ix_data, code, process_instruction,
}
use groth16_solana.Program.Payload.{length-concat}
use groth16_solana.Program.Runs.{
  IsParts, plain_keys, bsb22_keys, process_instruction-new, process_instruction-new_with_commitment,
}

-- A fixture of the benchmark, with A not negated.
abbrev pub fixture : ℕ → Bytes → Bytes → Bytes → Option (Bytes × Bytes) → List Bytes → Fixture
fixture s a b c commitment inputs = record {
  selector = s;
  nr_inputs = length inputs;
  proof_a = a;
  proof_b = b;
  proof_c = c;
  commitment = commitment;
  public_inputs = concat inputs;
}

module _ (a b c : Bytes) (inputs : List Bytes) (g : IsArray 64 a) (le : y_value a ≤ fq_modulus)
    (p : IsParts a b c inputs) where
  negated_parts : IsParts (negate_g1_be a) b c inputs
  negated_parts = record {
    a_size = (negate_g1_be_lem a g le).0.size;
    b_size = p.b_size;
    c_size = p.c_size;
    input_sizes = p.input_sizes;
  }

  built :
      (s : ℕ)
      → build_ix_data (fixture s a b c none inputs)
        ≡ some (s ∷ (negate_g1_be a ++ (b ++ (c ++ concat inputs))))
  unfolding build_ix_data plain_payload_len
  built s =
      rw
        (eq→== (length (s ∷ (negate_g1_be a ++ (b ++ (c ++ concat inputs)))))
          (1 + (256 + length inputs * 32))
          (omega (
            arith,
            length-append (negate_g1_be a) (b ++ (c ++ concat inputs)),
            length-append b (c ++ concat inputs),
            length-append c (concat inputs),
            length-concat inputs p.input_sizes,
            negated_parts.a_size,
            p.b_size,
            p.c_size,
          )))
        refl

  built_with_commitment :
      (s : ℕ) (d pok : Bytes)
      → length d ≡ 64
      → length pok ≡ 64
      → build_ix_data (fixture s a b c (some (d, pok)) inputs)
        ≡ some (s ∷ (negate_g1_be a ++ (b ++ (c ++ (d ++ (pok ++ concat inputs))))))
  unfolding build_ix_data bsb22_payload_len
  built_with_commitment s d pok hd hp =
      rw
        (eq→== (length (s ∷ (negate_g1_be a ++ (b ++ (c ++ (d ++ (pok ++ concat inputs)))))))
          (1 + (256 + 128 + length inputs * 32))
          (omega (
            arith,
            length-append (negate_g1_be a) (b ++ (c ++ (d ++ (pok ++ concat inputs)))),
            length-append b (c ++ (d ++ (pok ++ concat inputs))),
            length-append c (d ++ (pok ++ concat inputs)),
            length-append d (pok ++ concat inputs),
            length-append pok (concat inputs),
            length-concat inputs p.input_sizes,
            negated_parts.a_size,
            p.b_size,
            p.c_size,
            hd,
            hp,
          )))
        refl

  -- The data built from a fixture with 2^s inputs, whose points and inputs have their lengths and whose
  -- A has a y coordinate of at most p, passes its own assertion, and the program verifies
  -- the proof with A negated: under the selector s a plain fixture with the plain key of that size, and
  -- under 4 + s a fixture with a commitment and its proof of knowledge with the BSB22 key of that size.
  pub process_instruction-build_ix_data :
      (sys : Syscalls) (fr : FrOps) (keys : Keys) (s : ℕ) (vk bsb22_vk : Groth16Verifyingkey)
      (d pok : Bytes)
      → get_elem? (plain_keys keys) s ≡ some vk
      → get_elem? (bsb22_keys keys) s ≡ some bsb22_vk
      → length d ≡ 64
      → length pok ≡ 64
      → length inputs ≡ 2 ^ s
      → ((bytes : Bytes) × (build_ix_data (fixture s a b c none inputs) ≡ some bytes)
          × (process_instruction sys fr keys bytes
              ≡ map_err code
                  (new (negate_g1_be a) b c inputs vk >>= λ v. (Groth16.verify sys fr v).0)))
        × ((bytes : Bytes) × (build_ix_data (fixture (4 + s) a b c (some (d, pok)) inputs)
              ≡ some bytes)
            × (process_instruction sys fr keys bytes
                ≡ map_err code (
                    new_with_commitment (negate_g1_be a) b c d pok inputs bsb22_vk >>= λ v.
                    (Groth16.verify sys fr v).0)))
  process_instruction-build_ix_data sys fr keys s vk bsb22_vk d pok k k' hd hp e = (
    (
      _,
      built s,
      process_instruction-new sys fr keys s vk (negate_g1_be a) b c inputs k negated_parts e,
    ),
    (
      _,
      built_with_commitment (4 + s) d pok hd hp,
      process_instruction-new_with_commitment sys fr keys s bsb22_vk (negate_g1_be a) b c d pok
          inputs k' negated_parts hd hp e,
    ),
  )
