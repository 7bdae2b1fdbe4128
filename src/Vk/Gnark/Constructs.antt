-- ===== src/Vk/Gnark/Constructs.antt =====
-- Keys from src/vk/gnark.rs in the constructors of src/groth16.rs.
use groth16_solana.Prelude.{
  ◌^◌, ◌<◌, ◌≡◌, ap, ◌⊎◌, inl, inr, List, ok, length, arith, All, Option-cases,
}
use groth16_solana.Prelude.Bytes.{Bytes, IsByte}
use groth16_solana.Groth16.{Groth16Verifier, new, new_with_commitment}
use groth16_solana.Groth16.Valid.{new_iff, new_with_commitment_iff}
use groth16_solana.Vk.Gnark.{Groth16VerifyingkeyOwned, as_borrowed, parse_gnark_vk_bytes}
use groth16_solana.Vk.Gnark.Format.{IsGnarkKey, extra}
use groth16_solana.Vk.Gnark.Sound.{parse_gnark_vk_bytes-IsGnarkKey}

module _ (a b c commitment pok : Bytes) (inputs : List Bytes) (vk : Groth16VerifyingkeyOwned) where
  -- One of the two constructors takes the key.
  abbrev pub Constructs : Type 0
  Constructs =
      ((v : Groth16Verifier) × (new a b c inputs (as_borrowed vk) ≡ ok v))
      ⊎ ((v : Groth16Verifier) × (new_with_commitment a b c commitment pok inputs (as_borrowed vk)
            ≡ ok v))

  fits : IsGnarkKey vk → length inputs ≡ vk.nr_pubinputs → Constructs
  unfolding as_borrowed
  fits g e = elim (Option-cases vk.vk_commitment) [
    | inl k ↦ inl (
        (new_iff a b c inputs (as_borrowed vk)).1
          (k, omega (arith, g.count, e, ap (λ t. extra t) k)))
    | inr (key, k) ↦ inr (
        (new_with_commitment_iff a b c commitment pok inputs (as_borrowed vk)).1
          ((key, k), omega (arith, g.count, e, ap (λ t. extra t) k)))
  ]

  -- A key that the parser returns is taken by one of the verifier's constructors, given as many
  -- public inputs as the key says: `nr_pubinputs` is right for both kinds of keys.
  pub parse_gnark_vk_bytes-Constructs :
      (bytes : Bytes)
      → All IsByte bytes
      → length bytes < 2 ^ 64
      → parse_gnark_vk_bytes bytes ≡ ok vk
      → length inputs ≡ vk.nr_pubinputs
      → Constructs
  parse_gnark_vk_bytes-Constructs bytes h small e n =
      fits (parse_gnark_vk_bytes-IsGnarkKey bytes h small e).0 n
