-- ===== src/Vk/Gnark/Format.antt =====
-- gnark's `WriteRawTo` layout of a verifying key, as src/vk/gnark.rs documents it, and the keys
-- that have one with at most one commitment and no committed public inputs.
use groth16_solana.Prelude.{ℕ, ◌+◌, ◌^◌, ◌<◌, ◌≡◌, Option, none, some, [], ◌++◌, length, All}
use groth16_solana.Prelude.Bytes.{Bytes, to_be}
use groth16_solana.Groth16.{CommitmentVerifyingKey}
use groth16_solana.Groth16.Layout.{concat}
use groth16_solana.Vk.Gnark.{Groth16VerifyingkeyOwned}

-- The two counts, the empty list of committed wires, and the Pedersen key.
abbrev pub trailer : Option CommitmentVerifyingKey → Bytes
trailer none = to_be 4 0 ++ (to_be 4 0 ++ [])
trailer (some key) =
    to_be 4 1 ++ (to_be 4 0 ++ (to_be 4 1 ++ (key.g2 ++ (key.g_sigma_neg_g2 ++ []))))

-- `beta_g1` and `delta_g1` are in the file and not in the key.
abbrev pub write_raw : Bytes → Bytes → Groth16VerifyingkeyOwned → Bytes
write_raw beta_g1 delta_g1 vk =
    vk.vk_alpha_g1
    ++ (beta_g1
        ++ (vk.vk_beta_g2
            ++ (vk.vk_gamma_g2
                ++ (delta_g1
                    ++ (vk.vk_delta_g2
                        ++ (to_be 4 (length vk.vk_ic)
                            ++ (concat vk.vk_ic ++ trailer vk.vk_commitment)))))))

-- The lengths that the array types fix.
abbrev pub IsSizedCommitment : Option CommitmentVerifyingKey → Type 0
IsSizedCommitment none = Unit
IsSizedCommitment (some key) = (length key.g2 ≡ 128) × (length key.g_sigma_neg_g2 ≡ 128)

-- The IC points behind those of the public inputs and the constant.
abbrev pub extra : Option CommitmentVerifyingKey → ℕ
extra none = 0
extra (some key) = 1

pub record IsGnarkKey (vk : Groth16VerifyingkeyOwned) : Type 0 where
  pub alpha : length vk.vk_alpha_g1 ≡ 64
  pub beta : length vk.vk_beta_g2 ≡ 128
  pub gamma : length vk.vk_gamma_g2 ≡ 128
  pub delta : length vk.vk_delta_g2 ≡ 128
  pub ic : All (λ point. length point ≡ 64) vk.vk_ic
  pub count : length vk.vk_ic ≡ vk.nr_pubinputs + 1 + extra vk.vk_commitment
  pub small : length vk.vk_ic < 2 ^ 32
  pub commitment : IsSizedCommitment vk.vk_commitment
