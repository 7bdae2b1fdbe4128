-- ===== src/Groth16/Layout.antt =====
-- The inputs of the two pairing calls of src/groth16.rs, byte for byte.
use groth16_solana.Prelude.{◌≡◌, refl, ◌∙◌, List, [], ◌∷◌, ◌++◌, length, append_assoc, append-nil}
use groth16_solana.Prelude.Bytes.{Bytes}
use groth16_solana.Prelude.Buffer.{fill_start, fill_next, fill_end}
use groth16_solana.Groth16.{
  CommitmentVerifyingKey, Groth16Verifyingkey, Groth16Verifier, pairing_input, pok_input,
}

-- The lengths that the array types of the Rust structs fix.
pub record IsSizedKey (vk : Groth16Verifyingkey) : Type 0 where
  pub alpha : length vk.vk_alpha_g1 ≡ 64
  pub beta : length vk.vk_beta_g2 ≡ 128
  pub gamma : length vk.vk_gamma_g2 ≡ 128
  pub delta : length vk.vk_delta_g2 ≡ 128

pub record IsSized (v : Groth16Verifier) : Type 0 where
  pub a : length v.proof_a ≡ 64
  pub b : length v.proof_b ≡ 128
  pub c : length v.proof_c ≡ 64
  pub prepared : length v.prepared_public_inputs ≡ 64
  pub key : IsSizedKey v.verifyingkey

-- Byte strings one behind the other.
unfoldable pub concat : List Bytes → Bytes
concat [] = []
concat (x ∷ xs) = x ++ concat xs

-- The pairing sees (A, B), (prepared inputs, gamma), (C, delta) and (alpha, beta), in this order
-- and with nothing between them.
pub pairing_input_lem :
    (v : Groth16Verifier)
    → IsSized v
    → pairing_input v
      ≡ concat (
          v.proof_a ∷ v.proof_b ∷ v.prepared_public_inputs ∷ v.verifyingkey.vk_gamma_g2 ∷ v.proof_c
          ∷ v.verifyingkey.vk_delta_g2 ∷ v.verifyingkey.vk_alpha_g1 ∷ v.verifyingkey.vk_beta_g2
          ∷ [])
unfolding pairing_input concat
pairing_input_lem v s =
    let vk = v.verifyingkey in
    let f1 = fill_next 0 64 64 768 704 v.proof_a (fill_start 768) s.a refl refl in
    let f2 = fill_next 64 192 128 704 576 v.proof_b f1 s.b refl refl in
    let f3 = fill_next 192 256 64 576 512 v.prepared_public_inputs f2 s.prepared refl refl in
    let f4 = fill_next 256 384 128 512 384 vk.vk_gamma_g2 f3 s.key.gamma refl refl in
    let f5 = fill_next 384 448 64 384 320 v.proof_c f4 s.c refl refl in
    let f6 = fill_next 448 576 128 320 192 vk.vk_delta_g2 f5 s.key.delta refl refl in
    let f7 = fill_next 576 640 64 192 128 vk.vk_alpha_g1 f6 s.key.alpha refl refl in
    let f8 = fill_next 640 768 128 128 0 vk.vk_beta_g2 f7 s.key.beta refl refl in
    fill_end 768 f8 ∙ simp (append_assoc, append-nil)

-- The proof of knowledge is checked on (commitment, -sigma G) and (pok, G).
pub pok_input_lem :
    (commitment pok : Bytes) (key : CommitmentVerifyingKey)
    → length commitment ≡ 64
    → length pok ≡ 64
    → length key.g2 ≡ 128
    → length key.g_sigma_neg_g2 ≡ 128
    → pok_input commitment pok key ≡ concat (commitment ∷ key.g_sigma_neg_g2 ∷ pok ∷ key.g2 ∷ [])
unfolding pok_input concat
pok_input_lem commitment pok key hc hp hg hs =
    let f1 = fill_next 0 64 64 384 320 commitment (fill_start 384) hc refl refl in
    let f2 = fill_next 64 192 128 320 192 key.g_sigma_neg_g2 f1 hs refl refl in
    let f3 = fill_next 192 256 64 192 128 pok f2 hp refl refl in
    let f4 = fill_next 256 384 128 128 0 key.g2 f3 hg refl refl in
    fill_end 384 f4 ∙ simp (append_assoc, append-nil)
