-- ===== src/Vk/Gnark/Reader.antt =====
-- `Cursor` of src/vk/gnark.rs: reads off the front of a byte string. Every method returns what it
-- read with the cursor behind it; `usize` has 64 bits.
pub mod Laws
use groth16_solana.Prelude
use groth16_solana.Prelude.{
  ℕ, zero, suc, ◌+◌, ◌-◌, ◌^◌, Option, none, some, List, [], ◌∷◌, Result, ok, err, ◌>>=◌, ok_or,
  ltb, leb, length, if◌then◌else◌,
}
use groth16_solana.Prelude.Bytes.{Bytes, be_value}
use groth16_solana.Prelude.Buffer.{zeros, copy_from_slice}
use groth16_solana.Errors.{Groth16Error, bsb22_invalid_verifying_key_binary}

pub record Cursor : Type 0 where
  pub buf : Bytes
  pub pos : ℕ

unfoldable pub new : Bytes → Cursor
new buf = record { buf = buf; pos = 0 }

-- `usize::checked_add`
abbrev pub checked_add : ℕ → ℕ → Option ℕ
checked_add a b = if ltb (a + b) (2 ^ 64) then some (a + b) else none

-- `Option::filter` by `end <= len`
abbrev pub filter_le : ℕ → Option ℕ → Option ℕ
filter_le len none = none
filter_le len (some end) = if leb end len then some end else none

-- `&buf[lo..hi]`
abbrev pub slice : ℕ → ℕ → Bytes → Bytes
slice lo hi bs = Prelude.take (hi - lo) (Prelude.drop lo bs)

unfoldable pub take : ℕ → Cursor → Result Groth16Error (Bytes × Cursor)
take n cursor = do
  end ←
      ok_or bsb22_invalid_verifying_key_binary
        (filter_le (length cursor.buf) (checked_add cursor.pos n))
  ok (slice cursor.pos end cursor.buf, record cursor { pos = end })

unfoldable pub skip : ℕ → Cursor → Result Groth16Error Cursor
skip n cursor = take n cursor >>= λ r. ok r.1

unfoldable pub remaining : Cursor → ℕ
remaining cursor = length cursor.buf - cursor.pos

unfoldable pub take_64 : Cursor → Result Groth16Error (Bytes × Cursor)
take_64 cursor = take 64 cursor >>= λ r. ok (copy_from_slice 0 64 r.0 (zeros 64), r.1)

unfoldable pub take_128 : Cursor → Result Groth16Error (Bytes × Cursor)
take_128 cursor = take 128 cursor >>= λ r. ok (copy_from_slice 0 128 r.0 (zeros 128), r.1)

unfoldable pub u32 : Cursor → Result Groth16Error (ℕ × Cursor)
u32 cursor = take 4 cursor >>= λ r. ok (be_value r.0, r.1)
