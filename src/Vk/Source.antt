-- ===== src/Vk/Source.antt =====
-- src/vk/gnark.rs, src/vk/circom.rs and src/vk/setup.rs: the numbers and byte arrays in the Rust
-- source text that the key generators emit.
pub mod Decimal
pub mod Lexer
pub mod Pieces
pub mod Reader
pub mod Reads
use groth16_solana.Prelude.{
  ℕ, zero, suc, ◌+◌, ◌/◌, ◌%◌, true, false, List, [], ◌∷◌, ◌++◌, map, ltb, if◌then◌else◌,
}
use groth16_solana.Prelude.Bytes.{Bytes}
use groth16_solana.Vk.Setup.Text.{ascii}

-- The decimal digits of `n` in front of `out`, the last one first; one unit of fuel for a digit.
unfoldable pub digits : ℕ → ℕ → Bytes → Bytes
digits zero n out = out
digits (suc fuel) n out = elim (ltb n 10) [
  | true ↦ (b'0' + n) ∷ out
  | false ↦ digits fuel (n / 10) ((b'0' + n % 10) ∷ out)
]

-- `format!("{}", n)` of a `u8` or a `usize`, which has at most 20 digits
unfoldable pub decimal : ℕ → Bytes
decimal n = digits 20 n []

-- `[..].join(separator)`
unfoldable pub join : Bytes → List Bytes → Bytes
join separator [] = []
join separator (part ∷ []) = part
join separator (part ∷ part' ∷ parts) = part ++ (separator ++ join separator (part' ∷ parts))

-- `format!("{}u8", b)`
unfoldable pub byte_literal : ℕ → Bytes
byte_literal b = decimal b ++ ascii "u8"

unfoldable pub byte_list : Bytes → Bytes
byte_list bytes = join (ascii ", ") (map byte_literal bytes)

-- A part of a generated file. Each but the first kind is a value that `format!` prints, with the
-- literal text behind it: `{}` of a name, of a number and of `byte_list`, `"{}"` of a string, and a
-- loop that prints a row of bytes between two texts in each round.
pub data Piece : Type 0 where
  lit : Bytes → Piece
  put_name : Bytes → Bytes → Piece
  put_number : ℕ → Bytes → Piece
  put_bytes : Bytes → Bytes → Piece
  put_quoted : Bytes → Bytes → Piece
  put_rows : Bytes → Bytes → List Bytes → Bytes → Piece

unfoldable pub print_rows : Bytes → Bytes → List Bytes → Bytes
print_rows before after [] = []
print_rows before after (row ∷ rs) =
    before ++ (byte_list row ++ (after ++ print_rows before after rs))

unfoldable pub print_piece : Piece → Bytes
print_piece (lit text) = text
print_piece (put_name w text) = w ++ text
print_piece (put_number n text) = decimal n ++ text
print_piece (put_bytes bs text) = byte_list bs ++ text
print_piece (put_quoted raw text) = b'"' ∷ (raw ++ (b'"' ∷ text))
print_piece (put_rows before after rs text) = print_rows before after rs ++ text

-- `out.push_str(..)` of the parts in turn
unfoldable pub push_pieces : List Piece → Bytes
push_pieces [] = []
push_pieces (piece ∷ pieces) = print_piece piece ++ push_pieces pieces
