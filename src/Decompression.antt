-- ===== src/Decompression.antt =====
-- src/decompression.rs: decompression of points, which is the syscalls'.
use groth16_solana.Prelude.{Result}
use groth16_solana.Prelude.Bytes.{Bytes}
use groth16_solana.Errors.{Groth16Error}
use groth16_solana.Syscalls.{Syscalls}

unfoldable pub decompress_g1 : Syscalls → Bytes → Result Groth16Error Bytes
decompress_g1 sys g1_bytes = sys.g1_decompress_be g1_bytes

unfoldable pub decompress_g2 : Syscalls → Bytes → Result Groth16Error Bytes
decompress_g2 sys g2_bytes = sys.g2_decompress_be g2_bytes
