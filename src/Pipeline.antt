-- ===== src/Pipeline.antt =====
-- The parts of the crate in a row: a key file through the generators of src/vk/, and the key that the
-- generated source declares in the verifier of src/groth16.rs.
pub mod Circom
pub mod Gnark
