-- ===== src/Vk.antt =====
-- src/vk/: verifying keys from the files of other tools.
pub mod Source
pub mod Gnark
pub mod Setup
pub mod Circom
