-- ===== src/Examples.antt =====
-- Concrete inputs on which the theorems are applied.
mod Curve
mod Field
mod Verifier
mod Hash
mod Points
mod Backends
mod Gnark
mod Setup
mod Program
mod ProofParser
mod Libraries
mod Source
mod Circom
mod Ark
mod Pipeline
