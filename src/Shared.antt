-- ===== src/Shared.antt =====
-- crates/shared: the instruction format, the fixed-point scale and the normalizer's curve.
pub mod Instruction
pub mod Nano
pub mod Config
pub mod Result
pub mod Ceiling
pub mod Normalizer
mod Runs
