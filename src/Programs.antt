-- ===== src/Programs.antt =====
-- programs/: the on-chain programs, the benchmark normalizer and the starter submission.
pub mod Normalizer
pub mod Starter
pub mod Agreement
mod Runs
