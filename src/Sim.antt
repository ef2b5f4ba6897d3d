-- ===== src/Sim.antt =====
-- crates/sim: the pools, the order router, the shape checks, the statistics and the arbitrage trades.
pub mod Amm
pub mod CurveChecks
pub mod SearchStats
pub mod PriceProcess
pub mod Retail
pub mod Router
pub mod Arbitrageur
pub mod Engine
pub mod Runner
pub mod Fixtures
mod Runs
mod RouterRuns
mod CurveRuns
mod EngineRuns
