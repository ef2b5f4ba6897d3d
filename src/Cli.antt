-- ===== src/Cli.antt =====
-- crates/cli: the checks of a submission.
pub mod Compile
pub mod Metadata
pub mod Validate
pub mod System
pub mod Run
pub mod Output
pub mod Command
mod Runs
mod CommandRuns
