-- ===== src/Executor.antt =====
-- crates/executor: running a submission natively or in the virtual machine.
pub mod Native
pub mod Syscalls
pub mod Vm
pub mod Loader
mod Runs
