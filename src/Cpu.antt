-- ===== src/Cpu.antt =====
-- The processor of crates/kokura-core: cpu/regs.rs, cpu/mod.rs, and the helpers and instructions of
-- lib.rs that `Machine` runs on it.
pub mod Regs
pub mod Alu
pub mod Rotate
pub mod Bus
pub mod Exec
mod Flags
pub mod Valid
pub mod Arith
pub mod Decimal
pub mod Turn
pub mod Step
mod Tests
