-- ===== src/Io.antt =====
-- crates/zvolrescue-io: reading images and devices.
pub mod Medium
pub mod Salvage
pub mod Source
mod Runs
