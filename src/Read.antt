-- ===== src/Read.antt =====
-- crates/zfs-read: reading a pool.
pub mod Object
