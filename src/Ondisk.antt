-- ===== src/Ondisk.antt =====
-- crates/zfs-ondisk: pure parsers for ZFS on-disk structures.
pub mod Bytes
pub mod Dva
pub mod Indirect
pub mod SpaceMap
pub mod Ranges
pub mod Raidz
pub mod Codes
pub mod Compress
pub mod BlkPtr
pub mod Uberblock
pub mod Checksum
pub mod Draid
pub mod Dnode
pub mod Label
pub mod Part
pub mod Geom
