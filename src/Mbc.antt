-- ===== src/Mbc.antt =====
-- The memory bank controllers of crates/kokura-core/src/mbc, one file for each, and the storage
-- helpers they share.
pub mod Storage
pub mod RomOnly
pub mod Mbc1
pub mod Mbc2
pub mod Mbc3
pub mod Mbc5
pub mod Mmm01
pub mod HuC1
pub mod Registers
pub mod Ram
pub mod Clock
pub mod Polling
pub mod Mbc7
pub mod Eeprom
mod Tests
