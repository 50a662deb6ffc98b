-- ===== src/Mbc/RomOnly.antt =====
-- A cartridge without a controller: crates/kokura-core/src/mbc/rom_only.rs.
use kokura.Base.{ℕ, ◌-◌, List, get_or, set}

pub data RomOnly : Type 0 where
  rom_only : RomOnly

unfoldable pub current_rom_bank : RomOnly → ℕ
current_rom_bank m = 1

unfoldable pub current_ram_bank : RomOnly → ℕ
current_ram_bank m = 0

unfoldable pub read_rom : RomOnly → List ℕ → ℕ → ℕ
read_rom m rom addr = get_or rom addr 0xFF

unfoldable pub read_ram : RomOnly → List ℕ → ℕ → ℕ
read_ram m ram addr = get_or ram (addr - 0xA000) 0xFF

unfoldable pub write_ram : RomOnly → List ℕ → ℕ → ℕ → List ℕ
write_ram m ram addr value = set ram (addr - 0xA000) value

unfoldable pub write : ℕ → ℕ → RomOnly → RomOnly
write addr value m = m
