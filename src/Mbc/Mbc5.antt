-- ===== src/Mbc/Mbc5.antt =====
-- The controller of crates/kokura-core/src/mbc/mbc5.rs.
use kokura.Base.{
  ℕ, ◌-◌, bit_and, bit_or, Bool, false, not, ◌&&◌, List, ◌==◌, ◌<<<◌, has_bit, in_range,
  if◌then◌else◌, get_or,
}
use kokura.Mbc.Storage.{read_rom_bank, read_ram_bank, write_ram_bank}

pub record Mbc5 : Type 0 where
  pub rom_bank_low : ℕ
  pub rom_bank_high : ℕ
  pub ram_bank : ℕ
  pub ram_enabled : Bool
  pub has_rumble : Bool
  pub rumble_enabled : Bool

abbrev pub default : Mbc5
default = record {
  rom_bank_low = 1;
  rom_bank_high = 0;
  ram_bank = 0;
  ram_enabled = false;
  has_rumble = false;
  rumble_enabled = false;
}

unfoldable pub with_rumble : Bool → Mbc5
with_rumble b = record default { has_rumble = b }

unfoldable pub current_rom_bank : Mbc5 → ℕ
current_rom_bank m = bit_or m.rom_bank_low (bit_and m.rom_bank_high 0x01 <<< 8)

unfoldable pub current_ram_bank : Mbc5 → ℕ
current_ram_bank m = if m.has_rumble then bit_and m.ram_bank 0x07 else bit_and m.ram_bank 0x0F

unfoldable pub read_rom : Mbc5 → List ℕ → ℕ → ℕ
read_rom m rom addr =
    if in_range 0x0000 0x3FFF addr
    then get_or rom addr 0xFF
    else if in_range 0x4000 0x7FFF addr
    then read_rom_bank rom (current_rom_bank m) 0x4000 (addr - 0x4000)
    else 0xFF

unfoldable pub read_ram : Mbc5 → List ℕ → ℕ → ℕ
read_ram m ram addr =
    if not m.ram_enabled
    then 0xFF
    else read_ram_bank ram (current_ram_bank m) 0x2000 (addr - 0xA000)

unfoldable pub write_ram : Mbc5 → List ℕ → ℕ → ℕ → List ℕ
write_ram m ram addr value =
    if not m.ram_enabled
    then ram
    else write_ram_bank ram (current_ram_bank m) 0x2000 (addr - 0xA000) value

unfoldable pub write : ℕ → ℕ → Mbc5 → Mbc5
write addr value m =
    if in_range 0x0000 0x1FFF addr
    then record m { ram_enabled = bit_and value 0x0F == 0x0A }
    else if in_range 0x2000 0x2FFF addr
    then record m { rom_bank_low = value }
    else if in_range 0x3000 0x3FFF addr
    then record m { rom_bank_high = bit_and value 0x01 }
    else if in_range 0x4000 0x5FFF addr
    then record m {
      rumble_enabled = m.has_rumble && has_bit value 0x08;
      ram_bank = if m.has_rumble then bit_and value 0x07 else bit_and value 0x0F;
    }
    else m
