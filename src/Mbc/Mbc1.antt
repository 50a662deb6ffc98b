-- ===== src/Mbc/Mbc1.antt =====
-- The controller of crates/kokura-core/src/mbc/mbc1.rs. `addr - 0xA000` stops at 0, as the source's
-- `saturating_sub` does.
use kokura.Base.{
  ℕ, ◌-◌, bit_and, bit_or, Bool, false, not, List, ◌==◌, ◌<<<◌, in_range, if◌then◌else◌,
}
use kokura.Mbc.Storage.{read_rom_bank, read_ram_bank, write_ram_bank}

pub record Mbc1 : Type 0 where
  pub rom_bank_low5 : ℕ
  pub bank_high2 : ℕ
  pub ram_bank : ℕ
  pub ram_enabled : Bool
  pub mode : ℕ

abbrev pub default : Mbc1
default = record { rom_bank_low5 = 1; bank_high2 = 0; ram_bank = 0; ram_enabled = false; mode = 0 }

unfoldable pub lower_rom_bank : Mbc1 → ℕ
lower_rom_bank m = if m.mode == 0 then 0 else bit_and m.bank_high2 0x03 <<< 5

unfoldable pub current_rom_bank : Mbc1 → ℕ
current_rom_bank m =
    let bank = bit_or (bit_and m.rom_bank_low5 0x1F) (bit_and m.bank_high2 0x03 <<< 5) in
    if bank == 0 then 1 else bank

unfoldable pub current_ram_bank : Mbc1 → ℕ
current_ram_bank m = if m.mode == 0 then 0 else bit_and m.ram_bank 0x03

unfoldable pub read_rom : Mbc1 → List ℕ → ℕ → ℕ
read_rom m rom addr =
    if in_range 0x0000 0x3FFF addr
    then read_rom_bank rom (lower_rom_bank m) 0x4000 addr
    else if in_range 0x4000 0x7FFF addr
    then read_rom_bank rom (current_rom_bank m) 0x4000 (addr - 0x4000)
    else 0xFF

unfoldable pub read_ram : Mbc1 → List ℕ → ℕ → ℕ
read_ram m ram addr =
    if not m.ram_enabled
    then 0xFF
    else read_ram_bank ram (current_ram_bank m) 0x2000 (addr - 0xA000)

unfoldable pub write_ram : Mbc1 → List ℕ → ℕ → ℕ → List ℕ
write_ram m ram addr value =
    if not m.ram_enabled
    then ram
    else write_ram_bank ram (current_ram_bank m) 0x2000 (addr - 0xA000) value

unfoldable pub write : ℕ → ℕ → Mbc1 → Mbc1
write addr value m =
    if in_range 0x0000 0x1FFF addr
    then record m { ram_enabled = bit_and value 0x0F == 0x0A }
    else if in_range 0x2000 0x3FFF addr
    then (let value5 = bit_and value 0x1F in
        record m { rom_bank_low5 = if value5 == 0 then 1 else value5 })
    else if in_range 0x4000 0x5FFF addr
    then record m { bank_high2 = bit_and value 0x03; ram_bank = bit_and value 0x03 }
    else if in_range 0x6000 0x7FFF addr
    then record m { mode = bit_and value 0x01 }
    else m
