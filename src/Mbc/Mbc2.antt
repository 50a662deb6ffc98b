-- ===== src/Mbc/Mbc2.antt =====
-- The controller of crates/kokura-core/src/mbc/mbc2.rs, with 512 nibbles of its own.
use kokura.Base.{
  ℕ, ◌-◌, bit_and, bit_or, Bool, false, not, List, ◌==◌, in_range, if◌then◌else◌, get_or, set,
}
use kokura.Mbc.Storage.{read_rom_bank}

pub record Mbc2 : Type 0 where
  pub rom_bank : ℕ
  pub ram_enabled : Bool

abbrev pub default : Mbc2
default = record { rom_bank = 1; ram_enabled = false }

abbrev pub ram_len : ℕ
ram_len = 0x0200

unfoldable pub current_rom_bank : Mbc2 → ℕ
current_rom_bank m = let bank = bit_and m.rom_bank 0x0F in if bank == 0 then 1 else bank

unfoldable pub current_ram_bank : Mbc2 → ℕ
current_ram_bank m = 0

unfoldable pub read_rom : Mbc2 → List ℕ → ℕ → ℕ
read_rom m rom addr =
    if in_range 0x0000 0x3FFF addr
    then get_or rom addr 0xFF
    else if in_range 0x4000 0x7FFF addr
    then read_rom_bank rom (current_rom_bank m) 0x4000 (addr - 0x4000)
    else 0xFF

unfoldable pub write : ℕ → ℕ → Mbc2 → Mbc2
write addr value m =
    if in_range 0x0000 0x3FFF addr
    then (if bit_and addr 0x0100 == 0
        then record m { ram_enabled = bit_and value 0x0F == 0x0A }
        else (let bank = bit_and value 0x0F in
            record m { rom_bank = if bank == 0 then 1 else bank }))
    else m

unfoldable pub read_ram : Mbc2 → List ℕ → ℕ → ℕ
read_ram m ram addr =
    if not m.ram_enabled
    then 0xFF
    else (let index = bit_and addr 0x01FF in bit_or 0xF0 (get_or ram index 0x0F))

unfoldable pub write_ram : Mbc2 → List ℕ → ℕ → ℕ → List ℕ
write_ram m ram addr value =
    if not m.ram_enabled
    then ram
    else (let index = bit_and addr 0x01FF in set ram index (bit_and value 0x0F))
