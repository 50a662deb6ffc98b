-- ===== src/Mbc/HuC1.antt =====
-- The controller of crates/kokura-core/src/mbc/huc1.rs: MBC1 with an infrared register.
use kokura.Base.{
  ℕ, bit_and, bit_or, Bool, false, not, List, ◌==◌, has_bit, u8_from, in_range, if◌then◌else◌,
}
use kokura.Mbc.Mbc1.{Mbc1}
use kokura.Mbc.Mbc1

pub record HuC1 : Type 0 where
  pub inner : Mbc1
  pub ir_mode : Bool
  pub ir_output : Bool

abbrev pub default : HuC1
default = record { inner = Mbc1.default; ir_mode = false; ir_output = false }

unfoldable pub current_rom_bank : HuC1 → ℕ
current_rom_bank m = Mbc1.current_rom_bank m.inner

unfoldable pub current_ram_bank : HuC1 → ℕ
current_ram_bank m = Mbc1.current_ram_bank m.inner

unfoldable pub read_rom : HuC1 → List ℕ → ℕ → ℕ
read_rom m rom addr = Mbc1.read_rom m.inner rom addr

unfoldable pub read_ram : HuC1 → List ℕ → ℕ → ℕ
read_ram m ram addr =
    if m.ir_mode then bit_or 0xC0 (u8_from m.ir_output) else Mbc1.read_ram m.inner ram addr

-- The RAM and the controller, both of which a write may change.
unfoldable pub write_ram : List ℕ → ℕ → ℕ → HuC1 → List ℕ × HuC1
write_ram ram addr value m =
    if m.ir_mode
    then (ram, record m { ir_output = has_bit value 0x01 })
    else (Mbc1.write_ram m.inner ram addr value, m)

unfoldable pub write : ℕ → ℕ → HuC1 → HuC1
write addr value m =
    if in_range 0x0000 0x1FFF addr
    then (let mode = bit_and value 0x0F in
        let ir_mode = mode == 0x0E in
        record m { ir_mode = ir_mode; inner = record m.inner { ram_enabled = not ir_mode } })
    else record m { inner = Mbc1.write addr value m.inner }
