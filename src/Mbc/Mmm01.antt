-- ===== src/Mbc/Mmm01.antt =====
-- The wrapper of crates/kokura-core/src/mbc/mmm01.rs around MBC1.
use kokura.Base.{ℕ, Bool, true, false, List, in_range, if◌then◌else◌}
use kokura.Mbc.Mbc1.{Mbc1}
use kokura.Mbc.Mbc1

pub record Mmm01 : Type 0 where
  pub mapped : Bool
  pub inner : Mbc1

abbrev pub default : Mmm01
default = record { mapped = false; inner = Mbc1.default }

unfoldable pub current_rom_bank : Mmm01 → ℕ
current_rom_bank m = Mbc1.current_rom_bank m.inner

unfoldable pub current_ram_bank : Mmm01 → ℕ
current_ram_bank m = Mbc1.current_ram_bank m.inner

unfoldable pub read_rom : Mmm01 → List ℕ → ℕ → ℕ
read_rom m rom addr = Mbc1.read_rom m.inner rom addr

unfoldable pub read_ram : Mmm01 → List ℕ → ℕ → ℕ
read_ram m ram addr = Mbc1.read_ram m.inner ram addr

unfoldable pub write_ram : Mmm01 → List ℕ → ℕ → ℕ → List ℕ
write_ram m ram addr value = Mbc1.write_ram m.inner ram addr value

unfoldable pub write : ℕ → ℕ → Mmm01 → Mmm01
write addr value m = record {
  mapped = if in_range 0x0000 0x7FFF addr then true else m.mapped;
  inner = Mbc1.write addr value m.inner;
}
