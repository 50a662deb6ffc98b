-- ===== src/Mbc/Storage.antt =====
-- Banked ROM and RAM: the helpers of crates/kokura-core/src/mbc/mod.rs. A `usize` has 64 bits.
pub mod Windows
use kokura.Base.{
  ℕ, ◌+◌, ◌-◌, ◌*◌, ◌/◌, ◌%◌, min, Bool, ◌||◌, List, ◌==◌, if◌then◌else◌, length, get_or, set,
}
use Prim.Native.Nat.{max}

abbrev pub usize_max : ℕ
usize_max = 18446744073709551615

-- `usize::saturating_add` and `usize::saturating_mul`.
unfoldable pub saturating_add : ℕ → ℕ → ℕ
saturating_add a b = min (a + b) usize_max

unfoldable pub saturating_mul : ℕ → ℕ → ℕ
saturating_mul a b = min (a * b) usize_max

-- `len.div_ceil(bank_size).max(1)`.
unfoldable pub bank_count : ℕ → ℕ → ℕ
bank_count len bank_size = max ((len + (bank_size - 1)) / bank_size) 1

-- The index of both helpers in non-empty storage.
unfoldable pub bank_index : ℕ → ℕ → ℕ → ℕ → ℕ
unfolding saturating_add saturating_mul bank_count
bank_index len bank bank_size offset =
    let base = saturating_mul (bank % bank_count len bank_size) bank_size in
    saturating_add base offset

unfoldable pub read_rom_bank : List ℕ → ℕ → ℕ → ℕ → ℕ
read_rom_bank rom bank bank_size offset =
    if length rom == 0 || bank_size == 0
    then 0xFF
    else get_or rom (bank_index (length rom) bank bank_size offset) 0xFF

unfoldable pub read_ram_bank : List ℕ → ℕ → ℕ → ℕ → ℕ
read_ram_bank ram bank bank_size offset =
    if length ram == 0 || bank_size == 0
    then 0xFF
    else get_or ram (bank_index (length ram) bank bank_size offset) 0xFF

unfoldable pub write_ram_bank : List ℕ → ℕ → ℕ → ℕ → ℕ → List ℕ
write_ram_bank ram bank bank_size offset value =
    if length ram == 0 || bank_size == 0
    then ram
    else set ram (bank_index (length ram) bank bank_size offset) value
