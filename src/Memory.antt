-- ===== src/Memory.antt =====
-- Banked video and work RAM with the flat address image: crates/kokura-core/src/memory.rs. An index
-- out of range, a panic in the source, reads 0 and writes nothing; the invariant excludes it. The
-- field `data` is `flat` here.
pub mod Cells
pub mod Windows
pub mod Start
pub mod Palette
mod Tests
use kokura.Base.{
  ℕ, zero, suc, ◌+◌, ◌-◌, ◌*◌, ◌^◌, bit_and, bit_or, bit_xor, Bool, true, false, not, List, ◌==◌,
  leb, u8, ◌<<<◌, has_bit, in_range, if◌then◌else◌, get_or, set, slice, replicate,
}

abbrev pub vram_bank_size : ℕ
vram_bank_size = 0x2000

abbrev pub wram_bank_size : ℕ
wram_bank_size = 0x1000

pub record PaletteAccessResult : Type 0 where
  pub index : ℕ
  pub value : ℕ
  pub blocked : Bool
  pub auto_increment : Bool

pub record Memory : Type 0 where
  pub flat : List ℕ
  pub vram_banks : List ℕ
  pub wram_banks : List ℕ
  pub vbk : ℕ
  pub svbk : ℕ
  pub bg_palette_index : ℕ
  pub obj_palette_index : ℕ
  pub bg_palette_ram : List ℕ
  pub obj_palette_ram : List ℕ

-- `dst[at..at + n].copy_from_slice(&src[start..start + n])`.
unfoldable pub copy_from_slice : (n at : ℕ) → List ℕ → (start : ℕ) → List ℕ → List ℕ
copy_from_slice zero at dst start src = dst
copy_from_slice (suc n) at dst start src =
    set (copy_from_slice n at dst start src) (at + n) (get_or src (start + n) 0)

unfoldable pub active_vram_bank : Memory → ℕ
active_vram_bank m = bit_and m.vbk 0x01

unfoldable pub active_wram_bank : Memory → ℕ
active_wram_bank m = let bank = bit_and m.svbk 0x07 in if bank == 0 then 1 else bank

unfoldable pub vbk_register : Memory → ℕ
vbk_register m = bit_or 0xFE m.vbk

unfoldable pub svbk_register : Memory → ℕ
svbk_register m = bit_or 0xF8 m.svbk

-- The masked bank, copied out.
unfoldable pub vram_bank : ℕ → Memory → List ℕ
vram_bank bank m = slice vram_bank_size (bit_and bank 0x01 * vram_bank_size) m.vram_banks

unfoldable pub oam : Memory → List ℕ
oam m = slice 0xA0 0xFE00 m.flat

unfoldable pub vram : Memory → List ℕ
vram m = vram_bank m.vbk m

-- A mutable slice takes the function that its borrower applies to it, which keeps its length.
unfoldable pub vram_bank_mut : ℕ → (List ℕ → List ℕ) → Memory → Memory
vram_bank_mut bank change m = record m {
  vram_banks =
      copy_from_slice vram_bank_size (bit_and bank 0x01 * vram_bank_size) m.vram_banks 0
        (change (vram_bank bank m));
}

unfoldable pub vram_mut : (List ℕ → List ℕ) → Memory → Memory
vram_mut change m = vram_bank_mut m.vbk change m

unfoldable pub oam_mut : (List ℕ → List ℕ) → Memory → Memory
oam_mut change m = record m { flat = copy_from_slice 0xA0 0xFE00 m.flat 0 (change (oam m)) }

-- `vram_bank(self.vbk)[offset]`.
unfoldable pub read_vram8 : Memory → ℕ → ℕ
read_vram8 m addr =
    let offset = addr - 0x8000 in
    let bank = bit_and m.vbk 0x01 in get_or m.vram_banks (bank * vram_bank_size + offset) 0

unfoldable pub write_vram8 : ℕ → ℕ → Memory → Memory
write_vram8 addr value m =
    let offset = addr - 0x8000 in
    record m {
      vram_banks = set m.vram_banks (m.vbk * vram_bank_size + offset) value;
      flat = set m.flat addr value;
    }

unfoldable pub read_wram8 : Memory → ℕ → ℕ
read_wram8 m addr =
    if in_range 0xC000 0xCFFF addr
    then get_or m.wram_banks (addr - 0xC000) 0
    else if in_range 0xD000 0xDFFF addr
    then get_or m.wram_banks (active_wram_bank m * wram_bank_size + (addr - 0xD000)) 0
    else get_or m.flat addr 0

unfoldable pub write_wram8 : ℕ → ℕ → Memory → Memory
write_wram8 addr value m =
    if in_range 0xC000 0xCFFF addr
    then record m {
      wram_banks = set m.wram_banks (addr - 0xC000) value;
      flat = set (set m.flat addr value) (addr + 0x2000) value;
    }
    else if in_range 0xD000 0xDFFF addr
    then record m {
      wram_banks = set m.wram_banks (active_wram_bank m * wram_bank_size + (addr - 0xD000)) value;
      flat =
          if leb addr 0xDDFF
          then set (set m.flat addr value) (addr + 0x2000) value
          else set m.flat addr value;
    }
    else record m { flat = set m.flat addr value }

unfoldable pub read8 : Memory → ℕ → ℕ
read8 m addr =
    if in_range 0x8000 0x9FFF addr
    then read_vram8 m addr
    else if in_range 0xC000 0xCFFF addr
    then read_wram8 m addr
    else if in_range 0xD000 0xDFFF addr
    then read_wram8 m addr
    else if in_range 0xE000 0xFDFF addr
    then read_wram8 m (addr - 0x2000)
    else get_or m.flat addr 0

unfoldable pub write8 : ℕ → ℕ → Memory → Memory
write8 addr value m =
    if in_range 0x8000 0x9FFF addr
    then write_vram8 addr value m
    else if in_range 0xC000 0xCFFF addr
    then write_wram8 addr value m
    else if in_range 0xD000 0xDFFF addr
    then write_wram8 addr value m
    else if in_range 0xE000 0xFDFF addr
    then write_wram8 (addr - 0x2000) value m
    else record m { flat = set m.flat addr value }

unfoldable pub refresh_vram_window : Memory → Memory
refresh_vram_window m = record m {
  flat = copy_from_slice 0x2000 0x8000 m.flat (m.vbk * vram_bank_size) m.vram_banks;
}

-- `copy_within` reads the image as it is before the copy, which its ranges do not overlap.
unfoldable pub refresh_wram_window : Memory → Memory
refresh_wram_window m =
    let start = active_wram_bank m * wram_bank_size in
    let fixed = copy_from_slice 0x1000 0xC000 m.flat 0 m.wram_banks in
    let switched = copy_from_slice 0x1000 0xD000 fixed start m.wram_banks in
    let echo = copy_from_slice 0x1000 0xE000 switched 0xC000 switched in
    record m { flat = copy_from_slice 0x0E00 0xF000 echo 0xD000 echo }

unfoldable pub set_vbk : ℕ → Memory → ℕ × Memory
set_vbk value m =
    let bank = bit_and value 0x01 in
    let m1 = record m { vbk = bank; flat = set m.flat 0xFF4F (bit_or 0xFE bank) } in
    (bank, refresh_vram_window m1)

unfoldable pub set_svbk : ℕ → Memory → ℕ × Memory
set_svbk value m =
    let bank = bit_and value 0x07 in
    let m1 = record m { svbk = bank; flat = set m.flat 0xFF70 (bit_or 0xF8 bank) } in
    let m2 = refresh_wram_window m1 in (active_wram_bank m2, m2)
