-- ===== src/Memory/Tests.antt =====
-- Instances of the theorems on the storage.
use kokura.Base.{
  ℕ, ◌+◌, ◌*◌, ◌≡◌, arith, false, List, [], ◌∷◌, ◌==◌, if◌then◌else◌, length-replicate,
}
use kokura.Memory.{read8, write8}
use kokura.Memory.Cells.{IsValid, canonical, read8-write8}
use kokura.Memory.Windows.{
  IsShown, Access, store, select_vram, select_wram, apply_all, apply_all-IsShown,
}
use kokura.Memory.Start.{zeroed, power_on, power_on-IsCoherent}
use kokura.Memory.Palette.{
  set_bg_palette_index, write_bg_palette_data, bg_palette_rgb555, bg_palette_rgb555-write,
}

read8-write8_example :
    read8 (write8 0xD123 0x42 power_on) 0xF123
    ≡ (if canonical 0xD123 == canonical 0xF123 then 0x42 else read8 power_on 0xF123)
read8-write8_example =
    read8-write8 power_on 0xD123 0xF123 0x42 power_on-IsCoherent.1.valid (omega arith) (omega arith)

abbrev accesses : List Access
accesses =
    select_wram 3
    ∷ store 0xD000 0x42 (omega arith)
    ∷ select_vram 1
    ∷ store 0x8000 7 (omega arith)
    ∷ []

apply_all-IsShown_example :
    IsValid (apply_all accesses power_on) × IsShown (apply_all accesses power_on)
apply_all-IsShown_example =
    apply_all-IsShown accesses power_on power_on-IsCoherent.1.valid power_on-IsCoherent.1.shown

bg_palette_rgb555-write_example :
    let m1 = (set_bg_palette_index (0x80 + (5 * 8 + 2 * 2)) zeroed).1 in
    let m2 = (write_bg_palette_data 0x34 false m1).1 in
    let m3 = (write_bg_palette_data 0x12 false m2).1 in bg_palette_rgb555 5 2 m3 ≡ 0x12 * 256 + 0x34
bg_palette_rgb555-write_example =
    bg_palette_rgb555-write 5 2 0x34 0x12 zeroed
      (unfold zeroed in length-replicate {A = ℕ} 0x40 0xFF) (omega arith) (omega arith)
      (omega arith)
