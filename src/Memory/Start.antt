-- ===== src/Memory/Start.antt =====
-- The storage after construction, and with the pattern of high RAM after the boot bypass.
use kokura.Base.{
  ℕ, zero, suc, ◌+◌, ◌*◌, ◌<◌, ◌≤◌, bit_xor, true, arith, ◌≡◌, sym, ◌∙◌, in_range, u8, length,
  get_or, set, replicate, length-set, length-replicate, get_or-set_at,
}
use kokura.Memory.{Memory, active_wram_bank, refresh_vram_window, refresh_wram_window}
use kokura.Memory.Cells.{IsValid, canonical, cell, vram_cell, read8-cell}
use kokura.Memory.Windows.{
  IsShown, length-copy_from_slice, get_or-copy_from_slice, refreshed-cell, wram_flat,
}

-- Zeroed storage before the windows are filled.
unfoldable pub zeroed : Memory
zeroed = record {
  flat = replicate 0x10000 0;
  vram_banks = replicate 0x4000 0;
  wram_banks = replicate 0x8000 0;
  vbk = 0;
  svbk = 1;
  bg_palette_index = 0;
  obj_palette_index = 0;
  bg_palette_ram = replicate 0x40 0xFF;
  obj_palette_ram = replicate 0x40 0;
}

-- `out.data[addr] = value`.
unfoldable pub poke : ℕ → ℕ → Memory → Memory
poke addr value m = record m { flat = set m.flat addr value }

unfoldable pub default : Memory
default =
    let out = refresh_wram_window (refresh_vram_window zeroed) in
    poke 0xFF70 0xF9 (
      poke 0xFF6B 0x00
        (poke 0xFF6A 0x00 (poke 0xFF69 0xFF (poke 0xFF68 0x00 (poke 0xFF4F 0xFE out)))))

-- The loop of `power_on` over the `n` addresses from `addr`.
unfoldable pub seed_hram : (n addr state : ℕ) → Memory → Memory
seed_hram zero addr state m = m
seed_hram (suc n) addr state m =
    let state1 = u8 (u8 (state * 17) + 0x3D) in
    seed_hram n (addr + 1) state1 (poke addr (bit_xor state1 (u8 addr)) m)

unfoldable pub power_on : Memory
power_on = seed_hram 0x7F 0xFF80 0x6D default

-- Well formed, and shown by the image.
pub record IsCoherent (m : Memory) : Type 0 where
  pub valid : IsValid m
  pub shown : IsShown m

poked :
    (addr value a : ℕ) (m : Memory)
    → 0xFE00 ≤ addr
    → addr < length m.flat
    → get_or m.flat a 0 ≡ cell m (canonical a)
    → get_or (poke addr value m).flat a 0 ≡ cell (poke addr value m) (canonical a)
unfolding poke active_wram_bank
poked addr value a m p q s = ground (arith, get_or-set_at m.flat addr a value 0 q)

poke-IsCoherent :
    (addr value : ℕ) (m : Memory)
    → 0xFE00 ≤ addr
    → addr < 65536
    → IsCoherent m
    → IsCoherent (poke addr value m)
unfolding poke
poke-IsCoherent addr value m p q c = record {
  valid = record {
    flat_whole = length-set m.flat addr value ∙ c.valid.flat_whole;
    vram_whole = c.valid.vram_whole;
    wram_whole = c.valid.wram_whole;
    vbk_bit = c.valid.vbk_bit;
    svbk_bits = c.valid.svbk_bits;
  };
  shown =
      unfold IsShown in
      λ a ha.
        poked addr value a m p (omega (arith, c.valid.flat_whole))
          (c.shown a ha ∙ read8-cell m a c.valid.vbk_bit)
        ∙ sym (read8-cell (poke addr value m) a c.valid.vbk_bit);
}

seed-IsCoherent :
    (n addr state : ℕ) (m : Memory)
    → 0xFE00 ≤ addr
    → addr + n ≤ 65536
    → IsCoherent m
    → IsCoherent (seed_hram n addr state m)
unfolding seed_hram
seed-IsCoherent zero addr state m p q c = c
seed-IsCoherent (suc n) addr state m p q c =
    seed-IsCoherent n (addr + 1) _ _ (omega arith) (omega arith)
      (poke-IsCoherent addr _ m p (omega arith) c)

zeroed-IsValid : IsValid zeroed
unfolding zeroed
zeroed-IsValid = record {
  flat_whole = length-replicate {A = ℕ} 0x10000 0;
  vram_whole = length-replicate {A = ℕ} 0x4000 0;
  wram_whole = length-replicate {A = ℕ} 0x8000 0;
  vbk_bit = omega arith;
  svbk_bits = omega arith;
}

vram_refreshed-IsValid : (m : Memory) → IsValid m → IsValid (refresh_vram_window m)
unfolding refresh_vram_window
vram_refreshed-IsValid m k = record {
  flat_whole =
      length-copy_from_slice 0x2000 0x8000 m.flat (m.vbk * 0x2000) m.vram_banks ∙ k.flat_whole;
  vram_whole = k.vram_whole;
  wram_whole = k.wram_whole;
  vbk_bit = k.vbk_bit;
  svbk_bits = k.svbk_bits;
}

wram_refreshed-IsValid : (m : Memory) → IsValid m → IsValid (refresh_wram_window m)
unfolding refresh_wram_window
wram_refreshed-IsValid m k = record {
  flat_whole =
      length-copy_from_slice 0x0E00 0xF000 _ 0xD000 _
      ∙ length-copy_from_slice 0x1000 0xE000 _ 0xC000 _
      ∙ length-copy_from_slice 0x1000 0xD000 _ _ m.wram_banks
      ∙ length-copy_from_slice 0x1000 0xC000 m.flat 0 m.wram_banks
      ∙ k.flat_whole;
  vram_whole = k.vram_whole;
  wram_whole = k.wram_whole;
  vbk_bit = k.vbk_bit;
  svbk_bits = k.svbk_bits;
}

shown_below :
    (a : ℕ) (m : Memory)
    → IsValid m
    → (in_range 0x8000 0x9FFF a ≡ true → get_or m.flat a 0 ≡ get_or m.vram_banks (vram_cell m a) 0)
    → get_or (refresh_wram_window m).flat a 0 ≡ cell (refresh_wram_window m) (canonical a)
shown_below a m k h = ground (arith, wram_flat a m k, refreshed-cell (canonical a) m, h)

vram_shown :
    (a : ℕ) (m : Memory)
    → IsValid m
    → in_range 0x8000 0x9FFF a ≡ true
    → get_or (refresh_vram_window m).flat a 0
      ≡ get_or (refresh_vram_window m).vram_banks (vram_cell (refresh_vram_window m) a) 0
unfolding refresh_vram_window
vram_shown a m k h = ground (
  arith,
  get_or-copy_from_slice 0x2000 0x8000 m.flat (m.vbk * 0x2000) m.vram_banks a
      (omega (arith, k.flat_whole)),
)

refreshed-IsCoherent :
    (m : Memory) → IsValid m → IsCoherent (refresh_wram_window (refresh_vram_window m))
refreshed-IsCoherent m k =
    let k1 = vram_refreshed-IsValid m k in
    let k2 = wram_refreshed-IsValid (refresh_vram_window m) k1 in
    record {
      valid = k2;
      shown =
          unfold IsShown in
          λ a ha.
            shown_below a (refresh_vram_window m) k1 (vram_shown a m k)
            ∙ sym (read8-cell (refresh_wram_window (refresh_vram_window m)) a k2.vbk_bit);
    }

-- After construction, and with the pattern of high RAM after the boot bypass, the storage has
-- its sizes and the flat image shows what a read of the selected banks gives.
pub power_on-IsCoherent : IsCoherent default × IsCoherent power_on
unfolding default power_on
power_on-IsCoherent =
    let start = refreshed-IsCoherent zeroed zeroed-IsValid in
    let built = poke-IsCoherent 0xFF70 0xF9 _ (omega arith) (omega arith) (
      poke-IsCoherent 0xFF6B 0x00 _ (omega arith) (omega arith) (
        poke-IsCoherent 0xFF6A 0x00 _ (omega arith) (omega arith) (
          poke-IsCoherent 0xFF69 0xFF _ (omega arith) (omega arith) (
            poke-IsCoherent 0xFF68 0x00 _ (omega arith) (omega arith)
              (poke-IsCoherent 0xFF4F 0xFE _ (omega arith) (omega arith) start))))) in
    (built, seed-IsCoherent 0x7F 0xFF80 0x6D _ (omega arith) (omega arith) built)
