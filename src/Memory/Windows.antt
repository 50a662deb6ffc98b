-- ===== src/Memory/Windows.antt =====
-- The flat image of crates/kokura-core/src/memory.rs and the selected banks, through writes and
-- changes of bank.
use kokura.Base.{
  ℕ, zero, suc, ◌+◌, ◌-◌, ◌*◌, ◌≤◌, ◌<◌, bit_and, bit_or, ◌&&◌, arith, ◌≡◌, refl, sym, ap, ◌∙◌,
  List, [], ◌∷◌, ◌==◌, ==_iff, leb, ltb, in_range, if◌then◌else◌, length, get_or, set, length-set,
  get_or-set_at, Bool-cases, inl, inr, bit_and-le,
}
use kokura.Memory.{
  Memory, copy_from_slice, active_wram_bank, read8, write8, refresh_vram_window,
  refresh_wram_window, set_vbk, set_svbk,
}
use kokura.Memory.Cells.{
  IsValid, canonical, cell, vram_cell, wram_cell, read8-cell, flat-write8, write8-IsValid,
  read8-write8,
}

pub length-copy_from_slice :
    (n at : ℕ) (dst : List ℕ) (start : ℕ) (src : List ℕ)
    → length (copy_from_slice n at dst start src) ≡ length dst
unfolding copy_from_slice
length-copy_from_slice zero at dst start src = refl
length-copy_from_slice (suc n) at dst start src =
    length-set (copy_from_slice n at dst start src) (at + n) (get_or src (start + n) 0)
    ∙ length-copy_from_slice n at dst start src

pub get_or-copy_from_slice :
    (n at : ℕ) (dst : List ℕ) (start : ℕ) (src : List ℕ) (j : ℕ)
    → at + n ≤ length dst
    → get_or (copy_from_slice n at dst start src) j 0
      ≡ (if leb at j && ltb j (at + n) then get_or src (start + (j - at)) 0 else get_or dst j 0)
unfolding copy_from_slice
get_or-copy_from_slice zero at dst start src j h = ground arith
get_or-copy_from_slice (suc n) at dst start src j h =
    let rest = get_or-copy_from_slice n at dst start src j (omega arith) in
    let here =
      get_or-set_at (copy_from_slice n at dst start src) (at + n) j (get_or src (start + n) 0) 0
        (omega (arith, length-copy_from_slice n at dst start src)) in
    elim (Bool-cases (at + n == j)) [
      | inl e ↦
          let same : at + n ≡ j = (==_iff (at + n) j).0 e in
          let last : start + n ≡ start + (j - at) = omega arith in
          let value = ap (λ t. get_or src t 0) last in ground (arith, here, same, value)
      | inr e ↦ ground (arith, here, e, rest)
    ]

-- The image agrees with what the processor reads.
unfoldable pub IsShown : Memory → Type 0
IsShown m = (a : ℕ) → a < 65536 → get_or m.flat a 0 ≡ read8 m a

write8-IsShown : (m : Memory) (a v : ℕ) → IsValid m → a < 65536 → IsShown m → IsShown (write8 a v m)
unfolding IsShown
write8-IsShown m a v k ha s b hb =
    flat-write8 m a b v k ha hb ∙ rw (s b hb) refl ∙ sym (read8-write8 m a b v k ha hb)

-- A new bank of video RAM.
vbk_flat :
    (v a : ℕ) (m : Memory)
    → IsValid m
    → get_or (set_vbk v m).1.flat a 0 ≡ (
        if leb 0x8000 a && ltb a 0xA000
        then get_or m.vram_banks (bit_and v 0x01 * 0x2000 + (a - 0x8000)) 0
        else if 0xFF4F == a
        then bit_or 0xFE (bit_and v 0x01)
        else get_or m.flat a 0)
unfolding set_vbk refresh_vram_window
vbk_flat v a m k =
    let dst = set m.flat 0xFF4F (bit_or 0xFE (bit_and v 0x01)) in
    get_or-copy_from_slice 0x2000 0x8000 dst (bit_and v 0x01 * 0x2000) m.vram_banks a
      (omega (arith, k.flat_whole, length-set m.flat 0xFF4F (bit_or 0xFE (bit_and v 0x01))))
    ∙ rw
        (get_or-set_at m.flat 0xFF4F a (bit_or 0xFE (bit_and v 0x01)) 0
          (omega (arith, k.flat_whole)))
        refl

pub set_vbk-IsValid : (v : ℕ) (m : Memory) → IsValid m → IsValid (set_vbk v m).1
unfolding set_vbk refresh_vram_window
set_vbk-IsValid v m k = record {
  flat_whole =
      length-copy_from_slice 0x2000 0x8000 _ (bit_and v 0x01 * 0x2000) m.vram_banks
      ∙ length-set m.flat 0xFF4F (bit_or 0xFE (bit_and v 0x01))
      ∙ k.flat_whole;
  vram_whole = k.vram_whole;
  wram_whole = k.wram_whole;
  vbk_bit = omega (arith, bit_and-le v 0x01);
  svbk_bits = k.svbk_bits;
}

set_vbk-IsShown : (v : ℕ) (m : Memory) → IsValid m → IsShown m → IsShown (set_vbk v m).1
unfolding IsShown set_vbk refresh_vram_window active_wram_bank
set_vbk-IsShown v m k s a ha =
    vbk_flat v a m k ∙ shown ∙ sym (read8-cell (set_vbk v m).1 a (set_vbk-IsValid v m k).vbk_bit)
  where
    shown :
        (if leb 0x8000 a && ltb a 0xA000
          then get_or m.vram_banks (bit_and v 0x01 * 0x2000 + (a - 0x8000)) 0
          else if 0xFF4F == a
          then bit_or 0xFE (bit_and v 0x01)
          else get_or m.flat a 0)
        ≡ cell (set_vbk v m).1 (canonical a)
    shown = ground (arith, s a ha, read8-cell m a k.vbk_bit, vbk_flat v a m k)

-- The image after the four copies of a new bank of work RAM.
pub wram_flat :
    (a : ℕ) (m : Memory)
    → IsValid m
    → get_or (refresh_wram_window m).flat a 0 ≡ (
        if in_range 0xC000 0xDFFF (canonical a)
        then get_or m.wram_banks (wram_cell m (canonical a)) 0
        else get_or m.flat a 0)
unfolding refresh_wram_window
wram_flat a m k =
    let start = active_wram_bank m * 0x1000 in
    let fixed = copy_from_slice 0x1000 0xC000 m.flat 0 m.wram_banks in
    let switched = copy_from_slice 0x1000 0xD000 fixed start m.wram_banks in
    let echo = copy_from_slice 0x1000 0xE000 switched 0xC000 switched in
    let l1 : length fixed ≡ 65536 =
      length-copy_from_slice 0x1000 0xC000 m.flat 0 m.wram_banks ∙ k.flat_whole in
    let l2 : length switched ≡ 65536 =
      length-copy_from_slice 0x1000 0xD000 fixed start m.wram_banks ∙ l1 in
    let l3 : length echo ≡ 65536 =
      length-copy_from_slice 0x1000 0xE000 switched 0xC000 switched ∙ l2 in
    let at_fixed : (j : ℕ) → _ = λ j.
      get_or-copy_from_slice 0x1000 0xC000 m.flat 0 m.wram_banks j (omega (arith, k.flat_whole)) in
    let at_switched : (j : ℕ) → _ =
      λ j. get_or-copy_from_slice 0x1000 0xD000 fixed start m.wram_banks j (omega (arith, l1)) in
    let at_echo : (j : ℕ) → _ =
      λ j. get_or-copy_from_slice 0x1000 0xE000 switched 0xC000 switched j (omega (arith, l2)) in
    get_or-copy_from_slice 0x0E00 0xF000 echo 0xD000 echo a (omega (arith, l3))
    ∙ ground (
      arith,
      at_echo a,
      at_echo (0xD000 + (a - 0xF000)),
      at_switched a,
      at_switched (0xC000 + (a - 0xE000)),
      at_switched (0xD000 + (a - 0xF000)),
      at_fixed a,
      at_fixed (0xC000 + (a - 0xE000)),
    )

pub set_svbk-IsValid : (v : ℕ) (m : Memory) → IsValid m → IsValid (set_svbk v m).1
unfolding set_svbk refresh_wram_window
set_svbk-IsValid v m k = record {
  flat_whole =
      length-copy_from_slice 0x0E00 0xF000 _ 0xD000 _
      ∙ length-copy_from_slice 0x1000 0xE000 _ 0xC000 _
      ∙ length-copy_from_slice 0x1000 0xD000 _ _ m.wram_banks
      ∙ length-copy_from_slice 0x1000 0xC000 _ 0 m.wram_banks
      ∙ length-set m.flat 0xFF70 (bit_or 0xF8 (bit_and v 0x07))
      ∙ k.flat_whole;
  vram_whole = k.vram_whole;
  wram_whole = k.wram_whole;
  vbk_bit = k.vbk_bit;
  svbk_bits = omega (arith, bit_and-le v 0x07);
}

-- The register of the bank beside the windows.
with_svbk : ℕ → Memory → Memory
with_svbk v m = record m {
  svbk = bit_and v 0x07;
  flat = set m.flat 0xFF70 (bit_or 0xF8 (bit_and v 0x07));
}

with_svbk-IsValid : (v : ℕ) (m : Memory) → IsValid m → IsValid (with_svbk v m)
unfolding with_svbk
with_svbk-IsValid v m k = record {
  flat_whole = length-set m.flat 0xFF70 (bit_or 0xF8 (bit_and v 0x07)) ∙ k.flat_whole;
  vram_whole = k.vram_whole;
  wram_whole = k.wram_whole;
  vbk_bit = k.vbk_bit;
  svbk_bits = omega (arith, bit_and-le v 0x07);
}

pub refreshed-cell :
    (c : ℕ) (m : Memory)
    → cell (refresh_wram_window m) c ≡ (
        if in_range 0x8000 0x9FFF c
        then get_or m.vram_banks (vram_cell m c) 0
        else if in_range 0xC000 0xDFFF c
        then get_or m.wram_banks (wram_cell m c) 0
        else get_or (refresh_wram_window m).flat c 0)
unfolding refresh_wram_window active_wram_bank
refreshed-cell c m = refl

svbk_shown :
    (v a : ℕ) (m : Memory)
    → IsValid m
    → get_or m.flat a 0 ≡ cell m (canonical a)
    → get_or (refresh_wram_window (with_svbk v m)).flat a 0
      ≡ cell (refresh_wram_window (with_svbk v m)) (canonical a)
unfolding with_svbk
svbk_shown v a m k s =
    let m1 = with_svbk v m in
    ground (
      arith,
      wram_flat a m1 (with_svbk-IsValid v m k),
      refreshed-cell (canonical a) m1,
      get_or-set_at m.flat 0xFF70 a (bit_or 0xF8 (bit_and v 0x07)) 0 (omega (arith, k.flat_whole)),
    )

set_svbk-IsShown : (v : ℕ) (m : Memory) → IsValid m → IsShown m → IsShown (set_svbk v m).1
unfolding IsShown set_svbk with_svbk
set_svbk-IsShown v m k s a ha =
    svbk_shown v a m k (s a ha ∙ read8-cell m a k.vbk_bit)
    ∙ sym (read8-cell (set_svbk v m).1 a (set_svbk-IsValid v m k).vbk_bit)

-- What the bus does to this storage, in any order.
pub data Access : Type 0 where
  store : (addr value : ℕ) → addr < 65536 → Access
  select_vram select_wram : ℕ → Access

pub apply : Access → Memory → Memory
apply (store addr value h) m = write8 addr value m
apply (select_vram value) m = (set_vbk value m).1
apply (select_wram value) m = (set_svbk value m).1

pub apply_all : List Access → Memory → Memory
apply_all [] m = m
apply_all (c ∷ cs) m = apply_all cs (apply c m)

apply-keeps :
    (c : Access) (m : Memory) → IsValid m → IsShown m → IsValid (apply c m) × IsShown (apply c m)
unfolding apply
apply-keeps (store addr value h) m k s =
    (write8-IsValid m addr value k, write8-IsShown m addr value k h s)
apply-keeps (select_vram value) m k s = (set_vbk-IsValid value m k, set_vbk-IsShown value m k s)
apply-keeps (select_wram value) m k s = (set_svbk-IsValid value m k, set_svbk-IsShown value m k s)

-- Through every sequence of writes and bank selections the storage keeps its sizes and
-- selectors, and the flat image shows, at every address, what a read of the selected banks
-- gives, once it does so.
pub apply_all-IsShown :
    (cs : List Access) (m : Memory)
    → IsValid m
    → IsShown m
    → IsValid (apply_all cs m) × IsShown (apply_all cs m)
unfolding apply_all
apply_all-IsShown [] m k s = (k, s)
apply_all-IsShown (c ∷ cs) m k s =
    let n = apply-keeps c m k s in apply_all-IsShown cs (apply c m) n.0 n.1
