-- ===== src/Memory/Cells.antt =====
-- Which byte of crates/kokura-core/src/memory.rs an address stands for, in reads and in writes.
use kokura.Base.{
  ℕ, ◌+◌, ◌-◌, ◌*◌, ◌≤◌, ◌<◌, true, false, ◌&&◌, ◌||◌, arith, ◌≡◌, refl, ap, ◌∙◌, List, ◌==◌, leb,
  in_range, if◌then◌else◌, length, get_or, set, length-set, get_or-set_at, Bool-cases, inl, inr,
  bit_and-le, bit_and_low,
}
use kokura.Memory.{
  Memory, active_wram_bank, read_vram8, write_vram8, read_wram8, write_wram8, read8, write8,
}

-- The sizes of the backing and the ranges of the selectors.
pub record IsValid (m : Memory) : Type 0 where
  pub flat_whole : length m.flat ≡ 0x10000
  pub vram_whole : length m.vram_banks ≡ 0x4000
  pub wram_whole : length m.wram_banks ≡ 0x8000
  pub vbk_bit : m.vbk < 2
  pub svbk_bits : m.svbk < 8

-- The echo of work RAM, E000 to FDFF, stands for C000 to DDFF.
abbrev pub canonical : ℕ → ℕ
canonical addr = if in_range 0xE000 0xFDFF addr then addr - 0x2000 else addr

pub active_wram_bank-lt : (m : Memory) → m.svbk < 8 → active_wram_bank m < 8
unfolding active_wram_bank
active_wram_bank-lt m h = ground (arith, bit_and-le m.svbk 7)

-- The cell of an address below the echo.
abbrev pub vram_cell : Memory → ℕ → ℕ
vram_cell m c = m.vbk * 0x2000 + (c - 0x8000)

abbrev pub wram_cell : Memory → ℕ → ℕ
wram_cell m c = if leb c 0xCFFF then c - 0xC000 else active_wram_bank m * 0x1000 + (c - 0xD000)

abbrev pub cell : Memory → ℕ → ℕ
cell m c =
    if in_range 0x8000 0x9FFF c
    then get_or m.vram_banks (vram_cell m c) 0
    else if in_range 0xC000 0xDFFF c
    then get_or m.wram_banks (wram_cell m c) 0
    else get_or m.flat c 0

pub read8-cell : (m : Memory) (addr : ℕ) → m.vbk < 2 → read8 m addr ≡ cell m (canonical addr)
unfolding read8 read_vram8 read_wram8
read8-cell m addr h = ground (arith, bit_and_low 1 m.vbk)

-- A write to work RAM reaches the image at the address and at its echo.
echoed :
    (m : Memory) (c b v : ℕ)
    → IsValid m
    → 0xC000 ≤ c
    → c ≤ 0xDFFF
    → get_or (write_wram8 c v m).flat b 0
      ≡ (if c == b || leb c 0xDDFF && c + 0x2000 == b then v else get_or m.flat b 0)
unfolding write_wram8
echoed m c b v k p q =
    let inside = get_or-set_at m.flat c b v 0 (omega (arith, k.flat_whole)) in
    let above =
      get_or-set_at (set m.flat c v) (c + 0x2000) b v 0
        (omega (arith, k.flat_whole, length-set m.flat c v)) in
    ground (arith, inside, above)

wram_hits :
    (a b : ℕ)
    → b < 65536
    → in_range 0xC000 0xDFFF (canonical a) ≡ true
    → (canonical a == b || leb (canonical a) 0xDDFF && canonical a + 0x2000 == b)
      ≡ (canonical a == canonical b)
wram_hits a b hb h = ground arith

in_wram : (c : ℕ) → in_range 0xC000 0xDFFF c ≡ true → (0xC000 ≤ c) × (c ≤ 0xDFFF)
in_wram c h = ground arith

write8-wram :
    (m : Memory) (a v : ℕ)
    → in_range 0xC000 0xDFFF (canonical a) ≡ true
    → write8 a v m ≡ write_wram8 (canonical a) v m
unfolding write8
write8-wram m a v h = ground arith

plain_flat :
    (m : Memory) (a v : ℕ)
    → in_range 0xC000 0xDFFF (canonical a) ≡ false
    → ((write8 a v m).flat ≡ set m.flat a v) × (canonical a ≡ a)
unfolding write8 write_vram8
plain_flat m a v h = ground arith

plain_hits :
    (a b : ℕ)
    → in_range 0xC000 0xDFFF (canonical a) ≡ false
    → (a == b) ≡ (canonical a == canonical b)
plain_hits a b h = ground arith

pub flat-write8 :
    (m : Memory) (a b v : ℕ)
    → IsValid m
    → a < 65536
    → b < 65536
    → get_or (write8 a v m).flat b 0 ≡ (if canonical a == canonical b then v else get_or m.flat b 0)
flat-write8 m a b v k ha hb = elim (Bool-cases (in_range 0xC000 0xDFFF (canonical a))) [
  | inl e ↦
      let w = in_wram (canonical a) e in
      ap (λ (x : Memory). get_or x.flat b 0) (write8-wram m a v e)
      ∙ rw (wram_hits a b hb e) at (echoed m (canonical a) b v k w.0 w.1)
  | inr e ↦
      ap (λ (xs : List ℕ). get_or xs b 0) (plain_flat m a v e).0
      ∙ rw (plain_hits a b e) at (get_or-set_at m.flat a b v 0 (omega (arith, k.flat_whole)))
]

pub vram-write8 :
    (m : Memory) (a i v : ℕ)
    → IsValid m
    → a < 65536
    → get_or (write8 a v m).vram_banks i 0
      ≡ (if in_range 0x8000 0x9FFF a && vram_cell m a == i then v else get_or m.vram_banks i 0)
unfolding write8 write_vram8 write_wram8
vram-write8 m a i v k ha =
    ground (arith, k.vram_whole, k.vbk_bit, get_or-set_at m.vram_banks (vram_cell m a) i v 0)

pub wram-write8 :
    (m : Memory) (a i v : ℕ)
    → IsValid m
    → a < 65536
    → get_or (write8 a v m).wram_banks i 0 ≡ (
        if in_range 0xC000 0xDFFF (canonical a) && wram_cell m (canonical a) == i
        then v
        else get_or m.wram_banks i 0)
unfolding write8 write_vram8 write_wram8
wram-write8 m a i v k ha = ground (
  arith,
  k.wram_whole,
  active_wram_bank-lt m k.svbk_bits,
  get_or-set_at m.wram_banks (wram_cell m (canonical a)) i v 0,
)

pub vbk-write8 :
    (m : Memory) (a v : ℕ) → ((write8 a v m).vbk ≡ m.vbk) × ((write8 a v m).svbk ≡ m.svbk)
unfolding write8 write_vram8 write_wram8
vbk-write8 m a v = ground arith

length-write8 :
    (m : Memory) (a v : ℕ)
    → (length (write8 a v m).vram_banks ≡ length m.vram_banks)
      × (length (write8 a v m).wram_banks ≡ length m.wram_banks)
unfolding write8 write_vram8 write_wram8
length-write8 m a v = ground (
  arith,
  length-set m.vram_banks (vram_cell m a) v,
  length-set m.wram_banks (wram_cell m (canonical a)) v,
)

length-write_wram8 : (m : Memory) (c v : ℕ) → length (write_wram8 c v m).flat ≡ length m.flat
unfolding write_wram8
length-write_wram8 m c v =
    ground (arith, length-set m.flat c v, length-set (set m.flat c v) (c + 0x2000) v)

length-flat : (m : Memory) (a v : ℕ) → length (write8 a v m).flat ≡ length m.flat
length-flat m a v = elim (Bool-cases (in_range 0xC000 0xDFFF (canonical a))) [
  | inl e ↦ rw (write8-wram m a v e) (length-write_wram8 m (canonical a) v)
  | inr e ↦ rw (plain_flat m a v e).0 (length-set m.flat a v)
]

pub write8-IsValid : (m : Memory) (a v : ℕ) → IsValid m → IsValid (write8 a v m)
write8-IsValid m a v k =
    let l = length-write8 m a v in
    let s = vbk-write8 m a v in
    record {
      flat_whole = length-flat m a v ∙ k.flat_whole;
      vram_whole = l.0 ∙ k.vram_whole;
      wram_whole = l.1 ∙ k.wram_whole;
      vbk_bit = omega (arith, s.0, k.vbk_bit);
      svbk_bits = omega (arith, s.1, k.svbk_bits);
    }

pub active_wram_bank-some : (m : Memory) → 1 ≤ active_wram_bank m
unfolding active_wram_bank
active_wram_bank-some m = ground arith

active-write8 : (m : Memory) (a v : ℕ) → active_wram_bank (write8 a v m) ≡ active_wram_bank m
unfolding active_wram_bank
active-write8 m a v = rw (vbk-write8 m a v).1 refl

-- The cells of one array are apart.
vram_apart :
    (m : Memory) (a c : ℕ)
    → in_range 0x8000 0x9FFF c ≡ true
    → (in_range 0x8000 0x9FFF a && vram_cell m a == vram_cell m c) ≡ (canonical a == c)
vram_apart m a c h = ground arith

wram_apart :
    (m : Memory) (c' c : ℕ)
    → in_range 0xC000 0xDFFF c ≡ true
    → (in_range 0xC000 0xDFFF c' && wram_cell m c' == wram_cell m c) ≡ (c' == c)
wram_apart m c' c h = ground (arith, active_wram_bank-some m)

cell-write8 :
    (m : Memory) (a c v : ℕ)
    → IsValid m
    → a < 65536
    → c < 65536
    → canonical c ≡ c
    → cell (write8 a v m) c ≡ (if canonical a == c then v else cell m c)
cell-write8 m a c v k ha hc e = elim (Bool-cases (in_range 0x8000 0x9FFF c)) [
  | inl p ↦
      rw (p, (vbk-write8 m a v).0, vram-write8 m a (vram_cell m c) v k ha, vram_apart m a c p) refl
  | inr p ↦ elim (Bool-cases (in_range 0xC000 0xDFFF c)) [
    | inl q ↦
        rw
          (
            p,
            q,
            active-write8 m a v,
            wram-write8 m a (wram_cell m c) v k ha,
            wram_apart m (canonical a) c q,
          )
          refl
    | inr q ↦ rw (p, q) (rw e at (flat-write8 m a c v k ha hc))
  ]
]

canonical-lt : (b : ℕ) → b < 65536 → (canonical b < 65536) × (canonical (canonical b) ≡ canonical b)
canonical-lt b h = ground arith

-- In storage of the right sizes every write is read back at its address and, in work RAM, at the
-- echo of it, E000 to FDFF, and nowhere else.
pub read8-write8 :
    (m : Memory) (a b v : ℕ)
    → IsValid m
    → a < 65536
    → b < 65536
    → read8 (write8 a v m) b ≡ (if canonical a == canonical b then v else read8 m b)
read8-write8 m a b v k ha hb =
    let c = canonical-lt b hb in
    read8-cell (write8 a v m) b (write8-IsValid m a v k).vbk_bit
    ∙ cell-write8 m a (canonical b) v k ha c.0 c.1
    ∙ rw (read8-cell m b k.vbk_bit) refl
