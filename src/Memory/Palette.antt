-- ===== src/Memory/Palette.antt =====
-- The color palettes behind FF68 to FF6B.
use kokura.Base.{
  ℕ, ◌+◌, ◌*◌, ◌%◌, ◌<◌, bit_and, bit_or, Bool, true, false, not, arith, ◌≡◌, refl, sym, List, ◌==◌,
  ==_iff, u8, ◌<<<◌, has_bit, if◌then◌else◌, length, get_or, set, get_or-set_at, length-set,
  bit_and_low, bit_and-le, all_below, all_below_at, bit_or_join, bit_or-lt,
}
use kokura.Memory.{Memory, PaletteAccessResult}

unfoldable pub read_bg_palette_data : Bool → Memory → ℕ
read_bg_palette_data blocked m =
    if blocked then 0xFF else get_or m.bg_palette_ram (bit_and m.bg_palette_index 0x3F) 0

-- `0x80 | index.wrapping_add(1) & 0x3F`.
unfoldable pub next_index : ℕ → ℕ
next_index index = bit_or 0x80 (bit_and (u8 (index + 1)) 0x3F)

unfoldable pub write_bg_palette_data : ℕ → Bool → Memory → PaletteAccessResult × Memory
write_bg_palette_data value blocked m =
    let index = bit_and m.bg_palette_index 0x3F in
    let auto_increment = has_bit m.bg_palette_index 0x80 in
    let m1 =
      (if not blocked then record m { bg_palette_ram = set m.bg_palette_ram index value } else m) in
    let m2 =
      (if auto_increment
        then record m1 {
          bg_palette_index = next_index index;
          flat = set m1.flat 0xFF68 (next_index index);
        }
        else m1) in
    (
      record { index = index; value = value; blocked = blocked; auto_increment = auto_increment },
      record m2 { flat = set m2.flat 0xFF69 (read_bg_palette_data blocked m2) },
    )

unfoldable pub set_bg_palette_index : ℕ → Memory → ℕ × Memory
set_bg_palette_index value m =
    let index = bit_and value 0xBF in
    (index, record m { bg_palette_index = index; flat = set m.flat 0xFF68 index })

unfoldable pub bg_palette_index_register : Memory → ℕ
bg_palette_index_register m = m.bg_palette_index

unfoldable pub read_obj_palette_data : Bool → Memory → ℕ
read_obj_palette_data blocked m =
    if blocked then 0xFF else get_or m.obj_palette_ram (bit_and m.obj_palette_index 0x3F) 0

unfoldable pub write_obj_palette_data : ℕ → Bool → Memory → PaletteAccessResult × Memory
write_obj_palette_data value blocked m =
    let index = bit_and m.obj_palette_index 0x3F in
    let auto_increment = has_bit m.obj_palette_index 0x80 in
    let m1 =
      (if not blocked
        then record m { obj_palette_ram = set m.obj_palette_ram index value }
        else m) in
    let m2 =
      (if auto_increment
        then record m1 {
          obj_palette_index = next_index index;
          flat = set m1.flat 0xFF6A (next_index index);
        }
        else m1) in
    (
      record { index = index; value = value; blocked = blocked; auto_increment = auto_increment },
      record m2 { flat = set m2.flat 0xFF6B (read_obj_palette_data blocked m2) },
    )

unfoldable pub set_obj_palette_index : ℕ → Memory → ℕ × Memory
set_obj_palette_index value m =
    let index = bit_and value 0xBF in
    (index, record m { obj_palette_index = index; flat = set m.flat 0xFF6A index })

unfoldable pub obj_palette_index_register : Memory → ℕ
obj_palette_index_register m = m.obj_palette_index

unfoldable pub palette_rgb555 : List ℕ → ℕ → ℕ → ℕ
palette_rgb555 ram palette color =
    let base = bit_and palette 0x07 * 8 + bit_and color 0x03 * 2 in
    let lo = get_or ram base 0 in let hi = get_or ram (base + 1) 0 in bit_or (hi <<< 8) lo

unfoldable pub bg_palette_rgb555 : ℕ → ℕ → Memory → ℕ
bg_palette_rgb555 palette color m = palette_rgb555 m.bg_palette_ram palette color

unfoldable pub obj_palette_rgb555 : ℕ → ℕ → Memory → ℕ
obj_palette_rgb555 palette color m = palette_rgb555 m.obj_palette_ram palette color

index_next :
    (i : ℕ)
    → i < 64
    → (bit_and (next_index i) 0x3F ≡ (i + 1) % 64) × (has_bit (next_index i) 0x80 ≡ true)
index_next i h = (
  (==_iff _ _).0 (all_below_at 64 (λ i. bit_and (next_index i) 0x3F == (i + 1) % 64) i low h),
  all_below_at 64 (λ i. has_bit (next_index i) 0x80) i high h,
)
  where
    low : all_below 64 (λ i. bit_and (next_index i) 0x3F == (i + 1) % 64) ≡ true
    low = unfold all_below next_index in refl

    high : all_below 64 (λ i. has_bit (next_index i) 0x80) ≡ true
    high = unfold all_below next_index in refl

next_index-lt : (i : ℕ) → next_index i < 256
unfolding next_index
next_index-lt i =
    bit_or-lt 8 0x80 (bit_and (u8 (i + 1)) 0x3F) (omega arith)
      (omega (arith, bit_and-le (u8 (i + 1)) 0x3F))

-- Writing a color, low byte first, through an index that advances by itself.
write_bg-parts :
    (v : ℕ) (m : Memory)
    → m.bg_palette_index < 256
    → has_bit m.bg_palette_index 0x80 ≡ true
    → let m' = (write_bg_palette_data v false m).1 in
      (m'.bg_palette_ram ≡ set m.bg_palette_ram (m.bg_palette_index % 64) v)
      × (bit_and m'.bg_palette_index 0x3F ≡ (m.bg_palette_index % 64 + 1) % 64)
      × (has_bit m'.bg_palette_index 0x80 ≡ true)
      × (m'.bg_palette_index < 256)
unfolding write_bg_palette_data
write_bg-parts v m h e =
    let n = index_next (m.bg_palette_index % 64) (omega arith) in
    rw (e, bit_and_low 6 m.bg_palette_index)
      (refl, n.0, n.1, next_index-lt (m.bg_palette_index % 64))

index_kept :
    (i : ℕ) → i < 64 → (bit_and (0x80 + i) 0xBF ≡ 0x80 + i) × (has_bit (0x80 + i) 0x80 ≡ true)
index_kept i h = (
  (==_iff _ _).0 (all_below_at 64 (λ i. bit_and (0x80 + i) 0xBF == 0x80 + i) i low h),
  all_below_at 64 (λ i. has_bit (0x80 + i) 0x80) i high h,
)
  where
    low : all_below 64 (λ i. bit_and (0x80 + i) 0xBF == 0x80 + i) ≡ true
    low = unfold all_below in refl

    high : all_below 64 (λ i. has_bit (0x80 + i) 0x80) ≡ true
    high = unfold all_below in refl

two_bytes :
    (ram : List ℕ) (base palette color lo hi : ℕ)
    → length ram ≡ 64
    → palette < 8
    → color < 4
    → lo < 256
    → base ≡ palette * 8 + color * 2
    → palette_rgb555 (set (set ram base lo) (base + 1) hi) palette color ≡ hi * 256 + lo
unfolding palette_rgb555
two_bytes ram base palette color lo hi n hp hc hl e =
    let p : bit_and palette 0x07 ≡ palette = omega (arith, bit_and_low 3 palette) in
    let c : bit_and color 0x03 ≡ color = omega (arith, bit_and_low 2 color) in
    let inner = length-set ram base lo in
    let at_lo : get_or (set (set ram base lo) (base + 1) hi) base 0 ≡ lo = ground (
      arith,
      get_or-set_at (set ram base lo) (base + 1) base hi 0 (omega (arith, inner, n)),
      get_or-set_at ram base base lo 0 (omega (arith, n)),
    ) in
    let at_hi : get_or (set (set ram base lo) (base + 1) hi) (base + 1) 0 ≡ hi = ground (
      arith,
      get_or-set_at (set ram base lo) (base + 1) (base + 1) hi 0 (omega (arith, inner, n)),
    ) in
    rw (p, c, sym e, at_lo, at_hi) (omega (arith, bit_or_join 8 hi lo hl))

-- A color written without blocking through the background index register with its advance bit
-- set, low byte first, is the word that the picture unit reads for the palette and color.
pub bg_palette_rgb555-write :
    (palette color lo hi : ℕ) (m : Memory)
    → length m.bg_palette_ram ≡ 64
    → palette < 8
    → color < 4
    → lo < 256
    → let m1 = (set_bg_palette_index (0x80 + (palette * 8 + color * 2)) m).1 in
      let m2 = (write_bg_palette_data lo false m1).1 in
      let m3 = (write_bg_palette_data hi false m2).1 in
      bg_palette_rgb555 palette color m3 ≡ hi * 256 + lo
unfolding bg_palette_rgb555 set_bg_palette_index
bg_palette_rgb555-write palette color lo hi m n hp hc hl =
    let base = palette * 8 + color * 2 in
    let m1 = (set_bg_palette_index (0x80 + base) m).1 in
    let i = index_kept base (omega arith) in
    let i1 : m1.bg_palette_index ≡ 0x80 + base = i.0 in
    let w1 = write_bg-parts lo m1 (omega (arith, i1)) (rw i1 i.1) in
    let m2 = (write_bg_palette_data lo false m1).1 in
    let w2 = write_bg-parts hi m2 w1.3 w1.2 in
    let first : m1.bg_palette_index % 64 ≡ base = omega (arith, i1) in
    let second : m2.bg_palette_index % 64 ≡ base + 1 =
      omega (arith, w1.1, bit_and_low 6 m2.bg_palette_index, first) in
    rw (w2.0, second, w1.0, first)
      (two_bytes m.bg_palette_ram base palette color lo hi n hp hc hl refl)
