-- ===== src/Ppu/Picture.antt =====
-- The picture that video RAM describes, apart from how crates/kokura-core/src/ppu/mod.rs computes it:
-- tiles of 8 by 8 texels, laid out by a map of 32 by 32 cells for the background and one for the
-- window.
use kokura.Base.{
  ℕ, ◌+◌, ◌-◌, ◌*◌, ◌/◌, ◌%◌, ◌^◌, ◌<◌, Bool, true, false, ◌&&◌, Option, none, some, List, ◌==◌,
  leb, ltb, has_bit, u8_from, if◌then◌else◌, get_or, digit, digit-lt, has_bit-digit, bit_and_low,
  bit_or_join, arith, ◌≡◌, refl, ◌∙◌,
}
use kokura.Memory.{Memory}
use kokura.Memory.Palette.{bg_palette_rgb555}
use kokura.Ppu.{
  bg_enabled, window_enabled, bg_map_base, window_map_base, tile_data_8000, window_visible_on_line,
  dmg_gray_rgb555,
}
use kokura.Ppu.State.{Ppu}
use kokura.Ppu.Sprites.{map_cell}
use kokura.Ppu.Render.{Pixel, apply_palette, apply_cgb_palette, tile_color, tile_address, bg_pixel}

abbrev pub is_set : ℕ → ℕ → Bool
is_set k x = digit k x == 1

-- The number of a texel: the two bit planes of a row lie in two bytes, leftmost texel highest.
abbrev pub texel : List ℕ → ℕ → ℕ → ℕ → ℕ
texel bank address row column =
    get_or bank (address + row * 2 + 1) 0 / 2 ^ (7 - column) % 2 * 2
    + get_or bank (address + row * 2) 0 / 2 ^ (7 - column) % 2

-- The tiles are numbered from the start of video RAM, or from its tile 256 with 128 to 255 before.
abbrev pub tile_start : Bool → ℕ → ℕ
tile_start unsigned tile =
    16 * (if unsigned then tile else if ltb tile 128 then 256 + tile else tile)

abbrev pub mirrored : Bool → ℕ → ℕ
mirrored flip i = if flip then 7 - i else i

-- Where the pixel of column `x` and line `y` is in its plane: the map, the column and the line.
abbrev pub plane_place : Ppu → ℕ → ℕ → Option ℕ → ℕ × ℕ × ℕ
plane_place p y x window_line =
    if (is_set 0 p.lcdc && (is_set 5 p.lcdc && (ltb p.wy 144 && (leb p.wy y && leb p.wx 166))))
      && leb p.wx (x + 7)
    then (
      if is_set 6 p.lcdc then 0x1C00 else 0x1800,
      x + 7 - p.wx,
      elim window_line [ some line ↦ line | none ↦ y - p.wy ],
    )
    else (if is_set 3 p.lcdc then 0x1C00 else 0x1800, (x + p.scx) % 256, (y + p.scy) % 256)

-- How bright a color is, of five bits for each of red, green and blue.
abbrev pub brightness : ℕ → ℕ
brightness rgb = (rgb % 32 * 3 + rgb / 32 % 32 * 6 + rgb / 1024 % 32) / 10 % 256

-- The pixel of a plane. Without color there are no attributes, which is as if all were 0.
abbrev pub plane_pixel : List ℕ → List ℕ → Memory → Bool → Ppu → ℕ → Option ℕ → ℕ → Pixel
plane_pixel vram0 vram1 memory cgb_mode p y window_line x =
    let place = plane_place p y x window_line in
    let cell = place.0 + place.2 / 8 % 32 * 32 + place.1 / 8 % 32 in
    let attr = if cgb_mode then get_or vram1 cell 0 else 0 in
    let color =
      texel (if is_set 3 attr then vram1 else vram0)
        (tile_start (is_set 4 p.lcdc) (get_or vram0 cell 0))
        (mirrored (is_set 6 attr) (place.2 % 8)) (mirrored (is_set 5 attr) (place.1 % 8)) in
    let rgb = bg_palette_rgb555 (attr % 8) color memory in
    let shade = p.bgp / 2 ^ (color * 2) % 4 in
    record {
      color_id = color;
      priority = digit 7 attr;
      gray = if cgb_mode then brightness rgb else shade;
      rgb555 = if cgb_mode then rgb else dmg_gray_rgb555 shade;
    }

pub tile_color_lem : (lo hi k : ℕ) → tile_color lo hi k ≡ hi / 2 ^ k % 2 * 2 + lo / 2 ^ k % 2
unfolding tile_color
tile_color_lem lo hi k =
    rw (bit_and_low 1 (hi / 2 ^ k), bit_and_low 1 (lo / 2 ^ k))
      (bit_or_join 1 (hi / 2 ^ k % 2) (lo / 2 ^ k % 2) (omega arith))

tile_address_lem : (b : Bool) (t : ℕ) → tile_address b t ≡ tile_start b t
unfolding tile_address
tile_address_lem true t = omega arith
tile_address_lem false t = ground arith

pub apply_cgb_palette_lem : (c : ℕ) → apply_cgb_palette c ≡ brightness c
unfolding apply_cgb_palette
apply_cgb_palette_lem c =
    rw (bit_and_low 5 c, bit_and_low 5 (c / 32), bit_and_low 5 (c / 1024)) refl

pub apply_palette_lem : (palette c : ℕ) → apply_palette palette c ≡ palette / 2 ^ (c * 2) % 4
unfolding apply_palette
apply_palette_lem palette c = bit_and_low 2 (palette / 2 ^ (c * 2))

map_cell_lem :
    (p : Ppu) (y x : ℕ) (window_line : Option ℕ)
    → p.lcdc < 256
    → y < 144
    → map_cell p y x window_line ≡ plane_place p y x window_line
unfolding map_cell window_visible_on_line bg_enabled window_enabled bg_map_base window_map_base
map_cell_lem p y x window_line h ly =
    let e : y % 256 ≡ y = omega arith in
    rw
      (
        e,
        has_bit-digit 0 p.lcdc (omega arith) h,
        has_bit-digit 5 p.lcdc (omega arith) h,
        has_bit-digit 6 p.lcdc (omega arith) h,
        has_bit-digit 3 p.lcdc (omega arith) h,
        bit_and_low 8 (x + p.scx),
        bit_and_low 8 (y + p.scy),
      )
      refl

texel_lem :
    (bank : List ℕ) (unsigned fx fy : Bool) (t u v : ℕ)
    → let at = tile_address unsigned t + (if fy then 7 - v % 8 else v % 8) * 2 in
      tile_color (get_or bank at 0) (get_or bank (at + 1) 0) (if fx then u % 8 else 7 - u % 8)
      ≡ texel bank (tile_start unsigned t) (mirrored fy (v % 8)) (mirrored fx (u % 8))
texel_lem bank unsigned fx fy t u v =
    let at = tile_address unsigned t + (if fy then 7 - v % 8 else v % 8) * 2 in
    tile_color_lem (get_or bank at 0) (get_or bank (at + 1) 0) (if fx then u % 8 else 7 - u % 8)
    ∙ rw (tile_address_lem unsigned t, column fx (u % 8) (omega arith)) refl
  where
    column : (b : Bool) (c : ℕ) → c < 8 → (if b then c else 7 - c) ≡ 7 - mirrored b c
    column true c h = omega arith
    column false c h = refl

-- The attributes as bits.
set_bits :
    (a : ℕ)
    → a < 256
    → (has_bit a 0x08 ≡ is_set 3 a)
      × (has_bit a 0x20 ≡ is_set 5 a)
      × (has_bit a 0x40 ≡ is_set 6 a)
      × (u8_from (has_bit a 0x80) ≡ digit 7 a)
set_bits a h = (
  has_bit-digit 3 a (omega arith) h,
  has_bit-digit 5 a (omega arith) h,
  has_bit-digit 6 a (omega arith) h,
  rw (has_bit-digit 7 a (omega arith) h) (ground (arith, digit-lt 7 a)),
)

pub bg_pixel-plane_pixel :
    (vram0 vram1 : List ℕ) (memory : Memory) (cgb_mode : Bool) (p : Ppu) (y : ℕ)
    (window_line : Option ℕ) (x : ℕ)
    → ((i : ℕ) → get_or vram1 i 0 < 256)
    → p.lcdc < 256
    → y < 144
    → bg_pixel vram0 vram1 memory cgb_mode p y window_line x
      ≡ plane_pixel vram0 vram1 memory cgb_mode p y window_line x
unfolding bg_pixel tile_data_8000 digit apply_palette dmg_gray_rgb555
bg_pixel-plane_pixel vram0 vram1 memory true p y window_line x hv h ly =
    let place = plane_place p y x window_line in
    let cell = place.0 + place.2 / 8 % 32 * 32 + place.1 / 8 % 32 in
    let attr = get_or vram1 cell 0 in
    let bits = set_bits attr (hv cell) in
    rw
      (
        map_cell_lem p y x window_line h ly,
        bit_and_low 5 (place.1 / 8),
        bit_and_low 5 (place.2 / 8),
        bit_and_low 3 place.1,
        bit_and_low 3 place.2,
        bit_and_low 3 attr,
        bits.0,
        bits.1,
        bits.2,
        bits.3,
        has_bit-digit 4 p.lcdc (omega arith) h,
      )
      (rw
        (
          texel_lem (if is_set 3 attr then vram1 else vram0) (is_set 4 p.lcdc) (is_set 5 attr)
              (is_set 6 attr) (get_or vram0 cell 0) place.1 place.2,
          apply_cgb_palette_lem (plane_pixel vram0 vram1 memory true p y window_line x).rgb555,
        )
        refl)
bg_pixel-plane_pixel vram0 vram1 memory false p y window_line x hv h ly =
    let place = plane_place p y x window_line in
    let cell = place.0 + place.2 / 8 % 32 * 32 + place.1 / 8 % 32 in
    rw
      (
        map_cell_lem p y x window_line h ly,
        bit_and_low 5 (place.1 / 8),
        bit_and_low 5 (place.2 / 8),
        bit_and_low 3 place.1,
        bit_and_low 3 place.2,
        has_bit-digit 4 p.lcdc (omega arith) h,
      )
      (rw
        (
          texel_lem vram0 (is_set 4 p.lcdc) false false (get_or vram0 cell 0) place.1 place.2,
          apply_palette_lem p.bgp (plane_pixel vram0 vram1 memory false p y window_line x).color_id,
        )
        refl)
