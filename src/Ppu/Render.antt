-- ===== src/Ppu/Render.antt =====
-- The drawing of a line. A write of a pixel out of range is a panic in the source and changes nothing
-- here; a visible line and planes of their length exclude it. A color is computed from the registers,
-- which drawing does not change.
use kokura.Base.{
  ℕ, zero, suc, ◌+◌, ◌-◌, ◌*◌, ◌/◌, ◌%◌, bit_and, bit_or, Bool, not, ◌&&◌, ◌||◌, Option, none, some,
  List, [], ◌∷◌, ◌==◌, ◌!=◌, leb, ltb, u8, ◌<<<◌, ◌>>>◌, has_bit, u8_from, if◌then◌else◌, get_or,
  set, sort,
}
use kokura.Memory.{Memory, vram_bank, oam}
use kokura.Memory.Palette.{bg_palette_rgb555, obj_palette_rgb555}
use kokura.Ppu.{
  bg_enabled, sprite_enabled, sprite_height, tile_data_8000, window_visible_on_line,
  dmg_gray_rgb555,
}
use kokura.Ppu.State.{Ppu, Sprite, screen_width, visible_scanlines}
use kokura.Ppu.Sprites.{map_cell, by_x, selected_sprites_on_line}

pub record Pixel : Type 0 where
  pub color_id : ℕ
  pub priority : ℕ
  pub gray : ℕ
  pub rgb555 : ℕ

unfoldable pub apply_palette : ℕ → ℕ → ℕ
apply_palette palette color_id = bit_and (palette >>> (color_id * 2)) 0x03

unfoldable pub apply_cgb_palette : ℕ → ℕ
apply_cgb_palette rgb555 =
    let r = bit_and rgb555 0x1F in
    let g = bit_and (rgb555 >>> 5) 0x1F in
    let b = bit_and (rgb555 >>> 10) 0x1F in u8 ((r * 3 + g * 6 + b) / 10)

-- The color of bit `fine` of a row of a tile.
unfoldable pub tile_color : ℕ → ℕ → ℕ → ℕ
tile_color lo hi fine = bit_or (bit_and (hi >>> fine) 1 <<< 1) (bit_and (lo >>> fine) 1)

-- A tile number from 128 on is negative, below 0x1000.
unfoldable pub tile_address : Bool → ℕ → ℕ
tile_address data_8000 tile_number =
    if data_8000
    then tile_number * 16
    else if ltb tile_number 128
    then 0x1000 + tile_number * 16
    else 0x1000 + tile_number * 16 - 0x1000

module _ (vram0 vram1 : List ℕ) (memory : Memory) (cgb_mode : Bool) where
  -- The body of the loop of `render_scanline_from_vram_with_mode` for one `x`.
  unfoldable pub bg_pixel : Ppu → ℕ → Option ℕ → ℕ → Pixel
  bg_pixel p y window_line x =
      let (map_base, px, py) = map_cell p y x window_line in
      let tile_x = bit_and (px / 8) 0x1F in
      let tile_y = bit_and (py / 8) 0x1F in
      let map_index = map_base + tile_y * 32 + tile_x in
      let tile_number = get_or vram0 map_index 0 in
      let attr = if cgb_mode then get_or vram1 map_index 0 else 0 in
      let palette = bit_and attr 0x07 in
      let tile_bank = if cgb_mode && has_bit attr 0x08 then vram1 else vram0 in
      let xflip = cgb_mode && has_bit attr 0x20 in
      let yflip = cgb_mode && has_bit attr 0x40 in
      let priority = cgb_mode && has_bit attr 0x80 in
      let fine_x = if xflip then bit_and px 7 else 7 - bit_and px 7 in
      let fine_y = if yflip then 7 - bit_and py 7 else bit_and py 7 in
      let tile_addr = tile_address (tile_data_8000 p) tile_number in
      let lo = get_or tile_bank (tile_addr + fine_y * 2) 0 in
      let hi = get_or tile_bank (tile_addr + fine_y * 2 + 1) 0 in
      let color_id = tile_color lo hi fine_x in
      let rgb555 = bg_palette_rgb555 palette color_id memory in
      let gray = apply_palette p.bgp color_id in
      record {
        color_id = color_id;
        priority = u8_from priority;
        gray = if cgb_mode then apply_cgb_palette rgb555 else gray;
        rgb555 = if cgb_mode then rgb555 else dmg_gray_rgb555 gray;
      }

-- The pixel of a line with the background off.
unfoldable pub blank_pixel : Pixel
blank_pixel = record { color_id = 0; priority = 0; gray = 0; rgb555 = dmg_gray_rgb555 0 }

unfoldable pub put_pixel : ℕ → Pixel → Ppu → Ppu
put_pixel at c p = record p {
  bg_color_ids = set p.bg_color_ids at c.color_id;
  bg_priority_flags = set p.bg_priority_flags at c.priority;
  framebuffer = set p.framebuffer at c.gray;
  color_framebuffer = set p.color_framebuffer at c.rgb555;
}

-- `for x in 0..n`.
unfoldable pub put_row : ℕ → ℕ → (ℕ → Pixel) → Ppu → Ppu
put_row zero base color p = p
put_row (suc x) base color p = put_pixel (base + x) (color x) (put_row x base color p)

-- Whether the background hides a sprite's pixel at `idx`.
unfoldable pub hidden : Ppu → Sprite → ℕ → Bool
hidden p s idx =
    let bg = get_or p.bg_color_ids idx 0 != 0 in
    (get_or p.bg_priority_flags idx 0 != 0 && bg) || (has_bit s.attr 0x80 && bg)

unfoldable pub off_screen : Ppu → Sprite → Bool
off_screen p s = s.x == 0 || (leb 168 s.x || (leb (s.y + sprite_height p) 16 || leb 160 s.y))

-- `usize` of 64 bits, as in a build without overflow checks; a build with them panics where the
-- source's arithmetic wraps.
abbrev pub usize : ℕ → ℕ
usize n = n % 18446744073709551616

abbrev pub wrapping_sub : ℕ → ℕ → ℕ
wrapping_sub a b = usize (a + (18446744073709551616 - b))

-- The place of a line's first pixel.
abbrev pub line_base : ℕ → ℕ
line_base y = y * screen_width

module _ (vram0 vram1 : List ℕ) (memory : Memory) (cgb_mode : Bool) where
  unfoldable pub render_scanline_from_vram_with_mode : ℕ → Option ℕ → Ppu → Ppu
  render_scanline_from_vram_with_mode y window_line p =
      if not (bg_enabled p)
      then put_row screen_width (line_base y) (λ x. blank_pixel) p
      else put_row screen_width (line_base y) (bg_pixel vram0 vram1 memory cgb_mode p y window_line)
          p

  -- What a sprite shows at column `px` of its eight, with its shade and its color.
  unfoldable pub sprite_color : Ppu → ℕ → Sprite → ℕ → ℕ × ℕ × ℕ
  sprite_color p y s px =
      let height = sprite_height p in
      let dmg_palette = if has_bit s.attr 0x10 then p.obp1 else p.obp0 in
      let cgb_palette = bit_and s.attr 0x07 in
      let tile_bank = if cgb_mode && has_bit s.attr 0x08 then vram1 else vram0 in
      let sprite_row = wrapping_sub (y + 16) s.y in
      let tile_y =
        if has_bit s.attr 0x40 then wrapping_sub (height - 1) sprite_row else sprite_row in
      let tile_index = if height == 16 then bit_and s.tile 0xFE else s.tile in
      let tile_addr = usize (tile_index * 16 + tile_y * 2) in
      let lo = get_or tile_bank tile_addr 0 in
      let hi = get_or tile_bank (usize (tile_addr + 1)) 0 in
      let tx = if has_bit s.attr 0x20 then px else 7 - px in
      let color_id = tile_color lo hi tx in
      let rgb555 = obj_palette_rgb555 cgb_palette color_id memory in
      let gray = apply_palette dmg_palette color_id in
      (
        color_id,
        if cgb_mode then apply_cgb_palette rgb555 else gray,
        if cgb_mode then rgb555 else dmg_gray_rgb555 gray,
      )

  -- The body of the loop over the columns. Columns left of the screen and right of it are passed.
  unfoldable pub put_sprite_pixel : ℕ → Sprite → ℕ → Ppu → Ppu
  put_sprite_pixel y s px p =
      let idx = line_base y + (s.x + px - 8) in
      let (color_id, gray, rgb555) = sprite_color p y s px in
      if ltb (s.x + px) 8 || leb screen_width (s.x + px - 8)
      then p
      else if color_id == 0
      then p
      else if hidden p s idx
      then p
      else record p {
        framebuffer = set p.framebuffer idx gray;
        color_framebuffer = set p.color_framebuffer idx rgb555;
      }

  unfoldable pub put_sprite_row : ℕ → ℕ → Sprite → Ppu → Ppu
  put_sprite_row zero y s p = p
  put_sprite_row (suc px) y s p = put_sprite_pixel y s px (put_sprite_row px y s p)

  unfoldable pub put_sprites : ℕ → List Sprite → Ppu → Ppu
  put_sprites y [] p = p
  put_sprites y (s ∷ ss) p = put_sprites y ss (if off_screen p s then p else put_sprite_row 8 y s p)

  -- In the reverse of the order of `by_x`.
  unfoldable pub overlay_sprite_list_on_scanline_with_vram_mode : List Sprite → ℕ → Ppu → Ppu
  overlay_sprite_list_on_scanline_with_vram_mode sprites y p =
      put_sprites y (sort (λ s t. by_x t s) sprites) p

  unfoldable pub overlay_sprites_on_scanline_with_vram_mode : List ℕ → ℕ → Ppu → Ppu
  overlay_sprites_on_scanline_with_vram_mode oam y p =
      overlay_sprite_list_on_scanline_with_vram_mode (selected_sprites_on_line p oam y) y p

  unfoldable pub overlay_latched_sprites_on_scanline_with_vram_mode : ℕ → Ppu → Ppu
  overlay_latched_sprites_on_scanline_with_vram_mode y p =
      overlay_sprite_list_on_scanline_with_vram_mode p.scanline_sprites y p

unfoldable pub render_scanline_from_memory_with_mode : Memory → ℕ → Bool → Ppu → Ppu
render_scanline_from_memory_with_mode memory y cgb_mode p =
    let vram0 = vram_bank 0 memory in
    let vram1 = vram_bank 1 memory in
    let p1 = render_scanline_from_vram_with_mode vram0 vram1 memory cgb_mode y none p in
    if leb visible_scanlines y
    then p
    else if sprite_enabled p1
    then overlay_sprites_on_scanline_with_vram_mode vram0 vram1 memory cgb_mode (oam memory) y p1
    else p1

unfoldable pub render_visible_lines : ℕ → Memory → Bool → Ppu → Ppu
render_visible_lines zero memory cgb_mode p = p
render_visible_lines (suc y) memory cgb_mode p =
    render_scanline_from_memory_with_mode memory y cgb_mode
      (render_visible_lines y memory cgb_mode p)

unfoldable pub render_visible_area_from_memory_with_mode : Memory → Bool → Ppu → Ppu
render_visible_area_from_memory_with_mode memory cgb_mode p =
    render_visible_lines visible_scanlines memory cgb_mode p

unfoldable pub render_current_scanline_from_memory_with_mode : Memory → Bool → Ppu → Ppu
render_current_scanline_from_memory_with_mode memory cgb_mode p =
    let y = p.ly in
    let vram0 = vram_bank 0 memory in
    let vram1 = vram_bank 1 memory in
    let visible = window_visible_on_line p y in
    let window_line = if visible then some p.window_line_counter else none in
    let p1 = render_scanline_from_vram_with_mode vram0 vram1 memory cgb_mode y window_line p in
    let p2 =
      (if sprite_enabled p1
        then overlay_latched_sprites_on_scanline_with_vram_mode vram0 vram1 memory cgb_mode y p1
        else p1) in
    if leb visible_scanlines y
    then p
    else if visible
    then record p2 { window_line_counter = u8 (p2.window_line_counter + 1) }
    else p2
