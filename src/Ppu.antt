-- ===== src/Ppu.antt =====
-- The picture unit of crates/kokura-core/src/ppu/mod.rs: its registers, modes and STAT line. Ppu/State
-- has its state, the other children its clock, its choice of sprites and its drawing.
pub mod Chosen
pub mod Clock
pub mod Stat
pub mod Sync
pub mod Position
pub mod Predict
pub mod Frame
pub mod Shown
pub mod Sprites
pub mod Selection
pub mod Calls
pub mod Render
pub mod Redraw
pub mod Picture
pub mod Row
pub mod Front
pub mod Overlay
mod Tests
pub mod Paint
pub mod State
use kokura.Base.{
  ℕ, ◌+◌, ◌-◌, ◌*◌, ◌/◌, ◌%◌, ◌^◌, min, max, bit_and, bit_or, Bool, true, false, not, ◌&&◌, ◌||◌,
  List, [], ◌∷◌, ◌++◌, ◌==◌, leb, ltb, u8, u16, u32, ◌<<<◌, ◌>>>◌, has_bit, in_range, if◌then◌else◌,
  replicate, length,
}
use kokura.Ppu.State.{
  visible_scanlines, PpuMode, h_blank, v_blank, oam_search, transfer, mode_bits, Ppu,
}

unfoldable pub lcd_enabled : Ppu → Bool
lcd_enabled p = has_bit p.lcdc 0x80

unfoldable pub bg_enabled : Ppu → Bool
bg_enabled p = has_bit p.lcdc 0x01

unfoldable pub sprite_enabled : Ppu → Bool
sprite_enabled p = has_bit p.lcdc 0x02

unfoldable pub sprite_height : Ppu → ℕ
sprite_height p = if has_bit p.lcdc 0x04 then 16 else 8

unfoldable pub bg_map_base : Ppu → ℕ
bg_map_base p = if has_bit p.lcdc 0x08 then 0x1C00 else 0x1800

unfoldable pub tile_data_8000 : Ppu → Bool
tile_data_8000 p = has_bit p.lcdc 0x10

unfoldable pub window_enabled : Ppu → Bool
window_enabled p = has_bit p.lcdc 0x20

unfoldable pub window_map_base : Ppu → ℕ
window_map_base p = if has_bit p.lcdc 0x40 then 0x1C00 else 0x1800

unfoldable pub window_visible_on_line : Ppu → ℕ → Bool
window_visible_on_line p line =
    bg_enabled p
    && (window_enabled p && (ltb p.wy visible_scanlines && (leb p.wy line && leb p.wx 166)))

unfoldable pub mode3_penalty_dots : Ppu → ℕ → ℕ
mode3_penalty_dots p line =
    let scroll = if bg_enabled p then bit_and p.scx 0x07 else 0 in
    let window = if window_visible_on_line p line then 6 else 0 in
    u32 (scroll + window + p.mode3_sprite_penalty)

unfoldable pub mode3_end_cycles : Ppu → ℕ → ℕ
mode3_end_cycles p line = u32 (252 + mode3_penalty_dots p line)

unfoldable pub mode_for_state : Ppu → ℕ → ℕ → PpuMode
mode_for_state p ly mode_cycles =
    if not (lcd_enabled p)
    then h_blank
    else if leb visible_scanlines ly
    then v_blank
    else if ltb mode_cycles 80
    then oam_search
    else if ltb mode_cycles (mode3_end_cycles p ly)
    then transfer
    else h_blank

unfoldable pub current_mode : Ppu → PpuMode
current_mode p =
    if not (lcd_enabled p)
    then h_blank
    else if leb visible_scanlines p.ly
    then v_blank
    else if ltb p.mode_cycles 80
    then oam_search
    else if ltb p.mode_cycles (mode3_end_cycles p p.ly)
    then transfer
    else h_blank

unfoldable pub stat_coincidence : Ppu → Bool
stat_coincidence p = p.ly == p.lyc

unfoldable pub read_stat : Ppu → ℕ
read_stat p =
    let coincidence = if stat_coincidence p then 0x04 else 0x00 in
    bit_or (bit_or (bit_or 0x80 (bit_and p.stat 0x78)) coincidence) (mode_bits (current_mode p))

unfoldable pub can_cpu_access_vram : Ppu → Bool
can_cpu_access_vram p = not (lcd_enabled p) || elim (current_mode p) [ transfer ↦ false | _ ↦ true ]

unfoldable pub can_cpu_access_oam : Ppu → Bool
can_cpu_access_oam p =
    not (lcd_enabled p) || elim (current_mode p) [ h_blank ↦ true | v_blank ↦ true | _ ↦ false ]

unfoldable pub update_stat : Ppu → Ppu
update_stat p =
    let coincidence = (if p.ly == p.lyc then bit_or p.stat 0x04 else bit_and p.stat 0xFB) in
    record p { stat = bit_or (bit_and coincidence 0xFC) (mode_bits (current_mode p)) }

unfoldable pub stat_interrupt_selected : Ppu → Bool
stat_interrupt_selected p =
    if not (lcd_enabled p)
    then false
    else (let coincidence_selected = has_bit p.stat 0x40 && stat_coincidence p in
        let mode_selected : Bool = elim (current_mode p) [
          | h_blank ↦ has_bit p.stat 0x08
          | v_blank ↦ has_bit p.stat 0x10
          | oam_search ↦ has_bit p.stat 0x20
          | transfer ↦ false
        ] in
        coincidence_selected || mode_selected)

-- The new state, and whether the line has risen.
unfoldable pub refresh_stat_interrupt_line : Ppu → Ppu × Bool
refresh_stat_interrupt_line p =
    let old_line = p.stat_interrupt_line in
    let p1 = update_stat p in
    let line = stat_interrupt_selected p1 in
    (record p1 { stat_interrupt_line = line }, not old_line && line)

-- `DMG_SHADES[min(gray, 3)]`.
unfoldable pub dmg_gray_rgb555 : ℕ → ℕ
dmg_gray_rgb555 gray =
    let shade = min gray 3 in
    if shade == 0
    then 0x7FFF
    else if shade == 1
    then 0x56B5
    else if shade == 2
    then 0x294A
    else 0x0000

unfoldable pub restarted : Ppu → Ppu
restarted p = record p {
  ly = 0;
  mode_cycles = 0;
  window_line_counter = 0;
  scanline_sprites = [];
  mode3_sprite_penalty = 0;
}

-- `plane.fill(v)`.
abbrev pub fill : List ℕ → ℕ → List ℕ
fill plane v = replicate (length plane) v

unfoldable pub cleared : Ppu → Ppu
cleared p = record p {
  framebuffer = fill p.framebuffer 0;
  color_framebuffer = fill p.color_framebuffer (dmg_gray_rgb555 0);
  bg_color_ids = fill p.bg_color_ids 0;
  bg_priority_flags = fill p.bg_priority_flags 0;
}

unfoldable pub write_lcdc : ℕ → Ppu → Ppu × Bool
write_lcdc value p =
    let was_enabled = lcd_enabled p in
    let p1 = record p { lcdc = value } in
    refresh_stat_interrupt_line (
      if was_enabled && not (lcd_enabled p1)
      then cleared (restarted p1)
      else if not was_enabled && lcd_enabled p1
      then restarted p1
      else p1)

unfoldable pub write_stat : ℕ → Ppu → Ppu × Bool
write_stat value p =
    refresh_stat_interrupt_line
      (record p { stat = bit_or (bit_and p.stat 0x87) (bit_and value 0x78) })

unfoldable pub write_lyc : ℕ → Ppu → Ppu × Bool
write_lyc value p = refresh_stat_interrupt_line (record p { lyc = value })
