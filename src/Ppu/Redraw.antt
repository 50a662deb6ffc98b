-- ===== src/Ppu/Redraw.antt =====
-- What crates/kokura-core/src/ppu/mod.rs has around its drawing and its clock: the repair after a
-- load, the adapters that fix the DMG palettes, and the estimates for diagnostics. The placeholder
-- `overlay_sprites`, which nothing calls and which changes nothing, is left out.
use kokura.Base.{
  ℕ, zero, suc, ◌+◌, ◌*◌, Bool, false, ◌&&◌, ◌||◌, List, [], ◌∷◌, ◌!=◌, ltb, u32, if◌then◌else◌,
  length, replicate,
}
use kokura.Memory.{Memory, oam}
use kokura.Memory.Start
use kokura.Ppu.{sprite_height, update_stat, refresh_stat_interrupt_line}
use kokura.Ppu.State.{
  Ppu, Sprite, cycles_per_scanline, total_scanlines, visible_scanlines, framebuffer_len,
}
use kokura.Ppu.Sprites.{entries, refresh_mode3_penalty}
use kokura.Ppu.Render.{
  render_scanline_from_memory_with_mode, render_visible_area_from_memory_with_mode,
  render_current_scanline_from_memory_with_mode, overlay_sprites_on_scanline_with_vram_mode,
}

unfoldable pub frame_cycles : Ppu → ℕ
frame_cycles p = cycles_per_scanline * total_scanlines

unfoldable pub default_bg_color_ids : List ℕ
default_bg_color_ids = replicate framebuffer_len 0

unfoldable pub default_bg_priority_flags : List ℕ
default_bg_priority_flags = replicate framebuffer_len 0

unfoldable pub default_color_framebuffer : List ℕ
default_color_framebuffer = replicate framebuffer_len 0

-- A plane that does not have the length of the screen is replaced.
unfoldable pub whole_or : List ℕ → List ℕ → List ℕ
whole_or fresh plane = if length plane != framebuffer_len then fresh else plane

unfoldable pub restore_runtime_state : Memory → Ppu → Ppu
restore_runtime_state memory p =
    let p1 = record p {
      color_framebuffer = whole_or default_color_framebuffer p.color_framebuffer;
      bg_color_ids = whole_or default_bg_color_ids p.bg_color_ids;
      bg_priority_flags = whole_or default_bg_priority_flags p.bg_priority_flags;
      stat_interrupt_line = false;
    } in
    refresh_mode3_penalty (oam memory) (refresh_stat_interrupt_line (update_stat p1)).0

unfoldable pub render_visible_area_from_memory : Memory → Ppu → Ppu
render_visible_area_from_memory memory p = render_visible_area_from_memory_with_mode memory false p

unfoldable pub render_scanline_from_memory : Memory → ℕ → Ppu → Ppu
render_scanline_from_memory memory y p = render_scanline_from_memory_with_mode memory y false p

unfoldable pub render_current_scanline_from_memory : Memory → Ppu → Ppu
render_current_scanline_from_memory memory p =
    render_current_scanline_from_memory_with_mode memory false p

unfoldable pub overlay_sprites_on_scanline_with_vram : List ℕ → List ℕ → ℕ → Ppu → Ppu
overlay_sprites_on_scanline_with_vram vram oam y p =
    overlay_sprites_on_scanline_with_vram_mode vram vram Start.default false oam y p

-- `for y in 0..n`.
unfoldable pub overlay_lines : ℕ → List ℕ → List ℕ → Ppu → Ppu
overlay_lines zero vram oam p = p
overlay_lines (suc y) vram oam p =
    overlay_sprites_on_scanline_with_vram vram oam y (overlay_lines y vram oam p)

unfoldable pub overlay_sprites_with_vram : List ℕ → List ℕ → Ppu → Ppu
overlay_sprites_with_vram vram oam p = overlay_lines visible_scanlines vram oam p

-- The entries that meet a test.
unfoldable pub count : (Sprite → Bool) → List Sprite → ℕ
count test [] = 0
count test (s ∷ ss) = let rest = count test ss in if test s then suc rest else rest

-- The comparisons in i16 of `sx`, 8 less than the byte, and `sy`, 16 less, with both sides raised.
unfoldable pub on_display : ℕ → Sprite → Bool
on_display height s = ltb 0 s.x && (ltb s.x 168 && (ltb 16 (s.y + height) && ltb s.y 160))

unfoldable pub visible_sprite_count_estimate : List ℕ → Ppu → ℕ
visible_sprite_count_estimate oam p =
    u32 (count (on_display (sprite_height p)) (entries (length oam) 0 oam))

unfoldable pub nonzero_oam_entries : List ℕ → Ppu → ℕ
nonzero_oam_entries oam p = u32 (
    count (λ s. s.y != 0 || (s.x != 0 || (s.tile != 0 || s.attr != 0)))
      (entries (length oam) 0 oam))
