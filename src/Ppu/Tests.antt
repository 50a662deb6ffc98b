-- ===== src/Ppu/Tests.antt =====
-- Runs of the picture unit, and instances of its theorems.
use kokura.Base.{
  ℕ, zero, suc, none, replicate, get_or, digit, ◌+◌, ◌-◌, ◌*◌, ◌≤◌, ◌<◌, true, false, ◌&&◌, some,
  List, [], ◌∷◌, leb, ltb, if◌then◌else◌, length, length-replicate, arith, ◌≡◌, refl,
}
use kokura.Memory.{Memory}
use kokura.Memory.Start
use kokura.Ppu.{lcd_enabled, mode3_end_cycles, read_stat}
use kokura.Ppu.State.{Ppu, Sprite}
use kokura.Ppu.State
use kokura.Ppu.Clock.{tick, tick_fast, predict_stat_after_cycles}
use kokura.Ppu.Sync.{both, tick_fast-both}
use kokura.Ppu.Position.{IsValid, Moves, position, tick-Moves}
use kokura.Ppu.Predict.{predict_stat-tick}
use kokura.Ppu.Frame.{passes_vblank, passes_frame, tick_flags}
use kokura.Ppu.Sprites.{selected_sprites_on_line}
use kokura.Ppu.Chosen.{
  any_row, on_line, count_below, find, sprite_at, Ascends, find-selected_sprites_on_line,
}
use kokura.Ppu.Picture.{is_set, plane_pixel}
use kokura.Ppu.Calls.{
  Call, ticked, lcdc_written, stat_written, oam_latched, apply_all, IsTimed, apply_all-ends,
}
use kokura.Ppu.Render.{
  render_scanline_from_vram_with_mode, overlay_sprite_list_on_scanline_with_vram_mode,
}
use kokura.Ppu.Row.{HasPlanes, white, pixel_at, pixel_at-render_scanline}
use kokura.Ppu.Front.{front, All}
use kokura.Ppu.Shown.{IsOnLine, sprite_shows}
use kokura.Ppu.Overlay.{shown, overlay-front}
use kokura.Ppu.Paint.{seen}

start : Ppu
start = State.default

start-IsValid : IsValid start
unfolding start State.default
start-IsValid = record {
  line = omega arith;
  dot = omega arith;
  penalty = omega arith;
  stat_byte = omega arith;
}

start_serial : start.frame_serial < 18446744073709551616
unfolding start State.default
start_serial = omega arith

start_byte : start.stat < 256
unfolding start State.default
start_byte = omega arith

start_on : lcd_enabled start ≡ true
unfolding start State.default lcd_enabled
start_on = refl

start_place : position start + 300 < 70224
unfolding start State.default
start_place = omega arith

start-HasPlanes : HasPlanes start
unfolding start State.default
start-HasPlanes = record {
  ids = length-replicate {A = ℕ} 23040 0;
  flags = length-replicate {A = ℕ} 23040 0;
  grays = length-replicate {A = ℕ} 23040 0;
  colors = length-replicate {A = ℕ} 23040 0;
}

tick_fast-both_example : tick_fast 500 start ≡ both (tick 500 start)
tick_fast-both_example = tick_fast-both 500 start start_byte

tick-Moves_example : Moves 70224 start (tick 70224 start).0
tick-Moves_example = tick-Moves 70224 start start-IsValid start_serial start_on

predict_stat-tick_example : predict_stat_after_cycles 300 start ≡ read_stat (tick 300 start).0
predict_stat-tick_example =
    predict_stat-tick 300 start start-IsValid start_serial start_on start_place

tick_flags_example :
    let r = (tick 70224 start).1 in
    (r.vblank_enter ≡ passes_vblank (position start) 70224)
    × (r.frame_completed ≡ passes_frame (position start) 70224)
tick_flags_example = tick_flags 70224 start start-IsValid start_serial start_on

-- Two sprites in the same rows, the second further left, and 38 entries above the screen.
abbrev oam : List ℕ
oam = 16 ∷ 12 ∷ 1 ∷ 0 ∷ 16 ∷ 8 ∷ 2 ∷ 0x80 ∷ replicate 152 0

start_lcdc : start.lcdc < 256
unfolding start State.default
start_lcdc = omega arith

oam_whole : 160 ≤ length oam
oam_whole = omega (arith, length-replicate {A = ℕ} 152 0)

find-selected_sprites_on_line_example :
    let selected = selected_sprites_on_line start oam 3 in
    let on = on_line oam (if is_set 2 start.lcdc then 16 else 8) 3 in
    (find 1 selected
      ≡ (if ltb 1 40 && (on 1 && ltb (count_below on 1) 10) then some (sprite_at oam 1) else none))
    × Ascends 0 selected
    × (length selected ≤ 10)
find-selected_sprites_on_line_example =
    find-selected_sprites_on_line start oam 3 1 oam_whole start_lcdc

second_chosen : (on_line oam 8 3 1 && ltb (count_below (on_line oam 8 3) 1) 10) ≡ true
unfolding count_below any_row
second_chosen = refl

abbrev calls : List Call
calls = oam_latched oam ∷ ticked 500 ∷ stat_written 0x78 ∷ lcdc_written 0x11 ∷ ticked 40 ∷ []

apply_all-ends_example :
    IsTimed (apply_all calls start)
    × (252 ≤ mode3_end_cycles (apply_all calls start) 7)
    × (mode3_end_cycles (apply_all calls start) 7 ≤ 375)
apply_all-ends_example =
    apply_all-ends calls start 7 (record { valid = start-IsValid; serial = start_serial })

abbrev tiles : List ℕ
tiles = 0xF0 ∷ 0x0F ∷ []

memory : Memory
memory = Start.default

tiles_bytes : (j : ℕ) → get_or tiles j 0 < 256
tiles_bytes zero = omega arith
tiles_bytes (suc zero) = omega arith
tiles_bytes (suc (suc j)) = omega arith

pixel_at-render_scanline_example :
    let p' = render_scanline_from_vram_with_mode tiles tiles memory true 3 (some 2) start in
    pixel_at p' 485 ≡ (
      if leb (3 * 160) 485 && ltb 485 (3 * 160 + 160)
      then if is_set 0 start.lcdc
        then plane_pixel tiles tiles memory true start 3 (some 2) (485 - 3 * 160)
        else white
      else pixel_at start 485)
pixel_at-render_scanline_example =
    pixel_at-render_scanline tiles tiles memory true 3 (some 2) start 485 start-HasPlanes
      (omega arith) start_lcdc tiles_bytes

abbrev left : Sprite
left = record { index = 1; y = 16; x = 8; tile = 0; attr = 0 }

abbrev right : Sprite
right = record { index = 0; y = 16; x = 12; tile = 0; attr = 0 }

both-IsOnLine : All (IsOnLine start 0) (right ∷ left ∷ [])
unfolding start State.default any_row digit
both-IsOnLine = (
  record { row = refl; tile_byte = omega arith; attr_byte = omega arith },
  (record { row = refl; tile_byte = omega arith; attr_byte = omega arith }, tt),
)

overlay-front_example :
    let p' =
      overlay_sprite_list_on_scanline_with_vram_mode tiles tiles memory false
        (right ∷ left ∷ [])
        0
        start in
    seen p' (0 * 160 + 5)
    ≡ shown tiles tiles memory false start 0 5
        (seen start (0 * 160 + 5))
        (front (sprite_shows tiles tiles memory false start 0 5) (right ∷ left ∷ []))
overlay-front_example =
    overlay-front tiles tiles memory false (right ∷ left ∷ []) 0 5 start start-HasPlanes.grays
      start-HasPlanes.colors (omega arith) (omega arith) start_lcdc both-IsOnLine
