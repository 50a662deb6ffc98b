-- ===== src/Ppu/Clock.antt =====
-- The clock of the picture unit: `tick`, `tick_fast`, the deadline of the scheduler and the
-- predictions of LY and STAT.
use kokura.Base.{
  ℕ, zero, suc, ◌+◌, ◌-◌, ◌/◌, ◌%◌, min, max, bit_and, bit_or, Bool, true, false, not, ◌&&◌, Option,
  none, some, List, [], ◌∷◌, ◌++◌, ◌==◌, leb, ltb, u8, u32, if◌then◌else◌, bool_eq,
}
use kokura.Ppu.{
  lcd_enabled, mode3_end_cycles, mode_for_state, current_mode, stat_coincidence,
  refresh_stat_interrupt_line,
}
use kokura.Ppu.State.{
  Ppu, PpuMode, h_blank, v_blank, oam_search, transfer, mode_bits, PpuTraceEvent, scanline_advance,
  ppu_mode_change, stat_signal, vblank_entered, frame_complete, scanline_render,
  cycles_per_scanline, visible_scanlines, total_scanlines,
}

pub record PpuTickResult : Type 0 where
  pub vblank_enter : Bool
  pub frame_completed : Bool
  pub stat_interrupt : Bool
  pub render_scanline : Option ℕ
  pub trace : List PpuTraceEvent

pub record PpuTickFastResult : Type 0 where
  pub vblank_enter : Bool
  pub frame_completed : Bool
  pub stat_interrupt : Bool
  pub render_scanline : Option ℕ

abbrev pub no_events : PpuTickResult
no_events = record {
  vblank_enter = false;
  frame_completed = false;
  stat_interrupt = false;
  render_scanline = none;
  trace = [];
}

-- `PpuTickFastResult::default`.
abbrev pub no_events_fast : PpuTickFastResult
no_events_fast = record {
  vblank_enter = false;
  frame_completed = false;
  stat_interrupt = false;
  render_scanline = none;
}

abbrev pub saturating_add32 : ℕ → ℕ → ℕ
saturating_add32 a b = min 4294967295 (a + b)

-- The cycles to the end of the mode, one at least.
unfoldable pub boundary : Ppu → ℕ
boundary p =
    max
      (elim (current_mode p) [
        | oam_search ↦ 80 - p.mode_cycles
        | transfer ↦ mode3_end_cycles p p.ly - p.mode_cycles
        | h_blank ↦ cycles_per_scanline - p.mode_cycles
        | v_blank ↦ cycles_per_scanline - p.mode_cycles
      ])
      1

unfoldable pub cycles_until_next_event : Ppu → ℕ
cycles_until_next_event p = if not (lcd_enabled p) then 4294967295 else boundary p

unfoldable pub is_transfer : PpuMode → Bool
is_transfer transfer = true
is_transfer m = false

-- `mode == Transfer`, and the line is drawn where the transfer has ended.
unfoldable pub renders : PpuMode → Ppu → Bool
renders mode p =
    ltb p.ly visible_scanlines && (is_transfer mode && leb (mode3_end_cycles p p.ly) p.mode_cycles)

unfoldable pub next_line : Ppu → Ppu
next_line p = record p { mode_cycles = p.mode_cycles - cycles_per_scanline; ly = u8 (p.ly + 1) }

unfoldable pub enter_vblank : Ppu → Ppu
enter_vblank p = record p { scanline_sprites = []; mode3_sprite_penalty = 0 }

unfoldable pub next_frame : Ppu → Ppu
next_frame p = record p {
  ly = 0;
  frame_serial = (p.frame_serial + 1) % 18446744073709551616;
  window_line_counter = 0;
}

unfoldable pub push : PpuTraceEvent → PpuTickResult → PpuTickResult
push e r = record r { trace = r.trace ++ (e ∷ []) }

-- The end of a line, in `tick`.
unfoldable pub end_line : Ppu → PpuTickResult → Ppu × PpuTickResult
end_line p r =
    if leb cycles_per_scanline p.mode_cycles
    then (let p1 = next_line p in
        let r1 = push (scanline_advance p.ly p1.ly) r in
        if p1.ly == visible_scanlines
        then (enter_vblank p1, push (vblank_entered p1.ly) (record r1 { vblank_enter = true }))
        else if leb total_scanlines p1.ly
        then (
          next_frame p1,
          push (frame_complete (next_frame p1).frame_serial) (record r1 { frame_completed = true }),
        )
        else (p1, r1))
    else (p, r)

unfoldable pub end_line_fast : Ppu → PpuTickFastResult → Ppu × PpuTickFastResult
end_line_fast p r =
    if leb cycles_per_scanline p.mode_cycles
    then (let p1 = next_line p in
        if p1.ly == visible_scanlines
        then (enter_vblank p1, record r { vblank_enter = true })
        else if leb total_scanlines p1.ly
        then (next_frame p1, record r { frame_completed = true })
        else (p1, r))
    else (p, r)

unfoldable pub draw : PpuMode → Ppu → PpuTickResult → PpuTickResult
draw mode p r =
    if renders mode p
    then push (scanline_render p.ly) (record r { render_scanline = some p.ly })
    else r

unfoldable pub draw_fast : PpuMode → Ppu → PpuTickFastResult → PpuTickFastResult
draw_fast mode p r = if renders mode p then record r { render_scanline = some p.ly } else r

-- The trace of a change of mode or of coincidence.
unfoldable pub observe : PpuMode → Bool → Ppu → PpuTickResult → PpuTickResult
observe old_mode old_coincidence p r =
    let new_mode = current_mode p in
    let new_coincidence = stat_coincidence p in
    let r1 =
      if mode_bits new_mode == mode_bits old_mode
      then r
      else push (ppu_mode_change (mode_bits old_mode) (mode_bits new_mode) p.ly) r in
    if bool_eq new_coincidence old_coincidence
    then r1
    else push (stat_signal new_coincidence p.ly p.lyc) r1

-- A round of the loop of `tick`, which takes `step` cycles.
unfoldable pub tick_round : ℕ → Ppu → PpuTickResult → Ppu × PpuTickResult
tick_round step p r =
    let mode = current_mode p in
    let p1 = record p { mode_cycles = u32 (p.mode_cycles + step) } in
    let (p2, r2) = end_line p1 (draw mode p1 r) in
    let r3 = observe mode (stat_coincidence p) p2 r2 in
    let (p3, rise) = refresh_stat_interrupt_line p2 in
    (p3, if rise then record r3 { stat_interrupt = true } else r3)

unfoldable pub tick_loop : ℕ → ℕ → Ppu → PpuTickResult → Ppu × PpuTickResult
tick_loop zero remaining p r = (p, r)
tick_loop (suc fuel) remaining p r =
    let step = min remaining (boundary p) in
    let next = tick_round step p r in
    let rest = tick_loop fuel (remaining - step) next.0 next.1 in
    if remaining == 0 then (p, r) else rest

unfoldable pub stopped : Ppu → Ppu
stopped p = record p { ly = 0; mode_cycles = 0 }

-- A round takes one cycle or more, so `cycles` rounds are enough.
unfoldable pub tick : ℕ → Ppu → Ppu × PpuTickResult
tick cycles p =
    if bit_and p.lcdc 0x80 == 0
    then (let (p1, rise) = refresh_stat_interrupt_line (stopped p) in
        (p1, record no_events { stat_interrupt = rise }))
    else tick_loop cycles cycles p no_events

-- The refreshes of STAT at the end of a round of `tick_fast`.
unfoldable pub finish_round_fast : Bool → Ppu → PpuTickFastResult → Ppu × PpuTickFastResult
finish_round_fast changed p r =
    let (p1, rise) = refresh_stat_interrupt_line p in
    if changed && rise
    then (p1, record r { stat_interrupt = true })
    else (let (p2, rise2) = refresh_stat_interrupt_line (if changed then p1 else p) in
        (p2, if rise2 then record r { stat_interrupt = true } else r))

unfoldable pub tick_round_fast : ℕ → Ppu → PpuTickFastResult → Ppu × PpuTickFastResult
tick_round_fast step p r =
    let mode = current_mode p in
    let p1 = record p { mode_cycles = u32 (p.mode_cycles + step) } in
    let (p2, r2) = end_line_fast p1 (draw_fast mode p1 r) in
    let changed = not (bool_eq (stat_coincidence p2) (stat_coincidence p)) in
    finish_round_fast changed p2 r2

unfoldable pub tick_fast_loop : ℕ → ℕ → Ppu → PpuTickFastResult → Ppu × PpuTickFastResult
tick_fast_loop zero remaining p r = (p, r)
tick_fast_loop (suc fuel) remaining p r =
    let step = min remaining (boundary p) in
    let next = tick_round_fast step p r in
    let rest = tick_fast_loop fuel (remaining - step) next.0 next.1 in
    if remaining == 0 then (p, r) else rest

unfoldable pub tick_fast : ℕ → Ppu → Ppu × PpuTickFastResult
tick_fast cycles p =
    if bit_and p.lcdc 0x80 == 0
    then (let (p1, rise) = refresh_stat_interrupt_line (stopped p) in
        (p1, record no_events_fast { stat_interrupt = rise }))
    else tick_fast_loop cycles cycles p no_events_fast

-- The loop of `predict_state_after_cycles`; a line takes 456 of the cycles.
unfoldable pub predict_loop : ℕ → ℕ → ℕ → ℕ × ℕ
predict_loop zero ly mode_cycles = (ly, mode_cycles)
predict_loop (suc fuel) ly mode_cycles =
    let ly1 = u8 (ly + 1) in
    let rest =
      predict_loop fuel (if leb total_scanlines ly1 then 0 else ly1)
        (mode_cycles - cycles_per_scanline) in
    if leb cycles_per_scanline mode_cycles then rest else (ly, mode_cycles)

unfoldable pub predict_state_after_cycles : ℕ → Ppu → ℕ × ℕ
predict_state_after_cycles cycles p =
    if not (lcd_enabled p)
    then (0, 0)
    else (let mode_cycles = saturating_add32 p.mode_cycles cycles in
        predict_loop (mode_cycles / cycles_per_scanline) p.ly mode_cycles)

unfoldable pub predict_ly_after_cycles : ℕ → Ppu → ℕ
predict_ly_after_cycles cycles p = (predict_state_after_cycles cycles p).0

unfoldable pub predict_stat_after_cycles : ℕ → Ppu → ℕ
predict_stat_after_cycles cycles p =
    let (ly, mode_cycles) = predict_state_after_cycles cycles p in
    let coincidence = if ly == p.lyc then 0x04 else 0x00 in
    bit_or (bit_or (bit_or 0x80 (bit_and p.stat 0x78)) coincidence)
      (mode_bits (mode_for_state p ly mode_cycles))
