-- ===== src/Ppu/Frame.antt =====
-- The flags of a tick: VBlank and the end of a frame, by the place in the frame.
use kokura.Base.{
  ℕ, zero, suc, ◌+◌, ◌-◌, ◌/◌, ◌%◌, ◌<◌, ◌≤◌, min, Bool, true, false, ◌&&◌, ◌||◌, ◌==◌, leb, ltb,
  u32, bit_and, arith, ◌≡◌, refl, ◌∙◌, if◌then◌else◌, Bool-cases, inl, inr,
}
use kokura.Ppu.{lcd_enabled, current_mode, stat_coincidence, refresh_stat_interrupt_line}
use kokura.Ppu.State.{Ppu, PpuMode}
use kokura.Ppu.Clock.{
  PpuTickResult, boundary, end_line, draw, observe, push, next_line, next_frame, tick_round,
  tick_loop, tick, no_events,
}
use kokura.Ppu.Position.{IsValid, position, tick_round-Moves, boundary_bounds}

-- Whether the `n` cycles from a place pass the end of line 143, and of line 153.
abbrev pub passes_vblank : ℕ → ℕ → Bool
passes_vblank place n = ltb ((place + 4560) / 70224) ((place + 4560 + n) / 70224)

abbrev pub passes_frame : ℕ → ℕ → Bool
passes_frame place n = leb 70224 (place + n)

record Flags (n : ℕ) (p : Ppu) (r r' : PpuTickResult) : Type 0 where
  vblank : r'.vblank_enter ≡ (r.vblank_enter || passes_vblank (position p) n)
  frame : r'.frame_completed ≡ (r.frame_completed || passes_frame (position p) n)

draw_flags :
    (m : PpuMode) (p : Ppu) (r : PpuTickResult)
    → ((draw m p r).vblank_enter ≡ r.vblank_enter)
      × ((draw m p r).frame_completed ≡ r.frame_completed)
unfolding draw push
draw_flags m p r = ground arith

observe_flags :
    (m : PpuMode) (c : Bool) (p : Ppu) (r : PpuTickResult)
    → ((observe m c p r).vblank_enter ≡ r.vblank_enter)
      × ((observe m c p r).frame_completed ≡ r.frame_completed)
unfolding observe push
observe_flags m c p r = ground arith

end_line_flags :
    (p : Ppu) (r : PpuTickResult)
    → p.ly < 154
    → p.mode_cycles ≤ 456
    → ((end_line p r).1.vblank_enter ≡ (r.vblank_enter || (p.mode_cycles == 456 && p.ly == 143)))
      × ((end_line p r).1.frame_completed
          ≡ (r.frame_completed || (p.mode_cycles == 456 && p.ly == 153)))
unfolding end_line push next_line next_frame
end_line_flags p r h d = ground arith

marked_flags :
    (rise : Bool) (r : PpuTickResult)
    → let r' : PpuTickResult = (if rise then record r { stat_interrupt = true } else r) in
      (r'.vblank_enter ≡ r.vblank_enter) × (r'.frame_completed ≡ r.frame_completed)
marked_flags true r = (refl, refl)
marked_flags false r = (refl, refl)

passes_or : (v a b c : Bool) → (a || b) ≡ c → ((v || a) || b) ≡ (v || c)
passes_or true a b c h = refl
passes_or false a b c h = h

Flags-none : (p : Ppu) (r : PpuTickResult) → IsValid p → Flags 0 p r r
Flags-none p r v = record {
  vblank = ground (arith, v.line, v.dot);
  frame = ground (arith, v.line, v.dot);
}

tick_round-Flags :
    (step : ℕ) (p : Ppu) (r : PpuTickResult)
    → IsValid p
    → step ≤ boundary p
    → Flags step p r (tick_round step p r).1
unfolding tick_round
tick_round-Flags step p r v h =
    let room = (boundary_bounds p v).1 in
    let m = current_mode p in
    let p1 : Ppu = record p { mode_cycles = u32 (p.mode_cycles + step) } in
    let d = draw m p1 r in
    let e = end_line p1 d in
    let a = draw_flags m p1 r in
    let b = end_line_flags p1 d v.line (omega (arith, room, v.dot)) in
    let c = observe_flags m (stat_coincidence p) e.0 e.1 in
    let dots : u32 (p.mode_cycles + step) ≡ p.mode_cycles + step = omega (arith, room) in
    let vb : (p1.mode_cycles == 456 && p.ly == 143) ≡ passes_vblank (position p) step =
      rw dots (ground (arith, room, v.dot, v.line)) in
    let fr : (p1.mode_cycles == 456 && p.ly == 153) ≡ passes_frame (position p) step =
      rw dots (ground (arith, room, v.dot, v.line)) in
    let f =
      marked_flags (refresh_stat_interrupt_line e.0).1 (observe m (stat_coincidence p) e.0 e.1) in
    record {
      vblank = f.0 ∙ c.0 ∙ b.0 ∙ rw (vb, a.0) refl;
      frame = f.1 ∙ c.1 ∙ b.1 ∙ rw (fr, a.1) refl;
    }

Flags-trans :
    (m n : ℕ) (p q : Ppu) (r s t : PpuTickResult)
    → Flags m p r s
    → position q ≡ (position p + m) % 70224
    → Flags n q s t
    → Flags (m + n) p r t
Flags-trans m n p q r s t f e g = record {
  vblank = g.vblank ∙ rw (f.vblank, e) (passes_or r.vblank_enter _ _ _ (ground arith));
  frame = g.frame ∙ rw (f.frame, e) (passes_or r.frame_completed _ _ _ (ground arith));
}

tick_loop-Flags :
    (fuel n : ℕ) (p : Ppu) (r : PpuTickResult)
    → IsValid p
    → p.frame_serial < 18446744073709551616
    → n ≤ fuel
    → Flags n p r (tick_loop fuel n p r).1
unfolding tick_loop
tick_loop-Flags zero n p r v s h = let none : n ≡ 0 = omega arith in rw none (Flags-none p r v)
tick_loop-Flags (suc fuel) n p r v s h = elim (Bool-cases (n == 0)) [
  | inl z ↦ let none : n ≡ 0 = ground (arith, z) in rw none (Flags-none p r v)
  | inr z ↦
      let step = min n (boundary p) in
      let some_step : 1 ≤ step = ground (arith, z, (boundary_bounds p v).0) in
      let all : step + (n - step) ≡ n = omega arith in
      let next = tick_round step p r in
      let m = tick_round-Moves step p r v s (omega arith) in
      let f = tick_round-Flags step p r v (omega arith) in
      let rest =
        tick_loop-Flags fuel (n - step) next.0 next.1 m.valid (omega (arith, m.frames))
          (omega (arith, some_step)) in
      rw z (
        rw all at (
          Flags-trans step (n - step) p next.0 r next.1 (tick_loop fuel (n - step) next.0 next.1).1
            f m.place rest))
]

-- With the LCD on and from a state in its ranges, a tick reports VBlank exactly where its cycles
-- pass the end of line 143, and the end of a frame exactly where they pass the end of line 153:
-- so a tick of a whole frame reports both.
pub tick_flags :
    (cycles : ℕ) (p : Ppu)
    → IsValid p
    → p.frame_serial < 18446744073709551616
    → lcd_enabled p ≡ true
    → let r = (tick cycles p).1 in
      (r.vblank_enter ≡ passes_vblank (position p) cycles)
      × (r.frame_completed ≡ passes_frame (position p) cycles)
unfolding tick lcd_enabled
tick_flags cycles p v s on =
    let running : (bit_and p.lcdc 0x80 == 0) ≡ false = ground (arith, on) in
    let f = tick_loop-Flags cycles cycles p no_events v s (omega arith) in
    rw running (f.vblank, f.frame)
