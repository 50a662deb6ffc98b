-- ===== src/Ppu/Position.antt =====
-- The place of the picture unit of crates/kokura-core/src/ppu/mod.rs in its frame: a clock of 70224
-- cycles.
use kokura.Base.{
  ℕ, zero, suc, ◌+◌, ◌-◌, ◌*◌, ◌/◌, ◌%◌, ◌<◌, ◌≤◌, min, true, false, ◌==◌, u32, bit_and, bit_and-le,
  arith, ◌≡◌, refl, ap, ◌∙◌, Bool-cases, inl, inr,
}
use kokura.Ppu.{
  lcd_enabled, mode3_penalty_dots, mode3_end_cycles, current_mode, update_stat,
  refresh_stat_interrupt_line,
}
use kokura.Ppu.State.{Ppu}
use kokura.Ppu.Clock.{
  PpuTickResult, boundary, end_line, draw, next_line, enter_vblank, next_frame, tick_round,
  tick_loop, tick, no_events,
}
use kokura.Ppu.Stat.{refresh-byte}

-- A state between ticks.
pub record IsValid (p : Ppu) : Type 0 where
  pub line : p.ly < 154
  pub dot : p.mode_cycles < 456
  pub penalty : p.mode3_sprite_penalty ≤ 110
  pub stat_byte : p.stat < 256

pub mode3_end_cycles_bounds :
    (p : Ppu) (line : ℕ)
    → p.mode3_sprite_penalty ≤ 110
    → (252 ≤ mode3_end_cycles p line) × (mode3_end_cycles p line ≤ 375)
unfolding mode3_end_cycles mode3_penalty_dots
mode3_end_cycles_bounds p line h = ground (arith, bit_and-le p.scx 7)

pub boundary_bounds : (p : Ppu) → IsValid p → (1 ≤ boundary p) × (p.mode_cycles + boundary p ≤ 456)
unfolding boundary current_mode
boundary_bounds p v = ground (arith, mode3_end_cycles_bounds p p.ly v.penalty)

abbrev pub position : Ppu → ℕ
position p = p.ly * 456 + p.mode_cycles

-- What `n` cycles do to the place in the frame and to the counter of frames.
pub record Moves (n : ℕ) (p p' : Ppu) : Type 0 where
  pub valid : IsValid p'
  pub place : position p' ≡ (position p + n) % 70224
  pub frames : p'.frame_serial ≡ (p.frame_serial + (position p + n) / 70224) % 18446744073709551616
  pub control : p'.lcdc ≡ p.lcdc
  pub compare_line : p'.lyc ≡ p.lyc
  pub enables : bit_and p'.stat 0x78 ≡ bit_and p.stat 0x78
  pub scroll : p'.scx ≡ p.scx
  pub window : (p'.wx ≡ p.wx) × (p'.wy ≡ p.wy)
  pub kept : position p + n < 70224 → p'.ly < 144 → p'.mode3_sprite_penalty ≡ p.mode3_sprite_penalty

record Ends (p p' : Ppu) : Type 0 where
  line : p'.ly < 154
  dot : p'.mode_cycles < 456
  penalty : p'.mode3_sprite_penalty ≤ p.mode3_sprite_penalty
  place : position p' ≡ position p % 70224
  frames : p'.frame_serial ≡ (p.frame_serial + position p / 70224) % 18446744073709551616
  control : p'.lcdc ≡ p.lcdc
  compare_line : p'.lyc ≡ p.lyc
  same_stat : p'.stat ≡ p.stat
  scroll : p'.scx ≡ p.scx
  window : (p'.wx ≡ p.wx) × (p'.wy ≡ p.wy)
  kept : position p < 70224 → p'.ly < 144 → p'.mode3_sprite_penalty ≡ p.mode3_sprite_penalty

end_line-Ends :
    (p : Ppu) (r : PpuTickResult)
    → p.ly < 154
    → p.mode_cycles ≤ 456
    → p.frame_serial < 18446744073709551616
    → Ends p (end_line p r).0
unfolding end_line next_line enter_vblank next_frame
end_line-Ends p r h d s = record {
  line = ground arith;
  dot = ground arith;
  penalty = ground arith;
  place = ground arith;
  frames = ground arith;
  control = ground arith;
  compare_line = ground arith;
  same_stat = ground arith;
  scroll = ground arith;
  window = ground arith;
  kept = λ a b. ground arith;
}

refresh_keeps :
    (p : Ppu)
    → (refresh_stat_interrupt_line p).0 ≡ record p {
      stat = (refresh_stat_interrupt_line p).0.stat;
      stat_interrupt_line = (refresh_stat_interrupt_line p).0.stat_interrupt_line;
    }
unfolding refresh_stat_interrupt_line update_stat
refresh_keeps p = refl

pub tick_round-Moves :
    (step : ℕ) (p : Ppu) (r : PpuTickResult)
    → IsValid p
    → p.frame_serial < 18446744073709551616
    → step ≤ boundary p
    → Moves step p (tick_round step p r).0
unfolding tick_round refresh_stat_interrupt_line update_stat
tick_round-Moves step p r v s h =
    let room = (boundary_bounds p v).1 in
    let p1 : Ppu = record p { mode_cycles = u32 (p.mode_cycles + step) } in
    let d = draw (current_mode p) p1 r in
    let e = end_line-Ends p1 d v.line (omega (arith, room, v.dot)) s in
    let q = (end_line p1 d).0 in
    let byte = refresh-byte q (omega (arith, e.same_stat, v.stat_byte)) in
    record {
      valid = record {
        line = e.line;
        dot = e.dot;
        penalty = omega (arith, e.penalty, v.penalty);
        stat_byte = byte.0;
      };
      place = omega (arith, e.place, room);
      frames = omega (arith, e.frames, room);
      control = e.control;
      compare_line = e.compare_line;
      enables = byte.1 ∙ ap (λ (x : ℕ). bit_and x 0x78) e.same_stat;
      scroll = e.scroll;
      window = e.window;
      kept = λ a b. e.kept (omega (arith, room)) b;
    }

Moves-trans : (a b : ℕ) (p q r : Ppu) → Moves a p q → Moves b q r → Moves (a + b) p r
Moves-trans a b p q r m n = record {
  valid = n.valid;
  place = omega (arith, m.place, n.place);
  frames = omega (arith, m.place, m.frames, n.frames);
  control = n.control ∙ m.control;
  compare_line = n.compare_line ∙ m.compare_line;
  enables = n.enables ∙ m.enables;
  scroll = n.scroll ∙ m.scroll;
  window = (n.window.0 ∙ m.window.0, n.window.1 ∙ m.window.1);
  kept = λ h l.
      n.kept (omega (arith, m.place)) l
      ∙ m.kept (omega arith)
          (omega (arith, m.place, n.place, l, h, n.valid.dot, m.valid.dot, m.valid.line));
}

Moves-refl : (p : Ppu) → IsValid p → p.frame_serial < 18446744073709551616 → Moves 0 p p
Moves-refl p v s = record {
  valid = v;
  place = omega (arith, v.line, v.dot);
  frames = omega (arith, v.line, v.dot);
  control = refl;
  compare_line = refl;
  enables = refl;
  scroll = refl;
  window = (refl, refl);
  kept = λ h l. refl;
}

tick_loop-Moves :
    (fuel n : ℕ) (p : Ppu) (r : PpuTickResult)
    → IsValid p
    → p.frame_serial < 18446744073709551616
    → n ≤ fuel
    → Moves n p (tick_loop fuel n p r).0
unfolding tick_loop
tick_loop-Moves zero n p r v s h = let none : n ≡ 0 = omega arith in rw none (Moves-refl p v s)
tick_loop-Moves (suc fuel) n p r v s h = elim (Bool-cases (n == 0)) [
  | inl z ↦ let none : n ≡ 0 = ground (arith, z) in rw none (Moves-refl p v s)
  | inr z ↦
      let step = min n (boundary p) in
      let some_step : 1 ≤ step = ground (arith, z, (boundary_bounds p v).0) in
      let all : step + (n - step) ≡ n = omega arith in
      let next = tick_round step p r in
      let m = tick_round-Moves step p r v s (omega arith) in
      let rest =
        tick_loop-Moves fuel (n - step) next.0 next.1 m.valid (omega (arith, m.frames))
          (omega (arith, some_step)) in
      rw z (
        rw all at
          (Moves-trans step (n - step) p next.0 (tick_loop fuel (n - step) next.0 next.1).0 m rest))
]

-- With the LCD on and from a state in its ranges, a tick of any number of cycles moves the place
-- in the frame, 456 cycles to a line and 154 lines, by that number modulo 70224, counts the
-- frames it ends modulo 2 to the 64, keeps the ranges, LCDC, LYC, the interrupt enables, the
-- scroll and the window, and, short of VBlank and of a new frame, the sprite penalty.
pub tick-Moves :
    (cycles : ℕ) (p : Ppu)
    → IsValid p
    → p.frame_serial < 18446744073709551616
    → lcd_enabled p ≡ true
    → Moves cycles p (tick cycles p).0
unfolding tick lcd_enabled
tick-Moves cycles p v s on =
    let running : (bit_and p.lcdc 0x80 == 0) ≡ false = ground (arith, on) in
    rw running (tick_loop-Moves cycles cycles p no_events v s (omega arith))
