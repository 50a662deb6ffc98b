-- ===== src/Ppu/Predict.antt =====
-- The predictions of LY and STAT of crates/kokura-core/src/ppu/mod.rs beside the ticks that they
-- predict.
use kokura.Base.{
  ℕ, zero, suc, ◌+◌, ◌-◌, ◌*◌, ◌/◌, ◌%◌, ◌<◌, true, leb, u8, arith, ◌≡◌, refl, sym, ◌∙◌,
  if◌then◌else◌, Bool-cases, inl, inr,
}
use kokura.Ppu.{
  lcd_enabled, mode_for_state, current_mode, read_stat, stat_coincidence, mode3_end_cycles,
  mode3_penalty_dots, bg_enabled, window_visible_on_line, window_enabled,
}
use kokura.Ppu.State.{Ppu}
use kokura.Ppu.Clock.{
  saturating_add32, tick, predict_loop, predict_state_after_cycles, predict_stat_after_cycles,
}
use kokura.Ppu.Position.{IsValid, position, tick-Moves}

record Predicts (place : ℕ) (s : ℕ × ℕ) : Type 0 where
  line : s.0 < 154
  dot : s.1 < 456
  same : s.0 * 456 + s.1 ≡ place % 70224

predict_loop-Predicts :
    (fuel ly dots : ℕ)
    → ly < 154
    → dots < 456 * suc fuel
    → Predicts (ly * 456 + dots) (predict_loop fuel ly dots)
unfolding predict_loop
predict_loop-Predicts zero ly dots h d = omega arith
predict_loop-Predicts (suc fuel) ly dots h d = elim (Bool-cases (leb 456 dots)) [
  | inr last ↦ rw last (ground (arith, last))
  | inl more ↦
      let next = (if leb 154 (u8 (ly + 1)) then 0 else u8 (ly + 1)) in
      let l : next < 154 = ground arith in
      let ih = predict_loop-Predicts fuel next (dots - 456) l (omega arith) in
      let e : (ly * 456 + dots) % 70224 ≡ (next * 456 + (dots - 456)) % 70224 =
        ground (arith, more) in
      rw more (record { line = ih.line; dot = ih.dot; same = ih.same ∙ sym e })
]

-- The prediction is the state after the ticks.
pub predict_state-tick :
    (cycles : ℕ) (p : Ppu)
    → IsValid p
    → p.frame_serial < 18446744073709551616
    → lcd_enabled p ≡ true
    → cycles < 4294966840
    → ((predict_state_after_cycles cycles p).0 ≡ (tick cycles p).0.ly)
      × ((predict_state_after_cycles cycles p).1 ≡ (tick cycles p).0.mode_cycles)
unfolding predict_state_after_cycles
predict_state-tick cycles p v s on h =
    let m = tick-Moves cycles p v s on in
    let dots = p.mode_cycles + cycles in
    let fits : saturating_add32 p.mode_cycles cycles ≡ dots = omega (arith, v.dot) in
    let g = predict_loop-Predicts (dots / 456) p.ly dots v.line (omega arith) in
    rw (on, fits)
      (
        omega (arith, g.line, g.dot, g.same, m.place, m.valid.line, m.valid.dot),
        omega (arith, g.line, g.dot, g.same, m.place, m.valid.line, m.valid.dot),
      )

mode_for_state-mode :
    (p p' : Ppu)
    → p'.lcdc ≡ p.lcdc
    → p'.scx ≡ p.scx
    → p'.wx ≡ p.wx
    → p'.wy ≡ p.wy
    → (p'.ly < 144 → p'.mode3_sprite_penalty ≡ p.mode3_sprite_penalty)
    → mode_for_state p p'.ly p'.mode_cycles ≡ current_mode p'
unfolding mode_for_state current_mode lcd_enabled mode3_end_cycles mode3_penalty_dots bg_enabled
    window_visible_on_line window_enabled
mode_for_state-mode p p' c x wx wy k = elim (Bool-cases (leb 144 p'.ly)) [
  | inl blank ↦ rw (blank, c) refl
  | inr visible ↦ let same = k (ground (arith, visible)) in rw (visible, c, x, wx, wy, same) refl
]

-- From a state in its ranges with the LCD on, `predict_stat_after_cycles` gives the STAT byte
-- that is read after a tick of as many cycles, mode and coincidence included, as long as the
-- frame does not end within them.
pub predict_stat-tick :
    (cycles : ℕ) (p : Ppu)
    → IsValid p
    → p.frame_serial < 18446744073709551616
    → lcd_enabled p ≡ true
    → position p + cycles < 70224
    → predict_stat_after_cycles cycles p ≡ read_stat (tick cycles p).0
unfolding predict_stat_after_cycles read_stat stat_coincidence
predict_stat-tick cycles p v s on h =
    let m = tick-Moves cycles p v s on in
    let p' = (tick cycles p).0 in
    let g = predict_state-tick cycles p v s on (omega arith) in
    let mode = mode_for_state-mode p p' m.control m.scroll m.window.0 m.window.1 (m.kept h) in
    rw (g.0, g.1, mode, m.compare_line, m.enables) refl
