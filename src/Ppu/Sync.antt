-- ===== src/Ppu/Sync.antt =====
-- `tick_fast` of crates/kokura-core/src/ppu/mod.rs beside `tick`.
use kokura.Base.{
  ℕ, zero, suc, ◌+◌, ◌-◌, ◌<◌, min, Bool, true, false, not, ◌==◌, u32, bit_and, bool_eq, arith, ◌≡◌,
  refl, ap, sym, ◌∙◌, if◌then◌else◌, Bool-cases, inl, inr,
}
use kokura.Ppu.{refresh_stat_interrupt_line, stat_coincidence, current_mode}
use kokura.Ppu.State.{Ppu, PpuMode}
use kokura.Ppu.Clock.{
  PpuTickResult, PpuTickFastResult, boundary, push, draw, draw_fast, end_line, end_line_fast,
  observe, next_line, enter_vblank, next_frame, tick_round, tick_round_fast, tick_loop,
  tick_fast_loop, tick, tick_fast, finish_round_fast, no_events,
}
use kokura.Ppu.Stat.{refresh-byte, refresh_twice}

-- A result without its trace.
abbrev pub untraced : PpuTickResult → PpuTickFastResult
untraced r = record {
  vblank_enter = r.vblank_enter;
  frame_completed = r.frame_completed;
  stat_interrupt = r.stat_interrupt;
  render_scanline = r.render_scanline;
}

abbrev pub both : Ppu × PpuTickResult → Ppu × PpuTickFastResult
both (p, r) = (p, untraced r)

draw-untraced :
    (m : PpuMode) (p : Ppu) (r : PpuTickResult) → untraced (draw m p r) ≡ draw_fast m p (untraced r)
unfolding draw draw_fast push
draw-untraced m p r = ground arith

end_line-untraced :
    (p : Ppu) (r : PpuTickResult) → both (end_line p r) ≡ end_line_fast p (untraced r)
unfolding end_line end_line_fast push
end_line-untraced p r = ground arith

end_line-stat : (p : Ppu) (r : PpuTickResult) → (end_line p r).0.stat ≡ p.stat
unfolding end_line next_line enter_vblank next_frame
end_line-stat p r = ground arith

observe-untraced :
    (m : PpuMode) (c : Bool) (p : Ppu) (r : PpuTickResult) → untraced (observe m c p r) ≡ untraced r
unfolding observe push
observe-untraced m c p r = ground arith

-- The end of a round of `tick_fast`, which may refresh twice.
refresh_again :
    (changed : Bool) (p : Ppu) (r : PpuTickFastResult)
    → p.stat < 256
    → finish_round_fast changed p r ≡ (
      (refresh_stat_interrupt_line p).0,
      if (refresh_stat_interrupt_line p).1 then record r { stat_interrupt = true } else r,
    )
unfolding finish_round_fast
refresh_again false p r h = refl
refresh_again true p r h = elim (Bool-cases (refresh_stat_interrupt_line p).1) [
  | inl e ↦ rw e refl
  | inr e ↦ rw (e, refresh_twice p h) refl
]

abbrev marked : Bool → PpuTickFastResult → PpuTickFastResult
marked rise r = if rise then record r { stat_interrupt = true } else r

marked-untraced :
    (rise : Bool) (r : PpuTickResult)
    → untraced (if rise then record r { stat_interrupt = true } else r) ≡ marked rise (untraced r)
marked-untraced true r = refl
marked-untraced false r = refl

tick_round-untraced :
    (step : ℕ) (p : Ppu) (r : PpuTickResult)
    → p.stat < 256
    → both (tick_round step p r) ≡ tick_round_fast step p (untraced r)
unfolding tick_round tick_round_fast
tick_round-untraced step p r h =
    let m = current_mode p in
    let p1 : Ppu = record p { mode_cycles = u32 (p.mode_cycles + step) } in
    let d = draw m p1 r in
    let e = end_line p1 d in
    let byte : e.0.stat < 256 = rw (end_line-stat p1 d) h in
    let changed = not (bool_eq (stat_coincidence e.0) (stat_coincidence p)) in
    let fast : end_line_fast p1 (draw_fast m p1 (untraced r)) ≡ both e =
      ap (end_line_fast p1) (sym (draw-untraced m p1 r)) ∙ sym (end_line-untraced p1 d) in
    rw (fast, refresh_again changed e.0 (untraced e.1) byte)
      (ap (λ (x : PpuTickFastResult). ((refresh_stat_interrupt_line e.0).0, x))
        (marked-untraced (refresh_stat_interrupt_line e.0).1
            (observe m (stat_coincidence p) e.0 e.1)
          ∙ ap (marked (refresh_stat_interrupt_line e.0).1)
              (observe-untraced m (stat_coincidence p) e.0 e.1)))

tick_round-byte :
    (step : ℕ) (p : Ppu) (r : PpuTickResult) → p.stat < 256 → (tick_round step p r).0.stat < 256
unfolding tick_round
tick_round-byte step p r h =
    let m = current_mode p in
    let p1 : Ppu = record p { mode_cycles = u32 (p.mode_cycles + step) } in
    let e = end_line p1 (draw m p1 r) in
    (refresh-byte e.0 (rw (end_line-stat p1 (draw m p1 r)) h)).0

tick_loop-untraced :
    (fuel n : ℕ) (p : Ppu) (r : PpuTickResult)
    → p.stat < 256
    → both (tick_loop fuel n p r) ≡ tick_fast_loop fuel n p (untraced r)
unfolding tick_loop tick_fast_loop
tick_loop-untraced zero n p r h = refl
tick_loop-untraced (suc fuel) n p r h =
    let step = min n (boundary p) in
    let next = tick_round step p r in
    elim (Bool-cases (n == 0)) [
      | inl z ↦ rw z refl
      | inr z ↦
          rw (z, sym (tick_round-untraced step p r h))
            (tick_loop-untraced fuel (n - step) next.0 next.1 (tick_round-byte step p r h))
    ]

-- Where STAT is a byte, `tick_fast` ends in the state of `tick` with its flags and its line to
-- draw, for every number of cycles.
pub tick_fast-both :
    (cycles : ℕ) (p : Ppu) → p.stat < 256 → tick_fast cycles p ≡ both (tick cycles p)
unfolding tick tick_fast
tick_fast-both cycles p h = elim (Bool-cases (bit_and p.lcdc 0x80 == 0)) [
  | inl off ↦ rw off refl
  | inr on ↦ rw on (sym (tick_loop-untraced cycles cycles p no_events h))
]
