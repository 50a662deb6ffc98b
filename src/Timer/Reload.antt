-- ===== src/Timer/Reload.antt =====
-- A pending reload of TIMA: when it fires and what it ignores.
use kokura.Base.{ℕ, zero, suc, ◌+◌, ◌<◌}
use kokura.Base.{◌≡◌, ◌∙◌, ap, Bool, true, false, not, ◌&&◌, arith}
use kokura.Base.{if◌then◌else◌, u8, u16}
use kokura.Timer.{
  timer_signal, Timer, edge, bump_div, increment_tima_fast, tick, cycle_fast, count_down,
}
use kokura.Timer.Cycle.{plain_cycle, plain_loop, plain_loop-suc, plain_loop-add, tick-plain}

-- A cycle with more than one cycle of delay left only counts down, edge or not.
waiting_cycle :
    (t : Timer) (irq : Bool)
    → 1 < t.overflow_delay_cycles
    → plain_cycle t irq ≡ (bump_div 1 (count_down t), irq)
unfolding plain_cycle cycle_fast increment_tima_fast
waiting_cycle t irq h = ground arith

-- The state while the reload waits.
record IsWaiting (n : ℕ) (t : Timer) (irq : Bool) (r : Timer × Bool) : Type 0 where
  same_tima : r.0.tima ≡ t.tima
  same_tma : r.0.tma ≡ t.tma
  same_tac : r.0.tac ≡ t.tac
  counted : r.0.overflow_delay_cycles + n ≡ t.overflow_delay_cycles
  ran : r.0.div_counter ≡ u16 (t.div_counter + n)
  same_irq : r.1 ≡ irq

run-IsWaiting :
    (n : ℕ) (t : Timer) (irq : Bool)
    → t.div_counter < 65536
    → n < t.overflow_delay_cycles
    → IsWaiting n t irq (plain_loop n t irq)
run-IsWaiting zero t irq w h = unfold plain_loop in ground arith
run-IsWaiting (suc n) t irq w h =
    let t' = bump_div 1 (count_down t) in
    let ih : IsWaiting n t' irq (plain_loop n t' irq) =
      run-IsWaiting n t' irq (omega arith) (omega arith) in
    rw (plain_loop-suc n t irq, waiting_cycle t irq (omega arith))
      (record {
        same_tima = ih.same_tima;
        same_tma = ih.same_tma;
        same_tac = ih.same_tac;
        counted = omega (arith, ih.counted);
        ran = omega (arith, ih.ran);
        same_irq = ih.same_irq;
      })

last_cycle :
    (t : Timer) (irq : Bool)
    → t.overflow_delay_cycles ≡ 1
    → ((plain_cycle t irq).1 ≡ true)
      × ((plain_cycle t irq).0.tima ≡ (if edge t then u8 (t.tma + 1) else t.tma))
unfolding plain_cycle cycle_fast increment_tima_fast
last_cycle t irq h = ground arith

plain_fires :
    (k : ℕ) (t : Timer)
    → t.div_counter < 65536
    → t.overflow_delay_cycles ≡ suc k
    → ((plain_loop (k + 1) t false).1 ≡ true)
      × ((plain_loop (k + 1) t false).0.tima ≡ (
          if timer_signal (u16 (t.div_counter + k)) t.tac
            && not (timer_signal (u16 (t.div_counter + k + 1)) t.tac)
          then u8 (t.tma + 1)
          else t.tma))
plain_fires k t w h =
    let s = plain_loop k t false in
    let r = run-IsWaiting k t false w (omega arith) in
    let last = last_cycle s.0 s.1 (omega (arith, r.counted)) in
    let next : u16 (u16 (t.div_counter + k) + 1) ≡ u16 (t.div_counter + k + 1) = omega arith in
    rw (plain_loop-add k 1 t false, plain_loop-suc 0 s.0 s.1)
      (unfold plain_loop in (last.0, last.1 ∙ rw (r.same_tac, r.same_tma, r.ran, next)))

-- On the cycle in which the overflow delay runs out `tick` requests the interrupt and reloads
-- TIMA from TMA, one more, modulo 256, if the selected divider bit falls in that cycle.
pub tick_fires :
    (k : ℕ) (t : Timer)
    → t.div_counter < 65536
    → t.overflow_delay_cycles ≡ suc k
    → ((tick (k + 1) t).1.interrupt_requested ≡ true)
      × ((tick (k + 1) t).0.tima ≡ (
          if timer_signal (u16 (t.div_counter + k)) t.tac
            && not (timer_signal (u16 (t.div_counter + k + 1)) t.tac)
          then u8 (t.tma + 1)
          else t.tma))
tick_fires k t w h =
    let r = plain_fires k t w h in
    (
      ap (λ (x : Timer × Bool). x.1) (tick-plain (k + 1) t) ∙ r.0,
      ap (λ (x : Timer × Bool). x.0.tima) (tick-plain (k + 1) t) ∙ r.1,
    )
