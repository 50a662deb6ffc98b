-- ===== src/Timer/Cycle.antt =====
-- The loop of `tick` as a recursion on untraced cycles: what one cycle does to the state.
use native.Mathlib.Nat.{zero-add, suc-add}
use kokura.Base.{ℕ, zero, suc, ◌+◌, List}
use kokura.Base.{◌≡◌, refl, Bool, true, false, arith}
use kokura.Base.{ltb, if◌then◌else◌}
use kokura.Timer.{
  Timer, TimerTraceEvent, TimerTickResult, edge, bump_div, increment_tima, increment_tima_fast,
  tick_cycle, tick_loop, tick, cycle_fast,
}

-- A whole cycle, pending or not, without the trace.
unfoldable pub plain_cycle : Timer → Bool → Timer × Bool
plain_cycle t irq =
    if ltb 0 t.overflow_delay_cycles
    then cycle_fast t irq
    else (let b = bump_div 1 t in (if edge t then increment_tima_fast b else b, irq))

unfoldable pub plain_loop : ℕ → Timer → Bool → Timer × Bool
plain_loop zero t irq = (t, irq)
plain_loop (suc n) t irq = let (t', irq') = plain_cycle t irq in plain_loop n t' irq'

pub plain_loop-suc :
    (n : ℕ) (t : Timer) (irq : Bool)
    → plain_loop (suc n) t irq ≡ plain_loop n (plain_cycle t irq).0 (plain_cycle t irq).1
unfolding plain_loop
plain_loop-suc n t irq = refl

pub increment_tima-fast :
    (t : Timer) (trace : List TimerTraceEvent) → (increment_tima t trace).0 ≡ increment_tima_fast t
unfolding increment_tima increment_tima_fast
increment_tima-fast t trace = ground arith

tick_cycle-plain :
    (t : Timer) (out : TimerTickResult)
    → let (t', out') = tick_cycle t out in
      (t', out'.interrupt_requested) ≡ plain_cycle t out.interrupt_requested
unfolding tick_cycle plain_cycle cycle_fast increment_tima increment_tima_fast
tick_cycle-plain t out = ground arith

tick_loop-plain :
    (n : ℕ) (t : Timer) (out : TimerTickResult)
    → let (t', out') = tick_loop n t out in
      (t', out'.interrupt_requested) ≡ plain_loop n t out.interrupt_requested
unfolding tick_loop plain_loop
tick_loop-plain zero t out = refl
tick_loop-plain (suc n) t out =
    let (t', out') = tick_cycle t out in rw (← tick_cycle-plain t out) (tick_loop-plain n t' out')

-- `tick` without its trace.
pub tick-plain :
    (n : ℕ) (t : Timer)
    → let (t', out) = tick n t in (t', out.interrupt_requested) ≡ plain_loop n t false
unfolding tick
tick-plain n t = tick_loop-plain n t _

pub plain_loop-add :
    (m n : ℕ) (t : Timer) (irq : Bool)
    → let (t', irq') = plain_loop m t irq in plain_loop (m + n) t irq ≡ plain_loop n t' irq'
unfolding plain_loop
plain_loop-add zero n t irq = rw (zero-add n)
plain_loop-add (suc m) n t irq =
    let (t', irq') = plain_cycle t irq in rw (suc-add m n) (plain_loop-add m n t' irq')

pub plain_cycle-pending :
    (t : Timer) (irq : Bool)
    → ltb 0 t.overflow_delay_cycles ≡ true
    → plain_cycle t irq ≡ cycle_fast t irq
unfolding plain_cycle
plain_cycle-pending t irq h = rw h

pub plain_cycle-quiet :
    (t : Timer) (irq : Bool)
    → t.overflow_delay_cycles ≡ 0
    → edge t ≡ false
    → plain_cycle t irq ≡ (bump_div 1 t, irq)
unfolding plain_cycle
plain_cycle-quiet t irq d e = rw (d, e)

pub plain_cycle-edge :
    (t : Timer) (irq : Bool)
    → t.overflow_delay_cycles ≡ 0
    → edge t ≡ true
    → plain_cycle t irq ≡ (increment_tima_fast (bump_div 1 t), irq)
unfolding plain_cycle
plain_cycle-edge t irq d e = rw (d, e)
