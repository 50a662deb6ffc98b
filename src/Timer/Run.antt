-- ===== src/Timer/Run.antt =====
-- Runs of cycles without a pending reload: up to the next edge, over it, or with the timer off.
use mathlib.Core.WellFounded.{Acc}
use kokura.Base.{ℕ, zero, suc, ◌+◌, ◌-◌, ◌%◌, ◌<◌, bit_and, min}
use kokura.Base.{◌≡◌, ◌∙◌, ap, Bool, true, false, arith, lt_wf}
use kokura.Base.{◌==◌, u16}
use kokura.Timer.{
  Timer, bump_div, increment_tima_fast, advance_loop, advance_div_counter, cycles_until_edge,
}
use kokura.Timer.Edge.{
  cycles_until_edge-pos, edge_early, cycles_until_edge-bump, edge_due, edge_off,
}
use kokura.Timer.Cycle.{plain_loop, plain_cycle-quiet, plain_cycle-edge}

bump_div-bump : (n : ℕ) (t : Timer) → bump_div n (bump_div 1 t) ≡ bump_div (suc n) t
bump_div-bump n t = ground arith

advance_loop-mod : (n c : ℕ) (w : Acc ◌<◌ n) → c < 65536 → advance_loop n c w ≡ (c + n) % 65536
unfolding advance_loop
advance_loop-mod n c (Acc.intro _ smaller) h = grind (
  arith,
  λ (p : n - min n 65535 < n).
      advance_loop-mod (n - min n 65535) (u16 (c + min n 65535)) (smaller (n - min n 65535) p),
)

pub advance_div_counter-bump :
    (n : ℕ) (t : Timer) → t.div_counter < 65536 → advance_div_counter n t ≡ bump_div n t
unfolding advance_div_counter
advance_div_counter-bump n t w = rw (advance_loop-mod n t.div_counter (lt_wf.apply n) w)

-- With the timer off no cycle has an edge.
off_run :
    (n : ℕ) (t : Timer) (irq : Bool)
    → (bit_and t.tac 4 == 0) ≡ true
    → t.overflow_delay_cycles ≡ 0
    → plain_loop (suc n) t irq ≡ (bump_div (suc n) t, irq)
unfolding plain_loop
off_run zero t irq off d = plain_cycle-quiet t irq d (edge_off t off)
off_run (suc n) t irq off d =
    rw (plain_cycle-quiet t irq d (edge_off t off))
      (off_run n (bump_div 1 t) irq off d ∙ ap (λ (x : Timer). (x, irq)) (bump_div-bump (suc n) t))

-- With the timer on, the cycles before an edge only advance the divider, and the last one before
-- it advances TIMA.
module _ (irq : Bool) where
  early_run :
      (n : ℕ) (t : Timer)
      → (bit_and t.tac 4 == 0) ≡ false
      → t.div_counter < 65536
      → t.overflow_delay_cycles ≡ 0
      → suc n < cycles_until_edge t
      → plain_loop (suc n) t irq ≡ (bump_div (suc n) t, irq)
  unfolding plain_loop
  early_run zero t on w d h = plain_cycle-quiet t irq d (edge_early t on w (omega arith))
  early_run (suc n) t on w d h =
      let near : suc n < cycles_until_edge (bump_div 1 t) =
        omega (arith, cycles_until_edge-bump t on w) in
      rw (plain_cycle-quiet t irq d (edge_early t on w (omega arith))) (
        early_run n (bump_div 1 t) on (omega arith) d near
        ∙ ap (λ (x : Timer). (x, irq)) (bump_div-bump (suc n) t))

  edge_run :
      (n : ℕ) (t : Timer)
      → (bit_and t.tac 4 == 0) ≡ false
      → t.div_counter < 65536
      → t.overflow_delay_cycles ≡ 0
      → cycles_until_edge t ≡ suc n
      → plain_loop (suc n) t irq ≡ (increment_tima_fast (bump_div (suc n) t), irq)
  unfolding plain_loop
  edge_run zero t on w d h = plain_cycle-edge t irq d (edge_due t on w h)
  edge_run (suc n) t on w d h =
      let near : cycles_until_edge (bump_div 1 t) ≡ suc n =
        omega (arith, cycles_until_edge-bump t on w) in
      rw (plain_cycle-quiet t irq d (edge_early t on w (omega arith))) (
        edge_run n (bump_div 1 t) on (omega arith) d near
        ∙ ap (λ (x : Timer). (increment_tima_fast x, irq)) (bump_div-bump (suc n) t))

-- The three ways a round of the last loop ends, as equations on the plain loop.
pub plain_loop-off :
    (n : ℕ) (t : Timer) (irq : Bool)
    → 0 < n
    → (bit_and t.tac 4 == 0) ≡ true
    → t.div_counter < 65536
    → t.overflow_delay_cycles ≡ 0
    → plain_loop n t irq ≡ (advance_div_counter n t, irq)
plain_loop-off zero t irq p off w d = absurd (omega arith)
plain_loop-off (suc n) t irq p off w d =
    rw (advance_div_counter-bump (suc n) t w) (off_run n t irq off d)

pub plain_loop-early :
    (n : ℕ) (t : Timer) (irq : Bool)
    → 0 < n
    → (bit_and t.tac 4 == 0) ≡ false
    → t.div_counter < 65536
    → t.overflow_delay_cycles ≡ 0
    → n < cycles_until_edge t
    → plain_loop n t irq ≡ (advance_div_counter n t, irq)
plain_loop-early zero t irq p on w d h = absurd (omega arith)
plain_loop-early (suc n) t irq p on w d h =
    rw (advance_div_counter-bump (suc n) t w) (early_run irq n t on w d h)

pub plain_loop-edge :
    (n : ℕ) (t : Timer) (irq : Bool)
    → (bit_and t.tac 4 == 0) ≡ false
    → t.div_counter < 65536
    → t.overflow_delay_cycles ≡ 0
    → cycles_until_edge t ≡ n
    → plain_loop n t irq ≡ (increment_tima_fast (advance_div_counter n t), irq)
plain_loop-edge zero t irq on w d h = absurd (omega (arith, cycles_until_edge-pos t on w))
plain_loop-edge (suc n) t irq on w d h =
    rw (advance_div_counter-bump (suc n) t w) (edge_run irq n t on w d h)
