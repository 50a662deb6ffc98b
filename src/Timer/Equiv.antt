-- ===== src/Timer/Equiv.antt =====
-- `tick_fast` of crates/kokura-core/src/timer.rs beside `tick`: its jumps to the next edge, and
-- single cycles.
use kokura.Base.{ℕ, zero, suc, ◌+◌, ◌-◌, ◌≤◌, ◌<◌, bit_and, some}
use kokura.Base.{◌≡◌, refl, sym, ◌∙◌, ap, inl, inr, Bool, true, false, arith}
use kokura.Base.{ltb, ltb→lt, ◌==◌, Bool-cases}
use kokura.Timer.{
  Timer, FastState, increment_tima_fast, tick, cycle_fast, pending_loop, advance_div_counter,
  cycles_until_edge, edge_loop, tick_fast,
}
use kokura.Timer.Edge.{cycles_until_edge-pos}
use kokura.Timer.Run.{advance_div_counter-bump, plain_loop-off, plain_loop-early, plain_loop-edge}
use kokura.Timer.Cycle.{plain_loop, plain_loop-suc, plain_loop-add, tick-plain, plain_cycle-pending}

-- What the jumps rely on: the enable bit, the width of the counter, and no reload pending while
-- cycles are left.
record IsReady (enabled : Bool) (cycles : ℕ) (s : FastState) : Type 0 where
  mode : (bit_and s.timer.tac 4 == 0) ≡ enabled
  wide : s.timer.div_counter < 65536
  idle : 0 < s.remaining → s.timer.overflow_delay_cycles ≡ 0
  fewer : s.remaining ≤ cycles

abbrev finish : FastState → Timer × Bool
finish s = plain_loop s.remaining s.timer s.interrupt_requested

pending_loop-step :
    (n : ℕ) (t : Timer) (irq : Bool)
    → ltb 0 t.overflow_delay_cycles ≡ true
    → pending_loop (suc n) t irq ≡ pending_loop n (cycle_fast t irq).0 (cycle_fast t irq).1
unfolding pending_loop
pending_loop-step n t irq p = ground arith

pending_loop-stop :
    (n : ℕ) (t : Timer) (irq : Bool)
    → ltb 0 t.overflow_delay_cycles ≡ false
    → pending_loop (suc n) t irq
      ≡ record { timer = t; interrupt_requested = irq; remaining = suc n }
unfolding pending_loop
pending_loop-stop n t irq p = ground arith

pending_loop-plain :
    (n : ℕ) (t : Timer) (irq : Bool) → plain_loop n t irq ≡ finish (pending_loop n t irq)
pending_loop-plain zero t irq = unfold plain_loop pending_loop in refl
pending_loop-plain (suc n) t irq = elim (Bool-cases (ltb 0 t.overflow_delay_cycles)) [
  | inl p ↦
      let (t', irq') = cycle_fast t irq in
      rw (pending_loop-step n t irq p)
        (plain_loop-suc n t irq ∙ rw (plain_cycle-pending t irq p) (pending_loop-plain n t' irq'))
  | inr p ↦ rw (pending_loop-stop n t irq p)
]

cycle_fast-keeps :
    (t : Timer) (irq : Bool)
    → ((cycle_fast t irq).0.tac ≡ t.tac) × ((cycle_fast t irq).0.div_counter < 65536)
unfolding cycle_fast increment_tima_fast
cycle_fast-keeps t irq = ground arith

pending_loop-IsReady :
    (n : ℕ) (t : Timer) (irq : Bool) {e : Bool}
    → (bit_and t.tac 4 == 0) ≡ e
    → t.div_counter < 65536
    → IsReady e n (pending_loop n t irq)
pending_loop-IsReady zero t irq m w =
    unfold pending_loop in
    record { mode = m; wide = w; idle = λ h. absurd (omega arith); fewer = omega arith }
pending_loop-IsReady (suc n) t irq {e} m w = elim (Bool-cases (ltb 0 t.overflow_delay_cycles)) [
  | inl p ↦
      let (t', irq') = cycle_fast t irq in
      let kept = cycle_fast-keeps t irq in
      let m' : (bit_and t'.tac 4 == 0) ≡ e = rw kept.0 m in
      let r : IsReady e n (pending_loop n t' irq') = pending_loop-IsReady n t' irq' m' kept.1 in
      rw (pending_loop-step n t irq p)
        (record { mode = r.mode; wide = r.wide; idle = r.idle; fewer = omega arith })
  | inr p ↦
      rw (pending_loop-stop n t irq p)
        (record { mode = m; wide = w; idle = λ h. ground arith; fewer = omega arith })
]

-- The state after a jump to an edge.
abbrev jumped : Timer → Timer
jumped t = increment_tima_fast (advance_div_counter (cycles_until_edge t) t)

jumped-keeps :
    (t : Timer)
    → t.div_counter < 65536
    → ((jumped t).tac ≡ t.tac) × ((jumped t).div_counter < 65536)
jumped-keeps t w =
    rw (advance_div_counter-bump (cycles_until_edge t) t w)
      (unfold increment_tima_fast in ground arith)

-- One round that reaches an edge.
module _ (s : FastState) (on : (bit_and s.timer.tac 4 == 0) ≡ false)
    (w : s.timer.div_counter < 65536) (d : s.timer.overflow_delay_cycles ≡ 0)
    (long : ltb s.remaining (cycles_until_edge s.timer) ≡ false) where
  abbrev after : FastState
  after =
      pending_loop (s.remaining - cycles_until_edge s.timer) (jumped s.timer) s.interrupt_requested

  edge_loop-round :
      (fuel : ℕ) → (s.remaining == 0) ≡ false → edge_loop (suc fuel) s ≡ edge_loop fuel after
  unfolding edge_loop
  edge_loop-round fuel z = rw (z, long)

  finish-round : finish s ≡ finish after
  finish-round =
      let until = cycles_until_edge s.timer in
      let k = s.remaining - until in
      let split : s.remaining ≡ until + k = ground arith in
      ap (λ (n : ℕ). plain_loop n s.timer s.interrupt_requested) split
      ∙ plain_loop-add until k s.timer s.interrupt_requested
      ∙ rw (plain_loop-edge until s.timer s.interrupt_requested on w d refl)
          (pending_loop-plain k (jumped s.timer) s.interrupt_requested)

  after-IsReady : (fuel : ℕ) → 0 < s.remaining → s.remaining ≤ suc fuel → IsReady false fuel after
  after-IsReady fuel p h =
      let k = s.remaining - cycles_until_edge s.timer in
      let kept = jumped-keeps s.timer w in
      let m : (bit_and (jumped s.timer).tac 4 == 0) ≡ false = rw kept.0 on in
      let r : IsReady false k after =
        pending_loop-IsReady k (jumped s.timer) s.interrupt_requested m kept.1 in
      record {
        mode = r.mode;
        wide = r.wide;
        idle = r.idle;
        fewer = omega (arith, cycles_until_edge-pos s.timer on w, r.fewer);
      }

edge_loop-finish :
    (fuel : ℕ) (s : FastState) → IsReady false fuel s → edge_loop fuel s ≡ some (finish s)
edge_loop-finish zero s r = unfold edge_loop plain_loop in ground arith
edge_loop-finish (suc fuel) s r = elim (Bool-cases (s.remaining == 0)) [
  | inl z ↦ unfold edge_loop plain_loop in ground arith
  | inr z ↦
      let some_left : 0 < s.remaining = ground arith in
      let d = r.idle some_left in
      elim (Bool-cases (ltb s.remaining (cycles_until_edge s.timer))) [
        | inl short ↦
            unfold edge_loop in
            rw (
              z,
              short,
              plain_loop-early s.remaining s.timer s.interrupt_requested some_left r.mode r.wide d
                  (ltb→lt _ _ short),
            )
        | inr long ↦
            edge_loop-round s r.mode r.wide d long fuel z
            ∙ edge_loop-finish fuel (after s r.mode r.wide d long)
                (after-IsReady s r.mode r.wide d long fuel some_left r.fewer)
            ∙ ap some (sym (finish-round s r.mode r.wide d long))
      ]
]

tick_fast-finish :
    (n : ℕ) (t : Timer)
    → t.div_counter < 65536
    → tick_fast n t ≡ some (finish (pending_loop n t false))
tick_fast-finish n t w = elim (Bool-cases ((pending_loop n t false).remaining == 0)) [
  | inl z ↦ unfold tick_fast plain_loop in ground arith
  | inr z ↦
      let s = pending_loop n t false in
      let left : 0 < s.remaining = ground arith in
      elim (Bool-cases (bit_and t.tac 4 == 0)) [
        | inl off ↦
            let r = pending_loop-IsReady n t false off w in
            unfold tick_fast in
            rw (
              z,
              off,
              plain_loop-off s.remaining s.timer s.interrupt_requested left r.mode r.wide
                  (r.idle left),
            )
        | inr on ↦
            let r = pending_loop-IsReady n t false on w in
            unfold tick_fast in
            rw (z, on)
              (edge_loop-finish s.remaining s
                (record { mode = r.mode; wide = r.wide; idle = r.idle; fewer = omega arith }))
      ]
]

-- Where the divider fits 16 bits, `tick_fast` ends with the fuel it is given, and its state and
-- interrupt are those that the cycle by cycle `tick` gives for as many cycles.
pub tick_fast-tick :
    (n : ℕ) (t : Timer)
    → t.div_counter < 65536
    → let (t', out) = tick n t in tick_fast n t ≡ some (t', out.interrupt_requested)
tick_fast-tick n t w =
    tick_fast-finish n t w ∙ ap some (sym (tick-plain n t ∙ pending_loop-plain n t false))
