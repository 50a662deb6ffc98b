-- ===== src/Timer/Rate.antt =====
-- How fast TIMA counts, and what a pending reload does, over any number of cycles of `tick`.
use kokura.Base.{ℕ, zero, suc, ◌+◌, ◌*◌, ◌/◌, ◌%◌, ◌^◌, ◌<◌, bit_and}
use kokura.Base.{◌≡◌, refl, ◌∙◌, ap, inl, inr, Bool, false, not, ◌&&◌, arith}
use kokura.Base.{bit_and_low, ◌==◌, ◌!=◌, if◌then◌else◌, Bool-cases, u16}
use kokura.Timer.{Timer, divider_bit, edge, bump_div, increment_tima_fast, tick}
use kokura.Timer.Edge.{divider_bit-cases, timer_signal-high}
use kokura.Timer.Cycle.{plain_loop, plain_loop-suc, tick-plain, plain_cycle-quiet, plain_cycle-edge}

-- The number of selected falling falls in the `n` cycles after the divider reads `d`.
unfoldable pub falls : ℕ → ℕ → ℕ → ℕ
falls tac d n = let period = 2 ^ (divider_bit tac + 1) in (d % period + n) / period

-- The periods of the four rates of TAC, in cycles.
abbrev pub rate_period : ℕ → ℕ
rate_period tac =
    if tac % 4 == 0 then 1024 else if tac % 4 == 1 then 16 else if tac % 4 == 2 then 64 else 256

-- The ends of periods in the `n` cycles after the divider reads `d`.
unfoldable pub edges : ℕ → ℕ → ℕ → ℕ
edges tac d n = let period = rate_period tac in (d % period + n) / period

divider_bit-period : (tac : ℕ) → 2 ^ (divider_bit tac + 1) ≡ rate_period tac
unfolding divider_bit
divider_bit-period tac = ground (arith, bit_and_low 2 tac)

falls-edges : (tac d n : ℕ) → falls tac d n ≡ edges tac d n
unfolding falls edges
falls-edges tac d n = rw (divider_bit-period tac) refl

-- The same in arithmetic, for the half period `q`, one cycle at a time.
abbrev EdgesLaw : ℕ → Type 0
EdgesLaw q =
    (d n : ℕ)
    → d < 65536
    → (d % (q * 2) + suc n) / (q * 2)
      ≡ (if (d / q % 2 != 0) && not (u16 (d + 1) / q % 2 != 0) then 1 else 0)
        + (u16 (d + 1) % (q * 2) + n) / (q * 2)

edges_8 : EdgesLaw 8
edges_8 d n h = ground arith

edges_32 : EdgesLaw 32
edges_32 d n h = ground arith

edges_128 : EdgesLaw 128
edges_128 d n h = ground arith

edges_512 : EdgesLaw 512
edges_512 d n h = ground arith

falls-suc :
    (t : Timer) (n : ℕ)
    → (bit_and t.tac 4 == 0) ≡ false
    → t.div_counter < 65536
    → falls t.tac t.div_counter (suc n)
      ≡ (if edge t then 1 else 0) + falls t.tac (u16 (t.div_counter + 1)) n
unfolding falls
falls-suc t n on w =
    rw
      (
        timer_signal-high t.tac t.div_counter on,
        timer_signal-high t.tac (u16 (t.div_counter + 1)) on,
      )
      (elim (divider_bit-cases t.tac) [
        | inl e ↦ rw e (edges_8 t.div_counter n w)
        | inr (inl e) ↦ rw e (edges_32 t.div_counter n w)
        | inr (inr (inl e)) ↦ rw e (edges_128 t.div_counter n w)
        | inr (inr (inr e)) ↦ rw e (edges_512 t.div_counter n w)
      ])

falls-zero : (tac d : ℕ) → falls tac d 0 ≡ 0
unfolding falls
falls-zero tac d = elim (divider_bit-cases tac) [
  | inl e ↦ rw e (omega arith)
  | inr (inl e) ↦ rw e (omega arith)
  | inr (inr (inl e)) ↦ rw e (omega arith)
  | inr (inr (inr e)) ↦ rw e (omega arith)
]

increment_tima_below :
    (t : Timer)
    → t.overflow_delay_cycles ≡ 0
    → t.tima < 255
    → increment_tima_fast t ≡ record t { tima = t.tima + 1 }
unfolding increment_tima_fast
increment_tima_below t d h = ground arith

plain_rate :
    (n : ℕ) (t : Timer) (irq : Bool)
    → (bit_and t.tac 4 == 0) ≡ false
    → t.div_counter < 65536
    → t.overflow_delay_cycles ≡ 0
    → t.tima + falls t.tac t.div_counter n < 256
    → ((plain_loop n t irq).0.tima ≡ t.tima + falls t.tac t.div_counter n)
      × ((plain_loop n t irq).1 ≡ irq)
plain_rate zero t irq on w d h =
    unfold plain_loop in (omega (arith, falls-zero t.tac t.div_counter), refl)
plain_rate (suc n) t irq on w d h = elim (Bool-cases (edge t)) [
  | inl e ↦
      let one = rw e at (falls-suc t n on w) in
      let b = bump_div 1 t in
      let small : t.tima < 255 = omega arith in
      let ih = plain_rate n (record b { tima = t.tima + 1 }) irq on (omega arith) d (omega arith) in
      rw (plain_loop-suc n t irq, plain_cycle-edge t irq d e, increment_tima_below b d small)
        (omega arith, ih.1)
  | inr e ↦
      let none_yet = rw e at (falls-suc t n on w) in
      let ih = plain_rate n (bump_div 1 t) irq on (omega arith) d (omega arith) in
      rw (plain_loop-suc n t irq, plain_cycle-quiet t irq d e) (omega arith, ih.1)
]

-- With the timer on, a 16 bit divider and no reload pending, `tick` adds to TIMA one for each
-- period of 1024, 16, 64 or 256 cycles, as TAC selects, that ends in those cycles, counted by
-- the divider, and requests no interrupt, as long as TIMA does not overflow.
pub tick_rate :
    (n : ℕ) (t : Timer)
    → (bit_and t.tac 4 == 0) ≡ false
    → t.div_counter < 65536
    → t.overflow_delay_cycles ≡ 0
    → t.tima + edges t.tac t.div_counter n < 256
    → ((tick n t).0.tima ≡ t.tima + edges t.tac t.div_counter n)
      × ((tick n t).1.interrupt_requested ≡ false)
tick_rate n t on w d h =
    let e = falls-edges t.tac t.div_counter n in
    let r = plain_rate n t false on w d (omega (arith, e)) in
    (
      ap (λ (x : Timer × Bool). x.0.tima) (tick-plain n t) ∙ r.0 ∙ ap (λ k. t.tima + k) e,
      ap (λ (x : Timer × Bool). x.1) (tick-plain n t) ∙ r.1,
    )
