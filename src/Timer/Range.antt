-- ===== src/Timer/Range.antt =====
-- The widths of the registers of crates/kokura-core/src/timer.rs, through every operation.
use kokura.Base.{ℕ, zero, suc, ◌/◌, ◌≤◌, ◌<◌, List, [], ◌∷◌}
use kokura.Base.{◌≡◌, Bool, arith, bit_and-le}
use kokura.Timer.{
  Timer, TimerTickResult, initialize_post_boot_state, tick, tick_loop, tick_cycle, increment_tima,
  write_div, write_tima, write_tma, write_tac,
}

pub record IsValid (t : Timer) : Type 0 where
  pub div_high : t.div ≡ t.div_counter / 256
  pub counter_wide : t.div_counter < 65536
  pub tima_byte : t.tima < 256
  pub tma_byte : t.tma < 256
  pub tac_bits : t.tac < 8
  pub delay_short : t.overflow_delay_cycles ≤ 4

tick_cycle-IsValid : (t : Timer) (out : TimerTickResult) → IsValid t → IsValid (tick_cycle t out).0
unfolding tick_cycle increment_tima
tick_cycle-IsValid t out v = ground arith

tick_loop-IsValid :
    (n : ℕ) (t : Timer) (out : TimerTickResult) → IsValid t → IsValid (tick_loop n t out).0
unfolding tick_loop
tick_loop-IsValid zero t out v = v
tick_loop-IsValid (suc n) t out v =
    let (t', out') = tick_cycle t out in tick_loop-IsValid n t' out' (tick_cycle-IsValid t out v)

-- The calls that the machine makes on the timer, in any order.
pub data Call : Type 0 where
  boot : Bool → Call
  advance : ℕ → Call
  div_written : Call
  tima_written tma_written tac_written : (v : ℕ) → v < 256 → Call

pub apply : Call → Timer → Timer
apply (boot cgb) t = initialize_post_boot_state cgb t
apply (advance n) t = (tick n t).0
apply div_written t = (write_div t []).0
apply (tima_written v h) t = write_tima v t
apply (tma_written v h) t = write_tma v t
apply (tac_written v h) t = (write_tac v t []).0

pub apply_all : List Call → Timer → Timer
apply_all [] t = t
apply_all (c ∷ cs) t = apply_all cs (apply c t)

apply-IsValid : (c : Call) (t : Timer) → IsValid t → IsValid (apply c t)
unfolding apply initialize_post_boot_state write_div write_tima write_tma write_tac increment_tima
    tick
apply-IsValid (boot cgb) t v = ground arith
apply-IsValid (advance n) t v = tick_loop-IsValid n t _ v
apply-IsValid div_written t v = ground arith
apply-IsValid (tima_written x h) t v = ground arith
apply-IsValid (tma_written x h) t v = ground arith
apply-IsValid (tac_written x h) t v = ground (arith, bit_and-le x 7)

-- Every sequence of boots, ticks and register writes with byte values keeps the timer well
-- formed: DIV is the high byte of a 16 bit divider, TIMA and TMA are bytes, TAC has three bits
-- and the overflow delay is at most 4.
pub apply_all-IsValid : (cs : List Call) (t : Timer) → IsValid t → IsValid (apply_all cs t)
unfolding apply_all
apply_all-IsValid [] t v = v
apply_all-IsValid (c ∷ cs) t v = apply_all-IsValid cs (apply c t) (apply-IsValid c t v)
