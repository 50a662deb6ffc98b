-- ===== src/Timer/Tests.antt =====
-- Runs of the timer at concrete states, and instances of its theorems.
use kokura.Base.{◌+◌, ◌≡◌, refl, true, false, some, List, [], ◌∷◌, arith}
use kokura.Timer.{
  Timer, tick, tick_fast, timer_signal, tick_cycle, divider_bit, increment_tima, default,
}
use kokura.Timer.Equiv.{tick_fast-tick}
use kokura.Timer.Rate.{edges, tick_rate}
use kokura.Timer.Range.{
  IsValid, Call, boot, advance, tima_written, tac_written, apply_all, apply_all-IsValid,
}

-- One cycle before the edge that overflows TIMA, at the fastest rate.
abbrev about_to_overflow : Timer
about_to_overflow = record default { tac = 5; tima = 255; tma = 7; div_counter = 15 }

abbrev counting : Timer
counting = record default { tac = 5; tima = 3; div_counter = 8 }

abbrev waiting : Timer
waiting = record default { tac = 5; tma = 7; overflow_delay_cycles = 4; div_counter = 16 }

overflow_reloads : (tick 5 about_to_overflow).0.tima ≡ 7
unfolding tick timer_signal tick_cycle divider_bit increment_tima
overflow_reloads = refl

overflow_interrupts : (tick 5 about_to_overflow).1.interrupt_requested ≡ true
unfolding tick timer_signal tick_cycle divider_bit increment_tima
overflow_interrupts = refl

tick_fast-tick_example :
    tick_fast 40 about_to_overflow
    ≡ some ((tick 40 about_to_overflow).0, (tick 40 about_to_overflow).1.interrupt_requested)
tick_fast-tick_example = tick_fast-tick 40 about_to_overflow (omega arith)

tick_rate_example :
    ((tick 100 counting).0.tima ≡ counting.tima + edges counting.tac counting.div_counter 100)
    × ((tick 100 counting).1.interrupt_requested ≡ false)
tick_rate_example = tick_rate 100 counting refl (omega arith) refl (unfold edges in omega arith)

abbrev calls : List Call
calls = boot false ∷ tac_written 5 (omega arith) ∷ tima_written 0xFE (omega arith) ∷ advance 40 ∷ []

default-IsValid : IsValid default
default-IsValid = record {
  div_high = refl;
  counter_wide = omega arith;
  tima_byte = omega arith;
  tma_byte = omega arith;
  tac_bits = omega arith;
  delay_short = omega arith;
}

apply_all-IsValid_example : IsValid (apply_all calls default)
apply_all-IsValid_example = apply_all-IsValid calls default default-IsValid
