-- ===== src/Timer.antt =====
-- The divider and timer of crates/kokura-core/src/timer.rs. A method on `&mut self` returns the
-- new record; the trace it pushes to is threaded beside it.
mod Edge
mod Run
mod Cycle
pub mod Equiv
pub mod Range
pub mod Rate
pub mod Reload
mod Tests
use mathlib.Core.Logic.{dite}
use mathlib.Core.WellFounded.{Acc}
use native.Mathlib.Decide.{dec_lt}
use kokura.Base.{ℕ, zero, suc, ◌+◌, ◌-◌, ◌*◌, ◌/◌, ◌%◌, ◌^◌, ◌<◌, min, bit_and}
use kokura.Base.{Bool, true, false, not, ◌&&◌, ◌||◌, Option, none, some, List, [], ◌∷◌, ◌++◌}
use kokura.Base.{arith, ltb, ◌==◌, ◌!=◌, if◌then◌else◌, u8, u16, ◌>>>◌, ◌<<<◌, lt_wf}

-- types.rs: `TimerTraceEvent`.
pub data TimerTraceEvent : Type 0 where
  div_reset_edge : ℕ → TimerTraceEvent
  tac_write : ℕ → ℕ → TimerTraceEvent
  tima_overflow : ℕ → TimerTraceEvent
  tima_reload : ℕ → ℕ → TimerTraceEvent

pub record TimerTickResult : Type 0 where
  pub interrupt_requested : Bool
  pub trace : List TimerTraceEvent

pub record Timer : Type 0 where
  pub div : ℕ
  pub tima : ℕ
  pub tma : ℕ
  pub tac : ℕ
  pub div_counter : ℕ
  pub overflow_delay_cycles : ℕ

abbrev pub default : Timer
default = record { div = 0; tima = 0; tma = 0; tac = 0; div_counter = 0; overflow_delay_cycles = 0 }

unfoldable pub initialize_post_boot_state : Bool → Timer → Timer
initialize_post_boot_state cgb_mode t =
    let counter = if cgb_mode then 0 else 0xC600 in
    record {
      div = counter >>> 8;
      tima = 0;
      tma = 0;
      tac = 0;
      div_counter = counter;
      overflow_delay_cycles = 0;
    }

-- The `match self.tac & 0x03` of `timer_signal` and of `tick_fast`.
unfoldable pub divider_bit : ℕ → ℕ
divider_bit tac =
    let s = bit_and tac 0x03 in if s == 0 then 9 else if s == 1 then 3 else if s == 2 then 5 else 7

unfoldable pub timer_signal : ℕ → ℕ → Bool
timer_signal div_value tac =
    if bit_and tac 0x04 == 0 then false else bit_and (div_value >>> divider_bit tac) 1 != 0

unfoldable pub increment_tima : Timer → List TimerTraceEvent → Timer × List TimerTraceEvent
increment_tima t trace =
    if ltb 0 t.overflow_delay_cycles
    then (t, trace)
    else let next = u8 (t.tima + 1) in
      if t.tima + 1 == 256
      then (
        record t { tima = next; overflow_delay_cycles = 4 },
        trace ++ (tima_overflow t.tima ∷ []),
      )
      else (record t { tima = next }, trace)

unfoldable pub increment_tima_fast : Timer → Timer
increment_tima_fast t =
    if ltb 0 t.overflow_delay_cycles
    then t
    else let next = u8 (t.tima + 1) in
      if t.tima + 1 == 256
      then record t { tima = next; overflow_delay_cycles = 4 }
      else record t { tima = next }

-- `div_counter.wrapping_add(n)` with the exposed high byte refreshed.
abbrev pub bump_div : ℕ → Timer → Timer
bump_div n t =
    let counter = u16 (t.div_counter + n) in record t { div_counter = counter; div = counter >>> 8 }

-- The falling edge of one cycle, on the counter before it.
abbrev pub edge : Timer → Bool
edge t = timer_signal t.div_counter t.tac && not (timer_signal (u16 (t.div_counter + 1)) t.tac)

abbrev pub count_down : Timer → Timer
count_down t = record t { overflow_delay_cycles = t.overflow_delay_cycles - 1 }

-- The first statement of the loop body of `tick`: the pending reload.
unfoldable pub reload : Timer → TimerTickResult → Timer × TimerTickResult
reload t out =
    if ltb 0 t.overflow_delay_cycles
    then (let t' = count_down t in
        if t'.overflow_delay_cycles == 0
        then (
          record t' { tima = t'.tma },
          record {
            interrupt_requested = true;
            trace = out.trace ++ (tima_reload t'.tma t'.tma ∷ []);
          },
        )
        else (t', out))
    else (t, out)

-- The loop body of `tick`.
unfoldable pub tick_cycle : Timer → TimerTickResult → Timer × TimerTickResult
unfolding reload
tick_cycle t out =
    let (r, out') = reload t out in
    let b = bump_div 1 r in
    if edge r
    then (let (i, trace) = increment_tima b out'.trace in
        (i, record { interrupt_requested = out'.interrupt_requested; trace = trace }))
    else (b, out')

unfoldable pub tick_loop : ℕ → Timer → TimerTickResult → Timer × TimerTickResult
tick_loop zero t out = (t, out)
tick_loop (suc n) t out = let (t', out') = tick_cycle t out in tick_loop n t' out'

unfoldable pub tick : ℕ → Timer → Timer × TimerTickResult
unfolding tick_loop
tick cycles t = tick_loop cycles t (record { interrupt_requested = false; trace = [] })

-- One cycle of the untraced path, the body of both inner loops of `tick_fast`.
unfoldable pub cycle_fast : Timer → Bool → Timer × Bool
cycle_fast t interrupt_requested =
    let d = count_down t in
    let fires = d.overflow_delay_cycles == 0 in
    let r = if fires then record d { tima = d.tma } else d in
    let b = bump_div 1 r in
    (if edge r then increment_tima_fast b else b, interrupt_requested || fires)

pub record FastState : Type 0 where
  pub timer : Timer
  pub interrupt_requested : Bool
  pub remaining : ℕ

-- `while remaining > 0 && self.overflow_delay_cycles > 0`.
unfoldable pub pending_loop : ℕ → Timer → Bool → FastState
pending_loop zero t irq = record { timer = t; interrupt_requested = irq; remaining = 0 }
pending_loop (suc n) t irq = elim (ltb 0 t.overflow_delay_cycles) [
  | true ↦ let (t', irq') = cycle_fast t irq in pending_loop n t' irq'
  | false ↦ record { timer = t; interrupt_requested = irq; remaining = suc n }
]

pub chunk-lt : (n : ℕ) → 0 < n → n - min n 65535 < n
chunk-lt n h = omega arith

-- The loop of `advance_div_counter`, which adds at most `u16::MAX` at a time.
unfoldable pub advance_loop : (remaining counter : ℕ) → Acc ◌<◌ remaining → ℕ
advance_loop remaining counter (Acc.intro _ smaller) =
    dite (dec_lt 0 remaining)
      (λ h.
        let chunk = min remaining 65535 in
        advance_loop (remaining - chunk) (u16 (counter + chunk))
          (smaller (remaining - chunk) (chunk-lt remaining h)))
      (λ _. counter)

unfoldable pub advance_div_counter : ℕ → Timer → Timer
unfolding advance_loop lt_wf dec_lt
advance_div_counter cycles t =
    let counter = advance_loop cycles t.div_counter (lt_wf.apply cycles) in
    record t { div_counter = counter; div = counter >>> 8 }

unfoldable pub cycles_until_edge : Timer → ℕ
cycles_until_edge t =
    let period = 1 <<< (divider_bit t.tac + 1) in
    let offset = bit_and t.div_counter (period - 1) in
    if offset == 0 then period else period - offset

-- The last loop of `tick_fast`; `none` means that the fuel ran out.
unfoldable pub edge_loop : ℕ → FastState → Option (Timer × Bool)
edge_loop zero s = if s.remaining == 0 then some (s.timer, s.interrupt_requested) else none
edge_loop (suc fuel) s =
    let until = cycles_until_edge s.timer in
    let next = increment_tima_fast (advance_div_counter until s.timer) in
    let rest = edge_loop fuel (pending_loop (s.remaining - until) next s.interrupt_requested) in
    if s.remaining == 0
    then some (s.timer, s.interrupt_requested)
    else if ltb s.remaining until
    then some (advance_div_counter s.remaining s.timer, s.interrupt_requested)
    else rest

-- Each round of the last loop takes at least one cycle, so the cycles are fuel enough.
unfoldable pub tick_fast : ℕ → Timer → Option (Timer × Bool)
unfolding pending_loop edge_loop
tick_fast cycles t =
    let s = pending_loop cycles t false in
    if s.remaining == 0
    then some (s.timer, s.interrupt_requested)
    else if bit_and t.tac 0x04 == 0
    then some (advance_div_counter s.remaining s.timer, s.interrupt_requested)
    else edge_loop s.remaining s

unfoldable pub write_div : Timer → List TimerTraceEvent → Timer × List TimerTraceEvent
write_div t trace =
    let old_div = t.div_counter in
    let (i, trace') = if timer_signal old_div t.tac then increment_tima t trace else (t, trace) in
    (record i { div_counter = 0; div = 0 }, trace' ++ (div_reset_edge old_div ∷ []))

unfoldable pub write_tima : ℕ → Timer → Timer
write_tima value t =
    let c = if ltb 0 t.overflow_delay_cycles then record t { overflow_delay_cycles = 0 } else t in
    record c { tima = value }

unfoldable pub write_tma : ℕ → Timer → Timer
write_tma value t = record t { tma = value }

unfoldable pub write_tac : ℕ → Timer → List TimerTraceEvent → Timer × List TimerTraceEvent
write_tac value t trace =
    let old_tac = t.tac in
    let old_signal = timer_signal t.div_counter old_tac in
    let new_tac = bit_and value 0x07 in
    let new_signal = timer_signal t.div_counter new_tac in
    let t' = record t { tac = new_tac } in
    let trace' = trace ++ (tac_write old_tac new_tac ∷ []) in
    if old_signal && not new_signal then increment_tima t' trace' else (t', trace')
