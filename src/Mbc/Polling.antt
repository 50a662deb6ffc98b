-- ===== src/Mbc/Polling.antt =====
-- The clock of MBC3 over any sequence of readings of the host's time.
use kokura.Base.{
  ℕ, ◌+◌, ◌-◌, ◌%◌, ◌<◌, ◌≤◌, Bool, true, false, ◌&&◌, arith, ◌≡◌, refl, ap, ◌∙◌, leb, ltb, has_bit,
  List, [], ◌∷◌, sym, if◌then◌else◌, Bool-cases, inl, inr,
}
use kokura.Mbc.Mbc3.{Mbc3, update_rtc, tick}
use kokura.Mbc.Clock.{IsTime, time, span, time-lt, advance_rtc_seconds-time}

-- Ticks at the host's times of a list, which need not be ordered.
unfoldable pub tick_all : List ℕ → Mbc3 → Mbc3
tick_all [] m = m
tick_all (now ∷ nows) m = tick_all nows (tick now 4 m)

pub record Advanced (m m' : Mbc3) : Type 0 where
  pub later : m.rtc_last_timestamp_secs ≤ m'.rtc_last_timestamp_secs
  pub bounded : m'.rtc_last_timestamp_secs < 18446744073709551556
  pub counted :
      time m'.rtc_registers
      ≡ (time m.rtc_registers + (m'.rtc_last_timestamp_secs - m.rtc_last_timestamp_secs)) % span
  pub ranges : IsTime m'.rtc_registers
  pub running : has_bit m'.rtc_registers.day_high 0x40 ≡ false

tick-Advanced :
    (now : ℕ) (m : Mbc3)
    → IsTime m.rtc_registers
    → has_bit m.rtc_registers.day_high 0x40 ≡ false
    → m.rtc_last_timestamp_secs < 18446744073709551556
    → now < 18446744073709551556
    → Advanced m (tick now 4 m)
unfolding tick update_rtc
tick-Advanced now m t run h hn = elim (Bool-cases (leb now m.rtc_last_timestamp_secs)) [
  | inl old ↦
      let small = time-lt m.rtc_registers t in
      rw old (record {
        later = omega arith;
        bounded = h;
        counted = omega (arith, small);
        ranges = t;
        running = run;
      })
  | inr new ↦
      let step =
        advance_rtc_seconds-time (now - m.rtc_last_timestamp_secs) m.rtc_registers t
          (omega arith) in
      rw (new, run)
        (record {
          later = ground (arith, new);
          bounded = hn;
          counted = step.0;
          ranges = step.3;
          running = step.2 ∙ run;
        })
]

step-Advanced : (m m1 m2 : Mbc3) → Advanced m m1 → Advanced m1 m2 → Advanced m m2
step-Advanced m m1 m2 a b = record {
  later = omega (arith, a.later, b.later);
  bounded = b.bounded;
  counted = omega (arith, a.counted, b.counted, a.later, b.later);
  ranges = b.ranges;
  running = b.running;
}

-- The last of the times that come after `t` and after those before them.
unfoldable pub latest : List ℕ → ℕ → ℕ
latest [] t = t
latest (now ∷ nows) t = latest nows (if leb now t then t else now)

-- Times that leave room for a minute in 64 bits.
unfoldable pub fit : List ℕ → Bool
fit [] = true
fit (now ∷ nows) = ltb now 18446744073709551556 && fit nows

tick-timestamp :
    (now : ℕ) (m : Mbc3)
    → (tick now 4 m).rtc_last_timestamp_secs
      ≡ (if leb now m.rtc_last_timestamp_secs then m.rtc_last_timestamp_secs else now)
unfolding tick update_rtc
tick-timestamp now m = ground arith

tick_all-Advanced :
    (nows : List ℕ) (m : Mbc3)
    → IsTime m.rtc_registers
    → has_bit m.rtc_registers.day_high 0x40 ≡ false
    → m.rtc_last_timestamp_secs < 18446744073709551556
    → fit nows ≡ true
    → Advanced m (tick_all nows m)
unfolding tick_all fit
tick_all-Advanced [] m t run h f =
    let small = time-lt m.rtc_registers t in
    record {
      later = omega arith;
      bounded = h;
      counted = omega (arith, small);
      ranges = t;
      running = run;
    }
tick_all-Advanced (now ∷ nows) m t run h f =
    let first : Advanced m (tick now 4 m) = tick-Advanced now m t run h (ground arith) in
    step-Advanced m (tick now 4 m) (tick_all nows (tick now 4 m)) first (
      tick_all-Advanced nows (tick now 4 m) first.ranges first.running first.bounded (ground arith))

tick_all-timestamp :
    (nows : List ℕ) (m : Mbc3)
    → (tick_all nows m).rtc_last_timestamp_secs ≡ latest nows m.rtc_last_timestamp_secs
unfolding tick_all latest
tick_all-timestamp [] m = refl
tick_all-timestamp (now ∷ nows) m =
    tick_all-timestamp nows (tick now 4 m) ∙ ap (latest nows) (tick-timestamp now m)

-- Ticks at any list of host times, ordered or not, from a running clock in its ranges, all times
-- leaving room for a minute in 64 bits: the timestamp is the latest of the times, not before the
-- first timestamp, the count of seconds has advanced by exactly the time between these two,
-- modulo 512 days, and the clock is in its ranges.
pub tick_all-time :
    (nows : List ℕ) (m : Mbc3)
    → IsTime m.rtc_registers
    → has_bit m.rtc_registers.day_high 0x40 ≡ false
    → m.rtc_last_timestamp_secs < 18446744073709551556
    → fit nows ≡ true
    → let m' = tick_all nows m in
      let now = latest nows m.rtc_last_timestamp_secs in
      (m'.rtc_last_timestamp_secs ≡ now)
      × (m.rtc_last_timestamp_secs ≤ now)
      × (time m'.rtc_registers ≡ (time m.rtc_registers + (now - m.rtc_last_timestamp_secs)) % span)
      × IsTime m'.rtc_registers
tick_all-time nows m t run h f =
    let k = tick_all-Advanced nows m t run h f in
    let e = tick_all-timestamp nows m in
    (e, omega (arith, e, k.later), rw (sym e) k.counted, k.ranges)
