-- ===== src/Mbc/Clock.antt =====
-- The clock of MBC3 as one count of seconds.
use kokura.Base.{
  ℕ, ◌+◌, ◌*◌, ◌/◌, ◌%◌, ◌<◌, bit_and, bit_or, Bool, true, ◌&&◌, ◌||◌, arith, ◌≡◌, refl, ap, ◌∙◌,
  ◌==◌, ==_iff, leb, ltb, u8, ◌<<<◌, has_bit, Bool-cases, inl, inr, all_below, all_below_at,
  bool_eq, bit_and_low,
}
use kokura.Mbc.Mbc3.{Rtc, u64, with_days, advance_rtc_seconds}

-- A clock in its ranges.
pub record IsTime (r : Rtc) : Type 0 where
  pub seconds : r.seconds < 60
  pub minutes : r.minutes < 60
  pub hours : r.hours < 24
  pub day_low : r.day_low < 256
  pub day_high : r.day_high < 256

abbrev pub days : Rtc → ℕ
days r = r.day_low + 256 * (r.day_high % 2)

-- The seconds since day 0, of 512 days.
abbrev pub time : Rtc → ℕ
time r = ((days r * 24 + r.hours) * 60 + r.minutes) * 60 + r.seconds

abbrev pub span : ℕ
span = 512 * 86400

abbrev high_test : ℕ → ℕ → Bool
high_test b dh =
    let h = bit_or (bit_and dh 0xFE) b in
    let o = bit_or h 0x80 in
    (h % 2 == b && (o % 2 == b && (ltb h 256 && ltb o 256)))
    && (bool_eq (has_bit h 0x80) (has_bit dh 0x80)
        && (has_bit o 0x80
            && (bool_eq (has_bit h 0x40) (has_bit dh 0x40)
                && bool_eq (has_bit o 0x40) (has_bit dh 0x40))))

high_table : (b dh : ℕ) → b < 2 → dh < 256 → high_test b dh ≡ true
high_table b dh hb hd =
    all_below_at 256 (high_test b) dh (all_below_at 2 (λ b. all_below 256 (high_test b)) b table hb)
      hd
  where
    table : all_below 2 (λ b. all_below 256 (high_test b)) ≡ true
    table = unfold all_below in refl

record Days (total : ℕ) (r r' : Rtc) : Type 0 where
  same : r' ≡ record r { day_low = r'.day_low; day_high = r'.day_high }
  low : r'.day_low < 256
  high : r'.day_high < 256
  count : days r' ≡ total % 512
  carry : has_bit r'.day_high 0x80 ≡ (has_bit r.day_high 0x80 || leb 512 total)
  halt : has_bit r'.day_high 0x40 ≡ has_bit r.day_high 0x40

with_days-Days : (total : ℕ) (r : Rtc) → r.day_high < 256 → Days total r (with_days total r)
unfolding with_days
with_days-Days total r h =
    let w : bit_and total 0x01FF ≡ total % 512 = bit_and_low 9 total in
    let b = total % 512 / 256 in
    let t = high_table b r.day_high (omega arith) h in
    let one : bit_and (u8 b) 0x01 ≡ b = omega (arith, bit_and_low 1 (u8 b)) in
    rw (w, one)
      (record {
        same = refl;
        low = omega arith;
        high = ground (arith, t);
        count = ground (arith, t);
        carry = ground (arith, t);
        halt = ground (arith, t);
      })

-- The parts of the count after `e` seconds.
counted :
    (s m h d e : ℕ)
    → s < 60
    → m < 60
    → h < 24
    → d < 512
    → let seconds = s + e in
      let minutes = m + seconds / 60 in
      let hours = h + minutes / 60 in
      let total = d + hours / 24 in
      let before = ((d * 24 + h) * 60 + m) * 60 + s in
      ((((total % 512 * 24 + hours % 24) * 60 + minutes % 60) * 60 + seconds % 60)
        ≡ (before + e) % (512 * 86400))
      × (leb 512 total ≡ leb (512 * 86400) (before + e))
counted s m h d e hs hm hh hd = (omega arith, ground arith)

current_days :
    (r : Rtc) → r.day_low < 256 → bit_or r.day_low (bit_and r.day_high 0x01 <<< 8) ≡ days r
current_days r h =
    let one : bit_and r.day_high 0x01 ≡ r.day_high % 2 = bit_and_low 1 r.day_high in
    rw one ((==_iff _ _).0 (joined (r.day_high % 2) r.day_low (omega arith) h))
  where
    table : all_below 2 (λ b. all_below 256 (λ d. bit_or d (b <<< 8) == d + 256 * b)) ≡ true
    table = unfold all_below in refl

    joined : (b d : ℕ) → b < 2 → d < 256 → (bit_or d (b <<< 8) == d + 256 * b) ≡ true
    joined b d hb hd =
        all_below_at 256 (λ d. bit_or d (b <<< 8) == d + 256 * b) d
          (all_below_at 2 (λ b. all_below 256 (λ d. bit_or d (b <<< 8) == d + 256 * b)) b table hb)
          hd

pub time-lt : (r : Rtc) → IsTime r → time r < span
time-lt r t = omega (arith, t.seconds, t.minutes, t.hours, t.day_low)

-- What an advance gives, of the record it sets the days of.
advanced :
    (e : ℕ) (r : Rtc)
    → IsTime r
    → let seconds = r.seconds + e in
      let minutes = r.minutes + seconds / 60 in
      let hours = r.hours + minutes / 60 in
      let r1 : Rtc = record r {
        seconds = seconds % 60;
        minutes = minutes % 60;
        hours = hours % 24;
      } in
      let r' = with_days (days r + hours / 24) r1 in
      (time r' ≡ (time r + e) % span)
      × (has_bit r'.day_high 0x80 ≡ (has_bit r.day_high 0x80 || leb span (time r + e)))
      × (has_bit r'.day_high 0x40 ≡ has_bit r.day_high 0x40)
      × IsTime r'
advanced e r t =
    let seconds = r.seconds + e in
    let minutes = r.minutes + seconds / 60 in
    let hours = r.hours + minutes / 60 in
    let r1 : Rtc = record r {
      seconds = seconds % 60;
      minutes = minutes % 60;
      hours = hours % 24;
    } in
    let k = with_days-Days (days r + hours / 24) r1 t.day_high in
    let c =
      counted r.seconds r.minutes r.hours (days r) e t.seconds t.minutes t.hours
        (omega (arith, t.day_low)) in
    let s = ap (λ (x : Rtc). x.seconds) k.same in
    let m = ap (λ (x : Rtc). x.minutes) k.same in
    let h = ap (λ (x : Rtc). x.hours) k.same in
    (
      rw (s, m, h, k.count) c.0,
      k.carry ∙ rw c.1 refl,
      k.halt,
      record {
        seconds = omega (arith, s);
        minutes = omega (arith, m);
        hours = omega (arith, h);
        day_low = k.low;
        day_high = k.high;
      },
    )

-- Advancing a clock in its ranges by `e` seconds, few enough that the sum with the seconds fits
-- in 64 bits, adds `e` to its count of seconds modulo 512 days, sets the carry exactly where it
-- was set or the count passes that span, and keeps the halt bit and the ranges.
pub advance_rtc_seconds-time :
    (e : ℕ) (r : Rtc)
    → IsTime r
    → e < 18446744073709551556
    → let r' = advance_rtc_seconds e r in
      (time r' ≡ (time r + e) % span)
      × (has_bit r'.day_high 0x80 ≡ (has_bit r.day_high 0x80 || leb span (time r + e)))
      × (has_bit r'.day_high 0x40 ≡ has_bit r.day_high 0x40)
      × IsTime r'
unfolding advance_rtc_seconds
advance_rtc_seconds-time e r t h = elim (Bool-cases (e == 0)) [
  | inl z ↦
      let none : e ≡ 0 = (==_iff e 0).0 z in
      let small = time-lt r t in
      rw z (omega (arith, none, small), ground (arith, none, small), refl, t)
  | inr z ↦
      let whole : u64 (r.seconds + e) ≡ r.seconds + e = omega (arith, t.seconds) in
      rw (z, whole, current_days r t.day_low) (advanced e r t)
]
