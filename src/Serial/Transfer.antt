-- ===== src/Serial/Transfer.antt =====
-- A transfer on the internal clock, from the start written to SC to its end.
use kokura.Base.{
  ℕ, ◌+◌, ◌-◌, ◌*◌, ◌/◌, ◌≤◌, ◌<◌, bit_and, Bool, true, false, ◌||◌, arith, ◌≡◌, refl, sym, ◌∙◌,
  List, [], ◌∷◌, u16, not8, has_bit, byte_test, all_below, bit_and-le, bool_eq,
}
use kokura.Serial.{
  Serial, saturating_add16, internal_clock, write_sc, finish, tick_fast_loop, tick_fast,
}
use kokura.Serial.Loop.{shifted, shifted-plus, shifted-eight, loop_waits, loop_ends_at}

-- A transfer on the internal clock in progress: between one and eight bits are left, and once
-- they are shifted the byte is all ones.
pub record IsRunning (s : Serial) : Type 0 where
  pub active : s.transfer_active ≡ true
  pub clock : internal_clock s ≡ true
  pub control : s.sc < 256
  pub some_left : 1 ≤ s.bits_remaining
  pub accum : s.cycle_accum < 512
  pub all_ones : shifted s.bits_remaining s.sb ≡ 0xFF

-- Cycles until the end of the transfer.
abbrev pub left : Serial → ℕ
left s = 512 * s.bits_remaining - s.cycle_accum

-- A full transfer fits what `saturating_add` can count.
abbrev pub IsShort : Serial → Type 0
IsShort s = s.bits_remaining ≤ 8

-- The parts of a port after a transfer.
pub record IsDone (s : Serial) : Type 0 where
  pub inactive : s.transfer_active ≡ false
  pub cleared : has_bit s.sc 0x80 ≡ false
  pub received : s.sb ≡ 0xFF

cleared_start : (x : ℕ) → x < 256 → has_bit (bit_and x (not8 0x80)) 0x80 ≡ false
unfolding all_below
cleared_start = byte_test (λ x. has_bit (bit_and x (not8 0x80)) 0x80) (λ x. false) refl

running_tick :
    (n : ℕ) (s : Serial)
    → IsRunning s
    → tick_fast n s
      ≡ tick_fast_loop s.bits_remaining
          (record s { cycle_accum = saturating_add16 s.cycle_accum (u16 n) })
unfolding tick_fast
running_tick n s r = rw (r.clock, r.active) refl

-- Fewer cycles than are left: no completion, and the count goes down by as many.
tick_fast-waits :
    (n : ℕ) (s : Serial)
    → IsRunning s
    → IsShort s
    → n < left s
    → ((tick_fast n s).0 ≡ false)
      × IsRunning (tick_fast n s).1
      × IsShort (tick_fast n s).1
      × (left (tick_fast n s).1 + n ≡ left s)
unfolding saturating_add16 internal_clock
tick_fast-waits n s r b h =
    let total = s.cycle_accum + n in
    let t : saturating_add16 s.cycle_accum (u16 n) ≡ total = omega (arith, r.accum) in
    let go = running_tick n s r in
    let w =
      loop_waits s.bits_remaining (record s { cycle_accum = total }) refl
        (omega (arith, r.accum)) in
    let k = total / 512 in
    let whole : k + (s.bits_remaining - k) ≡ s.bits_remaining = omega arith in
    rw (go, t, w)
      (
        refl,
        record {
          active = r.active;
          clock = r.clock;
          control = r.control;
          some_left = omega arith;
          accum = omega arith;
          all_ones = sym (shifted-plus k (s.bits_remaining - k) s.sb) ∙ rw (whole) r.all_ones;
        },
        omega arith,
        omega arith,
      )

-- As many cycles as are left, or more: the tick completes the byte.
pub tick_fast-ends :
    (n : ℕ) (s : Serial)
    → IsRunning s
    → IsShort s
    → left s ≤ n
    → n < 65536
    → ((tick_fast n s).0 ≡ true) × IsDone (tick_fast n s).1
unfolding saturating_add16 finish
tick_fast-ends n s r b h hn =
    let go = running_tick n s r in
    let t = saturating_add16 s.cycle_accum (u16 n) in
    let enough : 512 * s.bits_remaining ≤ t = omega (arith, r.accum) in
    let w = loop_ends_at s.bits_remaining (record s { cycle_accum = t }) refl r.some_left enough in
    rw (go, w)
      (
        refl,
        record { inactive = refl; cleared = cleared_start s.sc r.control; received = r.all_ones },
      )

-- Writing SC with the start bit and the internal clock arms a transfer of 4096 cycles.
start_bit : (x : ℕ) → x < 256 → has_bit x 0x80 ≡ true → has_bit (bit_and x 0x83) 0x80 ≡ true
start_bit x h e =
    ground (arith, byte_test (λ x. has_bit (bit_and x 0x83) 0x80) (λ x. has_bit x 0x80) table x h)
  where
    table : all_below 256 (λ x. bool_eq (has_bit (bit_and x 0x83) 0x80) (has_bit x 0x80)) ≡ true
    table = unfold all_below in refl

clock_bit : (x : ℕ) → x < 256 → has_bit (bit_and x 0x83) 0x01 ≡ has_bit x 0x01
unfolding all_below
clock_bit = byte_test (λ x. has_bit (bit_and x 0x83) 0x01) (λ x. has_bit x 0x01) refl

pub write_sc-IsRunning :
    (value : ℕ) (s : Serial)
    → value < 256
    → s.sb < 256
    → has_bit value 0x80 ≡ true
    → has_bit value 0x01 ≡ true
    → IsRunning (write_sc value s).1
      × IsShort (write_sc value s).1
      × (left (write_sc value s).1 ≡ 4096)
unfolding write_sc internal_clock
write_sc-IsRunning value s h hb e c = rw (start_bit value h e) (
  record {
    active = refl;
    clock = clock_bit value h ∙ c;
    control = omega (arith, bit_and-le value 0x83);
    some_left = omega arith;
    accum = omega arith;
    all_ones = shifted-eight s.sb hb;
  },
  omega arith,
  refl,
)

-- Several ticks, with whether any of them completed the byte.
abbrev pub run : List ℕ → Serial → Bool × Serial
run [] s = (false, s)
run (n ∷ ns) s = let t = tick_fast n s in let rest = run ns t.1 in (t.0 || rest.0, rest.1)

abbrev pub total : List ℕ → ℕ
total [] = 0
total (n ∷ ns) = n + total ns

run-waits :
    (ns : List ℕ) (s : Serial)
    → IsRunning s
    → IsShort s
    → total ns < left s
    → ((run ns s).0 ≡ false)
      × IsRunning (run ns s).1
      × IsShort (run ns s).1
      × (left (run ns s).1 + total ns ≡ left s)
run-waits [] s r b h = (refl, r, b, omega arith)
run-waits (n ∷ ns) s r b h =
    let k = tick_fast-waits n s r b (omega arith) in
    let rest = run-waits ns (tick_fast n s).1 k.1 k.2 (omega (arith, k.3)) in
    (ground (arith, k.0, rest.0), rest.1, rest.2, omega (arith, k.3, rest.3))

-- A transfer that a write to SC starts on the internal clock takes 4096 cycles however the time
-- is cut into ticks: no tick before completes, the tick that reaches 4096 (of fewer than 65536
-- cycles) does, and then the byte is FF, the transfer is over and bit 7 of SC is clear.
pub transfer_completes :
    (value n : ℕ) (ns : List ℕ) (s : Serial)
    → value < 256
    → s.sb < 256
    → has_bit value 0x80 ≡ true
    → has_bit value 0x01 ≡ true
    → total ns < 4096
    → 4096 ≤ total ns + n
    → n < 65536
    → ((run ns (write_sc value s).1).0 ≡ false)
      × ((tick_fast n (run ns (write_sc value s).1).1).0 ≡ true)
      × IsDone (tick_fast n (run ns (write_sc value s).1).1).1
transfer_completes value n ns s h hb e c short long hn =
    let w = write_sc-IsRunning value s h hb e c in
    let k = run-waits ns (write_sc value s).1 w.0 w.1 (omega (arith, w.2)) in
    let done =
      tick_fast-ends n (run ns (write_sc value s).1).1 k.1 k.2 (omega (arith, w.2, k.3)) hn in
    (k.0, done.0, done.1)
