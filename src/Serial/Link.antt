-- ===== src/Serial/Link.antt =====
-- Whole-byte exchange over the link.
use kokura.Base.{
  ℕ, ◌<◌, bit_and, bit_or, bit_and_digit, Bool, true, false, not, ◌&&◌, ◌==◌, arith, ◌≡◌, refl, ◌∙◌,
  Bool-cases, inl, inr, [], not8, has_bit, digit, digit-lt, has_bit-digit, byte_test, all_below,
  if◌then◌else◌,
}
use kokura.Serial.{
  Serial, internal_clock, read_sc, same, tick, clock_external_byte, exchange_with_peer,
}

-- Two ends that may exchange: both armed, one on each clock.
abbrev pub linked : Serial → Serial → Bool
linked s peer = s.transfer_active && (peer.transfer_active && not (digit 0 s.sc == digit 0 peer.sc))

-- An end `s'` that `s` becomes by the exchange: it holds the byte of the other end, has the start
-- bit clear, its clock as before and no progress, and ticks of any length leave it alone.
pub record IsServed (s : Serial) (incoming : ℕ) (s' : Serial) : Type 0 where
  pub received : s'.sb ≡ incoming
  pub inactive : s'.transfer_active ≡ false
  pub cleared : has_bit (read_sc s') 0x80 ≡ false
  pub clock : digit 0 s'.sc ≡ digit 0 s.sc
  pub bits : s'.bits_remaining ≡ 0
  pub accum : s'.cycle_accum ≡ 0
  pub idle : (n : ℕ) → tick n s' ≡ (record { interrupt_requested = false; trace = [] }, s')

-- The end `s'` after an exchange that completes, or does not.
abbrev pub Becomes : Bool → Serial → ℕ → Serial → Type 0
Becomes true s incoming s' = IsServed s incoming s'
Becomes false s incoming s' = s' ≡ s

-- The end on the external clock goes the way of a byte from an external device.
abbrev pub Clocked : Bool → Serial → Serial → Serial → Serial → Type 0
Clocked true s peer s' peer' = (if internal_clock s then peer' else s') ≡ (
    if internal_clock s
    then (clock_external_byte s.sb peer).1
    else (clock_external_byte peer.sb s).1)
Clocked false s peer s' peer' = Unit {0}

cleared_sc : (x : ℕ) → x < 256 → has_bit (bit_or (bit_and x (not8 0x80)) 0x7E) 0x80 ≡ false
unfolding all_below
cleared_sc = byte_test (λ x. has_bit (bit_or (bit_and x (not8 0x80)) 0x7E) 0x80) (λ x. false) refl

kept_clock : (x : ℕ) → digit 0 (bit_and x (not8 0x80)) ≡ digit 0 x
unfolding digit
kept_clock x = omega (arith, bit_and_digit x (not8 0x80))

clocks_differ :
    (s peer : Serial)
    → s.sc < 256
    → peer.sc < 256
    → same (internal_clock s) (internal_clock peer) ≡ (digit 0 s.sc == digit 0 peer.sc)
unfolding internal_clock same
clocks_differ s peer h k =
    rw (has_bit-digit 0 s.sc (omega arith) h, has_bit-digit 0 peer.sc (omega arith) k)
      (ground (arith, digit-lt 0 s.sc, digit-lt 0 peer.sc))

-- For every two ports the exchange is symmetric: started from the other end it leaves both
-- ports, this end's trace and the completion the same.
pub exchange_with_peer-mirrors :
    (s peer : Serial)
    → ((exchange_with_peer s peer).1.0 ≡ (exchange_with_peer peer s).1.1)
      × ((exchange_with_peer s peer).1.1 ≡ (exchange_with_peer peer s).1.0)
      × ((exchange_with_peer s peer).0.self_trace ≡ (exchange_with_peer peer s).0.peer_trace)
      × ((exchange_with_peer s peer).0.completed ≡ (exchange_with_peer peer s).0.completed)
unfolding exchange_with_peer same
exchange_with_peer-mirrors s peer = ground arith

slave_clock : (b c : Bool) → b ≡ true → same b c ≡ false → c ≡ false
unfolding same
slave_clock true true e d = d
slave_clock true false e d = refl
slave_clock false c e d = absurd (ground (arith, e))

master_clock : (b c : Bool) → b ≡ false → same b c ≡ false → c ≡ true
unfolding same
master_clock false true e d = refl
master_clock false false e d = absurd (ground (arith, d))
master_clock true c e d = absurd (ground (arith, e))

same_clock : (b c : Bool) → same b c ≡ true → c ≡ b
unfolding same
same_clock true c d = d
same_clock false true d = absurd (ground (arith, d))
same_clock false false d = refl

served :
    (s : Serial) (incoming : ℕ)
    → s.sc < 256
    → IsServed s incoming (record s {
      sb = incoming;
      sc = bit_and s.sc (not8 0x80);
      cycle_accum = 0;
      bits_remaining = 0;
      transfer_active = false;
    })
unfolding read_sc tick
served s incoming h = record {
  received = refl;
  inactive = refl;
  cleared = cleared_sc s.sc h;
  clock = kept_clock s.sc;
  bits = refl;
  accum = refl;
  idle = λ n. refl;
}

-- Between two ports with byte values in SC the exchange completes, and requests an interrupt at
-- each end, exactly where both are armed and bit 0 of SC differs. Each end then holds the byte
-- of the other, with the start bit read clear, its clock as before and no progress, and no tick
-- changes it; the end on the external clock is left as by `clock_external_byte` with the byte of
-- the other. Where it does not complete, both ends are as before.
pub exchange_with_peer-Becomes :
    (s peer : Serial)
    → s.sc < 256
    → peer.sc < 256
    → let out = exchange_with_peer s peer in
      let done = linked s peer in
      (out.0.completed ≡ done)
      × (out.0.self_interrupt_requested ≡ done)
      × (out.0.peer_interrupt_requested ≡ done)
      × Becomes done s peer.sb out.1.0
      × Becomes done peer s.sb out.1.1
      × Clocked done s peer out.1.0 out.1.1
unfolding exchange_with_peer clock_external_byte same
exchange_with_peer-Becomes s peer h k =
    let differ = clocks_differ s peer h k in
    elim (Bool-cases s.transfer_active) [
      | inr a ↦ simp a (refl, refl, refl, refl, refl, tt)
      | inl a ↦ elim (Bool-cases peer.transfer_active) [
        | inr b ↦ simp (a, b) (refl, refl, refl, refl, refl, tt)
        | inl b ↦ elim (Bool-cases (digit 0 s.sc == digit 0 peer.sc)) [
          | inl e ↦
              let c = same_clock _ _ (differ ∙ e) in
              elim (Bool-cases (internal_clock s)) [
                | inl d ↦ simp (a, b, c ∙ d, d, e) (refl, refl, refl, refl, refl, tt)
                | inr d ↦ simp (a, b, c ∙ d, d, e) (refl, refl, refl, refl, refl, tt)
              ]
          | inr e ↦
              let mine = served s peer.sb h in
              let other = served peer s.sb k in
              elim (Bool-cases (internal_clock s)) [
                | inl c ↦
                    let p = slave_clock _ _ c (differ ∙ e) in
                    simp (a, b, c, p, e) (refl, refl, refl, mine, other, refl)
                | inr c ↦
                    let p = master_clock _ _ c (differ ∙ e) in
                    simp (a, b, c, p, e) (refl, refl, refl, mine, other, refl)
              ]
        ]
      ]
    ]
