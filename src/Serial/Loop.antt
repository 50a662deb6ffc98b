-- ===== src/Serial/Loop.antt =====
-- The bit loops of `tick` and `tick_fast`.
use kokura.Base.{
  ℕ, zero, suc, ◌+◌, ◌-◌, ◌*◌, ◌/◌, ◌≤◌, ◌<◌, bit_or, true, false, ◌||◌, arith, ◌≡◌, refl, [], ◌==◌,
  leb, leb→le, le→leb, u8, u16, ◌<<<◌, Bool-cases, inl, inr, byte_eq, all_below,
}
use kokura.Serial.{
  Serial, SerialTickResult, saturating_add16, shift_bit, finish, tick_loop, tick, tick_fast_loop,
  tick_fast,
}

loops_agree :
    (bits : ℕ) (s : Serial) (out : SerialTickResult)
    → ((tick_loop bits s out).1 ≡ (tick_fast_loop bits s).1)
      × ((tick_loop bits s out).0.interrupt_requested
          ≡ (out.interrupt_requested || (tick_fast_loop bits s).0))
unfolding tick_loop tick_fast_loop
loops_agree zero s out = ground arith
loops_agree (suc zero) s out = ground arith
loops_agree (suc (suc bits)) s out =
    ground (arith, loops_agree (suc bits) (shift_bit (suc bits) s) out)

-- For every port and number of cycles the serial `tick_fast` leaves the port as `tick` does and
-- reports the completion that `tick` requests the interrupt for.
pub tick_fast-untraced :
    (n : ℕ) (s : Serial) → tick_fast n s ≡ ((tick n s).0.interrupt_requested, (tick n s).1)
unfolding tick tick_fast
tick_fast-untraced n s = ground (
  arith,
  loops_agree s.bits_remaining (record s { cycle_accum = saturating_add16 s.cycle_accum (u16 n) })
      (record { interrupt_requested = false; trace = [] }),
)

-- The byte after `k` bits of a line held high.
abbrev pub shifted : ℕ → ℕ → ℕ
shifted zero x = x
shifted (suc k) x = shifted k (bit_or (u8 (x <<< 1)) 1)

+-zero : (k : ℕ) → 0 + k ≡ k
+-zero k = omega arith

suc_plus : (j k : ℕ) → suc j + k ≡ suc (j + k)
suc_plus j k = omega arith

pub shifted-plus : (j k x : ℕ) → shifted (j + k) x ≡ shifted k (shifted j x)
shifted-plus zero k x = rw (+-zero k) refl
shifted-plus (suc j) k x = rw (suc_plus j k) (shifted-plus j k (bit_or (u8 (x <<< 1)) 1))

pub shifted-eight : (x : ℕ) → x < 256 → shifted 8 x ≡ 0xFF
unfolding all_below
shifted-eight = byte_eq (λ x. shifted 8 x) (λ x. 0xFF) refl

-- The port after `k` turns of the loop.
abbrev pub turns : ℕ → Serial → Serial
turns k s = record s {
  cycle_accum = s.cycle_accum - 512 * k;
  sb = shifted k s.sb;
  bits_remaining = s.bits_remaining - k;
}

turns_zero : (s : Serial) → turns 0 s ≡ s
turns_zero s =
    let c : s.cycle_accum - 512 * 0 ≡ s.cycle_accum = omega arith in
    let b : s.bits_remaining - 0 ≡ s.bits_remaining = omega arith in rw (c, b) refl

turns-suc :
    (k bits : ℕ) (s : Serial)
    → s.bits_remaining ≡ suc bits
    → turns (suc k) s ≡ turns k (shift_bit bits s)
unfolding shift_bit
turns-suc k bits s e =
    let c : s.cycle_accum - 512 * suc k ≡ s.cycle_accum - 512 - 512 * k = omega arith in
    let b : s.bits_remaining - suc k ≡ bits - k = omega arith in rw (c, b) refl

pub loop_waits :
    (bits : ℕ) (s : Serial)
    → s.bits_remaining ≡ bits
    → s.cycle_accum < 512 * bits
    → tick_fast_loop bits s ≡ (false, turns (s.cycle_accum / 512) s)
unfolding tick_fast_loop shift_bit
loop_waits zero s e h = absurd (omega arith)
loop_waits (suc bits) s e h = elim (Bool-cases (leb 512 s.cycle_accum)) [
  | inl g ↦
      let k = (s.cycle_accum - 512) / 512 in
      let q : s.cycle_accum / 512 ≡ suc k = omega (arith, leb→le _ _ g) in
      let z : (bits == 0) ≡ false = ground (arith, leb→le 512 s.cycle_accum g) in
      let rest = loop_waits bits (shift_bit bits s) refl (omega (arith, leb→le _ _ g)) in
      rw (g, z, q, turns-suc k bits s e) rest
  | inr g ↦ let q : s.cycle_accum / 512 ≡ 0 = ground arith in rw (g, q, turns_zero s) refl
]

loop_ends :
    (bits : ℕ) (s : Serial)
    → s.bits_remaining ≡ suc bits
    → 512 * suc bits ≤ s.cycle_accum
    → tick_fast_loop (suc bits) s ≡ (true, finish (turns (suc bits) s))
unfolding tick_fast_loop shift_bit
loop_ends zero s e h =
    rw (le→leb 512 s.cycle_accum (omega arith), turns-suc 0 0 s e, turns_zero (shift_bit 0 s)) refl
loop_ends (suc bits) s e h =
    let z : (suc bits == 0) ≡ false = ground arith in
    rw (le→leb 512 s.cycle_accum (omega arith), z, turns-suc (suc bits) (suc bits) s e)
      (loop_ends bits (shift_bit (suc bits) s) refl (omega arith))

pub loop_ends_at :
    (bits : ℕ) (s : Serial)
    → s.bits_remaining ≡ bits
    → 1 ≤ bits
    → 512 * bits ≤ s.cycle_accum
    → tick_fast_loop bits s ≡ (true, finish (turns bits s))
loop_ends_at zero s e p h = absurd (omega arith)
loop_ends_at (suc bits) s e p h = loop_ends bits s e h
