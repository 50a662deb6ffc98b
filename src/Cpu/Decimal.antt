-- ===== src/Cpu/Decimal.antt =====
-- DAA after an addition or a subtraction of packed decimals.
use kokura.Base.{Bool, ℕ, ◌+◌, ◌-◌, ◌*◌, ◌/◌, ◌%◌, ◌≤◌, ◌<◌, false, arith, ◌≡◌}
use kokura.Base.{ltb, leb, ◌==◌, u8_from, bit_and_low, ◌∙◌}
use kokura.Cpu.Regs.{Cpu, flag_z, flag_n, flag_h, flag_c}
use kokura.Cpu.Alu.{daa, daa_byte, daa_carry, adc_a, sbc_a}
use kokura.Cpu.Flags.{set_flags_keep_n, flags_sum-Reads, u8_from-le, Reads}
use kokura.Cpu.Arith.{IsBytes, Adds, Subtracts, add_family, sub_family}

-- Two decimal digits in one byte.
abbrev pub bcd : ℕ → ℕ
bcd x = x / 10 * 16 + x % 10

-- What `daa` stores, in terms of the byte and the carry.
daa-Reads :
    (r : Cpu) → r.f < 256 → Reads (daa_byte r == 0) (flag_n r.f) false (daa_carry r) r.f (daa r).f
unfolding daa
daa-Reads r w =
    rw (set_flags_keep_n (daa_byte r == 0) false (daa_carry r) r.f w)
      (flags_sum-Reads (daa_byte r == 0) (flag_n r.f) false (daa_carry r) r.f)

-- The adjustment of a byte that an addition of decimals left.
module _ (r r' : Cpu) (x y : ℕ) (hx : x < 100) (hy : y < 100) (e : r.a ≡ bcd x) where
  daa_byte_add :
      (cin : ℕ) → cin ≤ 1 → Adds r (bcd y) cin r' → daa_byte r' ≡ bcd ((x + y + cin) % 100)
  unfolding daa_byte
  daa_byte_add cin hc s =
      rw (s.add_mode, bit_and_low 4 r'.a) (ground (arith, s.total, s.half, s.byte))

  daa_carry_add : (cin : ℕ) → cin ≤ 1 → Adds r (bcd y) cin r' → daa_carry r' ≡ leb 100 (x + y + cin)
  unfolding daa_carry
  daa_carry_add cin hc s = rw s.add_mode (ground (arith, s.total, s.half, s.byte))

  daa_byte_sub :
      (bin : ℕ)
      → bin ≤ 1
      → Subtracts r (bcd y) bin r'
      → daa_byte r' ≡ bcd ((x + 100 - y - bin) % 100)
  unfolding daa_byte
  daa_byte_sub bin hc s = rw s.sub_mode (ground (arith, s.total, s.half, s.byte))

  daa_carry_sub : (bin : ℕ) → bin ≤ 1 → Subtracts r (bcd y) bin r' → daa_carry r' ≡ ltb x (y + bin)
  unfolding daa_carry
  daa_carry_sub bin hc s = rw s.sub_mode (ground (arith, s.total, s.half, s.byte))

bcd-IsBytes : (r : Cpu) (x y : ℕ) → x < 100 → y < 100 → r.a ≡ bcd x → r.f < 256 → IsBytes r (bcd y)
bcd-IsBytes r x y hx hy e f = record { a_byte = omega arith; f_byte = f; v_byte = omega arith }

-- A register file after DAA: the digits in A, the carry, and the other flags.
pub record IsDecimal (digits : ℕ) (carry : Bool) (r : Cpu) : Type 0 where
  pub holds : r.a ≡ bcd digits
  pub carries : flag_c r.f ≡ carry
  pub zero : flag_z r.f ≡ (r.a == 0)
  pub half : flag_h r.f ≡ false

adc_a-IsDecimal :
    (r : Cpu) (x y : ℕ)
    → x < 100
    → y < 100
    → r.a ≡ bcd x
    → r.f < 256
    → let total = x + y + u8_from (flag_c r.f) in
      IsDecimal (total % 100) (leb 100 total) (daa (adc_a (bcd y) r))
adc_a-IsDecimal r x y hx hy e f =
    let s = (add_family r (bcd y) (bcd-IsBytes r x y hx hy e f)).1 in
    let k = daa-Reads (adc_a (bcd y) r) s.flags_byte in
    let c = u8_from-le (flag_c r.f) in
    record {
      holds = unfold daa in daa_byte_add r (adc_a (bcd y) r) x y hx hy e (u8_from (flag_c r.f)) c s;
      carries =
          k.reads_c ∙ daa_carry_add r (adc_a (bcd y) r) x y hx hy e (u8_from (flag_c r.f)) c s;
      zero = unfold daa in k.reads_z;
      half = k.reads_h;
    }

sbc_a-IsDecimal :
    (r : Cpu) (x y : ℕ)
    → x < 100
    → y < 100
    → r.a ≡ bcd x
    → r.f < 256
    → let borrow = u8_from (flag_c r.f) in
      IsDecimal ((x + 100 - y - borrow) % 100) (ltb x (y + borrow)) (daa (sbc_a (bcd y) r))
sbc_a-IsDecimal r x y hx hy e f =
    let s = (sub_family r (bcd y) (bcd-IsBytes r x y hx hy e f)).1 in
    let k = daa-Reads (sbc_a (bcd y) r) s.flags_byte in
    let c = u8_from-le (flag_c r.f) in
    record {
      holds = unfold daa in daa_byte_sub r (sbc_a (bcd y) r) x y hx hy e (u8_from (flag_c r.f)) c s;
      carries =
          k.reads_c ∙ daa_carry_sub r (sbc_a (bcd y) r) x y hx hy e (u8_from (flag_c r.f)) c s;
      zero = unfold daa in k.reads_z;
      half = k.reads_h;
    }

-- Where A holds the two decimal digits of `x` and F is a byte, ADC of those of `y` followed by
-- DAA leaves the two digits of x + y + carry modulo 100, with C set exactly when that sum is 100
-- or more; SBC followed by DAA leaves those of x - y - borrow modulo 100, with C set exactly
-- when that difference is negative. Both set Z exactly when the byte is 0 and clear H.
pub daa-digits :
    (r : Cpu) (x y : ℕ)
    → x < 100
    → y < 100
    → r.a ≡ bcd x
    → r.f < 256
    → let c = u8_from (flag_c r.f) in
      IsDecimal ((x + y + c) % 100) (leb 100 (x + y + c)) (daa (adc_a (bcd y) r))
      × IsDecimal ((x + 100 - y - c) % 100) (ltb x (y + c)) (daa (sbc_a (bcd y) r))
daa-digits r x y hx hy e f = (adc_a-IsDecimal r x y hx hy e f, sbc_a-IsDecimal r x y hx hy e f)
