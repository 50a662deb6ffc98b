-- ===== src/Cpu/Arith.antt =====
-- The arithmetic helpers against the sums and differences that they compute.
use kokura.Base.{ℕ, ◌+◌, ◌-◌, ◌*◌, ◌%◌, ◌<◌, bit_and, Bool, true, false, arith, ◌≡◌, refl}
use kokura.Base.{u8, ltb, ◌==◌, u8_from, bit_and_low, ◌∙◌}
use kokura.Cpu.Regs.{Cpu, flag_z, flag_n, flag_h, flag_c, set_z, set_n, set_h, set_c}
use kokura.Cpu.Alu.{inc8, dec8, cp_a, add_a, sub_a, adc_a, sbc_a}
use kokura.Cpu.Flags.{set_flags-sum, set_flags_keep_c, flags_sum-Reads, u8_from-le, Reads}

pub record IsBytes (r : Cpu) (v : ℕ) : Type 0 where
  pub a_byte : r.a < 256
  pub f_byte : r.f < 256
  pub v_byte : v < 256

-- `r'` is `r` after adding `v` and the carry `cin` into A.
pub record Adds (r : Cpu) (v cin : ℕ) (r' : Cpu) : Type 0 where
  pub total : r'.a + 256 * u8_from (flag_c r'.f) ≡ r.a + v + cin
  pub half : r'.a % 16 + 16 * u8_from (flag_h r'.f) ≡ r.a % 16 + v % 16 + cin
  pub byte : r'.a < 256
  pub zero : flag_z r'.f ≡ (r'.a == 0)
  pub add_mode : flag_n r'.f ≡ false
  pub low_flags : r'.f % 16 ≡ r.f % 16
  pub flags_byte : r'.f < 256
  pub frame : r' ≡ record r { a = r'.a; f = r'.f }

-- `r'` is `r` after subtracting `v` and the borrow `bin` from A.
pub record Subtracts (r : Cpu) (v bin : ℕ) (r' : Cpu) : Type 0 where
  pub total : r'.a + v + bin ≡ r.a + 256 * u8_from (flag_c r'.f)
  pub half : r'.a % 16 + v % 16 + bin ≡ r.a % 16 + 16 * u8_from (flag_h r'.f)
  pub byte : r'.a < 256
  pub zero : flag_z r'.f ≡ (r'.a == 0)
  pub sub_mode : flag_n r'.f ≡ true
  pub low_flags : r'.f % 16 ≡ r.f % 16
  pub flags_byte : r'.f < 256
  pub frame : r' ≡ record r { a = r'.a; f = r'.f }

-- The flags of a result, read back through the writes.
written :
    (z n h c : Bool) (f : ℕ) → f < 256 → Reads z n h c f (set_c c (set_h h (set_n n (set_z z f))))
written z n h c f w = rw (set_flags-sum z n h c f w) (flags_sum-Reads z n h c f)

kept : (z n h : Bool) (f : ℕ) → f < 256 → Reads z n h (flag_c f) f (set_h h (set_n n (set_z z f)))
kept z n h f w = rw (set_flags_keep_c z n h f w) (flags_sum-Reads z n h (flag_c f) f)

adc_a-Adds : (r : Cpu) (v : ℕ) → IsBytes r v → Adds r v (u8_from (flag_c r.f)) (adc_a v r)
unfolding adc_a
adc_a-Adds r v w =
    let cin = u8_from (flag_c r.f) in
    let k =
      written (u8 (r.a + v + cin) == 0) false (ltb 0x0F (bit_and r.a 0x0F + bit_and v 0x0F + cin))
        (ltb 0xFF (r.a + v + cin)) r.f w.f_byte in
    let c1 = u8_from-le (flag_c r.f) in
    record {
      total = rw k.reads_c (ground arith);
      half = rw (k.reads_h, bit_and_low 4 r.a, bit_and_low 4 v) (ground arith);
      byte = omega arith;
      zero = k.reads_z;
      add_mode = k.reads_n;
      low_flags = k.low_kept;
      flags_byte = k.wide;
      frame = refl;
    }

add_a-Adds : (r : Cpu) (v : ℕ) → IsBytes r v → Adds r v 0 (add_a v r)
unfolding add_a
add_a-Adds r v w =
    let k =
      written (u8 (r.a + v) == 0) false (ltb 0x0F (bit_and r.a 0x0F + bit_and v 0x0F))
        (ltb 0xFF (r.a + v)) r.f w.f_byte in
    record {
      total = rw k.reads_c (ground arith);
      half = rw (k.reads_h, bit_and_low 4 r.a, bit_and_low 4 v) (ground arith);
      byte = omega arith;
      zero = k.reads_z;
      add_mode = k.reads_n;
      low_flags = k.low_kept;
      flags_byte = k.wide;
      frame = refl;
    }

sbc_a-Subtracts : (r : Cpu) (v : ℕ) → IsBytes r v → Subtracts r v (u8_from (flag_c r.f)) (sbc_a v r)
unfolding sbc_a
sbc_a-Subtracts r v w =
    let bin = u8_from (flag_c r.f) in
    let k =
      written (u8 (u8 (r.a + 256 - v) + 256 - bin) == 0) true
        (ltb (bit_and r.a 0x0F) (bit_and v 0x0F + bin)) (ltb r.a (v + bin)) r.f w.f_byte in
    let c1 = u8_from-le (flag_c r.f) in
    record {
      total = rw k.reads_c (ground arith);
      half = rw (k.reads_h, bit_and_low 4 r.a, bit_and_low 4 v) (ground arith);
      byte = omega arith;
      zero = k.reads_z;
      sub_mode = k.reads_n;
      low_flags = k.low_kept;
      flags_byte = k.wide;
      frame = refl;
    }

sub_a-Subtracts : (r : Cpu) (v : ℕ) → IsBytes r v → Subtracts r v 0 (sub_a v r)
unfolding sub_a
sub_a-Subtracts r v w =
    let k =
      written (u8 (r.a + 256 - v) == 0) true (ltb (bit_and r.a 0x0F) (bit_and v 0x0F)) (ltb r.a v)
        r.f w.f_byte in
    record {
      total = rw k.reads_c (ground arith);
      half = rw (k.reads_h, bit_and_low 4 r.a, bit_and_low 4 v) (ground arith);
      byte = omega arith;
      zero = k.reads_z;
      sub_mode = k.reads_n;
      low_flags = k.low_kept;
      flags_byte = k.wide;
      frame = refl;
    }

pub add_family :
    (r : Cpu) (v : ℕ)
    → IsBytes r v
    → Adds r v 0 (add_a v r) × Adds r v (u8_from (flag_c r.f)) (adc_a v r)
add_family r v w = (add_a-Adds r v w, adc_a-Adds r v w)

pub sub_family :
    (r : Cpu) (v : ℕ)
    → IsBytes r v
    → Subtracts r v 0 (sub_a v r)
      × Subtracts r v (u8_from (flag_c r.f)) (sbc_a v r)
      × (cp_a v r ≡ record r { f = (sub_a v r).f })
sub_family r v w = (sub_a-Subtracts r v w, sbc_a-Subtracts r v w, unfold cp_a sub_a in refl)

sub_a-add_a :
    (r : Cpu) (v : ℕ)
    → IsBytes r v
    → ((sub_a v (add_a v r)).a ≡ r.a) × (flag_c (sub_a v (add_a v r)).f ≡ flag_c (add_a v r).f)
sub_a-add_a r v w =
    let p = add_a-Adds r v w in
    let q =
      sub_a-Subtracts (add_a v r) v
        (record { a_byte = p.byte; f_byte = p.flags_byte; v_byte = w.v_byte }) in
    ground (arith, p.total, q.total, p.byte, q.byte)

-- On bytes, ADD and ADC leave in A and C the sum of A, the operand and the carry taken in, and
-- SUB and SBC the difference of A, the operand and the borrow taken in; they set H by the low
-- nibbles and Z by the byte, ADD and ADC clear N, SUB and SBC set it, and none changes another
-- register or the low nibble of F. CP sets the flags of SUB and leaves A alone. SUB of what ADD
-- added gives A back, with the carry of the addition as its borrow.
pub arithmetic_family :
    (r : Cpu) (v : ℕ)
    → IsBytes r v
    → Adds r v 0 (add_a v r)
      × Adds r v (u8_from (flag_c r.f)) (adc_a v r)
      × Subtracts r v 0 (sub_a v r)
      × Subtracts r v (u8_from (flag_c r.f)) (sbc_a v r)
      × (cp_a v r ≡ record r { f = (sub_a v r).f })
      × ((sub_a v (add_a v r)).a ≡ r.a)
      × (flag_c (sub_a v (add_a v r)).f ≡ flag_c (add_a v r).f)
arithmetic_family r v w =
    let a = add_family r v w in
    let s = sub_family r v w in
    let back = sub_a-add_a r v w in (a.0, a.1, s.0, s.1, s.2, back.0, back.1)

-- On a byte INC and DEC undo one another and leave C alone; Z is set after INC of 255 and DEC of
-- 1 alone, and H exactly after INC of a low nibble 15 and DEC of a low nibble 0.
pub dec8-inc8 :
    (v : ℕ) (r : Cpu)
    → v < 256
    → r.f < 256
    → ((dec8 (inc8 v r).0 (inc8 v r).1).0 ≡ v)
      × ((inc8 (dec8 v r).0 (dec8 v r).1).0 ≡ v)
      × (flag_c (inc8 v r).1.f ≡ flag_c r.f)
      × (flag_c (dec8 v r).1.f ≡ flag_c r.f)
      × (flag_z (inc8 v r).1.f ≡ (v == 255))
      × (flag_z (dec8 v r).1.f ≡ (v == 1))
      × (flag_h (inc8 v r).1.f ≡ (v % 16 == 15))
      × (flag_h (dec8 v r).1.f ≡ (v % 16 == 0))
unfolding inc8 dec8
dec8-inc8 v r hv hf =
    let i = kept (u8 (v + 1) == 0) false (ltb 0x0F (bit_and v 0x0F + 1)) r.f hf in
    let d = kept (u8 (v + 255) == 0) true (bit_and v 0x0F == 0) r.f hf in
    (
      omega arith,
      omega arith,
      i.reads_c,
      d.reads_c,
      i.reads_z ∙ ground arith,
      d.reads_z ∙ ground arith,
      i.reads_h ∙ rw (bit_and_low 4 v) (ground arith),
      d.reads_h ∙ rw (bit_and_low 4 v) refl,
    )
