-- ===== src/Cpu/Valid.antt =====
-- The widths of the registers, and the helpers of crates/kokura-core/src/lib.rs that work on
-- registers only.
use kokura.Base.{ℕ, ◌%◌, ◌≤◌, ◌<◌, bit_or, Bool, true, false, arith, ◌≡◌}
use kokura.Base.{u8, ◌<<<◌, ◌>>>◌, if◌then◌else◌, bit_and-le, bit_or-lt, bit_xor-lt, bit_or_join}
use kokura.Cpu.Regs.{
  Cpu, flag_c, set_z, set_n, set_h, set_c, hl, set_hl, ld_bc, set_bc, ld_de, set_de, jr,
}
use kokura.Cpu.Alu.{
  set_znh, inc8, dec8, and_a, or_a, xor_a, cp_a, add_a, sub_a, adc_a, sbc_a, daa, daa_byte,
  add_signed_to_sp_like_flags, add_hl,
}
use kokura.Cpu.Rotate.{rlca, rla, rrca, rra}
use kokura.Cpu.Flags.{set_z-sum, set_n-sum, set_h-sum, set_c-sum, u8_from-le}

-- The low nibble of F is always clear.
abbrev pub IsFlags : ℕ → Type 0
IsFlags f = (f < 256) × (f % 16 ≡ 0)

pub record IsValid (r : Cpu) : Type 0 where
  pub a_byte : r.a < 256
  pub b_byte : r.b < 256
  pub c_byte : r.c < 256
  pub d_byte : r.d < 256
  pub e_byte : r.e < 256
  pub h_byte : r.h < 256
  pub l_byte : r.l < 256
  pub flags : IsFlags r.f
  pub sp_word : r.sp < 65536
  pub pc_word : r.pc < 65536
  pub delay_short : r.ime_enable_delay ≤ 2

pub set_z-IsFlags : (v : Bool) (f : ℕ) → IsFlags f → IsFlags (set_z v f)
set_z-IsFlags v f h = rw (set_z-sum v f h.0) (omega (arith, u8_from-le v))

pub set_n-IsFlags : (v : Bool) (f : ℕ) → IsFlags f → IsFlags (set_n v f)
set_n-IsFlags v f h = rw (set_n-sum v f h.0) (omega (arith, u8_from-le v))

pub set_h-IsFlags : (v : Bool) (f : ℕ) → IsFlags f → IsFlags (set_h v f)
set_h-IsFlags v f h = rw (set_h-sum v f h.0) (omega (arith, u8_from-le v))

pub set_c-IsFlags : (v : Bool) (f : ℕ) → IsFlags f → IsFlags (set_c v f)
set_c-IsFlags v f h = rw (set_c-sum v f h.0) (omega (arith, u8_from-le v))

pub set_znh-IsValid : (z n h : Bool) (r : Cpu) → IsValid r → IsValid (set_znh z n h r)
set_znh-IsValid z n h r v = record {
  a_byte = v.a_byte;
  b_byte = v.b_byte;
  c_byte = v.c_byte;
  d_byte = v.d_byte;
  e_byte = v.e_byte;
  h_byte = v.h_byte;
  l_byte = v.l_byte;
  flags =
      set_h-IsFlags h (set_n n (set_z z r.f))
        (set_n-IsFlags n (set_z z r.f) (set_z-IsFlags z r.f v.flags));
  sp_word = v.sp_word;
  pc_word = v.pc_word;
  delay_short = v.delay_short;
}

pub with_flags : (f : ℕ) (r : Cpu) → IsValid r → IsFlags f → IsValid (record r { f = f })
with_flags f r v h = ground arith

pub with_a : (x : ℕ) (r : Cpu) → IsValid r → x < 256 → IsValid (record r { a = x })
with_a x r v h = ground arith

pub set_znhc-IsFlags :
    (z n h c : Bool) (f : ℕ) → IsFlags f → IsFlags (set_c c (set_h h (set_n n (set_z z f))))
set_znhc-IsFlags z n h c f v =
    set_c-IsFlags c _ (set_h-IsFlags h _ (set_n-IsFlags n _ (set_z-IsFlags z f v)))

-- A result in A with all four flags written.
pub result-IsValid :
    (x : ℕ) (z n h c : Bool) (r : Cpu)
    → IsValid r
    → x < 256
    → IsValid (record r { a = x; f = set_c c (set_h h (set_n n (set_z z r.f))) })
result-IsValid x z n h c r v w =
    with_flags _ (record r { a = x }) (with_a x r v w) (set_znhc-IsFlags z n h c r.f v.flags)

pub add_a-IsValid : (x : ℕ) (r : Cpu) → IsValid r → x < 256 → IsValid (add_a x r)
unfolding add_a
add_a-IsValid x r v h = result-IsValid _ _ _ _ _ r v (omega arith)

pub and_a-IsValid : (x : ℕ) (r : Cpu) → IsValid r → x < 256 → IsValid (and_a x r)
unfolding and_a
and_a-IsValid x r v h = result-IsValid _ _ _ _ _ r v (omega (arith, bit_and-le r.a x))

pub adc_a-IsValid : (x : ℕ) (r : Cpu) → IsValid r → x < 256 → IsValid (adc_a x r)
unfolding adc_a
adc_a-IsValid x r v h = result-IsValid _ _ _ _ _ r v (omega arith)

pub sub_a-IsValid : (x : ℕ) (r : Cpu) → IsValid r → x < 256 → IsValid (sub_a x r)
unfolding sub_a
sub_a-IsValid x r v h = result-IsValid _ _ _ _ _ r v (omega arith)

pub sbc_a-IsValid : (x : ℕ) (r : Cpu) → IsValid r → x < 256 → IsValid (sbc_a x r)
unfolding sbc_a
sbc_a-IsValid x r v h = result-IsValid _ _ _ _ _ r v (omega arith)

pub or_a-IsValid : (x : ℕ) (r : Cpu) → IsValid r → x < 256 → IsValid (or_a x r)
unfolding or_a
or_a-IsValid x r v h = result-IsValid _ _ _ _ _ r v (bit_or-lt 8 r.a x v.a_byte h)

pub xor_a-IsValid : (x : ℕ) (r : Cpu) → IsValid r → x < 256 → IsValid (xor_a x r)
unfolding xor_a
xor_a-IsValid x r v h = result-IsValid _ _ _ _ _ r v (bit_xor-lt 8 r.a x v.a_byte h)

pub cp_a-IsValid : (x : ℕ) (r : Cpu) → IsValid r → x < 256 → IsValid (cp_a x r)
unfolding cp_a
cp_a-IsValid x r v h = with_flags _ r v (set_znhc-IsFlags _ _ _ _ r.f v.flags)

-- The turns of the accumulator.
shift_or-lt : (c : Bool) (x : ℕ) → x < 256 → bit_or (u8 (x <<< 1)) (if c then 1 else 0) < 256
shift_or-lt true x h = bit_or-lt 8 (u8 (x <<< 1)) 1 (omega arith) (omega arith)
shift_or-lt false x h = bit_or-lt 8 (u8 (x <<< 1)) 0 (omega arith) (omega arith)

half_or-lt : (c : Bool) (x : ℕ) → x < 256 → bit_or (x >>> 1) (if c then 0x80 else 0) < 256
half_or-lt true x h = bit_or-lt 8 (x >>> 1) 0x80 (omega arith) (omega arith)
half_or-lt false x h = bit_or-lt 8 (x >>> 1) 0 (omega arith) (omega arith)

pub rlca-IsValid : (r : Cpu) → IsValid r → IsValid (rlca r)
unfolding rlca
rlca-IsValid r v =
    result-IsValid _ _ _ _ _ r v
      (bit_or-lt 8 (u8 (r.a <<< 1)) (r.a >>> 7) (omega arith) (omega arith))

pub rla-IsValid : (r : Cpu) → IsValid r → IsValid (rla r)
unfolding rla
rla-IsValid r v = result-IsValid _ _ _ _ _ r v (shift_or-lt (flag_c r.f) r.a v.a_byte)

pub rrca-IsValid : (r : Cpu) → IsValid r → IsValid (rrca r)
unfolding rrca
rrca-IsValid r v =
    result-IsValid _ _ _ _ _ r v
      (bit_or-lt 8 (u8 (r.a <<< 7)) (r.a >>> 1) (omega arith) (omega arith))

pub rra-IsValid : (r : Cpu) → IsValid r → IsValid (rra r)
unfolding rra
rra-IsValid r v = result-IsValid _ _ _ _ _ r v (half_or-lt (flag_c r.f) r.a v.a_byte)

pub daa-IsValid : (r : Cpu) → IsValid r → IsValid (daa r)
unfolding daa
daa-IsValid r v =
    with_flags _ (record r { a = daa_byte r })
      (with_a (daa_byte r) r v (unfold daa_byte in ground arith))
      (set_c-IsFlags _ _ (set_h-IsFlags _ _ (set_z-IsFlags _ r.f v.flags)))

pub inc8-IsValid : (x : ℕ) (r : Cpu) → IsValid r → ((inc8 x r).0 < 256) × IsValid (inc8 x r).1
unfolding inc8
inc8-IsValid x r v = (omega arith, set_znh-IsValid _ _ _ r v)

pub dec8-IsValid : (x : ℕ) (r : Cpu) → IsValid r → ((dec8 x r).0 < 256) × IsValid (dec8 x r).1
unfolding dec8
dec8-IsValid x r v = (omega arith, set_znh-IsValid _ _ _ r v)

pub set_hl-IsValid : (x : ℕ) (r : Cpu) → IsValid r → IsValid (set_hl x r)
unfolding set_hl
set_hl-IsValid x r v = ground arith

pub set_bc-IsValid : (x : ℕ) (r : Cpu) → IsValid r → IsValid (set_bc x r)
unfolding set_bc
set_bc-IsValid x r v = ground arith

pub set_de-IsValid : (x : ℕ) (r : Cpu) → IsValid r → IsValid (set_de x r)
unfolding set_de
set_de-IsValid x r v = ground arith

pub hl-word : (r : Cpu) → IsValid r → hl r < 65536
unfolding hl
hl-word r v = omega (arith, bit_or_join 8 r.h r.l v.l_byte)

pub bc-word : (r : Cpu) → IsValid r → ld_bc r < 65536
unfolding ld_bc
bc-word r v = omega (arith, bit_or_join 8 r.b r.c v.c_byte)

pub de-word : (r : Cpu) → IsValid r → ld_de r < 65536
unfolding ld_de
de-word r v = omega (arith, bit_or_join 8 r.d r.e v.e_byte)

pub jr-IsValid : (x : ℕ) (r : Cpu) → IsValid r → IsValid (jr x r)
unfolding jr
jr-IsValid x r v = ground arith

pub add_hl-IsValid : (x : ℕ) (r : Cpu) → IsValid r → IsValid (add_hl x r)
unfolding add_hl
add_hl-IsValid x r v =
    set_hl-IsValid _ _
      (with_flags _ r v (set_c-IsFlags _ _ (set_h-IsFlags _ _ (set_n-IsFlags false r.f v.flags))))

pub sp_offset-IsValid :
    (base x : ℕ) (r : Cpu)
    → IsValid r
    → ((add_signed_to_sp_like_flags base x r).0 < 65536)
      × IsValid (add_signed_to_sp_like_flags base x r).1
unfolding add_signed_to_sp_like_flags
sp_offset-IsValid base x r v =
    (omega arith, with_flags _ r v (set_znhc-IsFlags _ _ _ _ r.f v.flags))

pub with_pc : (x : ℕ) (r : Cpu) → IsValid r → x < 65536 → IsValid (record r { pc = x })
with_pc x r v h = ground arith

pub with_sp : (x : ℕ) (r : Cpu) → IsValid r → x < 65536 → IsValid (record r { sp = x })
with_sp x r v h = ground arith

pub put_a-IsValid : (x : ℕ) (r : Cpu) → IsValid r → x < 256 → IsValid (record r { a = x })
put_a-IsValid x r v h = ground arith

pub put_b-IsValid : (x : ℕ) (r : Cpu) → IsValid r → x < 256 → IsValid (record r { b = x })
put_b-IsValid x r v h = ground arith

pub put_c-IsValid : (x : ℕ) (r : Cpu) → IsValid r → x < 256 → IsValid (record r { c = x })
put_c-IsValid x r v h = ground arith

pub put_d-IsValid : (x : ℕ) (r : Cpu) → IsValid r → x < 256 → IsValid (record r { d = x })
put_d-IsValid x r v h = ground arith

pub put_e-IsValid : (x : ℕ) (r : Cpu) → IsValid r → x < 256 → IsValid (record r { e = x })
put_e-IsValid x r v h = ground arith

pub put_h-IsValid : (x : ℕ) (r : Cpu) → IsValid r → x < 256 → IsValid (record r { h = x })
put_h-IsValid x r v h = ground arith

pub put_l-IsValid : (x : ℕ) (r : Cpu) → IsValid r → x < 256 → IsValid (record r { l = x })
put_l-IsValid x r v h = ground arith
