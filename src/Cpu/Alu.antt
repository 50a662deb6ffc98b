-- ===== src/Cpu/Alu.antt =====
-- The arithmetic helpers of lib.rs. A helper that returns a byte returns it before the registers.
use kokura.Base.{ℕ, ◌+◌, ◌-◌, bit_and, bit_or, bit_xor}
use kokura.Base.{Bool, true, false, not, ◌||◌}
use kokura.Base.{u8, u16, ltb, ◌==◌, if◌then◌else◌, u8_from}
use kokura.Cpu.Regs.{
  Cpu, flag_n, flag_h, flag_c, set_z, set_n, set_h, set_c, hl, set_hl, sign_extend,
}

-- The flag writes of one helper, in the order of the source.
abbrev pub set_znh : Bool → Bool → Bool → Cpu → Cpu
set_znh z n h r = record r { f = set_h h (set_n n (set_z z r.f)) }

abbrev pub set_znhc : Bool → Bool → Bool → Bool → Cpu → Cpu
set_znhc z n h c r = record r { f = set_c c (set_h h (set_n n (set_z z r.f))) }

unfoldable pub inc8 : ℕ → Cpu → ℕ × Cpu
inc8 value r =
    let result = u8 (value + 1) in
    (result, set_znh (result == 0) false (ltb 0x0F (bit_and value 0x0F + 1)) r)

unfoldable pub dec8 : ℕ → Cpu → ℕ × Cpu
dec8 value r =
    let result = u8 (value + 255) in
    (result, set_znh (result == 0) true (bit_and value 0x0F == 0) r)

unfoldable pub and_a : ℕ → Cpu → Cpu
and_a value r =
    let a' = bit_and r.a value in set_znhc (a' == 0) false true false (record r { a = a' })

unfoldable pub or_a : ℕ → Cpu → Cpu
or_a value r =
    let a' = bit_or r.a value in set_znhc (a' == 0) false false false (record r { a = a' })

unfoldable pub xor_a : ℕ → Cpu → Cpu
xor_a value r =
    let a' = bit_xor r.a value in set_znhc (a' == 0) false false false (record r { a = a' })

unfoldable pub cp_a : ℕ → Cpu → Cpu
cp_a value r =
    let result = u8 (r.a + 256 - value) in
    set_znhc (result == 0) true (ltb (bit_and r.a 0x0F) (bit_and value 0x0F)) (ltb r.a value) r

unfoldable pub add_a : ℕ → Cpu → Cpu
add_a value r =
    let a = r.a in
    let result = u8 (a + value) in
    set_znhc (result == 0) false (ltb 0x0F (bit_and a 0x0F + bit_and value 0x0F))
      (ltb 0xFF (a + value)) (record r { a = result })

unfoldable pub sub_a : ℕ → Cpu → Cpu
sub_a value r =
    let a = r.a in
    let result = u8 (a + 256 - value) in
    set_znhc (result == 0) true (ltb (bit_and a 0x0F) (bit_and value 0x0F)) (ltb a value)
      (record r { a = result })

unfoldable pub adc_a : ℕ → Cpu → Cpu
adc_a value r =
    let a = r.a in
    let carry = u8_from (flag_c r.f) in
    let result16 = a + value + carry in
    let result = u8 result16 in
    set_znhc (result == 0) false (ltb 0x0F (bit_and a 0x0F + bit_and value 0x0F + carry))
      (ltb 0xFF result16) (record r { a = result })

unfoldable pub sbc_a : ℕ → Cpu → Cpu
sbc_a value r =
    let a = r.a in
    let carry = u8_from (flag_c r.f) in
    let result = u8 (u8 (a + 256 - value) + 256 - carry) in
    set_znhc (result == 0) true (ltb (bit_and a 0x0F) (bit_and value 0x0F + carry))
      (ltb a (value + carry)) (record r { a = result })

-- The carry and the byte that `daa` computes before it stores them.
unfoldable pub daa_carry : Cpu → Bool
daa_carry r =
    let carry = flag_c r.f in
    if not (flag_n r.f) then if carry || ltb 0x99 r.a then true else carry else carry

unfoldable pub daa_byte : Cpu → ℕ
daa_byte r =
    if not (flag_n r.f)
    then (let low = if flag_h r.f || ltb 0x09 (bit_and r.a 0x0F) then bit_or 0 0x06 else 0 in
        let adjust = if flag_c r.f || ltb 0x99 r.a then bit_or low 0x60 else low in
        u8 (r.a + adjust))
    else (let low = if flag_h r.f then bit_or 0 0x06 else 0 in
        let adjust = if flag_c r.f then bit_or low 0x60 else low in u8 (r.a + 256 - adjust))

unfoldable pub daa : Cpu → Cpu
daa r =
    let a' = daa_byte r in
    record r { a = a'; f = set_c (daa_carry r) (set_h false (set_z (a' == 0) r.f)) }

unfoldable pub add_signed_to_sp_like_flags : ℕ → ℕ → Cpu → ℕ × Cpu
add_signed_to_sp_like_flags base offset r =
    let wide = sign_extend offset in
    (
      u16 (base + wide),
      set_znhc false false (ltb 0x000F (bit_and base 0x000F + bit_and wide 0x000F))
          (ltb 0x00FF (bit_and base 0x00FF + bit_and wide 0x00FF)) r,
    )

unfoldable pub add_hl : ℕ → Cpu → Cpu
add_hl value r =
    let old = hl r in
    let result = u16 (old + value) in
    let f' =
      set_c (ltb 0xFFFF (old + value))
        (set_h (ltb 0x0FFF (bit_and old 0x0FFF + bit_and value 0x0FFF)) (set_n false r.f)) in
    set_hl result (record r { f = f' })
