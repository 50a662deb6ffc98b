-- ===== src/Cpu/Rotate.antt =====
-- The rotates and shifts of lib.rs: the accumulator forms and those of the CB page.
use kokura.Base.{ℕ, ◌-◌, bit_and, bit_or, Bool, false}
use kokura.Base.{u8, ◌<<<◌, ◌>>>◌, has_bit, ◌==◌, if◌then◌else◌}
use kokura.Cpu.Regs.{Cpu, flag_c}
use kokura.Cpu.Alu.{set_znhc}

-- `u8::rotate_left` and `u8::rotate_right`.
abbrev pub rotate_left : ℕ → ℕ → ℕ
rotate_left k x = bit_or (u8 (x <<< k)) (x >>> (8 - k))

abbrev pub rotate_right : ℕ → ℕ → ℕ
rotate_right k x = bit_or (u8 (x <<< (8 - k))) (x >>> k)

unfoldable pub rlca : Cpu → Cpu
rlca r = set_znhc false false false (has_bit r.a 0x80) (record r { a = rotate_left 1 r.a })

unfoldable pub rla : Cpu → Cpu
rla r =
    let carry_in = if flag_c r.f then 1 else 0 in
    set_znhc false false false (has_bit r.a 0x80)
      (record r { a = bit_or (u8 (r.a <<< 1)) carry_in })

unfoldable pub rrca : Cpu → Cpu
rrca r = set_znhc false false false (has_bit r.a 0x01) (record r { a = rotate_right 1 r.a })

-- The `0x1F` arm of `execute_opcode`.
unfoldable pub rra : Cpu → Cpu
rra r =
    let carry = if flag_c r.f then 0x80 else 0 in
    set_znhc false false false (has_bit r.a 0x01) (record r { a = bit_or (r.a >>> 1) carry })

-- The CB helpers end alike: Z from the result, N and H clear, C given.
abbrev pub shifted : ℕ → Bool → Cpu → ℕ × Cpu
shifted result carry r = (result, set_znhc (result == 0) false false carry r)

unfoldable pub cb_rlc : ℕ → Cpu → ℕ × Cpu
cb_rlc value r =
    let carry = has_bit value 0x80 in
    shifted (bit_or (u8 (value <<< 1)) (if carry then 1 else 0)) carry r

unfoldable pub cb_rrc : ℕ → Cpu → ℕ × Cpu
cb_rrc value r =
    let carry = has_bit value 0x01 in
    shifted (bit_or (value >>> 1) (if carry then 0x80 else 0)) carry r

unfoldable pub cb_rl : ℕ → Cpu → ℕ × Cpu
cb_rl value r =
    let carry_in = if flag_c r.f then 1 else 0 in
    shifted (bit_or (u8 (value <<< 1)) carry_in) (has_bit value 0x80) r

unfoldable pub cb_rr : ℕ → Cpu → ℕ × Cpu
cb_rr value r =
    let carry_in = if flag_c r.f then 0x80 else 0 in
    shifted (bit_or (value >>> 1) carry_in) (has_bit value 0x01) r

unfoldable pub cb_sla : ℕ → Cpu → ℕ × Cpu
cb_sla value r = shifted (u8 (value <<< 1)) (has_bit value 0x80) r

unfoldable pub cb_sra : ℕ → Cpu → ℕ × Cpu
cb_sra value r = shifted (bit_or (value >>> 1) (bit_and value 0x80)) (has_bit value 0x01) r

unfoldable pub cb_swap : ℕ → Cpu → ℕ × Cpu
cb_swap value r = shifted (rotate_left 4 value) false r

unfoldable pub cb_srl : ℕ → Cpu → ℕ × Cpu
cb_srl value r = shifted (value >>> 1) (has_bit value 0x01) r

-- The `match y` of group 0 of the CB page.
unfoldable pub cb_turn : ℕ → ℕ → Cpu → ℕ × Cpu
unfolding cb_rlc cb_rrc cb_rl cb_rr cb_sla cb_sra cb_swap cb_srl
cb_turn y value r =
    if y == 0
    then cb_rlc value r
    else if y == 1
    then cb_rrc value r
    else if y == 2
    then cb_rl value r
    else if y == 3
    then cb_rr value r
    else if y == 4
    then cb_sla value r
    else if y == 5
    then cb_sra value r
    else if y == 6
    then cb_swap value r
    else cb_srl value r
