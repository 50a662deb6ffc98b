-- ===== src/Cpu/Turn.antt =====
-- The CB rotates and shifts in arithmetic, and which of them undo one another.
use kokura.Base.{
  ℕ, zero, suc, ◌≤◌, ◌+◌, ◌*◌, ◌/◌, ◌%◌, ◌<◌, bit_and, bit_or, Bool, true, false, arith, ◌≡◌, refl,
}
use kokura.Base.{
  u8, ◌==◌, ◌<<<◌, ◌>>>◌, has_bit, if◌then◌else◌, u8_from, all_below, byte_eq, byte_test, ◌∙◌,
}
use kokura.Cpu.Regs.{Cpu, flag_z, flag_n, flag_h, flag_c, set_z, set_n, set_h, set_c}
use kokura.Cpu.Rotate.{
  shifted, rotate_left, cb_rlc, cb_rrc, cb_rl, cb_rr, cb_sla, cb_sra, cb_swap, cb_srl, cb_turn,
}
use kokura.Cpu.Flags.{u8_from-le, set_flags-sum, flags_sum-Reads, Reads}

-- The result and the carry of turn `y` of the byte `v` with the carry `c` before it.
pub turned : ℕ → ℕ → ℕ → ℕ
turned y v c =
    if y == 0
    then v % 128 * 2 + v / 128
    else if y == 1
    then v / 2 + v % 2 * 128
    else if y == 2
    then v % 128 * 2 + c
    else if y == 3
    then v / 2 + c * 128
    else if y == 4
    then v % 128 * 2
    else if y == 5
    then v / 2 + v / 128 * 128
    else if y == 6
    then v % 16 * 16 + v / 16
    else v / 2

pub turned_out : ℕ → ℕ → Bool
turned_out y v =
    if y == 0
    then v / 128 == 1
    else if y == 1
    then v % 2 == 1
    else if y == 2
    then v / 128 == 1
    else if y == 3
    then v % 2 == 1
    else if y == 4
    then v / 128 == 1
    else if y == 5
    then v % 2 == 1
    else if y == 6
    then false
    else v % 2 == 1

high_bit : (v : ℕ) → v < 256 → has_bit v 0x80 ≡ (v / 128 == 1)
unfolding all_below
high_bit = byte_test (λ v. has_bit v 0x80) (λ v. v / 128 == 1) refl

low_bit : (v : ℕ) → v < 256 → has_bit v 0x01 ≡ (v % 2 == 1)
unfolding all_below
low_bit = byte_test (λ v. has_bit v 0x01) (λ v. v % 2 == 1) refl

double_or :
    (c : Bool) (v : ℕ)
    → v < 256
    → bit_or (u8 (v <<< 1)) (if c then 1 else 0) ≡ v % 128 * 2 + u8_from c
unfolding all_below
double_or true = byte_eq (λ v. bit_or (u8 (v <<< 1)) 1) (λ v. v % 128 * 2 + 1) refl
double_or false = byte_eq (λ v. bit_or (u8 (v <<< 1)) 0) (λ v. v % 128 * 2 + 0) refl

half_or :
    (c : Bool) (v : ℕ)
    → v < 256
    → bit_or (v >>> 1) (if c then 0x80 else 0) ≡ v / 2 + u8_from c * 128
unfolding all_below
half_or true = byte_eq (λ v. bit_or (v >>> 1) 0x80) (λ v. v / 2 + 1 * 128) refl
half_or false = byte_eq (λ v. bit_or (v >>> 1) 0) (λ v. v / 2 + 0 * 128) refl

half_signed : (v : ℕ) → v < 256 → bit_or (v >>> 1) (bit_and v 0x80) ≡ v / 2 + v / 128 * 128
unfolding all_below
half_signed = byte_eq (λ v. bit_or (v >>> 1) (bit_and v 0x80)) (λ v. v / 2 + v / 128 * 128) refl

swapped : (v : ℕ) → v < 256 → rotate_left 4 v ≡ v % 16 * 16 + v / 16
unfolding all_below
swapped = byte_eq (λ v. rotate_left 4 v) (λ v. v % 16 * 16 + v / 16) refl

rest :
    (result : ℕ) (carry : Bool) (f : ℕ)
    → f < 256
    → Reads
        (result == 0)
        false
        false
        carry
        f
        (set_c carry (set_h false (set_n false (set_z (result == 0) f))))
rest result carry f w =
    rw (set_flags-sum (result == 0) false false carry f w)
      (flags_sum-Reads (result == 0) false false carry f)

-- Every turn of the CB page: its result, and C, Z, N and H after it; no other register changes.
pub record Turns (y v : ℕ) (r : Cpu) (out : ℕ × Cpu) : Type 0 where
  pub value : out.0 ≡ turned y v (u8_from (flag_c r.f))
  pub carry : flag_c out.1.f ≡ turned_out y v
  pub zero : flag_z out.1.f ≡ (out.0 == 0)
  pub cleared_n : flag_n out.1.f ≡ false
  pub cleared_h : flag_h out.1.f ≡ false
  pub flags_byte : out.1.f < 256
  pub low_flags : out.1.f % 16 ≡ r.f % 16
  pub frame : out.1 ≡ record r { f = out.1.f }

shifted-Turns :
    (y v : ℕ) (r : Cpu) (result : ℕ) (carry : Bool)
    → r.f < 256
    → result ≡ turned y v (u8_from (flag_c r.f))
    → carry ≡ turned_out y v
    → Turns y v r (shifted result carry r)
shifted-Turns y v r result carry hf e c =
    let k = rest result carry r.f hf in
    record {
      value = e;
      carry = k.reads_c ∙ c;
      zero = k.reads_z;
      cleared_n = k.reads_n;
      cleared_h = k.reads_h;
      flags_byte = k.wide;
      low_flags = k.low_kept;
      frame = refl;
    }

cb_rlc-Turns : (v : ℕ) (r : Cpu) → v < 256 → r.f < 256 → Turns 0 v r (cb_rlc v r)
unfolding cb_rlc turned turned_out
cb_rlc-Turns v r hv hf =
    shifted-Turns 0 v r _ _ hf (double_or (has_bit v 0x80) v hv ∙ rw (high_bit v hv) (ground arith))
      (high_bit v hv)

cb_rrc-Turns : (v : ℕ) (r : Cpu) → v < 256 → r.f < 256 → Turns 1 v r (cb_rrc v r)
unfolding cb_rrc turned turned_out
cb_rrc-Turns v r hv hf =
    shifted-Turns 1 v r _ _ hf (half_or (has_bit v 0x01) v hv ∙ rw (low_bit v hv) (ground arith))
      (low_bit v hv)

cb_rl-Turns : (v : ℕ) (r : Cpu) → v < 256 → r.f < 256 → Turns 2 v r (cb_rl v r)
unfolding cb_rl turned turned_out
cb_rl-Turns v r hv hf = shifted-Turns 2 v r _ _ hf (double_or (flag_c r.f) v hv) (high_bit v hv)

cb_rr-Turns : (v : ℕ) (r : Cpu) → v < 256 → r.f < 256 → Turns 3 v r (cb_rr v r)
unfolding cb_rr turned turned_out
cb_rr-Turns v r hv hf = shifted-Turns 3 v r _ _ hf (half_or (flag_c r.f) v hv) (low_bit v hv)

cb_sla-Turns : (v : ℕ) (r : Cpu) → v < 256 → r.f < 256 → Turns 4 v r (cb_sla v r)
unfolding cb_sla turned turned_out
cb_sla-Turns v r hv hf = shifted-Turns 4 v r _ _ hf (omega arith) (high_bit v hv)

cb_sra-Turns : (v : ℕ) (r : Cpu) → v < 256 → r.f < 256 → Turns 5 v r (cb_sra v r)
unfolding cb_sra turned turned_out
cb_sra-Turns v r hv hf = shifted-Turns 5 v r _ _ hf (half_signed v hv) (low_bit v hv)

cb_swap-Turns : (v : ℕ) (r : Cpu) → v < 256 → r.f < 256 → Turns 6 v r (cb_swap v r)
unfolding cb_swap turned turned_out
cb_swap-Turns v r hv hf = shifted-Turns 6 v r _ _ hf (swapped v hv) (refl)

cb_srl-Turns : (v : ℕ) (r : Cpu) → v < 256 → r.f < 256 → Turns 7 v r (cb_srl v r)
unfolding cb_srl turned turned_out
cb_srl-Turns v r hv hf = shifted-Turns 7 v r _ _ hf (refl) (low_bit v hv)

-- Each of the eight rotates and shifts of the CB page gives, on a byte, the byte and the carry
-- of its arithmetic description, sets Z exactly when the byte is 0, clears N and H and changes
-- no other register nor the low nibble of F.
pub cb_turn-Turns : (y v : ℕ) (r : Cpu) → y < 8 → v < 256 → r.f < 256 → Turns y v r (cb_turn y v r)
cb_turn-Turns zero v r hy hv hf = unfold cb_turn in cb_rlc-Turns v r hv hf
cb_turn-Turns (suc zero) v r hy hv hf = unfold cb_turn in cb_rrc-Turns v r hv hf
cb_turn-Turns (suc (suc zero)) v r hy hv hf = unfold cb_turn in cb_rl-Turns v r hv hf
cb_turn-Turns (suc (suc (suc zero))) v r hy hv hf = unfold cb_turn in cb_rr-Turns v r hv hf
cb_turn-Turns (suc (suc (suc (suc zero)))) v r hy hv hf = unfold cb_turn in cb_sla-Turns v r hv hf
cb_turn-Turns (suc (suc (suc (suc (suc zero))))) v r hy hv hf =
    unfold cb_turn in cb_sra-Turns v r hv hf
cb_turn-Turns (suc (suc (suc (suc (suc (suc zero)))))) v r hy hv hf =
    unfold cb_turn in cb_swap-Turns v r hv hf
cb_turn-Turns (suc (suc (suc (suc (suc (suc (suc zero))))))) v r hy hv hf =
    unfold cb_turn in cb_srl-Turns v r hv hf
cb_turn-Turns (suc (suc (suc (suc (suc (suc (suc (suc y)))))))) v r hy hv hf = absurd (omega arith)

through_value :
    (v : ℕ) (c : Bool) → v < 256 → (v % 128 * 2 + u8_from c) / 2 + u8_from (v / 128 == 1) * 128 ≡ v
through_value v c h = ground arith

through_carry : (v : ℕ) (c : Bool) → ((v % 128 * 2 + u8_from c) % 2 == 1) ≡ c
through_carry v c = ground arith

-- On a byte RRC undoes RLC and RLC undoes RRC, SWAP undoes itself, and RR undoes RL on the byte
-- and the carry together.
pub turns_undo :
    (v : ℕ) (r : Cpu)
    → v < 256
    → r.f < 256
    → let rlc = cb_rlc v r in
      let rrc = cb_rrc v r in
      let swap = cb_swap v r in
      let rl = cb_rl v r in
      let back = cb_rr rl.0 rl.1 in
      ((cb_rrc rlc.0 rlc.1).0 ≡ v)
      × ((cb_rlc rrc.0 rrc.1).0 ≡ v)
      × ((cb_swap swap.0 swap.1).0 ≡ v)
      × (back.0 ≡ v)
      × (flag_c back.1.f ≡ flag_c r.f)
unfolding turned turned_out
turns_undo v r hv hf =
    let c = u8_from-le (flag_c r.f) in
    let rlc = cb_rlc-Turns v r hv hf in
    let rrc = cb_rrc-Turns v r hv hf in
    let swap = cb_swap-Turns v r hv hf in
    let rl = cb_rl-Turns v r hv hf in
    let rlc' =
      cb_rrc-Turns (cb_rlc v r).0 (cb_rlc v r).1 (omega (arith, rlc.value)) rlc.flags_byte in
    let rrc' =
      cb_rlc-Turns (cb_rrc v r).0 (cb_rrc v r).1 (omega (arith, rrc.value)) rrc.flags_byte in
    let swap' =
      cb_swap-Turns (cb_swap v r).0 (cb_swap v r).1 (omega (arith, swap.value)) swap.flags_byte in
    let rl' = cb_rr-Turns (cb_rl v r).0 (cb_rl v r).1 (omega (arith, rl.value, c)) rl.flags_byte in
    (
      omega (arith, rlc.value, rlc'.value),
      omega (arith, rrc.value, rrc'.value),
      omega (arith, swap.value, swap'.value),
      rl'.value ∙ rw (rl.value, rl.carry) (through_value v (flag_c r.f) hv),
      rl'.carry ∙ rw rl.value (through_carry v (flag_c r.f)),
    )

pub turned-lt : (y v c : ℕ) → v < 256 → c ≤ 1 → turned y v c < 256
unfolding turned
turned-lt y v c h k = ground arith
