-- ===== src/Cpu/Exec/Low.antt =====
-- The arms 00 to 3F of `execute_opcode` in lib.rs, in the order of the source.
use kokura.Base.{ℕ, ◌+◌, bit_xor, Bool, true, false, not, none, some, List, [], ◌∷◌}
use kokura.Base.{u8, u16, ◌>>>◌, if◌then◌else◌, St, ◌>>=◌, ◌>>◌, pure}
use kokura.Cpu.Regs.{
  Cpu, flag_z, flag_c, set_n, set_h, set_c, hl, set_hl, ld_bc, set_bc, ld_de, set_de, inc16, dec16,
  jr,
}
use kokura.Cpu.Alu.{inc8, dec8, add_hl, daa}
use kokura.Cpu.Rotate.{rlca, rla, rrca, rra}
use kokura.Cpu.Bus.{
  Bus, Machine, on_cpu, through, look, read8, read8_timed, write8, read8_imm, read16_imm,
}

-- An instruction returns the cycles it takes.
abbrev pub Instr : Type 0 → Type 0
Instr M = St (Machine M) ℕ

-- CPL, SCF and CCF.
unfoldable pub cpl : Cpu → Cpu
cpl r = record r { a = bit_xor r.a 0xFF; f = set_h true (set_n true r.f) }

unfoldable pub scf : Cpu → Cpu
scf r = record r { f = set_c true (set_h false (set_n false r.f)) }

unfoldable pub ccf : Cpu → Cpu
ccf r = let c = flag_c r.f in record r { f = set_c (not c) (set_h false (set_n false r.f)) }

-- The halted state that HALT and an unarmed STOP enter.
unfoldable pub halt : Cpu → Cpu
halt r = record r { halted = true }

-- Stores into one register.
abbrev pub put_a : ℕ → Cpu → Cpu
put_a v r = record r { a = v }

abbrev pub put_b : ℕ → Cpu → Cpu
put_b v r = record r { b = v }

abbrev pub put_c : ℕ → Cpu → Cpu
put_c v r = record r { c = v }

abbrev pub put_d : ℕ → Cpu → Cpu
put_d v r = record r { d = v }

abbrev pub put_e : ℕ → Cpu → Cpu
put_e v r = record r { e = v }

abbrev pub put_h : ℕ → Cpu → Cpu
put_h v r = record r { h = v }

abbrev pub put_l : ℕ → Cpu → Cpu
put_l v r = record r { l = v }

abbrev pub put_sp : ℕ → Cpu → Cpu
put_sp v r = record r { sp = v }

module _ {M : Type 0} (bus : Bus M) where
  -- The shapes that arms share: a pair register stepped, a byte register stepped or loaded.
  unfoldable pub inc_pair : (Cpu → ℕ) → (ℕ → Cpu → Cpu) → Instr M
  inc_pair get put = do value ← look get; on_cpu (put (inc16 value)); pure 8

  unfoldable pub dec_pair : (Cpu → ℕ) → (ℕ → Cpu → Cpu) → Instr M
  dec_pair get put = do value ← look get; on_cpu (put (dec16 value)); pure 8

  unfoldable pub inc_reg : (Cpu → ℕ) → (ℕ → Cpu → Cpu) → Instr M
  inc_reg get put = do value ← look get; result ← through (inc8 value); on_cpu (put result); pure 4

  unfoldable pub dec_reg : (Cpu → ℕ) → (ℕ → Cpu → Cpu) → Instr M
  dec_reg get put = do value ← look get; result ← through (dec8 value); on_cpu (put result); pure 4

  unfoldable pub load_imm : (ℕ → Cpu → Cpu) → Instr M
  load_imm put = do value ← read8_imm bus; on_cpu (put value); pure 8

  unfoldable pub load_imm16 : (ℕ → Cpu → Cpu) → Instr M
  load_imm16 put = do value ← read16_imm bus; on_cpu (put value); pure 12

  -- LD (pair),A and LD A,(pair).
  unfoldable pub store_a : (Cpu → ℕ) → Instr M
  store_a pair = do addr ← look pair; value ← look (λ r. r.a); write8 bus addr value; pure 8

  unfoldable pub load_a : (Cpu → ℕ) → Instr M
  load_a pair = do
    addr ← look pair
    value ← read8_timed bus addr 4
    on_cpu (λ r. record r { a = value })
    pure 8

  -- An instruction on registers only.
  unfoldable pub plain : (Cpu → Cpu) → ℕ → Instr M
  plain g cycles = do on_cpu g; pure cycles

  unfoldable pub add_pair : (Cpu → ℕ) → Instr M
  add_pair pair = do value ← look pair; on_cpu (add_hl value); pure 8

  -- Conditional JR: the displacement is consumed first.
  unfoldable pub jump_relative : (Cpu → Bool) → Instr M
  jump_relative taken = do
    offset ← read8_imm bus
    test ← look taken
    if test then (do on_cpu (jr offset); pure 12) else pure 8

  unfoldable pub stop : Instr M
  stop = do
    padding ← read8_imm bus
    λ m. elim (bus.speed_switch m.rest) [
      | some rest' ↦ (4, record m { rest = rest' })
      | none ↦ (4, record m { cpu = halt m.cpu })
    ]

  unfoldable pub store_sp : Instr M
  store_sp = do
    addr ← read16_imm bus
    sp ← look (λ r. r.sp)
    write8 bus addr (u8 sp)
    write8 bus (u16 (addr + 1)) (u8 (sp >>> 8))
    pure 20

  -- LD (HL+),A, LD (HL-),A and the two loads.
  unfoldable pub store_a_step : (ℕ → ℕ) → Instr M
  store_a_step step = do
    addr ← look hl
    value ← look (λ r. r.a)
    write8 bus addr value
    on_cpu (set_hl (step addr))
    pure 8

  unfoldable pub load_a_step : (ℕ → ℕ) → Instr M
  load_a_step step = do
    addr ← look hl
    value ← read8_timed bus addr 4
    on_cpu (λ r. record r { a = value })
    on_cpu (set_hl (step addr))
    pure 8

  unfoldable pub step_at_hl : (ℕ → Cpu → ℕ × Cpu) → Instr M
  step_at_hl op = do
    addr ← look hl
    value ← read8 bus addr
    result ← through (op value)
    write8 bus addr result
    pure 12

  unfoldable pub store_imm : Instr M
  store_imm = do value ← read8_imm bus; addr ← look hl; write8 bus addr value; pure 12

  -- Opcode and instruction, arm by arm.
  unfoldable pub arms_00 : List (ℕ × Instr M)
  arms_00 =
      (0x00, pure 4)
      ∷ (0x01, load_imm16 set_bc)
      ∷ (0x02, store_a ld_bc)
      ∷ (0x03, inc_pair ld_bc set_bc)
      ∷ (0x04, inc_reg (λ r. r.b) put_b)
      ∷ (0x05, dec_reg (λ r. r.b) put_b)
      ∷ (0x06, load_imm put_b)
      ∷ (0x07, plain rlca 4)
      ∷ (0x0A, load_a ld_bc)
      ∷ (0x09, add_pair ld_bc)
      ∷ (0x0B, dec_pair ld_bc set_bc)
      ∷ (0x0C, inc_reg (λ r. r.c) put_c)
      ∷ (0x0D, dec_reg (λ r. r.c) put_c)
      ∷ (0x0E, load_imm put_c)
      ∷ (0x0F, plain rrca 4)
      ∷ (0x10, stop)
      ∷ []

  unfoldable pub arms_10 : List (ℕ × Instr M)
  arms_10 =
      (0x08, store_sp)
      ∷ (0x11, load_imm16 set_de)
      ∷ (0x12, store_a ld_de)
      ∷ (0x13, inc_pair ld_de set_de)
      ∷ (0x19, add_pair ld_de)
      ∷ (0x1A, load_a ld_de)
      ∷ (0x1B, dec_pair ld_de set_de)
      ∷ (0x14, inc_reg (λ r. r.d) put_d)
      ∷ (0x15, dec_reg (λ r. r.d) put_d)
      ∷ (0x16, load_imm put_d)
      ∷ (0x17, plain rla 4)
      ∷ (0x18, jump_relative (λ r. true))
      ∷ (0x1C, inc_reg (λ r. r.e) put_e)
      ∷ (0x1D, dec_reg (λ r. r.e) put_e)
      ∷ (0x1E, load_imm put_e)
      ∷ (0x1F, plain rra 4)
      ∷ []

  unfoldable pub arms_20 : List (ℕ × Instr M)
  arms_20 =
      (0x20, jump_relative (λ r. not (flag_z r.f)))
      ∷ (0x21, load_imm16 set_hl)
      ∷ (0x23, inc_pair hl set_hl)
      ∷ (0x22, store_a_step (λ addr. u16 (addr + 1)))
      ∷ (0x24, inc_reg (λ r. r.h) put_h)
      ∷ (0x25, dec_reg (λ r. r.h) put_h)
      ∷ (0x26, load_imm put_h)
      ∷ (0x27, plain daa 4)
      ∷ (0x28, jump_relative (λ r. flag_z r.f))
      ∷ (0x2A, load_a_step (λ addr. u16 (addr + 1)))
      ∷ (0x29, add_pair hl)
      ∷ (0x2B, dec_pair hl set_hl)
      ∷ (0x2C, inc_reg (λ r. r.l) put_l)
      ∷ (0x2D, dec_reg (λ r. r.l) put_l)
      ∷ (0x2E, load_imm put_l)
      ∷ (0x2F, plain cpl 4)
      ∷ []

  unfoldable pub arms_30 : List (ℕ × Instr M)
  arms_30 =
      (0x30, jump_relative (λ r. not (flag_c r.f)))
      ∷ (0x31, load_imm16 put_sp)
      ∷ (0x33, inc_pair (λ r. r.sp) put_sp)
      ∷ (0x32, store_a_step (λ addr. u16 (addr + 0xFFFF)))
      ∷ (0x39, add_pair (λ r. r.sp))
      ∷ (0x3A, load_a_step (λ addr. u16 (addr + 0xFFFF)))
      ∷ (0x3B, dec_pair (λ r. r.sp) put_sp)
      ∷ (0x34, step_at_hl inc8)
      ∷ (0x35, step_at_hl dec8)
      ∷ (0x36, store_imm)
      ∷ (0x37, plain scf 4)
      ∷ (0x38, jump_relative (λ r. flag_c r.f))
      ∷ (0x3C, inc_reg (λ r. r.a) put_a)
      ∷ (0x3D, dec_reg (λ r. r.a) put_a)
      ∷ (0x3E, load_imm put_a)
      ∷ (0x3F, plain ccf 4)
      ∷ []
