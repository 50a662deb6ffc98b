-- ===== src/Cpu/Exec/High.antt =====
-- The arm 76 and the arms C0 to FF of `execute_opcode` in lib.rs, in the order of the source.
use kokura.Base.{ℕ, bit_and, bit_or, Bool, true, false, not, ◌&&◌, List, [], ◌∷◌}
use kokura.Base.{u8, ◌<<<◌, ◌>>>◌, if◌then◌else◌, ◌>>=◌, ◌>>◌, pure}
use kokura.Cpu.Regs.{Cpu, flag_z, flag_c, hl, set_hl, ld_bc, set_bc, ld_de, set_de}
use kokura.Cpu.Alu.{
  add_a, sub_a, adc_a, sbc_a, and_a, or_a, xor_a, cp_a, add_signed_to_sp_like_flags,
}
use kokura.Cpu.Bus.{
  Bus, on_cpu, through, look, read8_timed, write8, read8_imm, read16_imm, push16, pop16,
}
use kokura.Cpu.Exec.Cb.{execute_cb_opcode}
use kokura.Cpu.Exec.Low.{Instr, halt, put_a, put_sp}

-- POP AF drops the low nibble of the flags, and PUSH AF masks it.
unfoldable pub set_af : ℕ → Cpu → Cpu
set_af value r = record r { a = u8 (value >>> 8); f = bit_and (u8 value) 0xF0 }

unfoldable pub ld_af : Cpu → ℕ
ld_af r = bit_or (r.a <<< 8) (bit_and r.f 0xF0)

unfoldable pub put_pc : ℕ → Cpu → Cpu
put_pc v r = record r { pc = v }

unfoldable pub halt_bug : Cpu → Cpu
halt_bug r = record r { halt_bug = true; halted = false }

unfoldable pub enable_ime : Cpu → Cpu
enable_ime r = record r { ime = true }

unfoldable pub di : Cpu → Cpu
di r = record r { ime = false; ime_enable_delay = 0 }

unfoldable pub ei : Cpu → Cpu
ei r = record r { ime_enable_delay = 2 }

module _ {M : Type 0} (bus : Bus M) where
  unfoldable pub halt_arm : Instr M
  halt_arm m =
      if not m.cpu.ime && bus.has_pending m.rest
      then (4, record m { cpu = halt_bug m.cpu })
      else (4, record m { cpu = halt m.cpu })

  unfoldable pub cb_prefix : Instr M
  cb_prefix = do op ← read8_imm bus; execute_cb_opcode bus op

  unfoldable pub ret_if : (Cpu → Bool) → Instr M
  ret_if taken = do
    test ← look taken
    if test then (do pc ← pop16 bus; on_cpu (put_pc pc); pure 20) else pure 8

  unfoldable pub pop_pair : (ℕ → Cpu → Cpu) → Instr M
  pop_pair put = do value ← pop16 bus; on_cpu (put value); pure 12

  unfoldable pub push_pair : (Cpu → ℕ) → Instr M
  push_pair get = do value ← look get; push16 bus value; pure 16

  unfoldable pub jump_if : (Cpu → Bool) → Instr M
  jump_if taken = do
    addr ← read16_imm bus
    test ← look taken
    if test then (do on_cpu (put_pc addr); pure 16) else pure 12

  unfoldable pub jump : Instr M
  jump = do addr ← read16_imm bus; on_cpu (put_pc addr); pure 16

  unfoldable pub call : Instr M
  call = do
    addr ← read16_imm bus
    pc ← look (λ r. r.pc)
    push16 bus pc
    on_cpu (put_pc addr)
    pure 24

  unfoldable pub call_if : (Cpu → Bool) → Instr M
  call_if taken = do
    addr ← read16_imm bus
    test ← look taken
    if test
        then (do pc ← look (λ r. r.pc); push16 bus pc; on_cpu (put_pc addr); pure 24)
        else pure 12

  unfoldable pub rst : ℕ → Instr M
  rst vector = do pc ← look (λ r. r.pc); push16 bus pc; on_cpu (put_pc vector); pure 16

  unfoldable pub ret : Instr M
  ret = do pc ← pop16 bus; on_cpu (put_pc pc); pure 16

  unfoldable pub reti : Instr M
  reti = do
    pc ← pop16 bus
    on_cpu (put_pc pc)
    on_cpu enable_ime
    λ m. (16, record m { rest = bus.leave_handler m.rest })

  unfoldable pub alu_imm : (ℕ → Cpu → Cpu) → Instr M
  alu_imm op = do v ← read8_imm bus; on_cpu (op v); pure 8

  unfoldable pub store_high : Instr M
  store_high = do
    offset ← read8_imm bus
    value ← look (λ r. r.a)
    write8 bus (bit_or 0xFF00 offset) value
    pure 12

  unfoldable pub store_high_c : Instr M
  store_high_c = do
    offset ← look (λ r. r.c)
    value ← look (λ r. r.a)
    write8 bus (bit_or 0xFF00 offset) value
    pure 8

  unfoldable pub store_abs : Instr M
  store_abs = do addr ← read16_imm bus; value ← look (λ r. r.a); write8 bus addr value; pure 16

  unfoldable pub load_high : Instr M
  load_high = do
    offset ← read8_imm bus
    value ← read8_timed bus (bit_or 0xFF00 offset) 8
    on_cpu (put_a value)
    pure 12

  unfoldable pub load_high_c : Instr M
  load_high_c = do
    offset ← look (λ r. r.c)
    value ← read8_timed bus (bit_or 0xFF00 offset) 4
    on_cpu (put_a value)
    pure 8

  unfoldable pub load_abs : Instr M
  load_abs = do
    addr ← read16_imm bus
    value ← read8_timed bus addr 12
    on_cpu (put_a value)
    pure 16

  unfoldable pub jump_hl : Instr M
  jump_hl = do addr ← look hl; on_cpu (put_pc addr); pure 4

  -- ADD SP,r8 and LD HL,SP+r8.
  unfoldable pub sp_offset : (ℕ → Cpu → Cpu) → ℕ → Instr M
  sp_offset put cycles = do
    offset ← read8_imm bus
    sp ← look (λ r. r.sp)
    result ← through (add_signed_to_sp_like_flags sp offset)
    on_cpu (put result)
    pure cycles

  unfoldable pub load_sp_hl : Instr M
  load_sp_hl = do value ← look hl; on_cpu (put_sp value); pure 8

  unfoldable pub done : (Cpu → Cpu) → Instr M
  done g = do on_cpu g; pure 4

  -- Opcode and instruction, arm by arm.
  unfoldable pub arms_c0 : List (ℕ × Instr M)
  arms_c0 =
      (0xCB, cb_prefix)
      ∷ (0xC0, ret_if (λ r. not (flag_z r.f)))
      ∷ (0xC1, pop_pair set_bc)
      ∷ (0xC2, jump_if (λ r. not (flag_z r.f)))
      ∷ (0xC3, jump)
      ∷ (0xC4, call_if (λ r. not (flag_z r.f)))
      ∷ (0xC5, push_pair ld_bc)
      ∷ (0xC7, rst 0x00)
      ∷ (0xC8, ret_if (λ r. flag_z r.f))
      ∷ (0xC9, ret)
      ∷ (0xCA, jump_if (λ r. flag_z r.f))
      ∷ (0xCC, call_if (λ r. flag_z r.f))
      ∷ (0xC6, alu_imm add_a)
      ∷ (0xCD, call)
      ∷ (0xCF, rst 0x08)
      ∷ []

  unfoldable pub arms_d0 : List (ℕ × Instr M)
  arms_d0 =
      (0xD0, ret_if (λ r. not (flag_c r.f)))
      ∷ (0xD1, pop_pair set_de)
      ∷ (0xD2, jump_if (λ r. not (flag_c r.f)))
      ∷ (0xD4, call_if (λ r. not (flag_c r.f)))
      ∷ (0xD5, push_pair ld_de)
      ∷ (0xD6, alu_imm sub_a)
      ∷ (0xD7, rst 0x10)
      ∷ (0xDF, rst 0x18)
      ∷ (0xD8, ret_if (λ r. flag_c r.f))
      ∷ (0xDA, jump_if (λ r. flag_c r.f))
      ∷ (0xCE, alu_imm adc_a)
      ∷ (0xDC, call_if (λ r. flag_c r.f))
      ∷ (0xDE, alu_imm sbc_a)
      ∷ (0xD9, reti)
      ∷ []

  unfoldable pub arms_e0 : List (ℕ × Instr M)
  arms_e0 =
      (0xE0, store_high)
      ∷ (0xE1, pop_pair set_hl)
      ∷ (0xE2, store_high_c)
      ∷ (0xE5, push_pair hl)
      ∷ (0xEA, store_abs)
      ∷ (0xE6, alu_imm and_a)
      ∷ (0xF0, load_high)
      ∷ (0xF2, load_high_c)
      ∷ (0xE7, rst 0x20)
      ∷ (0xE9, jump_hl)
      ∷ (0xEE, alu_imm xor_a)
      ∷ (0xEF, rst 0x28)
      ∷ []

  unfoldable pub arms_f0 : List (ℕ × Instr M)
  arms_f0 =
      (0xF1, pop_pair set_af)
      ∷ (0xF3, done di)
      ∷ (0xE8, sp_offset put_sp 16)
      ∷ (0xF4, call_if (λ r. not (flag_c r.f)))
      ∷ (0xF6, alu_imm or_a)
      ∷ (0xF8, sp_offset set_hl 12)
      ∷ (0xF9, load_sp_hl)
      ∷ (0xFA, load_abs)
      ∷ (0xF5, push_pair ld_af)
      ∷ (0xF7, rst 0x30)
      ∷ (0xFB, done ei)
      ∷ (0xFF, rst 0x38)
      ∷ (0xFE, alu_imm cp_a)
      ∷ []
