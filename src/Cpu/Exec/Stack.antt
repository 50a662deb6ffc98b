-- ===== src/Cpu/Exec/Stack.antt =====
-- The stack, and CALL with its RET, over memory that keeps what is written to it.
use kokura.Base.{ℕ, ◌+◌, ◌<◌, ◌≡◌, ◌≢◌, refl, ◌∙◌, arith, u8, u16, ◌>>>◌, bit_or_join}
use kokura.Cpu.Bus.{Bus, Machine, read16_imm, push16, pop16}
use kokura.Cpu.Exec.High.{call, ret, put_pc}
use kokura.Cpu.Exec.{cycles, execute_opcode, decode}

-- At the addresses of `P` the bus is memory: a read gives the last write to the address, and reads
-- disturb nothing.
pub record IsMemoryAt {M : Type 0} (bus : Bus M) (P : ℕ → Type 0) : Type 0 where
  pub read_written : (a v : ℕ) (m : M) → P a → (bus.read8 a (bus.write8 a v m)).0 ≡ v
  pub read_other :
      (a b v : ℕ) (m : M) → P a → a ≢ b → (bus.read8 a (bus.write8 b v m)).0 ≡ (bus.read8 a m).0
  pub read_read : (a b : ℕ) (m : M) → P a → (bus.read8 a (bus.read8 b m).1).0 ≡ (bus.read8 a m).0

module _ {M : Type 0} (bus : Bus M) {P : ℕ → Type 0} (memory : IsMemoryAt bus P) where
  -- The jump between PUSH and POP does not matter to the stack.
  pop_back :
      (value q : ℕ) (m : Machine M)
      → value < 65536
      → m.cpu.sp < 65536
      → P (u16 (m.cpu.sp + 0xFFFF))
      → P (u16 (m.cpu.sp + 0xFFFE))
      → let pushed = (push16 bus value m).1 in
        let popped =
          pop16 bus (record { cpu = record pushed.cpu { pc = q }; rest = pushed.rest }) in
        (popped.0 ≡ value) × (popped.1.cpu ≡ record m.cpu { pc = q })
  unfolding pop16 push16
  pop_back value q m h hs p1 p2 =
      let sp1 = u16 (m.cpu.sp + 0xFFFF) in
      let sp2 = u16 (sp1 + 0xFFFF) in
      let e2 : sp2 ≡ u16 (m.cpu.sp + 0xFFFE) = omega arith in
      let back1 : u16 (sp2 + 1) ≡ sp1 = omega arith in
      let back : u16 (sp1 + 1) ≡ m.cpu.sp = omega arith in
      let apart : sp1 ≢ sp2 = λ q. omega arith in
      let rest = m.rest in
      let hi = u8 (value >>> 8) in
      let lo = u8 value in
      let rest1 = bus.write8 sp1 hi rest in
      let rest2 = bus.write8 sp2 lo rest1 in
      let low : (bus.read8 sp2 rest2).0 ≡ lo = memory.read_written sp2 lo rest1 (rw e2 p2) in
      let high : (bus.read8 sp1 (bus.read8 sp2 rest2).1).0 ≡ hi =
        memory.read_read sp1 sp2 rest2 p1
        ∙ memory.read_other sp1 sp2 lo rest1 p1 apart
        ∙ memory.read_written sp1 hi rest p1 in
      let join = bit_or_join 8 hi lo (omega arith) in
      (rw (back1, low, high) (omega (arith, join)), rw (back1, back) refl)

  -- POP gives back the word that PUSH stored, and SP with every other register is as before, where
  -- the two bytes below SP, modulo 65536, are memory.
  pub pop16-push16 :
      (value : ℕ) (m : Machine M)
      → value < 65536
      → m.cpu.sp < 65536
      → P (u16 (m.cpu.sp + 0xFFFF))
      → P (u16 (m.cpu.sp + 0xFFFE))
      → ((pop16 bus (push16 bus value m).1).0 ≡ value)
        × ((pop16 bus (push16 bus value m).1).1.cpu ≡ m.cpu)
  unfolding push16
  pop16-push16 value m h hs p1 p2 = pop_back value m.cpu.pc m h hs p1 p2

  ret-call :
      (m : Machine M)
      → m.cpu.sp < 65536
      → P (u16 (m.cpu.sp + 0xFFFF))
      → P (u16 (m.cpu.sp + 0xFFFE))
      → (ret bus (call bus m).1).1.cpu ≡ record m.cpu { pc = u16 (u16 (m.cpu.pc + 1) + 1) }
  unfolding call ret read16_imm put_pc
  ret-call m hs p1 p2 =
      let m1 = (read16_imm bus m).1 in
      let k = pop_back m1.cpu.pc (read16_imm bus m).0 m1 (omega arith) hs p1 p2 in
      rw (k.0, k.1) refl

  -- CALL jumps to its operand in 24 cycles, and a RET run next comes back behind the CALL in 16
  -- cycles with SP, and every register but PC, as before, where the two bytes below SP, modulo
  -- 65536, are memory that keeps what is written to it.
  pub execute_opcode-returns :
      (m : Machine M)
      → m.cpu.sp < 65536
      → P (u16 (m.cpu.sp + 0xFFFF))
      → P (u16 (m.cpu.sp + 0xFFFE))
      → let called = execute_opcode bus 0xCD m in
        let returned = execute_opcode bus 0xC9 called.1 in
        (called.0 ≡ cycles 24)
        × (called.1.cpu.pc ≡ (read16_imm bus m).0)
        × (returned.0 ≡ cycles 16)
        × (returned.1.cpu ≡ record m.cpu { pc = u16 (u16 (m.cpu.pc + 1) + 1) })
  unfolding execute_opcode decode call ret put_pc
  execute_opcode-returns m hs p1 p2 = (refl, refl, refl, ret-call m hs p1 p2)
