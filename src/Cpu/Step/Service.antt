-- ===== src/Cpu/Step/Service.antt =====
-- Interrupt service: what it saves, where it goes, and the RETI that comes back.
use kokura.Base.{
  ℕ, ◌+◌, ◌*◌, ◌<◌, true, false, ◌≡◌, refl, ap, ◌∙◌, arith, some, u8, u16, ◌>>>◌, bit_or_join, ◌==◌,
}
use kokura.Interrupt.{InterruptState, has_pending, highest_priority, acknowledge}
use kokura.Interrupt.Priority.{found, has_pending-highest_priority}
use kokura.Cpu.Regs.{Cpu}
use kokura.Cpu.Bus.{Machine, push16, pop16}
use kokura.Cpu.Exec.{cycles, execute_opcode, decode}
use kokura.Cpu.Exec.High.{reti, put_pc, enable_ime}
use kokura.Cpu.Exec.Stack.{IsMemoryAt}
use kokura.Cpu.Step.{
  System, saturating_add32, wake, commit_ime_enable_delay, service_interrupt, finish_step, serve,
  step_instruction,
}

-- The interrupt controller is a register of its own: writes to the memory of `P` and the record of
-- the handler leave it alone, and the record of the handler leaves the memory alone.
pub record IsSystem {M : Type 0} (sys : System M) (P : ℕ → Type 0) : Type 0 where
  pub memory : IsMemoryAt sys.bus P
  pub interrupt_set : (s : InterruptState) (m : M) → sys.interrupt (sys.set_interrupt s m) ≡ s
  pub interrupt_written :
      (a v : ℕ) (m : M) → P a → sys.interrupt (sys.bus.write8 a v m) ≡ sys.interrupt m
  pub interrupt_entered :
      (k v : ℕ) (m : M) → sys.interrupt (sys.enter_handler k v m) ≡ sys.interrupt m
  pub read_entered :
      (a k v : ℕ) (m : M)
      → P a
      → (sys.bus.read8 a (sys.enter_handler k v m)).0 ≡ (sys.bus.read8 a m).0

module _ {M : Type 0} (sys : System M) {P : ℕ → Type 0} (laws : IsSystem sys P) where
  -- RETI at the end of the handler.
  reti_back :
      (hi lo k v sp1 sp2 : ℕ) (r : Cpu) (rest : M)
      → hi < 256
      → lo < 256
      → sp1 < 65536
      → P sp1
      → P sp2
      → sp2 ≡ u16 (sp1 + 0xFFFF)
      → let rest2 = sys.bus.write8 sp2 lo (sys.bus.write8 sp1 hi rest) in
        let popped =
          pop16 sys.bus
            (record { cpu = record r { sp = sp2 }; rest = sys.enter_handler k v rest2 }) in
        (popped.0 ≡ hi * 256 + lo) × (popped.1.cpu ≡ record r { sp = u16 (sp1 + 1) })
  unfolding pop16
  reti_back hi lo k v sp1 sp2 r rest hh hl h1 p1 p2 e =
      let mem = laws.memory in
      let rest1 = sys.bus.write8 sp1 hi rest in
      let rest2 = sys.bus.write8 sp2 lo rest1 in
      let next : u16 (sp2 + 1) ≡ sp1 = omega arith in
      let low : (sys.bus.read8 sp2 (sys.enter_handler k v rest2)).0 ≡ lo =
        laws.read_entered sp2 k v rest2 p2 ∙ mem.read_written sp2 lo rest1 p2 in
      let high : (sys.bus.read8 sp1 (sys.bus.read8 sp2 (sys.enter_handler k v rest2)).1).0 ≡ hi =
        mem.read_read sp1 sp2 (sys.enter_handler k v rest2) p1
        ∙ laws.read_entered sp1 k v rest2 p1
        ∙ mem.read_other sp1 sp2 lo rest1 p1 (λ q. omega arith)
        ∙ mem.read_written sp1 hi rest p1 in
      (rw (next, low, high) (omega (arith, bit_or_join 8 hi lo hl)), rw next refl)

  -- The machine in the handler.
  abbrev entered : ℕ → ℕ → Machine M → Machine M
  entered mask vector m =
      let sp1 = u16 (m.cpu.sp + 0xFFFF) in
      let sp2 = u16 (sp1 + 0xFFFF) in
      let rest = sys.set_interrupt (acknowledge mask (sys.interrupt m.rest)) m.rest in
      record {
        cpu = record m.cpu { ime = false; sp = sp2; pc = vector };
        rest =
            sys.enter_handler mask vector
              (sys.bus.write8 sp2 (u8 m.cpu.pc) (sys.bus.write8 sp1 (u8 (m.cpu.pc >>> 8)) rest));
      }

  pub service_interrupt-entered :
      (mask vector : ℕ) (m : Machine M)
      → highest_priority (sys.interrupt m.rest) ≡ some (mask, vector)
      → service_interrupt sys m ≡ (true, entered mask vector m)
  unfolding service_interrupt push16
  service_interrupt-entered mask vector m e = rw (e, service_interrupt) refl

  -- Servicing a pending source disables IME, takes its request away and enters its vector; the
  -- RETI that ends the handler comes back in 16 cycles to the instruction that was interrupted
  -- with IME on and every other register as before, where the two bytes below SP, modulo 65536,
  -- are memory and the interrupt controller is apart from them.
  pub service_interrupt-returns :
      (mask vector : ℕ) (m : Machine M)
      → highest_priority (sys.interrupt m.rest) ≡ some (mask, vector)
      → m.cpu.sp < 65536
      → m.cpu.pc < 65536
      → P (u16 (m.cpu.sp + 0xFFFF))
      → P (u16 (m.cpu.sp + 0xFFFE))
      → let served = service_interrupt sys m in
        let returned = execute_opcode sys.bus 0xD9 served.1 in
        (served.0 ≡ true)
        × (served.1.cpu.pc ≡ vector)
        × (served.1.cpu.ime ≡ false)
        × (sys.interrupt served.1.rest ≡ acknowledge mask (sys.interrupt m.rest))
        × (returned.0 ≡ cycles 16)
        × (returned.1.cpu ≡ record m.cpu { ime = true })
  unfolding execute_opcode decode reti put_pc enable_ime
  service_interrupt-returns mask vector m e hs hp p1 p2 =
      let sp1 = u16 (m.cpu.sp + 0xFFFF) in
      let sp2 = u16 (sp1 + 0xFFFF) in
      let e2 : sp2 ≡ u16 (m.cpu.sp + 0xFFFE) = omega arith in
      let back : u16 (sp1 + 1) ≡ m.cpu.sp = omega arith in
      let p2' : P sp2 = rw e2 p2 in
      let hi = u8 (m.cpu.pc >>> 8) in
      let lo = u8 m.cpu.pc in
      let rest = sys.set_interrupt (acknowledge mask (sys.interrupt m.rest)) m.rest in
      let rest1 = sys.bus.write8 sp1 hi rest in
      let rest2 = sys.bus.write8 sp2 lo rest1 in
      let k =
        reti_back hi lo mask vector sp1 sp2 (record m.cpu { ime = false; pc = vector }) rest
          (omega arith) (omega arith) (omega arith) p1 p2' refl in
      let state =
        laws.interrupt_entered mask vector rest2
        ∙ laws.interrupt_written sp2 lo rest1 p2'
        ∙ laws.interrupt_written sp1 hi rest p1
        ∙ laws.interrupt_set (acknowledge mask (sys.interrupt m.rest)) m.rest in
      let whole : hi * 256 + lo ≡ m.cpu.pc = omega arith in
      rw (service_interrupt-entered mask vector m e)
        (refl, refl, refl, state, refl, rw (k.0, k.1, whole, back) refl)

  pending-has_pending :
      (mask vector : ℕ) (m : Machine M)
      → highest_priority (sys.interrupt m.rest) ≡ some (mask, vector)
      → has_pending (sys.interrupt m.rest) ≡ true
  pending-has_pending mask vector m e =
      has_pending-highest_priority (sys.interrupt m.rest) ∙ ap found e

  commit_parts :
      (r : Cpu)
      → r.ime ≡ false
      → let r' = commit_ime_enable_delay r in
        (r'.pc ≡ r.pc)
        × (r'.halted ≡ r.halted)
        × (r'.sp ≡ r.sp)
        × (r'.ime ≡ (r.ime_enable_delay == 1))
  unfolding commit_ime_enable_delay
  commit_parts r h = ground arith

  step_serves :
      (mask vector : ℕ) (m : Machine M)
      → highest_priority (sys.interrupt m.rest) ≡ some (mask, vector)
      → m.cpu.ime ≡ true
      → let end =
          finish_step sys 20 (entered mask vector (record { cpu = wake m.cpu; rest = m.rest })) in
        step_instruction sys m ≡ (cycles end.0, end.1)
  unfolding step_instruction serve
  step_serves mask vector m e i =
      let woken : Machine M = record {
        cpu = record m.cpu { ime = true; halted = false };
        rest = m.rest;
      } in
      let s = service_interrupt-entered mask vector woken e in
      rw (pending-has_pending mask vector m e, step_instruction, i, s) refl

  -- A step with IME on and a source pending serves it in 20 cycles and the stalls pending after
  -- the service, saturated at 32 bits, and leaves the processor awake at its vector with SP two
  -- lower and the clocks advanced by those cycles. IME is then on exactly where an EI one step
  -- before left its delay at 1: service does not cancel the delay.
  pub step_instruction-serves :
      (mask vector : ℕ) (m : Machine M)
      → highest_priority (sys.interrupt m.rest) ≡ some (mask, vector)
      → m.cpu.ime ≡ true
      → let out = step_instruction sys m in
        let served = (service_interrupt sys (record { cpu = wake m.cpu; rest = m.rest })).1 in
        let total = saturating_add32 20 (sys.pending_cpu_stall_cycles served.rest) in
        (out.0 ≡ cycles total)
        × (out.1.rest ≡ sys.advance_clocks total served.cpu (sys.clear_stall served.rest))
        × (out.1.cpu.pc ≡ vector)
        × (out.1.cpu.halted ≡ false)
        × (out.1.cpu.sp ≡ u16 (m.cpu.sp + 0xFFFE))
        × (out.1.cpu.ime ≡ (m.cpu.ime_enable_delay == 1))
  unfolding finish_step
  step_instruction-serves mask vector m e i =
      let k =
        commit_parts (entered mask vector (record { cpu = wake m.cpu; rest = m.rest })).cpu refl in
      rw
        (
          step_serves mask vector m e i,
          service_interrupt-entered mask vector (record { cpu = wake m.cpu; rest = m.rest }) e,
        )
        (refl, refl, k.0, k.1, k.2 ∙ omega arith, k.3)
