-- ===== src/Cpu/Step.antt =====
-- One step of the machine: interrupt service, HALT, fetch and execution, as `step_instruction` and
-- `step_instruction_fast` of lib.rs have them.
pub mod Service
pub mod Total
mod Tests
use kokura.Base.{
  ℕ, ◌+◌, ◌-◌, min, Bool, true, false, not, Option, some, none, St, u16, ltb, ◌==◌, if◌then◌else◌,
}
use kokura.Interrupt.{InterruptState, has_pending, pending_mask, highest_priority, acknowledge}
use kokura.Cpu.Regs.{Cpu}
use kokura.Cpu.Bus.{Bus, Machine, push16}
use kokura.Cpu.Exec.{Outcome, cycles, unsupported_opcode, invalid_state, execute_opcode}

-- What a step uses of the rest of the machine beside the bus: the interrupt controller, the record
-- of the handler entered, the trace of a blocked request, `pending_cpu_stall_cycles` with its reset,
-- and the clocks, on either path, which are given the cycles of the processor. The traces that a step
-- hands over are left out.
pub record System (M : Type 0) : Type 0 where
  pub bus : Bus M
  pub interrupt : M → InterruptState
  pub set_interrupt : InterruptState → M → M
  pub enter_handler : (mask vector : ℕ) → M → M
  pub note_blocked : (pending_mask : ℕ) → Cpu → M → M
  pub pending_cpu_stall_cycles : M → ℕ
  pub clear_stall : M → M
  pub advance_clocks : (cycles : ℕ) → Cpu → M → M
  pub advance_clocks_fast : (cycles : ℕ) → Cpu → M → M

unfoldable pub commit_ime_enable_delay : Cpu → Cpu
commit_ime_enable_delay r =
    if ltb 0 r.ime_enable_delay
    then (let r1 = record r { ime_enable_delay = r.ime_enable_delay - 1 } in
        if r1.ime_enable_delay == 0 then record r1 { ime = true } else r1)
    else r

-- `Result<(), CoreError>`, what the fast step returns.
pub data FastOutcome : Type 0 where
  completed : FastOutcome
  refused_opcode : ℕ → ℕ → FastOutcome
  refused_state : FastOutcome

abbrev without_cycles : Outcome → FastOutcome
without_cycles (cycles n) = completed
without_cycles (unsupported_opcode op pc) = refused_opcode op pc
without_cycles invalid_state = refused_state

-- `u32::saturating_add`.
abbrev pub saturating_add32 : ℕ → ℕ → ℕ
saturating_add32 a b = min (a + b) 0xFFFFFFFF

-- `self.cpu.halted = false`.
abbrev pub wake : Cpu → Cpu
wake r = record r { halted = false }

module _ {M : Type 0} (sys : System M) where
  -- The cycles of the step, with the stalls taken, and the machine.
  unfoldable pub finish_step : ℕ → St (Machine M) ℕ
  finish_step n m =
      let total = saturating_add32 n (sys.pending_cpu_stall_cycles m.rest) in
      (
        total,
        record {
          cpu = commit_ime_enable_delay m.cpu;
          rest = sys.advance_clocks total m.cpu (sys.clear_stall m.rest);
        },
      )

  unfoldable pub finish_step_fast : ℕ → Machine M → Machine M
  finish_step_fast n m =
      let total = saturating_add32 n (sys.pending_cpu_stall_cycles m.rest) in
      record {
        cpu = commit_ime_enable_delay m.cpu;
        rest = sys.advance_clocks_fast total m.cpu (sys.clear_stall m.rest);
      }

  -- `true` for `Ok`, `false` for the error without a pending source.
  unfoldable pub service_interrupt : St (Machine M) Bool
  service_interrupt m = elim (highest_priority (sys.interrupt m.rest)) [
    | some source ↦
        let m1 : Machine M = record {
          cpu = record m.cpu { ime = false };
          rest = sys.set_interrupt (acknowledge source.0 (sys.interrupt m.rest)) m.rest;
        } in
        let m2 = (push16 sys.bus m.cpu.pc m1).1 in
        (
          true,
          record {
            cpu = record m2.cpu { pc = source.1 };
            rest = sys.enter_handler source.0 source.1 m2.rest;
          },
        )
    | none ↦ (false, m)
  ]

  -- The opcode at PC, which the HALT bug reads without moving PC.
  unfoldable pub fetch : St (Machine M) ℕ
  fetch m =
      let out = sys.bus.read8 m.cpu.pc m.rest in
      (
        out.0,
        record {
          cpu =
              if m.cpu.halt_bug
              then record m.cpu { halt_bug = false }
              else record m.cpu { pc = u16 (m.cpu.pc + 1) };
          rest = out.1;
        },
      )

  -- The end of both steps, from the test of `halted`, with the `finish` of the path.
  unfoldable pub run_instruction : (ℕ → St (Machine M) ℕ) → St (Machine M) Outcome
  run_instruction finish m =
      if m.cpu.halted
      then (let end = finish 4 m in (cycles end.0, end.1))
      else (let opcode = fetch m in
          let out = execute_opcode sys.bus opcode.0 opcode.1 in
          elim out.0 [
            | cycles n ↦ (let end = finish n out.1 in (cycles end.0, end.1))
            | unsupported_opcode op pc ↦ (unsupported_opcode op pc, out.1)
            | invalid_state ↦ (invalid_state, out.1)
          ])

  -- `self.service_interrupt()?` with the step's end.
  unfoldable pub serve : (ℕ → St (Machine M) ℕ) → St (Machine M) Outcome
  serve finish m =
      let out = service_interrupt m in
      let end = finish 20 out.1 in if out.0 then (cycles end.0, end.1) else (invalid_state, out.1)

  unfoldable pub step_instruction : St (Machine M) Outcome
  step_instruction m =
      if has_pending (sys.interrupt m.rest)
      then (let noted =
            (if not m.cpu.ime
              then record m {
                rest = sys.note_blocked (pending_mask (sys.interrupt m.rest)) m.cpu m.rest;
              }
              else m) in
          let m1 : Machine M = record { cpu = wake noted.cpu; rest = noted.rest } in
          if m1.cpu.ime then serve finish_step m1 else run_instruction finish_step m1)
      else run_instruction finish_step m

  -- The end of the fast step for `serve` and `run_instruction`, whose cycles are dropped.
  abbrev end_fast : ℕ → St (Machine M) ℕ
  end_fast n m = (n, finish_step_fast n m)

  unfoldable pub step_instruction_fast : St (Machine M) FastOutcome
  step_instruction_fast m =
      let out =
        (if has_pending (sys.interrupt m.rest)
          then (let m1 : Machine M = record { cpu = wake m.cpu; rest = m.rest } in
              if m1.cpu.ime then serve end_fast m1 else run_instruction end_fast m1)
          else run_instruction end_fast m) in
      (without_cycles out.0, out.1)
