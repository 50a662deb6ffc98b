-- ===== src/Cpu/Step/Total.antt =====
-- What a step keeps, whatever happens in it.
use kokura.Base.{
  ℕ, ◌+◌, ◌<◌, Bool, true, false, not, ◌≡◌, refl, sym, ap, ◌∙◌, arith, some, u16, if◌then◌else◌,
  Bool-cases, inl, inr, Option-cases,
}
use kokura.Interrupt.{InterruptState, has_pending, pending_mask, highest_priority, acknowledge}
use kokura.Interrupt.Priority.{found, has_pending-highest_priority, highest_priority-lt}
use kokura.Cpu.Regs.{Cpu}
use kokura.Cpu.Valid.{IsValid, with_pc}
use kokura.Cpu.Bus.{Machine}
use kokura.Cpu.Exec.{Outcome, cycles, unsupported_opcode, invalid_state, execute_opcode}
use kokura.Cpu.Exec.Keep.{BusLaws, IsGood, IsDuration, push16-Gives}
use kokura.Cpu.Exec.Table.{undefined, contains, execute_opcode-undefined}
use kokura.Cpu.Exec.Safe.{execute_opcode-IsGood}
use kokura.Cpu.Step.{
  System, saturating_add32, wake, commit_ime_enable_delay, finish_step, service_interrupt, fetch,
  run_instruction, serve, step_instruction,
}

-- What the bus keeps is kept by the interrupt controller, the records and the clocks too; the
-- vectors are those of the interrupt controller.
pub record SystemLaws {M : Type 0} (sys : System M) : Type 1 where
  pub bus_laws : BusLaws sys.bus
  pub set_holds :
      (s : InterruptState) (m : M) → bus_laws.Holds m → bus_laws.Holds (sys.set_interrupt s m)
  pub enter_holds : (k v : ℕ) (m : M) → bus_laws.Holds m → bus_laws.Holds (sys.enter_handler k v m)
  pub note_holds :
      (p : ℕ) (r : Cpu) (m : M) → bus_laws.Holds m → bus_laws.Holds (sys.note_blocked p r m)
  pub interrupt_noted :
      (p : ℕ) (r : Cpu) (m : M) → sys.interrupt (sys.note_blocked p r m) ≡ sys.interrupt m
  pub stall_holds : (m : M) → bus_laws.Holds m → bus_laws.Holds (sys.clear_stall m)
  pub clocks_hold :
      (n : ℕ) (r : Cpu) (m : M) → bus_laws.Holds m → bus_laws.Holds (sys.advance_clocks n r m)

-- What an instruction may return: a duration, or the error of an undefined opcode.
abbrev pub IsOutcome : Outcome → Type 0
IsOutcome (cycles n) = IsDuration n
IsOutcome (unsupported_opcode op pc) = contains undefined op ≡ true
IsOutcome invalid_state = ⊥

-- The work of a step that serves nothing: HALT does nothing, and an instruction is fetched and executed.
abbrev pub worked : {M : Type 0} → System M → Machine M → Machine M
worked sys m =
    if m.cpu.halted then m else (execute_opcode sys.bus (fetch sys m).0 (fetch sys m).1).1

-- A pending source wakes the processor; with IME off it is noted as blocked.
abbrev pub woken : {M : Type 0} → System M → Machine M → Machine M
woken {M} sys m =
    let noted : Machine M =
      (if not m.cpu.ime
        then record m { rest = sys.note_blocked (pending_mask (sys.interrupt m.rest)) m.cpu m.rest }
        else m) in
    record { cpu = wake noted.cpu; rest = noted.rest }

-- Where the work of a step ends: a pending source is served with IME on.
abbrev pub reached : {M : Type 0} → System M → Machine M → Machine M
reached sys m =
    if has_pending (sys.interrupt m.rest)
    then if (woken sys m).cpu.ime
      then (service_interrupt sys (woken sys m)).1
      else worked sys (woken sys m)
    else worked sys m

-- The end of some cycles of work that leave the machine `before`, at the step's end `m'`: the
-- cycles returned are those and the stalls pending then, and the clocks advance by all of them.
pub record IsEnd {M : Type 0} (sys : System M) (before : Machine M) (total : ℕ) (m' : Machine M)
    : Type 0 where
  pub work : ℕ
  pub duration : IsDuration work
  pub stalled : total ≡ saturating_add32 work (sys.pending_cpu_stall_cycles before.rest)
  pub advanced : m'.rest ≡ sys.advance_clocks total before.cpu (sys.clear_stall before.rest)
  pub committed : m'.cpu ≡ commit_ime_enable_delay before.cpu

-- What a step may return after the work that ends at `before`, with the machine that it leaves.
abbrev pub IsStep : {M : Type 0} → System M → Machine M → Outcome → Machine M → Type 0
IsStep sys before (cycles n) m' = IsEnd sys before n m'
IsStep sys before (unsupported_opcode op pc) m' = contains undefined op ≡ true
IsStep sys before invalid_state m' = ⊥

commit-IsValid : (r : Cpu) → IsValid r → IsValid (commit_ime_enable_delay r)
unfolding commit_ime_enable_delay
commit-IsValid r v = ground arith

awake : (r : Cpu) → IsValid r → IsValid (wake r)
awake r v = ground arith

module _ {M : Type 0} (sys : System M) (laws : SystemLaws sys) where
  abbrev Good : Machine M → Type 0
  Good = IsGood laws.bus_laws

  abbrev Ended : Machine M → Outcome × Machine M → Type 0
  Ended before out = IsStep sys before out.0 out.1 × Good out.1

  finish_step-Ended :
      (n : ℕ) (m : Machine M)
      → IsDuration n
      → Good m
      → Ended m (let end = finish_step sys n m in (cycles end.0, end.1))
  unfolding finish_step
  finish_step-Ended n m d g = (
    record { work = n; duration = d; stalled = refl; advanced = refl; committed = refl },
    record {
      regs = commit-IsValid m.cpu g.regs;
      holds = laws.clocks_hold _ m.cpu _ (laws.stall_holds m.rest g.holds);
    },
  )

  fetch-Good : (m : Machine M) → Good m → ((fetch sys m).0 < 256) × Good (fetch sys m).1
  unfolding fetch
  fetch-Good m g = (
    laws.bus_laws.read8_byte m.cpu.pc m.rest g.holds,
    record {
      regs = moved m.cpu.halt_bug;
      holds = laws.bus_laws.read8_holds m.cpu.pc m.rest g.holds;
    },
  )
    where
      moved :
          (b : Bool)
          → IsValid (
              if b
              then record m.cpu { halt_bug = false }
              else record m.cpu { pc = u16 (m.cpu.pc + 1) })
      moved true = ground arith
      moved false = with_pc (u16 (m.cpu.pc + 1)) m.cpu g.regs (omega arith)

  abbrev Fine : Outcome × Machine M → Type 0
  Fine out = IsOutcome out.0 × Good out.1

  either :
      (b : Bool) (m1 m2 : Machine M) (x y : Outcome × Machine M)
      → Ended m1 x
      → Ended m2 y
      → Ended (if b then m1 else m2) (if b then x else y)
  either true m1 m2 x y h k = h
  either false m1 m2 x y h k = k

  execute-Fine :
      (opcode : ℕ) (m : Machine M) → opcode < 256 → Good m → Fine (execute_opcode sys.bus opcode m)
  execute-Fine opcode m h g = elim (Bool-cases (contains undefined opcode)) [
    | inl u ↦ rw (execute_opcode-undefined sys.bus opcode m h u) (u, g)
    | inr u ↦ let (n, e, d, g') = execute_opcode-IsGood laws.bus_laws opcode m h u g in (rw e d, g')
  ]

  run-Ended :
      (m : Machine M) → Good m → Ended (worked sys m) (run_instruction sys (finish_step sys) m)
  unfolding run_instruction
  run-Ended m g =
      let f = fetch-Good m g in
      let x = execute-Fine (fetch sys m).0 (fetch sys m).1 f.0 f.1 in
      either m.cpu.halted _ _ _ _ (finish_step-Ended 4 m (omega arith, omega arith, refl) g)
        (ended _ _ x.0 x.1)
    where
      ended :
          (o : Outcome) (m1 : Machine M)
          → IsOutcome o
          → Good m1
          → Ended m1 (elim o [
            | cycles n ↦ (let end = finish_step sys n m1 in (cycles end.0, end.1))
            | unsupported_opcode op pc ↦ (unsupported_opcode op pc, m1)
            | invalid_state ↦ (invalid_state, m1)
          ])
      ended (cycles n) m1 o h = finish_step-Ended n m1 o h
      ended (unsupported_opcode op pc) m1 o h = (o, h)
      ended invalid_state m1 o h = (o, h)

  service-Good :
      (k v : ℕ) (m : Machine M)
      → highest_priority (sys.interrupt m.rest) ≡ some (k, v)
      → Good m
      → ((service_interrupt sys m).0 ≡ true) × Good (service_interrupt sys m).1
  unfolding service_interrupt
  service-Good k v m e g =
      let s1 = acknowledge k (sys.interrupt m.rest) in
      let m1 : Machine M = record {
        cpu = record m.cpu { ime = false };
        rest = sys.set_interrupt s1 m.rest;
      } in
      let g1 : Good m1 = record {
        regs = ime_off m.cpu g.regs;
        holds = laws.set_holds s1 m.rest g.holds;
      } in
      let pushed = push16-Gives laws.bus_laws m.cpu.pc m1 g1 in
      rw (e, service_interrupt)
        (
          refl,
          record {
            regs = with_pc v _ pushed.1.regs (highest_priority-lt _ k v e);
            holds = laws.enter_holds k v _ pushed.1.holds;
          },
        )
    where
      ime_off : (r : Cpu) → IsValid r → IsValid (record r { ime = false })
      ime_off r w = ground arith

  serve-Ended :
      (m : Machine M)
      → has_pending (sys.interrupt m.rest) ≡ true
      → Good m
      → Ended (service_interrupt sys m).1 (serve sys (finish_step sys) m)
  unfolding serve
  serve-Ended m p g = elim (Option-cases (highest_priority (sys.interrupt m.rest))) [
    | inl e ↦
        absurd (apart (sym p ∙ has_pending-highest_priority (sys.interrupt m.rest) ∙ ap found e))
    | inr (source, e) ↦
        let s = service-Good source.0 source.1 m e g in
        rw s.0 (finish_step-Ended 20 _ (omega arith, omega arith, refl) s.1)
  ]
    where
      apart : true ≡ false → ⊥
      apart e = cc

  noted-Good :
      (b : Bool) (m : Machine M)
      → Good m
      → let noted : Machine M =
          (if b
            then record m {
              rest = sys.note_blocked (pending_mask (sys.interrupt m.rest)) m.cpu m.rest;
            }
            else m) in
        Good (record { cpu = wake noted.cpu; rest = noted.rest })
        × (has_pending (sys.interrupt noted.rest) ≡ has_pending (sys.interrupt m.rest))
  noted-Good true m g = (
    record { regs = awake m.cpu g.regs; holds = laws.note_holds _ m.cpu m.rest g.holds },
    ap has_pending (laws.interrupt_noted _ m.cpu m.rest),
  )
  noted-Good false m g = (record { regs = awake m.cpu g.regs; holds = g.holds }, refl)

  -- A step of a good machine never reports an invalid state: it refuses one of the ten undefined
  -- opcodes, or takes the 4 to 24 cycles of its work, a multiple of 4, and the stalls pending after
  -- that, saturated at 32 bits, and advances the clocks by all of them. It leaves a good machine
  -- either way, where the bus and the rest of the system keep their laws.
  pub step_instruction-IsGood :
      (m : Machine M)
      → IsGood laws.bus_laws m
      → let out = step_instruction sys m in
        IsStep sys (reached sys m) out.0 out.1 × IsGood laws.bus_laws out.1
  unfolding step_instruction
  step_instruction-IsGood m g =
      let n = noted-Good (not m.cpu.ime) m g in
      elim (Bool-cases (has_pending (sys.interrupt m.rest))) [
        | inl p ↦
            rw (p, step_instruction)
              (either _ _ _ _ _ (serve-Ended _ (n.1 ∙ p) n.0) (run-Ended _ n.0))
        | inr p ↦ rw (p, step_instruction) (run-Ended m g)
      ]
