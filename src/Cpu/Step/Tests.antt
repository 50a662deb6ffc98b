-- ===== src/Cpu/Step/Tests.antt =====
-- Instances of the theorems on steps, over a flat memory beside an interrupt controller.
use kokura.Base.{
  ℕ, ◌+◌, ◌<◌, Bool, true, false, ◌≡◌, ◌≢◌, refl, arith, some, none, ◌==◌, if◌then◌else◌, u16,
}
use kokura.Interrupt.{
  InterruptState, has_pending, first_source, pending_mask, highest_priority, acknowledge,
}
use kokura.Cpu.Regs.{default}
use kokura.Cpu.Bus.{Bus, Machine, push16}
use kokura.Cpu.Exec.{cycles, execute_opcode}
use kokura.Cpu.Exec.Keep.{IsGood}
use kokura.Cpu.Step.{System, wake, service_interrupt, step_instruction}
use kokura.Cpu.Step.Service.{IsSystem, service_interrupt-returns, step_instruction-serves}
use kokura.Cpu.Step.Total.{SystemLaws, IsStep, reached, step_instruction-IsGood}

record Rest : Type 0 where
  bytes : ℕ → ℕ
  stall : ℕ
  time : ℕ
  interrupts : InterruptState

abbrev flat : Bus Rest
flat = record {
  read8 = λ addr m. (m.bytes addr, m);
  read8_timed = λ addr n m. (m.bytes addr, m);
  write8 = λ addr value m. record m { bytes = λ a. if a == addr then value else m.bytes a };
  has_pending = λ m. has_pending m.interrupts;
  speed_switch = λ m. none;
  leave_handler = λ m. m;
}

abbrev system : System Rest
system = record {
  bus = flat;
  interrupt = λ m. m.interrupts;
  set_interrupt = λ s m. record m { interrupts = s };
  enter_handler = λ k v m. m;
  note_blocked = λ p r m. m;
  pending_cpu_stall_cycles = λ m. m.stall;
  clear_stall = λ m. record m { stall = 0 };
  advance_clocks = λ n r m. record m { time = m.time + n };
  advance_clocks_fast = λ n r m. record m { time = m.time + n };
}

kept : (b : Bool) (x y : ℕ) → x < 256 → y < 256 → (if b then x else y) < 256
kept true x y h k = h
kept false x y h k = k

written : (a v w : ℕ) → (if a == a then v else w) ≡ v
written a v w = ground arith

other : (a b v w : ℕ) → a ≢ b → (if a == b then v else w) ≡ w
other a b v w h = ground (arith, h)

is_system : IsSystem system (λ a. Unit {0})
is_system = record {
  memory = record {
    read_written = λ a v m p. written a v (m.bytes a);
    read_other = λ a b v m p h. other a b v (m.bytes a) h;
    read_read = λ a b m p. refl;
  };
  interrupt_set = λ s m. refl;
  interrupt_written = λ a v m p. refl;
  interrupt_entered = λ k v m. refl;
  read_entered = λ a k v m p. refl;
}

no_switch : (A : Type 0) (m' : Rest) → none ≡ some m' → A
no_switch A m' e = cc

abbrev system_laws : SystemLaws system
system_laws = record {
  bus_laws = record {
    Holds = λ m. (a : ℕ) → m.bytes a < 256;
    read8_byte = λ addr m h. h addr;
    read8_holds = λ addr m h. h;
    timed_byte = λ addr n m h. h addr;
    timed_holds = λ addr n m h. h;
    write8_holds = λ addr value m p q h a. kept (a == addr) value (m.bytes a) q (h a);
    switch_holds = λ m m' h e. no_switch _ m' e;
    leave_holds = λ m h. h;
  };
  set_holds = λ s m h. h;
  enter_holds = λ k v m h. h;
  note_holds = λ p r m h. h;
  interrupt_noted = λ p r m. refl;
  stall_holds = λ m h. h;
  clocks_hold = λ n r m h. h;
}

-- The timer asks while an EI is taking effect and the stall of a copied block is pending.
abbrev asked : Machine Rest
asked = record {
  cpu = record default { ime = true; ime_enable_delay = 1 };
  rest = record {
    bytes = λ a. 0;
    stall = 32;
    time = 0;
    interrupts = record { ie = 0x04; iflag = 0x04 };
  };
}

timer_asks : highest_priority asked.rest.interrupts ≡ some (0x04, 0x0050)
unfolding highest_priority first_source pending_mask
timer_asks = refl

asked-IsGood : IsGood system_laws.bus_laws asked
asked-IsGood = record {
  regs = record {
    a_byte = omega arith;
    b_byte = omega arith;
    c_byte = omega arith;
    d_byte = omega arith;
    e_byte = omega arith;
    h_byte = omega arith;
    l_byte = omega arith;
    flags = (omega arith, refl);
    sp_word = omega arith;
    pc_word = omega arith;
    delay_short = omega arith;
  };
  holds = λ a. omega arith;
}

service_interrupt-returns_example :
    let served = service_interrupt system asked in
    let returned = execute_opcode flat 0xD9 served.1 in
    (served.0 ≡ true)
    × (served.1.cpu.pc ≡ 0x0050)
    × (served.1.cpu.ime ≡ false)
    × (served.1.rest.interrupts ≡ acknowledge 0x04 asked.rest.interrupts)
    × (returned.0 ≡ cycles 16)
    × (returned.1.cpu ≡ record asked.cpu { ime = true })
service_interrupt-returns_example =
    service_interrupt-returns system is_system 0x04 0x0050 asked timer_asks (omega arith)
      (omega arith) tt tt

step_instruction-serves_example :
    let out = step_instruction system asked in
    let served =
      (service_interrupt system (record { cpu = wake asked.cpu; rest = asked.rest })).1 in
    (out.0 ≡ cycles 52)
    × (out.1.rest ≡ record served.rest { stall = 0; time = 52 })
    × (out.1.cpu.pc ≡ 0x0050)
    × (out.1.cpu.halted ≡ false)
    × (out.1.cpu.sp ≡ u16 (asked.cpu.sp + 0xFFFE))
    × (out.1.cpu.ime ≡ (asked.cpu.ime_enable_delay == 1))
unfolding service_interrupt highest_priority first_source pending_mask push16
step_instruction-serves_example =
    step_instruction-serves system is_system 0x04 0x0050 asked timer_asks refl

step_instruction-IsGood_example :
    let out = step_instruction system asked in
    IsStep system (reached system asked) out.0 out.1 × IsGood system_laws.bus_laws out.1
step_instruction-IsGood_example = step_instruction-IsGood system system_laws asked asked-IsGood
