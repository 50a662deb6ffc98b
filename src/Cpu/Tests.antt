-- ===== src/Cpu/Tests.antt =====
-- Instances of the theorems on the processor, over a flat memory.
use kokura.Base.{
  ℕ, ◌+◌, ◌-◌, ◌%◌, ◌<◌, Bool, true, false, ◌≡◌, ◌≢◌, refl, arith, none, ◌==◌, if◌then◌else◌,
  u8_from, leb, ltb, u16,
}
use kokura.Cpu.Regs.{Cpu, default, flag_c}
use kokura.Cpu.Alu.{add_a, adc_a, sub_a, sbc_a, cp_a, daa}
use kokura.Cpu.Rotate.{cb_turn}
use kokura.Cpu.Bus.{Bus, Machine, read16_imm}
use kokura.Cpu.Exec.Stack.{IsMemoryAt, execute_opcode-returns}
use kokura.Cpu.Arith.{IsBytes, Adds, Subtracts, arithmetic_family}
use kokura.Cpu.Decimal.{bcd, IsDecimal, daa-digits}
use kokura.Cpu.Turn.{Turns, cb_turn-Turns}
use kokura.Cpu.Valid.{IsValid}
use kokura.Cpu.Exec.{cycles, unsupported_opcode, execute_opcode}
use kokura.Cpu.Exec.Keep.{BusLaws, IsGood, IsDuration}
use kokura.Cpu.Exec.Table.{execute_opcode-undefined}
use kokura.Cpu.Exec.Safe.{execute_opcode-IsGood}

-- Memory without devices, an address to a byte.
abbrev Flat : Type 0
Flat = ℕ → ℕ

abbrev flat : Bus Flat
flat = record {
  read8 = λ addr m. (m addr, m);
  read8_timed = λ addr n m. (m addr, m);
  write8 = λ addr value m a. if a == addr then value else m a;
  has_pending = λ m. false;
  speed_switch = λ m. none;
  leave_handler = λ m. m;
}

kept : (b : Bool) (x y : ℕ) → x < 256 → y < 256 → (if b then x else y) < 256
kept true x y h k = h
kept false x y h k = k

abbrev flat_laws : BusLaws flat
flat_laws = record {
  Holds = λ m. (a : ℕ) → m a < 256;
  read8_byte = λ addr m h. h addr;
  read8_holds = λ addr m h. h;
  timed_byte = λ addr n m h. h addr;
  timed_holds = λ addr n m h. h;
  write8_holds = λ addr value m p q h a. kept (a == addr) value (m a) q (h a);
  switch_holds = λ m m' h e. cc;
  leave_holds = λ m h. h;
}

-- ADD A,d8 at 0100 with the operand 0x3A.
abbrev program : Machine Flat
program = record {
  cpu = record default { a = 0x3C };
  rest = λ a. if a == 0x0100 then 0xC6 else if a == 0x0101 then 0x3A else 0;
}

default-IsValid : IsValid program.cpu
default-IsValid = record {
  a_byte = omega arith;
  b_byte = omega arith;
  c_byte = omega arith;
  d_byte = omega arith;
  e_byte = omega arith;
  h_byte = omega arith;
  l_byte = omega arith;
  flags = (omega arith, refl);
  sp_word = omega arith;
  pc_word = omega arith;
  delay_short = omega arith;
}

program-IsGood : IsGood flat_laws program
program-IsGood = record {
  regs = default-IsValid;
  holds = λ a.
      kept (a == 0x0100) 0xC6 _ (omega arith)
        (kept (a == 0x0101) 0x3A 0 (omega arith) (omega arith));
}

execute_opcode-IsGood_example :
    (n : ℕ) × ((execute_opcode flat 0xC6 program).0 ≡ cycles n)
    × IsDuration n
    × IsGood flat_laws (execute_opcode flat 0xC6 program).1
execute_opcode-IsGood_example =
    execute_opcode-IsGood flat_laws 0xC6 program (omega arith) refl program-IsGood

execute_opcode-undefined_example :
    execute_opcode flat 0xED program
    ≡ (unsupported_opcode 0xED (u16 (program.cpu.pc + 0xFFFF)), program)
execute_opcode-undefined_example = execute_opcode-undefined flat 0xED program (omega arith) refl

abbrev regs : Cpu
regs = record default { a = 0x3C; f = 0x10 }

bytes : IsBytes regs 0xC5
bytes = record { a_byte = omega arith; f_byte = omega arith; v_byte = omega arith }

arithmetic_family_example :
    Adds regs 0xC5 0 (add_a 0xC5 regs)
    × Adds regs 0xC5 (u8_from (flag_c regs.f)) (adc_a 0xC5 regs)
    × Subtracts regs 0xC5 0 (sub_a 0xC5 regs)
    × Subtracts regs 0xC5 (u8_from (flag_c regs.f)) (sbc_a 0xC5 regs)
    × (cp_a 0xC5 regs ≡ record regs { f = (sub_a 0xC5 regs).f })
    × ((sub_a 0xC5 (add_a 0xC5 regs)).a ≡ regs.a)
    × (flag_c (sub_a 0xC5 (add_a 0xC5 regs)).f ≡ flag_c (add_a 0xC5 regs).f)
arithmetic_family_example = arithmetic_family regs 0xC5 bytes

abbrev digits : Cpu
digits = record default { a = 0x45; f = 0x10 }

daa-digits_example :
    let c = u8_from (flag_c digits.f) in
    IsDecimal ((45 + 67 + c) % 100) (leb 100 (45 + 67 + c)) (daa (adc_a (bcd 67) digits))
    × IsDecimal ((45 + 100 - 67 - c) % 100) (ltb 45 (67 + c)) (daa (sbc_a (bcd 67) digits))
daa-digits_example = daa-digits digits 45 67 (omega arith) (omega arith) refl (omega arith)

cb_turn-Turns_example : Turns 2 0x81 regs (cb_turn 2 0x81 regs)
cb_turn-Turns_example = cb_turn-Turns 2 0x81 regs (omega arith) (omega arith) (omega arith)

written : (a v w : ℕ) → (if a == a then v else w) ≡ v
written a v w = ground arith

other : (a b v w : ℕ) → a ≢ b → (if a == b then v else w) ≡ w
other a b v w h = ground (arith, h)

flat_memory : IsMemoryAt flat (λ a. Unit {0})
flat_memory = record {
  read_written = λ a v m p. written a v (m a);
  read_other = λ a b v m p h. other a b v (m a) h;
  read_read = λ a b m p. refl;
}

execute_opcode-returns_example :
    let called = execute_opcode flat 0xCD program in
    let returned = execute_opcode flat 0xC9 called.1 in
    (called.0 ≡ cycles 24)
    × (called.1.cpu.pc ≡ (read16_imm flat program).0)
    × (returned.0 ≡ cycles 16)
    × (returned.1.cpu ≡ record program.cpu { pc = u16 (u16 (program.cpu.pc + 1) + 1) })
execute_opcode-returns_example = execute_opcode-returns flat flat_memory program (omega arith) tt tt
