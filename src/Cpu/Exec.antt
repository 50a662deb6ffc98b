-- ===== src/Cpu/Exec.antt =====
-- `execute_opcode` of lib.rs.
pub mod Cb
pub mod Low
pub mod High
pub mod Keep
pub mod Table
pub mod Safe
pub mod Stack
use kokura.Base.{
  ℕ, zero, suc, ◌+◌, ◌-◌, ◌*◌, ◌/◌, ◌%◌, ◌^◌, bit_and, Bool, true, false, not, ◌&&◌, ◌||◌,
}
use kokura.Base.{
  Option, none, some, List, [], ◌∷◌, ◌++◌, u16, ◌>>>◌, ◌==◌, ◌!=◌, in_range, if◌then◌else◌, St,
  ◌>>=◌, ◌>>◌, pure,
}
use kokura.Cpu.Regs.{Cpu}
use kokura.Cpu.Alu.{add_a, sub_a, adc_a, sbc_a, and_a, or_a, xor_a, cp_a}
use kokura.Cpu.Bus.{Bus, Machine, on_cpu, read_r8, write_r8}
use Low.{Instr, arms_00, arms_10, arms_20, arms_30}
use High.{halt_arm, arms_c0, arms_d0, arms_e0, arms_f0}

-- error.rs, as far as the processor returns it.
pub data Outcome : Type 0 where
  cycles : ℕ → Outcome
  unsupported_opcode : ℕ → ℕ → Outcome
  invalid_state : Outcome

-- `match opcode`: the first arm with the opcode.
unfoldable pub find_arm : {A : Type 0} → ℕ → List (ℕ × A) → Option A
find_arm opcode [] = none
find_arm opcode ((key, arm) ∷ arms) = if opcode == key then some arm else find_arm opcode arms

-- The accumulator operation of each family 80 to BF, by its eight opcodes.
unfoldable pub alu_family : ℕ → ℕ → Cpu → Cpu
alu_family opcode =
    if in_range 0x80 0x87 opcode
    then add_a
    else if in_range 0x88 0x8F opcode
    then adc_a
    else if in_range 0x90 0x97 opcode
    then sub_a
    else if in_range 0x98 0x9F opcode
    then sbc_a
    else if in_range 0xA0 0xA7 opcode
    then and_a
    else if in_range 0xA8 0xAF opcode
    then xor_a
    else if in_range 0xB0 0xB7 opcode
    then or_a
    else cp_a

module _ {M : Type 0} (bus : Bus M) where
  -- The LD matrix.
  unfoldable pub ld_matrix : ℕ → Instr M
  ld_matrix opcode =
      let dst = bit_and (opcode >>> 3) 0x07 in
      let src = bit_and opcode 0x07 in
      do
        value ← read_r8 bus src
        write_r8 bus dst value
        pure (if dst == 6 || src == 6 then 8 else 4)

  unfoldable pub alu_op : ℕ → Instr M
  alu_op opcode = do
    v ← read_r8 bus (bit_and opcode 0x07)
    on_cpu (alu_family opcode v)
    pure (if bit_and opcode 0x07 == 6 then 8 else 4)

  -- Every arm that the early returns leave reachable.
  unfoldable pub arms : List (ℕ × Instr M)
  arms =
      arms_00 bus
      ++ (arms_10 bus
          ++ (arms_20 bus
              ++ (arms_30 bus
                  ++ ((0x76, halt_arm bus)
                      ∷ (arms_c0 bus ++ (arms_d0 bus ++ (arms_e0 bus ++ arms_f0 bus)))))))

  unfoldable pub decode : ℕ → Option (Instr M)
  unfolding arms arms_00 arms_10 arms_20 arms_30 arms_c0 arms_d0 arms_e0 arms_f0 find_arm
  decode opcode =
      if in_range 0x40 0x7F opcode && opcode != 0x76
      then some (ld_matrix opcode)
      else if in_range 0x80 0xBF opcode
      then some (alu_op opcode)
      else find_arm opcode arms

  unfoldable pub execute_opcode : ℕ → St (Machine M) Outcome
  execute_opcode opcode m = elim (decode opcode) [
    | some instr ↦ let out = instr m in (cycles out.0, out.1)
    | none ↦ (unsupported_opcode opcode (u16 (m.cpu.pc + 0xFFFF)), m)
  ]
