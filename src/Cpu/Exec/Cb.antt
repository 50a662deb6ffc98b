-- ===== src/Cpu/Exec/Cb.antt =====
-- `execute_cb_opcode` of lib.rs.
use kokura.Base.{ℕ, bit_and, bit_or, true, false}
use kokura.Base.{◌<<<◌, ◌>>>◌, not8, ◌==◌, if◌then◌else◌, St, ◌>>=◌, ◌>>◌, pure}
use kokura.Cpu.Regs.{Cpu, set_z, set_n, set_h}
use kokura.Cpu.Rotate.{cb_turn}
use kokura.Cpu.Bus.{Bus, Machine, on_cpu, through, read_r8, write_r8}

-- BIT tests one bit and keeps C.
unfoldable pub bit_flags : ℕ → ℕ → Cpu → Cpu
bit_flags value y r =
    let bit = bit_and (value >>> y) 1 in
    record r { f = set_h true (set_n false (set_z (bit == 0) r.f)) }

module _ {M : Type 0} (bus : Bus M) where
  unfoldable pub execute_cb_opcode : ℕ → St (Machine M) ℕ
  execute_cb_opcode opcode =
      let target = bit_and opcode 0x07 in
      let group = opcode >>> 6 in
      let y = bit_and (opcode >>> 3) 0x07 in
      let long = if target == 6 then 16 else 8 in
      if group == 0
      then (do
        value ← read_r8 bus target
        result ← through (cb_turn y value)
        write_r8 bus target result
        pure long)
      else if group == 1
      then (do
        value ← read_r8 bus target
        on_cpu (bit_flags value y)
        pure (if target == 6 then 12 else 8))
      else if group == 2
      then (do
        value ← read_r8 bus target
        write_r8 bus target (bit_and value (not8 (1 <<< y)))
        pure long)
      else (do value ← read_r8 bus target; write_r8 bus target (bit_or value (1 <<< y)); pure long)
