-- ===== src/Cpu/Bus.antt =====
-- What the instructions of lib.rs use of the rest of `Machine`, as an interface, and the helpers
-- that fetch, use the stack and decode operands.
use kokura.Base.{ℕ, ◌+◌, bit_and, bit_or, Bool, Option}
use kokura.Base.{u8, u16, ◌<<<◌, ◌>>>◌, ◌==◌, if◌then◌else◌, St, ◌>>=◌, ◌>>◌, pure}
use kokura.Cpu.Regs.{Cpu, hl}

-- `M` is `Machine` without its registers. `speed_switch` is `perform_speed_switch` where the mode
-- is CGB and a switch is armed, and `none` elsewhere; `leave_handler` clears
-- `active_interrupt_vector`.
pub record Bus (M : Type 0) : Type 0 where
  pub read8 : ℕ → M → ℕ × M
  pub read8_timed : ℕ → ℕ → M → ℕ × M
  pub write8 : ℕ → ℕ → M → M
  pub has_pending : M → Bool
  pub speed_switch : M → Option M
  pub leave_handler : M → M

pub record Machine (M : Type 0) : Type 0 where
  pub cpu : Cpu
  pub rest : M

module _ {M : Type 0} where
  abbrev pub on_cpu : (Cpu → Cpu) → St (Machine M) (Unit {0})
  on_cpu g m = (tt, record m { cpu = g m.cpu })

  -- A helper that returns a byte beside the registers.
  abbrev pub through : (Cpu → ℕ × Cpu) → St (Machine M) ℕ
  through g m = let out = g m.cpu in (out.0, record m { cpu = out.1 })

  abbrev pub look : {A : Type 0} → (Cpu → A) → St (Machine M) A
  look g m = (g m.cpu, m)

module _ {M : Type 0} (bus : Bus M) where
  abbrev pub read8 : ℕ → St (Machine M) ℕ
  read8 addr m = let out = bus.read8 addr m.rest in (out.0, record m { rest = out.1 })

  abbrev pub read8_timed : ℕ → ℕ → St (Machine M) ℕ
  read8_timed addr cycles m =
      let out = bus.read8_timed addr cycles m.rest in (out.0, record m { rest = out.1 })

  abbrev pub write8 : ℕ → ℕ → St (Machine M) (Unit {0})
  write8 addr value m = (tt, record m { rest = bus.write8 addr value m.rest })

  -- `self.read8(self.cpu.pc)` with the increment that follows it.
  unfoldable pub read8_imm : St (Machine M) ℕ
  read8_imm = do
    value ← look (λ r. r.pc) >>= read8
    on_cpu (λ r. record r { pc = u16 (r.pc + 1) })
    pure value

  unfoldable pub read16_imm : St (Machine M) ℕ
  unfolding read8_imm
  read16_imm = do lo ← read8_imm; hi ← read8_imm; pure (bit_or (hi <<< 8) lo)

  unfoldable pub push16 : ℕ → St (Machine M) (Unit {0})
  push16 value = do
    on_cpu (λ r. record r { sp = u16 (r.sp + 0xFFFF) })
    sp ← look (λ r. r.sp)
    write8 sp (u8 (value >>> 8))
    on_cpu (λ r. record r { sp = u16 (r.sp + 0xFFFF) })
    sp' ← look (λ r. r.sp)
    write8 sp' (u8 value)

  unfoldable pub pop16 : St (Machine M) ℕ
  pop16 = do
    lo ← look (λ r. r.sp) >>= read8
    on_cpu (λ r. record r { sp = u16 (r.sp + 1) })
    hi ← look (λ r. r.sp) >>= read8
    on_cpu (λ r. record r { sp = u16 (r.sp + 1) })
    pure (bit_or (hi <<< 8) lo)

  unfoldable pub read_r8 : ℕ → St (Machine M) ℕ
  read_r8 index =
      let i = bit_and index 0x07 in
      if i == 0
      then look (λ r. r.b)
      else if i == 1
      then look (λ r. r.c)
      else if i == 2
      then look (λ r. r.d)
      else if i == 3
      then look (λ r. r.e)
      else if i == 4
      then look (λ r. r.h)
      else if i == 5
      then look (λ r. r.l)
      else if i == 6
      then look hl >>= read8
      else look (λ r. r.a)

  -- The `match` of `write_r8`, on the decoded index.
  unfoldable pub write_reg : ℕ → ℕ → St (Machine M) (Unit {0})
  write_reg i value =
      if i == 0
      then on_cpu (λ r. record r { b = value })
      else if i == 1
      then on_cpu (λ r. record r { c = value })
      else if i == 2
      then on_cpu (λ r. record r { d = value })
      else if i == 3
      then on_cpu (λ r. record r { e = value })
      else if i == 4
      then on_cpu (λ r. record r { h = value })
      else if i == 5
      then on_cpu (λ r. record r { l = value })
      else if i == 6
      then look hl >>= (λ addr. write8 addr value)
      else on_cpu (λ r. record r { a = value })

  unfoldable pub write_r8 : ℕ → ℕ → St (Machine M) (Unit {0})
  unfolding write_reg
  write_r8 index value = write_reg (bit_and index 0x07) value
