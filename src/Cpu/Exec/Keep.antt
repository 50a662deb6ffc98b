-- ===== src/Cpu/Exec/Keep.antt =====
-- Good machines, and what the instructions of crates/kokura-core/src/lib.rs keep of them: the
-- widths of the registers and what the bus keeps of itself. Here the fetches, the stack, the
-- operands and the CB page.
pub mod Low
pub mod High
pub mod Arms
use kokura.Base.{
  ℕ, zero, suc, ◌+◌, ◌-◌, ◌*◌, ◌/◌, ◌%◌, ◌^◌, ◌≤◌, ◌<◌, bit_and, bit_or, Bool, true, false, not,
  arith, ◌≡◌, refl, Option, some,
}
use kokura.Base.{
  u8, u16, u8_from, not8, ltb, ltb→lt, all_below, all_below_at, ◌<<<◌, ◌>>>◌, ◌==◌, if◌then◌else◌,
  St, bit_and-le, bit_and_low, bit_or-lt, bit_or_join, Bool-cases, ◌⊎◌, inl, inr,
}
use kokura.Cpu.Regs.{Cpu, flag_c, hl}
use kokura.Cpu.Turn.{cb_turn-Turns, turned, turned-lt}
use kokura.Cpu.Rotate.{cb_turn}
use kokura.Cpu.Flags.{u8_from-le}
use kokura.Cpu.Bus.{
  Bus, Machine, on_cpu, read8_imm, read16_imm, push16, pop16, read_r8, write_reg, write_r8,
}
use kokura.Cpu.Exec.Cb.{bit_flags, execute_cb_opcode}
use kokura.Cpu.Exec.Low.{Instr, put_a, put_b, put_c, put_d, put_e, put_h, put_l}
use kokura.Cpu.Valid.{
  IsValid, IsFlags, with_flags, with_pc, with_sp, set_znh-IsValid, hl-word, put_a-IsValid,
  put_b-IsValid, put_c-IsValid, put_d-IsValid, put_e-IsValid, put_h-IsValid, put_l-IsValid,
}

-- The laws of a bus: reads give bytes, and `Holds` is kept by everything the processor calls with
-- addresses and values in range.
pub record BusLaws {M : Type 0} (bus : Bus M) : Type 1 where
  pub Holds : M → Type 0
  pub read8_byte : (addr : ℕ) (m : M) → Holds m → (bus.read8 addr m).0 < 256
  pub read8_holds : (addr : ℕ) (m : M) → Holds m → Holds (bus.read8 addr m).1
  pub timed_byte : (addr n : ℕ) (m : M) → Holds m → (bus.read8_timed addr n m).0 < 256
  pub timed_holds : (addr n : ℕ) (m : M) → Holds m → Holds (bus.read8_timed addr n m).1
  pub write8_holds :
      (addr value : ℕ) (m : M)
      → addr < 65536
      → value < 256
      → Holds m
      → Holds (bus.write8 addr value m)
  pub switch_holds : (m m' : M) → Holds m → bus.speed_switch m ≡ some m' → Holds m'
  pub leave_holds : (m : M) → Holds m → Holds (bus.leave_handler m)

abbrev pub IsByte : ℕ → Type 0
IsByte x = x < 256

abbrev pub IsWord : ℕ → Type 0
IsWord x = x < 65536

-- Four to twenty-four cycles, whole machine cycles.
abbrev pub IsDuration : ℕ → Type 0
IsDuration n = (4 ≤ n) × (n ≤ 24) × (n % 4 ≡ 0)

long_cycles :
    (b : Bool)
    → (4 ≤ (if b then 16 else 8)) × ((if b then 16 else 8) ≤ 24) × ((if b then 16 else 8) % 4 ≡ 0)
long_cycles true = omega arith
long_cycles false = omega arith

bit_cycles :
    (b : Bool)
    → (4 ≤ (if b then 12 else 8)) × ((if b then 12 else 8) ≤ 24) × ((if b then 12 else 8) % 4 ≡ 0)
bit_cycles true = omega arith
bit_cycles false = omega arith

pow_byte : (y : ℕ) → y < 8 → 1 * 2 ^ y < 256
pow_byte y h = ltb→lt _ _ (all_below_at 8 (λ y. ltb (1 * 2 ^ y) 256) y table h)
  where
    table : all_below 8 (λ y. ltb (1 * 2 ^ y) 256) ≡ true
    table = unfold all_below in refl

bit_flags-IsValid : (v y : ℕ) (r : Cpu) → IsValid r → IsValid (bit_flags v y r)
unfolding bit_flags
bit_flags-IsValid v y r k = set_znh-IsValid _ _ _ r k

cb_turn-IsValid :
    (y v : ℕ) (r : Cpu)
    → y < 8
    → v < 256
    → IsValid r
    → ((cb_turn y v r).0 < 256) × IsValid (cb_turn y v r).1
cb_turn-IsValid y v r hy hv k =
    let t = cb_turn-Turns y v r hy hv k.flags.0 in
    (
      rw t.value (turned-lt y v (u8_from (flag_c r.f)) hv (u8_from-le (flag_c r.f))),
      rw t.frame (with_flags (cb_turn y v r).1.f r k (t.flags_byte, omega (arith, t.low_flags))),
    )

module _ {M : Type 0} {bus : Bus M} (laws : BusLaws bus) where
  pub record IsGood (m : Machine M) : Type 0 where
    pub regs : IsValid m.cpu
    pub holds : laws.Holds m.rest

  -- A step keeps a good machine and gives a value with the property.
  abbrev pub Gives : {A : Type 0} → (A → Type 0) → St (Machine M) A → Type 0
  Gives P step = (m : Machine M) → IsGood m → P (step m).0 × IsGood (step m).1

  pub read8_imm-Gives : Gives IsByte (read8_imm bus)
  unfolding read8_imm
  read8_imm-Gives m g = (
    laws.read8_byte m.cpu.pc m.rest g.holds,
    record {
      regs = with_pc (u16 (m.cpu.pc + 1)) m.cpu g.regs (omega arith);
      holds = laws.read8_holds m.cpu.pc m.rest g.holds;
    },
  )

  pub read16_imm-Gives : Gives IsWord (read16_imm bus)
  unfolding read16_imm
  read16_imm-Gives m g =
      let m1 = read8_imm bus m in
      let k1 = read8_imm-Gives m g in
      let m2 = read8_imm bus m1.1 in
      let k2 = read8_imm-Gives m1.1 k1.1 in
      (omega (arith, bit_or_join 8 m2.0 m1.0 k1.0, k2.0, k1.0), k2.1)

  pub push16-Gives : (value : ℕ) → Gives (λ _. Unit {0}) (push16 bus value)
  unfolding push16
  push16-Gives value m g =
      let sp1 = u16 (m.cpu.sp + 0xFFFF) in
      let sp2 = u16 (sp1 + 0xFFFF) in
      (
        tt,
        record {
          regs = with_sp sp2 m.cpu g.regs (omega arith);
          holds =
              laws.write8_holds sp2 (u8 value) _ (omega arith) (omega arith) (
                laws.write8_holds sp1 (u8 (value >>> 8)) m.rest (omega arith) (omega arith)
                  g.holds);
        },
      )

  pub pop16-Gives : Gives IsWord (pop16 bus)
  unfolding pop16
  pop16-Gives m g =
      let sp1 = u16 (m.cpu.sp + 1) in
      let lo = bus.read8 m.cpu.sp m.rest in
      let lo_byte = laws.read8_byte m.cpu.sp m.rest g.holds in
      let holds1 = laws.read8_holds m.cpu.sp m.rest g.holds in
      let hi = bus.read8 sp1 lo.1 in
      let hi_byte = laws.read8_byte sp1 lo.1 holds1 in
      (
        omega (arith, bit_or_join 8 hi.0 lo.0 lo_byte, hi_byte, lo_byte),
        record {
          regs = with_sp (u16 (sp1 + 1)) m.cpu g.regs (omega arith);
          holds = laws.read8_holds sp1 lo.1 holds1;
        },
      )

  pub Gives-if :
      {A : Type 0} (P : A → Type 0) (b : Bool) (s t : St (Machine M) A)
      → Gives P s
      → Gives P t
      → Gives P (if b then s else t)
  Gives-if P true s t h k = h
  Gives-if P false s t h k = k

  pub read_r8-Gives : (index : ℕ) → Gives IsByte (read_r8 bus index)
  unfolding read_r8
  read_r8-Gives index =
      Gives-if IsByte _ _ _ (λ m g. (g.regs.b_byte, g))
        (Gives-if IsByte _ _ _ (λ m g. (g.regs.c_byte, g))
          (Gives-if IsByte _ _ _ (λ m g. (g.regs.d_byte, g))
            (Gives-if IsByte _ _ _ (λ m g. (g.regs.e_byte, g))
              (Gives-if IsByte _ _ _ (λ m g. (g.regs.h_byte, g))
                (Gives-if IsByte _ _ _ (λ m g. (g.regs.l_byte, g))
                  (Gives-if IsByte _ _ _
                    (λ m g. (
                      laws.read8_byte (hl m.cpu) m.rest g.holds,
                      record { regs = g.regs; holds = laws.read8_holds (hl m.cpu) m.rest g.holds },
                    ))
                    (λ m g. (g.regs.a_byte, g))))))))

  abbrev pub Steps : St (Machine M) (Unit {0}) → Type 0
  Steps = Gives (λ _. Unit)

  -- An update of the registers alone.
  pub regs_step : (k : Cpu → Cpu) → ((r : Cpu) → IsValid r → IsValid (k r)) → Steps (on_cpu k)
  regs_step k h m g = (tt, record { regs = h m.cpu g.regs; holds = g.holds })

  write_reg-Gives : (i value : ℕ) → i < 8 → value < 256 → Steps (write_reg bus i value)
  unfolding write_reg
  write_reg-Gives zero value _ h = regs_step (put_b value) (λ r v. put_b-IsValid value r v h)
  write_reg-Gives (suc zero) value _ h = regs_step (put_c value) (λ r v. put_c-IsValid value r v h)
  write_reg-Gives (suc (suc zero)) value _ h =
      regs_step (put_d value) (λ r v. put_d-IsValid value r v h)
  write_reg-Gives (suc (suc (suc zero))) value _ h =
      regs_step (put_e value) (λ r v. put_e-IsValid value r v h)
  write_reg-Gives (suc (suc (suc (suc zero)))) value _ h =
      regs_step (put_h value) (λ r v. put_h-IsValid value r v h)
  write_reg-Gives (suc (suc (suc (suc (suc zero))))) value _ h =
      regs_step (put_l value) (λ r v. put_l-IsValid value r v h)
  write_reg-Gives (suc (suc (suc (suc (suc (suc zero)))))) value _ h = λ m g. (
    tt,
    record {
      regs = g.regs;
      holds = laws.write8_holds (hl m.cpu) value m.rest (hl-word m.cpu g.regs) h g.holds;
    },
  )
  write_reg-Gives (suc (suc (suc (suc (suc (suc (suc zero))))))) value _ h =
      regs_step (put_a value) (λ r v. put_a-IsValid value r v h)
  write_reg-Gives (suc (suc (suc (suc (suc (suc (suc (suc i)))))))) value p h = absurd (omega arith)

  pub write_r8-Gives : (index value : ℕ) → value < 256 → Steps (write_r8 bus index value)
  unfolding write_r8
  write_r8-Gives index value h =
      write_reg-Gives (bit_and index 0x07) value (omega (arith, bit_and-le index 7)) h

  pub execute_cb_opcode-Gives : (opcode : ℕ) → Gives IsDuration (execute_cb_opcode bus opcode)
  unfolding execute_cb_opcode
  execute_cb_opcode-Gives opcode =
      let target = bit_and opcode 0x07 in
      let y = bit_and (opcode >>> 3) 0x07 in
      let hy : y < 8 = omega (arith, bit_and-le (opcode >>> 3) 7) in
      Gives-if IsDuration _ _ _
        (λ m g.
          let p = read_r8-Gives target m g in
          let v = (read_r8 bus target m).0 in
          let m1 = (read_r8 bus target m).1 in
          let t = cb_turn-IsValid y v m1.cpu hy p.0 p.1.regs in
          let q =
            write_r8-Gives target (cb_turn y v m1.cpu).0 t.0
              (record { cpu = (cb_turn y v m1.cpu).1; rest = m1.rest })
              (record { regs = t.1; holds = p.1.holds }) in
          (long_cycles (target == 6), q.1))
        (Gives-if IsDuration _ _ _
          (λ m g.
            let p = read_r8-Gives target m g in
            let v = (read_r8 bus target m).0 in
            let m1 = (read_r8 bus target m).1 in
            (
              bit_cycles (target == 6),
              record { regs = bit_flags-IsValid v y m1.cpu p.1.regs; holds = p.1.holds },
            ))
          (Gives-if IsDuration _ _ _
            (λ m g.
              let p = read_r8-Gives target m g in
              let v = (read_r8 bus target m).0 in
              let small : bit_and v (not8 (1 <<< y)) < 256 =
                omega (arith, bit_and-le v (not8 (1 <<< y))) in
              let q =
                write_r8-Gives target (bit_and v (not8 (1 <<< y))) small (read_r8 bus target m).1
                  p.1 in
              (long_cycles (target == 6), q.1))
            (λ m g.
              let p = read_r8-Gives target m g in
              let v = (read_r8 bus target m).0 in
              let small = bit_or-lt 8 v (1 <<< y) p.0 (pow_byte y hy) in
              let q =
                write_r8-Gives target (bit_or v (1 <<< y)) small (read_r8 bus target m).1 p.1 in
              (long_cycles (target == 6), q.1))))
