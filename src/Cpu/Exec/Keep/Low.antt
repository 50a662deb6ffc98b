-- ===== src/Cpu/Exec/Keep/Low.antt =====
-- Good machines through the arms 00 to 3F of `execute_opcode` in crates/kokura-core/src/lib.rs, and
-- the cycles of these arms.
use kokura.Base.{ℕ, ◌<◌, Bool, true, false, arith, ◌≡◌, refl, Option, none, some}
use kokura.Base.{bit_xor, bit_xor-lt}
use kokura.Cpu.Regs.{Cpu, hl, inc16, dec16, jr}
use kokura.Cpu.Alu.{add_hl}
use kokura.Cpu.Bus.{Bus, Machine, read8_imm}
use kokura.Cpu.Valid.{
  IsValid, with_flags, with_a, set_n-IsFlags, set_h-IsFlags, set_c-IsFlags, inc8-IsValid,
  dec8-IsValid, set_hl-IsValid, hl-word, jr-IsValid, add_hl-IsValid,
}
use kokura.Cpu.Exec.Low.{
  Instr, cpl, scf, ccf, halt, inc_pair, dec_pair, inc_reg, dec_reg, load_imm, load_imm16, store_a,
  load_a, plain, add_pair, jump_relative, stop, store_sp, store_a_step, load_a_step, step_at_hl,
  store_imm,
}
use kokura.Cpu.Exec.Keep.{
  BusLaws, IsGood, Gives, IsDuration, Gives-if, read8_imm-Gives, read16_imm-Gives,
}

-- What an update of the registers keeps, and what a reader of them gives.
abbrev pub KeepsRegs : (Cpu → Cpu) → Type 0
KeepsRegs k = (r : Cpu) → IsValid r → IsValid (k r)

abbrev PutsByte : (ℕ → Cpu → Cpu) → Type 0
PutsByte put = (x : ℕ) (r : Cpu) → IsValid r → x < 256 → IsValid (put x r)

abbrev pub PutsWord : (ℕ → Cpu → Cpu) → Type 0
PutsWord put = (x : ℕ) (r : Cpu) → IsValid r → x < 65536 → IsValid (put x r)

abbrev pub GetsWord : (Cpu → ℕ) → Type 0
GetsWord get = (r : Cpu) → IsValid r → get r < 65536

pub cpl-IsValid : KeepsRegs cpl
unfolding cpl
cpl-IsValid r v =
    with_flags _ (record r { a = bit_xor r.a 0xFF })
      (with_a _ r v (bit_xor-lt 8 r.a 0xFF v.a_byte (omega arith)))
      (set_h-IsFlags true _ (set_n-IsFlags true r.f v.flags))

pub scf-IsValid : KeepsRegs scf
unfolding scf
scf-IsValid r v =
    with_flags _ r v (set_c-IsFlags _ _ (set_h-IsFlags _ _ (set_n-IsFlags false r.f v.flags)))

pub ccf-IsValid : KeepsRegs ccf
unfolding ccf
ccf-IsValid r v =
    with_flags _ r v (set_c-IsFlags _ _ (set_h-IsFlags _ _ (set_n-IsFlags false r.f v.flags)))

pub halt-IsValid : KeepsRegs halt
unfolding halt
halt-IsValid r v = ground arith

sp-word : GetsWord (λ r. r.sp)
sp-word r v = v.sp_word

module _ {M : Type 0} {bus : Bus M} (laws : BusLaws bus) where
  abbrev pub Keeps : Instr M → Type 0
  Keeps = Gives laws IsDuration

  -- The registers of a good machine replaced.
  pub IsGood-regs :
      (k : Cpu → Cpu)
      → KeepsRegs k
      → (m : Machine M) → IsGood laws m
      → IsGood laws (record m { cpu = k m.cpu })
  IsGood-regs k h m g = record { regs = h m.cpu g.regs; holds = g.holds }

  pub IsGood-write :
      (addr value : ℕ) (m : Machine M)
      → addr < 65536
      → value < 256
      → IsGood laws m
      → IsGood laws (record m { rest = bus.write8 addr value m.rest })
  IsGood-write addr value m p q g = record {
    regs = g.regs;
    holds = laws.write8_holds addr value m.rest p q g.holds;
  }

  pair_step :
      (step : ℕ → ℕ)
      → ((x : ℕ) → step x < 65536)
      → (get : Cpu → ℕ) (put : ℕ → Cpu → Cpu) → PutsWord put
      → KeepsRegs (λ r. put (step (get r)) r)
  pair_step step s get put h r v = h (step (get r)) r v (s (get r))

  inc16-word : (x : ℕ) → inc16 x < 65536
  inc16-word x = unfold inc16 in omega arith

  dec16-word : (x : ℕ) → dec16 x < 65536
  dec16-word x = unfold dec16 in omega arith

  pub inc_pair-Keeps :
      (get : Cpu → ℕ) (put : ℕ → Cpu → Cpu) → PutsWord put → Keeps (inc_pair bus get put)
  unfolding inc_pair
  inc_pair-Keeps get put h m g =
      (omega arith, IsGood-regs _ (pair_step inc16 inc16-word get put h) m g)

  pub dec_pair-Keeps :
      (get : Cpu → ℕ) (put : ℕ → Cpu → Cpu) → PutsWord put → Keeps (dec_pair bus get put)
  unfolding dec_pair
  dec_pair-Keeps get put h m g =
      (omega arith, IsGood-regs _ (pair_step dec16 dec16-word get put h) m g)

  pub inc_reg-Keeps :
      (get : Cpu → ℕ) (put : ℕ → Cpu → Cpu) → PutsByte put → Keeps (inc_reg bus get put)
  unfolding inc_reg
  inc_reg-Keeps get put h m g =
      let k = inc8-IsValid (get m.cpu) m.cpu g.regs in
      (omega arith, record { regs = h _ _ k.1 k.0; holds = g.holds })

  pub dec_reg-Keeps :
      (get : Cpu → ℕ) (put : ℕ → Cpu → Cpu) → PutsByte put → Keeps (dec_reg bus get put)
  unfolding dec_reg
  dec_reg-Keeps get put h m g =
      let k = dec8-IsValid (get m.cpu) m.cpu g.regs in
      (omega arith, record { regs = h _ _ k.1 k.0; holds = g.holds })

  pub load_imm-Keeps : (put : ℕ → Cpu → Cpu) → PutsByte put → Keeps (load_imm bus put)
  unfolding load_imm
  load_imm-Keeps put h m g =
      let k = read8_imm-Gives laws m g in
      (omega arith, record { regs = h _ _ k.1.regs k.0; holds = k.1.holds })

  pub load_imm16-Keeps : (put : ℕ → Cpu → Cpu) → PutsWord put → Keeps (load_imm16 bus put)
  unfolding load_imm16
  load_imm16-Keeps put h m g =
      let k = read16_imm-Gives laws m g in
      (omega arith, record { regs = h _ _ k.1.regs k.0; holds = k.1.holds })

  pub store_a-Keeps : (pair : Cpu → ℕ) → GetsWord pair → Keeps (store_a bus pair)
  unfolding store_a
  store_a-Keeps pair h m g = (omega arith, IsGood-write _ _ m (h m.cpu g.regs) g.regs.a_byte g)

  pub timed_a :
      (addr n : ℕ)
      → (m : Machine M) → IsGood laws m
      → let out = bus.read8_timed addr n m.rest in
        IsGood laws (record { cpu = record (m.cpu) { a = out.0 }; rest = out.1 })
  timed_a addr n m g = record {
    regs = with_a _ m.cpu g.regs (laws.timed_byte addr n m.rest g.holds);
    holds = laws.timed_holds addr n m.rest g.holds;
  }

  pub load_a-Keeps : (pair : Cpu → ℕ) → Keeps (load_a bus pair)
  unfolding load_a
  load_a-Keeps pair m g = (omega arith, timed_a (pair m.cpu) 4 m g)

  pub plain-Keeps : (k : Cpu → Cpu) → KeepsRegs k → Keeps (plain bus k 4)
  unfolding plain
  plain-Keeps k h m g = (omega arith, IsGood-regs k h m g)

  pub add_pair-Keeps : (pair : Cpu → ℕ) → Keeps (add_pair bus pair)
  unfolding add_pair
  add_pair-Keeps pair m g =
      (omega arith, IsGood-regs (λ r. add_hl (pair r) r) (λ r v. add_hl-IsValid (pair r) r v) m g)

  pub jump_relative-Keeps : (taken : Cpu → Bool) → Keeps (jump_relative bus taken)
  unfolding jump_relative
  jump_relative-Keeps taken m g =
      let m1 = read8_imm bus m in
      let k = read8_imm-Gives laws m g in
      Gives-if laws IsDuration (taken m1.1.cpu) _ _
        (λ m' g'. (omega arith, IsGood-regs (jr m1.0) (jr-IsValid m1.0) m' g'))
        (λ m' g'. (omega arith, g')) m1.1 k.1

  pub stop-Keeps : Keeps (stop bus)
  unfolding stop
  stop-Keeps m g = go (bus.speed_switch m'.rest) refl (read8_imm-Gives laws m g).1
    where
      m' : Machine M
      m' = (read8_imm bus m).1

      go :
          (o : Option M)
          → bus.speed_switch m'.rest ≡ o
          → IsGood laws m'
          → let out : ℕ × Machine M = elim o [
            | some rest' ↦ (4, record m' { rest = rest' })
            | none ↦ (4, record m' { cpu = halt m'.cpu })
          ] in
            IsDuration out.0 × IsGood laws out.1
      go (some rest') e k =
          (omega arith, record { regs = k.regs; holds = laws.switch_holds m'.rest rest' k.holds e })
      go none e k = (omega arith, IsGood-regs halt halt-IsValid m' k)

  pub store_sp-Keeps : Keeps (store_sp bus)
  unfolding store_sp
  store_sp-Keeps m g =
      let k = read16_imm-Gives laws m g in
      (
        omega arith,
        IsGood-write _ _ _ (omega arith) (omega arith) (IsGood-write _ _ _ k.0 (omega arith) k.1),
      )

  pub store_a_step-Keeps : (step : ℕ → ℕ) → Keeps (store_a_step bus step)
  unfolding store_a_step
  store_a_step-Keeps step m g =
      let w = IsGood-write (hl m.cpu) m.cpu.a m (hl-word m.cpu g.regs) g.regs.a_byte g in
      (omega arith, record { regs = set_hl-IsValid _ m.cpu g.regs; holds = w.holds })

  pub load_a_step-Keeps : (step : ℕ → ℕ) → Keeps (load_a_step bus step)
  unfolding load_a_step
  load_a_step-Keeps step m g =
      let w = timed_a (hl m.cpu) 4 m g in
      (omega arith, record { regs = set_hl-IsValid _ _ w.regs; holds = w.holds })

  pub step_at_hl-Keeps :
      (op : ℕ → Cpu → ℕ × Cpu)
      → ((x : ℕ) (r : Cpu) → IsValid r → ((op x r).0 < 256) × IsValid (op x r).1)
      → Keeps (step_at_hl bus op)
  unfolding step_at_hl
  step_at_hl-Keeps op h m g =
      let k = h (bus.read8 (hl m.cpu) m.rest).0 m.cpu g.regs in
      (
        omega arith,
        record {
          regs = k.1;
          holds =
              laws.write8_holds (hl m.cpu) _ _ (hl-word m.cpu g.regs) k.0
                (laws.read8_holds (hl m.cpu) m.rest g.holds);
        },
      )

  pub store_imm-Keeps : Keeps (store_imm bus)
  unfolding store_imm
  store_imm-Keeps m g =
      let k = read8_imm-Gives laws m g in
      (omega arith, IsGood-write _ _ _ (hl-word _ k.1.regs) k.0 k.1)
