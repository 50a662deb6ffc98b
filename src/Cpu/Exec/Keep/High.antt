-- ===== src/Cpu/Exec/Keep/High.antt =====
-- Good machines through the arms 76 and C0 to FF of `execute_opcode` in
-- crates/kokura-core/src/lib.rs, and the cycles of these arms.
use kokura.Base.{ℕ, ◌*◌, ◌/◌, ◌<◌, Bool, not, arith, ◌≡◌, refl}
use kokura.Base.{u8, bit_and, bit_or, Bool-cases, inl, inr, bit_or_join, byte_eq, all_below, ◌&&◌}
use kokura.Cpu.Regs.{Cpu, hl}
use kokura.Cpu.Bus.{Bus, Machine, read8_imm, read16_imm, push16, pop16}
use kokura.Cpu.Valid.{IsValid, with_sp, with_pc, hl-word, sp_offset-IsValid}
use kokura.Cpu.Exec.Low.{put_sp, halt}
use kokura.Cpu.Exec.High.{
  set_af, put_pc, halt_bug, enable_ime, di, ei, halt_arm, cb_prefix, ret_if, pop_pair, push_pair,
  jump_if, jump, call, call_if, rst, ret, reti, alu_imm, store_high, store_high_c, store_abs,
  load_high, load_high_c, load_abs, jump_hl, sp_offset, load_sp_hl, done,
}
use kokura.Cpu.Exec.Keep.{
  BusLaws, IsGood, IsDuration, Gives-if, read8_imm-Gives, read16_imm-Gives, push16-Gives,
  pop16-Gives, execute_cb_opcode-Gives,
}
use kokura.Cpu.Exec.Keep.Low.{
  KeepsRegs, PutsWord, Keeps, IsGood-regs, IsGood-write, timed_a, halt-IsValid,
}

-- The high nibble of a byte is a byte with a clear low nibble.
high_nibble : (f : ℕ) → f < 256 → bit_and f 0xF0 ≡ f / 16 * 16
unfolding all_below
high_nibble = byte_eq (λ f. bit_and f 0xF0) (λ f. f / 16 * 16) refl

pub set_af-IsValid : (x : ℕ) → KeepsRegs (set_af x)
unfolding set_af
set_af-IsValid x r v = rw (high_nibble (u8 x) (omega arith)) (ground arith)

put_pc-IsValid : PutsWord put_pc
unfolding put_pc
put_pc-IsValid x r v h = with_pc x r v h

halt_bug-IsValid : KeepsRegs halt_bug
unfolding halt_bug
halt_bug-IsValid r v = ground arith

enable_ime-IsValid : KeepsRegs enable_ime
unfolding enable_ime
enable_ime-IsValid r v = ground arith

pub di-IsValid : KeepsRegs di
unfolding di
di-IsValid r v = ground arith

pub ei-IsValid : KeepsRegs ei
unfolding ei
ei-IsValid r v = ground arith

-- An operation on A and a byte.
abbrev UsesByte : (ℕ → Cpu → Cpu) → Type 0
UsesByte op = (x : ℕ) (r : Cpu) → IsValid r → x < 256 → IsValid (op x r)

high_page : (x : ℕ) → x < 256 → bit_or 0xFF00 x < 65536
high_page x h = omega (arith, bit_or_join 8 0xFF x h)

module _ {M : Type 0} {bus : Bus M} (laws : BusLaws bus) where
  pub halt_arm-Keeps : Keeps laws (halt_arm bus)
  unfolding halt_arm
  halt_arm-Keeps m g = elim (Bool-cases (not m.cpu.ime && bus.has_pending m.rest)) [
    | inl e ↦ rw e (omega arith, IsGood-regs laws halt_bug halt_bug-IsValid m g)
    | inr e ↦ rw e (omega arith, IsGood-regs laws halt halt-IsValid m g)
  ]

  pub cb_prefix-Keeps : Keeps laws (cb_prefix bus)
  unfolding cb_prefix
  cb_prefix-Keeps m g =
      let k = read8_imm-Gives laws m g in
      execute_cb_opcode-Gives laws (read8_imm bus m).0 (read8_imm bus m).1 k.1

  pub ret_if-Keeps : (taken : Cpu → Bool) → Keeps laws (ret_if bus taken)
  unfolding ret_if
  ret_if-Keeps taken m g =
      Gives-if laws IsDuration (taken m.cpu) _ _
        (λ m' g'.
          let k = pop16-Gives laws m' g' in
          (
            omega arith,
            IsGood-regs laws (put_pc (pop16 bus m').0) (λ r v. put_pc-IsValid _ r v k.0) _ k.1,
          ))
        (λ m' g'. (omega arith, g')) m g

  pub pop_pair-Keeps :
      (put : ℕ → Cpu → Cpu) → ((x : ℕ) → KeepsRegs (put x)) → Keeps laws (pop_pair bus put)
  unfolding pop_pair
  pop_pair-Keeps put h m g =
      let k = pop16-Gives laws m g in
      (omega arith, IsGood-regs laws (put (pop16 bus m).0) (h _) _ k.1)

  pub push_pair-Keeps : (get : Cpu → ℕ) → Keeps laws (push_pair bus get)
  unfolding push_pair
  push_pair-Keeps get m g = (omega arith, (push16-Gives laws (get m.cpu) m g).1)

  pub jump_if-Keeps : (taken : Cpu → Bool) → Keeps laws (jump_if bus taken)
  unfolding jump_if
  jump_if-Keeps taken m g =
      let m1 = read16_imm bus m in
      let k = read16_imm-Gives laws m g in
      Gives-if laws IsDuration (taken m1.1.cpu) _ _
        (λ m' g'.
          (omega arith, IsGood-regs laws (put_pc m1.0) (λ r v. put_pc-IsValid _ r v k.0) m' g'))
        (λ m' g'. (omega arith, g')) m1.1 k.1

  pub jump-Keeps : Keeps laws (jump bus)
  unfolding jump
  jump-Keeps m g =
      let k = read16_imm-Gives laws m g in
      (
        omega arith,
        IsGood-regs laws (put_pc (read16_imm bus m).0) (λ r v. put_pc-IsValid _ r v k.0) _ k.1,
      )

  -- A push of PC and a jump.
  enter :
      (target : ℕ) (m : Machine M)
      → target < 65536
      → IsGood laws m
      → let m' = (push16 bus m.cpu.pc m).1 in IsGood laws (record m' { cpu = put_pc target m'.cpu })
  enter target m h g =
      IsGood-regs laws (put_pc target) (λ r v. put_pc-IsValid target r v h) _
        (push16-Gives laws m.cpu.pc m g).1

  pub call-Keeps : Keeps laws (call bus)
  unfolding call
  call-Keeps m g =
      let k = read16_imm-Gives laws m g in (omega arith, enter _ (read16_imm bus m).1 k.0 k.1)

  pub call_if-Keeps : (taken : Cpu → Bool) → Keeps laws (call_if bus taken)
  unfolding call_if
  call_if-Keeps taken m g =
      let m1 = read16_imm bus m in
      let k = read16_imm-Gives laws m g in
      Gives-if laws IsDuration (taken m1.1.cpu) _ _ (λ m' g'. (omega arith, enter m1.0 m' k.0 g'))
        (λ m' g'. (omega arith, g')) m1.1 k.1

  pub rst-Keeps : (vector : ℕ) → vector < 65536 → Keeps laws (rst bus vector)
  unfolding rst
  rst-Keeps vector h m g = (omega arith, enter vector m h g)

  pub ret-Keeps : Keeps laws (ret bus)
  unfolding ret
  ret-Keeps m g =
      let k = pop16-Gives laws m g in
      (
        omega arith,
        IsGood-regs laws (put_pc (pop16 bus m).0) (λ r v. put_pc-IsValid _ r v k.0) _ k.1,
      )

  pub reti-Keeps : Keeps laws (reti bus)
  unfolding reti
  reti-Keeps m g =
      let k = pop16-Gives laws m g in
      (
        omega arith,
        record {
          regs = enable_ime-IsValid _ (put_pc-IsValid _ _ k.1.regs k.0);
          holds = laws.leave_holds _ k.1.holds;
        },
      )

  pub alu_imm-Keeps : (op : ℕ → Cpu → Cpu) → UsesByte op → Keeps laws (alu_imm bus op)
  unfolding alu_imm
  alu_imm-Keeps op h m g =
      let k = read8_imm-Gives laws m g in
      (omega arith, IsGood-regs laws (op (read8_imm bus m).0) (λ r v. h _ r v k.0) _ k.1)

  pub store_high-Keeps : Keeps laws (store_high bus)
  unfolding store_high
  store_high-Keeps m g =
      let k = read8_imm-Gives laws m g in
      (omega arith, IsGood-write laws _ _ _ (high_page _ k.0) k.1.regs.a_byte k.1)

  pub store_high_c-Keeps : Keeps laws (store_high_c bus)
  unfolding store_high_c
  store_high_c-Keeps m g =
      (omega arith, IsGood-write laws _ _ m (high_page _ g.regs.c_byte) g.regs.a_byte g)

  pub store_abs-Keeps : Keeps laws (store_abs bus)
  unfolding store_abs
  store_abs-Keeps m g =
      let k = read16_imm-Gives laws m g in
      (omega arith, IsGood-write laws _ _ _ k.0 k.1.regs.a_byte k.1)

  pub load_high-Keeps : Keeps laws (load_high bus)
  unfolding load_high
  load_high-Keeps m g = let k = read8_imm-Gives laws m g in (omega arith, timed_a laws _ 8 _ k.1)

  pub load_high_c-Keeps : Keeps laws (load_high_c bus)
  unfolding load_high_c
  load_high_c-Keeps m g = (omega arith, timed_a laws _ 4 m g)

  pub load_abs-Keeps : Keeps laws (load_abs bus)
  unfolding load_abs
  load_abs-Keeps m g = let k = read16_imm-Gives laws m g in (omega arith, timed_a laws _ 12 _ k.1)

  pub jump_hl-Keeps : Keeps laws (jump_hl bus)
  unfolding jump_hl
  jump_hl-Keeps m g = (
    omega arith,
    IsGood-regs laws (λ r. put_pc (hl r) r) (λ r v. put_pc-IsValid _ r v (hl-word r v)) m g,
  )

  pub sp_offset-Keeps :
      (put : ℕ → Cpu → Cpu) (n : ℕ) → PutsWord put → IsDuration n → Keeps laws (sp_offset bus put n)
  unfolding sp_offset
  sp_offset-Keeps put n h d m g =
      let k = read8_imm-Gives laws m g in
      let m1 = (read8_imm bus m).1 in
      let s = sp_offset-IsValid m1.cpu.sp (read8_imm bus m).0 m1.cpu k.1.regs in
      (d, record { regs = h _ _ s.1 s.0; holds = k.1.holds })

  pub load_sp_hl-Keeps : Keeps laws (load_sp_hl bus)
  unfolding load_sp_hl
  load_sp_hl-Keeps m g = (
    omega arith,
    IsGood-regs laws (λ r. put_sp (hl r) r) (λ r v. with_sp _ r v (hl-word r v)) m g,
  )

  pub done-Keeps : (k : Cpu → Cpu) → KeepsRegs k → Keeps laws (done bus k)
  unfolding done
  done-Keeps k h m g = (omega arith, IsGood-regs laws k h m g)
