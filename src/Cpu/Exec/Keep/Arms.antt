-- ===== src/Cpu/Exec/Keep/Arms.antt =====
-- Good machines through the lists of arms of `execute_opcode` in crates/kokura-core/src/lib.rs.
use kokura.Base.{ℕ, ◌+◌, true, not, arith, List, [], ◌∷◌, u16}
use kokura.Cpu.Regs.{flag_z, flag_c, hl, set_hl, ld_bc, set_bc, ld_de, set_de}
use kokura.Cpu.Alu.{inc8, dec8, daa, add_a, sub_a, adc_a, sbc_a, and_a, or_a, xor_a, cp_a}
use kokura.Cpu.Rotate.{rlca, rla, rrca, rra}
use kokura.Cpu.Bus.{Bus}
use kokura.Cpu.Valid.{
  with_sp, rlca-IsValid, rla-IsValid, rrca-IsValid, rra-IsValid, daa-IsValid, inc8-IsValid,
  dec8-IsValid, set_hl-IsValid, set_bc-IsValid, set_de-IsValid, bc-word, de-word, put_a-IsValid,
  put_b-IsValid, put_c-IsValid, put_d-IsValid, put_e-IsValid, put_h-IsValid, put_l-IsValid,
  add_a-IsValid, sub_a-IsValid, adc_a-IsValid, sbc_a-IsValid, and_a-IsValid, or_a-IsValid,
  xor_a-IsValid, cp_a-IsValid,
}
use kokura.Cpu.Exec.Low.{
  Instr, cpl, scf, ccf, arms_00, arms_10, arms_20, arms_30, put_a, put_b, put_c, put_d, put_e,
  put_h, put_l, put_sp,
}
use kokura.Cpu.Exec.Keep.{BusLaws}
use kokura.Cpu.Exec.High.{set_af, ld_af, di, ei, arms_c0, arms_d0, arms_e0, arms_f0}
use kokura.Cpu.Exec.Keep.Low.{
  add_pair-Keeps, dec_pair-Keeps, dec_reg-Keeps, inc_pair-Keeps, inc_reg-Keeps, jump_relative-Keeps,
  load_a-Keeps, load_a_step-Keeps, load_imm-Keeps, load_imm16-Keeps, plain-Keeps, step_at_hl-Keeps,
  stop-Keeps, store_a-Keeps, store_a_step-Keeps, store_imm-Keeps, store_sp-Keeps, cpl-IsValid,
  scf-IsValid, ccf-IsValid, Keeps,
}
use kokura.Cpu.Exec.Keep.High.{
  alu_imm-Keeps, call-Keeps, call_if-Keeps, cb_prefix-Keeps, done-Keeps, jump-Keeps, jump_hl-Keeps,
  jump_if-Keeps, load_abs-Keeps, load_high-Keeps, load_high_c-Keeps, load_sp_hl-Keeps,
  pop_pair-Keeps, push_pair-Keeps, ret-Keeps, ret_if-Keeps, reti-Keeps, rst-Keeps, sp_offset-Keeps,
  store_abs-Keeps, store_high-Keeps, store_high_c-Keeps, set_af-IsValid, di-IsValid, ei-IsValid,
}

module _ {M : Type 0} {bus : Bus M} (laws : BusLaws bus) where
  -- Every arm of a list keeps a good machine.
  infixr 5 ◌&◌
  pub data AllKeep : List (ℕ × Instr M) → Type 0 where
    nothing : AllKeep []
    ◌&◌ :
        {key : ℕ} {arm : Instr M} {arms : List (ℕ × Instr M)}
        → Keeps laws arm
        → AllKeep arms
        → AllKeep ((key, arm) ∷ arms)

  pub arms_00-Keep : AllKeep (arms_00 bus)
  unfolding arms_00
  arms_00-Keep =
      (λ m g. (omega arith, g))
      & load_imm16-Keeps laws set_bc (λ x r v _. set_bc-IsValid x r v)
      & store_a-Keeps laws ld_bc bc-word
      & inc_pair-Keeps laws ld_bc set_bc (λ x r v _. set_bc-IsValid x r v)
      & inc_reg-Keeps laws (λ r. r.b) put_b put_b-IsValid
      & dec_reg-Keeps laws (λ r. r.b) put_b put_b-IsValid
      & load_imm-Keeps laws put_b put_b-IsValid
      & plain-Keeps laws rlca rlca-IsValid
      & load_a-Keeps laws ld_bc
      & add_pair-Keeps laws ld_bc
      & dec_pair-Keeps laws ld_bc set_bc (λ x r v _. set_bc-IsValid x r v)
      & inc_reg-Keeps laws (λ r. r.c) put_c put_c-IsValid
      & dec_reg-Keeps laws (λ r. r.c) put_c put_c-IsValid
      & load_imm-Keeps laws put_c put_c-IsValid
      & plain-Keeps laws rrca rrca-IsValid
      & stop-Keeps laws
      & nothing

  pub arms_10-Keep : AllKeep (arms_10 bus)
  unfolding arms_10
  arms_10-Keep =
      store_sp-Keeps laws
      & load_imm16-Keeps laws set_de (λ x r v _. set_de-IsValid x r v)
      & store_a-Keeps laws ld_de de-word
      & inc_pair-Keeps laws ld_de set_de (λ x r v _. set_de-IsValid x r v)
      & add_pair-Keeps laws ld_de
      & load_a-Keeps laws ld_de
      & dec_pair-Keeps laws ld_de set_de (λ x r v _. set_de-IsValid x r v)
      & inc_reg-Keeps laws (λ r. r.d) put_d put_d-IsValid
      & dec_reg-Keeps laws (λ r. r.d) put_d put_d-IsValid
      & load_imm-Keeps laws put_d put_d-IsValid
      & plain-Keeps laws rla rla-IsValid
      & jump_relative-Keeps laws (λ r. true)
      & inc_reg-Keeps laws (λ r. r.e) put_e put_e-IsValid
      & dec_reg-Keeps laws (λ r. r.e) put_e put_e-IsValid
      & load_imm-Keeps laws put_e put_e-IsValid
      & plain-Keeps laws rra rra-IsValid
      & nothing

  pub arms_20-Keep : AllKeep (arms_20 bus)
  unfolding arms_20
  arms_20-Keep =
      jump_relative-Keeps laws (λ r. not (flag_z r.f))
      & load_imm16-Keeps laws set_hl (λ x r v _. set_hl-IsValid x r v)
      & inc_pair-Keeps laws hl set_hl (λ x r v _. set_hl-IsValid x r v)
      & store_a_step-Keeps laws (λ addr. u16 (addr + 1))
      & inc_reg-Keeps laws (λ r. r.h) put_h put_h-IsValid
      & dec_reg-Keeps laws (λ r. r.h) put_h put_h-IsValid
      & load_imm-Keeps laws put_h put_h-IsValid
      & plain-Keeps laws daa daa-IsValid
      & jump_relative-Keeps laws (λ r. flag_z r.f)
      & load_a_step-Keeps laws (λ addr. u16 (addr + 1))
      & add_pair-Keeps laws hl
      & dec_pair-Keeps laws hl set_hl (λ x r v _. set_hl-IsValid x r v)
      & inc_reg-Keeps laws (λ r. r.l) put_l put_l-IsValid
      & dec_reg-Keeps laws (λ r. r.l) put_l put_l-IsValid
      & load_imm-Keeps laws put_l put_l-IsValid
      & plain-Keeps laws cpl cpl-IsValid
      & nothing

  pub arms_30-Keep : AllKeep (arms_30 bus)
  unfolding arms_30
  arms_30-Keep =
      jump_relative-Keeps laws (λ r. not (flag_c r.f))
      & load_imm16-Keeps laws put_sp with_sp
      & inc_pair-Keeps laws (λ r. r.sp) put_sp with_sp
      & store_a_step-Keeps laws (λ addr. u16 (addr + 0xFFFF))
      & add_pair-Keeps laws (λ r. r.sp)
      & load_a_step-Keeps laws (λ addr. u16 (addr + 0xFFFF))
      & dec_pair-Keeps laws (λ r. r.sp) put_sp with_sp
      & step_at_hl-Keeps laws inc8 inc8-IsValid
      & step_at_hl-Keeps laws dec8 dec8-IsValid
      & store_imm-Keeps laws
      & plain-Keeps laws scf scf-IsValid
      & jump_relative-Keeps laws (λ r. flag_c r.f)
      & inc_reg-Keeps laws (λ r. r.a) put_a put_a-IsValid
      & dec_reg-Keeps laws (λ r. r.a) put_a put_a-IsValid
      & load_imm-Keeps laws put_a put_a-IsValid
      & plain-Keeps laws ccf ccf-IsValid
      & nothing

  pub arms_c0-Keep : AllKeep (arms_c0 bus)
  unfolding arms_c0
  arms_c0-Keep =
      cb_prefix-Keeps laws
      & ret_if-Keeps laws (λ r. not (flag_z r.f))
      & pop_pair-Keeps laws set_bc set_bc-IsValid
      & jump_if-Keeps laws (λ r. not (flag_z r.f))
      & jump-Keeps laws
      & call_if-Keeps laws (λ r. not (flag_z r.f))
      & push_pair-Keeps laws ld_bc
      & rst-Keeps laws 0x00 (omega arith)
      & ret_if-Keeps laws (λ r. flag_z r.f)
      & ret-Keeps laws
      & jump_if-Keeps laws (λ r. flag_z r.f)
      & call_if-Keeps laws (λ r. flag_z r.f)
      & alu_imm-Keeps laws add_a add_a-IsValid
      & call-Keeps laws
      & rst-Keeps laws 0x08 (omega arith)
      & nothing

  pub arms_d0-Keep : AllKeep (arms_d0 bus)
  unfolding arms_d0
  arms_d0-Keep =
      ret_if-Keeps laws (λ r. not (flag_c r.f))
      & pop_pair-Keeps laws set_de set_de-IsValid
      & jump_if-Keeps laws (λ r. not (flag_c r.f))
      & call_if-Keeps laws (λ r. not (flag_c r.f))
      & push_pair-Keeps laws ld_de
      & alu_imm-Keeps laws sub_a sub_a-IsValid
      & rst-Keeps laws 0x10 (omega arith)
      & rst-Keeps laws 0x18 (omega arith)
      & ret_if-Keeps laws (λ r. flag_c r.f)
      & jump_if-Keeps laws (λ r. flag_c r.f)
      & alu_imm-Keeps laws adc_a adc_a-IsValid
      & call_if-Keeps laws (λ r. flag_c r.f)
      & alu_imm-Keeps laws sbc_a sbc_a-IsValid
      & reti-Keeps laws
      & nothing

  pub arms_e0-Keep : AllKeep (arms_e0 bus)
  unfolding arms_e0
  arms_e0-Keep =
      store_high-Keeps laws
      & pop_pair-Keeps laws set_hl set_hl-IsValid
      & store_high_c-Keeps laws
      & push_pair-Keeps laws hl
      & store_abs-Keeps laws
      & alu_imm-Keeps laws and_a and_a-IsValid
      & load_high-Keeps laws
      & load_high_c-Keeps laws
      & rst-Keeps laws 0x20 (omega arith)
      & jump_hl-Keeps laws
      & alu_imm-Keeps laws xor_a xor_a-IsValid
      & rst-Keeps laws 0x28 (omega arith)
      & nothing

  pub arms_f0-Keep : AllKeep (arms_f0 bus)
  unfolding arms_f0
  arms_f0-Keep =
      pop_pair-Keeps laws set_af set_af-IsValid
      & done-Keeps laws di di-IsValid
      & sp_offset-Keeps laws put_sp 16 with_sp (omega arith)
      & call_if-Keeps laws (λ r. not (flag_c r.f))
      & alu_imm-Keeps laws or_a or_a-IsValid
      & sp_offset-Keeps laws set_hl 12 (λ x r v _. set_hl-IsValid x r v) (omega arith)
      & load_sp_hl-Keeps laws
      & load_abs-Keeps laws
      & push_pair-Keeps laws ld_af
      & rst-Keeps laws 0x30 (omega arith)
      & done-Keeps laws ei ei-IsValid
      & rst-Keeps laws 0x38 (omega arith)
      & alu_imm-Keeps laws cp_a cp_a-IsValid
      & nothing
