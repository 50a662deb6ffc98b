-- ===== src/Dma/Hdma/General.antt =====
-- GDMA, the transfer of all blocks at once: `run_gdma` and its loop in
-- crates/kokura-core/src/lib.rs.
use kokura.Base.{
  ℕ, zero, suc, ◌+◌, ◌*◌, ◌%◌, ◌≤◌, ◌<◌, ◌≡◌, refl, sym, ◌∙◌, ap, Bool, true, false, not, ◌&&◌, min,
  has_bit, Bool-cases, inl, inr, [], ◌∷◌, ◌++◌, arith,
}
use native.Mathlib.Nat.{mul-le-mul_left}
use mathlib.Core.Path.{ap₂, subst}
use kokura.Mode.{cgb}
use kokura.Dma.{gdma_stall_estimate}
use kokura.Dma.Hdma.{
  HdmaMachine, Traced, is_cgb, transfer_hdma_block, gdma_loop, run_gdma, add_stall, arm_hdma,
  sync_hdma_registers, hdma_block_stall_cycles, hdma_source_from_regs, hdma_dest_from_regs,
  write_hdma_control,
}
use kokura.Dma.Hdma.Blocks.{
  HasMoved, IsBlock, dest-IsBlock, arm_hdma-HasMoved, arm_hdma-IsLike, IsLike, stall_lem,
  transfer_lem,
}

-- A machine with the trace that `run_gdma` starts from.
unfoldable pub estimated : HdmaMachine → Traced
estimated m =
    let stall = min (m.dma.hdma_blocks_remaining * hdma_block_stall_cycles m) 0xFFFFFFFF in
    record {
      machine = m;
      trace = m.pending_dma_trace ++ (gdma_stall_estimate m.dma.hdma_blocks_remaining stall ∷ []);
    }

block_stall-le : (m : HdmaMachine) → hdma_block_stall_cycles m ≤ 64
unfolding hdma_block_stall_cycles
block_stall-le m = ground arith

arm_hdma-stall :
    (value : ℕ) (m : HdmaMachine)
    → (arm_hdma value m).pending_cpu_stall_cycles ≡ m.pending_cpu_stall_cycles
unfolding arm_hdma sync_hdma_registers
arm_hdma-stall value m = refl

module _ (rom ram : ℕ → ℕ) where
  start : (t : Traced) → gdma_loop rom ram 0 t ≡ t
  unfolding gdma_loop
  start t = refl

  gdma_loop-step :
      (fuel : ℕ) (t : Traced)
      → t.machine.dma.hdma_active ≡ true
      → gdma_loop rom ram (suc fuel) t
        ≡ gdma_loop rom ram fuel (transfer_hdma_block rom ram false t)
  unfolding gdma_loop
  gdma_loop-step fuel t h = rw h refl

  gdma_loop-stop :
      (fuel : ℕ) (t : Traced) → t.machine.dma.hdma_active ≡ false → gdma_loop rom ram fuel t ≡ t
  unfolding gdma_loop
  gdma_loop-stop zero t h = refl
  gdma_loop-stop (suc fuel) t h = rw h refl

  -- A loop that has ended ends alike with more fuel.
  gdma_loop-more :
      (fuel extra : ℕ) (t : Traced)
      → (gdma_loop rom ram fuel t).machine.dma.hdma_active ≡ false
      → gdma_loop rom ram (fuel + extra) t ≡ gdma_loop rom ram fuel t
  gdma_loop-more zero extra t h =
      gdma_loop-stop (0 + extra) t
        (ap (λ (x : Traced). x.machine.dma.hdma_active) (sym (start t)) ∙ h)
      ∙ sym (start t)
  gdma_loop-more (suc fuel) extra t h = elim (Bool-cases t.machine.dma.hdma_active) [
    | inl on ↦
        let next = transfer_hdma_block rom ram false t in
        let over : suc fuel + extra ≡ suc (fuel + extra) = omega arith in
        rw (over, gdma_loop-step (fuel + extra) t on, gdma_loop-step fuel t on)
          (gdma_loop-more fuel extra next (rw (gdma_loop-step fuel t on) at h))
    | inr off ↦ gdma_loop-stop (suc fuel + extra) t off ∙ sym (gdma_loop-stop (suc fuel) t off)
  ]

  transfer-stall :
      (hblank : Bool) (t : Traced)
      → (transfer_hdma_block rom ram hblank t).machine.pending_cpu_stall_cycles
        ≡ t.machine.pending_cpu_stall_cycles
  unfolding transfer_hdma_block sync_hdma_registers
  transfer-stall hblank t = ground arith

  -- The loop from `n` blocks on: it takes the blocks that are left and stops there, with any fuel
  -- from their number up, and what each block keeps holds at the end.
  pub gdma_loop-HasMoved :
      (keeps : ℕ → HdmaMachine → Type 0) (blocks source dest : ℕ)
      → blocks ≤ 128
      → IsBlock dest
      → ((n : ℕ) (t : Traced)
          → n < blocks
          → HasMoved n blocks source dest false t.machine.dma
          → keeps n t.machine
          → keeps (suc n) (transfer_hdma_block rom ram false t).machine)
      → (fuel n left : ℕ) (t : Traced) → n + left ≡ blocks
      → left ≤ fuel
      → HasMoved n blocks source dest false t.machine.dma
      → keeps n t.machine
      → HasMoved blocks blocks source dest false (gdma_loop rom ram fuel t).machine.dma
        × keeps blocks (gdma_loop rom ram fuel t).machine
  gdma_loop-HasMoved keeps blocks source dest b k step fuel n zero t e f h kept =
      let all : n ≡ blocks = omega (arith, e) in
      let off : t.machine.dma.hdma_active ≡ false = ground (arith, h.running, e) in
      rw (gdma_loop-stop fuel t off) (rw all at h, subst (λ x. keeps x t.machine) all kept)
  gdma_loop-HasMoved keeps blocks source dest b k step zero n (suc left) t e f h kept =
      absurd (omega arith)
  gdma_loop-HasMoved keeps blocks source dest b k step (suc fuel) n (suc left) t e f h kept =
      let on : t.machine.dma.hdma_active ≡ true = ground (arith, h.running, e) in
      let moved = transfer_lem rom ram n blocks source dest false t (omega arith) b k h in
      rw (gdma_loop-step fuel t on) (
        gdma_loop-HasMoved keeps blocks source dest b k step fuel (suc n) left
          (transfer_hdma_block rom ram false t) (omega arith) (omega arith) moved.0
          (step n t (omega arith) h kept))

  run_gdma-HasMoved :
      (extra blocks source dest : ℕ) (m : HdmaMachine)
      → blocks ≤ 128
      → IsBlock dest
      → HasMoved 0 blocks source dest false m.dma
      → HasMoved blocks blocks source dest false (run_gdma rom ram m).dma
        × ((run_gdma rom ram m).pending_cpu_stall_cycles
            ≡ add_stall m.pending_cpu_stall_cycles (blocks * hdma_block_stall_cycles m))
        × (gdma_loop rom ram (blocks + extra) (estimated m)
            ≡ gdma_loop rom ram blocks (estimated m))
  unfolding run_gdma estimated
  run_gdma-HasMoved extra blocks source dest m b k h =
      let count : m.dma.hdma_blocks_remaining ≡ blocks = omega (arith, h.left) in
      let t = estimated m in
      let waits =
        λ (n : ℕ) (x : HdmaMachine). x.pending_cpu_stall_cycles ≡ m.pending_cpu_stall_cycles in
      let runs = λ (fuel : ℕ) (f : blocks ≤ fuel).
        gdma_loop-HasMoved waits blocks source dest b k
          (λ n x l moved e. transfer-stall false x ∙ e) fuel 0 blocks t (omega arith) f h refl in
      let run = runs m.dma.hdma_blocks_remaining (omega (arith, count)) in
      let off : (gdma_loop rom ram blocks t).machine.dma.hdma_active ≡ false =
        ground (arith, (runs blocks (omega arith)).0.running) in
      let whole : m.dma.hdma_blocks_remaining * hdma_block_stall_cycles m
          ≡ blocks * hdma_block_stall_cycles m =
        ap (λ n. n * hdma_block_stall_cycles m) count in
      let small : min (m.dma.hdma_blocks_remaining * hdma_block_stall_cycles m) 0xFFFFFFFF
          ≡ blocks * hdma_block_stall_cycles m =
        omega (arith, whole, mul-le-mul_left blocks (block_stall-le m)) in
      (run.0, ap₂ add_stall run.1 small, gdma_loop-more blocks extra t off)

  pub write_runs :
      (value : ℕ) (m : HdmaMachine)
      → m.mode ≡ cgb
      → m.dma.hdma_active && m.dma.hdma_hblank_mode ≡ false
      → m.dma.hdma1 < 256
      → has_bit value 0x80 ≡ false
      → write_hdma_control rom ram value m ≡ run_gdma rom ram (arm_hdma value m)
  unfolding write_hdma_control is_cgb
  write_runs value m c i s v =
      let on : not (is_cgb m.mode) ≡ false = ap (λ mode. not (is_cgb mode)) c in
      let now : not (arm_hdma value m).dma.hdma_hblank_mode ≡ true =
        ground (arith, (arm_hdma-HasMoved value m s).by_hblank, v) in
      rw (on, i, now) refl

  -- On CGB, with no HBlank transfer active and HDMA1 a byte, a write to FF55 with bit 7 clear
  -- ends: the loop comes to the end of the transfer in as many rounds as there are blocks, one
  -- more than the low seven bits, and any more fuel gives the same. Then no block is left, the
  -- transfer is off, the source and the place in video RAM are 16 bytes on for each block, FF55
  -- reads FF, and the processor waits the stall of a block for each, with saturation at 32 bits.
  pub write_hdma_control-ends :
      (extra value : ℕ) (m : HdmaMachine)
      → m.mode ≡ cgb
      → m.dma.hdma_active && m.dma.hdma_hblank_mode ≡ false
      → m.dma.hdma1 < 256
      → has_bit value 0x80 ≡ false
      → let blocks = value % 128 + 1 in
        let after = write_hdma_control rom ram value m in
        HasMoved blocks blocks
          (hdma_source_from_regs m.dma)
          (hdma_dest_from_regs m.dma)
          false
          after.dma
        × (after.pending_cpu_stall_cycles
            ≡ add_stall m.pending_cpu_stall_cycles (blocks * hdma_block_stall_cycles m))
        × (gdma_loop rom ram (blocks + extra) (estimated (arm_hdma value m))
            ≡ gdma_loop rom ram blocks (estimated (arm_hdma value m)))
  unfolding IsLike
  write_hdma_control-ends extra value m c i s v =
      let blocks = value % 128 + 1 in
      let armed = arm_hdma value m in
      let like = arm_hdma-IsLike value m in
      let run =
        run_gdma-HasMoved extra blocks (hdma_source_from_regs m.dma) (hdma_dest_from_regs m.dma)
          armed (omega arith) (dest-IsBlock m.dma) (rw v at (arm_hdma-HasMoved value m s)) in
      let same : add_stall armed.pending_cpu_stall_cycles (blocks * hdma_block_stall_cycles armed)
          ≡ add_stall m.pending_cpu_stall_cycles (blocks * hdma_block_stall_cycles m) =
        ap₂ add_stall (arm_hdma-stall value m)
          (ap (λ n. blocks * n) (stall_lem m armed like.1 like.2)) in
      rw (write_runs value m c i s v) (run.0, run.1 ∙ same, run.2)
