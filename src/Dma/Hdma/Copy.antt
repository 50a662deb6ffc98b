-- ===== src/Dma/Hdma/Copy.antt =====
-- The bytes that a write to FF55 moves, at once or at the HBlanks that follow:
-- `write_hdma_control` and `tick_hdma_hblank` in crates/kokura-core/src/lib.rs.
use kokura.Base.{
  ℕ, zero, suc, ◌+◌, ◌*◌, ◌%◌, ◌≤◌, ◌<◌, ◌≡◌, refl, ◌∙◌, true, false, ◌&&◌, has_bit, if◌then◌else◌,
  Bool-cases, inl, inr, [], arith,
}
use kokura.Mode.{cgb}
use kokura.Memory.{Memory}
use kokura.Memory.Cells.{IsValid}
use kokura.Dma.Hdma.{
  HdmaMachine, Traced, run_gdma, tick_hdma_hblank, arm_hdma, hdma_source_from_regs,
  hdma_dest_from_regs, write_hdma_control,
}
use kokura.Dma.Hdma.Blocks.{
  HasMoved, IsBlock, IsLike, dest-IsBlock, arm_hdma-HasMoved, arm_hdma-IsLike, hblanks,
  hblanks-HasMoved, tick_lem, write_arms,
}
use kokura.Dma.Hdma.General.{estimated, gdma_loop-HasMoved, write_runs}
use kokura.Dma.Hdma.Content.{apart, HasCopied, transfer-HasCopied, arm_hdma-HasCopied}

module _ (rom ram : ℕ → ℕ) where
  hblanks-HasCopied :
      (n blocks source dest : ℕ) (before : Memory) (t : Traced)
      → n ≤ blocks
      → blocks ≤ 128
      → IsBlock dest
      → t.machine.halted ≡ false
      → apart source (16 * blocks) ≡ true
      → HasMoved 0 blocks source dest true t.machine.dma
      → HasCopied rom ram 0 source dest before t.machine.memory
      → HasCopied rom ram (16 * n) source dest before (hblanks rom ram n t).0.machine.memory
  unfolding hblanks IsLike
  hblanks-HasCopied zero blocks source dest before t l b k e s h c = c
  hblanks-HasCopied (suc n) blocks source dest before t l b k e s h c =
      let run = hblanks-HasMoved rom ram n blocks source dest t (omega arith) b k e h in
      let t1 = (hblanks rom ram n t).0 in
      let ih = hblanks-HasCopied n blocks source dest before t (omega arith) b k e s h c in
      rw (tick_lem rom ram n blocks source dest t1 (omega arith) run.0 (run.1.0 ∙ e)) (
        transfer-HasCopied rom ram n blocks source dest true before t1 (omega arith) b k s run.0 ih)

  -- HBlanks leave a machine without an HBlank transfer alone.
  hblanks-idle :
      (n : ℕ) (t : Traced) → t.machine.dma.hdma_active ≡ false → (hblanks rom ram n t).0 ≡ t
  unfolding hblanks tick_hdma_hblank
  hblanks-idle zero t h = refl
  hblanks-idle (suc n) t h = rw (hblanks-idle n t h, h) refl

  run_gdma-HasCopied :
      (blocks source dest : ℕ) (before : Memory) (m : HdmaMachine)
      → blocks ≤ 128
      → IsBlock dest
      → apart source (16 * blocks) ≡ true
      → HasMoved 0 blocks source dest false m.dma
      → HasCopied rom ram 0 source dest before m.memory
      → HasMoved blocks blocks source dest false (run_gdma rom ram m).dma
        × HasCopied rom ram (16 * blocks) source dest before (run_gdma rom ram m).memory
  unfolding run_gdma estimated
  run_gdma-HasCopied blocks source dest before m b k s h c =
      let has =
        λ (n : ℕ) (x : HdmaMachine). HasCopied rom ram (16 * n) source dest before x.memory in
      gdma_loop-HasMoved rom ram has blocks source dest b k
        (λ n t l moved held.
          transfer-HasCopied rom ram n blocks source dest false before t l b k s moved held)
        m.dma.hdma_blocks_remaining 0 blocks (estimated m) (omega arith) (omega (arith, h.left)) h c

  -- On CGB, with the processor not halted, no HBlank transfer active, HDMA1 a byte, storage of
  -- the right sizes and a source range apart from video RAM and from FF00 up: after a write to
  -- FF55 and `n` HBlanks, up to the number of blocks, the bytes from the destination on, around
  -- video RAM, are those that the source had, 16 for each block, of all blocks where bit 7 is
  -- clear and of `n` blocks where it is set; every other address below FF00 reads as before.
  pub write_hdma_control-copies :
      (n value : ℕ) (m : HdmaMachine)
      → m.mode ≡ cgb
      → m.halted ≡ false
      → m.dma.hdma_active && m.dma.hdma_hblank_mode ≡ false
      → m.dma.hdma1 < 256
      → IsValid m.memory
      → apart (hdma_source_from_regs m.dma) (16 * (value % 128 + 1)) ≡ true
      → n ≤ value % 128 + 1
      → let t : Traced = record { machine = write_hdma_control rom ram value m; trace = [] } in
        HasCopied rom ram
          (16 * (if has_bit value 0x80 then n else value % 128 + 1))
          (hdma_source_from_regs m.dma)
          (hdma_dest_from_regs m.dma)
          m.memory
          (hblanks rom ram n t).0.machine.memory
  write_hdma_control-copies n value m c e i h v s l =
      let blocks = value % 128 + 1 in
      let source = hdma_source_from_regs m.dma in
      let dest = hdma_dest_from_regs m.dma in
      let k = dest-IsBlock m.dma in
      let armed = arm_hdma value m in
      let start = arm_hdma-HasMoved value m h in
      let none = arm_hdma-HasCopied rom ram value source dest m v in
      elim (Bool-cases (has_bit value 0x80)) [
        | inl later ↦
            let t : Traced = record { machine = armed; trace = [] } in
            let runs : armed.halted ≡ false = unfold IsLike in (arm_hdma-IsLike value m).0 ∙ e in
            rw (write_arms rom ram value m c i h later, later)
              (hblanks-HasCopied n blocks source dest m.memory t l (omega arith) k runs s
                (rw later at start) none)
        | inr now ↦
            let run =
              run_gdma-HasCopied blocks source dest m.memory armed (omega arith) k s
                (rw now at start) none in
            let t : Traced = record { machine = run_gdma rom ram armed; trace = [] } in
            let off : (run_gdma rom ram armed).dma.hdma_active ≡ false =
              ground (arith, run.0.running) in
            rw (write_runs rom ram value m c i h now, now, hblanks-idle n t off) run.1
      ]
