-- ===== src/Dma/Tests.antt =====
-- Runs of the OAM transfer.
use kokura.Base.{
  ℕ, arith, ◌≡◌, [], ◌%◌, ◌+◌, ◌*◌, ◌∷◌, ◌++◌, true, false, refl, has_bit, if◌then◌else◌,
}
use kokura.Memory.Start
use kokura.Memory.Start.{power_on-IsCoherent}
use kokura.Dma.{DmaMachine, oam_dma_start, write_ff46, tick_dma}
use kokura.Dma
use kokura.Mode.{cgb}
use kokura.Dma.Hdma.{
  HdmaMachine, Traced, arm_hdma, gdma_loop, add_stall, write_hdma_control, hdma_source_from_regs,
  hdma_dest_from_regs, hdma_block_stall_cycles,
}
use kokura.Dma.Hdma.Blocks.{HasMoved, hblanks, write_hdma_control-hblanks}
use kokura.Dma.Hdma.General.{estimated, write_hdma_control-ends}
use kokura.Dma.Hdma.Content.{HasCopied}
use kokura.Dma.Hdma.Copy.{write_hdma_control-copies}
use kokura.Dma.Course.{HasSent}
use kokura.Dma.Transfer.{all_short, total, tick_all, write_ff46-sends}
use kokura.Dma.Split.{IsReady, cycles, tick_dma-cycles}

rom : ℕ → ℕ
rom addr = addr % 256

ram : ℕ → ℕ
ram addr = 0xFF

idle : DmaMachine
idle = record { dma = Dma.default; memory = Start.default; trace = [] }

-- A transfer from page 12 of the ROM, just started.
started : DmaMachine
started = write_ff46 0x12 idle

started-IsReady : IsReady started
unfolding started idle write_ff46
started-IsReady = record {
  some_left = omega arith;
  part_of_byte = omega arith;
  delay = omega arith;
}

tick_dma-cycles_example : tick_dma rom ram 100 started ≡ cycles rom ram 100 started
tick_dma-cycles_example = tick_dma-cycles rom ram 100 started started-IsReady (omega arith)

-- A transfer of two blocks from C000, one at each HBlank.
video : HdmaMachine
video = record {
  dma = record Dma.default { hdma1 = 0xC0; hdma2 = 0; hdma3 = 0; hdma4 = 0 };
  memory = Start.default;
  mode = cgb;
  cgb_double_speed = false;
  halted = false;
  ly = 0;
  pending_dma_trace = [];
  pending_cpu_stall_cycles = 0;
}

write_hdma_control-hblanks_example :
    let t : Traced = record { machine = write_hdma_control rom ram 0x81 video; trace = [] } in
    HasMoved 2
      (0x81 % 128 + 1)
      (hdma_source_from_regs video.dma)
      (hdma_dest_from_regs video.dma)
      true
      (hblanks rom ram 2 t).0.machine.dma
    × ((hblanks rom ram 2 t).1 ≡ 2 * hdma_block_stall_cycles video)
unfolding video
write_hdma_control-hblanks_example =
    write_hdma_control-hblanks rom ram 2 0x81 video refl refl refl (omega arith) refl (omega arith)

write_hdma_control-ends_example :
    let blocks = 0x01 % 128 + 1 in
    let after = write_hdma_control rom ram 0x01 video in
    HasMoved blocks blocks
      (hdma_source_from_regs video.dma)
      (hdma_dest_from_regs video.dma)
      false
      after.dma
    × (after.pending_cpu_stall_cycles
        ≡ add_stall video.pending_cpu_stall_cycles (blocks * hdma_block_stall_cycles video))
    × (gdma_loop rom ram (blocks + 5) (estimated (arm_hdma 0x01 video))
        ≡ gdma_loop rom ram blocks (estimated (arm_hdma 0x01 video)))
unfolding video
write_hdma_control-ends_example =
    write_hdma_control-ends rom ram 5 0x01 video refl refl (omega arith) refl

write_hdma_control-copies_example :
    let t : Traced = record { machine = write_hdma_control rom ram 0x81 video; trace = [] } in
    HasCopied rom ram
      (16 * (if has_bit 0x81 0x80 then 1 else 0x81 % 128 + 1))
      (hdma_source_from_regs video.dma)
      (hdma_dest_from_regs video.dma)
      video.memory
      (hblanks rom ram 1 t).0.machine.memory
unfolding video hdma_source_from_regs
write_hdma_control-copies_example =
    write_hdma_control-copies rom ram 1 0x81 video refl refl refl (omega arith)
      power_on-IsCoherent.0.valid refl (omega arith)

-- Ticks of 100, 200, 251 and 100 cycles, more than a transfer takes.
write_ff46-sends_example :
    HasSent rom ram
      (0x12 * 256)
      idle.memory
      (idle.trace ++ (oam_dma_start (0x12 * 256) ∷ []))
      (total (100 ∷ 200 ∷ 251 ∷ 100 ∷ []))
      (tick_all rom ram (100 ∷ 200 ∷ 251 ∷ 100 ∷ []) (write_ff46 0x12 idle))
unfolding idle all_short
write_ff46-sends_example =
    write_ff46-sends rom ram (100 ∷ 200 ∷ 251 ∷ 100 ∷ []) 0x12 idle (omega arith)
      power_on-IsCoherent.0.valid refl
