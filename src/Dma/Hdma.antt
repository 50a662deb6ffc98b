-- ===== src/Dma/Hdma.antt =====
-- The transfers to video RAM: HDMA, a block at each HBlank, and GDMA, all blocks at once, with the
-- bus gates of the OAM transfer, all in crates/kokura-core/src/lib.rs. The cartridge's reads, at its
-- present state, are the arguments `read_rom` and `read_ram`.
use kokura.Base.{
  ℕ, zero, suc, ◌+◌, ◌-◌, ◌*◌, ◌/◌, ◌^◌, min, bit_and, bit_or, Bool, true, false, not, ◌&&◌, ◌||◌,
  List, [], ◌∷◌, ◌++◌, ◌==◌, ltb, u8, u16, ◌<<<◌, ◌>>>◌, has_bit, in_range, if◌then◌else◌,
}
use kokura.Mode.{HardwareMode, dmg, cgb}
use kokura.Memory.{Memory}
use kokura.Memory
use kokura.Dma.{
  DmaState, DmaTraceEvent, cpu_halted, hdma_start, gdma_stall_estimate, hdma_block, hdma_complete,
  hdma_cancel, hdma_deferred, hdma_write_ignored, read8_for_dma,
}
pub mod Blocks
pub mod General
pub mod Content
pub mod Copy

-- The parts of `Machine` that a transfer reads and changes; `halted` is the processor's and `ly` the
-- picture unit's.
pub record HdmaMachine : Type 0 where
  pub dma : DmaState
  pub memory : Memory
  pub mode : HardwareMode
  pub cgb_double_speed : Bool
  pub halted : Bool
  pub ly : ℕ
  pub pending_dma_trace : List DmaTraceEvent
  pub pending_cpu_stall_cycles : ℕ

-- A machine and the trace that a call pushes to.
pub record Traced : Type 0 where
  pub machine : HdmaMachine
  pub trace : List DmaTraceEvent

unfoldable pub is_cgb : HardwareMode → Bool
is_cgb dmg = false
is_cgb cgb = true

unfoldable pub dma_blocks_cpu_access : ℕ → HardwareMode → DmaState → Bool
dma_blocks_cpu_access addr mode d =
    let cartridge = λ (a : ℕ). in_range 0x0000 0x7FFF a || in_range 0xA000 0xBFFF a in
    if not d.active
    then false
    else if not (is_cgb mode)
    then not (in_range 0xFF80 0xFFFE addr)
    else if in_range 0xFE00 0xFEFF addr
    then true
    else if cartridge d.source
    then cartridge addr
    else if in_range 0x8000 0x9FFF d.source
    then in_range 0x8000 0x9FFF addr
    else if in_range 0xC000 0xDFFF d.source
    then in_range 0xC000 0xFDFF addr
    else false

unfoldable pub cgb_fast_domains_enabled : HdmaMachine → Bool
cgb_fast_domains_enabled m = is_cgb m.mode && m.cgb_double_speed

unfoldable pub hdma_block_stall_cycles : HdmaMachine → ℕ
hdma_block_stall_cycles m = if cgb_fast_domains_enabled m then 32 * 2 else 32

unfoldable pub hdma_source_from_regs : DmaState → ℕ
hdma_source_from_regs d = bit_or (d.hdma1 <<< 8) (bit_and d.hdma2 0xF0)

unfoldable pub hdma_dest_from_regs : DmaState → ℕ
hdma_dest_from_regs d = bit_or 0x8000 (bit_or (bit_and d.hdma3 0x1F <<< 8) (bit_and d.hdma4 0xF0))

-- The arms FF51 to FF54 of `write8`.
unfoldable pub write_hdma_address : ℕ → ℕ → HdmaMachine → HdmaMachine
write_hdma_address addr value m =
    let put =
      λ (d : DmaState) (v : ℕ). record m { dma = d; memory = Memory.write8 addr v m.memory } in
    let high = bit_and value 0xF0 in
    let low = bit_and value 0x1F in
    if addr == 0xFF51
    then put (record m.dma { hdma1 = value }) value
    else if addr == 0xFF52
    then put (record m.dma { hdma2 = high }) high
    else if addr == 0xFF53
    then put (record m.dma { hdma3 = low }) low
    else if addr == 0xFF54
    then put (record m.dma { hdma4 = high }) high
    else m

unfoldable pub status : DmaState → ℕ
status d =
    let left = bit_and (d.hdma_blocks_remaining - 1) 0x7F in
    if d.hdma_active then left else if ltb 0 d.hdma_blocks_remaining then bit_or 0x80 left else 0xFF

unfoldable pub sync_hdma_registers : HdmaMachine → HdmaMachine
sync_hdma_registers m =
    let source = m.dma.hdma_source in
    let dest_offset = u16 (m.dma.hdma_dest + 65536 - 0x8000) in
    let d = record m.dma {
      hdma1 = u8 (source >>> 8);
      hdma2 = bit_and (u8 source) 0xF0;
      hdma3 = bit_and (u8 (dest_offset >>> 8)) 0x1F;
      hdma4 = bit_and (u8 dest_offset) 0xF0;
      hdma5 = status m.dma;
    } in
    record m {
      dma = d;
      memory = Memory.write8 0xFF55 d.hdma5 (
          Memory.write8 0xFF54 d.hdma4 (
            Memory.write8 0xFF53 d.hdma3
              (Memory.write8 0xFF52 d.hdma2 (Memory.write8 0xFF51 d.hdma1 m.memory))));
    }

-- `saturating_add` on u32.
unfoldable pub add_stall : ℕ → ℕ → ℕ
add_stall a b = min (a + b) 0xFFFFFFFF

unfoldable pub cancel_hdma : HdmaMachine → HdmaMachine
cancel_hdma m =
    let d = m.dma in
    let event = hdma_cancel d.hdma_source d.hdma_dest d.hdma_blocks_remaining in
    sync_hdma_registers (record m {
      dma = record d { hdma_active = false; hdma_hblank_mode = false };
      pending_dma_trace = m.pending_dma_trace ++ (event ∷ []);
    })

-- The transfer is armed.
unfoldable pub arm_hdma : ℕ → HdmaMachine → HdmaMachine
arm_hdma value m =
    let blocks = u8 (bit_and value 0x7F + 1) in
    let d = record m.dma {
      hdma_source = hdma_source_from_regs m.dma;
      hdma_dest = hdma_dest_from_regs m.dma;
      hdma_blocks_remaining = blocks;
      hdma_total_blocks = blocks;
      hdma_hblank_mode = has_bit value 0x80;
      hdma_active = true;
    } in
    let event = hdma_start d.hdma_source d.hdma_dest blocks d.hdma_hblank_mode in
    sync_hdma_registers
      (record m { dma = d; pending_dma_trace = m.pending_dma_trace ++ (event ∷ []) })

module _ (read_rom read_ram : ℕ → ℕ) where
  -- `for offset in 0..n`.
  unfoldable pub copy_bytes : ℕ → ℕ → ℕ → Memory → Memory
  copy_bytes zero source dest mem = mem
  copy_bytes (suc offset) source dest mem =
      let copied = copy_bytes offset source dest mem in
      let value = read8_for_dma read_rom read_ram (u16 (source + offset)) copied in
      let vram_addr = bit_or 0x8000 (bit_and (u16 (u16 (dest + 65536 - 0x8000) + offset)) 0x1FFF) in
      Memory.write8 vram_addr value copied

  -- The addresses and the count of the next block.
  unfoldable pub next_block : DmaState → DmaState
  next_block d = record d {
    hdma_source = u16 (d.hdma_source + 0x10);
    hdma_dest = bit_or 0x8000 (bit_and (u16 (u16 (d.hdma_dest + 65536 - 0x8000) + 0x10)) 0x1FF0);
    hdma_blocks_remaining = d.hdma_blocks_remaining - 1;
  }

  unfoldable pub transfer_hdma_block : Bool → Traced → Traced
  transfer_hdma_block hblank_mode t =
      let m = t.machine in
      let d = m.dma in
      let block_index = d.hdma_total_blocks - d.hdma_blocks_remaining in
      let d1 = next_block d in
      let block =
        hdma_block d.hdma_source d.hdma_dest block_index d1.hdma_blocks_remaining hblank_mode
          (hdma_block_stall_cycles m) in
      let done = hdma_complete d1.hdma_source d1.hdma_dest d1.hdma_total_blocks hblank_mode in
      let last = d1.hdma_blocks_remaining == 0 in
      let d2 = record d1 {
        hdma_active = if last then false else d1.hdma_active;
        hdma_hblank_mode = if last then false else d1.hdma_hblank_mode;
      } in
      let m1 = record m { dma = d2; memory = copy_bytes 0x10 d.hdma_source d.hdma_dest m.memory } in
      if not d.hdma_active || d.hdma_blocks_remaining == 0 then t else record {
        machine = sync_hdma_registers m1;
        trace = t.trace ++ (block ∷ (if last then done ∷ [] else []));
      }

  -- The machine with its trace, and the cycles that the processor waits.
  unfoldable pub tick_hdma_hblank : Traced → Traced × ℕ
  tick_hdma_hblank t =
      let m = t.machine in
      let deferred = hdma_deferred m.dma.hdma_blocks_remaining m.ly cpu_halted in
      let moved = transfer_hdma_block true t in
      if not (m.dma.hdma_active && m.dma.hdma_hblank_mode)
      then (t, 0)
      else if m.halted
      then (record t { trace = t.trace ++ (deferred ∷ []) }, 0)
      else (moved, hdma_block_stall_cycles moved.machine)

  -- `while self.dma.hdma_active`. Each round takes a block, so the blocks are enough fuel.
  unfoldable pub gdma_loop : ℕ → Traced → Traced
  gdma_loop zero t = t
  gdma_loop (suc fuel) t =
      let rest = gdma_loop fuel (transfer_hdma_block false t) in
      if t.machine.dma.hdma_active then rest else t

  unfoldable pub run_gdma : HdmaMachine → HdmaMachine
  run_gdma m =
      let gdma_blocks = m.dma.hdma_blocks_remaining in
      let stall_cycles = min (gdma_blocks * hdma_block_stall_cycles m) 0xFFFFFFFF in
      let estimate = gdma_stall_estimate gdma_blocks stall_cycles in
      let t : Traced = record { machine = m; trace = m.pending_dma_trace ++ (estimate ∷ []) } in
      let t1 = gdma_loop gdma_blocks t in
      record t1.machine {
        pending_cpu_stall_cycles = add_stall t1.machine.pending_cpu_stall_cycles stall_cycles;
        pending_dma_trace = t1.trace;
      }

  unfoldable pub write_hdma_control : ℕ → HdmaMachine → HdmaMachine
  write_hdma_control value m =
      let ignored = hdma_write_ignored value m.dma.hdma_blocks_remaining in
      let armed = arm_hdma value m in
      if not (is_cgb m.mode)
      then record m {
        dma = record m.dma { hdma5 = 0xFF };
        memory = Memory.write8 0xFF55 0xFF m.memory;
      }
      else if m.dma.hdma_active && m.dma.hdma_hblank_mode
      then (if not (has_bit value 0x80)
          then cancel_hdma m
          else sync_hdma_registers
              (record m { pending_dma_trace = m.pending_dma_trace ++ (ignored ∷ []) }))
      else if not armed.dma.hdma_hblank_mode
      then run_gdma armed
      else armed
