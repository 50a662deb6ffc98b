-- ===== src/Dma.antt =====
-- The OAM transfer of crates/kokura-core/src: the state of dma.rs, its trace events in types.rs and
-- the methods of `Machine` in lib.rs that work on it. The cartridge's reads, at its present state,
-- are the arguments `read_rom` and `read_ram`.
use kokura.Base.{
  ℕ, zero, suc, ◌+◌, ◌-◌, ◌*◌, ◌/◌, ◌%◌, ◌^◌, min, max, bit_and, bit_or, Bool, true, false, not,
  ◌&&◌, ◌||◌, List, [], ◌∷◌, ◌++◌, ◌==◌, leb, ltb, u8, u16, ◌<<<◌, ◌>>>◌, in_range, if◌then◌else◌,
}
use kokura.Memory.{Memory}
use kokura.Memory
pub mod Loop
pub mod Split
pub mod Oam
pub mod Course
pub mod Transfer
pub mod Hdma
pub mod Tests

pub data HdmaDeferredReason : Type 0 where
  cpu_halted : HdmaDeferredReason

-- Each constructor has its fields in the order of the source.
pub data DmaTraceEvent : Type 0 where
  oam_dma_start : ℕ → DmaTraceEvent
  oam_dma_complete : ℕ → ℕ → DmaTraceEvent
  hdma_start : ℕ → ℕ → ℕ → Bool → DmaTraceEvent
  gdma_stall_estimate : ℕ → ℕ → DmaTraceEvent
  hdma_block : ℕ → ℕ → ℕ → ℕ → Bool → ℕ → DmaTraceEvent
  hdma_complete : ℕ → ℕ → ℕ → Bool → DmaTraceEvent
  hdma_cancel : ℕ → ℕ → ℕ → DmaTraceEvent
  hdma_deferred : ℕ → ℕ → HdmaDeferredReason → DmaTraceEvent
  hdma_write_ignored : ℕ → ℕ → DmaTraceEvent

pub record DmaState : Type 0 where
  pub active : Bool
  pub source : ℕ
  pub bytes_copied : ℕ
  pub cycle_accum : ℕ
  pub start_delay_cycles : ℕ
  pub ff46 : ℕ
  pub hdma1 : ℕ
  pub hdma2 : ℕ
  pub hdma3 : ℕ
  pub hdma4 : ℕ
  pub hdma5 : ℕ
  pub hdma_source : ℕ
  pub hdma_dest : ℕ
  pub hdma_blocks_remaining : ℕ
  pub hdma_total_blocks : ℕ
  pub hdma_hblank_mode : Bool
  pub hdma_active : Bool

abbrev pub default : DmaState
default = record {
  active = false;
  source = 0;
  bytes_copied = 0;
  cycle_accum = 0;
  start_delay_cycles = 0;
  ff46 = 0xFF;
  hdma1 = 0xFF;
  hdma2 = 0xFF;
  hdma3 = 0xFF;
  hdma4 = 0xFF;
  hdma5 = 0xFF;
  hdma_source = 0;
  hdma_dest = 0x8000;
  hdma_blocks_remaining = 0;
  hdma_total_blocks = 0;
  hdma_hblank_mode = false;
  hdma_active = false;
}

-- The parts of `Machine` that a transfer changes, and the trace it pushes to.
pub record DmaMachine : Type 0 where
  pub dma : DmaState
  pub memory : Memory
  pub trace : List DmaTraceEvent

-- The arm FF46 of `write8`, less its diagnostic.
unfoldable pub write_ff46 : ℕ → DmaMachine → DmaMachine
write_ff46 value m = record m {
  dma = record m.dma {
    ff46 = value;
    active = true;
    source = u16 (value <<< 8);
    bytes_copied = 0;
    cycle_accum = 0;
    start_delay_cycles = 4;
  };
  memory = Memory.write8 0xFF46 value m.memory;
  trace = m.trace ++ (oam_dma_start (u16 (value <<< 8)) ∷ []);
}

unfoldable pub cycles_until_next_dma_event : DmaState → ℕ
cycles_until_next_dma_event d =
    if not d.active
    then 4294967295
    else if ltb 0 d.start_delay_cycles
    then d.start_delay_cycles
    else max (4 - d.cycle_accum) 1

unfoldable pub saturating_add8 : ℕ → ℕ → ℕ
saturating_add8 a b = min 255 (a + b)

unfoldable pub copying : DmaMachine → Bool
copying m = leb 4 m.dma.cycle_accum && ltb m.dma.bytes_copied 0xA0

unfoldable pub complete : DmaMachine → DmaMachine
complete m =
    if leb 0xA0 m.dma.bytes_copied
    then record m {
      dma = record m.dma {
        active = false;
        bytes_copied = 0;
        cycle_accum = 0;
        start_delay_cycles = 0;
      };
      trace = m.trace ++ (oam_dma_complete m.dma.source 0xA0 ∷ []);
    }
    else m

module _ (read_rom read_ram : ℕ → ℕ) where
  unfoldable pub read8_for_dma : ℕ → Memory → ℕ
  read8_for_dma addr mem =
      if in_range 0x0000 0x7FFF addr
      then read_rom addr
      else if in_range 0xA000 0xBFFF addr
      then read_ram addr
      else Memory.read8 mem addr

  -- A round of the loop of `tick_dma`.
  unfoldable pub copy_byte : DmaMachine → DmaMachine
  copy_byte m =
      let index = m.dma.bytes_copied in
      let value = read8_for_dma (u16 (m.dma.source + index)) m.memory in
      record m {
        dma = record m.dma { bytes_copied = index + 1; cycle_accum = m.dma.cycle_accum - 4 };
        memory = Memory.write8 (0xFE00 + index) value m.memory;
      }

  unfoldable pub copy_loop : ℕ → DmaMachine → DmaMachine
  copy_loop zero m = m
  copy_loop (suc fuel) m = let rest = copy_loop fuel (copy_byte m) in if copying m then rest else m

  -- The statements after the startup delay. Each round takes four of at most 255 cycles.
  unfoldable pub run_dma : ℕ → DmaMachine → DmaMachine
  run_dma remaining m =
      let accum = saturating_add8 m.dma.cycle_accum (u8 remaining) in
      complete (copy_loop 64 (record m { dma = record m.dma { cycle_accum = accum } }))

  unfoldable pub tick_dma : ℕ → DmaMachine → DmaMachine
  tick_dma cycles m =
      if not m.dma.active
      then m
      else if ltb 0 m.dma.start_delay_cycles
      then (let delay_step = min cycles m.dma.start_delay_cycles in
          let m1 = record m {
            dma = record m.dma { start_delay_cycles = m.dma.start_delay_cycles - u8 delay_step };
          } in
          if cycles - delay_step == 0 then m1 else run_dma (cycles - delay_step) m1)
      else run_dma cycles m
