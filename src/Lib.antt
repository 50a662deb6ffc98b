-- ===== src/Lib.antt =====
-- Verification library of the emulator core, crates/kokura-core/src.
--
-- The core is a Game Boy. `Machine` (lib.rs) owns the processor, the devices and the cartridge: an
-- instruction reads and writes through the bus, which dispatches addresses to memory, devices and
-- the cartridge's bank controller, and the devices are then advanced by the cycles it took and
-- request interrupts, which the processor serves before its next instruction. The parts modelled
-- here, with `src/` for crates/kokura-core/src:
--
--   Timer       src/timer.rs: divider, TIMA and its delayed reload, on the cycle by cycle path
--               `tick` and on the path `tick_fast` that jumps from edge to edge.
--   Interrupt   src/interrupt.rs: requests, enables and priority.
--   Joypad      src/joypad.rs: the button matrix behind P1 and its interrupt.
--   Serial      src/serial.rs: the shift register on either clock, and the link between two ports.
--   Memory      src/memory.rs: banked video and work RAM with the flat image of the address space,
--               its construction (Memory/Start) and the color palettes (Memory/Palette).
--   Dma         src/dma.rs and the OAM transfer of lib.rs; Dma/Loop has the laws of its copying loop,
--               Dma/Oam and Dma/Course what it has copied after some cycles, Dma/Transfer whole runs.
--               Dma/Hdma is the transfers to video RAM and the bus gates, Dma/Hdma/Blocks their
--               blocks, General the loop of GDMA, Content and Copy the bytes they move.
--   Ppu         src/ppu/mod.rs. Ppu/State is the state, Ppu the registers, the modes and the STAT
--               line, Ppu/Clock the two tick paths and the predictions, Ppu/Sprites the choice of a
--               line's sprites, Ppu/Render the drawing, Ppu/Redraw what is around it. Ppu/Stat, Sync,
--               Position, Predict, Frame and Calls prove of the clock, Ppu/Selection and Chosen of the
--               choice of sprites, Ppu/Row, Front, Paint and Overlay of the drawing. Ppu/Picture and
--               Ppu/Shown say apart from the code what video RAM describes.
--   Apu         src/apu.rs. Apu/State is the state, Apu the registers read, Apu/Effects and Apu/Write
--               the writes, Apu/Phase the dividers, Apu/Sequencer the clocks of lengths, envelopes
--               and the sweep, Apu/Mix the mixer, filters and queue, Apu/Tick the tick paths. The
--               operations of f64 are the interface `Float`. Apu/Gate, Position, Advance, Split,
--               Queue and Status prove.
--   Mbc         src/mbc: Mbc/Storage is the storage of mod.rs; Mbc/RomOnly, Mbc1, Mbc2, Mbc3, Mbc5,
--               Mbc7, Mmm01 and HuC1 are the controllers of the files of those names; Mbc/Eeprom
--               proves the serial protocol of Mbc7. The time of the
--               host, which the clock of Mbc3 reads, is an argument of its operations.
--   Cpu         src/cpu and the processor's half of lib.rs. Cpu/Regs is the register file, Cpu/Alu
--               and Cpu/Rotate the helpers on it, Cpu/Bus the fetch, stack and operand helpers,
--               Cpu/Exec the instructions: `decode` finds the arm of an opcode, among those of
--               Cpu/Exec/Low (00 to 3F) and Cpu/Exec/High (76 and C0 to FF), and `execute_opcode`
--               runs it. Cpu/Exec/Cb is the CB page. Cpu/Step is a step of the machine: interrupt
--               service, HALT, fetch, execution and the end of the step.
--   Mode        src/types.rs: the hardware modes.
--   Base        what they share: machine words, arrays, binary digits, tables over a byte and the
--               state monad of the instructions.
--
-- A definition has the name of its source. A method on `&mut self` becomes a function to the new
-- record, beside what it returns; a `Vec` of trace events that a method pushes to is threaded or
-- returned as a list. u8, u16 and u32 are natural numbers with the wrap written out; an array read
-- out of range takes the default that the source gives for it.
--
-- The instructions run over the interface `Bus`, which stands for the rest of `Machine`: reads,
-- timed reads, writes, the pending interrupt test, the speed switch and leaving a handler. A step
-- runs over `System`, which adds the interrupt controller, entering a handler, the pending stalls and the clocks. What is
-- proved of them holds over every bus and system with the laws that the theorem names, and Cpu/Tests
-- and Cpu/Step/Tests have instances. The arms 40 to BF of `execute_opcode` stand behind its early
-- returns, which take those opcodes, so they are unreachable and left out.
--
-- Loops. `tick` of the timer runs on its number of cycles. The edge loop of `tick_fast` runs on fuel,
-- the cycles that remain, which is enough since each round takes one cycle or more, and the theorem
-- on it includes that it ends. `advance_div_counter` runs on accessibility of `<`. The loops of the
-- serial port run on the bits that remain. The copying loop of the OAM transfer has 64 rounds, which
-- are enough since each takes 4 of at most 255 cycles. The loops of the picture unit have as many
-- rounds as cycles, since each takes one or more, and `predict_state_after_cycles` a round for each
-- line. The loops of the sound unit have as many rounds as cycles too, and its loops over the queue
-- one for each element. GDMA runs a round for each of its blocks. The sort of sprites is the insertion
-- sort that Rust's stable `sort_by` is equal to.
--
-- Not modelled: the dispatch of the bus, the clocks and run loops of `Machine`, the controllers with
-- flash, sensors or command registers (MBC6, HuC3, TAMA5, Pocket Camera), cartridge loading and
-- saved states; and the crates around the core, which are front ends and bindings.
mod Base
pub mod Timer
pub mod Mode
pub mod Apu
pub mod Interrupt
pub mod Joypad
pub mod Serial
pub mod Mbc
pub mod Memory
pub mod Cpu
pub mod Dma
pub mod Ppu
