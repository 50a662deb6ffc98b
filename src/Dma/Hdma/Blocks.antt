-- ===== src/Dma/Hdma/Blocks.antt =====
-- How a transfer to video RAM goes on, a block at a time.
use kokura.Base.{
  ℕ, zero, suc, ◌+◌, ◌-◌, ◌*◌, ◌%◌, ◌≤◌, ◌<◌, ◌≡◌, refl, ◌∙◌, ap, Bool, true, false, not, ◌&&◌,
  ◌||◌, ◌==◌, ltb, bit_and, bit_and_low, u16, if◌then◌else◌, bit_and-le, bit_or-lt, bit_or,
  bit_or_join, bit_and_nibble, ◌/◌, ◌<<<◌, ◌^◌, has_bit, u8, [], arith,
}
use kokura.Mode.{cgb}
use kokura.Dma.{DmaState}
use kokura.Dma.Hdma.{
  HdmaMachine, Traced, is_cgb, status, sync_hdma_registers, next_block, transfer_hdma_block,
  tick_hdma_hblank, hdma_block_stall_cycles, cgb_fast_domains_enabled, hdma_source_from_regs,
  hdma_dest_from_regs, arm_hdma, write_hdma_control,
}

-- The place in video RAM, 8000 to 9FFF, `n` bytes on from `dest`.
abbrev pub video_at : ℕ → ℕ → ℕ
video_at dest n = 0x8000 + (dest - 0x8000 + n) % 0x2000

-- What `n` blocks have made of a transfer of `blocks` blocks from `source` to `dest`.
pub record HasMoved (n blocks source dest : ℕ) (hblank : Bool) (d : DmaState) : Type 0 where
  pub left : d.hdma_blocks_remaining ≡ blocks - n
  pub running : d.hdma_active ≡ ltb n blocks
  pub by_hblank : d.hdma_hblank_mode ≡ hblank && ltb n blocks
  pub reached : d.hdma_source ≡ u16 (source + 16 * n)
  pub put_at : d.hdma_dest ≡ video_at dest (16 * n)
  pub tells : d.hdma5 ≡ (if ltb n blocks then blocks - n - 1 else 0xFF)

-- A machine whose speed and halt stay.
unfoldable pub IsLike : HdmaMachine → HdmaMachine → Type 0
IsLike m m' =
    (m'.halted ≡ m.halted) × (m'.mode ≡ m.mode) × (m'.cgb_double_speed ≡ m.cgb_double_speed)

pub stall_lem :
    (m m' : HdmaMachine)
    → m'.mode ≡ m.mode
    → m'.cgb_double_speed ≡ m.cgb_double_speed
    → hdma_block_stall_cycles m' ≡ hdma_block_stall_cycles m
unfolding hdma_block_stall_cycles cgb_fast_domains_enabled
stall_lem m m' e f = rw (e, f) refl

source-lt : (d : DmaState) → d.hdma1 < 256 → hdma_source_from_regs d < 2 ^ 16
unfolding hdma_source_from_regs
source-lt d h =
    bit_or-lt 16 (d.hdma1 <<< 8) (bit_and d.hdma2 0xF0) (omega arith)
      (omega (arith, bit_and-le d.hdma2 0xF0))

-- Addresses of blocks in video RAM.
pub record IsBlock (dest : ℕ) : Type 0 where
  pub above : 0x8000 ≤ dest
  pub below : dest ≤ 0x9FFF
  pub aligned : dest % 16 ≡ 0

pub dest-IsBlock : (d : DmaState) → IsBlock (hdma_dest_from_regs d)
unfolding hdma_dest_from_regs
dest-IsBlock d =
    let high = bit_and_low 5 d.hdma3 in
    let low : bit_and d.hdma4 0xF0 ≡ bit_and (d.hdma4 / 16) 0xF * 16 = bit_and_nibble d.hdma4 0xF in
    let nibble = bit_and_low 4 (d.hdma4 / 16) in
    let joined =
      bit_or_join 8 (bit_and d.hdma3 0x1F) (bit_and d.hdma4 0xF0) (omega (arith, low, nibble)) in
    let placed =
      bit_or_join 15 1 (bit_or (bit_and d.hdma3 0x1F <<< 8) (bit_and d.hdma4 0xF0))
        (omega (arith, joined, high, low, nibble)) in
    record {
      above = omega (arith, placed);
      below = omega (arith, placed, joined, high, low, nibble);
      aligned = omega (arith, placed, joined, high, low, nibble);
    }

-- The place that the mask of `next_block` gives.
dest_on :
    (n dest at : ℕ)
    → IsBlock dest
    → at ≡ video_at dest (16 * n)
    → bit_or 0x8000 (bit_and (u16 (u16 (at + 65536 - 0x8000) + 0x10)) 0x1FF0)
      ≡ video_at dest (16 * suc n)
dest_on n dest at k e =
    let x = u16 (u16 (at + 65536 - 0x8000) + 0x10) in
    let high : bit_and x 0x1FF0 ≡ bit_and (x / 16) 0x1FF * 16 = bit_and_nibble x 0x1FF in
    let low = bit_and_low 9 (x / 16) in
    let placed = bit_or_join 15 1 (bit_and x 0x1FF0) (omega (arith, high, low)) in
    omega (arith, placed, high, low, k.above, k.below, k.aligned, e)

pub arm_hdma-HasMoved :
    (value : ℕ) (m : HdmaMachine)
    → m.dma.hdma1 < 256
    → HasMoved 0
        (value % 128 + 1)
        (hdma_source_from_regs m.dma)
        (hdma_dest_from_regs m.dma)
        (has_bit value 0x80)
        (arm_hdma value m).dma
unfolding arm_hdma sync_hdma_registers status
arm_hdma-HasMoved value m h =
    let low = bit_and_low 7 value in
    let blocks = u8 (bit_and value 0x7F + 1) in
    let again = bit_and_low 7 (blocks - 1) in
    record {
      left = omega (arith, low);
      running = ground (arith, low);
      by_hblank = ground (arith, low);
      reached = omega (arith, source-lt m.dma h);
      put_at = omega (arith, (dest-IsBlock m.dma).above, (dest-IsBlock m.dma).below);
      tells = ground (arith, low, again);
    }

pub arm_hdma-IsLike : (value : ℕ) (m : HdmaMachine) → IsLike m (arm_hdma value m)
unfolding IsLike arm_hdma sync_hdma_registers
arm_hdma-IsLike value m = (refl, refl, refl)

module _ (rom ram : ℕ → ℕ) where
  pub transfer_lem :
      (n blocks source dest : ℕ) (hblank : Bool) (t : Traced)
      → n < blocks
      → blocks ≤ 128
      → IsBlock dest
      → HasMoved n blocks source dest hblank t.machine.dma
      → HasMoved
          (suc n)
          blocks
          source
          dest
          hblank
          (transfer_hdma_block rom ram hblank t).machine.dma
        × IsLike t.machine (transfer_hdma_block rom ram hblank t).machine
  unfolding transfer_hdma_block sync_hdma_registers next_block status IsLike
  transfer_lem n blocks source dest hblank t l b k h =
      let d = t.machine.dma in
      let moves : not d.hdma_active || d.hdma_blocks_remaining == 0 ≡ false =
        ground (arith, h.running, h.left) in
      let low = bit_and_low 7 (d.hdma_blocks_remaining - 1 - 1) in
      rw moves (
        record {
          left = omega (arith, h.left);
          running = ground (arith, h.left, h.running);
          by_hblank = ground (arith, h.left, h.by_hblank);
          reached = omega (arith, h.reached);
          put_at = dest_on n dest d.hdma_dest k h.put_at;
          tells = ground (arith, h.left, h.running, low);
        },
        (refl, refl, refl),
      )

  -- HBlanks in a row, and the cycles that the processor waits for them.
  unfoldable pub hblanks : ℕ → Traced → Traced × ℕ
  hblanks zero t = (t, 0)
  hblanks (suc n) t =
      let before = hblanks n t in
      let ticked = tick_hdma_hblank rom ram before.0 in (ticked.0, before.1 + ticked.1)

  pub tick_lem :
      (n blocks source dest : ℕ) (t : Traced)
      → n < blocks
      → HasMoved n blocks source dest true t.machine.dma
      → t.machine.halted ≡ false
      → tick_hdma_hblank rom ram t ≡ (
        transfer_hdma_block rom ram true t,
        hdma_block_stall_cycles (transfer_hdma_block rom ram true t).machine,
      )
  unfolding tick_hdma_hblank
  tick_lem n blocks source dest t l h e =
      let d = t.machine.dma in
      let armed : not (d.hdma_active && d.hdma_hblank_mode) ≡ false =
        ground (arith, h.running, h.by_hblank) in
      rw (armed, e) refl

  pub hblanks-HasMoved :
      (n blocks source dest : ℕ) (t : Traced)
      → n ≤ blocks
      → blocks ≤ 128
      → IsBlock dest
      → t.machine.halted ≡ false
      → HasMoved 0 blocks source dest true t.machine.dma
      → HasMoved n blocks source dest true (hblanks n t).0.machine.dma
        × IsLike t.machine (hblanks n t).0.machine
        × ((hblanks n t).1 ≡ n * hdma_block_stall_cycles t.machine)
  unfolding hblanks IsLike
  hblanks-HasMoved zero blocks source dest t l b k e h = (h, (refl, refl, refl), omega arith)
  hblanks-HasMoved (suc n) blocks source dest t l b k e h =
      let ih = hblanks-HasMoved n blocks source dest t (omega arith) b k e h in
      let before = (hblanks n t).0 in
      let still = ih.1 in
      let moved = transfer_lem n blocks source dest true before (omega arith) b k ih.0 in
      let like = moved.1 in
      let after = (transfer_hdma_block rom ram true before).machine in
      let same = stall_lem t.machine after (like.1 ∙ still.1) (like.2 ∙ still.2) in
      rw (tick_lem n blocks source dest before (omega arith) ih.0 (still.0 ∙ e))
        (moved.0, (like.0 ∙ still.0, like.1 ∙ still.1, like.2 ∙ still.2), omega (arith, ih.2, same))

  pub write_arms :
      (value : ℕ) (m : HdmaMachine)
      → m.mode ≡ cgb
      → m.dma.hdma_active && m.dma.hdma_hblank_mode ≡ false
      → m.dma.hdma1 < 256
      → has_bit value 0x80 ≡ true
      → write_hdma_control rom ram value m ≡ arm_hdma value m
  unfolding write_hdma_control is_cgb
  write_arms value m c i s v =
      let on : not (is_cgb m.mode) ≡ false = ap (λ mode. not (is_cgb mode)) c in
      let waits : not (arm_hdma value m).dma.hdma_hblank_mode ≡ false =
        ground (arith, (arm_hdma-HasMoved value m s).by_hblank, v) in
      rw (on, i, waits) refl

  -- On CGB, with the processor not halted, no HBlank transfer active and HDMA1 a byte, a write
  -- to FF55 with bit 7 set arms a transfer of one block more than its low seven bits, from the
  -- address in the registers. After `n` HBlanks, up to the number of blocks, `n` blocks are
  -- gone, the source is 16 bytes on for each, modulo 65536, the transfer is active exactly while
  -- blocks are left, FF55 reads one less than those, FF at the end, and the processor has waited
  -- the stall of a block `n` times.
  pub write_hdma_control-hblanks :
      (n value : ℕ) (m : HdmaMachine)
      → m.mode ≡ cgb
      → m.halted ≡ false
      → m.dma.hdma_active && m.dma.hdma_hblank_mode ≡ false
      → m.dma.hdma1 < 256
      → has_bit value 0x80 ≡ true
      → n ≤ value % 128 + 1
      → let t : Traced = record { machine = write_hdma_control rom ram value m; trace = [] } in
        HasMoved n
          (value % 128 + 1)
          (hdma_source_from_regs m.dma)
          (hdma_dest_from_regs m.dma)
          true
          (hblanks n t).0.machine.dma
        × ((hblanks n t).1 ≡ n * hdma_block_stall_cycles m)
  unfolding IsLike
  write_hdma_control-hblanks n value m c e i s v l =
      let blocks = value % 128 + 1 in
      let armed = arm_hdma value m in
      let t : Traced = record { machine = armed; trace = [] } in
      let like = arm_hdma-IsLike value m in
      let run =
        hblanks-HasMoved n blocks (hdma_source_from_regs m.dma) (hdma_dest_from_regs m.dma) t l
          (omega arith) (dest-IsBlock m.dma) (like.0 ∙ e) (rw v at (arm_hdma-HasMoved value m s)) in
      rw (write_arms value m c i s v)
        (run.0, run.2 ∙ ap (λ stall. n * stall) (stall_lem m armed like.1 like.2))
