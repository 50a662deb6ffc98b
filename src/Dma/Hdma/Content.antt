-- ===== src/Dma/Hdma/Content.antt =====
-- What a transfer to video RAM leaves in memory: `transfer_hdma_block` in
-- crates/kokura-core/src/lib.rs.
use kokura.Base.{
  ℕ, zero, suc, ◌+◌, ◌-◌, ◌*◌, ◌%◌, ◌≤◌, ◌<◌, ◌≡◌, refl, ◌∙◌, Bool, true, false, not, ◌&&◌, ◌||◌,
  ◌==◌, leb, ltb, u16, bit_and, bit_or, bit_and_low, bit_or_join, in_range, if◌then◌else◌,
  Bool-cases, inl, inr, ==_iff, arith,
}
use kokura.Memory.{Memory}
use kokura.Memory
use kokura.Memory.Cells.{IsValid, canonical, read8-write8, write8-IsValid}
use kokura.Dma.{read8_for_dma}
use kokura.Dma.Hdma.{
  HdmaMachine, Traced, copy_bytes, transfer_hdma_block, sync_hdma_registers, arm_hdma,
}
use kokura.Dma.Hdma.Blocks.{HasMoved, IsBlock, video_at}

-- The source of `n` bytes is apart from video RAM and from the registers.
abbrev pub apart : ℕ → ℕ → Bool
apart source n = leb (source + n) 0x8000 || leb 0xA000 source && leb (source + n) 0xFF00

-- How far `a` is from `dest`, around video RAM.
abbrev pub from_dest : ℕ → ℕ → ℕ
from_dest dest a = (a + 0x2000 - dest) % 0x2000

place_hits :
    (n dest a : ℕ)
    → n < 0x2000
    → IsBlock dest
    → (canonical (video_at dest n) == canonical a)
      ≡ (in_range 0x8000 0x9FFF a && from_dest dest a == n)
place_hits n dest a l k = elim (Bool-cases (in_range 0x8000 0x9FFF a)) [
  | inl e ↦ rw e (ground (arith, e, k.above, k.below))
  | inr e ↦ rw e (ground (arith, e, k.above, k.below))
]

module _ (rom ram : ℕ → ℕ) where
  -- What is read at `a` after `n` bytes from `source` have gone to `dest`.
  abbrev pub expected : (n source dest : ℕ) → Memory → ℕ → ℕ
  expected n source dest before a =
      if in_range 0x8000 0x9FFF a && ltb (from_dest dest a) n
      then read8_for_dma rom ram (source + from_dest dest a) before
      else Memory.read8 before a

  pub record HasCopied (n source dest : ℕ) (before after : Memory) : Type 0 where
    pub valid : IsValid after
    pub bytes : (a : ℕ) → a < 0xFF00 → Memory.read8 after a ≡ expected n source dest before a

  source_same :
      (n source dest : ℕ) (before after : Memory)
      → apart source (suc n) ≡ true
      → HasCopied n source dest before after
      → read8_for_dma rom ram (source + n) after ≡ read8_for_dma rom ram (source + n) before
  unfolding read8_for_dma
  source_same n source dest before after s h =
      let there : source + n < 0xFF00 = ground (arith, s) in
      let out : in_range 0x8000 0x9FFF (source + n) ≡ false = ground (arith, s) in
      let same : Memory.read8 after (source + n) ≡ Memory.read8 before (source + n) =
        rw out at (h.bytes (source + n) there) in
      rw same refl

  -- One byte more.
  one_more :
      (n source dest a value : ℕ) (before : Memory)
      → value ≡ read8_for_dma rom ram (source + n) before
      → (if in_range 0x8000 0x9FFF a && from_dest dest a == n
          then value
          else expected n source dest before a)
        ≡ expected (suc n) source dest before a
  one_more n source dest a value before e = elim (Bool-cases (from_dest dest a == n)) [
    | inl at ↦
        let here : from_dest dest a ≡ n = (==_iff (from_dest dest a) n).0 at in
        rw (here, e) (ground arith)
    | inr at ↦
        let wider : ltb (from_dest dest a) n ≡ ltb (from_dest dest a) (suc n) =
          ground (arith, at) in
        rw (at, wider) (ground arith)
  ]

  byte_copied :
      (n source dest : ℕ) (before after : Memory)
      → n < 0x2000
      → IsBlock dest
      → apart source (suc n) ≡ true
      → HasCopied n source dest before after
      → HasCopied
          (suc n)
          source
          dest
          before
          (Memory.write8 (video_at dest n) (read8_for_dma rom ram (source + n) after) after)
  byte_copied n source dest before after l k s h =
      let at = video_at dest n in
      let value = read8_for_dma rom ram (source + n) after in
      let same = source_same n source dest before after s h in
      record {
        valid = write8-IsValid after at value h.valid;
        bytes = λ a ha.
            read8-write8 after at a value h.valid (omega arith) (omega arith)
            ∙ rw (place_hits n dest a l k, h.bytes a ha)
                (one_more n source dest a value before same);
      }

  -- The loop over the bytes of a block, which starts `n` bytes into the transfer.
  copy_bytes-HasCopied :
      (j n source dest src at : ℕ) (before mem : Memory)
      → n + j ≤ 0x2000
      → IsBlock dest
      → apart source (n + j) ≡ true
      → src ≡ u16 (source + n)
      → at ≡ video_at dest n
      → HasCopied n source dest before mem
      → HasCopied (n + j) source dest before (copy_bytes rom ram j src at mem)
  unfolding copy_bytes
  copy_bytes-HasCopied zero n source dest src at before mem l k s e f h =
      let none : n + 0 ≡ n = omega arith in rw none h
  copy_bytes-HasCopied (suc j) n source dest src at before mem l k s e f h =
      let over : n + suc j ≡ suc (n + j) = omega arith in
      let ih =
        copy_bytes-HasCopied j n source dest src at before mem (omega arith) k (ground (arith, s)) e
          f h in
      let from : u16 (src + j) ≡ source + (n + j) = ground (arith, s, e) in
      let x = u16 (u16 (at + 65536 - 0x8000) + j) in
      let low = bit_and_low 13 x in
      let placed = bit_or_join 15 1 (bit_and x 0x1FFF) (omega (arith, low)) in
      let to : bit_or 0x8000 (bit_and x 0x1FFF) ≡ video_at dest (n + j) =
        omega (arith, placed, low, k.above, k.below, f) in
      rw (from, to, over)
        (byte_copied (n + j) source dest before (copy_bytes rom ram j src at mem) (omega arith) k
          (rw over at s) ih)

  -- The registers from FF00 up are apart from what is copied.
  register_kept :
      (r v n source dest : ℕ) (before after : Memory)
      → 0xFF00 ≤ r
      → r < 65536
      → HasCopied n source dest before after
      → HasCopied n source dest before (Memory.write8 r v after)
  register_kept r v n source dest before after p q h = record {
    valid = write8-IsValid after r v h.valid;
    bytes = λ a ha.
        let miss : (canonical r == canonical a) ≡ false = ground arith in
        read8-write8 after r a v h.valid q (omega arith) ∙ rw miss (h.bytes a ha);
  }

  sync_kept :
      (n source dest : ℕ) (before : Memory) (m : HdmaMachine)
      → HasCopied n source dest before m.memory
      → HasCopied n source dest before (sync_hdma_registers m).memory
  unfolding sync_hdma_registers
  sync_kept n source dest before m h =
      let kept =
        λ (r v : ℕ) (p : 0xFF00 ≤ r) (q : r < 65536) (mem : Memory)
            (x : HasCopied n source dest before mem).
          register_kept r v n source dest before mem p q x in
      kept 0xFF55 _ (omega arith) (omega arith) _ (
        kept 0xFF54 _ (omega arith) (omega arith) _ (
          kept 0xFF53 _ (omega arith) (omega arith) _ (
            kept 0xFF52 _ (omega arith) (omega arith) _
              (kept 0xFF51 _ (omega arith) (omega arith) _ h))))

  pub transfer-HasCopied :
      (n blocks source dest : ℕ) (hblank : Bool) (before : Memory) (t : Traced)
      → n < blocks
      → blocks ≤ 128
      → IsBlock dest
      → apart source (16 * blocks) ≡ true
      → HasMoved n blocks source dest hblank t.machine.dma
      → HasCopied (16 * n) source dest before t.machine.memory
      → HasCopied
          (16 * suc n)
          source
          dest
          before
          (transfer_hdma_block rom ram hblank t).machine.memory
  unfolding transfer_hdma_block
  transfer-HasCopied n blocks source dest hblank before t l b k s h c =
      let d = t.machine.dma in
      let moves : not d.hdma_active || d.hdma_blocks_remaining == 0 ≡ false =
        ground (arith, h.running, h.left) in
      let over : 16 * n + 16 ≡ 16 * suc n = omega arith in
      let block =
        copy_bytes-HasCopied 16 (16 * n) source dest d.hdma_source d.hdma_dest before
          t.machine.memory (omega arith) k (ground (arith, s)) h.reached h.put_at c in
      rw moves (sync_kept (16 * suc n) source dest before _ (rw over at block))

  pub arm_hdma-HasCopied :
      (value source dest : ℕ) (m : HdmaMachine)
      → IsValid m.memory
      → HasCopied 0 source dest m.memory (arm_hdma value m).memory
  unfolding arm_hdma
  arm_hdma-HasCopied value source dest m v =
      sync_kept 0 source dest m.memory _ (record { valid = v; bytes = λ a ha. ground arith })
