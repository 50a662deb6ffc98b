-- ===== src/Dma/Oam.antt =====
-- Where an OAM transfer is, and what it has copied, a number of cycles after the write to FF46:
-- `tick_dma` in crates/kokura-core/src/lib.rs.
use kokura.Base.{
  ℕ, suc, ◌+◌, ◌-◌, ◌≤◌, ◌<◌, ◌≡◌, refl, ◌∙◌, false, ◌&&◌, ◌==◌, ==_iff, ltb, u16, in_range,
  if◌then◌else◌, Bool-cases, inl, inr, arith,
}
use kokura.Memory.{Memory}
use kokura.Memory
use kokura.Memory.Cells.{IsValid, canonical, read8-write8, write8-IsValid}
use kokura.Dma.{DmaMachine, read8_for_dma, copy_byte}

module _ (rom ram : ℕ → ℕ) where
  -- What is read at `a` after `k` bytes from `source` have gone to OAM.
  abbrev pub expected : (k source : ℕ) → Memory → ℕ → ℕ
  expected k source before a =
      if in_range 0xFE00 0xFE9F a && ltb (a - 0xFE00) k
      then read8_for_dma rom ram (source + (a - 0xFE00)) before
      else Memory.read8 before a

  pub record HasPut (k source : ℕ) (before after : Memory) : Type 0 where
    pub valid : IsValid after
    pub bytes : (a : ℕ) → a < 0xFF00 → Memory.read8 after a ≡ expected k source before a

  source_same :
      (k source : ℕ) (before after : Memory)
      → source + k < 0xFE00
      → HasPut k source before after
      → read8_for_dma rom ram (source + k) after ≡ read8_for_dma rom ram (source + k) before
  unfolding read8_for_dma
  source_same k source before after s h =
      let out : in_range 0xFE00 0xFE9F (source + k) ≡ false = ground arith in
      let same : Memory.read8 after (source + k) ≡ Memory.read8 before (source + k) =
        rw out at (h.bytes (source + k) (omega arith)) in
      rw same refl

  one_more :
      (k source a value : ℕ) (before : Memory)
      → k < 160
      → value ≡ read8_for_dma rom ram (source + k) before
      → (if canonical (0xFE00 + k) == canonical a then value else expected k source before a)
        ≡ expected (suc k) source before a
  one_more k source a value before l e = elim (Bool-cases (a == 0xFE00 + k)) [
    | inl at ↦
        let here : a ≡ 0xFE00 + k = (==_iff a (0xFE00 + k)).0 at in
        let back : 0xFE00 + k - 0xFE00 ≡ k = omega arith in rw (here, back, e) (ground arith)
    | inr at ↦
        let miss : (canonical (0xFE00 + k) == canonical a) ≡ false = ground (arith, at) in
        rw miss (ground (arith, at))
  ]

  -- A byte more of a transfer whose source is apart from OAM.
  pub copy_byte-HasPut :
      (k source : ℕ) (before : Memory) (m : DmaMachine)
      → m.dma.source ≡ source
      → m.dma.bytes_copied ≡ k
      → k < 160
      → source + 160 ≤ 0xFE00
      → HasPut k source before m.memory
      → HasPut (suc k) source before (copy_byte rom ram m).memory
  unfolding copy_byte
  copy_byte-HasPut k source before m e f l s h =
      let from : u16 (m.dma.source + m.dma.bytes_copied) ≡ source + k = omega (arith, e, f) in
      let value = read8_for_dma rom ram (source + k) m.memory in
      let same = source_same k source before m.memory (omega arith) h in
      rw (from, f)
        (record {
          valid = write8-IsValid m.memory (0xFE00 + k) value h.valid;
          bytes = λ a ha.
              read8-write8 m.memory (0xFE00 + k) a value h.valid (omega arith) (omega arith)
              ∙ rw (h.bytes a ha) (one_more k source a value before l same);
        })
