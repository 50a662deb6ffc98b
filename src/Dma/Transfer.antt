-- ===== src/Dma/Transfer.antt =====
-- A whole OAM transfer, from the write to FF46 and through any calls of `tick_dma`, both in
-- crates/kokura-core/src/lib.rs.
use kokura.Base.{
  ℕ, ◌+◌, ◌*◌, ◌≤◌, ◌<◌, ◌≡◌, refl, ◌∙◌, Bool, true, false, ◌&&◌, leb, ◌==◌, u16, ◌<<<◌, List, [],
  ◌∷◌, ◌++◌, arith,
}
use kokura.Memory
use kokura.Memory.Cells.{IsValid, canonical, read8-write8, write8-IsValid}
use kokura.Dma.{DmaMachine, oam_dma_start, write_ff46, tick_dma}
use kokura.Dma.Split.{tick_dma-cycles}
use kokura.Dma.Oam.{HasPut}
use kokura.Dma.Course.{HasSent, HasSent-IsReady, cycles-HasSent}

-- Each call has at most 251 cycles.
unfoldable pub all_short : List ℕ → Bool
all_short [] = true
all_short (n ∷ ns) = leb n 251 && all_short ns

unfoldable pub total : List ℕ → ℕ
total [] = 0
total (n ∷ ns) = n + total ns

module _ (rom ram : ℕ → ℕ) where
  -- Calls of `tick_dma` in a row.
  unfoldable pub tick_all : List ℕ → DmaMachine → DmaMachine
  tick_all [] m = m
  tick_all (n ∷ ns) m = tick_all ns (tick_dma rom ram n m)

  started-HasPut :
      (source value : ℕ) (m : DmaMachine)
      → IsValid m.memory
      → HasPut rom ram 0 source m.memory (Memory.write8 0xFF46 value m.memory)
  started-HasPut source value m v = record {
    valid = write8-IsValid m.memory 0xFF46 value v;
    bytes = λ a ha.
        let miss : (canonical 0xFF46 == canonical a) ≡ false = ground arith in
        read8-write8 m.memory 0xFF46 a value v (omega arith) (omega arith) ∙ rw miss (ground arith);
  }

  write_ff46-HasSent :
      (value : ℕ) (m : DmaMachine)
      → value < 256
      → IsValid m.memory
      → HasSent rom ram
          (value * 256)
          m.memory
          (m.trace ++ (oam_dma_start (value * 256) ∷ []))
          0
          (write_ff46 value m)
  unfolding write_ff46
  write_ff46-HasSent value m l v =
      let page : u16 (value <<< 8) ≡ value * 256 = omega arith in
      rw page (record {
        running = refl;
        delay = refl;
        part = refl;
        sent = refl;
        from = refl;
        put = started-HasPut (value * 256) value m v;
        trace = refl;
      })

  tick_all-HasSent :
      (ns : List ℕ) (n source : ℕ) (m m' : DmaMachine)
      → source + 160 ≤ 0xFE00
      → all_short ns ≡ true
      → HasSent rom ram source m.memory m.trace n m'
      → HasSent rom ram source m.memory m.trace (n + total ns) (tick_all ns m')
  unfolding all_short total tick_all
  tick_all-HasSent [] n source m m' s a h = let none : n + 0 ≡ n = omega arith in rw none h
  tick_all-HasSent (k ∷ ns) n source m m' s a h =
      let short : k ≤ 251 = ground (arith, a) in
      let rest : all_short ns ≡ true = ground (arith, a) in
      let over : n + (k + total ns) ≡ n + k + total ns = omega arith in
      let ready = HasSent-IsReady rom ram source m.memory m.trace n m' h in
      rw (over, tick_dma-cycles rom ram k m' ready short)
        (tick_all-HasSent ns (n + k) source m _ s rest
          (cycles-HasSent rom ram source m.memory m.trace n k m' s h))

  -- After a write of a page below FE to FF46, in storage of the right sizes, and any calls of
  -- `tick_dma` with at most 251 cycles each, of `n` cycles in all: the transfer is active
  -- exactly while `n` is below 644, OAM holds the first (n - 4) / 4 bytes of the page, 160 at
  -- most, every other address below FF00 reads as before, and the trace has the start, and the
  -- completion exactly from 644 on.
  pub write_ff46-sends :
      (ns : List ℕ) (value : ℕ) (m : DmaMachine)
      → value < 0xFE
      → IsValid m.memory
      → all_short ns ≡ true
      → HasSent rom ram
          (value * 256)
          m.memory
          (m.trace ++ (oam_dma_start (value * 256) ∷ []))
          (total ns)
          (tick_all ns (write_ff46 value m))
  write_ff46-sends ns value m l v a =
      let m0 = record m { trace = m.trace ++ (oam_dma_start (value * 256) ∷ []) } in
      let none : 0 + total ns ≡ total ns = omega arith in
      rw none at (
        tick_all-HasSent ns 0 (value * 256) m0 (write_ff46 value m) (omega arith) a
          (write_ff46-HasSent value m (omega arith) v))
