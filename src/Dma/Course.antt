-- ===== src/Dma/Course.antt =====
-- The course of an OAM transfer from the write to FF46: `tick_dma` in
-- crates/kokura-core/src/lib.rs.
use kokura.Base.{
  ℕ, zero, suc, ◌+◌, ◌-◌, ◌/◌, ◌%◌, ◌≤◌, ◌<◌, ◌≡◌, ◌∙◌, ap, min, true, false, ◌==◌, ==_iff, leb,
  ltb, if◌then◌else◌, Bool-cases, inl, inr, List, [], ◌∷◌, ◌++◌, arith,
}
use kokura.Memory.{Memory}
use kokura.Dma.{DmaMachine, DmaTraceEvent, oam_dma_complete, copying, copy_byte, complete, tick_dma}
use kokura.Dma.Loop.{plus, copy_loop-step, copy_loop-stop}
use kokura.Dma.Split.{
  IsReady, cycles, run_dma-plus, tick_dma-running, tick_dma-idle, tick_dma-delayed, delayed,
}
use kokura.Dma.Oam.{HasPut, copy_byte-HasPut}

-- The bytes that `n` cycles have copied, of 160: none in the first 4, then one for each 4.
abbrev pub copied_after : ℕ → ℕ
copied_after n = min ((n - 4) / 4) 160

module _ (rom ram : ℕ → ℕ) (source : ℕ) (before : Memory) (told : List DmaTraceEvent) where
  -- `n` cycles after the write, the transfer is at byte `copied_after n`, and over after 644.
  pub record HasSent (n : ℕ) (m : DmaMachine) : Type 0 where
    pub running : m.dma.active ≡ ltb n 644
    pub delay : m.dma.start_delay_cycles ≡ 4 - n
    pub part : m.dma.cycle_accum ≡ (if ltb n 644 then (n - 4) % 4 else 0)
    pub sent : m.dma.bytes_copied ≡ (if ltb n 644 then copied_after n else 0)
    pub from : m.dma.source ≡ source
    pub put : HasPut rom ram (copied_after n) source before m.memory
    pub trace : m.trace ≡ (if ltb n 644 then told else told ++ (oam_dma_complete source 160 ∷ []))

  pub HasSent-IsReady : (n : ℕ) (m : DmaMachine) → HasSent n m → IsReady m
  HasSent-IsReady n m h = record {
    some_left = ground (arith, h.sent);
    part_of_byte = ground (arith, h.part);
    delay = omega (arith, h.delay);
  }

  -- In the startup delay.
  step_delayed :
      (n : ℕ) (m : DmaMachine) → n < 4 → HasSent n m → HasSent (suc n) (tick_dma rom ram 1 m)
  unfolding delayed
  step_delayed n m l h =
      let on : m.dma.active ≡ true = ground (arith, h.running) in
      let some : ltb 0 m.dma.start_delay_cycles ≡ true = ground (arith, h.delay) in
      let none : copied_after (suc n) ≡ copied_after n = omega arith in
      rw (tick_dma-delayed rom ram 1 m on (omega (arith, h.delay)) (omega (arith, h.delay)) some)
        (record {
          running = ground (arith, h.running);
          delay = omega (arith, h.delay);
          part = ground (arith, h.part);
          sent = ground (arith, h.sent);
          from = h.from;
          put = rw none h.put;
          trace = ground (arith, h.trace);
        })

  -- Between two bytes.
  step_between :
      (n : ℕ) (m : DmaMachine)
      → 4 ≤ n
      → n < 644
      → n % 4 < 3
      → HasSent n m
      → HasSent (suc n) (tick_dma rom ram 1 m)
  unfolding copying complete
  step_between n m p l q h =
      let on : m.dma.active ≡ true = ground (arith, h.running) in
      let few : m.dma.cycle_accum ≡ (n - 4) % 4 = ground (arith, h.part) in
      let stop : copying (plus 1 m) ≡ false = ground (arith, few) in
      let none : copied_after (suc n) ≡ copied_after n = omega arith in
      let left : leb 0xA0 m.dma.bytes_copied ≡ false = ground (arith, h.sent) in
      rw
        (
          tick_dma-running rom ram 1 m on (omega (arith, h.delay)),
          run_dma-plus rom ram 1 m (omega (arith, few)) (omega arith),
          copy_loop-stop rom ram 64 (plus 1 m) stop,
          left,
        )
        (record {
          running = ground (arith, h.running);
          delay = omega (arith, h.delay);
          part = ground (arith, few);
          sent = ground (arith, h.sent);
          from = h.from;
          put = rw none h.put;
          trace = ground (arith, h.trace);
        })

  -- The machine after the byte that ends with the next cycle.
  byte_lem :
      (n : ℕ) (m : DmaMachine)
      → 4 ≤ n
      → n < 644
      → n % 4 ≡ 3
      → HasSent n m
      → tick_dma rom ram 1 m ≡ complete (copy_byte rom ram (plus 1 m))
  unfolding copying copy_byte
  byte_lem n m p l q h =
      let on : m.dma.active ≡ true = ground (arith, h.running) in
      let full : m.dma.cycle_accum ≡ 3 = ground (arith, h.part, q) in
      let go : copying (plus 1 m) ≡ true = ground (arith, full, h.sent) in
      let stop : copying (copy_byte rom ram (plus 1 m)) ≡ false = ground (arith, full) in
      tick_dma-running rom ram 1 m on (omega (arith, h.delay))
      ∙ run_dma-plus rom ram 1 m (omega (arith, full)) (omega arith)
      ∙ ap complete (copy_loop-step rom ram 63 (plus 1 m) go)
      ∙ ap complete (copy_loop-stop rom ram 63 (copy_byte rom ram (plus 1 m)) stop)

  step_byte :
      (n : ℕ) (m : DmaMachine)
      → source + 160 ≤ 0xFE00
      → 4 ≤ n
      → n < 644
      → n % 4 ≡ 3
      → HasSent n m
      → HasSent (suc n) (complete (copy_byte rom ram (plus 1 m)))
  unfolding complete copy_byte
  step_byte n m s p l q h =
      let k = copied_after n in
      let sent : m.dma.bytes_copied ≡ k = ground (arith, h.sent) in
      let few : m.dma.cycle_accum ≡ 3 = ground (arith, h.part, q) in
      let next : copied_after (suc n) ≡ suc k = omega (arith, q) in
      let put =
        copy_byte-HasPut rom ram k source before (plus 1 m) h.from sent (omega arith) s h.put in
      elim (Bool-cases (leb 0xA0 (m.dma.bytes_copied + 1))) [
        | inl last ↦
            let end : suc n ≡ 644 = ground (arith, last, sent, q) in
            rw last (record {
              running = ground (arith, end);
              delay = omega (arith, end);
              part = ground (arith, end);
              sent = ground (arith, end);
              from = h.from;
              put = rw next put;
              trace = ground (arith, end, h.trace, h.from);
            })
        | inr more ↦
            let on : suc n < 644 = ground (arith, more, sent, q) in
            rw more (record {
              running = ground (arith, on, h.running);
              delay = omega (arith, h.delay);
              part = ground (arith, on, few, q);
              sent = ground (arith, on, sent, next);
              from = h.from;
              put = rw next put;
              trace = ground (arith, on, h.trace);
            })
      ]

  -- After the transfer.
  step_over :
      (n : ℕ) (m : DmaMachine) → 644 ≤ n → HasSent n m → HasSent (suc n) (tick_dma rom ram 1 m)
  step_over n m l h =
      let off : m.dma.active ≡ false = ground (arith, h.running) in
      let none : copied_after (suc n) ≡ copied_after n = omega arith in
      rw (tick_dma-idle rom ram 1 m off) (record {
        running = ground (arith, h.running);
        delay = omega (arith, h.delay);
        part = ground (arith, h.part);
        sent = ground (arith, h.sent);
        from = h.from;
        put = rw none h.put;
        trace = ground (arith, h.trace);
      })

  step_lem :
      (n : ℕ) (m : DmaMachine)
      → source + 160 ≤ 0xFE00
      → HasSent n m
      → HasSent (suc n) (tick_dma rom ram 1 m)
  step_lem n m s h = elim (Bool-cases (ltb n 4)) [
    | inl early ↦ step_delayed n m (ground (arith, early)) h
    | inr late ↦
        let p : 4 ≤ n = ground (arith, late) in
        elim (Bool-cases (ltb n 644)) [
          | inr over ↦ step_over n m (ground (arith, over)) h
          | inl during ↦
              let l : n < 644 = ground (arith, during) in
              elim (Bool-cases (n % 4 == 3)) [
                | inl byte ↦
                    let q : n % 4 ≡ 3 = (==_iff (n % 4) 3).0 byte in
                    rw (byte_lem n m p l q h) (step_byte n m s p l q h)
                | inr wait ↦ step_between n m p l (ground (arith, wait)) h
              ]
        ]
  ]

  pub cycles-HasSent :
      (n k : ℕ) (m : DmaMachine)
      → source + 160 ≤ 0xFE00
      → HasSent n m
      → HasSent (n + k) (cycles rom ram k m)
  unfolding cycles
  cycles-HasSent n zero m s h = let none : n + 0 ≡ n = omega arith in rw none h
  cycles-HasSent n (suc k) m s h =
      let over : n + suc k ≡ suc (n + k) = omega arith in
      rw over (step_lem (n + k) (cycles rom ram k m) s (cycles-HasSent n k m s h))
