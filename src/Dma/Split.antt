-- ===== src/Dma/Split.antt =====
-- The OAM transfer of crates/kokura-core/src/lib.rs over cycles that are divided among ticks.
use kokura.Base.{
  ℕ, zero, suc, ◌+◌, ◌-◌, ◌<◌, ◌≤◌, min, true, false, ◌==◌, ==_iff, leb, ltb, u8, arith, ◌≡◌, refl,
  sym, ap, ◌∙◌, Bool-cases, inl, inr,
}
use kokura.Dma.{DmaMachine, copying, copy_loop, complete, run_dma, tick_dma, saturating_add8}
use kokura.Dma.Loop.{
  plus, plus-plus, part_left, copy_loop-stop, copy_loop-one, copy_loop-done, copy_loop-keeps,
}

-- A transfer between ticks.
pub record IsReady (m : DmaMachine) : Type 0 where
  pub some_left : m.dma.bytes_copied < 160
  pub part_of_byte : m.dma.cycle_accum < 4
  pub delay : m.dma.start_delay_cycles < 256

module _ (rom ram : ℕ → ℕ) where
  pub run_dma-plus :
      (n : ℕ) (m : DmaMachine)
      → m.dma.cycle_accum < 4
      → n ≤ 251
      → run_dma rom ram n m ≡ complete (copy_loop rom ram 64 (plus n m))
  unfolding run_dma saturating_add8
  run_dma-plus n m h hn =
      let k : min 255 (m.dma.cycle_accum + u8 n) ≡ m.dma.cycle_accum + n = omega arith in rw k refl

  complete-left : (m : DmaMachine) → leb 160 m.dma.bytes_copied ≡ false → complete m ≡ m
  unfolding complete
  complete-left m h = rw h refl

  complete-all :
      (m : DmaMachine)
      → leb 160 m.dma.bytes_copied ≡ true
      → (copying (plus 1 m) ≡ false)
        × (complete (plus 1 m) ≡ complete m)
        × ((complete m).dma.active ≡ false)
  unfolding complete copying
  complete-all m h = (ground (arith, h), rw h refl, rw h refl)

  pub tick_dma-running :
      (n : ℕ) (m : DmaMachine)
      → m.dma.active ≡ true
      → m.dma.start_delay_cycles ≡ 0
      → tick_dma rom ram n m ≡ run_dma rom ram n m
  unfolding tick_dma
  tick_dma-running n m a d = rw (a, d) refl

  pub tick_dma-idle : (n : ℕ) (m : DmaMachine) → m.dma.active ≡ false → tick_dma rom ram n m ≡ m
  unfolding tick_dma
  tick_dma-idle n m a = rw a refl

  run_dma-split :
      (n : ℕ) (m : DmaMachine)
      → m.dma.active ≡ true
      → m.dma.start_delay_cycles ≡ 0
      → m.dma.cycle_accum < 4
      → n + 1 ≤ 251
      → run_dma rom ram (n + 1) m ≡ tick_dma rom ram 1 (run_dma rom ram n m)
  run_dma-split n m a d h hn =
      let s = copy_loop rom ram 64 (plus n m) in
      let keeps = copy_loop-keeps rom ram 64 (plus n m) in
      let sum : plus (n + 1) m ≡ plus 1 (plus n m) = plus-plus n m in
      let long : run_dma rom ram (n + 1) m ≡ complete (copy_loop rom ram 64 (plus 1 s)) =
        run_dma-plus (n + 1) m h hn
        ∙ ap (λ (x : DmaMachine). complete (copy_loop rom ram 64 x)) sum
        ∙ ap complete (copy_loop-one rom ram 64 (plus n m) (omega arith)) in
      let short : run_dma rom ram n m ≡ complete s = run_dma-plus n m h (omega arith) in
      elim (Bool-cases (leb 160 s.dma.bytes_copied)) [
        | inl all ↦
            let c = complete-all s all in
            long
            ∙ ap complete (copy_loop-stop rom ram 64 (plus 1 s) c.0)
            ∙ c.1
            ∙ sym (tick_dma-idle 1 (complete s) c.2)
            ∙ ap (tick_dma rom ram 1) (sym short)
        | inr left ↦
            let part : s.dma.cycle_accum < 4 =
              part_left s (copy_loop-done rom ram 64 (plus n m) (omega arith)) left in
            long
            ∙ sym (run_dma-plus 1 s part (omega arith))
            ∙ sym (tick_dma-running 1 s (keeps.0 ∙ a) (keeps.1 ∙ d))
            ∙ ap (tick_dma rom ram 1) (sym (complete-left s left) ∙ sym short)
      ]

  run_zero : (m : DmaMachine) → IsReady m → run_dma rom ram 0 m ≡ m
  unfolding copying complete
  run_zero m r =
      let k : m.dma.cycle_accum + 0 ≡ m.dma.cycle_accum = omega arith in
      let same : plus 0 m ≡ m = rw k refl in
      let stop : copying m ≡ false = ground (arith, r.part_of_byte) in
      let left : leb 160 m.dma.bytes_copied ≡ false = ground (arith, r.some_left) in
      run_dma-plus 0 m r.part_of_byte (omega arith)
      ∙ ap (λ (x : DmaMachine). complete (copy_loop rom ram 64 x)) same
      ∙ ap complete (copy_loop-stop rom ram 64 m stop)
      ∙ complete-left m left

  -- A tick during the startup delay.
  unfoldable pub delayed : (n : ℕ) (m : DmaMachine) → DmaMachine
  delayed n m = record m {
    dma = record m.dma { start_delay_cycles = m.dma.start_delay_cycles - n };
  }

  pub tick_dma-delayed :
      (n : ℕ) (m : DmaMachine)
      → m.dma.active ≡ true
      → m.dma.start_delay_cycles < 256
      → n ≤ m.dma.start_delay_cycles
      → ltb 0 m.dma.start_delay_cycles ≡ true
      → tick_dma rom ram n m ≡ delayed n m
  unfolding tick_dma delayed
  tick_dma-delayed n m a w h d =
      let k : min n m.dma.start_delay_cycles ≡ n = omega arith in
      let b : u8 n ≡ n = omega arith in let z : n - n ≡ 0 = omega arith in rw (a, d, k, b, z) refl

  tick_dma-past :
      (n : ℕ) (m : DmaMachine)
      → m.dma.active ≡ true
      → m.dma.start_delay_cycles < 256
      → m.dma.start_delay_cycles < n
      → ltb 0 m.dma.start_delay_cycles ≡ true
      → tick_dma rom ram n m
        ≡ run_dma rom ram (n - m.dma.start_delay_cycles) (delayed m.dma.start_delay_cycles m)
  unfolding tick_dma delayed
  tick_dma-past n m a w h d =
      let k : min n m.dma.start_delay_cycles ≡ m.dma.start_delay_cycles = omega arith in
      let b : u8 m.dma.start_delay_cycles ≡ m.dma.start_delay_cycles = omega arith in
      let z : (n - m.dma.start_delay_cycles == 0) ≡ false = ground arith in rw (a, d, k, b, z) refl

  delayed-one : (n : ℕ) (m : DmaMachine) → delayed (n + 1) m ≡ delayed 1 (delayed n m)
  unfolding delayed
  delayed-one n m =
      let k : m.dma.start_delay_cycles - (n + 1) ≡ m.dma.start_delay_cycles - n - 1 = omega arith in
      rw k refl

  -- One more cycle, where the startup delay ends in it or before.
  split_past :
      (n : ℕ) (m : DmaMachine)
      → m.dma.active ≡ true
      → IsReady m
      → n + 1 ≤ 251
      → ltb 0 m.dma.start_delay_cycles ≡ true
      → m.dma.start_delay_cycles ≤ n
      → tick_dma rom ram (n + 1) m ≡ tick_dma rom ram 1 (tick_dma rom ram n m)
  unfolding delayed
  split_past n m a r hn d h =
      let delay = m.dma.start_delay_cycles in
      let m0 = delayed delay m in
      let over : delay - delay ≡ 0 = omega arith in
      let long : n + 1 - delay ≡ n - delay + 1 = omega arith in
      let first = tick_dma-past (n + 1) m a r.delay (omega arith) d in
      elim (Bool-cases (n == delay)) [
        | inl e ↦
            let same : n ≡ delay = (==_iff n delay).0 e in
            let one : n + 1 - delay ≡ 1 = omega (arith, same) in
            first
            ∙ ap (λ k. run_dma rom ram k m0) one
            ∙ sym (tick_dma-running 1 m0 a over)
            ∙ ap (λ k. tick_dma rom ram 1 (delayed k m)) (sym same)
            ∙ ap (tick_dma rom ram 1) (sym (tick_dma-delayed n m a r.delay (omega (arith, same)) d))
        | inr e ↦
            let past : delay < n = ground (arith, e, h) in
            first
            ∙ ap (λ k. run_dma rom ram k m0) long
            ∙ run_dma-split (n - delay) m0 a over r.part_of_byte (omega arith)
            ∙ ap (tick_dma rom ram 1) (sym (tick_dma-past n m a r.delay past d))
      ]

  split_before :
      (n : ℕ) (m : DmaMachine)
      → m.dma.active ≡ true
      → IsReady m
      → ltb 0 m.dma.start_delay_cycles ≡ true
      → n < m.dma.start_delay_cycles
      → tick_dma rom ram (n + 1) m ≡ tick_dma rom ram 1 (tick_dma rom ram n m)
  unfolding delayed
  split_before n m a r d h =
      let more : ltb 0 (m.dma.start_delay_cycles - n) ≡ true = ground (arith, h) in
      tick_dma-delayed (n + 1) m a r.delay (omega arith) d
      ∙ delayed-one n m
      ∙ sym (tick_dma-delayed 1 (delayed n m) a (omega (arith, r.delay)) (omega arith) more)
      ∙ ap (tick_dma rom ram 1) (sym (tick_dma-delayed n m a r.delay (omega arith) d))

  tick_dma-zero : (m : DmaMachine) → IsReady m → tick_dma rom ram 0 m ≡ m
  unfolding delayed
  tick_dma-zero m r = elim (Bool-cases m.dma.active) [
    | inr a ↦ tick_dma-idle 0 m a
    | inl a ↦ elim (Bool-cases (ltb 0 m.dma.start_delay_cycles)) [
      | inl d ↦
          let k : m.dma.start_delay_cycles - 0 ≡ m.dma.start_delay_cycles = omega arith in
          tick_dma-delayed 0 m a r.delay (omega arith) d ∙ rw k refl
      | inr d ↦
          let none : m.dma.start_delay_cycles ≡ 0 = ground (arith, d) in
          tick_dma-running 0 m a none ∙ run_zero m r
    ]
  ]

  tick_dma-split :
      (n : ℕ) (m : DmaMachine)
      → IsReady m
      → n + 1 ≤ 251
      → tick_dma rom ram (n + 1) m ≡ tick_dma rom ram 1 (tick_dma rom ram n m)
  tick_dma-split n m r hn = elim (Bool-cases m.dma.active) [
    | inr a ↦
        tick_dma-idle (n + 1) m a
        ∙ sym (tick_dma-idle 1 m a)
        ∙ ap (tick_dma rom ram 1) (sym (tick_dma-idle n m a))
    | inl a ↦ elim (Bool-cases (ltb 0 m.dma.start_delay_cycles)) [
      | inr d ↦
          let none : m.dma.start_delay_cycles ≡ 0 = ground (arith, d) in
          tick_dma-running (n + 1) m a none
          ∙ run_dma-split n m a none r.part_of_byte hn
          ∙ ap (tick_dma rom ram 1) (sym (tick_dma-running n m a none))
      | inl d ↦ elim (Bool-cases (leb m.dma.start_delay_cycles n)) [
        | inl h ↦ split_past n m a r hn d (ground (arith, h))
        | inr h ↦ split_before n m a r d (ground (arith, h))
      ]
    ]
  ]

  -- Ticks of one cycle.
  unfoldable pub cycles : ℕ → DmaMachine → DmaMachine
  cycles zero m = m
  cycles (suc n) m = tick_dma rom ram 1 (cycles n m)

  -- From a state between ticks (fewer than 160 bytes copied, fewer than 4 cycles collected, a
  -- delay of one byte), one call of `tick_dma` with up to 251 cycles leaves the transfer, the
  -- memory and the trace as that many calls with one cycle do, through the startup delay, the
  -- copies and the completion, and whatever the cartridge reads.
  pub tick_dma-cycles :
      (n : ℕ) (m : DmaMachine) → IsReady m → n ≤ 251 → tick_dma rom ram n m ≡ cycles n m
  unfolding cycles
  tick_dma-cycles zero m r h = tick_dma-zero m r
  tick_dma-cycles (suc n) m r h =
      ap (λ k. tick_dma rom ram k m) (omega arith)
      ∙ tick_dma-split n m r (omega arith)
      ∙ ap (tick_dma rom ram 1) (tick_dma-cycles n m r (omega arith))
