-- ===== src/Apu/Advance.antt =====
-- A divider with its deadlines: the loops of the advance_ functions of
-- crates/kokura-core/src/apu.rs.
use kokura.Base.{
  ℕ, zero, suc, ◌+◌, ◌-◌, ◌≤◌, ◌<◌, ◌≡◌, refl, max, false, inl, inr, Bool-cases, ◌==◌, ltb,
  if◌then◌else◌, arith, lt→ltb, ltb→lt, if_keep,
}
use kokura.Apu.State.{ChannelState}
use kokura.Apu.Phase.{deadlines}

module _ (fire : ChannelState → ChannelState) (period : ℕ) where
  -- The timer of the next deadline.
  abbrev due : ChannelState → ℕ
  due st = max (if st.freq_timer == 0 then period else st.freq_timer) 1

  deadlines_enough :
      (n m c : ℕ) (st : ChannelState)
      → c ≤ n
      → c ≤ m
      → deadlines fire period n c st ≡ deadlines fire period m c st
  unfolding deadlines
  deadlines_enough zero zero c st p q = refl
  deadlines_enough zero (suc m) zero st p q = refl
  deadlines_enough zero (suc m) (suc c) st p q = absurd (omega arith)
  deadlines_enough (suc n) zero zero st p q = refl
  deadlines_enough (suc n) zero (suc c) st p q = absurd (omega arith)
  deadlines_enough (suc n) (suc m) c st p q =
      let timer = max (if st.freq_timer == 0 then period else st.freq_timer) 1 in
      rw
        (deadlines_enough n m (c - timer) (fire (record st { freq_timer = period })) (ground arith)
          (ground arith))
        refl

  -- A chunk that ends before the deadline, and one that reaches it.
  deadlines_wait :
      (c : ℕ) (st : ChannelState)
      → 0 < c
      → c < due st
      → deadlines fire period c c st
        ≡ record st { freq_timer = (if st.freq_timer == 0 then period else st.freq_timer) - c }
  unfolding deadlines
  deadlines_wait zero st p q = absurd (omega arith)
  deadlines_wait (suc c) st p q =
      let some_left : (suc c == 0) ≡ false = ground arith in
      rw (some_left, lt→ltb (suc c) (due st) q) refl

  deadlines_fire :
      (c : ℕ) (st : ChannelState)
      → due st ≤ c
      → deadlines fire period c c st
        ≡ deadlines fire period (c - due st) (c - due st) (fire (record st { freq_timer = period }))
  unfolding deadlines
  deadlines_fire zero st p = absurd (ground arith)
  deadlines_fire (suc c) st p =
      let some_left : (suc c == 0) ≡ false = ground arith in
      let late : ltb (suc c) (due st) ≡ false = ground arith in
      rw (some_left, late)
        (deadlines_enough c (suc c - due st) (suc c - due st)
          (fire (record st { freq_timer = period })) (ground arith) (omega arith))

  deadlines_none : (st : ChannelState) → deadlines fire period 0 0 st ≡ st
  unfolding deadlines
  deadlines_none st = refl

  -- The wait goes on.
  deadlines_rest :
      (a b : ℕ) (st : ChannelState)
      → 0 < a
      → a < due st
      → 0 < period
      → deadlines fire period (a + b) (a + b) st
        ≡ deadlines fire period b b
            (record st { freq_timer = (if st.freq_timer == 0 then period else st.freq_timer) - a })
  deadlines_rest a zero st p q r =
      let same : a + 0 ≡ a = omega arith in rw (same, deadlines_none, deadlines_wait a st p q) refl
  deadlines_rest a (suc b) st p q r =
      let timer = if st.freq_timer == 0 then period else st.freq_timer in
      let running : (timer - a == 0) ≡ false = ground arith in
      let st' = record st { freq_timer = timer - a } in
      elim (Bool-cases (ltb (a + suc b) (due st))) [
        | inl e ↦
            let same : timer - (a + suc b) ≡ timer - a - suc b = omega arith in
            rw
              (
                deadlines_wait (a + suc b) st (omega arith) (ltb→lt (a + suc b) (due st) e),
                deadlines_wait (suc b) st' (omega arith) (ground arith),
                running,
                same,
              )
              refl
        | inr e ↦
            let same : a + suc b - due st ≡ suc b - due st' = ground arith in
            rw
              (
                deadlines_fire (a + suc b) st (ground arith),
                deadlines_fire (suc b) st' (ground arith),
                same,
              )
              refl
      ]

  -- The second chunk goes on where the first stopped.
  deadlines_split_fuel :
      (n a b : ℕ) (st : ChannelState)
      → a ≤ n
      → 0 < period
      → deadlines fire period (a + b) (a + b) st
        ≡ deadlines fire period b b (deadlines fire period a a st)
  deadlines_split_fuel zero a b st p q =
      let none : a ≡ 0 = omega arith in
      let same : 0 + b ≡ b = omega arith in rw (none, same, deadlines_none) refl
  deadlines_split_fuel (suc n) zero b st p q =
      let same : 0 + b ≡ b = omega arith in rw (same, deadlines_none) refl
  deadlines_split_fuel (suc n) (suc a) b st p q = elim (Bool-cases (ltb (suc a) (due st))) [
    | inr e ↦
        let same : suc a + b - due st ≡ suc a - due st + b = ground arith in
        rw
          (
            deadlines_fire (suc a) st (ground arith),
            deadlines_fire (suc a + b) st (ground arith),
            same,
          )
          (deadlines_split_fuel n (suc a - due st) b (fire (record st { freq_timer = period }))
            (ground arith) q)
    | inl e ↦
        let early : suc a < due st = ltb→lt (suc a) (due st) e in
        rw (deadlines_wait (suc a) st (omega arith) early)
          (deadlines_rest (suc a) b st (omega arith) early q)
  ]

  pub deadlines_split :
      (a b : ℕ) (st : ChannelState)
      → 0 < period
      → deadlines fire period (a + b) (a + b) st
        ≡ deadlines fire period b b (deadlines fire period a a st)
  deadlines_split a b st q = deadlines_split_fuel a a b st (omega arith) q

  -- What a reload and a deadline keep, the loop keeps.
  pub deadlines_keep :
      (P : ChannelState → Type 0)
      → ((st : ChannelState) (t : ℕ) → P st → P (record st { freq_timer = t }))
      → ((st : ChannelState) → P st → P (fire st))
      → (fuel c : ℕ) (st : ChannelState) → P st
      → P (deadlines fire period fuel c st)
  unfolding deadlines
  deadlines_keep P reload fired zero c st h = h
  deadlines_keep P reload fired (suc fuel) c st h =
      let timer = max (if st.freq_timer == 0 then period else st.freq_timer) 1 in
      let next = fire (record st { freq_timer = period }) in
      let rest =
        deadlines_keep P reload fired fuel (c - timer) next
          (fired (record st { freq_timer = period }) (reload st period h)) in
      if_keep P (c == 0) h (
        if_keep P (ltb c timer)
          (reload st ((if st.freq_timer == 0 then period else st.freq_timer) - c) h) rest)
