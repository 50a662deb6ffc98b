-- ===== src/Dma/Loop.antt =====
-- The copying loop of the OAM transfer, a cycle at a time.
use kokura.Base.{
  ℕ, zero, suc, ◌+◌, ◌-◌, ◌*◌, ◌<◌, ◌≤◌, true, false, leb, arith, ◌≡◌, refl, sym, ap, ◌∙◌,
  Bool-cases, inl, inr,
}
use kokura.Dma.{DmaMachine, copy_byte, copying, copy_loop}

abbrev pub plus : ℕ → DmaMachine → DmaMachine
plus n m = record m { dma = record m.dma { cycle_accum = m.dma.cycle_accum + n } }

pub plus-plus : (n : ℕ) (m : DmaMachine) → plus (n + 1) m ≡ plus 1 (plus n m)
plus-plus n m =
    let k : m.dma.cycle_accum + (n + 1) ≡ m.dma.cycle_accum + n + 1 = omega arith in rw k refl

-- A loop that has ended with bytes left has used its cycles.
pub part_left :
    (m : DmaMachine)
    → copying m ≡ false
    → leb 160 m.dma.bytes_copied ≡ false
    → m.dma.cycle_accum < 4
unfolding copying
part_left m c h = ground (arith, c, h)

module _ (rom ram : ℕ → ℕ) where
  pub copy_loop-step :
      (f : ℕ) (m : DmaMachine)
      → copying m ≡ true
      → copy_loop rom ram (suc f) m ≡ copy_loop rom ram f (copy_byte rom ram m)
  unfolding copy_loop
  copy_loop-step f m c = rw c refl

  pub copy_loop-stop : (f : ℕ) (m : DmaMachine) → copying m ≡ false → copy_loop rom ram f m ≡ m
  unfolding copy_loop
  copy_loop-stop zero m c = refl
  copy_loop-stop (suc f) m c = rw c refl

  copy_byte-accum :
      (m : DmaMachine)
      → copying m ≡ true
      → ((copy_byte rom ram m).dma.cycle_accum + 4 ≡ m.dma.cycle_accum)
        × (copy_byte rom ram (plus 1 m) ≡ plus 1 (copy_byte rom ram m))
        × (copying (plus 1 m) ≡ true)
  unfolding copy_byte copying
  copy_byte-accum m c =
      let four : 4 ≤ m.dma.cycle_accum = ground (arith, c) in
      let k : m.dma.cycle_accum + 1 - 4 ≡ m.dma.cycle_accum - 4 + 1 = omega (arith, four) in
      (omega (arith, four), rw k refl, ground (arith, c))

  copy_loop-accum :
      (f : ℕ) (m : DmaMachine) → (copy_loop rom ram f m).dma.cycle_accum ≤ m.dma.cycle_accum
  unfolding copy_loop
  copy_loop-accum zero m = omega arith
  copy_loop-accum (suc f) m =
      let ih = copy_loop-accum f (copy_byte rom ram m) in
      elim (Bool-cases (copying m)) [
        | inl c ↦ rw c (omega (arith, ih, (copy_byte-accum m c).0))
        | inr c ↦ rw c (omega arith)
      ]

  copy_loop-more :
      (f : ℕ) (m : DmaMachine)
      → m.dma.cycle_accum < 4 * f
      → copy_loop rom ram (suc f) m ≡ copy_loop rom ram f m
  copy_loop-more zero m h = absurd (omega arith)
  copy_loop-more (suc f) m h = elim (Bool-cases (copying m)) [
    | inl c ↦
        copy_loop-step (suc f) m c
        ∙ copy_loop-more f (copy_byte rom ram m) (omega (arith, (copy_byte-accum m c).0))
        ∙ sym (copy_loop-step f m c)
    | inr c ↦ copy_loop-stop (suc (suc f)) m c ∙ sym (copy_loop-stop (suc f) m c)
  ]

  pub copy_loop-one :
      (f : ℕ) (m : DmaMachine)
      → m.dma.cycle_accum + 1 < 4 * f
      → copy_loop rom ram f (plus 1 m) ≡ copy_loop rom ram f (plus 1 (copy_loop rom ram f m))
  copy_loop-one zero m h = absurd (omega arith)
  copy_loop-one (suc f) m h = elim (Bool-cases (copying m)) [
    | inl c ↦
        let b = copy_byte-accum m c in
        let m1 = copy_byte rom ram m in
        let low = copy_loop-accum f m1 in
        copy_loop-step f (plus 1 m) b.2
        ∙ ap (copy_loop rom ram f) b.1
        ∙ copy_loop-one f m1 (omega (arith, b.0))
        ∙ sym (copy_loop-more f (plus 1 (copy_loop rom ram f m1)) (omega (arith, b.0, low)))
        ∙ ap (λ (x : DmaMachine). copy_loop rom ram (suc f) (plus 1 x)) (sym (copy_loop-step f m c))
    | inr c ↦
        ap (λ (x : DmaMachine). copy_loop rom ram (suc f) (plus 1 x))
          (sym (copy_loop-stop (suc f) m c))
  ]

  -- What is left after the loop.
  pub copy_loop-done :
      (f : ℕ) (m : DmaMachine) → m.dma.cycle_accum < 4 * f → copying (copy_loop rom ram f m) ≡ false
  copy_loop-done zero m h = absurd (omega arith)
  copy_loop-done (suc f) m h = elim (Bool-cases (copying m)) [
    | inl c ↦
        ap copying (copy_loop-step f m c)
        ∙ copy_loop-done f (copy_byte rom ram m) (omega (arith, (copy_byte-accum m c).0))
    | inr c ↦ ap copying (copy_loop-stop (suc f) m c) ∙ c
  ]

  pub copy_loop-keeps :
      (f : ℕ) (m : DmaMachine)
      → ((copy_loop rom ram f m).dma.active ≡ m.dma.active)
        × ((copy_loop rom ram f m).dma.start_delay_cycles ≡ m.dma.start_delay_cycles)
  unfolding copy_loop copy_byte
  copy_loop-keeps zero m = (refl, refl)
  copy_loop-keeps (suc f) m =
      let ih = copy_loop-keeps f (copy_byte rom ram m) in
      elim (Bool-cases (copying m)) [ inl c ↦ rw c ih | inr c ↦ rw c (refl, refl) ]
