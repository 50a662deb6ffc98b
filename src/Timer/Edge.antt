-- ===== src/Timer/Edge.antt =====
-- Falling edges of the selected divider bit, and the distance to the next one.
use kokura.Base.{ℕ, ◌+◌, ◌-◌, ◌*◌, ◌/◌, ◌%◌, ◌^◌, ◌≤◌, ◌<◌, bit_and}
use kokura.Base.{◌≡◌, ◌⊎◌, inl, inr, Bool, true, false, not, ◌&&◌, arith}
use kokura.Base.{◌==◌, ◌!=◌, if◌then◌else◌, u16, ◌>>>◌, bit_and_low}
use kokura.Timer.{Timer, divider_bit, timer_signal, edge, bump_div, cycles_until_edge}

-- The four divider bits that TAC selects.
pub divider_bit-cases :
    (tac : ℕ)
    → (divider_bit tac ≡ 3) ⊎ (divider_bit tac ≡ 5) ⊎ (divider_bit tac ≡ 7) ⊎ (divider_bit tac ≡ 9)
unfolding divider_bit
divider_bit-cases tac = ground arith

-- The signal and the distance in arithmetic, for the half period `q`.
abbrev high : ℕ → ℕ → Bool
high q d = d / q % 2 != 0

abbrev falls : ℕ → ℕ → Bool
falls q d = high q d && not (high q (u16 (d + 1)))

abbrev gap : ℕ → ℕ → ℕ
gap q d = if d % (q * 2) == 0 then q * 2 else q * 2 - d % (q * 2)

abbrev GapLaw : ℕ → Type 0
GapLaw q =
    (d : ℕ)
    → d < 65536
    → (1 ≤ gap q d)
      × (1 < gap q d → (falls q d ≡ false) × (gap q (u16 (d + 1)) + 1 ≡ gap q d))
      × (gap q d ≡ 1 → falls q d ≡ true)

gap_8 : GapLaw 8
gap_8 d h = (ground arith, λ k. (ground arith, ground arith), λ k. ground arith)

gap_32 : GapLaw 32
gap_32 d h = (ground arith, λ k. (ground arith, ground arith), λ k. ground arith)

gap_128 : GapLaw 128
gap_128 d h = (ground arith, λ k. (ground arith, ground arith), λ k. ground arith)

gap_512 : GapLaw 512
gap_512 d h = (ground arith, λ k. (ground arith, ground arith), λ k. ground arith)

pub GapLaw-bit : (tac : ℕ) → GapLaw (2 ^ divider_bit tac)
GapLaw-bit tac = elim (divider_bit-cases tac) [
  | inl e ↦ rw e gap_8
  | inr (inl e) ↦ rw e gap_32
  | inr (inr (inl e)) ↦ rw e gap_128
  | inr (inr (inr e)) ↦ rw e gap_512
]

pub timer_signal-high :
    (tac d : ℕ) → (bit_and tac 4 == 0) ≡ false → timer_signal d tac ≡ high (2 ^ divider_bit tac) d
unfolding timer_signal
timer_signal-high tac d on = rw (on, bit_and_low 1 (d >>> divider_bit tac))

cycles_until_edge-gap :
    (t : Timer) → cycles_until_edge t ≡ gap (2 ^ divider_bit t.tac) t.div_counter
unfolding cycles_until_edge
cycles_until_edge-gap t = elim (divider_bit-cases t.tac) [
  | inl e ↦ rw (e, bit_and_low 4 t.div_counter)
  | inr (inl e) ↦ rw (e, bit_and_low 6 t.div_counter)
  | inr (inr (inl e)) ↦ rw (e, bit_and_low 8 t.div_counter)
  | inr (inr (inr e)) ↦ rw (e, bit_and_low 10 t.div_counter)
]

-- One cycle, seen from the distance: no edge until the last cycle of it, and then an edge.
module _ (t : Timer) (on : (bit_and t.tac 4 == 0) ≡ false) (w : t.div_counter < 65536) where
  law :
      (1 ≤ cycles_until_edge t)
      × (1 < cycles_until_edge t
          → (edge t ≡ false) × (cycles_until_edge (bump_div 1 t) + 1 ≡ cycles_until_edge t))
      × (cycles_until_edge t ≡ 1 → edge t ≡ true)
  law =
      rw
        (
          cycles_until_edge-gap t,
          cycles_until_edge-gap (bump_div 1 t),
          timer_signal-high t.tac t.div_counter on,
          timer_signal-high t.tac (u16 (t.div_counter + 1)) on,
        )
        (GapLaw-bit t.tac t.div_counter w)

  pub cycles_until_edge-pos : 1 ≤ cycles_until_edge t
  cycles_until_edge-pos = law.0

  pub edge_early : 1 < cycles_until_edge t → edge t ≡ false
  edge_early h = (law.1 h).0

  pub cycles_until_edge-bump :
      1 < cycles_until_edge t → cycles_until_edge (bump_div 1 t) + 1 ≡ cycles_until_edge t
  cycles_until_edge-bump h = (law.1 h).1

  pub edge_due : cycles_until_edge t ≡ 1 → edge t ≡ true
  edge_due = law.2

pub edge_off : (t : Timer) → (bit_and t.tac 4 == 0) ≡ true → edge t ≡ false
unfolding timer_signal
edge_off t off = rw off
