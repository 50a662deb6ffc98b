-- ===== src/Apu/Queue.antt =====
-- The queue of samples of the sound unit, crates/kokura-core/src/apu.rs, and the bound on it.
use kokura.Base.{
  ℕ, zero, suc, ◌+◌, ◌-◌, ◌*◌, ◌/◌, ◌%◌, ◌^◌, ◌≤◌, ◌<◌, min, ◌≡◌, refl, List, [], ◌∷◌, ◌++◌, length,
  length-append, ltb, if_cases, if_keep, ℤ, arith,
}
use kokura.Apu.State.{Apu, Run}
use kokura.Apu.Mix.{take_samples, drop_samples, pop_frame, shrink}
pub mod Written
pub mod Ticked
pub mod Bound

-- Whole frames, and no more of them than the capacity, which is not zero.
pub record IsBounded (samples : List ℤ) (capacity : ℕ) : Type 0 where
  pub room : 1 ≤ capacity
  pub paired : length samples % 2 ≡ 0
  pub fits : length samples ≤ 2 * capacity

abbrev pub IsQueue : {F : Type 0} → Apu F → Type 0
IsQueue a = IsBounded a.pcm_buffer a.pcm_buffer_capacity_frames

unfoldable pub IsQueueRun : {F : Type 0} → Run F → Type 0
IsQueueRun r = IsQueue r.apu

pub length-drop_samples :
    (n : ℕ) (samples : List ℤ) → length (drop_samples n samples) ≡ length samples - n
unfolding drop_samples
length-drop_samples zero samples = omega arith
length-drop_samples (suc n) [] = omega arith
length-drop_samples (suc n) (x ∷ samples) = omega (arith, length-drop_samples n samples)

pub length-pop_frame : (samples : List ℤ) → length (pop_frame samples) ≡ length samples - 2
unfolding pop_frame
length-pop_frame [] = omega arith
length-pop_frame (x ∷ []) = omega arith
length-pop_frame (x ∷ (y ∷ samples)) = omega arith

pub length-shrink :
    (target fuel : ℕ) (samples : List ℤ)
    → length samples ≤ fuel
    → length (shrink target fuel samples) ≡ min (length samples) target
unfolding shrink
length-shrink target zero samples h = omega arith
length-shrink target (suc fuel) samples h =
    let dropped = length-drop_samples 1 samples in
    let ih = length-shrink target fuel (drop_samples 1 samples) (omega (arith, dropped)) in
    if_cases (λ (xs : List ℤ). length xs ≡ min (length samples) target)
      (ltb target (length samples)) (λ more. ground (arith, more, ih, dropped))
      (λ all. ground (arith, all))

-- The samples that are taken and those that stay are the queue.
pub take-drop :
    (n : ℕ) (samples : List ℤ) → take_samples n samples ++ drop_samples n samples ≡ samples
unfolding take_samples drop_samples
take-drop zero samples = refl
take-drop (suc n) [] = refl
take-drop (suc n) (x ∷ samples) = rw (take-drop n samples) refl
