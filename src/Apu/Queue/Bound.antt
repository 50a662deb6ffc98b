-- ===== src/Apu/Queue/Bound.antt =====
-- The queue of samples of crates/kokura-core/src/apu.rs after any calls, and what is drained from it.
use kokura.Base.{
  ℕ, ◌-◌, ◌*◌, ◌/◌, ◌^◌, ◌≤◌, ◌<◌, ◌≡◌, ap, min, ◌==◌, Bool-cases, inl, inr, ◌++◌, length,
  length-append, ℤ, arith,
}
use kokura.Apu.Write.{write}
use kokura.Apu.State.{Float, Apu}
use kokura.Apu.Mix.{
  frames_in, buffered_frames, drain_interleaved_i16, set_buffer_capacity_frames, take_samples,
  drop_samples,
}
use kokura.Apu.Status.{
  Reachable, at_power, booted, set_mode, written, ticked, ticked_fast, drained, resized, resize,
}
use kokura.Apu.Queue.{IsQueue, IsQueueRun, length-drop_samples, length-shrink, take-drop}
use kokura.Apu.Queue.Written.{write-IsQueueRun, default-IsQueue, initialize_post_boot_state-IsQueue}
use kokura.Apu.Queue.Ticked.{tick-IsQueue}

module _ {F : Type 0} where
  drained-IsQueue : (n : ℕ) (a : Apu F) → IsQueue a → IsQueue (drain_interleaved_i16 n a).1
  unfolding drain_interleaved_i16
  drained-IsQueue n a q =
      let left = length-drop_samples (min n (buffered_frames a) * 2) a.pcm_buffer in
      record {
        room = q.room;
        paired = omega (arith, left, q.paired);
        fits = omega (arith, left, q.fits);
      }

  resized-IsQueue : (n : ℕ) (a : Apu F) → n < 2 ^ 63 → IsQueue a → IsQueue (resize n a)
  unfolding resize set_buffer_capacity_frames
  resized-IsQueue n a l q =
      let target = min (n * 2) (2 ^ 64 - 1) in
      let shrunk = length-shrink target (length a.pcm_buffer) a.pcm_buffer (omega arith) in
      elim (Bool-cases (n == 0)) [
        | inl e ↦ rw (e, resize) q
        | inr e ↦
            rw (e, resize)
              (record {
                room = ground (arith, e);
                paired = omega (arith, shrunk, q.paired, l);
                fits = omega (arith, shrunk);
              })
      ]

module _ {F : Type 0} (float : Float F) where
  written-IsQueue :
      (addr value : ℕ) (a : Apu F) → IsQueue a → IsQueue (write float addr value a).apu
  unfolding IsQueueRun
  written-IsQueue addr value a q = write-IsQueueRun float addr value a q

  Reachable-IsQueue : (a : Apu F) → Reachable float a → IsQueue a
  Reachable-IsQueue a at_power = default-IsQueue float
  Reachable-IsQueue a (booted mode b p) =
      initialize_post_boot_state-IsQueue float mode b (Reachable-IsQueue b p)
  Reachable-IsQueue a (set_mode m b p) = Reachable-IsQueue b p
  Reachable-IsQueue a (written addr value b p) =
      written-IsQueue addr value b (Reachable-IsQueue b p)
  Reachable-IsQueue a (ticked n b p) = (tick-IsQueue float n b (Reachable-IsQueue b p)).0
  Reachable-IsQueue a (ticked_fast n b p) = (tick-IsQueue float n b (Reachable-IsQueue b p)).1
  Reachable-IsQueue a (drained n b p) = drained-IsQueue n b (Reachable-IsQueue b p)
  Reachable-IsQueue a (resized n b l p) = resized-IsQueue n b l (Reachable-IsQueue b p)

  -- After any sequence of writes, ticks on either path, boots, mode changes, drains and changes
  -- of capacity (below 2 to the 63) from construction, the queue holds whole frames and no more
  -- of them than its capacity; a drain of up to `n` frames takes the oldest `n`, or all there
  -- are, in order, and leaves the others.
  pub drain-queue :
      (n : ℕ) (a : Apu F)
      → Reachable float a
      → let d = drain_interleaved_i16 n a in
        (buffered_frames a ≤ a.pcm_buffer_capacity_frames)
        × (length a.pcm_buffer ≡ 2 * buffered_frames a)
        × (d.0 ++ d.1.pcm_buffer ≡ a.pcm_buffer)
        × (length d.0 ≡ 2 * min n (buffered_frames a))
        × (buffered_frames d.1 ≡ buffered_frames a - n)
  unfolding drain_interleaved_i16 buffered_frames frames_in
  drain-queue n a p =
      let q = Reachable-IsQueue a p in
      let k = min n (length a.pcm_buffer / 2) * 2 in
      let left = length-drop_samples k a.pcm_buffer in
      let whole = take-drop k a.pcm_buffer in
      let sum = length-append (take_samples k a.pcm_buffer) (drop_samples k a.pcm_buffer) in
      let all = ap (length {A = ℤ}) whole in
      (
        omega (arith, q.fits),
        omega (arith, q.paired),
        whole,
        omega (arith, left, sum, all, q.paired),
        omega (arith, left, q.paired),
      )
