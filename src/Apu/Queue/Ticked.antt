-- ===== src/Apu/Queue/Ticked.antt =====
-- The queue of samples through the ticks of crates/kokura-core/src/apu.rs.
use kokura.Base.{
  ℕ, zero, suc, ◌+◌, ◌-◌, ◌*◌, ◌/◌, ◌%◌, ◌≤◌, ◌≡◌, refl, sym, Bool, false, not, ◌==◌, leb, ltb,
  bit_and, List, [], ◌∷◌, length, length-append, if_cases, if_keep, if◌then◌else◌, quot, max, pos,
  ℤ, arith,
}
use mathlib.Core.Path.{subst}
use kokura.Apu.{emit, change}
use kokura.Apu.State.{Float, Apu, Run, frame_sequencer_step}
use kokura.Apu.Phase.{advance_channels}
use kokura.Apu.Split.{advance_channels_flat}
use kokura.Apu.Mix.{
  frames_in, buffered_frames, emit_mixed_output_if_changed, evict, filter_frame, enqueue_pcm_frame,
  apply_output_low_pass,
}
use kokura.Apu.Tick.{
  Ticked, count_chunk, sequence, trace_mix, sample, process_timed_chunk, tick_loop, tick_fast_loop,
  start, report, tick, tick_fast,
}
use kokura.Apu.Position.Kept.{kept, IsKept, same-IsKept, clock_step-IsKept, emit_mixed-IsKept}
use kokura.Apu.Queue.{IsBounded, IsQueue, IsQueueRun, length-pop_frame}
use kokura.Apu.Queue.Written.{emit-IsQueueRun, change-IsQueueRun}

-- A queue with room for a frame.
record HasRoom (samples : List ℤ) (capacity : ℕ) : Type 0 where
  paired : length samples % 2 ≡ 0
  fits : length samples + 2 ≤ 2 * capacity

module _ {F : Type 0} where
  Kept-IsQueueRun : (r r' : Run F) → IsKept r r' → IsQueueRun r → IsQueueRun r'
  unfolding IsKept kept IsQueueRun
  Kept-IsQueueRun r r' e h = subst (λ k. IsBounded k.1.0 k.1.1) (sym e) h

  -- Enough rounds of the eviction make room for a frame.
  evict-HasRoom :
      (fuel : ℕ) (s : Apu F × ℕ)
      → length s.0.pcm_buffer ≤ 2 * fuel
      → IsQueue s.0
      → HasRoom (evict fuel s).0.pcm_buffer (evict fuel s).0.pcm_buffer_capacity_frames
        × ((evict fuel s).0.pcm_buffer_capacity_frames ≡ s.0.pcm_buffer_capacity_frames)
  unfolding evict buffered_frames frames_in
  evict-HasRoom zero (a, dropped) h q =
      (record { paired = q.paired; fits = omega (arith, q.room) }, refl)
  evict-HasRoom (suc fuel) (a, dropped) h q =
      let popped = length-pop_frame a.pcm_buffer in
      let P = λ (s : Apu F × ℕ).
        HasRoom s.0.pcm_buffer s.0.pcm_buffer_capacity_frames
        × (s.0.pcm_buffer_capacity_frames ≡ a.pcm_buffer_capacity_frames) in
      if_cases P (leb a.pcm_buffer_capacity_frames (length a.pcm_buffer / 2))
        (λ full. evict-HasRoom fuel _ (omega (arith, popped)) (record {
          room = q.room;
          paired = omega (arith, popped, q.paired);
          fits = omega (arith, popped, q.fits);
        }))
        (λ some. (record { paired = q.paired; fits = ground (arith, some, q.paired) }, refl))

  sequence-IsQueueRun :
      (emit_trace : Bool) (r : Run F) → IsQueueRun r → IsQueueRun (sequence emit_trace r)
  unfolding sequence
  sequence-IsQueueRun emit_trace r h =
      let step = bit_and (r.apu.frame_seq_step + 1) 0x07 in
      let next = λ (a : Apu F). record a {
        frame_seq_cycles = a.frame_seq_cycles - 8192;
        frame_seq_step = step;
      } in
      let s1 = change-IsQueueRun next r (λ a q. q) h in
      let r2 =
        if emit_trace then emit (frame_sequencer_step step) (change next r) else change next r in
      let s2 : IsQueueRun r2 = if_keep IsQueueRun emit_trace (emit-IsQueueRun _ _ s1) s1 in
      if_keep IsQueueRun (leb 8192 r.apu.frame_seq_cycles)
        (Kept-IsQueueRun r2 _ (clock_step-IsKept step r2 r2 (same-IsKept r2)) s2) h

  emit_mixed-IsQueueRun : (r : Run F) → IsQueueRun r → IsQueueRun (emit_mixed_output_if_changed r)
  emit_mixed-IsQueueRun r h = Kept-IsQueueRun r _ (emit_mixed-IsKept r) h

  trace_mix-IsQueueRun :
      (emit_trace : Bool) (r : Run F) → IsQueueRun r → IsQueueRun (trace_mix emit_trace r)
  unfolding trace_mix
  trace_mix-IsQueueRun emit_trace r h =
      let wrap = λ (a : Apu F). record a { mix_trace_cycles = a.mix_trace_cycles % 1024 } in
      let s1 = change-IsQueueRun wrap r (λ a q. q) h in
      if_keep IsQueueRun (leb 1024 r.apu.mix_trace_cycles)
        (if_keep IsQueueRun emit_trace (emit_mixed-IsQueueRun _ s1) s1) h

  count_chunk-IsQueue :
      (k : ℕ) (a : Apu F) → IsQueue a → IsQueue (count_chunk k (advance_channels k a))
  unfolding count_chunk
  count_chunk-IsQueue k a q = rw (advance_channels_flat k a) q

  report-IsQueueRun : (t : Ticked F) → IsQueueRun t.run → IsQueueRun (report t)
  unfolding report
  report-IsQueueRun t h =
      let s1 = if_keep IsQueueRun (ltb 0 t.generated_frames) (emit-IsQueueRun _ t.run h) h in
      emit_mixed-IsQueueRun _
        (if_keep IsQueueRun (ltb 0 t.dropped_frames) (emit-IsQueueRun _ _ s1) s1)

  untraced-IsQueueRun : (r : Run F) → IsQueueRun r → IsQueueRun (record r { trace = [] })
  unfolding IsQueueRun
  untraced-IsQueueRun r h = h

module _ {F : Type 0} (float : Float F) where
  filter_frame-IsQueue :
      (left right : ℤ) (a : Apu F) → IsQueue a → IsQueue (filter_frame float left right a).0
  unfolding filter_frame apply_output_low_pass
  filter_frame-IsQueue left right a h = if_keep (λ (p : Apu F × (ℤ × ℤ)). IsQueue p.0) _ h h

  filter_frame-length :
      (left right : ℤ) (a : Apu F)
      → length (filter_frame float left right a).0.pcm_buffer ≡ length a.pcm_buffer
  unfolding filter_frame apply_output_low_pass
  filter_frame-length left right a =
      if_keep (λ (p : Apu F × (ℤ × ℤ)). length p.0.pcm_buffer ≡ length a.pcm_buffer) _ refl refl

  enqueue_pcm_frame-IsQueue : (s : Apu F × ℕ) → IsQueue s.0 → IsQueue (enqueue_pcm_frame float s).0
  unfolding enqueue_pcm_frame buffered_frames frames_in
  enqueue_pcm_frame-IsQueue (a, dropped) q =
      let accum_cycles = max a.pcm_accum_cycles 1 in
      let left = quot a.pcm_accum_left accum_cycles in
      let right = quot a.pcm_accum_right accum_cycles in
      let cleared : Apu F = record a {
        pcm_accum_left = pos 0;
        pcm_accum_right = pos 0;
        pcm_accum_cycles = 0;
      } in
      let filtered = filter_frame float left right cleared in
      let same = filter_frame-length left right cleared in
      let e =
        evict-HasRoom (length a.pcm_buffer / 2) (filtered.0, dropped)
          (omega (arith, q.paired, same)) (filter_frame-IsQueue left right cleared q) in
      let evicted = evict (length a.pcm_buffer / 2) (filtered.0, dropped) in
      let longer = length-append evicted.0.pcm_buffer (filtered.1.0 ∷ filtered.1.1 ∷ []) in
      record {
        room = omega (arith, e.0.fits);
        paired = omega (arith, longer, e.0.paired);
        fits = omega (arith, longer, e.0.fits);
      }

  sample-IsQueueRun : (t : Ticked F) → IsQueueRun t.run → IsQueueRun (sample float t).run
  unfolding sample IsQueueRun
  sample-IsQueueRun t h =
      if_keep (λ (t : Ticked F). IsQueueRun t.run) (leb 64 t.run.apu.pcm_sample_cycles)
        (enqueue_pcm_frame-IsQueue _ h) h

  process-IsQueueRun :
      (k : ℕ) (emit_trace : Bool) (t : Ticked F)
      → IsQueueRun t.run
      → IsQueueRun (process_timed_chunk float k emit_trace t).run
  unfolding process_timed_chunk
  process-IsQueueRun k emit_trace t h = trace_mix-IsQueueRun emit_trace _ (
      sequence-IsQueueRun emit_trace _ (
        sample-IsQueueRun _ (
          change-IsQueueRun (λ a. count_chunk k (advance_channels k a)) t.run
            (count_chunk-IsQueue k) h)))

  tick_loop-IsQueueRun :
      (fuel remaining : ℕ) (t : Ticked F)
      → IsQueueRun t.run
      → IsQueueRun (tick_loop float fuel remaining t).run
  unfolding tick_loop
  tick_loop-IsQueueRun zero remaining t h = h
  tick_loop-IsQueueRun (suc fuel) remaining t h =
      if_keep (λ (t : Ticked F). IsQueueRun t.run) (remaining == 0) h
        (tick_loop-IsQueueRun fuel _ _ (process-IsQueueRun _ _ t h))

  tick_fast_loop-IsQueueRun :
      (fuel remaining : ℕ) (t : Ticked F)
      → IsQueueRun t.run
      → IsQueueRun (tick_fast_loop float fuel remaining t).run
  unfolding tick_fast_loop
  tick_fast_loop-IsQueueRun zero remaining t h = h
  tick_fast_loop-IsQueueRun (suc fuel) remaining t h =
      if_keep (λ (t : Ticked F). IsQueueRun t.run) (remaining == 0) h
        (tick_fast_loop-IsQueueRun fuel _ _
          (untraced-IsQueueRun _ (process-IsQueueRun _ false t h)))

  pub tick-IsQueue :
      (cycles : ℕ) (a : Apu F)
      → IsQueue a
      → IsQueue (tick float cycles a).apu × IsQueue (tick_fast float cycles a)
  unfolding tick tick_fast start IsQueueRun
  tick-IsQueue cycles a q = (
    if_keep (λ (r : Run F). IsQueue r.apu) (not a.master_enabled) q
        (report-IsQueueRun _ (tick_loop-IsQueueRun cycles cycles (start a) q)),
    if_keep IsQueue (not a.master_enabled) q
        (emit_mixed-IsQueueRun _ (tick_fast_loop-IsQueueRun cycles cycles (start a) q)),
  )
