-- ===== src/Apu/Position/Rate.antt =====
-- The counters of the sound unit through the ticks of crates/kokura-core/src/apu.rs.
use kokura.Base.{
  ℕ, zero, suc, ◌+◌, ◌-◌, ◌%◌, ◌^◌, ◌≤◌, ◌<◌, ◌≡◌, refl, ◌∙◌, ap, Bool, true, false, not, [],
  bit_and, ◌==◌, leb, ltb, min, if◌then◌else◌, if_keep, if_cases, u32, ℤ, arith,
}
use kokura.Apu.{emit, change}
use kokura.Apu.State.{Float, Apu, Run, frame_sequencer_step, pcm_frames_buffered}
use kokura.Apu.Phase.{advance_channels}
use kokura.Apu.Split.{advance_channels_flat}
use kokura.Apu.Mix.{
  emit_mixed_output_if_changed, evict, filter_frame, enqueue_pcm_frame, buffered_frames,
  apply_output_low_pass, any_channel_dac_enabled,
}
use kokura.Apu.Tick.{
  Ticked, next_timed_chunk, count_chunk, clock_step, sequence, trace_mix, sample,
  process_timed_chunk, tick_loop, tick_fast_loop, start, report, tick, tick_fast,
}
use kokura.Apu.Position.{
  Counters, counters, IsTimed, after, sampled_at, stepped_at, mixed_at, counted, stages,
  stages-after, after-IsTimed, after_none, next_after, chosen,
}
use kokura.Apu.Position.Kept.{
  IsKept, kept, same-IsKept, emit-IsKept, clock_step-IsKept, emit_mixed-IsKept,
}

module _ {F : Type 0} where
  count_lem :
      (k : ℕ) (a : Apu F) → counters (count_chunk k (advance_channels k a)) ≡ counted k (counters a)
  unfolding count_chunk counters counted
  count_lem k a = rw (advance_channels_flat k a) refl

  evict_lem : (fuel : ℕ) (s : Apu F × ℕ) → counters (evict fuel s).0 ≡ counters s.0
  unfolding evict counters
  evict_lem zero s = refl
  evict_lem (suc fuel) (a, dropped) =
      if_keep (λ (s : Apu F × ℕ). counters s.0 ≡ counters a)
        (leb a.pcm_buffer_capacity_frames (buffered_frames a)) (evict_lem fuel _) refl

  sequence_lem :
      (emit_trace : Bool) (r : Run F)
      → counters (sequence emit_trace r).apu
        ≡ stepped_at (leb 8192 r.apu.frame_seq_cycles) (counters r.apu)
  unfolding sequence stepped_at IsKept kept counters change
  sequence_lem emit_trace r =
      let step = bit_and (r.apu.frame_seq_step + 1) 0x07 in
      let next = λ (a : Apu F). record a {
        frame_seq_cycles = a.frame_seq_cycles - 8192;
        frame_seq_step = step;
      } in
      let r1 = change next r in
      let r2 = if emit_trace then emit (frame_sequencer_step step) r1 else r1 in
      let s2 : IsKept r1 r2 =
        if_keep (IsKept r1) emit_trace (emit-IsKept _ r1 r1 (same-IsKept r1)) (same-IsKept r1) in
      chosen (λ (r : Run F). counters r.apu) stepped_at (leb 8192 r.apu.frame_seq_cycles)
        (clock_step step r2) r (counters r.apu) (ap (λ k. k.0) (clock_step-IsKept step r1 r2 s2))
        refl

  trace_mix_lem :
      (emit_trace : Bool) (r : Run F)
      → counters (trace_mix emit_trace r).apu
        ≡ mixed_at (leb 1024 r.apu.mix_trace_cycles) (counters r.apu)
  unfolding trace_mix mixed_at IsKept kept counters change
  trace_mix_lem emit_trace r =
      let r1 = change (λ a. record a { mix_trace_cycles = a.mix_trace_cycles % 1024 }) r in
      let r2 = if emit_trace then emit_mixed_output_if_changed r1 else r1 in
      let s2 : IsKept r1 r2 =
        if_keep (IsKept r1) emit_trace (emit_mixed-IsKept r1) (same-IsKept r1) in
      chosen (λ (r : Run F). counters r.apu) mixed_at (leb 1024 r.apu.mix_trace_cycles) r2 r
        (counters r.apu) (ap (λ k. k.0) s2) refl

module _ {F : Type 0} (float : Float F) where
  filter_lem :
      (left right : ℤ) (a : Apu F) → counters (filter_frame float left right a).0 ≡ counters a
  unfolding filter_frame apply_output_low_pass counters
  filter_lem left right a =
      if_keep (λ (p : Apu F × (ℤ × ℤ)). counters p.0 ≡ counters a) (any_channel_dac_enabled a) refl
        refl

  enqueue_lem :
      (s : Apu F × ℕ)
      → counters (enqueue_pcm_frame float s).0
        ≡ record (counters s.0) { frames = min (s.0.pcm_frames_generated + 1) (2 ^ 64 - 1) }
  unfolding enqueue_pcm_frame counters
  enqueue_lem (a, dropped) =
      ap (λ (c : Counters). record c { frames = min (c.frames + 1) (2 ^ 64 - 1) })
        (evict_lem (buffered_frames a) _ ∙ filter_lem _ _ _)

  sample_lem :
      (t : Ticked F)
      → counters (sample float t).run.apu
        ≡ sampled_at (leb 64 t.run.apu.pcm_sample_cycles) (counters t.run.apu)
  unfolding sample sampled_at counters
  sample_lem t =
      let a = t.run.apu in
      let queued =
        enqueue_pcm_frame float
          (record a { pcm_sample_cycles = a.pcm_sample_cycles - 64 }, t.dropped_frames) in
      let full : Ticked F = record {
        run = record t.run { apu = queued.0 };
        generated_frames = min (t.generated_frames + 1) 0xFFFF;
        dropped_frames = queued.1;
      } in
      chosen (λ (t : Ticked F). counters t.run.apu) sampled_at (leb 64 a.pcm_sample_cycles) full t
        (counters a) (enqueue_lem _) refl

  process_lem :
      (k : ℕ) (emit_trace : Bool) (t : Ticked F)
      → counters (process_timed_chunk float k emit_trace t).run.apu ≡ stages k (counters t.run.apu)
  unfolding process_timed_chunk counters stages change
  process_lem k emit_trace t =
      let a = count_chunk k (advance_channels k t.run.apu) in
      let t0 = record t { run = change (λ a. count_chunk k (advance_channels k a)) t.run } in
      let t1 = sample float t0 in
      let e0 = count_lem k t.run.apu in
      let e1 = sample_lem t0 ∙ ap (λ (c : Counters). sampled_at (leb 64 c.sampled) c) e0 in
      let e2 =
        sequence_lem emit_trace t1.run
        ∙ ap (λ (c : Counters). stepped_at (leb 8192 c.sequencer) c) e1 in
      trace_mix_lem emit_trace (sequence emit_trace t1.run)
      ∙ ap (λ (c : Counters). mixed_at (leb 1024 c.mix) c) e2

  -- A chunk that fits before the deadlines, in a loop that has `remaining` cycles left.
  chunk_lem :
      (remaining : ℕ) (a : Apu F)
      → 0 < remaining
      → IsTimed (counters a)
      → let k = next_timed_chunk remaining a in
        (0 < k) × (k ≤ remaining) × (stages k (counters a) ≡ after k (counters a))
  unfolding next_timed_chunk counters
  chunk_lem remaining a p h =
      let k = next_timed_chunk remaining a in
      let m = h.mix_small in
      let n = h.sampled_small in
      let l = h.sequencer_small in
      (
        ground arith,
        ground arith,
        stages-after k (counters a) h (ground arith) (ground arith) (ground arith),
      )

  tick_loop-after :
      (fuel remaining : ℕ) (t : Ticked F)
      → remaining ≤ fuel
      → IsTimed (counters t.run.apu)
      → counters (tick_loop float fuel remaining t).run.apu ≡ after remaining (counters t.run.apu)
  unfolding tick_loop
  tick_loop-after zero remaining t p h = after_none remaining (counters t.run.apu) (omega arith) h
  tick_loop-after (suc fuel) remaining t p h =
      if_cases (λ (u : Ticked F). counters u.run.apu ≡ after remaining (counters t.run.apu))
        (remaining == 0) (λ e. after_none remaining (counters t.run.apu) (ground arith) h)
        (λ e.
          let k = next_timed_chunk remaining t.run.apu in
          let fits = chunk_lem remaining t.run.apu (ground arith) h in
          let t1 = process_timed_chunk float k true t in
          let e1 = process_lem k true t ∙ fits.2 in
          next_after remaining k (counters t.run.apu) (counters t1.run.apu) _ fits.1 e1 (
            tick_loop-after fuel (remaining - k) t1 (omega (arith, fits.0))
              (rw e1 (after-IsTimed k (counters t.run.apu)))))

  tick_fast_loop-after :
      (fuel remaining : ℕ) (t : Ticked F)
      → remaining ≤ fuel
      → IsTimed (counters t.run.apu)
      → counters (tick_fast_loop float fuel remaining t).run.apu
        ≡ after remaining (counters t.run.apu)
  unfolding tick_fast_loop
  tick_fast_loop-after zero remaining t p h =
      after_none remaining (counters t.run.apu) (omega arith) h
  tick_fast_loop-after (suc fuel) remaining t p h =
      if_cases (λ (u : Ticked F). counters u.run.apu ≡ after remaining (counters t.run.apu))
        (remaining == 0) (λ e. after_none remaining (counters t.run.apu) (ground arith) h)
        (λ e.
          let k = next_timed_chunk remaining t.run.apu in
          let fits = chunk_lem remaining t.run.apu (ground arith) h in
          let t1 = process_timed_chunk float k false t in
          let e1 = process_lem k false t ∙ fits.2 in
          next_after remaining k (counters t.run.apu) (counters t1.run.apu) _ fits.1 e1 (
            tick_fast_loop-after fuel (remaining - k)
              (record t1 { run = record t1.run { trace = [] } }) (omega (arith, fits.0))
              (rw e1 (after-IsTimed k (counters t.run.apu)))))

  report-IsKept : (t : Ticked F) → IsKept t.run (report t)
  unfolding report IsKept
  report-IsKept t =
      let r = t.run in
      let r1 =
        if ltb 0 t.generated_frames
        then emit (pcm_frames_buffered t.generated_frames (u32 (buffered_frames r.apu))) r
        else r in
      let s1 : IsKept r r1 =
        if_keep (IsKept r) (ltb 0 t.generated_frames) (emit-IsKept _ r r (same-IsKept r))
          (same-IsKept r) in
      emit_mixed-IsKept _ ∙ if_keep (IsKept r) (ltb 0 t.dropped_frames) (emit-IsKept _ r r1 s1) s1

  -- With master power on and the counters in their ranges, `tick` and `tick_fast` of any number
  -- of cycles end with the counters that many cycles on: the frame sequencer has made a step for
  -- each 8192 cycles, modulo 8, and the samples counted are one more for each 64 cycles, up to
  -- the bound of 64 bits.
  pub tick-after :
      (cycles : ℕ) (a : Apu F)
      → a.master_enabled ≡ true
      → IsTimed (counters a)
      → (counters (tick float cycles a).apu ≡ after cycles (counters a))
        × (counters (tick_fast float cycles a) ≡ after cycles (counters a))
  unfolding tick tick_fast start IsKept kept
  tick-after cycles a e h =
      let P = λ (b : Apu F). counters b ≡ after cycles (counters a) in
      let off = λ (f : not a.master_enabled ≡ true). absurd (ground (arith, e, f)) in
      let full = tick_loop float cycles cycles (start a) in
      let fast = tick_fast_loop float cycles cycles (start a) in
      (
        if_cases (λ (r : Run F). P r.apu) (not a.master_enabled) (λ f. absurd (off f))
            (λ f.
              ap (λ k. k.0) (report-IsKept full)
              ∙ tick_loop-after cycles cycles (start a) (omega arith) h),
        if_cases P (not a.master_enabled) (λ f. absurd (off f))
            (λ f.
              ap (λ k. k.0) (emit_mixed-IsKept fast.run)
              ∙ tick_fast_loop-after cycles cycles (start a) (omega arith) h),
      )
