-- ===== src/Apu/Gate/Ticked.antt =====
-- The invariant of the sound unit through the ticks of crates/kokura-core/src/apu.rs.
use kokura.Base.{
  ℕ, zero, suc, ◌+◌, ◌-◌, ◌≡◌, refl, Bool, true, false, not, ◌||◌, bit_and, ◌==◌, leb, ltb, ◌%◌,
  u32, [], ℤ, ◌>>>◌, if◌then◌else◌, if_keep, arith,
}
use kokura.Apu.{ch, with_ch, emit, change}
use kokura.Apu.State.{Float, ChannelState, Apu, Run, at, pcm_frames_buffered}
use kokura.Apu.Phase.{advance_channels}
use kokura.Apu.Sequencer.{
  swept, clock_length, set_current_frequency, overflow_sweep, apply_sweep, clock_sweep,
}
use kokura.Apu.Mix.{
  emit_mixed_output_if_changed, evict, filter_frame, enqueue_pcm_frame, buffered_frames,
  apply_output_low_pass,
}
use kokura.Apu.Tick.{
  Ticked, next_timed_chunk, count_chunk, clock_step, sequence, trace_mix, sample,
  process_timed_chunk, tick_loop, tick_fast_loop, start, report, tick, tick_fast,
}
use kokura.Apu.Gate.{IsOk, IsSound, IsSoundRun, limit}
use kokura.Apu.Gate.Mask.{
  with_ch-IsSound, off-IsSound, change-IsSoundRun, emit-IsSound, IsSoundRun-apu, apu-IsSoundRun,
}
use kokura.Apu.Gate.Clocked.{
  advance_channels-IsSound, clock_length-IsSound, clock_envelopes-IsSound,
}

module _ {F : Type 0} where
  overflow_sweep-IsSound : (r : Run F) → IsSoundRun r → IsSoundRun (overflow_sweep r)
  unfolding overflow_sweep IsSoundRun emit change
  overflow_sweep-IsSound r h = off-IsSound 0 r.apu (omega arith) h

  -- A change of channel 1 that the invariant does not see.
  set_first-IsSound :
      (f : ChannelState → ChannelState) (r : Run F)
      → ((st : ChannelState) → IsOk 64 st → IsOk 64 (f st))
      → ((st : ChannelState) → (f st).enabled ≡ st.enabled)
      → IsSoundRun r
      → IsSoundRun (change (with_ch 0 f) r)
  unfolding IsSoundRun change ch at limit
  set_first-IsSound f r k e h =
      with_ch-IsSound 0 f r.apu h (e r.apu.channels.c0) (k r.apu.channels.c0 (h.states 0))

  set_current_frequency-IsSound :
      (frequency : ℕ) (r : Run F)
      → IsSoundRun r
      → IsSoundRun (change (set_current_frequency 1 frequency) r)
  unfolding set_current_frequency IsSoundRun change ch at limit
  set_current_frequency-IsSound frequency r h =
      with_ch-IsSound 0 (λ st. record st { shadow_frequency = frequency }) _ h refl (h.states 0)

  apply_sweep-IsSound : (r : Run F) → IsSoundRun r → IsSoundRun (apply_sweep r)
  unfolding apply_sweep
  apply_sweep-IsSound r0 h =
      let st = ch 0 r0.apu in
      let next =
        swept st.sweep_negate st.shadow_frequency (st.shadow_frequency >>> st.sweep_shift) in
      let second = swept st.sweep_negate next (next >>> st.sweep_shift) in
      let used = λ (st : ChannelState). record st { sweep_negate_used = true } in
      let pitched = λ (st : ChannelState). record st { shadow_frequency = next } in
      let r = if st.sweep_negate then change (with_ch 0 used) r0 else r0 in
      let s : IsSoundRun r =
        if_keep IsSoundRun st.sweep_negate (set_first-IsSound used r0 (λ st k. k) (λ st. refl) h)
          h in
      let r1 = change (set_current_frequency 1 next) r in
      let s1 = set_current_frequency-IsSound next r s in
      let r2 = if ltb 2047 second then overflow_sweep r1 else r1 in
      let s2 : IsSoundRun r2 =
        if_keep IsSoundRun (ltb 2047 second) (overflow_sweep-IsSound r1 s1) s1 in
      if_keep IsSoundRun (ltb 2047 next) (overflow_sweep-IsSound r s) (
        if_keep IsSoundRun (st.sweep_shift == 0) s
          (emit-IsSound _ _ (set_first-IsSound pitched r2 (λ st k. k) (λ st. refl) s2)))

  clock_sweep-IsSound : (r : Run F) → IsSoundRun r → IsSoundRun (clock_sweep r)
  unfolding clock_sweep
  clock_sweep-IsSound r h =
      let st = ch 0 r.apu in
      let counted = λ (n : ℕ).
        set_first-IsSound (λ st. record st { sweep_counter = n }) r (λ st k. k) (λ st. refl) h in
      let reload = if st.sweep_period == 0 then 8 else st.sweep_period in
      if_keep IsSoundRun _ h (
        if_keep IsSoundRun (ltb 0 (st.sweep_counter - 1)) (counted (st.sweep_counter - 1)) (
          if_keep IsSoundRun (st.sweep_period == 0) (counted reload)
            (apply_sweep-IsSound _ (counted reload))))

  count_chunk-IsSound : (chunk : ℕ) (a : Apu F) → IsSound a → IsSound (count_chunk chunk a)
  unfolding count_chunk
  count_chunk-IsSound chunk a h = h

  clock_step-IsSound : (step : ℕ) (r : Run F) → IsSoundRun r → IsSoundRun (clock_step step r)
  unfolding clock_step
  clock_step-IsSound step r h =
      let r1 = if step % 2 == 0 then clock_length r else r in
      let s1 : IsSoundRun r1 = if_keep IsSoundRun (step % 2 == 0) (clock_length-IsSound r h) h in
      let r2 = if step == 2 || step == 6 then clock_sweep r1 else r1 in
      let s2 : IsSoundRun r2 =
        if_keep IsSoundRun (step == 2 || step == 6) (clock_sweep-IsSound r1 s1) s1 in
      if_keep IsSoundRun (step == 7) (clock_envelopes-IsSound r2 s2) s2

  sequence-IsSound :
      (emit_trace : Bool) (r : Run F) → IsSoundRun r → IsSoundRun (sequence emit_trace r)
  unfolding sequence
  sequence-IsSound emit_trace r h =
      let step = bit_and (r.apu.frame_seq_step + 1) 0x07 in
      let next = λ (a : Apu F). record a {
        frame_seq_cycles = a.frame_seq_cycles - 8192;
        frame_seq_step = step;
      } in
      let s1 = change-IsSoundRun next r (IsSoundRun-apu r h) in
      if_keep IsSoundRun (leb 8192 r.apu.frame_seq_cycles)
        (clock_step-IsSound step _ (if_keep IsSoundRun emit_trace (emit-IsSound _ _ s1) s1)) h

  emit_mixed-IsSound : (r : Run F) → IsSoundRun r → IsSoundRun (emit_mixed_output_if_changed r)
  unfolding emit_mixed_output_if_changed IsSoundRun emit change
  emit_mixed-IsSound r h = if_keep IsSoundRun _ h h

  trace_mix-IsSound :
      (emit_trace : Bool) (r : Run F) → IsSoundRun r → IsSoundRun (trace_mix emit_trace r)
  unfolding trace_mix
  trace_mix-IsSound emit_trace r h =
      let wrap = λ (a : Apu F). record a { mix_trace_cycles = a.mix_trace_cycles % 1024 } in
      let s1 = change-IsSoundRun wrap r (IsSoundRun-apu r h) in
      if_keep IsSoundRun (leb 1024 r.apu.mix_trace_cycles)
        (if_keep IsSoundRun emit_trace (emit_mixed-IsSound _ s1) s1) h

  -- The queue and the filters do not touch the channels.
  evict-IsSound : (fuel : ℕ) (s : Apu F × ℕ) → IsSound s.0 → IsSound (evict fuel s).0
  unfolding evict
  evict-IsSound zero s h = h
  evict-IsSound (suc fuel) (a, dropped) h =
      if_keep (λ (s : Apu F × ℕ). IsSound s.0) _ (evict-IsSound fuel _ h) h

  report-IsSound : (t : Ticked F) → IsSoundRun t.run → IsSoundRun (report t)
  unfolding report
  report-IsSound t h =
      let r1 =
        if ltb 0 t.generated_frames
        then emit (pcm_frames_buffered t.generated_frames (u32 (buffered_frames t.run.apu))) t.run
        else t.run in
      let s1 : IsSoundRun r1 =
        if_keep IsSoundRun (ltb 0 t.generated_frames) (emit-IsSound _ t.run h) h in
      emit_mixed-IsSound _ (if_keep IsSoundRun (ltb 0 t.dropped_frames) (emit-IsSound _ r1 s1) s1)

module _ {F : Type 0} (float : Float F) where
  filter_frame-IsSound :
      (left right : ℤ) (a : Apu F) → IsSound a → IsSound (filter_frame float left right a).0
  unfolding filter_frame apply_output_low_pass
  filter_frame-IsSound left right a h = if_keep (λ (p : Apu F × (ℤ × ℤ)). IsSound p.0) _ h h

  enqueue_pcm_frame-IsSound : (s : Apu F × ℕ) → IsSound s.0 → IsSound (enqueue_pcm_frame float s).0
  unfolding enqueue_pcm_frame
  enqueue_pcm_frame-IsSound (a, dropped) h =
      evict-IsSound (buffered_frames a) _ (filter_frame-IsSound _ _ _ h)

  sample-IsSound : (t : Ticked F) → IsSoundRun t.run → IsSoundRun (sample float t).run
  unfolding sample IsSoundRun
  sample-IsSound t h =
      if_keep (λ (t : Ticked F). IsSoundRun t.run) (leb 64 t.run.apu.pcm_sample_cycles)
        (enqueue_pcm_frame-IsSound _ h) h

  process_timed_chunk-IsSound :
      (chunk : ℕ) (emit_trace : Bool) (t : Ticked F)
      → IsSoundRun t.run
      → IsSoundRun (process_timed_chunk float chunk emit_trace t).run
  unfolding process_timed_chunk
  process_timed_chunk-IsSound chunk emit_trace t h = trace_mix-IsSound emit_trace _ (
      sequence-IsSound emit_trace _ (
        sample-IsSound _ (
          change-IsSoundRun (λ a. count_chunk chunk (advance_channels chunk a)) t.run
            (count_chunk-IsSound chunk _
              (advance_channels-IsSound chunk t.run.apu (IsSoundRun-apu t.run h))))))

  tick_loop-IsSound :
      (fuel remaining : ℕ) (t : Ticked F)
      → IsSoundRun t.run
      → IsSoundRun (tick_loop float fuel remaining t).run
  unfolding tick_loop
  tick_loop-IsSound zero remaining t h = h
  tick_loop-IsSound (suc fuel) remaining t h =
      if_keep (λ (t : Ticked F). IsSoundRun t.run) (remaining == 0) h
        (tick_loop-IsSound fuel _ _ (process_timed_chunk-IsSound _ true t h))

  tick_fast_loop-IsSound :
      (fuel remaining : ℕ) (t : Ticked F)
      → IsSoundRun t.run
      → IsSoundRun (tick_fast_loop float fuel remaining t).run
  unfolding tick_fast_loop
  tick_fast_loop-IsSound zero remaining t h = h
  tick_fast_loop-IsSound (suc fuel) remaining t h =
      let chunk = next_timed_chunk remaining t.run.apu in
      let t1 = process_timed_chunk float chunk false t in
      let cleared : IsSoundRun (record t1.run { trace = [] }) =
        apu-IsSoundRun _ (IsSoundRun-apu t1.run (process_timed_chunk-IsSound chunk false t h)) in
      if_keep (λ (t : Ticked F). IsSoundRun t.run) (remaining == 0) h
        (tick_fast_loop-IsSound fuel _ _ cleared)

  pub tick-IsSound :
      (cycles : ℕ) (a : Apu F)
      → IsSound a
      → IsSound (tick float cycles a).apu × IsSound (tick_fast float cycles a)
  unfolding tick tick_fast start
  tick-IsSound cycles a h =
      let begin : IsSoundRun (record { apu = a; trace = [] }) = apu-IsSoundRun _ h in
      (
        IsSoundRun-apu _ (
            if_keep IsSoundRun (not a.master_enabled) begin
              (report-IsSound _ (tick_loop-IsSound cycles cycles (start a) begin))),
        if_keep IsSound (not a.master_enabled) h (
            IsSoundRun-apu _
              (emit_mixed-IsSound _ (tick_fast_loop-IsSound cycles cycles (start a) begin))),
      )
