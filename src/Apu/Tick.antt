-- ===== src/Apu/Tick.antt =====
-- The two tick paths of crates/kokura-core/src/apu.rs. `next_timed_chunk` subtracts counters from
-- their periods, which the counters do not pass.
use kokura.Base.{
  ℕ, zero, suc, ◌+◌, ◌-◌, ◌%◌, max, min, bit_and, Bool, true, false, not, ◌||◌, [], ◌==◌, leb, ltb,
  if◌then◌else◌, u32, ◌+ℤ◌, ◌*ℤ◌, saturate32,
}
use kokura.Apu.{emit, change}
use kokura.Apu.State.{
  Float, Apu, Run, frame_sequencer_step, pcm_frames_buffered, pcm_buffer_wrapped,
}
use kokura.Apu.Phase.{advance_channels}
use kokura.Apu.Sequencer.{clock_length, clock_sweep, clock_envelopes}
use kokura.Apu.Mix.{mix_output, emit_mixed_output_if_changed, enqueue_pcm_frame, buffered_frames}

-- What a tick threads through its chunks.
pub record Ticked (F : Type 0) : Type 0 where
  pub run : Run F
  pub generated_frames : ℕ
  pub dropped_frames : ℕ

module _ {F : Type 0} where
  unfoldable pub next_timed_chunk : ℕ → Apu F → ℕ
  next_timed_chunk remaining a =
      let c0 = min remaining 65535 in
      let c1 = min c0 (max (64 - a.pcm_sample_cycles) 1) in
      let c2 = min c1 (max (8192 - a.frame_seq_cycles) 1) in
      let c3 = min c2 (max (1024 - a.mix_trace_cycles) 1) in max (min c3 16) 1

  -- The counters and the sums of a chunk.
  unfoldable pub count_chunk : ℕ → Apu F → Apu F
  count_chunk chunk a0 =
      let a = record a0 {
        frame_seq_cycles = min (a0.frame_seq_cycles + chunk) 0xFFFF;
        mix_trace_cycles = min (a0.mix_trace_cycles + chunk) 0xFFFF;
        pcm_sample_cycles = min (a0.pcm_sample_cycles + chunk) 0xFFFF;
      } in
      let m = mix_output a in
      record a {
        pcm_accum_left = saturate32 (a.pcm_accum_left +ℤ m.left *ℤ chunk);
        pcm_accum_right = saturate32 (a.pcm_accum_right +ℤ m.right *ℤ chunk);
        pcm_accum_cycles = min (a.pcm_accum_cycles + chunk) 0xFFFF;
      }

  -- The clocks of a step: lengths on even steps, the sweep on 2 and 6, envelopes on 7.
  unfoldable pub clock_step : ℕ → Run F → Run F
  clock_step step r =
      let r1 = if step % 2 == 0 then clock_length r else r in
      let r2 = if step == 2 || step == 6 then clock_sweep r1 else r1 in
      if step == 7 then clock_envelopes r2 else r2

  unfoldable pub sequence : Bool → Run F → Run F
  sequence emit_trace r =
      let step = bit_and (r.apu.frame_seq_step + 1) 0x07 in
      let r1 =
        change
          (λ a. record a { frame_seq_cycles = a.frame_seq_cycles - 8192; frame_seq_step = step })
          r in
      let r2 = if emit_trace then emit (frame_sequencer_step step) r1 else r1 in
      if leb 8192 r.apu.frame_seq_cycles then clock_step step r2 else r

  unfoldable pub trace_mix : Bool → Run F → Run F
  trace_mix emit_trace r =
      let r1 = change (λ a. record a { mix_trace_cycles = a.mix_trace_cycles % 1024 }) r in
      if leb 1024 r.apu.mix_trace_cycles
      then (if emit_trace then emit_mixed_output_if_changed r1 else r1)
      else r

  unfoldable pub start : Apu F → Ticked F
  start a = record {
    run = record { apu = a; trace = [] };
    generated_frames = 0;
    dropped_frames = 0;
  }

  unfoldable pub report : Ticked F → Run F
  report t =
      let r1 =
        if ltb 0 t.generated_frames
        then emit (pcm_frames_buffered t.generated_frames (u32 (buffered_frames t.run.apu))) t.run
        else t.run in
      let r2 =
        if ltb 0 t.dropped_frames
        then emit (pcm_buffer_wrapped t.dropped_frames r1.apu.pcm_frames_dropped) r1
        else r1 in
      emit_mixed_output_if_changed r2

module _ {F : Type 0} (float : Float F) where
  unfoldable pub sample : Ticked F → Ticked F
  sample t =
      let a = t.run.apu in
      let queued =
        enqueue_pcm_frame float
          (record a { pcm_sample_cycles = a.pcm_sample_cycles - 64 }, t.dropped_frames) in
      if leb 64 a.pcm_sample_cycles
      then record {
        run = record t.run { apu = queued.0 };
        generated_frames = min (t.generated_frames + 1) 0xFFFF;
        dropped_frames = queued.1;
      }
      else t

  unfoldable pub process_timed_chunk : ℕ → Bool → Ticked F → Ticked F
  process_timed_chunk chunk emit_trace t =
      let t1 =
        sample
          (record t { run = change (λ a. count_chunk chunk (advance_channels chunk a)) t.run }) in
      record t1 { run = trace_mix emit_trace (sequence emit_trace t1.run) }

  -- `while remaining > 0`; a chunk is one cycle or more.
  unfoldable pub tick_loop : ℕ → ℕ → Ticked F → Ticked F
  tick_loop zero remaining t = t
  tick_loop (suc fuel) remaining t =
      let chunk = next_timed_chunk remaining t.run.apu in
      let rest = tick_loop fuel (remaining - chunk) (process_timed_chunk chunk true t) in
      if remaining == 0 then t else rest

  unfoldable pub tick_fast_loop : ℕ → ℕ → Ticked F → Ticked F
  tick_fast_loop zero remaining t = t
  tick_fast_loop (suc fuel) remaining t =
      let chunk = next_timed_chunk remaining t.run.apu in
      let t1 = process_timed_chunk chunk false t in
      let rest =
        tick_fast_loop fuel (remaining - chunk)
          (record t1 { run = record t1.run { trace = [] } }) in
      if remaining == 0 then t else rest

  unfoldable pub tick : ℕ → Apu F → Run F
  tick cycles a =
      if not a.master_enabled
      then record { apu = a; trace = [] }
      else report (tick_loop cycles cycles (start a))

  unfoldable pub tick_fast : ℕ → Apu F → Apu F
  tick_fast cycles a =
      if not a.master_enabled
      then a
      else (emit_mixed_output_if_changed (tick_fast_loop cycles cycles (start a)).run).apu
