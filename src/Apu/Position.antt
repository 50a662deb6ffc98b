-- ===== src/Apu/Position.antt =====
-- Where the counters of the sound unit, crates/kokura-core/src/apu.rs, stand after a tick: the
-- frame sequencer and the sample clock.
use kokura.Base.{
  ℕ, zero, suc, ◌+◌, ◌-◌, ◌/◌, ◌%◌, ◌^◌, ◌≤◌, ◌<◌, ◌≡◌, refl, ◌∙◌, ap, Bool, true, false, not, ◌&&◌,
  ◌||◌, [], bit_and, bit_and_low, ◌==◌, leb, ltb, min, if◌then◌else◌, if_keep, if_cases, u32, ℤ,
  equal, ◌>>>◌, arith,
}
use kokura.Apu.{ch, emit, change, with_ch, disable, length_enabled}
use kokura.Apu.State.{
  Float, ApuTraceEvent, ChannelState, Apu, Run, mixed_output, frame_sequencer_step,
  pcm_frames_buffered,
}
use kokura.Apu.Phase.{advance_channels}
use kokura.Apu.Split.{advance_channels_flat}
use kokura.Apu.Sequencer.{
  clock_length_channel, clock_length, clock_envelope_channel, clock_envelopes,
  set_current_frequency, overflow_sweep, apply_sweep, clock_sweep, swept, envelope_volume_after,
}
use kokura.Apu.Mix.{
  mix_output, emit_mixed_output_if_changed, evict, filter_frame, enqueue_pcm_frame, buffered_frames,
  apply_output_low_pass, any_channel_dac_enabled,
}
use kokura.Apu.Tick.{
  Ticked, next_timed_chunk, count_chunk, clock_step, sequence, trace_mix, sample,
  process_timed_chunk, tick_loop, tick_fast_loop, start, report, tick, tick_fast,
}
pub mod Kept
pub mod Rate

-- The counters that time moves.
pub record Counters : Type 0 where
  pub sequencer : ℕ
  pub step : ℕ
  pub mix : ℕ
  pub sampled : ℕ
  pub frames : ℕ

module _ {F : Type 0} where
  unfoldable pub counters : Apu F → Counters
  counters a = record {
    sequencer = a.frame_seq_cycles;
    step = a.frame_seq_step;
    mix = a.mix_trace_cycles;
    sampled = a.pcm_sample_cycles;
    frames = a.pcm_frames_generated;
  }
  -- The clocks of the sequencer leave the counters.

-- A counter that wraps, and one that counts its wraps.
pub record IsTimed (c : Counters) : Type 0 where
  pub sequencer_small : c.sequencer < 8192
  pub step_small : c.step < 8
  pub mix_small : c.mix < 1024
  pub sampled_small : c.sampled < 64
  pub frames_small : c.frames ≤ 2 ^ 64 - 1

-- The counters `k` cycles later.
unfoldable pub after : ℕ → Counters → Counters
after k c = record {
  sequencer = (c.sequencer + k) % 8192;
  step = (c.step + (c.sequencer + k) / 8192) % 8;
  mix = (c.mix + k) % 1024;
  sampled = (c.sampled + k) % 64;
  frames = min (c.frames + (c.sampled + k) / 64) (2 ^ 64 - 1);
}

Counters_eq :
    (c d : Counters)
    → c.sequencer ≡ d.sequencer
    → c.step ≡ d.step
    → c.mix ≡ d.mix
    → c.sampled ≡ d.sampled
    → c.frames ≡ d.frames
    → c ≡ d
Counters_eq c d e f g h k =
    λ i. record { sequencer = e i; step = f i; mix = g i; sampled = h i; frames = k i }

-- The stages of a chunk.
unfoldable pub sampled_at : Bool → Counters → Counters
sampled_at b c = record c {
  sampled = if b then c.sampled - 64 else c.sampled;
  frames = if b then min (c.frames + 1) (2 ^ 64 - 1) else c.frames;
}

unfoldable pub stepped_at : Bool → Counters → Counters
stepped_at b c = record c {
  sequencer = if b then c.sequencer - 8192 else c.sequencer;
  step = if b then bit_and (c.step + 1) 0x07 else c.step;
}

unfoldable pub mixed_at : Bool → Counters → Counters
mixed_at b c = record c { mix = if b then c.mix % 1024 else c.mix }

unfoldable pub counted : ℕ → Counters → Counters
counted k c = record c {
  sequencer = min (c.sequencer + k) 0xFFFF;
  mix = min (c.mix + k) 0xFFFF;
  sampled = min (c.sampled + k) 0xFFFF;
}

-- A chunk of `k` cycles.
unfoldable pub stages : ℕ → Counters → Counters
stages k c0 =
    let c1 = counted k c0 in
    let c2 = sampled_at (leb 64 c1.sampled) c1 in
    let c3 = stepped_at (leb 8192 c2.sequencer) c2 in mixed_at (leb 1024 c3.mix) c3

pub stages-after :
    (k : ℕ) (c : Counters)
    → IsTimed c
    → k ≤ 64 - c.sampled
    → k ≤ 8192 - c.sequencer
    → k ≤ 1024 - c.mix
    → stages k c ≡ after k c
unfolding stages counted sampled_at stepped_at mixed_at after
stages-after k c h p q r =
    let low = bit_and_low 3 (c.step + 1) in
    Counters_eq _ _ (ground (arith, h.sequencer_small, h.sampled_small, h.mix_small))
      (ground (arith, h.sequencer_small, h.step_small, h.sampled_small, h.mix_small, low))
      (ground (arith, h.sequencer_small, h.sampled_small, h.mix_small))
      (ground (arith, h.sequencer_small, h.sampled_small, h.mix_small))
      (ground (arith, h.sequencer_small, h.sampled_small, h.mix_small, h.frames_small))

pub after-IsTimed : (k : ℕ) (c : Counters) → IsTimed (after k c)
unfolding after
after-IsTimed k c = record {
  sequencer_small = omega arith;
  step_small = omega arith;
  mix_small = omega arith;
  sampled_small = omega arith;
  frames_small = omega arith;
}

pub after_none : (n : ℕ) (c : Counters) → n ≡ 0 → IsTimed c → c ≡ after n c
unfolding after
after_none n c e h =
    Counters_eq _ _
      (omega (arith, h.sequencer_small, h.step_small, h.mix_small, h.sampled_small, h.frames_small))
      (omega (arith, h.sequencer_small, h.step_small, h.mix_small, h.sampled_small, h.frames_small))
      (omega (arith, h.sequencer_small, h.step_small, h.mix_small, h.sampled_small, h.frames_small))
      (omega (arith, h.sequencer_small, h.step_small, h.mix_small, h.sampled_small, h.frames_small))
      (omega (arith, h.sequencer_small, h.step_small, h.mix_small, h.sampled_small, h.frames_small))

after-after : (a b : ℕ) (c : Counters) → after b (after a c) ≡ after (a + b) c
unfolding after
after-after a b c =
    Counters_eq _ _ (omega arith) (omega arith) (omega arith) (omega arith) (omega arith)

pub next_after :
    (remaining k : ℕ) (c d e : Counters)
    → k ≤ remaining
    → d ≡ after k c
    → e ≡ after (remaining - k) d
    → e ≡ after remaining c
next_after remaining k c d e l p q =
    let whole : k + (remaining - k) ≡ remaining = omega arith in
    q
    ∙ (ap (λ c. after (remaining - k) c) p
        ∙ (after-after k (remaining - k) c ∙ ap (λ n. after n c) whole))

pub chosen :
    {A : Type 0} (f : A → Counters) (stage : Bool → Counters → Counters) (b : Bool) (x y : A)
    (c : Counters)
    → f x ≡ stage true c
    → f y ≡ stage false c
    → f (if b then x else y) ≡ stage b c
chosen f stage true x y c p q = p
chosen f stage false x y c p q = q
