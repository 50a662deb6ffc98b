-- ===== src/Apu/Gate/Clocked.antt =====
-- The invariant of the sound unit through its phases, length counters and envelopes, in
-- crates/kokura-core/src/apu.rs.
use kokura.Base.{
  ℕ, zero, suc, ◌+◌, ◌-◌, ◌<◌, ◌≡◌, refl, Bool, true, not, ◌&&◌, ◌||◌, bit_and-le, ◌==◌, leb, ltb,
  max, ◌>>>◌, has_bit, if◌then◌else◌, if_keep, arith,
}
use kokura.Apu.{ch, reg, emit, change, length_enabled, period_for_channel}
use kokura.Apu.State.{ChannelState, Channels, Apu, Run, at}
use kokura.Apu.Phase.{fire_square, fire_wave, fire_noise, advance_channels}
use kokura.Apu.Split.{solo, Keeps, square-Keeps, wave-Keeps, noise-Keeps, advance_channels_flat}
use kokura.Apu.Advance.{deadlines_keep}
use kokura.Apu.Sequencer.{
  envelope_volume_after, clock_length_channel, clock_length, clock_envelope_channel,
  clock_envelopes,
}
use kokura.Apu.Gate.{
  IsOk, IsSoundAt, IsSound, IsSoundRun, limit, mask, revolumed, relengthened, rephased,
}
use kokura.Apu.Gate.Mask.{with_ch-IsSound, disable-IsSound, off-IsOk}

square-IsOk : (most : ℕ) (st : ChannelState) → IsOk most st → IsOk most (fire_square st)
unfolding fire_square
square-IsOk most st h =
    rephased _ st.wave_position h (omega (arith, bit_and-le (st.duty_position + 1) 0x07))
      h.wave_small

solo-IsOk :
    (most : ℕ) (runs : Bool) (fire : ChannelState → ChannelState) (period c : ℕ) (st : ChannelState)
    → ((s : ChannelState) → IsOk most s → IsOk most (fire s))
    → IsOk most st
    → IsOk most (solo runs fire period c st)
unfolding solo
solo-IsOk most runs fire period c st fired h =
    if_keep (IsOk most) st.enabled
      (if_keep (IsOk most) runs
        (deadlines_keep fire (max period 1) (IsOk most) (λ s t h. h) fired c c st h) h)
      h

solo-enabled :
    (runs : Bool) (fire : ChannelState → ChannelState) (period c : ℕ) (st : ChannelState)
    → Keeps fire
    → (solo runs fire period c st).enabled ≡ st.enabled
unfolding solo Keeps
solo-enabled runs fire period c st k =
    let P = λ (s : ChannelState). s.enabled ≡ st.enabled in
    if_keep P st.enabled
      (if_keep P runs (deadlines_keep fire (max period 1) P (λ s t h. h) (k st.enabled) c c st refl)
        refl)
      refl

noise-IsOk :
    (most : ℕ) (narrow : Bool) (st : ChannelState) → IsOk most st → IsOk most (fire_noise narrow st)
unfolding fire_noise
noise-IsOk most narrow st h = h

four_states :
    (cs : Channels)
    → IsOk 64 cs.c0
    → IsOk 64 cs.c1
    → IsOk 256 cs.c2
    → IsOk 64 cs.c3
    → (i : ℕ) → IsOk (limit i) (at i cs)
unfolding at limit
four_states cs h0 h1 h2 h3 zero = h0
four_states cs h0 h1 h2 h3 (suc zero) = h1
four_states cs h0 h1 h2 h3 (suc (suc zero)) = h2
four_states cs h0 h1 h2 h3 (suc (suc (suc i))) = h3

-- The four channels change at once and keep their flags.
four-IsSound :
    (m : ℕ) (cs ds : Channels)
    → IsSoundAt m cs
    → ds.c0.enabled ≡ cs.c0.enabled
    → ds.c1.enabled ≡ cs.c1.enabled
    → ds.c2.enabled ≡ cs.c2.enabled
    → ds.c3.enabled ≡ cs.c3.enabled
    → IsOk 64 ds.c0
    → IsOk 64 ds.c1
    → IsOk 256 ds.c2
    → IsOk 64 ds.c3
    → IsSoundAt m ds
unfolding mask
four-IsSound m cs ds h e0 e1 e2 e3 h0 h1 h2 h3 = record {
  bits = rw (e0, e1, e2, e3) h.bits;
  states = four_states ds h0 h1 h2 h3;
}

state : {m : ℕ} {cs : Channels} (i : ℕ) → IsSoundAt m cs → IsOk (limit i) (at i cs)
state i h = h.states i

module _ {F : Type 0} where
  wave-IsOk : (most : ℕ) (u : Apu F) (st : ChannelState) → IsOk most st → IsOk most (fire_wave u st)
  unfolding fire_wave
  wave-IsOk most u st h =
      rephased st.duty_position _ h h.duty_small
        (omega (arith, bit_and-le (st.wave_position + 1) 0x1F))

  pub advance_channels-IsSound : (c : ℕ) (u : Apu F) → IsSound u → IsSound (advance_channels c u)
  unfolding at limit
  advance_channels-IsSound c u h =
      let runs = not (leb 14 (reg 0x12 u >>> 4)) in
      let noise = fire_noise (has_bit (reg 0x12 u) 0x08) in
      let still = noise-Keeps (has_bit (reg 0x12 u) 0x08) in
      let s0 = u.channels.c0 in
      let s1 = u.channels.c1 in
      let s2 = u.channels.c2 in
      let s3 = u.channels.c3 in
      let p1 = period_for_channel 1 u in
      let p2 = period_for_channel 2 u in
      let p3 = period_for_channel 3 u in
      let p4 = period_for_channel 4 u in
      rw (advance_channels_flat c u) (
        four-IsSound u.channel_enable u.channels _ h
          (solo-enabled true fire_square p1 c s0 square-Keeps)
          (solo-enabled true fire_square p2 c s1 square-Keeps)
          (solo-enabled true (fire_wave u) p3 c s2 (wave-Keeps u))
          (solo-enabled runs noise p4 c s3 still)
          (solo-IsOk 64 true fire_square p1 c s0 (square-IsOk 64) (state 0 h))
          (solo-IsOk 64 true fire_square p2 c s1 (square-IsOk 64) (state 1 h))
          (solo-IsOk 256 true (fire_wave u) p3 c s2 (wave-IsOk 256 u) (state 2 h))
          (solo-IsOk 64 runs noise p4 c s3 (noise-IsOk 64 (has_bit (reg 0x12 u) 0x08)) (state 3 h)))

  clock_length_channel-IsSound :
      (channel : ℕ) (r : Run F)
      → channel - 1 < 4
      → IsSoundRun r
      → IsSoundRun (clock_length_channel channel r)
  unfolding clock_length_channel IsSoundRun emit change ch
  clock_length_channel-IsSound channel r l h =
      let idx = channel - 1 in
      let st = ch idx r.apu in
      let down = λ (st : ChannelState). record st { length_counter = st.length_counter - 1 } in
      let k = h.states idx in
      let less = relengthened (st.length_counter - 1) k (omega (arith, k.length_small)) in
      if_keep IsSoundRun (not (st.enabled && length_enabled channel r.apu)) h (
        if_keep IsSoundRun (ltb 0 st.length_counter)
          (if_keep IsSoundRun (st.length_counter - 1 == 0)
            (disable-IsSound idx down r.apu l h (off-IsOk (limit idx) (down st) less))
            (with_ch-IsSound idx down r.apu h refl less))
          h)

  pub clock_length-IsSound : (r : Run F) → IsSoundRun r → IsSoundRun (clock_length r)
  unfolding clock_length
  clock_length-IsSound r h = clock_length_channel-IsSound 4 _ (omega arith) (
      clock_length_channel-IsSound 3 _ (omega arith) (
        clock_length_channel-IsSound 2 _ (omega arith)
          (clock_length_channel-IsSound 1 r (omega arith) h)))

  clock_envelope_channel-IsSound :
      (channel : ℕ) (r : Run F) → IsSoundRun r → IsSoundRun (clock_envelope_channel channel r)
  unfolding clock_envelope_channel envelope_volume_after IsSoundRun emit change ch
  clock_envelope_channel-IsSound channel r h =
      let idx = channel - 1 in
      let st = ch idx r.apu in
      let k = h.states idx in
      let volume = envelope_volume_after st in
      let small : volume < 16 = ground (arith, k.volume_small) in
      let reload = if st.envelope_period == 0 then 8 else st.envelope_period in
      let stepped =
        with_ch-IsSound idx
          (λ st. record st { envelope_counter = reload; envelope_volume = volume }) r.apu h refl
          (revolumed volume k small) in
      if_keep IsSoundRun (not (st.enabled && st.dac_enabled) || st.envelope_period == 0) h (
        if_keep IsSoundRun (not (st.envelope_counter - 1 == 0))
          (with_ch-IsSound idx (λ s. record s { envelope_counter = st.envelope_counter - 1 }) r.apu
            h refl k)
          (if_keep IsSoundRun (volume == st.envelope_volume) stepped stepped))

  pub clock_envelopes-IsSound : (r : Run F) → IsSoundRun r → IsSoundRun (clock_envelopes r)
  unfolding clock_envelopes
  clock_envelopes-IsSound r h =
      clock_envelope_channel-IsSound 4 _
        (clock_envelope_channel-IsSound 2 _ (clock_envelope_channel-IsSound 1 r h))
