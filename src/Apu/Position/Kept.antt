-- ===== src/Apu/Position/Kept.antt =====
-- The counters of the sound unit through the clocks of the frame sequencer of
-- crates/kokura-core/src/apu.rs.
use kokura.Base.{
  ℕ, List, ℤ, ◌-◌, ◌%◌, ◌≡◌, refl, ◌∙◌, true, not, ◌&&◌, ◌||◌, ◌==◌, ltb, if_keep, equal, ◌>>>◌,
}
use kokura.Apu.{ch, emit, change, with_ch, disable, length_enabled}
use kokura.Apu.State.{ApuTraceEvent, ChannelState, Apu, Run, mixed_output}
use kokura.Apu.Sequencer.{
  clock_length_channel, clock_length, clock_envelope_channel, clock_envelopes,
  set_current_frequency, overflow_sweep, apply_sweep, clock_sweep, swept, envelope_volume_after,
}
use kokura.Apu.Mix.{mix_output, emit_mixed_output_if_changed}
use kokura.Apu.Tick.{clock_step}
use kokura.Apu.Position.{Counters, counters}

module _ {F : Type 0} where
  -- The counters, and the queue of samples with its capacity.
  unfoldable pub kept : Apu F → Counters × (List ℤ × ℕ)
  kept a = (counters a, (a.pcm_buffer, a.pcm_buffer_capacity_frames))

  unfoldable pub IsKept : Run F → Run F → Type 0
  IsKept r r' = kept r'.apu ≡ kept r.apu

  pub same-IsKept : (r : Run F) → IsKept r r
  unfolding IsKept
  same-IsKept r = refl

  pub emit-IsKept : (event : ApuTraceEvent) (r r' : Run F) → IsKept r r' → IsKept r (emit event r')
  unfolding IsKept emit
  emit-IsKept event r r' h = h

  change-IsKept :
      (f : Apu F → Apu F) (r r' : Run F)
      → ((a : Apu F) → kept (f a) ≡ kept a)
      → IsKept r r'
      → IsKept r (change f r')
  unfolding IsKept change
  change-IsKept f r r' e h = e r'.apu ∙ h

  with_ch-IsKept :
      (i : ℕ) (f : ChannelState → ChannelState) (r r' : Run F)
      → IsKept r r'
      → IsKept r (change (with_ch i f) r')
  unfolding IsKept change with_ch counters kept
  with_ch-IsKept i f r r' h = h

  disable-IsKept : (i : ℕ) (r r' : Run F) → IsKept r r' → IsKept r (change (disable i) r')
  unfolding IsKept change with_ch disable counters kept
  disable-IsKept i r r' h = h

  clock_length_channel-IsKept :
      (channel : ℕ) (r0 r : Run F) → IsKept r0 r → IsKept r0 (clock_length_channel channel r)
  unfolding clock_length_channel
  clock_length_channel-IsKept channel r0 r h =
      let s =
        with_ch-IsKept (channel - 1) (λ st. record st { length_counter = st.length_counter - 1 }) r0
          r h in
      let st = ch (channel - 1) r.apu in
      if_keep (IsKept r0) (not (st.enabled && length_enabled channel r.apu)) h (
        if_keep (IsKept r0) (ltb 0 st.length_counter)
          (if_keep (IsKept r0) (st.length_counter - 1 == 0)
            (emit-IsKept _ _ _ (disable-IsKept (channel - 1) _ _ s)) s)
          h)

  clock_length-IsKept : (r0 r : Run F) → IsKept r0 r → IsKept r0 (clock_length r)
  unfolding clock_length
  clock_length-IsKept r0 r h = clock_length_channel-IsKept 4 _ _ (
      clock_length_channel-IsKept 3 _ _
        (clock_length_channel-IsKept 2 _ _ (clock_length_channel-IsKept 1 r0 r h)))

  clock_envelope_channel-IsKept :
      (channel : ℕ) (r0 r : Run F) → IsKept r0 r → IsKept r0 (clock_envelope_channel channel r)
  unfolding clock_envelope_channel
  clock_envelope_channel-IsKept channel r0 r h =
      let set = λ (f : ChannelState → ChannelState). with_ch-IsKept (channel - 1) f r0 r h in
      let st = ch (channel - 1) r.apu in
      if_keep (IsKept r0) (not (st.enabled && st.dac_enabled) || st.envelope_period == 0) h (
        if_keep (IsKept r0) (not (st.envelope_counter - 1 == 0)) (set _) (
          if_keep (IsKept r0) (envelope_volume_after st == st.envelope_volume) (set _)
            (emit-IsKept _ _ _ (set _))))

  clock_envelopes-IsKept : (r0 r : Run F) → IsKept r0 r → IsKept r0 (clock_envelopes r)
  unfolding clock_envelopes
  clock_envelopes-IsKept r0 r h =
      clock_envelope_channel-IsKept 4 _ _
        (clock_envelope_channel-IsKept 2 _ _ (clock_envelope_channel-IsKept 1 r0 r h))

  set_current_frequency_lem :
      (frequency : ℕ) (a : Apu F) → kept (set_current_frequency 1 frequency a) ≡ kept a
  unfolding kept set_current_frequency counters with_ch
  set_current_frequency_lem frequency a = refl

  overflow_sweep-IsKept : (r0 r : Run F) → IsKept r0 r → IsKept r0 (overflow_sweep r)
  unfolding overflow_sweep
  overflow_sweep-IsKept r0 r h = emit-IsKept _ _ _ (disable-IsKept 0 r0 r h)

  apply_sweep-IsKept : (r0 r : Run F) → IsKept r0 r → IsKept r0 (apply_sweep r)
  unfolding apply_sweep
  apply_sweep-IsKept r0 r h =
      let P = IsKept r0 in
      let st = ch 0 r.apu in
      let next =
        swept st.sweep_negate st.shadow_frequency (st.shadow_frequency >>> st.sweep_shift) in
      let second = swept st.sweep_negate next (next >>> st.sweep_shift) in
      let used = λ (st : ChannelState). record st { sweep_negate_used = true } in
      let s =
        if_keep P st.sweep_negate {x = change (with_ch 0 used) r} {y = r}
          (with_ch-IsKept 0 used r0 r h) h in
      let s1 =
        change-IsKept (set_current_frequency 1 next) r0 _ (set_current_frequency_lem next) s in
      if_keep P (ltb 2047 next) (overflow_sweep-IsKept _ _ s) (
        if_keep P (st.sweep_shift == 0) s (
          emit-IsKept _ _ _ (
            with_ch-IsKept 0 _ _ _
              (if_keep P (ltb 2047 second) (overflow_sweep-IsKept _ _ s1) s1))))

  clock_sweep-IsKept : (r0 r : Run F) → IsKept r0 r → IsKept r0 (clock_sweep r)
  unfolding clock_sweep
  clock_sweep-IsKept r0 r h =
      let P = IsKept r0 in
      let set = λ (f : ChannelState → ChannelState). with_ch-IsKept 0 f r0 r h in
      let st = ch 0 r.apu in
      if_keep P
        (not (st.enabled && st.dac_enabled) || (st.sweep_period == 0 && st.sweep_shift == 0)) h
        (if_keep P (ltb 0 (st.sweep_counter - 1)) (set _)
          (if_keep P (st.sweep_period == 0) (set _) (apply_sweep-IsKept _ _ (set _))))

  pub clock_step-IsKept : (step : ℕ) (r0 r : Run F) → IsKept r0 r → IsKept r0 (clock_step step r)
  unfolding clock_step
  clock_step-IsKept step r0 r h =
      let P = IsKept r0 in
      let s1 =
        if_keep P (step % 2 == 0) {x = clock_length r} {y = r} (clock_length-IsKept r0 r h) h in
      let s2 =
        if_keep P (step == 2 || step == 6) {x = clock_sweep _} (clock_sweep-IsKept r0 _ s1) s1 in
      if_keep P (step == 7) (clock_envelopes-IsKept r0 _ s2) s2

  pub emit_mixed-IsKept : (r : Run F) → IsKept r (emit_mixed_output_if_changed r)
  unfolding emit_mixed_output_if_changed IsKept emit change counters kept
  emit_mixed-IsKept r =
      let m = mix_output r.apu in
      let same =
        equal m.left r.apu.last_mixed_left
        && (equal m.right r.apu.last_mixed_right && m.active_mask == r.apu.last_mixed_mask) in
      let keep = λ (a : Apu F). record a {
        last_mixed_left = m.left;
        last_mixed_right = m.right;
        last_mixed_mask = m.active_mask;
      } in
      if_keep (λ (r' : Run F). kept r'.apu ≡ kept r.apu) same {x = r}
        {y = emit (mixed_output m.left m.right m.active_mask) (change keep r)} refl refl
