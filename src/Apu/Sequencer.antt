-- ===== src/Apu/Sequencer.antt =====
-- The clocks that the frame sequencer of crates/kokura-core/src/apu.rs gives: lengths, envelopes
-- and the sweep of channel 1.
use kokura.Base.{
  ℕ, ◌+◌, ◌-◌, min, bit_and, bit_or, Bool, true, not, ◌&&◌, ◌||◌, ◌==◌, ltb, u8, ◌>>>◌, not8,
  if◌then◌else◌, set,
}
use kokura.Apu.{ch, with_ch, reg, length_enabled, emit, change, disable}
use kokura.Apu.State.{
  ChannelState, Apu, Run, channel_length_expired, channel_envelope_step, channel_sweep_step,
  channel_disabled,
}

-- A change with one u16 operation, `saturating_sub` or `saturating_add`.
unfoldable pub swept : Bool → ℕ → ℕ → ℕ
swept negate frequency delta = if negate then frequency - delta else min (frequency + delta) 0xFFFF

unfoldable pub envelope_volume_after : ChannelState → ℕ
envelope_volume_after st =
    if st.envelope_increase then min (st.envelope_volume + 1) 15 else st.envelope_volume - 1

module _ {F : Type 0} where
  unfoldable pub clock_length_channel : ℕ → Run F → Run F
  clock_length_channel channel r =
      let idx = channel - 1 in
      let st = ch idx r.apu in
      let r1 =
        change (with_ch idx (λ st. record st { length_counter = st.length_counter - 1 })) r in
      if not (st.enabled && length_enabled channel r.apu)
      then r
      else if ltb 0 st.length_counter
      then (if st.length_counter - 1 == 0
          then emit (channel_length_expired channel) (change (disable idx) r1)
          else r1)
      else r

  unfoldable pub clock_length : Run F → Run F
  clock_length r =
      clock_length_channel 4
        (clock_length_channel 3 (clock_length_channel 2 (clock_length_channel 1 r)))

  unfoldable pub clock_envelope_channel : ℕ → Run F → Run F
  clock_envelope_channel channel r =
      let idx = channel - 1 in
      let st = ch idx r.apu in
      let counter = st.envelope_counter - 1 in
      let reload = if st.envelope_period == 0 then 8 else st.envelope_period in
      let volume = envelope_volume_after st in
      let counted = change (with_ch idx (λ st. record st { envelope_counter = counter })) r in
      let stepped =
        change
          (with_ch idx (λ st. record st { envelope_counter = reload; envelope_volume = volume }))
          r in
      if not (st.enabled && st.dac_enabled) || st.envelope_period == 0
      then r
      else if not (counter == 0)
      then counted
      else if volume == st.envelope_volume
      then stepped
      else emit (channel_envelope_step channel volume st.envelope_increase) stepped

  unfoldable pub clock_envelopes : Run F → Run F
  clock_envelopes r =
      clock_envelope_channel 4 (clock_envelope_channel 2 (clock_envelope_channel 1 r))

  unfoldable pub set_current_frequency : ℕ → ℕ → Apu F → Apu F
  set_current_frequency channel frequency a =
      let low = bit_and frequency 0x00FF in
      let high = bit_and (u8 (frequency >>> 8)) 0x07 in
      let put = λ (l h : ℕ). record a {
        regs = set (set a.regs l low) h (bit_or (bit_and (reg h a) (not8 0x07)) high);
      } in
      let b =
        if channel == 1
        then put 3 4
        else if channel == 2
        then put 8 9
        else if channel == 3
        then put 13 14
        else a in
      with_ch (channel - 1) (λ st. record st { shadow_frequency = frequency }) b

  -- The channel is turned off because the next pitch does not fit.
  unfoldable pub overflow_sweep : Run F → Run F
  overflow_sweep r = emit (channel_disabled 1 3 0xFF10) (change (disable 0) r)

  -- The part of `clock_sweep` behind its timer.
  unfoldable pub apply_sweep : Run F → Run F
  apply_sweep r0 =
      let st = ch 0 r0.apu in
      let old = st.shadow_frequency in
      let shift = st.sweep_shift in
      let negate = st.sweep_negate in
      let next = swept negate old (old >>> shift) in
      let second = swept negate next (next >>> shift) in
      let r =
        if negate
        then change (with_ch 0 (λ st. record st { sweep_negate_used = true })) r0
        else r0 in
      let r1 = change (set_current_frequency 1 next) r in
      let r2 = if ltb 2047 second then overflow_sweep r1 else r1 in
      let r3 = change (with_ch 0 (λ st. record st { shadow_frequency = next })) r2 in
      if ltb 2047 next
      then overflow_sweep r
      else if shift == 0
      then r
      else emit (channel_sweep_step old next negate shift) r3

  unfoldable pub clock_sweep : Run F → Run F
  clock_sweep r =
      let st = ch 0 r.apu in
      let counter = st.sweep_counter - 1 in
      let reload = if st.sweep_period == 0 then 8 else st.sweep_period in
      let counted = change (with_ch 0 (λ st. record st { sweep_counter = counter })) r in
      let reloaded = change (with_ch 0 (λ st. record st { sweep_counter = reload })) r in
      if not (st.enabled && st.dac_enabled) || (st.sweep_period == 0 && st.sweep_shift == 0)
      then r
      else if ltb 0 counter
      then counted
      else if st.sweep_period == 0
      then reloaded
      else apply_sweep reloaded
