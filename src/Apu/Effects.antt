-- ===== src/Apu/Effects.antt =====
-- The side effects of a write to a register of a channel, in crates/kokura-core/src/apu.rs.
use kokura.Base.{
  ℕ, ◌+◌, ◌-◌, max, bit_and, Bool, true, false, not, ◌&&◌, ◌==◌, ◌>>>◌, has_bit, if◌then◌else◌,
}
use kokura.Apu.{reg, ch, with_ch, has_channel_bit, period_for_channel, emit, change, disable}
use kokura.Apu.State.{
  ChannelState, Apu, Run, channel_disabled, dac_state_change, pop_risk, decode_length_square,
  decode_length_wave, max_length,
}

-- `x != y` on bool.
unfoldable pub differs : Bool → Bool → Bool
differs true y = not y
differs false y = y

unfoldable pub latch_sweep : ℕ → ChannelState → ChannelState
latch_sweep value st = record st {
  sweep_period = bit_and (value >>> 4) 0x07;
  sweep_negate = has_bit value 0x08;
  sweep_shift = bit_and value 0x07;
}

unfoldable pub envelope_reload : ℕ → ℕ
envelope_reload period = if period == 0 then 8 else period

unfoldable pub latch_envelope : ℕ → ChannelState → ChannelState
latch_envelope value st = record st {
  envelope_volume =
      if st.enabled
        && (st.envelope_period == 0 && (st.envelope_increase && bit_and value 0x0F == 0x08))
      then bit_and (st.envelope_volume + 1) 0x0F
      else bit_and (value >>> 4) 0x0F;
  envelope_increase = has_bit value 0x08;
  envelope_period = bit_and value 0x07;
  envelope_counter = envelope_reload (bit_and value 0x07);
}

-- What a trigger sets in the channel's state.
unfoldable pub trigger_state : ℕ → ℕ → ℕ → ℕ → ℕ → ChannelState → ChannelState
trigger_state channel freq period sweep_reg env_reg st =
    let st1 = record st {
      enabled = true;
      length_counter = if st.length_counter == 0 then max_length channel else st.length_counter;
      shadow_frequency = freq;
      freq_timer = period;
      wave_position = 0;
      lfsr = 0x7FFF;
    } in
    let sweep_period = bit_and (sweep_reg >>> 4) 0x07 in
    let st2 =
      if channel == 1
      then record (latch_sweep sweep_reg st1) {
        sweep_counter = if sweep_period == 0 then 8 else sweep_period;
        sweep_negate_used = false;
      }
      else st1 in
    if channel == 3 then st2 else record st2 {
      envelope_volume = bit_and (env_reg >>> 4) 0x0F;
      envelope_increase = has_bit env_reg 0x08;
      envelope_period = bit_and env_reg 0x07;
      envelope_counter = envelope_reload (bit_and env_reg 0x07);
    }

module _ {F : Type 0} where
  unfoldable pub sync_frequency_from_regs : ℕ → Apu F → Apu F
  sync_frequency_from_regs channel a =
      let idx = channel - 1 in
      if (ch idx a).freq_timer == 0
      then with_ch idx (λ st. record st { freq_timer = max (period_for_channel channel a) 1 }) a
      else a

  unfoldable pub update_dac_state : ℕ → Bool → ℕ → Run F → Run F
  update_dac_state channel dac_enabled reg r =
      let idx = channel - 1 in
      let old_dac = (ch idx r.apu).dac_enabled in
      let was_active = (ch idx r.apu).enabled && has_channel_bit idx r.apu in
      let r1 = change (with_ch idx (λ st. record st { dac_enabled = dac_enabled })) r in
      let r2 = emit (dac_state_change channel dac_enabled reg was_active) r1 in
      let r3 = if r.apu.master_enabled then emit (pop_risk 1 reg) r2 else r2 in
      let r4 = if differs old_dac dac_enabled then r3 else r1 in
      if dac_enabled then r4 else emit (channel_disabled channel 1 reg) (change (disable idx) r4)

  unfoldable pub update_envelope_from_reg : ℕ → ℕ → Run F → Run F
  update_envelope_from_reg channel value r =
      let reg =
        if channel == 1
        then 0xFF12
        else if channel == 2
        then 0xFF17
        else if channel == 4
        then 0xFF21
        else 0x0000 in
      update_dac_state channel (not (bit_and value 0xF8 == 0)) reg
        (change (with_ch (channel - 1) (latch_envelope value)) r)

  unfoldable pub write_sweep : ℕ → Run F → Run F
  write_sweep value r =
      let st = ch 0 r.apu in
      let r1 = change (with_ch 0 (latch_sweep value)) r in
      if st.sweep_negate && (not (has_bit value 0x08) && (st.sweep_negate_used && st.enabled))
      then emit (channel_disabled 1 4 0xFF10) (change (disable 0) r1)
      else r1

  unfoldable pub load_length : ℕ → ℕ → Apu F → Apu F
  load_length idx length a = with_ch idx (λ st. record st { length_counter = length }) a

  unfoldable pub apply_register_side_effects : ℕ → ℕ → Run F → Run F
  apply_register_side_effects addr value r =
      if addr == 0xFF10
      then write_sweep value r
      else if addr == 0xFF11
      then change (load_length 0 (decode_length_square value)) r
      else if addr == 0xFF12
      then update_envelope_from_reg 1 value r
      else if addr == 0xFF13
      then change (sync_frequency_from_regs 1) r
      else if addr == 0xFF14
      then change (sync_frequency_from_regs 1) r
      else if addr == 0xFF16
      then change (load_length 1 (decode_length_square value)) r
      else if addr == 0xFF17
      then update_envelope_from_reg 2 value r
      else if addr == 0xFF18
      then change (sync_frequency_from_regs 2) r
      else if addr == 0xFF19
      then change (sync_frequency_from_regs 2) r
      else if addr == 0xFF1A
      then update_dac_state 3 (has_bit value 0x80) 0xFF1A r
      else if addr == 0xFF1B
      then change (load_length 2 (decode_length_wave value)) r
      else if addr == 0xFF1D
      then change (sync_frequency_from_regs 3) r
      else if addr == 0xFF1E
      then change (sync_frequency_from_regs 3) r
      else if addr == 0xFF20
      then change (load_length 3 (decode_length_square value)) r
      else if addr == 0xFF21
      then update_envelope_from_reg 4 value r
      else if addr == 0xFF22
      then change (sync_frequency_from_regs 4) r
      else r
