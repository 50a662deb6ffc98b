-- ===== src/Apu/Write.antt =====
-- The register writes of crates/kokura-core/src/apu.rs with their side effects, and the state that
-- the boot leaves.
use kokura.Base.{
  ℕ, ◌-◌, ◌^◌, max, bit_and, bit_or, true, false, not, ◌&&◌, ◌||◌, none, some, [], ◌∷◌, ◌==◌, leb,
  ltb, ◌>>>◌, has_bit, in_range, if◌then◌else◌, set, replicate, pos,
}
use kokura.Mode.{HardwareMode, dmg, cgb}
use kokura.Apu.{
  reg, ch, with_ch, is_ch3_active, wave_ram_visible_index, read, current_frequency,
  period_for_channel, emit, change, disable,
}
use kokura.Apu.State.{
  Float, Apu, Run, master_toggle, channel_trigger, channel_disabled, pop_risk, mixer_control_write,
  wave_ram_write, wave_ram_access_aliased, ch3_trigger_retains_sample, noise_clock_frozen,
  triggered_channel, all_silent,
}
use kokura.Apu.Sequencer.{swept}
use kokura.Apu.Effects.{differs, trigger_state, load_length, apply_register_side_effects}

module _ {F : Type 0} where
  -- The check of the first sweep step in `trigger_channel`.
  unfoldable pub trigger_sweep : ℕ → ℕ → Run F → Run F
  trigger_sweep freq sweep_reg r =
      let shift = bit_and sweep_reg 0x07 in
      let negate = has_bit sweep_reg 0x08 in
      let r1 =
        if negate then change (with_ch 0 (λ st. record st { sweep_negate_used = true })) r else r in
      if ltb 2047 (swept negate freq (freq >>> shift))
      then emit (channel_disabled 1 3 0xFF10) (change (disable 0) r1)
      else r1

  unfoldable pub start_channel : ℕ → ℕ → ℕ → Run F → Run F
  start_channel channel reg_addr value r =
      let a = r.apu in
      let idx = channel - 1 in
      let freq = current_frequency channel a in
      let period = max (period_for_channel channel a) 1 in
      let sweep_reg = reg 0 a in
      let env_reg =
        if channel == 1
        then reg 2 a
        else if channel == 2
        then reg 7 a
        else if channel == 4
        then reg 0x11 a
        else 0 in
      let buffered = (ch idx a).wave_sample_buffer in
      let enable = λ (b : Apu F). record b { channel_enable = bit_or b.channel_enable (2 ^ idx) } in
      let r1 = change (with_ch idx (trigger_state channel freq period sweep_reg env_reg)) r in
      let r2 = emit (channel_trigger channel reg_addr value) (change enable r1) in
      let r3 = if channel == 3 then emit (ch3_trigger_retains_sample buffered 1) r2 else r2 in
      let r4 =
        if channel == 1 && not (bit_and sweep_reg 0x07 == 0)
        then trigger_sweep freq sweep_reg r3
        else r3 in
      let nr43 = reg 0x12 a in
      if channel == 4 && leb 14 (nr43 >>> 4)
      then emit (noise_clock_frozen (nr43 >>> 4) (bit_and nr43 0x07)) r4
      else r4

  unfoldable pub trigger_channel : ℕ → ℕ → ℕ → Run F → Run F
  trigger_channel channel reg_addr value r =
      let idx = channel - 1 in
      if not (ch idx r.apu).dac_enabled
      then emit (channel_disabled channel 1 reg_addr) (change (disable idx) r)
      else start_channel channel reg_addr value r

  -- Master power is off: on DMG the lengths are still loaded.
  unfoldable pub write_unpowered : ℕ → ℕ → Apu F → Apu F
  write_unpowered addr value a =
      if a.cgb_mode
      then a
      else if addr == 0xFF11
      then load_length 0 (64 - bit_and value 0x3F) a
      else if addr == 0xFF16
      then load_length 1 (64 - bit_and value 0x3F) a
      else if addr == 0xFF1B
      then load_length 2 (256 - value) a
      else if addr == 0xFF20
      then load_length 3 (64 - bit_and value 0x3F) a
      else a

  unfoldable pub mixer_event : Run F → Run F
  mixer_event r = emit (mixer_control_write (reg 0x14 r.apu) (reg 0x15 r.apu) (read 0xFF26 r.apu)) r

  unfoldable pub write_register : ℕ → ℕ → Run F → Run F
  write_register addr value r =
      let reg_index = addr - 0xFF10 in
      let old_value = reg reg_index r.apu in
      let r1 =
        apply_register_side_effects addr value
          (change (λ a. record a { regs = set a.regs reg_index value }) r) in
      let r2 =
        if r1.apu.master_enabled && not (old_value == value)
        then emit (pop_risk (if addr == 0xFF24 then 2 else 3) addr) r1
        else r1 in
      let r3 = if addr == 0xFF24 || addr == 0xFF25 then mixer_event r2 else r1 in
      elim (triggered_channel addr) [
        | none ↦ r3
        | some channel ↦
            if has_bit value 0x80 && r3.apu.master_enabled
            then trigger_channel channel addr value r3
            else r3
      ]

  unfoldable pub write_wave : ℕ → ℕ → Run F → Run F
  write_wave addr value r =
      let requested_index = addr - 0xFF30 in
      let actual_index = wave_ram_visible_index requested_index r.apu in
      let r1 =
        emit (wave_ram_write actual_index value)
          (change (λ a. record a { wave_ram = set a.wave_ram actual_index value }) r) in
      if not r.apu.cgb_mode && is_ch3_active r.apu
      then emit (wave_ram_access_aliased requested_index 0xFF true) r
      else if not (requested_index == actual_index)
      then emit (wave_ram_access_aliased requested_index actual_index true) r1
      else r1

module _ {F : Type 0} (float : Float F) where
  -- What power off and the boot clear alike.
  unfoldable pub clear_audio : Apu F → Apu F
  clear_audio a = record a {
    frame_seq_cycles = 0;
    frame_seq_step = 0;
    channels = all_silent;
    mix_trace_cycles = 0;
    pcm_sample_cycles = 0;
    pcm_buffer = [];
    pcm_hpf_left = float.nought;
    pcm_hpf_right = float.nought;
    pcm_lpf_left = float.nought;
    pcm_lpf_right = float.nought;
    pcm_accum_left = pos 0;
    pcm_accum_right = pos 0;
    pcm_accum_cycles = 0;
    last_mixed_left = pos 0;
    last_mixed_right = pos 0;
    last_mixed_mask = 0;
  }

  unfoldable pub write_power : ℕ → Run F → Run F
  write_power value r =
      let enabled = has_bit value 0x80 in
      let switch = λ (a : Apu F). record a { master_enabled = enabled } in
      let off =
        λ (a : Apu F). clear_audio (record a { regs = replicate 0x17 0; channel_enable = 0 }) in
      let r1 = change switch r in
      let r2 = if enabled then r1 else change off r1 in
      if differs enabled r.apu.master_enabled
      then mixer_event (emit (master_toggle enabled (read 0xFF26 r2.apu)) r2)
      else r

  unfoldable pub write : ℕ → ℕ → Apu F → Run F
  write addr value a =
      let r : Run F = record { apu = a; trace = [] } in
      if in_range 0xFF10 0xFF25 addr
      then (if a.master_enabled
          then write_register addr value r
          else change (write_unpowered addr value) r)
      else if addr == 0xFF26
      then write_power value r
      else if in_range 0xFF30 0xFF3F addr
      then write_wave addr value r
      else r

  -- `Apu::default`.
  unfoldable pub default : Apu F
  default = record {
    regs = replicate 0x17 0;
    wave_ram = replicate 0x10 0;
    master_enabled = false;
    channel_enable = 0;
    frame_seq_cycles = 0;
    frame_seq_step = 0;
    channels = all_silent;
    mix_trace_cycles = 0;
    pcm_sample_cycles = 0;
    pcm_buffer = [];
    pcm_buffer_capacity_frames = 65536;
    pcm_frames_generated = 0;
    pcm_frames_dropped = 0;
    pcm_hpf_left = float.nought;
    pcm_hpf_right = float.nought;
    pcm_lpf_left = float.nought;
    pcm_lpf_right = float.nought;
    pcm_accum_left = pos 0;
    pcm_accum_right = pos 0;
    pcm_accum_cycles = 0;
    last_mixed_left = pos 0;
    last_mixed_right = pos 0;
    last_mixed_mask = 0;
    cgb_mode = false;
  }

  unfoldable pub initialize_post_boot_state : HardwareMode → Apu F → Apu F
  initialize_post_boot_state mode a =
      let b = clear_audio (record a {
        regs =
            0x80 ∷ 0xBF ∷ 0xF3 ∷ 0xFF ∷ 0xBF ∷ 0x3F ∷ 0x00 ∷ 0xFF ∷ 0xBF ∷ 0x7F ∷ 0xFF ∷ 0x9F ∷ 0xFF
            ∷ 0xBF ∷ 0xFF ∷ 0x00 ∷ 0x00 ∷ 0xBF ∷ 0x77 ∷ 0xF3 ∷ 0x00 ∷ 0x00 ∷ 0x00 ∷ [];
        wave_ram = replicate 0x10 0;
        master_enabled = true;
        channel_enable = elim mode [ cgb ↦ 0 | dmg ↦ 1 ];
      }) in
      if has_bit b.channel_enable 0x01
      then with_ch 0 (λ st. record st { enabled = true; dac_enabled = true }) b
      else b
