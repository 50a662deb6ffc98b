-- ===== src/Apu/Gate/Written.antt =====
-- The invariant of the sound unit through the register writes of crates/kokura-core/src/apu.rs.
use kokura.Base.{
  ℕ, ◌-◌, ◌≤◌, ◌<◌, ◌≡◌, refl, true, not, ◌&&◌, bit_and, ◌==◌, leb, ltb, ◌>>>◌, ◌^◌, bit_or,
  has_bit, in_range, set, replicate, ◌||◌, [], if◌then◌else◌, if_keep, if_cases, Option, none, some,
  arith, max,
}
use kokura.Mode.{HardwareMode, dmg, cgb}
use kokura.Apu.{
  ch, with_ch, reg, emit, change, period_for_channel, current_frequency, read, is_ch3_active,
}
use kokura.Apu.State.{
  ChannelState, Apu, Run, Float, at, max_length, triggered_channel, channel_trigger,
  ch3_trigger_retains_sample, pop_risk, master_toggle, update, silent, all_silent,
}
use kokura.Apu.Write.{
  trigger_sweep, start_channel, trigger_channel, write_unpowered, mixer_event, write_register,
  write_wave, clear_audio, write_power, write, default, initialize_post_boot_state,
}
use kokura.Apu.Effects.{differs, trigger_state, apply_register_side_effects}
use kokura.Apu.Gate.{IsSound, IsSoundRun, limit, mask, mask4, regated}
use kokura.Apu.Gate.Mask.{
  update-states, with_ch-IsSound, enable-IsSound, off-IsSound, change-IsSoundRun, emit-IsSound,
  IsSoundRun-apu,
}
use kokura.Apu.Gate.Effects.{
  trigger_state-IsOk, trigger_state-on, silent-IsOk, silent_states, load_length-IsSound,
  apply_register_side_effects-IsSound,
}

module _ {F : Type 0} where
  trigger_sweep-IsSound :
      (freq sweep_reg : ℕ) (r : Run F) → IsSoundRun r → IsSoundRun (trigger_sweep freq sweep_reg r)
  unfolding IsSoundRun trigger_sweep emit change ch at
  trigger_sweep-IsSound freq sweep_reg r h =
      let set = λ (st : ChannelState). record st { sweep_negate_used = true } in
      let used =
        if_keep IsSoundRun (has_bit sweep_reg 0x08) {x = change (with_ch 0 set) r} {y = r}
          (with_ch-IsSound 0 set r.apu h refl (h.states 0)) h in
      if_keep IsSoundRun (ltb 2047 _) (off-IsSound 0 _ (omega arith) used) used

  start_channel-IsSound :
      (channel reg_addr value : ℕ) (r : Run F)
      → channel - 1 < 4
      → max_length channel ≤ limit (channel - 1)
      → (ch (channel - 1) r.apu).dac_enabled ≡ true
      → IsSoundRun r
      → IsSoundRun (start_channel channel reg_addr value r)
  unfolding IsSoundRun start_channel emit change ch with_ch
  start_channel-IsSound channel reg_addr value r l m d h =
      let idx = channel - 1 in
      let a = r.apu in
      let freq = current_frequency channel a in
      let period = max (period_for_channel channel a) 1 in
      let sweep_reg = reg 0 a in
      let env_reg =
        if channel == 1
        then reg 2 a
        else if channel == 2
        then reg 7 a
        else if channel == 4
        then reg 0x11 a
        else 0 in
      let set = trigger_state channel freq period sweep_reg env_reg in
      let enable = λ (b : Apu F). record b { channel_enable = bit_or b.channel_enable (2 ^ idx) } in
      let r2 =
        emit (channel_trigger channel reg_addr value)
          (change enable (change (with_ch idx set) r)) in
      let on : IsSoundRun r2 =
        enable-IsSound idx set a l h
          (trigger_state-on channel freq period sweep_reg env_reg (ch idx a))
          (trigger_state-IsOk (limit idx) channel freq period sweep_reg env_reg (ch idx a) m d
            (h.states idx)) in
      let r3 =
        if channel == 3
        then emit (ch3_trigger_retains_sample (ch idx a).wave_sample_buffer 1) r2
        else r2 in
      let on3 : IsSoundRun r3 = if_keep IsSoundRun (channel == 3) on on in
      let on4 =
        if_keep IsSoundRun (channel == 1 && not (bit_and sweep_reg 0x07 == 0))
          {x = trigger_sweep freq sweep_reg r3} {y = r3}
          (trigger_sweep-IsSound freq sweep_reg r3 on3) on3 in
      if_keep IsSoundRun (channel == 4 && leb 14 (reg 0x12 a >>> 4)) on4 on4

  trigger_channel-IsSound :
      (channel reg_addr value : ℕ) (r : Run F)
      → channel - 1 < 4
      → max_length channel ≤ limit (channel - 1)
      → IsSoundRun r
      → IsSoundRun (trigger_channel channel reg_addr value r)
  unfolding IsSoundRun trigger_channel emit change
  trigger_channel-IsSound channel reg_addr value r l m h =
      let idx = channel - 1 in
      if_cases IsSoundRun (not (ch idx r.apu).dac_enabled) (λ e. off-IsSound idx r.apu l h)
        (λ e. start_channel-IsSound channel reg_addr value r l m (ground arith) h)

  mixer_event-IsSound : (r : Run F) → IsSoundRun r → IsSoundRun (mixer_event r)
  unfolding IsSoundRun mixer_event emit
  mixer_event-IsSound r h = h

  trigger_at :
      (addr value : ℕ) (r : Run F)
      → IsSoundRun r
      → IsSoundRun (elim (triggered_channel addr) [
        | none ↦ r
        | some channel ↦
            if has_bit value 0x80 && r.apu.master_enabled
            then trigger_channel channel addr value r
            else r
      ])
  unfolding triggered_channel limit max_length
  trigger_at addr value r h =
      let P = λ (o : Option ℕ). IsSoundRun (elim o [
        | none ↦ r
        | some channel ↦
            if has_bit value 0x80 && r.apu.master_enabled
            then trigger_channel channel addr value r
            else r
      ]) in
      let fire =
        λ (channel : ℕ) (l : channel - 1 < 4) (m : max_length channel ≤ limit (channel - 1)).
          if_keep IsSoundRun (has_bit value 0x80 && r.apu.master_enabled)
            (trigger_channel-IsSound channel addr value r l m h) h in
      if_keep P (addr == 0xFF14) (fire 1 (omega arith) (omega arith)) (
        if_keep P (addr == 0xFF19) (fire 2 (omega arith) (omega arith)) (
          if_keep P (addr == 0xFF1E) (fire 3 (omega arith) (omega arith))
            (if_keep P (addr == 0xFF23) (fire 4 (omega arith) (omega arith)) h)))

  write_register-IsSound :
      (addr value : ℕ) (r : Run F) → IsSoundRun r → IsSoundRun (write_register addr value r)
  unfolding write_register
  write_register-IsSound addr value r h =
      let a = IsSoundRun-apu r h in
      let put = λ (a : Apu F). record a { regs = set a.regs (addr - 0xFF10) value } in
      let r1 = apply_register_side_effects addr value (change put r) in
      let s1 : IsSoundRun r1 =
        apply_register_side_effects-IsSound addr value (change put r) (change-IsSoundRun put r a) in
      let r2 =
        if r1.apu.master_enabled && not (reg (addr - 0xFF10) r.apu == value)
        then emit (pop_risk (if addr == 0xFF24 then 2 else 3) addr) r1
        else r1 in
      let s2 : IsSoundRun r2 =
        if_keep IsSoundRun (r1.apu.master_enabled && not (reg (addr - 0xFF10) r.apu == value))
          (emit-IsSound _ r1 s1) s1 in
      let both = addr == 0xFF24 || addr == 0xFF25 in
      let r3 = if both then mixer_event r2 else r1 in
      trigger_at addr value r3 (if_keep IsSoundRun both (mixer_event-IsSound r2 s2) s1)

  write_wave-IsSound :
      (addr value : ℕ) (r : Run F) → IsSoundRun r → IsSoundRun (write_wave addr value r)
  unfolding write_wave emit change IsSoundRun
  write_wave-IsSound addr value r h =
      if_keep IsSoundRun (not r.apu.cgb_mode && is_ch3_active r.apu) h (if_keep IsSoundRun _ h h)

  write_unpowered-IsSound :
      (addr value : ℕ) (a : Apu F) → IsSound a → IsSound (write_unpowered addr value a)
  unfolding write_unpowered limit
  write_unpowered-IsSound addr value a h =
      let load = λ (i length : ℕ) (l : length ≤ limit i). load_length-IsSound i length a l h in
      if_keep IsSound a.cgb_mode h (
        if_keep IsSound (addr == 0xFF11) (load 0 _ (omega arith)) (
          if_keep IsSound (addr == 0xFF16) (load 1 _ (omega arith)) (
            if_keep IsSound (addr == 0xFF1B) (load 2 _ (omega arith))
              (if_keep IsSound (addr == 0xFF20) (load 3 _ (omega arith)) h))))

module _ {F : Type 0} (float : Float F) where
  clear_audio-IsSound : (a : Apu F) → a.channel_enable ≡ 0 → IsSound (clear_audio float a)
  unfolding clear_audio mask mask4 all_silent silent
  clear_audio-IsSound a e = record { bits = e; states = silent_states }

  write_power-IsSound :
      (value : ℕ) (r : Run F) → IsSoundRun r → IsSoundRun (write_power float value r)
  unfolding write_power
  write_power-IsSound value r h =
      let enabled = has_bit value 0x80 in
      let switch = λ (a : Apu F). record a { master_enabled = enabled } in
      let off = λ (a : Apu F).
        clear_audio float (record a { regs = replicate 0x17 0; channel_enable = 0 }) in
      let r1 = change switch r in
      let r2 = if enabled then r1 else change off r1 in
      let s1 : IsSoundRun r1 = change-IsSoundRun switch r (IsSoundRun-apu r h) in
      let s2 : IsSoundRun r2 =
        if_keep IsSoundRun enabled s1 (change-IsSoundRun off r1 (clear_audio-IsSound _ refl)) in
      let toggled = emit (master_toggle enabled (read 0xFF26 r2.apu)) r2 in
      if_keep IsSoundRun (differs enabled r.apu.master_enabled)
        (mixer_event-IsSound toggled (emit-IsSound _ r2 s2)) h

  pub write-IsSound :
      (addr value : ℕ) (a : Apu F) → IsSound a → IsSoundRun (write float addr value a)
  unfolding write change
  write-IsSound addr value a h =
      let r : Run F = record { apu = a; trace = [] } in
      let s = change-IsSoundRun (λ (a : Apu F). a) r h in
      if_keep IsSoundRun (in_range 0xFF10 0xFF25 addr)
        (if_keep IsSoundRun a.master_enabled (write_register-IsSound addr value r s) (
          change-IsSoundRun (write_unpowered addr value) r
            (write_unpowered-IsSound addr value a h)))
        (if_keep IsSoundRun (addr == 0xFF26) (write_power-IsSound value r s)
          (if_keep IsSoundRun (in_range 0xFF30 0xFF3F addr) (write_wave-IsSound addr value r s) s))

  pub default-IsSound : IsSound (default float)
  unfolding default mask mask4 all_silent silent
  default-IsSound = record { bits = refl; states = silent_states }

  pub initialize_post_boot_state-IsSound :
      (mode : HardwareMode) (a : Apu F) → IsSound (initialize_post_boot_state float mode a)
  unfolding initialize_post_boot_state limit at clear_audio with_ch all_silent silent update mask
      mask4
  initialize_post_boot_state-IsSound dmg a = record {
    bits = refl;
    states = λ j.
        update-states 0 j (λ st. record st { enabled = true; dac_enabled = true }) all_silent
          silent_states (regated true true (silent-IsOk 64) (λ e. refl));
  }
  initialize_post_boot_state-IsSound cgb a = record { bits = refl; states = silent_states }
