-- ===== src/Apu/Gate/Effects.antt =====
-- The invariant of the sound unit through the side effects of a register write, in
-- crates/kokura-core/src/apu.rs.
use kokura.Base.{
  ℕ, zero, suc, ◌+◌, ◌-◌, ◌≤◌, ◌<◌, ◌≡◌, refl, Bool, true, false, not, ◌&&◌, bit_and, bit_and-le,
  ◌==◌, ◌>>>◌, has_bit, if◌then◌else◌, if_keep, Bool-cases, inl, inr, arith, max,
}
use kokura.Apu.{ch, with_ch, reg, disable, emit, change, period_for_channel}
use kokura.Apu.State.{
  ChannelState, Apu, Run, at, decode_length_square, decode_length_wave, max_length, silent,
  all_silent,
}
use kokura.Apu.Effects.{
  differs, latch_sweep, latch_envelope, trigger_state, sync_frequency_from_regs, update_dac_state,
  update_envelope_from_reg, write_sweep, load_length, apply_register_side_effects,
}
use kokura.Apu.Gate.{IsOk, IsSound, IsSoundRun, limit, regated, revolumed, relengthened, rephased}
use kokura.Apu.Gate.Mask.{
  with_ch-IsSound, disable-IsSound, off-IsSound, change-IsSoundRun, IsSoundRun-apu,
}

square-length : (value : ℕ) → decode_length_square value ≤ 64
unfolding decode_length_square
square-length value = ground arith

wave-length : (value : ℕ) → decode_length_wave value ≤ 256
unfolding decode_length_wave
wave-length value = ground arith

pub trigger_state-IsOk :
    (most channel freq period sweep_reg env_reg : ℕ) (st : ChannelState)
    → max_length channel ≤ most
    → st.dac_enabled ≡ true
    → IsOk most st
    → IsOk most (trigger_state channel freq period sweep_reg env_reg st)
unfolding trigger_state latch_sweep
trigger_state-IsOk most channel freq period sweep_reg env_reg st l d h =
    let P = IsOk most in
    let st1 = record st {
      enabled = true;
      length_counter = if st.length_counter == 0 then max_length channel else st.length_counter;
      shadow_frequency = freq;
      freq_timer = period;
      wave_position = 0;
      lfsr = 0x7FFF;
    } in
    let sweep_period = bit_and (sweep_reg >>> 4) 0x07 in
    let swept = record (latch_sweep sweep_reg st1) {
      sweep_counter = if sweep_period == 0 then 8 else sweep_period;
      sweep_negate_used = false;
    } in
    let long =
      if_keep (λ (n : ℕ). n ≤ most) (st.length_counter == 0) {x = max_length channel}
        {y = st.length_counter} l h.length_small in
    let open_gate = regated true st.dac_enabled h (λ e. d) in
    let started =
      relengthened _ (rephased st.duty_position 0 open_gate h.duty_small (omega arith)) long in
    let st2 = if_keep P (channel == 1) {x = swept} {y = st1} started started in
    if_keep P (channel == 3) st2 (
      revolumed (bit_and (env_reg >>> 4) 0x0F) st2 (omega (arith, bit_and-le (env_reg >>> 4) 0x0F)))

pub trigger_state-on :
    (channel freq period sweep_reg env_reg : ℕ) (st : ChannelState)
    → (trigger_state channel freq period sweep_reg env_reg st).enabled ≡ true
unfolding trigger_state latch_sweep
trigger_state-on channel freq period sweep_reg env_reg st = elim (Bool-cases (channel == 3)) [
  | inl e ↦ elim (Bool-cases (channel == 1)) [ inl f ↦ rw (e, f) refl | inr f ↦ rw (e, f) refl ]
  | inr e ↦ elim (Bool-cases (channel == 1)) [ inl f ↦ rw (e, f) refl | inr f ↦ rw (e, f) refl ]
]

pub silent-IsOk : (most : ℕ) → IsOk most silent
unfolding silent
silent-IsOk most = record {
  gated = λ e. absurd (ground arith);
  volume_small = omega arith;
  duty_small = omega arith;
  wave_small = omega arith;
  length_small = omega arith;
}

pub silent_states : (i : ℕ) → IsOk (limit i) (at i all_silent)
unfolding all_silent at
silent_states zero = silent-IsOk (limit 0)
silent_states (suc zero) = silent-IsOk (limit 1)
silent_states (suc (suc zero)) = silent-IsOk (limit 2)
silent_states (suc (suc (suc i))) = silent-IsOk (limit (suc (suc (suc i))))

module _ {F : Type 0} where
  sync-IsSound :
      (channel : ℕ) (a : Apu F) → IsSound a → IsSound (sync_frequency_from_regs channel a)
  unfolding sync_frequency_from_regs ch
  sync-IsSound channel a h =
      let idx = channel - 1 in
      let set =
        λ (st : ChannelState). record st { freq_timer = max (period_for_channel channel a) 1 } in
      if_keep IsSound ((ch idx a).freq_timer == 0) (with_ch-IsSound idx set a h refl (h.states idx))
        h

  pub load_length-IsSound :
      (i length : ℕ) (a : Apu F) → length ≤ limit i → IsSound a → IsSound (load_length i length a)
  unfolding load_length ch
  load_length-IsSound i length a l h =
      let k = h.states i in
      with_ch-IsSound i (λ st. record st { length_counter = length }) a h refl
        (relengthened length k l)

  update_dac_state-IsSound :
      (channel : ℕ) (dac : Bool) (reg : ℕ) (r : Run F)
      → channel - 1 < 4
      → IsSoundRun r
      → IsSoundRun (update_dac_state channel dac reg r)
  unfolding IsSoundRun update_dac_state ch emit change
  update_dac_state-IsSound channel true reg r l h =
      let idx = channel - 1 in
      let k = h.states idx in
      let now =
        with_ch-IsSound idx (λ st. record st { dac_enabled = true }) r.apu h refl
          (regated (ch idx r.apu).enabled true k (λ e. refl)) in
      if_keep IsSoundRun (differs (ch idx r.apu).dac_enabled true)
        (if_keep IsSoundRun r.apu.master_enabled now now) now
  update_dac_state-IsSound channel false reg r l h =
      let idx = channel - 1 in
      let k = h.states idx in
      let off =
        disable-IsSound idx (λ st. record st { dac_enabled = false }) r.apu l h
          (regated false false k (λ e. absurd (ground arith))) in
      let P = λ (r : Run F). IsSoundRun (change (disable idx) r) in
      if_keep P (differs (ch idx r.apu).dac_enabled false) (if_keep P r.apu.master_enabled off off)
        off

  update_envelope_from_reg-IsSound :
      (channel value : ℕ) (r : Run F)
      → channel - 1 < 4
      → IsSoundRun r
      → IsSoundRun (update_envelope_from_reg channel value r)
  unfolding IsSoundRun update_envelope_from_reg ch change latch_envelope
  update_envelope_from_reg-IsSound channel value r l h =
      let idx = channel - 1 in
      let k = h.states idx in
      let st = ch idx r.apu in
      let bumped = bit_and (st.envelope_volume + 1) 0x0F in
      let loaded = bit_and (value >>> 4) 0x0F in
      let small =
        if_keep (λ (v : ℕ). v < 16)
          (st.enabled
            && (st.envelope_period == 0 && (st.envelope_increase && bit_and value 0x0F == 0x08)))
          {x = bumped} {y = loaded} (omega (arith, bit_and-le (st.envelope_volume + 1) 0x0F))
          (omega (arith, bit_and-le (value >>> 4) 0x0F)) in
      update_dac_state-IsSound channel (not (bit_and value 0xF8 == 0)) _
        (change (with_ch idx (latch_envelope value)) r) l
        (with_ch-IsSound idx (latch_envelope value) r.apu h refl (revolumed _ k small))

  write_sweep-IsSound : (value : ℕ) (r : Run F) → IsSoundRun r → IsSoundRun (write_sweep value r)
  unfolding IsSoundRun write_sweep ch at emit change latch_sweep
  write_sweep-IsSound value r h =
      let now = with_ch-IsSound 0 (latch_sweep value) r.apu h refl (h.states 0) in
      let st = ch 0 r.apu in
      if_keep IsSoundRun
        (st.sweep_negate && (not (has_bit value 0x08) && (st.sweep_negate_used && st.enabled)))
        (off-IsSound 0 (with_ch 0 (latch_sweep value) r.apu) (omega arith) now) now

  pub apply_register_side_effects-IsSound :
      (addr value : ℕ) (r : Run F)
      → IsSoundRun r
      → IsSoundRun (apply_register_side_effects addr value r)
  unfolding apply_register_side_effects limit
  apply_register_side_effects-IsSound addr value r h =
      let a = IsSoundRun-apu r h in
      let sync = λ (channel : ℕ).
        change-IsSoundRun (sync_frequency_from_regs channel) r (sync-IsSound channel r.apu a) in
      let envelope = λ (channel : ℕ) (l : channel - 1 < 4).
        update_envelope_from_reg-IsSound channel value r l h in
      let load = λ (i length : ℕ) (l : length ≤ limit i).
        change-IsSoundRun (load_length i length) r (load_length-IsSound i length r.apu l a) in
      let square = square-length value in
      if_keep IsSoundRun (addr == 0xFF10) (write_sweep-IsSound value r h) (
        if_keep IsSoundRun (addr == 0xFF11) (load 0 _ square) (
          if_keep IsSoundRun (addr == 0xFF12) (envelope 1 (omega arith)) (
            if_keep IsSoundRun (addr == 0xFF13) (sync 1) (
              if_keep IsSoundRun (addr == 0xFF14) (sync 1) (
                if_keep IsSoundRun (addr == 0xFF16) (load 1 _ square) (
                  if_keep IsSoundRun (addr == 0xFF17) (envelope 2 (omega arith)) (
                    if_keep IsSoundRun (addr == 0xFF18) (sync 2) (
                      if_keep IsSoundRun (addr == 0xFF19) (sync 2) (
                        if_keep IsSoundRun (addr == 0xFF1A)
                          (update_dac_state-IsSound 3 (has_bit value 0x80) 0xFF1A r (omega arith) h)
                          (if_keep IsSoundRun (addr == 0xFF1B) (load 2 _ (wave-length value)) (
                            if_keep IsSoundRun (addr == 0xFF1D) (sync 3) (
                              if_keep IsSoundRun (addr == 0xFF1E) (sync 3) (
                                if_keep IsSoundRun (addr == 0xFF20) (load 3 _ square) (
                                  if_keep IsSoundRun (addr == 0xFF21) (envelope 4 (omega arith))
                                    (if_keep IsSoundRun (addr == 0xFF22) (sync 4) h)))))))))))))))
