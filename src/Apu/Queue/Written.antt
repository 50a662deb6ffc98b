-- ===== src/Apu/Queue/Written.antt =====
-- The queue of samples through the register writes of crates/kokura-core/src/apu.rs.
use kokura.Base.{
  ℕ, ◌-◌, ◌≤◌, Bool, not, ◌&&◌, ◌||◌, ◌==◌, has_bit, set, Option, none, some, [], if_keep, in_range,
  if◌then◌else◌, arith,
}
use kokura.Mode.{HardwareMode}
use kokura.Apu.{reg, ch, emit, change, with_ch, disable, is_ch3_active}
use kokura.Apu.State.{Float, ApuTraceEvent, pop_risk, ChannelState, Apu, Run, triggered_channel}
use kokura.Apu.Effects.{
  differs, load_length, sync_frequency_from_regs, update_dac_state, update_envelope_from_reg,
  write_sweep, apply_register_side_effects, latch_sweep, latch_envelope,
}
use kokura.Apu.Write.{
  trigger_sweep, start_channel, trigger_channel, write_unpowered, mixer_event, write_register,
  write_wave, clear_audio, write_power, write, default, initialize_post_boot_state,
}
use kokura.Apu.Queue.{IsQueue, IsQueueRun}

module _ {F : Type 0} where
  pub emit-IsQueueRun : (e : ApuTraceEvent) (r : Run F) → IsQueueRun r → IsQueueRun (emit e r)
  unfolding emit IsQueueRun
  emit-IsQueueRun e r h = h

  pub change-IsQueueRun :
      (f : Apu F → Apu F) (r : Run F)
      → ((a : Apu F) → IsQueue a → IsQueue (f a))
      → IsQueueRun r
      → IsQueueRun (change f r)
  unfolding change IsQueueRun
  change-IsQueueRun f r k h = k r.apu h

  pub with_ch-IsQueueRun :
      (i : ℕ) (f : ChannelState → ChannelState) (r : Run F)
      → IsQueueRun r
      → IsQueueRun (change (with_ch i f) r)
  unfolding change with_ch IsQueueRun
  with_ch-IsQueueRun i f r h = h

  pub disable-IsQueueRun : (i : ℕ) (r : Run F) → IsQueueRun r → IsQueueRun (change (disable i) r)
  unfolding change disable with_ch IsQueueRun
  disable-IsQueueRun i r h = h

  sync-IsQueueRun :
      (channel : ℕ) (r : Run F)
      → IsQueueRun r
      → IsQueueRun (change (sync_frequency_from_regs channel) r)
  unfolding change sync_frequency_from_regs with_ch IsQueueRun
  sync-IsQueueRun channel r h = if_keep IsQueue ((ch (channel - 1) r.apu).freq_timer == 0) h h

  load-IsQueueRun :
      (i length : ℕ) (r : Run F) → IsQueueRun r → IsQueueRun (change (load_length i length) r)
  unfolding change load_length with_ch IsQueueRun
  load-IsQueueRun i length r h = h

  update_dac_state-IsQueueRun :
      (channel : ℕ) (dac_enabled : Bool) (reg : ℕ) (r : Run F)
      → IsQueueRun r
      → IsQueueRun (update_dac_state channel dac_enabled reg r)
  unfolding update_dac_state
  update_dac_state-IsQueueRun channel dac_enabled reg r h =
      let set =
        with_ch-IsQueueRun (channel - 1) (λ st. record st { dac_enabled = dac_enabled }) r h in
      let told = emit-IsQueueRun _ _ set in
      let r4 =
        if_keep IsQueueRun (differs (ch (channel - 1) r.apu).dac_enabled dac_enabled)
          (if_keep IsQueueRun r.apu.master_enabled (emit-IsQueueRun _ _ told) told) set in
      if_keep IsQueueRun dac_enabled r4
        (emit-IsQueueRun _ _ (disable-IsQueueRun (channel - 1) _ r4))

  update_envelope-IsQueueRun :
      (channel value : ℕ) (r : Run F)
      → IsQueueRun r
      → IsQueueRun (update_envelope_from_reg channel value r)
  unfolding update_envelope_from_reg
  update_envelope-IsQueueRun channel value r h =
      update_dac_state-IsQueueRun channel _ _ _
        (with_ch-IsQueueRun (channel - 1) (latch_envelope value) r h)

  write_sweep-IsQueueRun : (value : ℕ) (r : Run F) → IsQueueRun r → IsQueueRun (write_sweep value r)
  unfolding write_sweep
  write_sweep-IsQueueRun value r h =
      let set = with_ch-IsQueueRun 0 (latch_sweep value) r h in
      if_keep IsQueueRun _ (emit-IsQueueRun _ _ (disable-IsQueueRun 0 _ set)) set

  effects-IsQueueRun :
      (addr value : ℕ) (r : Run F)
      → IsQueueRun r
      → IsQueueRun (apply_register_side_effects addr value r)
  unfolding apply_register_side_effects
  effects-IsQueueRun addr value r h =
      let sync = λ (channel : ℕ). sync-IsQueueRun channel r h in
      let load = λ (i length : ℕ). load-IsQueueRun i length r h in
      let envelope = λ (channel : ℕ). update_envelope-IsQueueRun channel value r h in
      if_keep IsQueueRun (addr == 0xFF10) (write_sweep-IsQueueRun value r h) (
        if_keep IsQueueRun (addr == 0xFF11) (load 0 _) (
          if_keep IsQueueRun (addr == 0xFF12) (envelope 1) (
            if_keep IsQueueRun (addr == 0xFF13) (sync 1) (
              if_keep IsQueueRun (addr == 0xFF14) (sync 1) (
                if_keep IsQueueRun (addr == 0xFF16) (load 1 _) (
                  if_keep IsQueueRun (addr == 0xFF17) (envelope 2) (
                    if_keep IsQueueRun (addr == 0xFF18) (sync 2) (
                      if_keep IsQueueRun (addr == 0xFF19) (sync 2) (
                        if_keep IsQueueRun (addr == 0xFF1A) (update_dac_state-IsQueueRun 3 _ _ r h)
                          (if_keep IsQueueRun (addr == 0xFF1B) (load 2 _) (
                            if_keep IsQueueRun (addr == 0xFF1D) (sync 3) (
                              if_keep IsQueueRun (addr == 0xFF1E) (sync 3) (
                                if_keep IsQueueRun (addr == 0xFF20) (load 3 _) (
                                  if_keep IsQueueRun (addr == 0xFF21) (envelope 4)
                                    (if_keep IsQueueRun (addr == 0xFF22) (sync 4) (h))))))))))))))))

  trigger_sweep-IsQueueRun :
      (freq sweep_reg : ℕ) (r : Run F) → IsQueueRun r → IsQueueRun (trigger_sweep freq sweep_reg r)
  unfolding trigger_sweep
  trigger_sweep-IsQueueRun freq sweep_reg r h =
      let r1 = if_keep IsQueueRun (has_bit sweep_reg 0x08) (with_ch-IsQueueRun 0 _ r h) h in
      if_keep IsQueueRun _ (emit-IsQueueRun _ _ (disable-IsQueueRun 0 _ r1)) r1

  start_channel-IsQueueRun :
      (channel reg_addr value : ℕ) (r : Run F)
      → IsQueueRun r
      → IsQueueRun (start_channel channel reg_addr value r)
  unfolding start_channel
  start_channel-IsQueueRun channel reg_addr value r h =
      let r1 = with_ch-IsQueueRun (channel - 1) _ r h in
      let r2 = emit-IsQueueRun _ _ (change-IsQueueRun _ _ (λ a q. q) r1) in
      let r3 = if_keep IsQueueRun (channel == 3) (emit-IsQueueRun _ _ r2) r2 in
      let r4 = if_keep IsQueueRun _ (trigger_sweep-IsQueueRun _ _ _ r3) r3 in
      if_keep IsQueueRun _ (emit-IsQueueRun _ _ r4) r4

  trigger_channel-IsQueueRun :
      (channel reg_addr value : ℕ) (r : Run F)
      → IsQueueRun r
      → IsQueueRun (trigger_channel channel reg_addr value r)
  unfolding trigger_channel
  trigger_channel-IsQueueRun channel reg_addr value r h =
      if_keep IsQueueRun _ (emit-IsQueueRun _ _ (disable-IsQueueRun (channel - 1) r h))
        (start_channel-IsQueueRun channel reg_addr value r h)

  write_unpowered-IsQueue :
      (addr value : ℕ) (a : Apu F) → IsQueue a → IsQueue (write_unpowered addr value a)
  unfolding write_unpowered load_length with_ch
  write_unpowered-IsQueue addr value a h = if_keep IsQueue a.cgb_mode h (
      if_keep IsQueue (addr == 0xFF11) h (
        if_keep IsQueue (addr == 0xFF16) h
          (if_keep IsQueue (addr == 0xFF1B) h (if_keep IsQueue (addr == 0xFF20) h h))))

  mixer_event-IsQueueRun : (r : Run F) → IsQueueRun r → IsQueueRun (mixer_event r)
  unfolding mixer_event
  mixer_event-IsQueueRun r h = emit-IsQueueRun _ r h

  triggered :
      (o : Option ℕ) (addr value : ℕ) (r : Run F)
      → IsQueueRun r
      → IsQueueRun (elim o [
        | none ↦ r
        | some channel ↦
            if has_bit value 0x80 && r.apu.master_enabled
            then trigger_channel channel addr value r
            else r
      ])
  triggered none addr value r h = h
  triggered (some channel) addr value r h =
      if_keep IsQueueRun _ (trigger_channel-IsQueueRun channel addr value r h) h

  write_register-IsQueueRun :
      (addr value : ℕ) (r : Run F) → IsQueueRun r → IsQueueRun (write_register addr value r)
  unfolding write_register
  write_register-IsQueueRun addr value r h =
      let put = λ (a : Apu F). record a { regs = set a.regs (addr - 0xFF10) value } in
      let r1 = apply_register_side_effects addr value (change put r) in
      let s1 : IsQueueRun r1 =
        effects-IsQueueRun addr value (change put r) (change-IsQueueRun put r (λ a q. q) h) in
      let loud = r1.apu.master_enabled && not (reg (addr - 0xFF10) r.apu == value) in
      let r2 = if loud then emit (pop_risk (if addr == 0xFF24 then 2 else 3) addr) r1 else r1 in
      let s2 : IsQueueRun r2 = if_keep IsQueueRun loud (emit-IsQueueRun _ r1 s1) s1 in
      let both = addr == 0xFF24 || addr == 0xFF25 in
      let r3 = if both then mixer_event r2 else r1 in
      triggered (triggered_channel addr) addr value r3
        (if_keep IsQueueRun both (mixer_event-IsQueueRun r2 s2) s1)

  write_wave-IsQueueRun :
      (addr value : ℕ) (r : Run F) → IsQueueRun r → IsQueueRun (write_wave addr value r)
  unfolding write_wave emit change IsQueueRun
  write_wave-IsQueueRun addr value r h =
      if_keep IsQueueRun (not r.apu.cgb_mode && is_ch3_active r.apu) h (if_keep IsQueueRun _ h h)

module _ {F : Type 0} (float : Float F) where
  clear_audio-IsQueue :
      (a : Apu F) → 1 ≤ a.pcm_buffer_capacity_frames → IsQueue (clear_audio float a)
  unfolding clear_audio
  clear_audio-IsQueue a h = record { room = h; paired = omega arith; fits = omega arith }

  write_power-IsQueueRun :
      (value : ℕ) (r : Run F) → IsQueueRun r → IsQueueRun (write_power float value r)
  unfolding write_power
  write_power-IsQueueRun value r h =
      let r1 = change-IsQueueRun _ r (λ a q. q) h in
      let r2 =
        if_keep IsQueueRun (has_bit value 0x80) r1
          (change-IsQueueRun _ _ (λ a q. clear_audio-IsQueue _ q.room) r1) in
      if_keep IsQueueRun _ (mixer_event-IsQueueRun _ (emit-IsQueueRun _ _ r2)) h

  pub write-IsQueueRun :
      (addr value : ℕ) (a : Apu F) → IsQueue a → IsQueueRun (write float addr value a)
  unfolding write
  write-IsQueueRun addr value a q =
      let h : IsQueueRun (record { apu = a; trace = [] }) = unfold IsQueueRun in q in
      if_keep IsQueueRun (in_range 0xFF10 0xFF25 addr)
        (if_keep IsQueueRun a.master_enabled (write_register-IsQueueRun addr value _ h)
          (change-IsQueueRun (write_unpowered addr value) _ (write_unpowered-IsQueue addr value) h))
        (if_keep IsQueueRun (addr == 0xFF26) (write_power-IsQueueRun value _ h) (
          if_keep IsQueueRun (in_range 0xFF30 0xFF3F addr) (write_wave-IsQueueRun addr value _ h)
            h))

  pub default-IsQueue : IsQueue (default float)
  unfolding default
  default-IsQueue = record { room = omega arith; paired = omega arith; fits = omega arith }

  pub initialize_post_boot_state-IsQueue :
      (mode : HardwareMode) (a : Apu F)
      → IsQueue a
      → IsQueue (initialize_post_boot_state float mode a)
  unfolding initialize_post_boot_state with_ch
  initialize_post_boot_state-IsQueue mode a q =
      let b = clear_audio-IsQueue _ q.room in if_keep IsQueue _ b b
