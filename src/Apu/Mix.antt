-- ===== src/Apu/Mix.antt =====
-- The mixer of crates/kokura-core/src/apu.rs and its queue of samples. The products of the mixer
-- stay far within i16 and i32, so only the saturating sums have their bound written out.
use kokura.Base.{
  ℕ, zero, suc, ◌+◌, ◌-◌, ◌*◌, ◌/◌, ◌^◌, max, min, bit_and, bit_or, Bool, not, ◌&&◌, ◌||◌, Option,
  none, some, List, [], ◌∷◌, ◌++◌, ◌==◌, leb, ltb, ◌>>>◌, has_bit, if◌then◌else◌, length, ℤ, pos,
  ◌+ℤ◌, ◌-ℤ◌, ◌*ℤ◌, quot, equal,
}
use kokura.Apu.{reg, ch, has_channel_bit, channel_digital_output, emit, change}
use kokura.Apu.State.{Float, Apu, Run, mixed_output}

pub record Mixed : Type 0 where
  pub left : ℤ
  pub right : ℤ
  pub active_mask : ℕ

unfoldable pub frames_in : List ℤ → ℕ
frames_in samples = length samples / 2

-- `pop_front` twice.
unfoldable pub pop_frame : List ℤ → List ℤ
pop_frame [] = []
pop_frame (x ∷ []) = []
pop_frame (x ∷ (y ∷ samples)) = samples

-- `for _ in 0..n` over `pop_front`: what is taken and what stays.
unfoldable pub take_samples : ℕ → List ℤ → List ℤ
take_samples zero samples = []
take_samples (suc n) [] = []
take_samples (suc n) (x ∷ samples) = x ∷ take_samples n samples

unfoldable pub drop_samples : ℕ → List ℤ → List ℤ
drop_samples zero samples = samples
drop_samples (suc n) [] = []
drop_samples (suc n) (x ∷ samples) = drop_samples n samples

-- `while self.pcm_buffer.len() > target_samples`; each round takes one sample.
unfoldable pub shrink : ℕ → ℕ → List ℤ → List ℤ
shrink target zero samples = samples
shrink target (suc fuel) samples =
    if ltb target (length samples) then shrink target fuel (drop_samples 1 samples) else samples

module _ {F : Type 0} where
  unfoldable pub buffered_frames : Apu F → ℕ
  buffered_frames a = frames_in a.pcm_buffer

  unfoldable pub set_buffer_capacity_frames : ℕ → Apu F → Option (Apu F)
  set_buffer_capacity_frames capacity_frames a =
      if capacity_frames == 0
      then none
      else some (record a {
        pcm_buffer_capacity_frames = capacity_frames;
        pcm_buffer =
            shrink (min (capacity_frames * 2) (2 ^ 64 - 1)) (length a.pcm_buffer) a.pcm_buffer;
      })

  -- The samples, and the unit without them.
  unfoldable pub drain_interleaved_i16 : ℕ → Apu F → List ℤ × Apu F
  drain_interleaved_i16 max_frames a =
      let frames = min max_frames (buffered_frames a) in
      (
        take_samples (frames * 2) a.pcm_buffer,
        record a { pcm_buffer = drop_samples (frames * 2) a.pcm_buffer },
      )

  unfoldable pub channel_analog_output : ℕ → Apu F → ℤ
  channel_analog_output channel a =
      let idx = channel - 1 in
      let st = ch idx a in
      let digital =
        if st.enabled && has_channel_bit idx a then channel_digital_output channel a else 0 in
      if not st.dac_enabled then pos 0 else pos 15 -ℤ pos (digital * 2)

  unfoldable pub mix_channel : ℕ → Apu F → Mixed → Mixed
  mix_channel channel a m =
      let sample = channel_analog_output channel a in
      let idx = channel - 1 in
      let nr50 = reg 0x14 a in
      let nr51 = reg 0x15 a in
      let left_vol = bit_and (nr50 >>> 4) 0x07 + 1 in
      let right_vol = bit_and nr50 0x07 + 1 in
      record {
        left = if has_bit nr51 (2 ^ (channel + 3)) then m.left +ℤ sample *ℤ left_vol else m.left;
        right =
            if has_bit nr51 (2 ^ (channel - 1)) then m.right +ℤ sample *ℤ right_vol else m.right;
        active_mask =
            if (ch idx a).enabled && has_channel_bit idx a
            then bit_or m.active_mask (2 ^ (channel - 1))
            else m.active_mask;
      }

  unfoldable pub mix_output : Apu F → Mixed
  mix_output a =
      let none_mixed : Mixed = record { left = pos 0; right = pos 0; active_mask = 0 } in
      let m = mix_channel 4 a (mix_channel 3 a (mix_channel 2 a (mix_channel 1 a none_mixed))) in
      if not a.master_enabled
      then none_mixed
      else record m { active_mask = bit_and m.active_mask a.channel_enable }

  unfoldable pub emit_mixed_output_if_changed : Run F → Run F
  emit_mixed_output_if_changed r =
      let m = mix_output r.apu in
      let same =
        equal m.left r.apu.last_mixed_left
        && (equal m.right r.apu.last_mixed_right && m.active_mask == r.apu.last_mixed_mask) in
      let keep = λ (a : Apu F). record a {
        last_mixed_left = m.left;
        last_mixed_right = m.right;
        last_mixed_mask = m.active_mask;
      } in
      if same then r else emit (mixed_output m.left m.right m.active_mask) (change keep r)

  unfoldable pub any_channel_dac_enabled : Apu F → Bool
  any_channel_dac_enabled a =
      (ch 0 a).dac_enabled
      || ((ch 1 a).dac_enabled || ((ch 2 a).dac_enabled || (ch 3 a).dac_enabled))

  -- `while self.buffered_frames() >= self.pcm_buffer_capacity_frames`, with the frames that this
  -- call has dropped. A round takes a frame, so the number of frames is enough fuel where the
  -- capacity is not zero.
  unfoldable pub evict : ℕ → Apu F × ℕ → Apu F × ℕ
  evict zero s = s
  evict (suc fuel) (a, dropped_frames) =
      if leb a.pcm_buffer_capacity_frames (buffered_frames a)
      then evict fuel (
        record a {
          pcm_buffer = pop_frame a.pcm_buffer;
          pcm_frames_dropped = min (a.pcm_frames_dropped + 1) (2 ^ 64 - 1);
        },
        min (dropped_frames + 1) 0xFFFF,
      )
      else (a, dropped_frames)

module _ {F : Type 0} (float : Float F) where
  unfoldable pub hpf_charge_factor : Apu F → F
  hpf_charge_factor a = if a.cgb_mode then float.hpf_cgb else float.hpf_dmg

  unfoldable pub output_lpf_alpha : Apu F → F
  output_lpf_alpha a = if a.cgb_mode then float.lpf_cgb else float.lpf_dmg

  unfoldable pub apply_output_low_pass : F → F → Apu F → Apu F
  apply_output_low_pass left right a =
      let alpha = output_lpf_alpha a in
      let toward = λ (old new : F). float.plus old (float.times (float.minus new old) alpha) in
      record a {
        pcm_lpf_left = toward a.pcm_lpf_left left;
        pcm_lpf_right = toward a.pcm_lpf_right right;
      }

  -- The filters' new state and the two samples, from the averages.
  unfoldable pub filter_frame : ℤ → ℤ → Apu F → Apu F × (ℤ × ℤ)
  filter_frame averaged_left averaged_right a =
      let raw_left = float.from_int (averaged_left *ℤ 64) in
      let raw_right = float.from_int (averaged_right *ℤ 64) in
      let charge = hpf_charge_factor a in
      let out_left = float.minus raw_left a.pcm_hpf_left in
      let out_right = float.minus raw_right a.pcm_hpf_right in
      let b = apply_output_low_pass out_left out_right (record a {
        pcm_hpf_left = float.minus raw_left (float.times out_left charge);
        pcm_hpf_right = float.minus raw_right (float.times out_right charge);
      }) in
      if any_channel_dac_enabled a
      then (b, (float.round b.pcm_lpf_left, float.round b.pcm_lpf_right))
      else (record a { pcm_lpf_left = float.nought; pcm_lpf_right = float.nought }, (pos 0, pos 0))

  unfoldable pub enqueue_pcm_frame : Apu F × ℕ → Apu F × ℕ
  enqueue_pcm_frame (a, dropped_frames) =
      let accum_cycles = max a.pcm_accum_cycles 1 in
      let filtered =
        filter_frame (quot a.pcm_accum_left accum_cycles) (quot a.pcm_accum_right accum_cycles)
          (record a { pcm_accum_left = pos 0; pcm_accum_right = pos 0; pcm_accum_cycles = 0 }) in
      let evicted = evict (buffered_frames a) (filtered.0, dropped_frames) in
      let b = evicted.0 in
      (
        record b {
          pcm_buffer = b.pcm_buffer ++ (filtered.1.0 ∷ filtered.1.1 ∷ []);
          pcm_frames_generated = min (b.pcm_frames_generated + 1) (2 ^ 64 - 1);
        },
        evicted.1,
      )
