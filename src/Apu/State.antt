-- ===== src/Apu/State.antt =====
-- The state of the sound unit, its trace events in types.rs and its tables, in
-- crates/kokura-core/src/apu.rs.
use kokura.Base.{
  ℕ, zero, suc, ◌-◌, bit_and, Bool, true, false, not, Option, none, some, List, [], ◌∷◌, ◌==◌,
  ◌>>>◌, if◌then◌else◌, get_or, ℤ,
}

-- f64 and its operations, with the four coefficients that the filters use.
pub record Float (F : Type 0) : Type 0 where
  pub nought : F
  pub from_int : ℤ → F
  pub plus : F → F → F
  pub minus : F → F → F
  pub times : F → F → F
  -- `round`, clamped to i16.
  pub round : F → ℤ
  pub hpf_dmg : F
  pub hpf_cgb : F
  pub lpf_dmg : F
  pub lpf_cgb : F

pub data ApuTraceEvent : Type 0 where
  master_toggle : (enabled : Bool) → (nr52 : ℕ) → ApuTraceEvent
  channel_trigger : (channel reg value : ℕ) → ApuTraceEvent
  channel_length_expired : (channel : ℕ) → ApuTraceEvent
  channel_envelope_step : (channel volume : ℕ) → (increasing : Bool) → ApuTraceEvent
  channel_sweep_step :
      (old_frequency new_frequency : ℕ) → (negate : Bool) → (shift : ℕ) → ApuTraceEvent
  channel_disabled : (channel reason reg : ℕ) → ApuTraceEvent
  dac_state_change : (channel : ℕ) → (enabled : Bool) → (reg : ℕ) → (active : Bool) → ApuTraceEvent
  pop_risk : (source reg : ℕ) → ApuTraceEvent
  frame_sequencer_step : (step : ℕ) → ApuTraceEvent
  mixer_control_write : (nr50 nr51 nr52 : ℕ) → ApuTraceEvent
  mixed_output : (left right : ℤ) → (active_mask : ℕ) → ApuTraceEvent
  pcm_frames_buffered : (frames buffered_frames : ℕ) → ApuTraceEvent
  pcm_buffer_wrapped : (dropped_frames dropped_total : ℕ) → ApuTraceEvent
  wave_ram_write : (index value : ℕ) → ApuTraceEvent
  wave_ram_access_aliased : (requested_index actual_index : ℕ) → (is_write : Bool) → ApuTraceEvent
  ch3_trigger_retains_sample : (buffered_sample next_index : ℕ) → ApuTraceEvent
  noise_clock_frozen : (shift divisor_code : ℕ) → ApuTraceEvent

pub record ChannelState : Type 0 where
  pub enabled : Bool
  pub dac_enabled : Bool
  pub length_counter : ℕ
  pub envelope_volume : ℕ
  pub envelope_period : ℕ
  pub envelope_increase : Bool
  pub envelope_counter : ℕ
  pub shadow_frequency : ℕ
  pub sweep_period : ℕ
  pub sweep_counter : ℕ
  pub sweep_shift : ℕ
  pub sweep_negate : Bool
  pub duty_position : ℕ
  pub freq_timer : ℕ
  pub wave_position : ℕ
  pub wave_sample_buffer : ℕ
  pub lfsr : ℕ
  pub force_zero_until_advance : Bool
  pub sweep_negate_used : Bool

unfoldable pub silent : ChannelState
silent = record {
  enabled = false;
  dac_enabled = false;
  length_counter = 0;
  envelope_volume = 0;
  envelope_period = 0;
  envelope_increase = false;
  envelope_counter = 0;
  shadow_frequency = 0;
  sweep_period = 0;
  sweep_counter = 0;
  sweep_shift = 0;
  sweep_negate = false;
  duty_position = 0;
  freq_timer = 0;
  wave_position = 0;
  wave_sample_buffer = 0;
  lfsr = 0x7FFF;
  force_zero_until_advance = true;
  sweep_negate_used = false;
}

-- `[ChannelState; 4]`, indexed from 0.
pub record Channels : Type 0 where
  pub c0 : ChannelState
  pub c1 : ChannelState
  pub c2 : ChannelState
  pub c3 : ChannelState

unfoldable pub at : ℕ → Channels → ChannelState
at zero cs = cs.c0
at (suc zero) cs = cs.c1
at (suc (suc zero)) cs = cs.c2
at (suc (suc (suc i))) cs = cs.c3

unfoldable pub update : ℕ → (ChannelState → ChannelState) → Channels → Channels
update zero f cs = record cs { c0 = f cs.c0 }
update (suc zero) f cs = record cs { c1 = f cs.c1 }
update (suc (suc zero)) f cs = record cs { c2 = f cs.c2 }
update (suc (suc (suc i))) f cs = record cs { c3 = f cs.c3 }

unfoldable pub all_silent : Channels
all_silent = record { c0 = silent; c1 = silent; c2 = silent; c3 = silent }

pub record Apu (F : Type 0) : Type 0 where
  pub regs : List ℕ
  pub wave_ram : List ℕ
  pub master_enabled : Bool
  pub channel_enable : ℕ
  pub frame_seq_cycles : ℕ
  pub frame_seq_step : ℕ
  pub channels : Channels
  pub mix_trace_cycles : ℕ
  pub pcm_sample_cycles : ℕ
  pub pcm_buffer : List ℤ
  pub pcm_buffer_capacity_frames : ℕ
  pub pcm_frames_generated : ℕ
  pub pcm_frames_dropped : ℕ
  pub pcm_hpf_left : F
  pub pcm_hpf_right : F
  pub pcm_lpf_left : F
  pub pcm_lpf_right : F
  pub pcm_accum_left : ℤ
  pub pcm_accum_right : ℤ
  pub pcm_accum_cycles : ℕ
  pub last_mixed_left : ℤ
  pub last_mixed_right : ℤ
  pub last_mixed_mask : ℕ
  pub cgb_mode : Bool

-- A method that changes the unit and pushes to a trace.
pub record Run (F : Type 0) : Type 0 where
  pub apu : Apu F
  pub trace : List ApuTraceEvent

abbrev pub register_read_masks : List ℕ
register_read_masks =
    0x80 ∷ 0x3F ∷ 0x00 ∷ 0xFF ∷ 0xBF ∷ 0xFF ∷ 0x3F ∷ 0x00 ∷ 0xFF ∷ 0xBF ∷ 0x7F ∷ 0xFF ∷ 0x9F ∷ 0xFF
    ∷ 0xBF ∷ 0xFF ∷ 0xFF ∷ 0x00 ∷ 0x00 ∷ 0xBF ∷ 0x00 ∷ 0x00 ∷ []

abbrev pub duty_patterns : List (List ℕ)
duty_patterns =
    (0 ∷ 0 ∷ 0 ∷ 0 ∷ 0 ∷ 0 ∷ 0 ∷ 1 ∷ [])
    ∷ (1 ∷ 0 ∷ 0 ∷ 0 ∷ 0 ∷ 0 ∷ 0 ∷ 1 ∷ [])
    ∷ (1 ∷ 0 ∷ 0 ∷ 0 ∷ 0 ∷ 1 ∷ 1 ∷ 1 ∷ [])
    ∷ (0 ∷ 1 ∷ 1 ∷ 1 ∷ 1 ∷ 1 ∷ 1 ∷ 0 ∷ [])
    ∷ []

abbrev pub noise_divisors : List ℕ
noise_divisors = 8 ∷ 16 ∷ 32 ∷ 48 ∷ 64 ∷ 80 ∷ 96 ∷ 112 ∷ []

unfoldable pub decode_length_square : ℕ → ℕ
decode_length_square value = let raw = 64 - bit_and value 0x3F in if raw == 0 then 64 else raw

unfoldable pub decode_length_wave : ℕ → ℕ
decode_length_wave value = let raw = 256 - value in if raw == 0 then 256 else raw

unfoldable pub max_length : ℕ → ℕ
max_length channel = if channel == 3 then 256 else 64

-- The free function `trigger_channel`.
unfoldable pub triggered_channel : ℕ → Option ℕ
triggered_channel addr =
    if addr == 0xFF14
    then some 1
    else if addr == 0xFF19
    then some 2
    else if addr == 0xFF1E
    then some 3
    else if addr == 0xFF23
    then some 4
    else none

unfoldable pub square_digital_output : ℕ → ChannelState → ℕ
square_digital_output duty_reg st =
    let duty = duty_reg >>> 6 in
    let bit = get_or (get_or duty_patterns duty []) st.duty_position 0 in
    if st.force_zero_until_advance then 0 else if not (bit == 0) then st.envelope_volume else 0

unfoldable pub wave_channel_sample : ChannelState → ℕ
wave_channel_sample st =
    if bit_and st.wave_position 1 == 0
    then st.wave_sample_buffer >>> 4
    else bit_and st.wave_sample_buffer 0x0F
