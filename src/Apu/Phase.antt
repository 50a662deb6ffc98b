-- ===== src/Apu/Phase.antt =====
-- The dividers of crates/kokura-core/src/apu.rs: `advance_channels` and the four loops below it.
use kokura.Base.{
  ℕ, zero, suc, ◌+◌, ◌-◌, ◌/◌, max, bit_and, bit_or, bit_xor, Bool, false, ◌==◌, leb, ltb, ◌<<<◌,
  ◌>>>◌, has_bit, if◌then◌else◌, get_or,
}
use kokura.Apu.{ch, with_ch, reg, period_for_channel}
use kokura.Apu.State.{ChannelState, Apu}

-- The loop that the three methods share: `fire` is what a deadline does after the reload. A round
-- takes one cycle or more of those that remain, so `fuel` as large as `remaining` is enough.
unfoldable pub deadlines : (ChannelState → ChannelState) → ℕ → ℕ → ℕ → ChannelState → ChannelState
deadlines fire period zero remaining st = st
deadlines fire period (suc fuel) remaining st =
    let timer = max (if st.freq_timer == 0 then period else st.freq_timer) 1 in
    let rest =
      deadlines fire period fuel (remaining - timer) (fire (record st { freq_timer = period })) in
    if remaining == 0
    then st
    else if ltb remaining timer
    then record st {
      freq_timer = (if st.freq_timer == 0 then period else st.freq_timer) - remaining;
    }
    else rest

unfoldable pub fire_square : ChannelState → ChannelState
fire_square st = record st {
  duty_position = bit_and (st.duty_position + 1) 0x07;
  force_zero_until_advance = false;
}

unfoldable pub fire_noise : Bool → ChannelState → ChannelState
fire_noise narrow st =
    let xor_bit = bit_and (bit_xor st.lfsr (st.lfsr >>> 1)) 0x01 in
    let lfsr = bit_or (st.lfsr >>> 1) (xor_bit <<< 14) in
    record st {
      lfsr = if narrow then bit_or (bit_and lfsr (0xFFFF - 0x40)) (xor_bit <<< 6) else lfsr;
    }

module _ {F : Type 0} where
  unfoldable pub fire_wave : Apu F → ChannelState → ChannelState
  fire_wave a st =
      let wave_position = bit_and (st.wave_position + 1) 0x1F in
      record st {
        wave_position = wave_position;
        wave_sample_buffer = get_or a.wave_ram (wave_position / 2) 0;
      }

  -- The body of each method behind its guards.
  unfoldable pub run_channel : (ChannelState → ChannelState) → ℕ → ℕ → Apu F → Apu F
  run_channel fire channel cycles a =
      with_ch (channel - 1) (deadlines fire (max (period_for_channel channel a) 1) cycles cycles) a

  unfoldable pub advance_square : ℕ → ℕ → Apu F → Apu F
  advance_square channel cycles a =
      if (ch (channel - 1) a).enabled then run_channel fire_square channel cycles a else a

  unfoldable pub advance_wave : ℕ → Apu F → Apu F
  advance_wave cycles a = if (ch 2 a).enabled then run_channel (fire_wave a) 3 cycles a else a

  unfoldable pub advance_noise : ℕ → Apu F → Apu F
  advance_noise cycles a =
      let nr43 = reg 0x12 a in
      if (ch 3 a).enabled
      then (if leb 14 (nr43 >>> 4)
          then a
          else run_channel (fire_noise (has_bit nr43 0x08)) 4 cycles a)
      else a

  unfoldable pub advance_channels : ℕ → Apu F → Apu F
  advance_channels cycles a =
      advance_noise cycles
        (advance_wave cycles (advance_square 2 cycles (advance_square 1 cycles a)))
