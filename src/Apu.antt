-- ===== src/Apu.antt =====
-- The sound unit of crates/kokura-core/src/apu.rs: its registers as they are read, and what each
-- channel puts out. Apu/State has its state, Apu/Effects and Apu/Write the register writes,
-- Apu/Phase the running dividers, Apu/Sequencer the clocks of lengths, envelopes and the sweep,
-- Apu/Mix the mixer and the queue of samples, Apu/Tick the two tick paths.
use kokura.Base.{
  ℕ, zero, suc, ◌+◌, ◌-◌, ◌*◌, ◌/◌, ◌%◌, ◌^◌, min, max, bit_and, bit_or, Bool, true, false, not,
  ◌&&◌, Option, none, some, List, [], ◌∷◌, ◌++◌, ◌==◌, ltb, u8, u16, u8_from, ◌<<<◌, ◌>>>◌, not8,
  has_bit, in_range, if◌then◌else◌, get_or, set, replicate, ℤ, pos,
}
pub mod Write
pub mod Phase
pub mod Sequencer
pub mod Mix
pub mod Tick
pub mod Split
pub mod Gate
pub mod Status
pub mod Queue
pub mod Position
pub mod Tests
pub mod Advance
pub mod Effects
pub mod State
use kokura.Apu.State.{
  ApuTraceEvent, ChannelState, at, update, Apu, Run, register_read_masks, noise_divisors,
  square_digital_output, wave_channel_sample,
}

module _ {F : Type 0} where
  unfoldable pub reg : ℕ → Apu F → ℕ
  reg i a = get_or a.regs i 0

  -- `self.channels[idx]`, read and changed.
  unfoldable pub ch : ℕ → Apu F → ChannelState
  ch idx a = at idx a.channels

  unfoldable pub with_ch : ℕ → (ChannelState → ChannelState) → Apu F → Apu F
  with_ch idx f a = record a { channels = update idx f a.channels }

  unfoldable pub has_channel_bit : ℕ → Apu F → Bool
  has_channel_bit idx a = has_bit a.channel_enable (2 ^ idx)

  unfoldable pub is_ch3_active : Apu F → Bool
  is_ch3_active a = (ch 2 a).enabled && ((ch 2 a).dac_enabled && has_bit a.channel_enable 0x04)

  unfoldable pub current_wave_ram_byte_index : Apu F → ℕ
  current_wave_ram_byte_index a = min ((ch 2 a).wave_position / 2) 15

  unfoldable pub wave_ram_visible_index : ℕ → Apu F → ℕ
  wave_ram_visible_index requested_index a =
      if a.cgb_mode && is_ch3_active a
      then current_wave_ram_byte_index a
      else min requested_index 15

  unfoldable pub channel_digital_output : ℕ → Apu F → ℕ
  channel_digital_output channel a =
      let idx = channel - 1 in
      let st = ch idx a in
      let level = bit_and (reg 0x0C a >>> 5) 0x03 in
      if not (st.enabled && (st.dac_enabled && has_channel_bit idx a))
      then 0
      else if channel == 1
      then square_digital_output (reg 1 a) st
      else if channel == 2
      then square_digital_output (reg 6 a) st
      else if channel == 3
      then (if level == 0
          then 0
          else if level == 1
          then wave_channel_sample st
          else if level == 2
          then wave_channel_sample st >>> 1
          else wave_channel_sample st >>> 2)
      else if bit_and st.lfsr 0x01 == 0
      then st.envelope_volume
      else 0

  unfoldable pub pcm12 : Apu F → ℕ
  pcm12 a = bit_or (channel_digital_output 1 a) (u8 (channel_digital_output 2 a <<< 4))

  unfoldable pub pcm34 : Apu F → ℕ
  pcm34 a = bit_or (channel_digital_output 3 a) (u8 (channel_digital_output 4 a <<< 4))

  unfoldable pub nr52 : Apu F → ℕ
  nr52 a = bit_or (bit_or 0x70 (u8_from a.master_enabled <<< 7)) (bit_and a.channel_enable 0x0F)

  unfoldable pub read : ℕ → Apu F → ℕ
  read addr a =
      if in_range 0xFF10 0xFF25 addr
      then (let index = addr - 0xFF10 in bit_or (reg index a) (get_or register_read_masks index 0))
      else if addr == 0xFF26
      then nr52 a
      else if in_range 0xFF30 0xFF3F addr
      then (if not a.cgb_mode && is_ch3_active a
          then 0xFF
          else get_or a.wave_ram (wave_ram_visible_index (addr - 0xFF30) a) 0)
      else if addr == 0xFF76
      then pcm12 a
      else if addr == 0xFF77
      then pcm34 a
      else 0xFF

  unfoldable pub current_frequency : ℕ → Apu F → ℕ
  current_frequency channel a =
      if channel == 1
      then bit_or (bit_and (reg 4 a) 0x07 <<< 8) (reg 3 a)
      else if channel == 2
      then bit_or (bit_and (reg 9 a) 0x07 <<< 8) (reg 8 a)
      else if channel == 3
      then bit_or (bit_and (reg 14 a) 0x07 <<< 8) (reg 13 a)
      else (ch 3 a).shadow_frequency

  unfoldable pub period_for_channel : ℕ → Apu F → ℕ
  period_for_channel channel a =
      let freq = min (current_frequency channel a) 2047 in
      let nr43 = reg 0x12 a in
      let shift = nr43 >>> 4 in
      let divisor = get_or noise_divisors (bit_and nr43 0x07) 0 in
      if channel == 1
      then max (2048 - freq) 1 * 4
      else if channel == 2
      then max (2048 - freq) 1 * 4
      else if channel == 3
      then max (2048 - freq) 1 * 2
      else max (if ltb shift 16 then u16 (divisor <<< shift) else 0xFFFF) 8

  unfoldable pub length_enabled : ℕ → Apu F → Bool
  length_enabled channel a =
      if channel == 1
      then has_bit (reg 4 a) 0x40
      else if channel == 2
      then has_bit (reg 9 a) 0x40
      else if channel == 3
      then has_bit (reg 14 a) 0x40
      else has_bit (reg 0x13 a) 0x40

  unfoldable pub emit : ApuTraceEvent → Run F → Run F
  emit event r = record r { trace = r.trace ++ (event ∷ []) }

  -- A change of the unit that pushes nothing.
  unfoldable pub change : (Apu F → Apu F) → Run F → Run F
  change f r = record r { apu = f r.apu }

  -- `channels[idx].enabled = false; channel_enable &= !(1 << idx)`.
  unfoldable pub disable : ℕ → Apu F → Apu F
  disable idx a =
      let b = with_ch idx (λ st. record st { enabled = false }) a in
      record b { channel_enable = bit_and b.channel_enable (not8 (2 ^ idx)) }
