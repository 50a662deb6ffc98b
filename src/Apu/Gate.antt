-- ===== src/Apu/Gate.antt =====
-- The invariant of the sound unit, crates/kokura-core/src/apu.rs, on the mask of enabled channels,
-- the channels' own flags, their DACs and the counters. Written has the register writes, Ticked the
-- time.
use kokura.Base.{
  ℕ, zero, suc, ◌+◌, ◌-◌, ◌*◌, ◌^◌, ◌≤◌, ◌<◌, ◌≡◌, refl, sym, ap, ◌∙◌, Bool, true, false, bit_and,
  bit_or, not8, u8_from, if◌then◌else◌, arith,
}
use kokura.Apu.{ch, with_ch, disable, emit, change}
use kokura.Apu.State.{ApuTraceEvent, ChannelState, Channels, Apu, Run, at, update}
pub mod Written
pub mod Ticked
pub mod Effects
pub mod Clocked
pub mod Mask

unfoldable pub mask4 : Bool → Bool → Bool → Bool → ℕ
mask4 b0 b1 b2 b3 = u8_from b0 + u8_from b1 * 2 + u8_from b2 * 4 + u8_from b3 * 8

-- The flags as bits.
unfoldable pub mask : Channels → ℕ
mask cs = mask4 cs.c0.enabled cs.c1.enabled cs.c2.enabled cs.c3.enabled

unfoldable pub limit : ℕ → ℕ
limit zero = 64
limit (suc zero) = 64
limit (suc (suc zero)) = 256
limit (suc (suc (suc i))) = 64

-- A channel in its ranges, whose length is at most `most`.
pub record IsOkAt (most : ℕ) (enabled dac_enabled : Bool) (volume duty wave length : ℕ)
    : Type 0 where
  pub gated : enabled ≡ true → dac_enabled ≡ true
  pub volume_small : volume < 16
  pub duty_small : duty < 8
  pub wave_small : wave < 32
  pub length_small : length ≤ most

abbrev pub IsOk : ℕ → ChannelState → Type 0
IsOk most st =
    IsOkAt most st.enabled st.dac_enabled st.envelope_volume st.duty_position st.wave_position
      st.length_counter

pub record IsSoundAt (channel_enable : ℕ) (cs : Channels) : Type 0 where
  pub bits : channel_enable ≡ mask cs
  pub states : (i : ℕ) → IsOk (limit i) (at i cs)

abbrev pub IsSound : {F : Type 0} → Apu F → Type 0
IsSound a = IsSoundAt a.channel_enable a.channels

unfoldable pub IsSoundRun : {F : Type 0} → Run F → Type 0
IsSoundRun r = IsSound r.apu

-- One fact replaced.
module _ {most volume duty wave length : ℕ} {enabled dac : Bool} where
  pub regated :
      (e d : Bool)
      → IsOkAt most enabled dac volume duty wave length
      → (e ≡ true → d ≡ true)
      → IsOkAt most e d volume duty wave length
  regated e d h g = record {
    gated = g;
    volume_small = h.volume_small;
    duty_small = h.duty_small;
    wave_small = h.wave_small;
    length_small = h.length_small;
  }

  pub revolumed :
      (v : ℕ)
      → IsOkAt most enabled dac volume duty wave length
      → v < 16
      → IsOkAt most enabled dac v duty wave length
  revolumed v h g = record {
    gated = h.gated;
    volume_small = g;
    duty_small = h.duty_small;
    wave_small = h.wave_small;
    length_small = h.length_small;
  }

  pub relengthened :
      (l : ℕ)
      → IsOkAt most enabled dac volume duty wave length
      → l ≤ most
      → IsOkAt most enabled dac volume duty wave l
  relengthened l h g = record {
    gated = h.gated;
    volume_small = h.volume_small;
    duty_small = h.duty_small;
    wave_small = h.wave_small;
    length_small = g;
  }

  pub rephased :
      (u w : ℕ)
      → IsOkAt most enabled dac volume duty wave length
      → u < 8
      → w < 32
      → IsOkAt most enabled dac volume u w length
  rephased u w h g k = record {
    gated = h.gated;
    volume_small = h.volume_small;
    duty_small = g;
    wave_small = k;
    length_small = h.length_small;
  }
