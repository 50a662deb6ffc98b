-- ===== src/Apu/Split.antt =====
-- The dividers of the sound unit, crates/kokura-core/src/apu.rs, over a time that is cut into
-- chunks.
use kokura.Base.{
  ℕ, zero, suc, ◌+◌, ◌-◌, ◌≡◌, refl, ap, max, Bool, true, false, inl, inr, Bool-cases, leb,
  if◌then◌else◌, not, ◌>>>◌, has_bit, arith,
}
use kokura.Apu.{reg, ch, with_ch, period_for_channel, current_frequency}
use kokura.Apu.State.{ChannelState, Apu, at, update}
use kokura.Apu.Phase.{
  deadlines, fire_square, fire_noise, fire_wave, run_channel, advance_square, advance_wave,
  advance_noise, advance_channels,
}
use kokura.Apu.Advance.{deadlines_split, deadlines_keep}

-- A channel by itself, where its clock runs.
unfoldable pub solo : Bool → (ChannelState → ChannelState) → ℕ → ℕ → ChannelState → ChannelState
solo runs fire period cycles st =
    if st.enabled then (if runs then deadlines fire (max period 1) cycles cycles st else st) else st

unfoldable pub Keeps : (ChannelState → ChannelState) → Type 0
Keeps fire = (b : Bool) (st : ChannelState) → st.enabled ≡ b → (fire st).enabled ≡ b

if_push {ℓ} :
    {A B : Type ℓ} (g : A → B) (b : Bool) (x y : A)
    → (if b then g x else g y) ≡ g (if b then x else y)
if_push g true x y = refl
if_push g false x y = refl

pub solo_off :
    (runs : Bool) (fire : ChannelState → ChannelState) (period c : ℕ) (st : ChannelState)
    → st.enabled ≡ false
    → solo runs fire period c st ≡ st
unfolding solo
solo_off runs fire period c st e =
    ap (λ (b : Bool). if b then (if runs then deadlines fire (max period 1) c c st else st) else st)
      e

pub solo_on :
    (fire : ChannelState → ChannelState) (period c : ℕ) (st : ChannelState)
    → st.enabled ≡ true
    → solo true fire period c st ≡ deadlines fire (max period 1) c c st
unfolding solo
solo_on fire period c st e =
    ap (λ (b : Bool). if b then deadlines fire (max period 1) c c st else st) e

pub solo_frozen :
    (fire : ChannelState → ChannelState) (period c : ℕ) (st : ChannelState)
    → solo false fire period c st ≡ st
unfolding solo
solo_frozen fire period c st = elim (Bool-cases st.enabled) [
  | inl e ↦ ap (λ (b : Bool). if b then st else st) e
  | inr e ↦ ap (λ (b : Bool). if b then st else st) e
]

solo_split :
    (runs : Bool) (fire : ChannelState → ChannelState) (period a b : ℕ) (st : ChannelState)
    → Keeps fire
    → solo runs fire period (a + b) st ≡ solo runs fire period b (solo runs fire period a st)
unfolding Keeps
solo_split false fire period a b st k = rw (solo_frozen, solo_frozen, solo_frozen) refl
solo_split true fire period a b st k = elim (Bool-cases st.enabled) [
  | inr e ↦
      rw
        (
          solo_off true fire period (a + b) st e,
          solo_off true fire period a st e,
          solo_off true fire period b st e,
        )
        refl
  | inl e ↦
      let st' = deadlines fire (max period 1) a a st in
      let still : st'.enabled ≡ true =
        deadlines_keep fire (max period 1) (λ (s : ChannelState). s.enabled ≡ true) (λ s t h. h)
          (k true) a a st e in
      rw
        (
          solo_on fire period (a + b) st e,
          solo_on fire period a st e,
          solo_on fire period b st' still,
        )
        (deadlines_split fire (max period 1) a b st (omega arith))
]

pub square-Keeps : Keeps fire_square
unfolding Keeps fire_square
square-Keeps b st e = e

pub noise-Keeps : (narrow : Bool) → Keeps (fire_noise narrow)
unfolding Keeps fire_noise
noise-Keeps narrow b st e = e

module _ {F : Type 0} where
  pub wave-Keeps : (u : Apu F) → Keeps (fire_wave u)
  unfolding Keeps fire_wave
  wave-Keeps u b st e = e

  if_with_ch :
      (i : ℕ) (f : ChannelState → ChannelState) (u : Apu F)
      → (if (ch i u).enabled then with_ch i f u else u)
        ≡ with_ch i (λ st. if st.enabled then f st else st) u
  unfolding with_ch ch at update
  if_with_ch zero f u =
      if_push (λ (c : ChannelState). record u { channels = record u.channels { c0 = c } })
        u.channels.c0.enabled (f u.channels.c0) u.channels.c0
  if_with_ch (suc zero) f u =
      if_push (λ (c : ChannelState). record u { channels = record u.channels { c1 = c } })
        u.channels.c1.enabled (f u.channels.c1) u.channels.c1
  if_with_ch (suc (suc zero)) f u =
      if_push (λ (c : ChannelState). record u { channels = record u.channels { c2 = c } })
        u.channels.c2.enabled (f u.channels.c2) u.channels.c2
  if_with_ch (suc (suc (suc i))) f u =
      if_push (λ (c : ChannelState). record u { channels = record u.channels { c3 = c } })
        u.channels.c3.enabled (f u.channels.c3) u.channels.c3

  square_solo :
      (channel c : ℕ) (u : Apu F)
      → advance_square channel c u
        ≡ with_ch (channel - 1) (solo true fire_square (period_for_channel channel u) c) u
  unfolding advance_square run_channel solo
  square_solo channel c u =
      if_with_ch (channel - 1) (deadlines fire_square (max (period_for_channel channel u) 1) c c) u

  wave_solo :
      (c : ℕ) (u : Apu F)
      → advance_wave c u ≡ with_ch 2 (solo true (fire_wave u) (period_for_channel 3 u) c) u
  unfolding advance_wave run_channel solo
  wave_solo c u = if_with_ch 2 (deadlines (fire_wave u) (max (period_for_channel 3 u) 1) c c) u

  noise_if :
      (b : Bool) (f : ChannelState → ChannelState) (u : Apu F)
      → (if (ch 3 u).enabled then (if b then u else with_ch 3 f u) else u)
        ≡ with_ch 3 (λ st. if st.enabled then (if not b then f st else st) else st) u
  unfolding with_ch update
  noise_if false f u = if_with_ch 3 f u
  noise_if true f u = if_with_ch 3 (λ st. st) u

  noise_solo :
      (c : ℕ) (u : Apu F)
      → advance_noise c u
        ≡ with_ch 3
            (solo
              (not (leb 14 (reg 0x12 u >>> 4)))
              (fire_noise (has_bit (reg 0x12 u) 0x08))
              (period_for_channel 4 u)
              c)
            u
  unfolding advance_noise run_channel solo
  noise_solo c u =
      noise_if (leb 14 (reg 0x12 u >>> 4))
        (deadlines (fire_noise (has_bit (reg 0x12 u) 0x08)) (max (period_for_channel 4 u) 1) c c) u

  pub advance_channels_flat :
      (c : ℕ) (u : Apu F)
      → advance_channels c u ≡ record u {
        channels = record {
          c0 = solo true fire_square (period_for_channel 1 u) c u.channels.c0;
          c1 = solo true fire_square (period_for_channel 2 u) c u.channels.c1;
          c2 = solo true (fire_wave u) (period_for_channel 3 u) c u.channels.c2;
          c3 =
              solo
                (not (leb 14 (reg 0x12 u >>> 4)))
                (fire_noise (has_bit (reg 0x12 u) 0x08))
                (period_for_channel 4 u)
                c
                u.channels.c3;
        };
      }
  unfolding advance_channels with_ch update period_for_channel current_frequency reg fire_wave
  advance_channels_flat c u = rw (square_solo, square_solo, wave_solo, noise_solo) refl

  -- Advancing the channels by `a + b` cycles is advancing them by `a` and then by `b`, so their
  -- phases, timers, samples and noise do not depend on how a time is cut into chunks.
  pub advance_channels-split :
      (a b : ℕ) (u : Apu F) → advance_channels (a + b) u ≡ advance_channels b (advance_channels a u)
  unfolding period_for_channel current_frequency reg fire_wave
  advance_channels-split a b u =
      rw
        (
          advance_channels_flat (a + b) u,
          advance_channels_flat a u,
          advance_channels_flat b,
          solo_split true fire_square (period_for_channel 1 u) a b u.channels.c0 square-Keeps,
          solo_split true fire_square (period_for_channel 2 u) a b u.channels.c1 square-Keeps,
          solo_split true (fire_wave u) (period_for_channel 3 u) a b u.channels.c2 (wave-Keeps u),
          solo_split (not (leb 14 (reg 0x12 u >>> 4))) (fire_noise (has_bit (reg 0x12 u) 0x08))
              (period_for_channel 4 u) a b u.channels.c3 (noise-Keeps (has_bit (reg 0x12 u) 0x08)),
        )
        refl
