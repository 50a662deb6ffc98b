-- ===== src/Apu/Status.antt =====
-- What the registers of the sound unit tell after any sequence of its operations.
use kokura.Base.{
  ℕ, zero, suc, ◌+◌, ◌-◌, ◌*◌, ◌/◌, ◌%◌, ◌^◌, ◌<◌, ◌≡◌, refl, none, some, Bool-cases, inl, inr,
  Bool, true, false, ◌&&◌, bit_and, bit_or, ◌==◌, has_bit, u8_from, if_keep, if_cases, ◌≢◌,
  all_below, all_below_at, ==_iff, u8, arith,
}
use kokura.Mode.{HardwareMode}
use kokura.Apu.{ch, nr52, read, channel_digital_output, pcm12, reg}
use kokura.Apu.State.{Float, ChannelState, Apu, at, square_digital_output}
use kokura.Apu.Write.{write, default, initialize_post_boot_state}
use kokura.Apu.Tick.{tick, tick_fast}
use kokura.Apu.Mix.{drain_interleaved_i16, set_buffer_capacity_frames}
use kokura.Apu.Gate.{IsSound, mask, mask4}
use kokura.Apu.Gate.Mask.{IsSoundRun-apu}
use kokura.Apu.Gate.Written.{write-IsSound, default-IsSound, initialize_post_boot_state-IsSound}
use kokura.Apu.Gate.Ticked.{tick-IsSound}

-- The unit after a change of its capacity, which a capacity of zero leaves as it was.
unfoldable pub resize : {F : Type 0} → ℕ → Apu F → Apu F
resize capacity_frames a = elim (set_buffer_capacity_frames capacity_frames a) [
  | none ↦ a
  | some b ↦ b
]

-- The units that the machine can bring about.
pub data Reachable {F : Type 0} (float : Float F) : Apu F → Type 0 where
  at_power : Reachable float (default float)
  booted :
      (mode : HardwareMode) (a : Apu F)
      → Reachable float a
      → Reachable float (initialize_post_boot_state float mode a)
  set_mode :
      (cgb_mode : Bool) (a : Apu F)
      → Reachable float a
      → Reachable float (record a { cgb_mode = cgb_mode })
  written :
      (addr value : ℕ) (a : Apu F)
      → Reachable float a
      → Reachable float (write float addr value a).apu
  ticked : (cycles : ℕ) (a : Apu F) → Reachable float a → Reachable float (tick float cycles a).apu
  ticked_fast :
      (cycles : ℕ) (a : Apu F) → Reachable float a → Reachable float (tick_fast float cycles a)
  drained :
      (max_frames : ℕ) (a : Apu F)
      → Reachable float a
      → Reachable float (drain_interleaved_i16 max_frames a).1
  resized :
      (capacity_frames : ℕ) (a : Apu F)
      → capacity_frames < 2 ^ 63
      → Reachable float a
      → Reachable float (resize capacity_frames a)

module _ {F : Type 0} where
  drained-IsSound : (n : ℕ) (a : Apu F) → IsSound a → IsSound (drain_interleaved_i16 n a).1
  unfolding drain_interleaved_i16
  drained-IsSound n a h = h

  resized-IsSound : (n : ℕ) (a : Apu F) → IsSound a → IsSound (resize n a)
  unfolding resize set_buffer_capacity_frames
  resized-IsSound n a h = elim (Bool-cases (n == 0)) [
    | inl e ↦ rw (e, resize) h
    | inr e ↦ rw (e, resize) h
  ]

module _ {F : Type 0} (float : Float F) where
  pub Reachable-IsSound : (a : Apu F) → Reachable float a → IsSound a
  Reachable-IsSound a at_power = default-IsSound float
  Reachable-IsSound a (booted mode b p) = initialize_post_boot_state-IsSound float mode b
  Reachable-IsSound a (set_mode m b p) = Reachable-IsSound b p
  Reachable-IsSound a (written addr value b p) =
      IsSoundRun-apu _ (write-IsSound float addr value b (Reachable-IsSound b p))
  Reachable-IsSound a (ticked n b p) = (tick-IsSound float n b (Reachable-IsSound b p)).0
  Reachable-IsSound a (ticked_fast n b p) = (tick-IsSound float n b (Reachable-IsSound b p)).1
  Reachable-IsSound a (drained n b p) = drained-IsSound n b (Reachable-IsSound b p)
  Reachable-IsSound a (resized n b l p) = resized-IsSound n b (Reachable-IsSound b p)

flags :
    (on b0 b1 b2 b3 : Bool)
    → let status = bit_or (bit_or 0x70 (u8_from on * 128)) (bit_and (mask4 b0 b1 b2 b3) 0x0F) in
      (has_bit status 1 ≡ b0)
      × (has_bit status 2 ≡ b1)
      × (has_bit status 4 ≡ b2)
      × (has_bit status 8 ≡ b3)
      × (has_bit status 0x80 ≡ on)
unfolding mask4
flags on b0 b1 b2 b3 = ground arith

gated_lem : (b d : Bool) → (b ≡ true → d ≡ true) → (b && d) ≡ b
gated_lem true d h = h refl
gated_lem false d h = refl

square_small :
    (duty_reg : ℕ) (st : ChannelState)
    → st.envelope_volume < 16
    → square_digital_output duty_reg st < 16
unfolding square_digital_output
square_small duty_reg st h =
    let P = λ (n : ℕ). n < 16 in
    if_keep P st.force_zero_until_advance (omega arith) (if_keep P _ {y = 0} h (omega arith))

nibbles_test :
    all_below 16 (λ lo. all_below 16 (λ hi. bit_or lo (u8 (hi * 16)) == hi * 16 + lo)) ≡ true
unfolding all_below
nibbles_test = refl

-- Two nibbles side by side.
nibbles : (lo hi : ℕ) → lo < 16 → hi < 16 → bit_or lo (u8 (hi * 16)) ≡ hi * 16 + lo
nibbles lo hi l h =
    let row =
      all_below_at 16 (λ lo. all_below 16 (λ hi. bit_or lo (u8 (hi * 16)) == hi * 16 + lo)) lo
        nibbles_test l in
    (==_iff (bit_or lo (u8 (hi * 16))) (hi * 16 + lo)).0
      (all_below_at 16 (λ hi. bit_or lo (u8 (hi * 16)) == hi * 16 + lo) hi row h)

module _ {F : Type 0} where
  flag_lem : (i : ℕ) (a : Apu F) → i < 4 → IsSound a → has_bit (nr52 a) (2 ^ i) ≡ (ch i a).enabled
  unfolding nr52 ch at mask
  flag_lem zero a l h =
      rw h.bits
        (flags a.master_enabled a.channels.c0.enabled a.channels.c1.enabled a.channels.c2.enabled
          a.channels.c3.enabled).0
  flag_lem (suc zero) a l h =
      rw h.bits
        (flags a.master_enabled a.channels.c0.enabled a.channels.c1.enabled a.channels.c2.enabled
          a.channels.c3.enabled).1
  flag_lem (suc (suc zero)) a l h =
      rw h.bits
        (flags a.master_enabled a.channels.c0.enabled a.channels.c1.enabled a.channels.c2.enabled
          a.channels.c3.enabled).2
  flag_lem (suc (suc (suc zero))) a l h =
      rw h.bits
        (flags a.master_enabled a.channels.c0.enabled a.channels.c1.enabled a.channels.c2.enabled
          a.channels.c3.enabled).3
  flag_lem (suc (suc (suc (suc i)))) a l h = absurd (omega arith)

  power_lem : (a : Apu F) → IsSound a → has_bit (nr52 a) 0x80 ≡ a.master_enabled
  unfolding nr52 mask
  power_lem a h =
      rw h.bits
        (flags a.master_enabled a.channels.c0.enabled a.channels.c1.enabled a.channels.c2.enabled
          a.channels.c3.enabled).4

module _ {F : Type 0} (float : Float F) where
  status-flags :
      (i : ℕ) (a : Apu F)
      → i < 4
      → Reachable float a
      → (has_bit (read 0xFF26 a) (2 ^ i) ≡ (ch i a).enabled)
        × ((ch i a).enabled && (ch i a).dac_enabled ≡ (ch i a).enabled)
        × (has_bit (read 0xFF26 a) 0x80 ≡ a.master_enabled)
  unfolding read ch
  status-flags i a l p =
      let h = Reachable-IsSound float a p in
      let st = ch i a in
      (flag_lem i a l h, gated_lem st.enabled st.dac_enabled (h.states i).gated, power_lem a h)

  pub outputs_small :
      (channel : ℕ) (a : Apu F)
      → channel ≢ 3
      → Reachable float a
      → channel_digital_output channel a < 16
  unfolding channel_digital_output ch
  outputs_small channel a e p =
      let k = (Reachable-IsSound float a p).states (channel - 1) in
      let P = λ (n : ℕ). n < 16 in
      let st = ch (channel - 1) a in
      if_keep P _ {x = 0} (omega arith) (
        if_keep P (channel == 1) (square_small (reg 1 a) st k.volume_small) (
          if_keep P (channel == 2) (square_small (reg 6 a) st k.volume_small) (
            if_cases P (channel == 3) (λ f. absurd (ground arith))
              (λ f. if_keep P _ {y = 0} k.volume_small (omega arith)))))

  pcm12-outputs :
      (a : Apu F)
      → Reachable float a
      → (read 0xFF76 a % 16 ≡ channel_digital_output 1 a)
        × (read 0xFF76 a / 16 ≡ channel_digital_output 2 a)
  unfolding read pcm12
  pcm12-outputs a p =
      let low = outputs_small 1 a (omega arith) p in
      let high = outputs_small 2 a (omega arith) p in
      let joined = nibbles (channel_digital_output 1 a) (channel_digital_output 2 a) low high in
      (omega arith, omega arith)

  -- After any sequence of writes, ticks on either path, boots, mode changes, drains and changes
  -- of capacity (below 2 to the 63) from construction: NR52 tells for each of the four channels
  -- whether it is enabled, an enabled channel has its DAC on, bit 7 is the master power, and the
  -- nibbles of PCM12 are the outputs of channels 1 and 2, which fit them.
  pub read-state :
      (i : ℕ) (a : Apu F)
      → i < 4
      → Reachable float a
      → (has_bit (read 0xFF26 a) (2 ^ i) ≡ (ch i a).enabled)
        × ((ch i a).enabled && (ch i a).dac_enabled ≡ (ch i a).enabled)
        × (has_bit (read 0xFF26 a) 0x80 ≡ a.master_enabled)
        × (read 0xFF76 a % 16 ≡ channel_digital_output 1 a)
        × (read 0xFF76 a / 16 ≡ channel_digital_output 2 a)
  read-state i a l p =
      let s = status-flags i a l p in let o = pcm12-outputs a p in (s.0, s.1, s.2, o.0, o.1)
