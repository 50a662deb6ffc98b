-- ===== src/Apu/Gate/Mask.antt =====
-- The mask of enabled channels of crates/kokura-core/src/apu.rs, through changes of one channel.
use kokura.Base.{
  ℕ, zero, suc, ◌^◌, ◌<◌, ◌≡◌, refl, sym, ap, ◌∙◌, Bool, true, false, bit_and, bit_or, not8, arith,
}
use kokura.Apu.{ch, with_ch, disable, emit, change}
use kokura.Apu.State.{ApuTraceEvent, ChannelState, Channels, Apu, Run, at, update}
use kokura.Apu.Gate.{mask4, mask, limit, IsOk, IsSoundAt, IsSound, IsSoundRun, regated}

pub update-states :
    (i j : ℕ) (f : ChannelState → ChannelState) (cs : Channels)
    → ((k : ℕ) → IsOk (limit k) (at k cs))
    → IsOk (limit i) (f (at i cs))
    → IsOk (limit j) (at j (update i f cs))
unfolding at update limit
update-states zero zero f cs h k = k
update-states zero (suc zero) f cs h k = h 1
update-states zero (suc (suc zero)) f cs h k = h 2
update-states zero (suc (suc (suc j))) f cs h k = h 3
update-states (suc zero) zero f cs h k = h 0
update-states (suc zero) (suc zero) f cs h k = k
update-states (suc zero) (suc (suc zero)) f cs h k = h 2
update-states (suc zero) (suc (suc (suc j))) f cs h k = h 3
update-states (suc (suc zero)) zero f cs h k = h 0
update-states (suc (suc zero)) (suc zero) f cs h k = h 1
update-states (suc (suc zero)) (suc (suc zero)) f cs h k = k
update-states (suc (suc zero)) (suc (suc (suc j))) f cs h k = h 3
update-states (suc (suc (suc i))) zero f cs h k = h 0
update-states (suc (suc (suc i))) (suc zero) f cs h k = h 1
update-states (suc (suc (suc i))) (suc (suc zero)) f cs h k = h 2
update-states (suc (suc (suc i))) (suc (suc (suc j))) f cs h k = k

mask-keep :
    (i : ℕ) (f : ChannelState → ChannelState) (cs : Channels)
    → (f (at i cs)).enabled ≡ (at i cs).enabled
    → mask (update i f cs) ≡ mask cs
unfolding mask at update
mask-keep zero f cs e = ap (λ b. mask4 b cs.c1.enabled cs.c2.enabled cs.c3.enabled) e
mask-keep (suc zero) f cs e = ap (λ b. mask4 cs.c0.enabled b cs.c2.enabled cs.c3.enabled) e
mask-keep (suc (suc zero)) f cs e = ap (λ b. mask4 cs.c0.enabled cs.c1.enabled b cs.c3.enabled) e
mask-keep (suc (suc (suc i))) f cs e = ap (λ b. mask4 cs.c0.enabled cs.c1.enabled cs.c2.enabled b) e

-- One bit of the mask, cleared and set.
clear_bit :
    (b0 b1 b2 b3 : Bool)
    → (mask4 false b1 b2 b3 ≡ bit_and (mask4 b0 b1 b2 b3) (not8 1))
      × (mask4 b0 false b2 b3 ≡ bit_and (mask4 b0 b1 b2 b3) (not8 2))
      × (mask4 b0 b1 false b3 ≡ bit_and (mask4 b0 b1 b2 b3) (not8 4))
      × (mask4 b0 b1 b2 false ≡ bit_and (mask4 b0 b1 b2 b3) (not8 8))
unfolding mask4
clear_bit b0 b1 b2 b3 = ground arith

set_bit :
    (b0 b1 b2 b3 : Bool)
    → (mask4 true b1 b2 b3 ≡ bit_or (mask4 b0 b1 b2 b3) 1)
      × (mask4 b0 true b2 b3 ≡ bit_or (mask4 b0 b1 b2 b3) 2)
      × (mask4 b0 b1 true b3 ≡ bit_or (mask4 b0 b1 b2 b3) 4)
      × (mask4 b0 b1 b2 true ≡ bit_or (mask4 b0 b1 b2 b3) 8)
unfolding mask4
set_bit b0 b1 b2 b3 = ground arith

mask-clear :
    (i : ℕ) (f : ChannelState → ChannelState) (cs : Channels)
    → i < 4
    → (f (at i cs)).enabled ≡ false
    → mask (update i f cs) ≡ bit_and (mask cs) (not8 (2 ^ i))
unfolding mask at update
mask-clear zero f cs l e =
    rw e (clear_bit cs.c0.enabled cs.c1.enabled cs.c2.enabled cs.c3.enabled).0
mask-clear (suc zero) f cs l e =
    rw e (clear_bit cs.c0.enabled cs.c1.enabled cs.c2.enabled cs.c3.enabled).1
mask-clear (suc (suc zero)) f cs l e =
    rw e (clear_bit cs.c0.enabled cs.c1.enabled cs.c2.enabled cs.c3.enabled).2
mask-clear (suc (suc (suc zero))) f cs l e =
    rw e (clear_bit cs.c0.enabled cs.c1.enabled cs.c2.enabled cs.c3.enabled).3
mask-clear (suc (suc (suc (suc i)))) f cs l e = absurd (omega arith)

mask-set :
    (i : ℕ) (f : ChannelState → ChannelState) (cs : Channels)
    → i < 4
    → (f (at i cs)).enabled ≡ true
    → mask (update i f cs) ≡ bit_or (mask cs) (2 ^ i)
unfolding mask at update
mask-set zero f cs l e = rw e (set_bit cs.c0.enabled cs.c1.enabled cs.c2.enabled cs.c3.enabled).0
mask-set (suc zero) f cs l e =
    rw e (set_bit cs.c0.enabled cs.c1.enabled cs.c2.enabled cs.c3.enabled).1
mask-set (suc (suc zero)) f cs l e =
    rw e (set_bit cs.c0.enabled cs.c1.enabled cs.c2.enabled cs.c3.enabled).2
mask-set (suc (suc (suc zero))) f cs l e =
    rw e (set_bit cs.c0.enabled cs.c1.enabled cs.c2.enabled cs.c3.enabled).3
mask-set (suc (suc (suc (suc i)))) f cs l e = absurd (omega arith)

update_twice :
    (i : ℕ) (f g : ChannelState → ChannelState) (cs : Channels)
    → update i f (update i g cs) ≡ update i (λ st. f (g st)) cs
unfolding update
update_twice zero f g cs = refl
update_twice (suc zero) f g cs = refl
update_twice (suc (suc zero)) f g cs = refl
update_twice (suc (suc (suc i))) f g cs = refl

pub off-IsOk :
    (most : ℕ) (st : ChannelState) → IsOk most st → IsOk most (record st { enabled = false })
off-IsOk most st h = regated false st.dac_enabled h (λ e. absurd (ground arith))

module _ {F : Type 0} where
  -- A change of one channel that leaves its flag.
  pub with_ch-IsSound :
      (i : ℕ) (f : ChannelState → ChannelState) (a : Apu F)
      → IsSound a
      → (f (ch i a)).enabled ≡ (ch i a).enabled
      → IsOk (limit i) (f (ch i a))
      → IsSound (with_ch i f a)
  unfolding with_ch ch
  with_ch-IsSound i f a h e k = record {
    bits = h.bits ∙ sym (mask-keep i f a.channels e);
    states = λ j. update-states i j f a.channels h.states k;
  }

  -- A channel turned off after a change of its state, whose DAC may be off by then.
  pub disable-IsSound :
      (i : ℕ) (f : ChannelState → ChannelState) (a : Apu F)
      → i < 4
      → IsSound a
      → IsOk (limit i) (record (f (ch i a)) { enabled = false })
      → IsSound (disable i (with_ch i f a))
  unfolding disable with_ch ch
  disable-IsSound i f a l h k =
      let off = λ (st : ChannelState). record (f st) { enabled = false } in
      rw
        (update_twice i (λ (st : ChannelState). record st { enabled = false }) f a.channels, h.bits)
        (record {
          bits = sym (mask-clear i off a.channels l refl);
          states = λ j. update-states i j off a.channels h.states k;
        })

  -- A channel turned on.
  pub enable-IsSound :
      (i : ℕ) (f : ChannelState → ChannelState) (a : Apu F)
      → i < 4
      → IsSound a
      → (f (ch i a)).enabled ≡ true
      → IsOk (limit i) (f (ch i a))
      → IsSoundAt (bit_or a.channel_enable (2 ^ i)) (update i f a.channels)
  unfolding ch
  enable-IsSound i f a l h e k = rw h.bits (record {
    bits = sym (mask-set i f a.channels l e);
    states = λ j. update-states i j f a.channels h.states k;
  })

  pub off-IsSound : (i : ℕ) (a : Apu F) → i < 4 → IsSound a → IsSound (disable i a)
  unfolding disable with_ch
  off-IsSound i a l h =
      let off = λ (st : ChannelState). record st { enabled = false } in
      rw h.bits (record {
        bits = sym (mask-clear i off a.channels l refl);
        states = λ j.
            update-states i j off a.channels h.states
              (off-IsOk (limit i) (at i a.channels) (h.states i));
      })

  pub change-IsSoundRun :
      (f : Apu F → Apu F) (r : Run F) → IsSound (f r.apu) → IsSoundRun (change f r)
  unfolding IsSoundRun change
  change-IsSoundRun f r h = h

  pub apu-IsSoundRun : (r : Run F) → IsSound r.apu → IsSoundRun r
  unfolding IsSoundRun
  apu-IsSoundRun r h = h

  pub IsSoundRun-apu : (r : Run F) → IsSoundRun r → IsSound r.apu
  unfolding IsSoundRun
  IsSoundRun-apu r h = h

  pub emit-IsSound : (event : ApuTraceEvent) (r : Run F) → IsSoundRun r → IsSoundRun (emit event r)
  unfolding IsSoundRun emit
  emit-IsSound event r h = h
