-- ===== src/Apu/Tests.antt =====
-- Instances of the theorems on the sound unit, over filters that pass integers through.
use kokura.Base.{
  ◌≤◌, min, length, ◌++◌, ◌*◌, ◌-◌, ◌+◌, ◌/◌, ◌%◌, ◌^◌, ◌≡◌, refl, true, ◌&&◌, has_bit, ℤ, pos,
  ◌+ℤ◌, ◌-ℤ◌, arith,
}
use kokura.Apu.{change, emit, ch, read, channel_digital_output}
use kokura.Apu.State.{Float, Apu}
use kokura.Apu.Write.{write, default, write_power, mixer_event}
use kokura.Apu.Effects.{differs}
use kokura.Apu.Phase.{advance_channels}
use kokura.Apu.Split.{advance_channels-split}
use kokura.Apu.Tick.{tick, tick_fast}
use kokura.Apu.Position.{counters, after, IsTimed}
use kokura.Apu.Position.Rate.{tick-after}
use kokura.Apu.Status.{Reachable, at_power, written, ticked, read-state}
use kokura.Apu.Queue.Bound.{drain-queue}
use kokura.Apu.Mix.{buffered_frames, drain_interleaved_i16}

abbrev direct : Float ℤ
direct = record {
  nought = pos 0;
  from_int = λ n. n;
  plus = λ a b. a +ℤ b;
  minus = λ a b. a -ℤ b;
  times = λ a b. a;
  round = λ n. n;
  hpf_dmg = pos 1;
  hpf_cgb = pos 1;
  lpf_dmg = pos 1;
  lpf_cgb = pos 1;
}

powered : Apu ℤ
powered = (write direct 0xFF26 0x80 (default direct)).apu

-- Channel 1 after its envelope and its trigger.
playing : Apu ℤ
playing = (write direct 0xFF14 0x80 (write direct 0xFF12 0xF3 powered).apu).apu

playing-Reachable : Reachable direct playing
unfolding playing powered
playing-Reachable = written 0xFF14 0x80 _ (written 0xFF12 0xF3 _ (written 0xFF26 0x80 _ at_power))

powered_on : powered.master_enabled ≡ true
unfolding powered write write_power differs change emit mixer_event default
powered_on = refl

powered-IsTimed : IsTimed (counters powered)
unfolding powered write write_power differs change emit mixer_event default counters
powered-IsTimed = record {
  sequencer_small = omega arith;
  step_small = omega arith;
  mix_small = omega arith;
  sampled_small = omega arith;
  frames_small = omega arith;
}

read-state_example :
    (has_bit (read 0xFF26 playing) (2 ^ 0) ≡ (ch 0 playing).enabled)
    × ((ch 0 playing).enabled && (ch 0 playing).dac_enabled ≡ (ch 0 playing).enabled)
    × (has_bit (read 0xFF26 playing) 0x80 ≡ playing.master_enabled)
    × (read 0xFF76 playing % 16 ≡ channel_digital_output 1 playing)
    × (read 0xFF76 playing / 16 ≡ channel_digital_output 2 playing)
read-state_example = read-state direct 0 playing (omega arith) playing-Reachable

-- After 200 cycles, which queue three frames.
sampled : Apu ℤ
sampled = (tick direct 200 playing).apu

drain-queue_example :
    let d = drain_interleaved_i16 2 sampled in
    (buffered_frames sampled ≤ sampled.pcm_buffer_capacity_frames)
    × (length sampled.pcm_buffer ≡ 2 * buffered_frames sampled)
    × (d.0 ++ d.1.pcm_buffer ≡ sampled.pcm_buffer)
    × (length d.0 ≡ 2 * min 2 (buffered_frames sampled))
    × (buffered_frames d.1 ≡ buffered_frames sampled - 2)
drain-queue_example =
    drain-queue direct 2 sampled (unfold sampled in ticked 200 playing playing-Reachable)

advance_channels-split_example :
    advance_channels (100 + 28) playing ≡ advance_channels 28 (advance_channels 100 playing)
advance_channels-split_example = advance_channels-split 100 28 playing

tick-after_example :
    (counters (tick direct 20000 powered).apu ≡ after 20000 (counters powered))
    × (counters (tick_fast direct 20000 powered) ≡ after 20000 (counters powered))
tick-after_example = tick-after direct 20000 powered powered_on powered-IsTimed
