-- ===== src/Serial/Tests.antt =====
-- Instances of the theorems on the serial port.
use kokura.Base.{ℕ, ◌≡◌, refl, true, false, List, [], ◌∷◌, arith, digit}
use kokura.Serial.{
  Serial, default, internal_clock, write_sc, tick_fast, clock_external_byte, exchange_with_peer,
}
use kokura.Serial.Transfer.{run, IsDone, transfer_completes}
use kokura.Serial.Link.{IsServed, exchange_with_peer-Becomes}

abbrev sending : Serial
sending = record {
  sb = 0x5A;
  sc = 0x81;
  cycle_accum = 500;
  bits_remaining = 8;
  transfer_active = true;
}

abbrev answering : Serial
answering = record {
  sb = 0xC3;
  sc = 0x80;
  cycle_accum = 0;
  bits_remaining = 8;
  transfer_active = true;
}

abbrev loaded : Serial
loaded = record default { sb = 0x5A }

abbrev ticks : List ℕ
ticks = 4000 ∷ 90 ∷ []

transfer_completes_example :
    ((run ticks (write_sc 0x81 loaded).1).0 ≡ false)
    × ((tick_fast 6 (run ticks (write_sc 0x81 loaded).1).1).0 ≡ true)
    × IsDone (tick_fast 6 (run ticks (write_sc 0x81 loaded).1).1).1
transfer_completes_example =
    transfer_completes 0x81 6 ticks loaded (omega arith) (omega arith) refl refl (omega arith)
      (omega arith) (omega arith)

exchange_with_peer-Becomes_example :
    let out = exchange_with_peer sending answering in
    (out.0.completed ≡ true)
    × (out.0.self_interrupt_requested ≡ true)
    × (out.0.peer_interrupt_requested ≡ true)
    × IsServed sending 0xC3 out.1.0
    × IsServed answering 0x5A out.1.1
    × (out.1.1 ≡ (clock_external_byte 0x5A answering).1)
unfolding digit internal_clock
exchange_with_peer-Becomes_example =
    exchange_with_peer-Becomes sending answering (omega arith) (omega arith)
