-- ===== src/Serial.antt =====
-- The serial port: crates/kokura-core/src/serial.rs. The traces are kept, since `tick_fast` is to
-- drop nothing else.
pub mod Loop
pub mod Transfer
pub mod Link
mod Tests
use kokura.Base.{
  ℕ, zero, suc, ◌+◌, ◌-◌, ◌*◌, ◌^◌, min, bit_and, bit_or, Bool, true, false, not, ◌&&◌, ◌||◌, List,
  [], ◌∷◌, ◌++◌, ◌==◌, leb, u8, u16, ◌<<<◌, not8, has_bit, if◌then◌else◌,
}

abbrev pub internal_bit_cycles : ℕ
internal_bit_cycles = 512

-- types.rs: `SerialTraceEvent`.
pub data SerialTraceEvent : Type 0 where
  transfer_start : ℕ → ℕ → Bool → SerialTraceEvent
  transfer_complete : ℕ → ℕ → Bool → SerialTraceEvent

pub record SerialTickResult : Type 0 where
  pub interrupt_requested : Bool
  pub trace : List SerialTraceEvent

pub record SerialLinkExchangeResult : Type 0 where
  pub completed : Bool
  pub self_interrupt_requested : Bool
  pub peer_interrupt_requested : Bool
  pub self_trace : List SerialTraceEvent
  pub peer_trace : List SerialTraceEvent

pub record SerialExternalClockResult : Type 0 where
  pub completed : Bool
  pub outgoing : ℕ
  pub interrupt_requested : Bool
  pub trace : List SerialTraceEvent

pub record Serial : Type 0 where
  pub sb : ℕ
  pub sc : ℕ
  pub cycle_accum : ℕ
  pub bits_remaining : ℕ
  pub transfer_active : Bool

abbrev pub default : Serial
default = record { sb = 0; sc = 0; cycle_accum = 0; bits_remaining = 0; transfer_active = false }

-- `u16::saturating_add`.
unfoldable pub saturating_add16 : ℕ → ℕ → ℕ
saturating_add16 a b = min (a + b) 65535

unfoldable pub read_sc : Serial → ℕ
read_sc s = bit_or s.sc 0x7E

unfoldable pub write_sb : ℕ → Serial → Serial
write_sb value s = record s { sb = value }

unfoldable pub internal_clock : Serial → Bool
internal_clock s = has_bit s.sc 0x01

unfoldable pub write_sc : ℕ → Serial → List SerialTraceEvent × Serial
write_sc value s =
    let s1 = record s { sc = bit_and value 0x83 } in
    if has_bit s1.sc 0x80
    then (let s2 = record s1 { transfer_active = true; bits_remaining = 8; cycle_accum = 0 } in
        (transfer_start s2.sb (read_sc s2) (internal_clock s2) ∷ [], s2))
    else ([], record s1 { transfer_active = false; bits_remaining = 0; cycle_accum = 0 })

-- One turn of the loop of `tick` and `tick_fast`, with the bits that remain after it.
unfoldable pub shift_bit : ℕ → Serial → Serial
shift_bit bits s = record s {
  cycle_accum = s.cycle_accum - internal_bit_cycles;
  sb = bit_or (u8 (s.sb <<< 1)) 1;
  bits_remaining = bits;
}

-- The transfer's end inside the loop.
unfoldable pub finish : Serial → Serial
finish s = record s { transfer_active = false; sc = bit_and s.sc (not8 0x80) }

-- The loop of `tick`: `bits` is `bits_remaining`, which each turn lowers by one.
unfoldable pub tick_loop : ℕ → Serial → SerialTickResult → SerialTickResult × Serial
tick_loop zero s out = (out, s)
tick_loop (suc bits) s out =
    let s1 = shift_bit bits s in
    let s2 = (if bits == 0 then finish s1 else s1) in
    let out1 =
      (if bits == 0
        then record {
          interrupt_requested = true;
          trace = out.trace ++ (transfer_complete s2.sb (read_sc s2) true ∷ []);
        }
        else out) in
    let rest = tick_loop bits s2 out1 in
    if leb internal_bit_cycles s.cycle_accum then rest else (out, s)

unfoldable pub tick : ℕ → Serial → SerialTickResult × Serial
tick cycles s =
    let out : SerialTickResult = record { interrupt_requested = false; trace = [] } in
    if not s.transfer_active || not (internal_clock s)
    then (out, s)
    else tick_loop s.bits_remaining
        (record s { cycle_accum = saturating_add16 s.cycle_accum (u16 cycles) }) out

unfoldable pub tick_fast_loop : ℕ → Serial → Bool × Serial
tick_fast_loop zero s = (false, s)
tick_fast_loop (suc bits) s =
    let s1 = shift_bit bits s in
    let rest = tick_fast_loop bits s1 in
    if leb internal_bit_cycles s.cycle_accum
    then (if bits == 0 then (true, finish s1) else rest)
    else (false, s)

unfoldable pub tick_fast : ℕ → Serial → Bool × Serial
tick_fast cycles s =
    if not s.transfer_active || not (internal_clock s)
    then (false, s)
    else tick_fast_loop s.bits_remaining
        (record s { cycle_accum = saturating_add16 s.cycle_accum (u16 cycles) })

unfoldable pub clock_external_byte : ℕ → Serial → SerialExternalClockResult × Serial
clock_external_byte incoming s =
    if not s.transfer_active || internal_clock s
    then (record { completed = false; outgoing = 0; interrupt_requested = false; trace = [] }, s)
    else (let s1 = record s {
      sb = incoming;
      sc = bit_and s.sc (not8 0x80);
      cycle_accum = 0;
      bits_remaining = 0;
      transfer_active = false;
    } in
        (
          record {
            completed = true;
            outgoing = s.sb;
            interrupt_requested = true;
            trace = transfer_complete s1.sb (read_sc s1) false ∷ [];
          },
          s1,
        ))

abbrev no_exchange : SerialLinkExchangeResult
no_exchange = record {
  completed = false;
  self_interrupt_requested = false;
  peer_interrupt_requested = false;
  self_trace = [];
  peer_trace = [];
}

unfoldable pub same : Bool → Bool → Bool
same true b = b
same false b = not b

-- Both ends are mutated: the result, this end and the peer.
unfoldable pub exchange_with_peer : Serial → Serial → SerialLinkExchangeResult × (Serial × Serial)
exchange_with_peer s peer =
    if not s.transfer_active || not peer.transfer_active
    then (no_exchange, (s, peer))
    else if same (internal_clock s) (internal_clock peer)
    then (no_exchange, (s, peer))
    else (let s1 = record s {
      sb = peer.sb;
      sc = bit_and s.sc (not8 0x80);
      cycle_accum = 0;
      bits_remaining = 0;
      transfer_active = false;
    } in
        let peer1 = record peer {
          sb = s.sb;
          sc = bit_and peer.sc (not8 0x80);
          cycle_accum = 0;
          bits_remaining = 0;
          transfer_active = false;
        } in
        (
          record {
            completed = true;
            self_interrupt_requested = true;
            peer_interrupt_requested = true;
            self_trace = transfer_complete s1.sb (read_sc s1) (internal_clock s1) ∷ [];
            peer_trace = transfer_complete peer1.sb (read_sc peer1) (internal_clock peer1) ∷ [];
          },
          (s1, peer1),
        ))
