-- ===== src/Mbc/Eeprom/Bits.antt =====
-- Words and addresses that go through the pins of the EEPROM of MBC7,
-- crates/kokura-core/src/mbc/mbc7.rs, a bit at a time.
use kokura.Base.{
  ℕ, zero, suc, ◌+◌, ◌-◌, ◌*◌, ◌/◌, ◌%◌, ◌<◌, ◌≤◌, bit_and, digit, bit_and-single, Bool, true,
  false, List, [], ◌∷◌, length, ltb, u8_from, u16, has_bit, arith, ◌≡◌, refl, ap, ◌∙◌,
}
use kokura.Mbc.Mbc7.{on_rising_clock, clock_in, reading_clock, read_word, write_ram, read_ram}
use kokura.Mbc.Mbc7.State.{
  Mbc7, EepromCommandMode, collecting_command, writing_word, ram_enabled, data_out, set_data_out,
}
use kokura.Mbc.Eeprom.{
  pulse, pulse_all, pulse_lem, pulse-Collects, join, pins, low_pins, selected_pins, with_io,
  Collects,
}
use kokura.Mbc.Eeprom.Words.{
  WritesTo, ReadsFrom, Written, tenth-WritesTo, tenth-ReadsFrom, sixteenth-Written,
}

-- CS low and then high: a new transaction.
unfoldable pub begin : Mbc7 → Mbc7
begin m = write_ram 0xA080 0x80 (write_ram 0xA080 0x00 m)

-- `n` bits read after others, a pulse for each.
unfoldable pub read_bits : ℕ → ℕ → Mbc7 → ℕ
read_bits zero acc m = acc
read_bits (suc n) acc m =
    let m1 = pulse false m in read_bits n (acc * 2 + bit_and (read_ram m1 0xA080) 0x01) m1

pub collect-WritesTo :
    (bs : List Bool) (value n : ℕ) (m0 m : Mbc7)
    → Collects collecting_command value n m0 m
    → n + length bs ≡ 10
    → 1 ≤ length bs
    → join value bs < 1024
    → join value bs / 256 ≡ 1
    → WritesTo (join value bs % 128) m0 (pulse_all bs m)
unfolding pulse_all join
collect-WritesTo [] value n m0 m c l p h o = absurd (omega arith)
collect-WritesTo (b ∷ []) value n m0 m c l p h o =
    let nine : n ≡ 9 = omega arith in tenth-WritesTo b value m0 m (rw nine at c) h o
collect-WritesTo (b ∷ b' ∷ bs) value n m0 m c l p h o =
    collect-WritesTo (b' ∷ bs) (value * 2 + u8_from b) (n + 1) m0 (pulse b m)
      (pulse-Collects collecting_command b value n m0 m c (omega arith) (omega arith)) (omega arith)
      (omega arith) h o

pub collect-ReadsFrom :
    (bs : List Bool) (value n : ℕ) (m0 m : Mbc7)
    → Collects collecting_command value n m0 m
    → n + length bs ≡ 10
    → 1 ≤ length bs
    → join value bs < 1024
    → join value bs / 256 ≡ 2
    → ReadsFrom (read_word (join value bs % 128) m0) 16 (pulse_all bs m)
unfolding pulse_all join
collect-ReadsFrom [] value n m0 m c l p h o = absurd (omega arith)
collect-ReadsFrom (b ∷ []) value n m0 m c l p h o =
    let nine : n ≡ 9 = omega arith in tenth-ReadsFrom b value m0 m (rw nine at c) h o
collect-ReadsFrom (b ∷ b' ∷ bs) value n m0 m c l p h o =
    collect-ReadsFrom (b' ∷ bs) (value * 2 + u8_from b) (n + 1) m0 (pulse b m)
      (pulse-Collects collecting_command b value n m0 m c (omega arith) (omega arith)) (omega arith)
      (omega arith) h o

pub collect-Written :
    (bs : List Bool) (value n a : ℕ) (m0 m1 m : Mbc7)
    → WritesTo a m0 m1
    → Collects writing_word value n m1 m
    → n + length bs ≡ 16
    → 1 ≤ length bs
    → join value bs < 65536
    → Written a (join value bs) m0 (pulse_all bs m)
unfolding pulse_all join
collect-Written [] value n a m0 m1 m w c l p h = absurd (omega arith)
collect-Written (b ∷ []) value n a m0 m1 m w c l p h =
    let last : n ≡ 15 = omega arith in sixteenth-Written b value a m0 m1 m w (rw last at c) h
collect-Written (b ∷ b' ∷ bs) value n a m0 m1 m w c l p h =
    collect-Written (b' ∷ bs) (value * 2 + u8_from b) (n + 1) a m0 m1 (pulse b m) w
      (pulse-Collects writing_word b value n m1 m c (omega arith) (omega arith)) (omega arith)
      (omega arith) h

top_bit : (w : ℕ) → w < 65536 → u8_from (has_bit w 0x8000) ≡ w / 32768
unfolding digit
top_bit w h = ground (arith, bit_and-single 15 w)

read_pin :
    (h : Bool) (m : Mbc7)
    → ram_enabled m ≡ true
    → bit_and (read_ram (with_io (pins false h) m) 0xA080) 0x01 ≡ u8_from h
unfolding read_ram ram_enabled
read_pin true m on = rw on refl
read_pin false m on = rw on refl

out_pin : (h o : Bool) (m : Mbc7) → data_out (set_data_out h (with_io (low_pins false o) m)) ≡ h
unfolding data_out set_data_out
out_pin true true m = refl
out_pin true false m = refl
out_pin false true m = refl
out_pin false false m = refl

-- A pulse that reads: the highest bit left is on the pin, and the others move up.
reads-pulse :
    (word n acc : ℕ) (m : Mbc7)
    → ReadsFrom word (suc n) m
    → word < 65536
    → ReadsFrom (word * 2 % 65536) n (pulse false m)
      × (bit_and (read_ram (pulse false m) 0xA080) 0x01 ≡ word / 32768)
unfolding on_rising_clock clock_in reading_clock set_data_out ram_enabled data_out
reads-pulse word n acc m r h =
    let low = with_io (low_pins false (data_out m)) m in
    let high = has_bit word 0x8000 in
    let next : Mbc7 = record (set_data_out high low) {
      eeprom_output_word = u16 (word * 2);
      eeprom_output_bits_remaining = n;
    } in
    let some_left : ltb 0 m.eeprom_output_bits_remaining ≡ true = ground (arith, r.bits_left) in
    let one_less : m.eeprom_output_bits_remaining - 1 ≡ n = omega (arith, r.bits_left) in
    let clocked : clock_in m.eeprom_command_mode false low ≡ next =
      ap (λ (k : EepromCommandMode). clock_in k false low) r.mode
      ∙ rw (some_left, one_less, r.word_left) refl in
    let all =
      pulse_lem false m r.selected
      ∙ ap (λ (x : Mbc7). with_io (pins false (data_out x)) x) clocked
      ∙ ap (λ (b : Bool). with_io (pins false b) next) (out_pin high (data_out m) m) in
    rw all (
      record {
        selected = record { enabled = r.selected.enabled; select = selected_pins false high };
        mode = r.mode;
        word_left = refl;
        bits_left = refl;
      },
      read_pin high next r.selected.enabled ∙ top_bit word h,
    )

-- `x` doubled `n` times.
abbrev doubled : ℕ → ℕ → ℕ
doubled zero x = x
doubled (suc n) x = doubled n (x * 2)

read_bits-word :
    (n word acc : ℕ) (m : Mbc7)
    → ReadsFrom word n m
    → word < 65536
    → (rest : ℕ) × (rest < 65536)
      × (read_bits n acc m * 65536 + rest ≡ doubled n (acc * 65536 + word))
unfolding read_bits
read_bits-word zero word acc m r h = (word, h, refl)
read_bits-word (suc n) word acc m r h =
    let p = reads-pulse word n acc m r h in
    let bit = bit_and (read_ram (pulse false m) 0xA080) 0x01 in
    let (rest, small, ih) =
      read_bits-word n (word * 2 % 65536) (acc * 2 + bit) (pulse false m) p.0 (omega arith) in
    let whole : (acc * 2 + bit) * 65536 + word * 2 % 65536 ≡ (acc * 65536 + word) * 2 =
      omega (arith, p.1, h) in
    (rest, small, ih ∙ ap (doubled n) whole)

pub read_bits_lem :
    (word : ℕ) (m : Mbc7) → ReadsFrom word 16 m → word < 65536 → read_bits 16 0 m ≡ word
read_bits_lem word m r h =
    let (rest, small, e) = read_bits-word 16 word 0 m r h in omega (arith, small, e)
