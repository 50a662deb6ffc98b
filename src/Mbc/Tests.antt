-- ===== src/Mbc/Tests.antt =====
-- Instances of the theorems on the controllers, over two banks of RAM.
use kokura.Base.{
  ℕ, ◌+◌, ◌%◌, ◌≡◌, true, ◌&&◌, List, arith, ◌==◌, if◌then◌else◌, ◌-◌, ◌≤◌, [], ◌∷◌, refl,
  replicate, length-replicate, length, get_or, get_or-replicate, Bool, false, has_bit, leb, ◌||◌,
  ◌<◌,
}
use kokura.Mbc.Storage.Windows.{IsBanked}
use kokura.Mbc.Mbc1.{Mbc1}
use kokura.Mbc.Mbc1
use kokura.Mbc.Mbc2.{Mbc2}
use kokura.Mbc.Mbc2
use kokura.Mbc.Mbc3.{Rtc, Mbc3, advance_rtc_seconds}
use kokura.Mbc.Mbc3
use kokura.Mbc.Mbc7.{read_word}
use kokura.Mbc.Mbc7.State.{Mbc7, ram_enabled}
use kokura.Mbc.Mbc7.State
use kokura.Mbc.Eeprom.{join}
use kokura.Mbc.Eeprom.RoundTrip.{read_back, write_bits, read_back-write_bits}
use kokura.Mbc.Polling.{tick_all, latest, fit, tick_all-time}
use kokura.Mbc.Clock.{IsTime, time, span, advance_rtc_seconds-time}
use kokura.Mbc.Ram.{IsRamAddress, read_ram-write_ram1}

-- Zeroed RAM, kept folded.
blank : ℕ → List ℕ
blank n = replicate n 0

two_banks : IsBanked (blank 0x4000) 2 0x2000
unfolding blank
two_banks = record {
  some_bank = omega arith;
  some_byte = omega arith;
  whole = length-replicate {A = ℕ} 0x4000 0;
  indexed = omega arith;
}

in_window : IsRamAddress 0xA123
in_window = record { from = omega arith; to = omega arith }

abbrev bank_one : Mbc1
bank_one = record Mbc1.default { ram_bank = 1; ram_enabled = true; mode = 1 }

abbrev bank_three : Mbc1
bank_three = record Mbc1.default { ram_bank = 3; ram_enabled = true; mode = 1 }

abbrev nibbles : Mbc2
nibbles = record Mbc2.default { ram_enabled = true }

read_ram-write_ram1_example :
    Mbc1.read_ram bank_three (Mbc1.write_ram bank_one (blank 0x4000) 0xA123 0x42) 0xA123 ≡ (
      if true
        && (true
            && (Mbc1.current_ram_bank bank_one % 2 == Mbc1.current_ram_bank bank_three % 2
                && 0xA123 == 0xA123))
      then 0x42
      else Mbc1.read_ram bank_three (blank 0x4000) 0xA123)
read_ram-write_ram1_example =
    read_ram-write_ram1 bank_one bank_three (blank 0x4000) 0xA123 0xA123 2 0x42 two_banks in_window
      in_window

-- The last second of day 511.
abbrev last_second : Rtc
last_second = record { seconds = 59; minutes = 59; hours = 23; day_low = 0xFF; day_high = 0x01 }

last_second-IsTime : IsTime last_second
last_second-IsTime = record {
  seconds = omega arith;
  minutes = omega arith;
  hours = omega arith;
  day_low = omega arith;
  day_high = omega arith;
}

advance_rtc_seconds-time_example :
    let r' = advance_rtc_seconds 1 last_second in
    (time r' ≡ (time last_second + 1) % span)
    × (has_bit r'.day_high 0x80
        ≡ (has_bit last_second.day_high 0x80 || leb span (time last_second + 1)))
    × (has_bit r'.day_high 0x40 ≡ has_bit last_second.day_high 0x40)
    × IsTime r'
advance_rtc_seconds-time_example =
    advance_rtc_seconds-time 1 last_second last_second-IsTime (omega arith)

abbrev clock_set : Mbc3
clock_set = record (Mbc3.default 100) { rtc_registers = last_second }

-- The host's clock goes back once.
abbrev readings : List ℕ
readings = 101 ∷ 99 ∷ 163 ∷ []

tick_all-time_example :
    let m' = tick_all readings clock_set in
    let now = latest readings 100 in
    (m'.rtc_last_timestamp_secs ≡ now)
    × (100 ≤ now)
    × (time m'.rtc_registers ≡ (time last_second + (now - 100)) % span)
    × IsTime m'.rtc_registers
tick_all-time_example =
    tick_all-time readings clock_set last_second-IsTime refl (omega arith) (unfold fit in refl)

abbrev opened : Mbc7
opened = record State.default {
  ram_enable_1 = true;
  ram_enable_2 = true;
  eeprom_write_enabled = true;
}

opened_words : length opened.eeprom ≡ 256
unfolding State.default
opened_words = length-replicate {A = ℕ} 256 0xFF

opened_bytes : (i : ℕ) → get_or opened.eeprom i 0xFF < 256
unfolding State.default
opened_bytes i = omega (arith, get_or-replicate {A = ℕ} 256 i 0xFF)

-- The write and the read of word 1, and the word 1234.
abbrev store : List Bool
store = false ∷ true ∷ false ∷ false ∷ false ∷ false ∷ false ∷ false ∷ false ∷ true ∷ []

abbrev fetch : List Bool
fetch = true ∷ false ∷ false ∷ false ∷ false ∷ false ∷ false ∷ false ∷ false ∷ true ∷ []

abbrev word : List Bool
word =
    false ∷ false ∷ false ∷ true ∷ false ∷ false ∷ true ∷ false ∷ false ∷ false ∷ true ∷ true
    ∷ false ∷ true ∷ false ∷ false ∷ []

read_back-write_bits_example : read_back fetch (write_bits store word opened) ≡ (
    if opened.eeprom_write_enabled && join 0 store % 128 == join 0 fetch % 128
    then join 0 word
    else read_word (join 0 fetch % 128) opened)
read_back-write_bits_example =
    read_back-write_bits store word fetch opened (unfold ram_enabled in refl) opened_words
      opened_bytes refl refl refl (unfold join in omega arith) (unfold join in refl)
      (unfold join in omega arith) (unfold join in omega arith) (unfold join in refl)
