-- ===== src/Mbc/Eeprom.antt =====
-- The serial protocol of the EEPROM of MBC7, driven through its pins.
pub mod RoundTrip
pub mod Bits
pub mod Words
pub mod Begin
use kokura.Base.{
  ℕ, zero, suc, ◌+◌, ◌-◌, ◌*◌, ◌/◌, ◌%◌, ◌^◌, ◌<◌, ◌≤◌, min, bit_and, bit_or, bit_or_join,
  bit_and_low, Bool, true, false, not, ◌&&◌, List, [], ◌∷◌, ◌==◌, leb, ltb, u8, u8_from, u16, u32,
  ◌<<<◌, has_bit, if◌then◌else◌, arith, ◌≡◌, refl, ap, sym, ◌∙◌, Bool-cases, inl, inr,
}
use kokura.Mbc.Mbc7.{
  on_rising_clock, clock_in, push_bit, idle_clock, command_clock, writing_clock, reading_clock,
  writing_all_clock, decode_command, read_word, write_word, clock_eeprom, write_ram, read_ram,
  begin_transaction, end_transaction,
}
use kokura.Mbc.Mbc7.State.{
  Mbc7, EepromCommandMode, idle, collecting_command, reading_word, writing_word, ram_enabled,
  data_out, set_data_out, writing_all,
}

-- A low and then a high clock with one input bit, CS held.
unfoldable pub pulse : Bool → Mbc7 → Mbc7
pulse di m =
    let low = bit_or 0x80 (if di then 0x02 else 0x00) in
    write_ram 0xA080 (bit_or low 0x40) (write_ram 0xA080 low m)

-- CS is high, with the pins in their bits.
pub record IsSelected (m : Mbc7) : Type 0 where
  pub enabled : ram_enabled m ≡ true
  pub select : has_bit m.eeprom_io 0x80 ≡ true

-- The pins of a high clock, with the bits in and out.
abbrev pub pins : Bool → Bool → ℕ
pins di out = bit_or (if di then 0xC2 else 0xC0) (u8_from out)

abbrev pub low_pins : Bool → Bool → ℕ
low_pins di out = bit_or (if di then 0x82 else 0x80) (u8_from out)

abbrev pub with_io : ℕ → Mbc7 → Mbc7
with_io n m = record m { eeprom_io = n }

pub write_ram-clock :
    (v : ℕ) (m : Mbc7) → ram_enabled m ≡ true → write_ram 0xA080 v m ≡ clock_eeprom v m
unfolding write_ram
write_ram-clock v m on = rw on refl

-- A low clock with CS held moves the pins and nothing else.
low_lem :
    (di : Bool) (m : Mbc7)
    → has_bit m.eeprom_io 0x80 ≡ true
    → clock_eeprom (bit_or 0x80 (if di then 0x02 else 0x00)) m
      ≡ with_io (low_pins di (data_out m)) m
unfolding clock_eeprom
low_lem true m s = elim (Bool-cases (has_bit m.eeprom_io 0x40)) [
  | inl c ↦ rw (s, c) refl
  | inr c ↦ rw (s, c) refl
]
low_lem false m s = elim (Bool-cases (has_bit m.eeprom_io 0x40)) [
  | inl c ↦ rw (s, c) refl
  | inr c ↦ rw (s, c) refl
]

high_lem :
    (di o : Bool) (m : Mbc7)
    → let m1 = on_rising_clock di (with_io (low_pins di o) m) in
      clock_eeprom
        (bit_or (bit_or 0x80 (if di then 0x02 else 0x00)) 0x40)
        (with_io (low_pins di o) m)
      ≡ with_io (pins di (data_out m1)) m1
unfolding clock_eeprom
high_lem true true m = refl
high_lem true false m = refl
high_lem false true m = refl
high_lem false false m = refl

-- A pulse is a rising clock.
pub pulse_lem :
    (di : Bool) (m : Mbc7)
    → IsSelected m
    → let m1 = on_rising_clock di (with_io (low_pins di (data_out m)) m) in
      pulse di m ≡ with_io (pins di (data_out m1)) m1
unfolding pulse ram_enabled
pulse_lem di m s =
    let low = bit_or 0x80 (if di then 0x02 else 0x00) in
    let lowered = with_io (low_pins di (data_out m)) m in
    let first : write_ram 0xA080 low m ≡ lowered =
      write_ram-clock low m s.enabled ∙ low_lem di m s.select in
    ap (write_ram 0xA080 (bit_or low 0x40)) first
    ∙ write_ram-clock (bit_or low 0x40) lowered s.enabled
    ∙ high_lem di (data_out m) m

unfoldable pub pulse_all : List Bool → Mbc7 → Mbc7
pulse_all [] m = m
pulse_all (b ∷ bs) m = pulse_all bs (pulse b m)

-- The number that bits make after others, the highest first.
unfoldable pub join : ℕ → List Bool → ℕ
join acc [] = acc
join acc (b ∷ bs) = join (acc * 2 + u8_from b) bs

-- The bits that a mode collects.
abbrev pub limit : EepromCommandMode → ℕ
limit collecting_command = 10
limit writing_word = 16
limit mode = 0

pub selected_pins : (di o : Bool) → has_bit (pins di o) 0x80 ≡ true
selected_pins true true = refl
selected_pins true false = refl
selected_pins false true = refl
selected_pins false false = refl

push_count :
    (di : Bool) (m : Mbc7)
    → (push_bit di m).eeprom_bits_collected ≡ min 255 (m.eeprom_bits_collected + 1)
unfolding push_bit
push_count di m = refl

clock_push :
    (mode : EepromCommandMode) (di : Bool) (m : Mbc7)
    → m.eeprom_bits_collected + 1 < limit mode
    → clock_in mode di m ≡ push_bit di m
unfolding clock_in command_clock writing_clock
clock_push idle di m h = absurd (omega arith)
clock_push reading_word di m h = absurd (omega arith)
clock_push writing_all di m h = absurd (omega arith)
clock_push collecting_command di m h =
    let more : ((push_bit di m).eeprom_bits_collected == 10) ≡ false =
      ground (arith, push_count di m) in
    rw more refl
clock_push writing_word di m h =
    let more : ((push_bit di m).eeprom_bits_collected == 16) ≡ false =
      ground (arith, push_count di m) in
    rw more refl

shifted :
    (s : ℕ) (di : Bool) → bit_or (u32 (s <<< 1)) (u8_from di) ≡ (s * 2 + u8_from di) % 4294967296
shifted s di =
    let even : u32 (s <<< 1) ≡ (s % 2147483648) * 2 ^ 1 = omega arith in
    let bit : u8_from di < 2 ^ 1 = ground arith in
    let joined = bit_or_join 1 (s % 2147483648) (u8_from di) bit in
    ap (λ (x : ℕ). bit_or x (u8_from di)) even ∙ joined ∙ omega (arith, bit)

-- What collecting bits changes, from `m` to `m'`.
pub record Collects (mode : EepromCommandMode) (value n : ℕ) (m m' : Mbc7) : Type 0 where
  pub selected : IsSelected m'
  pub same_mode : m'.eeprom_command_mode ≡ mode
  pub shift : m'.eeprom_shift_register ≡ value % 4294967296
  pub count : m'.eeprom_bits_collected ≡ n
  pub words : m'.eeprom ≡ m.eeprom
  pub enabled : m'.eeprom_write_enabled ≡ m.eeprom_write_enabled
  pub address : m'.eeprom_pending_address ≡ m.eeprom_pending_address

pub pulse-Collects :
    (mode : EepromCommandMode) (di : Bool) (value n : ℕ) (m0 m : Mbc7)
    → Collects mode value n m0 m
    → n + 1 < limit mode
    → n < 16
    → Collects mode (value * 2 + u8_from di) (n + 1) m0 (pulse di m)
unfolding on_rising_clock push_bit ram_enabled
pulse-Collects mode di value n m0 m c h small =
    let low = with_io (low_pins di (data_out m)) m in
    let moved : on_rising_clock di low ≡ push_bit di low =
      ap (λ (k : EepromCommandMode). clock_in k di low) c.same_mode
      ∙ clock_push mode di low (omega (arith, c.count)) in
    let all : pulse di m ≡ with_io (pins di (data_out (push_bit di low))) (push_bit di low) =
      pulse_lem di m c.selected ∙ ap (λ (x : Mbc7). with_io (pins di (data_out x)) x) moved in
    rw all (record {
      selected = record { enabled = c.selected.enabled; select = selected_pins di _ };
      same_mode = c.same_mode;
      shift = shifted m.eeprom_shift_register di ∙ omega (arith, c.shift);
      count = omega (arith, c.count);
      words = c.words;
      enabled = c.enabled;
      address = c.address;
    })

-- The last bit that a mode collects, in the state that it clocks.
pulse_last :
    (mode : EepromCommandMode) (di : Bool) (value n : ℕ) (m0 m : Mbc7)
    → Collects mode value n m0 m
    → let low = with_io (low_pins di (data_out m)) m in
      let r = clock_in mode di low in pulse di m ≡ with_io (pins di (data_out r)) r
unfolding on_rising_clock
pulse_last mode di value n m0 m c =
    let low = with_io (low_pins di (data_out m)) m in
    pulse_lem di m c.selected
    ∙ ap
        (λ (k : EepromCommandMode).
          with_io (pins di (data_out (clock_in k di low))) (clock_in k di low))
        c.same_mode
