-- ===== src/Mbc/Eeprom/Words.antt =====
-- The commands of the EEPROM of MBC7, crates/kokura-core/src/mbc/mbc7.rs, once their last bit is
-- in.
use kokura.Base.{
  ℕ, ◌+◌, ◌*◌, ◌/◌, ◌%◌, ◌^◌, ◌<◌, bit_and, bit_and_low, Bool, true, ◌==◌, u8, u8_from, u16,
  if◌then◌else◌, arith, ◌≡◌, refl, ap, ◌∙◌, Bool-cases, inl, inr,
}
use kokura.Mbc.Mbc7.{
  clock_in, push_bit, command_clock, writing_clock, decode_command, read_word, write_word,
}
use kokura.Mbc.Mbc7.State.{
  Mbc7, idle, collecting_command, reading_word, writing_word, ram_enabled, data_out, set_data_out,
}
use kokura.Mbc.Eeprom.{
  pulse, IsSelected, pins, low_pins, with_io, selected_pins, push_count, shifted, Collects,
  pulse_last,
}

-- A write is armed for a word.
pub record WritesTo (a : ℕ) (m m' : Mbc7) : Type 0 where
  pub collects : Collects writing_word 0 0 m' m'
  pub words : m'.eeprom ≡ m.eeprom
  pub enabled : m'.eeprom_write_enabled ≡ m.eeprom_write_enabled
  pub address : m'.eeprom_pending_address ≡ a

-- A word is ready to be read.
pub record ReadsFrom (word n : ℕ) (m' : Mbc7) : Type 0 where
  pub selected : IsSelected m'
  pub mode : m'.eeprom_command_mode ≡ reading_word
  pub word_left : m'.eeprom_output_word ≡ word
  pub bits_left : m'.eeprom_output_bits_remaining ≡ n

-- The command in the shift register.
command_value : (s v : ℕ) → s ≡ v % 4294967296 → v < 1024 → bit_and (u16 s) 0x03FF ≡ v
command_value s v e h = omega (arith, bit_and_low 10 (u16 s))

opcode_value : (v : ℕ) → v < 1024 → bit_and (v / 2 ^ 8) 0x03 ≡ v / 256
opcode_value v h = omega (arith, bit_and_low 2 (v / 256))

decode_write :
    (m : Mbc7) (v : ℕ)
    → m.eeprom_shift_register ≡ v % 4294967296
    → v < 1024
    → v / 256 ≡ 1
    → decode_command m ≡ record m {
      eeprom_shift_register = 0;
      eeprom_bits_collected = 0;
      eeprom_pending_address = v % 128;
      eeprom_command_mode = writing_word;
    }
unfolding decode_command
decode_write m v s h o =
    let c = command_value m.eeprom_shift_register v s h in
    let k : bit_and (v / 2 ^ 8) 0x03 ≡ 1 = opcode_value v h ∙ o in
    let a : u8 (bit_and v 0x7F) ≡ v % 128 = omega (arith, bit_and_low 7 v) in rw (c, k, a) refl

decode_read :
    (m : Mbc7) (v : ℕ)
    → m.eeprom_shift_register ≡ v % 4294967296
    → v < 1024
    → v / 256 ≡ 2
    → decode_command m ≡ record m {
      eeprom_shift_register = 0;
      eeprom_bits_collected = 0;
      eeprom_pending_address = v % 128;
      eeprom_output_word = read_word (v % 128) m;
      eeprom_output_bits_remaining = 16;
      eeprom_command_mode = reading_word;
    }
unfolding decode_command read_word
decode_read m v s h o =
    let c = command_value m.eeprom_shift_register v s h in
    let k : bit_and (v / 2 ^ 8) 0x03 ≡ 2 = opcode_value v h ∙ o in
    let a : u8 (bit_and v 0x7F) ≡ v % 128 = omega (arith, bit_and_low 7 v) in rw (c, k, a) refl

command_last :
    (di : Bool) (m : Mbc7)
    → m.eeprom_bits_collected ≡ 9
    → clock_in collecting_command di m ≡ decode_command (push_bit di m)
unfolding clock_in command_clock
command_last di m n =
    let full : ((push_bit di m).eeprom_bits_collected == 10) ≡ true =
      ground (arith, push_count di m, n) in
    rw full refl

pub tenth-WritesTo :
    (di : Bool) (value : ℕ) (m0 m : Mbc7)
    → Collects collecting_command value 9 m0 m
    → value * 2 + u8_from di < 1024
    → (value * 2 + u8_from di) / 256 ≡ 1
    → WritesTo ((value * 2 + u8_from di) % 128) m0 (pulse di m)
unfolding push_bit ram_enabled
tenth-WritesTo di value m0 m c h o =
    let low = with_io (low_pins di (data_out m)) m in
    let v = value * 2 + u8_from di in
    let shift : (push_bit di low).eeprom_shift_register ≡ v % 4294967296 =
      shifted m.eeprom_shift_register di ∙ omega (arith, c.shift) in
    let decoded = command_last di low c.count ∙ decode_write (push_bit di low) v shift h o in
    let all =
      pulse_last collecting_command di value 9 m0 m c
      ∙ ap (λ (x : Mbc7). with_io (pins di (data_out x)) x) decoded in
    rw all (record {
      collects = record {
        selected = record { enabled = c.selected.enabled; select = selected_pins di _ };
        same_mode = refl;
        shift = refl;
        count = refl;
        words = refl;
        enabled = refl;
        address = refl;
      };
      words = c.words;
      enabled = c.enabled;
      address = refl;
    })

pub tenth-ReadsFrom :
    (di : Bool) (value : ℕ) (m0 m : Mbc7)
    → Collects collecting_command value 9 m0 m
    → value * 2 + u8_from di < 1024
    → (value * 2 + u8_from di) / 256 ≡ 2
    → ReadsFrom (read_word ((value * 2 + u8_from di) % 128) m0) 16 (pulse di m)
unfolding push_bit ram_enabled read_word
tenth-ReadsFrom di value m0 m c h o =
    let low = with_io (low_pins di (data_out m)) m in
    let v = value * 2 + u8_from di in
    let shift : (push_bit di low).eeprom_shift_register ≡ v % 4294967296 =
      shifted m.eeprom_shift_register di ∙ omega (arith, c.shift) in
    let decoded = command_last di low c.count ∙ decode_read (push_bit di low) v shift h o in
    let all =
      pulse_last collecting_command di value 9 m0 m c
      ∙ ap (λ (x : Mbc7). with_io (pins di (data_out x)) x) decoded in
    rw all (record {
      selected = record { enabled = c.selected.enabled; select = selected_pins di _ };
      mode = refl;
      word_left = rw c.words refl;
      bits_left = refl;
    })

-- The sixteenth bit of a word.
pub record Written (a w : ℕ) (m m' : Mbc7) : Type 0 where
  pub selected : IsSelected m'
  pub words : m'.eeprom ≡ (if m.eeprom_write_enabled then write_word a w m else m).eeprom

-- The word in the shift register, stored where writes are enabled.
abbrev stored : Mbc7 → Mbc7
stored m =
    if m.eeprom_write_enabled
    then write_word m.eeprom_pending_address (u16 m.eeprom_shift_register) m
    else m

stored-words :
    (a w : ℕ) (p m : Mbc7)
    → p.eeprom_write_enabled ≡ m.eeprom_write_enabled
    → p.eeprom_pending_address ≡ a
    → u16 p.eeprom_shift_register ≡ w
    → p.eeprom ≡ m.eeprom
    → ((stored p).eeprom ≡ (if m.eeprom_write_enabled then write_word a w m else m).eeprom)
      × (ram_enabled (stored p) ≡ ram_enabled p)
unfolding write_word ram_enabled
stored-words a w p m e ad wd eq = elim (Bool-cases m.eeprom_write_enabled) [
  | inl on ↦ rw (e, on, ad, wd, eq) (refl, refl)
  | inr off ↦ rw (e, off) (eq, refl)
]

writing_last :
    (di : Bool) (m : Mbc7)
    → m.eeprom_bits_collected ≡ 15
    → clock_in writing_word di m
      ≡ set_data_out true (record (stored (push_bit di m)) { eeprom_command_mode = idle })
unfolding clock_in writing_clock
writing_last di m n =
    let full : ((push_bit di m).eeprom_bits_collected == 16) ≡ true =
      ground (arith, push_count di m, n) in
    rw full refl

pub sixteenth-Written :
    (di : Bool) (value a : ℕ) (m0 m1 m : Mbc7)
    → WritesTo a m0 m1
    → Collects writing_word value 15 m1 m
    → value * 2 + u8_from di < 65536
    → Written a (value * 2 + u8_from di) m0 (pulse di m)
unfolding push_bit ram_enabled set_data_out
sixteenth-Written di value a m0 m1 m w c h =
    let low = with_io (low_pins di (data_out m)) m in
    let v = value * 2 + u8_from di in
    let shift : u16 (push_bit di low).eeprom_shift_register ≡ v =
      omega (arith, shifted m.eeprom_shift_register di, c.shift) in
    let all =
      pulse_last writing_word di value 15 m1 m c
      ∙ ap (λ (x : Mbc7). with_io (pins di (data_out x)) x) (writing_last di low c.count) in
    let s =
      stored-words a v (push_bit di low) m0 (c.enabled ∙ w.enabled) (c.address ∙ w.address) shift
        (c.words ∙ w.words) in
    rw all (record {
      selected = record { enabled = s.1 ∙ c.selected.enabled; select = selected_pins di _ };
      words = s.0;
    })
