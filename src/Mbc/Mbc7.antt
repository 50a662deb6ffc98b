-- ===== src/Mbc/Mbc7.antt =====
-- The controller of crates/kokura-core/src/mbc/mbc7.rs: an accelerometer and a serial EEPROM of 128
-- words behind one byte of pins. Its operations take cartridge RAM that they do not use, left out.
pub mod State
use kokura.Base.{
  ℕ, zero, suc, ◌+◌, ◌-◌, ◌*◌, ◌/◌, ◌%◌, min, bit_and, bit_or, Bool, true, false, not, ◌&&◌, List,
  ◌==◌, ltb, u8, u8_from, u16, u32, ◌<<<◌, ◌>>>◌, has_bit, in_range, if◌then◌else◌, get_or, set,
  replicate, length,
}
use kokura.Mbc.Storage.{read_rom_bank}
use kokura.Mbc.Mbc7.State.{
  EepromCommandMode, idle, collecting_command, reading_word, writing_word, writing_all, Mbc7,
  ram_enabled, data_out, set_data_out,
}

unfoldable pub current_rom_bank : Mbc7 → ℕ
current_rom_bank m = m.rom_bank

unfoldable pub current_ram_bank : Mbc7 → ℕ
current_ram_bank m = 0

unfoldable pub read_rom : Mbc7 → List ℕ → ℕ → ℕ
read_rom m rom addr =
    if in_range 0x0000 0x3FFF addr
    then get_or rom addr 0xFF
    else if in_range 0x4000 0x7FFF addr
    then read_rom_bank rom m.rom_bank 0x4000 (addr - 0x4000)
    else 0xFF

unfoldable pub read_ram : Mbc7 → ℕ → ℕ
read_ram m addr =
    let register = bit_and (addr >>> 4) 0x0F in
    if not (ram_enabled m)
    then 0xFF
    else if register == 0x2
    then u8 m.accel_x
    else if register == 0x3
    then u8 (m.accel_x >>> 8)
    else if register == 0x4
    then u8 m.accel_y
    else if register == 0x5
    then u8 (m.accel_y >>> 8)
    else if register == 0x6
    then 0x00
    else if register == 0x7
    then 0xFF
    else if register == 0x8
    then bit_and m.eeprom_io 0xC3
    else 0xFF

-- The two transactions' ends reset alike.
unfoldable pub begin_transaction : Mbc7 → Mbc7
begin_transaction m = set_data_out true (record m {
  eeprom_command_started = false;
  eeprom_command_mode = idle;
  eeprom_shift_register = 0;
  eeprom_bits_collected = 0;
  eeprom_output_bits_remaining = 0;
})

unfoldable pub end_transaction : Mbc7 → Mbc7
end_transaction m = set_data_out true (record m {
  eeprom_command_started = false;
  eeprom_command_mode = idle;
  eeprom_shift_register = 0;
  eeprom_bits_collected = 0;
  eeprom_output_bits_remaining = 0;
})

unfoldable pub push_bit : Bool → Mbc7 → Mbc7
push_bit high m = record m {
  eeprom_shift_register = bit_or (u32 (m.eeprom_shift_register <<< 1)) (u8_from high);
  eeprom_bits_collected = min 255 (m.eeprom_bits_collected + 1);
}

unfoldable pub read_word : ℕ → Mbc7 → ℕ
read_word address m =
    let index = address * 2 in get_or m.eeprom index 0xFF * 256 + get_or m.eeprom (index + 1) 0xFF

unfoldable pub write_word : ℕ → ℕ → Mbc7 → Mbc7
write_word address value m =
    let index = address * 2 in
    record m { eeprom = set (set m.eeprom index (value / 256)) (index + 1) (value % 256) }

-- `for address in 0..n`.
unfoldable pub write_words : ℕ → ℕ → Mbc7 → Mbc7
write_words zero value m = m
write_words (suc address) value m = write_word address value (write_words address value m)

unfoldable pub decode_command : Mbc7 → Mbc7
decode_command m =
    let bits = bit_and (u16 m.eeprom_shift_register) 0x03FF in
    let opcode = bit_and (bits >>> 8) 0x03 in
    let m1 = record m { eeprom_shift_register = 0; eeprom_bits_collected = 0 } in
    let address = u8 (bit_and bits 0x7F) in
    let global = bit_and (bits >>> 6) 0x0F in
    if opcode == 2
    then record m1 {
      eeprom_pending_address = address;
      eeprom_output_word = read_word address m1;
      eeprom_output_bits_remaining = 16;
      eeprom_command_mode = reading_word;
    }
    else if opcode == 1
    then record m1 { eeprom_pending_address = address; eeprom_command_mode = writing_word }
    else if opcode == 3
    then (let m2 = record m1 { eeprom_pending_address = address } in
        let m3 = if m2.eeprom_write_enabled then write_word address 0xFFFF m2 else m2 in
        set_data_out true (record m3 { eeprom_command_mode = idle }))
    else set_data_out true (
        if global == 0
        then record m1 { eeprom_write_enabled = false }
        else if global == 1
        then record m1 { eeprom_command_mode = writing_all }
        else if global == 2
        then record m1 {
          eeprom = if m1.eeprom_write_enabled then replicate (length m1.eeprom) 0xFF else m1.eeprom;
          eeprom_command_mode = idle;
        }
        else if global == 3
        then record m1 { eeprom_write_enabled = true }
        else m1)

-- The arms of `on_rising_clock`.
unfoldable pub idle_clock : Bool → Mbc7 → Mbc7
idle_clock di m =
    if di
    then record m {
      eeprom_command_started = true;
      eeprom_command_mode = collecting_command;
      eeprom_shift_register = 0;
      eeprom_bits_collected = 0;
    }
    else m

unfoldable pub command_clock : Bool → Mbc7 → Mbc7
command_clock di m =
    let m1 = push_bit di m in if m1.eeprom_bits_collected == 10 then decode_command m1 else m1

unfoldable pub reading_clock : Mbc7 → Mbc7
reading_clock m =
    if ltb 0 m.eeprom_output_bits_remaining
    then (let m1 = set_data_out (has_bit m.eeprom_output_word 0x8000) m in
        record m1 {
          eeprom_output_word = u16 (m1.eeprom_output_word <<< 1);
          eeprom_output_bits_remaining = m1.eeprom_output_bits_remaining - 1;
        })
    else set_data_out true m

unfoldable pub writing_clock : Bool → Mbc7 → Mbc7
writing_clock di m =
    let m1 = push_bit di m in
    let word = u16 m1.eeprom_shift_register in
    let m2 = if m1.eeprom_write_enabled then write_word m1.eeprom_pending_address word m1 else m1 in
    if m1.eeprom_bits_collected == 16
    then set_data_out true (record m2 { eeprom_command_mode = idle })
    else m1

unfoldable pub writing_all_clock : Bool → Mbc7 → Mbc7
writing_all_clock di m =
    let m1 = push_bit di m in
    let word = u16 m1.eeprom_shift_register in
    let m2 = if m1.eeprom_write_enabled then write_words 0x80 word m1 else m1 in
    if m1.eeprom_bits_collected == 16
    then set_data_out true (record m2 { eeprom_command_mode = idle })
    else m1

unfoldable pub clock_in : EepromCommandMode → Bool → Mbc7 → Mbc7
clock_in idle di m = idle_clock di m
clock_in collecting_command di m = command_clock di m
clock_in reading_word di m = reading_clock m
clock_in writing_word di m = writing_clock di m
clock_in writing_all di m = writing_all_clock di m

unfoldable pub on_rising_clock : Bool → Mbc7 → Mbc7
on_rising_clock di m = clock_in m.eeprom_command_mode di m

unfoldable pub clock_eeprom : ℕ → Mbc7 → Mbc7
clock_eeprom value m =
    let next_io = bit_and value 0xC2 in
    let old_cs = has_bit m.eeprom_io 0x80 in
    let old_clk = has_bit m.eeprom_io 0x40 in
    let new_cs = has_bit next_io 0x80 in
    let new_clk = has_bit next_io 0x40 in
    let di = has_bit next_io 0x02 in
    let m1 = if not old_cs && new_cs then begin_transaction m else m in
    let m2 = if new_cs && (not old_clk && new_clk) then on_rising_clock di m1 else m1 in
    let m3 = if old_cs && not new_cs then end_transaction m2 else m2 in
    record m3 { eeprom_io = bit_or next_io (u8_from (data_out m3)) }

unfoldable pub write_ram : ℕ → ℕ → Mbc7 → Mbc7
write_ram addr value m =
    let register = bit_and (addr >>> 4) 0x0F in
    if not (ram_enabled m)
    then m
    else if register == 0x0
    then (if value == 0x55
        then record m { accel_latched = false; accel_x = 0x8000; accel_y = 0x8000 }
        else m)
    else if register == 0x1
    then (if value == 0xAA && not m.accel_latched
        then record m { accel_latched = true; accel_x = 0x81D0; accel_y = 0x81D0 }
        else m)
    else if register == 0x8
    then clock_eeprom value m
    else m

unfoldable pub write : ℕ → ℕ → Mbc7 → Mbc7
write addr value m =
    if in_range 0x0000 0x1FFF addr
    then record m { ram_enable_1 = bit_and value 0x0F == 0x0A }
    else if in_range 0x2000 0x3FFF addr
    then record m { rom_bank = bit_and value 0x7F }
    else if in_range 0x4000 0x5FFF addr
    then record m { ram_enable_2 = value == 0x40 }
    else m

unfoldable pub tick : ℕ → Mbc7 → Mbc7
tick cycles m = m
