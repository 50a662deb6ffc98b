-- ===== src/Mbc/Mbc7/State.antt =====
-- The state of the controller of crates/kokura-core/src/mbc/mbc7.rs, with its gates and its data line.
use kokura.Base.{ℕ, bit_and, bit_or, Bool, false, ◌&&◌, List, has_bit, if◌then◌else◌, replicate}

pub data EepromCommandMode : Type 0 where
  idle : EepromCommandMode
  collecting_command : EepromCommandMode
  reading_word : EepromCommandMode
  writing_word : EepromCommandMode
  writing_all : EepromCommandMode

pub record Mbc7 : Type 0 where
  pub rom_bank : ℕ
  pub ram_enable_1 : Bool
  pub ram_enable_2 : Bool
  pub accel_latched : Bool
  pub accel_x : ℕ
  pub accel_y : ℕ
  pub eeprom_io : ℕ
  pub eeprom : List ℕ
  pub eeprom_write_enabled : Bool
  pub eeprom_command_mode : EepromCommandMode
  pub eeprom_command_started : Bool
  pub eeprom_shift_register : ℕ
  pub eeprom_bits_collected : ℕ
  pub eeprom_pending_address : ℕ
  pub eeprom_output_word : ℕ
  pub eeprom_output_bits_remaining : ℕ

unfoldable pub default : Mbc7
default = record {
  rom_bank = 1;
  ram_enable_1 = false;
  ram_enable_2 = false;
  accel_latched = false;
  accel_x = 0x8000;
  accel_y = 0x8000;
  eeprom_io = 0x01;
  eeprom = replicate 0x100 0xFF;
  eeprom_write_enabled = false;
  eeprom_command_mode = idle;
  eeprom_command_started = false;
  eeprom_shift_register = 0;
  eeprom_bits_collected = 0;
  eeprom_pending_address = 0;
  eeprom_output_word = 0;
  eeprom_output_bits_remaining = 0;
}

unfoldable pub ram_enabled : Mbc7 → Bool
ram_enabled m = m.ram_enable_1 && m.ram_enable_2

unfoldable pub data_out : Mbc7 → Bool
data_out m = has_bit m.eeprom_io 0x01

unfoldable pub set_data_out : Bool → Mbc7 → Mbc7
set_data_out high m = record m {
  eeprom_io = if high then bit_or m.eeprom_io 0x01 else bit_and m.eeprom_io 0xFE;
}
