-- ===== src/Mbc/Eeprom/Begin.antt =====
-- A transaction of the EEPROM of MBC7, crates/kokura-core/src/mbc/mbc7.rs, from its start bit on.
use kokura.Base.{
  bit_or, Bool, true, false, u8_from, has_bit, if◌then◌else◌, ◌≡◌, refl, ap, ◌∙◌, Bool-cases, inl,
  inr,
}
use kokura.Mbc.Mbc7.{
  on_rising_clock, clock_in, idle_clock, clock_eeprom, write_ram, begin_transaction,
  end_transaction,
}
use kokura.Mbc.Mbc7.State.{
  Mbc7, EepromCommandMode, idle, collecting_command, ram_enabled, data_out, set_data_out,
}
use kokura.Mbc.Eeprom.{
  pulse, pulse_lem, IsSelected, pins, low_pins, selected_pins, with_io, write_ram-clock, Collects,
}
use kokura.Mbc.Eeprom.Bits.{begin}

-- A new transaction.
pub record Begins (m m' : Mbc7) : Type 0 where
  pub selected : IsSelected m'
  pub mode : m'.eeprom_command_mode ≡ idle
  pub words : m'.eeprom ≡ m.eeprom
  pub enabled : m'.eeprom_write_enabled ≡ m.eeprom_write_enabled
  pub address : m'.eeprom_pending_address ≡ m.eeprom_pending_address

raise_select :
    (o : Bool) (m : Mbc7)
    → clock_eeprom 0x80 (with_io (bit_or 0 (u8_from o)) m)
      ≡ with_io 0x81 (begin_transaction (with_io (bit_or 0 (u8_from o)) m))
unfolding clock_eeprom begin_transaction set_data_out data_out
raise_select true m = refl
raise_select false m = refl

drop_select :
    (m : Mbc7)
    → clock_eeprom 0x00 m
      ≡ with_io
          (bit_or 0
            (u8_from (data_out (if has_bit m.eeprom_io 0x80 then end_transaction m else m))))
          (if has_bit m.eeprom_io 0x80 then end_transaction m else m)
unfolding clock_eeprom
drop_select m = elim (Bool-cases (has_bit m.eeprom_io 0x80)) [
  | inl e ↦ rw e refl
  | inr e ↦ rw e refl
]

abbrev dropped : Mbc7 → Mbc7
dropped m = if has_bit m.eeprom_io 0x80 then end_transaction m else m

dropped_keeps :
    (m : Mbc7)
    → (ram_enabled (dropped m) ≡ ram_enabled m)
      × ((dropped m).eeprom ≡ m.eeprom)
      × ((dropped m).eeprom_write_enabled ≡ m.eeprom_write_enabled)
      × ((dropped m).eeprom_pending_address ≡ m.eeprom_pending_address)
unfolding end_transaction set_data_out ram_enabled
dropped_keeps m = elim (Bool-cases (has_bit m.eeprom_io 0x80)) [
  | inl e ↦ rw e (refl, refl, refl, refl)
  | inr e ↦ rw e (refl, refl, refl, refl)
]

pub begin-Begins : (m : Mbc7) → ram_enabled m ≡ true → Begins m (begin m)
unfolding begin begin_transaction set_data_out ram_enabled
begin-Begins m on =
    let o = data_out (dropped m) in
    let k = dropped_keeps m in
    let low = with_io (bit_or 0 (u8_from o)) (dropped m) in
    let first : write_ram 0xA080 0x00 m ≡ low = write_ram-clock 0x00 m on ∙ drop_select m in
    let all =
      ap (write_ram 0xA080 0x80) first
      ∙ write_ram-clock 0x80 low (k.0 ∙ on)
      ∙ raise_select o (dropped m) in
    rw all (record {
      selected = record { enabled = k.0 ∙ on; select = refl };
      mode = refl;
      words = k.1;
      enabled = k.2;
      address = k.3;
    })

pub start-Collects : (m m' : Mbc7) → Begins m m' → Collects collecting_command 0 0 m (pulse true m')
unfolding on_rising_clock clock_in idle_clock ram_enabled
start-Collects m m' b =
    let low = with_io (low_pins true (data_out m')) m' in
    let started : Mbc7 = record low {
      eeprom_command_started = true;
      eeprom_command_mode = collecting_command;
      eeprom_shift_register = 0;
      eeprom_bits_collected = 0;
    } in
    let clocked : clock_in m'.eeprom_command_mode true low ≡ started =
      ap (λ (k : EepromCommandMode). clock_in k true low) b.mode in
    let all =
      pulse_lem true m' b.selected
      ∙ ap (λ (x : Mbc7). with_io (pins true (data_out x)) x) clocked in
    rw all (record {
      selected = record { enabled = b.selected.enabled; select = selected_pins true _ };
      same_mode = refl;
      shift = refl;
      count = refl;
      words = b.words;
      enabled = b.enabled;
      address = b.address;
    })
