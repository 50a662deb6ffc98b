-- ===== src/Mbc/Mbc3.antt =====
-- The controller of crates/kokura-core/src/mbc/mbc3.rs with its clock. The host's time, which
-- `unix_now_secs` reads, is the argument `now` of every operation that reads it. The five bytes of
-- `rtc_registers` are the fields of `Rtc`, in their order.
use kokura.Base.{
  ℕ, ◌+◌, ◌-◌, ◌/◌, ◌%◌, bit_and, bit_or, Bool, false, not, ◌&&◌, List, ◌==◌, leb, ltb, u8, ◌<<<◌,
  ◌>>>◌, has_bit, in_range, if◌then◌else◌, get_or,
}
use kokura.Mbc.Storage.{read_rom_bank, read_ram_bank, write_ram_bank}

pub record Rtc : Type 0 where
  pub seconds : ℕ
  pub minutes : ℕ
  pub hours : ℕ
  pub day_low : ℕ
  pub day_high : ℕ

pub record Mbc3 : Type 0 where
  pub rom_bank : ℕ
  pub ram_bank : ℕ
  pub ram_enabled : Bool
  pub rtc_registers : Rtc
  pub rtc_latched_registers : Rtc
  pub latch_value : ℕ
  pub rtc_last_timestamp_secs : ℕ

abbrev pub u64 : ℕ → ℕ
u64 n = n % 18446744073709551616

abbrev pub zero_rtc : Rtc
zero_rtc = record { seconds = 0; minutes = 0; hours = 0; day_low = 0; day_high = 0 }

abbrev pub default : ℕ → Mbc3
default now = record {
  rom_bank = 1;
  ram_bank = 0;
  ram_enabled = false;
  rtc_registers = zero_rtc;
  rtc_latched_registers = zero_rtc;
  latch_value = 0;
  rtc_last_timestamp_secs = now;
}

unfoldable pub current_rom_bank : Mbc3 → ℕ
current_rom_bank m = if m.rom_bank == 0 then 1 else m.rom_bank

unfoldable pub current_ram_bank : Mbc3 → ℕ
current_ram_bank m = bit_and m.ram_bank 0x03

unfoldable pub read_rom : Mbc3 → List ℕ → ℕ → ℕ
read_rom m rom addr =
    if in_range 0x0000 0x3FFF addr
    then get_or rom addr 0xFF
    else if in_range 0x4000 0x7FFF addr
    then read_rom_bank rom (current_rom_bank m) 0x4000 (addr - 0x4000)
    else 0xFF

-- `rtc[index]`, for the indices 0 to 4.
unfoldable pub register : Rtc → ℕ → ℕ
register r index =
    if index == 0
    then r.seconds
    else if index == 1
    then r.minutes
    else if index == 2
    then r.hours
    else if index == 3
    then r.day_low
    else r.day_high

unfoldable pub read_ram : Mbc3 → List ℕ → ℕ → ℕ
read_ram m ram addr =
    if not m.ram_enabled
    then 0xFF
    else if in_range 0x08 0x0C m.ram_bank
    then register m.rtc_latched_registers (m.ram_bank - 0x08)
    else read_ram_bank ram (current_ram_bank m) 0x2000 (addr - 0xA000)

-- The last statements of `advance_rtc_seconds`, on the days counted.
unfoldable pub with_days : ℕ → Rtc → Rtc
with_days total_days r =
    let wrapped_days = bit_and total_days 0x01FF in
    let day_high = bit_or (bit_and r.day_high 0xFE) (bit_and (u8 (wrapped_days >>> 8)) 0x01) in
    record r {
      day_low = u8 wrapped_days;
      day_high = if ltb 0x01FF total_days then bit_or day_high 0x80 else day_high;
    }

unfoldable pub advance_rtc_seconds : ℕ → Rtc → Rtc
advance_rtc_seconds elapsed_seconds r =
    if elapsed_seconds == 0
    then r
    else (let seconds = u64 (r.seconds + elapsed_seconds) in
        let minutes = r.minutes + seconds / 60 in
        let hours = r.hours + minutes / 60 in
        let current_days = bit_or r.day_low (bit_and r.day_high 0x01 <<< 8) in
        let total_days = current_days + hours / 24 in
        with_days total_days
          (record r { seconds = seconds % 60; minutes = minutes % 60; hours = hours % 24 }))

unfoldable pub update_rtc : ℕ → Mbc3 → Mbc3
update_rtc now m =
    if leb now m.rtc_last_timestamp_secs
    then m
    else (let elapsed = now - m.rtc_last_timestamp_secs in
        let m1 = record m { rtc_last_timestamp_secs = now } in
        if has_bit m1.rtc_registers.day_high 0x40
        then m1
        else record m1 { rtc_registers = advance_rtc_seconds elapsed m1.rtc_registers })

-- `rtc_registers[index] = value`, and the same slot of the latched copy.
unfoldable pub put_register : ℕ → ℕ → Rtc → Rtc
put_register index value r =
    if index == 0
    then record r { seconds = value }
    else if index == 1
    then record r { minutes = value }
    else if index == 2
    then record r { hours = value }
    else if index == 3
    then record r { day_low = value }
    else record r { day_high = value }

unfoldable pub write_rtc_register : ℕ → ℕ → Mbc3 → Mbc3
write_rtc_register index value m =
    let normal =
      (if index == 0
        then value % 60
        else if index == 1
        then value % 60
        else if index == 2
        then value % 24
        else if index == 3
        then value
        else bit_or (bit_and value 0xC1) (bit_and (register m.rtc_registers index) 0x3E)) in
    record m {
      rtc_registers = put_register index normal m.rtc_registers;
      rtc_latched_registers = put_register index normal m.rtc_latched_registers;
    }

-- The RAM and the controller, both of which a write may change.
unfoldable pub write_ram : ℕ → List ℕ → ℕ → ℕ → Mbc3 → List ℕ × Mbc3
write_ram now ram addr value m =
    if not m.ram_enabled
    then (ram, m)
    else (let m1 = update_rtc now m in
        if in_range 0x08 0x0C m1.ram_bank
        then (ram, write_rtc_register (m1.ram_bank - 0x08) value m1)
        else (write_ram_bank ram (current_ram_bank m1) 0x2000 (addr - 0xA000) value, m1))

unfoldable pub write : ℕ → ℕ → ℕ → Mbc3 → Mbc3
write now addr value m =
    let m1 = update_rtc now m in
    if in_range 0x0000 0x1FFF addr
    then record m1 { ram_enabled = bit_and value 0x0F == 0x0A }
    else if in_range 0x2000 0x3FFF addr
    then (let bank = bit_and value 0x7F in record m1 { rom_bank = if bank == 0 then 1 else bank })
    else if in_range 0x4000 0x5FFF addr
    then record m1 { ram_bank = value }
    else if in_range 0x6000 0x7FFF addr
    then record m1 {
      rtc_latched_registers =
          if m1.latch_value == 0 && value == 1 then m1.rtc_registers else m1.rtc_latched_registers;
      latch_value = value;
    }
    else m1

unfoldable pub tick : ℕ → ℕ → Mbc3 → Mbc3
tick now cycles m = update_rtc now m
