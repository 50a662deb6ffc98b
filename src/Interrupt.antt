-- ===== src/Interrupt.antt =====
-- Interrupt requests and their priority: crates/kokura-core/src/interrupt.rs.
pub mod Priority
mod Tests
use kokura.Base.{ℕ, bit_and, bit_or, Bool, ◌!=◌, Option, none, some, not8, has_bit, if◌then◌else◌}

abbrev pub int_vblank : ℕ
int_vblank = 0x01

abbrev pub int_lcd_stat : ℕ
int_lcd_stat = 0x02

abbrev pub int_timer : ℕ
int_timer = 0x04

abbrev pub int_serial : ℕ
int_serial = 0x08

abbrev pub int_joypad : ℕ
int_joypad = 0x10

pub record InterruptState : Type 0 where
  pub ie : ℕ
  pub iflag : ℕ

unfoldable pub request : ℕ → InterruptState → InterruptState
request mask s = record s { iflag = bit_or s.iflag mask }

unfoldable pub pending_mask : InterruptState → ℕ
pending_mask s = bit_and (bit_and s.ie s.iflag) 0x1F

unfoldable pub has_pending : InterruptState → Bool
has_pending s = pending_mask s != 0

-- The branches of `highest_priority`, on the pending mask.
unfoldable pub first_source : ℕ → Option (ℕ × ℕ)
first_source pending =
    if has_bit pending int_vblank
    then some (int_vblank, 0x0040)
    else if has_bit pending int_lcd_stat
    then some (int_lcd_stat, 0x0048)
    else if has_bit pending int_timer
    then some (int_timer, 0x0050)
    else if has_bit pending int_serial
    then some (int_serial, 0x0058)
    else if has_bit pending int_joypad
    then some (int_joypad, 0x0060)
    else none

unfoldable pub highest_priority : InterruptState → Option (ℕ × ℕ)
highest_priority s = first_source (pending_mask s)

unfoldable pub acknowledge : ℕ → InterruptState → InterruptState
acknowledge mask s = record s { iflag = bit_and s.iflag (not8 mask) }
