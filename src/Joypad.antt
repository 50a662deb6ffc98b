-- ===== src/Joypad.antt =====
-- The button matrix behind P1: crates/kokura-core/src/joypad.rs. A method on `&mut self` returns
-- the trace and the new record.
pub mod Lines
pub mod Edge
mod Tests
use kokura.Base.{
  ℕ, bit_and, bit_or, bit_xor, Bool, not, ◌!=◌, List, [], ◌∷◌, ◌++◌, not8, has_bit, if◌then◌else◌,
}

-- types.rs: `JoypadTraceEvent`.
pub data JoypadTraceEvent : Type 0 where
  input_edge : ℕ → ℕ → ℕ → JoypadTraceEvent
  selection_write : ℕ → ℕ → JoypadTraceEvent
  interrupt_edge_event : ℕ → JoypadTraceEvent

pub record Joypad : Type 0 where
  pub mask : ℕ
  pub p1 : ℕ

abbrev pub default : Joypad
default = record { mask = 0; p1 = 0xCF }

-- `if mask & button != 0 { lower &= !line }`.
unfoldable pub pull : ℕ → ℕ → ℕ → ℕ → ℕ
pull mask button line lower = if has_bit mask button then bit_and lower (not8 line) else lower

-- The two groups of `read_p1`, each on the lines so far.
unfoldable pub direction_lines : ℕ → ℕ → ℕ
unfolding pull
direction_lines mask lower =
    pull mask 0x08 0x08 (pull mask 0x04 0x04 (pull mask 0x02 0x02 (pull mask 0x01 0x01 lower)))

unfoldable pub button_lines : ℕ → ℕ → ℕ
unfolding pull
button_lines mask lower =
    pull mask 0x80 0x08 (pull mask 0x40 0x04 (pull mask 0x20 0x02 (pull mask 0x10 0x01 lower)))

unfoldable pub read_p1 : Joypad → ℕ
unfolding direction_lines button_lines
read_p1 j =
    let select = bit_and j.p1 0x30 in
    let lower1 = (if has_bit select 0x10 then 0x0F else direction_lines j.mask 0x0F) in
    let lower2 = (if has_bit select 0x20 then lower1 else button_lines j.mask lower1) in
    bit_or (bit_or 0xC0 select) lower2

unfoldable pub interrupt_edge : ℕ → ℕ → Bool
interrupt_edge old_p1 new_p1 = bit_and (bit_and (bit_xor old_p1 new_p1) old_p1) 0x0F != 0

unfoldable pub set_mask : ℕ → Joypad → List JoypadTraceEvent × Joypad
set_mask mask j =
    let old_p1 = read_p1 j in
    let j1 = record j { mask = mask } in
    let new_p1 = read_p1 j1 in
    (
      (if j.mask != mask then input_edge j.mask mask new_p1 ∷ [] else [])
          ++ (if interrupt_edge old_p1 new_p1 then interrupt_edge_event new_p1 ∷ [] else []),
      j1,
    )

unfoldable pub write_p1 : ℕ → Joypad → List JoypadTraceEvent × Joypad
write_p1 value j =
    let old_p1 = read_p1 j in
    let j1 = record j { p1 = bit_or (bit_or 0xC0 (bit_and value 0x30)) 0x0F } in
    let new_p1 = read_p1 j1 in
    (
      (if bit_and old_p1 0x30 != bit_and new_p1 0x30
            then selection_write old_p1 new_p1 ∷ []
            else [])
          ++ (if interrupt_edge old_p1 new_p1 then interrupt_edge_event new_p1 ∷ [] else []),
      j1,
    )
