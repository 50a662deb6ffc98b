-- ===== src/Joypad/Tests.antt =====
-- Instances of the theorems on the pad.
use kokura.Base.{◌≡◌, refl, not, arith, ◌==◌, digit}
use kokura.Joypad.{Joypad, read_p1}
use kokura.Joypad.Lines.{pressed, read_p1-pressed}

-- The directions are selected and left is held.
abbrev left_held : Joypad
left_held = record { mask = 0x02; p1 = 0xEF }

left_reads : read_p1 left_held ≡ 0xED
unfolding read_p1
left_reads = refl

read_p1-pressed_example : (digit 1 (read_p1 left_held) == 1) ≡ not (pressed 1 left_held)
read_p1-pressed_example = read_p1-pressed 1 left_held (omega arith) (omega arith) (omega arith)
