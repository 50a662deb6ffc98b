-- ===== src/Joypad/Edge.antt =====
-- When the pad asks for an interrupt.
use kokura.Base.{
  ℕ, ◌<◌, bit_and, bit_or, bit_xor, Bool, true, false, not, ◌&&◌, ◌||◌, arith, ◌≡◌, refl, ◌∙◌, List,
  [], ◌∷◌, ◌++◌, ◌==◌, ◌!=◌, digit, digit-lt, digit-and, digit-xor, if◌then◌else◌, all_below,
  all_below_at, bool_eq, bool_eq→eq, bit_and-le, bit_or-lt,
}
use kokura.Joypad.{
  Joypad, JoypadTraceEvent, interrupt_edge_event, input_edge, selection_write, read_p1,
  interrupt_edge, set_mask, write_p1,
}
use kokura.Joypad.Lines.{pressed, read_p1-pressed}

-- Line `k` falls from high to low.
abbrev pub falls : ℕ → ℕ → ℕ → Bool
falls k old_p1 new_p1 = digit k old_p1 == 1 && digit k new_p1 == 0

abbrev pub any_line : (ℕ → Bool) → Bool
any_line p = p 0 || (p 1 || (p 2 || p 3))

nibble : (x : ℕ) → x < 16 → (x != 0) ≡ any_line (λ k. digit k x == 1)
nibble x h =
    bool_eq→eq _ _
      (all_below_at 16 (λ x. bool_eq (x != 0) (any_line (λ k. digit k x == 1))) x table h)
  where
    table : all_below 16 (λ x. bool_eq (x != 0) (any_line (λ k. digit k x == 1))) ≡ true
    table = unfold all_below digit in refl

edge-digit :
    (k old_p1 new_p1 : ℕ)
    → digit k 0x0F ≡ 1
    → (digit k (bit_and (bit_and (bit_xor old_p1 new_p1) old_p1) 0x0F) == 1) ≡ falls k old_p1 new_p1
edge-digit k o n e = ground (
  arith,
  digit-and k (bit_and (bit_xor o n) o) 0x0F,
  digit-and k (bit_xor o n) o,
  digit-xor k o n,
  digit-lt k o,
  digit-lt k n,
)

-- `interrupt_edge` holds exactly when one of the four input lines falls from high to low.
pub interrupt_edge-falls :
    (old_p1 new_p1 : ℕ) → interrupt_edge old_p1 new_p1 ≡ any_line (λ k. falls k old_p1 new_p1)
unfolding interrupt_edge
interrupt_edge-falls o n =
    let x = bit_and (bit_and (bit_xor o n) o) 0x0F in
    let lines = nibble x (omega (arith, bit_and-le (bit_and (bit_xor o n) o) 0x0F)) in
    let d0 = edge-digit 0 o n (unfold digit in refl) in
    let d1 = edge-digit 1 o n (unfold digit in refl) in
    let d2 = edge-digit 2 o n (unfold digit in refl) in
    let d3 = edge-digit 3 o n (unfold digit in refl) in rw (lines, d0, d1, d2, d3) refl

-- The trace has an interrupt edge.
abbrev pub asks : List JoypadTraceEvent → Bool
asks [] = false
asks (interrupt_edge_event p1 ∷ events) = true
asks (input_edge m n p1 ∷ events) = asks events
asks (selection_write o n ∷ events) = asks events

-- Line `k` turns from released to pressed.
abbrev pub goes_down : ℕ → Joypad → Joypad → Bool
goes_down k before after = not (pressed k before) && pressed k after

falls-goes_down :
    (k : ℕ) (j j' : Joypad)
    → k < 4
    → j.mask < 256
    → j.p1 < 256
    → j'.mask < 256
    → j'.p1 < 256
    → falls k (read_p1 j) (read_p1 j') ≡ goes_down k j j'
falls-goes_down k j j' hk a b c d =
    ground (arith, read_p1-pressed k j hk a b, read_p1-pressed k j' hk c d, digit-lt k (read_p1 j'))

edge-goes_down :
    (j j' : Joypad)
    → j.mask < 256
    → j.p1 < 256
    → j'.mask < 256
    → j'.p1 < 256
    → interrupt_edge (read_p1 j) (read_p1 j') ≡ any_line (λ k. goes_down k j j')
edge-goes_down j j' a b c d =
    let f : (k : ℕ) → k < 4 → falls k (read_p1 j) (read_p1 j') ≡ goes_down k j j' =
      λ k h. falls-goes_down k j j' h a b c d in
    interrupt_edge-falls (read_p1 j) (read_p1 j')
    ∙ rw (f 0 (omega arith), f 1 (omega arith), f 2 (omega arith), f 3 (omega arith)) refl

asks-input :
    (b e : Bool) (m n p q : ℕ)
    → asks (
        (if b then input_edge m n p ∷ [] else [])
        ++ (if e then interrupt_edge_event q ∷ [] else []))
      ≡ e
asks-input true true m n p q = refl
asks-input true false m n p q = refl
asks-input false true m n p q = refl
asks-input false false m n p q = refl

asks-selection :
    (b e : Bool) (m n q : ℕ)
    → asks (
        (if b then selection_write m n ∷ [] else [])
        ++ (if e then interrupt_edge_event q ∷ [] else []))
      ≡ e
asks-selection true true m n q = refl
asks-selection true false m n q = refl
asks-selection false true m n q = refl
asks-selection false false m n q = refl

-- On bytes, `set_mask` asks for an interrupt exactly when one of the four lines had no pressed
-- button in a selected group and has one after it.
pub set_mask-asks :
    (mask : ℕ) (j : Joypad)
    → mask < 256
    → j.mask < 256
    → j.p1 < 256
    → asks (set_mask mask j).0 ≡ any_line (λ k. goes_down k j (set_mask mask j).1)
unfolding set_mask
set_mask-asks mask j h hm hp =
    asks-input _ _ _ _ _ _ ∙ edge-goes_down j (record j { mask = mask }) hm hp h hp

-- On bytes, `write_p1` asks for an interrupt exactly when selecting the groups gives one of the
-- four lines a pressed button that it had not before.
pub write_p1-asks :
    (value : ℕ) (j : Joypad)
    → j.mask < 256
    → j.p1 < 256
    → asks (write_p1 value j).0 ≡ any_line (λ k. goes_down k j (write_p1 value j).1)
unfolding write_p1
write_p1-asks value j hm hp =
    asks-selection _ _ _ _ _
    ∙ edge-goes_down j _ hm hp hm (
        bit_or-lt 8 (bit_or 0xC0 (bit_and value 0x30)) 0x0F
          (bit_or-lt 8 0xC0 (bit_and value 0x30) (omega arith)
            (omega (arith, bit_and-le value 0x30)))
          (omega arith))
