-- ===== src/Joypad/Lines.antt =====
-- The four input lines that P1 shows.
use kokura.Base.{
  ℕ, ◌+◌, ◌^◌, ◌<◌, bit_and, bit_or, Bool, true, false, not, ◌&&◌, ◌||◌, arith, ◌≡◌, refl, ◌==◌,
  has_bit, digit, digit-and, digit-or, if◌then◌else◌, all_below, all_below_at, bool_eq, bool_eq→eq,
  byte_test,
}
use kokura.Joypad.{Joypad, direction_lines, button_lines, read_p1}

-- The button of line `k` in each group: right, left, up, down and A, B, select, start.
abbrev pub pressed : ℕ → Joypad → Bool
pressed k j =
    not (has_bit j.p1 0x10) && has_bit j.mask (2 ^ k)
    || not (has_bit j.p1 0x20) && has_bit j.mask (2 ^ (4 + k))

abbrev lines : Bool → Bool → ℕ → ℕ
lines d b mask =
    let lower1 = (if d then 0x0F else direction_lines mask 0x0F) in
    if b then lower1 else button_lines mask lower1

abbrev line_test : Bool → Bool → ℕ → ℕ → Bool
line_test d b k mask =
    bool_eq (digit k (lines d b mask) == 1)
      (not (not d && has_bit mask (2 ^ k) || not b && has_bit mask (2 ^ (4 + k))))

lines-digit :
    (d b : Bool) (k mask : ℕ)
    → k < 4
    → mask < 256
    → (digit k (lines d b mask) == 1)
      ≡ not (not d && has_bit mask (2 ^ k) || not b && has_bit mask (2 ^ (4 + k)))
lines-digit d b k mask hk hm = bool_eq→eq _ _ (
    all_below_at 256 (line_test d b k) mask
      (all_below_at 4 (λ k. all_below 256 (line_test d b k)) k (table d b) hk) hm)
  where
    table : (d b : Bool) → all_below 4 (λ k. all_below 256 (line_test d b k)) ≡ true
    table true true = unfold all_below digit in refl
    table true false = unfold all_below digit button_lines in refl
    table false true = unfold all_below digit direction_lines in refl
    table false false = unfold all_below digit direction_lines button_lines in refl

select_right : (p : ℕ) → p < 256 → has_bit (bit_and p 0x30) 0x10 ≡ has_bit p 0x10
unfolding all_below
select_right = byte_test (λ p. has_bit (bit_and p 0x30) 0x10) (λ p. has_bit p 0x10) refl

select_left : (p : ℕ) → p < 256 → has_bit (bit_and p 0x30) 0x20 ≡ has_bit p 0x20
unfolding all_below
select_left = byte_test (λ p. has_bit (bit_and p 0x30) 0x20) (λ p. has_bit p 0x20) refl

high_digits : (k : ℕ) → k < 4 → (digit k 0xC0 == 0 && digit k 0x30 == 0) ≡ true
high_digits k h = all_below_at 4 (λ k. digit k 0xC0 == 0 && digit k 0x30 == 0) k table h
  where
    table : all_below 4 (λ k. digit k 0xC0 == 0 && digit k 0x30 == 0) ≡ true
    table = unfold all_below digit in refl

read_p1-low :
    (k : ℕ) (j : Joypad)
    → k < 4
    → digit k (read_p1 j)
      ≡ digit k (lines (has_bit (bit_and j.p1 0x30) 0x10) (has_bit (bit_and j.p1 0x30) 0x20) j.mask)
unfolding read_p1
read_p1-low k j h =
    let lower =
      lines (has_bit (bit_and j.p1 0x30) 0x10) (has_bit (bit_and j.p1 0x30) 0x20) j.mask in
    ground (
      arith,
      high_digits k h,
      digit-or k (bit_or 0xC0 (bit_and j.p1 0x30)) lower,
      digit-or k 0xC0 (bit_and j.p1 0x30),
      digit-and k j.p1 0x30,
    )

-- On bytes, line `k` of P1 reads low exactly when a button of that line is pressed in a selected
-- group; a group that is not selected pulls nothing low.
pub read_p1-pressed :
    (k : ℕ) (j : Joypad)
    → k < 4
    → j.mask < 256
    → j.p1 < 256
    → (digit k (read_p1 j) == 1) ≡ not (pressed k j)
read_p1-pressed k j hk hm hp =
    rw (read_p1-low k j hk, select_right j.p1 hp, select_left j.p1 hp)
      (lines-digit (has_bit j.p1 0x10) (has_bit j.p1 0x20) k j.mask hk hm)
