-- ===== src/Base/Digit.antt =====
-- The binary digits of a number, and those of `&`, `|` and `^`.
use Prim.Native.Nat.{ℕ, zero, suc, ◌+◌, ◌*◌, ◌/◌, ◌%◌, ◌^◌, ◌<◌, min, max}
use Prim.Native.Nat.{bit_and, bit_or, bit_xor}
use mathlib.Core.Path.{◌≡◌, refl, ap}
use mathlib.Core.Bool.{true}
use native.Mathlib.Nat.{pow-suc}
use native.Mathlib.Omega.{arith}
use kokura.Base.Word.{has_bit, ◌==◌}
use kokura.Base.Bits.{bit_and_digit, bit_or_digit, bit_xor_digit, bit_and-zero}
use kokura.Base.Table.{all_below, all_below_at, bool_eq, bool_eq→eq}

-- Digit `k`.
unfoldable pub digit : ℕ → ℕ → ℕ
digit zero x = x % 2
digit (suc k) x = digit k (x / 2)

pub digit-lt : (k x : ℕ) → digit k x < 2
unfolding digit
digit-lt zero x = omega arith
digit-lt (suc k) x = digit-lt k (x / 2)

pub digit-and : (k a b : ℕ) → digit k (bit_and a b) ≡ min (digit k a) (digit k b)
unfolding digit
digit-and zero a b = omega (arith, bit_and_digit a b)
digit-and (suc k) a b =
    let e : bit_and a b / 2 ≡ bit_and (a / 2) (b / 2) = omega (arith, bit_and_digit a b) in
    rw e (digit-and k (a / 2) (b / 2))

pub digit-or : (k a b : ℕ) → digit k (bit_or a b) ≡ max (digit k a) (digit k b)
unfolding digit
digit-or zero a b = omega (arith, bit_or_digit a b)
digit-or (suc k) a b =
    let e : bit_or a b / 2 ≡ bit_or (a / 2) (b / 2) = omega (arith, bit_or_digit a b) in
    rw e (digit-or k (a / 2) (b / 2))

pub digit-xor : (k a b : ℕ) → digit k (bit_xor a b) ≡ (digit k a + digit k b) % 2
unfolding digit
digit-xor zero a b = omega (arith, bit_xor_digit a b)
digit-xor (suc k) a b =
    let e : bit_xor a b / 2 ≡ bit_xor (a / 2) (b / 2) = omega (arith, bit_xor_digit a b) in
    rw e (digit-xor k (a / 2) (b / 2))

-- `x & 1 << k != 0` asks for a digit.
pub has_bit-digit : (k x : ℕ) → k < 8 → x < 256 → has_bit x (2 ^ k) ≡ (digit k x == 1)
has_bit-digit k x hk hx = bool_eq→eq _ _ (
    all_below_at 256 (λ x. bool_eq (has_bit x (2 ^ k)) (digit k x == 1)) x
      (all_below_at 8 (λ k. all_below 256 (λ x. bool_eq (has_bit x (2 ^ k)) (digit k x == 1))) k
        table hk)
      hx)
  where
    table :
        all_below 8 (λ k. all_below 256 (λ x. bool_eq (has_bit x (2 ^ k)) (digit k x == 1))) ≡ true
    table = unfold all_below digit in refl

-- `x & 1 << k`.
pub bit_and-single : (k x : ℕ) → bit_and x (2 ^ k) ≡ digit k x * 2 ^ k
unfolding digit
bit_and-single zero x = omega (arith, bit_and_digit x 1, bit_and-zero (x / 2))
bit_and-single (suc k) x =
    let half : 2 ^ suc k / 2 ≡ 2 ^ k = omega (arith, pow-suc 2 k) in
    let rest : bit_and (x / 2) (2 ^ suc k / 2) ≡ digit k (x / 2) * 2 ^ k =
      rw half (bit_and-single k (x / 2)) in
    omega (
      arith,
      bit_and_digit x (2 ^ suc k),
      pow-suc 2 k,
      rest,
      ap (λ (t : ℕ). digit k (x / 2) * t) (pow-suc 2 k),
    )
