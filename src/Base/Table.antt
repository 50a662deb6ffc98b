-- ===== src/Base/Table.antt =====
-- Facts about one byte, or about two small values, by evaluating a test at every value.
use Prim.Native.Nat.{ℕ, zero, suc, ◌<◌}
use mathlib.Core.Path.{◌≡◌}
use mathlib.Core.Bool.{Bool, true, false, ◌&&◌}
use kokura.Base.Word.{◌==◌, ==_iff}
use native.Mathlib.Omega.{arith}

unfoldable pub all_below : ℕ → (ℕ → Bool) → Bool
all_below zero p = true
all_below (suc n) p = p n && all_below n p

pub all_below_at : (n : ℕ) (p : ℕ → Bool) (x : ℕ) → all_below n p ≡ true → x < n → p x ≡ true
unfolding all_below
all_below_at zero p x h lt = absurd (omega arith)
all_below_at (suc n) p x h lt = ground (arith, all_below_at n p x)

abbrev pub bool_eq : Bool → Bool → Bool
bool_eq true b = b
bool_eq false true = false
bool_eq false false = true

pub bool_eq→eq : (a b : Bool) → bool_eq a b ≡ true → a ≡ b
bool_eq→eq a b h = ground arith

-- A function of a byte that agrees with another at all 256 values agrees with it.
pub byte_eq : (g k : ℕ → ℕ) → all_below 256 (λ x. g x == k x) ≡ true → (f : ℕ) → f < 256 → g f ≡ k f
byte_eq g k t f h = (==_iff (g f) (k f)).0 (all_below_at 256 (λ x. g x == k x) f t h)

pub byte_test :
    (g k : ℕ → Bool)
    → all_below 256 (λ x. bool_eq (g x) (k x)) ≡ true
    → (f : ℕ) → f < 256
    → g f ≡ k f
byte_test g k t f h = bool_eq→eq (g f) (k f) (all_below_at 256 (λ x. bool_eq (g x) (k x)) f t h)
