-- ===== src/Base/Int.antt =====
-- Signed machine integers, as far as the mixer of the sound unit uses them.
use Prim.Native.Nat.{ℕ, zero, suc, ◌+◌, ◌-◌, ◌*◌, ◌/◌, min}
use mathlib.Core.Bool.{Bool, false}
use kokura.Base.Word.{leb, ◌==◌, if◌then◌else◌}

infixl 60 ◌+ℤ◌ ◌-ℤ◌
infixl 70 ◌*ℤ◌
pub data ℤ : Type 0 where
  pos : ℕ → ℤ
  negsuc : ℕ → ℤ

-- `a - b` of two numbers that are not negative.
unfoldable pub diff : ℕ → ℕ → ℤ
diff a b = if leb b a then pos (a - b) else negsuc (b - a - 1)

unfoldable pub neg : ℤ → ℤ
neg (pos zero) = pos zero
neg (pos (suc n)) = negsuc n
neg (negsuc n) = pos (suc n)

unfoldable pub ◌+ℤ◌ : ℤ → ℤ → ℤ
pos a +ℤ pos b = pos (a + b)
pos a +ℤ negsuc b = diff a (b + 1)
negsuc a +ℤ pos b = diff b (a + 1)
negsuc a +ℤ negsuc b = negsuc (a + b + 1)

unfoldable pub ◌-ℤ◌ : ℤ → ℤ → ℤ
a -ℤ b = a +ℤ neg b

-- A product with a factor that is not negative, and Rust's `/`, which rounds toward zero.
unfoldable pub ◌*ℤ◌ : ℤ → ℕ → ℤ
pos a *ℤ k = pos (a * k)
negsuc a *ℤ k = neg (pos ((a + 1) * k))

unfoldable pub quot : ℤ → ℕ → ℤ
quot (pos a) k = pos (a / k)
quot (negsuc a) k = neg (pos ((a + 1) / k))

-- `saturating_add` on i32 takes the sum to its nearest value.
unfoldable pub saturate32 : ℤ → ℤ
saturate32 (pos a) = pos (min a 0x7FFFFFFF)
saturate32 (negsuc a) = negsuc (min a 0x7FFFFFFF)

unfoldable pub equal : ℤ → ℤ → Bool
equal (pos a) (pos b) = a == b
equal (negsuc a) (negsuc b) = a == b
equal (pos a) (negsuc b) = false
equal (negsuc a) (pos b) = false
