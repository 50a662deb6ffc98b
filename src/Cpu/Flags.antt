-- ===== src/Cpu/Flags.antt =====
-- The flag byte in arithmetic.
use kokura.Base.{
  ℕ, ◌+◌, ◌*◌, ◌/◌, ◌%◌, ◌≤◌, ◌<◌, bit_and, bit_or, Bool, true, false, arith, ◌≡◌, refl,
}
use kokura.Base.{has_bit, ◌==◌, u8_from, all_below, byte_eq, byte_test, ◌∙◌}
use kokura.Cpu.Regs.{flag_z, flag_n, flag_h, flag_c, set_z, set_n, set_h, set_c}

pub flag_z-bit : (f : ℕ) → f < 256 → flag_z f ≡ (f / 128 % 2 == 1)
unfolding flag_z all_below
flag_z-bit = byte_test (λ f. has_bit f 128) (λ f. f / 128 % 2 == 1) refl

pub flag_n-bit : (f : ℕ) → f < 256 → flag_n f ≡ (f / 64 % 2 == 1)
unfolding flag_n all_below
flag_n-bit = byte_test (λ f. has_bit f 64) (λ f. f / 64 % 2 == 1) refl

pub flag_h-bit : (f : ℕ) → f < 256 → flag_h f ≡ (f / 32 % 2 == 1)
unfolding flag_h all_below
flag_h-bit = byte_test (λ f. has_bit f 32) (λ f. f / 32 % 2 == 1) refl

pub flag_c-bit : (f : ℕ) → f < 256 → flag_c f ≡ (f / 16 % 2 == 1)
unfolding flag_c all_below
flag_c-bit = byte_test (λ f. has_bit f 16) (λ f. f / 16 % 2 == 1) refl

pub set_z-sum : (b : Bool) (f : ℕ) → f < 256 → set_z b f ≡ f / 256 * 256 + u8_from b * 128 + f % 128
unfolding set_z all_below
set_z-sum true = byte_eq (λ f. bit_or f 128) (λ f. f / 256 * 256 + 1 * 128 + f % 128) refl
set_z-sum false = byte_eq (λ f. bit_and f 127) (λ f. f / 256 * 256 + 0 * 128 + f % 128) refl

pub set_n-sum : (b : Bool) (f : ℕ) → f < 256 → set_n b f ≡ f / 128 * 128 + u8_from b * 64 + f % 64
unfolding set_n all_below
set_n-sum true = byte_eq (λ f. bit_or f 64) (λ f. f / 128 * 128 + 1 * 64 + f % 64) refl
set_n-sum false = byte_eq (λ f. bit_and f 191) (λ f. f / 128 * 128 + 0 * 64 + f % 64) refl

pub set_h-sum : (b : Bool) (f : ℕ) → f < 256 → set_h b f ≡ f / 64 * 64 + u8_from b * 32 + f % 32
unfolding set_h all_below
set_h-sum true = byte_eq (λ f. bit_or f 32) (λ f. f / 64 * 64 + 1 * 32 + f % 32) refl
set_h-sum false = byte_eq (λ f. bit_and f 223) (λ f. f / 64 * 64 + 0 * 32 + f % 32) refl

pub set_c-sum : (b : Bool) (f : ℕ) → f < 256 → set_c b f ≡ f / 32 * 32 + u8_from b * 16 + f % 16
unfolding set_c all_below
set_c-sum true = byte_eq (λ f. bit_or f 16) (λ f. f / 32 * 32 + 1 * 16 + f % 16) refl
set_c-sum false = byte_eq (λ f. bit_and f 239) (λ f. f / 32 * 32 + 0 * 16 + f % 16) refl

pub u8_from-le : (b : Bool) → u8_from b ≤ 1
u8_from-le true = omega arith
u8_from-le false = omega arith

-- All four flags written at once, whatever the order.
pub flags_sum : Bool → Bool → Bool → Bool → ℕ → ℕ
flags_sum z n h c f = u8_from z * 128 + u8_from n * 64 + u8_from h * 32 + u8_from c * 16 + f % 16

pub set_flags-sum :
    (z n h c : Bool) (f : ℕ)
    → f < 256
    → set_c c (set_h h (set_n n (set_z z f))) ≡ flags_sum z n h c f
unfolding flags_sum
set_flags-sum z n h c f w =
    let f1 = set_z z f in
    let e1 = set_z-sum z f w in
    let w1 : f1 < 256 = omega (arith, e1, u8_from-le z) in
    let f2 = set_n n f1 in
    let e2 = set_n-sum n f1 w1 in
    let w2 : f2 < 256 = omega (arith, e2, u8_from-le n) in
    let f3 = set_h h f2 in
    let e3 = set_h-sum h f2 w2 in
    let w3 : f3 < 256 = omega (arith, e3, u8_from-le h) in
    omega
      (arith, e1, e2, e3, set_c-sum c f3 w3, u8_from-le z, u8_from-le n, u8_from-le h, u8_from-le c)

-- Z, N and H written; C is kept.
pub set_flags_keep_c :
    (z n h : Bool) (f : ℕ) → f < 256 → set_h h (set_n n (set_z z f)) ≡ flags_sum z n h (flag_c f) f
unfolding flags_sum
set_flags_keep_c z n h f w =
    let f1 = set_z z f in
    let e1 = set_z-sum z f w in
    let w1 : f1 < 256 = omega (arith, e1, u8_from-le z) in
    let f2 = set_n n f1 in
    let e2 = set_n-sum n f1 w1 in
    let w2 : f2 < 256 = omega (arith, e2, u8_from-le n) in
    rw (set_h-sum h f2 w2, e2, e1, flag_c-bit f w) (ground arith)

pub flags_sum-lt : (z n h c : Bool) (f : ℕ) → flags_sum z n h c f < 256
unfolding flags_sum
flags_sum-lt z n h c f = omega (arith, u8_from-le z, u8_from-le n, u8_from-le h, u8_from-le c)

-- What the readers see of a byte written whole, and the low nibble that no writer changes.
pub record Reads (z n h c : Bool) (f g : ℕ) : Type 0 where
  pub reads_z : flag_z g ≡ z
  pub reads_n : flag_n g ≡ n
  pub reads_h : flag_h g ≡ h
  pub reads_c : flag_c g ≡ c
  pub low_kept : g % 16 ≡ f % 16
  pub wide : g < 256

pub flags_sum-Reads : (z n h c : Bool) (f : ℕ) → Reads z n h c f (flags_sum z n h c f)
flags_sum-Reads z n h c f =
    let w = flags_sum-lt z n h c f in
    record {
      reads_z = flag_z-bit (flags_sum z n h c f) w ∙ unfold flags_sum in ground arith;
      reads_n = flag_n-bit (flags_sum z n h c f) w ∙ unfold flags_sum in ground arith;
      reads_h = flag_h-bit (flags_sum z n h c f) w ∙ unfold flags_sum in ground arith;
      reads_c = flag_c-bit (flags_sum z n h c f) w ∙ unfold flags_sum in ground arith;
      low_kept = unfold flags_sum in ground arith;
      wide = w;
    }

-- Z, H and C written; N is kept.
pub set_flags_keep_n :
    (z h c : Bool) (f : ℕ) → f < 256 → set_c c (set_h h (set_z z f)) ≡ flags_sum z (flag_n f) h c f
unfolding flags_sum
set_flags_keep_n z h c f w =
    let f1 = set_z z f in
    let e1 = set_z-sum z f w in
    let w1 : f1 < 256 = omega (arith, e1, u8_from-le z) in
    let f2 = set_h h f1 in
    let e2 = set_h-sum h f1 w1 in
    let w2 : f2 < 256 = omega (arith, e2, u8_from-le h) in
    rw (set_c-sum c f2 w2, e2, e1, flag_n-bit f w) (ground arith)
