-- ===== src/Interrupt/Priority.antt =====
-- Which interrupt `highest_priority` serves, and what `acknowledge` leaves.
use kokura.Base.{
  ℕ, zero, suc, ◌+◌, ◌*◌, ◌^◌, ◌≤◌, ◌<◌, min, bit_and, Bool, true, false, ◌&&◌, arith, ◌≡◌, refl,
  Option, none, some, ◌==◌, ==_iff, not8, digit, digit-lt, digit-and, all_below, all_below_at,
  if◌then◌else◌, bit_and-le, ltb, ltb→lt, ap, sym, bool_eq, bool_eq→eq, ◌!=◌, ◌∙◌,
}
use kokura.Interrupt.{
  InterruptState, pending_mask, has_pending, first_source, highest_priority, acknowledge,
}

-- Source `k` is requested and enabled.
abbrev pub raised : ℕ → InterruptState → Bool
raised k s = digit k s.ie == 1 && digit k s.iflag == 1

mask_digit : (k : ℕ) → k < 5 → digit k 0x1F ≡ 1
mask_digit k h = (==_iff _ _).0 (all_below_at 5 (λ k. digit k 0x1F == 1) k table h)
  where
    table : all_below 5 (λ k. digit k 0x1F == 1) ≡ true
    table = unfold all_below digit in refl

pub pending-digit :
    (k : ℕ) (s : InterruptState)
    → k < 5
    → digit k (pending_mask s) ≡ min (digit k s.ie) (digit k s.iflag)
unfolding pending_mask
pending-digit k s h = omega (
  arith,
  digit-and k (bit_and s.ie s.iflag) 0x1F,
  digit-and k s.ie s.iflag,
  mask_digit k h,
  digit-lt k s.ie,
)

pub raised-pending :
    (k : ℕ) (s : InterruptState) → k < 5 → (digit k (pending_mask s) == 1) ≡ raised k s
raised-pending k s h = ground (arith, pending-digit k s h, digit-lt k s.ie, digit-lt k s.iflag)

-- The lowest of the five digits, with its vector.
abbrev lowest : ℕ → ℕ → ℕ → Option (ℕ × ℕ)
lowest zero k p = none
lowest (suc n) k p = if digit k p == 1 then some (2 ^ k, 0x40 + 8 * k) else lowest n (suc k) p

abbrev same : Option (ℕ × ℕ) → Option (ℕ × ℕ) → Bool
same none none = true
same none (some q) = false
same (some p) none = false
same (some p) (some q) = p.0 == q.0 && p.1 == q.1

same→eq : (a b : Option (ℕ × ℕ)) → same a b ≡ true → a ≡ b
same→eq none none h = refl
same→eq none (some q) h = cc
same→eq (some p) none h = cc
same→eq (some (a, v)) (some (b, w)) h =
    let e : a ≡ b = ground arith in let f : v ≡ w = ground arith in rw (e, f) refl

first_source-lowest : (p : ℕ) → p < 32 → first_source p ≡ lowest 5 0 p
first_source-lowest p h =
    same→eq _ _ (all_below_at 32 (λ p. same (first_source p) (lowest 5 0 p)) p table h)
  where
    table : all_below 32 (λ p. same (first_source p) (lowest 5 0 p)) ≡ true
    table = unfold all_below digit first_source in refl

-- The lowest numbered source that is requested and enabled, with its vector.
abbrev pub lowest_raised : ℕ → ℕ → InterruptState → Option (ℕ × ℕ)
lowest_raised zero k s = none
lowest_raised (suc n) k s =
    if raised k s then some (2 ^ k, 0x40 + 8 * k) else lowest_raised n (suc k) s

lowest-pending :
    (n k : ℕ) (s : InterruptState) → n + k ≤ 5 → lowest n k (pending_mask s) ≡ lowest_raised n k s
lowest-pending zero k s h = refl
lowest-pending (suc n) k s h =
    rw (raised-pending k s (omega arith), lowest-pending n (suc k) s (omega arith)) refl

-- `highest_priority` gives the lowest numbered of the five sources that is both enabled and
-- requested, as its mask and the vector 0x40 + 8 k, and none when there is no such source.
pub highest_priority-lowest_raised : (s : InterruptState) → highest_priority s ≡ lowest_raised 5 0 s
unfolding highest_priority pending_mask
highest_priority-lowest_raised s =
    first_source-lowest (pending_mask s) (omega (arith, bit_and-le (bit_and s.ie s.iflag) 0x1F))
    ∙ lowest-pending 5 0 s (omega arith)

abbrev pub found : Option (ℕ × ℕ) → Bool
found none = false
found (some p) = true

-- `has_pending` holds exactly when `highest_priority` finds a source to serve.
pub has_pending-highest_priority : (s : InterruptState) → has_pending s ≡ found (highest_priority s)
unfolding highest_priority pending_mask has_pending
has_pending-highest_priority s =
    byte_test_32 (pending_mask s) (omega (arith, bit_and-le (bit_and s.ie s.iflag) 0x1F))
  where
    table : all_below 32 (λ p. bool_eq (p != 0) (found (first_source p))) ≡ true
    table = unfold all_below first_source in refl

    byte_test_32 : (p : ℕ) → p < 32 → (p != 0) ≡ found (first_source p)
    byte_test_32 p h =
        bool_eq→eq _ _ (all_below_at 32 (λ p. bool_eq (p != 0) (found (first_source p))) p table h)

word : Option (ℕ × ℕ) → Bool
word none = true
word (some p) = ltb p.1 65536

-- Every vector is an address.
pub highest_priority-lt :
    (s : InterruptState) (k v : ℕ) → highest_priority s ≡ some (k, v) → v < 65536
unfolding highest_priority pending_mask word
highest_priority-lt s k v e = ltb→lt _ _ (
    sym (ap word e)
    ∙ all_below_at 32 (λ p. word (first_source p)) (pending_mask s) table
        (omega (arith, bit_and-le (bit_and s.ie s.iflag) 0x1F)))
  where
    table : all_below 32 (λ p. word (first_source p)) ≡ true
    table = unfold all_below first_source in refl

clear_digit : (j k : ℕ) → j < 8 → k < 5 → digit j (not8 (2 ^ k)) ≡ (if j == k then 0 else 1)
clear_digit j k hj hk = (==_iff _ _).0 (
    all_below_at 5 (λ k. digit j (not8 (2 ^ k)) == (if j == k then 0 else 1)) k
      (all_below_at 8 (λ j. all_below 5 (λ k. digit j (not8 (2 ^ k)) == (if j == k then 0 else 1)))
        j table hj)
      hk)
  where
    table :
        all_below 8 (λ j. all_below 5 (λ k. digit j (not8 (2 ^ k)) == (if j == k then 0 else 1)))
        ≡ true
    table = unfold all_below digit in refl

-- Acknowledging one of the five sources takes its request away and leaves every other source as
-- it was.
pub acknowledge-raised :
    (j k : ℕ) (s : InterruptState)
    → j < 5
    → k < 5
    → raised j (acknowledge (2 ^ k) s) ≡ (if j == k then false else raised j s)
unfolding acknowledge
acknowledge-raised j k s hj hk = ground (
  arith,
  digit-and j s.iflag (not8 (2 ^ k)),
  clear_digit j k (omega arith) hk,
  digit-lt j s.iflag,
)
