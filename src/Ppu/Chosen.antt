-- ===== src/Ppu/Chosen.antt =====
-- The entries of OAM that crates/kokura-core/src/ppu/mod.rs chooses for a line, each by itself.
use kokura.Base.{
  ℕ, zero, suc, ◌+◌, ◌-◌, ◌*◌, ◌<◌, ◌≤◌, Bool, true, false, ◌&&◌, ◌||◌, Option, none, some, List,
  [], ◌∷◌, ◌==◌, leb, ltb, u8_from, if◌then◌else◌, get_or, length, has_bit-digit, arith, ◌≡◌, refl,
  ap, ◌∙◌, Bool-cases, inl, inr,
}
use kokura.Ppu.{sprite_height}
use kokura.Ppu.State.{Ppu, Sprite}
use kokura.Ppu.Sprites.{entries, intersects, select, selected_sprites_on_line}
use kokura.Ppu.Picture.{is_set}
use kokura.Ppu.Selection.{length-select}

-- Whether one of the `height` rows from `top` on is `line`.
unfoldable pub any_row : ℕ → ℕ → ℕ → Bool
any_row zero top line = false
any_row (suc row) top line = top + row == line || any_row row top line

-- The bytes of an entry.
abbrev pub sprite_at : List ℕ → ℕ → Sprite
sprite_at oam i = record {
  index = i;
  y = get_or oam (i * 4) 0;
  x = get_or oam (i * 4 + 1) 0;
  tile = get_or oam (i * 4 + 2) 0;
  attr = get_or oam (i * 4 + 3) 0;
}

-- Whether an entry has a row on the line; its byte is 16 more than the line of its top.
abbrev pub on_line : List ℕ → ℕ → ℕ → ℕ → Bool
on_line oam height y i = any_row height (get_or oam (i * 4) 0) (y + 16)

-- How many of the first `n` numbers meet a test.
unfoldable pub count_below : (ℕ → Bool) → ℕ → ℕ
count_below test zero = 0
count_below test (suc n) = count_below test n + u8_from (test n)

unfoldable pub find : ℕ → List Sprite → Option Sprite
find i [] = none
find i (s ∷ ss) = if s.index == i then some s else find i ss

-- Indices that rise, from `n` on.
abbrev pub Ascends : ℕ → List Sprite → Type 0
Ascends n [] = Unit {0}
Ascends n (s ∷ ss) = (n ≤ s.index) × Ascends (s.index + 1) ss

pub any_row_lem : (h top line : ℕ) → (leb top line && ltb line (top + h)) ≡ any_row h top line
unfolding any_row
any_row_lem zero top line = ground arith
any_row_lem (suc h) top line = ground (arith, any_row_lem h top line)

plus_zero : (m : ℕ) → m + 0 ≡ m
plus_zero m = omega arith

zero_plus : (k : ℕ) → k ≡ 0 * 4 + k
zero_plus k = omega arith

count_below-le : (test : ℕ → Bool) (m k : ℕ) → count_below test m ≤ count_below test (m + k)
unfolding count_below
count_below-le test m zero = rw (plus_zero m) (omega arith)
count_below-le test m (suc k) =
    let e : m + suc k ≡ suc (m + k) = omega arith in rw e (omega (arith, count_below-le test m k))

-- A list of bytes that is what is left of `oam` from entry `i0` on.
record IsRest (oam : List ℕ) (n i0 : ℕ) (rest : List ℕ) : Type 0 where
  enough : n * 4 ≤ length rest
  same : (k : ℕ) → get_or rest k 0 ≡ get_or oam (i0 * 4 + k) 0

Ascends-weaken : (m n : ℕ) (ss : List Sprite) → m ≤ n → Ascends n ss → Ascends m ss
Ascends-weaken m n [] h a = tt
Ascends-weaken m n (s ∷ ss) h a = (omega (arith, a.0), a.1)

select-Ascends :
    (n i0 slots height y : ℕ) (rest : List ℕ)
    → Ascends i0 (select slots height y (entries n i0 rest))
unfolding select entries
select-Ascends n i0 zero height y rest = tt
select-Ascends zero i0 (suc slots) height y rest = tt
select-Ascends (suc n) i0 (suc slots) height y (a ∷ b ∷ c ∷ d ∷ rest) =
    let ih = λ (k : ℕ). select-Ascends n (i0 + 1) k height y rest in
    elim (Bool-cases
      (intersects height y (record { index = i0; y = a; x = b; tile = c; attr = d }))) [
        | inl e ↦ rw e (omega arith, ih slots)
        | inr e ↦ rw e (Ascends-weaken i0 (i0 + 1) _ (omega arith) (ih (suc slots)))
      ]
select-Ascends (suc n) i0 (suc slots) height y [] = tt
select-Ascends (suc n) i0 (suc slots) height y (a ∷ []) = tt
select-Ascends (suc n) i0 (suc slots) height y (a ∷ b ∷ []) = tt
select-Ascends (suc n) i0 (suc slots) height y (a ∷ b ∷ c ∷ []) = tt

-- The rest of the rest.
tail-IsRest :
    (oam rest : List ℕ) (a b c d n i0 : ℕ)
    → IsRest oam (suc n) i0 (a ∷ b ∷ c ∷ d ∷ rest)
    → IsRest oam n (i0 + 1) rest
tail-IsRest oam rest a b c d n i0 h = record {
  enough = omega (arith, h.enough);
  same = λ k.
      let e : i0 * 4 + suc (suc (suc (suc k))) ≡ (i0 + 1) * 4 + k = omega arith in
      h.same (suc (suc (suc (suc k)))) ∙ ap (λ (j : ℕ). get_or oam j 0) e;
}

-- The first entry of the rest.
head-sprite_at :
    (oam rest : List ℕ) (a b c d n i0 : ℕ)
    → IsRest oam n i0 (a ∷ b ∷ c ∷ d ∷ rest)
    → (record { index = i0; y = a; x = b; tile = c; attr = d }) ≡ sprite_at oam i0
head-sprite_at oam rest a b c d n i0 h =
    let first : a ≡ get_or oam (i0 * 4) 0 =
      h.same 0 ∙ ap (λ (j : ℕ). get_or oam j 0) (plus_zero (i0 * 4)) in
    rw (first, h.same 1, h.same 2, h.same 3) refl

module _ (oam : List ℕ) (height y : ℕ) where
  abbrev chosen : ℕ → ℕ → ℕ → ℕ → Bool
  chosen n i0 slots i =
      (leb i0 i && ltb i (i0 + n))
      && (on_line oam height y i
          && ltb (count_below (on_line oam height y) i)
              (count_below (on_line oam height y) i0 + slots))

  intersects_lem : (i : ℕ) → intersects height y (sprite_at oam i) ≡ on_line oam height y i
  unfolding intersects
  intersects_lem i = any_row_lem height (get_or oam (i * 4) 0) (y + 16)

  full : (n i0 i : ℕ) → chosen n i0 0 i ≡ false
  full n i0 i = elim (Bool-cases (leb i0 i)) [
    | inr e ↦ rw e refl
    | inl e ↦
        let k : i0 + (i - i0) ≡ i = ground (arith, e) in
        let c : count_below (on_line oam height y) i0 ≤ count_below (on_line oam height y) i =
          rw⁻¹ k (count_below-le (on_line oam height y) i0 (i - i0)) in
        ground (arith, c)
  ]

  counted :
      (i : ℕ)
      → count_below (on_line oam height y) (i + 1)
        ≡ count_below (on_line oam height y) i + u8_from (on_line oam height y i)
  unfolding count_below
  counted i = let e : i + 1 ≡ suc i = omega arith in rw e refl

  -- Past an entry that is on the line, and past one that is not.
  chosen_taken :
      (n i0 slots i : ℕ)
      → on_line oam height y i0 ≡ true
      → (i0 == i) ≡ false
      → chosen (suc n) i0 (suc slots) i ≡ chosen n (i0 + 1) slots i
  chosen_taken n i0 slots i e d =
      let c : count_below (on_line oam height y) (i0 + 1)
          ≡ count_below (on_line oam height y) i0 + 1 =
        counted i0 ∙ rw e refl in
      let range : (leb i0 i && ltb i (i0 + suc n)) ≡ (leb (i0 + 1) i && ltb i (i0 + 1 + n)) =
        ground (arith, d) in
      let sum : count_below (on_line oam height y) i0 + suc slots
          ≡ count_below (on_line oam height y) i0 + 1 + slots =
        omega arith in
      rw (range, c, sum) refl

  chosen_passed :
      (n i0 slots i : ℕ)
      → on_line oam height y i0 ≡ false
      → chosen (suc n) i0 slots i ≡ chosen n (i0 + 1) slots i
  chosen_passed n i0 slots i e =
      let c : count_below (on_line oam height y) (i0 + 1) ≡ count_below (on_line oam height y) i0 =
        counted i0 ∙ rw e (plus_zero (count_below (on_line oam height y) i0)) in
      elim (Bool-cases (i0 == i)) [
        | inl d ↦
            let at : i ≡ i0 = ground (arith, d) in
            let off : on_line oam height y i ≡ false = ap (on_line oam height y) at ∙ e in
            let before : leb (i0 + 1) i ≡ false = ground (arith, d) in
            rw (off, before) (and_false (leb i0 i && ltb i (i0 + suc n)))
        | inr d ↦
            let range : (leb i0 i && ltb i (i0 + suc n)) ≡ (leb (i0 + 1) i && ltb i (i0 + 1 + n)) =
              ground (arith, d) in
            rw (range, c) refl
      ]
    where
      and_false : (b : Bool) → (b && false) ≡ false
      and_false true = refl
      and_false false = refl

  chosen_here :
      (n i0 slots : ℕ) → on_line oam height y i0 ≡ true → chosen (suc n) i0 (suc slots) i0 ≡ true
  chosen_here n i0 slots e = rw e (ground arith)

  find-select :
      (n i0 slots i : ℕ) (rest : List ℕ)
      → IsRest oam n i0 rest
      → find i (select slots height y (entries n i0 rest))
        ≡ (if chosen n i0 slots i then some (sprite_at oam i) else none)
  unfolding select entries find
  find-select n i0 zero i rest h = rw (full n i0 i) refl
  find-select zero i0 (suc slots) i rest h =
      let out : (leb i0 i && ltb i (i0 + 0)) ≡ false = ground arith in rw out refl
  find-select (suc n) i0 (suc slots) i (a ∷ b ∷ c ∷ d ∷ rest) h =
      let next = tail-IsRest oam rest a b c d n i0 h in
      let first = head-sprite_at oam rest a b c d (suc n) i0 h in
      elim (Bool-cases (on_line oam height y i0)) [
        | inr e ↦
            rw (first, intersects_lem i0 ∙ e)
              (find-select n (i0 + 1) (suc slots) i rest next
                ∙ rw (chosen_passed n i0 (suc slots) i e) refl)
        | inl e ↦ elim (Bool-cases (i0 == i)) [
          | inr d ↦
              rw (first, intersects_lem i0 ∙ e, d)
                (find-select n (i0 + 1) slots i rest next ∙ rw (chosen_taken n i0 slots i e d) refl)
          | inl d ↦
              let at : i ≡ i0 = ground (arith, d) in
              rw (first, intersects_lem i0 ∙ e, d, at, chosen_here n i0 slots e) refl
        ]
      ]
  find-select (suc n) i0 (suc slots) i [] h = absurd (omega (arith, h.enough))
  find-select (suc n) i0 (suc slots) i (a ∷ []) h = absurd (omega (arith, h.enough))
  find-select (suc n) i0 (suc slots) i (a ∷ b ∷ []) h = absurd (omega (arith, h.enough))
  find-select (suc n) i0 (suc slots) i (a ∷ b ∷ c ∷ []) h = absurd (omega (arith, h.enough))

pub height_lem : (p : Ppu) → p.lcdc < 256 → sprite_height p ≡ (if is_set 2 p.lcdc then 16 else 8)
unfolding sprite_height
height_lem p h = rw (has_bit-digit 2 p.lcdc (omega arith) h) refl

-- From 160 bytes of OAM or more, with a byte in LCDC: entry `i` is chosen for a line exactly
-- where it is one of the first forty, one of its rows, 16 or 8 as LCDC selects, is that line,
-- and fewer than ten entries before it have a row there. It is chosen with its four bytes of
-- OAM, the chosen ones stand in the order of OAM, each once, and there are ten at most.
pub find-selected_sprites_on_line :
    (p : Ppu) (oam : List ℕ) (y i : ℕ)
    → 160 ≤ length oam
    → p.lcdc < 256
    → let selected = selected_sprites_on_line p oam y in
      let on = on_line oam (if is_set 2 p.lcdc then 16 else 8) y in
      (find i selected ≡ (
        if ltb i 40 && (on i && ltb (count_below on i) 10) then some (sprite_at oam i) else none))
      × Ascends 0 selected
      × (length selected ≤ 10)
unfolding selected_sprites_on_line count_below
find-selected_sprites_on_line p oam y i h hl =
    let whole : IsRest oam 40 0 oam = record {
      enough = omega (arith, h);
      same = λ k. ap (λ (j : ℕ). get_or oam j 0) (zero_plus k);
    } in
    let low : leb 0 i ≡ true = ground arith in
    (
      find-select oam (sprite_height p) y 40 0 10 i oam whole ∙ rw (height_lem p hl, low) refl,
      select-Ascends 40 0 10 (sprite_height p) y oam,
      length-select 10 (sprite_height p) y (entries 40 0 oam),
    )
