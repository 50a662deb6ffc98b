-- ===== src/Ppu/Front.antt =====
-- The sprite in front at a place: the one of the smallest X, and of those of the smallest index, in
-- the order that crates/kokura-core/src/ppu/mod.rs sorts by.
use kokura.Base.{
  ltb, leb, ◌==◌, ◌&&◌, ◌||◌, Bool, true, false, Option, none, some, List, [], ◌∷◌, if◌then◌else◌,
  sort, insert, arith, ◌≡◌, refl, ◌∙◌, Bool-cases, inl, inr,
}
use kokura.Ppu.State.{Sprite}
use kokura.Ppu.Sprites.{by_x}

-- The smaller X, and at the same X the smaller index.
unfoldable pub is_nearer : Sprite → Sprite → Bool
is_nearer s t = ltb s.x t.x || (s.x == t.x && leb s.index t.index)

by_x_nearer : (s t : Sprite) → is_nearer s t ≡ by_x s t
unfolding by_x is_nearer
by_x_nearer s t = refl

abbrev reverse_x : Sprite → Sprite → Bool
reverse_x s t = by_x t s

by_x_trans : (s t u : Sprite) → by_x s t ≡ true → by_x t u ≡ true → by_x s u ≡ true
unfolding by_x
by_x_trans s t u h k = ground arith

by_x_total : (s t : Sprite) → by_x s t ≡ false → by_x t s ≡ true
unfolding by_x
by_x_total s t h = ground arith

-- All of a list are in front of `s`, or `s` itself.
abbrev InFront : Sprite → List Sprite → Type 0
InFront s [] = Unit {0}
InFront s (t ∷ ts) = (by_x t s ≡ true) × InFront s ts

abbrev IsReversed : List Sprite → Type 0
IsReversed [] = Unit {0}
IsReversed (s ∷ ss) = InFront s ss × IsReversed ss

InFront-trans : (s t : Sprite) (ts : List Sprite) → by_x t s ≡ true → InFront t ts → InFront s ts
InFront-trans s t [] h k = tt
InFront-trans s t (u ∷ ts) h k = (by_x_trans u t s k.0 h, InFront-trans s t ts h k.1)

InFront-insert :
    (s x : Sprite) (ts : List Sprite)
    → by_x x s ≡ true
    → InFront s ts
    → InFront s (insert reverse_x x ts)
unfolding insert
InFront-insert s x [] h k = (h, tt)
InFront-insert s x (t ∷ ts) h k = elim (Bool-cases (by_x t x)) [
  | inl e ↦ rw e (h, (k.0, k.1))
  | inr e ↦ rw e (k.0, InFront-insert s x ts h k.1)
]

insert-IsReversed :
    (x : Sprite) (ss : List Sprite) → IsReversed ss → IsReversed (insert reverse_x x ss)
unfolding insert
insert-IsReversed x [] h = (tt, tt)
insert-IsReversed x (s ∷ ss) h = elim (Bool-cases (by_x s x)) [
  | inl e ↦ rw e ((e, InFront-trans x s ss e h.0), (h.0, h.1))
  | inr e ↦ rw e (InFront-insert s x ss (by_x_total s x e) h.0, insert-IsReversed x ss h.1)
]

sort-IsReversed : (ss : List Sprite) → IsReversed (sort reverse_x ss)
unfolding sort
sort-IsReversed [] = tt
sort-IsReversed (s ∷ ss) = insert-IsReversed s (sort reverse_x ss) (sort-IsReversed ss)

abbrev pub nearer : Sprite → Option Sprite → Option Sprite
nearer s none = some s
nearer s (some t) = if is_nearer t s then some t else some s

abbrev or_else : Option Sprite → Option Sprite → Option Sprite
or_else (some t) o = some t
or_else none o = o

-- Where there is a sprite, it is in front of `x`.
abbrev Ahead : Sprite → Option Sprite → Type 0
Ahead x none = Unit {0}
Ahead x (some t) = by_x t x ≡ true

or_else-Ahead : (x : Sprite) (o p : Option Sprite) → Ahead x o → Ahead x p → Ahead x (or_else o p)
or_else-Ahead x (some t) p h k = h
or_else-Ahead x none p h k = k

module _ (shows : Sprite → Bool) where
  -- The one in front, whatever the order of the list.
  unfoldable pub front : List Sprite → Option Sprite
  front [] = none
  front (s ∷ ss) = if shows s then nearer s (front ss) else front ss

  unfoldable pub last_shown : List Sprite → Option Sprite
  last_shown [] = none
  last_shown (s ∷ ss) = or_else (last_shown ss) (if shows s then some s else none)

  abbrev with_shown : Sprite → Option Sprite → Option Sprite
  with_shown x o = if shows x then nearer x o else o

  last_shown-Ahead : (x : Sprite) (ss : List Sprite) → InFront x ss → Ahead x (last_shown ss)
  unfolding last_shown
  last_shown-Ahead x [] h = tt
  last_shown-Ahead x (s ∷ ss) h =
      or_else-Ahead x (last_shown ss) (if shows s then some s else none) (last_shown-Ahead x ss h.1)
        (if_shown (shows s))
    where
      if_shown : (b : Bool) → Ahead x (if b then some s else none)
      if_shown true = h.0
      if_shown false = tt

  or_else-nearer :
      (x : Sprite) (o : Option Sprite)
      → Ahead x o
      → or_else o (if shows x then some x else none) ≡ with_shown x o
  or_else-nearer x none h = refl
  or_else-nearer x (some t) h = elim (Bool-cases (shows x)) [
    | inl e ↦ rw (e, by_x_nearer t x, h) refl
    | inr e ↦ rw e refl
  ]

  last_shown-insert :
      (x : Sprite) (ss : List Sprite)
      → IsReversed ss
      → last_shown (insert reverse_x x ss) ≡ with_shown x (last_shown ss)
  unfolding insert last_shown
  last_shown-insert x [] h = elim (Bool-cases (shows x)) [ inl e ↦ rw e refl | inr e ↦ rw e refl ]
  last_shown-insert x (s ∷ ss) h = elim (Bool-cases (by_x s x)) [
    | inl e ↦ rw e (
        or_else-nearer x (last_shown (s ∷ ss))
          (last_shown-Ahead x (s ∷ ss) (e, InFront-trans x s ss e h.0)))
    | inr e ↦ rw (e, last_shown-insert x ss h.1) (passed (last_shown ss) e)
  ]
    where
      passed :
          (o : Option Sprite)
          → by_x s x ≡ false
          → or_else (with_shown x o) (if shows s then some s else none)
            ≡ with_shown x (or_else o (if shows s then some s else none))
      passed none e = elim (Bool-cases (shows x)) [
        | inl f ↦ elim (Bool-cases (shows s)) [
          | inl g ↦ rw (f, g, by_x_nearer s x, e) refl
          | inr g ↦ rw (f, g) refl
        ]
        | inr f ↦ rw f refl
      ]
      passed (some t) e = elim (Bool-cases (shows x)) [
        | inl f ↦ elim (Bool-cases (by_x t x)) [
          | inl g ↦ rw (f, by_x_nearer t x, g) refl
          | inr g ↦ rw (f, by_x_nearer t x, g) refl
        ]
        | inr f ↦ rw f refl
      ]

  pub last_shown-sort : (ss : List Sprite) → last_shown (sort reverse_x ss) ≡ front ss
  unfolding sort front last_shown
  last_shown-sort [] = refl
  last_shown-sort (s ∷ ss) =
      last_shown-insert s (sort reverse_x ss) (sort-IsReversed ss) ∙ rw (last_shown-sort ss) refl

-- What holds of a sprite, where there is one.
abbrev pub Meets : (Sprite → Type 0) → Option Sprite → Type 0
Meets P none = Unit {0}
Meets P (some s) = P s

abbrev pub All : (Sprite → Type 0) → List Sprite → Type 0
All P [] = Unit {0}
All P (s ∷ ss) = P s × All P ss

nearer-Meets :
    (P : Sprite → Type 0) (s : Sprite) (o : Option Sprite) → P s → Meets P o → Meets P (nearer s o)
nearer-Meets P s none h k = h
nearer-Meets P s (some t) h k = elim (Bool-cases (is_nearer t s)) [
  | inl e ↦ rw e k
  | inr e ↦ rw e h
]

-- The one in front is one of the list that shows.
pub front-Meets :
    (P : Sprite → Type 0) (shows : Sprite → Bool) (ss : List Sprite)
    → All P ss
    → Meets (λ s. P s × (shows s ≡ true)) (front shows ss)
unfolding front
front-Meets P shows [] h = tt
front-Meets P shows (s ∷ ss) h = elim (Bool-cases (shows s)) [
  | inl e ↦ rw e (
      nearer-Meets (λ s. P s × (shows s ≡ true)) s (front shows ss) (h.0, e)
        (front-Meets P shows ss h.1))
  | inr e ↦ rw e (front-Meets P shows ss h.1)
]

pub front-agrees :
    (P : Sprite → Type 0) (f g : Sprite → Bool) (ss : List Sprite)
    → ((s : Sprite) → P s → f s ≡ g s)
    → All P ss
    → front f ss ≡ front g ss
unfolding front
front-agrees P f g [] e h = refl
front-agrees P f g (s ∷ ss) e h = rw (e s h.0, front-agrees P f g ss e h.1) refl
