-- ===== src/Ppu/Selection.antt =====
-- How many sprites of crates/kokura-core/src/ppu/mod.rs a line latches, and what they cost.
use kokura.Base.{
  ℕ, zero, suc, ◌-◌, ◌*◌, ◌≤◌, not, ◌||◌, List, [], ◌∷◌, ◌++◌, ◌==◌, leb, sort, length, length-sort,
  arith, Bool-cases, inl, inr,
}
use kokura.Ppu.{lcd_enabled, sprite_height}
use kokura.Ppu.State.{Ppu, Sprite, visible_scanlines}
use kokura.Ppu.Sprites.{
  entries, intersects, select, selected_sprites_on_line, contains, penalty_loop,
  sprite_penalty_from_selected, by_x, latch_scanline_state, refresh_mode3_penalty,
  bg_tile_id_for_pixel_for_penalty,
}
use kokura.Ppu.Position.{IsValid}

pub length-select :
    (slots height y : ℕ) (ss : List Sprite) → length (select slots height y ss) ≤ slots
unfolding select
length-select zero height y ss = omega arith
length-select (suc slots) height y [] = omega arith
length-select (suc slots) height y (s ∷ ss) = elim (Bool-cases (intersects height y s)) [
  | inl e ↦ rw e (omega (arith, length-select slots height y ss))
  | inr e ↦ rw e (length-select (suc slots) height y ss)
]

penalty_loop-le :
    (p : Ppu) (line : ℕ) (seen : List ℕ) (ss : List Sprite)
    → penalty_loop p line seen ss ≤ 11 * length ss
unfolding penalty_loop
penalty_loop-le p line seen [] = omega arith
penalty_loop-le p line seen (s ∷ ss) =
    let tile = bg_tile_id_for_pixel_for_penalty p line (s.x - 8) in
    elim (Bool-cases (s.x == 0)) [
      | inl z ↦ rw z (omega (arith, penalty_loop-le p line seen ss))
      | inr z ↦ elim (Bool-cases (contains seen tile)) [
        | inl e ↦ rw (z, e) (omega (arith, penalty_loop-le p line seen ss))
        | inr e ↦ rw (z, e) (omega (arith, penalty_loop-le p line (seen ++ (tile ∷ [])) ss))
      ]
    ]

latched_penalty :
    (p : Ppu) (oam : List ℕ) (y : ℕ)
    → (sprite_penalty_from_selected p y (selected_sprites_on_line p oam y)).1 ≤ 110
unfolding sprite_penalty_from_selected selected_sprites_on_line
latched_penalty p oam y =
    let ss = selected_sprites_on_line p oam y in
    omega (
      arith,
      penalty_loop-le p y [] (sort by_x ss),
      length-sort by_x ss,
      length-select 10 (sprite_height p) y (entries 40 0 oam),
    )

latch-IsValid : (oam : List ℕ) (p : Ppu) → IsValid p → IsValid (latch_scanline_state oam p)
unfolding latch_scanline_state
latch-IsValid oam p v = elim (Bool-cases (not (lcd_enabled p) || leb visible_scanlines p.ly)) [
  | inl e ↦
      rw e (record { line = v.line; dot = v.dot; penalty = omega arith; stat_byte = v.stat_byte })
  | inr e ↦ rw e (record {
    line = v.line;
    dot = v.dot;
    penalty = latched_penalty p oam p.ly;
    stat_byte = v.stat_byte;
  })
]

pub refresh_mode3_penalty-IsValid :
    (oam : List ℕ) (p : Ppu) → IsValid p → IsValid (refresh_mode3_penalty oam p)
unfolding refresh_mode3_penalty
refresh_mode3_penalty-IsValid oam p v =
    elim (Bool-cases (not (lcd_enabled p) || leb visible_scanlines p.ly)) [
      | inl e ↦
          rw e
            (record { line = v.line; dot = v.dot; penalty = omega arith; stat_byte = v.stat_byte })
      | inr e ↦ rw e (latch-IsValid oam p v)
    ]
