-- ===== src/Ppu/Sprites.antt =====
-- The choice of the sprites of a line and what their fetches cost. A comparison in i16 of a value
-- less 8 or 16 is written with both sides raised by that much.
use kokura.Base.{
  ℕ, zero, suc, ◌+◌, ◌-◌, ◌*◌, ◌/◌, bit_and, Bool, false, not, ◌&&◌, ◌||◌, Option, none, some, List,
  [], ◌∷◌, ◌++◌, ◌==◌, leb, ltb, u8, u16, u32, if◌then◌else◌, sort,
}
use kokura.Ppu.{lcd_enabled, sprite_height, bg_map_base, window_map_base, window_visible_on_line}
use kokura.Ppu.State.{Ppu, Sprite, visible_scanlines}

-- `oam.chunks_exact(4).take(n).enumerate()`, from the index `i` on.
unfoldable pub entries : ℕ → ℕ → List ℕ → List Sprite
entries zero i oam = []
entries (suc n) i (y ∷ x ∷ tile ∷ attr ∷ oam) =
    (record { index = i; y = y; x = x; tile = tile; attr = attr }) ∷ entries n (i + 1) oam
entries (suc n) i oam = []

-- `(sy..sy + height).contains(&y)`, for `sy` 16 less than the sprite's byte.
unfoldable pub intersects : ℕ → ℕ → Sprite → Bool
intersects height y s = leb s.y (y + 16) && ltb (y + 16) (s.y + height)

-- The loop that stops at the tenth, with the places left.
unfoldable pub select : ℕ → ℕ → ℕ → List Sprite → List Sprite
select zero height y ss = []
select (suc slots) height y [] = []
select (suc slots) height y (s ∷ ss) =
    let taken = s ∷ select slots height y ss in
    let passed = select (suc slots) height y ss in if intersects height y s then taken else passed

unfoldable pub selected_sprites_on_line : Ppu → List ℕ → ℕ → List Sprite
selected_sprites_on_line p oam y = select 10 (sprite_height p) y (entries 40 0 oam)

-- A map cell of the background or the window: the map's base, and the pixel within it.
unfoldable pub map_cell : Ppu → ℕ → ℕ → Option ℕ → ℕ × ℕ × ℕ
map_cell p y x window_line =
    if window_visible_on_line p (u8 y) && leb p.wx (x + 7)
    then (window_map_base p, x + 7 - p.wx, elim window_line [ some line ↦ line | none ↦ y - p.wy ])
    else (bg_map_base p, bit_and (x + p.scx) 0xFF, bit_and (y + p.scy) 0xFF)

unfoldable pub bg_tile_id_for_pixel_with_window_line : Ppu → ℕ → ℕ → Option ℕ → ℕ
bg_tile_id_for_pixel_with_window_line p y x window_line =
    let (base, px, py) = map_cell p y x window_line in
    let tile_x = bit_and (px / 8) 0x1F in
    let tile_y = bit_and (py / 8) 0x1F in u16 (base + tile_y * 32 + tile_x)

unfoldable pub bg_tile_id_for_pixel_for_penalty : Ppu → ℕ → ℕ → ℕ
bg_tile_id_for_pixel_for_penalty p y x =
    bg_tile_id_for_pixel_with_window_line p y x
      (if y == p.ly && window_visible_on_line p p.ly then some p.window_line_counter else none)

-- By X, and then by the index in OAM.
unfoldable pub by_x : Sprite → Sprite → Bool
by_x s t = ltb s.x t.x || (s.x == t.x && leb s.index t.index)

unfoldable pub contains : List ℕ → ℕ → Bool
contains [] a = false
contains (x ∷ xs) a = x == a || contains xs a

-- The cost of the sprites in their order, after the cells of `seen_tiles`.
unfoldable pub penalty_loop : Ppu → ℕ → List ℕ → List Sprite → ℕ
penalty_loop p line seen_tiles [] = 0
penalty_loop p line seen_tiles (s ∷ ss) =
    let pixel_x = s.x - 8 in
    let tile_id = bg_tile_id_for_pixel_for_penalty p line pixel_x in
    let seen = contains seen_tiles tile_id in
    let seen' =
      if s.x == 0 then seen_tiles else if seen then seen_tiles else seen_tiles ++ (tile_id ∷ []) in
    let rest = penalty_loop p line seen' ss in
    if s.x == 0 then 11 + rest else (if seen then 0 else 5 - bit_and pixel_x 7) + 6 + rest

-- The list in its new order, and the penalty.
unfoldable pub sprite_penalty_from_selected : Ppu → ℕ → List Sprite → List Sprite × ℕ
sprite_penalty_from_selected p line ordered =
    let ordered' = sort by_x ordered in (ordered', u32 (penalty_loop p line [] ordered'))

unfoldable pub latch_scanline_state : List ℕ → Ppu → Ppu
latch_scanline_state oam p =
    if not (lcd_enabled p) || leb visible_scanlines p.ly
    then record p { scanline_sprites = []; mode3_sprite_penalty = 0 }
    else (let (selected, penalty) =
          sprite_penalty_from_selected p p.ly (selected_sprites_on_line p oam p.ly) in
        record p { mode3_sprite_penalty = penalty; scanline_sprites = selected })

unfoldable pub refresh_mode3_penalty : List ℕ → Ppu → Ppu
refresh_mode3_penalty oam p =
    if not (lcd_enabled p) || leb visible_scanlines p.ly
    then record p { scanline_sprites = []; mode3_sprite_penalty = 0 }
    else latch_scanline_state oam p
