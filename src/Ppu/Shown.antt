-- ===== src/Ppu/Shown.antt =====
-- What a sprite shows at a place of a line it is on, apart from how crates/kokura-core/src/ppu/mod.rs
-- computes it.
use kokura.Base.{
  ℕ, ◌+◌, ◌-◌, ◌*◌, ◌/◌, ◌%◌, ◌^◌, ◌<◌, ◌≤◌, bit_and, bit_and_digit, Bool, true, false, not, ◌&&◌,
  ◌||◌, List, ◌==◌, ◌!=◌, leb, ltb, if◌then◌else◌, get_or, has_bit-digit, bit_and_low, arith, ◌≡◌,
  refl, ◌∙◌, Bool-cases, inl, inr,
}
use kokura.Memory.{Memory}
use kokura.Memory.Palette.{obj_palette_rgb555}
use kokura.Ppu.{sprite_height, dmg_gray_rgb555}
use kokura.Ppu.State.{Ppu, Sprite}
use kokura.Ppu.Render.{hidden, off_screen, sprite_color, wrapping_sub, usize}
use kokura.Ppu.Picture.{
  is_set, texel, mirrored, brightness, tile_color_lem, apply_palette_lem, apply_cgb_palette_lem,
}
use kokura.Ppu.Chosen.{any_row, any_row_lem, height_lem}
use kokura.Ppu.Paint.{shows_at, color_at}

abbrev pub height_of : Ppu → ℕ
height_of p = if is_set 2 p.lcdc then 16 else 8

-- A sprite of bytes that has a row on the line.
pub record IsOnLine (p : Ppu) (y : ℕ) (s : Sprite) : Type 0 where
  pub row : any_row (height_of p) s.y (y + 16) ≡ true
  pub tile_byte : s.tile < 256
  pub attr_byte : s.attr < 256

module _ (vram0 vram1 : List ℕ) (memory : Memory) (cgb_mode : Bool) where
  -- The color number, shade and color of a column of a sprite. A tall sprite takes an even tile and
  -- the next, and is turned over as a whole.
  abbrev pub sprite_pixel : Ppu → ℕ → Sprite → ℕ → ℕ × ℕ × ℕ
  sprite_pixel p y s column =
      let row = y + 16 - s.y in
      let color =
        texel (if cgb_mode && is_set 3 s.attr then vram1 else vram0)
          ((if is_set 2 p.lcdc then s.tile / 2 * 2 else s.tile) * 16)
          (if is_set 6 s.attr then height_of p - 1 - row else row)
          (mirrored (is_set 5 s.attr) column) in
      let rgb = obj_palette_rgb555 (s.attr % 8) color memory in
      let shade = (if is_set 4 s.attr then p.obp1 else p.obp0) / 2 ^ (color * 2) % 4 in
      (
        color,
        if cgb_mode then brightness rgb else shade,
        if cgb_mode then rgb else dmg_gray_rgb555 shade,
      )

  row_lem : (h y sy : ℕ) → any_row h sy (y + 16) ≡ true → (sy ≤ y + 16) × (y + 16 < sy + h)
  row_lem h y sy e =
      let b : (leb sy (y + 16) && ltb (y + 16) (sy + h)) ≡ true = any_row_lem h sy (y + 16) ∙ e in
      (ground (arith, b), ground (arith, b))

  even_lem : (t : ℕ) → t < 256 → bit_and t 0xFE ≡ t / 2 * 2
  even_lem t h =
      let low : bit_and (t / 2) 127 ≡ t / 2 % 128 = bit_and_low 7 (t / 2) in
      omega (arith, bit_and_digit t 0xFE, low)

  turned :
      (flip : Bool) (h r : ℕ)
      → r < h
      → h ≤ 16
      → (if flip then wrapping_sub (h - 1) r else r) ≡ (if flip then h - 1 - r else r)
  turned true h r l m = omega arith
  turned false h r l m = refl

  turned-lt : (flip : Bool) (h r : ℕ) → r < h → (if flip then h - 1 - r else r) < h
  turned-lt true h r l = omega arith
  turned-lt false h r l = l

  height-le : (b : Bool) → (if b then 16 else 8) ≤ 16
  height-le true = omega arith
  height-le false = omega arith

  tile_of :
      (b : Bool) (t : ℕ)
      → t < 256
      → ((if (if b then 16 else 8) == 16 then t / 2 * 2 else t) ≡ (if b then t / 2 * 2 else t))
        × ((if b then t / 2 * 2 else t) < 256)
  tile_of true t h = (refl, omega arith)
  tile_of false t h = (refl, h)

  column_of : (b : Bool) (c : ℕ) → c < 8 → (if b then c else 7 - c) ≡ 7 - mirrored b c
  column_of true c h = omega arith
  column_of false c h = refl

  sprite_color_lem :
      (p : Ppu) (y : ℕ) (s : Sprite) (px : ℕ)
      → IsOnLine p y s
      → p.lcdc < 256
      → y < 144
      → px < 8
      → sprite_color vram0 vram1 memory cgb_mode p y s px ≡ sprite_pixel p y s px
  unfolding sprite_color sprite_height
  sprite_color_lem p y s px on h ly lp =
      let r = row_lem (height_of p) y s.y on.row in
      let row : wrapping_sub (y + 16) s.y ≡ y + 16 - s.y = ground (arith, r.0) in
      let tall : height_of p ≤ 16 = height-le (is_set 2 p.lcdc) in
      let less : y + 16 - s.y < height_of p = omega (arith, r.0, r.1) in
      let tile = if is_set 2 p.lcdc then s.tile / 2 * 2 else s.tile in
      let in_tile = if is_set 6 s.attr then height_of p - 1 - (y + 16 - s.y) else y + 16 - s.y in
      let low = turned-lt (is_set 6 s.attr) (height_of p) (y + 16 - s.y) less in
      let at = tile * 16 + in_tile * 2 in
      let small = (tile_of (is_set 2 p.lcdc) s.tile on.tile_byte).1 in
      let start : usize at ≡ at = omega (arith, low, tall, small) in
      let start_next : usize (at + 1) ≡ at + 1 = omega (arith, low, tall, small) in
      let bank = if cgb_mode && is_set 3 s.attr then vram1 else vram0 in
      let pixel = sprite_pixel p y s px in
      rw
        (
          has_bit-digit 2 p.lcdc (omega arith) h,
          has_bit-digit 3 s.attr (omega arith) on.attr_byte,
          has_bit-digit 4 s.attr (omega arith) on.attr_byte,
          has_bit-digit 5 s.attr (omega arith) on.attr_byte,
          has_bit-digit 6 s.attr (omega arith) on.attr_byte,
          bit_and_low 3 s.attr,
          even_lem s.tile on.tile_byte,
          row,
        )
        (rw
          (
            (tile_of (is_set 2 p.lcdc) s.tile on.tile_byte).0,
            turned (is_set 6 s.attr) (height_of p) (y + 16 - s.y) less tall,
            start,
            start_next,
            column_of (is_set 5 s.attr) px lp,
            tile_color_lem (get_or bank at 0) (get_or bank (at + 1) 0)
                (7 - mirrored (is_set 5 s.attr) px),
            apply_palette_lem (if is_set 4 s.attr then p.obp1 else p.obp0) pixel.0,
            apply_cgb_palette_lem (obj_palette_rgb555 (s.attr % 8) pixel.0 memory),
          )
          refl)

  -- Whether a sprite on the line shows at column `x`: it has a column there, of a color other than
  -- 0, and no background of a color other than 0 is in front of it.
  abbrev pub sprite_shows : Ppu → ℕ → ℕ → Sprite → Bool
  sprite_shows p y x s =
      any_row 8 s.x (x + 8)
      && (not ((sprite_pixel p y s (x + 8 - s.x)).0 == 0)
          && not (
              (get_or p.bg_priority_flags (y * 160 + x) 0 != 0 || is_set 7 s.attr)
              && get_or p.bg_color_ids (y * 160 + x) 0 != 0))

  hidden_lem :
      (p : Ppu) (s : Sprite) (i : ℕ)
      → s.attr < 256
      → hidden p s i ≡ (
          (get_or p.bg_priority_flags i 0 != 0 || is_set 7 s.attr)
          && get_or p.bg_color_ids i 0 != 0)
  unfolding hidden
  hidden_lem p s i h = rw (has_bit-digit 7 s.attr (omega arith) h) (
      spread (get_or p.bg_priority_flags i 0 != 0) (is_set 7 s.attr)
        (get_or p.bg_color_ids i 0 != 0))
    where
      spread : (a b c : Bool) → ((a && c) || (b && c)) ≡ ((a || b) && c)
      spread true true true = refl
      spread true true false = refl
      spread true false true = refl
      spread true false false = refl
      spread false b c = refl

  -- A sprite with a row and a column on the screen is on the screen.
  on_screen :
      (p : Ppu) (y x : ℕ) (s : Sprite)
      → IsOnLine p y s
      → p.lcdc < 256
      → y < 144
      → x < 160
      → any_row 8 s.x (x + 8) ≡ true
      → off_screen p s ≡ false
  unfolding off_screen
  on_screen p y x s on h ly lx e =
      let r = row_lem (height_of p) y s.y on.row in
      let c : (leb s.x (x + 8) && ltb (x + 8) (s.x + 8)) ≡ true = any_row_lem 8 s.x (x + 8) ∙ e in
      let left : (s.x == 0) ≡ false = ground (arith, c, lx) in
      let right : leb 168 s.x ≡ false = ground (arith, c, lx) in
      let above : leb (s.y + height_of p) 16 ≡ false = ground (arith, r.0, r.1) in
      let below : leb 160 s.y ≡ false = ground (arith, r.0, ly) in
      rw (height_lem p h, left, right, above, below) refl

  pub shows_at-sprite_shows :
      (p : Ppu) (y x : ℕ) (s : Sprite)
      → IsOnLine p y s
      → p.lcdc < 256
      → y < 144
      → x < 160
      → shows_at vram0 vram1 memory cgb_mode p y x s ≡ sprite_shows p y x s
  unfolding shows_at
  shows_at-sprite_shows p y x s on h ly lx =
      let column = any_row_lem 8 s.x (x + 8) in
      elim (Bool-cases (any_row 8 s.x (x + 8))) [
        | inr e ↦ rw (column, e) (and_false (not (off_screen p s)))
        | inl e ↦
            let c : (leb s.x (x + 8) && ltb (x + 8) (s.x + 8)) ≡ true = column ∙ e in
            let px : x + 8 - s.x < 8 = ground (arith, c) in
            rw
              (
                on_screen p y x s on h ly lx e,
                c,
                e,
                sprite_color_lem p y s (x + 8 - s.x) on h ly px,
                hidden_lem p s (y * 160 + x) on.attr_byte,
              )
              refl
      ]
    where
      and_false : (b : Bool) → (b && false) ≡ false
      and_false true = refl
      and_false false = refl

  pub color_at-sprite_pixel :
      (p : Ppu) (y x : ℕ) (s : Sprite)
      → IsOnLine p y s
      → p.lcdc < 256
      → y < 144
      → any_row 8 s.x (x + 8) ≡ true
      → color_at vram0 vram1 memory cgb_mode p y x s
        ≡ ((sprite_pixel p y s (x + 8 - s.x)).1, (sprite_pixel p y s (x + 8 - s.x)).2)
  unfolding color_at
  color_at-sprite_pixel p y x s on h ly e =
      let c : (leb s.x (x + 8) && ltb (x + 8) (s.x + 8)) ≡ true = any_row_lem 8 s.x (x + 8) ∙ e in
      let px : x + 8 - s.x < 8 = ground (arith, c) in
      rw (sprite_color_lem p y s (x + 8 - s.x) on h ly px) refl

  pub sprite_shows-column :
      (p : Ppu) (y x : ℕ) (s : Sprite) → sprite_shows p y x s ≡ true → any_row 8 s.x (x + 8) ≡ true
  sprite_shows-column p y x s e = both_true (any_row 8 s.x (x + 8)) _ e
    where
      both_true : (b c : Bool) → (b && c) ≡ true → b ≡ true
      both_true true c e = refl
      both_true false c e = e
