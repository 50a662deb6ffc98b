-- ===== src/Ppu/Overlay.antt =====
-- What a line shows after its sprites are drawn over it.
use kokura.Base.{
  ℕ, ◌+◌, ◌*◌, ◌<◌, Bool, Option, none, some, List, [], ◌∷◌, if◌then◌else◌, length, Option-cases,
  sort, true, ◌-◌, ◌≡◌, refl, ap, ◌∙◌, Bool-cases, inl, inr,
}
use kokura.Memory.{Memory}
use kokura.Ppu.State.{Ppu, Sprite}
use kokura.Ppu.Sprites.{by_x}
use kokura.Ppu.Render.{
  line_base, put_sprite_row, off_screen, put_sprites,
  overlay_sprite_list_on_scanline_with_vram_mode,
}
use kokura.Ppu.Front.{front, last_shown, last_shown-sort, Meets, All, front-Meets, front-agrees}
use kokura.Ppu.Shown.{
  IsOnLine, sprite_pixel, sprite_shows, sprite_shows-column, shows_at-sprite_shows,
  color_at-sprite_pixel,
}
use kokura.Ppu.Paint.{
  seen, Painted, Painted-refl, Painted-trans, off_screen-Painted, shows_at, color_at,
  put_sprite_row-Painted, puts-Painted, put_sprite_row-seen,
}

module _ (vram0 vram1 : List ℕ) (memory : Memory) (cgb_mode : Bool) where
  shows_at-Painted :
      (p q : Ppu) (y x : ℕ) (s : Sprite)
      → Painted p q
      → shows_at vram0 vram1 memory cgb_mode q y x s ≡ shows_at vram0 vram1 memory cgb_mode p y x s
  unfolding shows_at
  shows_at-Painted p q y x s d =
      let k = puts-Painted vram0 vram1 memory cgb_mode p q y x s d in
      let o = off_screen-Painted p q s d in rw (k.0, o) refl

  abbrev after : Ppu → ℕ → Sprite → Ppu
  after q y s = if off_screen q s then q else put_sprite_row vram0 vram1 memory cgb_mode 8 y s q

  after-Painted : (p q : Ppu) (y : ℕ) (s : Sprite) → Painted p q → Painted p (after q y s)
  after-Painted p q y s d = elim (Bool-cases (off_screen q s)) [
    | inl o ↦ rw o d
    | inr o ↦ rw o (
        Painted-trans p q (put_sprite_row vram0 vram1 memory cgb_mode 8 y s q) d
          (put_sprite_row-Painted vram0 vram1 memory cgb_mode 8 y s q d.grays d.colors))
  ]

  after-seen :
      (p q : Ppu) (y x : ℕ) (s : Sprite)
      → Painted p q
      → y < 144
      → x < 160
      → seen (after q y s) (line_base y + x) ≡ (
          if shows_at vram0 vram1 memory cgb_mode p y x s
          then color_at vram0 vram1 memory cgb_mode p y x s
          else seen q (line_base y + x))
  unfolding shows_at
  after-seen p q y x s d ly lx =
      let k = puts-Painted vram0 vram1 memory cgb_mode p q y x s d in
      let o = off_screen-Painted p q s d in
      elim (Bool-cases (off_screen p s)) [
        | inl off ↦ rw (o, off) refl
        | inr on ↦
            rw (o, on)
              (put_sprite_row-seen vram0 vram1 memory cgb_mode 8 y x s q d.grays d.colors ly lx
                ∙ rw (k.0, k.1) refl)
      ]

  -- What the last of a list of sprites shows, over what was there.
  abbrev pub drawn : Ppu → ℕ → ℕ → ℕ × ℕ → Option Sprite → ℕ × ℕ
  drawn p y x old none = old
  drawn p y x old (some s) = color_at vram0 vram1 memory cgb_mode p y x s

  put_sprites-seen :
      (p q : Ppu) (y x : ℕ) (ss : List Sprite)
      → Painted p q
      → y < 144
      → x < 160
      → seen (put_sprites vram0 vram1 memory cgb_mode y ss q) (line_base y + x)
        ≡ drawn p y x
            (seen q (line_base y + x))
            (last_shown (shows_at vram0 vram1 memory cgb_mode p y x) ss)
  unfolding put_sprites last_shown
  put_sprites-seen p q y x [] d ly lx = refl
  put_sprites-seen p q y x (s ∷ ss) d ly lx =
      let ih = put_sprites-seen p (after q y s) y x ss (after-Painted p q y s d) ly lx in
      let here = after-seen p q y x s d ly lx in
      elim (Option-cases (last_shown (shows_at vram0 vram1 memory cgb_mode p y x) ss)) [
        | inr (t, e) ↦ ih ∙ rw (e) refl
        | inl e ↦
            ih
            ∙ rw (e, here)
                (elim (Bool-cases (shows_at vram0 vram1 memory cgb_mode p y x s)) [
                  | inl f ↦ rw f refl
                  | inr f ↦ rw f refl
                ])
      ]

  overlay_drawn :
      (sprites : List Sprite) (y x : ℕ) (p : Ppu)
      → length p.framebuffer ≡ 23040
      → length p.color_framebuffer ≡ 23040
      → y < 144
      → x < 160
      → let p' =
          overlay_sprite_list_on_scanline_with_vram_mode vram0 vram1 memory cgb_mode sprites y p in
        seen p' (y * 160 + x)
        ≡ drawn p y x
            (seen p (y * 160 + x))
            (front (shows_at vram0 vram1 memory cgb_mode p y x) sprites)
  unfolding overlay_sprite_list_on_scanline_with_vram_mode
  overlay_drawn sprites y x p g c ly lx =
      put_sprites-seen p p y x (sort (λ s t. by_x t s) sprites) (Painted-refl p g c) ly lx
      ∙ ap (drawn p y x (seen p (y * 160 + x)))
          (last_shown-sort (shows_at vram0 vram1 memory cgb_mode p y x) sprites)

  -- The pixel of a sprite, over what was there.
  abbrev pub shown : Ppu → ℕ → ℕ → ℕ × ℕ → Option Sprite → ℕ × ℕ
  shown p y x old none = old
  shown p y x old (some s) =
      let pixel = sprite_pixel vram0 vram1 memory cgb_mode p y s (x + 8 - s.x) in (pixel.1, pixel.2)

  drawn_shown :
      (p : Ppu) (y x : ℕ) (old : ℕ × ℕ) (o : Option Sprite)
      → p.lcdc < 256
      → y < 144
      → Meets (λ s. IsOnLine p y s × (sprite_shows vram0 vram1 memory cgb_mode p y x s ≡ true)) o
      → drawn p y x old o ≡ shown p y x old o
  drawn_shown p y x old none h ly m = refl
  drawn_shown p y x old (some s) h ly m =
      color_at-sprite_pixel vram0 vram1 memory cgb_mode p y x s m.0 h ly
        (sprite_shows-column vram0 vram1 memory cgb_mode p y x s m.1)

  -- On a visible line, with planes of whole screens, a byte in LCDC, and sprites of bytes that each
  -- have a row on the line, the shade and color at each column after the overlay are those that
  -- video RAM describes for the sprite in front: of the sprites with a column there, of a color
  -- other than 0 and without a background of a color other than 0 in front, the one of the smallest
  -- X and then of the smallest index. Its texel is that of its row and column, turned over as its
  -- attributes say, in the tile, bank and palette that they and LCDC select. Where none shows, they
  -- are as before.
  pub overlay-front :
      (sprites : List Sprite) (y x : ℕ) (p : Ppu)
      → length p.framebuffer ≡ 23040
      → length p.color_framebuffer ≡ 23040
      → y < 144
      → x < 160
      → p.lcdc < 256
      → All (IsOnLine p y) sprites
      → let p' =
          overlay_sprite_list_on_scanline_with_vram_mode vram0 vram1 memory cgb_mode sprites y p in
        seen p' (y * 160 + x)
        ≡ shown p y x
            (seen p (y * 160 + x))
            (front (sprite_shows vram0 vram1 memory cgb_mode p y x) sprites)
  overlay-front sprites y x p g c ly lx h on =
      let shows = sprite_shows vram0 vram1 memory cgb_mode p y x in
      overlay_drawn sprites y x p g c ly lx
      ∙ ap (drawn p y x (seen p (y * 160 + x))) (
          front-agrees (IsOnLine p y) (shows_at vram0 vram1 memory cgb_mode p y x) shows sprites
            (λ s o. shows_at-sprite_shows vram0 vram1 memory cgb_mode p y x s o h ly lx) on)
      ∙ drawn_shown p y x (seen p (y * 160 + x)) (front shows sprites) h ly
          (front-Meets (IsOnLine p y) shows sprites on)
