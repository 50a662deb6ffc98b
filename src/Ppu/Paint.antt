-- ===== src/Ppu/Paint.antt =====
-- What a sprite of crates/kokura-core/src/ppu/mod.rs paints over a line, pixel by pixel.
use kokura.Base.{
  ℕ, zero, suc, ◌+◌, ◌-◌, ◌<◌, Bool, true, false, not, ◌&&◌, ◌||◌, List, ◌==◌, leb, ltb,
  if◌then◌else◌, get_or, length, length-set, get_or-set_at, arith, ◌≡◌, refl, ap, ◌∙◌, Bool-cases,
  inl, inr,
}
use kokura.Memory.{Memory}
use kokura.Ppu.{sprite_height}
use kokura.Ppu.State.{Ppu, Sprite}
use kokura.Ppu.Render.{
  line_base, sprite_color, hidden, put_sprite_pixel, put_sprite_row, off_screen,
}

-- The shade and the color of a place of the screen.
abbrev pub seen : Ppu → ℕ → ℕ × ℕ
seen p i = (get_or p.framebuffer i 0, get_or p.color_framebuffer i 0)

-- The same but for the two planes that sprites are drawn on, and these of their length.
pub record Painted (p p' : Ppu) : Type 0 where
  pub same :
      p' ≡ record p { framebuffer = p'.framebuffer; color_framebuffer = p'.color_framebuffer }
  pub grays : length p'.framebuffer ≡ 23040
  pub colors : length p'.color_framebuffer ≡ 23040

pub Painted-refl :
    (p : Ppu) → length p.framebuffer ≡ 23040 → length p.color_framebuffer ≡ 23040 → Painted p p
Painted-refl p g c = record { same = refl; grays = g; colors = c }

pub Painted-trans : (p q r : Ppu) → Painted p q → Painted q r → Painted p r
Painted-trans p q r d e = record {
  same =
      e.same
      ∙ ap
          (λ (x : Ppu). record x {
            framebuffer = r.framebuffer;
            color_framebuffer = r.color_framebuffer;
          })
          d.same;
  grays = e.grays;
  colors = e.colors;
}

hidden-Painted : (p p' : Ppu) (s : Sprite) (i : ℕ) → Painted p p' → hidden p' s i ≡ hidden p s i
unfolding hidden
hidden-Painted p p' s i d = ap (λ (q : Ppu). hidden q s i) d.same

pub off_screen-Painted : (p p' : Ppu) (s : Sprite) → Painted p p' → off_screen p' s ≡ off_screen p s
unfolding off_screen sprite_height
off_screen-Painted p p' s d = ap (λ (q : Ppu). off_screen q s) d.same

module _ (vram0 vram1 : List ℕ) (memory : Memory) (cgb_mode : Bool) where
  -- Whether a sprite shows at column `x` of line `y`, and what.
  unfoldable pub shows_at : Ppu → ℕ → ℕ → Sprite → Bool
  shows_at p y x s =
      not (off_screen p s)
      && ((leb s.x (x + 8) && ltb (x + 8) (s.x + 8))
          && (not ((sprite_color vram0 vram1 memory cgb_mode p y s (x + 8 - s.x)).0 == 0)
              && not (hidden p s (line_base y + x))))

  unfoldable pub color_at : Ppu → ℕ → ℕ → Sprite → ℕ × ℕ
  color_at p y x s =
      let c = sprite_color vram0 vram1 memory cgb_mode p y s (x + 8 - s.x) in (c.1, c.2)

  -- What one column puts at `x`.
  abbrev puts : Ppu → ℕ → ℕ → Sprite → Bool
  puts p y x s =
      not ((sprite_color vram0 vram1 memory cgb_mode p y s (x + 8 - s.x)).0 == 0)
      && not (hidden p s (line_base y + x))

  sprite_color-Painted :
      (p p' : Ppu) (y px : ℕ) (s : Sprite)
      → Painted p p'
      → sprite_color vram0 vram1 memory cgb_mode p' y s px
        ≡ sprite_color vram0 vram1 memory cgb_mode p y s px
  unfolding sprite_color sprite_height
  sprite_color-Painted p p' y px s d =
      ap (λ (q : Ppu). sprite_color vram0 vram1 memory cgb_mode q y s px) d.same

  put_sprite_pixel-Painted :
      (y px : ℕ) (s : Sprite) (p : Ppu)
      → length p.framebuffer ≡ 23040
      → length p.color_framebuffer ≡ 23040
      → Painted p (put_sprite_pixel vram0 vram1 memory cgb_mode y s px p)
  unfolding put_sprite_pixel
  put_sprite_pixel-Painted y px s p g c =
      let idx = line_base y + (s.x + px - 8) in
      let color = sprite_color vram0 vram1 memory cgb_mode p y s px in
      elim (Bool-cases (ltb (s.x + px) 8 || leb 160 (s.x + px - 8))) [
        | inl out ↦ rw out (Painted-refl p g c)
        | inr on ↦ elim (Bool-cases (color.0 == 0)) [
          | inl clear ↦ rw (on, clear) (Painted-refl p g c)
          | inr opaque ↦ elim (Bool-cases (hidden p s idx)) [
            | inl behind ↦ rw (on, opaque, behind) (Painted-refl p g c)
            | inr shown ↦
                rw (on, opaque, shown)
                  (record {
                    same = refl;
                    grays = length-set p.framebuffer idx color.1 ∙ g;
                    colors = length-set p.color_framebuffer idx color.2 ∙ c;
                  })
          ]
        ]
      ]

  put_sprite_pixel-seen :
      (y px x : ℕ) (s : Sprite) (p : Ppu)
      → length p.framebuffer ≡ 23040
      → length p.color_framebuffer ≡ 23040
      → y < 144
      → x < 160
      → seen (put_sprite_pixel vram0 vram1 memory cgb_mode y s px p) (line_base y + x)
        ≡ (if s.x + px == x + 8 && puts p y x s then color_at p y x s else seen p (line_base y + x))
  unfolding put_sprite_pixel color_at
  put_sprite_pixel-seen y px x s p g c ly lx =
      let idx = line_base y + (s.x + px - 8) in
      let color = sprite_color vram0 vram1 memory cgb_mode p y s px in
      elim (Bool-cases (ltb (s.x + px) 8 || leb 160 (s.x + px - 8))) [
        | inl out ↦
            let other : (s.x + px == x + 8) ≡ false = ground (arith, out) in rw (out, other) refl
        | inr on ↦ elim (Bool-cases (s.x + px == x + 8)) [
          | inl here ↦
              let column : x + 8 - s.x ≡ px = ground (arith, here) in
              let at : line_base y + (s.x + px - 8) ≡ line_base y + x = ground (arith, here) in
              elim (Bool-cases (color.0 == 0)) [
                | inl clear ↦ rw (on, here, column, clear) refl
                | inr opaque ↦ elim (Bool-cases (hidden p s (line_base y + x))) [
                  | inl behind ↦ rw (on, here, column, opaque, at, behind) refl
                  | inr shown ↦
                      rw
                        (
                          on,
                          here,
                          column,
                          opaque,
                          at,
                          shown,
                          get_or-set_at p.framebuffer (line_base y + x) (line_base y + x) color.1 0
                              (omega (arith, g)),
                          get_or-set_at p.color_framebuffer (line_base y + x) (line_base y + x)
                              color.2 0 (omega (arith, c)),
                          self (line_base y + x),
                        )
                        refl
                ]
              ]
          | inr away ↦
              let other : (line_base y + (s.x + px - 8) == line_base y + x) ≡ false =
                ground (arith, away, on) in
              elim (Bool-cases (color.0 == 0)) [
                | inl clear ↦ rw (on, away, clear) refl
                | inr opaque ↦ elim (Bool-cases (hidden p s idx)) [
                  | inl behind ↦ rw (on, away, opaque, behind) refl
                  | inr shown ↦
                      rw
                        (
                          on,
                          away,
                          opaque,
                          shown,
                          get_or-set_at p.framebuffer idx (line_base y + x) color.1 0
                              (ground (arith, g, on)),
                          get_or-set_at p.color_framebuffer idx (line_base y + x) color.2 0
                              (ground (arith, c, on)),
                          other,
                        )
                        refl
                ]
              ]
        ]
      ]
    where
      self : (i : ℕ) → (i == i) ≡ true
      self i = ground arith

  pub put_sprite_row-Painted :
      (n y : ℕ) (s : Sprite) (p : Ppu)
      → length p.framebuffer ≡ 23040
      → length p.color_framebuffer ≡ 23040
      → Painted p (put_sprite_row vram0 vram1 memory cgb_mode n y s p)
  unfolding put_sprite_row
  put_sprite_row-Painted zero y s p g c = Painted-refl p g c
  put_sprite_row-Painted (suc n) y s p g c =
      let q = put_sprite_row vram0 vram1 memory cgb_mode n y s p in
      let ih = put_sprite_row-Painted n y s p g c in
      Painted-trans p q (put_sprite_pixel vram0 vram1 memory cgb_mode y s n q) ih
        (put_sprite_pixel-Painted y n s q ih.grays ih.colors)

  -- What is drawn depends on what sprites do not change.
  pub puts-Painted :
      (p q : Ppu) (y x : ℕ) (s : Sprite)
      → Painted p q
      → (puts q y x s ≡ puts p y x s) × (color_at q y x s ≡ color_at p y x s)
  unfolding color_at
  puts-Painted p q y x s d =
      let c = sprite_color-Painted p q y (x + 8 - s.x) s d in
      let h = hidden-Painted p q s (line_base y + x) d in (rw (c, h) refl, rw c refl)

  pub put_sprite_row-seen :
      (n y x : ℕ) (s : Sprite) (p : Ppu)
      → length p.framebuffer ≡ 23040
      → length p.color_framebuffer ≡ 23040
      → y < 144
      → x < 160
      → seen (put_sprite_row vram0 vram1 memory cgb_mode n y s p) (line_base y + x) ≡ (
          if (leb s.x (x + 8) && ltb (x + 8) (s.x + n)) && puts p y x s
          then color_at p y x s
          else seen p (line_base y + x))
  unfolding put_sprite_row
  put_sprite_row-seen zero y x s p g c ly lx =
      let none : (leb s.x (x + 8) && ltb (x + 8) (s.x + 0)) ≡ false = ground arith in rw none refl
  put_sprite_row-seen (suc n) y x s p g c ly lx =
      let q = put_sprite_row vram0 vram1 memory cgb_mode n y s p in
      let d = put_sprite_row-Painted n y s p g c in
      let last = put_sprite_pixel-seen y n x s q d.grays d.colors ly lx in
      let ih = put_sprite_row-seen n y x s p g c ly lx in
      let k = puts-Painted p q y x s d in
      elim (Bool-cases (s.x + n == x + 8)) [
        | inl e ↦
            let before : (leb s.x (x + 8) && ltb (x + 8) (s.x + n)) ≡ false = ground (arith, e) in
            let here : (leb s.x (x + 8) && ltb (x + 8) (s.x + suc n)) ≡ true = ground (arith, e) in
            let old : seen q (line_base y + x) ≡ seen p (line_base y + x) = ih ∙ rw before refl in
            last ∙ rw (e, k.0, k.1, here, old) refl
        | inr e ↦
            let same : (leb s.x (x + 8) && ltb (x + 8) (s.x + suc n))
                ≡ (leb s.x (x + 8) && ltb (x + 8) (s.x + n)) =
              ground (arith, e) in
            last ∙ rw (e, same) ih
      ]
