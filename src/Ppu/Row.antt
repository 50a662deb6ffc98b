-- ===== src/Ppu/Row.antt =====
-- A line that crates/kokura-core/src/ppu/mod.rs draws, pixel by pixel.
use kokura.Base.{
  ℕ, zero, suc, ◌+◌, ◌-◌, ◌*◌, ◌<◌, ◌≤◌, Bool, true, false, ◌&&◌, Option, List, ◌==◌, leb, ltb,
  if◌then◌else◌, get_or, has_bit-digit, length, length-set, get_or-set_at, arith, ◌≡◌, refl, ◌∙◌,
  Bool-cases, inl, inr,
}
use kokura.Memory.{Memory}
use kokura.Ppu.{bg_enabled, dmg_gray_rgb555}
use kokura.Ppu.State.{Ppu}
use kokura.Ppu.Picture.{is_set, plane_pixel, bg_pixel-plane_pixel}
use kokura.Ppu.Render.{
  Pixel, blank_pixel, bg_pixel, put_pixel, put_row, render_scanline_from_vram_with_mode,
}

-- Planes of a whole screen.
pub record HasPlanes (p : Ppu) : Type 0 where
  pub ids : length p.bg_color_ids ≡ 23040
  pub flags : length p.bg_priority_flags ≡ 23040
  pub grays : length p.framebuffer ≡ 23040
  pub colors : length p.color_framebuffer ≡ 23040

-- The four planes at a place.
abbrev pub pixel_at : Ppu → ℕ → Pixel
pixel_at p i = record {
  color_id = get_or p.bg_color_ids i 0;
  priority = get_or p.bg_priority_flags i 0;
  gray = get_or p.framebuffer i 0;
  rgb555 = get_or p.color_framebuffer i 0;
}

put_pixel-HasPlanes : (at : ℕ) (c : Pixel) (p : Ppu) → HasPlanes p → HasPlanes (put_pixel at c p)
unfolding put_pixel
put_pixel-HasPlanes at c p h = record {
  ids = length-set p.bg_color_ids at c.color_id ∙ h.ids;
  flags = length-set p.bg_priority_flags at c.priority ∙ h.flags;
  grays = length-set p.framebuffer at c.gray ∙ h.grays;
  colors = length-set p.color_framebuffer at c.rgb555 ∙ h.colors;
}

if_pixel :
    (b : Bool) (c d : Pixel)
    → (record {
      color_id = if b then c.color_id else d.color_id;
      priority = if b then c.priority else d.priority;
      gray = if b then c.gray else d.gray;
      rgb555 = if b then c.rgb555 else d.rgb555;
    })
      ≡ (if b then c else d)
if_pixel true c d = refl
if_pixel false c d = refl

pixel_at-put_pixel :
    (at i : ℕ) (c : Pixel) (p : Ppu)
    → HasPlanes p
    → at < 23040
    → pixel_at (put_pixel at c p) i ≡ (if at == i then c else pixel_at p i)
unfolding put_pixel
pixel_at-put_pixel at i c p h l =
    rw
      (
        get_or-set_at p.bg_color_ids at i c.color_id 0 (omega (arith, h.ids)),
        get_or-set_at p.bg_priority_flags at i c.priority 0 (omega (arith, h.flags)),
        get_or-set_at p.framebuffer at i c.gray 0 (omega (arith, h.grays)),
        get_or-set_at p.color_framebuffer at i c.rgb555 0 (omega (arith, h.colors)),
      )
      (if_pixel (at == i) c (pixel_at p i))

put_row-HasPlanes :
    (n base : ℕ) (f : ℕ → Pixel) (p : Ppu) → HasPlanes p → HasPlanes (put_row n base f p)
unfolding put_row
put_row-HasPlanes zero base f p h = h
put_row-HasPlanes (suc n) base f p h =
    put_pixel-HasPlanes (base + n) (f n) (put_row n base f p) (put_row-HasPlanes n base f p h)

pixel_at-put_row :
    (n base i : ℕ) (f : ℕ → Pixel) (p : Ppu)
    → HasPlanes p
    → base + n ≤ 23040
    → pixel_at (put_row n base f p) i
      ≡ (if leb base i && ltb i (base + n) then f (i - base) else pixel_at p i)
unfolding put_row
pixel_at-put_row zero base i f p h l =
    let out : (leb base i && ltb i (base + 0)) ≡ false = ground arith in rw out refl
pixel_at-put_row (suc n) base i f p h l =
    let ih = pixel_at-put_row n base i f p h (omega arith) in
    let last =
      pixel_at-put_pixel (base + n) i (f n) (put_row n base f p) (put_row-HasPlanes n base f p h)
        (omega arith) in
    elim (Bool-cases (base + n == i)) [
      | inl e ↦
          let here : (leb base i && ltb i (base + suc n)) ≡ true = ground (arith, e) in
          let same : i - base ≡ n = ground (arith, e) in last ∙ rw (e, here, same) refl
      | inr e ↦
          let same : (leb base i && ltb i (base + suc n)) ≡ (leb base i && ltb i (base + n)) =
            ground (arith, e) in
          last ∙ rw (e, same) ih
    ]

-- A line with the background off: color 0, which is white, behind every sprite.
abbrev pub white : Pixel
white = record { color_id = 0; priority = 0; gray = 0; rgb555 = 0x7FFF }

drawn_line :
    (here on lit : Bool) (c d blank q : Pixel)
    → on ≡ lit
    → c ≡ d
    → blank ≡ white
    → (if here then if on then c else blank else q) ≡ (if here then if lit then d else white else q)
drawn_line here on lit c d blank q e h w = rw (e, h, w) refl

blank_pixel_lem : blank_pixel ≡ white
unfolding blank_pixel dmg_gray_rgb555
blank_pixel_lem = refl

pixel_at-render_line :
    (vram0 vram1 : List ℕ) (memory : Memory) (cgb_mode : Bool) (y : ℕ) (window_line : Option ℕ)
    (p : Ppu) (i : ℕ)
    → HasPlanes p
    → y < 144
    → let p' = render_scanline_from_vram_with_mode vram0 vram1 memory cgb_mode y window_line p in
      pixel_at p' i ≡ (
        if leb (y * 160) i && ltb i (y * 160 + 160)
        then if bg_enabled p
          then bg_pixel vram0 vram1 memory cgb_mode p y window_line (i - y * 160)
          else blank_pixel
        else pixel_at p i)
unfolding render_scanline_from_vram_with_mode
pixel_at-render_line vram0 vram1 memory cgb_mode y window_line p i h l =
    elim (Bool-cases (bg_enabled p)) [
      | inl on ↦ rw on (
          pixel_at-put_row 160 (y * 160) i (bg_pixel vram0 vram1 memory cgb_mode p y window_line) p
            h (omega arith))
      | inr off ↦ rw off (pixel_at-put_row 160 (y * 160) i (λ x. blank_pixel) p h (omega arith))
    ]

enabled_lem : (p : Ppu) → p.lcdc < 256 → bg_enabled p ≡ is_set 0 p.lcdc
unfolding bg_enabled
enabled_lem p h = has_bit-digit 0 p.lcdc (omega arith) h

-- On planes of whole screens, with byte values in LCDC and the attribute bank, drawing a visible
-- line gives each of its 160 places the pixel that video RAM describes for its column: the texel
-- of the map's tile at the scrolled place, or at the window's, with the tile's mirrorings, bank
-- and palette in color mode, its priority, and its shade and color; white with the background
-- off. Every other place of the four planes is as before.
pub pixel_at-render_scanline :
    (vram0 vram1 : List ℕ) (memory : Memory) (cgb_mode : Bool) (y : ℕ) (window_line : Option ℕ)
    (p : Ppu) (i : ℕ)
    → HasPlanes p
    → y < 144
    → p.lcdc < 256
    → ((j : ℕ) → get_or vram1 j 0 < 256)
    → let p' = render_scanline_from_vram_with_mode vram0 vram1 memory cgb_mode y window_line p in
      pixel_at p' i ≡ (
        if leb (y * 160) i && ltb i (y * 160 + 160)
        then if is_set 0 p.lcdc
          then plane_pixel vram0 vram1 memory cgb_mode p y window_line (i - y * 160)
          else white
        else pixel_at p i)
pixel_at-render_scanline vram0 vram1 memory cgb_mode y window_line p i h l hl hv =
    pixel_at-render_line vram0 vram1 memory cgb_mode y window_line p i h l
    ∙ drawn_line (leb (y * 160) i && ltb i (y * 160 + 160)) (bg_enabled p) (is_set 0 p.lcdc) _ _ _
        (pixel_at p i) (enabled_lem p hl)
        (bg_pixel-plane_pixel vram0 vram1 memory cgb_mode p y window_line (i - y * 160) hv hl l)
        blank_pixel_lem
