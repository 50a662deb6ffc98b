-- ===== src/Ppu/State.antt =====
-- The state of the picture unit, crates/kokura-core/src/ppu/mod.rs, and its trace events in types.rs.
-- An entry `(usize, [u8; 4])` of the latched list is a `Sprite`, its four bytes by name.
use kokura.Base.{ℕ, Bool, false, List, [], replicate}

abbrev pub cycles_per_scanline : ℕ
cycles_per_scanline = 456

abbrev pub visible_scanlines : ℕ
visible_scanlines = 144

abbrev pub total_scanlines : ℕ
total_scanlines = 154

abbrev pub framebuffer_len : ℕ
framebuffer_len = 23040

abbrev pub screen_width : ℕ
screen_width = 160

pub data PpuMode : Type 0 where
  h_blank : PpuMode
  v_blank : PpuMode
  oam_search : PpuMode
  transfer : PpuMode

-- `mode as u8`.
abbrev pub mode_bits : PpuMode → ℕ
mode_bits h_blank = 0
mode_bits v_blank = 1
mode_bits oam_search = 2
mode_bits transfer = 3

pub data PpuTraceEvent : Type 0 where
  scanline_advance : ℕ → ℕ → PpuTraceEvent
  ppu_mode_change : ℕ → ℕ → ℕ → PpuTraceEvent
  stat_signal : Bool → ℕ → ℕ → PpuTraceEvent
  vblank_entered : ℕ → PpuTraceEvent
  frame_complete : ℕ → PpuTraceEvent
  scanline_render : ℕ → PpuTraceEvent

pub record Sprite : Type 0 where
  pub index : ℕ
  pub y : ℕ
  pub x : ℕ
  pub tile : ℕ
  pub attr : ℕ

pub record Ppu : Type 0 where
  pub lcdc : ℕ
  pub stat : ℕ
  pub ly : ℕ
  pub lyc : ℕ
  pub scx : ℕ
  pub scy : ℕ
  pub wx : ℕ
  pub wy : ℕ
  pub bgp : ℕ
  pub obp0 : ℕ
  pub obp1 : ℕ
  pub framebuffer : List ℕ
  pub color_framebuffer : List ℕ
  pub bg_color_ids : List ℕ
  pub bg_priority_flags : List ℕ
  pub scanline_sprites : List Sprite
  pub window_line_counter : ℕ
  pub mode_cycles : ℕ
  pub frame_serial : ℕ
  pub stat_interrupt_line : Bool
  pub mode3_sprite_penalty : ℕ

-- `Ppu::default`, its planes zeroed.
unfoldable pub default : Ppu
default = record {
  lcdc = 0x91;
  stat = 0x85;
  ly = 0;
  lyc = 0;
  scx = 0;
  scy = 0;
  wx = 7;
  wy = 0;
  bgp = 0xE4;
  obp0 = 0xE4;
  obp1 = 0xE4;
  framebuffer = replicate framebuffer_len 0;
  color_framebuffer = replicate framebuffer_len 0;
  bg_color_ids = replicate framebuffer_len 0;
  bg_priority_flags = replicate framebuffer_len 0;
  scanline_sprites = [];
  window_line_counter = 0;
  mode_cycles = 0;
  frame_serial = 0;
  stat_interrupt_line = false;
  mode3_sprite_penalty = 0;
}
