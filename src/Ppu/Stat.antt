-- ===== src/Ppu/Stat.antt =====
-- The mode and coincidence bits of STAT, and its interrupt line.
use kokura.Base.{
  ℕ, ◌<◌, bit_and, bit_or, Bool, true, false, not, ◌&&◌, ◌==◌, all_below, all_below_at, arith, ◌≡◌,
  refl, ap, ltb, if◌then◌else◌,
}
use kokura.Ppu.{
  current_mode, stat_coincidence, lcd_enabled, update_stat, stat_interrupt_selected,
  refresh_stat_interrupt_line, mode3_end_cycles, mode3_penalty_dots, bg_enabled,
  window_visible_on_line, window_enabled,
}
use kokura.Ppu.State.{Ppu, PpuMode, h_blank, v_blank, oam_search, transfer, mode_bits}

-- The bits that `update_stat` sets.
abbrev pub stat_bits : Bool → ℕ → ℕ → ℕ
stat_bits coincidence mode stat =
    bit_or (bit_and (if coincidence then bit_or stat 0x04 else bit_and stat 0xFB) 0xFC) mode

abbrev stat_test : Bool → ℕ → ℕ → Bool
stat_test c m s =
    let t = stat_bits c m s in
    stat_bits c m t == t && (ltb t 256 && (bit_and t 0x78 == bit_and s 0x78))

stat_table : (c : Bool) (m s : ℕ) → m < 4 → s < 256 → stat_test c m s ≡ true
stat_table true m s hm hs =
    all_below_at 256 (stat_test true m) s
      (all_below_at 4 (λ m. all_below 256 (stat_test true m)) m table hm) hs
  where
    table : all_below 4 (λ m. all_below 256 (stat_test true m)) ≡ true
    table = unfold all_below in refl
stat_table false m s hm hs =
    all_below_at 256 (stat_test false m) s
      (all_below_at 4 (λ m. all_below 256 (stat_test false m)) m table hm) hs
  where
    table : all_below 4 (λ m. all_below 256 (stat_test false m)) ≡ true
    table = unfold all_below in refl

pub mode_bits-lt : (m : PpuMode) → mode_bits m < 4
mode_bits-lt h_blank = omega arith
mode_bits-lt v_blank = omega arith
mode_bits-lt oam_search = omega arith
mode_bits-lt transfer = omega arith

pub stat_bits-laws :
    (c : Bool) (mode : PpuMode) (s : ℕ)
    → s < 256
    → let t = stat_bits c (mode_bits mode) s in
      (stat_bits c (mode_bits mode) t ≡ t) × (t < 256) × (bit_and t 0x78 ≡ bit_and s 0x78)
stat_bits-laws c mode s h =
    let t = stat_table c (mode_bits mode) s (mode_bits-lt mode) h in
    (ground (arith, t), ground (arith, t), ground (arith, t))

pub refresh-byte :
    (p : Ppu)
    → p.stat < 256
    → ((refresh_stat_interrupt_line p).0.stat < 256)
      × (bit_and (refresh_stat_interrupt_line p).0.stat 0x78 ≡ bit_and p.stat 0x78)
unfolding refresh_stat_interrupt_line update_stat
refresh-byte p h = let l = stat_bits-laws (p.ly == p.lyc) (current_mode p) p.stat h in (l.1, l.2)

abbrev with_line : Bool → Ppu → Ppu
with_line l p = record p { stat_interrupt_line = l }

update_stat_twice :
    (p : Ppu) (l : Bool)
    → p.stat < 256
    → update_stat (with_line l (update_stat p)) ≡ with_line l (update_stat p)
unfolding update_stat current_mode lcd_enabled mode3_end_cycles mode3_penalty_dots bg_enabled
    window_visible_on_line window_enabled
update_stat_twice p l h =
    ap (λ (s : ℕ). record p { stat = s; stat_interrupt_line = l })
      (stat_bits-laws (p.ly == p.lyc) (current_mode p) p.stat h).0

selected-with_line :
    (p : Ppu) (l : Bool) → stat_interrupt_selected (with_line l p) ≡ stat_interrupt_selected p
unfolding stat_interrupt_selected current_mode lcd_enabled stat_coincidence mode3_end_cycles
    mode3_penalty_dots bg_enabled window_visible_on_line window_enabled
selected-with_line p l = refl

no_edge : (l : Bool) → (not l && l) ≡ false
no_edge true = refl
no_edge false = refl

-- A second refresh changes nothing and reports no edge.
pub refresh_twice :
    (p : Ppu)
    → p.stat < 256
    → refresh_stat_interrupt_line (refresh_stat_interrupt_line p).0
      ≡ ((refresh_stat_interrupt_line p).0, false)
unfolding refresh_stat_interrupt_line
refresh_twice p h =
    let line = stat_interrupt_selected (update_stat p) in
    rw (update_stat_twice p line h, selected-with_line (update_stat p) line, no_edge line) refl
