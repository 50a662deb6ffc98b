-- ===== src/Ppu/Calls.antt =====
-- Any sequence of the calls that change the picture unit's timing.
use kokura.Base.{
  ℕ, ◌≤◌, ◌<◌, ◌^◌, bit_and, bit_or, bit_and-le, bit_or-lt, Bool, false, List, [], ◌∷◌, arith, ◌≡◌,
  Bool-cases, inl, inr,
}
use kokura.Memory.{Memory}
use kokura.Ppu.Redraw.{restore_runtime_state}
use kokura.Ppu.{
  lcd_enabled, write_lcdc, write_stat, write_lyc, refresh_stat_interrupt_line, update_stat,
  restarted, cleared, mode3_end_cycles,
}
use kokura.Ppu.State.{Ppu}
use kokura.Ppu.Clock.{tick, stopped}
use kokura.Ppu.Stat.{refresh-byte}
use kokura.Ppu.Sprites.{refresh_mode3_penalty, latch_scanline_state}
use kokura.Ppu.Selection.{refresh_mode3_penalty-IsValid}
use kokura.Ppu.Position.{IsValid, tick-Moves, mode3_end_cycles_bounds}

pub data Call : Type 0 where
  ticked : ℕ → Call
  lcdc_written : ℕ → Call
  stat_written : ℕ → Call
  lyc_written : ℕ → Call
  scrolled : (scx scy : ℕ) → Call
  window_moved : (wx wy : ℕ) → Call
  oam_latched : List ℕ → Call
  restored : Memory → Call

unfoldable pub apply : Call → Ppu → Ppu
apply (ticked n) p = (tick n p).0
apply (lcdc_written v) p = (write_lcdc v p).0
apply (stat_written v) p = (write_stat v p).0
apply (lyc_written v) p = (write_lyc v p).0
apply (scrolled scx scy) p = record p { scx = scx; scy = scy }
apply (window_moved wx wy) p = record p { wx = wx; wy = wy }
apply (oam_latched oam) p = refresh_mode3_penalty oam p
apply (restored memory) p = restore_runtime_state memory p

unfoldable pub apply_all : List Call → Ppu → Ppu
apply_all [] p = p
apply_all (c ∷ cs) p = apply_all cs (apply c p)

pub record IsTimed (p : Ppu) : Type 0 where
  pub valid : IsValid p
  pub serial : p.frame_serial < 18446744073709551616

refresh-IsTimed : (p : Ppu) → IsTimed p → IsTimed (refresh_stat_interrupt_line p).0
unfolding refresh_stat_interrupt_line update_stat
refresh-IsTimed p t = record {
  valid = record {
    line = t.valid.line;
    dot = t.valid.dot;
    penalty = t.valid.penalty;
    stat_byte = (refresh-byte p t.valid.stat_byte).0;
  };
  serial = t.serial;
}

stopped-IsTimed : (p : Ppu) → IsTimed p → IsTimed (stopped p)
unfolding stopped
stopped-IsTimed p t = record {
  valid = record {
    line = omega arith;
    dot = omega arith;
    penalty = t.valid.penalty;
    stat_byte = t.valid.stat_byte;
  };
  serial = t.serial;
}

tick_off :
    (n : ℕ) (p : Ppu)
    → lcd_enabled p ≡ false
    → (tick n p).0 ≡ (refresh_stat_interrupt_line (stopped p)).0
unfolding tick lcd_enabled
tick_off n p off = ground arith

tick-IsTimed : (n : ℕ) (p : Ppu) → IsTimed p → IsTimed (tick n p).0
tick-IsTimed n p t = elim (Bool-cases (lcd_enabled p)) [
  | inl on ↦
      let m = tick-Moves n p t.valid t.serial on in
      record { valid = m.valid; serial = omega (arith, m.frames) }
  | inr off ↦ rw (tick_off n p off) (refresh-IsTimed (stopped p) (stopped-IsTimed p t))
]

written-IsTimed : (v : ℕ) (p : Ppu) → IsTimed p → IsTimed (write_lcdc v p).0
unfolding write_lcdc cleared restarted
written-IsTimed v p t = refresh-IsTimed _ (record {
  valid = record {
    line = ground arith;
    dot = ground arith;
    penalty = ground arith;
    stat_byte = ground arith;
  };
  serial = ground arith;
})

stat_written-IsTimed : (v : ℕ) (p : Ppu) → IsTimed p → IsTimed (write_stat v p).0
unfolding write_stat
stat_written-IsTimed v p t =
    let low : bit_and p.stat 0x87 < 2 ^ 8 = omega (arith, bit_and-le p.stat 0x87) in
    let high : bit_and v 0x78 < 2 ^ 8 = omega (arith, bit_and-le v 0x78) in
    let byte = bit_or-lt 8 (bit_and p.stat 0x87) (bit_and v 0x78) low high in
    refresh-IsTimed (record p { stat = bit_or (bit_and p.stat 0x87) (bit_and v 0x78) })
      (record {
        valid = record {
          line = t.valid.line;
          dot = t.valid.dot;
          penalty = t.valid.penalty;
          stat_byte = byte;
        };
        serial = t.serial;
      })

same_serial : (oam : List ℕ) (p : Ppu) → (refresh_mode3_penalty oam p).frame_serial ≡ p.frame_serial
unfolding refresh_mode3_penalty latch_scanline_state
same_serial oam p = ground arith

latched-IsTimed : (oam : List ℕ) (p : Ppu) → IsTimed p → IsTimed (refresh_mode3_penalty oam p)
latched-IsTimed oam p t = record {
  valid = refresh_mode3_penalty-IsValid oam p t.valid;
  serial = rw (same_serial oam p) t.serial;
}

-- A picture unit with other planes and another STAT line.
with_planes-IsTimed :
    (colors ids flags : List ℕ) (line : Bool) (p : Ppu)
    → IsTimed p
    → IsTimed (record p {
      color_framebuffer = colors;
      bg_color_ids = ids;
      bg_priority_flags = flags;
      stat_interrupt_line = line;
    })
with_planes-IsTimed colors ids flags line p t = record {
  valid = record {
    line = t.valid.line;
    dot = t.valid.dot;
    penalty = t.valid.penalty;
    stat_byte = t.valid.stat_byte;
  };
  serial = t.serial;
}

update_stat-IsTimed : (p : Ppu) → IsTimed p → IsTimed (update_stat p)
unfolding update_stat refresh_stat_interrupt_line
update_stat-IsTimed p t = with_planes-IsTimed _ _ _ p.stat_interrupt_line _ (refresh-IsTimed p t)

restored-IsTimed :
    (memory : Memory) (p : Ppu) → IsTimed p → IsTimed (restore_runtime_state memory p)
unfolding restore_runtime_state
restored-IsTimed memory p t =
    latched-IsTimed _ _
      (refresh-IsTimed _ (update_stat-IsTimed _ (with_planes-IsTimed _ _ _ false p t)))

apply-IsTimed : (c : Call) (p : Ppu) → IsTimed p → IsTimed (apply c p)
unfolding apply write_lyc
apply-IsTimed (ticked n) p t = tick-IsTimed n p t
apply-IsTimed (lcdc_written v) p t = written-IsTimed v p t
apply-IsTimed (stat_written v) p t = stat_written-IsTimed v p t
apply-IsTimed (lyc_written v) p t =
    refresh-IsTimed (record p { lyc = v })
      (record {
        valid = record {
          line = t.valid.line;
          dot = t.valid.dot;
          penalty = t.valid.penalty;
          stat_byte = t.valid.stat_byte;
        };
        serial = t.serial;
      })
apply-IsTimed (scrolled scx scy) p t = record {
  valid = record {
    line = t.valid.line;
    dot = t.valid.dot;
    penalty = t.valid.penalty;
    stat_byte = t.valid.stat_byte;
  };
  serial = t.serial;
}
apply-IsTimed (window_moved wx wy) p t = record {
  valid = record {
    line = t.valid.line;
    dot = t.valid.dot;
    penalty = t.valid.penalty;
    stat_byte = t.valid.stat_byte;
  };
  serial = t.serial;
}
apply-IsTimed (oam_latched oam) p t = latched-IsTimed oam p t
apply-IsTimed (restored memory) p t = restored-IsTimed memory p t

apply_all-IsTimed : (cs : List Call) (p : Ppu) → IsTimed p → IsTimed (apply_all cs p)
unfolding apply_all
apply_all-IsTimed [] p t = t
apply_all-IsTimed (c ∷ cs) p t = apply_all-IsTimed cs (apply c p) (apply-IsTimed c p t)

-- Through every sequence of ticks, writes of LCDC, STAT, LYC, scroll and window, and latches of
-- any OAM and repairs after a load with any memory, from a state in its ranges: the line, the
-- cycle, the sprite penalty, STAT and the frame counter stay in their ranges, and the transfer
-- of every line ends between cycles 252 and 375.
pub apply_all-ends :
    (cs : List Call) (p : Ppu) (line : ℕ)
    → IsTimed p
    → IsTimed (apply_all cs p)
      × (252 ≤ mode3_end_cycles (apply_all cs p) line)
      × (mode3_end_cycles (apply_all cs p) line ≤ 375)
apply_all-ends cs p line t =
    let r = apply_all-IsTimed cs p t in
    let b = mode3_end_cycles_bounds (apply_all cs p) line r.valid.penalty in (r, b.0, b.1)
