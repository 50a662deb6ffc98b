-- ===== src/Cpu/Regs.antt =====
-- The register file: cpu/regs.rs, cpu/mod.rs and the register pairs of lib.rs.
use kokura.Base.{ℕ, ◌+◌, bit_and, bit_or, Bool, false}
use kokura.Base.{u8, u16, ◌<<<◌, ◌>>>◌, not8, has_bit, if◌then◌else◌}

-- The four flags of the byte `Flags`.
abbrev pub z_mask : ℕ
z_mask = 0x80

abbrev pub n_mask : ℕ
n_mask = 0x40

abbrev pub h_mask : ℕ
h_mask = 0x20

abbrev pub c_mask : ℕ
c_mask = 0x10

unfoldable pub flag_z : ℕ → Bool
flag_z f = has_bit f z_mask

unfoldable pub flag_n : ℕ → Bool
flag_n f = has_bit f n_mask

unfoldable pub flag_h : ℕ → Bool
flag_h f = has_bit f h_mask

unfoldable pub flag_c : ℕ → Bool
flag_c f = has_bit f c_mask

-- `Flags::set`.
unfoldable pub set_mask : ℕ → Bool → ℕ → ℕ
set_mask mask value f = if value then bit_or f mask else bit_and f (not8 mask)

unfoldable pub set_z : Bool → ℕ → ℕ
unfolding set_mask
set_z value f = set_mask z_mask value f

unfoldable pub set_n : Bool → ℕ → ℕ
unfolding set_mask
set_n value f = set_mask n_mask value f

unfoldable pub set_h : Bool → ℕ → ℕ
unfolding set_mask
set_h value f = set_mask h_mask value f

unfoldable pub set_c : Bool → ℕ → ℕ
unfolding set_mask
set_c value f = set_mask c_mask value f

pub record Cpu : Type 0 where
  pub a : ℕ
  pub f : ℕ
  pub b : ℕ
  pub c : ℕ
  pub d : ℕ
  pub e : ℕ
  pub h : ℕ
  pub l : ℕ
  pub sp : ℕ
  pub pc : ℕ
  pub ime : Bool
  pub ime_enable_delay : ℕ
  pub halted : Bool
  pub halt_bug : Bool
  pub stopped : Bool

abbrev pub default : Cpu
default = record {
  a = 0;
  f = 0;
  b = 0;
  c = 0;
  d = 0;
  e = 0;
  h = 0;
  l = 0;
  sp = 0xFFFE;
  pc = 0x0100;
  ime = false;
  ime_enable_delay = 0;
  halted = false;
  halt_bug = false;
  stopped = false;
}

unfoldable pub hl : Cpu → ℕ
hl r = bit_or (r.h <<< 8) r.l

unfoldable pub set_hl : ℕ → Cpu → Cpu
set_hl value r = record r { h = u8 (value >>> 8); l = u8 value }

unfoldable pub ld_bc : Cpu → ℕ
ld_bc r = bit_or (r.b <<< 8) r.c

unfoldable pub set_bc : ℕ → Cpu → Cpu
set_bc value r = record r { b = u8 (value >>> 8); c = u8 value }

unfoldable pub ld_de : Cpu → ℕ
ld_de r = bit_or (r.d <<< 8) r.e

unfoldable pub set_de : ℕ → Cpu → Cpu
set_de value r = record r { d = u8 (value >>> 8); e = u8 value }

unfoldable pub inc16 : ℕ → ℕ
inc16 value = u16 (value + 1)

unfoldable pub dec16 : ℕ → ℕ
dec16 value = u16 (value + 0xFFFF)

-- An `i8` is its byte; `as i16` extends the sign, and `wrapping_add_signed` adds modulo 65536.
abbrev pub sign_extend : ℕ → ℕ
sign_extend offset = if has_bit offset 0x80 then offset + 0xFF00 else offset

unfoldable pub jr : ℕ → Cpu → Cpu
jr offset r = record r { pc = u16 (r.pc + sign_extend offset) }
