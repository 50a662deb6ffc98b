-- ===== src/Mbc/Ram.antt =====
-- Cartridge RAM through the controllers: the enable latch, the selected bank and the address.
use kokura.Base.{
  ℕ, ◌+◌, ◌-◌, ◌%◌, ◌≤◌, ◌<◌, bit_and, bit_or, Bool, true, false, not, ◌&&◌, arith, ◌≡◌, refl, sym,
  List, ◌==◌, if◌then◌else◌, length, Bool-cases, inl, inr, bit_and_low, bit_or_join, get_or-set_at,
}
use kokura.Mbc.Storage.{read_ram_bank, write_ram_bank}
use kokura.Mbc.Storage.Windows.{IsBanked, read_ram_bank-write_ram_bank}
use kokura.Mbc.Mbc1.{Mbc1}
use kokura.Mbc.Mbc1
use kokura.Mbc.Mbc2.{Mbc2}
use kokura.Mbc.Mbc2
use kokura.Mbc.Mbc5.{Mbc5}
use kokura.Mbc.Mbc5

-- The window of cartridge RAM.
pub record IsRamAddress (addr : ℕ) : Type 0 where
  pub from : 0xA000 ≤ addr
  pub to : addr ≤ 0xBFFF

offset_same :
    (a a' : ℕ) → IsRamAddress a → IsRamAddress a' → (a - 0xA000 == a' - 0xA000) ≡ (a == a')
offset_same a a' p q = ground (arith, p.from, q.from)

-- What a gate on each side makes of the law of banked RAM.
gated :
    (ram : List ℕ) (e e' : Bool) (b b' a a' banks value : ℕ)
    → IsBanked ram banks 0x2000
    → IsRamAddress a
    → IsRamAddress a'
    → (if not e'
        then 0xFF
        else read_ram_bank
            (if not e then ram else write_ram_bank ram b 0x2000 (a - 0xA000) value)
            b'
            0x2000
            (a' - 0xA000))
      ≡ (if e && (e' && (b % banks == b' % banks && a == a'))
          then value
          else if not e'
          then 0xFF
          else read_ram_bank ram b' 0x2000 (a' - 0xA000))
gated ram false false b b' a a' banks value v p q = refl
gated ram true false b b' a a' banks value v p q = refl
gated ram false true b b' a a' banks value v p q = refl
gated ram true true b b' a a' banks value v p q = rw (sym (offset_same a a' p q)) (
    read_ram_bank-write_ram_bank ram b b' (a - 0xA000) (a' - 0xA000) banks 0x2000 value v
      (omega (arith, p.to)) (omega (arith, q.to)))

-- MBC1 over RAM of whole 8 KiB banks: a byte written in the RAM window under one setting of the
-- registers is read back under another exactly when both enable the RAM, both select the same
-- bank, modulo the banks there are, and the addresses agree; every other read is as if nothing
-- was written.
pub read_ram-write_ram1 :
    (m m' : Mbc1) (ram : List ℕ) (a a' banks value : ℕ)
    → IsBanked ram banks 0x2000
    → IsRamAddress a
    → IsRamAddress a'
    → Mbc1.read_ram m' (Mbc1.write_ram m ram a value) a' ≡ (
        if m.ram_enabled
          && (m'.ram_enabled
              && (Mbc1.current_ram_bank m % banks == Mbc1.current_ram_bank m' % banks && a == a'))
        then value
        else Mbc1.read_ram m' ram a')
unfolding Mbc1.read_ram Mbc1.write_ram
read_ram-write_ram1 m m' ram a a' banks value =
    gated ram m.ram_enabled m'.ram_enabled (Mbc1.current_ram_bank m) (Mbc1.current_ram_bank m') a a'
      banks value

-- MBC5 over RAM of whole 8 KiB banks keeps the law of MBC1 with its own bank register: a byte is
-- read back exactly when both settings enable the RAM and select the same bank, modulo the banks
-- there are, at the same address, and every other read is as before.
pub read_ram-write_ram5 :
    (m m' : Mbc5) (ram : List ℕ) (a a' banks value : ℕ)
    → IsBanked ram banks 0x2000
    → IsRamAddress a
    → IsRamAddress a'
    → Mbc5.read_ram m' (Mbc5.write_ram m ram a value) a' ≡ (
        if m.ram_enabled
          && (m'.ram_enabled
              && (Mbc5.current_ram_bank m % banks == Mbc5.current_ram_bank m' % banks && a == a'))
        then value
        else Mbc5.read_ram m' ram a')
unfolding Mbc5.read_ram Mbc5.write_ram
read_ram-write_ram5 m m' ram a a' banks value =
    gated ram m.ram_enabled m'.ram_enabled (Mbc5.current_ram_bank m) (Mbc5.current_ram_bank m') a a'
      banks value

nibble_high : (v : ℕ) → v < 16 → bit_or 0xF0 v ≡ 0xF0 + v
nibble_high v h = bit_or_join 4 15 v h

-- MBC2 with its 512 nibbles: a write is read back through every mirror, addresses equal modulo
-- 512, as its low nibble under a high nibble of ones, when the gate is open for both; every
-- other read is as if nothing was written.
pub read_ram-write_ram2 :
    (m m' : Mbc2) (ram : List ℕ) (a a' value : ℕ)
    → length ram ≡ 512
    → Mbc2.read_ram m' (Mbc2.write_ram m ram a value) a' ≡ (
        if m.ram_enabled && (m'.ram_enabled && a % 512 == a' % 512)
        then 0xF0 + value % 16
        else Mbc2.read_ram m' ram a')
unfolding Mbc2.read_ram Mbc2.write_ram
read_ram-write_ram2 m m' ram a a' value n = elim (Bool-cases m.ram_enabled) [
  | inl e ↦ elim (Bool-cases m'.ram_enabled) [
    | inl e' ↦
        let i = bit_and_low 9 a in
        let i' = bit_and_low 9 a' in
        let at =
          get_or-set_at ram (a % 512) (a' % 512) (bit_and value 0x0F) 0x0F (omega (arith, n)) in
        elim (Bool-cases (a % 512 == a' % 512)) [
          | inl s ↦
              rw (e, e', i, i', at, s, bit_and_low 4 value) (nibble_high (value % 16) (omega arith))
          | inr s ↦ rw (e, e', i, i', at, s) refl
        ]
    | inr e' ↦ rw (e, e') refl
  ]
  | inr e ↦ rw e refl
]
