-- ===== src/Mbc/Registers.antt =====
-- What the bank registers of the controllers can hold, and which banks a program can select.
use kokura.Base.{
  inl, inr, Bool-cases, ℕ, ◌+◌, ◌*◌, ◌/◌, ◌%◌, ◌≤◌, ◌<◌, bit_and, bit_or, Bool, true, false, arith,
  ◌≡◌, ◌≢◌, refl, ◌==◌, ==_iff, ◌<<<◌, in_range, if◌then◌else◌, all_below, all_below_at, bit_and-le,
  bit_and_low, digit, bit_and-single, ◌||◌,
}
use kokura.Mbc.Mbc1.{Mbc1}
use kokura.Mbc.Mbc1
use kokura.Mbc.Mbc2.{Mbc2}
use kokura.Mbc.Mbc2
use kokura.Mbc.Mbc5.{Mbc5}
use kokura.Mbc.Mbc5

-- The registers of MBC1 that its control writes can leave.
pub record Valid1 (m : Mbc1) : Type 0 where
  pub low5_some : 1 ≤ m.rom_bank_low5
  pub low5 : m.rom_bank_low5 < 32
  pub high2 : m.bank_high2 < 4
  pub ram : m.ram_bank < 4
  pub mode : m.mode < 2

pub default-Valid1 : Valid1 Mbc1.default
default-Valid1 = record {
  low5_some = omega arith;
  low5 = omega arith;
  high2 = omega arith;
  ram = omega arith;
  mode = omega arith;
}

-- Every control write, at any address and with any value, keeps the registers of MBC1 in range:
-- a low field of 1 to 31, two-bit high and RAM fields and a one-bit mode.
pub write-Valid1 : (addr value : ℕ) (m : Mbc1) → Valid1 m → Valid1 (Mbc1.write addr value m)
unfolding Mbc1.write
write-Valid1 addr value m v = record {
  low5_some = ground arith;
  low5 = ground (arith, bit_and-le value 0x1F);
  high2 = ground (arith, bit_and-le value 0x03);
  ram = ground (arith, bit_and-le value 0x03);
  mode = ground (arith, bit_and-le value 0x01);
}

bank1_test : ℕ → ℕ → Bool
bank1_test low high =
    low == 0
    || (let bank = bit_or (bit_and low 0x1F) (bit_and high 0x03 <<< 5) in
        (if bank == 0 then 1 else bank) == 32 * high + low)

-- With its registers in range the upper window of MBC1 shows bank 32 h + l, of the two selector
-- fields: below 128, and never a multiple of 32.
pub current_rom_bank-fields :
    (m : Mbc1)
    → Valid1 m
    → (Mbc1.current_rom_bank m ≡ 32 * m.bank_high2 + m.rom_bank_low5)
      × (Mbc1.current_rom_bank m < 128)
      × (Mbc1.current_rom_bank m % 32 ≢ 0)
unfolding Mbc1.current_rom_bank
current_rom_bank-fields m v =
    (e, omega (arith, e, v.low5, v.high2), λ z. omega (arith, e, v.low5, v.low5_some))
  where
    table : all_below 4 (λ h. all_below 32 (λ l. bank1_test l h)) ≡ true
    table = unfold all_below bank1_test in refl

    e : Mbc1.current_rom_bank m ≡ 32 * m.bank_high2 + m.rom_bank_low5
    e =
        unfold Mbc1.current_rom_bank bank1_test in
        ground (
          arith,
          v.low5_some,
          all_below_at 32 (λ l. bank1_test l m.bank_high2) m.rom_bank_low5
              (all_below_at 4 (λ h. all_below 32 (λ l. bank1_test l h)) m.bank_high2 table v.high2)
              v.low5,
        )

-- Two control writes select any of the 128 banks of MBC1: with the low five bits written at
-- 2000-3FFF and the next two at 4000-5FFF the upper window shows bank `b`, or `b + 1` where the
-- low five bits of `b` are zero.
pub write-current_rom_bank1 :
    (a a' b : ℕ) (m : Mbc1)
    → 0x2000 ≤ a
    → a ≤ 0x3FFF
    → 0x4000 ≤ a'
    → a' ≤ 0x5FFF
    → b < 128
    → Mbc1.current_rom_bank (Mbc1.write a' (b / 32) (Mbc1.write a (b % 32) m))
      ≡ (if b % 32 == 0 then b + 1 else b)
unfolding Mbc1.write Mbc1.current_rom_bank
write-current_rom_bank1 a a' b m p q p' q' h =
    let out : in_range 0x0000 0x1FFF a ≡ false = ground arith in
    let at : in_range 0x2000 0x3FFF a ≡ true = ground arith in
    let out' : in_range 0x0000 0x1FFF a' ≡ false = ground arith in
    let out'' : in_range 0x2000 0x3FFF a' ≡ false = ground arith in
    let at' : in_range 0x4000 0x5FFF a' ≡ true = ground arith in
    rw (out, at, out', out'', at') ((==_iff _ _).0 (all_below_at 128 bank_test b table h))
  where
    bank_test : ℕ → Bool
    bank_test b =
        (let low = (if bit_and (b % 32) 0x1F == 0 then 1 else bit_and (b % 32) 0x1F) in
          let bank = bit_or (bit_and low 0x1F) (bit_and (bit_and (b / 32) 0x03) 0x03 <<< 5) in
          if bank == 0 then 1 else bank)
        == (if b % 32 == 0 then b + 1 else b)

    table : all_below 128 bank_test ≡ true
    table = unfold all_below in refl

-- MBC5 shows any of 512 banks, bank 0 included: the low eight bits are written at 2000-2FFF, the
-- ninth at 3000-3FFF, in either order.
pub write-current_rom_bank5 :
    (a a' b : ℕ) (m : Mbc5)
    → 0x2000 ≤ a
    → a ≤ 0x2FFF
    → 0x3000 ≤ a'
    → a' ≤ 0x3FFF
    → b < 512
    → (Mbc5.current_rom_bank (Mbc5.write a' (b / 256) (Mbc5.write a (b % 256) m)) ≡ b)
      × (Mbc5.write a (b % 256) (Mbc5.write a' (b / 256) m)
          ≡ Mbc5.write a' (b / 256) (Mbc5.write a (b % 256) m))
unfolding Mbc5.write Mbc5.current_rom_bank
write-current_rom_bank5 a a' b m p q p' q' h =
    let out : in_range 0x0000 0x1FFF a ≡ false = ground arith in
    let at : in_range 0x2000 0x2FFF a ≡ true = ground arith in
    let out' : in_range 0x0000 0x1FFF a' ≡ false = ground arith in
    let out'' : in_range 0x2000 0x2FFF a' ≡ false = ground arith in
    let at' : in_range 0x3000 0x3FFF a' ≡ true = ground arith in
    rw (out, at, out', out'', at') ((==_iff _ _).0 (all_below_at 512 bank_test b table h), refl)
  where
    bank_test : ℕ → Bool
    bank_test b = bit_or (b % 256) (bit_and (bit_and (b / 256) 0x01) 0x01 <<< 8) == b

    table : all_below 512 bank_test ≡ true
    table = unfold all_below in refl

page_bit : (addr : ℕ) → (bit_and addr 0x0100 == 0) ≡ (addr / 256 % 2 == 0)
page_bit addr =
    let d : digit 8 addr ≡ addr / 256 % 2 = unfold digit in omega arith in
    ground (arith, bit_and-single 8 addr, d)

kept_bank :
    (n : ℕ)
    → n < 16
    → (let b = (if n == 0 then 1 else n) in if bit_and b 0x0F == 0 then 1 else bit_and b 0x0F)
      ≡ (if n == 0 then 1 else n)
kept_bank n h = (==_iff _ _).0 (
    all_below_at 16
      (λ n.
        (let b = (if n == 0 then 1 else n) in if bit_and b 0x0F == 0 then 1 else bit_and b 0x0F)
        == (if n == 0 then 1 else n))
      n (unfold all_below in refl) h)

-- MBC2 decodes bit 8 of a control address below 4000: with it set the write selects ROM bank
-- `value & 0x0F`, one for zero, and leaves the RAM gate; with it clear the write opens the gate
-- exactly for a low nibble A and leaves the bank.
pub write2-decodes :
    (addr value : ℕ) (m : Mbc2)
    → addr < 0x4000
    → (Mbc2.current_rom_bank (Mbc2.write addr value m) ≡ (
        if addr / 256 % 2 == 0
        then Mbc2.current_rom_bank m
        else if value % 16 == 0
        then 1
        else value % 16))
      × ((Mbc2.write addr value m).ram_enabled
          ≡ (if addr / 256 % 2 == 0 then value % 16 == 0x0A else m.ram_enabled))
unfolding Mbc2.write Mbc2.current_rom_bank
write2-decodes addr value m h =
    let here : in_range 0x0000 0x3FFF addr ≡ true = ground arith in
    elim (Bool-cases (addr / 256 % 2 == 0)) [
      | inl e ↦ rw (here, page_bit addr, e, bit_and_low 4 value) (refl, refl)
      | inr e ↦
          rw (here, page_bit addr, e, bit_and_low 4 value)
            (kept_bank (value % 16) (omega arith), refl)
    ]
