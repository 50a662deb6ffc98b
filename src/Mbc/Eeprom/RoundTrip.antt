-- ===== src/Mbc/Eeprom/RoundTrip.antt =====
-- A word written to the EEPROM and read back, a bit at a time.
use kokura.Base.{
  ℕ, ◌+◌, ◌*◌, ◌/◌, ◌%◌, ◌<◌, Bool, true, false, ◌&&◌, List, length, ◌==◌, if◌then◌else◌, get_or,
  set, get_or-set_at, length-set, arith, ◌≡◌, refl, ◌∙◌, Bool-cases, inl, inr,
}
use kokura.Mbc.Mbc7.{read_word, write_word}
use kokura.Mbc.Mbc7.State.{Mbc7, ram_enabled}
use kokura.Mbc.Eeprom.{pulse, pulse_all, join}
use kokura.Mbc.Eeprom.Words.{Written}
use kokura.Mbc.Eeprom.Bits.{
  begin, read_bits, collect-WritesTo, collect-ReadsFrom, collect-Written, read_bits_lem,
}
use kokura.Mbc.Eeprom.Begin.{begin-Begins, start-Collects}

-- The storage as an array of words.
read_word-write_word :
    (a b w : ℕ) (m : Mbc7)
    → length m.eeprom ≡ 256
    → a < 128
    → b < 128
    → w < 65536
    → read_word b (write_word a w m) ≡ (if a == b then w else read_word b m)
unfolding read_word write_word
read_word-write_word a b w m l ha hb hw =
    let once = set m.eeprom (a * 2) (w / 256) in
    let n = length-set m.eeprom (a * 2) (w / 256) in
    let outer = λ (j : ℕ). get_or-set_at once (a * 2 + 1) j (w % 256) 0xFF (omega (arith, n, l)) in
    let inner = λ (j : ℕ). get_or-set_at m.eeprom (a * 2) j (w / 256) 0xFF (omega (arith, l)) in
    elim (Bool-cases (a == b)) [
      | inl e ↦
          let lo : (a * 2 + 1 == b * 2) ≡ false = ground (arith, e) in
          let lo' : (a * 2 + 1 == b * 2 + 1) ≡ true = ground (arith, e) in
          let hi : (a * 2 == b * 2) ≡ true = ground (arith, e) in
          rw (e, outer (b * 2), outer (b * 2 + 1), inner (b * 2), lo, lo', hi) (omega arith)
      | inr e ↦
          let lo : (a * 2 + 1 == b * 2) ≡ false = ground (arith, e) in
          let lo' : (a * 2 + 1 == b * 2 + 1) ≡ false = ground (arith, e) in
          let hi : (a * 2 == b * 2) ≡ false = ground (arith, e) in
          let hi' : (a * 2 == b * 2 + 1) ≡ false = ground (arith, e) in
          rw
            (
              e,
              outer (b * 2),
              outer (b * 2 + 1),
              inner (b * 2),
              inner (b * 2 + 1),
              lo,
              lo',
              hi,
              hi',
            )
            refl
    ]

-- What a word reads as after a write.
word_after :
    (a b w : ℕ) (m m' : Mbc7)
    → length m.eeprom ≡ 256
    → ((i : ℕ) → get_or m.eeprom i 0xFF < 256)
    → a < 128
    → b < 128
    → w < 65536
    → m'.eeprom ≡ (if m.eeprom_write_enabled then write_word a w m else m).eeprom
    → (read_word b m' ≡ (if m.eeprom_write_enabled && a == b then w else read_word b m))
      × (read_word b m' < 65536)
unfolding read_word
word_after a b w m m' l bytes ha hb hw e =
    let old : read_word b m < 65536 = omega (arith, bytes (b * 2), bytes (b * 2 + 1)) in
    elim (Bool-cases m.eeprom_write_enabled) [
      | inl on ↦
          let same : m'.eeprom ≡ (write_word a w m).eeprom = e ∙ rw on refl in
          let law = read_word-write_word a b w m l ha hb hw in
          let now : read_word b m' ≡ read_word b (write_word a w m) = rw same refl in
          elim (Bool-cases (a == b)) [
            | inl q ↦
                let v : read_word b m' ≡ w = now ∙ law ∙ rw q refl in (v ∙ rw (on, q) refl, rw v hw)
            | inr q ↦
                let v : read_word b m' ≡ read_word b m = now ∙ law ∙ rw q refl in
                (v ∙ rw (on, q) refl, omega (arith, v, old))
          ]
      | inr off ↦
          let same : m'.eeprom ≡ m.eeprom = e ∙ rw off refl in
          let v : read_word b m' ≡ read_word b m = rw same refl in
          (v ∙ rw off refl, omega (arith, v, old))
    ]

-- A write of a word and a read of one, by the clocks of their bits.
unfoldable pub write_bits : List Bool → List Bool → Mbc7 → Mbc7
write_bits command word m = pulse_all word (pulse_all command (pulse true (begin m)))

unfoldable pub read_back : List Bool → Mbc7 → ℕ
read_back command m = read_bits 16 0 (pulse_all command (pulse true (begin m)))

write_bits-Written :
    (command word : List Bool) (m : Mbc7)
    → ram_enabled m ≡ true
    → length command ≡ 10
    → length word ≡ 16
    → join 0 command < 1024
    → join 0 command / 256 ≡ 1
    → join 0 word < 65536
    → Written (join 0 command % 128) (join 0 word) m (write_bits command word m)
unfolding write_bits
write_bits-Written command word m on lc lw hc oc hw =
    let b = start-Collects m (begin m) (begin-Begins m on) in
    let armed =
      collect-WritesTo command 0 0 m (pulse true (begin m)) b (omega (arith, lc))
        (omega (arith, lc)) hc oc in
    let m1 = pulse_all command (pulse true (begin m)) in
    collect-Written word 0 0 (join 0 command % 128) m m1 m1 armed armed.collects (omega (arith, lw))
      (omega (arith, lw)) hw

read_back_lem :
    (command : List Bool) (m : Mbc7)
    → ram_enabled m ≡ true
    → length command ≡ 10
    → join 0 command < 1024
    → join 0 command / 256 ≡ 2
    → read_word (join 0 command % 128) m < 65536
    → read_back command m ≡ read_word (join 0 command % 128) m
unfolding read_back
read_back_lem command m on lc hc oc small =
    let b = start-Collects m (begin m) (begin-Begins m on) in
    read_bits_lem (read_word (join 0 command % 128) m) (pulse_all command (pulse true (begin m)))
      (collect-ReadsFrom command 0 0 m (pulse true (begin m)) b (omega (arith, lc))
        (omega (arith, lc)) hc oc)
      small

-- With both gates open, an EEPROM of 256 bytes and any bits of a write command (opcode 01), of a
-- word and of a read command (opcode 10) that are clocked in through the pins, each after chip
-- select rises and a start bit: the sixteen bits then clocked out are the written word where
-- writes are enabled and the low seven address bits agree, and otherwise the word that stood at
-- the read address.
pub read_back-write_bits :
    (store word fetch : List Bool) (m : Mbc7)
    → ram_enabled m ≡ true
    → length m.eeprom ≡ 256
    → ((i : ℕ) → get_or m.eeprom i 0xFF < 256)
    → length store ≡ 10
    → length word ≡ 16
    → length fetch ≡ 10
    → join 0 store < 1024
    → join 0 store / 256 ≡ 1
    → join 0 word < 65536
    → join 0 fetch < 1024
    → join 0 fetch / 256 ≡ 2
    → read_back fetch (write_bits store word m) ≡ (
        if m.eeprom_write_enabled && join 0 store % 128 == join 0 fetch % 128
        then join 0 word
        else read_word (join 0 fetch % 128) m)
read_back-write_bits store word fetch m on l bytes ls lw lf hs os hw hf of =
    let a = join 0 store % 128 in
    let b = join 0 fetch % 128 in
    let w = write_bits-Written store word m on ls lw hs os hw in
    let value =
      word_after a b (join 0 word) m (write_bits store word m) l bytes (omega arith) (omega arith)
        hw w.words in
    read_back_lem fetch (write_bits store word m) w.selected.enabled lf hf of (value.1) ∙ value.0
