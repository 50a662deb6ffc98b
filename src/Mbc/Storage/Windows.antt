-- ===== src/Mbc/Storage/Windows.antt =====
-- Storage of whole banks, as its windows see it.
use kokura.Base.{
  ℕ, ◌+◌, ◌-◌, ◌*◌, ◌/◌, ◌%◌, ◌≤◌, ◌<◌, false, ◌&&◌, ◌||◌, arith, ◌≡◌, sym, ap, ◌∙◌, List, ◌==◌,
  ==_iff, if◌then◌else◌, length, length-set, get_or-set_at, Bool-cases, inl, inr,
}
use native.Mathlib.Nat.{div-eq_of_lt-le, mod-lt, mul-le-mul_right}
use kokura.Mbc.Storage.{
  usize_max, saturating_add, saturating_mul, bank_count, bank_index, read_ram_bank, write_ram_bank,
}

-- Storage of `banks` whole banks, which a `usize` can index.
pub record IsBanked (ram : List ℕ) (banks bank_size : ℕ) : Type 0 where
  pub some_bank : 1 ≤ banks
  pub some_byte : 1 ≤ bank_size
  pub whole : length ram ≡ banks * bank_size
  pub indexed : banks * bank_size ≤ usize_max

bank_count-whole :
    (ram : List ℕ) (banks bank_size : ℕ)
    → IsBanked ram banks bank_size
    → bank_count (length ram) bank_size ≡ banks
unfolding bank_count
bank_count-whole ram banks bank_size v =
    let d : (length ram + (bank_size - 1)) / bank_size ≡ banks =
      div-eq_of_lt-le bank_size (grind (arith, v.whole)) (grind (arith, v.whole, v.some_byte)) in
    grind (arith, d, v.some_bank)

index_whole :
    (ram : List ℕ) (bank offset banks bank_size : ℕ)
    → IsBanked ram banks bank_size
    → offset < bank_size
    → (bank_index (length ram) bank bank_size offset ≡ bank % banks * bank_size + offset)
      × (bank % banks * bank_size + offset < length ram)
unfolding bank_index saturating_add saturating_mul
index_whole ram bank offset banks bank_size v h =
    let c = bank_count-whole ram banks bank_size v in
    let b : bank % banks < banks = mod-lt bank v.some_bank in
    let room : (bank % banks + 1) * bank_size ≤ banks * bank_size =
      mul-le-mul_right bank_size (omega (arith, b)) in
    let small : bank % banks * bank_size + offset < length ram = grind (arith, room, v.whole) in
    (rw c (grind (arith, small, v.whole, v.indexed)), small)

row_of : (p o bank_size : ℕ) → o < bank_size → (p * bank_size + o) / bank_size ≡ p
row_of p o bank_size h = div-eq_of_lt-le bank_size (omega arith) (grind arith)

-- The index of a byte tells its bank and its offset.
index_apart :
    (p q o o' bank_size : ℕ)
    → o < bank_size
    → o' < bank_size
    → (p * bank_size + o == q * bank_size + o') ≡ (p == q && o == o')
index_apart p q o o' bank_size h h' =
    elim (Bool-cases (p * bank_size + o == q * bank_size + o'))
      as (λ x. (p * bank_size + o == q * bank_size + o') ≡ (p == q && o == o')) [
        | inl e ↦
            let same : p * bank_size + o ≡ q * bank_size + o' = (==_iff _ _).0 e in
            let rows : p ≡ q =
              sym (row_of p o bank_size h)
              ∙ ap (λ (t : ℕ). t / bank_size) same
              ∙ row_of q o' bank_size h' in
            let products : p * bank_size ≡ q * bank_size = ap (λ (t : ℕ). t * bank_size) rows in
            ground (arith, same, rows, products)
        | inr e ↦
            let products : p ≡ q → p * bank_size ≡ q * bank_size =
              λ r. ap (λ (t : ℕ). t * bank_size) r in
            ground (arith, products)
      ]

-- RAM of whole banks is an array by bank, modulo the number of banks, and offset within a bank:
-- a write to one place is read back there and nowhere else.
pub read_ram_bank-write_ram_bank :
    (ram : List ℕ) (b b' o o' banks bank_size value : ℕ)
    → IsBanked ram banks bank_size
    → o < bank_size
    → o' < bank_size
    → read_ram_bank (write_ram_bank ram b bank_size o value) b' bank_size o'
      ≡ (if b % banks == b' % banks && o == o' then value else read_ram_bank ram b' bank_size o')
unfolding read_ram_bank write_ram_bank
read_ram_bank-write_ram_bank ram b b' o o' banks bank_size value v h h' =
    let ix = index_whole ram b o banks bank_size v h in
    let ix' = index_whole ram b' o' banks bank_size v h' in
    let some : (length ram == 0 || bank_size == 0) ≡ false = ground (arith, ix.1, v.some_byte) in
    rw
      (
        some,
        length-set ram (bank_index (length ram) b bank_size o) value,
        some,
        ix.0,
        ix'.0,
        sym (index_apart (b % banks) (b' % banks) o o' bank_size h h'),
      )
      (get_or-set_at ram _ _ value 0xFF ix.1)
