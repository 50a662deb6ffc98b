-- ===== src/Cpu/Exec/Table.antt =====
-- Which opcodes `execute_opcode` refuses.
use kokura.Base.{
  ℕ, ◌+◌, ◌<◌, Bool, true, false, ◌||◌, ◌==◌, all_below, byte_test, ◌≡◌, refl, Option, none, some,
  List, [], ◌∷◌, u16, ap,
}
use kokura.Cpu.Bus.{Bus, Machine}
use kokura.Cpu.Exec.{cycles, unsupported_opcode, decode, execute_opcode}

-- The ten opcodes with no instruction here; F4 is a conditional call.
abbrev pub undefined : List ℕ
undefined = 0xD3 ∷ 0xDB ∷ 0xDD ∷ 0xE3 ∷ 0xE4 ∷ 0xEB ∷ 0xEC ∷ 0xED ∷ 0xFC ∷ 0xFD ∷ []

abbrev pub contains : List ℕ → ℕ → Bool
contains [] x = false
contains (y ∷ ys) x = x == y || contains ys x

abbrev is_none : {A : Type 0} → Option A → Bool
is_none none = true
is_none (some a) = false

module _ {M : Type 0} (bus : Bus M) where
  decode-undefined :
      (opcode : ℕ) → opcode < 256 → is_none (decode bus opcode) ≡ contains undefined opcode
  unfolding all_below decode
  decode-undefined = byte_test (λ opcode. is_none (decode bus opcode)) (contains undefined) refl

  -- `execute_opcode` refuses the ten undefined opcodes with an error that names the opcode and
  -- the address before PC, and leaves the machine as it was.
  pub execute_opcode-undefined :
      (opcode : ℕ) (m : Machine M)
      → opcode < 256
      → contains undefined opcode ≡ true
      → execute_opcode bus opcode m ≡ (unsupported_opcode opcode (u16 (m.cpu.pc + 0xFFFF)), m)
  unfolding execute_opcode
  execute_opcode-undefined opcode m h u = go (decode bus opcode) refl
    where
      go :
          (o : Option (Machine M → ℕ × Machine M))
          → decode bus opcode ≡ o
          → execute_opcode bus opcode m ≡ (unsupported_opcode opcode (u16 (m.cpu.pc + 0xFFFF)), m)
      go none e = rw (e, execute_opcode) refl
      go (some i) e = cc (ap is_none e, decode-undefined opcode h, u)

  -- Every other opcode has an instruction, which `execute_opcode` runs.
  pub execute_opcode-defined :
      (opcode : ℕ) (m : Machine M)
      → opcode < 256
      → contains undefined opcode ≡ false
      → (i : Machine M → ℕ × Machine M) × (decode bus opcode ≡ some i)
        × (execute_opcode bus opcode m ≡ (cycles (i m).0, (i m).1))
  unfolding execute_opcode
  execute_opcode-defined opcode m h u = go (decode bus opcode) refl
    where
      go :
          (o : Option (Machine M → ℕ × Machine M))
          → decode bus opcode ≡ o
          → (i : Machine M → ℕ × Machine M) × (decode bus opcode ≡ some i)
            × (execute_opcode bus opcode m ≡ (cycles (i m).0, (i m).1))
      go none e = cc (ap is_none e, decode-undefined opcode h, u)
      go (some i) e = (i, e, rw (e, execute_opcode) refl)
