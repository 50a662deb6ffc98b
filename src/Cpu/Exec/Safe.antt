-- ===== src/Cpu/Exec/Safe.antt =====
-- `execute_opcode` on a good machine, for every opcode.
use kokura.Base.{
  ℕ, ◌<◌, Bool, true, false, ◌≡◌, refl, arith, Option, none, some, List, [], ◌∷◌, ◌++◌, ◌&&◌,
}
use kokura.Base.{bit_and, ◌==◌, ◌!=◌, ◌>>>◌, in_range, if◌then◌else◌}
use kokura.Cpu.Regs.{Cpu}
use kokura.Cpu.Bus.{Bus, Machine}
use kokura.Cpu.Valid.{
  IsValid, add_a-IsValid, sub_a-IsValid, adc_a-IsValid, sbc_a-IsValid, and_a-IsValid, or_a-IsValid,
  xor_a-IsValid, cp_a-IsValid,
}
use kokura.Cpu.Exec.{cycles, find_arm, alu_family, ld_matrix, alu_op, arms, decode, execute_opcode}
use kokura.Cpu.Exec.Low.{Instr}
use kokura.Cpu.Exec.Keep.{BusLaws, IsGood, IsDuration, read_r8-Gives, write_r8-Gives}
use kokura.Cpu.Exec.Keep.Low.{Keeps, IsGood-regs}
use kokura.Cpu.Exec.Keep.Arms.{
  AllKeep, nothing, ◌&◌, arms_00-Keep, arms_10-Keep, arms_20-Keep, arms_30-Keep, arms_c0-Keep,
  arms_d0-Keep, arms_e0-Keep, arms_f0-Keep,
}
use kokura.Cpu.Exec.Keep.High.{halt_arm-Keeps}
use kokura.Cpu.Exec.Table.{undefined, contains, execute_opcode-defined}

abbrev Op : Type 0
Op = ℕ → Cpu → Cpu

abbrev UsesByte : Op → Type 0
UsesByte op = (x : ℕ) (r : Cpu) → IsValid r → x < 256 → IsValid (op x r)

UsesByte-if : (b : Bool) (f g : Op) → UsesByte f → UsesByte g → UsesByte (if b then f else g)
UsesByte-if true f g h k = h
UsesByte-if false f g h k = k

alu_family-UsesByte : (opcode : ℕ) → UsesByte (alu_family opcode)
unfolding alu_family
alu_family-UsesByte opcode = UsesByte-if _ _ _ add_a-IsValid (
    UsesByte-if _ _ _ adc_a-IsValid (
      UsesByte-if _ _ _ sub_a-IsValid (
        UsesByte-if _ _ _ sbc_a-IsValid (
          UsesByte-if _ _ _ and_a-IsValid
            (UsesByte-if _ _ _ xor_a-IsValid (UsesByte-if _ _ _ or_a-IsValid cp_a-IsValid))))))

short : (b : Bool) → IsDuration (if b then 8 else 4)
short true = omega arith
short false = omega arith

module _ {M : Type 0} {bus : Bus M} (laws : BusLaws bus) where
  ld_matrix-Keeps : (opcode : ℕ) → Keeps laws (ld_matrix bus opcode)
  unfolding ld_matrix
  ld_matrix-Keeps opcode m g =
      let k = read_r8-Gives laws (bit_and opcode 0x07) m g in
      let w = write_r8-Gives laws (bit_and (opcode >>> 3) 0x07) _ k.0 _ k.1 in (short _, w.1)

  alu_op-Keeps : (opcode : ℕ) → Keeps laws (alu_op bus opcode)
  unfolding alu_op
  alu_op-Keeps opcode m g =
      let k = read_r8-Gives laws (bit_and opcode 0x07) m g in
      (
        short _,
        IsGood-regs laws (alu_family opcode _) (λ r v. alu_family-UsesByte opcode _ r v k.0) _ k.1,
      )

  append-Keep :
      (xs ys : List (ℕ × Instr M)) → AllKeep laws xs → AllKeep laws ys → AllKeep laws (xs ++ ys)
  append-Keep [] ys nothing k = k
  append-Keep ((key, arm) ∷ xs) ys (h & hs) k = h & append-Keep xs ys hs k

  arms-Keep : AllKeep laws (arms bus)
  unfolding arms
  arms-Keep = append-Keep _ _ (arms_00-Keep laws) (
      append-Keep _ _ (arms_10-Keep laws) (
        append-Keep _ _ (arms_20-Keep laws) (
          append-Keep _ _ (arms_30-Keep laws) (
            halt_arm-Keeps laws
            & append-Keep _ _ (arms_c0-Keep laws) (
                append-Keep _ _ (arms_d0-Keep laws)
                  (append-Keep _ _ (arms_e0-Keep laws) (arms_f0-Keep laws)))))))

  abbrev KeepsIfAny : Option (Instr M) → Type 0
  KeepsIfAny none = Unit
  KeepsIfAny (some i) = Keeps laws i

  choose-Keeps :
      (b : Bool) (arm : Instr M) (rest : Option (Instr M)) (i : Instr M)
      → Keeps laws arm
      → (rest ≡ some i → Keeps laws i)
      → (if b then some arm else rest) ≡ some i
      → Keeps laws i
  choose-Keeps true arm rest i h k e = coe 0 1 (t. KeepsIfAny (e t)) h
  choose-Keeps false arm rest i h k e = k e

  find_arm-Keeps :
      (opcode : ℕ) (xs : List (ℕ × Instr M)) (i : Instr M)
      → AllKeep laws xs
      → find_arm opcode xs ≡ some i
      → Keeps laws i
  unfolding find_arm
  find_arm-Keeps opcode [] i nothing e = cc
  find_arm-Keeps opcode ((key, arm) ∷ xs) i (h & hs) e =
      choose-Keeps (opcode == key) arm (find_arm opcode xs) i h (find_arm-Keeps opcode xs i hs) e

  decode-Keeps : (opcode : ℕ) (i : Instr M) → decode bus opcode ≡ some i → Keeps laws i
  unfolding decode
  decode-Keeps opcode i e =
      choose-Keeps (in_range 0x40 0x7F opcode && opcode != 0x76) (ld_matrix bus opcode) _ i
        (ld_matrix-Keeps opcode)
        (choose-Keeps (in_range 0x80 0xBF opcode) (alu_op bus opcode) _ i (alu_op-Keeps opcode)
          (find_arm-Keeps opcode (arms bus) i arms-Keep))
        e

  -- Over a bus that keeps its laws, every defined opcode, run on a machine whose registers have
  -- their widths and whose flag byte has a clear low nibble, succeeds, takes 4 to 24 cycles, a
  -- multiple of 4, and leaves such a machine.
  pub execute_opcode-IsGood :
      (opcode : ℕ) (m : Machine M)
      → opcode < 256
      → contains undefined opcode ≡ false
      → IsGood laws m
      → (n : ℕ) × ((execute_opcode bus opcode m).0 ≡ cycles n)
        × IsDuration n
        × IsGood laws (execute_opcode bus opcode m).1
  execute_opcode-IsGood opcode m h u g =
      let d = execute_opcode-defined bus opcode m h u in
      let k = decode-Keeps opcode d.0 d.1 m g in rw d.2 ((d.0 m).0, refl, k.0, k.1)
