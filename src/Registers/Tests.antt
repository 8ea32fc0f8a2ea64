-- ===== src/Registers/Tests.antt =====
-- Runs of the register access on registers that are a function of the address.
use mu2e_pcie_utils.Prelude.{
  false, ℕ, ◌%◌, ◌^◌, ◌≡◌, refl, true, ◌==◌, eq→==, ◌&&◌, if◌then◌else◌, ok, pos, arith, ◌⊎◌,
  is_zero, ◌-◌, err, ◌≤◌,
}
use native.Mathlib.Nat.{mod-lt, mod-eq_of_lt}
use mu2e_pcie_utils.Registers.Port.{Port, IsMemory, read_error, uninitialized}
use mu2e_pcie_utils.Registers.Bitset.{test_bit}
use mu2e_pcie_utils.Registers.Access.{control, get_bit, set_bit, read_register}
use mu2e_pcie_utils.Registers.Access.Retry.{Fails, attempt, read_register_lem}
use mu2e_pcie_utils.Registers.Access.SetBit.{set_bit-get_bit}

abbrev update : ℕ → ℕ → (ℕ → ℕ) → ℕ → ℕ
update a v s b = if b == a then v else s b

abbrev memory : Port
memory = record {
  State = ℕ → ℕ;
  read = λ a s. (pos 0, s a % 2 ^ 32, s);
  write = λ a v s. (pos 0, update a v s);
  write_checked = λ a v s. (pos 0, v, update a v s);
  usleep = λ us s. s;
  needs_verify = λ a. true;
  verify = λ a r v s. ok s;
}

memory-IsMemory : IsMemory memory
memory-IsMemory = record {
  contents = λ s a. s a % 2 ^ 32;
  contents_lt = λ s a. mod-lt (s a) (omega arith);
  written = λ a v s. update a v s;
  read_lem = λ a s. refl;
  write_lem = λ a v s. refl;
  write_checked_lem = λ a v s. refl;
  contents-written = λ a v s h. rw (eq→== a a refl) (mod-eq_of_lt h);
}

abbrev start : ℕ → ℕ
start a = 0xF0

set_bit-get_bit_example :
    (t : ℕ → ℕ) × (set_bit memory 1 0x9200 3 true start ≡ ok t)
    × (get_bit memory 0x9200 3 t ≡ ok (true, t))
    × (get_bit memory 0x9200 5 t ≡ ok (test_bit (memory-IsMemory.contents start 0x9200) 5, t))
set_bit-get_bit_example =
    set_bit-get_bit memory memory-IsMemory (λ a v s. refl) 1 0x9200 3 5 true start refl
      (omega arith) (omega arith) (omega arith)

read_register_lem_example :
    (Fails memory 0x9200 3 start × (read_register memory 0x9200 start ≡ err (read_error 0x9200)))
    ⊎ ((k : ℕ) × (k ≤ 2)
        × Fails memory 0x9200 k start
        × (is_zero (attempt memory 0x9200 k start).0 ≡ true)
        × (((0x9200 == control && (attempt memory 0x9200 k start).1 == 2 ^ 32 - 1) ≡ true)
              × (read_register memory 0x9200 start ≡ err (uninitialized 0x9200))
            ⊎ ((0x9200 == control && (attempt memory 0x9200 k start).1 == 2 ^ 32 - 1) ≡ false)
              × (read_register memory 0x9200 start
                  ≡ ok ((attempt memory 0x9200 k start).1, (attempt memory 0x9200 k start).2))))
read_register_lem_example = read_register_lem memory 0x9200 start
