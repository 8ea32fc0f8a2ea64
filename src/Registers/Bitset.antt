-- ===== src/Registers/Bitset.antt =====
-- `std::bitset<32>`, as the number with those bits.
pub mod Assign
pub mod Masks
use mu2e_pcie_utils.Prelude.{
  ℕ, ◌+◌, ◌-◌, ◌*◌, ◌/◌, ◌%◌, ◌^◌, Bool, true, false, ◌==◌, if◌then◌else◌,
}

abbrev pub bit : ℕ → ℕ → ℕ
bit x k = x / 2 ^ k % 2

-- `data[k]`.
abbrev pub test_bit : ℕ → ℕ → Bool
test_bit x k = bit x k == 1

abbrev pub bit_of : Bool → ℕ
bit_of true = 1
bit_of false = 0

-- `data[k] = value`.
unfoldable pub assign_bit : ℕ → ℕ → Bool → ℕ
assign_bit x k value = x / 2 ^ k / 2 * 2 ^ (k + 1) + bit_of value * 2 ^ k + x % 2 ^ k
