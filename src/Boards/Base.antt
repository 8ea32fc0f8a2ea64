-- ===== src/Boards/Base.antt =====
-- What the accessors of registers are written with (dtcInterfaceLib/CFOandDTC_Registers.cpp). An
-- accessor takes the state of the device and returns it; a thrown exception is an error.
use mu2e_pcie_utils.Prelude.{ℕ, Bool, Option, none, some, Outcome, ok, err, ◌>>=◌}
use mu2e_pcie_utils.Registers.Port.{Port, RegisterError, illegal_link}
use mu2e_pcie_utils.Registers.Access.{read_register, write_register, set_bit}

-- The links of both boards (`DTC_Link_ID` and `CFO_Link_ID`).
pub data Link : Type 0 where
  link_0 link_1 link_2 link_3 link_4 link_5 link_6 link_7 : Link
  link_cfo link_evb link_unused link_all : Link

-- `CFO_Link_ID` as a number.
abbrev pub cfo_index : Link → ℕ
cfo_index link_0 = 0
cfo_index link_1 = 1
cfo_index link_2 = 2
cfo_index link_3 = 3
cfo_index link_4 = 4
cfo_index link_5 = 5
cfo_index link_6 = 6
cfo_index link_7 = 7
cfo_index link_cfo = 8
cfo_index link_evb = 8
cfo_index link_unused = 8
cfo_index link_all = 255

-- The device, the fuel of the wait for an I2C transfer, and `DTC_Link_ID` as a number, which a
-- header of another repository fixes.
pub record Board : Type 1 where
  pub port : Port
  pub fuel : ℕ
  pub index : Link → ℕ

abbrev pub Query : Board → Type 0 → Type 0
Query b A = b.port.State → Outcome RegisterError (A × b.port.State)

abbrev pub Action : Board → Type 0
Action b = b.port.State → Outcome RegisterError (b.port.State)

-- `ReadRegister_(a)`.
abbrev pub read : (b : Board) → ℕ → Query b ℕ
read b a s = read_register b.port a s

-- `WriteRegister_(v, a)`.
abbrev pub write : (b : Board) → ℕ → ℕ → Action b
write b a v s = write_register b.port b.fuel v a s >>= λ r. ok r.1

-- `val.has_value() ? *val : ReadRegister_(a)`.
abbrev pub value_or : (b : Board) → ℕ → Option ℕ → Query b ℕ
value_or b a none s = read b a s
value_or b a (some v) s = ok (v, s)

-- `val.has_value() ? *val : f(ReadRegister_(a))`.
abbrev pub value_or_from : (b : Board) → (ℕ → ℕ) → ℕ → Option ℕ → Query b ℕ
value_or_from b f a none s = read b a s >>= λ r. ok (f r.0, r.1)
value_or_from b f a (some v) s = ok (v, s)

-- `SetBit_(a, k, v)`.
abbrev pub change_bit : (b : Board) → ℕ → ℕ → Bool → Action b
change_bit b a k v s = set_bit b.port b.fuel a k v s

-- `usleep(us)`.
abbrev pub sleep : (b : Board) → ℕ → b.port.State → b.port.State
sleep b us s = b.port.usleep us s

-- The register that a switch over the link chooses; the default throws.
abbrev pub register_of : Option ℕ → Outcome RegisterError ℕ
register_of none = err illegal_link
register_of (some a) = ok a
