-- ===== src/Registers/Port.antt =====
-- The device as the registers use it (`device_` of dtcInterfaceLib/CFOandDTC_Registers.cpp), and the
-- virtual functions that the classes of the two boards supply.
use mu2e_pcie_utils.Prelude.{ℕ, ◌^◌, ◌<◌, ◌≡◌, Bool, Outcome, ℤ, pos}

pub data RegisterError : Type 0 where
  write_error read_error uninitialized write_mismatch bit_out_of_range : ℕ → RegisterError
  i2c_busy illegal_link illegal_byte reset_timeout : RegisterError

pub record Port : Type 1 where
  pub State : Type 0
  -- The status, the value, and the state after it.
  pub read : ℕ → State → ℤ × ℕ × State
  pub write : ℕ → ℕ → State → ℤ × State
  pub write_checked : ℕ → ℕ → State → ℤ × ℕ × State
  pub usleep : ℕ → State → State
  -- `NeedToVerifyRegisterWrite_` and `VerifyRegisterWrite_`: the address, the value read back and
  -- the value written.
  pub needs_verify : ℕ → Bool
  pub verify : ℕ → ℕ → ℕ → State → Outcome RegisterError State

-- A device that answers every access at once, and whose registers keep what is written.
pub record IsMemory (p : Port) : Type 0 where
  pub contents : p.State → ℕ → ℕ
  pub contents_lt : (s : p.State) (a : ℕ) → contents s a < 2 ^ 32
  pub written : ℕ → ℕ → p.State → p.State
  pub read_lem : (a : ℕ) (s : p.State) → p.read a s ≡ (pos 0, contents s a, s)
  pub write_lem : (a v : ℕ) (s : p.State) → p.write a v s ≡ (pos 0, written a v s)
  pub write_checked_lem :
      (a v : ℕ) (s : p.State) → p.write_checked a v s ≡ (pos 0, v, written a v s)
  pub contents-written : (a v : ℕ) (s : p.State) → v < 2 ^ 32 → contents (written a v s) a ≡ v
