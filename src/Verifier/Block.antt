-- ===== src/Verifier/Block.antt =====
-- What the checks of dtcInterfaceLib/DTC_Data_Verifier.h read of a data block, as the packet classes of
-- artdaq-core-mu2e return it, and the fields of `DTC_Data_Verifier`.
use mu2e_pcie_utils.Prelude.{ℕ, Bool, Option}

-- `byte` is `GetByte` of the header packet; `word k` is the 16-bit word at `GetData() + k`, also
-- behind the end of the block, where the checks may read.
pub record Block : Type 0 where
  pub byte_count : ℕ
  pub packet_count : ℕ
  pub subsystem_id : ℕ
  pub link_id : ℕ
  pub byte : ℕ → ℕ
  pub word : ℕ → ℕ

pub record Verifier : Type 0 where
  pub continue_file : Bool
  pub file_mode : Bool
  pub current_buffer_pos : ℕ
  pub packet_counters : ℕ → Option ℕ
