-- ===== src/Boards/Ports.antt =====
-- The two boards on top of the device: their checks of a write (`NeedToVerifyRegisterWrite_` and
-- `VerifyRegisterWrite_` of dtcInterfaceLib/DTC_Registers.cpp and cfoInterfaceLib/CFO_Registers.cpp),
-- and the calls of `device_` in dtcInterfaceLib/CFOandDTC_Registers.cpp, which wait 100 ms.
pub mod Memory
pub mod Checks
use Prim.Native.Nat.{bit_and}
use mu2e_pcie_utils.Prelude.{
  ℕ, Bool, true, not, ◌||◌, ◌==◌, if◌then◌else◌, Outcome, ok, ◌>>◌, require, pos,
}
use mu2e_pcie_utils.Device.Backend.{Backend}
use mu2e_pcie_utils.Device.State.{Device}
use mu2e_pcie_utils.Device.Register as Register
use mu2e_pcie_utils.Registers.Port.{Port, RegisterError, write_mismatch}
use mu2e_pcie_utils.Boards.Base.{Board, Link}
use mu2e_pcie_utils.Boards.Address.Dtc.{dtc_cfo_marker_enables_reg, dtc_det_emulation_control1_reg}
use mu2e_pcie_utils.Boards.Address.DtcMiddle.{
  dtc_rxcdr_unlock_count_cfo_link_reg, dtc_jitter_attenuator_loss_of_lock_count_reg,
}

abbrev pub dtc_emulation_event_mode2_reg : ℕ
dtc_emulation_event_mode2_reg = 0x91C4

abbrev pub dtc_jitter_attenuator_csr_reg : ℕ
dtc_jitter_attenuator_csr_reg = 0x9308

abbrev pub cfo_run_plan_data_reg : ℕ
cfo_run_plan_data_reg = 0x9318

abbrev pub cfo_jitter_attenuator_csr_reg : ℕ
cfo_jitter_attenuator_csr_reg = 0x9500

-- `readbackValue != dataToWrite`, both masked.
abbrev pub same_under : ℕ → ℕ → ℕ → Bool
same_under mask readback value = bit_and readback mask == bit_and value mask

-- Whether the value read back from a register of the DTC passes.
abbrev pub dtc_accepts : ℕ → ℕ → ℕ → Bool
dtc_accepts address readback value =
    if address == dtc_cfo_marker_enables_reg
    then same_under 0x3f readback value
    else if address == dtc_rxcdr_unlock_count_cfo_link_reg
        || address == dtc_jitter_attenuator_loss_of_lock_count_reg
    then true
    else if address == dtc_jitter_attenuator_csr_reg
    then same_under 0x30 readback value
    else if address == dtc_emulation_event_mode2_reg
    then same_under 0xffff readback value
    else if address == dtc_det_emulation_control1_reg
    then true
    else readback == value

-- Whether the value read back from a register of the CFO passes.
abbrev pub cfo_accepts : ℕ → ℕ → ℕ → Bool
cfo_accepts address readback value =
    if address == cfo_jitter_attenuator_csr_reg
    then same_under 0x30 readback value
    else readback == value

abbrev pub cfo_needs_verify : ℕ → Bool
cfo_needs_verify address = not (address == cfo_run_plan_data_reg)

module _ (b : Backend) (garbage : ℕ) where
  -- The registers of a device, with the checks of a board.
  abbrev pub device_port : (ℕ → Bool) → (ℕ → ℕ → ℕ → Bool) → Port
  device_port needs accepts = record {
    State = Device b.World;
    read = λ a s. Register.read_register b garbage a (pos 100) s;
    write = λ a v s. Register.write_register b a (pos 100) v s;
    write_checked = λ a v s. Register.write_register_checked b a (pos 100) v s;
    usleep = λ us s. record s { world = b.usleep us s.world };
    needs_verify = needs;
    verify = λ a readback value s. require (accepts a readback value) (write_mismatch a) >> ok s;
  }

  abbrev pub dtc_port : Port
  dtc_port = device_port (λ a. true) dtc_accepts

  abbrev pub cfo_port : Port
  cfo_port = device_port cfo_needs_verify cfo_accepts

  -- The boards, for a numbering of the links.
  abbrev pub dtc_board : ℕ → (Link → ℕ) → Board
  dtc_board fuel index = record { port = dtc_port; fuel = fuel; index = index }

  abbrev pub cfo_board : ℕ → (Link → ℕ) → Board
  cfo_board fuel index = record { port = cfo_port; fuel = fuel; index = index }
