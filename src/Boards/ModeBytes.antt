-- ===== src/Boards/ModeBytes.antt =====
-- The bytes of the event mode that an emulated CFO sends: `SetCFOEmulationModeByte` and
-- `ReadCFOEmulationModeByte` of dtcInterfaceLib/DTC_Registers.cpp.
pub mod Masks
pub mod List
use Prim.Native.Nat.{bit_and}
use mu2e_pcie_utils.Prelude.{
  ℕ, ◌+◌, ◌*◌, ◌/◌, ◌%◌, ◌^◌, ◌||◌, ◌==◌, if◌then◌else◌, Option, Outcome, ok, err, ◌>>=◌,
}
use mu2e_pcie_utils.Registers.Port.{RegisterError, illegal_byte}
use mu2e_pcie_utils.Boards.Base.{Board, Action, Query, read, write, value_or}
use mu2e_pcie_utils.Boards.Ports.{dtc_emulation_event_mode2_reg}

abbrev pub dtc_emulation_event_mode1_reg : ℕ
dtc_emulation_event_mode1_reg = 0x91C0

abbrev pub mode_register : ℕ → Outcome RegisterError ℕ
mode_register byte_num =
    if byte_num == 0 || byte_num == 1 || byte_num == 2 || byte_num == 3
    then ok dtc_emulation_event_mode1_reg
    else if byte_num == 4 || byte_num == 5
    then ok dtc_emulation_event_mode2_reg
    else err illegal_byte

-- The switch of the setter.
abbrev pub with_byte : ℕ → ℕ → ℕ → Outcome RegisterError ℕ
with_byte byte_num data_byte reg_val =
    if byte_num == 0
    then ok ((bit_and reg_val 0xFFFFFF00 + data_byte) % 2 ^ 32)
    else if byte_num == 1
    then ok ((bit_and reg_val 0xFFFF00FF + data_byte * 2 ^ 8 % 2 ^ 32) % 2 ^ 32)
    else if byte_num == 2
    then ok ((bit_and reg_val 0xFF00FFFF + data_byte * 2 ^ 16 % 2 ^ 32) % 2 ^ 32)
    else if byte_num == 3
    then ok ((bit_and reg_val 0x00FFFFFF + data_byte * 2 ^ 24 % 2 ^ 32) % 2 ^ 32)
    else if byte_num == 4
    then ok ((bit_and reg_val 0xFF00 + data_byte) % 2 ^ 32)
    else if byte_num == 5
    then ok ((bit_and reg_val 0x00FF + data_byte * 2 ^ 8 % 2 ^ 32) % 2 ^ 32)
    else err illegal_byte

-- The switch of the reader.
abbrev pub byte_of : ℕ → ℕ → Outcome RegisterError ℕ
byte_of byte_num reg_val =
    if byte_num == 0
    then ok (bit_and reg_val 0xFF % 2 ^ 8)
    else if byte_num == 1
    then ok (bit_and reg_val 0xFF00 / 2 ^ 8 % 2 ^ 8)
    else if byte_num == 2
    then ok (bit_and reg_val 0xFF0000 / 2 ^ 16 % 2 ^ 8)
    else if byte_num == 3
    then ok (bit_and reg_val 0xFF000000 / 2 ^ 24 % 2 ^ 8)
    else if byte_num == 4
    then ok (bit_and reg_val 0xFF % 2 ^ 8)
    else if byte_num == 5
    then ok (bit_and reg_val 0xFF00 / 2 ^ 8 % 2 ^ 8)
    else err illegal_byte

abbrev pub set_cfo_emulation_mode_byte : (b : Board) → ℕ → ℕ → Action b
set_cfo_emulation_mode_byte b byte_num data_byte s = do
  reg ← mode_register byte_num
  (reg_val, s₁) ← read b reg s
  new_val ← with_byte byte_num data_byte reg_val
  write b reg new_val s₁

abbrev pub read_cfo_emulation_mode_byte : (b : Board) → ℕ → Option ℕ → Query b ℕ
read_cfo_emulation_mode_byte b byte_num val s = do
  reg ← mode_register byte_num
  (reg_val, s₁) ← value_or b reg val s
  byte ← byte_of byte_num reg_val
  ok (byte, s₁)
