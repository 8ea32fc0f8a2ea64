-- ===== src/Boards/Evb.antt =====
-- The register that holds the DTC's number, mode, partition and address in the event building network
-- (`SetEVBInfo`, `SetDTCID`, `SetEVBMode`, `SetEVBLocalParitionID`, `SetEVBLocalMACAddress` and what
-- reads them, dtcInterfaceLib/DTC_Registers.cpp).
pub mod Accessors
use Prim.Native.Nat.{bit_and, bit_or}
use mu2e_pcie_utils.Prelude.{ℕ, ◌+◌, ◌*◌, ◌/◌, ◌%◌, ◌^◌, ◌<◌, ◌≡◌, refl, ap, ◌∙◌, none, ok, arith}
use mu2e_pcie_utils.Bits.{bit_and_ones, bit_and_none, bit_or_none, none_bit_or, bit_and_mask}
use mu2e_pcie_utils.Bits.Words.{word, word_and, word_or, upper_two, upper_six}
use mu2e_pcie_utils.Boards.Base.{Board}
use mu2e_pcie_utils.Boards.Bank.{IsBank, read-contents, write-written}
use mu2e_pcie_utils.Boards.Address.Dtc.{dtc_evb_partition_id_reg}
use mu2e_pcie_utils.Boards.Dtc.EventBuilding.{
  set_evb_info, set_dtc_id, read_dtc_id, set_evb_mode, read_evb_mode, set_evb_local_parition_id,
  read_evb_local_parition_id, set_evb_local_mac_address, read_evb_local_mac_address,
}

-- The register as a record of its bytes: of the lower two, only the low bits are fields.
pub record Info : Type 0 where
  pub dtc_id : ℕ
  pub mode : ℕ
  pub partition : ℕ
  pub mac : ℕ

abbrev pub encode : Info → ℕ
encode i = word i.dtc_id i.mode i.partition i.mac

abbrev pub IsInfo : Info → Type 0
IsInfo i = (i.dtc_id < 2 ^ 8) × (i.mode < 2 ^ 8) × (i.partition < 2 ^ 8) × (i.mac < 2 ^ 8)

module _ (i : Info) (fits : IsInfo i) where
  open i use {dtc_id, mode, partition, mac}

  mask :
      (x y z w : ℕ)
      → y < 2 ^ 8
      → z < 2 ^ 8
      → w < 2 ^ 8
      → bit_and (encode i) (word x y z w)
        ≡ word (bit_and dtc_id x) (bit_and mode y) (bit_and partition z) (bit_and mac w)
  mask x y z w y8 z8 w8 = word_and dtc_id mode partition mac x y z w fits.1 fits.2 fits.3 y8 z8 w8

  pub without_id : bit_and (encode i) 0x00FFFFFF ≡ word 0 mode partition mac
  without_id =
      mask 0 255 255 255 (omega arith) (omega arith) (omega arith)
      ∙ rw
          (
            bit_and_none dtc_id,
            bit_and_ones 8 mode fits.1,
            bit_and_ones 8 partition fits.2,
            bit_and_ones 8 mac fits.3,
          )
          refl

  pub without_mode : bit_and (encode i) 0xFF00FFFF ≡ word dtc_id 0 partition mac
  without_mode =
      mask 255 0 255 255 (omega arith) (omega arith) (omega arith)
      ∙ rw
          (
            bit_and_ones 8 dtc_id fits.0,
            bit_and_none mode,
            bit_and_ones 8 partition fits.2,
            bit_and_ones 8 mac fits.3,
          )
          refl

  pub without_partition :
      bit_and (encode i) 0xFFFFFCFF ≡ word dtc_id mode (partition / 2 ^ 2 * 2 ^ 2) mac
  without_partition =
      mask 255 255 0xFC 255 (omega arith) (omega arith) (omega arith)
      ∙ rw
          (
            bit_and_ones 8 dtc_id fits.0,
            bit_and_ones 8 mode fits.1,
            upper_six partition fits.2,
            bit_and_ones 8 mac fits.3,
          )
          refl

  pub without_mac : bit_and (encode i) 0xFFFFFFC0 ≡ word dtc_id mode partition (mac / 2 ^ 6 * 2 ^ 6)
  without_mac =
      mask 255 255 255 0xC0 (omega arith) (omega arith) (omega arith)
      ∙ rw
          (
            bit_and_ones 8 dtc_id fits.0,
            bit_and_ones 8 mode fits.1,
            bit_and_ones 8 partition fits.2,
            upper_two mac fits.3,
          )
          refl

  pub only_id : bit_and (encode i) 0xFF000000 ≡ word dtc_id 0 0 0
  only_id =
      mask 255 0 0 0 (omega arith) (omega arith) (omega arith)
      ∙ rw
          (
            bit_and_ones 8 dtc_id fits.0,
            bit_and_none mode,
            bit_and_none partition,
            bit_and_none mac,
          )
          refl

  pub only_mode : bit_and (encode i) 0xFF0000 ≡ word 0 mode 0 0
  only_mode =
      mask 0 255 0 0 (omega arith) (omega arith) (omega arith)
      ∙ rw
          (
            bit_and_none dtc_id,
            bit_and_ones 8 mode fits.1,
            bit_and_none partition,
            bit_and_none mac,
          )
          refl
