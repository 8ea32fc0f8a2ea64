-- ===== src/Boards/Evb/Accessors.antt =====
-- What the accessors of the fields do with the register as a record of fields
-- (dtcInterfaceLib/DTC_Registers.cpp).
use Prim.Native.Nat.{bit_and, bit_or}
use mu2e_pcie_utils.Prelude.{ℕ, ◌+◌, ◌*◌, ◌/◌, ◌%◌, ◌^◌, ◌<◌, ◌≡◌, refl, ap, ◌∙◌, none, ok, arith}
use mu2e_pcie_utils.Bits.{bit_or_none, none_bit_or, bit_and_mask}
use mu2e_pcie_utils.Bits.Words.{word, word_or}
use mu2e_pcie_utils.Boards.Base.{Board, read, write}
use mu2e_pcie_utils.Boards.Bank.{IsBank, read-contents, write-written}
use mu2e_pcie_utils.Boards.Address.Dtc.{dtc_evb_partition_id_reg}
use mu2e_pcie_utils.Boards.Dtc.EventBuilding.{
  set_evb_info, set_dtc_id, read_dtc_id, set_evb_mode, read_evb_mode, set_evb_local_parition_id,
  read_evb_local_parition_id, set_evb_local_mac_address, read_evb_local_mac_address,
}
use mu2e_pcie_utils.Boards.Evb.{
  Info, encode, IsInfo, without_id, without_mode, without_partition, without_mac, only_id,
  only_mode,
}

low_two : (p : ℕ) → bit_and p 0x3 ≡ p % 2 ^ 2
low_two p = bit_and_mask 2 p

low_six : (k : ℕ) → bit_and k 0x3F ≡ k % 2 ^ 6
low_six k = bit_and_mask 6 k

-- The values that the setters write.
module _ (i : Info) (fits : IsInfo i) where
  id_value :
      (d : ℕ)
      → d < 2 ^ 8
      → (bit_and (encode i) 0x00FFFFFF + d * 2 ^ 24 % 2 ^ 32) % 2 ^ 32
        ≡ encode (record i { dtc_id = d })
  id_value d d8 = rw (without_id i fits) (omega (arith, fits.1, fits.2, fits.3))

  mode_value :
      (m : ℕ)
      → m < 2 ^ 8
      → (bit_and (encode i) 0xFF00FFFF + m * 2 ^ 16 % 2 ^ 32) % 2 ^ 32
        ≡ encode (record i { mode = m })
  mode_value m m8 = rw (without_mode i fits) (omega (arith, fits.0, fits.2, fits.3))

  partition_value :
      (p : ℕ)
      → (bit_and (encode i) 0xFFFFFCFF + bit_and p 0x3 * 2 ^ 8 % 2 ^ 32) % 2 ^ 32
        ≡ encode (record i { partition = i.partition / 2 ^ 2 * 2 ^ 2 + p % 2 ^ 2 })
  partition_value p =
      rw (without_partition i fits, low_two p) (omega (arith, fits.0, fits.1, fits.2, fits.3))

  mac_value :
      (k : ℕ)
      → (bit_and (encode i) 0xFFFFFFC0 + bit_and k 0x3F) % 2 ^ 32
        ≡ encode (record i { mac = i.mac / 2 ^ 6 * 2 ^ 6 + k % 2 ^ 6 })
  mac_value k = rw (without_mac i fits, low_six k) (omega (arith, fits.0, fits.1, fits.2, fits.3))

-- `|` of words whose bytes do not meet.
module _ (d m p k : ℕ) (m8 : m < 2 ^ 8) (p8 : p < 2 ^ 8) (k8 : k < 2 ^ 8) where
  join :
      bit_or (bit_or (bit_or (word d 0 0 0) (word 0 m 0 0)) (word 0 0 p 0)) (word 0 0 0 k)
      ≡ word d m p k
  join =
      let zero8 : 0 < 2 ^ 8 = omega arith in
      let two =
        word_or d 0 0 0 0 m 0 0 zero8 zero8 zero8 m8 zero8 zero8
        ∙ rw (bit_or_none d, none_bit_or m) refl in
      let three =
        word_or d m 0 0 0 0 p 0 m8 zero8 zero8 zero8 p8 zero8
        ∙ rw (bit_or_none d, bit_or_none m, none_bit_or p) refl in
      let four =
        word_or d m p 0 0 0 0 k m8 p8 zero8 zero8 zero8 k8
        ∙ rw (bit_or_none d, bit_or_none m, bit_or_none p, none_bit_or k) refl in
      ap (λ (t : ℕ). bit_or (bit_or t (word 0 0 p 0)) (word 0 0 0 k)) two
      ∙ ap (λ (t : ℕ). bit_or t (word 0 0 0 k)) three
      ∙ four

info_value :
    (d m p k : ℕ)
    → d < 2 ^ 8
    → m < 2 ^ 8
    → bit_or
        (bit_or
          (bit_or (d * 2 ^ 24 % 2 ^ 32) (m * 2 ^ 16 % 2 ^ 32))
          (bit_and p 0x3 * 2 ^ 8 % 2 ^ 32))
        (bit_and k 0x3F)
      ≡ word d m (p % 2 ^ 2) (k % 2 ^ 6)
info_value d m p k d8 m8 =
    let f = λ (x y z w : ℕ). bit_or (bit_or (bit_or x y) z) w in
    let ids : d * 2 ^ 24 % 2 ^ 32 ≡ word d 0 0 0 = omega arith in
    let modes : m * 2 ^ 16 % 2 ^ 32 ≡ word 0 m 0 0 = omega arith in
    let partitions : bit_and p 0x3 * 2 ^ 8 % 2 ^ 32 ≡ word 0 0 (p % 2 ^ 2) 0 =
      rw (low_two p) (omega arith) in
    let macs : bit_and k 0x3F ≡ word 0 0 0 (k % 2 ^ 6) = rw (low_six k) (omega arith) in
    ap (λ (x : ℕ). f x (m * 2 ^ 16 % 2 ^ 32) (bit_and p 0x3 * 2 ^ 8 % 2 ^ 32) (bit_and k 0x3F)) ids
    ∙ ap (λ (y : ℕ). f (word d 0 0 0) y (bit_and p 0x3 * 2 ^ 8 % 2 ^ 32) (bit_and k 0x3F)) modes
    ∙ ap (λ (z : ℕ). f (word d 0 0 0) (word 0 m 0 0) z (bit_and k 0x3F)) partitions
    ∙ ap (λ (w : ℕ). f (word d 0 0 0) (word 0 m 0 0) (word 0 0 (p % 2 ^ 2) 0) w) macs
    ∙ join d m (p % 2 ^ 2) (k % 2 ^ 6) m8 (omega arith) (omega arith)

module _ (b : Board) (bank : IsBank b.port) (s : b.port.State) (i : Info) (fits : IsInfo i)
    (holds : bank.memory.contents s dtc_evb_partition_id_reg ≡ encode i) where
  -- The state after the register is written, and nothing else.
  abbrev pub with_info : Info → b.port.State
  with_info j = bank.memory.written dtc_evb_partition_id_reg (encode j) s

  reads : read b dtc_evb_partition_id_reg s ≡ ok (encode i, s)
  reads = read-contents b bank dtc_evb_partition_id_reg s refl ∙ ap (λ (x : ℕ). ok (x, s)) holds

  writes :
      (x : ℕ) (j : Info) → x ≡ encode j → write b dtc_evb_partition_id_reg x s ≡ ok (with_info j)
  writes x j e =
      ap (λ (t : ℕ). write b dtc_evb_partition_id_reg t s) e
      ∙ write-written b bank dtc_evb_partition_id_reg (encode j) s refl

  -- On a board whose registers keep what is written, and whose register has the fields of `i`: each
  -- setter, given bytes, writes the register once so that it has the fields of `i` with the one that
  -- is set (of the partition the low two bits, of the address the low six), and SetEVBInfo
  -- sets all of them.
  pub evb_setters :
      (d m p k : ℕ)
      → d < 2 ^ 8
      → m < 2 ^ 8
      → (set_evb_info b d m p k s
          ≡ ok
              (with_info (record { dtc_id = d; mode = m; partition = p % 2 ^ 2; mac = k % 2 ^ 6 })))
        × (set_dtc_id b d s ≡ ok (with_info (record i { dtc_id = d })))
        × (set_evb_mode b m s ≡ ok (with_info (record i { mode = m })))
        × (set_evb_local_parition_id b p s
            ≡ ok (with_info (record i { partition = i.partition / 2 ^ 2 * 2 ^ 2 + p % 2 ^ 2 })))
        × (set_evb_local_mac_address b k s
            ≡ ok (with_info (record i { mac = i.mac / 2 ^ 6 * 2 ^ 6 + k % 2 ^ 6 })))
  evb_setters d m p k d8 m8 = (
    writes _ (record { dtc_id = d; mode = m; partition = p % 2 ^ 2; mac = k % 2 ^ 6 })
        (info_value d m p k d8 m8),
    rw reads (writes _ (record i { dtc_id = d }) (id_value i fits d d8)),
    rw reads (writes _ (record i { mode = m }) (mode_value i fits m m8)),
    rw reads (
        writes _ (record i { partition = i.partition / 2 ^ 2 * 2 ^ 2 + p % 2 ^ 2 })
          (partition_value i fits p)),
    rw reads (writes _ (record i { mac = i.mac / 2 ^ 6 * 2 ^ 6 + k % 2 ^ 6 }) (mac_value i fits k)),
  )

  -- On such a board the number and the mode are read as they are, and the low six bits of the address;
  -- but the partition is read as 0, whatever it is.
  pub evb_readers :
      (read_dtc_id b none s ≡ ok (i.dtc_id, s))
      × (read_evb_mode b none s ≡ ok (i.mode, s))
      × (read_evb_local_mac_address b none s ≡ ok (i.mac % 2 ^ 6, s))
      × (read_evb_local_parition_id b none s ≡ ok (0, s))
  evb_readers =
      let ids : word i.dtc_id 0 0 0 / 2 ^ 24 % 2 ^ 8 ≡ i.dtc_id = omega (arith, fits.0) in
      let modes : word 0 i.mode 0 0 / 2 ^ 16 % 2 ^ 8 ≡ i.mode = omega (arith, fits.1) in
      let macs : encode i % 2 ^ 6 % 2 ^ 8 ≡ i.mac % 2 ^ 6 = omega arith in
      let clear : word 0 i.mode 0 0 / 2 ^ 8 % 2 ^ 2 % 2 ^ 8 ≡ 0 = omega arith in
      (
        rw (reads, only_id i fits) (ap (λ (x : ℕ). ok (x, s)) ids),
        rw (reads, only_mode i fits) (ap (λ (x : ℕ). ok (x, s)) modes),
        rw (reads, low_six (encode i)) (ap (λ (x : ℕ). ok (x, s)) macs),
        rw (reads, only_mode i fits, low_two (word 0 i.mode 0 0 / 2 ^ 8))
            (ap (λ (x : ℕ). ok (x, s)) clear),
      )
