-- ===== src/Verifier/Calorimeter.antt =====
-- `VerifyCalorimeterDataBlock` of dtcInterfaceLib/DTC_Data_Verifier.h. Warnings, which do not change the
-- result, are left out.
use Prim.Native.Nat.{bit_and}
use mu2e_pcie_utils.Prelude.{
  ℕ, zero, suc, ◌+◌, ◌*◌, ◌/◌, ◌%◌, ◌^◌, Bool, true, false, not, ltb, ◌==◌, if◌then◌else◌, Option,
  none, some,
}
use mu2e_pcie_utils.Verifier.Block.{Block}

-- The index of the word that `dataPtr` points to, and `currentOffset`.
pub record Cursor : Type 0 where
  pub at : ℕ
  pub offset : ℕ

-- The loop over the samples, `left` of them; the highest value so far and its index.
unfoldable pub highest : (ℕ → ℕ) → ℕ → ℕ → ℕ → ℕ → ℕ → ℕ
highest word zero at jj value index = index
highest word (suc left) at jj value index =
    let sample = word (at + 1) in
    highest word left (at + 1) (jj + 1) (if ltb value sample then sample else value)
      (if ltb value sample then jj else index)

-- One hit. The word at index `ii + 1` of the data is its entry of `hitOffsets`.
unfoldable pub verify_hit : (ℕ → ℕ) → ℕ → Cursor → Option Cursor
unfolding highest
verify_hit word ii c =
    let last = c.at + 5 in
    let samples = bit_and (word last) 0xFF in
    let max_sample = bit_and (word last) 0xFF00 / 2 ^ 8 in
    if not (c.offset + 2 == word (ii + 1))
    then none
    else if not (max_sample == highest word samples last 0 0 0)
    then none
    else some (record { at = last + samples; offset = c.offset + 2 + 8 + 2 * samples })

unfoldable pub verify_hits : (ℕ → ℕ) → ℕ → ℕ → Cursor → Option Cursor
unfolding verify_hit
verify_hits word zero ii c = some c
verify_hits word (suc left) ii c = elim (verify_hit word ii c) [
  | none ↦ none
  | some d ↦ verify_hits word left (ii + 1) d
]

-- The loop over the table of offsets: whether all of it lies within the block.
unfoldable pub offsets_fit : ℕ → ℕ → ℕ → Bool
offsets_fit zero offset byte_count = true
offsets_fit (suc left) offset byte_count =
    let rest = offsets_fit left (offset + 2) byte_count in
    if ltb byte_count (offset + 2) then false else rest

-- The loop over the padding at the end; the offset is even, so eight rounds are enough.
unfoldable pub padding_clear : (ℕ → ℕ) → ℕ → Cursor → Bool
padding_clear word zero c = true
padding_clear word (suc fuel) c =
    let rest = padding_clear word fuel (record { at = c.at + 1; offset = c.offset + 2 }) in
    if c.offset % 16 == 0 then true else if not (word c.at == 0) then false else rest

unfoldable pub verify_calorimeter : Block → Bool
unfolding verify_hits offsets_fit padding_clear
verify_calorimeter block =
    let hits = block.word 0 in
    let start : Cursor = record { at = hits + 2; offset = 2 * hits + 4 } in
    if block.byte_count == 0x10
    then true
    else if not (offsets_fit hits 0 block.byte_count)
    then false
    else if not (bit_and (block.word (hits + 2)) 0xC000 == 0)
    then false
    else elim (verify_hits block.word hits 0 start) [
      | none ↦ false
      | some c ↦ padding_clear block.word 8 (record { at = c.at + 1; offset = c.offset + 2 })
    ]
