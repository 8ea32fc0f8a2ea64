-- ===== src/Verifier/Sound.antt =====
-- What an event that verifies (dtcInterfaceLib/DTC_Data_Verifier.h) is known to be.
use mu2e_pcie_utils.Prelude.{
  ℕ, ◌+◌, ◌*◌, ◌≡◌, Bool, true, false, not, ◌&&◌, List, [], ◌∷◌, ◌==◌, ==→eq, Bool-cases, inl, inr,
  All, arith,
}
use mu2e_pcie_utils.Verifier.Block.{Block, Verifier}
use mu2e_pcie_utils.Verifier.Calorimeter.{verify_calorimeter}
use mu2e_pcie_utils.Verifier.Event.{
  is_data_header, verify_subsystem, verify_block, gives_up, verify_blocks, verify_subevent,
  verify_subevents, verify_event, advance,
}

-- A block whose header is a data header, whose two sizes agree, and whose calorimeter data verify.
abbrev pub IsSound : Block → Type 0
IsSound block =
    (is_data_header block ≡ true)
    × ((block.packet_count + 1) * 16 ≡ block.byte_count)
    × ((block.subsystem_id == 1 && not (verify_calorimeter block)) ≡ false)

subsystem_sound :
    (block : Block) (v : Verifier)
    → (verify_subsystem block v).0 ≡ true
    → (block.subsystem_id == 1 && not (verify_calorimeter block)) ≡ false
unfolding verify_subsystem
subsystem_sound block v e = elim (Bool-cases (block.subsystem_id == 1)) [
  | inl one ↦ let checked = rw one at e in rw (one, checked)
  | inr other ↦ rw other
]

block-IsSound : (block : Block) (v : Verifier) → (verify_block block v).0 ≡ true → IsSound block
unfolding verify_block
block-IsSound block v e = elim (Bool-cases (is_data_header block)) [
  | inr bad ↦ let r = rw bad at e in cc
  | inl header ↦ elim (Bool-cases ((block.packet_count + 1) * 16 == block.byte_count)) [
    | inr bad ↦ let r = rw (header, bad) at e in cc
    | inl sizes ↦ (header, ==→eq _ _ sizes, subsystem_sound block v (rw (header, sizes) at e))
  ]
]

and-both : (a b : Bool) → (a && b) ≡ true → (a ≡ true) × (b ≡ true)
and-both a b h = ground arith

-- The flag so far was set, and so is that of each block.
blocks-IsSound :
    (blocks : List Block) (success : Bool) (v : Verifier)
    → (verify_blocks blocks success v).0 ≡ true
    → (success ≡ true) × All IsSound blocks
unfolding verify_blocks
blocks-IsSound [] success v e = (e, tt)
blocks-IsSound (block ∷ blocks) success v e =
    let r = verify_block block v in
    elim (Bool-cases (gives_up r.1)) [
      | inl up ↦ let no = rw up at e in cc
      | inr on ↦
          let rest = blocks-IsSound blocks (success && r.0) r.1 (rw on at e) in
          let both = and-both success r.0 rest.0 in (both.0, (block-IsSound block v both.1, rest.1))
    ]

subevents-IsSound :
    (size : ℕ) (subevents : List (List Block)) (success : Bool) (v : Verifier)
    → (verify_subevents size subevents success v).0 ≡ true
    → (success ≡ true) × All (All IsSound) subevents
unfolding verify_subevents verify_subevent
subevents-IsSound size [] success v e = (e, tt)
subevents-IsSound size (subevent ∷ subevents) success v e =
    let r = verify_blocks subevent true (advance size v) in
    elim (Bool-cases (gives_up r.1)) [
      | inl up ↦ let no = rw up at e in cc
      | inr on ↦
          let rest = subevents-IsSound size subevents (success && r.0) r.1 (rw on at e) in
          let both = and-both success r.0 rest.0 in
          (both.0, ((blocks-IsSound subevent true (advance size v) both.1).1, rest.1))
    ]

-- When an event verifies, each block of each of its subevents starts with a data header, has a byte
-- count that agrees with its packet count, and holds data that verify if it is a calorimeter block.
pub verify_event-IsSound :
    (event_size header_size : ℕ) (subevents : List (List Block)) (v : Verifier)
    → (verify_event event_size header_size subevents v).0 ≡ true
    → All (All IsSound) subevents
unfolding verify_event
verify_event-IsSound event_size header_size subevents v e =
    (subevents-IsSound header_size subevents true _ e).1
