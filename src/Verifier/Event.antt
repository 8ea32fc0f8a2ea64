-- ===== src/Verifier/Event.antt =====
-- `VerifyBlock`, `VerifySubEvent` and `VerifyEvent` of dtcInterfaceLib/DTC_Data_Verifier.h.
use Prim.Native.Nat.{bit_and}
use mu2e_pcie_utils.Prelude.{
  ℕ, ◌+◌, ◌*◌, ◌%◌, ◌^◌, Bool, true, false, not, ◌&&◌, List, [], ◌∷◌, ◌==◌, if◌then◌else◌,
}
use mu2e_pcie_utils.Verifier.Block.{Block, Verifier}
use mu2e_pcie_utils.Verifier.Calorimeter.{verify_calorimeter}
use mu2e_pcie_utils.Verifier.Emulator.{verify_emulator}

-- `current_buffer_pos_ += n`.
abbrev pub advance : ℕ → Verifier → Verifier
advance n v = record v { current_buffer_pos = (v.current_buffer_pos + n) % 2 ^ 64 }

-- Bytes 2 and 3 mark a data header packet.
unfoldable pub is_data_header : Block → Bool
is_data_header block = bit_and ((block.byte 2 + block.byte 3 * 2 ^ 8) % 2 ^ 16) 0x80F0 == 0x8050

-- The switch on the subsystem.
unfoldable pub verify_subsystem : Block → Verifier → Bool × Verifier
unfolding verify_calorimeter verify_emulator
verify_subsystem block v =
    if block.subsystem_id == 1
    then (verify_calorimeter block, v)
    else if block.subsystem_id == 3
    then verify_emulator block v
    else (true, v)

unfoldable pub verify_block : Block → Verifier → Bool × Verifier
unfolding is_data_header verify_subsystem
verify_block block v =
    let checked = verify_subsystem block v in
    if not (is_data_header block)
    then (false, record v { continue_file = false })
    else if not ((block.packet_count + 1) * 16 == block.byte_count)
    then (false, advance block.byte_count v)
    else (checked.0, advance block.byte_count checked.1)

-- What ends a loop over parts early.
abbrev pub gives_up : Verifier → Bool
gives_up v = v.file_mode && not v.continue_file

-- The loop over the blocks, with `success` so far.
unfoldable pub verify_blocks : List Block → Bool → Verifier → Bool × Verifier
unfolding verify_block
verify_blocks [] success v = (success, v)
verify_blocks (block ∷ blocks) success v =
    let r = verify_block block v in
    let rest = verify_blocks blocks (success && r.0) r.1 in
    if gives_up r.1 then (false, r.1) else rest

-- `header_size` is the size of `DTC_SubEventHeader`.
unfoldable pub verify_subevent : ℕ → List Block → Verifier → Bool × Verifier
unfolding verify_blocks
verify_subevent header_size blocks v = verify_blocks blocks true (advance header_size v)

unfoldable pub verify_subevents : ℕ → List (List Block) → Bool → Verifier → Bool × Verifier
unfolding verify_subevent
verify_subevents header_size [] success v = (success, v)
verify_subevents header_size (subevent ∷ subevents) success v =
    let r = verify_subevent header_size subevent v in
    let rest = verify_subevents header_size subevents (success && r.0) r.1 in
    if gives_up r.1 then (false, r.1) else rest

-- `event_size` is the size of `DTC_EventHeader`.
unfoldable pub verify_event : ℕ → ℕ → List (List Block) → Verifier → Bool × Verifier
unfolding verify_subevents
verify_event event_size header_size subevents v =
    verify_subevents header_size subevents true
      (advance event_size (record v { current_buffer_pos = 0 }))
