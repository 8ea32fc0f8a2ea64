-- ===== src/Verifier/Emulator.antt =====
-- `VerifyROCEmulatorBlock` of dtcInterfaceLib/DTC_Data_Verifier.h: the packets of the emulator, and the
-- counter that is kept for each link.
use mu2e_pcie_utils.Prelude.{
  ℕ, zero, suc, ◌+◌, ◌*◌, ◌%◌, ◌^◌, Bool, true, false, not, ◌&&◌, ◌==◌, if◌then◌else◌, Option, none,
  some,
}
use mu2e_pcie_utils.Verifier.Block.{Block, Verifier}

-- Two words as one number.
abbrev pub joined_words : ℕ → ℕ → ℕ
joined_words high low = (high * 2 ^ 16 + low) % 2 ^ 32

abbrev pub set_counter : ℕ → ℕ → Verifier → Verifier
set_counter link value v = record v {
  packet_counters = λ k. if k == link then some value else v.packet_counters k;
}

-- The counter of a link after the resynchronisation with the one received.
unfoldable pub expected_counter : Option ℕ → ℕ → ℕ
expected_counter none received = received
expected_counter (some kept) received = if not (received == kept) then received else kept

-- The format of the packet at word `at`, against the counter.
unfoldable pub packet_matches : (ℕ → ℕ) → ℕ → ℕ → Bool
packet_matches word at counter =
    word at == 0x1111
    && word (at + 1) == 0x2222
    && word (at + 4) == 0x3333
    && word (at + 5) == 0x4444
    && joined_words (word (at + 6)) (word (at + 7)) == counter

unfoldable pub verify_packets : (ℕ → ℕ) → ℕ → ℕ → ℕ → Verifier → Bool × Verifier
unfolding expected_counter packet_matches
verify_packets word link zero at v = (true, v)
verify_packets word link (suc left) at v =
    let received = joined_words (word (at + 2)) (word (at + 3)) in
    let counter = expected_counter (v.packet_counters link) received in
    let v' = set_counter link ((counter + 1) % 2 ^ 32) v in
    let rest = verify_packets word link left (at + 8) v' in
    if not (packet_matches word at counter) then (false, v') else rest

unfoldable pub verify_emulator : Block → Verifier → Bool × Verifier
unfolding verify_packets
verify_emulator block v =
    if not (block.byte 12 == 0xEF && block.byte 13 == 0xBE && block.byte 15 == 0xBE)
    then (false, v)
    else verify_packets block.word block.link_id block.packet_count 0 v
