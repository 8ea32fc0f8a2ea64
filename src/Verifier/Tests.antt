-- ===== src/Verifier/Tests.antt =====
-- Checks at a concrete event.
use mu2e_pcie_utils.Prelude.{
  ℕ, ◌≡◌, refl, true, false, [], ◌∷◌, List, ◌==◌, if◌then◌else◌, none, All, get_or,
}
use mu2e_pcie_utils.Verifier.Block.{Block, Verifier}
use mu2e_pcie_utils.Verifier.Event.{verify_event}
use mu2e_pcie_utils.Verifier.Sound.{IsSound, verify_event-IsSound}

-- A calorimeter block of one hit with two samples, the second one the highest.
abbrev hit_words : List ℕ
hit_words = 1 ∷ 8 ∷ 0 ∷ 0 ∷ 0 ∷ 0 ∷ 0 ∷ 600 ∷ 0x0102 ∷ 5 ∷ 9 ∷ []

abbrev nth : List ℕ → ℕ → ℕ
nth xs k = get_or xs k 0

abbrev hit_block : Block
hit_block = record {
  byte_count = 48;
  packet_count = 2;
  subsystem_id = 1;
  link_id = 0;
  byte = λ k. if k == 2 then 0x50 else if k == 3 then 0x80 else 0;
  word = nth hit_words;
}

abbrev idle : Verifier
idle = record {
  continue_file = true;
  file_mode = false;
  current_buffer_pos = 7;
  packet_counters = λ k. none;
}

hit_event-verifies : (verify_event 24 48 ((hit_block ∷ []) ∷ []) idle).0 ≡ true
unfolding verify_event
hit_event-verifies = refl

verify_event-IsSound_example : All (All IsSound) ((hit_block ∷ []) ∷ [])
verify_event-IsSound_example =
    verify_event-IsSound 24 48 ((hit_block ∷ []) ∷ []) idle hit_event-verifies
