-- ===== src/Boards/Counters/Apart.antt =====
-- What clearing a counter of the DTC does to the others (dtcInterfaceLib/DTC_Registers.cpp).
use mu2e_pcie_utils.Prelude.{
  err, sym, inr, false, inl, true, Option-cases, not, Bool, ◌∙◌, ◌==◌, ap, ◌⊎◌, &&-true, ok, ◌>>=◌,
  ℕ, ◌≡◌, refl, none, some,
}
use mu2e_pcie_utils.Boards.Counters.Codes.{register-is_ordinary, register-injective}
use mu2e_pcie_utils.Registers.Port.{illegal_link}
use mu2e_pcie_utils.Registers.Access.{control, is_core}
use mu2e_pcie_utils.Boards.Base.{Board, Link, register_of, read, write}
use mu2e_pcie_utils.Boards.Framed.{IsFramed, IsAccepted, read-framed, write-framed}
use mu2e_pcie_utils.Boards.Counters.{
  receive_byte_count, receive_packet_count, transmit_byte_count, transmit_packet_count,
  retransmit_request_count, missed_cfo_packet_count, rxcdr_unlock_count,
  serdes_character_not_in_table_error_count, serdes_rx_disparity_error_count,
  serdes_rx_prbs_error_count, serdes_rx_crc_error_count, tx_data_request_packet_count,
  rx_data_header_packet_count, rx_data_packet_count, Counter, register, clear_counter, read_counter,
  cleared,
}

not-true : (x : Bool) → not x ≡ true → x ≡ false
not-true true h = cc
not-true false h = refl

module _ (b : Board) where
  -- The accessors look the register up and then write or read it.
  clear-lem :
      (c : Counter) (l : Link) (s : b.port.State)
      → clear_counter c b l s ≡ (register_of (register c l) >>= λ a. write b a (cleared c) s)
  clear-lem receive_byte_count l s = refl
  clear-lem receive_packet_count l s = refl
  clear-lem transmit_byte_count l s = refl
  clear-lem transmit_packet_count l s = refl
  clear-lem retransmit_request_count l s = refl
  clear-lem missed_cfo_packet_count l s = refl
  clear-lem rxcdr_unlock_count l s = refl
  clear-lem serdes_character_not_in_table_error_count l s = refl
  clear-lem serdes_rx_disparity_error_count l s = refl
  clear-lem serdes_rx_prbs_error_count l s = refl
  clear-lem serdes_rx_crc_error_count l s = refl
  clear-lem tx_data_request_packet_count l s = refl
  clear-lem rx_data_header_packet_count l s = refl
  clear-lem rx_data_packet_count l s = refl

  read-lem :
      (c : Counter) (l : Link) (s : b.port.State)
      → read_counter c b l none s
        ≡ (register_of (register c l) >>= λ a. read b a s >>= λ r. ok (r.0, r.1))
  read-lem receive_byte_count l s = refl
  read-lem receive_packet_count l s = refl
  read-lem transmit_byte_count l s = refl
  read-lem transmit_packet_count l s = refl
  read-lem retransmit_request_count l s = refl
  read-lem missed_cfo_packet_count l s = refl
  read-lem rxcdr_unlock_count l s = refl
  read-lem serdes_character_not_in_table_error_count l s = refl
  read-lem serdes_rx_disparity_error_count l s = refl
  read-lem serdes_rx_prbs_error_count l s = refl
  read-lem serdes_rx_crc_error_count l s = refl
  read-lem tx_data_request_packet_count l s = refl
  read-lem rx_data_header_packet_count l s = refl
  read-lem rx_data_packet_count l s = refl

module _ (b : Board) (framed : IsFramed b.port) where
  open b.port use {State}
  open framed use {contents, stored, contents-stored_other}

  read-at :
      (c : Counter) (l : Link) (s : State) {a : ℕ}
      → register c l ≡ some a
      → read_counter c b l none s ≡ ok (contents s a, s)
  read-at c l s {a} at_a =
      let fine =
        &&-true (not (a == control)) (not (is_core a)) (rw at_a at (register-is_ordinary c l)) in
      read-lem b c l s ∙ rw (at_a, read-framed b framed a s (not-true (a == control) fine.0)) refl

  clear-at :
      (c : Counter) (l : Link) (s : State) {a : ℕ}
      → register c l ≡ some a
      → IsAccepted b framed a (cleared c) s
      → clear_counter c b l s ≡ ok (stored a (cleared c) s)
  clear-at c l s {a} at_a accepted =
      let fine =
        &&-true (not (a == control)) (not (is_core a)) (rw at_a at (register-is_ordinary c l)) in
      clear-lem b c l s
      ∙ rw (at_a, write-framed b framed a (cleared c) s (not-true (is_core a) fine.1) accepted) refl

  read-absent :
      (c : Counter) (l : Link) (s : State)
      → register c l ≡ none
      → read_counter c b l none s ≡ err illegal_link
  read-absent c l s absent = read-lem b c l s ∙ rw absent refl

  read-other :
      (c d : Counter) (l m : Link) (s : State) (v : ℕ) {a : ℕ}
      → register c l ≡ some a
      → ((c ≡ d) × (l ≡ m))
        ⊎ (read_counter d b m none (stored a v s)
            ≡ (read_counter d b m none s >>= λ r. ok (r.0, stored a v s)))
  read-other c d l m s v {a} at_a = elim (Option-cases (register d m)) [
    | inl absent ↦ inr (
        read-absent d m (stored a v s) absent
        ∙ sym (ap (λ o. o >>= λ r. ok (r.0, stored a v s)) (read-absent d m s absent)))
    | inr there ↦ elim (register-injective c d l m at_a there.1) [
      | inl one ↦ inl one
      | inr ne ↦
          let kept = contents-stored_other a there.0 v s ne in
          inr (
            read-at d m (stored a v s) there.1
            ∙ ap (λ (x : ℕ). ok (x, stored a v s)) kept
            ∙ sym (ap (λ o. o >>= λ r. ok (r.0, stored a v s)) (read-at d m s there.1)))
    ]
  ]

  -- On a board on which a write to a register leaves the other registers, and whose check passes what
  -- this write reads back, clearing a counter of a link that has it is one write, of the value that
  -- clears it, to the register of that counter and link; the reading of each other counter, and of
  -- the same one of another link, is what it was, errors included.
  pub clear_counter-read_counter :
      (c d : Counter) (l m : Link) (s : State) {a : ℕ}
      → register c l ≡ some a
      → IsAccepted b framed a (cleared c) s
      → (clear_counter c b l s ≡ ok (stored a (cleared c) s))
        × (((c ≡ d) × (l ≡ m))
            ⊎ (read_counter d b m none (stored a (cleared c) s)
                ≡ (read_counter d b m none s >>= λ r. ok (r.0, stored a (cleared c) s))))
  clear_counter-read_counter c d l m s {a} at_a accepted =
      (clear-at c l s at_a accepted, read-other c d l m s (cleared c) at_a)
