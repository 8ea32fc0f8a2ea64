-- ===== src/Boards/Counters/Codes.antt =====
-- The counters and links as numbers, and that no register belongs to two of them.
use mu2e_pcie_utils.Prelude.{
  eq→==, some_eq, inr, &&-true, inl, Bool-cases, ◌⊎◌, every-get_elem?, ==→eq, ℕ, ◌≡◌, ◌≢◌, refl,
  sym, ap, ◌∙◌, Bool, true, false, not, ◌&&◌, ◌||◌, ◌==◌, List, [], ◌∷◌, Option, none, some,
  get_elem?, every,
}
use mu2e_pcie_utils.Registers.Access.{control, is_core}
use mu2e_pcie_utils.Boards.Base.{
  Link, link_0, link_1, link_2, link_3, link_4, link_5, link_6, link_7, link_cfo, link_evb,
  link_unused, link_all,
}
use mu2e_pcie_utils.Boards.Counters.{
  Counter, register, receive_byte_count, receive_packet_count, transmit_byte_count,
  transmit_packet_count, retransmit_request_count, missed_cfo_packet_count, rxcdr_unlock_count,
  serdes_character_not_in_table_error_count, serdes_rx_disparity_error_count,
  serdes_rx_prbs_error_count, serdes_rx_crc_error_count, tx_data_request_packet_count,
  rx_data_header_packet_count, rx_data_packet_count,
}

abbrev counters : List Counter
counters =
    receive_byte_count ∷ receive_packet_count ∷ transmit_byte_count ∷ transmit_packet_count
    ∷ retransmit_request_count ∷ missed_cfo_packet_count ∷ rxcdr_unlock_count
    ∷ serdes_character_not_in_table_error_count ∷ serdes_rx_disparity_error_count
    ∷ serdes_rx_prbs_error_count ∷ serdes_rx_crc_error_count ∷ tx_data_request_packet_count
    ∷ rx_data_header_packet_count ∷ rx_data_packet_count ∷ []

abbrev number : Counter → ℕ
number receive_byte_count = 0
number receive_packet_count = 1
number transmit_byte_count = 2
number transmit_packet_count = 3
number retransmit_request_count = 4
number missed_cfo_packet_count = 5
number rxcdr_unlock_count = 6
number serdes_character_not_in_table_error_count = 7
number serdes_rx_disparity_error_count = 8
number serdes_rx_prbs_error_count = 9
number serdes_rx_crc_error_count = 10
number tx_data_request_packet_count = 11
number rx_data_header_packet_count = 12
number rx_data_packet_count = 13

abbrev links : List Link
links =
    link_0 ∷ link_1 ∷ link_2 ∷ link_3 ∷ link_4 ∷ link_5 ∷ link_6 ∷ link_7 ∷ link_cfo ∷ link_evb
    ∷ link_unused ∷ link_all ∷ []

abbrev link_number : Link → ℕ
link_number link_0 = 0
link_number link_1 = 1
link_number link_2 = 2
link_number link_3 = 3
link_number link_4 = 4
link_number link_5 = 5
link_number link_6 = 6
link_number link_7 = 7
link_number link_cfo = 8
link_number link_evb = 9
link_number link_unused = 10
link_number link_all = 11

number-at : (c : Counter) → get_elem? counters (number c) ≡ some c
number-at receive_byte_count = refl
number-at receive_packet_count = refl
number-at transmit_byte_count = refl
number-at transmit_packet_count = refl
number-at retransmit_request_count = refl
number-at missed_cfo_packet_count = refl
number-at rxcdr_unlock_count = refl
number-at serdes_character_not_in_table_error_count = refl
number-at serdes_rx_disparity_error_count = refl
number-at serdes_rx_prbs_error_count = refl
number-at serdes_rx_crc_error_count = refl
number-at tx_data_request_packet_count = refl
number-at rx_data_header_packet_count = refl
number-at rx_data_packet_count = refl

link_number-at : (l : Link) → get_elem? links (link_number l) ≡ some l
link_number-at link_0 = refl
link_number-at link_1 = refl
link_number-at link_2 = refl
link_number-at link_3 = refl
link_number-at link_4 = refl
link_number-at link_5 = refl
link_number-at link_6 = refl
link_number-at link_7 = refl
link_number-at link_cfo = refl
link_number-at link_evb = refl
link_number-at link_unused = refl
link_number-at link_all = refl

-- Whether two registers differ, where both are there.
abbrev differ : Option ℕ → Option ℕ → Bool
differ (some a) (some e) = not (a == e)
differ (some a) none = true
differ none o = true

abbrev clash_free : Counter → Link → Counter → Link → Bool
clash_free c l d m =
    (number c == number d && link_number l == link_number m) || differ (register c l) (register d m)

number-injective : (c d : Counter) → (number c == number d) ≡ true → c ≡ d
number-injective c d h =
    let same = ==→eq (number c) (number d) h in
    some_eq (sym (number-at c) ∙ ap (λ (i : ℕ). get_elem? counters i) same ∙ number-at d)

link_number-injective : (l m : Link) → (link_number l == link_number m) ≡ true → l ≡ m
link_number-injective l m h =
    let same = ==→eq (link_number l) (link_number m) h in
    some_eq (sym (link_number-at l) ∙ ap (λ (i : ℕ). get_elem? links i) same ∙ link_number-at m)

-- The four loops of the check, from the innermost.
abbrev meets : Counter → Link → Counter → Bool
meets c l d = every (clash_free c l d) links

abbrev meets_all : Counter → Link → Bool
meets_all c l = every (meets c l) counters

abbrev counter_free : Counter → Bool
counter_free c = every (meets_all c) links

all_clash_free : every counter_free counters ≡ true
all_clash_free = refl

clash-free : (c d : Counter) (l m : Link) → clash_free c l d m ≡ true
clash-free c d l m =
    let c_row = every-get_elem? counter_free counters (number c) all_clash_free (number-at c) in
    let l_row = every-get_elem? (meets_all c) links (link_number l) c_row (link_number-at l) in
    let d_row = every-get_elem? (meets c l) counters (number d) l_row (number-at d) in
    every-get_elem? (clash_free c l d) links (link_number m) d_row (link_number-at m)

or_right : (x y : Bool) → (x || y) ≡ true → x ≡ false → y ≡ true
or_right true y h z = cc
or_right false y h z = h

differ-ne : (o u : Option ℕ) {a e : ℕ} → differ o u ≡ true → o ≡ some a → u ≡ some e → a ≢ e
differ-ne none u h at_a at_e = cc
differ-ne (some x) none h at_a at_e = cc
differ-ne (some x) (some y) {a} {e} h at_a at_e = λ same.
    let one : x ≡ y = some_eq at_a ∙ same ∙ sym (some_eq at_e) in
    let r = rw (eq→== x y one) at h in cc

-- A register that is there belongs to one counter of one link.
pub register-injective :
    (c d : Counter) (l m : Link) {a e : ℕ}
    → register c l ≡ some a
    → register d m ≡ some e
    → ((c ≡ d) × (l ≡ m)) ⊎ (a ≢ e)
register-injective c d l m at_a at_e =
    elim (Bool-cases (number c == number d && link_number l == link_number m)) [
      | inl one ↦
          let both = &&-true (number c == number d) (link_number l == link_number m) one in
          inl (number-injective c d both.0, link_number-injective l m both.1)
      | inr other ↦
          let free =
            or_right (number c == number d && link_number l == link_number m)
              (differ (register c l) (register d m)) (clash-free c d l m) other in
          inr (differ-ne (register c l) (register d m) free at_a at_e)
    ]

-- The registers of the counters are none of those that both boards check alike.
abbrev pub is_ordinary : Option ℕ → Bool
is_ordinary none = true
is_ordinary (some a) = not (a == control) && not (is_core a)

abbrev row_ordinary : Counter → Bool
row_ordinary c = every (λ l. is_ordinary (register c l)) links

all_ordinary : every row_ordinary counters ≡ true
all_ordinary = refl

pub register-is_ordinary : (c : Counter) (l : Link) → is_ordinary (register c l) ≡ true
register-is_ordinary c l =
    let row = every-get_elem? row_ordinary counters (number c) all_ordinary (number-at c) in
    every-get_elem? (λ m. is_ordinary (register c m)) links (link_number l) row (link_number-at l)
