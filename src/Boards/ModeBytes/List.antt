-- ===== src/Boards/ModeBytes/List.antt =====
-- The accessors of the event mode, as a list of six bytes.
use mu2e_pcie_utils.Prelude.{
  if_both, false, zero, suc, ℕ, ◌+◌, ◌*◌, ◌/◌, ◌%◌, ◌^◌, ◌<◌, ◌≡◌, refl, ap, ◌∙◌, none, ◌==◌,
  if◌then◌else◌, Outcome, ok, arith,
}
use Prim.Native.Nat.{suc, bit_and}
use mu2e_pcie_utils.Bits.Words.{word}
use mu2e_pcie_utils.Registers.Access.{serdes_clock_iic_high}
use mu2e_pcie_utils.Registers.Port.{RegisterError}
use mu2e_pcie_utils.Boards.Base.{Board, read}
use mu2e_pcie_utils.Boards.ModeBytes.Masks.{
  only_a, only_b, only_c, only_d, but_a, but_b, but_c, but_d,
}
use mu2e_pcie_utils.Boards.Bank.{IsBank, read-contents, write-written}
use mu2e_pcie_utils.Boards.Ports.{dtc_emulation_event_mode2_reg}
use mu2e_pcie_utils.Boards.ModeBytes.{
  dtc_emulation_event_mode1_reg, mode_register, with_byte, set_cfo_emulation_mode_byte,
  read_cfo_emulation_mode_byte,
}

-- The event mode as its bytes by their number. The upper half of the second register is not part of it.
abbrev pub update : ℕ → ℕ → (ℕ → ℕ) → ℕ → ℕ
update n x m k = if n == k then x else m k

number : {x y : ℕ} → x ≡ y → ◌≡◌ {A = Outcome RegisterError ℕ} (ok x) (ok y)
number e = ap (λ (x : ℕ). ok x) e

module _ (b : Board) (bank : IsBank b.port) where
  open b.port use {State}
  open bank.memory use {contents, written, contents-written}

  abbrev pub Shows : State → (ℕ → ℕ) → Type 0
  Shows s m =
      (contents s dtc_emulation_event_mode1_reg ≡ word (m 3) (m 2) (m 1) (m 0))
      × (contents s dtc_emulation_event_mode2_reg % 2 ^ 16 ≡ m 5 * 2 ^ 8 + m 4)

  module _ (s : State) (m : ℕ → ℕ) (small : (i : ℕ) → m i < 2 ^ 8) (shows : Shows s m) where
    -- The second register, and its upper bytes.
    top : ℕ
    top = contents s dtc_emulation_event_mode2_reg / 2 ^ 24

    next : ℕ
    next = contents s dtc_emulation_event_mode2_reg / 2 ^ 16 % 2 ^ 8

    first : read b dtc_emulation_event_mode1_reg s ≡ ok (word (m 3) (m 2) (m 1) (m 0), s)
    first =
        read-contents b bank dtc_emulation_event_mode1_reg s refl
        ∙ ap (λ (x : ℕ). ok (x, s)) shows.0

    second : read b dtc_emulation_event_mode2_reg s ≡ ok (word top next (m 5) (m 4), s)
    unfolding top next
    second =
        read-contents b bank dtc_emulation_event_mode2_reg s refl
        ∙ ap (λ (x : ℕ). ok (x, s)) (omega (arith, shows.1, small 4, small 5))

    next_lt : next < 2 ^ 8
    unfolding next
    next_lt = omega arith

    top_lt : top < 2 ^ 8
    unfolding top
    top_lt = omega (arith, bank.memory.contents_lt s dtc_emulation_event_mode2_reg)

    answer : {x y : ℕ} → x ≡ y → ◌≡◌ {A = Outcome RegisterError (ℕ × State)} (ok (x, s)) (ok (y, s))
    answer e = ap (λ (x : ℕ). ok (x, s)) e

    reads : (n : ℕ) → n < 6 → read_cfo_emulation_mode_byte b n none s ≡ ok (m n, s)
    reads zero h =
        rw (first, only_d (m 3) (m 2) (m 1) (m 0) (small 3) (small 2) (small 1) (small 0))
          (answer (omega (arith, small 0)))
    reads (suc zero) h =
        rw (first, only_c (m 3) (m 2) (m 1) (m 0) (small 3) (small 2) (small 1) (small 0))
          (answer (omega (arith, small 1)))
    reads (suc (suc zero)) h =
        rw (first, only_b (m 3) (m 2) (m 1) (m 0) (small 3) (small 2) (small 1) (small 0))
          (answer (omega (arith, small 2)))
    reads (suc (suc (suc zero))) h =
        rw (first, only_a (m 3) (m 2) (m 1) (m 0) (small 3) (small 2) (small 1) (small 0))
          (answer (omega (arith, small 3)))
    reads (suc (suc (suc (suc zero)))) h =
        rw (second, only_d top next (m 5) (m 4) top_lt next_lt (small 5) (small 4))
          (answer (omega (arith, small 4)))
    reads (suc (suc (suc (suc (suc zero))))) h =
        rw (second, only_c top next (m 5) (m 4) top_lt next_lt (small 5) (small 4))
          (answer (omega (arith, small 5)))
    reads (suc (suc (suc (suc (suc (suc n)))))) h = absurd (omega arith)

    -- What writing one of the two registers leaves.
    store_first :
        (k : ℕ → ℕ)
        → ((i : ℕ) → k i < 2 ^ 8)
        → k 4 ≡ m 4
        → k 5 ≡ m 5
        → Shows (written dtc_emulation_event_mode1_reg (word (k 3) (k 2) (k 1) (k 0)) s) k
    store_first k fits e4 e5 = (
      contents-written dtc_emulation_event_mode1_reg (word (k 3) (k 2) (k 1) (k 0)) s
          (omega (arith, fits 0, fits 1, fits 2, fits 3)),
      ap (λ (x : ℕ). x % 2 ^ 16)
            (bank.contents-written_other dtc_emulation_event_mode1_reg dtc_emulation_event_mode2_reg
              (word (k 3) (k 2) (k 1) (k 0)) s (omega arith))
          ∙ shows.1
          ∙ omega (arith, e4, e5),
    )

    store_second :
        (k : ℕ → ℕ) (p q : ℕ)
        → ((i : ℕ) → k i < 2 ^ 8)
        → p < 2 ^ 8
        → q < 2 ^ 8
        → word (m 3) (m 2) (m 1) (m 0) ≡ word (k 3) (k 2) (k 1) (k 0)
        → Shows (written dtc_emulation_event_mode2_reg (word p q (k 5) (k 4)) s) k
    store_second k p q fits p8 q8 same = (
      bank.contents-written_other dtc_emulation_event_mode2_reg dtc_emulation_event_mode1_reg
            (word p q (k 5) (k 4)) s (omega arith)
          ∙ shows.0
          ∙ same,
      ap (λ (x : ℕ). x % 2 ^ 16)
            (contents-written dtc_emulation_event_mode2_reg (word p q (k 5) (k 4)) s
              (omega (arith, fits 4, fits 5)))
          ∙ omega (arith, fits 4, fits 5),
    )

    -- What the setter does, once its register is read and its value is known.
    puts :
        (n x a v y : ℕ)
        → mode_register n ≡ ok a
        → (a == serdes_clock_iic_high) ≡ false
        → read b a s ≡ ok (v, s)
        → with_byte n x v ≡ ok y
        → set_cfo_emulation_mode_byte b n x s ≡ ok (written a y s)
    puts n x a v y at_a plain is_v is_y = rw (at_a, is_v, is_y) (write-written b bank a y s plain)

    update_lt : (n x i : ℕ) → x < 2 ^ 8 → update n x m i < 2 ^ 8
    update_lt n x i x8 = if_both (λ (t : ℕ). t < 2 ^ 8) (n == i) (λ _. x8) (λ _. small i)

    sets :
        (n x : ℕ)
        → n < 6
        → x < 2 ^ 8
        → (t : State) × (set_cfo_emulation_mode_byte b n x s ≡ ok t) × Shows t (update n x m)
    sets zero x h x8 =
        let value : (bit_and (word (m 3) (m 2) (m 1) (m 0)) 0xFFFFFF00 + x) % 2 ^ 32
            ≡ word (m 3) (m 2) (m 1) x =
          rw (but_d (m 3) (m 2) (m 1) (m 0) (small 3) (small 2) (small 1) (small 0))
            (omega (arith, small 1, small 2, small 3, x8)) in
        (
          written dtc_emulation_event_mode1_reg (word (m 3) (m 2) (m 1) x) s,
          puts 0 x dtc_emulation_event_mode1_reg (word (m 3) (m 2) (m 1) (m 0))
              (word (m 3) (m 2) (m 1) x) refl refl first (number value),
          store_first (update 0 x m) (λ i. update_lt 0 x i x8) refl refl,
        )
    sets (suc zero) x h x8 =
        let value : (bit_and (word (m 3) (m 2) (m 1) (m 0)) 0xFFFF00FF + x * 2 ^ 8 % 2 ^ 32)
              % 2 ^ 32
            ≡ word (m 3) (m 2) x (m 0) =
          rw (but_c (m 3) (m 2) (m 1) (m 0) (small 3) (small 2) (small 1) (small 0))
            (omega (arith, small 0, small 2, small 3, x8)) in
        (
          written dtc_emulation_event_mode1_reg (word (m 3) (m 2) x (m 0)) s,
          puts 1 x dtc_emulation_event_mode1_reg (word (m 3) (m 2) (m 1) (m 0))
              (word (m 3) (m 2) x (m 0)) refl refl first (number value),
          store_first (update 1 x m) (λ i. update_lt 1 x i x8) refl refl,
        )
    sets (suc (suc zero)) x h x8 =
        let value : (bit_and (word (m 3) (m 2) (m 1) (m 0)) 0xFF00FFFF + x * 2 ^ 16 % 2 ^ 32)
              % 2 ^ 32
            ≡ word (m 3) x (m 1) (m 0) =
          rw (but_b (m 3) (m 2) (m 1) (m 0) (small 3) (small 2) (small 1) (small 0))
            (omega (arith, small 0, small 1, small 3, x8)) in
        (
          written dtc_emulation_event_mode1_reg (word (m 3) x (m 1) (m 0)) s,
          puts 2 x dtc_emulation_event_mode1_reg (word (m 3) (m 2) (m 1) (m 0))
              (word (m 3) x (m 1) (m 0)) refl refl first (number value),
          store_first (update 2 x m) (λ i. update_lt 2 x i x8) refl refl,
        )
    sets (suc (suc (suc zero))) x h x8 =
        let value : (bit_and (word (m 3) (m 2) (m 1) (m 0)) 0x00FFFFFF + x * 2 ^ 24 % 2 ^ 32)
              % 2 ^ 32
            ≡ word x (m 2) (m 1) (m 0) =
          rw (but_a (m 3) (m 2) (m 1) (m 0) (small 3) (small 2) (small 1) (small 0))
            (omega (arith, small 0, small 1, small 2, x8)) in
        (
          written dtc_emulation_event_mode1_reg (word x (m 2) (m 1) (m 0)) s,
          puts 3 x dtc_emulation_event_mode1_reg (word (m 3) (m 2) (m 1) (m 0))
              (word x (m 2) (m 1) (m 0)) refl refl first (number value),
          store_first (update 3 x m) (λ i. update_lt 3 x i x8) refl refl,
        )
    sets (suc (suc (suc (suc zero)))) x h x8 =
        let value : (bit_and (word top next (m 5) (m 4)) 0xFF00 + x) % 2 ^ 32 ≡ word 0 0 (m 5) x =
          rw (only_c top next (m 5) (m 4) top_lt next_lt (small 5) (small 4))
            (omega (arith, small 4, small 5, x8)) in
        (
          written dtc_emulation_event_mode2_reg (word 0 0 (m 5) x) s,
          puts 4 x dtc_emulation_event_mode2_reg (word top next (m 5) (m 4)) (word 0 0 (m 5) x) refl
              refl second (number value),
          store_second (update 4 x m) 0 0 (λ i. update_lt 4 x i x8) (omega arith) (omega arith)
              refl,
        )
    sets (suc (suc (suc (suc (suc zero))))) x h x8 =
        let value : (bit_and (word top next (m 5) (m 4)) 0x00FF + x * 2 ^ 8 % 2 ^ 32) % 2 ^ 32
            ≡ word 0 0 x (m 4) =
          rw (only_d top next (m 5) (m 4) top_lt next_lt (small 5) (small 4))
            (omega (arith, small 4, small 5, x8)) in
        (
          written dtc_emulation_event_mode2_reg (word 0 0 x (m 4)) s,
          puts 5 x dtc_emulation_event_mode2_reg (word top next (m 5) (m 4)) (word 0 0 x (m 4)) refl
              refl second (number value),
          store_second (update 5 x m) 0 0 (λ i. update_lt 5 x i x8) (omega arith) (omega arith)
              refl,
        )
    sets (suc (suc (suc (suc (suc (suc n)))))) x h x8 = absurd (omega arith)

    -- On a board whose registers keep what is written, and where the two registers of the event mode
    -- show the six bytes of `m`: reading a byte gives that byte of `m`, and setting one to a byte
    -- leaves the registers showing `m` with that byte replaced.
    pub mode_bytes_lem :
        (n x : ℕ)
        → n < 6
        → x < 2 ^ 8
        → (read_cfo_emulation_mode_byte b n none s ≡ ok (m n, s))
          × ((t : State) × (set_cfo_emulation_mode_byte b n x s ≡ ok t) × Shows t (update n x m))
    mode_bytes_lem n x h x8 = (reads n h, sets n x h x8)
