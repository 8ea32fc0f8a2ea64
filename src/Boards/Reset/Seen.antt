-- ===== src/Boards/Reset/Seen.antt =====
-- When `ResetSERDES` (dtcInterfaceLib/DTC_Registers.cpp) returns.
use Prim.Native.Nat.{bit_and}
use mu2e_pcie_utils.Prelude.{
  ℕ, zero, suc, ◌/◌, ◌^◌, ◌≡◌, ap, ◌∙◌, Bool, true, false, ◌==◌, ==→eq, none, ok, >>=-eq-ok,
  ok-injective, if-cases, inl, inr, ◌⊎◌,
}
use mu2e_pcie_utils.Boards.Base.{Board, Link, read, write, sleep}
use mu2e_pcie_utils.Boards.Address.Common.{serdes_reset_done_reg, serdes_reset_reg}
use mu2e_pcie_utils.Boards.Dtc.SerdesStatus.{read_reset_rx_serdes_done, read_reset_tx_serdes_done}
use mu2e_pcie_utils.Boards.Reset.{is_all, reset_done, mark_reset, poll_reset, reset_serdes}

module _ (b : Board) (link : Link) where
  open b.port use {State}

  -- The last readings before the state `t` show that the reset is done, on both sides of the link or
  -- of the six links of ROCs.
  abbrev pub Seen : State → Type 0
  Seen t =
      ((is_all link ≡ true)
        × ((u : State) × (v : ℕ) × (u' : State) × (w : ℕ) × (read b serdes_reset_done_reg u
              ≡ ok (v, u'))
            × (bit_and v 0x3F ≡ 0x3F)
            × (read b serdes_reset_done_reg u' ≡ ok (w, t))
            × (bit_and (w / 2 ^ 16) 0x3F ≡ 0x3F)))
      ⊎ ((is_all link ≡ false)
          × ((u : State) × (u' : State) × (read_reset_rx_serdes_done b link none u ≡ ok (true, u'))
              × (read_reset_tx_serdes_done b link none u' ≡ ok (true, t))))

  done-Seen : (s t : State) → reset_done b link s ≡ ok (true, t) → Seen t
  done-Seen s t e = elim (if-cases (is_all link) _ _ e) [
    | inl all ↦
        let low = >>=-eq-ok (read b serdes_reset_done_reg s) _ all.1 in
        elim (if-cases (bit_and low.0.0 0x3F == 0x3F) _ _ low.2) [
          | inr off ↦ cc
          | inl on ↦
              let high = >>=-eq-ok (read b serdes_reset_done_reg low.0.1) _ on.1 in
              let last = ok-injective high.2 in
              let at_t = high.1 ∙ ap (λ (x : State). ok (high.0.0, x)) (ap (λ x. x.1) last) in
              inl (
                all.0,
                (
                  s,
                  low.0.0,
                  low.0.1,
                  high.0.0,
                  low.1,
                  ==→eq (bit_and low.0.0 0x3F) 0x3F on.0,
                  at_t,
                  ==→eq (bit_and (high.0.0 / 2 ^ 16) 0x3F) 0x3F (ap (λ x. x.0) last),
                ),
              )
        ]
    | inr one ↦
        let rx = >>=-eq-ok (read_reset_rx_serdes_done b link none s) _ one.1 in
        elim (if-cases rx.0.0 _ _ rx.2) [
          | inr off ↦ cc
          | inl on ↦ inr (one.0, (s, rx.0.1, rx.1 ∙ ap (λ (x : Bool). ok (x, rx.0.1)) on.0, on.1))
        ]
  ]

  poll-Seen :
      (rounds interval : ℕ) (s t : State) → poll_reset b rounds link interval s ≡ ok t → Seen t
  unfolding poll_reset
  poll-Seen zero interval s t e = cc
  poll-Seen (suc rounds) interval s t e =
      let checked = >>=-eq-ok (reset_done b link (sleep b interval s)) _ e in
      elim (if-cases checked.0.0 _ _ checked.2) [
        | inr again ↦ poll-Seen rounds interval checked.0.1 t again.1
        | inl done ↦
            let last : checked.0 ≡ (true, t) =
              ap (λ (x : Bool). (x, checked.0.1)) done.0
              ∙ ap (λ (x : State). (true, x)) (ok-injective done.1) in
            done-Seen (sleep b interval s) t (checked.1 ∙ ap (λ x. ok x) last)
      ]

  -- `reset_serdes` returns only when the device has shown, in its last readings, that the reset is done
  -- on both sides of the link, or of the six links of ROCs; otherwise it throws.
  pub reset_serdes-Seen :
      (interval : ℕ) (s t : State) → reset_serdes b link interval s ≡ ok t → Seen t
  unfolding reset_serdes
  reset_serdes-Seen interval s t e =
      let first = >>=-eq-ok (read b serdes_reset_reg s) _ e in
      let set =
        >>=-eq-ok (write b serdes_reset_reg (mark_reset b link first.0.0 true) first.0.1) _
          first.2 in
      let second = >>=-eq-ok (read b serdes_reset_reg set.0) _ set.2 in
      let cleared =
        >>=-eq-ok (write b serdes_reset_reg (mark_reset b link second.0.0 false) second.0.1) _
          second.2 in
      poll-Seen 99 interval cleared.0 t cleared.2
