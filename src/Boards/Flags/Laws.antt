-- ===== src/Boards/Flags/Laws.antt =====
-- What the accessors of single bits do on a board whose registers keep what is written to them.
use mu2e_pcie_utils.Prelude.{
  every, List, every-All, All-each, All-map, All-both, All, sym, ne→==, ◌∙◌, ==→eq, ==→ne, le→ltb,
  ap, arith, ◌⊎◌, ℕ, ◌-◌, ◌^◌, ◌≤◌, ◌≡◌, ◌≢◌, refl, Bool, true, false, ◌&&◌, ◌==◌, ok, none,
  Bool-cases, inl, inr,
}
use mu2e_pcie_utils.Registers.Access.{control, serdes_clock_iic_high, get_bit, set_bit}
use mu2e_pcie_utils.Registers.Bitset.{bit, bit_of, test_bit, assign_bit}
use mu2e_pcie_utils.Registers.Bitset.Assign.{bit-assign_same, bit-assign_other, assign_lt}
use mu2e_pcie_utils.Boards.Base.{Board, change_bit}
use mu2e_pcie_utils.Boards.Bank.{IsBank, read-contents, write-written}
use mu2e_pcie_utils.Boards.Flags.Defs.{Flag, is_plain, is_same}
use mu2e_pcie_utils.Boards.Flags.Accessors.{IsAccessor, flags, flags-IsAccessor}

test-bit_of : (v : Bool) → (bit_of v == 1) ≡ v
test-bit_of true = refl
test-bit_of false = refl

-- Where a flag may stand.
abbrev IsPlain : Flag → Type 0
IsPlain f =
    ((f.reg == serdes_clock_iic_high) ≡ false)
    × (f.position ≤ 31)
    × ((f.reg ≢ control) ⊎ (f.position ≢ 0))

is_plain-IsPlain : (f : Flag) → is_plain f ≡ true → IsPlain f
is_plain-IsPlain f h = ground arith

module _ (b : Board) (bank : IsBank b.port) where
  open b.port use {State}
  open bank.memory use {contents, contents_lt, written, contents-written}

  -- No reset of the board is under way.
  abbrev pub IsLive : State → Type 0
  IsLive s = bit (contents s control) 0 ≡ 0

  -- The state after the bit of `f` is written, and nothing else.
  abbrev pub after : Flag → Bool → State → State
  after f v s = written f.reg (assign_bit (contents s f.reg) f.position v) s

  pub live-reads :
      (a : ℕ) (s : State) → IsLive s → (a == control && contents s a == 2 ^ 32 - 1) ≡ false
  live-reads a s live = elim (Bool-cases (a == control)) [
    | inr other ↦ rw other refl
    | inl core ↦
        let same = ap (contents s) (==→eq a control core) in
        let odd = ne→== (contents s a) (2 ^ 32 - 1) (λ e. omega (arith, live, same, e)) in
        rw core odd
  ]

  change-after :
      (f : Flag) (v : Bool) (s : State)
      → IsPlain f
      → IsLive s
      → change_bit b f.reg f.position v s ≡ ok (after f v s)
  unfolding set_bit
  change-after f v s plain live =
      let x = assign_bit (contents s f.reg) f.position v in
      rw (le→ltb 31 f.position plain.1, read-contents b bank f.reg s (live-reads f.reg s live))
        (rw (write-written b bank f.reg x s plain.0) refl)

  contents-after :
      (f : Flag) (v : Bool) (s : State)
      → IsPlain f
      → contents (after f v s) f.reg ≡ assign_bit (contents s f.reg) f.position v
  contents-after f v s plain =
      contents-written f.reg _ s
        (assign_lt (contents s f.reg) f.position v (omega (arith, plain.1)) (contents_lt s f.reg))

  after-IsLive : (f : Flag) (v : Bool) (s : State) → IsPlain f → IsLive s → IsLive (after f v s)
  after-IsLive f v s plain live = elim (Bool-cases (f.reg == control)) [
    | inr other ↦
        let kept = bank.contents-written_other f.reg control _ s (==→ne f.reg control other) in
        ap (λ (x : ℕ). bit x 0) kept ∙ live
    | inl core ↦
        let same = ==→eq f.reg control core in
        let moved : f.position ≢ 0 = elim plain.2 [ inl ne ↦ absurd (ne same) | inr ne ↦ ne ] in
        ap (λ (a : ℕ). bit (contents (after f v s) a) 0) (sym same)
        ∙ ap (λ (x : ℕ). bit x 0) (contents-after f v s plain)
        ∙ bit-assign_other (contents s f.reg) f.position 0 v moved
        ∙ ap (λ (a : ℕ). bit (contents s a) 0) same
        ∙ live
  ]

  -- `GetBit_` of `g` after the bit of `f` is written.
  get_bit-after :
      (f g : Flag) (v : Bool) (s : State)
      → IsPlain f
      → IsPlain g
      → IsLive s
      → get_bit b.port g.reg g.position (after f v s)
        ≡ ok (test_bit (contents (after f v s) g.reg) g.position, after f v s)
  unfolding get_bit
  get_bit-after f g v s plain plain_g live =
      let t = after f v s in
      rw
        (
          le→ltb 31 g.position plain_g.1,
          read-contents b bank g.reg t (live-reads g.reg t (after-IsLive f v s plain live)),
        )
        refl

  test_bit-after_same :
      (f : Flag) (v : Bool) (s : State)
      → IsPlain f
      → test_bit (contents (after f v s) f.reg) f.position ≡ v
  test_bit-after_same f v s plain =
      ap (λ (x : ℕ). test_bit x f.position) (contents-after f v s plain)
      ∙ ap (λ (d : ℕ). d == 1) (bit-assign_same (contents s f.reg) f.position v)
      ∙ test-bit_of v

  test_bit-after_other :
      (f g : Flag) (v : Bool) (s : State)
      → IsPlain f
      → is_same f g ≡ false
      → test_bit (contents (after f v s) g.reg) g.position ≡ test_bit (contents s g.reg) g.position
  test_bit-after_other f g v s plain apart = elim (Bool-cases (f.reg == g.reg)) [
    | inr other ↦
        ap (λ (x : ℕ). test_bit x g.position)
          (bank.contents-written_other f.reg g.reg _ s (==→ne f.reg g.reg other))
    | inl one ↦
        let same = ==→eq f.reg g.reg one in
        let moved : f.position ≢ g.position = ==→ne f.position g.position (rw one at apart) in
        ap (λ (a : ℕ). test_bit (contents (after f v s) a) g.position) (sym same)
        ∙ ap (λ (x : ℕ). test_bit x g.position) (contents-after f v s plain)
        ∙ ap (λ (d : ℕ). d == 1) (bit-assign_other (contents s f.reg) f.position g.position v moved)
        ∙ ap (λ (a : ℕ). test_bit (contents s a) g.position) same
  ]

  -- Each of the two writing accessors of `f` writes the one bit; the reading one then sees it.
  abbrev pub RoundTrip : State → Flag → Type 0
  RoundTrip s f =
      (f.enable b s ≡ ok (after f true s))
      × (f.read b none (after f true s) ≡ ok (true, after f true s))
      × (f.disable b s ≡ ok (after f false s))
      × (f.read b none (after f false s) ≡ ok (false, after f false s))

  -- Writing `f` is not seen by the accessor that reads `g`.
  abbrev pub Apart : State → Flag → Flag → Type 0
  Apart s f g =
      (v : Bool)
      → g.read b none (after f v s) ≡ ok (test_bit (contents s g.reg) g.position, after f v s)

  abbrev pub Known : Flag → Type 0
  Known f = ((s : State) → IsAccessor b s f) × IsPlain f

  round_trip : (s : State) → IsLive s → (f : Flag) → Known f → RoundTrip s f
  round_trip s live f known =
      let write = λ (v : Bool). change-after f v s known.1 live in
      let seen = λ (v : Bool).
        (known.0 (after f v s)).2
        ∙ get_bit-after f f v s known.1 known.1 live
        ∙ ap (λ (x : Bool). ok (x, after f v s)) (test_bit-after_same f v s known.1) in
      ((known.0 s).0 ∙ write true, seen true, (known.0 s).1 ∙ write false, seen false)

  pub apart :
      (s : State) → IsLive s → (f g : Flag) → Known f → Known g → is_same f g ≡ false → Apart s f g
  apart s live f g known known_g other v =
      (known_g.0 (after f v s)).2
      ∙ get_bit-after f g v s known.1 known_g.1 live
      ∙ ap (λ (x : Bool). ok (x, after f v s)) (test_bit-after_other f g v s known.1 other)

  pub Known-of_each :
      (fs : List Flag)
      → ((s : State) → All (IsAccessor b s) fs)
      → every is_plain fs ≡ true
      → All Known fs
  Known-of_each fs accessors plain =
      All-both (λ f. (s : State) → IsAccessor b s f) IsPlain fs
        (All-each (IsAccessor b) fs accessors)
        (All-map is_plain-IsPlain fs (every-All is_plain fs plain))

  -- On a board whose registers keep what is written, and whose control register shows no reset, for
  -- each of the 33 flags listed: the accessors that set and clear its bit change that bit of its
  -- register and nothing else, and the accessor that reads it then returns what was written.
  pub flags-RoundTrip : (s : State) → IsLive s → All (RoundTrip s) flags
  flags-RoundTrip s live =
      All-map (round_trip s live) flags (Known-of_each flags (flags-IsAccessor b) refl)
