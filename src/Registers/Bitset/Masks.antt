-- ===== src/Registers/Bitset/Masks.antt =====
-- `&` bit by bit, and the comparison of two numbers under a mask.
use mu2e_pcie_utils.Prelude.{
  ne→==, lt→ltb, ltb→lt, ==→ne, ℕ, zero, suc, ◌/◌, ◌%◌, ◌^◌, ◌<◌, ◌≡◌, ◌≢◌, refl, sym, ap, ◌∙◌, min,
  Bool, true, false, not, ◌&&◌, ◌==◌, eq→==, ==→eq, ltb, Bool-cases, inl, inr, ◌⊎◌, arith, &&-true,
}
use Prim.Native.Nat.{bit_and, bit_and-bitwise}
use native.Mathlib.Nat.{pow-suc, div-div-eq-div-mul}
use mu2e_pcie_utils.Bits.Step.{bit_and_step}
use mu2e_pcie_utils.Registers.Bitset.{bit, bit_of}

bit-suc : (x k : ℕ) → bit x (suc k) ≡ bit (x / 2) k
bit-suc x k =
    ap (λ (t : ℕ). x / t % 2) (pow-suc 2 k ∙ omega arith)
    ∙ ap (λ (t : ℕ). t % 2) (sym (div-div-eq-div-mul x 2 (2 ^ k)))

bit-bit_and : (k x y : ℕ) → bit (bit_and x y) k ≡ min (bit x k) (bit y k)
bit-bit_and zero x y = omega (arith, bit_and_step x y)
bit-bit_and (suc k) x y =
    let half : bit_and x y / 2 ≡ bit_and (x / 2) (y / 2) = omega (arith, bit_and_step x y) in
    bit-suc (bit_and x y) k
    ∙ ap (λ (t : ℕ). bit t k) half
    ∙ bit-bit_and k (x / 2) (y / 2)
    ∙ sym (rw (bit-suc x k, bit-suc y k) refl)

bit_and_lt : (n x m : ℕ) → x < 2 ^ n → bit_and x m < 2 ^ n
bit_and_lt zero x m h =
    let none : x ≡ 0 = omega arith in rw none (omega (arith, bit_and-bitwise 0 m))
bit_and_lt (suc n) x m h = omega (
  arith,
  bit_and_step x m,
  pow-suc 2 n,
  bit_and_lt n (x / 2) (m / 2) (omega (arith, pow-suc 2 n)),
)

bit_lt : (x k : ℕ) → bit x k < 2
bit_lt x k = omega arith

-- Numbers that differ have a bit that differs.
differing :
    (n x y : ℕ) → x < 2 ^ n → y < 2 ^ n → (x ≡ y) ⊎ ((k : ℕ) × (k < n) × (bit x k ≢ bit y k))
differing zero x y hx hy = inl (omega arith)
differing (suc n) x y hx hy =
    let p = pow-suc 2 n in
    elim (differing n (x / 2) (y / 2) (omega (arith, p)) (omega (arith, p))) [
      | inr found ↦ inr (
        suc found.0,
        omega (arith, found.1),
        λ e. found.2 (sym (bit-suc x found.0) ∙ e ∙ bit-suc y found.0),
      )
      | inl half ↦ elim (Bool-cases (x % 2 == y % 2)) [
        | inl low ↦ inl (omega (arith, half, ==→eq (x % 2) (y % 2) low))
        | inr low ↦ inr (0, omega arith, λ e. ==→ne (x % 2) (y % 2) low (omega (arith, e)))
      ]
    ]

-- What holds below a bound, by computation.
abbrev pub all_below : ℕ → (ℕ → Bool) → Bool
all_below zero p = true
all_below (suc n) p = p n && all_below n p

below : (n : ℕ) (p : ℕ → Bool) (k : ℕ) → all_below n p ≡ true → k < n → p k ≡ true
below zero p k h lt = absurd (omega arith)
below (suc n) p k h lt =
    let both = &&-true (p n) (all_below n p) h in
    elim (Bool-cases (k == n)) [
      | inl last ↦ ap p (==→eq k n last) ∙ both.0
      | inr other ↦ below n p k both.1 (omega (arith, lt, ==→ne k n other))
    ]

-- Where two numbers differ at a bit of 32 that matters.
abbrev pub differ_at : (ℕ → Bool) → ℕ → ℕ → ℕ → Bool
differ_at matters x y k = ltb k 32 && matters k && not (bit x k == bit y k)

module _ (m : ℕ) (matters : ℕ → Bool)
    (is_mask : all_below 32 (λ k. bit m k == bit_of (matters k)) ≡ true) where
  mask_bit : (k : ℕ) → k < 32 → bit m k ≡ bit_of (matters k)
  mask_bit k h =
      ==→eq (bit m k) (bit_of (matters k))
        (below 32 (λ c. bit m c == bit_of (matters c)) k is_mask h)

  pub masked-same : (x y k : ℕ) → bit_and x m ≡ bit_and y m → differ_at matters x y k ≡ false
  masked-same x y k e = elim (Bool-cases (ltb k 32)) [
    | inr out ↦ rw out refl
    | inl inside ↦ elim (Bool-cases (matters k)) [
      | inr free ↦ rw (inside, free) refl
      | inl kept ↦
          let one : bit m k ≡ 1 = mask_bit k (ltb→lt k 32 inside) ∙ ap bit_of kept in
          let same : bit x k ≡ bit y k = omega (
            arith,
            one,
            bit_lt x k,
            bit_lt y k,
            bit-bit_and k x m,
            bit-bit_and k y m,
            ap (λ (t : ℕ). bit t k) e,
          ) in
          rw (inside, kept, eq→== (bit x k) (bit y k) same) refl
    ]
  ]

  pub masked-other :
      (x y : ℕ)
      → x < 2 ^ 32
      → y < 2 ^ 32
      → bit_and x m ≢ bit_and y m
      → (k : ℕ) × (differ_at matters x y k ≡ true)
  masked-other x y hx hy ne =
      elim (differing 32 (bit_and x m) (bit_and y m) (bit_and_lt 32 x m hx)
        (bit_and_lt 32 y m hy)) [
          | inl same ↦ absurd (ne same)
          | inr found ↦ elim (Bool-cases (matters found.0)) [
            | inr free ↦
                let k = found.0 in
                let none : bit m k ≡ 0 = mask_bit k found.1 ∙ ap bit_of free in
                absurd (found.2 (bit-bit_and k x m ∙ omega (arith, none) ∙ sym (bit-bit_and k y m)))
            | inl kept ↦
                let k = found.0 in
                let one : bit m k ≡ 1 = mask_bit k found.1 ∙ ap bit_of kept in
                let same : bit x k ≢ bit y k = λ e. found.2 (
                  bit-bit_and k x m
                  ∙ ap (λ (t : ℕ). min t (bit m k)) e
                  ∙ sym (bit-bit_and k y m)) in
                (k, rw (lt→ltb k 32 found.1, kept, ne→== (bit x k) (bit y k) same) refl)
          ]
        ]
