-- ===== src/Device/Ring/Index.antt =====
-- The index arithmetic of a ring (mu2e_driver/mu2e_mmap_ioctl.h), as arithmetic modulo its size.
use native.Mathlib.Nat.{mod-eq_of_lt, mod-lt, add-mul-mod_self_right}
use mu2e_pcie_utils.Prelude.{
  ℕ, ◌+◌, ◌-◌, ◌*◌, ◌%◌, false, ◌^◌, ◌<◌, ◌≤◌, ◌≡◌, refl, sym, ap, ◌∙◌, arith, leb, inl, inr, ◌⊎◌,
  Bool-cases,
}
use mu2e_pcie_utils.Device.Ring.{c2s, s2c, ChannelInfo, idx_add, delta}

-- Indices below the number of buffers, which is no larger than an `int`.
pub record IsRing (info : ChannelInfo) : Type 0 where
  pub small : info.num_buffs < 2 ^ 31
  pub hw_lt : info.hw_idx < info.num_buffs
  pub sw_lt : info.sw_idx < info.num_buffs

one_turn : (x y n : ℕ) → y < n → x ≡ y + n → x % n ≡ y
one_turn x y n h e =
    ap (λ (t : ℕ). t % n) (e ∙ omega arith) ∙ add-mul-mod_self_right y 1 n ∙ mod-eq_of_lt h

-- The remainder of a number below twice the divisor.
pub mod_once : (x n : ℕ) → n ≤ x → x < n + n → x % n ≡ x - n
mod_once x n h k =
    let e : x ≡ x - n + 1 * n = omega arith in
    ap (λ (t : ℕ). t % n) e ∙ add-mul-mod_self_right (x - n) 1 n ∙ mod-eq_of_lt (omega arith)

mod-cases : (x n : ℕ) → x < n + n → (x < n) × (x % n ≡ x) ⊎ (n ≤ x) × (x % n ≡ x - n)
mod-cases x n h = elim (Bool-cases (leb n x)) [
  | inl above ↦ let le : n ≤ x = ground arith in inr (le, mod_once x n le h)
  | inr below ↦ let lt : x < n = ground arith in inl (lt, mod-eq_of_lt lt)
]

-- Two positions less than a turn apart in the same place are the same.
pub turn_unique : (sw n d e : ℕ) → sw < n → d < n → e < n → (sw + d) % n ≡ (sw + e) % n → d ≡ e
turn_unique sw n d e hs hd he h =
    let second = mod-cases (sw + e) n (omega arith) in
    elim (mod-cases (sw + d) n (omega arith)) [
      | inl x ↦ elim second [
        | inl y ↦ omega (arith, h, x.1, y.1)
        | inr y ↦ absurd (omega (arith, h, x.1, x.0, y.1, y.0))
      ]
      | inr x ↦ elim second [
        | inl y ↦ absurd (omega (arith, h, x.1, x.0, y.1, y.0))
        | inr y ↦ omega (arith, h, x.1, x.0, y.1, y.0)
      ]
    ]

-- The same for positions from 1 to a whole turn.
pub turn_full_unique :
    (sw n d e : ℕ) → sw < n → 1 ≤ d → d ≤ n → 1 ≤ e → e ≤ n → (sw + d) % n ≡ (sw + e) % n → d ≡ e
turn_full_unique sw n d e hs hd hd' he he' h =
    let second = mod-cases (sw + e) n (omega arith) in
    elim (mod-cases (sw + d) n (omega arith)) [
      | inl x ↦ elim second [
        | inl y ↦ omega (arith, h, x.1, y.1)
        | inr y ↦ absurd (omega (arith, h, x.1, x.0, y.1, y.0))
      ]
      | inr x ↦ elim second [
        | inl y ↦ absurd (omega (arith, h, x.1, x.0, y.1, y.0))
        | inr y ↦ omega (arith, h, x.1, x.0, y.1, y.0)
      ]
    ]

pub idx_add_lem :
    (idx k n : ℕ) → idx < n → k < 2 ^ 31 → n < 2 ^ 31 → idx_add idx k n ≡ (idx + k) % n
unfolding idx_add
idx_add_lem idx k n h hk hn =
    let small : leb (2 ^ 31) k ≡ false = ground arith in
    let fits : (idx + k) % 2 ^ 32 ≡ idx + k = mod-eq_of_lt (omega arith) in rw (small, fits)

module _ (info : ChannelInfo) (ring : IsRing info) where
  delta_c2s-cases :
      (info.sw_idx ≤ info.hw_idx) × (delta c2s info ≡ info.hw_idx - info.sw_idx)
      ⊎ (info.hw_idx < info.sw_idx) × (delta c2s info ≡ info.num_buffs + info.hw_idx - info.sw_idx)
  unfolding delta
  delta_c2s-cases = elim (Bool-cases (leb info.sw_idx info.hw_idx)) [
    | inl e ↦ inl (ground arith, rw e refl)
    | inr e ↦
        let lt : info.hw_idx < info.sw_idx = ground arith in
        let wrap : (info.num_buffs + info.hw_idx + 2 ^ 32 - info.sw_idx) % 2 ^ 32
            ≡ info.num_buffs + info.hw_idx - info.sw_idx =
          omega (arith, ring.small, ring.sw_lt, ring.hw_lt) in
        inr (lt, rw e wrap)
  ]

  delta_s2c-cases :
      (info.hw_idx ≤ info.sw_idx) × (delta s2c info ≡ info.num_buffs - (info.sw_idx - info.hw_idx))
      ⊎ (info.sw_idx < info.hw_idx) × (delta s2c info ≡ info.hw_idx - info.sw_idx)
  unfolding delta
  delta_s2c-cases = elim (Bool-cases (leb info.hw_idx info.sw_idx)) [
    | inl e ↦
        let le : info.hw_idx ≤ info.sw_idx = ground arith in
        let wrap : (info.num_buffs + 2 ^ 32 - (info.sw_idx - info.hw_idx)) % 2 ^ 32
            ≡ info.num_buffs - (info.sw_idx - info.hw_idx) =
          omega (arith, ring.small, ring.sw_lt, ring.hw_lt) in
        inl (le, rw e wrap)
    | inr e ↦ inr (ground arith, rw e refl)
  ]

  -- The distance from the index of the software to that of the hardware.
  pub delta_c2s :
      (delta c2s info < info.num_buffs)
      × ((info.sw_idx + delta c2s info) % info.num_buffs ≡ info.hw_idx)
  delta_c2s = elim delta_c2s-cases [
    | inl h ↦ (
      omega (arith, h.1, h.0, ring.hw_lt),
      rw h.1 (ap (λ (t : ℕ). t % info.num_buffs) (omega (arith, h.0)) ∙ mod-eq_of_lt ring.hw_lt),
    )
    | inr h ↦ (
      omega (arith, h.1, h.0, ring.hw_lt, ring.sw_lt),
      rw h.1 (
          one_turn _ info.hw_idx info.num_buffs ring.hw_lt
            (omega (arith, h.0, ring.sw_lt, ring.hw_lt))),
    )
  ]

  -- The buffers to send that are free: the rest of the turn.
  pub delta_s2c :
      (1 ≤ delta s2c info)
      × (delta s2c info ≤ info.num_buffs)
      × ((info.sw_idx + delta s2c info) % info.num_buffs ≡ info.hw_idx)
  delta_s2c = elim delta_s2c-cases [
    | inl h ↦ (
      omega (arith, h.1, h.0, ring.sw_lt),
      omega (arith, h.1, h.0, ring.sw_lt),
      rw h.1 (
          one_turn _ info.hw_idx info.num_buffs ring.hw_lt
            (omega (arith, h.0, ring.sw_lt, ring.hw_lt))),
    )
    | inr h ↦ (
      omega (arith, h.1, h.0),
      omega (arith, h.1, h.0, ring.hw_lt),
      rw h.1 (ap (λ (t : ℕ). t % info.num_buffs) (omega (arith, h.0)) ∙ mod-eq_of_lt ring.hw_lt),
    )
  ]

-- A step of the software's index.
abbrev pub stepped : ChannelInfo → ℕ → ChannelInfo
stepped info k = record info { sw_idx = idx_add info.sw_idx k info.num_buffs }

-- A step no further than the hardware's: the ring stays one, and the
-- distance shrinks by the step.
module _ (info : ChannelInfo) (k : ℕ) (ring : IsRing info) where
  pub stepped_index :
      k ≤ info.num_buffs → (stepped info k).sw_idx ≡ (info.sw_idx + k) % info.num_buffs
  stepped_index h =
      idx_add_lem info.sw_idx k info.num_buffs ring.sw_lt (omega (arith, h, ring.small)) ring.small

  pub stepped-IsRing : k ≤ info.num_buffs → IsRing (stepped info k)
  stepped-IsRing h = record {
    small = ring.small;
    hw_lt = ring.hw_lt;
    sw_lt = rw (stepped_index h) (mod-lt (info.sw_idx + k) (omega (arith, ring.sw_lt)));
  }

  -- What lies ahead of the new index, `d` of it, lay `k + d` ahead of the old one.
  ahead :
      (d : ℕ)
      → k ≤ info.num_buffs
      → (info.sw_idx + (k + d)) % info.num_buffs ≡ ((stepped info k).sw_idx + d) % info.num_buffs
  ahead d h =
      rw (stepped_index h)
        (elim (mod-cases (info.sw_idx + k) info.num_buffs (omega (arith, ring.sw_lt))) [
          | inl x ↦ rw x.1 (ap (λ (t : ℕ). t % info.num_buffs) (omega arith))
          | inr x ↦ rw x.1 (
              ap (λ (t : ℕ). t % info.num_buffs) (omega (arith, x.0))
              ∙ add-mul-mod_self_right (info.sw_idx + k - info.num_buffs + d) 1 info.num_buffs)
        ])

  pub stepped-delta_c2s : k ≤ delta c2s info → delta c2s (stepped info k) ≡ delta c2s info - k
  stepped-delta_c2s h =
      let old = delta_c2s info ring in
      let le : k ≤ info.num_buffs = omega (arith, h, old.0) in
      let new = delta_c2s (stepped info k) (stepped-IsRing le) in
      turn_unique (stepped info k).sw_idx info.num_buffs (delta c2s (stepped info k))
        (delta c2s info - k) (stepped-IsRing le).sw_lt new.0 (omega (arith, old.0))
        (new.1
          ∙ sym old.1
          ∙ ap (λ (t : ℕ). (info.sw_idx + t) % info.num_buffs) (omega (arith, h))
          ∙ ahead (delta c2s info - k) le)

  -- On the other side a step keeps one buffer in front of the hardware.
  pub stepped-delta_s2c : k < delta s2c info → delta s2c (stepped info k) ≡ delta s2c info - k
  stepped-delta_s2c h =
      let old = delta_s2c info ring in
      let le : k ≤ info.num_buffs = omega (arith, h, old.1) in
      let new = delta_s2c (stepped info k) (stepped-IsRing le) in
      let same =
        new.2
        ∙ sym old.2
        ∙ ap (λ (t : ℕ). (info.sw_idx + t) % info.num_buffs) (omega (arith, h))
        ∙ ahead (delta s2c info - k) le in
      turn_full_unique (stepped info k).sw_idx info.num_buffs (delta s2c (stepped info k))
        (delta s2c info - k) (stepped-IsRing le).sw_lt new.0 new.1 (omega (arith, h))
        (omega (arith, old.1)) same
