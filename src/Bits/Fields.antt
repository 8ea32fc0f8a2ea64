-- ===== src/Bits/Fields.antt =====
-- A number in three parts: `low` below bit `s`, `field` in the `c` bits from there, `high` above.
use Prim.Native.Nat.{bit_and, bit_or}
use native.Mathlib.Nat.{pow-suc}
use mu2e_pcie_utils.Prelude.{ℕ, zero, suc, ◌+◌, ◌*◌, ◌^◌, ◌<◌, ◌≡◌, ap, arith}
use mu2e_pcie_utils.Bits.{bit_and_cut, bit_or_cut}

abbrev pub parts : ℕ → ℕ → ℕ → ℕ → ℕ → ℕ
parts s c high field low = (high * 2 ^ c + field) * 2 ^ s + low

pub pow_add : (a b : ℕ) → 2 ^ (a + b) ≡ 2 ^ a * 2 ^ b
pow_add a zero = let e : a + 0 ≡ a = omega arith in rw e (omega arith)
pow_add a (suc b) =
    let e : a + suc b ≡ suc (a + b) = omega arith in
    rw e (
      omega (
        arith,
        pow-suc 2 (a + b),
        pow-suc 2 b,
        pow_add a b,
        ap (λ (t : ℕ). 2 ^ a * t) (pow-suc 2 b),
      ))

module _ (s c : ℕ) (h f l k g m : ℕ) (fc : f < 2 ^ c) (gc : g < 2 ^ c) (ls : l < 2 ^ s)
    (ms : m < 2 ^ s) where
  pub parts_and :
      bit_and (parts s c h f l) (parts s c k g m)
      ≡ parts s c (bit_and h k) (bit_and f g) (bit_and l m)
  parts_and =
      rw (bit_and_cut s (h * 2 ^ c + f) (k * 2 ^ c + g) l m ls ms, bit_and_cut c h k f g fc gc)

  pub parts_or :
      bit_or (parts s c h f l) (parts s c k g m) ≡ parts s c (bit_or h k) (bit_or f g) (bit_or l m)
  parts_or = rw (bit_or_cut s (h * 2 ^ c + f) (k * 2 ^ c + g) l m ls ms, bit_or_cut c h k f g fc gc)

-- Three parts of widths that add up fit the sum of the widths.
pub parts_lt :
    (s c d h f l : ℕ) → h < 2 ^ d → f < 2 ^ c → l < 2 ^ s → parts s c h f l < 2 ^ (s + c + d)
parts_lt s c d h f l hd fc ls = rw (pow_add (s + c) d, pow_add s c) (grind (arith))
