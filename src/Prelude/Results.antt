-- ===== src/Prelude/Results.antt =====
-- A computation that returns a value or throws. Undefined behaviour of C++ on the path (a read out
-- of range, a division by zero) is an error too, so that its absence can be stated.
use mathlib.Core.Path.{ap, ◌≡◌, refl}
use mathlib.Core.Logic.{◌⊎◌, inl, inr}
use mathlib.Core.Bool.{Bool, true, false}

pub data Outcome {ℓ} (E : Type 0) (A : Type ℓ) : Type ℓ where
  ok : A → Outcome E A
  err : E → Outcome E A

module _ {ℓ κ} {E : Type 0} {A : Type ℓ} {B : Type κ} where
  infixl 5 ◌>>=◌
  abbrev pub ◌>>=◌ : Outcome E A → (A → Outcome E B) → Outcome E B
  err thrown >>= next = err thrown
  ok value >>= next = next value

  -- What a successful composition went through.
  pub >>=-eq-ok :
      (first : Outcome E A) (next : A → Outcome E B) {result : B}
      → (first >>= next) ≡ ok result
      → (value : A) × (first ≡ ok value) × (next value ≡ ok result)
  >>=-eq-ok (err thrown) next h = cc
  >>=-eq-ok (ok value) next h = (value, refl, h)

  -- Where a composition that throws did so.
  pub >>=-eq-err :
      (first : Outcome E A) (next : A → Outcome E B) {thrown : E}
      → (first >>= next) ≡ err thrown
      → (first ≡ err thrown) ⊎ ((value : A) × (first ≡ ok value) × (next value ≡ err thrown))
  >>=-eq-err (err e) next h = inl (ap (error e) h)
    where
      error : E → Outcome E B → Outcome E A
      error d (ok x) = err d
      error d (err x) = err x
  >>=-eq-err (ok value) next h = inr (value, refl, h)

module _ {ℓ} {E : Type 0} {B : Type ℓ} where
  infixl 5 ◌>>◌
  abbrev pub ◌>>◌ : Outcome E (Unit {0}) → Outcome E B → Outcome E B
  first >> second = first >>= λ _. second

-- `if(!test) throw thrown`.
abbrev pub require : {E : Type 0} → Bool → E → Outcome E (Unit {0})
require false thrown = err thrown
require true thrown = ok tt

pub require-eq-ok {ℓ} :
    {E : Type 0} {B : Type ℓ} (test : Bool) (thrown : E) (next : Outcome E B) {result : B}
    → (require test thrown >> next) ≡ ok result
    → (test ≡ true) × (next ≡ ok result)
require-eq-ok false thrown next h = cc
require-eq-ok true thrown next h = (refl, h)

pub Outcome-cases {ℓ} :
    {E : Type 0} {A : Type ℓ} (m : Outcome E A) → ((a : A) × (m ≡ ok a)) ⊎ ((e : E) × (m ≡ err e))
Outcome-cases (ok a) = inl (a, refl)
Outcome-cases (err e) = inr (e, refl)

pub ok-injective {ℓ} :
    {E : Type 0} {A : Type ℓ} {a b : A} → ◌≡◌ {A = Outcome E A} (ok a) (ok b) → a ≡ b
ok-injective {E} {A} {a} e = ap (value a) e
  where
    value : A → Outcome E A → A
    value d (ok x) = x
    value d (err _) = d

pub err-injective {ℓ} :
    {E : Type 0} {A : Type ℓ} {d e : E} → ◌≡◌ {A = Outcome E A} (err d) (err e) → d ≡ e
err-injective {E} {A} {d} h = ap thrown h
  where
    thrown : Outcome E A → E
    thrown (ok x) = d
    thrown (err x) = x
