-- ===== src/Base/Results.antt =====
-- A call that may raise: a value, or the exception's description.
use mathlib.Core.Path.{◌≡◌, refl, ap}
use mathlib.Core.Bool.{Bool, true, false}
use mathlib.Core.Option.{Option, none, some}

pub data Result {ℓ κ} (E : Type ℓ) (A : Type κ) : Type (ℓ ⊔ κ) where
  err : E → Result E A
  ok : A → Result E A

-- `if bad: raise e`
abbrev pub raise_if {ℓ} : {E : Type ℓ} → Bool → E → Result E (Unit {0})
raise_if bad e = elim bad [ true ↦ err e | false ↦ ok tt ]

-- A test that let the call go on was false.
pub raise_if-eq-ok {ℓ} :
    {E : Type ℓ} (bad : Bool) (e : E) {u : Unit {0}} → raise_if bad e ≡ ok u → bad ≡ false
raise_if-eq-ok true e h = cc
raise_if-eq-ok false e h = refl

module _ {ℓ κ μ} {E : Type ℓ} {A : Type κ} {B : Type μ} where
  infixl 5 ◌>>=◌
  -- What raises ends the rest.
  abbrev pub ◌>>=◌ : Result E A → (A → Result E B) → Result E B
  ◌>>=◌ (err e) rest = err e
  ◌>>=◌ (ok a) rest = rest a

  -- A sequence that returned: its first part did, and what followed returned from there.
  pub >>=-eq-ok :
      (first : Result E A) (rest : A → Result E B) {b : B}
      → first >>= rest ≡ ok b
      → (a : A) × (first ≡ ok a) × (rest a ≡ ok b)
  >>=-eq-ok (err e) rest h = cc
  >>=-eq-ok (ok a) rest h = (a, refl, h)

infixl 5 ◌>>◌
abbrev pub ◌>>◌ {ℓ κ} : {E : Type ℓ} {B : Type κ} → Result E (Unit {0}) → Result E B → Result E B
check >> rest = check >>= (λ u. rest)

module _ {ℓ κ} {E : Type ℓ} {A : Type κ} where
  abbrev value_or : A → Result E A → A
  value_or d (err e) = d
  value_or d (ok a) = a

  pub ok_injective : {a b : A} → ◌≡◌ {A = Result E A} (ok a) (ok b) → a ≡ b
  ok_injective {a} h = ap (value_or a) h

abbrev value_of {ℓ} : {A : Type ℓ} → A → Option A → A
value_of d none = d
value_of d (some a) = a

pub some_injective {ℓ} : {A : Type ℓ} {a b : A} → some a ≡ some b → a ≡ b
some_injective {a} h = ap (value_of a) h
