-- ===== src/Base/Sorting.antt =====
-- Python's `sorted(items, key=...)`: stable, and ascending by the key.
use mathlib.Core.Path.{◌≡◌, refl}
use mathlib.Core.Logic.{inl, inr}
use mathlib.Core.Bool.{true, false}
use mathlib.Core.List.{List, [], ◌∷◌}
use Prim.Native.Nat.{ℕ, ◌+◌}
use native.Mathlib.Omega.{arith}
use harmony_migration.Base.Tests.{if◌then◌else◌, Bool-cases}
use harmony_migration.Base.Lists.{length, sum_of, All, AllPairs}
use harmony_migration.Base.Order.{Ordered}

module _ {ℓ κ} {A : Type ℓ} {K : Type κ} ⦃o : Ordered K⦄ (key : A → K) where
  unfoldable pub insert_by : A → List A → List A
  insert_by x [] = x ∷ []
  insert_by x (y ∷ ys) =
      let later = insert_by x ys in if o.lt (key y) (key x) then y ∷ later else x ∷ y ∷ ys

  unfoldable pub sort_by : List A → List A
  unfolding insert_by
  sort_by [] = []
  sort_by (x ∷ xs) = insert_by x (sort_by xs)

  pub sum_of-insert_by :
      (f : A → ℕ) (x : A) (xs : List A) → sum_of f (insert_by x xs) ≡ f x + sum_of f xs
  unfolding insert_by
  sum_of-insert_by f x [] = refl
  sum_of-insert_by f x (y ∷ ys) = ground (arith, sum_of-insert_by f x ys)

  pub sum_of-sort_by : (f : A → ℕ) (xs : List A) → sum_of f (sort_by xs) ≡ sum_of f xs
  unfolding sort_by
  sum_of-sort_by f [] = refl
  sum_of-sort_by f (x ∷ xs) = omega (arith, sum_of-insert_by f x (sort_by xs), sum_of-sort_by f xs)

  pub length-insert_by : (x : A) (xs : List A) → length (insert_by x xs) ≡ length xs + 1
  unfolding insert_by
  length-insert_by x [] = refl
  length-insert_by x (y ∷ ys) = ground (arith, length-insert_by x ys)

  pub length-sort_by : (xs : List A) → length (sort_by xs) ≡ length xs
  unfolding sort_by
  length-sort_by [] = refl
  length-sort_by (x ∷ xs) = omega (arith, length-insert_by x (sort_by xs), length-sort_by xs)

  pub All-insert_by {μ} :
      (P : A → Type μ) (x : A) (xs : List A) → P x → All P xs → All P (insert_by x xs)
  unfolding insert_by
  All-insert_by P x [] hx h = (hx, h)
  All-insert_by P x (y ∷ ys) hx h = ground (arith, All-insert_by P x ys)

  pub All-sort_by {μ} : (P : A → Type μ) (xs : List A) → All P xs → All P (sort_by xs)
  unfolding sort_by
  All-sort_by P [] h = h
  All-sort_by P (x ∷ xs) h = All-insert_by P x (sort_by xs) h.0 (All-sort_by P xs h.1)

  -- No later item has a smaller key.
  abbrev pub IsSorted : List A → Type ℓ
  IsSorted [] = Unit
  IsSorted (x ∷ xs) = All (λ y. o.lt (key y) (key x) ≡ false) xs × IsSorted xs

  not_lt_trans :
      (x y z : A)
      → o.lt (key z) (key y) ≡ false
      → o.lt (key y) (key x) ≡ false
      → o.lt (key z) (key x) ≡ false
  not_lt_trans x y z h k =
      ground (arith, o.lt_trans (key z) (key x) (key y), o.lt_total (key x) (key y))

  All-not_lt :
      (x y : A) (ys : List A)
      → o.lt (key y) (key x) ≡ false
      → All (λ z. o.lt (key z) (key y) ≡ false) ys
      → All (λ z. o.lt (key z) (key x) ≡ false) ys
  All-not_lt x y [] h k = tt
  All-not_lt x y (z ∷ ys) h k = (not_lt_trans x y z k.0 h, All-not_lt x y ys h k.1)

  lt_asym : (x y : A) → o.lt (key y) (key x) ≡ true → o.lt (key x) (key y) ≡ false
  lt_asym x y h = ground (arith, o.lt_trans (key y) (key x) (key y), o.lt_irrefl (key y))

  insert_by-IsSorted : (x : A) (xs : List A) → IsSorted xs → IsSorted (insert_by x xs)
  unfolding insert_by
  insert_by-IsSorted x [] h = (tt, tt)
  insert_by-IsSorted x (y ∷ ys) h = elim (Bool-cases (o.lt (key y) (key x))) [
    | inl lt ↦ rw lt (All-insert_by _ x ys (lt_asym x y lt) h.0, insert_by-IsSorted x ys h.1)
    | inr ge ↦ rw ge ((ge, All-not_lt x y ys ge h.0), h)
  ]

  pub sort_by-IsSorted : (xs : List A) → IsSorted (sort_by xs)
  unfolding sort_by
  sort_by-IsSorted [] = tt
  sort_by-IsSorted (x ∷ xs) = insert_by-IsSorted x (sort_by xs) (sort_by-IsSorted xs)

  -- A symmetric relation between all items holds in any order.
  insert_by-AllPairs {μ} :
      (R : A → A → Type μ) (x : A) (xs : List A)
      → ((a b : A) → R a b → R b a)
      → All (R x) xs
      → AllPairs R xs
      → AllPairs R (insert_by x xs)
  unfolding insert_by
  insert_by-AllPairs R x [] s h k = (tt, tt)
  insert_by-AllPairs R x (y ∷ ys) s h k = elim (Bool-cases (o.lt (key y) (key x))) [
    | inl lt ↦ rw lt (All-insert_by (R y) x ys (s x y h.0) k.0, insert_by-AllPairs R x ys s h.1 k.1)
    | inr ge ↦ rw ge (h, k)
  ]

  pub sort_by-AllPairs {μ} :
      (R : A → A → Type μ) (xs : List A)
      → ((a b : A) → R a b → R b a)
      → AllPairs R xs
      → AllPairs R (sort_by xs)
  unfolding sort_by
  sort_by-AllPairs R [] s h = tt
  sort_by-AllPairs R (x ∷ xs) s h =
      insert_by-AllPairs R x (sort_by xs) s (All-sort_by (R x) xs h.0) (sort_by-AllPairs R xs s h.1)
