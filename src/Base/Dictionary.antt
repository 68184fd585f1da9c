-- ===== src/Base/Dictionary.antt =====
-- Python's `dict`, in insertion order.
use mathlib.Core.Path.{◌≡◌, refl}
use mathlib.Core.Option.{Option, none, some}
use mathlib.Core.List.{List, [], ◌∷◌}
use Prim.Native.Nat.{ℕ, ◌+◌}
use native.Mathlib.Omega.{arith}
use harmony_migration.Base.Tests.{if◌then◌else◌}
use harmony_migration.Base.Lists.{sum_of}
use harmony_migration.Base.Order.{Ordered}

abbrev pub Dict {ℓ κ} : Type ℓ → Type κ → Type (ℓ ⊔ κ)
Dict K V = List (K × V)

module _ {ℓ κ} {K : Type ℓ} {V : Type κ} ⦃o : Ordered K⦄ where
  -- `d.get(k)`
  abbrev pub lookup : K → Dict K V → Option V
  lookup k [] = none
  lookup k ((j, v) ∷ d) = let rest = lookup k d in if o.eq j k then some v else rest

  -- `d[k] = v`
  abbrev pub insert : K → V → Dict K V → Dict K V
  insert k v [] = (k, v) ∷ []
  insert k v ((j, w) ∷ d) =
      let rest = insert k v d in if o.eq j k then (j, v) ∷ d else (j, w) ∷ rest

  pub lookup-insert :
      (k j : K) (v : V) (d : Dict K V)
      → lookup j (insert k v d) ≡ (if o.eq k j then some v else lookup j d)
  lookup-insert k j v [] = refl
  lookup-insert k j v ((i, w) ∷ d) =
      ground
        (arith, lookup-insert k j v d, o.eq_sound k j, o.eq_sound i k, o.eq_sound i j, o.eq_refl j)

  -- The sum over the values when one is added or replaced.
  pub sum_of-insert_new :
      (f : K × V → ℕ) (k : K) (v : V) (d : Dict K V)
      → lookup k d ≡ none
      → sum_of f (insert k v d) ≡ sum_of f d + f (k, v)
  sum_of-insert_new f k v [] h = ground arith
  sum_of-insert_new f k v ((j, w) ∷ d) h = ground (arith, sum_of-insert_new f k v d)
