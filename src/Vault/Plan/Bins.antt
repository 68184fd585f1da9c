-- ===== src/Vault/Plan/Bins.antt =====
-- The bins of the funding transactions: what is in them, and their gas.
use harmony_migration.Base.{
  ℕ, suc, ◌+◌, ◌≤◌, ◌≡◌, inl, inr, Bool-cases, List, [], ◌∷◌, sum_of, sum_of-append, arith, leb,
  leb→le, All,
}
use harmony_migration.Base.Order.{text_ordered}
use harmony_migration.Base.Keys.{nat_ordered, int_ordered, pair_ordered}
use harmony_migration.Abi.Bytes.{All-append}
use harmony_migration.Abi.Batch.{IsAddress}
use harmony_migration.Vault.Plan.Funding.{HasAddresses}
use harmony_migration.Vault.Plan.{
  Deposit, Vault, fund_base_gas, Item, parts_from, Bin, place, place_all,
}

-- What the members of the bins come to under a measure.
abbrev pub in_bins : (Item → ℕ) → List Bin → ℕ
in_bins f = sum_of (λ b. sum_of f b.members)

in_bins-place :
    (f : Item → ℕ) (target : ℕ) (it : Item) (bins : List Bin)
    → in_bins f (place target it bins) ≡ in_bins f bins + f it
unfolding place
in_bins-place f target it [] = omega arith
in_bins-place f target it (b ∷ bins) =
    ground (arith, in_bins-place f target it bins, sum_of-append f b.members (it ∷ []))

pub in_bins-place_all :
    (f : Item → ℕ) (target : ℕ) (items : List Item) (bins : List Bin)
    → in_bins f (place_all target items bins) ≡ in_bins f bins + sum_of f items
unfolding place_all
in_bins-place_all f target [] bins = omega arith
in_bins-place_all f target (it ∷ items) bins =
    omega (
      arith,
      in_bins-place_all f target items (place target it bins),
      in_bins-place f target it bins,
    )

-- A property of the members of the bins.
abbrev pub Members : List Bin → Type 0
Members = All (λ b. All HasAddresses b.members)

place-Members :
    (target : ℕ) (it : Item) (bins : List Bin)
    → HasAddresses it
    → Members bins
    → Members (place target it bins)
unfolding place
place-Members target it [] h m = ((h, tt), tt)
place-Members target it (b ∷ bins) h m =
    elim (Bool-cases (leb (fund_base_gas + (b.used + it.gas)) target)) [
      | inl e ↦ rw (place, e) ((All-append HasAddresses b.members (it ∷ []) m.0 (h, tt), m.1))
      | inr e ↦ rw (place, e) ((m.0, place-Members target it bins h m.1))
    ]

pub place_all-Members :
    (target : ℕ) (items : List Item) (bins : List Bin)
    → All HasAddresses items
    → Members bins
    → Members (place_all target items bins)
unfolding place_all
place_all-Members target [] bins h m = m
place_all-Members target (it ∷ items) bins h m =
    place_all-Members target items (place target it bins) h.1 (place-Members target it bins h.0 m)

pub parts_from-Members :
    (v : Vault) (i : ℕ) (chunks : List (List Deposit))
    → IsAddress v.address
    → All (All (λ r. IsAddress r.delegator)) chunks
    → All HasAddresses (parts_from v i chunks)
unfolding parts_from
parts_from-Members v i [] h m = tt
parts_from-Members v i (rows ∷ chunks) h m = ((h, m.0), parts_from-Members v (suc i) chunks h m.1)

-- Transactions within the target.
abbrev pub Roomy : ℕ → List Bin → Type 0
Roomy target = All (λ b. fund_base_gas + b.used ≤ target)

place-Roomy :
    (target : ℕ) (it : Item) (bins : List Bin)
    → fund_base_gas + it.gas ≤ target
    → Roomy target bins
    → Roomy target (place target it bins)
unfolding place
place-Roomy target it [] h r = (h, tt)
place-Roomy target it (b ∷ bins) h r =
    elim (Bool-cases (leb (fund_base_gas + (b.used + it.gas)) target)) [
      | inl e ↦ rw (place, e) ((leb→le (fund_base_gas + (b.used + it.gas)) target e, r.1))
      | inr e ↦ rw (place, e) ((r.0, place-Roomy target it bins h r.1))
    ]

pub place_all-Roomy :
    (target : ℕ) (items : List Item) (bins : List Bin)
    → All (λ it. fund_base_gas + it.gas ≤ target) items
    → Roomy target bins
    → Roomy target (place_all target items bins)
unfolding place_all
place_all-Roomy target [] bins h r = r
place_all-Roomy target (it ∷ items) bins h r =
    place_all-Roomy target items (place target it bins) h.1 (place-Roomy target it bins h.0 r)
