-- ===== src/Vault/Assembly/Merging.antt =====
-- What the assembled vaults hold, and what the check of recipients lets through.
use mathlib.Core.Path.{subst}
use harmony_migration.Base.{
  ℕ, ◌+◌, ◌≡◌, refl, sym, ap, ◌∙◌, inl, inr, Bool, Bool-cases, not, List, [], ◌∷◌, sum_of,
  sum_of-append, arith, if◌then◌else◌, Dict, Result, ok, >>=-eq-ok, ok_injective, raise_if,
}
use harmony_migration.Base.Order.{text_eq, text_eq_sound, text_ordered}
use harmony_migration.Base.Sorting.{sort_by, sum_of-sort_by}
use harmony_migration.Abi.Bytes.{Bytes}
use harmony_migration.Vault.Calls.{Artifact, vault_address}
use harmony_migration.Vault.Plan.{Deposit, Vault, PlanError, delegator_twice, lift_fit}
use harmony_migration.Vault.Plan.Funding.{given}
use harmony_migration.Vault.Assembly.{
  merge_deposit, has_delegator, merge_deposits, add_to_group, group_all, assemble_group,
  assemble_groups, assemble_vaults,
}

-- What deposits for a validator and what its vaults give a delegator.
abbrev pub listed : Bytes → Bytes → List Deposit → ℕ
listed v d =
    sum_of
      (λ r. if text_eq r.validator v then (if text_eq r.delegator d then r.amount else 0) else 0)

abbrev pub vaulted : Bytes → Bytes → List Vault → ℕ
vaulted v d = sum_of (λ x. if text_eq x.validator v then given d x.deposits else 0)

given-merge_deposit :
    (a : Bytes) (d : Deposit) (merged : List Deposit)
    → given a (merge_deposit d merged) ≡ given a merged + given a (d ∷ [])
unfolding merge_deposit
given-merge_deposit a d [] = omega arith
given-merge_deposit a d (e ∷ merged) = elim (Bool-cases (text_eq e.delegator d.delegator)) [
  | inl h ↦
      let same = text_eq_sound e.delegator d.delegator h in
      rw (merge_deposit, h) (grind (arith, same))
  | inr h ↦ rw (merge_deposit, h) (omega (arith, given-merge_deposit a d merged))
]

merge_deposits-given :
    (merge : Bool) (a : Bytes) (rows merged : List Deposit) {out : List Deposit}
    → merge_deposits merge rows merged ≡ ok out
    → given a out ≡ given a merged + given a rows
unfolding merge_deposits
merge_deposits-given merge a [] merged made =
    subst (λ o. given a o ≡ given a merged + 0) (ok_injective made) (omega arith)
merge_deposits-given merge a (d ∷ rows) merged made =
    elim (Bool-cases (has_delegator d.delegator merged)) [
      | inl h ↦
          let (_, _, rest) = >>=-eq-ok (raise_if (not merge) delegator_twice) _ (rw h at made) in
          omega (
            arith,
            merge_deposits-given merge a rows (merge_deposit d merged) rest,
            given-merge_deposit a d merged,
          )
      | inr h ↦ omega (
        arith,
        merge_deposits-given merge a rows (merge_deposit d merged) (rw h at made),
        given-merge_deposit a d merged,
      )
    ]

-- What the groups of a dictionary give.
abbrev grouped : Bytes → Bytes → Dict Bytes (List Deposit) → ℕ
grouped v a = sum_of (λ g. if text_eq g.0 v then given a g.1 else 0)

grouped-add_to_group :
    (v a : Bytes) (d : Deposit) (groups : Dict Bytes (List Deposit))
    → grouped v a (add_to_group d groups) ≡ grouped v a groups + listed v a (d ∷ [])
unfolding add_to_group
grouped-add_to_group v a d [] = ground arith
grouped-add_to_group v a d ((k, rows) ∷ groups) = elim (Bool-cases (text_eq k d.validator)) [
  | inl h ↦
      let same = text_eq_sound k d.validator h in
      rw (add_to_group, h)
        (grind (
          arith,
          same,
          sum_of-append (λ r. if text_eq r.delegator a then r.amount else 0) rows (d ∷ []),
        ))
  | inr h ↦ rw (add_to_group, h) (omega (arith, grouped-add_to_group v a d groups))
]

grouped-group_all :
    (v a : Bytes) (deposits : List Deposit) (groups : Dict Bytes (List Deposit))
    → grouped v a (group_all deposits groups) ≡ grouped v a groups + listed v a deposits
unfolding group_all
grouped-group_all v a [] groups = omega arith
grouped-group_all v a (d ∷ deposits) groups = omega (
  arith,
  grouped-group_all v a deposits (add_to_group d groups),
  grouped-add_to_group v a d groups,
)

module _ (keccak256 : Bytes → Bytes) (governor_for : Bytes → Result PlanError Bytes) where
  assemble_group-gives :
      (artifact : Artifact) (token : Bytes) (merge : Bool) (k : Bytes) (rows : List Deposit)
      {x : Vault}
      → assemble_group keccak256 governor_for artifact token merge k rows ≡ ok x
      → (x.validator ≡ k) × ((a : Bytes) → given a x.deposits ≡ given a rows)
  unfolding assemble_group
  assemble_group-gives artifact token merge k rows made =
      let (merged, merging, made1) = >>=-eq-ok (merge_deposits merge rows []) _ made in
      let (governor, _, made2) = >>=-eq-ok (governor_for k) _ made1 in
      let (address, _, joined) =
        >>=-eq-ok (lift_fit (vault_address keccak256 artifact token k governor)) _ made2 in
      subst (λ x'. (x'.validator ≡ k) × ((a : Bytes) → given a x'.deposits ≡ given a rows))
        (ok_injective joined)
        ((refl, (λ a. omega (arith, merge_deposits-given merge a rows [] merging))))

  assemble_groups-vaulted :
      (artifact : Artifact) (token : Bytes) (merge : Bool) (groups : Dict Bytes (List Deposit))
      {out : List Vault}
      → assemble_groups keccak256 governor_for artifact token merge groups ≡ ok out
      → (v a : Bytes) → vaulted v a out ≡ grouped v a groups
  unfolding assemble_groups
  assemble_groups-vaulted artifact token merge [] made v a =
      ap (vaulted v a) (sym (ok_injective made))
  assemble_groups-vaulted artifact token merge ((k, rows) ∷ groups) made v a =
      let (x, first, made1) =
        >>=-eq-ok (assemble_group keccak256 governor_for artifact token merge k rows) _ made in
      let (rest, others, joined) =
        >>=-eq-ok (assemble_groups keccak256 governor_for artifact token merge groups) _ made1 in
      let (named, gives) = assemble_group-gives artifact token merge k rows first in
      ap (vaulted v a) (sym (ok_injective joined)) ∙ (λ i.
        (if text_eq (named i) v then gives a i else 0)
        + assemble_groups-vaulted artifact token merge groups others v a i)

  -- The vaults that were assembled hold for every validator and delegator what the list of deposits
  -- has for the two together, with and without the merging of duplicates.
  pub assemble_vaults_exact :
      (artifact : Artifact) (token : Bytes) (deposits : List Deposit) (merge : Bool)
      {out : List Vault}
      → assemble_vaults keccak256 governor_for artifact token deposits merge ≡ ok out
      → (v a : Bytes) → vaulted v a out ≡ listed v a deposits
  unfolding assemble_vaults
  assemble_vaults_exact artifact token deposits merge made v a =
      let groups = group_all deposits [] in
      omega (
        arith,
        assemble_groups-vaulted artifact token merge (sort_by (λ g. g.0) groups) made v a,
        sum_of-sort_by (λ g. g.0) (λ g. if text_eq g.0 v then given a g.1 else 0) groups,
        grouped-group_all v a deposits [],
      )
