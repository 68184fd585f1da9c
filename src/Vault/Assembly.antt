-- ===== src/Vault/Assembly.antt =====
-- How airdrop/tools/vault_batch.py assembles the vaults from a list of deposits: `assemble_vaults` and
-- `check_recipients`. A validator's group is named by its address; the hash, and the governor of a
-- validator, which a file gives, are parameters.
use harmony_migration.Base.{
  Bool, true, false, not, List, [], ◌∷◌, ◌++◌, map, any_of, if◌then◌else◌, Dict, ℕ, ◌+◌, Result, ok,
  err, ◌>>=◌, ◌>>◌, raise_if,
}
use harmony_migration.Base.Order.{text_eq, text_ordered}
use harmony_migration.Base.Sorting.{sort_by}
use harmony_migration.Abi.Bytes.{Bytes}
use harmony_migration.Vault.Calls.{Artifact, vault_address}
use harmony_migration.Vault.Plan.{
  Deposit, Vault, PlanError, delegator_twice, forbidden_recipient, lift_fit,
}
pub mod Merging
pub mod Checking
mod Tests

-- `merged[k]`, a deposit added where its delegator is in already.
unfoldable pub merge_deposit : Deposit → List Deposit → List Deposit
merge_deposit d [] = d ∷ []
merge_deposit d (e ∷ merged) =
    let rest = merge_deposit d merged in
    if text_eq e.delegator d.delegator
    then record e { amount = e.amount + d.amount } ∷ merged
    else e ∷ rest

abbrev pub has_delegator : Bytes → List Deposit → Bool
has_delegator a = any_of (λ d. text_eq d.delegator a)

-- The loop of `assemble_vaults` over a validator's deposits.
unfoldable pub merge_deposits : Bool → List Deposit → List Deposit → Result PlanError (List Deposit)
merge_deposits merge [] merged = ok merged
merge_deposits merge (d ∷ rows) merged =
    if has_delegator d.delegator merged
    then (raise_if (not merge) delegator_twice
        >> merge_deposits merge rows (merge_deposit d merged))
    else merge_deposits merge rows (merge_deposit d merged)

-- `by_validator.setdefault(validator, []).append(d)`
unfoldable pub add_to_group : Deposit → Dict Bytes (List Deposit) → Dict Bytes (List Deposit)
add_to_group d [] = (d.validator, d ∷ []) ∷ []
add_to_group d ((k, rows) ∷ groups) =
    let rest = add_to_group d groups in
    if text_eq k d.validator then (k, rows ++ (d ∷ [])) ∷ groups else (k, rows) ∷ rest

unfoldable pub group_all : List Deposit → Dict Bytes (List Deposit) → Dict Bytes (List Deposit)
group_all [] groups = groups
group_all (d ∷ deposits) groups = group_all deposits (add_to_group d groups)

module _ (keccak256 : Bytes → Bytes) (governor_for : Bytes → Result PlanError Bytes) where
  unfoldable pub assemble_group :
      Artifact → Bytes → Bool → Bytes → List Deposit → Result PlanError Vault
  assemble_group artifact token merge validator rows = do
    merged ← merge_deposits merge rows []
    governor ← governor_for validator
    address ← lift_fit (vault_address keccak256 artifact token validator governor)
    ok (record {
      validator = validator;
      governor = governor;
      address = address;
      deposits = merged;
      deploy = true;
    })

  unfoldable pub assemble_groups :
      Artifact → Bytes → Bool → Dict Bytes (List Deposit) → Result PlanError (List Vault)
  assemble_groups artifact token merge [] = ok []
  assemble_groups artifact token merge ((validator, rows) ∷ groups) = do
    vault ← assemble_group artifact token merge validator rows
    rest ← assemble_groups artifact token merge groups
    ok (vault ∷ rest)

  unfoldable pub assemble_vaults :
      Artifact → Bytes → List Deposit → Bool → Result PlanError (List Vault)
  assemble_vaults artifact token deposits merge =
      assemble_groups artifact token merge (sort_by (λ g. g.0) (group_all deposits []))

-- No delegator is a vault or a forbidden address.
unfoldable pub check_recipients : List Vault → List Bytes → Result PlanError (Unit {0})
check_recipients vaults forbidden =
    let bad = map (λ v. v.address) vaults ++ forbidden in
    raise_if (any_of (λ v. any_of (λ d. any_of (λ b. text_eq b d.delegator) bad) v.deposits) vaults)
      forbidden_recipient
