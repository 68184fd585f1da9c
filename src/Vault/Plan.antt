-- ===== src/Vault/Plan.antt =====
-- The plan of airdrop/tools/vault_batch.py: `deploy_txs`, `fund_txs` and
-- `plan_transactions`. The source of a deposit, for messages, is left out, and so is the
-- text of a message.
use harmony_migration.Base.{
  ℕ, zero, suc, ◌+◌, ◌*◌, Bool, true, false, not, Option, none, List, [], ◌∷◌, ◌++◌, map, sum_of,
  keep, if◌then◌else◌, leb, ◌==◌, length, Result, ok, err, ◌>>=◌,
}
use harmony_migration.Base.Int.{ℤ, pos, ◌-ℤ◌}
use harmony_migration.Base.Order.{text_ordered}
use harmony_migration.Base.Keys.{nat_ordered, int_ordered, pair_ordered}
use harmony_migration.Base.Sorting.{sort_by}
use harmony_migration.Abi.Bytes.{Bytes}
use harmony_migration.Abi.Words.{AbiError}
use harmony_migration.Safe.Transactions.{SizeError, split_sizes, slices}
use harmony_migration.Vault.Calls.{Artifact, deploy_data, approve_data, deposit_batch_data}
pub mod Funding
pub mod Bins
pub mod Packing

pub record Deposit : Type 0 where
  pub validator : Bytes
  pub delegator : Bytes
  pub amount : ℕ

-- `deploy` is false where the vault is on the chain already.
pub record Vault : Type 0 where
  pub validator : Bytes
  pub governor : Bytes
  pub address : Bytes
  pub deposits : List Deposit
  pub deploy : Bool

pub data Kind : Type 0 where
  deploying funding : Kind

pub record PlannedTx : Type 0 where
  pub kind : Kind
  pub calls : List (Bytes × Bytes)
  pub vaults : List Vault
  pub deposits : List (List Deposit)
  pub estimated_gas : ℕ

pub data PlanError : Type 0 where
  no_fit : AbiError → PlanError
  no_size : SizeError → PlanError
  delegator_twice forbidden_recipient no_governor : PlanError

unfoldable pub lift_fit {ℓ} : {A : Type ℓ} → Result AbiError A → Result PlanError A
lift_fit (err e) = err (no_fit e)
lift_fit (ok a) = ok a

unfoldable pub lift_size {ℓ} : {A : Type ℓ} → Result SizeError A → Result PlanError A
lift_size (err e) = err (no_size e)
lift_size (ok a) = ok a

abbrev pub deploy_base_gas : ℕ
deploy_base_gas = 50000

abbrev pub deploy_gas : ℕ
deploy_gas = 540000

abbrev pub fund_base_gas : ℕ
fund_base_gas = 60000

abbrev pub fund_call_gas : ℕ
fund_call_gas = 40000

abbrev pub fund_row_gas : ℕ
fund_row_gas = 26000

unfoldable pub deploy_calls : Artifact → Bytes → List Vault → Result AbiError (List (Bytes × Bytes))
deploy_calls artifact token [] = ok []
deploy_calls artifact token (v ∷ vaults) = do
  body ← deploy_data artifact token v.validator v.governor
  rest ← deploy_calls artifact token vaults
  ok ((artifact.factory, body) ∷ rest)

-- The loop of `deploy_txs`.
unfoldable pub deploy_groups :
    Artifact → Bytes → List (List Vault) → Result AbiError (List PlannedTx)
deploy_groups artifact token [] = ok []
deploy_groups artifact token (group ∷ groups) = do
  calls ← deploy_calls artifact token group
  rest ← deploy_groups artifact token groups
  ok (
      record {
        kind = deploying;
        calls = calls;
        vaults = group;
        deposits = [];
        estimated_gas = deploy_base_gas + deploy_gas * length group;
      }
      ∷ rest)

unfoldable pub deploy_txs : Artifact → Bytes → List Vault → ℕ → Result PlanError (List PlannedTx)
deploy_txs artifact token vaults per_tx =
    let todo = keep (λ v. v.deploy) vaults in
    lift_size (split_sizes (length todo) per_tx none) >>= λ sizes.
    lift_fit (deploy_groups artifact token (slices todo sizes))

-- A part of a vault's deposits, with its gas.
pub record Item : Type 0 where
  pub vault : Vault
  pub index : ℕ
  pub rows : List Deposit
  pub gas : ℕ

unfoldable pub parts_from : Vault → ℕ → List (List Deposit) → List Item
parts_from v index [] = []
parts_from v index (rows ∷ chunks) =
    record {
      vault = v;
      index = index;
      rows = rows;
      gas = fund_call_gas + fund_row_gas * length rows;
    }
    ∷ parts_from v (suc index) chunks

-- The loop of `fund_txs` over the vaults.
unfoldable pub items_of : List Vault → ℕ → Result SizeError (List Item)
items_of [] max_rows = ok []
items_of (v ∷ vaults) max_rows = do
  parts ← split_sizes (length v.deposits) max_rows none
  rest ← items_of vaults max_rows
  ok (parts_from v 0 (slices v.deposits parts) ++ rest)

pub record Bin : Type 0 where
  pub used : ℕ
  pub members : List Item

-- The first transaction with room, or a new one. The budget is `gas_target - FUND_BASE_GAS`, which
-- may be below zero, so that the base is added on the other side here.
unfoldable pub place : ℕ → Item → List Bin → List Bin
place gas_target item [] = record { used = item.gas; members = item ∷ [] } ∷ []
place gas_target item (b ∷ bins) =
    let later = place gas_target item bins in
    if leb (fund_base_gas + (b.used + item.gas)) gas_target
    then record b { used = b.used + item.gas; members = b.members ++ (item ∷ []) } ∷ bins
    else b ∷ later

unfoldable pub place_all : ℕ → List Item → List Bin → List Bin
place_all gas_target [] bins = bins
place_all gas_target (item ∷ items) bins = place_all gas_target items (place gas_target item bins)

-- `(-gas, validator, index)`
abbrev pub decreasing : Item → ℤ × (Bytes × ℕ)
decreasing it = (pos 0 -ℤ pos it.gas, (it.vault.validator, it.index))

abbrev pub by_validator : Item → Bytes × ℕ
by_validator it = (it.vault.validator, it.index)

-- The approval and the deposit of each part.
unfoldable pub fund_calls :
    Bytes → Bytes → Bytes → List Item → Result AbiError (List (Bytes × Bytes))
fund_calls approve_selector deposit_selector token [] = ok []
fund_calls approve_selector deposit_selector token (it ∷ items) = do
  approval ← approve_data approve_selector it.vault.address (sum_of (λ d. d.amount) it.rows)
  deposit ←
      deposit_batch_data deposit_selector (map (λ d. d.amount) it.rows)
        (map (λ d. d.delegator) it.rows)
  rest ← fund_calls approve_selector deposit_selector token items
  ok ((token, approval) ∷ (it.vault.address, deposit) ∷ rest)

unfoldable pub fund_tx : Bytes → Bytes → Bytes → Bin → Result AbiError PlannedTx
fund_tx approve_selector deposit_selector token b =
    let members = sort_by by_validator b.members in
    fund_calls approve_selector deposit_selector token members >>= λ calls. ok (record {
      kind = funding;
      calls = calls;
      vaults = map (λ m. m.vault) members;
      deposits = map (λ m. m.rows) members;
      estimated_gas = fund_base_gas + b.used;
    })

unfoldable pub fund_each : Bytes → Bytes → Bytes → List Bin → Result AbiError (List PlannedTx)
fund_each approve_selector deposit_selector token [] = ok []
fund_each approve_selector deposit_selector token (b ∷ bins) = do
  tx ← fund_tx approve_selector deposit_selector token b
  rest ← fund_each approve_selector deposit_selector token bins
  ok (tx ∷ rest)

unfoldable pub fund_txs :
    Bytes → Bytes → Bytes → List Vault → ℕ → ℕ → Result PlanError (List PlannedTx)
fund_txs approve_selector deposit_selector token vaults gas_target max_rows =
    lift_size (items_of vaults max_rows) >>= λ items. lift_fit (
      fund_each approve_selector deposit_selector token
        (place_all gas_target (sort_by decreasing items) []))

-- The phases of a plan; another phase plans nothing.
pub data Phase : Type 0 where
  all_phases deploy_phase fund_phase other_phase : Phase

abbrev pub deploys : Phase → Bool
deploys all_phases = true
deploys deploy_phase = true
deploys fund_phase = false
deploys other_phase = false

abbrev pub funds : Phase → Bool
funds all_phases = true
funds deploy_phase = false
funds fund_phase = true
funds other_phase = false

-- `v.deposits`, as a test
abbrev pub has_deposits : Vault → Bool
has_deposits v = not (length v.deposits == 0)

unfoldable pub plan_transactions :
    Bytes
    → Bytes
    → Artifact
    → Bytes
    → List Vault
    → Phase
    → ℕ
    → ℕ
    → ℕ
    → Result PlanError (List PlannedTx)
plan_transactions approve_selector deposit_selector artifact token vaults phase per_tx gas_target
      max_rows =
    (if deploys phase then deploy_txs artifact token vaults per_tx else ok []) >>= λ first.
    ((if funds phase
        then fund_txs approve_selector deposit_selector token (keep has_deposits vaults) gas_target
            max_rows
        else ok [])
      >>= λ second. ok (first ++ second))
