-- ===== src/Vault/Assembly/Tests.antt =====
-- Vaults of a small list of deposits, and their plan.
use harmony_migration.Base.{
  ℕ, ◌≡◌, refl, true, false, keep, List, [], ◌∷◌, arith, All, Result, ok, err, sum_of,
}
use harmony_migration.Base.Int.{◌-ℤ◌}
use harmony_migration.Base.Order.{text_ordered}
use harmony_migration.Base.Keys.{nat_ordered, int_ordered, pair_ordered}
use harmony_migration.Base.Sorting.{sort_by, insert_by}
use harmony_migration.Abi.Bytes.{Bytes, big_endian, number_from, bound}
use harmony_migration.Abi.Words.{words, put_words}
use harmony_migration.Safe.MultiSend.{transfer_data}
use harmony_migration.Safe.Transactions.{split_sizes, near_equal, slices}
use harmony_migration.Vault.Calls.{
  Artifact, initcode, salt_for, approve_data, deposit_batch_data, vault_address,
}
use harmony_migration.Vault.Plan.{
  Deposit, Vault, PlannedTx, PlanError, delegator_twice, lift_fit, lift_size, parts_from, items_of,
  place, place_all, fund_calls, fund_tx, fund_each, fund_txs, has_deposits,
}
use harmony_migration.Vault.Plan.Funding.{IsFundable}
use harmony_migration.Vault.Plan.Packing.{tx_gives, vault_gives, IsFunding, fund_txs_exact}
use harmony_migration.Vault.Assembly.{
  merge_deposit, merge_deposits, add_to_group, group_all, assemble_group, assemble_groups,
  assemble_vaults, check_recipients,
}
use harmony_migration.Vault.Assembly.Merging.{listed, vaulted, assemble_vaults_exact}
use harmony_migration.Vault.Assembly.Checking.{checked_plan_pays_none}

abbrev artifact : Artifact
artifact = record { creation = 96 ∷ []; factory = 78 ∷ [] }

-- An address, and a selector.
abbrev twenty : ℕ → Bytes
twenty b = 0 ∷ 0 ∷ 0 ∷ 0 ∷ 0 ∷ 0 ∷ 0 ∷ 0 ∷ 0 ∷ 0 ∷ 0 ∷ 0 ∷ 0 ∷ 0 ∷ 0 ∷ 0 ∷ 0 ∷ 0 ∷ 0 ∷ b ∷ []

abbrev four : ℕ → Bytes
four b = b ∷ b ∷ b ∷ b ∷ []

-- A hash that is always the same, and a governor for every validator.
abbrev short_hash : Bytes → Bytes
short_hash bs = 0 ∷ 0 ∷ 0 ∷ 0 ∷ 0 ∷ 0 ∷ 0 ∷ 0 ∷ 0 ∷ 0 ∷ 0 ∷ 0 ∷ twenty 200

abbrev one_governor : Bytes → Result PlanError Bytes
one_governor validator = ok (9 ∷ [])

abbrev deposit : ℕ → ℕ → Deposit
deposit d n = record { validator = 5 ∷ []; delegator = twenty d; amount = n }

abbrev three_deposits : List Deposit
three_deposits = deposit 1 10 ∷ deposit 2 20 ∷ deposit 1 5 ∷ []

abbrev one_vault : Vault
one_vault = record {
  validator = 5 ∷ [];
  governor = 9 ∷ [];
  address = twenty 200;
  deposits = deposit 1 15 ∷ deposit 2 20 ∷ [];
  deploy = true;
}

assembled :
    assemble_vaults short_hash one_governor artifact (7 ∷ []) three_deposits true
    ≡ ok (one_vault ∷ [])
unfolding assemble_vaults group_all add_to_group sort_by insert_by assemble_groups assemble_group
    merge_deposits merge_deposit lift_fit vault_address initcode salt_for words put_words big_endian
    number_from bound
assembled = refl

refused :
    assemble_vaults short_hash one_governor artifact (7 ∷ []) three_deposits false
    ≡ err delegator_twice
unfolding assemble_vaults group_all add_to_group sort_by insert_by assemble_groups assemble_group
    merge_deposits merge_deposit
refused = refl

assemble_vaults_exact_example :
    vaulted (5 ∷ []) (twenty 1) (one_vault ∷ []) ≡ listed (5 ∷ []) (twenty 1) three_deposits
assemble_vaults_exact_example =
    assemble_vaults_exact short_hash one_governor artifact (7 ∷ []) three_deposits true assembled
      (5 ∷ []) (twenty 1)

abbrev txs_or_none : Result PlanError (List PlannedTx) → List PlannedTx
txs_or_none (err e) = []
txs_or_none (ok txs) = txs

-- One row to a call, and one call to a transaction.
abbrev planned : List PlannedTx
planned = txs_or_none (fund_txs (four 1) (four 2) (twenty 7) (one_vault ∷ []) 130000 1)

planned_made :
    fund_txs (four 1) (four 2) (twenty 7) (keep has_deposits (one_vault ∷ [])) 130000 1 ≡ ok planned
unfolding fund_txs lift_size items_of split_sizes near_equal parts_from slices place_all place
    sort_by insert_by fund_each fund_tx fund_calls approve_data deposit_batch_data transfer_data
    words put_words big_endian number_from bound lift_fit ◌-ℤ◌
planned_made = refl

one_vault-IsFundable : All IsFundable (one_vault ∷ [])
one_vault-IsFundable = (((refl, omega arith), ((refl, omega arith), ((refl, omega arith), tt))), tt)

fund_txs_exact_example :
    ((a d : Bytes)
      → sum_of (tx_gives (four 2) a d) planned ≡ sum_of (vault_gives a d) (one_vault ∷ []))
    × All (IsFunding (four 1) (four 2) (twenty 7) 130000) planned
fund_txs_exact_example =
    fund_txs_exact (four 1) (four 2) (twenty 7) (one_vault ∷ []) 130000 1 refl refl refl
      one_vault-IsFundable (omega arith) (omega arith) planned_made

checked : check_recipients (one_vault ∷ []) (twenty 77 ∷ []) ≡ ok tt
unfolding check_recipients
checked = refl

checked_plan_pays_none_example : sum_of (tx_gives (four 2) (twenty 200) (twenty 77)) planned ≡ 0
checked_plan_pays_none_example =
    checked_plan_pays_none (four 1) (four 2) (twenty 7) (one_vault ∷ []) (twenty 77 ∷ []) 130000 1
      (twenty 200) (twenty 77) refl refl refl one_vault-IsFundable (omega arith) (omega arith)
      checked planned_made refl
