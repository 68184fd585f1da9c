-- ===== src/Bridge/Tests.antt =====
-- Runs of the bridge allocations.
use harmony_migration.Base.{
  ℕ, ◌+◌, ◌≡◌, refl, lookup, sum_of, Option, none, some, List, [], ◌∷◌, ok, All, Text,
}
use harmony_migration.Base.Int.{pos, negsuc, ◌+ℤ◌, ◌-ℤ◌}
use harmony_migration.Base.Literals.{codes}
use harmony_migration.Base.Order.{text_ordered}
use harmony_migration.Base.Keys.{pair_ordered}
use harmony_migration.Base.Sorting.{sort_by, insert_by}
use harmony_migration.Bridge.Allocations.{
  Pool, PoolSummary, Row, Status, claimable, held_contract, excluded_system, build_pool,
  account_row, account_rows, accounts_of, share_out, scale, allocate, eligible_of, summary_of,
  class_of, status_by_class, status_by_policy, status_for, is_key_controlled, contract_elsewhere,
  first_contract, get_keyed, is_excluded_by, is_reserved_address, hex_value, apply_override,
  amount_or_zero, add_claim, add_claims,
}
use harmony_migration.Bridge.Allocations.Lists.{row_claim, add_claims_amounts}
use harmony_migration.Bridge.Allocations.Collateral.{
  IsShared, Closes, shared_rows, build_pool-Closes,
}

abbrev small_pool : Pool
small_pool = record {
  pool_id = codes "p";
  claim_chain = codes "eth";
  claim_token = codes "t";
  holder_chain = codes "eth";
  collateral = 10;
  minimum = 1;
  holdings = (codes "0xabcdef1", pos 9) ∷ (codes "0xabcdef2", pos 8) ∷ (codes "0x1", pos 5) ∷ [];
  adjustments = (codes "0xabcdef1", negsuc 1) ∷ [];
  classes =
      ((codes "eth", codes "0xabcdef1"), codes "eoa")
      ∷ ((codes "eth", codes "0xabcdef2"), codes "contract")
      ∷ [];
  chain_classes = [];
  roles = [];
  exclusions = [];
  overrides = [];
}

-- 15 units are eligible for 10 of collateral.
abbrev pool_row : Text → ℕ → ℕ → Option Text → Status → ℕ → Row
pool_row account holding gross account_class status share = record {
  pool_id = codes "p";
  claim_chain = codes "eth";
  claim_token = codes "t";
  account = account;
  holding_raw = pos holding;
  adjustment_raw = pos gross -ℤ pos holding;
  gross_raw = gross;
  unrecovered_debit_raw = 0;
  account_class = account_class;
  status = status;
  payee = account;
  allocation_raw = share;
}

abbrev pool_rows : List Row
pool_rows =
    pool_row (codes "0x1") 5 5 none excluded_system 0
    ∷ pool_row (codes "0xabcdef1") 9 7 (some (codes "eoa")) claimable 4
    ∷ pool_row (codes "0xabcdef2") 8 8 (some (codes "contract")) held_contract 5
    ∷ []

abbrev pool_summary : PoolSummary
pool_summary = record {
  collateral_raw = 10;
  excluded_raw = 5;
  eligible_raw = 15;
  scale_numerator = 10;
  scale_denominator = 15;
  claimable_raw = 4;
  held_raw = 5;
  below_minimum_raw = 0;
  retained_raw = pos 1;
  surplus_raw = 0;
  shortfall_raw = 5;
  unrecovered_debit_raw = 0;
  claimable_accounts = 1;
  held_accounts = 1;
}

build_pool_runs : build_pool some small_pool ≡ ok (pool_summary, pool_rows)
unfolding build_pool account_rows account_row accounts_of sort_by insert_by share_out scale allocate
    eligible_of summary_of class_of status_by_class status_by_policy status_for is_key_controlled
    contract_elsewhere first_contract get_keyed is_excluded_by is_reserved_address hex_value
    apply_override ◌+ℤ◌ ◌-ℤ◌
build_pool_runs = refl

build_pool-Closes_example :
    (Closes 10 (shared_rows pool_rows) pool_summary) × All (IsShared 1) pool_rows
build_pool-Closes_example = build_pool-Closes some small_pool build_pool_runs

-- The contract's share is held, and not in the lists; a redirected row counts for its payee.
abbrev redirected_rows : List Row
redirected_rows =
    record (pool_row (codes "0xabcdef3") 4 4 none claimable 4) { payee = codes "0xabcdef1" }
    ∷ pool_rows

redirected_claims :
    lookup (codes "eth", (codes "0xabcdef1", codes "t")) (add_claims [] redirected_rows)
    ≡ some (4 + 4)
unfolding add_claims add_claim
redirected_claims = refl

add_claims_amounts_example :
    amount_or_zero
      (lookup (codes "eth", (codes "0xabcdef1", codes "t")) (add_claims [] redirected_rows))
    ≡ 0 + sum_of (row_claim (codes "eth") (codes "0xabcdef1") (codes "t")) redirected_rows
add_claims_amounts_example =
    add_claims_amounts (codes "eth") (codes "0xabcdef1") (codes "t") [] redirected_rows
