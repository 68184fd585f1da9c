-- ===== src/Release/OneSplit/Tests.antt =====
-- A pool with a share below the minimum, built and refused.
use harmony_migration.Base.{◌≡◌, refl, some, List, [], ◌∷◌, Result, ok, err, ◌==◌, if◌then◌else◌}
use harmony_migration.Base.Int.{pos, ◌+ℤ◌, ◌-ℤ◌}
use harmony_migration.Base.Literals.{codes}
use harmony_migration.Base.Order.{text_ordered}
use harmony_migration.Base.Sorting.{sort_by, insert_by}
use harmony_migration.Bridge.Allocations.{
  Pool, PoolError, PoolSummary, Row, build_pool, account_row, account_rows, accounts_of, share_out,
  scale, allocate, eligible_of, summary_of, class_of, status_by_class, status_by_policy, status_for,
  is_key_controlled, contract_elsewhere, first_contract, get_keyed, is_excluded_by,
  is_reserved_address, hex_value, apply_override,
}
use harmony_migration.Release.OneSplit.{
  split_pool, split_row, is_off, parts_sum, one_split, parts_do_not_add_up,
}
use harmony_migration.Release.OneSplit.Agreement.{split_pool-built}

abbrev small_pool : Pool
small_pool = record {
  pool_id = codes "p";
  claim_chain = codes "eth";
  claim_token = codes "t";
  holder_chain = codes "eth";
  collateral = 20;
  minimum = 5;
  holdings = (codes "0xabcdef1", pos 9) ∷ (codes "0xabcdef2", pos 4) ∷ [];
  adjustments = [];
  classes =
      ((codes "eth", codes "0xabcdef1"), codes "eoa")
      ∷ ((codes "eth", codes "0xabcdef2"), codes "eoa")
      ∷ [];
  chain_classes = [];
  roles = [];
  exclusions = [];
  overrides = [];
}

abbrev summary_of_pool : PoolSummary
summary_of_pool = record {
  collateral_raw = 20;
  excluded_raw = 0;
  eligible_raw = 13;
  scale_numerator = 1;
  scale_denominator = 1;
  claimable_raw = 9;
  held_raw = 0;
  below_minimum_raw = 4;
  retained_raw = pos 11;
  surplus_raw = 7;
  shortfall_raw = 0;
  unrecovered_debit_raw = 0;
  claimable_accounts = 1;
  held_accounts = 0;
}

abbrev rows_or_none : Result PoolError (PoolSummary × List Row) → List Row
rows_or_none (err e) = []
rows_or_none (ok (s, rows)) = rows

abbrev rows_of_pool : List Row
rows_of_pool = rows_or_none (build_pool some small_pool)

pool_built : build_pool some small_pool ≡ ok (summary_of_pool, rows_of_pool)
unfolding build_pool account_rows account_row accounts_of sort_by insert_by share_out scale allocate
    eligible_of summary_of class_of status_by_class status_by_policy status_for is_key_controlled
    contract_elsewhere first_contract get_keyed is_excluded_by is_reserved_address hex_value
    apply_override ◌+ℤ◌ ◌-ℤ◌
pool_built = refl

-- 4 units are below the minimum, and the pool is refused.
pool_refused :
    one_split ((codes "p", summary_of_pool) ∷ []) ((codes "p", 20) ∷ []) ≡ err parts_do_not_add_up
unfolding one_split split_pool split_row is_off parts_sum ◌+ℤ◌
pool_refused = refl

split_pool-built_example :
    split_pool ((codes "p", summary_of_pool) ∷ []) (codes "p") 20
    ≡ (if 4 == 0 then ok summary_of_pool else err parts_do_not_add_up)
split_pool-built_example =
    split_pool-built some small_pool ((codes "p", summary_of_pool) ∷ []) (codes "p") pool_built refl
