-- ===== src/Census/Merge/Tests.antt =====
-- A merge of two small exports.
use harmony_migration.Base.{ℕ, ◌+◌, ◌≡◌, refl, List, [], ◌∷◌, ok, Text, sum_of, length, All}
use harmony_migration.Base.Int.{pos, pos_part}
use harmony_migration.Base.Literals.{codes}
use harmony_migration.Census.Merge.{
  ExportRow, account_rows, pair_up, balance0, balance1, key_of, address_of, is_code_bearing, count,
  merge_rounds, merge, Summary, MergedRow,
}
use harmony_migration.Census.Merge.Balances.{held, Increasing, merge_ledger}
use harmony_migration.Census.Merge.Counts.{merge_counts, qualifying, Consistent}

abbrev export_row : Text → ℕ → ExportRow
export_row key n = record {
  secure_key = key;
  address = codes "0xAb";
  balance_atto = pos n;
  nonce = codes "1";
  code_hash = codes "0xC5";
}

abbrev export0 : List ExportRow
export0 = export_row (codes "a") 3 ∷ export_row (codes "b") 4 ∷ []

abbrev export1 : List ExportRow
export1 = export_row (codes "b") 5 ∷ export_row (codes "c") 9 ∷ []

abbrev merged_row : Text → ℕ → ℕ → Text → Text → Text → Text → MergedRow
merged_row key n0 n1 nonce0 nonce1 hash0 hash1 = record {
  secure_key = key;
  address = codes "0xAb";
  balance_shard_0_atto = n0;
  balance_shard_1_atto = n1;
  balance_total_atto = n0 + n1;
  nonce_shard_0 = nonce0;
  nonce_shard_1 = nonce1;
  code_hash_shard_0 = hash0;
  code_hash_shard_1 = hash1;
}

abbrev merged_rows : List MergedRow
merged_rows =
    merged_row (codes "a") 3 0 (codes "1") [] (codes "0xc5") []
    ∷ merged_row (codes "b") 4 5 (codes "1") (codes "1") (codes "0xc5") (codes "0xc5")
    ∷ merged_row (codes "c") 0 9 [] (codes "1") [] (codes "0xc5")
    ∷ []

-- Over 4: one account on each shard, of which one with its other shard's part.
abbrev merged_summary : Summary
merged_summary = record {
  shard0_positive = 2;
  shard1_positive = 2;
  unique_positive = 3;
  positive_overlap = 1;
  shard0_individually_qualifying = 0;
  shard1_individually_qualifying = 2;
  qualifying_overlap = 0;
  new_cross_shard_threshold_crossers = 0;
  unique_qualifying_after_sum = 2;
  qualifying_code_less = 0;
  qualifying_code_bearing = 2;
  qualifying_with_address = 2;
  qualifying_missing_address = 0;
  total_balance_atto = 21;
  qualifying_balance_atto = 18;
}

merge_runs : merge 4 export0 export1 ≡ ok (merged_summary, merged_rows)
unfolding merge account_rows pair_up merge_rounds count balance0 balance1 key_of address_of
    is_code_bearing
merge_runs = refl

merge_ledger_example :
    Increasing (λ r. r.secure_key) merged_rows
    × ((key : Text)
        → (held (λ r. r.secure_key) (λ r. r.balance_shard_0_atto) key merged_rows
            ≡ held (λ r. r.secure_key) (λ r. pos_part r.balance_atto) key export0)
          × (held (λ r. r.secure_key) (λ r. r.balance_shard_1_atto) key merged_rows
              ≡ held (λ r. r.secure_key) (λ r. pos_part r.balance_atto) key export1))
    × All (λ r. r.balance_total_atto ≡ r.balance_shard_0_atto + r.balance_shard_1_atto) merged_rows
merge_ledger_example = merge_ledger 4 export0 export1 merge_runs

merge_counts_example :
    ((merged_summary.shard0_positive ≡ length export0)
      × (merged_summary.shard1_positive ≡ length export1)
      × (merged_summary.unique_positive ≡ length merged_rows)
      × (merged_summary.total_balance_atto ≡ sum_of (λ r. r.balance_total_atto) merged_rows)
      × (merged_summary.unique_qualifying_after_sum ≡ length (qualifying 4 merged_rows))
      × (merged_summary.qualifying_balance_atto
          ≡ sum_of (λ r. r.balance_total_atto) (qualifying 4 merged_rows)))
    × Consistent merged_summary
merge_counts_example = merge_counts 4 export0 export1 merge_runs
