-- ===== src/Release/OneSplit.antt =====
-- `one_split` of bridge-claims/tools/release_plan.py, which reads the pools of an allocation run back
-- and compares their parts with the collateral that is funded. A row of `pools.csv` is the summary that
-- toolkit/scripts/bridge/build-bridge-allocations.py wrote.
use harmony_migration.Base.{
  ℕ, Bool, true, false, not, ◌||◌, Option, none, some, List, [], ◌∷◌, ◌==◌, Dict, lookup, Text,
  Result, ok, err, ◌>>=◌, ◌>>◌, raise_if, if◌then◌else◌,
}
use harmony_migration.Base.Int.{ℤ, pos, ◌+ℤ◌, eqb_ℤ}
use harmony_migration.Base.Order.{text_ordered}
use harmony_migration.Bridge.Allocations.{PoolSummary}
pub mod Agreement
mod Tests

pub data SplitError : Type 0 where
  not_in_pools parts_do_not_add_up : SplitError

-- The sum of the parts of `ONE_PARTS`.
unfoldable pub parts_sum : PoolSummary → ℤ
parts_sum row =
    pos row.claimable_raw +ℤ pos row.held_raw +ℤ pos row.below_minimum_raw +ℤ row.retained_raw

-- `int(row["collateral_raw"]) != int(amount) or sum(parts.values()) != int(amount)`
unfoldable pub is_off : PoolSummary → ℕ → Bool
is_off row amount = not (row.collateral_raw == amount) || not (eqb_ℤ (parts_sum row) (pos amount))

-- What becomes of the row that `rows.get(pool)` gives.
unfoldable pub split_row : Option PoolSummary → ℕ → Result SplitError PoolSummary
split_row none amount = err not_in_pools
split_row (some row) amount = raise_if (is_off row amount) parts_do_not_add_up >> ok row

unfoldable pub split_pool : Dict Text PoolSummary → Text → ℕ → Result SplitError PoolSummary
split_pool rows pool amount = split_row (lookup pool rows) amount

-- The loop over the funding's pools.
unfoldable pub one_split :
    Dict Text PoolSummary → Dict Text ℕ → Result SplitError (Dict Text PoolSummary)
one_split rows [] = ok []
one_split rows ((pool, amount) ∷ pools) = do
  row ← split_pool rows pool amount
  rest ← one_split rows pools
  ok ((pool, row) ∷ rest)
