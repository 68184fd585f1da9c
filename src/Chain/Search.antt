-- ===== src/Chain/Search.antt =====
-- The binary searches for a block: `deployment_block` of toolkit/scripts/bridge/bridge_lib.py and
-- `first_block_at_or_after` of toolkit/scripts/archive/archive_lib.py. The node's answers, whether
-- a contract has code at a block and what a block's timestamp is, are parameters.
use harmony_migration.Base.{
  ℕ, zero, suc, ◌+◌, ◌-◌, ◌/◌, Bool, true, false, not, if◌then◌else◌, ltb, leb, Option, none, some,
  Result, ok, err, ◌>>◌, raise_if,
}
pub mod Found

pub data SearchError : Type 0 where
  no_code out_of_fuel : SearchError

-- `while low < high`, for a test of the middle block; every round shortens the range.
unfoldable pub search : (ℕ → Bool) → ℕ → ℕ → ℕ → Option ℕ
search test zero low high = none
search test (suc fuel) low high =
    let middle = (low + high) / 2 in
    elim (ltb low high) [
      | false ↦ some low
      | true ↦ elim (test middle) [
        | true ↦ search test fuel low middle
        | false ↦ search test fuel (middle + 1) high
      ]
    ]

unfoldable pub first_block_at_or_after : (ℕ → ℕ) → ℕ → ℕ → ℕ → Option ℕ
first_block_at_or_after timestamp_of timestamp low high =
    search (λ block. leb timestamp (timestamp_of block)) (high - low + 1) low high

abbrev or_fuel : Option ℕ → Result SearchError ℕ
or_fuel none = err out_of_fuel
or_fuel (some block) = ok block

unfoldable pub deployment_block : (ℕ → Bool) → ℕ → Result SearchError ℕ
deployment_block has_code high =
    raise_if (not (has_code high)) no_code >> or_fuel (search has_code (high + 1) 0 high)
