-- ===== src/Cutoff/Provenance/Acceptance.antt =====
-- What an accepted report has.
use harmony_migration.Base.{
  ℕ, ◌+◌, ◌≤◌, ◌≡◌, ◌⊎◌, true, false, not, some, List, [], sum_of, length, keep, All, lookup,
}
use harmony_migration.Base.Order.{text_ordered}
use harmony_migration.Base.Keys.{nat_ordered, pair_ordered}
use harmony_migration.Cutoff.Provenance.{
  Coverage, Direction, Report, OutgoingRow, Cutoffs, is_cutoff, is_active, first_cross_block,
  number_or,
}
use harmony_migration.Cutoff.Provenance.Comparison.{by_shard, directions_of, rows_of}

-- The numbers of a direction are those of the rows of its shard.
abbrev pub Accounts : List OutgoingRow → Direction → Type 0
Accounts rows d =
    (length (keep (λ r. is_active r.destination) rows)
      ≡ d.spent_receipt_count + d.pending_receipt_count)
    × (sum_of (λ r. r.amount) (keep (λ r. is_active r.destination) rows)
        ≡ d.spent_amount_atto + d.pending_amount_atto)
    × (length (keep (λ r. not (is_active r.destination)) rows) ≡ d.unsupported_receipt_count)
    × (sum_of (λ r. r.amount) (keep (λ r. not (is_active r.destination)) rows)
        ≡ d.unsupported_amount_atto)

-- A source shard of whose receipts the list has some has a direction that accounts for them.
abbrev pub IsAccounted : Report → List OutgoingRow → Cutoffs → ℕ → Type 0
IsAccounted report outgoing cutoffs shard =
    (rows_of cutoffs outgoing shard ≡ [])
    ⊎ ((d : Direction) × (lookup shard (by_shard [] (directions_of report)) ≡ some d)
        × Accounts (rows_of cutoffs outgoing shard) d)

-- A direction whose scan covers the blocks from the first cross-shard one to the cutoff.
abbrev pub IsCovered : Cutoffs → Direction → Type 0
IsCovered cutoffs d =
    (c : Coverage) × (d.source_coverage ≡ some c)
    × (c.complete ≡ true)
    × (number_or (first_cross_block + 1) c.from_block ≤ first_cross_block)
    × (is_cutoff cutoffs d.source_shard (number_or 0 c.to_block) ≡ true)

-- A report that says that its history is complete, and whose every scan is covered.
abbrev pub HasCoverage : Report → Cutoffs → Type 0
HasCoverage report cutoffs =
    (directions : List Direction) × (report.directions ≡ some directions)
    × (report.coverage_complete ≡ some true)
    × (report.incomplete_history_allowed ≡ false)
    × All (IsCovered cutoffs) directions
