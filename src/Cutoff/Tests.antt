-- ===== src/Cutoff/Tests.antt =====
-- An accepted report.
use harmony_migration.Base.{ℕ, ◌≡◌, refl, true, false, some, List, [], ◌∷◌}
use harmony_migration.Base.Literals.{codes}
use harmony_migration.Base.Order.{text_ordered}
use harmony_migration.Base.Keys.{nat_ordered, pair_ordered}
use harmony_migration.Base.Sorting.{sort_by, insert_by}
use harmony_migration.Cutoff.Provenance.{Direction, Report, OutgoingRow, Cutoffs}
use harmony_migration.Cutoff.Provenance.Comparison.{
  is_agreed, by_shard, independent_report_problems, compare_independent, same_receipts, receipts_of,
}

-- Each shard has one receipt, which is pending.
abbrev direction_from : ℕ → Direction
direction_from shard = record {
  source_shard = shard;
  source_coverage = some (record { complete = true; from_block = some 5; to_block = some 900000 });
  canonical_receipt_groups = 1;
  spent_receipt_groups = 0;
  pending_receipt_groups = 1;
  unsupported_receipt_groups = 0;
  spent_receipt_count = 0;
  pending_receipt_count = 1;
  unsupported_receipt_count = 0;
  spent_amount_atto = 0;
  pending_amount_atto = 7;
  unsupported_amount_atto = 0;
  pending_groups =
      record {
        block_number = 800000;
        receipts =
            record { transaction_hash = codes "0xA"; to = codes "0xB"; amount_atto = 7 } ∷ [];
      }
      ∷ [];
  unsupported_groups = [];
}

abbrev complete_report : Report
complete_report = record {
  coverage_complete = some true;
  coverage_problems = [];
  incomplete_history_allowed = false;
  shard_cutoff = λ s. 900000;
  directions = some (direction_from 1 ∷ direction_from 0 ∷ []);
  database = λ s.
      some (record {
        kind = codes "archive";
        has_complete_history = true;
        lookup_snapshot_cutoff = 0;
      });
}

abbrev outgoing_from : ℕ → ℕ → OutgoingRow
outgoing_from source destination = record {
  source = source;
  destination = destination;
  block = 800000;
  tx = codes "0xa";
  to = codes "0xb";
  amount = 7;
}

abbrev outgoing_list : List OutgoingRow
outgoing_list = outgoing_from 0 1 ∷ outgoing_from 1 0 ∷ []

abbrev both_cutoffs : Cutoffs
both_cutoffs = record { shard0 = 900000; shard1 = 900000 }

-- An independent report, with the same figures.
abbrev independent_reports : List Report
independent_reports = complete_report ∷ []

-- A report with another amount does not agree.
abbrev other_report : Report
other_report = record complete_report {
  directions = some (record (direction_from 1) { pending_amount_atto = 8 } ∷ direction_from 0 ∷ []);
}

other_disagrees : is_agreed complete_report (other_report ∷ []) both_cutoffs ≡ false
unfolding is_agreed independent_report_problems compare_independent same_receipts receipts_of
    by_shard sort_by insert_by
other_disagrees = refl
