-- ===== src/Cutoff/Provenance/Comparison.antt =====
-- The comparison of a report with a list of receipts and with an independent report, and
-- `evaluate`, of toolkit/scripts/cutoff/receipt_provenance.py.
use harmony_migration.Base.{
  ℕ, ◌+◌, Bool, true, false, ◌&&◌, not, Option, none, some, List, [], ◌∷◌, ◌++◌, map, if◌then◌else◌,
  leb, ◌==◌, any_of, sum_of, length, keep, Text, Dict, lookup, insert,
}
use harmony_migration.Base.Order.{text_eq, text_ordered}
use harmony_migration.Base.Keys.{nat_ordered, pair_ordered}
use harmony_migration.Base.Sorting.{sort_by}
use harmony_migration.Base.Literals.{codes, lower}
use harmony_migration.Cutoff.Provenance.{
  Problem, legacy_report, cutoff_differs, no_scan, receipts_differ, no_independent_evidence,
  active_count_differs, active_amount_differs, retired_count_differs, retired_amount_differs,
  not_as_reported, independent, field_differs, Receipt, Group, Direction, Report, OutgoingRow,
  Cutoffs, cutoff_of, active_shards, is_active, when, gather, is_cutoff, provenance_problems,
}

-- `{d["source_shard"]: d for d in report.get("directions", [])}`
unfoldable pub by_shard : Dict ℕ Direction → List Direction → Dict ℕ Direction
by_shard table [] = table
by_shard table (d ∷ directions) = by_shard (insert d.source_shard d table) directions

abbrev pub directions_of : Report → List Direction
directions_of report = elim report.directions [ none ↦ [] | some directions ↦ directions ]

-- `by_source[source]`: the receipts up to the cutoff
unfoldable pub rows_of : Cutoffs → List OutgoingRow → ℕ → List OutgoingRow
rows_of cutoffs outgoing shard =
    keep
      (λ row.
        row.source == shard
        && (elim (cutoff_of cutoffs shard) [ none ↦ false | some c ↦ leb row.block c ]))
      outgoing

-- `{(row["block"], row["tx"]): row for row in rows}`
unfoldable pub index_rows :
    Dict (ℕ × Text) OutgoingRow → List OutgoingRow → Dict (ℕ × Text) OutgoingRow
index_rows table [] = table
index_rows table (row ∷ rows) = index_rows (insert (row.block, row.tx) row table) rows

unfoldable pub is_as_reported : Receipt → Option OutgoingRow → Bool
is_as_reported receipt none = false
is_as_reported receipt (some row) =
    text_eq row.to (lower receipt.to) && (row.amount == receipt.amount_atto)

-- The loops over the groups and receipts that the report lists.
unfoldable pub listed_problems : ℕ → Dict (ℕ × Text) OutgoingRow → List Group → List Problem
listed_problems shard index groups =
    gather
      (λ group.
        gather
          (λ receipt.
            when
              (not (
                is_as_reported receipt
                  (lookup (group.block_number, lower receipt.transaction_hash) index)))
              (not_as_reported shard group.block_number receipt.transaction_hash))
          group.receipts)
      groups

-- The comparison of one source shard's rows with the report's direction.
unfoldable pub compare_direction : ℕ → List OutgoingRow → Direction → List Problem
compare_direction shard rows direction =
    let active = keep (λ row. is_active row.destination) rows in
    let retired = keep (λ row. not (is_active row.destination)) rows in
    let index = index_rows [] rows in
    when (not (length active == direction.spent_receipt_count + direction.pending_receipt_count))
      (active_count_differs shard)
    ++ when
        (not (
          sum_of (λ r. r.amount) active
          == direction.spent_amount_atto + direction.pending_amount_atto))
        (active_amount_differs shard)
    ++ when (not (length retired == direction.unsupported_receipt_count))
        (retired_count_differs shard)
    ++ when (not (sum_of (λ r. r.amount) retired == direction.unsupported_amount_atto))
        (retired_amount_differs shard)
    ++ listed_problems shard index direction.pending_groups
    ++ listed_problems shard index direction.unsupported_groups

-- The body of the loop over `sorted(by_source.items())`, which has the shards with rows.
unfoldable pub compare_shard : Report → List OutgoingRow → Cutoffs → ℕ → List Problem
compare_shard report outgoing cutoffs shard = elim (rows_of cutoffs outgoing shard) [
  | [] ↦ []
  | row ∷ rows ↦ elim (lookup shard (by_shard [] (directions_of report))) [
    | none ↦ no_scan shard ∷ []
    | some direction ↦ compare_direction shard (row ∷ rows) direction
  ]
]

unfoldable pub comparison : Report → List OutgoingRow → Cutoffs → List Problem
comparison report outgoing cutoffs = gather (compare_shard report outgoing cutoffs) active_shards

-- AGREEMENT_FIELDS
abbrev pub agreement_fields : List (Text × (Direction → ℕ))
agreement_fields =
    (codes "canonical_receipt_groups", λ d. d.canonical_receipt_groups)
    ∷ (codes "spent_receipt_groups", λ d. d.spent_receipt_groups)
    ∷ (codes "spent_receipt_count", λ d. d.spent_receipt_count)
    ∷ (codes "spent_amount_atto", λ d. d.spent_amount_atto)
    ∷ (codes "pending_receipt_groups", λ d. d.pending_receipt_groups)
    ∷ (codes "pending_receipt_count", λ d. d.pending_receipt_count)
    ∷ (codes "pending_amount_atto", λ d. d.pending_amount_atto)
    ∷ (codes "unsupported_receipt_groups", λ d. d.unsupported_receipt_groups)
    ∷ (codes "unsupported_receipt_count", λ d. d.unsupported_receipt_count)
    ∷ (codes "unsupported_amount_atto", λ d. d.unsupported_amount_atto)
    ∷ []

-- A receipt with its block, as `_receipts` has it: block, transaction, recipient and amount.
abbrev pub Listed : Type 0
Listed = (ℕ × Text) × (Text × ℕ)

unfoldable pub receipts_of : List Group → List Listed
receipts_of [] = []
receipts_of (group ∷ groups) =
    map (λ r. ((group.block_number, lower r.transaction_hash), (lower r.to, r.amount_atto)))
      group.receipts
    ++ receipts_of groups

-- `==` of two lists
abbrev pub same_list : List Listed → List Listed → Bool
same_list [] [] = true
same_list [] (y ∷ ys) = false
same_list (x ∷ xs) [] = false
same_list (x ∷ xs) (y ∷ ys) =
    let rest = same_list xs ys in if pair_ordered.eq x y then rest else false

unfoldable pub same_receipts : List Group → List Group → Bool
same_receipts groups others =
    same_list (sort_by (λ r. r) (receipts_of groups)) (sort_by (λ r. r) (receipts_of others))

unfoldable pub compare_independent : Direction → Option Direction → List Problem
compare_independent direction none = no_scan direction.source_shard ∷ []
compare_independent direction (some other) =
    gather
      (λ (name, field).
        when (not (field direction == field other)) (field_differs direction.source_shard name))
      agreement_fields
    ++ when (not (same_receipts direction.pending_groups other.pending_groups))
        (receipts_differ direction.source_shard)
    ++ when (not (same_receipts direction.unsupported_groups other.unsupported_groups))
        (receipts_differ direction.source_shard)

unfoldable pub independent_report_problems : Report → Cutoffs → Report → List Problem
independent_report_problems report cutoffs other =
    gather (λ s. when (not (is_cutoff cutoffs s (other.shard_cutoff s))) (cutoff_differs s))
      active_shards
    ++ gather
        (λ direction.
          compare_independent direction
            (lookup direction.source_shard (by_shard [] (directions_of other))))
        (directions_of report)

abbrev pub is_nil : List Problem → Bool
is_nil [] = true
is_nil (p ∷ ps) = false

-- `provenance == [LEGACY_REPORT]`
abbrev pub is_legacy : List Problem → Bool
is_legacy (legacy_report ∷ []) = true
is_legacy _ = false

-- `agreed`
unfoldable pub is_agreed : Report → List Report → Cutoffs → Bool
is_agreed report independents cutoffs =
    any_of is_nil (map (independent_report_problems report cutoffs) independents)

abbrev pub head_of : List (List Problem) → List Problem
head_of [] = []
head_of (ps ∷ rest) = ps

abbrev pub has_no_row : List OutgoingRow → Bool
has_no_row [] = true
has_no_row (row ∷ rows) = false

-- `unchecked`: the report's shards without a list
unfoldable pub unchecked : Report → List OutgoingRow → Cutoffs → List ℕ
unchecked report outgoing cutoffs =
    keep (λ shard. has_no_row (rows_of cutoffs outgoing shard))
      (sort_by (λ s. s) (map (λ x. x.0) (by_shard [] (directions_of report))))

-- `evaluate`: the problems.
unfoldable pub evaluate : Report → List OutgoingRow → List Report → Cutoffs → List Problem
evaluate report outgoing independents cutoffs =
    let agreements = map (independent_report_problems report cutoffs) independents in
    let agreed = is_agreed report independents cutoffs in
    let provenance = provenance_problems report cutoffs in
    (if agreed && is_legacy provenance then [] else provenance)
    ++ (if agreed then [] else map independent (head_of agreements))
    ++ comparison report outgoing cutoffs
    ++ (if agreed then [] else map no_independent_evidence (unchecked report outgoing cutoffs))
