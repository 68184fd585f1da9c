-- ===== src/Cutoff/Provenance.antt =====
-- toolkit/scripts/cutoff/receipt_provenance.py: whether a cross-shard-supply report saw every
-- outgoing receipt. A report has its numbers parsed, and a key that may be missing is an option; a
-- problem is a constructor in place of its sentence. `read_outgoing` reads files and is left out,
-- and so are the statistics that `comparison` also returns.
use harmony_migration.Base.{
  ℕ, zero, suc, ◌+◌, Bool, true, false, ◌&&◌, ◌||◌, not, Option, none, some, List, [], ◌∷◌, ◌++◌,
  map, if◌then◌else◌, ltb, leb, ◌==◌, any_of, sum_of, length, keep, Text, Dict, lookup, insert,
}
use harmony_migration.Base.Order.{Ordered, text_eq, text_ordered}
use harmony_migration.Base.Keys.{nat_ordered, pair_ordered}
use harmony_migration.Base.Sorting.{sort_by}
use harmony_migration.Base.Literals.{codes, lower}
pub mod Comparison
pub mod Agreement
pub mod Acceptance

pub data Problem : Type 0 where
  legacy_report coverage_incomplete incomplete_history_allowed_problem sources_differ : Problem
  reported : Text → Problem
  cutoff_differs lacks_groups starts_late ends_early no_database lacks_history snapshot_ends_early
        no_scan receipts_differ no_independent_evidence :
      ℕ → Problem
  active_count_differs active_amount_differs retired_count_differs retired_amount_differs :
      ℕ → Problem
  not_as_reported : ℕ → ℕ → Text → Problem
  independent : Problem → Problem
  field_differs : ℕ → Text → Problem

pub record Coverage : Type 0 where
  pub complete : Bool
  pub from_block : Option ℕ
  pub to_block : Option ℕ

pub record Receipt : Type 0 where
  pub transaction_hash : Text
  pub to : Text
  pub amount_atto : ℕ

pub record Group : Type 0 where
  pub block_number : ℕ
  pub receipts : List Receipt

-- One direction of a report.
pub record Direction : Type 0 where
  pub source_shard : ℕ
  pub source_coverage : Option Coverage
  pub canonical_receipt_groups : ℕ
  pub spent_receipt_groups : ℕ
  pub pending_receipt_groups : ℕ
  pub unsupported_receipt_groups : ℕ
  pub spent_receipt_count : ℕ
  pub pending_receipt_count : ℕ
  pub unsupported_receipt_count : ℕ
  pub spent_amount_atto : ℕ
  pub pending_amount_atto : ℕ
  pub unsupported_amount_atto : ℕ
  pub pending_groups : List Group
  pub unsupported_groups : List Group

pub record Database : Type 0 where
  pub kind : Text
  pub has_complete_history : Bool
  pub lookup_snapshot_cutoff : ℕ

pub record Report : Type 0 where
  pub coverage_complete : Option Bool
  pub coverage_problems : List Text
  pub incomplete_history_allowed : Bool
  pub shard_cutoff : ℕ → ℕ
  pub directions : Option (List Direction)
  pub database : ℕ → Option Database

pub record OutgoingRow : Type 0 where
  pub source : ℕ
  pub destination : ℕ
  pub block : ℕ
  pub tx : Text
  pub to : Text
  pub amount : ℕ

-- The cutoff of each active shard.
pub record Cutoffs : Type 0 where
  pub shard0 : ℕ
  pub shard1 : ℕ

-- `cutoffs.get(shard)`
abbrev pub cutoff_of : Cutoffs → ℕ → Option ℕ
cutoff_of cutoffs zero = some cutoffs.shard0
cutoff_of cutoffs (suc zero) = some cutoffs.shard1
cutoff_of cutoffs _ = none

abbrev pub first_cross_block : ℕ
first_cross_block = 786432

abbrev pub active_shards : List ℕ
active_shards = 0 ∷ 1 ∷ []

abbrev pub is_active : ℕ → Bool
is_active shard = any_of (λ s. s == shard) active_shards

-- `if test: problems.append(problem)`
abbrev pub when : Bool → Problem → List Problem
when test problem = if test then problem ∷ [] else []

-- The problems that a loop collects.
abbrev pub gather {ℓ} : {A : Type ℓ} → (A → List Problem) → List A → List Problem
gather f [] = []
gather f (x ∷ xs) = f x ++ gather f xs

abbrev pub is_cutoff : Cutoffs → ℕ → ℕ → Bool
is_cutoff cutoffs shard n = elim (cutoff_of cutoffs shard) [ none ↦ false | some c ↦ n == c ]

abbrev pub number_or : ℕ → Option ℕ → ℕ
number_or d none = d
number_or d (some n) = n

-- `direction.get("source_coverage") or {}`
abbrev pub coverage_or_empty : Option Coverage → Coverage
coverage_or_empty none = record { complete = false; from_block = none; to_block = none }
coverage_or_empty (some coverage) = coverage

unfoldable pub coverage_gaps : Cutoffs → ℕ → Coverage → List Problem
coverage_gaps cutoffs shard coverage =
    when (not coverage.complete) (lacks_groups shard)
    ++ when (ltb first_cross_block (number_or (first_cross_block + 1) coverage.from_block))
        (starts_late shard)
    ++ when (not (is_cutoff cutoffs shard (number_or 0 coverage.to_block))) (ends_early shard)

-- The body of the loop over the directions.
unfoldable pub direction_problems : Cutoffs → Direction → List Problem
direction_problems cutoffs direction =
    coverage_gaps cutoffs direction.source_shard (coverage_or_empty direction.source_coverage)

-- The body of the loop over the databases of the active shards.
unfoldable pub database_problems : Report → Cutoffs → ℕ → List Problem
database_problems report cutoffs shard = elim (report.database shard) [
  | none ↦ no_database shard ∷ []
  | some d ↦
      when (not d.has_complete_history) (lacks_history shard)
      ++ when
          (text_eq d.kind (codes "cx-lookup-snapshot")
            && ltb d.lookup_snapshot_cutoff (number_or 0 (cutoff_of cutoffs shard)))
          (snapshot_ends_early shard)
]

-- The checks of a report that records its coverage.
unfoldable pub coverage_checks : Report → Cutoffs → Bool → List Direction → List Problem
coverage_checks report cutoffs complete directions =
    (if complete then [] else coverage_incomplete ∷ map reported report.coverage_problems)
    ++ when report.incomplete_history_allowed incomplete_history_allowed_problem
    ++ gather (λ s. when (not (is_cutoff cutoffs s (report.shard_cutoff s))) (cutoff_differs s))
        active_shards
    ++ when (not (text_eq (sort_by (λ s. s) (map (λ d. d.source_shard) directions)) active_shards))
        sources_differ
    ++ gather (direction_problems cutoffs) directions
    ++ gather (database_problems report cutoffs) active_shards

unfoldable pub provenance_problems : Report → Cutoffs → List Problem
provenance_problems report cutoffs = elim report.coverage_complete [
  | none ↦ legacy_report ∷ []
  | some complete ↦ elim report.directions [
    | none ↦ legacy_report ∷ []
    | some directions ↦ coverage_checks report cutoffs complete directions
  ]
]
