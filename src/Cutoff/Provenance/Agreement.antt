-- ===== src/Cutoff/Provenance/Agreement.antt =====
-- What the agreement of an independent report, and a list for every reported shard, mean.
use mathlib.Core.Path.{subst}
use harmony_migration.Base.{
  ℕ, ◌≡◌, ◌⊎◌, refl, sym, ap, ◌∙◌, inl, inr, Bool, true, false, not, ◌==◌, arith, none, some, List,
  [], ◌∷◌, ◌++◌, map, if◌then◌else◌, sum_of, keep, All, All-imp, Bool-cases, Option-cases, Dict,
  lookup, insert,
}
use harmony_migration.Base.Order.{text_ordered}
use harmony_migration.Base.Sorting.{sort_by, sum_of-sort_by}
use harmony_migration.Base.Keys.{nat_ordered, pair_ordered, nat_eq_sound}
use harmony_migration.Cutoff.Provenance.{
  Problem, cutoff_differs, field_differs, no_scan, Direction, Report, OutgoingRow, Cutoffs, Group,
  is_cutoff, active_shards, when, gather,
}
use harmony_migration.Cutoff.Provenance.Comparison.{
  Listed, receipts_of, same_list, same_receipts, agreement_fields, by_shard, directions_of, rows_of,
  compare_independent, independent_report_problems, is_nil, is_agreed, has_no_row, unchecked,
}

pub nil_parts {ℓ} : {A : Type ℓ} (xs ys : List A) → xs ++ ys ≡ [] → (xs ≡ []) × (ys ≡ [])
nil_parts [] ys h = (refl, h)
nil_parts (x ∷ xs) ys h = cc

pub not_nil : (b : Bool) (p : Problem) → when (not b) p ≡ [] → b ≡ true
not_nil true p h = refl
not_nil false p h = cc

pub gather-All {ℓ} :
    {A : Type ℓ} (f : A → List Problem) (xs : List A) → gather f xs ≡ [] → All (λ x. f x ≡ []) xs
gather-All f [] h = tt
gather-All f (x ∷ xs) h =
    let (first, rest) = nil_parts (f x) (gather f xs) h in (first, gather-All f xs rest)

pub rows_cases :
    (rows : List OutgoingRow)
    → (rows ≡ []) ⊎ ((r : OutgoingRow) × (rs : List OutgoingRow) × (rows ≡ r ∷ rs))
rows_cases [] = inl refl
rows_cases (r ∷ rs) = inr (r, rs, refl)

pub some_problem : (p : Problem) → p ∷ [] ≡ [] → ⊥
some_problem p h = cc

-- Two directions with the same groups, counts and amounts.
abbrev pub SameFigures : Direction → Direction → Type 0
SameFigures d o =
    (d.canonical_receipt_groups ≡ o.canonical_receipt_groups)
    × (d.spent_receipt_groups ≡ o.spent_receipt_groups)
    × (d.spent_receipt_count ≡ o.spent_receipt_count)
    × (d.spent_amount_atto ≡ o.spent_amount_atto)
    × (d.pending_receipt_groups ≡ o.pending_receipt_groups)
    × (d.pending_receipt_count ≡ o.pending_receipt_count)
    × (d.pending_amount_atto ≡ o.pending_amount_atto)
    × (d.unsupported_receipt_groups ≡ o.unsupported_receipt_groups)
    × (d.unsupported_receipt_count ≡ o.unsupported_receipt_count)
    × (d.unsupported_amount_atto ≡ o.unsupported_amount_atto)

-- Two lists of groups with the same receipts, in whatever order.
abbrev pub SameReceipts : List Group → List Group → Type 0
SameReceipts groups others =
    sort_by (λ r. r) (receipts_of groups) ≡ sort_by (λ r. r) (receipts_of others)

-- A direction that the other report has too.
abbrev pub HasSame : Report → Direction → Type 0
HasSame other d =
    (o : Direction) × (lookup d.source_shard (by_shard [] (directions_of other)) ≡ some o)
    × SameFigures d o
    × SameReceipts d.pending_groups o.pending_groups
    × SameReceipts d.unsupported_groups o.unsupported_groups

-- Another report, up to the same cutoffs, that has every direction of the report.
abbrev pub Agrees : Report → Cutoffs → Report → Type 0
Agrees report cutoffs other =
    All (λ s. is_cutoff cutoffs s (other.shard_cutoff s) ≡ true) active_shards
    × All (HasSame other) (directions_of report)

-- One of the independent reports agrees.
abbrev pub OneAgrees : Report → Cutoffs → List Report → Type 0
OneAgrees report cutoffs [] = ⊥
OneAgrees report cutoffs (other ∷ others) =
    Agrees report cutoffs other ⊎ OneAgrees report cutoffs others

same_list_sound : (xs ys : List Listed) → same_list xs ys ≡ true → xs ≡ ys
same_list_sound [] [] h = refl
same_list_sound [] (y ∷ ys) h = cc
same_list_sound (x ∷ xs) [] h = cc
same_list_sound (x ∷ xs) (y ∷ ys) h = elim (Bool-cases (pair_ordered.eq x y)) [
  | inl e ↦
      let first = pair_ordered.eq_sound x y e in
      let rest = same_list_sound xs ys (rw e at h) in λ i. first i ∷ rest i
  | inr e ↦ cc (rw e at h)
]

same_receipts_sound :
    (groups others : List Group) → same_receipts groups others ≡ true → SameReceipts groups others
unfolding same_receipts
same_receipts_sound groups others h = same_list_sound _ _ h

compare_independent-HasSame :
    (other : Report) (d o : Direction)
    → lookup d.source_shard (by_shard [] (directions_of other)) ≡ some o
    → compare_independent d (some o) ≡ []
    → HasSame other d
unfolding compare_independent
compare_independent-HasSame other d o e h =
    let (h1, unsupported) = nil_parts _ _ h in
    let (h0, pending) = nil_parts _ _ h1 in
    let fields =
      gather-All
        (λ (name, field). when (not (field d == field o)) (field_differs d.source_shard name))
        agreement_fields h0 in
    let (f0, g0) = fields in
    let (f1, g1) = g0 in
    let (f2, g2) = g1 in
    let (f3, g3) = g2 in
    let (f4, g4) = g3 in
    let (f5, g5) = g4 in
    let (f6, g6) = g5 in
    let (f7, g7) = g6 in
    let (f8, g8) = g7 in
    let (f9, _) = g8 in
    (
      o,
      e,
      (
        nat_eq_sound _ _ (not_nil _ _ f0),
        nat_eq_sound _ _ (not_nil _ _ f1),
        nat_eq_sound _ _ (not_nil _ _ f2),
        nat_eq_sound _ _ (not_nil _ _ f3),
        nat_eq_sound _ _ (not_nil _ _ f4),
        nat_eq_sound _ _ (not_nil _ _ f5),
        nat_eq_sound _ _ (not_nil _ _ f6),
        nat_eq_sound _ _ (not_nil _ _ f7),
        nat_eq_sound _ _ (not_nil _ _ f8),
        nat_eq_sound _ _ (not_nil _ _ f9),
      ),
      same_receipts_sound d.pending_groups o.pending_groups (not_nil _ _ pending),
      same_receipts_sound d.unsupported_groups o.unsupported_groups (not_nil _ _ unsupported),
    )

independent-HasSame :
    (other : Report) (d : Direction)
    → compare_independent d (lookup d.source_shard (by_shard [] (directions_of other))) ≡ []
    → HasSame other d
independent-HasSame other d h =
    elim (Option-cases (lookup d.source_shard (by_shard [] (directions_of other)))) [
      | inl e ↦
          let missing : compare_independent d none ≡ [] = ap (compare_independent d) (sym e) ∙ h in
          absurd (some_problem (no_scan d.source_shard) (unfold compare_independent in missing))
      | inr (o, e) ↦
          compare_independent-HasSame other d o e (ap (compare_independent d) (sym e) ∙ h)
    ]

independent-Agrees :
    (report : Report) (cutoffs : Cutoffs) (other : Report)
    → independent_report_problems report cutoffs other ≡ []
    → Agrees report cutoffs other
unfolding independent_report_problems
independent-Agrees report cutoffs other h =
    let (ends, same) = nil_parts _ _ h in
    (
      All-imp _ _ active_shards
          (λ s. not_nil (is_cutoff cutoffs s (other.shard_cutoff s)) (cutoff_differs s))
          (gather-All
            (λ s. when (not (is_cutoff cutoffs s (other.shard_cutoff s))) (cutoff_differs s))
            active_shards ends),
      All-imp _ _ (directions_of report) (independent-HasSame other)
          (gather-All _ (directions_of report) same),
    )

is_nil_sound : (ps : List Problem) → is_nil ps ≡ true → ps ≡ []
is_nil_sound [] h = refl
is_nil_sound (p ∷ ps) h = cc

-- `agreed` holds only where an independent report agrees.
pub is_agreed-OneAgrees :
    (report : Report) (independents : List Report) (cutoffs : Cutoffs)
    → is_agreed report independents cutoffs ≡ true
    → OneAgrees report cutoffs independents
unfolding is_agreed
is_agreed-OneAgrees report [] cutoffs h = cc
is_agreed-OneAgrees report (other ∷ others) cutoffs h =
    elim (Bool-cases (is_nil (independent_report_problems report cutoffs other))) [
      | inl e ↦ inl (independent-Agrees report cutoffs other (is_nil_sound _ e))
      | inr e ↦ inr (is_agreed-OneAgrees report others cutoffs (rw e at h))
    ]

-- A shard of whose receipts the list has some.
abbrev pub HasList : List OutgoingRow → Cutoffs → Direction → Type 0
HasList outgoing cutoffs d =
    (r : OutgoingRow) × (rs : List OutgoingRow) × (rows_of cutoffs outgoing d.source_shard ≡ r ∷ rs)

abbrev keys_of : Dict ℕ Direction → List ℕ
keys_of = map (λ x. x.0)

All-insert :
    (P : ℕ → Type 0) (k : ℕ) (v : Direction) (d : Dict ℕ Direction)
    → All P (keys_of (insert k v d))
    → P k × All P (keys_of d)
All-insert P k v [] h = (h.0, tt)
All-insert P k v ((j, w) ∷ d) h = elim (Bool-cases (j == k)) [
  | inl e ↦ let all = rw e at h in (subst P (nat_eq_sound j k e) (all.0), (all.0, all.1))
  | inr e ↦
      let all = rw e at h in let (here, rest) = All-insert P k v d (all.1) in (here, (all.0, rest))
]

All-by_shard :
    (P : ℕ → Type 0) (directions : List Direction) (table : Dict ℕ Direction)
    → All P (keys_of (by_shard table directions))
    → All P (keys_of table) × All (λ d. P d.source_shard) directions
unfolding by_shard
All-by_shard P [] table h = (h, tt)
All-by_shard P (d ∷ directions) table h =
    let (inserted, rest) = All-by_shard P directions (insert d.source_shard d table) h in
    let (here, before) = All-insert P d.source_shard d table inserted in (before, (here, rest))

count_none :
    (test : ℕ → Bool) (xs : List ℕ)
    → keep test xs ≡ []
    → sum_of (λ x. if test x then 1 else 0) xs ≡ 0
count_none test [] h = refl
count_none test (x ∷ xs) h = elim (Bool-cases (test x)) [
  | inl e ↦ cc (rw e at h)
  | inr e ↦ rw e (omega (arith, count_none test xs (rw e at h)))
]

none_count :
    (test : ℕ → Bool) (xs : List ℕ)
    → sum_of (λ x. if test x then 1 else 0) xs ≡ 0
    → All (λ x. test x ≡ false) xs
none_count test [] h = tt
none_count test (x ∷ xs) h = elim (Bool-cases (test x)) [
  | inl e ↦ absurd (omega (arith, rw e at h))
  | inr e ↦ (e, none_count test xs (omega (arith, rw e at h)))
]

-- Where no shard is unchecked, every direction's shard has a list.
pub unchecked-HasList :
    (report : Report) (outgoing : List OutgoingRow) (cutoffs : Cutoffs)
    → unchecked report outgoing cutoffs ≡ []
    → All (HasList outgoing cutoffs) (directions_of report)
unfolding unchecked
unchecked-HasList report outgoing cutoffs h =
    let test : ℕ → Bool = λ shard. has_no_row (rows_of cutoffs outgoing shard) in
    let keys = keys_of (by_shard [] (directions_of report)) in
    let none_there = none_count test keys (
      sym (sum_of-sort_by (λ s. s) (λ x. if test x then 1 else 0) keys)
      ∙ count_none test (sort_by (λ s. s) keys) h) in
    let (_, lists) = All-by_shard (λ s. test s ≡ false) (directions_of report) [] none_there in
    All-imp _ _ (directions_of report)
      (λ d has. elim (rows_cases (rows_of cutoffs outgoing d.source_shard)) [
        | inl e ↦ cc (rw e at has)
        | inr found ↦ found
      ])
      lists
