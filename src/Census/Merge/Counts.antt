-- ===== src/Census/Merge/Counts.antt =====
-- The summary of the merged export.
use mathlib.Core.Path.{subst}
use harmony_migration.Base.{
  ℕ, suc, ◌+◌, ◌≡◌, refl, sym, ap, ◌∙◌, inl, inr, Bool-cases, Bool, none, some, List, [], ◌∷◌, ltb,
  if◌then◌else◌, arith, sum_of, keep, length, ok, >>=-eq-ok, ok_injective, raise_if,
}
use harmony_migration.Base.Order.{text_lt}
use harmony_migration.Census.Merge.{
  not_increasing, ExportRow, Account, is_late, positive, account_rows, Current, only0, only1, both,
  pair_up, balance0, balance1, has0, has1, MergedRow, Summary, count, address_of, merge_rounds,
  merge, zero_summary,
}

account_rows-length :
    (previous : _) (export : List ExportRow) {rows : List Account}
    → account_rows previous export ≡ ok rows
    → length rows ≡ length export
unfolding account_rows
account_rows-length previous [] h = ap length (sym (ok_injective h))
account_rows-length previous (row ∷ export) h =
    let (u, late, h1) = >>=-eq-ok (raise_if (is_late previous row.secure_key) not_increasing) _ h in
    let (balance, value, h2) = >>=-eq-ok (positive row.balance_atto) _ h1 in
    let (rest, read, h3) = >>=-eq-ok (account_rows (some row.secure_key) export) _ h2 in
    ap length (sym (ok_injective h3))
    ∙ ap suc (account_rows-length (some row.secure_key) export read)

abbrev one_if : Bool → ℕ
one_if b = if b then 1 else 0

pair_up_counts :
    (rows0 rows1 : List Account)
    → (sum_of (λ c. one_if (has0 c)) (pair_up rows0 rows1) ≡ length rows0)
      × (sum_of (λ c. one_if (has1 c)) (pair_up rows0 rows1) ≡ length rows1)
unfolding pair_up
pair_up_counts [] [] = (refl, refl)
pair_up_counts [] (b ∷ rows1) = ground (arith, pair_up_counts [] rows1)
pair_up_counts (a ∷ rows0) [] = ground (arith, pair_up_counts rows0 [])
pair_up_counts (a ∷ rows0) (b ∷ rows1) = elim (Bool-cases (text_lt a.secure_key b.secure_key)) [
  | inl e ↦ rw (pair_up, e) (ground (arith, pair_up_counts rows0 (b ∷ rows1)))
  | inr e ↦ elim (Bool-cases (text_lt b.secure_key a.secure_key)) [
    | inl f ↦ rw (pair_up, e, f) (ground (arith, pair_up_counts (a ∷ rows0) rows1))
    | inr f ↦ rw (pair_up, e, f) (ground (arith, pair_up_counts rows0 rows1))
  ]
]

-- The relations between the counts that every round keeps.
abbrev pub Consistent : Summary → Type 0
Consistent s =
    (s.unique_positive + s.positive_overlap ≡ s.shard0_positive + s.shard1_positive)
    × (s.qualifying_code_less + s.qualifying_code_bearing ≡ s.unique_qualifying_after_sum)
    × (s.qualifying_with_address + s.qualifying_missing_address ≡ s.unique_qualifying_after_sum)
    × (s.unique_qualifying_after_sum + s.qualifying_overlap
        ≡ s.shard0_individually_qualifying + s.shard1_individually_qualifying
          + s.new_cross_shard_threshold_crossers)

count-Consistent :
    (threshold : ℕ) (c : Current) (address : _) (s : Summary)
    → Consistent s
    → Consistent (count threshold c address s)
unfolding count balance0 balance1
count-Consistent threshold (only0 a) address s h = ground arith
count-Consistent threshold (only1 b) address s h = ground arith
count-Consistent threshold (both a b) address s h = ground arith

-- The rows over the threshold.
abbrev pub qualifying : ℕ → List MergedRow → List MergedRow
qualifying threshold = keep (λ r. ltb threshold r.balance_total_atto)

-- What the rounds add to the summary.
abbrev Adds : ℕ → List Current → Summary → Summary × List MergedRow → Type 0
Adds threshold rounds s (s', rows) =
    (s'.shard0_positive ≡ s.shard0_positive + sum_of (λ c. one_if (has0 c)) rounds)
    × (s'.shard1_positive ≡ s.shard1_positive + sum_of (λ c. one_if (has1 c)) rounds)
    × (s'.unique_positive ≡ s.unique_positive + length rows)
    × (s'.total_balance_atto ≡ s.total_balance_atto + sum_of (λ r. r.balance_total_atto) rows)
    × (s'.unique_qualifying_after_sum
        ≡ s.unique_qualifying_after_sum + length (qualifying threshold rows))
    × (s'.qualifying_balance_atto
        ≡ s.qualifying_balance_atto
          + sum_of (λ r. r.balance_total_atto) (qualifying threshold rows))

-- One round's part, and the rest.
count-Adds :
    (threshold : ℕ) (c : Current) (rounds : List Current) (address : _) (s s' : Summary)
    (row : MergedRow) (rows : List MergedRow)
    → row.balance_total_atto ≡ balance0 c + balance1 c
    → Adds threshold rounds (count threshold c address s) (s', rows)
    → Adds threshold (c ∷ rounds) s (s', row ∷ rows)
unfolding count
count-Adds threshold c rounds address s s' row rows e h = ground arith

merge_rounds-Adds :
    (threshold : ℕ) (rounds : List Current) (s : Summary) (out : Summary × List MergedRow)
    → merge_rounds threshold rounds s ≡ ok out
    → Consistent s
    → Adds threshold rounds s out × Consistent (out.0)
unfolding merge_rounds
merge_rounds-Adds threshold [] s out h k =
    subst (λ x. Adds threshold [] s x × Consistent (x.0)) (ok_injective h) (omega arith)
merge_rounds-Adds threshold (c ∷ rounds) s out h k =
    let (address, named, h1) = >>=-eq-ok (address_of c) _ h in
    let s1 = count threshold c address s in
    let ((summary, rest), run, h2) = >>=-eq-ok (merge_rounds threshold rounds s1) _ h1 in
    let (adds, consistent) =
      merge_rounds-Adds threshold rounds s1 (summary, rest) run
        (count-Consistent threshold c address s k) in
    subst (λ x. Adds threshold (c ∷ rounds) s x × Consistent (x.0)) (ok_injective h2)
      ((count-Adds threshold c rounds address s summary _ rest refl adds, consistent))

-- The counts of a merge that succeeds: the rows of each export, the written rows, their total
-- balance, and the number and the balance of the rows over the threshold. The unique accounts and
-- the overlap make up the two exports; the qualifying accounts are those with and without code,
-- and those with and without an address; and those that qualify on one shard, less those that
-- do so on both, and those that cross the threshold only together.
pub merge_counts :
    (threshold : ℕ) (export0 export1 : List ExportRow) {s : Summary} {rows : List MergedRow}
    → merge threshold export0 export1 ≡ ok (s, rows)
    → ((s.shard0_positive ≡ length export0)
        × (s.shard1_positive ≡ length export1)
        × (s.unique_positive ≡ length rows)
        × (s.total_balance_atto ≡ sum_of (λ r. r.balance_total_atto) rows)
        × (s.unique_qualifying_after_sum ≡ length (qualifying threshold rows))
        × (s.qualifying_balance_atto
            ≡ sum_of (λ r. r.balance_total_atto) (qualifying threshold rows)))
      × Consistent s
unfolding merge
merge_counts threshold export0 export1 {s} {rows} h =
    let (shard0, read0, h1) = >>=-eq-ok (account_rows none export0) _ h in
    let (shard1, read1, h2) = >>=-eq-ok (account_rows none export1) _ h1 in
    let l0 = account_rows-length none export0 read0 in
    let l1 = account_rows-length none export1 read1 in
    let pairs = pair_up_counts shard0 shard1 in
    let (adds, consistent) =
      merge_rounds-Adds threshold (pair_up shard0 shard1) zero_summary (s, rows) h2
        (refl, refl, refl, refl) in
    (omega arith, consistent)
