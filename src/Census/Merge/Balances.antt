-- ===== src/Census/Merge/Balances.antt =====
-- The rows of the merged export: their order and their balances.
use mathlib.Core.Path.{subst}
use harmony_migration.Base.{
  ℕ, suc, ◌+◌, ◌≡◌, refl, sym, ap, ◌∙◌, zero, true, false, inl, inr, Option, none, some, List, [],
  ◌∷◌, if◌then◌else◌, Bool-cases, arith, sum_of, All, AllPairs, All-imp, ok, >>=-eq-ok,
  ok_injective, raise_if, raise_if-eq-ok, Text,
}
use harmony_migration.Base.Int.{pos, negsuc, pos_part}
use harmony_migration.Base.Order.{text_lt, text_eq, text_lt_trans, text_lt_total}
use harmony_migration.Census.Merge.{
  not_increasing, ExportRow, Account, is_late, positive, account_rows, Current, pair_up, balance0,
  balance1, key_of, MergedRow, Summary, count, address_of, merge_rounds, merge, zero_summary,
}

-- The balance that an account has in a list of rows.
abbrev pub held {ℓ} : {A : Type ℓ} → (A → Text) → (A → ℕ) → Text → List A → ℕ
held key_at balance key = sum_of (λ a. if text_eq (key_at a) key then balance a else 0)

abbrev pub Increasing {ℓ} : {A : Type ℓ} → (A → Text) → List A → Type 0
Increasing key_at = AllPairs (λ a b. text_lt (key_at a) (key_at b) ≡ true)

abbrev Above {ℓ} : {A : Type ℓ} → (A → Text) → Text → List A → Type 0
Above key_at key = All (λ a. text_lt key (key_at a) ≡ true)

abbrev AboveLast : Option Text → List Account → Type 0
AboveLast none rows = Unit
AboveLast (some key) rows = Above (λ a. a.secure_key) key rows

is_late-AboveLast :
    (previous : Option Text) (key : Text) (a : Account) (rows : List Account)
    → is_late previous key ≡ false
    → a.secure_key ≡ key
    → Above (λ a. a.secure_key) key rows
    → AboveLast previous (a ∷ rows)
is_late-AboveLast none key a rows h e above = tt
is_late-AboveLast (some k) key a rows h e above = (
  ground arith,
  All-imp _ _ rows (λ b l. text_lt_trans k key b.secure_key (ground arith) l) above,
)

positive_value : (b : _) {n : ℕ} → positive b ≡ ok n → n ≡ pos_part b
positive_value (pos zero) h = cc
positive_value (pos (suc n)) h = sym (ok_injective h)
positive_value (negsuc n) h = cc

account_rows_ledger :
    (previous : Option Text) (export : List ExportRow) {rows : List Account}
    → account_rows previous export ≡ ok rows
    → AboveLast previous rows
      × Increasing (λ a. a.secure_key) rows
      × ((key : Text)
          → held (λ a. a.secure_key) (λ a. a.balance) key rows
            ≡ held (λ r. r.secure_key) (λ r. pos_part r.balance_atto) key export)
unfolding account_rows
account_rows_ledger none [] h = rw (sym (ok_injective h)) ((tt, tt, λ key. refl))
account_rows_ledger (some k) [] h = rw (sym (ok_injective h)) ((tt, tt, λ key. refl))
account_rows_ledger previous (row ∷ export) h =
    let (u, late, h1) = >>=-eq-ok (raise_if (is_late previous row.secure_key) not_increasing) _ h in
    let (balance, value, h2) = >>=-eq-ok (positive row.balance_atto) _ h1 in
    let (rest, read, h3) = >>=-eq-ok (account_rows (some row.secure_key) export) _ h2 in
    let (above, increasing, total) = account_rows_ledger (some row.secure_key) export read in
    let early = raise_if-eq-ok (is_late previous row.secure_key) _ late in
    subst
      (λ rows.
        AboveLast previous rows
        × Increasing (λ a. a.secure_key) rows
        × ((key : Text)
            → held (λ a. a.secure_key) (λ a. a.balance) key rows
              ≡ held (λ r. r.secure_key) (λ r. pos_part r.balance_atto) key (row ∷ export)))
      (ok_injective h3)
      ((
        is_late-AboveLast previous row.secure_key _ rest early refl above,
        (above, increasing),
        λ key. rw (total key, positive_value row.balance_atto value),
      ))

pair_up-Above :
    (key : Text) (rows0 rows1 : List Account)
    → Above (λ a. a.secure_key) key rows0
    → Above (λ a. a.secure_key) key rows1
    → Above key_of key (pair_up rows0 rows1)
unfolding pair_up key_of
pair_up-Above key [] [] h0 h1 = tt
pair_up-Above key [] (b ∷ rows1) h0 h1 = (h1.0, pair_up-Above key [] rows1 tt h1.1)
pair_up-Above key (a ∷ rows0) [] h0 h1 = (h0.0, pair_up-Above key rows0 [] h0.1 tt)
pair_up-Above key (a ∷ rows0) (b ∷ rows1) h0 h1 =
    elim (Bool-cases (text_lt a.secure_key b.secure_key)) [
      | inl e ↦ rw (pair_up, e) ((h0.0, pair_up-Above key rows0 (b ∷ rows1) h0.1 h1))
      | inr e ↦ elim (Bool-cases (text_lt b.secure_key a.secure_key)) [
        | inl f ↦ rw (pair_up, e, f) ((h1.0, pair_up-Above key (a ∷ rows0) rows1 h0 h1.1))
        | inr f ↦ rw (pair_up, e, f) ((h0.0, pair_up-Above key rows0 rows1 h0.1 h1.1))
      ]
    ]

Above-trans :
    (k key : Text) (rows : List Account)
    → text_lt k key ≡ true
    → Above (λ a. a.secure_key) key rows
    → Above (λ a. a.secure_key) k rows
Above-trans k key rows l = All-imp _ _ rows (λ a. text_lt_trans k key a.secure_key l)

pair_up-Increasing :
    (rows0 rows1 : List Account)
    → Increasing (λ a. a.secure_key) rows0
    → Increasing (λ a. a.secure_key) rows1
    → Increasing key_of (pair_up rows0 rows1)
unfolding pair_up key_of
pair_up-Increasing [] [] h0 h1 = tt
pair_up-Increasing [] (b ∷ rows1) h0 h1 =
    (pair_up-Above b.secure_key [] rows1 tt h1.0, pair_up-Increasing [] rows1 tt h1.1)
pair_up-Increasing (a ∷ rows0) [] h0 h1 =
    (pair_up-Above a.secure_key rows0 [] h0.0 tt, pair_up-Increasing rows0 [] h0.1 tt)
pair_up-Increasing (a ∷ rows0) (b ∷ rows1) h0 h1 =
    elim (Bool-cases (text_lt a.secure_key b.secure_key)) [
      | inl e ↦
          rw (pair_up, e)
            ((
              pair_up-Above a.secure_key rows0 (b ∷ rows1) h0.0
                  (e, Above-trans a.secure_key b.secure_key rows1 e h1.0),
              pair_up-Increasing rows0 (b ∷ rows1) h0.1 h1,
            ))
      | inr e ↦ elim (Bool-cases (text_lt b.secure_key a.secure_key)) [
        | inl f ↦
            rw (pair_up, e, f)
              ((
                pair_up-Above b.secure_key (a ∷ rows0) rows1
                    (f, Above-trans b.secure_key a.secure_key rows0 f h0.0) h1.0,
                pair_up-Increasing (a ∷ rows0) rows1 h0 h1.1,
              ))
        | inr f ↦
            let same = text_lt_total a.secure_key b.secure_key e f in
            rw (pair_up, e, f)
              ((
                pair_up-Above a.secure_key rows0 rows1 h0.0
                    (subst (λ k. Above (λ a. a.secure_key) k rows1) (sym same) h1.0),
                pair_up-Increasing rows0 rows1 h0.1 h1.1,
              ))
      ]
    ]

pair_up-held :
    (key : Text) (rows0 rows1 : List Account)
    → (held key_of balance0 key (pair_up rows0 rows1)
        ≡ held (λ a. a.secure_key) (λ a. a.balance) key rows0)
      × (held key_of balance1 key (pair_up rows0 rows1)
          ≡ held (λ a. a.secure_key) (λ a. a.balance) key rows1)
unfolding pair_up key_of balance0 balance1
pair_up-held key [] [] = (refl, refl)
pair_up-held key [] (b ∷ rows1) = ground (arith, pair_up-held key [] rows1)
pair_up-held key (a ∷ rows0) [] = ground (arith, pair_up-held key rows0 [])
pair_up-held key (a ∷ rows0) (b ∷ rows1) = elim (Bool-cases (text_lt a.secure_key b.secure_key)) [
  | inl e ↦ rw (pair_up, e) (ground (arith, pair_up-held key rows0 (b ∷ rows1)))
  | inr e ↦ elim (Bool-cases (text_lt b.secure_key a.secure_key)) [
    | inl f ↦ rw (pair_up, e, f) (ground (arith, pair_up-held key (a ∷ rows0) rows1))
    | inr f ↦
        let same = text_lt_total a.secure_key b.secure_key e f in
        let rest = pair_up-held key rows0 rows1 in rw (pair_up, e, f) (grind (arith, same, rest))
  ]
]

-- What the written rows have of the accounts that they were written for.
abbrev AreWritten : List Current → List MergedRow → Type 0
AreWritten rounds rows =
    ((key : Text)
      → (held (λ r. r.secure_key) (λ r. r.balance_shard_0_atto) key rows
          ≡ held key_of balance0 key rounds)
        × (held (λ r. r.secure_key) (λ r. r.balance_shard_1_atto) key rows
            ≡ held key_of balance1 key rounds))
    × ((key : Text) → Above key_of key rounds → All (λ r. text_lt key r.secure_key ≡ true) rows)
    × (Increasing key_of rounds → Increasing (λ r. r.secure_key) rows)
    × All (λ r. r.balance_total_atto ≡ r.balance_shard_0_atto + r.balance_shard_1_atto) rows

merge_rounds-AreWritten :
    (threshold : ℕ) (rounds : List Current) (s s' : Summary) (rows : List MergedRow)
    → merge_rounds threshold rounds s ≡ ok (s', rows)
    → AreWritten rounds rows
unfolding merge_rounds
merge_rounds-AreWritten threshold [] s s' rows h =
    subst (AreWritten []) (ap (λ x. x.1) (ok_injective h))
      ((λ key. (refl, refl)), (λ key above. tt), (λ i. tt), tt)
merge_rounds-AreWritten threshold (c ∷ rounds) s s' rows h =
    let (address, named, h1) = >>=-eq-ok (address_of c) _ h in
    let ((summary, rest), run, h2) =
      >>=-eq-ok (merge_rounds threshold rounds (count threshold c address s)) _ h1 in
    let (totals, above, increasing, sums) =
      merge_rounds-AreWritten threshold rounds (count threshold c address s) summary rest run in
    subst (AreWritten (c ∷ rounds)) (ap (λ x. x.1) (ok_injective h2)) (
      (
        (λ key. let t = totals key in (rw t.0, rw t.1)),
        (λ key a. (a.0, above key a.1)),
        (λ i. (above (key_of c) i.0, increasing i.1)),
        (refl, sums),
      ))

-- The keys of the rows that merge writes are strictly increasing, so that an account has one row.
-- For every key, the balances of the row are the account's balances in the two exports, or 0 where
-- an export has no row of it, and every row's total is their sum.
pub merge_ledger :
    (threshold : ℕ) (export0 export1 : List ExportRow) {s : Summary} {rows : List MergedRow}
    → merge threshold export0 export1 ≡ ok (s, rows)
    → Increasing (λ r. r.secure_key) rows
      × ((key : Text)
          → (held (λ r. r.secure_key) (λ r. r.balance_shard_0_atto) key rows
              ≡ held (λ r. r.secure_key) (λ r. pos_part r.balance_atto) key export0)
            × (held (λ r. r.secure_key) (λ r. r.balance_shard_1_atto) key rows
                ≡ held (λ r. r.secure_key) (λ r. pos_part r.balance_atto) key export1))
      × All (λ r. r.balance_total_atto ≡ r.balance_shard_0_atto + r.balance_shard_1_atto) rows
unfolding merge
merge_ledger threshold export0 export1 {s} {rows} h =
    let (shard0, read0, h1) = >>=-eq-ok (account_rows none export0) _ h in
    let (shard1, read1, h2) = >>=-eq-ok (account_rows none export1) _ h1 in
    let (_, inc0, total0) = account_rows_ledger none export0 read0 in
    let (_, inc1, total1) = account_rows_ledger none export1 read1 in
    let (totals, _, increasing, sums) =
      merge_rounds-AreWritten threshold (pair_up shard0 shard1) zero_summary s rows h2 in
    (
      increasing (pair_up-Increasing shard0 shard1 inc0 inc1),
      (λ key.
          let t = totals key in
          let p = pair_up-held key shard0 shard1 in
          (t.0 ∙ p.0 ∙ total0 key, t.1 ∙ p.1 ∙ total1 key)),
      sums,
    )
