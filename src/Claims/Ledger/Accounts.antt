-- ===== src/Claims/Ledger/Accounts.antt =====
-- The ledger, account by account.
use mathlib.Core.Path.{subst}
use harmony_migration.Base.{
  ℕ, zero, suc, ◌+◌, ◌≡◌, refl, sym, ap, ◌∙◌, inl, inr, Bool-cases, Option, none, some, List, [],
  ◌∷◌, arith, sum_of, if◌then◌else◌, Text, Dict, Result, ok, err, >>=-eq-ok, ok_injective,
}
use harmony_migration.Base.Int.{ℤ, pos_part}
use harmony_migration.Base.Order.{text_eq, text_eq_sound, text_ordered}
use harmony_migration.Base.Literals.{lower}
use harmony_migration.Claims.Ledger.{
  LedgerError, out_of_fuel, LedgerRow, LiquidRow, StakeRow, PendingReceipt, PendingEntry, Sources,
  int_field, least_key, current_of, rows_after, advance, current_at, merge_round, next_round,
  ledger_rounds,
}
use harmony_migration.Claims.Ledger.Rounds.{least_key-none, rows_left, amount_of-parts}
use harmony_migration.Claims.Ledger.Receipts.{merge_ledger_sources}
use harmony_migration.Claims.Ledger.Sums.{merge_round-Reads}
use harmony_migration.Claims.Ledger.Pending.{column_at, merge_round-key, ledger_rounds-InOrder}
use harmony_migration.Claims.Ledger.Loading.{load_pending-total}
use harmony_migration.Claims.Ledger.PerKey.{load_pending-each, amount_if-sorted}
use harmony_migration.Claims.Ledger.Whole.{
  lowered_sources, all_sources, parts-Ready, merge_ledger_sources-parts,
}

-- What a field of a source has for an account.
abbrev pub field_at {ℓ} : {R : Type ℓ} → (R → Text) → (R → ℤ) → Text → List R → ℕ
field_at key_of field a = sum_of (λ r. if text_eq (key_of r) a then pos_part (field r) else 0)

-- A ledger that gives an account what the sources have for it.
abbrev pub Gives : Text → List LedgerRow → Sources → Type 0
Gives a out s =
    (column_at (λ r. r.liquid_shard0_atto) a out
      ≡ field_at (λ r. r.secure_key) (λ r. r.balance_atto) a s.liquid0)
    × (column_at (λ r. r.liquid_shard1_atto) a out
        ≡ field_at (λ r. r.secure_key) (λ r. r.balance_atto) a s.liquid1)
    × (column_at (λ r. r.active_delegation_atto) a out
        ≡ field_at (λ r. r.secure_key) (λ r. r.active_delegation_atto) a s.staking)
    × (column_at (λ r. r.pending_undelegation_atto) a out
        ≡ field_at (λ r. r.secure_key) (λ r. r.pending_undelegation_atto) a s.staking)
    × (column_at (λ r. r.unclaimed_reward_atto) a out
        ≡ field_at (λ r. r.secure_key) (λ r. r.unclaimed_reward_atto) a s.staking)

module _ {ℓ} {R : Type ℓ} (key_of : R → Text) (field : R → ℤ) (a : Text) where
  -- The row that a round takes is of the round's account.
  field_at-rows_after :
      (key : Text) (xs : List R) {v : ℕ}
      → int_field field (current_of key_of key xs) ≡ ok v
      → field_at key_of field a xs
        ≡ (if text_eq key a then v else 0) + field_at key_of field a (rows_after key_of key xs)
  unfolding int_field
  field_at-rows_after key [] h = let nothing = ok_injective h in ground arith
  field_at-rows_after key (x ∷ xs) {v} h = elim (Bool-cases (text_eq (key_of x) key)) [
    | inl e ↦
        let same = text_eq_sound (key_of x) key e in
        let (taken, _) = amount_of-parts (field x) (rw e at h) in
        rw e (λ i. (if text_eq (same i) a then taken i else 0) + field_at key_of field a xs)
    | inr e ↦ let nothing = ok_injective (rw e at h) in rw e (ground arith)
  ]

  field_at-round :
      (column : LedgerRow → ℕ) (key : Text) (row : LedgerRow) (out : List LedgerRow)
      (source : List R)
      → row.secure_key ≡ key
      → int_field field (current_of key_of key source) ≡ ok (column row)
      → column_at column a out ≡ field_at key_of field a (rows_after key_of key source)
      → column_at column a (row ∷ out) ≡ field_at key_of field a source
  field_at-round column key row out source named h rest =
      ap (λ k. (if text_eq k a then column row else 0) + column_at column a out) named
      ∙ ap (λ n. (if text_eq key a then column row else 0) + n) rest
      ∙ sym (field_at-rows_after key source h)

module _ (secure_key_of : Text → Text) (a : Text) where
  next_round-Gives :
      (claims : Dict Text PendingEntry) (s : Sources)
      (later : Sources → Result LedgerError (List LedgerRow)) {out : List LedgerRow}
      → ((s' : Sources) (rest : List LedgerRow) → later s' ≡ ok rest → Gives a rest s')
      → (k : Option Text) → least_key s ≡ k
      → next_round secure_key_of claims s later k ≡ ok out
      → Gives a out s
  unfolding next_round
  next_round-Gives claims s later ih none e h =
      let (e0, e1, e2, _) = least_key-none s e in
      subst (λ out. Gives a out s) (ok_injective h)
        ((
          ap (field_at (λ r. r.secure_key) (λ r. r.balance_atto) a) (sym e0),
          ap (field_at (λ r. r.secure_key) (λ r. r.balance_atto) a) (sym e1),
          ap (field_at (λ r. r.secure_key) (λ r. r.active_delegation_atto) a) (sym e2),
          ap (field_at (λ r. r.secure_key) (λ r. r.pending_undelegation_atto) a) (sym e2),
          ap (field_at (λ r. r.secure_key) (λ r. r.unclaimed_reward_atto) a) (sym e2),
        ))
  next_round-Gives claims s later ih (some key) e h =
      let (row, made, r0) =
        >>=-eq-ok (merge_round secure_key_of key (current_at claims key s)) _ h in
      let (rest, others, r1) = >>=-eq-ok (later (advance key s)) _ r0 in
      let (h0, h1, h2, h3, h4) =
        merge_round-Reads secure_key_of key (current_at claims key s) made in
      let (named, _) = merge_round-key secure_key_of key (current_at claims key s) made in
      let (i0, i1, i2, i3, i4) = ih (advance key s) rest others in
      subst (λ out. Gives a out s) (ok_injective r1)
        ((
          field_at-round (λ r. r.secure_key) (λ r. r.balance_atto) a (λ r. r.liquid_shard0_atto) key
              row rest s.liquid0 named h0 i0,
          field_at-round (λ r. r.secure_key) (λ r. r.balance_atto) a (λ r. r.liquid_shard1_atto) key
              row rest s.liquid1 named h1 i1,
          field_at-round (λ r. r.secure_key) (λ r. r.active_delegation_atto) a
              (λ r. r.active_delegation_atto) key row rest s.staking named h2 i2,
          field_at-round (λ r. r.secure_key) (λ r. r.pending_undelegation_atto) a
              (λ r. r.pending_undelegation_atto) key row rest s.staking named h3 i3,
          field_at-round (λ r. r.secure_key) (λ r. r.unclaimed_reward_atto) a
              (λ r. r.unclaimed_reward_atto) key row rest s.staking named h4 i4,
        ))

  ledger_rounds-Gives :
      (claims : Dict Text PendingEntry) (fuel : ℕ) (s : Sources) {out : List LedgerRow}
      → ledger_rounds secure_key_of claims fuel s ≡ ok out
      → Gives a out s
  unfolding ledger_rounds
  ledger_rounds-Gives claims zero s h =
      next_round-Gives claims s (λ s'. err out_of_fuel) (λ s' rest k. cc) (least_key s) refl h
  ledger_rounds-Gives claims (suc fuel) s h =
      next_round-Gives claims s (λ s'. ledger_rounds secure_key_of claims fuel s')
        (λ s' rest k. ledger_rounds-Gives claims fuel s' k) (least_key s) refl h

  -- A merged ledger gives every account the balances of both shards, the delegations, undelegations
  -- and rewards that the sources have at its key, in whichever round they came, and the pending
  -- receipts of its key, where the keys of the sources and of the receipts are taken in lower case.
  pub merge_ledger_sources-Gives :
      (liquid0 liquid1 : List LiquidRow) (staking : List StakeRow) (receipts : List PendingReceipt)
      (stated : ℤ) {out : List LedgerRow}
      → merge_ledger_sources secure_key_of liquid0 liquid1 staking receipts stated ≡ ok out
      → Gives a out (lowered_sources liquid0 liquid1 staking)
        × (column_at (λ r. r.pending_cross_shard_atto) a out
            ≡ sum_of
                (λ r. if text_eq (lower r.secure_key) a then pos_part r.amount_atto else 0)
                receipts)
  merge_ledger_sources-Gives liquid0 liquid1 staking receipts stated h =
      let (claims, loaded, run, i0, i1, i2) =
        merge_ledger_sources-parts secure_key_of liquid0 liquid1 staking receipts stated h in
      let s = all_sources claims liquid0 liquid1 staking in
      let (keyed, _) = load_pending-total secure_key_of receipts stated loaded in
      let (increase, complete) =
        parts-Ready secure_key_of liquid0 liquid1 staking receipts stated claims loaded i0 i1 i2 in
      let (_, _, _, each) =
        ledger_rounds-InOrder secure_key_of claims (rows_left s) s increase complete run in
      (
        ledger_rounds-Gives claims (rows_left s) s run,
        each a
            ∙ amount_if-sorted claims keyed a
            ∙ load_pending-each secure_key_of receipts stated a loaded,
      )
