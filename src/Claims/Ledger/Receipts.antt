-- ===== src/Claims/Ledger/Receipts.antt =====
-- `load_pending_receipts` of toolkit/scripts/claims/actual-supply-ledger.py, the tests of `rows`, and
-- `merge` from its sources. The groups of a report are one list of receipts here, in their order.
use harmony_migration.Base.{
  ℕ, ◌+◌, Bool, false, not, ◌&&◌, Option, none, some, List, [], ◌∷◌, map, sum_of, Text, Dict,
  lookup, insert, Result, ok, ◌>>=◌, ◌>>◌, raise_if,
}
use harmony_migration.Base.Int.{ℤ, pos, pos_part, eqb_ℤ}
use harmony_migration.Base.Literals.{lower}
use harmony_migration.Base.Order.{text_eq, text_lt, text_ordered}
use harmony_migration.Base.Sorting.{sort_by}
use harmony_migration.Claims.Ledger.{
  LedgerError, wrong_key, receipt_mismatch, pending_sum_differs, keys_not_increasing,
  PendingReceipt, PendingEntry, LiquidRow, StakeRow, LedgerRow, Sources, amount_of, is_empty,
  ledger_rounds,
}
use harmony_migration.Claims.Ledger.Rounds.{rows_left}

-- `previous is not None and key <= previous`
abbrev pub is_not_after : Option Text → Text → Bool
is_not_after none key = false
is_not_after (some previous) key = not (text_lt previous key)

-- `row["secure_key"] = key`
abbrev pub liquid_with_key : Text → LiquidRow → LiquidRow
liquid_with_key key row = record row { secure_key = key }

abbrev pub stake_with_key : Text → StakeRow → StakeRow
stake_with_key key row = record row { secure_key = key }

-- `total`, of amounts that are not negative where it is read.
abbrev pub total_of : List PendingReceipt → ℕ
total_of = sum_of (λ r. pos_part r.amount_atto)

module _ (secure_key_of : Text → Text) where
  -- `rows`: the keys in lower case increase, an address has its key, and the rows that are yielded
  -- have their key in lower case.
  unfoldable pub check_rows {ℓ} :
      {R : Type ℓ}
      → (R → Text)
      → (R → Text)
      → (Text → R → R)
      → Option Text
      → List R
      → Result LedgerError (List R)
  check_rows key_of address_of with_key previous [] = ok []
  check_rows key_of address_of with_key previous (row ∷ rows) = do
    let key = lower (key_of row)
    raise_if (is_not_after previous key) keys_not_increasing
    raise_if (not (is_empty (address_of row)) && not (text_eq key (secure_key_of (address_of row))))
        wrong_key
    rest ← check_rows key_of address_of with_key (some key) rows
    ok (with_key key row ∷ rest)

  -- `setdefault`, the test of the address, and the amount added.
  unfoldable pub add_pending :
      Text
      → Text
      → ℕ
      → Dict Text PendingEntry
      → Option PendingEntry
      → Result LedgerError (Dict Text PendingEntry)
  add_pending key to amount pending none =
      ok (insert key (record { address = to; amount = amount }) pending)
  add_pending key to amount pending (some entry) =
      raise_if (not (text_eq (lower entry.address) (lower to))) receipt_mismatch
      >> ok (insert key (record entry { amount = entry.amount + amount }) pending)

  unfoldable pub add_receipt :
      PendingReceipt → Dict Text PendingEntry → Result LedgerError (Dict Text PendingEntry)
  add_receipt r pending =
      let key = lower r.secure_key in
      raise_if (not (text_eq key (secure_key_of r.to))) wrong_key
      >> (amount_of r.amount_atto >>= λ amount.
          add_pending key r.to amount pending (lookup key pending))

  unfoldable pub add_receipts :
      List PendingReceipt → Dict Text PendingEntry → Result LedgerError (Dict Text PendingEntry)
  add_receipts [] pending = ok pending
  add_receipts (r ∷ receipts) pending = do
    pending' ← add_receipt r pending
    add_receipts receipts pending'

  unfoldable pub load_pending_receipts :
      List PendingReceipt → ℤ → Result LedgerError (Dict Text PendingEntry)
  load_pending_receipts receipts pending_active_atto = do
    pending ← add_receipts receipts []
    raise_if (not (eqb_ℤ (pos (total_of receipts)) pending_active_atto)) pending_sum_differs
    ok pending

  -- `merge`, on the sources' rows.
  unfoldable pub merge_ledger_sources :
      List LiquidRow
      → List LiquidRow
      → List StakeRow
      → List PendingReceipt
      → ℤ
      → Result LedgerError (List LedgerRow)
  merge_ledger_sources liquid0 liquid1 staking receipts pending_active_atto = do
    claims ← load_pending_receipts receipts pending_active_atto
    liquid0_rows ← check_rows (λ r. r.secure_key) (λ r. r.address) liquid_with_key none liquid0
    liquid1_rows ← check_rows (λ r. r.secure_key) (λ r. r.address) liquid_with_key none liquid1
    staking_rows ← check_rows (λ r. r.secure_key) (λ r. r.address) stake_with_key none staking
    let s : Sources = record {
      liquid0 = liquid0_rows;
      liquid1 = liquid1_rows;
      staking = staking_rows;
      receipt_keys = sort_by (λ k. k) (map (λ e. e.0) claims);
    }
    ledger_rounds secure_key_of claims (rows_left s) s
