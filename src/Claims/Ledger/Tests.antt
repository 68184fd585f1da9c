-- ===== src/Claims/Ledger/Tests.antt =====
-- A ledger of two accounts.
use harmony_migration.Base.{
  ℕ, ◌≡◌, refl, if◌then◌else◌, map, List, [], ◌∷◌, arith, sum_of, Text, Result, ok, err,
}
use harmony_migration.Base.Int.{ℤ, pos, negsuc, pos_part}
use harmony_migration.Base.Literals.{codes, lower}
use harmony_migration.Base.Order.{text_eq, text_ordered}
use harmony_migration.Base.Sorting.{sort_by, insert_by}
use harmony_migration.Claims.Ledger.{
  LedgerError, keys_not_increasing, LedgerRow, LiquidRow, StakeRow, PendingReceipt, Sources,
  amount_of, int_field, amounts_of, address_for, merge_round, next_round, ledger_rounds,
}
use harmony_migration.Claims.Ledger.Increasing.{Increasing}
use harmony_migration.Claims.Ledger.Receipts.{
  check_rows, add_pending, add_receipt, add_receipts, load_pending_receipts, merge_ledger_sources,
}
use harmony_migration.Claims.Ledger.Pending.{column_at}
use harmony_migration.Claims.Ledger.Accounts.{Gives, merge_ledger_sources-Gives}
use harmony_migration.Claims.Ledger.Whole.{lowered_sources}
use harmony_migration.Claims.Ledger.Ending.{Ends, ledger_rounds-Ends}

-- The key of an address stands for it here.
abbrev own_key : Text → Text
own_key address = address

abbrev liquid : Text → ℤ → LiquidRow
liquid key balance = record {
  secure_key = key;
  address = [];
  balance_atto = balance;
  nonce = codes "1";
  code_hash = [];
}

abbrev stake : StakeRow
stake = record {
  secure_key = codes "b";
  address = codes "b";
  active_delegation_atto = pos 40;
  pending_undelegation_atto = pos 3;
  unclaimed_reward_atto = pos 2;
}

abbrev receipt : PendingReceipt
receipt = record { secure_key = codes "B"; to = codes "b"; amount_atto = pos 7 }

abbrev rows_or_none : Result LedgerError (List LedgerRow) → List LedgerRow
rows_or_none (err e) = []
rows_or_none (ok rows) = rows

-- A key is written in upper case in one of the exports.
abbrev small_liquid0 : List LiquidRow
small_liquid0 = liquid (codes "a") (pos 10) ∷ liquid (codes "B") (pos 1) ∷ []

abbrev small_liquid1 : List LiquidRow
small_liquid1 = liquid (codes "b") (pos 5) ∷ []

abbrev small_ledger : List LedgerRow
small_ledger =
    rows_or_none
      (merge_ledger_sources own_key small_liquid0 small_liquid1 (stake ∷ []) (receipt ∷ []) (pos 7))

small_ledger_made :
    merge_ledger_sources own_key small_liquid0 small_liquid1 (stake ∷ []) (receipt ∷ []) (pos 7)
    ≡ ok small_ledger
unfolding merge_ledger_sources load_pending_receipts add_receipts add_receipt add_pending check_rows
    sort_by insert_by ledger_rounds next_round merge_round address_for amounts_of int_field
    amount_of
small_ledger_made = refl

small_ledger_claims : sum_of (λ r. r.total_claim_atto) small_ledger ≡ 68
unfolding merge_ledger_sources load_pending_receipts add_receipts add_receipt add_pending check_rows
    sort_by insert_by ledger_rounds next_round merge_round address_for amounts_of int_field
    amount_of
small_ledger_claims = refl

out_of_order :
    merge_ledger_sources own_key
      (liquid (codes "b") (pos 10) ∷ liquid (codes "a") (pos 1) ∷ [])
      []
      []
      []
      (pos 0)
    ≡ err keys_not_increasing
unfolding merge_ledger_sources load_pending_receipts add_receipts check_rows
out_of_order = refl

abbrev two_left : Sources
two_left = record {
  liquid0 = liquid (codes "a") (pos 10) ∷ [];
  liquid1 = liquid (codes "a") (negsuc 0) ∷ [];
  staking = [];
  receipt_keys = [];
}

ledger_rounds-Ends_example : Ends (ledger_rounds own_key [] 2 two_left)
ledger_rounds-Ends_example = ledger_rounds-Ends own_key [] 2 two_left (omega arith)

merge_ledger_sources-Gives_example :
    Gives (codes "b") small_ledger (lowered_sources small_liquid0 small_liquid1 (stake ∷ []))
    × (column_at (λ r. r.pending_cross_shard_atto) (codes "b") small_ledger
        ≡ sum_of
            (λ r. if text_eq (lower r.secure_key) (codes "b") then pos_part r.amount_atto else 0)
            (receipt ∷ []))
merge_ledger_sources-Gives_example =
    merge_ledger_sources-Gives own_key (codes "b") small_liquid0 small_liquid1 (stake ∷ [])
      (receipt ∷ []) (pos 7) small_ledger_made

abbrev account_claim : LedgerRow → Text × ℕ
account_claim r = (r.secure_key, r.total_claim_atto)

abbrev account_of : Text → ℕ → Text × ℕ
account_of key n = (key, n)

-- Keys that differ in case only are one account.
one_account :
    map
      (λ r. (r.secure_key, r.total_claim_atto))
      (rows_or_none (
        merge_ledger_sources own_key
          (liquid (codes "AB") (pos 10) ∷ [])
          (liquid (codes "ab") (pos 5) ∷ [])
          []
          []
          (pos 0)))
    ≡ account_of (codes "ab") 15 ∷ []
unfolding merge_ledger_sources load_pending_receipts add_receipts check_rows sort_by ledger_rounds
    next_round merge_round address_for amounts_of int_field amount_of
one_account = refl
