-- ===== src/Claims/Ledger.antt =====
-- toolkit/scripts/claims/actual-supply-ledger.py: `rows`, `load_pending_receipts`, `int_field` and
-- `merge`. The four sources are lists; the order of a source's keys is tested before the merge here, and
-- row by row in the code, which writes no output either way. `secure_key_of` is the hash of an address,
-- as `require_address_secure_key` of toolkit/scripts/contract-review/contract_review_lib.py has it.
use harmony_migration.Base.{
  ℕ, zero, suc, ◌+◌, Bool, true, false, not, ◌||◌, ◌&&◌, Option, none, some, List, [], ◌∷◌, ◌++◌,
  map, sum_of, keep, any_of, if◌then◌else◌, ltb, ◌==◌, length, Text, Dict, lookup, insert, Result,
  ok, err, ◌>>=◌, ◌>>◌, raise_if,
}
use harmony_migration.Base.Int.{ℤ, pos, negsuc}
use harmony_migration.Base.Literals.{lower}
use harmony_migration.Base.Order.{text_eq, text_lt, text_ordered}
use harmony_migration.Base.Sorting.{sort_by}
pub mod Rounds
pub mod Sums
pub mod Increasing
pub mod Pending
pub mod Loading
pub mod PerKey
pub mod Whole
pub mod Accounts
pub mod Ending
pub mod Receipts
mod Tests

pub data LedgerError : Type 0 where
  keys_not_increasing wrong_key negative_field address_mismatch receipt_mismatch pending_sum_differs
        non_positive_claim out_of_fuel :
      LedgerError

-- A row of a liquid export; `address` is empty where it is not known. `rows` yields it with its key
-- in lower case.
pub record LiquidRow : Type 0 where
  pub secure_key : Text
  pub address : Text
  pub balance_atto : ℤ
  pub nonce : Text
  pub code_hash : Text

pub record StakeRow : Type 0 where
  pub secure_key : Text
  pub address : Text
  pub active_delegation_atto : ℤ
  pub pending_undelegation_atto : ℤ
  pub unclaimed_reward_atto : ℤ

-- A receipt of a report, and the entry of `pending` at its key.
pub record PendingReceipt : Type 0 where
  pub secure_key : Text
  pub to : Text
  pub amount_atto : ℤ

pub record PendingEntry : Type 0 where
  pub address : Text
  pub amount : ℕ

pub record LedgerRow : Type 0 where
  pub secure_key : Text
  pub address : Text
  pub liquid_shard0_atto : ℕ
  pub liquid_shard1_atto : ℕ
  pub liquid_total_atto : ℕ
  pub active_delegation_atto : ℕ
  pub pending_undelegation_atto : ℕ
  pub unclaimed_reward_atto : ℕ
  pub pending_cross_shard_atto : ℕ
  pub wallet_airdrop_atto : ℕ
  pub staked_to_vault_atto : ℕ
  pub total_claim_atto : ℕ
  pub nonce_shard0 : Text
  pub nonce_shard1 : Text
  pub code_hash_shard0 : Text
  pub code_hash_shard1 : Text

-- What is left of the sources; of the receipts the sorted keys.
pub record Sources : Type 0 where
  pub liquid0 : List LiquidRow
  pub liquid1 : List LiquidRow
  pub staking : List StakeRow
  pub receipt_keys : List Text

-- The rows of a round.
pub record RoundRows : Type 0 where
  pub current0 : Option LiquidRow
  pub current1 : Option LiquidRow
  pub current_stake : Option StakeRow
  pub current_receipt : Option PendingEntry

-- `int_field`
unfoldable pub amount_of : ℤ → Result LedgerError ℕ
amount_of (pos n) = ok n
amount_of (negsuc n) = err negative_field

unfoldable pub int_field {ℓ} : {R : Type ℓ} → (R → ℤ) → Option R → Result LedgerError ℕ
int_field field none = ok 0
int_field field (some row) = amount_of (field row)

-- The key of a source's next row.
abbrev pub next_key {ℓ} : {R : Type ℓ} → (R → Text) → List R → Option Text
next_key key_of [] = none
next_key key_of (row ∷ rest) = some (key_of row)

abbrev pub least_of : Option Text → Option Text → Option Text
least_of none b = b
least_of (some a) none = some a
least_of (some a) (some b) = if text_lt b a then some b else some a

-- The least key of the next rows, none where every source has ended.
abbrev pub least_key : Sources → Option Text
least_key s = least_of (next_key (λ r. r.secure_key) s.liquid0) (
    least_of (next_key (λ r. r.secure_key) s.liquid1)
      (least_of (next_key (λ r. r.secure_key) s.staking) (next_key (λ k. k) s.receipt_keys)))

-- The next row where it has the key, and the rows after those that were taken.
abbrev pub current_of {ℓ} : {R : Type ℓ} → (R → Text) → Text → List R → Option R
current_of key_of key [] = none
current_of key_of key (row ∷ rest) = if text_eq (key_of row) key then some row else none

abbrev pub rows_after {ℓ} : {R : Type ℓ} → (R → Text) → Text → List R → List R
rows_after key_of key [] = []
rows_after key_of key (row ∷ rest) = if text_eq (key_of row) key then rest else row ∷ rest

abbrev pub advance : Text → Sources → Sources
advance key s = record {
  liquid0 = rows_after (λ r. r.secure_key) key s.liquid0;
  liquid1 = rows_after (λ r. r.secure_key) key s.liquid1;
  staking = rows_after (λ r. r.secure_key) key s.staking;
  receipt_keys = rows_after (λ k. k) key s.receipt_keys;
}

abbrev pub current_at : Dict Text PendingEntry → Text → Sources → RoundRows
current_at claims key s = record {
  current0 = current_of (λ r. r.secure_key) key s.liquid0;
  current1 = current_of (λ r. r.secure_key) key s.liquid1;
  current_stake = current_of (λ r. r.secure_key) key s.staking;
  current_receipt = lookup key claims;
}

abbrev pub is_empty : Text → Bool
is_empty [] = true
is_empty (c ∷ cs) = false

-- `x and x["address"]`, or the empty text
abbrev pub text_or_empty {ℓ} : {R : Type ℓ} → (R → Text) → Option R → Text
text_or_empty field none = []
text_or_empty field (some row) = field row

-- The addresses of a round that are not empty.
abbrev pub addresses_of : RoundRows → List Text
addresses_of c =
    keep (λ a. not (is_empty a))
      (text_or_empty (λ r. r.address) c.current0
        ∷ text_or_empty (λ r. r.address) c.current1
        ∷ text_or_empty (λ r. r.address) c.current_stake
        ∷ text_or_empty (λ r. r.address) c.current_receipt
        ∷ [])

-- `current_receipt["amount"] if current_receipt else 0`
abbrev pub receipt_amount : Option PendingEntry → ℕ
receipt_amount none = 0
receipt_amount (some entry) = entry.amount

-- The amounts of a round.
pub record Amounts : Type 0 where
  pub liquid0_value : ℕ
  pub liquid1_value : ℕ
  pub active : ℕ
  pub undelegation : ℕ
  pub reward : ℕ
  pub pending_receipt : ℕ

unfoldable pub amounts_of : RoundRows → Result LedgerError Amounts
amounts_of c = do
  liquid0_value ← int_field (λ r. r.balance_atto) c.current0
  liquid1_value ← int_field (λ r. r.balance_atto) c.current1
  active ← int_field (λ r. r.active_delegation_atto) c.current_stake
  undelegation ← int_field (λ r. r.pending_undelegation_atto) c.current_stake
  reward ← int_field (λ r. r.unclaimed_reward_atto) c.current_stake
  ok (record {
    liquid0_value = liquid0_value;
    liquid1_value = liquid1_value;
    active = active;
    undelegation = undelegation;
    reward = reward;
    pending_receipt = receipt_amount c.current_receipt;
  })

abbrev pub wallet_of : Amounts → ℕ
wallet_of a = a.liquid0_value + a.liquid1_value + a.undelegation + a.reward + a.pending_receipt

-- The row that is written.
abbrev pub ledger_row : Text → Text → RoundRows → Amounts → LedgerRow
ledger_row key address c a = record {
  secure_key = key;
  address = address;
  liquid_shard0_atto = a.liquid0_value;
  liquid_shard1_atto = a.liquid1_value;
  liquid_total_atto = a.liquid0_value + a.liquid1_value;
  active_delegation_atto = a.active;
  pending_undelegation_atto = a.undelegation;
  unclaimed_reward_atto = a.reward;
  pending_cross_shard_atto = a.pending_receipt;
  wallet_airdrop_atto = wallet_of a;
  staked_to_vault_atto = a.active;
  total_claim_atto = wallet_of a + a.active;
  nonce_shard0 = text_or_empty (λ r. r.nonce) c.current0;
  nonce_shard1 = text_or_empty (λ r. r.nonce) c.current1;
  code_hash_shard0 = text_or_empty (λ r. r.code_hash) c.current0;
  code_hash_shard1 = text_or_empty (λ r. r.code_hash) c.current1;
}

module _ (secure_key_of : Text → Text) where
  -- The address of a round, empty where none is known.
  unfoldable pub address_for : Text → List Text → Result LedgerError Text
  address_for key [] = ok []
  address_for key (address ∷ others) =
      raise_if (any_of (λ a. not (text_eq (lower a) (lower address))) others) address_mismatch
      >> (raise_if (not (text_eq key (secure_key_of address))) wrong_key >> ok address)

  unfoldable pub merge_round : Text → RoundRows → Result LedgerError LedgerRow
  merge_round key c = do
    address ← address_for key (addresses_of c)
    a ← amounts_of c
    raise_if (wallet_of a + a.active == 0) non_positive_claim
    ok (ledger_row key address c a)

  -- The body of the `while` loop of `merge` at the least key, and the rounds after it.
  unfoldable pub next_round :
      Dict Text PendingEntry
      → Sources
      → (Sources → Result LedgerError (List LedgerRow))
      → Option Text
      → Result LedgerError (List LedgerRow)
  next_round claims s later none = ok []
  next_round claims s later (some key) = do
    row ← merge_round key (current_at claims key s)
    rest ← later (advance key s)
    ok (row ∷ rest)

  -- The `while` loop; each round takes a row of one source at least.
  unfoldable pub ledger_rounds :
      Dict Text PendingEntry → ℕ → Sources → Result LedgerError (List LedgerRow)
  ledger_rounds claims zero s = next_round claims s (λ s'. err out_of_fuel) (least_key s)
  ledger_rounds claims (suc fuel) s =
      next_round claims s (λ s'. ledger_rounds claims fuel s') (least_key s)
