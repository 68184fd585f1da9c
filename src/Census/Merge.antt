-- ===== src/Census/Merge.antt =====
-- toolkit/scripts/census/account-balance-merge.py: the exports of two shards, each sorted by
-- secure key, merged into one row per account, with counts. The CSV reader and the files are not
-- modelled: an export is the list of its rows, and an exception of either reader, wherever in the
-- loop it is raised, ends `merge` without output.
use harmony_migration.Base.{
  ℕ, zero, suc, ◌+◌, Bool, true, false, not, ◌&&◌, ◌||◌, Option, none, some, List, [], ◌∷◌,
  if◌then◌else◌, ltb, length, Result, ok, err, ◌>>=◌, ◌>>◌, raise_if, Text,
}
use harmony_migration.Base.Int.{ℤ, pos, negsuc}
use harmony_migration.Base.Order.{text_lt, text_eq}
use harmony_migration.Base.Literals.{codes, lower}
pub mod Balances
pub mod Counts
mod Tests

pub data MergeError : Type 0 where
  not_increasing non_positive address_mismatch : MergeError

abbrev pub empty_code_hash : Text
empty_code_hash = codes "0xc5d2460186f7233c927e7db2dcc703c0e500b653ca82273b7bfad8045d85a470"

pub record ExportRow : Type 0 where
  pub secure_key : Text
  pub address : Text
  pub balance_atto : ℤ
  pub nonce : Text
  pub code_hash : Text

pub record Account : Type 0 where
  pub secure_key : Text
  pub address : Text
  pub balance : ℕ
  pub nonce : Text
  pub code_hash : Text

-- `previous_key is not None and key <= previous_key`
abbrev pub is_late : Option Text → Text → Bool
is_late none key = false
is_late (some previous) key = not (text_lt previous key)

-- `balance <= 0` raises.
abbrev pub positive : ℤ → Result MergeError ℕ
positive (pos zero) = err non_positive
positive (pos (suc n)) = ok (suc n)
positive (negsuc n) = err non_positive

unfoldable pub account_rows : Option Text → List ExportRow → Result MergeError (List Account)
account_rows previous [] = ok []
account_rows previous (row ∷ rows) = do
  raise_if (is_late previous row.secure_key) not_increasing
  balance ← positive row.balance_atto
  rest ← account_rows (some row.secure_key) rows
  ok (
      record {
        secure_key = row.secure_key;
        address = row.address;
        balance = balance;
        nonce = row.nonce;
        code_hash = lower row.code_hash;
      }
      ∷ rest)

-- `current0` and `current1`, of which one at least is an account.
pub data Current : Type 0 where
  only0 only1 : Account → Current
  both : Account → Account → Current

-- The choice of every round of the loop: the smaller key, or both rows.
unfoldable pub pair_up : List Account → List Account → List Current
pair_up [] [] = []
pair_up [] (b ∷ rows1) = only1 b ∷ pair_up [] rows1
pair_up (a ∷ rows0) [] = only0 a ∷ pair_up rows0 []
pair_up (a ∷ rows0) (b ∷ rows1) = elim (text_lt a.secure_key b.secure_key) [
  | true ↦ only0 a ∷ pair_up rows0 (b ∷ rows1)
  | false ↦ elim (text_lt b.secure_key a.secure_key) [
    | true ↦ only1 b ∷ pair_up (a ∷ rows0) rows1
    | false ↦ both a b ∷ pair_up rows0 rows1
  ]
]

unfoldable pub balance0 : Current → ℕ
balance0 (only0 a) = a.balance
balance0 (only1 b) = 0
balance0 (both a b) = a.balance

unfoldable pub balance1 : Current → ℕ
balance1 (only0 a) = 0
balance1 (only1 b) = b.balance
balance1 (both a b) = b.balance

-- `(current0 or current1)["secure_key"]`
unfoldable pub key_of : Current → Text
key_of (only0 a) = a.secure_key
key_of (only1 b) = b.secure_key
key_of (both a b) = a.secure_key

abbrev pub is_empty : Text → Bool
is_empty [] = true
is_empty (c ∷ cs) = false

-- `address0 or address1`, when they agree
unfoldable pub address_of : Current → Result MergeError Text
address_of (only0 a) = ok a.address
address_of (only1 b) = ok b.address
address_of (both a b) =
    if is_empty a.address
    then ok b.address
    else if is_empty b.address
    then ok a.address
    else if text_eq (lower a.address) (lower b.address)
    then ok a.address
    else err address_mismatch

unfoldable pub is_code_bearing : Current → Bool
is_code_bearing (only0 a) = not (text_eq a.code_hash empty_code_hash)
is_code_bearing (only1 b) = not (text_eq b.code_hash empty_code_hash)
is_code_bearing (both a b) =
    not (text_eq a.code_hash empty_code_hash) || not (text_eq b.code_hash empty_code_hash)

pub record MergedRow : Type 0 where
  pub secure_key : Text
  pub address : Text
  pub balance_shard_0_atto : ℕ
  pub balance_shard_1_atto : ℕ
  pub balance_total_atto : ℕ
  pub nonce_shard_0 : Text
  pub nonce_shard_1 : Text
  pub code_hash_shard_0 : Text
  pub code_hash_shard_1 : Text

pub record Summary : Type 0 where
  pub shard0_positive : ℕ
  pub shard1_positive : ℕ
  pub unique_positive : ℕ
  pub positive_overlap : ℕ
  pub shard0_individually_qualifying : ℕ
  pub shard1_individually_qualifying : ℕ
  pub qualifying_overlap : ℕ
  pub new_cross_shard_threshold_crossers : ℕ
  pub unique_qualifying_after_sum : ℕ
  pub qualifying_code_less : ℕ
  pub qualifying_code_bearing : ℕ
  pub qualifying_with_address : ℕ
  pub qualifying_missing_address : ℕ
  pub total_balance_atto : ℕ
  pub qualifying_balance_atto : ℕ

abbrev pub zero_summary : Summary
zero_summary = record {
  shard0_positive = 0;
  shard1_positive = 0;
  unique_positive = 0;
  positive_overlap = 0;
  shard0_individually_qualifying = 0;
  shard1_individually_qualifying = 0;
  qualifying_overlap = 0;
  new_cross_shard_threshold_crossers = 0;
  unique_qualifying_after_sum = 0;
  qualifying_code_less = 0;
  qualifying_code_bearing = 0;
  qualifying_with_address = 0;
  qualifying_missing_address = 0;
  total_balance_atto = 0;
  qualifying_balance_atto = 0;
}

-- `if test: summary[...] += 1`
abbrev pub plus_if : Bool → ℕ → ℕ
plus_if test n = if test then suc n else n

abbrev pub has0 : Current → Bool
has0 (only0 a) = true
has0 (only1 b) = false
has0 (both a b) = true

abbrev pub has1 : Current → Bool
has1 (only0 a) = false
has1 (only1 b) = true
has1 (both a b) = true

-- The counts of one round, for an account with the given address.
unfoldable pub count : ℕ → Current → Text → Summary → Summary
count threshold c address s =
    let total = balance0 c + balance1 c in
    let qualifies0 = ltb threshold (balance0 c) in
    let qualifies1 = ltb threshold (balance1 c) in
    let qualifies = ltb threshold total in
    record {
      shard0_positive = plus_if (has0 c) s.shard0_positive;
      shard1_positive = plus_if (has1 c) s.shard1_positive;
      unique_positive = suc s.unique_positive;
      positive_overlap = plus_if (has0 c && has1 c) s.positive_overlap;
      shard0_individually_qualifying = plus_if qualifies0 s.shard0_individually_qualifying;
      shard1_individually_qualifying = plus_if qualifies1 s.shard1_individually_qualifying;
      qualifying_overlap = plus_if (qualifies0 && qualifies1) s.qualifying_overlap;
      new_cross_shard_threshold_crossers =
          plus_if (qualifies && not qualifies0 && not qualifies1)
            s.new_cross_shard_threshold_crossers;
      unique_qualifying_after_sum = plus_if qualifies s.unique_qualifying_after_sum;
      qualifying_code_less = plus_if (qualifies && not (is_code_bearing c)) s.qualifying_code_less;
      qualifying_code_bearing = plus_if (qualifies && is_code_bearing c) s.qualifying_code_bearing;
      qualifying_with_address =
          plus_if (qualifies && not (is_empty address)) s.qualifying_with_address;
      qualifying_missing_address =
          plus_if (qualifies && is_empty address) s.qualifying_missing_address;
      total_balance_atto = s.total_balance_atto + total;
      qualifying_balance_atto = s.qualifying_balance_atto + (if qualifies then total else 0);
    }

-- `current0[column] if current0 else ""`, and the same of `current1`
abbrev pub text0 : (Account → Text) → Current → Text
text0 column (only0 a) = column a
text0 column (only1 b) = []
text0 column (both a b) = column a

abbrev pub text1 : (Account → Text) → Current → Text
text1 column (only0 a) = []
text1 column (only1 b) = column b
text1 column (both a b) = column b

-- The rounds of the loop.
unfoldable pub merge_rounds :
    ℕ → List Current → Summary → Result MergeError (Summary × List MergedRow)
merge_rounds threshold [] s = ok (s, [])
merge_rounds threshold (c ∷ rounds) s = do
  address ← address_of c
  (summary, rows) ← merge_rounds threshold rounds (count threshold c address s)
  let row : MergedRow = record {
    secure_key = key_of c;
    address = address;
    balance_shard_0_atto = balance0 c;
    balance_shard_1_atto = balance1 c;
    balance_total_atto = balance0 c + balance1 c;
    nonce_shard_0 = text0 (λ a. a.nonce) c;
    nonce_shard_1 = text1 (λ a. a.nonce) c;
    code_hash_shard_0 = text0 (λ a. a.code_hash) c;
    code_hash_shard_1 = text1 (λ a. a.code_hash) c;
  }
  ok (summary, row ∷ rows)

unfoldable pub merge :
    ℕ → List ExportRow → List ExportRow → Result MergeError (Summary × List MergedRow)
merge threshold export0 export1 = do
  shard0 ← account_rows none export0
  shard1 ← account_rows none export1
  merge_rounds threshold (pair_up shard0 shard1) zero_summary
