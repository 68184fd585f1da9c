-- ===== src/Bridge/Allocations.antt =====
-- toolkit/scripts/bridge/build-bridge-allocations.py: the accounts of a pool, their status, and
-- the shares of the collateral they get. `load_holdings` and `collateral_for` read files: the
-- holdings and the collateral are arguments. The reasons of a status and the columns that are
-- copied from the pool are left out. `address` stands for bridge_lib.address, which normalizes an
-- address or raises.
use mathlib.Core.List
use harmony_migration.Base.{
  ℕ, zero, suc, ◌+◌, ◌-◌, ◌*◌, ◌/◌, Bool, true, false, ◌&&◌, ◌||◌, not, Option, none, some, List,
  [], ◌∷◌, ◌++◌, map, if◌then◌else◌, ltb, leb, ◌==◌, any_of, sum_of, length, keep, drop, Result, ok,
  err, ◌>>=◌, ◌>>◌, Text, Dict, lookup, insert,
}
use harmony_migration.Base.Int.{ℤ, pos, ◌+ℤ◌, ◌-ℤ◌, pos_part, neg_part}
use harmony_migration.Base.Order.{text_eq, text_ordered}
use harmony_migration.Base.Keys.{pair_ordered}
use harmony_migration.Base.Sorting.{sort_by}
use harmony_migration.Base.Literals.{codes, lower}
pub mod Fresh
pub mod Shares
pub mod Collateral
pub mod Lists

pub data Status : Type 0 where
  claimable held_multisig held_onewallet held_contract held_unclassified held_review excluded_system
        excluded_policy below_minimum :
      Status

pub data PoolError : Type 0 where
  unknown_action invalid_address : PoolError

pub record Exclusion : Type 0 where
  pub chain : Text

pub record Override : Type 0 where
  pub action : Text
  pub destination : Text

-- What the pool, the plan and the loaded tables give `build_pool`.
pub record Pool : Type 0 where
  pub pool_id : Text
  pub claim_chain : Text
  pub claim_token : Text
  pub holder_chain : Text
  pub collateral : ℕ
  pub minimum : ℕ
  pub holdings : Dict Text ℤ
  pub adjustments : Dict Text ℤ
  pub classes : Dict (Text × Text) Text
  pub chain_classes : Dict Text (Dict Text Text)
  pub roles : Dict Text Text
  pub exclusions : Dict (Text × Text) Exclusion
  pub overrides : Dict (Text × Text) Override

pub record Row : Type 0 where
  pub pool_id : Text
  pub claim_chain : Text
  pub claim_token : Text
  pub account : Text
  pub holding_raw : ℤ
  pub adjustment_raw : ℤ
  pub gross_raw : ℕ
  pub unrecovered_debit_raw : ℕ
  pub account_class : Option Text
  pub status : Status
  pub payee : Text
  pub allocation_raw : ℕ

abbrev pub is_claimable : Status → Bool
is_claimable claimable = true
is_claimable _ = false

-- `status.startswith("held_")`
abbrev pub is_held : Status → Bool
is_held held_multisig = true
is_held held_onewallet = true
is_held held_contract = true
is_held held_unclassified = true
is_held held_review = true
is_held _ = false

abbrev pub is_excluded : Status → Bool
is_excluded excluded_system = true
is_excluded excluded_policy = true
is_excluded _ = false

abbrev pub is_below : Status → Bool
is_below below_minimum = true
is_below _ = false

-- `status in ELIGIBLE`
abbrev pub is_eligible : Status → Bool
is_eligible claimable = true
is_eligible held_multisig = true
is_eligible held_onewallet = true
is_eligible held_contract = true
is_eligible held_unclassified = true
is_eligible held_review = true
is_eligible _ = false

abbrev is_one_of : List Text → Text → Bool
is_one_of names t = any_of (text_eq t) names

-- `account_class in KEY_CONTROLLED`
unfoldable pub is_key_controlled : Text → Bool
is_key_controlled =
    is_one_of
      (codes "eoa" ∷ codes "eoa_7702" ∷ codes "validator_wrapper" ∷ codes "adjustment_target" ∷ [])

unfoldable pub status_for : Option Text → Text → Text → Status
unfolding is_key_controlled
status_for none holder_chain claim_chain = held_unclassified
status_for (some account_class) holder_chain claim_chain =
    if is_key_controlled account_class
    then claimable
    else if is_one_of (codes "safe" ∷ codes "multisig" ∷ []) account_class
    then (if text_eq holder_chain claim_chain then claimable else held_multisig)
    else if text_eq account_class (codes "onewallet")
    then held_onewallet
    else if is_one_of (codes "contract" ∷ codes "smartvault" ∷ []) account_class
    then held_contract
    else held_unclassified

-- The loop of `contract_elsewhere` over the chains in their order.
unfoldable pub first_contract : Text → Text → Dict Text Text → Option Status
unfolding is_key_controlled
first_contract holder_chain claim_chain [] = none
first_contract holder_chain claim_chain ((chain, other) ∷ chains) =
    let rest = first_contract holder_chain claim_chain chains in
    let status = status_for (some other) chain claim_chain in
    if text_eq chain holder_chain || is_key_controlled other
    then rest
    else if is_claimable status
    then rest
    else some status

unfoldable pub contract_elsewhere : Text → Text → Text → Dict Text (Dict Text Text) → Option Status
contract_elsewhere account holder_chain claim_chain chain_classes =
    elim (lookup account chain_classes) [
      | none ↦ none
      | some chains ↦ first_contract holder_chain claim_chain (sort_by (λ x. x.0) chains)
    ]

-- `int(raw, 16)`, of a text of lower-case hexadecimal digits
unfoldable pub hex_value : ℕ → Text → ℕ
hex_value n [] = n
hex_value n (c ∷ cs) = hex_value (n * 16 + (if leb 97 c then c - 87 else c - 48)) cs

-- `len(set(raw)) == 1`
abbrev pub has_one_digit : Text → Bool
has_one_digit [] = false
has_one_digit (c ∷ cs) = not (any_of (λ d. not (d == c)) cs)

-- bridge_lib.reserved_address_reason gives a reason.
unfoldable pub is_reserved_address : Text → Bool
unfolding hex_value
is_reserved_address value =
    let raw = lower (drop 2 value) in leb (hex_value 0 raw) 65535 || has_one_digit raw

abbrev or_else {ℓ} : {A : Type ℓ} → Option A → Option A → Option A
or_else (some a) other = some a
or_else none other = other

-- `table.get((pid, account)) or table.get(("*", account))`
unfoldable pub get_keyed {ℓ} : {V : Type ℓ} → Text → Text → Dict (Text × Text) V → Option V
get_keyed pid account table =
    or_else (lookup (pid, account) table) (lookup (codes "*", account) table)

abbrev value_or_zero : Option ℤ → ℤ
value_or_zero none = pos 0
value_or_zero (some z) = z

abbrev is_some {ℓ} : {A : Type ℓ} → Option A → Bool
is_some none = false
is_some (some a) = true

-- `classes.get(...)`, or the target of an adjustment that holds nothing.
unfoldable pub class_of : Pool → Text → Option Text
class_of pool account = elim (lookup (pool.holder_chain, account) pool.classes) [
  | some c ↦ some c
  | none ↦ if is_some (lookup account pool.holdings) then none else some (codes "adjustment_target")
]

abbrev is_plain : Option Text → Bool
is_plain none = false
is_plain (some c) = is_one_of (codes "eoa" ∷ codes "adjustment_target" ∷ []) c

-- The status that the code found at the account gives it.
unfoldable pub status_by_class : Pool → Text → Status
unfolding class_of
status_by_class pool account =
    let by_class = status_for (class_of pool account) pool.holder_chain pool.claim_chain in
    if is_plain (class_of pool account)
    then (elim (contract_elsewhere account pool.holder_chain pool.claim_chain pool.chain_classes) [
      | none ↦ by_class
      | some status ↦ status
    ])
    else by_class

-- Whether an exclusion applies on the holders' chain.
unfoldable pub is_excluded_by : Text → Option Exclusion → Bool
is_excluded_by holder_chain none = false
is_excluded_by holder_chain (some e) = text_eq e.chain (codes "*") || text_eq e.chain holder_chain

-- The status before the overrides: system addresses, and then the exclusions, replace it.
unfoldable pub status_by_policy : Pool → Text → Status
status_by_policy pool account =
    if is_excluded_by pool.holder_chain (get_keyed pool.pool_id account pool.exclusions)
    then excluded_policy
    else if is_some (lookup account pool.roles) || is_reserved_address account
    then excluded_system
    else status_by_class pool account

module _ (address : Text → Option Text) where
  -- The status and the payee that an override leaves.
  unfoldable pub apply_override : Text → Status → Option Override → Result PoolError (Status × Text)
  apply_override account status none = ok (status, account)
  apply_override account status (some o) =
      if text_eq o.action (codes "claim")
      then ok (claimable, account)
      else if text_eq o.action (codes "redirect")
      then (elim (address o.destination) [
        | none ↦ err invalid_address
        | some payee ↦ ok (claimable, payee)
      ])
      else if text_eq o.action (codes "hold")
      then ok (held_review, account)
      else if text_eq o.action (codes "exclude")
      then ok (excluded_policy, account)
      else err unknown_action

  -- The row of an account, before the collateral is shared out.
  unfoldable pub account_row : Pool → Text → Result PoolError Row
  account_row pool account = do
    let holding = value_or_zero (lookup account pool.holdings)
    let adjustment = value_or_zero (lookup account pool.adjustments)
    let gross = holding +ℤ adjustment
    (status, payee) ←
        apply_override account (status_by_policy pool account)
          (get_keyed pool.pool_id account pool.overrides)
    ok (record {
      pool_id = pool.pool_id;
      claim_chain = pool.claim_chain;
      claim_token = pool.claim_token;
      account = account;
      holding_raw = holding;
      adjustment_raw = adjustment;
      gross_raw = pos_part gross;
      unrecovered_debit_raw = neg_part gross;
      account_class = class_of pool account;
      status = status;
      payee = payee;
      allocation_raw = 0;
    })

  unfoldable pub account_rows : Pool → List Text → Result PoolError (List Row)
  account_rows pool [] = ok []
  account_rows pool (account ∷ accounts) = do
    row ← account_row pool account
    rows ← account_rows pool accounts
    ok (row ∷ rows)

-- `sorted(set(holdings) | set(adjustments))`
abbrev unique : List Text → List Text
unique [] = []
unique (a ∷ accounts) = a ∷ keep (λ b. not (text_eq a b)) (unique accounts)

unfoldable pub accounts_of : Pool → List Text
accounts_of pool =
    sort_by (λ a. a) (unique (map (λ x. x.0) pool.holdings ++ map (λ x. x.0) pool.adjustments))

unfoldable pub eligible_of : List Row → ℕ
eligible_of = sum_of (λ r. if is_eligible r.status then r.gross_raw else 0)

-- `numerator, denominator`
unfoldable pub scale : ℕ → ℕ → ℕ × ℕ
scale collateral eligible = if ltb collateral eligible then (collateral, eligible) else (1, 1)

-- The body of the loop that gives a row its share.
unfoldable pub allocate : ℕ → ℕ × ℕ → Row → Row
allocate minimum (numerator, denominator) row =
    let allocation = row.gross_raw * numerator / denominator in
    if not (is_eligible row.status)
    then row
    else if is_claimable row.status && ltb allocation minimum
    then record row { status = below_minimum }
    else record row { allocation_raw = allocation }

pub record PoolSummary : Type 0 where
  pub collateral_raw : ℕ
  pub excluded_raw : ℕ
  pub eligible_raw : ℕ
  pub scale_numerator : ℕ
  pub scale_denominator : ℕ
  pub claimable_raw : ℕ
  pub held_raw : ℕ
  pub below_minimum_raw : ℕ
  pub retained_raw : ℤ
  pub surplus_raw : ℕ
  pub shortfall_raw : ℕ
  pub unrecovered_debit_raw : ℕ
  pub claimable_accounts : ℕ
  pub held_accounts : ℕ

-- The sum of a column over the rows of a status.
abbrev pub sum_where : (Status → Bool) → (Row → ℕ) → List Row → ℕ
sum_where test column = sum_of (λ r. if test r.status then column r else 0)

-- The summary of a pool's rows after the shares are set.
unfoldable pub summary_of : ℕ → ℕ → ℕ × ℕ → List Row → PoolSummary
summary_of collateral eligible (numerator, denominator) rows =
    let claimed = sum_where is_claimable (λ r. r.allocation_raw) rows in
    let held = sum_where is_held (λ r. r.allocation_raw) rows in
    record {
      collateral_raw = collateral;
      excluded_raw = sum_where is_excluded (λ r. r.gross_raw) rows;
      eligible_raw = eligible;
      scale_numerator = numerator;
      scale_denominator = denominator;
      claimable_raw = claimed;
      held_raw = held;
      below_minimum_raw = sum_where is_below (λ r. r.gross_raw * numerator / denominator) rows;
      retained_raw = pos collateral -ℤ pos claimed -ℤ pos held;
      surplus_raw = collateral - eligible;
      shortfall_raw = eligible - collateral;
      unrecovered_debit_raw = sum_of (λ r. r.unrecovered_debit_raw) rows;
      claimable_accounts = length (keep (λ r. is_claimable r.status) rows);
      held_accounts = length (keep (λ r. is_held r.status) rows);
    }

-- The scaling, the shares and the summary of a pool's rows.
unfoldable pub share_out : ℕ → ℕ → List Row → PoolSummary × List Row
share_out collateral minimum rows =
    let eligible = eligible_of rows in
    let factor = scale collateral eligible in
    let shared = map (allocate minimum factor) rows in
    (summary_of collateral eligible factor shared, shared)

unfoldable pub build_pool : (Text → Option Text) → Pool → Result PoolError (PoolSummary × List Row)
build_pool address pool = do
  rows ← account_rows address pool (accounts_of pool)
  ok (share_out pool.collateral pool.minimum rows)

-- `(row["claim_chain"], row["payee"], row["claim_token"])`
abbrev pub ClaimKey : Type 0
ClaimKey = Text × (Text × Text)

abbrev pub claim_key : Row → ClaimKey
claim_key row = (row.claim_chain, (row.payee, row.claim_token))

abbrev pub amount_or_zero : Option ℕ → ℕ
amount_or_zero none = 0
amount_or_zero (some n) = n

-- The body of the loop of `main` over all allocations.
unfoldable pub add_claim : Dict ClaimKey ℕ → Row → Dict ClaimKey ℕ
add_claim claims row =
    let amount = amount_or_zero (lookup (claim_key row) claims) in
    if is_claimable row.status && not (row.allocation_raw == 0)
    then insert (claim_key row) (amount + row.allocation_raw) claims
    else claims

-- The loop of `main` that adds the claimable rows up by claim chain, payee and token.
unfoldable pub add_claims : Dict ClaimKey ℕ → List Row → Dict ClaimKey ℕ
add_claims claims [] = claims
add_claims claims (row ∷ rows) = add_claims (add_claim claims row) rows
