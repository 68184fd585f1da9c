-- ===== src/Routing/Compile.antt =====
-- The per-claim part of `main` of toolkit/scripts/routing/apply-routes.py: a claim's routes are
-- compiled in order into wallet rows and vault-share rows, and what no route took goes to the
-- default route. The columns that rows copy through unread (addresses, categories) are left out.
-- `load_claims` and `load_routes` check that the wallet amount, the positions and the amounts of
-- routes are not negative; `liquid_shard0_atto` is read without such a test, and is an integer here.
pub mod Conservation
use mathlib.Core.Option
use harmony_migration.Base.{
  ℕ, suc, ◌+◌, ◌-◌, Bool, true, false, not, Option, none, some, List, [], ◌∷◌, ◌++◌, map,
  if◌then◌else◌, drop, sum_of, Result, ok, err, ◌>>=◌, ◌>>◌, raise_if, Text,
}
use Prim.Native.Nat.{min}
use harmony_migration.Base.Int.{ℤ, pos, negsuc, ltb_ℤ, eqb_ℤ, ◌-ℤ◌}
use harmony_migration.Base.Order.{text_eq}
use harmony_migration.Base.Literals.{codes}
use harmony_migration.Routing.ProRata.{Position, RateError, exceeds_vault_position, pro_rata}
use harmony_migration.Routing.Destinations.{
  Status, ready, hold, not_issuing, redistributed, exchange_manual,
}

pub data Amount : Type 0 where
  all_left shard0_liquid : Amount
  fixed : ℕ → Amount

pub data Method : Type 0 where
  wallet_first_pro_rata_vault wallet_only vault_only_pro_rata : Method

pub data Treatment : Type 0 where
  issue not_issued redistributed_treatment manual_from_reserve : Treatment

abbrev pub exchange_route_reason : Text
exchange_route_reason = codes "exchange_manual_reserve_delivery"

abbrev pub exchange_stage : Text
exchange_stage = codes "exchange_manual"

pub record Route : Type 0 where
  pub route_id : Text
  pub priority : ℕ
  pub amount : Amount
  pub method : Method
  pub destination_id : Text
  pub destination_address : Text
  pub destination_status : Status
  pub exception_type : Text
  pub reason : Text
  pub evidence : Text

pub record Claim : Type 0 where
  pub key : Text
  pub address : Text
  pub category : Text
  pub routing_category : Text
  pub migration_stage : Text
  pub wallet : ℕ
  pub liquid_shard0 : Option ℤ

-- A route with its stage and treatment, as the rows carry them.
pub record Compiled : Type 0 where
  pub route : Route
  pub stage : Text
  pub treatment : Treatment

pub record WalletRow : Type 0 where
  pub source_secure_key : Text
  pub wallet_airdrop_atto : ℤ
  pub by : Compiled

pub record ShareRow : Type 0 where
  pub validator_secure_key : Text
  pub staked_to_vault_atto : ℕ
  pub by : Compiled

pub data CompileError : Type 0 where
  non_exchange_status needs_exchange_route requires_liquid exceeds_remaining compiles_to_zero
        exceeds_wallet :
      CompileError
  rate : RateError → CompileError

unfoldable pub route_stage : Claim → Route → Text
route_stage claim route =
    if text_eq route.reason exchange_route_reason then exchange_stage else claim.migration_stage

-- `{EXCHANGE_MANUAL_STATUS, "hold"}`
abbrev is_exchange_or_hold : Status → Bool
is_exchange_or_hold exchange_manual = true
is_exchange_or_hold hold = true
is_exchange_or_hold _ = false

-- The tests of the status of a route that is not an exchange route.
abbrev treatment_of : Status → Result CompileError Treatment
treatment_of exchange_manual = err needs_exchange_route
treatment_of not_issuing = ok not_issued
treatment_of redistributed = ok redistributed_treatment
treatment_of _ = ok issue

unfoldable pub route_treatment : Route → Result CompileError Treatment
route_treatment route =
    if text_eq route.reason exchange_route_reason
    then (if is_exchange_or_hold route.destination_status
        then ok manual_from_reserve
        else err non_exchange_status)
    else treatment_of route.destination_status

unfoldable pub append_wallet : List WalletRow → Claim → ℤ → Compiled → List WalletRow
append_wallet rows claim amount c =
    if eqb_ℤ amount (pos 0)
    then rows
    else rows ++ record { source_secure_key = claim.key; wallet_airdrop_atto = amount; by = c } ∷ []

unfoldable pub append_shares : List ShareRow → List (Position × ℕ) → Compiled → List ShareRow
append_shares rows taken c =
    rows
    ++ map
        (λ (p, share). record {
          validator_secure_key = p.validator_secure_key;
          staked_to_vault_atto = share;
          by = c;
        })
        taken

-- The variables of the loop over one claim's routes.
pub record Progress : Type 0 where
  pub wallet_remaining : ℕ
  pub positions : List Position
  pub wallet_rows : List WalletRow
  pub share_rows : List ShareRow

unfoldable pub lift_rate {ℓ} : {A : Type ℓ} → Result RateError A → Result CompileError A
lift_rate (ok a) = ok a
lift_rate (err e) = err (rate e)

-- The amount that a route asks for.
unfoldable pub asked : Claim → ℕ → Amount → Result CompileError ℤ
asked claim remaining_total all_left = ok (pos remaining_total)
asked claim remaining_total shard0_liquid = elim claim.liquid_shard0 [
  | none ↦ err requires_liquid
  | some a ↦ ok a
]
asked claim remaining_total (fixed a) = ok (pos a)

-- `min` of a number and an integer
abbrev pub least : ℕ → ℤ → ℤ
least n (pos a) = pos (min n a)
least n (negsuc a) = negsuc a

-- The wallet's and the vaults' part of an amount.
unfoldable pub split : Method → ℕ → ℤ → Result CompileError (ℤ × ℤ)
split wallet_first_pro_rata_vault wallet_remaining amount =
    let wallet_amount = least wallet_remaining amount in ok (wallet_amount, amount -ℤ wallet_amount)
split wallet_only wallet_remaining amount =
    if ltb_ℤ (pos wallet_remaining) amount then err exceeds_wallet else ok (amount, pos 0)
split vault_only_pro_rata wallet_remaining amount = ok (pos 0, amount)

-- `wallet_remaining - wallet_amount`, of an amount of at most what remains. A negative amount makes
-- what remains larger.
abbrev pub left_after : ℕ → ℤ → ℕ
left_after wallet_remaining (pos a) = wallet_remaining - a
left_after wallet_remaining (negsuc a) = wallet_remaining + suc a

-- `pro_rata` of an integer: it raises on a negative amount as on one that is too large.
unfoldable pub rate_amount :
    ℤ → List Position → Result CompileError (List Position × List (Position × ℕ))
rate_amount (pos a) positions = lift_rate (pro_rata a positions)
rate_amount (negsuc a) positions = err (rate exceeds_vault_position)

-- The body of the loop.
unfoldable pub take_route : Claim → Route → Progress → Result CompileError Progress
take_route claim route s = do
  treatment ← route_treatment route
  let c : Compiled = record {
    route = route;
    stage = route_stage claim route;
    treatment = treatment;
  }
  let remaining_total = s.wallet_remaining + sum_of (λ p. p.remaining) s.positions
  amount ← asked claim remaining_total route.amount
  raise_if (ltb_ℤ (pos remaining_total) amount) exceeds_remaining
  raise_if (eqb_ℤ amount (pos 0)) compiles_to_zero
  (wallet_amount, vault_amount) ← split route.method s.wallet_remaining amount
  (left, taken) ← rate_amount vault_amount s.positions
  ok (record {
    wallet_remaining = left_after s.wallet_remaining wallet_amount;
    positions = left;
    wallet_rows = append_wallet s.wallet_rows claim wallet_amount c;
    share_rows = append_shares s.share_rows taken c;
  })

unfoldable pub take_routes : Claim → List Route → Progress → Result CompileError Progress
take_routes claim [] s = ok s
take_routes claim (route ∷ routes) s = take_route claim route s >>= take_routes claim routes

-- `automatic` and `validator`
abbrev pub is_automatic : Claim → Bool
is_automatic claim = text_eq claim.category (codes "automatic")

abbrev pub is_validator : Claim → Bool
is_validator claim = text_eq claim.routing_category (codes "validator_account")

-- `default_route`: same-address delivery for an automatic claim, a hold for any other.
-- `validator_accounts` is the argument of that name, a path.
unfoldable pub default_route : (Text → Text) → Text → Claim → Compiled
default_route to_checksum validator_accounts claim = record {
  route = record {
    route_id = codes "default-" ++ drop 2 claim.key;
    priority = 1000000;
    amount = all_left;
    method = wallet_first_pro_rata_vault;
    destination_id = [];
    destination_address = if is_automatic claim then to_checksum claim.address else [];
    destination_status = if is_automatic claim then ready else hold;
    exception_type =
        if is_validator claim
        then codes "validator_wrapper_same_address"
        else if is_automatic claim
        then []
        else claim.category ++ codes "_hold";
    evidence = if is_validator claim then validator_accounts else [];
    reason =
        if is_validator claim
        then codes "verified validator wrapper same-address"
        else if is_automatic claim
        then codes "implicit code-less EOA same-address"
        else claim.category;
  };
  stage = claim.migration_stage;
  treatment = issue;
}

-- The routes, and then the rest by the default route.
unfoldable pub compile_claim :
    (Text → Text) → Text → Claim → List Route → Progress → Result CompileError Progress
compile_claim to_checksum validator_accounts claim routes start = do
  s ← take_routes claim routes start
  let c = default_route to_checksum validator_accounts claim
  (left, taken) ← lift_rate (pro_rata (sum_of (λ p. p.remaining) s.positions) s.positions)
  ok (record {
    wallet_remaining = s.wallet_remaining;
    positions = left;
    wallet_rows = append_wallet s.wallet_rows claim (pos s.wallet_remaining) c;
    share_rows = append_shares s.share_rows taken c;
  })
