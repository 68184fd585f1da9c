-- ===== src/Routing/Tests.antt =====
-- Runs of the routing, and its theorems at concrete inputs.
use harmony_migration.Base.{
  ℕ, ◌+◌, ◌≡◌, ◌⊎◌, refl, none, some, List, [], ◌∷◌, map, arith, sum_of, ok, err, Result, Text,
}
use harmony_migration.Base.Literals.{codes}
use harmony_migration.Base.Order.{text_ordered}
use harmony_migration.Base.Keys.{nat_ordered, int_ordered, pair_ordered}
use harmony_migration.Base.Sorting.{sort_by}
use harmony_migration.Base.Int.{ℤ, pos, negsuc, ◌-ℤ◌}
use harmony_migration.Routing.ProRata.{Position, pro_rata, bump, quota}
use harmony_migration.Routing.ProRata.Totality.{total_remaining, pro_rata_total}
use harmony_migration.Routing.Destinations.{
  Status, ready, hold, not_issuing, Destination, RouteRow, IsBacked, resolve_destination,
  resolved-IsBacked,
}
use harmony_migration.Routing.Compile.{
  Route, Claim, CompileError, Progress, Amount, wallet_first_pro_rata_vault, compile_claim,
  take_routes, take_route, lift_rate, rate_amount, append_wallet, append_shares, asked, split,
  route_stage, route_treatment, default_route,
}
use harmony_migration.Routing.Compile.Conservation.{
  wallet_total, share_total, start, IsClosed, compile_claim_conserves,
}

abbrev position : Text → ℕ → Position
position v n = record { validator_secure_key = v; remaining = n }

-- Ten units over 1, 2 and 3: the two units over go to the largest remainders.
abbrev three : List Position
three = position (codes "b") 1 ∷ position (codes "a") 2 ∷ position (codes "c") 3 ∷ []

pro_rata_runs :
    pro_rata 4 three
    ≡ ok (
      position (codes "b") 0 ∷ position (codes "a") 1 ∷ position (codes "c") 1 ∷ [],
      (position (codes "b") 0, 1) ∷ (position (codes "a") 1, 1) ∷ (position (codes "c") 1, 2) ∷ [],
    )
unfolding pro_rata sort_by bump quota ◌-ℤ◌
pro_rata_runs = refl

pro_rata_total_example :
    (left : List Position) × (taken : List (Position × ℕ)) × (pro_rata 4 three ≡ ok (left, taken))
    × (sum_of (λ (p, share). share) taken ≡ 4)
    × (total_remaining left + 4 ≡ 6)
pro_rata_total_example = pro_rata_total 4 three (omega arith)

abbrev named : RouteRow
named = record {
  destination_address = [];
  destination_id = codes "x";
  explicit_status = some not_issuing;
}

abbrev listed : List (Text × Destination)
listed = (codes "x", record { address = []; status = not_issuing }) ∷ []

resolved-IsBacked_example :
    ((not_issuing ≡ hold) ⊎ IsBacked some named listed (codes "x", [], not_issuing))
    × (some not_issuing ≡ some hold → not_issuing ≡ hold)
    × ((e : Status)
        → some not_issuing ≡ some e
        → (not_issuing ≡ hold) ⊎ (not_issuing ≡ e) ⊎ (e ≡ ready))
unfolding resolve_destination
resolved-IsBacked_example = resolved-IsBacked some named listed (codes "x") [] not_issuing refl

abbrev route : Route
route = record {
  route_id = codes "r1";
  priority = 1;
  amount = Amount.fixed 6;
  method = wallet_first_pro_rata_vault;
  destination_id = codes "x";
  destination_address = [];
  destination_status = not_issuing;
  exception_type = codes "explicit_route";
  reason = [];
  evidence = [];
}

abbrev claim : Claim
claim = record {
  key = codes "0x01";
  address = codes "0x02";
  category = codes "automatic";
  routing_category = codes "eoa";
  migration_stage = codes "initial";
  wallet = 5;
  liquid_shard0 = none;
}

abbrev same_text : Text → Text
same_text t = t

-- What the claim compiles to.
outcome : Progress
outcome = elim (compile_claim same_text [] claim (route ∷ []) (start claim three)) [
  | ok s ↦ s
  | err e ↦ start claim three
]

compile_claim_runs : compile_claim same_text [] claim (route ∷ []) (start claim three) ≡ ok outcome
unfolding outcome compile_claim take_routes take_route lift_rate rate_amount append_wallet
    append_shares asked split route_stage route_treatment default_route pro_rata sort_by bump quota
    ◌-ℤ◌
compile_claim_runs = refl

-- The wallet's five units and one vault unit are not issued; five vault units are delivered.
outcome_rows :
    (wallet_total outcome.wallet_rows ≡ 5)
    × (share_total outcome.share_rows ≡ 6)
    × (map (λ r. r.staked_to_vault_atto) outcome.share_rows ≡ 1 ∷ 1 ∷ 2 ∷ 2 ∷ [])
unfolding outcome compile_claim take_routes take_route lift_rate rate_amount append_wallet
    append_shares asked split route_stage route_treatment default_route pro_rata sort_by bump quota
    ◌-ℤ◌
outcome_rows = (refl, refl, refl)

compile_claim_conserves_example : IsClosed claim three outcome
compile_claim_conserves_example =
    compile_claim_conserves same_text [] claim (route ∷ []) three outcome compile_claim_runs

-- A liquid balance of -5, which nothing refuses: a row of -5, and 10 by the default route, for a
-- wallet of 5.
abbrev negative_claim : Claim
negative_claim = record claim { liquid_shard0 = some (negsuc 4) }

abbrev liquid_route : Route
liquid_route = record route { amount = Amount.shard0_liquid }

abbrev wallet_amounts : Result CompileError Progress → List ℤ
wallet_amounts (ok s) = map (λ r. r.wallet_airdrop_atto) s.wallet_rows
wallet_amounts (err e) = []

negative_row :
    wallet_amounts
      (compile_claim same_text [] negative_claim (liquid_route ∷ []) (start negative_claim three))
    ≡ negsuc 4 ∷ pos 10 ∷ []
unfolding compile_claim take_routes take_route lift_rate rate_amount append_wallet append_shares
    asked split route_stage route_treatment default_route pro_rata sort_by bump quota ◌-ℤ◌
negative_row = refl
