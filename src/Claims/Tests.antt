-- ===== src/Claims/Tests.antt =====
-- Runs of the claim filter.
use harmony_migration.Base.{
  ℕ, ◌+◌, ◌≡◌, ◌++◌, ◌↔◌, refl, true, none, List, [], ◌∷◌, ok, sum_of, keep, length, Text,
}
use harmony_migration.Base.Int.{pos, pos_part}
use harmony_migration.Base.Literals.{codes}
use harmony_migration.Claims.Threshold.{
  Settings, ClaimRow, Totals, ge, check_wone, check_row, expected_wone, is_included, add_row,
  filter_rows, filter_claims,
}
use harmony_migration.Claims.Threshold.Filtering.{
  filter_claims_written, filter_claims_accepts, qualifies, is_at_minimum, wone_of, InOrder,
  AllAddUp,
}

abbrev over_ten : Settings
over_ten = record {
  minimum_one = 10;
  comparison = ge;
  have_wone = true;
  aggregate_delivery = codes "0xb" ∷ [];
}

abbrev claim_row : Text → ℕ → ℕ → ℕ → ClaimRow
claim_row key native balance wone = record {
  secure_key = key;
  address = codes "0x" ++ key;
  total_claim_atto = pos (native + wone);
  wallet_airdrop_atto = pos wone;
  staked_to_vault_atto = pos native;
  native_total_claim_atto = pos native;
  wone_balance_atto = pos balance;
  wone_airdrop_atto = pos wone;
  qualification_total_atto = pos (native + balance);
}

-- Below the minimum, `b` is paid its WONE because it is delivered in the aggregate.
abbrev claim_rows : List ClaimRow
claim_rows =
    claim_row (codes "A") 8 2 2 ∷ claim_row (codes "b") 1 4 4 ∷ claim_row (codes "c") 1 4 0 ∷ []

abbrev claim_totals : Totals
claim_totals = record {
  input_rows = 3;
  output_rows = 1;
  exact_threshold_rows = 1;
  total_claim = 10;
  wallet_airdrop = 2;
  staked_to_vault = 8;
  wone_airdrop = 2;
}

abbrev written_rows : List ClaimRow
written_rows = claim_row (codes "A") 8 2 2 ∷ []

filter_claims_runs : filter_claims over_ten claim_rows ≡ ok (claim_totals, written_rows)
unfolding filter_claims filter_rows check_row check_wone expected_wone is_included add_row
filter_claims_runs = refl

filter_claims_written_example :
    (written_rows ≡ keep (qualifies over_ten) claim_rows)
    × (3 ≡ length claim_rows)
    × (1 ≡ length written_rows)
    × (1 ≡ length (keep (is_at_minimum over_ten) claim_rows))
    × (2 ≡ sum_of (wone_of over_ten) written_rows)
    × (10 ≡ sum_of (λ r. pos_part r.total_claim_atto) written_rows)
    × (2 ≡ sum_of (λ r. pos_part r.wallet_airdrop_atto) written_rows)
    × (8 ≡ sum_of (λ r. pos_part r.staked_to_vault_atto) written_rows)
    × (2 + 8 ≡ 10)
filter_claims_written_example = filter_claims_written over_ten claim_rows filter_claims_runs

filter_claims_accepts_example :
    ((out : Totals × List ClaimRow) × (filter_claims over_ten claim_rows ≡ ok out))
    ↔ (InOrder none claim_rows × AllAddUp over_ten claim_rows)
filter_claims_accepts_example = filter_claims_accepts over_ten claim_rows
