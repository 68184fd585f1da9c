-- ===== src/Claims/Threshold.antt =====
-- toolkit/scripts/claims/filter-claims-by-one.py: the claims over a minimum, with the checks of
-- every row. The CSV reader is not modelled: a row has its columns as integers, and `have_wone`
-- says whether the file has the WONE overlay. `parse_one` and the exchange summary, which give the
-- minimum and the addresses of aggregate delivery, are not modelled.
use harmony_migration.Base.{
  ℕ, ◌+◌, Bool, true, false, not, ◌&&◌, ◌||◌, Option, none, some, List, [], ◌∷◌, if◌then◌else◌, ltb,
  leb, ◌==◌, any_of, Result, ok, err, ◌>>=◌, ◌>>◌, raise_if, Text,
}
use harmony_migration.Base.Int.{ℤ, pos, negsuc, eqb_ℤ}
use harmony_migration.Base.Order.{text_lt, text_eq}
use harmony_migration.Base.Literals.{lower, strip}
pub mod Checks
pub mod Filtering

pub data Comparison : Type 0 where
  ge gt : Comparison

pub data FilterError : Type 0 where
  not_increasing negative_total component_mismatch negative_wone qualification_mismatch
        wone_mismatch :
      FilterError

pub record ClaimRow : Type 0 where
  pub secure_key : Text
  pub address : Text
  pub total_claim_atto : ℤ
  pub wallet_airdrop_atto : ℤ
  pub staked_to_vault_atto : ℤ
  pub native_total_claim_atto : ℤ
  pub wone_balance_atto : ℤ
  pub wone_airdrop_atto : ℤ
  pub qualification_total_atto : ℤ

-- `args.minimum_one`, `args.comparison`, `have_wone` and `aggregate_delivery`
pub record Settings : Type 0 where
  pub minimum_one : ℕ
  pub comparison : Comparison
  pub have_wone : Bool
  pub aggregate_delivery : List Text

-- A value that an `if value < 0: raise` let pass.
abbrev pub non_negative : FilterError → ℤ → Result FilterError ℕ
non_negative e (pos n) = ok n
non_negative e (negsuc n) = err e

-- The values of a row after its checks.
pub record Checked : Type 0 where
  pub value : ℕ
  pub wallet_value : ℕ
  pub vault_value : ℕ
  pub wone_value : ℕ
  pub qualification_value : ℕ

-- `address in aggregate_delivery`
abbrev pub is_aggregate : Settings → ClaimRow → Bool
is_aggregate settings row = any_of (text_eq (lower (strip row.address))) settings.aggregate_delivery

unfoldable pub expected_wone : Settings → ClaimRow → ℕ → ℕ → ℕ
expected_wone settings row qualification_value wone_balance =
    if leb settings.minimum_one qualification_value || is_aggregate settings row
    then wone_balance
    else 0

-- The checks of the overlay: the row's `wone_value` and `qualification_value`.
unfoldable pub check_wone : Settings → ClaimRow → ℕ → Result FilterError (ℕ × ℕ)
check_wone settings row value =
    if settings.have_wone
    then (do
      native_value ← non_negative negative_wone row.native_total_claim_atto
      wone_balance ← non_negative negative_wone row.wone_balance_atto
      wone_value ← non_negative negative_wone row.wone_airdrop_atto
      let qualification_value = native_value + wone_balance
      raise_if (not (eqb_ℤ row.qualification_total_atto (pos qualification_value)))
          qualification_mismatch
      raise_if
          (not (wone_value == expected_wone settings row qualification_value wone_balance)
            || not (value == native_value + wone_value))
          wone_mismatch
      ok (wone_value, qualification_value))
    else ok (0, value)

unfoldable pub check_row : Settings → ClaimRow → Result FilterError Checked
check_row settings row = do
  value ← non_negative negative_total row.total_claim_atto
  wallet_value ← non_negative component_mismatch row.wallet_airdrop_atto
  vault_value ← non_negative component_mismatch row.staked_to_vault_atto
  raise_if (not (wallet_value + vault_value == value)) component_mismatch
  (wone_value, qualification_value) ← check_wone settings row value
  ok (record {
    value = value;
    wallet_value = wallet_value;
    vault_value = vault_value;
    wone_value = wone_value;
    qualification_value = qualification_value;
  })

unfoldable pub is_included : Settings → ℕ → Bool
is_included settings qualification_value = elim settings.comparison [
  | ge ↦ leb settings.minimum_one qualification_value
  | gt ↦ ltb settings.minimum_one qualification_value
]

pub record Totals : Type 0 where
  pub input_rows : ℕ
  pub output_rows : ℕ
  pub exact_threshold_rows : ℕ
  pub total_claim : ℕ
  pub wallet_airdrop : ℕ
  pub staked_to_vault : ℕ
  pub wone_airdrop : ℕ

abbrev pub no_totals : Totals
no_totals = record {
  input_rows = 0;
  output_rows = 0;
  exact_threshold_rows = 0;
  total_claim = 0;
  wallet_airdrop = 0;
  staked_to_vault = 0;
  wone_airdrop = 0;
}

-- The counts of a row.
unfoldable pub add_row : Settings → Checked → Totals → Totals
add_row settings c t =
    let include = is_included settings c.qualification_value in
    let add : ℕ → ℕ = λ n. if include then n else 0 in
    record {
      input_rows = t.input_rows + 1;
      output_rows = t.output_rows + add 1;
      exact_threshold_rows =
          t.exact_threshold_rows + (if c.qualification_value == settings.minimum_one then 1 else 0);
      total_claim = t.total_claim + add c.value;
      wallet_airdrop = t.wallet_airdrop + add c.wallet_value;
      staked_to_vault = t.staked_to_vault + add c.vault_value;
      wone_airdrop = t.wone_airdrop + add c.wone_value;
    }

-- `previous_key is not None and key <= previous_key`
abbrev pub is_late : Option Text → Text → Bool
is_late none key = false
is_late (some previous) key = not (text_lt previous key)

-- The loop over the rows: the totals, and the rows written.
unfoldable pub filter_rows :
    Settings → Option Text → Totals → List ClaimRow → Result FilterError (Totals × List ClaimRow)
filter_rows settings previous t [] = ok (t, [])
filter_rows settings previous t (row ∷ rows) = do
  let key = lower row.secure_key
  raise_if (is_late previous key) not_increasing
  c ← check_row settings row
  (totals, written) ← filter_rows settings (some key) (add_row settings c t) rows
  ok (totals, (if is_included settings c.qualification_value then row ∷ written else written))

unfoldable pub filter_claims :
    Settings → List ClaimRow → Result FilterError (Totals × List ClaimRow)
filter_claims settings rows = filter_rows settings none no_totals rows
