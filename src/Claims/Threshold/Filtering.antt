-- ===== src/Claims/Threshold/Filtering.antt =====
-- What the filter accepts, and what it writes.
use mathlib.Core.Path.{subst}
use harmony_migration.Base.{
  ℕ, ◌+◌, ◌≡◌, ◌↔◌, refl, ap, inl, inr, Bool-cases, Bool, false, Option, none, some, List, [], ◌∷◌,
  arith, sum_of, keep, length, All, ok, >>=-eq-ok, ok_injective, raise_if, raise_if-eq-ok,
  if◌then◌else◌, Text, leb, ltb, ◌==◌, not, true,
}
use harmony_migration.Base.Int.{pos, pos_part}
use harmony_migration.Base.Order.{text_lt}
use harmony_migration.Base.Literals.{lower}
use harmony_migration.Claims.Threshold.{
  Comparison, ge, gt, not_increasing, ClaimRow, Settings, Checked, check_row, is_included, Totals,
  no_totals, add_row, is_late, filter_rows, filter_claims,
}
use harmony_migration.Claims.Threshold.Checks.{
  AddsUp, not-false, check_row_sound, check_row_complete,
}

-- The amount that is held against the minimum.
abbrev pub qualification_of : Settings → ClaimRow → ℕ
qualification_of settings row =
    if settings.have_wone
    then pos_part row.qualification_total_atto
    else pos_part row.total_claim_atto

-- `ge` has the rows at the minimum, and `gt` has them not.
abbrev pub passes : Comparison → ℕ → ℕ → Bool
passes ge minimum amount = leb minimum amount
passes gt minimum amount = ltb minimum amount

abbrev pub qualifies : Settings → ClaimRow → Bool
qualifies settings row =
    passes settings.comparison settings.minimum_one (qualification_of settings row)

-- The WONE that a row is paid.
abbrev pub wone_of : Settings → ClaimRow → ℕ
wone_of settings row = if settings.have_wone then pos_part row.wone_airdrop_atto else 0

is_included-passes :
    (settings : Settings) (n : ℕ)
    → is_included settings n ≡ passes settings.comparison settings.minimum_one n
unfolding is_included
is_included-passes settings n = go settings.comparison
  where
    go :
        (c : Comparison)
        → elim c [ ge ↦ leb settings.minimum_one n | gt ↦ ltb settings.minimum_one n ]
          ≡ passes c settings.minimum_one n
    go ge = refl
    go gt = refl

AddsUp-qualification :
    (settings : Settings) (row : ClaimRow) (c : Checked)
    → AddsUp settings row c
    → c.qualification_value ≡ qualification_of settings row
AddsUp-qualification settings row c (e1, e2, e3, e4, without, overlay) =
    elim (Bool-cases settings.have_wone) [
      | inl have ↦ let (n, b, f1, f2, f3, f4, q, w, v) = overlay have in rw (have, f4) refl
      | inr have ↦ let z = without have in rw (have, e1) (z.1)
    ]

AddsUp-wone :
    (settings : Settings) (row : ClaimRow) (c : Checked)
    → AddsUp settings row c
    → c.wone_value ≡ wone_of settings row
AddsUp-wone settings row c (e1, e2, e3, e4, without, overlay) =
    elim (Bool-cases settings.have_wone) [
      | inl have ↦ let (n, b, f1, f2, f3, f4, q, w, v) = overlay have in rw (have, f3) refl
      | inr have ↦ let z = without have in rw have (z.0)
    ]

abbrev pub is_at_minimum : Settings → ClaimRow → Bool
is_at_minimum settings row = qualification_of settings row == settings.minimum_one

-- What the loop adds to the totals.
abbrev Adds : Settings → Totals → List ClaimRow → Totals × List ClaimRow → Type 0
Adds settings t rows (t', written) =
    (t'.input_rows ≡ t.input_rows + length rows)
    × (t'.output_rows ≡ t.output_rows + length written)
    × (t'.exact_threshold_rows
        ≡ t.exact_threshold_rows + length (keep (is_at_minimum settings) rows))
    × (t'.wone_airdrop ≡ t.wone_airdrop + sum_of (wone_of settings) written)
    × (t'.total_claim ≡ t.total_claim + sum_of (λ r. pos_part r.total_claim_atto) written)
    × (t'.wallet_airdrop ≡ t.wallet_airdrop + sum_of (λ r. pos_part r.wallet_airdrop_atto) written)
    × (t'.staked_to_vault
        ≡ t.staked_to_vault + sum_of (λ r. pos_part r.staked_to_vault_atto) written)
    × (t.wallet_airdrop + t.staked_to_vault ≡ t.total_claim
        → t'.wallet_airdrop + t'.staked_to_vault ≡ t'.total_claim)

add_row-Adds :
    (settings : Settings) (row : ClaimRow) (c : Checked) (t t' : Totals)
    (rows written : List ClaimRow)
    → row.total_claim_atto ≡ pos c.value
    → row.wallet_airdrop_atto ≡ pos c.wallet_value
    → row.staked_to_vault_atto ≡ pos c.vault_value
    → c.wallet_value + c.vault_value ≡ c.value
    → c.wone_value ≡ wone_of settings row
    → c.qualification_value ≡ qualification_of settings row
    → Adds settings (add_row settings c t) rows (t', written)
    → Adds settings t
        (row ∷ rows)
        (t', if is_included settings c.qualification_value then row ∷ written else written)
unfolding add_row
add_row-Adds settings row c t t' rows written e1 e2 e3 e4 e5 e6 h =
    let at_minimum : (c.qualification_value == settings.minimum_one) ≡ is_at_minimum settings row =
      ap (λ n. n == settings.minimum_one) e6 in
    let value : pos_part row.total_claim_atto ≡ c.value = ap pos_part e1 in
    let wallet : pos_part row.wallet_airdrop_atto ≡ c.wallet_value = ap pos_part e2 in
    let vault : pos_part row.staked_to_vault_atto ≡ c.vault_value = ap pos_part e3 in
    elim (Bool-cases (is_included settings c.qualification_value)) [
      | inl e ↦ rw e (ground arith)
      | inr e ↦ rw e (ground arith)
    ]

-- A key that comes after the one before it, if there is one.
abbrev pub Follows : Option Text → Text → Type 0
Follows none key = Unit
Follows (some previous) key = text_lt previous key ≡ true

is_late-Follows :
    (previous : Option Text) (key : Text) → is_late previous key ≡ false → Follows previous key
is_late-Follows none key h = tt
is_late-Follows (some previous) key h = not-false (text_lt previous key) h

Follows-is_late :
    (previous : Option Text) (key : Text) → Follows previous key → is_late previous key ≡ false
Follows-is_late none key h = refl
Follows-is_late (some previous) key h = ap not h

abbrev pub InOrder : Option Text → List ClaimRow → Type 0
InOrder previous [] = Unit
InOrder previous (row ∷ rows) =
    Follows previous (lower row.secure_key) × InOrder (some (lower row.secure_key)) rows

abbrev pub AllAddUp : Settings → List ClaimRow → Type 0
AllAddUp settings = All (λ row. (c : Checked) × AddsUp settings row c)

filter_rows_sound :
    (settings : Settings) (previous : Option Text) (t : Totals) (rows : List ClaimRow)
    (out : Totals × List ClaimRow)
    → filter_rows settings previous t rows ≡ ok out
    → (out.1 ≡ keep (qualifies settings) rows)
      × Adds settings t rows out
      × InOrder previous rows
      × AllAddUp settings rows
unfolding filter_rows
filter_rows_sound settings previous t [] out h =
    subst (λ x. (x.1 ≡ []) × Adds settings t [] x × Unit × Unit) (ok_injective h)
      ((refl, (omega arith), tt, tt))
filter_rows_sound settings previous t (row ∷ rows) out h =
    let key = lower row.secure_key in
    let (_, on_time, h1) = >>=-eq-ok (raise_if (is_late previous key) not_increasing) _ h in
    let (c, checked, h2) = >>=-eq-ok (check_row settings row) _ h1 in
    let ((totals, written), run, h3) =
      >>=-eq-ok (filter_rows settings (some key) (add_row settings c t) rows) _ h2 in
    let (kept, adds, ordered, sums) =
      filter_rows_sound settings (some key) (add_row settings c t) rows (totals, written) run in
    let adds_up = check_row_sound settings row checked in
    let (e1, e2, e3, e4, without, overlay) = adds_up in
    subst
      (λ x.
        (x.1 ≡ keep (qualifies settings) (row ∷ rows))
        × Adds settings t (row ∷ rows) x
        × InOrder previous (row ∷ rows)
        × AllAddUp settings (row ∷ rows))
      (ok_injective h3)
      ((
        rw
            (
              kept,
              AddsUp-qualification settings row c adds_up,
              is_included-passes settings (qualification_of settings row),
            )
            refl,
        add_row-Adds settings row c t totals rows written e1 e2 e3 e4
            (AddsUp-wone settings row c adds_up) (AddsUp-qualification settings row c adds_up) adds,
        (is_late-Follows previous key (raise_if-eq-ok _ not_increasing on_time), ordered),
        ((c, adds_up), sums),
      ))

filter_rows_complete :
    (settings : Settings) (previous : Option Text) (t : Totals) (rows : List ClaimRow)
    → InOrder previous rows
    → AllAddUp settings rows
    → (out : Totals × List ClaimRow) × (filter_rows settings previous t rows ≡ ok out)
unfolding filter_rows
filter_rows_complete settings previous t [] o a = (_, refl)
filter_rows_complete settings previous t (row ∷ rows) o ((c, adds_up), a) =
    let (out, run) =
      filter_rows_complete settings (some (lower row.secure_key)) (add_row settings c t) rows (o.1)
        a in
    let written = if is_included settings c.qualification_value then row ∷ (out.1) else (out.1) in
    (
      (out.0, written),
      simp
          (
            Follows-is_late previous (lower row.secure_key) o.0,
            check_row_complete settings row c adds_up,
            run,
          )
          refl,
    )

-- The rows that the filter writes are, in their order and unchanged, those whose amount is at least
-- the minimum, or more than it under `gt`, where the amount is the qualification total of the WONE
-- overlay if there is one and the total claim otherwise. The totals count the rows read, those
-- written and those at the minimum, and add up the total, wallet, vault and WONE columns of the
-- written rows, WONE being 0 without the overlay; the wallet and the vault part make up the total.
pub filter_claims_written :
    (settings : Settings) (rows : List ClaimRow) {t : Totals} {written : List ClaimRow}
    → filter_claims settings rows ≡ ok (t, written)
    → (written ≡ keep (qualifies settings) rows)
      × (t.input_rows ≡ length rows)
      × (t.output_rows ≡ length written)
      × (t.exact_threshold_rows ≡ length (keep (is_at_minimum settings) rows))
      × (t.wone_airdrop ≡ sum_of (wone_of settings) written)
      × (t.total_claim ≡ sum_of (λ r. pos_part r.total_claim_atto) written)
      × (t.wallet_airdrop ≡ sum_of (λ r. pos_part r.wallet_airdrop_atto) written)
      × (t.staked_to_vault ≡ sum_of (λ r. pos_part r.staked_to_vault_atto) written)
      × (t.wallet_airdrop + t.staked_to_vault ≡ t.total_claim)
unfolding filter_claims
filter_claims_written settings rows {t} {written} h =
    let (kept, (a, b, x, w, c, d, e, f), _, _) =
      filter_rows_sound settings none no_totals rows (t, written) h in
    (
      kept,
      omega arith,
      omega arith,
      omega arith,
      omega arith,
      omega arith,
      omega arith,
      omega arith,
      f refl,
    )

-- The filter succeeds exactly on the files whose keys are strictly increasing in lower case, and
-- whose every row adds up: its amounts are not negative, the wallet and the vault part make up the
-- total claim, and, with the WONE overlay, the qualification total is the native claim and the WONE
-- balance, the total claim is the native claim and the WONE paid, and the WONE paid is the whole
-- balance where the row reaches the minimum or its address is delivered in the aggregate, and
-- nothing elsewhere.
pub filter_claims_accepts :
    (settings : Settings) (rows : List ClaimRow)
    → ((out : Totals × List ClaimRow) × (filter_claims settings rows ≡ ok out))
      ↔ (InOrder none rows × AllAddUp settings rows)
unfolding filter_claims
filter_claims_accepts settings rows = (
  (λ (out, h). let (_, _, o, a) = filter_rows_sound settings none no_totals rows out h in (o, a)),
  (λ (o, a). filter_rows_complete settings none no_totals rows o a),
)
