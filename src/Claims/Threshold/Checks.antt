-- ===== src/Claims/Threshold/Checks.antt =====
-- The checks of one row: what they accept, and the values they give.
use mathlib.Core.Path.{subst}
use harmony_migration.Base.{
  ℕ, ◌+◌, ◌≡◌, refl, sym, ap, ◌∙◌, inl, inr, Bool-cases, Bool, true, false, not, ◌||◌, ok,
  >>=-eq-ok, ok_injective, raise_if, raise_if-eq-ok, ◌==◌, ◌≤◌, ◌<◌, ◌⊎◌, leb, any_of, arith,
  if◌then◌else◌,
}
use harmony_migration.Base.Int.{ℤ, pos, negsuc, eqb_ℤ}
use harmony_migration.Base.Order.{text_eq}
use harmony_migration.Base.Literals.{lower, strip}
use harmony_migration.Base.Keys.{int_eq_sound, int_eq_refl, nat_eq_sound, nat_eq_refl}
use harmony_migration.Claims.Threshold.{
  FilterError, negative_total, component_mismatch, negative_wone, qualification_mismatch,
  is_aggregate, wone_mismatch, ClaimRow, Settings, non_negative, Checked, expected_wone, check_wone,
  check_row,
}

leb_of_le : (a b : ℕ) → a ≤ b → leb a b ≡ true
leb_of_le a b h = ground arith

leb_of_lt : (a b : ℕ) → b < a → leb a b ≡ false
leb_of_lt a b h = ground arith

leb_cases : (a b : ℕ) → ((leb a b ≡ true) × (a ≤ b)) ⊎ ((leb a b ≡ false) × (b < a))
leb_cases a b = ground arith

or_of_right : (a b : Bool) → b ≡ true → (a || b) ≡ true
or_of_right true b h = refl
or_of_right false b h = h

-- The WONE that a row with this qualification total and WONE balance is paid: the whole balance if
-- the total reaches the minimum or the address is among those of the aggregate, and else nothing.
abbrev pub IsPaid : Settings → ClaimRow → ℕ → ℕ → ℕ → Type 0
IsPaid settings row qualification balance wone =
    (((settings.minimum_one ≤ qualification)
        ⊎ (any_of (text_eq (lower (strip row.address))) settings.aggregate_delivery ≡ true))
      × (wone ≡ balance))
    ⊎ ((qualification < settings.minimum_one)
        × (any_of (text_eq (lower (strip row.address))) settings.aggregate_delivery ≡ false)
        × (wone ≡ 0))

expected_wone-IsPaid :
    (settings : Settings) (row : ClaimRow) (qualification balance : ℕ)
    → IsPaid settings row qualification balance (expected_wone settings row qualification balance)
unfolding expected_wone
expected_wone-IsPaid settings row q b = elim (leb_cases settings.minimum_one q) [
  | inl (e, le) ↦ rw e (inl (inl le, refl))
  | inr (e, lt) ↦ elim (Bool-cases (is_aggregate settings row)) [
    | inl a ↦ rw (e, a) (inl (inr refl, refl))
    | inr a ↦ rw (e, a) (inr (lt, refl, refl))
  ]
]

IsPaid-expected_wone :
    (settings : Settings) (row : ClaimRow) (qualification balance wone : ℕ)
    → IsPaid settings row qualification balance wone
    → wone ≡ expected_wone settings row qualification balance
unfolding expected_wone
IsPaid-expected_wone settings row q b w (inl (inl le, e)) =
    rw (leb_of_le settings.minimum_one q le) e
IsPaid-expected_wone settings row q b w (inl (inr a, e)) =
    e ∙ sym (ap (λ t. if t then b else 0) (or_of_right (leb settings.minimum_one q) _ a))
IsPaid-expected_wone settings row q b w (inr (lt, a, e)) =
    rw (leb_of_lt settings.minimum_one q lt, a) e

-- The overlay of a row, for a claim of `value`.
abbrev pub HasOverlay : Settings → ClaimRow → ℕ → ℕ → ℕ → Type 0
HasOverlay settings row value wone qualification =
    (native : ℕ) × (balance : ℕ) × (row.native_total_claim_atto ≡ pos native)
    × (row.wone_balance_atto ≡ pos balance)
    × (row.wone_airdrop_atto ≡ pos wone)
    × (row.qualification_total_atto ≡ pos qualification)
    × (qualification ≡ native + balance)
    × IsPaid settings row qualification balance wone
    × (value ≡ native + wone)

-- A row whose parts add up, with the values read from it.
abbrev pub AddsUp : Settings → ClaimRow → Checked → Type 0
AddsUp settings row c =
    (row.total_claim_atto ≡ pos c.value)
    × (row.wallet_airdrop_atto ≡ pos c.wallet_value)
    × (row.staked_to_vault_atto ≡ pos c.vault_value)
    × (c.wallet_value + c.vault_value ≡ c.value)
    × (settings.have_wone ≡ false → (c.wone_value ≡ 0) × (c.qualification_value ≡ c.value))
    × (settings.have_wone ≡ true
        → HasOverlay settings row c.value c.wone_value c.qualification_value)

non_negative-eq-ok : (e : FilterError) (z : ℤ) {n : ℕ} → non_negative e z ≡ ok n → z ≡ pos n
non_negative-eq-ok e (pos n) h = ap pos (ok_injective h)
non_negative-eq-ok e (negsuc n) h = cc

pub not-false : (b : Bool) → not b ≡ false → b ≡ true
not-false true h = refl
not-false false h = cc

neither : (a b : Bool) → (not a || not b) ≡ false → (a ≡ true) × (b ≡ true)
neither true true h = (refl, refl)
neither true false h = cc
neither false b h = cc

check_wone_overlay :
    (settings : Settings) (row : ClaimRow) (value wone qualification : ℕ)
    → settings.have_wone ≡ true
    → check_wone settings row value ≡ ok (wone, qualification)
    → HasOverlay settings row value wone qualification
unfolding check_wone expected_wone
check_wone_overlay settings row value wone qualification have h =
    let (native, e1, h1) =
      >>=-eq-ok (non_negative negative_wone row.native_total_claim_atto) _ (rw have at h) in
    let (balance, e2, h2) = >>=-eq-ok (non_negative negative_wone row.wone_balance_atto) _ h1 in
    let (wone_value, e3, h3) = >>=-eq-ok (non_negative negative_wone row.wone_airdrop_atto) _ h2 in
    let (_, e4, h4) =
      >>=-eq-ok
        (raise_if (not (eqb_ℤ row.qualification_total_atto (pos (native + balance))))
          qualification_mismatch)
        _ h3 in
    let (_, e5, h5) =
      >>=-eq-ok
        (raise_if
          (not (wone_value == expected_wone settings row (native + balance) balance)
            || not (value == native + wone_value))
          wone_mismatch)
        _ h4 in
    let q = int_eq_sound _ _ (not-false _ (raise_if-eq-ok _ qualification_mismatch e4)) in
    let (w, v) = neither _ _ (raise_if-eq-ok _ wone_mismatch e5) in
    subst (λ x. HasOverlay settings row value (x.0) (x.1)) (ok_injective h5)
      ((
        native,
        balance,
        non_negative-eq-ok _ _ e1,
        non_negative-eq-ok _ _ e2,
        non_negative-eq-ok _ _ e3,
        q,
        refl,
        subst (IsPaid settings row (native + balance) balance) (sym (nat_eq_sound _ _ w))
            (expected_wone-IsPaid settings row (native + balance) balance),
        nat_eq_sound _ _ v,
      ))

check_wone_native :
    (settings : Settings) (row : ClaimRow) (value : ℕ)
    → settings.have_wone ≡ false
    → check_wone settings row value ≡ ok (0, value)
unfolding check_wone
check_wone_native settings row value have = rw have refl

pub check_row_sound :
    (settings : Settings) (row : ClaimRow) {c : Checked}
    → check_row settings row ≡ ok c
    → AddsUp settings row c
unfolding check_row
check_row_sound settings row h =
    let (value, e1, h1) = >>=-eq-ok (non_negative negative_total row.total_claim_atto) _ h in
    let (wallet, e2, h2) =
      >>=-eq-ok (non_negative component_mismatch row.wallet_airdrop_atto) _ h1 in
    let (vault, e3, h3) =
      >>=-eq-ok (non_negative component_mismatch row.staked_to_vault_atto) _ h2 in
    let (_, e4, h4) =
      >>=-eq-ok (raise_if (not (wallet + vault == value)) component_mismatch) _ h3 in
    let ((wone, qualification), e5, h5) = >>=-eq-ok (check_wone settings row value) _ h4 in
    let sum = nat_eq_sound _ _ (not-false _ (raise_if-eq-ok _ component_mismatch e4)) in
    subst (AddsUp settings row) (ok_injective h5) (
      (
        non_negative-eq-ok _ _ e1,
        non_negative-eq-ok _ _ e2,
        non_negative-eq-ok _ _ e3,
        sum,
        (λ have.
            let e = ok_injective (sym e5 ∙ check_wone_native settings row value have) in
            (ap (λ x. x.0) e, ap (λ x. x.1) e)),
        (λ have. check_wone_overlay settings row value wone qualification have e5),
      ))

check_wone_complete :
    (settings : Settings) (row : ClaimRow) (value wone qualification : ℕ)
    → settings.have_wone ≡ true
    → HasOverlay settings row value wone qualification
    → check_wone settings row value ≡ ok (wone, qualification)
unfolding check_wone expected_wone
check_wone_complete settings row value wone qualification have (n, b, e1, e2, e3, e4, q, p, v) =
    let w = IsPaid-expected_wone settings row qualification b wone p in
    rw
      (
        have,
        e1,
        e2,
        e3,
        e4,
        q,
        int_eq_refl (pos (n + b)),
        ← v,
        ← q,
        ← w,
        nat_eq_refl wone,
        nat_eq_refl value,
      )
      refl

pub check_row_complete :
    (settings : Settings) (row : ClaimRow) (c : Checked)
    → AddsUp settings row c
    → check_row settings row ≡ ok c
unfolding check_row
check_row_complete settings row c (e1, e2, e3, e4, without, overlay) =
    let checked : check_wone settings row c.value ≡ ok (c.wone_value, c.qualification_value) =
      elim (Bool-cases settings.have_wone) [
        | inl have ↦ check_wone_complete settings row _ _ _ have (overlay have)
        | inr have ↦
            let z = without have in
            check_wone_native settings row c.value have ∙ ap ok (λ i. (sym (z.0) i, sym (z.1) i))
      ] in
    simp (e1, e2, e3, e4, nat_eq_refl c.value, checked) refl
