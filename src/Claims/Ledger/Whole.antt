-- ===== src/Claims/Ledger/Whole.antt =====
-- The ledger that `merge` makes of its sources.
use mathlib.Core.Path.{subst}
use harmony_migration.Base.{
  ◌≡◌, refl, sym, ap, ◌∙◌, inl, inr, false, Bool-cases, not, ◌&&◌, Option, none, some, List, [],
  ◌∷◌, map, All, All-imp, AllPairs, Text, Dict, ok, >>=-eq-ok, ok_injective, raise_if,
  raise_if-eq-ok,
}
use harmony_migration.Base.Int.{ℤ}
use harmony_migration.Base.Literals.{lower}
use harmony_migration.Base.Order.{
  text_eq, text_lt, text_eq_refl, text_lt_total, text_lt_trans, text_ordered,
}
use harmony_migration.Base.Sorting.{sort_by, sort_by-IsSorted, IsSorted}
use harmony_migration.Airdrop.Recipients.Consolidating.{not-false}
use harmony_migration.Claims.Ledger.{
  ledger_rounds, LedgerRow, LiquidRow, StakeRow, PendingReceipt, PendingEntry, Sources, is_empty,
  keys_not_increasing, wrong_key,
}
use harmony_migration.Claims.Ledger.Rounds.{rows_left}
use harmony_migration.Claims.Ledger.Receipts.{
  is_not_after, check_rows, liquid_with_key, stake_with_key, load_pending_receipts,
  merge_ledger_sources,
}
use harmony_migration.Claims.Ledger.Loading.{load_pending-total, keys-distinct, absent-no_amount}
use harmony_migration.Claims.Ledger.Increasing.{Before, Increasing, AllAfter, SourcesIncrease}
use harmony_migration.Claims.Ledger.Pending.{Complete}

-- Rows that were tested are in order.
check_rows-Increasing {ℓ} :
    {R : Type ℓ} (secure_key_of : Text → Text) (key_of address_of : R → Text)
    (with_key : Text → R → R) (previous : Option Text) (rows : List R) {out : List R}
    → ((k : Text) (r : R) → key_of (with_key k r) ≡ k)
    → check_rows secure_key_of key_of address_of with_key previous rows ≡ ok out
    → (out ≡ map (λ r. with_key (lower (key_of r)) r) rows)
      × Increasing key_of out
      × ((p : Text) → previous ≡ some p → All (λ x. Before p (key_of x)) out)
unfolding check_rows
check_rows-Increasing f key_of address_of with_key previous [] keyed h =
    subst
      (λ o.
        (o ≡ [])
        × Increasing key_of o
        × ((p : Text) → previous ≡ some p → All (λ x. Before p (key_of x)) o))
      (ok_injective h) ((refl, tt, (λ p e. tt)))
check_rows-Increasing f key_of address_of with_key previous (x ∷ rows) keyed h =
    let key = lower (key_of x) in
    let (_, late, r0) = >>=-eq-ok (raise_if (is_not_after previous key) keys_not_increasing) _ h in
    let (_, _, r1) =
      >>=-eq-ok
        (raise_if (not (is_empty (address_of x)) && not (text_eq key (f (address_of x)))) wrong_key)
        _ r0 in
    let (rest, read, r2) =
      >>=-eq-ok (check_rows f key_of address_of with_key (some key) rows) _ r1 in
    let (same, increases, after) =
      check_rows-Increasing f key_of address_of with_key (some key) rows keyed read in
    let first = after key refl in
    let in_time = raise_if-eq-ok (is_not_after previous key) keys_not_increasing late in
    let named = sym (keyed key x) in
    subst
      (λ o.
        (o ≡ map (λ r. with_key (lower (key_of r)) r) (x ∷ rows))
        × Increasing key_of o
        × ((p : Text) → previous ≡ some p → All (λ y. Before p (key_of y)) o))
      (ok_injective r2)
      ((
        ap (λ l. with_key key x ∷ l) same,
        (subst (λ k. All (λ y. Before k (key_of y)) rest) named first, increases),
        (λ p e.
            let before : Before p key =
              not-false (text_lt p key) (ap (λ o. is_not_after o key) (sym e) ∙ in_time) in
            (
              subst (Before p) named before,
              All-imp (λ y. Before key (key_of y)) (λ y. Before p (key_of y)) rest
                  (λ y lt. text_lt_trans p key (key_of y) before lt) first,
            )),
      ))

sorted_after :
    (x : Text) (ys : List Text)
    → All (λ y. text_lt y x ≡ false) ys
    → All (λ y. text_eq x y ≡ false) ys
    → AllAfter (λ y. y) x ys
sorted_after x [] h k = tt
sorted_after x (y ∷ ys) h k = (
  elim (Bool-cases (text_lt x y)) [
    | inl e ↦ e
    | inr e ↦ cc (k.0, text_lt_total x y e h.0, text_eq_refl x)
  ],
  sorted_after x ys h.1 k.1,
)

sorted-Increasing :
    (ys : List Text)
    → IsSorted (λ y. y) ys
    → AllPairs (λ a b. text_eq a b ≡ false) ys
    → Increasing (λ y. y) ys
sorted-Increasing [] h k = tt
sorted-Increasing (y ∷ ys) h k = (sorted_after y ys h.0 k.0, sorted-Increasing ys h.1 k.1)

-- The sources, with their keys in lower case.
abbrev pub lowered_sources : List LiquidRow → List LiquidRow → List StakeRow → Sources
lowered_sources liquid0 liquid1 staking = record {
  liquid0 = map {A = LiquidRow} (λ r. record r { secure_key = lower r.secure_key }) liquid0;
  liquid1 = map {A = LiquidRow} (λ r. record r { secure_key = lower r.secure_key }) liquid1;
  staking = map {A = StakeRow} (λ r. record r { secure_key = lower r.secure_key }) staking;
  receipt_keys = [];
}

-- What the rounds start with.
abbrev pub all_sources :
    Dict Text PendingEntry → List LiquidRow → List LiquidRow → List StakeRow → Sources
all_sources claims liquid0 liquid1 staking = record (lowered_sources liquid0 liquid1 staking) {
  receipt_keys = sort_by (λ k. k) (map (λ e. e.0) claims);
}

module _ (f : Text → Text) (liquid0 liquid1 : List LiquidRow) (staking : List StakeRow)
    (receipts : List PendingReceipt) (stated : ℤ) where
  -- The parts of a merge that succeeded.
  pub merge_ledger_sources-parts :
      {out : List LedgerRow}
      → merge_ledger_sources f liquid0 liquid1 staking receipts stated ≡ ok out
      → (claims : Dict Text PendingEntry) × (load_pending_receipts f receipts stated ≡ ok claims)
        × (ledger_rounds f claims
              (rows_left (all_sources claims liquid0 liquid1 staking))
              (all_sources claims liquid0 liquid1 staking)
            ≡ ok out)
        × Increasing (λ r. r.secure_key) ((lowered_sources liquid0 liquid1 staking).liquid0)
        × Increasing (λ r. r.secure_key) ((lowered_sources liquid0 liquid1 staking).liquid1)
        × Increasing (λ r. r.secure_key) ((lowered_sources liquid0 liquid1 staking).staking)
  unfolding merge_ledger_sources
  merge_ledger_sources-parts {out} h =
      let (claims, loaded, r0) = >>=-eq-ok (load_pending_receipts f receipts stated) _ h in
      let (rows0, c0, r1) =
        >>=-eq-ok (check_rows f (λ r. r.secure_key) (λ r. r.address) liquid_with_key none liquid0) _
          r0 in
      let (rows1, c1, r2) =
        >>=-eq-ok (check_rows f (λ r. r.secure_key) (λ r. r.address) liquid_with_key none liquid1) _
          r1 in
      let (rows2, c2, r3) =
        >>=-eq-ok (check_rows f (λ r. r.secure_key) (λ r. r.address) stake_with_key none staking) _
          r2 in
      let (e0, i0, _) =
        check_rows-Increasing f (λ r. r.secure_key) (λ r. r.address) liquid_with_key none liquid0
          (λ k r. refl) c0 in
      let (e1, i1, _) =
        check_rows-Increasing f (λ r. r.secure_key) (λ r. r.address) liquid_with_key none liquid1
          (λ k r. refl) c1 in
      let (e2, i2, _) =
        check_rows-Increasing f (λ r. r.secure_key) (λ r. r.address) stake_with_key none staking
          (λ k r. refl) c2 in
      let keys = sort_by (λ k. k) (map (λ e. e.0) claims) in
      (
        claims,
        loaded,
        subst (λ s. ledger_rounds f claims (rows_left s) s ≡ ok out)
            (λ i. record { liquid0 = e0 i; liquid1 = e1 i; staking = e2 i; receipt_keys = keys })
            r3,
        subst (Increasing (λ r. r.secure_key)) e0 i0,
        subst (Increasing (λ r. r.secure_key)) e1 i1,
        subst (Increasing (λ r. r.secure_key)) e2 i2,
      )

  pub parts-Ready :
      (claims : Dict Text PendingEntry)
      → load_pending_receipts f receipts stated ≡ ok claims
      → Increasing (λ r. r.secure_key) ((lowered_sources liquid0 liquid1 staking).liquid0)
      → Increasing (λ r. r.secure_key) ((lowered_sources liquid0 liquid1 staking).liquid1)
      → Increasing (λ r. r.secure_key) ((lowered_sources liquid0 liquid1 staking).staking)
      → SourcesIncrease (all_sources claims liquid0 liquid1 staking)
        × Complete claims (all_sources claims liquid0 liquid1 staking)
  parts-Ready claims loaded i0 i1 i2 =
      let (keyed, _) = load_pending-total f receipts stated loaded in
      let keys = map (λ e. e.0) claims in
      (
        (
          i0,
          i1,
          i2,
          sorted-Increasing (sort_by (λ k. k) keys) (sort_by-IsSorted (λ k. k) keys)
              (keys-distinct claims keyed),
        ),
        (λ k absent. inr (absent-no_amount claims k absent)),
      )
