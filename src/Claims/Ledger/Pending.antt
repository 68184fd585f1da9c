-- ===== src/Claims/Ledger/Pending.antt =====
-- The rows of the ledger in order, and the pending receipts in them.
use mathlib.Core.Path.{subst}
use harmony_migration.Base.{
  ℕ, zero, suc, ◌+◌, ◌≡◌, ◌⊎◌, refl, sym, ap, ◌∙◌, inl, inr, Bool, false, Bool-cases, Option, none,
  some, List, [], ◌∷◌, arith, sum_of, any_of, if◌then◌else◌, Text, Dict, lookup, Result, ok, err,
  >>=-eq-ok, ok_injective, ◌==◌, raise_if,
}
use harmony_migration.Base.Order.{text_eq, text_eq_sound, text_lt_irrefl, text_ordered}
use harmony_migration.Claims.Ledger.{
  LedgerError, out_of_fuel, LedgerRow, PendingEntry, Sources, RoundRows, least_key, rows_after,
  advance, current_at, receipt_amount, int_field, merge_round, next_round, ledger_rounds,
  address_for, addresses_of, amounts_of, wallet_of, non_positive_claim,
}
use harmony_migration.Claims.Ledger.Rounds.{least_key-none}
use harmony_migration.Claims.Ledger.Increasing.{
  Before, Above, Increasing, AllAfter, SourcesIncrease, SourcesAfter, least_key-Above,
  advance-SourcesAfter, advance-increases,
}

-- The amount at a key, and over keys.
abbrev pub amount_at : Dict Text PendingEntry → Text → ℕ
amount_at claims k = receipt_amount (lookup k claims)

abbrev pub amounts_at : Dict Text PendingEntry → List Text → ℕ
amounts_at claims = sum_of (amount_at claims)

abbrev is_left : Text → List Text → Bool
is_left k = any_of (λ y. text_eq y k)

-- Every amount is at a key that is left, or before all that is left.
abbrev pub Complete : Dict Text PendingEntry → Sources → Type 0
Complete claims s =
    (k : Text)
    → any_of (λ y. text_eq y k) s.receipt_keys ≡ false
    → SourcesAfter k s ⊎ (amount_at claims k ≡ 0)

not_left : (k : Text) (ys : List Text) → AllAfter (λ y. y) k ys → is_left k ys ≡ false
not_left k [] h = refl
not_left k (y ∷ ys) h = elim (Bool-cases (text_eq y k)) [
  | inl e ↦ cc (h.0, text_eq_sound y k e, text_lt_irrefl k)
  | inr e ↦ rw e (not_left k ys h.1)
]

-- What a round takes of a sum over the keys.
sum_of-rows_after :
    (f : Text → ℕ) (k : Text) (rs : List Text)
    → AllAfter (λ y. y) k (rows_after (λ y. y) k rs)
    → (is_left k rs ≡ false → f k ≡ 0)
    → sum_of f rs ≡ f k + sum_of f (rows_after (λ y. y) k rs)
sum_of-rows_after f k [] h absent = omega (arith, absent refl)
sum_of-rows_after f k (r ∷ rs) h absent = elim (Bool-cases (text_eq r k)) [
  | inl e ↦ let same = text_eq_sound r k e in rw e (ap (λ x. f x + sum_of f rs) same)
  | inr e ↦ let nothing = absent (not_left k (r ∷ rs) (rw e at h)) in rw e (omega (arith, nothing))
]

-- The key of a round is not before all that is left.
least_is_left : (s : Sources) (k : Text) → least_key s ≡ some k → SourcesAfter k s → ⊥
least_is_left s k e h =
    let after : Above k (some k) = subst (Above k) e (least_key-Above k s h) in
    cc (after, text_lt_irrefl k)

left_before :
    (k x : Text) (rs : List Text)
    → is_left x (rows_after (λ y. y) k rs) ≡ false
    → (is_left x rs ≡ false) ⊎ (x ≡ k)
left_before k x [] h = inl refl
left_before k x (r ∷ rs) h = elim (Bool-cases (text_eq r k)) [
  | inl e ↦ elim (Bool-cases (text_eq r x)) [
    | inl f ↦ inr (sym (text_eq_sound r x f) ∙ text_eq_sound r k e)
    | inr f ↦ inl (rw f (rw e at h))
  ]
  | inr e ↦ inl (rw e at h)
]

advance-Complete :
    (claims : Dict Text PendingEntry) (s : Sources) (k : Text)
    → SourcesAfter k (advance k s)
    → Complete claims s
    → Complete claims (advance k s)
advance-Complete claims s k after c x h = elim (left_before k x s.receipt_keys h) [
  | inr e ↦ inl (subst (λ y. SourcesAfter y (advance k s)) (sym e) after)
  | inl f ↦ elim (c x f) [ inl g ↦ inl (advance-SourcesAfter x k s g) | inr g ↦ inr g ]
]

-- What a column of the ledger has for an account.
abbrev pub column_at : (LedgerRow → ℕ) → Text → List LedgerRow → ℕ
column_at column a = sum_of (λ r. if text_eq r.secure_key a then column r else 0)

-- The amount at a key, if it is that of the account.
abbrev pub amount_if : Dict Text PendingEntry → Text → Text → ℕ
amount_if claims a k = if text_eq k a then amount_at claims k else 0

-- What the rows that come of some sources hold.
abbrev pub InOrder : Dict Text PendingEntry → List LedgerRow → Sources → Type 0
InOrder claims out s =
    Increasing (λ r. r.secure_key) out
    × ((b : Text) → SourcesAfter b s → AllAfter (λ r. r.secure_key) b out)
    × (sum_of (λ r. r.pending_cross_shard_atto) out ≡ amounts_at claims s.receipt_keys)
    × ((a : Text)
        → column_at (λ r. r.pending_cross_shard_atto) a out
          ≡ sum_of (amount_if claims a) s.receipt_keys)

if_zero : (b : Bool) → ◌≡◌ {A = ℕ} (if b then 0 else 0) 0
if_zero b = ground arith

module _ (secure_key_of : Text → Text) where
  pub merge_round-key :
      (key : Text) (c : RoundRows) {row : LedgerRow}
      → merge_round secure_key_of key c ≡ ok row
      → (row.secure_key ≡ key) × (row.pending_cross_shard_atto ≡ receipt_amount c.current_receipt)
  unfolding merge_round amounts_of
  merge_round-key key c h =
      let (address, _, r0) = >>=-eq-ok (address_for secure_key_of key (addresses_of c)) _ h in
      let (a, read, r1) = >>=-eq-ok (amounts_of c) _ r0 in
      let (_, _, r2) = >>=-eq-ok (raise_if (wallet_of a + a.active == 0) non_positive_claim) _ r1 in
      let (v0, h0, q0) = >>=-eq-ok (int_field (λ r. r.balance_atto) c.current0) _ read in
      let (v1, h1, q1) = >>=-eq-ok (int_field (λ r. r.balance_atto) c.current1) _ q0 in
      let (v2, h2, q2) =
        >>=-eq-ok (int_field (λ r. r.active_delegation_atto) c.current_stake) _ q1 in
      let (v3, h3, q3) =
        >>=-eq-ok (int_field (λ r. r.pending_undelegation_atto) c.current_stake) _ q2 in
      let (v4, h4, q4) =
        >>=-eq-ok (int_field (λ r. r.unclaimed_reward_atto) c.current_stake) _ q3 in
      let made = ok_injective r2 in
      (
        ap (λ r. r.secure_key) (sym made),
        ap (λ r. r.pending_cross_shard_atto) (sym made)
            ∙ ap (λ b. b.pending_receipt) (sym (ok_injective q4)),
      )

  next_round-InOrder :
      (claims : Dict Text PendingEntry) (s : Sources)
      (later : Sources → Result LedgerError (List LedgerRow)) {out : List LedgerRow}
      → ((s' : Sources) (rest : List LedgerRow)
          → SourcesIncrease s'
          → Complete claims s'
          → later s' ≡ ok rest
          → InOrder claims rest s')
      → SourcesIncrease s
      → Complete claims s
      → (k : Option Text) → least_key s ≡ k
      → next_round secure_key_of claims s later k ≡ ok out
      → InOrder claims out s
  unfolding next_round
  next_round-InOrder claims s later ih i c none e h =
      let (_, _, _, e3) = least_key-none s e in
      subst (λ out. InOrder claims out s) (ok_injective h)
        ((
          tt,
          (λ b a. tt),
          ap (amounts_at claims) (sym e3),
          (λ a. ap (sum_of (amount_if claims a)) (sym e3)),
        ))
  next_round-InOrder claims s later ih i c (some key) e h =
      let (row, made, r0) =
        >>=-eq-ok (merge_round secure_key_of key (current_at claims key s)) _ h in
      let (rest, others, r1) = >>=-eq-ok (later (advance key s)) _ r0 in
      let (named, pending) = merge_round-key key (current_at claims key s) made in
      let (after, increases) = advance-increases s key i e in
      let (sorted, above, sums, each) =
        ih (advance key s) rest increases (advance-Complete claims s key after c) others in
      let absent = λ (gone : is_left key s.receipt_keys ≡ false). nothing_before (c key gone) in
      let taken = sum_of-rows_after (amount_at claims) key s.receipt_keys after.3 absent in
      let taken_if = λ (a : Text).
        sum_of-rows_after (amount_if claims a) key s.receipt_keys after.3 (λ gone.
          ap (λ n. if text_eq key a then n else 0) (absent gone) ∙ if_zero (text_eq key a)) in
      let here = λ (a : Text).
        ap (λ k. if text_eq k a then row.pending_cross_shard_atto else 0) named
        ∙ ap (λ n. if text_eq key a then n else 0) pending in
      subst (λ out. InOrder claims out s) (ok_injective r1)
        ((
          (subst (λ n. AllAfter (λ r. r.secure_key) n rest) (sym named) (above key after), sorted),
          (λ b a. (
            subst (Before b) (sym named) (subst (Above b) e (least_key-Above b s a)),
            above b (advance-SourcesAfter b key s a),
          )),
          omega (arith, pending, sums, taken),
          (λ a.
              ap (λ n. n + column_at (λ r. r.pending_cross_shard_atto) a rest) (here a)
              ∙ ap (λ n. amount_if claims a key + n) (each a)
              ∙ sym (taken_if a)),
        ))
    where
      nothing_before : SourcesAfter key s ⊎ (amount_at claims key ≡ 0) → amount_at claims key ≡ 0
      nothing_before (inl g) = absurd (least_is_left s key e g)
      nothing_before (inr g) = g

  -- A ledger that was merged from sources in order, with every pending amount at one of the receipt
  -- keys, has each key once, in order, and its column of pending receipts adds up to the amounts at the
  -- receipt keys.
  pub ledger_rounds-InOrder :
      (claims : Dict Text PendingEntry) (fuel : ℕ) (s : Sources) {out : List LedgerRow}
      → SourcesIncrease s
      → Complete claims s
      → ledger_rounds secure_key_of claims fuel s ≡ ok out
      → InOrder claims out s
  unfolding ledger_rounds
  ledger_rounds-InOrder claims zero s i c h =
      next_round-InOrder claims s (λ s'. err out_of_fuel) (λ s' rest i' c' k. cc) i c (least_key s)
        refl h
  ledger_rounds-InOrder claims (suc fuel) s i c h =
      next_round-InOrder claims s (λ s'. ledger_rounds secure_key_of claims fuel s')
        (λ s' rest i' c' k. ledger_rounds-InOrder claims fuel s' i' c' k) i c (least_key s) refl h
