-- ===== src/Claims/Ledger/Loading.antt =====
-- The pending receipts that `load_pending_receipts` of
-- toolkit/scripts/claims/actual-supply-ledger.py adds up.
use mathlib.Core.Path.{subst}
use harmony_migration.Base.{
  ℕ, ◌+◌, ◌≡◌, refl, sym, ap, ◌∙◌, inl, inr, false, Bool-cases, not, Option, none, some, List, [],
  ◌∷◌, map, arith, sum_of, any_of, if◌then◌else◌, All, AllPairs, AllPairs-map, Text, Dict, lookup,
  insert, ok, >>=-eq-ok, ok_injective, raise_if, raise_if-eq-ok,
}
use harmony_migration.Base.Int.{ℤ, pos, pos_part, eqb_ℤ}
use harmony_migration.Base.Keys.{int_eq_sound}
use harmony_migration.Base.Dictionary.{sum_of-insert_new}
use harmony_migration.Base.Literals.{lower}
use harmony_migration.Base.Order.{text_eq, text_eq_refl, text_ordered}
use harmony_migration.Base.Sorting.{sort_by, sum_of-sort_by, sort_by-AllPairs}
use harmony_migration.Airdrop.Recipients.Consolidating.{text_eq_sym, not-false}
use harmony_migration.Claims.Ledger.{
  PendingReceipt, PendingEntry, amount_of, receipt_amount, wrong_key, pending_sum_differs,
  receipt_mismatch,
}
use harmony_migration.Claims.Ledger.Rounds.{amount_of-parts}
use harmony_migration.Claims.Ledger.Receipts.{
  add_pending, add_receipt, add_receipts, total_of, load_pending_receipts,
}
use harmony_migration.Claims.Ledger.Pending.{amount_at, amounts_at}

-- The keys of a dictionary differ.
abbrev pub Keyed : Dict Text PendingEntry → Type 0
Keyed = AllPairs (λ e g. text_eq e.0 g.0 ≡ false)

insert-differs :
    (j k : Text) (v : PendingEntry) (d : Dict Text PendingEntry)
    → text_eq j k ≡ false
    → All (λ e. text_eq j e.0 ≡ false) d
    → All (λ e. text_eq j e.0 ≡ false) (insert k v d)
insert-differs j k v [] h a = (h, tt)
insert-differs j k v ((i, w) ∷ d) h a = ground (arith, insert-differs j k v d h a.1)

insert-Keyed :
    (k : Text) (v : PendingEntry) (d : Dict Text PendingEntry) → Keyed d → Keyed (insert k v d)
insert-Keyed k v [] h = (tt, tt)
insert-Keyed k v ((i, w) ∷ d) h = elim (Bool-cases (text_eq i k)) [
  | inl e ↦ rw e (h)
  | inr e ↦ rw e ((insert-differs i k v d e h.0, insert-Keyed k v d h.1))
]

-- The amounts of a dictionary, with one replaced.
abbrev pub amounts_in : Dict Text PendingEntry → ℕ
amounts_in = sum_of (λ e. (e.1).amount)

amounts_in-replace :
    (k : Text) (v w : PendingEntry) (d : Dict Text PendingEntry)
    → lookup k d ≡ some w
    → amounts_in (insert k v d) + w.amount ≡ amounts_in d + v.amount
amounts_in-replace k v w [] h = cc
amounts_in-replace k v w ((i, x) ∷ d) h = elim (Bool-cases (text_eq i k)) [
  | inl e ↦ let same = ap receipt_amount (rw e at h) in rw e (omega (arith, same))
  | inr e ↦ rw e (omega (arith, amounts_in-replace k v w d (rw e at h)))
]

-- The amount of a dictionary at its keys.
amount_at-skip :
    (k : Text) (v : PendingEntry) (d es : Dict Text PendingEntry)
    → All (λ e. text_eq k e.0 ≡ false) es
    → sum_of (λ e. amount_at ((k, v) ∷ d) e.0) es ≡ sum_of (λ e. amount_at d e.0) es
amount_at-skip k v d [] h = refl
amount_at-skip k v d (e ∷ es) h =
    let apart = h.0 in rw apart (omega (arith, amount_at-skip k v d es h.1))

amount_at-keys :
    (d : Dict Text PendingEntry) → Keyed d → sum_of (λ e. amount_at d e.0) d ≡ amounts_in d
amount_at-keys [] h = refl
amount_at-keys ((k, v) ∷ d) h =
    let same = text_eq_refl k in
    rw same (omega (arith, amount_at-skip k v d d h.0, amount_at-keys d h.1))

sum_of-map :
    (f : Text → ℕ) (d : Dict Text PendingEntry)
    → sum_of f (map (λ e. e.0) d) ≡ sum_of (λ e. f e.0) d
sum_of-map f [] = refl
sum_of-map f (e ∷ d) = omega (arith, sum_of-map f d)

-- The amounts of receipts that were added.
add_receipt-adds :
    (secure_key_of : Text → Text) (r : PendingReceipt) (pending : Dict Text PendingEntry)
    {out : Dict Text PendingEntry}
    → add_receipt secure_key_of r pending ≡ ok out
    → Keyed pending
    → Keyed out × (amounts_in out ≡ amounts_in pending + pos_part r.amount_atto)
unfolding add_receipt add_pending
add_receipt-adds f r pending {out} h d =
    let key = lower r.secure_key in
    let (_, _, r0) = >>=-eq-ok (raise_if (not (text_eq key (f r.to))) wrong_key) _ h in
    let (amount, read, r1) = >>=-eq-ok (amount_of r.amount_atto) _ r0 in
    let (is_amount, _) = amount_of-parts r.amount_atto read in
    go key amount is_amount (lookup key pending) refl r1
  where
    go :
        (key : Text) (amount : ℕ)
        → pos_part r.amount_atto ≡ amount
        → (found : Option PendingEntry) → lookup key pending ≡ found
        → add_pending f key r.to amount pending found ≡ ok out
        → Keyed out × (amounts_in out ≡ amounts_in pending + pos_part r.amount_atto)
    go key amount e none absent made =
        let entry : PendingEntry = record { address = r.to; amount = amount } in
        subst (λ o. Keyed o × (amounts_in o ≡ amounts_in pending + pos_part r.amount_atto))
          (ok_injective made)
          ((
            insert-Keyed key entry pending d,
            omega (arith, e, sum_of-insert_new (λ x. (x.1).amount) key entry pending absent),
          ))
    go key amount e (some w) present made =
        let (_, _, r2) =
          >>=-eq-ok (raise_if (not (text_eq (lower w.address) (lower r.to))) receipt_mismatch) _
            made in
        let entry : PendingEntry = record w { amount = w.amount + amount } in
        subst (λ o. Keyed o × (amounts_in o ≡ amounts_in pending + pos_part r.amount_atto))
          (ok_injective r2)
          ((
            insert-Keyed key entry pending d,
            omega (arith, e, amounts_in-replace key entry w pending present),
          ))

add_receipts-adds :
    (secure_key_of : Text → Text) (receipts : List PendingReceipt)
    (pending : Dict Text PendingEntry) {out : Dict Text PendingEntry}
    → add_receipts secure_key_of receipts pending ≡ ok out
    → Keyed pending
    → Keyed out × (amounts_in out ≡ amounts_in pending + total_of receipts)
unfolding add_receipts
add_receipts-adds f [] pending h d =
    subst (λ o. Keyed o × (amounts_in o ≡ amounts_in pending + 0)) (ok_injective h)
      ((d, omega arith))
add_receipts-adds f (r ∷ receipts) pending h d =
    let (next, added, rest) = >>=-eq-ok (add_receipt f r pending) _ h in
    let (d1, e1) = add_receipt-adds f r pending added d in
    let (d2, e2) = add_receipts-adds f receipts next rest d1 in (d2, omega (arith, e1, e2))

-- The pending amounts of a report that was loaded are those it states.
pub load_pending-total :
    (secure_key_of : Text → Text) (receipts : List PendingReceipt) (stated : ℤ)
    {claims : Dict Text PendingEntry}
    → load_pending_receipts secure_key_of receipts stated ≡ ok claims
    → Keyed claims × (pos (amounts_in claims) ≡ stated)
unfolding load_pending_receipts
load_pending-total f receipts stated h =
    let (pending, added, r0) = >>=-eq-ok (add_receipts f receipts []) _ h in
    let (_, same, r1) =
      >>=-eq-ok (raise_if (not (eqb_ℤ (pos (total_of receipts)) stated)) pending_sum_differs) _
        r0 in
    let agrees =
      not-false (eqb_ℤ (pos (total_of receipts)) stated)
        (raise_if-eq-ok (not (eqb_ℤ (pos (total_of receipts)) stated)) pending_sum_differs same) in
    let (d, e) = add_receipts-adds f receipts [] added tt in
    let whole : amounts_in pending ≡ total_of receipts = omega (arith, e) in
    subst (λ c. Keyed c × (pos (amounts_in c) ≡ stated)) (ok_injective r1)
      ((d, ap pos whole ∙ int_eq_sound (pos (total_of receipts)) stated agrees))

-- A key that is not among the sorted keys has no amount.
abbrev pub times : Text → List Text → ℕ
times k = sum_of (λ y. if text_eq y k then 1 else 0)

pub none_times : (k : Text) (ys : List Text) → any_of (λ y. text_eq y k) ys ≡ false → times k ys ≡ 0
none_times k [] h = refl
none_times k (y ∷ ys) h = elim (Bool-cases (text_eq y k)) [
  | inl e ↦ cc (rw e at h)
  | inr e ↦ rw e (omega (arith, none_times k ys (rw e at h)))
]

pub no_amount :
    (k : Text) (d : Dict Text PendingEntry) → times k (map (λ e. e.0) d) ≡ 0 → amount_at d k ≡ 0
no_amount k [] h = refl
no_amount k ((j, v) ∷ d) h = elim (Bool-cases (text_eq j k)) [
  | inl e ↦ absurd (omega (arith, rw e at h))
  | inr e ↦ rw e (no_amount k d (omega (arith, rw e at h)))
]

-- The amounts at the sorted keys are those of the dictionary.
pub amounts_at-sorted :
    (d : Dict Text PendingEntry)
    → Keyed d
    → amounts_at d (sort_by (λ k. k) (map (λ e. e.0) d)) ≡ amounts_in d
amounts_at-sorted d h =
    sum_of-sort_by (λ k. k) (amount_at d) (map (λ e. e.0) d)
    ∙ sum_of-map (amount_at d) d
    ∙ amount_at-keys d h

pub keys-distinct :
    (claims : Dict Text PendingEntry)
    → Keyed claims
    → AllPairs (λ a b. text_eq a b ≡ false) (sort_by (λ k. k) (map (λ e. e.0) claims))
keys-distinct claims keyed =
    sort_by-AllPairs (λ k. k) (λ a b. text_eq a b ≡ false) (map (λ e. e.0) claims) text_eq_sym
      (AllPairs-map (λ a b. text_eq a b ≡ false) (λ e. e.0) claims keyed)

pub absent-no_amount :
    (claims : Dict Text PendingEntry) (k : Text)
    → any_of (λ y. text_eq y k) (sort_by (λ x. x) (map (λ e. e.0) claims)) ≡ false
    → amount_at claims k ≡ 0
absent-no_amount claims k absent =
    let keys = map (λ e. e.0) claims in
    no_amount k claims (
      sym (sum_of-sort_by (λ k'. k') (λ y. if text_eq y k then 1 else 0) keys)
      ∙ none_times k (sort_by (λ k'. k') keys) absent)
