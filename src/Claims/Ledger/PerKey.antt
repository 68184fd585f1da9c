-- ===== src/Claims/Ledger/PerKey.antt =====
-- The pending receipts of each key, after `load_pending_receipts` of
-- toolkit/scripts/claims/actual-supply-ledger.py.
use mathlib.Core.Path.{subst}
use harmony_migration.Base.{
  ℕ, ◌+◌, ◌≡◌, refl, sym, ap, ◌∙◌, inl, inr, Bool, true, false, Bool-cases, not, Option, none, some,
  List, [], ◌∷◌, map, arith, sum_of, any_of, if◌then◌else◌, All, AllPairs, Text, Dict, lookup,
  insert, ok, >>=-eq-ok, ok_injective, raise_if,
}
use harmony_migration.Base.Int.{ℤ, pos, pos_part, eqb_ℤ}
use harmony_migration.Base.Dictionary.{lookup-insert}
use harmony_migration.Base.Literals.{lower}
use harmony_migration.Base.Order.{text_eq, text_eq_sound, text_ordered}
use harmony_migration.Base.Sorting.{sort_by}
use harmony_migration.Airdrop.Recipients.Consolidating.{text_eq_sym}
use harmony_migration.Claims.Ledger.{
  PendingReceipt, PendingEntry, amount_of, receipt_amount, wrong_key, pending_sum_differs,
  receipt_mismatch,
}
use harmony_migration.Claims.Ledger.Rounds.{amount_of-parts}
use harmony_migration.Claims.Ledger.Receipts.{
  add_pending, add_receipt, add_receipts, total_of, load_pending_receipts,
}
use harmony_migration.Claims.Ledger.Pending.{amount_at, amount_if}
use harmony_migration.Claims.Ledger.Loading.{Keyed, keys-distinct, absent-no_amount}

-- What an account has, in a dictionary and after receipts were added.
receipt_amount-if :
    (b : Bool) (v : PendingEntry) (o : Option PendingEntry)
    → receipt_amount (if b then some v else o) ≡ (if b then v.amount else receipt_amount o)
receipt_amount-if true v o = refl
receipt_amount-if false v o = refl

amount_at-insert :
    (k a : Text) (v : PendingEntry) (d : Dict Text PendingEntry)
    → amount_at (insert k v d) a ≡ (if text_eq k a then v.amount else amount_at d a)
amount_at-insert k a v d =
    ap receipt_amount (lookup-insert k a v d) ∙ receipt_amount-if (text_eq k a) v (lookup a d)

zero_add : (n : ℕ) → 0 + n ≡ n
zero_add n = omega arith

module _ (secure_key_of : Text → Text) (a : Text) where
  -- What a receipt gives the account.
  abbrev pub receipt_at : PendingReceipt → ℕ
  receipt_at r = if text_eq (lower r.secure_key) a then pos_part r.amount_atto else 0

  add_pending-each :
      (key to : Text) (amount : ℕ) (pending : Dict Text PendingEntry) {out : Dict Text PendingEntry}
      → add_pending secure_key_of key to amount pending (lookup key pending) ≡ ok out
      → amount_at out a ≡ amount_at pending a + (if text_eq key a then amount else 0)
  unfolding add_pending
  add_pending-each key to amount pending {out} h = go (lookup key pending) refl h
    where
      put :
          (entry : PendingEntry)
          → entry.amount ≡ receipt_amount (lookup key pending) + amount
          → amount_at (insert key entry pending) a
            ≡ amount_at pending a + (if text_eq key a then amount else 0)
      put entry e = elim (Bool-cases (text_eq key a)) [
        | inl f ↦
            let same = text_eq_sound key a f in
            let at_key = ap (amount_at pending) same in
            let new = amount_at-insert key a entry pending in
            let new_amount = rw f at new in rw f (omega (arith, new_amount, e, at_key))
        | inr f ↦
            let new = amount_at-insert key a entry pending in
            let new_amount = rw f at new in rw f (omega (arith, new_amount))
      ]

      go :
          (found : Option PendingEntry)
          → lookup key pending ≡ found
          → add_pending secure_key_of key to amount pending found ≡ ok out
          → amount_at out a ≡ amount_at pending a + (if text_eq key a then amount else 0)
      go none absent made =
          subst (λ o. amount_at o a ≡ amount_at pending a + (if text_eq key a then amount else 0))
            (ok_injective made)
            (put (record { address = to; amount = amount })
              (sym (zero_add amount) ∙ ap (λ o. receipt_amount o + amount) (sym absent)))
      go (some w) present made =
          let (_, _, inserted) =
            >>=-eq-ok (raise_if (not (text_eq (lower w.address) (lower to))) receipt_mismatch) _
              made in
          subst (λ o. amount_at o a ≡ amount_at pending a + (if text_eq key a then amount else 0))
            (ok_injective inserted)
            (put (record w { amount = w.amount + amount })
              (ap (λ o. receipt_amount o + amount) (sym present)))

  add_receipt-each :
      (r : PendingReceipt) (pending : Dict Text PendingEntry) {out : Dict Text PendingEntry}
      → add_receipt secure_key_of r pending ≡ ok out
      → amount_at out a ≡ amount_at pending a + receipt_at r
  unfolding add_receipt
  add_receipt-each r pending h =
      let key = lower r.secure_key in
      let (_, _, r0) =
        >>=-eq-ok (raise_if (not (text_eq key (secure_key_of r.to))) wrong_key) _ h in
      let (amount, read, r1) = >>=-eq-ok (amount_of r.amount_atto) _ r0 in
      let (is_amount, _) = amount_of-parts r.amount_atto read in
      add_pending-each key r.to amount pending r1
      ∙ ap (λ n. amount_at pending a + (if text_eq key a then n else 0)) (sym is_amount)

  add_receipts-each :
      (receipts : List PendingReceipt) (pending : Dict Text PendingEntry)
      {out : Dict Text PendingEntry}
      → add_receipts secure_key_of receipts pending ≡ ok out
      → amount_at out a ≡ amount_at pending a + sum_of receipt_at receipts
  unfolding add_receipts
  add_receipts-each [] pending h =
      subst (λ o. amount_at o a ≡ amount_at pending a + 0) (ok_injective h) (omega arith)
  add_receipts-each (r ∷ receipts) pending h =
      let (next, added, rest) = >>=-eq-ok (add_receipt secure_key_of r pending) _ h in
      let here = add_receipt-each r pending added in
      let others = add_receipts-each receipts next rest in omega (arith, here, others)

-- The receipts of a report that was loaded, account by account.
pub load_pending-each :
    (secure_key_of : Text → Text) (receipts : List PendingReceipt) (stated : ℤ) (a : Text)
    {claims : Dict Text PendingEntry}
    → load_pending_receipts secure_key_of receipts stated ≡ ok claims
    → amount_at claims a ≡ sum_of (receipt_at secure_key_of a) receipts
unfolding load_pending_receipts
load_pending-each f receipts stated a h =
    let (pending, added, r0) = >>=-eq-ok (add_receipts f receipts []) _ h in
    let (_, _, r1) =
      >>=-eq-ok (raise_if (not (eqb_ℤ (pos (total_of receipts)) stated)) pending_sum_differs) _
        r0 in
    ap (λ c. amount_at c a) (sym (ok_injective r1))
    ∙ add_receipts-each f a receipts [] added
    ∙ zero_add (sum_of (receipt_at f a) receipts)

-- What different keys have for one of them.
other_keys :
    (claims : Dict Text PendingEntry) (a : Text) (ys : List Text)
    → All (λ y. text_eq a y ≡ false) ys
    → sum_of (amount_if claims a) ys ≡ 0
other_keys claims a [] h = refl
other_keys claims a (y ∷ ys) h =
    let apart = text_eq_sym a y h.0 in rw apart (omega (arith, other_keys claims a ys h.1))

one_key :
    (claims : Dict Text PendingEntry) (a : Text) (ys : List Text)
    → AllPairs (λ x y. text_eq x y ≡ false) ys
    → (any_of (λ y. text_eq y a) ys ≡ false → amount_at claims a ≡ 0)
    → sum_of (amount_if claims a) ys ≡ amount_at claims a
one_key claims a [] d absent = sym (absent refl)
one_key claims a (y ∷ ys) d absent = elim (Bool-cases (text_eq y a)) [
  | inl e ↦
      let same = text_eq_sound y a e in
      let others = subst (λ k. All (λ z. text_eq k z ≡ false) ys) same (d.0) in
      let here = ap (amount_at claims) same in
      rw e (omega (arith, here, other_keys claims a ys others))
  | inr e ↦ rw e (omega (arith, one_key claims a ys d.1 (λ gone. absent (rw e gone))))
]

pub amount_if-sorted :
    (claims : Dict Text PendingEntry)
    → Keyed claims
    → (a : Text)
    → sum_of (amount_if claims a) (sort_by (λ k. k) (map (λ e. e.0) claims)) ≡ amount_at claims a
amount_if-sorted claims keyed a =
    one_key claims a (sort_by (λ k. k) (map (λ e. e.0) claims)) (keys-distinct claims keyed)
      (absent-no_amount claims a)
