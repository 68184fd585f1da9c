-- ===== src/Airdrop/Recipients/Consolidating.antt =====
-- What the consolidated list pays.
use mathlib.Core.Path.{subst}
use harmony_migration.Base.{
  ℕ, ◌+◌, ◌≡◌, refl, inl, inr, Bool, true, false, Bool-cases, not, ◌&&◌, List, [], ◌∷◌,
  if◌then◌else◌, arith, sum_of, All, AllPairs, ◌==◌, ok, >>=-eq-ok, ok_injective, raise_if,
  raise_if-eq-ok,
}
use harmony_migration.Base.Order.{text_eq, text_eq_sound, text_eq_refl, text_ordered}
use harmony_migration.Base.Keys.{nat_eq_sound}
use harmony_migration.Base.Sorting.{sum_of-sort_by, sort_by-AllPairs}
use harmony_migration.Abi.Bytes.{Bytes}
use harmony_migration.Airdrop.Recipients.{
  Recipient, Order, by_address, by_input, other_order, Seen, has_address, add_recipient, see,
  see_all, put_in_order, consolidate, duplicate_addresses,
}

-- What a list pays to an address.
abbrev pub paid : Bytes → List Recipient → ℕ
paid a = sum_of (λ r. if text_eq r.address a then r.amount else 0)

-- No two rows have one address.
abbrev pub Distinct : List Recipient → Type 0
Distinct = AllPairs (λ r s. text_eq r.address s.address ≡ false)

paid-add_recipient :
    (a : Bytes) (row : Recipient) (rows : List Recipient)
    → paid a (add_recipient row rows) ≡ paid a rows + paid a (row ∷ [])
unfolding add_recipient
paid-add_recipient a row [] = omega arith
paid-add_recipient a row (r ∷ rows) = elim (Bool-cases (text_eq r.address row.address)) [
  | inl e ↦
      let same = text_eq_sound r.address row.address e in
      rw (add_recipient, e) (grind (arith, same))
  | inr e ↦ rw (add_recipient, e) (omega (arith, paid-add_recipient a row rows))
]

differs-add_recipient :
    (r row : Recipient) (rows : List Recipient)
    → text_eq r.address row.address ≡ false
    → All (λ s. text_eq r.address s.address ≡ false) rows
    → All (λ s. text_eq r.address s.address ≡ false) (add_recipient row rows)
unfolding add_recipient
differs-add_recipient r row [] e h = (e, tt)
differs-add_recipient r row (s ∷ rows) e h = elim (Bool-cases (text_eq s.address row.address)) [
  | inl f ↦ rw (add_recipient, f) ((h.0, h.1))
  | inr f ↦ rw (add_recipient, f) ((h.0, differs-add_recipient r row rows e h.1))
]

add_recipient-Distinct :
    (row : Recipient) (rows : List Recipient) → Distinct rows → Distinct (add_recipient row rows)
unfolding add_recipient
add_recipient-Distinct row [] h = (tt, tt)
add_recipient-Distinct row (r ∷ rows) h = elim (Bool-cases (text_eq r.address row.address)) [
  | inl e ↦ rw (add_recipient, e) ((h.0, h.1))
  | inr e ↦
      rw (add_recipient, e)
        ((differs-add_recipient r row rows e h.0, add_recipient-Distinct row rows h.1))
]

see-paid :
    (merge : Bool) (a : Bytes) (row : Recipient) (rows : List Recipient) (seen : Seen) (after : ℕ)
    → (see merge row seen).duplicates ≡ 0
    → after ≡ paid a ((see merge row seen).rows) + paid a rows
    → (seen.duplicates ≡ 0) × (after ≡ paid a seen.rows + paid a (row ∷ rows))
unfolding see
see-paid merge a row rows seen after h e = ground (arith, paid-add_recipient a row seen.rows)

see-Distinct :
    (merge : Bool) (row : Recipient) (seen : Seen)
    → Distinct seen.rows
    → Distinct ((see merge row seen).rows)
unfolding see
see-Distinct merge row seen h = elim (Bool-cases (has_address row.address seen.rows && not merge)) [
  | inl e ↦ rw (see, e) h
  | inr e ↦ rw (see, e) (add_recipient-Distinct row seen.rows h)
]

-- A loop that found no duplicate that it may not merge.
see_all-paid :
    (merge : Bool) (a : Bytes) (rows : List Recipient) (seen : Seen)
    → (see_all merge rows seen).duplicates ≡ 0
    → (seen.duplicates ≡ 0)
      × (paid a ((see_all merge rows seen).rows) ≡ paid a seen.rows + paid a rows)
unfolding see_all
see_all-paid merge a [] seen h = (h, omega arith)
see_all-paid merge a (row ∷ rows) seen h =
    let (zero_now, rest) = see_all-paid merge a rows (see merge row seen) h in
    see-paid merge a row rows seen (paid a ((see_all merge rows (see merge row seen)).rows))
      zero_now rest

see_all-Distinct :
    (merge : Bool) (rows : List Recipient) (seen : Seen)
    → Distinct seen.rows
    → Distinct ((see_all merge rows seen).rows)
unfolding see_all
see_all-Distinct merge [] seen h = h
see_all-Distinct merge (row ∷ rows) seen h =
    see_all-Distinct merge rows (see merge row seen) (see-Distinct merge row seen h)

pub not-false : (b : Bool) → not b ≡ false → b ≡ true
not-false true h = refl
not-false false h = cc

pub text_eq_sym : (a b : Bytes) → text_eq a b ≡ false → text_eq b a ≡ false
text_eq_sym a b h = elim (Bool-cases (text_eq b a)) [
  | inl e ↦ cc (h, text_eq_sound b a e, text_eq_refl a)
  | inr e ↦ e
]

-- What ordering keeps.
put_in_order-keeps :
    (order : Order) (rows out : List Recipient)
    → put_in_order order rows ≡ ok out
    → Distinct rows
    → Distinct out × ((a : Bytes) → paid a out ≡ paid a rows)
unfolding put_in_order
put_in_order-keeps by_address rows out h d =
    subst (λ x. Distinct x × ((a : Bytes) → paid a x ≡ paid a rows)) (ok_injective h)
      ((
        sort_by-AllPairs (λ r. r.address) (λ r s. text_eq r.address s.address ≡ false) rows
            (λ r s. text_eq_sym r.address s.address) d,
        (λ a.
            sum_of-sort_by (λ r. r.address) (λ r. if text_eq r.address a then r.amount else 0)
              rows),
      ))
put_in_order-keeps by_input rows out h d =
    subst (λ x. Distinct x × ((a : Bytes) → paid a x ≡ paid a rows)) (ok_injective h)
      ((d, (λ a. refl)))
put_in_order-keeps other_order rows out h d = cc

-- A list that `consolidate` returns pays every address in one row, and what the rows of the input
-- pay it together, with and without the merging of duplicates and in either order.
pub consolidate_exact :
    (rows out : List Recipient) (order : Order) (merge : Bool)
    → consolidate rows order merge ≡ ok out
    → Distinct out × ((a : Bytes) → paid a out ≡ paid a rows)
unfolding consolidate
consolidate_exact rows out order merge h =
    let start : Seen = record { rows = []; duplicates = 0 } in
    let seen = see_all merge rows start in
    let (_, none_left, h1) =
      >>=-eq-ok (raise_if (not (seen.duplicates == 0)) duplicate_addresses) _ h in
    let clean : seen.duplicates ≡ 0 = nat_eq_sound seen.duplicates 0 (
      not-false (seen.duplicates == 0)
        (raise_if-eq-ok (not (seen.duplicates == 0)) duplicate_addresses none_left)) in
    let (distinct, kept) =
      put_in_order-keeps order seen.rows out h1 (see_all-Distinct merge rows start tt) in
    (
      distinct,
      (λ a. let (_, total) = see_all-paid merge a rows start clean in omega (arith, kept a, total)),
    )
