-- ===== src/Claims/Ledger/Increasing.antt =====
-- The order of the ledger's keys, and the receipts in it.
use mathlib.Core.Path.{subst}
use harmony_migration.Base.{
  ◌≡◌, sym, inl, inr, true, false, Bool-cases, Option, none, some, List, [], ◌∷◌, arith, All,
  All-imp, AllPairs, Text,
}
use harmony_migration.Base.Order.{
  text_eq, text_lt, text_eq_sound, text_eq_refl, text_lt_irrefl, text_lt_trans, text_lt_total,
  text_ordered,
}
use harmony_migration.Claims.Ledger.{Sources, next_key, least_of, least_key, rows_after, advance}

abbrev pub Before : Text → Text → Type 0
Before a b = text_lt a b ≡ true

-- A text is before the next one, where there is one; and is not after it.
abbrev pub Above : Text → Option Text → Type 0
Above b none = Unit
Above b (some k) = Before b k

abbrev NotBelow : Option Text → Text → Type 0
NotBelow none k = Unit
NotBelow (some h) k = text_lt h k ≡ false

least_of-Above : (b : Text) (x y : Option Text) → Above b x → Above b y → Above b (least_of x y)
least_of-Above b none y h k = k
least_of-Above b (some x) none h k = h
least_of-Above b (some x) (some y) h k = ground arith

least_of-NotBelow :
    (x y : Option Text) (k : Text) → NotBelow (least_of x y) k → NotBelow x k × NotBelow y k
least_of-NotBelow none y k h = (tt, h)
least_of-NotBelow (some x) none k h = (h, tt)
least_of-NotBelow (some x) (some y) k h =
    ground (arith, text_lt_trans y x k, text_lt_trans x y k, text_lt_total x y)

module _ {ℓ} {R : Type ℓ} (key_of : R → Text) where
  abbrev pub Increasing : List R → Type 0
  Increasing = AllPairs (λ a b. Before (key_of a) (key_of b))

  abbrev pub AllAfter : Text → List R → Type 0
  AllAfter b = All (λ x. Before b (key_of x))

  Above-next : (b : Text) (xs : List R) → AllAfter b xs → Above b (next_key key_of xs)
  Above-next b [] h = tt
  Above-next b (x ∷ xs) h = h.0

  All-rows_after : (b k : Text) (xs : List R) → AllAfter b xs → AllAfter b (rows_after key_of k xs)
  All-rows_after b k [] h = tt
  All-rows_after b k (x ∷ xs) h = ground arith

  -- After the rows of the least key, all keys are greater.
  rows_after-AllAfter :
      (k : Text) (xs : List R)
      → Increasing xs
      → NotBelow (next_key key_of xs) k
      → AllAfter k (rows_after key_of k xs) × Increasing (rows_after key_of k xs)
  rows_after-AllAfter k [] h n = (tt, tt)
  rows_after-AllAfter k (x ∷ xs) h n = elim (Bool-cases (text_eq (key_of x) k)) [
    | inl e ↦
        let same = text_eq_sound (key_of x) k e in rw e ((subst (λ b. AllAfter b xs) same h.0, h.1))
    | inr e ↦
        let after : Before k (key_of x) = strictly (key_of x) k n e in
        rw e (
          (
            (
              after,
              All-imp (λ y. Before (key_of x) (key_of y)) (λ y. Before k (key_of y)) xs
                  (λ y lt. text_lt_trans k (key_of x) (key_of y) after lt) h.0,
            ),
            h,
          ))
  ]
    where
      strictly : (a b : Text) → text_lt a b ≡ false → text_eq a b ≡ false → Before b a
      strictly a b h k = elim (Bool-cases (text_lt b a)) [
        | inl e ↦ e
        | inr e ↦ cc (k, text_lt_total a b h e, text_eq_refl a)
      ]

-- The sources are in order, and after a text.
abbrev pub SourcesIncrease : Sources → Type 0
SourcesIncrease s =
    Increasing (λ r. r.secure_key) s.liquid0
    × Increasing (λ r. r.secure_key) s.liquid1
    × Increasing (λ r. r.secure_key) s.staking
    × Increasing (λ k. k) s.receipt_keys

abbrev pub SourcesAfter : Text → Sources → Type 0
SourcesAfter b s =
    AllAfter (λ r. r.secure_key) b s.liquid0
    × AllAfter (λ r. r.secure_key) b s.liquid1
    × AllAfter (λ r. r.secure_key) b s.staking
    × AllAfter (λ k. k) b s.receipt_keys

pub least_key-Above : (b : Text) (s : Sources) → SourcesAfter b s → Above b (least_key s)
least_key-Above b s (h0, h1, h2, h3) =
    least_of-Above b (next_key (λ r. r.secure_key) s.liquid0) _
      (Above-next (λ r. r.secure_key) b s.liquid0 h0)
      (least_of-Above b (next_key (λ r. r.secure_key) s.liquid1) _
        (Above-next (λ r. r.secure_key) b s.liquid1 h1)
        (least_of-Above b (next_key (λ r. r.secure_key) s.staking) _
          (Above-next (λ r. r.secure_key) b s.staking h2)
          (Above-next (λ k. k) b s.receipt_keys h3)))

pub advance-SourcesAfter :
    (b k : Text) (s : Sources) → SourcesAfter b s → SourcesAfter b (advance k s)
advance-SourcesAfter b k s (h0, h1, h2, h3) = (
  All-rows_after (λ r. r.secure_key) b k s.liquid0 h0,
  All-rows_after (λ r. r.secure_key) b k s.liquid1 h1,
  All-rows_after (λ r. r.secure_key) b k s.staking h2,
  All-rows_after (λ k'. k') b k s.receipt_keys h3,
)

-- After a round at the least key the sources are in order and after the key.
pub advance-increases :
    (s : Sources) (k : Text)
    → SourcesIncrease s
    → least_key s ≡ some k
    → SourcesAfter k (advance k s) × SourcesIncrease (advance k s)
advance-increases s k (i0, i1, i2, i3) e =
    let least : NotBelow (least_key s) k = subst (λ o. NotBelow o k) (sym e) (text_lt_irrefl k) in
    let (n0, m0) = least_of-NotBelow (next_key (λ r. r.secure_key) s.liquid0) _ k least in
    let (n1, m1) = least_of-NotBelow (next_key (λ r. r.secure_key) s.liquid1) _ k m0 in
    let (n2, n3) = least_of-NotBelow (next_key (λ r. r.secure_key) s.staking) _ k m1 in
    let r0 = rows_after-AllAfter (λ r. r.secure_key) k s.liquid0 i0 n0 in
    let r1 = rows_after-AllAfter (λ r. r.secure_key) k s.liquid1 i1 n1 in
    let r2 = rows_after-AllAfter (λ r. r.secure_key) k s.staking i2 n2 in
    let r3 = rows_after-AllAfter (λ k'. k') k s.receipt_keys i3 n3 in
    ((r0.0, r1.0, r2.0, r3.0), (r0.1, r1.1, r2.1, r3.1))
