-- ===== src/Claims/Ledger/Rounds.antt =====
-- A round of the ledger: what it takes from the sources.
use harmony_migration.Base.{
  ℕ, ◌+◌, ◌≤◌, ◌<◌, ◌≡◌, ◌⊎◌, refl, sym, ◌∙◌, inl, inr, Bool-cases, Option, none, some, List, [],
  ◌∷◌, arith, sum_of, length, Text, ok, ok_injective,
}
use harmony_migration.Base.Int.{ℤ, pos, negsuc, pos_part, neg_part}
use harmony_migration.Base.Order.{text_eq, text_eq_refl, text_ordered}
use harmony_migration.Claims.Ledger.{
  Sources, amount_of, int_field, next_key, least_of, least_key, current_of, rows_after, advance,
}

least_of-none : (a b : Option Text) → least_of a b ≡ none → (a ≡ none) × (b ≡ none)
least_of-none none b h = (refl, h)
least_of-none (some a) none h = cc
least_of-none (some a) (some b) h = ground arith

least_of-either : (a b : Option Text) → (least_of a b ≡ a) ⊎ (least_of a b ≡ b)
least_of-either none b = inr refl
least_of-either (some a) none = inl refl
least_of-either (some a) (some b) = ground arith

pub amount_of-parts : (z : ℤ) {v : ℕ} → amount_of z ≡ ok v → (pos_part z ≡ v) × (neg_part z ≡ 0)
unfolding amount_of
amount_of-parts (pos n) h = (ok_injective h, refl)
amount_of-parts (negsuc n) h = cc

module _ {ℓ} {R : Type ℓ} (key_of : R → Text) where
  next_key-none : (xs : List R) → next_key key_of xs ≡ none → xs ≡ []
  next_key-none [] h = refl
  next_key-none (x ∷ xs) h = cc

  pub length-rows_after : (key : Text) (xs : List R) → length (rows_after key_of key xs) ≤ length xs
  length-rows_after key [] = omega arith
  length-rows_after key (x ∷ xs) = ground arith

  pub length-rows_after_next :
      (key : Text) (xs : List R)
      → next_key key_of xs ≡ some key
      → length (rows_after key_of key xs) < length xs
  length-rows_after_next key [] h = cc
  length-rows_after_next key (x ∷ xs) h = ground (arith, text_eq_refl key)

  -- The field of the row that is taken, where it is not negative, is what the sum loses.
  pub int_field-rows_after :
      (field : R → ℤ) (key : Text) (xs : List R) {v : ℕ}
      → int_field field (current_of key_of key xs) ≡ ok v
      → (sum_of (λ r. pos_part (field r)) xs
          ≡ v + sum_of (λ r. pos_part (field r)) (rows_after key_of key xs))
        × (sum_of (λ r. neg_part (field r)) xs
            ≡ sum_of (λ r. neg_part (field r)) (rows_after key_of key xs))
  unfolding int_field
  int_field-rows_after field key [] h = let zero_is = ok_injective h in (omega arith, refl)
  int_field-rows_after field key (x ∷ xs) {v} h = elim (Bool-cases (text_eq (key_of x) key)) [
    | inl e ↦
        let (p, n) = amount_of-parts (field x) (rw e at h) in
        rw e ((omega (arith, p), omega (arith, n)))
    | inr e ↦ let nothing = ok_injective (rw e at h) in rw e ((omega (arith, nothing), refl))
  ]

-- No source is left where there is no least key.
pub least_key-none :
    (s : Sources)
    → least_key s ≡ none
    → (s.liquid0 ≡ []) × (s.liquid1 ≡ []) × (s.staking ≡ []) × (s.receipt_keys ≡ [])
least_key-none s h =
    let (h0, r0) = least_of-none (next_key (λ r. r.secure_key) s.liquid0) _ h in
    let (h1, r1) = least_of-none (next_key (λ r. r.secure_key) s.liquid1) _ r0 in
    let (h2, h3) = least_of-none (next_key (λ r. r.secure_key) s.staking) _ r1 in
    (
      next_key-none (λ r. r.secure_key) s.liquid0 h0,
      next_key-none (λ r. r.secure_key) s.liquid1 h1,
      next_key-none (λ r. r.secure_key) s.staking h2,
      next_key-none (λ k. k) s.receipt_keys h3,
    )

-- The rows that are left.
abbrev pub rows_left : Sources → ℕ
rows_left s = length s.liquid0 + length s.liquid1 + length s.staking + length s.receipt_keys

-- A round takes a row at least.
pub advance_shrinks :
    (s : Sources) (key : Text) → least_key s ≡ some key → rows_left (advance key s) < rows_left s
advance_shrinks s key h =
    let l0 = length-rows_after (λ r. r.secure_key) key s.liquid0 in
    let l1 = length-rows_after (λ r. r.secure_key) key s.liquid1 in
    let l2 = length-rows_after (λ r. r.secure_key) key s.staking in
    let l3 = length-rows_after (λ k. k) key s.receipt_keys in
    elim (least_of-either (next_key (λ r. r.secure_key) s.liquid0) _) [
      | inl e ↦
          let d = length-rows_after_next (λ r. r.secure_key) key s.liquid0 (sym e ∙ h) in
          omega arith
      | inr e ↦ (elim (least_of-either (next_key (λ r. r.secure_key) s.liquid1) _) [
        | inl f ↦
            let d = length-rows_after_next (λ r. r.secure_key) key s.liquid1 (sym f ∙ sym e ∙ h) in
            omega arith
        | inr f ↦ (elim (least_of-either (next_key (λ r. r.secure_key) s.staking) _) [
          | inl g ↦
              let d =
                length-rows_after_next (λ r. r.secure_key) key s.staking
                  (sym g ∙ sym f ∙ sym e ∙ h) in
              omega arith
          | inr g ↦
              let d =
                length-rows_after_next (λ k. k) key s.receipt_keys (sym g ∙ sym f ∙ sym e ∙ h) in
              omega arith
        ])
      ])
    ]
