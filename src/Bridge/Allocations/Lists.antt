-- ===== src/Bridge/Allocations/Lists.antt =====
-- The claim lists of the chains: every claim is the sum of its rows.
use harmony_migration.Base.{
  ℕ, ◌+◌, ◌≡◌, Bool, true, false, ◌&&◌, not, ◌==◌, List, Text, [], ◌∷◌, if◌then◌else◌, arith,
  sum_of, Dict, lookup, insert, Bool-cases, inl, inr,
}
use harmony_migration.Base.Dictionary.{lookup-insert}
use harmony_migration.Base.Order.{Ordered, text_eq, text_ordered}
use harmony_migration.Base.Keys.{pair_ordered}
use harmony_migration.Bridge.Allocations.{
  Row, is_claimable, ClaimKey, claim_key, amount_or_zero, add_claim, add_claims,
}

module _ {K : Type 0} ⦃o : Ordered K⦄ where
  -- `d[k] += n`, at every key
  add_at :
      (k j : K) (n : ℕ) (d : Dict K ℕ)
      → amount_or_zero (lookup j (insert k (amount_or_zero (lookup k d) + n) d))
        ≡ amount_or_zero (lookup j d) + (if o.eq k j then n else 0)
  add_at k j n d = elim (Bool-cases (o.eq k j)) [
    | inl e ↦
        grind (arith, lookup-insert k j (amount_or_zero (lookup k d) + n) d, o.eq_sound k j e, e)
    | inr e ↦ grind (arith, lookup-insert k j (amount_or_zero (lookup k d) + n) d, e)
  ]

  add_at_if :
      (t : Bool) (k j : K) (n : ℕ) (d : Dict K ℕ)
      → amount_or_zero
          (lookup j (if t && not (n == 0) then insert k (amount_or_zero (lookup k d) + n) d else d))
        ≡ amount_or_zero (lookup j d) + (if o.eq k j && t then n else 0)
  add_at_if false k j n d = ground arith
  add_at_if true k j n d = ground (arith, add_at k j n d)

-- What a row adds to the claim of a payee to a token of a chain.
abbrev pub row_claim : Text → Text → Text → Row → ℕ
row_claim chain payee token row =
    if text_eq row.claim_chain chain
      && text_eq row.payee payee
      && text_eq row.claim_token token
      && is_claimable row.status
    then row.allocation_raw
    else 0

add_claim_at :
    (chain payee token : Text) (claims : Dict ClaimKey ℕ) (row : Row)
    → amount_or_zero (lookup (chain, (payee, token)) (add_claim claims row))
      ≡ amount_or_zero (lookup (chain, (payee, token)) claims) + row_claim chain payee token row
unfolding add_claim
add_claim_at chain payee token claims row =
    let added =
      add_at_if (is_claimable row.status) (claim_key row) (chain, (payee, token)) row.allocation_raw
        claims in
    ground (arith, added)

-- In the claim lists, the amount of every claim chain, payee and token grows by what the claimable
-- rows of that chain, payee and token were allocated. A row counts for its payee, which need not be
-- its account.
pub add_claims_amounts :
    (chain payee token : Text) (claims : Dict ClaimKey ℕ) (rows : List Row)
    → amount_or_zero (lookup (chain, (payee, token)) (add_claims claims rows))
      ≡ amount_or_zero (lookup (chain, (payee, token)) claims)
        + sum_of (row_claim chain payee token) rows
unfolding add_claims
add_claims_amounts chain payee token claims [] = omega arith
add_claims_amounts chain payee token claims (row ∷ rows) = omega (
  arith,
  add_claim_at chain payee token claims row,
  add_claims_amounts chain payee token (add_claim claims row) rows,
)
