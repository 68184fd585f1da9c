-- ===== src/Routing/ProRata.antt =====
-- `pro_rata` of toolkit/scripts/routing/apply-routes.py: an amount is taken from the vault
-- positions of one account in proportion to what is left in each, by largest remainder.
-- `main` accepts positions above zero only, and calls with a difference that is never below zero,
-- so amounts are natural numbers.
pub mod Shares
pub mod Settling
pub mod Bumping
pub mod Totality
use harmony_migration.Base.{
  not, ℕ, ◌+◌, ◌-◌, ◌*◌, ◌/◌, ◌%◌, Option, none, some, List, [], ◌∷◌, map, if◌then◌else◌, ltb, ◌==◌,
  take, keep, enumerate, get_elem?, set, sum_of, Result, ok, err, ◌>>=◌, ◌>>◌, raise_if, Text,
}
use harmony_migration.Base.Int.{ℤ, pos, ◌-ℤ◌}
use harmony_migration.Base.Order.{text_ordered}
use harmony_migration.Base.Keys.{nat_ordered, int_ordered, pair_ordered}
use harmony_migration.Base.Sorting.{sort_by}

-- The fields of a position that the routing reads; `remaining` is what no route has taken yet.
pub record Position : Type 0 where
  pub validator_secure_key : Text
  pub remaining : ℕ

pub data RateError : Type 0 where
  exceeds_vault_position allocation_exceeds_position does_not_close : RateError

-- One position's part of the amount, with the rest of its division.
pub record Quota : Type 0 where
  pub index : ℕ
  pub share : ℕ
  pub remainder : ℕ
  pub validator : Text

unfoldable pub quota : ℕ → ℕ → ℕ × Position → Quota
quota amount total (i, p) = record {
  index = i;
  share = amount * p.remaining / total;
  remainder = amount * p.remaining % total;
  validator = p.validator_secure_key;
}

-- `(-remainder, validator, index)`
abbrev pub remainder_key : Quota → ℤ × (Text × ℕ)
remainder_key q = (pos 0 -ℤ pos q.remainder, (q.validator, q.index))

-- `allocation_by_index[index] += 1`
unfoldable pub bump : ℕ → List (ℕ × ℕ) → List (ℕ × ℕ)
bump i [] = []
bump i ((j, share) ∷ rest) =
    let later = bump i rest in if i == j then (j, share + 1) ∷ rest else (j, share) ∷ later

unfoldable pub bump_all : List ℕ → List (ℕ × ℕ) → List (ℕ × ℕ)
bump_all [] allocations = allocations
bump_all (i ∷ chosen) allocations = bump_all chosen (bump i allocations)

-- The loop that subtracts each share from its position and lists the shares; the positions that
-- it leaves stand first.
unfoldable pub settle :
    List (ℕ × ℕ) → List Position → Result RateError (List Position × List (Position × ℕ))
settle [] positions = ok (positions, [])
settle ((i, share) ∷ rest) positions =
    let done = settle rest positions in
    if share == 0 then done else elim (get_elem? positions i) [
      | none ↦ err allocation_exceeds_position
      | some p ↦
          let p' = record p { remaining = p.remaining - share } in
          if ltb p.remaining share
          then err allocation_exceeds_position
          else (settle rest (set positions i p') >>= λ (left, taken).
              ok (left, (p', share) ∷ taken))
    ]

unfoldable pub available : List Position → List (ℕ × Position)
available positions = keep (λ (i, p). ltb 0 p.remaining) (enumerate 0 positions)

unfoldable pub quotas : ℕ → List Position → List Quota
unfolding available
quotas amount positions =
    let open_positions = available positions in
    let total = sum_of (λ (i, p). p.remaining) open_positions in
    map (quota amount total) open_positions

-- `allocation_by_index`, after the extras have been handed out
unfoldable pub allocations : ℕ → List Quota → List (ℕ × ℕ)
unfolding bump_all
allocations amount qs =
    let extras = amount - sum_of (λ q. q.share) qs in
    bump_all (map (λ q. q.index) (take extras (sort_by remainder_key qs)))
      (map (λ q. (q.index, q.share)) qs)

unfoldable pub pro_rata : ℕ → List Position → Result RateError (List Position × List (Position × ℕ))
unfolding quotas allocations settle
pro_rata amount positions =
    let total = sum_of (λ (i, p). p.remaining) (available positions) in
    if ltb total amount
    then err exceeds_vault_position
    else if amount == 0
    then ok (positions, [])
    else (do
      (left, taken) ←
          settle (sort_by (λ a. a) (allocations amount (quotas amount positions))) positions
      raise_if (not (sum_of (λ (p, share). share) taken == amount)) does_not_close
      ok (left, taken))
