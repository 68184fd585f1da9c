-- ===== src/Bridge/Allocations/Collateral.antt =====
-- The shares of the collateral: they never exceed it, and lose at most the rounding.
use mathlib.Core.Path.{subst}
use harmony_migration.Base.{
  ℕ, ◌+◌, ◌-◌, ◌≤◌, ◌<◌, ◌≡◌, inl, inr, true, false, List, [], ◌∷◌, arith, length, keep, map, Bool,
  ◌||◌, refl, sym, All, All-imp, All-map, ok, >>=-eq-ok, ok_injective, Text, Option, ◌⊎◌,
}
use harmony_migration.Base.Int.{pos, ◌-ℤ◌}
use harmony_migration.Base.Order.{text_ordered}
use harmony_migration.Base.Keys.{pair_ordered}
use harmony_migration.Bridge.Allocations.{
  Row, Pool, PoolSummary, is_claimable, is_eligible, is_below, eligible_of, scale, allocate,
  share_out, build_pool, account_rows, summary_of, accounts_of,
}
use harmony_migration.Bridge.Allocations.Fresh.{IsFresh, account_rows-IsFresh}
use harmony_migration.Bridge.Allocations.Shares.{
  allocate_parts, eligible_rows, scaled-sum, unscaled-sum,
}

-- What every row has after the sharing.
abbrev pub IsShared : ℕ → Row → Type 0
IsShared minimum row =
    (is_claimable row.status ≡ true → minimum ≤ row.allocation_raw)
    × (is_eligible row.status ≡ false → row.allocation_raw ≡ 0)

allocate-IsShared :
    (minimum n d : ℕ) (row : Row) → IsFresh row → IsShared minimum (allocate minimum (n, d) row)
unfolding allocate
allocate-IsShared minimum n d row h = ((λ c. ground arith), (λ c. ground arith))

-- The ledger of a pool that was shared out.
abbrev pub Closes : ℕ → ℕ → PoolSummary → Type 0
Closes collateral count s =
    (s.retained_raw ≡ pos (collateral - s.claimable_raw - s.held_raw))
    × (s.claimable_raw + s.held_raw + s.below_minimum_raw ≤ collateral)
    × (s.eligible_raw ≤ collateral
        → s.claimable_raw + s.held_raw + s.below_minimum_raw ≡ s.eligible_raw)
    × (collateral < s.eligible_raw
        → collateral ≤ s.claimable_raw + s.held_raw + s.below_minimum_raw + count)

retained : (c a b : ℕ) → a + b ≤ c → pos c -ℤ pos a -ℤ pos b ≡ pos (c - a - b)
unfolding ◌-ℤ◌
retained c a b h = ground arith

-- Which scale is taken.
scale_cases : (c e : ℕ) → ((scale c e ≡ (c, e)) × (c < e)) ⊎ ((scale c e ≡ (1, 1)) × (e ≤ c))
unfolding scale
scale_cases c e = ground arith

share_out-Closes :
    (collateral minimum : ℕ) (rows : List Row)
    → All IsFresh rows
    → Closes collateral (eligible_rows rows) ((share_out collateral minimum rows).0)
unfolding share_out summary_of
share_out-Closes collateral minimum rows h = elim (scale_cases collateral (eligible_of rows)) [
  | inl (e, short) ↦
      let p = allocate_parts minimum collateral (eligible_of rows) rows h in
      let f = scaled-sum collateral rows short in
      rw e (
        (
          retained collateral _ _ (omega arith),
          omega arith,
          (λ k. omega arith),
          (λ k. omega arith),
        ))
  | inr (e, covered) ↦
      let p = allocate_parts minimum 1 1 rows h in
      let f = unscaled-sum rows in
      rw e (
        (
          retained collateral _ _ (omega arith),
          omega arith,
          (λ k. omega arith),
          (λ k. omega arith),
        ))
]

-- The rows that had a share computed: claimable, held or below the minimum.
abbrev pub has_share : Row → Bool
has_share row = is_eligible row.status || is_below row.status

abbrev pub shared_rows : List Row → ℕ
shared_rows rows = length (keep has_share rows)

allocate-has_share :
    (minimum n d : ℕ) (row : Row)
    → IsFresh row
    → has_share (allocate minimum (n, d) row) ≡ is_eligible row.status
unfolding allocate
allocate-has_share minimum n d row h = ground arith

shared_rows-map :
    (minimum n d : ℕ) (rows : List Row)
    → All IsFresh rows
    → shared_rows (map (allocate minimum (n, d)) rows) ≡ eligible_rows rows
shared_rows-map minimum n d [] h = refl
shared_rows-map minimum n d (row ∷ rows) h =
    let here = allocate-has_share minimum n d row h.0 in
    rw here (ground (arith, shared_rows-map minimum n d rows h.1))

shared_rows-share_out :
    (collateral minimum : ℕ) (rows : List Row)
    → All IsFresh rows
    → shared_rows ((share_out collateral minimum rows).1) ≡ eligible_rows rows
unfolding share_out
shared_rows-share_out collateral minimum rows h =
    shared_rows-map minimum ((scale collateral (eligible_of rows)).0)
      ((scale collateral (eligible_of rows)).1) rows h

All-IsShared :
    (collateral minimum : ℕ) (rows : List Row)
    → All IsFresh rows
    → All (IsShared minimum) ((share_out collateral minimum rows).1)
unfolding share_out
All-IsShared collateral minimum rows h =
    All-map (IsShared minimum) _ rows
      (All-imp _ _ rows (λ row f. allocate-IsShared minimum _ _ row f) h)

-- A pool that is built closes: what is claimable, what is held and the shares below the minimum
-- fit the collateral, and the collateral less what is claimable and held is retained. The three add
-- up to the whole eligible amount where the collateral covers it, and otherwise fall short of the
-- collateral by at most one unit for each row that is claimable, held or below the minimum. No
-- claimable row is below the minimum, and a row of another status than claimable and held has no
-- allocation.
pub build_pool-Closes :
    (address : Text → Option Text) (pool : Pool) {s : PoolSummary} {rows : List Row}
    → build_pool address pool ≡ ok (s, rows)
    → Closes pool.collateral (shared_rows rows) s × All (IsShared pool.minimum) rows
unfolding build_pool
build_pool-Closes address pool h =
    let (rows0, made, h1) = >>=-eq-ok (account_rows address pool (accounts_of pool)) _ h in
    let fresh = account_rows-IsFresh address pool (accounts_of pool) made in
    subst
      (λ x. Closes pool.collateral (shared_rows (x.1)) (x.0) × All (IsShared pool.minimum) (x.1))
      (ok_injective h1)
      ((
        subst (λ n. Closes pool.collateral n ((share_out pool.collateral pool.minimum rows0).0))
            (sym (shared_rows-share_out pool.collateral pool.minimum rows0 fresh))
            (share_out-Closes pool.collateral pool.minimum rows0 fresh),
        All-IsShared pool.collateral pool.minimum rows0 fresh,
      ))
