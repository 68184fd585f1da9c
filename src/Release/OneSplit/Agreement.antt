-- ===== src/Release/OneSplit/Agreement.antt =====
-- When the pools that the allocation run wrote are taken.
use harmony_migration.Base.{
  ℕ, ◌+◌, ◌-◌, ◌≤◌, ◌≡◌, refl, sym, ap, ◌∙◌, Bool, true, false, Option, some, List, arith, not,
  ◌==◌, if◌then◌else◌, ok_injective, Text, Dict, lookup, ok, err, raise_if, >>=-eq-ok, ◌>>◌,
}
use harmony_migration.Base.Int.{pos, ◌+ℤ◌, eqb_ℤ}
use harmony_migration.Base.Order.{text_ordered}
use harmony_migration.Base.Keys.{nat_eq_refl}
use harmony_migration.Bridge.Allocations.{
  Pool, PoolSummary, Row, build_pool, share_out, summary_of, account_rows, accounts_of,
}
use harmony_migration.Bridge.Allocations.Collateral.{build_pool-Closes}
use harmony_migration.Release.OneSplit.{
  parts_sum, is_off, split_row, split_pool, parts_do_not_add_up,
}

sum_of_parts :
    (c a b m : ℕ) → a + b + m ≤ c → pos a +ℤ pos b +ℤ pos m +ℤ pos (c - a - b) ≡ pos (c + m)
unfolding ◌+ℤ◌
sum_of_parts c a b m h = ground arith

eqb_ℤ-pos : (c m : ℕ) → eqb_ℤ (pos (c + m)) (pos c) ≡ (m == 0)
eqb_ℤ-pos c m = ground arith

built_collateral :
    (address : Text → Option Text) (pool : Pool) {s : PoolSummary} {rows : List Row}
    → build_pool address pool ≡ ok (s, rows)
    → s.collateral_raw ≡ pool.collateral
unfolding build_pool share_out summary_of
built_collateral address pool h =
    let (rows0, _, h1) = >>=-eq-ok (account_rows address pool (accounts_of pool)) _ h in
    ap (λ x. (x.0).collateral_raw) (sym (ok_injective h1))

is_off-built :
    (collateral : ℕ) (s : PoolSummary)
    → s.collateral_raw ≡ collateral
    → s.retained_raw ≡ pos (collateral - s.claimable_raw - s.held_raw)
    → s.claimable_raw + s.held_raw + s.below_minimum_raw ≤ collateral
    → is_off s collateral ≡ not (s.below_minimum_raw == 0)
unfolding is_off parts_sum
is_off-built c s h r le =
    let sum = sum_of_parts c s.claimable_raw s.held_raw s.below_minimum_raw le in
    rw (h, nat_eq_refl c, r, sum, eqb_ℤ-pos c s.below_minimum_raw) refl

-- A pool that the allocation run built, whose summary is in the table under the name, and that
-- is funded with its collateral, is taken where the shares below the claim minimum come to
-- nothing, and refused otherwise.
pub split_pool-built :
    (address : Text → Option Text) (pool : Pool) (table : Dict Text PoolSummary) (name : Text)
    {s : PoolSummary} {rows : List Row}
    → build_pool address pool ≡ ok (s, rows)
    → lookup name table ≡ some s
    → split_pool table name pool.collateral
      ≡ (if s.below_minimum_raw == 0 then ok s else err parts_do_not_add_up)
unfolding split_pool split_row
split_pool-built address pool table name {s} h found =
    let (closes, _) = build_pool-Closes address pool h in
    let off = is_off-built pool.collateral s (built_collateral address pool h) closes.0 closes.1 in
    ap (λ o. split_row o pool.collateral) found
    ∙ ap (λ b. raise_if b parts_do_not_add_up >> ok s) off
    ∙ refused_or_taken (s.below_minimum_raw == 0)
  where
    refused_or_taken :
        (b : Bool)
        → (raise_if (not b) parts_do_not_add_up >> ok s)
          ≡ (if b then ok s else err parts_do_not_add_up)
    refused_or_taken true = refl
    refused_or_taken false = refl
