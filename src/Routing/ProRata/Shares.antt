-- ===== src/Routing/ProRata/Shares.antt =====
-- The shares of `pro_rata`: rounding down leaves fewer units over than positions, and the extras
-- go to positions that were rounded.
use mathlib.Core.Path.{subst}
use native.Mathlib.Decide.{dec_lt}
use harmony_migration.Base.{
  ℕ, zero, suc, ◌+◌, ◌*◌, ◌≤◌, ◌<◌, ◌≡◌, refl, List, [], ◌∷◌, map, arith, take, sum_of, length, All,
  false,
}
use harmony_migration.Base.Int.{◌-ℤ◌}
use harmony_migration.Base.Order.{text_ordered}
use harmony_migration.Base.Keys.{nat_ordered, int_ordered, pair_ordered}
use harmony_migration.Base.Sorting.{IsSorted}
use harmony_migration.Routing.ProRata.{Position, Quota, quota, remainder_key}

-- A quota's parts: the share rounded down, and what the rounding lost.
pub quota_parts :
    (amount total : ℕ) (e : ℕ × Position)
    → 0 < total
    → ((quota amount total e).share * total + (quota amount total e).remainder
        ≡ amount * e.1.remaining)
      × ((quota amount total e).remainder < total)
unfolding quota
quota_parts amount total (i, p) h = grind arith

pub sum_of-quotas :
    (amount total : ℕ) (es : List (ℕ × Position))
    → 0 < total
    → sum_of (λ q. q.share) (map (quota amount total) es) * total
        + sum_of (λ q. q.remainder) (map (quota amount total) es)
      ≡ amount * sum_of (λ (i, p). p.remaining) es
sum_of-quotas amount total [] h = omega arith
sum_of-quotas amount total (e ∷ es) h =
    omega (arith, quota_parts amount total e h, sum_of-quotas amount total es h)

-- Sorted by `remainder_key`, the remainders fall.
abbrev pub Falling : List Quota → Type 0
Falling [] = Unit
Falling (q ∷ qs) = All (λ r. r.remainder ≤ q.remainder) qs × Falling qs

falling_head :
    (q : Quota) (qs : List Quota)
    → All (λ r. pair_ordered.lt (remainder_key r) (remainder_key q) ≡ false) qs
    → All (λ r. r.remainder ≤ q.remainder) qs
unfolding ◌-ℤ◌
falling_head q [] h = tt
falling_head q (r ∷ qs) h = (ground (arith, h.0), falling_head q qs h.1)

pub IsSorted-Falling : (qs : List Quota) → IsSorted remainder_key qs → Falling qs
IsSorted-Falling [] h = tt
IsSorted-Falling (q ∷ qs) h = (falling_head q qs h.0, IsSorted-Falling qs h.1)

sum_of-zero : (qs : List Quota) → All (λ r. r.remainder ≤ 0) qs → sum_of (λ q. q.remainder) qs ≡ 0
sum_of-zero [] h = refl
sum_of-zero (q ∷ qs) h = omega (arith, sum_of-zero qs h.1)

no_room : (total extras : ℕ) → 0 < total → suc extras * total ≤ 0 → ⊥
no_room total extras p h = grind arith

one_fewer :
    (total extras r rest : ℕ) → r < total → suc extras * total ≤ r + rest → extras * total ≤ rest
one_fewer total extras r rest h k = grind arith

head_rounded :
    (total extras : ℕ) (q : Quota) (qs : List Quota)
    → 0 < total
    → All (λ r. r.remainder ≤ q.remainder) qs
    → suc extras * total ≤ q.remainder + sum_of (λ r. r.remainder) qs
    → 0 < q.remainder
head_rounded total extras q qs p f h = elim (dec_lt 0 q.remainder) [
  | yes above ↦ above
  | no low ↦
      let z : q.remainder ≡ 0 = omega arith in
      absurd (
        no_room total extras p
          (omega (arith, h, sum_of-zero qs (subst (λ n. All (λ r. r.remainder ≤ n) qs) z f))))
]

-- If the remainders add up to `extras` totals, the first `extras` of them are above zero.
pub extras_were_rounded :
    (total extras : ℕ) (qs : List Quota)
    → 0 < total
    → Falling qs
    → All (λ q. q.remainder < total) qs
    → extras * total ≤ sum_of (λ q. q.remainder) qs
    → (extras ≤ length qs) × All (λ q. 0 < q.remainder) (take extras qs)
extras_were_rounded total zero qs some_total f b h = (omega arith, tt)
extras_were_rounded total (suc extras) [] some_total f b h =
    absurd (no_room total extras some_total h)
extras_were_rounded total (suc extras) (q ∷ qs) some_total f b h =
    let (fits, rounded) =
      extras_were_rounded total extras qs some_total f.1 b.1 (one_fewer total extras _ _ b.0 h) in
    (omega (arith, fits), (head_rounded total extras q qs some_total f.0 h, rounded))
