-- ===== src/Routing/ProRata/Totality.antt =====
-- `pro_rata` answers every amount that the positions hold, and takes exactly that amount.
use mathlib.Core.Path.{subst}
use native.Mathlib.Decide.{dec_lt}
use harmony_migration.Base.{
  ℕ, suc, ◌+◌, ◌-◌, ◌*◌, ◌≤◌, ◌<◌, ◌≡◌, ◌≢◌, inl, inr, refl, sym, ap, ◌∙◌, some, List, [], ◌∷◌, map,
  ltb, arith, take, keep, enumerate, get_elem?, sum_of, All, AllPairs, All-imp, All-take,
  AllPairs-take, All-keep, AllPairs-keep, All-map, AllPairs-map, length-map, length-take, ok, err,
}
use harmony_migration.Base.Keys.{nat_ordered, int_ordered, pair_ordered}
use harmony_migration.Base.Order.{text_ordered}
use harmony_migration.Base.Sorting.{
  sort_by, sort_by-IsSorted, sum_of-sort_by, All-sort_by, sort_by-AllPairs,
}
use harmony_migration.Routing.ProRata.{
  bump_all, Position, Quota, quota, remainder_key, quotas, available, allocations, settle, pro_rata,
  exceeds_vault_position,
}
use harmony_migration.Routing.ProRata.Shares.{
  quota_parts, sum_of-quotas, Falling, IsSorted-Falling, extras_were_rounded,
}
use harmony_migration.Routing.ProRata.Settling.{Fits, Distinct, Settled, settle-Settled}
use harmony_migration.Routing.ProRata.Bumping.{HasRoom, Choosable, bump_all_lem}

abbrev pub total_remaining : List Position → ℕ
total_remaining = sum_of (λ p. p.remaining)

sum_of-available_from :
    (k : ℕ) (xs : List Position)
    → sum_of (λ (i, p). p.remaining) (keep (λ (i, p). ltb 0 p.remaining) (enumerate k xs))
      ≡ total_remaining xs
sum_of-available_from k [] = refl
sum_of-available_from k (p ∷ xs) = ground (arith, sum_of-available_from (suc k) xs)

pub sum_of-available :
    (xs : List Position) → sum_of (λ (i, p). p.remaining) (available xs) ≡ total_remaining xs
unfolding available
sum_of-available xs = sum_of-available_from 0 xs

All-both : (P Q : Quota → Type 0) (qs : List Quota) → All (λ q. P q → Q q) qs → All P qs → All Q qs
All-both P Q [] h p = tt
All-both P Q (q ∷ qs) h p = (h.0 p.0, All-both P Q qs h.1 p.1)

sum_of-allocs :
    (qs : List Quota)
    → sum_of (λ (i, share). share) (map (λ q. (q.index, q.share)) qs) ≡ sum_of (λ q. q.share) qs
sum_of-allocs [] = refl
sum_of-allocs (q ∷ qs) = omega (arith, sum_of-allocs qs)

-- What `enumerate` says of each kept position.
abbrev IsOpen : List Position → ℕ × Position → Type 0
IsOpen positions (i, p) = get_elem? positions i ≡ some p

enumerate-IsOpen :
    (positions : List Position) (k : ℕ) (xs : List Position)
    → ((j : ℕ) → get_elem? positions (k + j) ≡ get_elem? xs j)
    → All (IsOpen positions) (enumerate k xs)
enumerate-IsOpen positions k [] h = tt
enumerate-IsOpen positions k (p ∷ xs) h = (
  subst (λ n. get_elem? positions n ≡ some p) (omega arith) (h 0),
  enumerate-IsOpen positions (suc k) xs
      (λ j. subst (λ n. get_elem? positions n ≡ get_elem? xs j) (omega arith) (h (suc j))),
)

-- Indices come out in order, so no two are the same.
enumerate_above : (k n : ℕ) (xs : List Position) → k < n → All (λ e. k ≢ e.0) (enumerate n xs)
enumerate_above k n [] h = tt
enumerate_above k n (p ∷ xs) h = (omega arith, enumerate_above k (suc n) xs (omega arith))

enumerate-AllPairs : (k : ℕ) (xs : List Position) → AllPairs (λ a b. a.0 ≢ b.0) (enumerate k xs)
enumerate-AllPairs k [] = tt
enumerate-AllPairs k (p ∷ xs) =
    (enumerate_above k (suc k) xs (omega arith), enumerate-AllPairs (suc k) xs)

-- A share that fits, and with one unit more where it was rounded down.
share_fits :
    (amount total remaining share remainder : ℕ)
    → amount ≤ total
    → 0 < total
    → share * total + remainder ≡ amount * remaining
    → (share ≤ remaining) × (0 < remainder → share + 1 ≤ remaining)
share_fits amount total remaining share remainder h t e = (grind arith, λ r. grind arith)

left_over_units :
    (units shares total rest : ℕ)
    → shares * total + rest ≡ (units + shares) * total
    → units * total ≤ rest
left_over_units units shares total rest e = omega arith

-- What rounding down leaves over, in units and in totals.
left_over :
    (amount shares total rest : ℕ)
    → 0 < total
    → shares * total + rest ≡ amount * total
    → (shares ≤ amount) × ((amount - shares) * total ≤ rest)
left_over amount shares total rest t e =
    let below : shares ≤ amount = grind arith in
    (
      below,
      left_over_units (amount - shares) shares total rest (e ∙ ap (λ n. n * total) (omega arith)),
    )

module _ (amount : ℕ) (positions : List Position) where
  -- What a quota says of its position.
  abbrev IsQuota : ℕ → Quota → Type 0
  IsQuota total q =
      (p : Position) × (get_elem? positions q.index ≡ some p)
      × (q.share * total + q.remainder ≡ amount * p.remaining)
      × (q.remainder < total)

  at_index :
      (total : ℕ) (e : ℕ × Position)
      → IsOpen positions e
      → get_elem? positions (quota amount total e).index ≡ some e.1
  unfolding quota
  at_index total e h = h

  quotas_from-IsQuota :
      (total : ℕ) (es : List (ℕ × Position))
      → 0 < total
      → All (IsOpen positions) es
      → All (IsQuota total) (map (quota amount total) es)
  quotas_from-IsQuota total [] t h = tt
  quotas_from-IsQuota total ((i, p) ∷ es) t h =
      let (sum, small) = quota_parts amount total (i, p) t in
      ((p, at_index total (i, p) h.0, sum, small), quotas_from-IsQuota total es t h.1)

  abbrev allocs : List Quota → List (ℕ × ℕ)
  allocs = map (λ q. (q.index, q.share))

  quotas_fit :
      (total : ℕ) (qs : List Quota)
      → amount ≤ total
      → 0 < total
      → All (IsQuota total) qs
      → All (Fits positions) (allocs qs)
  quotas_fit total [] h t q = tt
  quotas_fit total (x ∷ qs) h t q =
      let (p, at, sum, small) = q.0 in
      (
        (p, at, (share_fits amount total p.remaining x.share x.remainder h t sum).0),
        quotas_fit total qs h t q.1,
      )

  others_have_room :
      (i : ℕ) (qs : List Quota) → All (λ q. i ≢ q.index) qs → HasRoom positions i (allocs qs)
  others_have_room i [] d = tt
  others_have_room i (q ∷ qs) d = ((λ e. absurd (d.0 e)), others_have_room i qs d.1)

  later-Choosable :
      (x : Quota) (entries : List (ℕ × ℕ)) (qs : List Quota)
      → All (λ q. x.index ≢ q.index) qs
      → All (λ q. 0 < q.remainder → Choosable positions entries q.index) qs
      → All (λ q. 0 < q.remainder → Choosable positions ((x.index, x.share) ∷ entries) q.index) qs
  later-Choosable x entries [] d h = tt
  later-Choosable x entries (q ∷ qs) d h = (
    (λ r. (inr (h.0 r).0, ((λ e. absurd (d.0 (sym e))), (h.0 r).1))),
    later-Choosable x entries qs d.1 h.1,
  )

  rounded-Choosable :
      (total : ℕ) (qs : List Quota)
      → amount ≤ total
      → 0 < total
      → AllPairs (λ a b. a.index ≢ b.index) qs
      → All (IsQuota total) qs
      → All (λ q. 0 < q.remainder → Choosable positions (allocs qs) q.index) qs
  rounded-Choosable total [] h t d q = tt
  rounded-Choosable total (x ∷ qs) h t d q =
      let (p, at, sum, small) = q.0 in
      let fits = share_fits amount total p.remaining x.share x.remainder h t sum in
      (
        (λ r. (inl refl, ((λ e. (p, at, fits.1 r)), others_have_room x.index qs d.0))),
        later-Choosable x (allocs qs) qs d.0 (rounded-Choosable total qs h t d.1 q.1),
      )

  -- The extras, over the quotas in the order in which they are handed out.
  extras_lem :
      (total : ℕ) (qs sorted : List Quota)
      → amount ≤ total
      → 0 < total
      → sum_of (λ q. q.share) qs * total + sum_of (λ q. q.remainder) qs ≡ amount * total
      → AllPairs (λ a b. a.index ≢ b.index) qs
      → All (IsQuota total) qs
      → Falling sorted
        × All (λ q. q.remainder < total) sorted
        × AllPairs (λ a b. a.index ≢ b.index) sorted
        × All (λ q. 0 < q.remainder → Choosable positions (allocs qs) q.index) sorted
        × (sum_of (λ q. q.remainder) sorted ≡ sum_of (λ q. q.remainder) qs)
      → let extras = amount - sum_of (λ q. q.share) qs in
        let dealt = bump_all (map (λ q. q.index) (take extras sorted)) (allocs qs) in
        Distinct dealt × All (Fits positions) dealt × (sum_of (λ (i, share). share) dealt ≡ amount)
  extras_lem total qs sorted h t sums d q (falling, small, distinct, choosable, same) =
      let S = sum_of (λ q. q.share) qs in
      let R = sum_of (λ q. q.remainder) qs in
      let extras = amount - S in
      let (enough, rounded) =
        extras_were_rounded total extras sorted t falling small
          (omega (arith, (left_over amount S total R t sums).1, same)) in
      let chosen = take extras sorted in
      let (d', f', s) =
        bump_all_lem positions (map (λ q. q.index) chosen) (allocs qs)
          (AllPairs-map (λ i j. i ≢ j) (λ q. q.index) chosen
            (AllPairs-take _ extras sorted distinct))
          (All-map (Choosable positions (allocs qs)) (λ q. q.index) chosen
            (All-both _ _ chosen (All-take _ extras sorted choosable) rounded))
          (AllPairs-map (λ a b. a.0 ≢ b.0) (λ q. (q.index, q.share)) qs d)
          (quotas_fit total qs h t q) in
      (
        d',
        f',
        omega (
          arith,
          s,
          enough,
          sum_of-allocs qs,
          length-map (λ q. q.index) chosen,
          length-take extras sorted,
          (left_over amount S total R t sums).0,
        ),
      )

  -- After the extras: every share fits, and the shares add up to the amount.
  allocations_lem :
      (total : ℕ) (qs : List Quota)
      → amount ≤ total
      → 0 < total
      → sum_of (λ q. q.share) qs * total + sum_of (λ q. q.remainder) qs ≡ amount * total
      → AllPairs (λ a b. a.index ≢ b.index) qs
      → All (IsQuota total) qs
      → Distinct (allocations amount qs)
        × All (Fits positions) (allocations amount qs)
        × (sum_of (λ (i, share). share) (allocations amount qs) ≡ amount)
  unfolding allocations
  allocations_lem total qs h t sums d q =
      extras_lem total qs (sort_by remainder_key qs) h t sums d q (
        IsSorted-Falling _ (sort_by-IsSorted remainder_key qs),
        All-sort_by remainder_key (λ q. q.remainder < total) qs
            (All-imp (IsQuota total) (λ q. q.remainder < total) qs (λ q (p, at, sum, small). small)
              q),
        sort_by-AllPairs remainder_key (λ a b. a.index ≢ b.index) qs (λ a b n e. n (sym e)) d,
        All-sort_by remainder_key (λ q. 0 < q.remainder → Choosable positions (allocs qs) q.index)
            qs (rounded-Choosable total qs h t d q),
        sum_of-sort_by remainder_key (λ q. q.remainder) qs,
      )

  quotas-AllPairs :
      (total : ℕ) (es : List (ℕ × Position))
      → AllPairs (λ a b. a.0 ≢ b.0) es
      → AllPairs (λ a b. a.index ≢ b.index) (map (quota amount total) es)
  unfolding quota
  quotas-AllPairs total es d = AllPairs-map (λ a b. a.index ≢ b.index) (quota amount total) es d

  -- An amount above zero is taken by the shares that `allocations` gives.
  taken_exactly :
      amount ≤ total_remaining positions
      → 0 < amount
      → Settled
          (sort_by (λ a. a) (allocations amount (quotas amount positions)))
          positions
          (settle (sort_by (λ a. a) (allocations amount (quotas amount positions))) positions)
        × (sum_of
              (λ (i, share). share)
              (sort_by (λ a. a) (allocations amount (quotas amount positions)))
            ≡ amount)
  unfolding quotas available
  taken_exactly h some_amount =
      let es = available positions in
      let total = sum_of (λ (i, p). p.remaining) es in
      let whole : total ≡ total_remaining positions = sum_of-available positions in
      let t : 0 < total = omega arith in
      let qs = quotas amount positions in
      let here =
        All-keep (IsOpen positions) (λ (i, p). ltb 0 p.remaining) (enumerate 0 positions)
          (enumerate-IsOpen positions 0 positions (λ j. ap (get_elem? positions) (omega arith))) in
      let apart =
        AllPairs-keep (λ a b. a.0 ≢ b.0) (λ (i, p). ltb 0 p.remaining) (enumerate 0 positions)
          (enumerate-AllPairs 0 positions) in
      let (d, f, s) =
        allocations_lem total qs (omega arith) t (sum_of-quotas amount total es t)
          (quotas-AllPairs total es apart) (quotas_from-IsQuota total es t here) in
      let as' = allocations amount qs in
      (
        settle-Settled (sort_by (λ a. a) as') positions
            (sort_by-AllPairs (λ a. a) (λ a b. a.0 ≢ b.0) as' (λ a b n e. n (sym e)) d)
            (All-sort_by (λ a. a) (Fits positions) as' f),
        sum_of-sort_by (λ a. a) (λ (i, share). share) as' ∙ s,
      )

  -- For every amount up to what the positions hold, `pro_rata` returns, none of its three errors
  -- is raised, the shares that it lists add up to the amount, and the positions hold that much less.
  pub pro_rata_total :
      amount ≤ total_remaining positions
      → (left : List Position) × (taken : List (Position × ℕ)) × (pro_rata amount positions
          ≡ ok (left, taken))
        × (sum_of (λ (p, share). share) taken ≡ amount)
        × (total_remaining left + amount ≡ total_remaining positions)
  unfolding pro_rata
  pro_rata_total h =
      let whole = sum_of-available positions in
      elim (dec_lt 0 amount) [
        | yes above ↦
            let ((left, taken, e, s, t), s') = taken_exactly h above in
            (left, taken, ground (arith, whole, e, s, s'), s ∙ s', omega (arith, t, s'))
        | no none_asked ↦
            let z : amount ≡ 0 = omega arith in
            (positions, [], ground (arith, whole), sym z, omega arith)
      ]

  -- A larger amount is refused.
  pub pro_rata_exceeds :
      total_remaining positions < amount → pro_rata amount positions ≡ err exceeds_vault_position
  unfolding pro_rata
  pro_rata_exceeds h = ground (arith, sum_of-available positions)
