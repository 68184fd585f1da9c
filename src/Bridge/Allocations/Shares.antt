-- ===== src/Bridge/Allocations/Shares.antt =====
-- The rows' parts of the collateral, rounded down.
use harmony_migration.Base.{
  ℕ, zero, suc, ◌+◌, ◌-◌, ◌*◌, ◌/◌, ◌≤◌, ◌<◌, ◌≡◌, refl, inl, inr, Bool-cases, List, [], ◌∷◌, map,
  if◌then◌else◌, arith, sum_of, keep, length, All,
}
use harmony_migration.Base.Order.{text_ordered}
use harmony_migration.Base.Keys.{pair_ordered}
use harmony_migration.Bridge.Allocations.{
  Row, is_claimable, is_held, is_below, is_eligible, eligible_of, allocate, sum_where,
}
use harmony_migration.Bridge.Allocations.Fresh.{IsFresh}

-- A row's part of the collateral, rounded down.
abbrev pub part : ℕ → ℕ → Row → ℕ
part n d row = if is_eligible row.status then row.gross_raw * n / d else 0

-- The three ways in which a row's part is accounted for.
allocate-part :
    (minimum n d : ℕ) (row : Row)
    → IsFresh row
    → (let r = allocate minimum (n, d) row in
        (if is_claimable r.status then r.allocation_raw else 0)
        + (if is_held r.status then r.allocation_raw else 0)
        + (if is_below r.status then r.gross_raw * n / d else 0))
      ≡ part n d row
unfolding allocate
allocate-part minimum n d row h = ground arith

pub allocate_parts :
    (minimum n d : ℕ) (rows : List Row)
    → All IsFresh rows
    → sum_where is_claimable (λ r. r.allocation_raw) (map (allocate minimum (n, d)) rows)
        + sum_where is_held (λ r. r.allocation_raw) (map (allocate minimum (n, d)) rows)
        + sum_where is_below (λ r. r.gross_raw * n / d) (map (allocate minimum (n, d)) rows)
      ≡ sum_of (part n d) rows
allocate_parts minimum n d [] h = refl
allocate_parts minimum n d (row ∷ rows) h =
    omega (arith, allocate-part minimum n d row h.0, allocate_parts minimum n d rows h.1)

floor_parts : (a d : ℕ) → 0 < d → (a / d * d ≤ a) × (a < a / d * d + d)
floor_parts a d h = grind arith

part_parts :
    (n d : ℕ) (row : Row)
    → 0 < d
    → (part n d row * d ≤ (if is_eligible row.status then row.gross_raw else 0) * n)
      × ((if is_eligible row.status then row.gross_raw else 0) * n
          ≤ part n d row * d + (if is_eligible row.status then d - 1 else 0))
part_parts n d row h = elim (Bool-cases (is_eligible row.status)) [
  | inl e ↦ let f = floor_parts (row.gross_raw * n) d h in rw e ((f.0, omega (arith, f.1)))
  | inr e ↦ rw e ((omega arith, omega arith))
]

-- The number of rows that take part.
abbrev pub eligible_rows : List Row → ℕ
eligible_rows rows = length (keep (λ r. is_eligible r.status) rows)

sum_of-part :
    (n d : ℕ) (rows : List Row)
    → 0 < d
    → (sum_of (part n d) rows * d ≤ eligible_of rows * n)
      × (eligible_of rows * n ≤ sum_of (part n d) rows * d + eligible_rows rows * (d - 1))
unfolding eligible_of
sum_of-part n d [] h = (omega arith, omega arith)
sum_of-part n d (row ∷ rows) h =
    let p = part_parts n d row h in
    let rest = sum_of-part n d rows h in
    elim (Bool-cases (is_eligible row.status)) [
      | inl e ↦ grind (arith, e, p, rest)
      | inr e ↦ grind (arith, e, p, rest)
    ]

scaled_le : (x e c : ℕ) → 0 < e → x * e ≤ e * c → x ≤ c
scaled_le x e c h k = grind arith

scaled_bound : (x e c k : ℕ) → 0 < e → e * c ≤ x * e + k * (e - 1) → c ≤ x + k
scaled_bound x zero c k h le = omega arith
scaled_bound x (suc d) c k h le =
    let below : k * (suc d - 1) ≤ k * suc d = grind arith in
    scaled_le c (suc d) (x + k) h (grind (arith, le, below))

-- The scaled shares fit the collateral, and lose less than one unit each.
pub scaled-sum :
    (collateral : ℕ) (rows : List Row)
    → collateral < eligible_of rows
    → (sum_of (part collateral (eligible_of rows)) rows ≤ collateral)
      × (collateral ≤ sum_of (part collateral (eligible_of rows)) rows + eligible_rows rows)
scaled-sum collateral rows h =
    let e = eligible_of rows in
    let s = sum_of-part collateral e rows (omega arith) in
    (
      scaled_le (sum_of (part collateral e) rows) e collateral (omega arith) (s.0),
      scaled_bound (sum_of (part collateral e) rows) e collateral (eligible_rows rows) (omega arith)
          (s.1),
    )

pub unscaled-sum : (rows : List Row) → sum_of (part 1 1) rows ≡ eligible_of rows
unfolding eligible_of
unscaled-sum [] = refl
unscaled-sum (row ∷ rows) =
    let rest = unscaled-sum rows in
    elim (Bool-cases (is_eligible row.status)) [
      | inl e ↦ grind (arith, e, rest)
      | inr e ↦ grind (arith, e, rest)
    ]
