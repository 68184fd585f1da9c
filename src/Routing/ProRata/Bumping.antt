-- ===== src/Routing/ProRata/Bumping.antt =====
-- Handing out the extras: each chosen position gets one unit more, and has room for it.
use harmony_migration.Base.{
  ℕ, ◌+◌, ◌≡◌, ◌≢◌, ◌⊎◌, inl, inr, List, [], ◌∷◌, ◌==◌, arith, sum_of, length, All, AllPairs,
  Bool-cases, true,
}
use harmony_migration.Routing.ProRata.{Position, bump, bump_all}
use harmony_migration.Routing.ProRata.Settling.{Fits, Distinct}

abbrev pub Has : ℕ → List (ℕ × ℕ) → Type 0
Has i [] = ⊥
Has i (a ∷ rest) = (i ≡ a.0) ⊎ Has i rest

-- The entry of `i`, where there is one, could be one unit larger.
abbrev pub HasRoom : List Position → ℕ → List (ℕ × ℕ) → Type 0
HasRoom positions i allocs = All (λ a. i ≡ a.0 → Fits positions (a.0, a.1 + 1)) allocs

abbrev pub DistinctIndices : List ℕ → Type 0
DistinctIndices = AllPairs (λ i j. i ≢ j)

sum_of-bump :
    (i : ℕ) (allocs : List (ℕ × ℕ))
    → Has i allocs
    → sum_of (λ (j, share). share) (bump i allocs) ≡ sum_of (λ (j, share). share) allocs + 1
unfolding bump
sum_of-bump i [] h = absurd h
sum_of-bump i ((j, share) ∷ rest) h = ground (arith, sum_of-bump i rest)

Has-bump : (i j : ℕ) (allocs : List (ℕ × ℕ)) → Has j allocs → Has j (bump i allocs)
unfolding bump
Has-bump i j [] h = h
Has-bump i j ((k, share) ∷ rest) h = ground (arith, Has-bump i j rest)

fresh-bump :
    (i k : ℕ) (allocs : List (ℕ × ℕ))
    → All (λ b. k ≢ b.0) allocs
    → All (λ b. k ≢ b.0) (bump i allocs)
unfolding bump
fresh-bump i k [] h = h
fresh-bump i k ((j, share) ∷ rest) h = elim (Bool-cases (i == j)) [
  | inl e ↦ rw e h
  | inr e ↦ rw e ((h.0, fresh-bump i k rest h.1))
]

Distinct-bump : (i : ℕ) (allocs : List (ℕ × ℕ)) → Distinct allocs → Distinct (bump i allocs)
unfolding bump
Distinct-bump i [] h = h
Distinct-bump i ((j, share) ∷ rest) h = elim (Bool-cases (i == j)) [
  | inl e ↦ rw e h
  | inr e ↦ rw e ((fresh-bump i j rest h.0, Distinct-bump i rest h.1))
]

module _ (positions : List Position) where
  Fits-bump :
      (i : ℕ) (allocs : List (ℕ × ℕ))
      → All (Fits positions) allocs
      → HasRoom positions i allocs
      → All (Fits positions) (bump i allocs)
  unfolding bump
  Fits-bump i [] h r = h
  Fits-bump i ((j, share) ∷ rest) h r = elim (Bool-cases (i == j)) [
    | inl e ↦ rw e ((r.0 (ground arith), h.1))
    | inr e ↦ rw e ((h.0, Fits-bump i rest h.1 r.1))
  ]

  HasRoom-bump :
      (i k : ℕ) (allocs : List (ℕ × ℕ))
      → i ≢ k
      → HasRoom positions k allocs
      → HasRoom positions k (bump i allocs)
  unfolding bump
  HasRoom-bump i k [] d r = r
  HasRoom-bump i k ((j, share) ∷ rest) d r = elim (Bool-cases (i == j)) [
    | inl e ↦ rw e (((λ p. absurd (d (omega (arith, same i j e, p)))), r.1))
    | inr e ↦ rw e ((r.0, HasRoom-bump i k rest d r.1))
  ]
    where
      same : (a b : ℕ) → (a == b) ≡ true → a ≡ b
      same a b h = ground arith

  -- What an index needs to be chosen.
  abbrev pub Choosable : List (ℕ × ℕ) → ℕ → Type 0
  Choosable allocs i = Has i allocs × HasRoom positions i allocs

  Choosable-bump :
      (i : ℕ) (chosen : List ℕ) (allocs : List (ℕ × ℕ))
      → All (λ j. i ≢ j) chosen
      → All (Choosable allocs) chosen
      → All (Choosable (bump i allocs)) chosen
  Choosable-bump i [] allocs d h = tt
  Choosable-bump i (j ∷ chosen) allocs d h = (
    (Has-bump i j allocs h.0.0, HasRoom-bump i j allocs d.0 h.0.1),
    Choosable-bump i chosen allocs d.1 h.1,
  )

  pub bump_all_lem :
      (chosen : List ℕ) (allocs : List (ℕ × ℕ))
      → DistinctIndices chosen
      → All (Choosable allocs) chosen
      → Distinct allocs
      → All (Fits positions) allocs
      → Distinct (bump_all chosen allocs)
        × All (Fits positions) (bump_all chosen allocs)
        × (sum_of (λ (j, share). share) (bump_all chosen allocs)
            ≡ sum_of (λ (j, share). share) allocs + length chosen)
  unfolding bump_all
  bump_all_lem [] allocs dc c d f = (d, f, omega arith)
  bump_all_lem (i ∷ chosen) allocs dc c d f =
      let (d', f', s) =
        bump_all_lem chosen (bump i allocs) dc.1 (Choosable-bump i chosen allocs dc.0 c.1)
          (Distinct-bump i allocs d) (Fits-bump i allocs f c.0.1) in
      (d', f', omega (arith, s, sum_of-bump i allocs c.0.0))
