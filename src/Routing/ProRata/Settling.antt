-- ===== src/Routing/ProRata/Settling.antt =====
-- The loop that takes the shares from their positions, where every share fits.
use harmony_migration.Base.{
  ℕ, ◌+◌, ◌-◌, ◌≤◌, ◌≡◌, ◌≢◌, refl, ap, ◌∙◌, some, List, [], ◌∷◌, ◌==◌, arith, get_elem?, set,
  get_elem?-set_ne, sum_of, sum_of-set, All, AllPairs, ok, Result, ◌>>=◌, false, true, inl, inr,
  Bool-cases,
}
use harmony_migration.Routing.ProRata.{Position, RateError, settle}

-- A share that its position can give.
abbrev pub Fits : List Position → ℕ × ℕ → Type 0
Fits positions (i, share) =
    (p : Position) × (get_elem? positions i ≡ some p) × (share ≤ p.remaining)

-- No position is listed twice.
abbrev pub Distinct : List (ℕ × ℕ) → Type 0
Distinct = AllPairs (λ a b. a.0 ≢ b.0)

Fits-set :
    (positions : List Position) (i : ℕ) (p : Position) (rest : List (ℕ × ℕ))
    → All (λ b. i ≢ b.0) rest
    → All (Fits positions) rest
    → All (Fits (set positions i p)) rest
Fits-set positions i p [] d h = tt
Fits-set positions i p (b ∷ rest) d h = (
  (h.0.0, get_elem?-set_ne positions i b.0 p d.0 ∙ h.0.1, h.0.2),
  Fits-set positions i p rest d.1 h.1,
)

-- What `settle` leaves and takes.
abbrev pub Settled :
    List (ℕ × ℕ) → List Position → Result RateError (List Position × List (Position × ℕ)) → Type 0
Settled allocs positions r =
    (left : List Position) × (taken : List (Position × ℕ)) × (r ≡ ok (left, taken))
    × (sum_of (λ (p, share). share) taken ≡ sum_of (λ (i, share). share) allocs)
    × (sum_of (λ p. p.remaining) left + sum_of (λ (i, share). share) allocs
        ≡ sum_of (λ p. p.remaining) positions)

settle_nil : (positions : List Position) → settle [] positions ≡ ok (positions, [])
unfolding settle
settle_nil positions = refl

settle_skip :
    (i share : ℕ) (rest : List (ℕ × ℕ)) (positions : List Position)
    → (share == 0) ≡ true
    → settle ((i, share) ∷ rest) positions ≡ settle rest positions
unfolding settle
settle_skip i share rest positions e = rw e

settle_step :
    (i share : ℕ) (rest : List (ℕ × ℕ)) (positions : List Position) (p : Position)
    → get_elem? positions i ≡ some p
    → share ≤ p.remaining
    → (share == 0) ≡ false
    → settle ((i, share) ∷ rest) positions ≡ (
        settle rest (set positions i (record p { remaining = p.remaining - share }))
        >>= λ (left, taken).
            ok (left, (record p { remaining = p.remaining - share }, share) ∷ taken))
unfolding settle
settle_step i share rest positions p e h n = ground (arith, e)

pub settle-Settled :
    (allocs : List (ℕ × ℕ)) (positions : List Position)
    → Distinct allocs
    → All (Fits positions) allocs
    → Settled allocs positions (settle allocs positions)
settle-Settled [] positions d h = (positions, [], settle_nil positions, refl, omega arith)
settle-Settled ((i, share) ∷ rest) positions d h = elim (Bool-cases (share == 0)) [
  | inl nothing ↦
      let (left, taken, e, s, t) = settle-Settled rest positions d.1 h.1 in
      (
        left,
        taken,
        settle_skip i share rest positions nothing ∙ e,
        ground (arith, s),
        ground (arith, t),
      )
  | inr some_share ↦
      let (p, at, fits) = h.0 in
      let p' : Position = record p { remaining = p.remaining - share } in
      let (left, taken, e, s, t) =
        settle-Settled rest (set positions i p') d.1 (Fits-set positions i p' rest d.0 h.1) in
      (
        left,
        (p', share) ∷ taken,
        settle_step i share rest positions p at fits some_share
            ∙ ap (λ r. r >>= λ (l, k). ok (l, (p', share) ∷ k)) e,
        omega (arith, s),
        omega (arith, t, sum_of-set (λ p. p.remaining) positions i p' p at),
      )
]
