-- ===== src/Chain/Search/Found.antt =====
-- What the searches find.
use harmony_migration.Base.{
  ℕ, zero, suc, ◌+◌, ◌-◌, ◌/◌, ◌≤◌, ◌<◌, ◌≡◌, ◌⊎◌, refl, sym, ap, ◌∙◌, inl, inr, Bool, true, false,
  Bool-cases, ltb, ltb→lt, leb→le, leb, arith, some, ok, err,
}
use harmony_migration.Chain.Search.{no_code, search, first_block_at_or_after, deployment_block}

-- A block in the range that passes the test, or the last one; the block before it, if the range
-- has one, does not pass.
abbrev pub IsFirst : (ℕ → Bool) → ℕ → ℕ → ℕ → Type 0
IsFirst test low high block =
    (low ≤ block)
    × (block ≤ high)
    × ((block ≡ high) ⊎ (test block ≡ true))
    × ((block ≡ low) ⊎ ((before : ℕ) × (block ≡ before + 1) × (test before ≡ false)))

widen_high :
    (test : ℕ → Bool) (low high middle block : ℕ)
    → middle ≤ high
    → test middle ≡ true
    → IsFirst test low middle block
    → IsFirst test low high block
widen_high test low high middle block le t (a, b, inl e, d) =
    (a, omega arith, inr (ap test e ∙ t), d)
widen_high test low high middle block le t (a, b, inr e, d) = (a, omega arith, inr e, d)

widen_low :
    (test : ℕ → Bool) (low high middle block : ℕ)
    → low ≤ middle
    → test middle ≡ false
    → IsFirst test (middle + 1) high block
    → IsFirst test low high block
widen_low test low high middle block le t (a, b, c, inl e) = (omega arith, b, c, inr (middle, e, t))
widen_low test low high middle block le t (a, b, c, inr e) = (omega arith, b, c, inr e)

search-IsFirst :
    (test : ℕ → Bool) (fuel low high : ℕ)
    → low ≤ high
    → high - low < fuel
    → (block : ℕ) × (search test fuel low high ≡ some block) × IsFirst test low high block
unfolding search
search-IsFirst test zero low high le f = absurd (omega arith)
search-IsFirst test (suc fuel) low high le f = elim (Bool-cases (ltb low high)) [
  | inr e ↦
      let same : low ≡ high = ground arith in
      (low, rw (search, e) refl, (omega arith, le, inl same, inl refl))
  | inl e ↦
      let middle = (low + high) / 2 in
      let lt = ltb→lt low high e in
      elim (Bool-cases (test middle)) [
        | inl t ↦
            let (block, found, first) =
              search-IsFirst test fuel low middle (omega arith) (omega arith) in
            (
              block,
              rw (search, e, t) found,
              widen_high test low high middle block (omega arith) t first,
            )
        | inr t ↦
            let (block, found, first) =
              search-IsFirst test fuel (middle + 1) high (omega arith) (omega arith) in
            (
              block,
              rw (search, e, t) found,
              widen_low test low high middle block (omega arith) t first,
            )
      ]
]

true_is_not_false : true ≡ false → ⊥
true_is_not_false h = cc

leb-false : (a b : ℕ) → leb a b ≡ false → b < a
leb-false a b h = ground arith

leb_mono : (a b c : ℕ) → b ≤ c → leb a b ≡ true → leb a c ≡ true
leb_mono a b c le h = ground arith

at_or_after :
    (t time high block : ℕ) → (block ≡ high) ⊎ (leb t time ≡ true) → (block ≡ high) ⊎ (t ≤ time)
at_or_after t time high block (inl e) = inl e
at_or_after t time high block (inr h) = inr (leb→le t time h)

has_at :
    (has_code : ℕ → Bool) (high block : ℕ)
    → has_code high ≡ true
    → (block ≡ high) ⊎ (has_code block ≡ true)
    → has_code block ≡ true
has_at has_code high block h (inl e) = ap has_code e ∙ h
has_at has_code high block h (inr e) = e

below-first :
    (test : ℕ → Bool) (low high block b : ℕ)
    → ((c d : ℕ) → c ≤ d → test c ≡ true → test d ≡ true)
    → IsFirst test low high block
    → low ≤ b
    → b < block
    → test b ≡ false
below-first test low high block b mono (a, e, c, inl same) le lt = absurd (omega arith)
below-first test low high block b mono (a, e, c, inr (before, next, t)) le lt =
    elim (Bool-cases (test b)) [
      | inl yes_b ↦ absurd (true_is_not_false (sym (mono b before (omega arith) yes_b) ∙ t))
      | inr no_b ↦ no_b
    ]

-- Where the range is not empty and timestamps never fall, `first_block_at_or_after` finds a block of
-- the range: every earlier block of the range is before the given time, and the block itself is
-- not, unless it is the last one of the range.
pub first_block_found :
    (timestamp_of : ℕ → ℕ) (timestamp low high : ℕ)
    → low ≤ high
    → ((a b : ℕ) → a ≤ b → timestamp_of a ≤ timestamp_of b)
    → (block : ℕ) × (first_block_at_or_after timestamp_of timestamp low high ≡ some block)
      × (low ≤ block)
      × (block ≤ high)
      × ((block ≡ high) ⊎ (timestamp ≤ timestamp_of block))
      × ((b : ℕ) → low ≤ b → b < block → timestamp_of b < timestamp)
unfolding first_block_at_or_after
first_block_found timestamp_of timestamp low high le mono =
    let test : ℕ → Bool = λ b. leb timestamp (timestamp_of b) in
    let (block, found, first) = search-IsFirst test (high - low + 1) low high le (omega arith) in
    (
      block,
      found,
      first.0,
      first.1,
      at_or_after timestamp (timestamp_of block) high block (first.2),
      (λ b after before. leb-false timestamp (timestamp_of b) (
          below-first test low high block b (λ c d l t. leb_mono timestamp _ _ (mono c d l) t) first
            after before)),
    )

-- Where code once there stays there, `deployment_block` raises if the contract has no code at the
-- last block, and otherwise answers with a block such that the contract has code from it on, and
-- none before.
pub deployment_block_found :
    (has_code : ℕ → Bool) (high : ℕ)
    → ((a b : ℕ) → a ≤ b → has_code a ≡ true → has_code b ≡ true)
    → ((has_code high ≡ false) × (deployment_block has_code high ≡ err no_code))
      ⊎ ((block : ℕ) × (deployment_block has_code high ≡ ok block)
          × (block ≤ high)
          × ((b : ℕ) → block ≤ b → has_code b ≡ true)
          × ((b : ℕ) → b < block → has_code b ≡ false))
unfolding deployment_block
deployment_block_found has_code high mono = elim (Bool-cases (has_code high)) [
  | inr e ↦ inl (e, rw e refl)
  | inl e ↦
      let (block, found, first) =
        search-IsFirst has_code (high + 1) 0 high (omega arith) (omega arith) in
      inr (
        block,
        rw (e, found) refl,
        first.1,
        (λ b le. mono block b le (has_at has_code high block e (first.2))),
        (λ b lt. below-first has_code 0 high block b mono first (omega arith) lt),
      )
]
