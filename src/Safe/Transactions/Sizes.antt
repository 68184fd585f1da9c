-- ===== src/Safe/Transactions/Sizes.antt =====
-- The sizes of the Safe transactions, and the slices of those sizes.
use native.Mathlib.Nat.{div-add-mod, mod-lt, lt-mul-div-succ, div-le_of_le-mul, le-div_iff_mul-le}
use harmony_migration.Base.{
  ℕ, zero, suc, ◌+◌, ◌-◌, ◌*◌, ◌/◌, ◌%◌, ◌≤◌, ◌<◌, ◌≡◌, inl, inr, refl, ap, ◌∙◌, false, Option,
  none, some, List, [], ◌∷◌, ◌++◌, arith, ltb, ◌==◌, Bool-cases, length, take, drop, All,
  take-append-drop, length-take, length-drop, sum_of, sum_of-append, ok,
}
use harmony_migration.Abi.Bytes.{All-append}
use harmony_migration.Airdrop.Recipients.Chunks.{concat}
use harmony_migration.Safe.Transactions.{repeat, parts_of, near_equal, min_of, split_sizes, slices}

-- The sum of some sizes.
abbrev pub total : List ℕ → ℕ
total = sum_of (λ s. s)

total-repeat : (n s : ℕ) → total (repeat n s) ≡ n * s
total-repeat zero s = omega arith
total-repeat (suc n) s = grind (arith, total-repeat n s)

repeat-All : (P : ℕ → Type 0) (n s : ℕ) → (0 < n → P s) → All P (repeat n s)
repeat-All P zero s h = tt
repeat-All P (suc n) s h = (h (omega arith), repeat-All P n s (λ k. h (omega arith)))

-- The near-equal parts of a number, in two sizes that differ by one.
abbrev parts : ℕ → ℕ → List ℕ
parts left p = repeat (left % p) (left / p + 1) ++ repeat (p - left % p) (left / p)

shares_add : (b e d : ℕ) → e * (b + 1) + d * b ≡ (d + e) * b + e
shares_add b e d = grind arith

total-parts : (left p : ℕ) → 0 < p → total (parts left p) ≡ left
total-parts left p h =
    let e = left % p in
    let b = left / p in
    let whole : p - e + e ≡ p = omega (arith, mod-lt left h) in
    sum_of-append (λ s. s) (repeat e (b + 1)) (repeat (p - e) b)
    ∙ (λ i. total-repeat e (b + 1) i + total-repeat (p - e) b i)
    ∙ shares_add b e (p - e)
    ∙ ap (λ n. n * b + e) whole
    ∙ div-add-mod left p

-- Enough parts keep each at most the given size.
abbrev pub AtMost : ℕ → List ℕ → Type 0
AtMost n = All (λ s. s ≤ n)

parts-AtMost : (left p n : ℕ) → 0 < p → left ≤ p * n → AtMost n (parts left p)
parts-AtMost left p n h k =
    let low : left / p ≤ n = div-le_of_le-mul p k in
    All-append (λ s. s ≤ n) (repeat (left % p) (left / p + 1)) (repeat (p - left % p) (left / p))
      (repeat-All (λ s. s ≤ n) (left % p) (left / p + 1)
        (λ some_left. one_more (left / p) low some_left (div-add-mod left p)))
      (repeat-All (λ s. s ≤ n) (p - left % p) (left / p) (λ _. low))
  where
    one_more : (b : ℕ) → b ≤ n → 0 < left % p → p * b + left % p ≡ left → b + 1 ≤ n
    one_more b low some_left whole = elim (Bool-cases (ltb b n)) [
      | inl e ↦ ground arith
      | inr e ↦ let same : b ≡ n = ground arith in absurd (omega (arith, ap (λ m. p * m) same))
    ]

parts_of_enough : (left n : ℕ) → 0 < n → left ≤ parts_of left n * n
parts_of_enough left n h =
    let above = lt-mul-div-succ (left + (n - 1)) h in
    let p = parts_of left n in let spread : n * (p + 1) ≡ p * n + n = grind arith in omega arith

parts_of_positive : (left n : ℕ) → 0 < left → 0 < n → 0 < parts_of left n
parts_of_positive left n k h = (le-div_iff_mul-le h).1 (omega arith)

near_equal_lem :
    (left n : ℕ)
    → 0 < n
    → (sizes : List ℕ) × (near_equal left n ≡ ok sizes) × (total sizes ≡ left) × AtMost n sizes
unfolding near_equal
near_equal_lem zero n h = ([], refl, refl, tt)
near_equal_lem (suc left) n h =
    let p = parts_of (suc left) n in
    let positive = parts_of_positive (suc left) n (omega arith) h in
    let nonempty : (suc left == 0) ≡ false = ground arith in
    let divides : (n == 0) ≡ false = ground arith in
    (
      parts (suc left) p,
      rw (nonempty, divides) refl,
      total-parts (suc left) p positive,
      parts-AtMost (suc left) p n positive (parts_of_enough (suc left) n h),
    )

-- The size of the first transaction is within the bound, as the command line requires.
abbrev pub FirstFits : Option ℕ → ℕ → Type 0
FirstFits none n = Unit
FirstFits (some first) n = first ≤ n

-- With a positive bound, and a first size within it, the sizes are computed, they add up to the count,
-- and none is above the bound.
pub split_sizes-total :
    (count n : ℕ) (first : Option ℕ)
    → 0 < n
    → FirstFits first n
    → (sizes : List ℕ) × (split_sizes count n first ≡ ok sizes)
      × (total sizes ≡ count)
      × AtMost n sizes
unfolding split_sizes
split_sizes-total count n none h f = near_equal_lem count n h
split_sizes-total count n (some first) h f = elim (Bool-cases (first == 0)) [
  | inl e ↦
      let (sizes, made, sum, bounded) = near_equal_lem count n h in (sizes, rw e made, sum, bounded)
  | inr e ↦
      let taken = min_of first count in
      let (sizes, made, sum, bounded) = near_equal_lem (count - taken) n h in
      let small : (taken ≤ count) × (taken ≤ n) = (ground arith, ground arith) in
      (taken ∷ sizes, rw (e, made) refl, omega (arith, small.0), (small.1, bounded))
]

-- Slices of sizes that add up to the length are the list, cut in order, each of its size.
abbrev pub Sized {ℓ} : {A : Type ℓ} → List (List A) → List ℕ → Type 0
Sized [] [] = Unit
Sized [] (n ∷ sizes) = ⊥
Sized (xs ∷ xss) [] = ⊥
Sized (xs ∷ xss) (n ∷ sizes) = (length xs ≡ n) × Sized xss sizes

pub slices_lem {ℓ} :
    {A : Type ℓ} (rows : List A) (sizes : List ℕ)
    → total sizes ≡ length rows
    → (concat (slices rows sizes) ≡ rows) × Sized (slices rows sizes) sizes
unfolding slices
slices_lem [] [] h = (refl, tt)
slices_lem (r ∷ rows) [] h = absurd (omega (arith, h))
slices_lem rows (n ∷ sizes) h =
    let (joined, sized) = slices_lem (drop n rows) sizes (omega (arith, length-drop n rows)) in
    (
      ap (λ r. take n rows ++ r) joined ∙ take-append-drop n rows,
      (omega (arith, length-take n rows), sized),
    )
