-- ===== src/Chain/Tests.antt =====
-- The searches and the logs on small chains.
use harmony_migration.Base.{
  ℕ, ◌+◌, ◌-◌, ◌*◌, ◌≤◌, ◌<◌, ◌≡◌, ◌⊎◌, refl, sym, ap, ◌∙◌, inl, inr, Bool, true, false, Bool-cases,
  ◌==◌, leb, arith, any_of, List, [], ◌∷◌, ok, err, some, if◌then◌else◌,
}
use harmony_migration.Chain.Search.{no_code, first_block_at_or_after, deployment_block}
use harmony_migration.Chain.Search.Found.{first_block_found, deployment_block_found}
use harmony_migration.Chain.Logs.{Answer, answered, failed, logs}
use harmony_migration.Chain.Logs.Fetching.{span, IsConsistent, IsClean, AnswersBlocks}
use harmony_migration.Chain.Logs.Covering.{logs_exact, logs_total}

-- A node that answers for one block only, whose log is its number.
abbrev single_node : ℕ → ℕ → ℕ → Answer ℕ
single_node start end attempt = if start == end then answered (start ∷ []) else failed

abbrev number_read : ℕ → List ℕ
number_read block = block ∷ []

abbrev none_removed : ℕ → Bool
none_removed block = false

found_of : {f g : List ℕ} → ◌≡◌ {A = Answer ℕ} (answered f) (answered g) → f ≡ g
found_of h = cc

no_failure : {g : List ℕ} → ◌≡◌ {A = Answer ℕ} failed (answered g) → ⊥
no_failure h = cc

single_node-IsConsistent : IsConsistent none_removed single_node number_read
single_node-IsConsistent start end attempt found le h = elim (Bool-cases (start == end)) [
  | inl e ↦
      let one : 1 ≡ end - start + 1 = ground arith in
      sym (found_of (rw e at h)) ∙ ap (span number_read start) one
  | inr e ↦ absurd (no_failure (rw e at h))
]

single_node-IsClean : IsClean none_removed single_node number_read
single_node-IsClean start end attempt found h = elim (Bool-cases (start == end)) [
  | inl e ↦ ap (any_of none_removed) (sym (found_of (rw e at h)))
  | inr e ↦ absurd (no_failure (rw e at h))
]

single_node-AnswersBlocks : AnswersBlocks none_removed single_node number_read
single_node-AnswersBlocks block =
    let same : (block == block) ≡ true = ground arith in (block ∷ [], rw same refl)

logs_total_example : logs none_removed single_node 3 2 6 ≡ ok (2 ∷ 3 ∷ 4 ∷ 5 ∷ 6 ∷ [])
logs_total_example =
    logs_total none_removed single_node number_read 3 (omega arith) 2 6 single_node-IsConsistent
      single_node-IsClean single_node-AnswersBlocks

logs_exact_example : 2 ∷ 3 ∷ 4 ∷ 5 ∷ 6 ∷ [] ≡ span number_read 2 5
logs_exact_example =
    logs_exact none_removed single_node number_read 3 (omega arith) 2 6 (2 ∷ 3 ∷ 4 ∷ 5 ∷ 6 ∷ [])
      single_node-IsConsistent logs_total_example

twice_rises : (a b : ℕ) → a ≤ b → 2 * a ≤ 2 * b
twice_rises a b h = omega arith

first_block_found_example :
    (block : ℕ) × (first_block_at_or_after (λ b. 2 * b) 7 1 9 ≡ some block)
    × (1 ≤ block)
    × (block ≤ 9)
    × ((block ≡ 9) ⊎ (7 ≤ 2 * block))
    × ((b : ℕ) → 1 ≤ b → b < block → 2 * b < 7)
first_block_found_example = first_block_found (λ b. 2 * b) 7 1 9 (omega arith) twice_rises

from_three_rises : (a b : ℕ) → a ≤ b → leb 3 a ≡ true → leb 3 b ≡ true
from_three_rises a b h k = ground arith

deployment_block_found_example :
    ((leb 3 10 ≡ false) × (deployment_block (leb 3) 10 ≡ err no_code))
    ⊎ ((block : ℕ) × (deployment_block (leb 3) 10 ≡ ok block)
        × (block ≤ 10)
        × ((b : ℕ) → block ≤ b → leb 3 b ≡ true)
        × ((b : ℕ) → b < block → leb 3 b ≡ false))
deployment_block_found_example = deployment_block_found (leb 3) 10 from_three_rises
