-- ===== src/Airdrop/BatchTree/Claims.antt =====
-- The two builders of the tree agree: `claim_tree.levels` without a process pool, and
-- `common.tree_levels`.
use harmony_migration.Base.{
  ℕ, zero, suc, ◌-◌, ◌/◌, ◌%◌, ◌≡◌, refl, List, [], ◌∷◌, arith, if◌then◌else◌, ltb, length,
}
use harmony_migration.Airdrop.BatchTree.{
  Bytes, next_level, levels_from, tree_levels, hash_pairs, next_claim_level, claim_levels_from,
  claim_levels, last_node,
}

module _ (keccak256 : Bytes → Bytes) where
  -- The carried node of a list from which a pair has been taken.
  carried-cons :
      (a b : Bytes) (prev : List Bytes) (n : ℕ)
      → n ≡ length prev
      → (if ltb (suc (suc n) - suc (suc n) % 2) (suc (suc n)) then last_node (a ∷ b ∷ prev) else [])
        ≡ (if ltb (n - n % 2) n then last_node prev else [])
  unfolding last_node
  carried-cons a b [] n e = rw e refl
  carried-cons a b (c ∷ prev) n e = ground arith

  next_claim_level-eq :
      (prev : List Bytes) → next_claim_level keccak256 prev ≡ next_level keccak256 prev
  unfolding next_claim_level next_level hash_pairs last_node
  next_claim_level-eq [] = refl
  next_claim_level-eq (a ∷ []) = refl
  next_claim_level-eq (a ∷ b ∷ prev) =
      let n = length prev in
      let halves : (suc (suc n) - suc (suc n) % 2) / 2 ≡ suc ((n - n % 2) / 2) = omega arith in
      rw (halves, carried-cons a b prev n refl, next_claim_level-eq prev) refl

  claim_levels_from-eq :
      (fuel : ℕ) (prev : List Bytes)
      → claim_levels_from keccak256 fuel prev ≡ levels_from keccak256 fuel prev
  unfolding claim_levels_from levels_from
  claim_levels_from-eq zero prev = refl
  claim_levels_from-eq (suc fuel) prev =
      ground
        (arith, next_claim_level-eq prev, claim_levels_from-eq fuel (next_level keccak256 prev))

  -- The claim contracts' tree is the airdrop's tree, on every list of leaves, the empty one included.
  pub claim_levels-eq-tree_levels :
      (leaves : List Bytes) → claim_levels keccak256 leaves ≡ tree_levels keccak256 leaves
  unfolding claim_levels tree_levels
  claim_levels-eq-tree_levels [] = refl
  claim_levels-eq-tree_levels (leaf ∷ leaves) =
      rw (claim_levels_from-eq (length (leaf ∷ leaves)) (leaf ∷ leaves), claim_levels) refl
