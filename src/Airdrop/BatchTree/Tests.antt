-- ===== src/Airdrop/BatchTree/Tests.antt =====
-- Runs of the batch tree with a toy hash, and the theorems at concrete inputs.
use harmony_migration.Base.{
  ℕ, zero, suc, ◌*◌, ◌^◌, ◌≤◌, ◌<◌, ◌≡◌, refl, ap, ◌⊎◌, true, some, List, [], ◌∷◌, arith, length,
  ok,
}
use harmony_migration.Airdrop.BatchTree.{
  Bytes, hash_pair, next_level, levels_from, tree_levels, claim_levels, climb, tree_verify,
  tree_root, add_node, tree_proof, sibling,
}
use harmony_migration.Airdrop.BatchTree.Levels.{tree_levels_depth}
use harmony_migration.Airdrop.BatchTree.Claims.{claim_levels-eq-tree_levels}
use harmony_migration.Airdrop.BatchTree.Proofs.{proof_verifies}
use harmony_migration.Airdrop.BatchTree.Binding.{
  double_hash, Among, Collision, accepted_row_is_committed,
}

-- The first `n` bytes, filled up with zeros.
abbrev pad : ℕ → Bytes → Bytes
pad zero b = []
pad (suc n) [] = 0 ∷ pad n []
pad (suc n) (x ∷ b) = x ∷ pad n b

length-pad : (n : ℕ) (b : Bytes) → length (pad n b) ≡ n
length-pad zero b = refl
length-pad (suc n) [] = ap suc (length-pad n [])
length-pad (suc n) (x ∷ b) = ap suc (length-pad n b)

abbrev toy_hash : Bytes → Bytes
toy_hash = pad 32

abbrev same : Bytes → Bytes
same b = b

abbrev three_leaves : List Bytes
three_leaves = (3 ∷ []) ∷ (1 ∷ []) ∷ (2 ∷ []) ∷ []

abbrev three_levels : List (List Bytes)
three_levels = three_leaves ∷ ((1 ∷ 3 ∷ []) ∷ (2 ∷ []) ∷ []) ∷ ((1 ∷ 3 ∷ 2 ∷ []) ∷ []) ∷ []

three_built : tree_levels same three_leaves ≡ ok three_levels
unfolding tree_levels levels_from next_level hash_pair
three_built = refl

three_rooted : tree_root three_levels ≡ some (1 ∷ 3 ∷ 2 ∷ [])
unfolding tree_root
three_rooted = refl

-- The carried node's proof has one node only.
three_proof : tree_proof three_levels 2 ≡ (1 ∷ 3 ∷ []) ∷ []
unfolding tree_proof add_node sibling
three_proof = refl

tree_levels_depth_example :
    (levels : List (List Bytes)) × (root : Bytes) × (tree_levels same three_leaves ≡ ok levels)
    × (tree_root levels ≡ some root)
    × (2 * 3 ≤ 2 ^ length levels)
    × (2 ^ length levels < 4 * 3)
tree_levels_depth_example = tree_levels_depth same three_leaves (omega arith)

claim_levels_example : claim_levels same three_leaves ≡ tree_levels same three_leaves
claim_levels_example = claim_levels-eq-tree_levels same three_leaves

proof_verifies_example :
    tree_verify same (tree_proof three_levels 2) (1 ∷ 3 ∷ 2 ∷ []) (2 ∷ []) ≡ true
proof_verifies_example =
    proof_verifies same three_leaves three_levels 2 (2 ∷ []) (1 ∷ 3 ∷ 2 ∷ []) three_built
      three_rooted refl

abbrev two_rows : List Bytes
two_rows = (7 ∷ []) ∷ (8 ∷ []) ∷ []

abbrev two_levels : List (List Bytes)
two_levels = (pad 32 (7 ∷ []) ∷ pad 32 (8 ∷ []) ∷ []) ∷ (pad 32 (7 ∷ []) ∷ []) ∷ []

accepted_row_is_committed_example : Among (8 ∷ []) two_rows ⊎ Collision toy_hash
unfolding tree_levels levels_from next_level hash_pair double_hash tree_root tree_verify climb
accepted_row_is_committed_example =
    accepted_row_is_committed toy_hash (length-pad 32) two_rows (pad 32 (7 ∷ []) ∷ []) two_levels
      (8 ∷ []) (pad 32 (7 ∷ [])) refl refl (refl, tt) refl
