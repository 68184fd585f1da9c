-- ===== src/Airdrop/BatchTree.antt =====
-- The batch tree: `hash_pair`, `tree_levels`, `tree_root`, `tree_proof` and `tree_verify` of
-- airdrop/tools/common.py, and `levels` of bridge-claims/tools/claim_tree.py, which builds the
-- same tree in one process. `keccak256` comes from pycryptodome where that is installed, so it is
-- a parameter.
use harmony_migration.Base.{
  ℕ, zero, suc, ◌-◌, ◌/◌, ◌%◌, Bool, true, false, Option, none, some, List, [], ◌∷◌, ◌++◌,
  if◌then◌else◌, ltb, length, get_elem?, Result, ok, err,
}
use harmony_migration.Base.Order.{Text, text_lt, text_eq}
use Prim.Native.Nat.{bit_xor}
pub mod Levels
pub mod Proofs
pub mod Siblings
pub mod Claims
pub mod Binding
mod Tests

abbrev pub Bytes : Type 0
Bytes = Text

-- `raise ValueError("no leaves")`; the fuel of `while` cannot run out, see Levels.
pub data TreeError : Type 0 where
  no_leaves out_of_fuel : TreeError

-- `idx ^ 1`
unfoldable pub sibling : ℕ → ℕ
sibling idx = bit_xor idx 1

-- `[prev[-1]]`
unfoldable pub last_node : List Bytes → List Bytes
last_node [] = []
last_node (a ∷ []) = a ∷ []
last_node (a ∷ b ∷ prev) = last_node (b ∷ prev)

module _ (keccak256 : Bytes → Bytes) where
  unfoldable pub hash_pair : Bytes → Bytes → Bytes
  hash_pair a b = if text_lt a b then keccak256 (a ++ b) else keccak256 (b ++ a)

  -- The `for` loop of `tree_levels`: pairs from the left, an unpaired last node carried up.
  unfoldable pub next_level : List Bytes → List Bytes
  next_level [] = []
  next_level (a ∷ []) = a ∷ []
  next_level (a ∷ b ∷ prev) = hash_pair a b ∷ next_level prev

  -- The `while len(levels[-1]) > 1` loop, from its last level on.
  unfoldable pub levels_from : ℕ → List Bytes → Option (List (List Bytes))
  levels_from zero prev = none
  levels_from (suc fuel) prev =
      let rest = levels_from fuel (next_level prev) in
      elim (ltb 1 (length prev)) [
        | true ↦ elim rest [ none ↦ none | some above ↦ some (prev ∷ above) ]
        | false ↦ some (prev ∷ [])
      ]

  unfoldable pub tree_levels : List Bytes → Result TreeError (List (List Bytes))
  tree_levels [] = err no_leaves
  tree_levels (leaf ∷ leaves) = elim (levels_from (length (leaf ∷ leaves)) (leaf ∷ leaves)) [
    | none ↦ err out_of_fuel
    | some levels ↦ ok levels
  ]

  -- The comprehension of `claim_tree.levels` over `range(0, paired, 2)`, `count` pairs in all.
  unfoldable pub hash_pairs : ℕ → List Bytes → List Bytes
  hash_pairs (suc count) (a ∷ b ∷ prev) = hash_pair a b ∷ hash_pairs count prev
  hash_pairs _ _ = []

  -- The body of the loop of `claim_tree.levels` without a process pool: the pairs, and then
  -- `if paired < len(prev): nxt.append(prev[-1])`.
  unfoldable pub next_claim_level : List Bytes → List Bytes
  next_claim_level prev =
      let paired = length prev - length prev % 2 in
      hash_pairs (paired / 2) prev ++ (if ltb paired (length prev) then last_node prev else [])

  unfoldable pub claim_levels_from : ℕ → List Bytes → Option (List (List Bytes))
  claim_levels_from zero prev = none
  claim_levels_from (suc fuel) prev =
      let rest = claim_levels_from fuel (next_claim_level prev) in
      elim (ltb 1 (length prev)) [
        | true ↦ elim rest [ none ↦ none | some above ↦ some (prev ∷ above) ]
        | false ↦ some (prev ∷ [])
      ]

  unfoldable pub claim_levels : List Bytes → Result TreeError (List (List Bytes))
  claim_levels [] = err no_leaves
  claim_levels (leaf ∷ leaves) = elim (claim_levels_from (length (leaf ∷ leaves)) (leaf ∷ leaves)) [
    | none ↦ err out_of_fuel
    | some levels ↦ ok levels
  ]

  -- `h = hash_pair(h, p)` for every node of the proof
  unfoldable pub climb : List Bytes → Bytes → Bytes
  climb [] h = h
  climb (p ∷ proof) h = climb proof (hash_pair h p)

  unfoldable pub tree_verify : List Bytes → Bytes → Bytes → Bool
  tree_verify proof root leaf = text_eq (climb proof leaf) root

-- `levels[-1][0]`
unfoldable pub tree_root : List (List Bytes) → Option Bytes
tree_root [] = none
tree_root (level ∷ []) = get_elem? level 0
tree_root (level ∷ above ∷ levels) = tree_root (above ∷ levels)

-- `if sibling < len(level): proof.append(level[sibling])`, before the rest of the proof
unfoldable pub add_node : Option Bytes → List Bytes → List Bytes
add_node none proof = proof
add_node (some node) proof = node ∷ proof

-- The loop over `levels[:-1]`.
unfoldable pub tree_proof : List (List Bytes) → ℕ → List Bytes
tree_proof [] idx = []
tree_proof (level ∷ []) idx = []
tree_proof (level ∷ above ∷ levels) idx =
    add_node (get_elem? level (sibling idx)) (tree_proof (above ∷ levels) (idx / 2))
