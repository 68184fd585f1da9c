-- ===== src/Airdrop/BatchTree/Levels.antt =====
-- The loops that build the batch tree: they end, and the levels that they leave.
use mathlib.Core.Path.{subst}
use native.Mathlib.Nat.{pow-suc}
use harmony_migration.Base.{
  ℕ, zero, suc, ◌+◌, ◌*◌, ◌/◌, ◌^◌, ◌≤◌, ◌<◌, ◌≡◌, refl, sym, ◌∙◌, ◌⊎◌, inl, inr, some, List, [],
  ◌∷◌, arith, length, ok, ok_injective,
}
use harmony_migration.Airdrop.BatchTree.{Bytes, next_level, levels_from, tree_levels, tree_root}

-- The root stands in the last level.
pub tree_root-cons :
    (level : List Bytes) (levels : List (List Bytes))
    → 0 < length levels
    → tree_root (level ∷ levels) ≡ tree_root levels
unfolding tree_root
tree_root-cons level [] h = absurd (omega arith)
tree_root-cons level (above ∷ levels) h = refl

module _ (keccak256 : Bytes → Bytes) where
  pub length-next_level :
      (prev : List Bytes) → length (next_level keccak256 prev) ≡ (length prev + 1) / 2
  unfolding next_level
  length-next_level [] = refl
  length-next_level (a ∷ []) = refl
  length-next_level (a ∷ b ∷ prev) = omega (arith, length-next_level prev)

  -- The levels of the tree over a list of nodes.
  pub data Levels : List Bytes → List (List Bytes) → Type 0 where
    top : (node : Bytes) → Levels (node ∷ []) ((node ∷ []) ∷ [])
    below :
        (a b : Bytes) (prev : List Bytes) {above : List (List Bytes)}
        → Levels (next_level keccak256 (a ∷ b ∷ prev)) above
        → Levels (a ∷ b ∷ prev) ((a ∷ b ∷ prev) ∷ above)

  levels_from-Levels :
      (fuel : ℕ) (prev : List Bytes)
      → 0 < length prev
      → length prev ≤ fuel
      → (levels : List (List Bytes)) × (levels_from keccak256 fuel prev ≡ some levels)
        × Levels prev levels
  unfolding levels_from
  levels_from-Levels zero prev h k = absurd (omega arith)
  levels_from-Levels (suc fuel) [] h k = absurd (omega arith)
  levels_from-Levels (suc fuel) (a ∷ []) h k = ((a ∷ []) ∷ [], refl, top a)
  levels_from-Levels (suc fuel) (a ∷ b ∷ prev) h k =
      let up = next_level keccak256 (a ∷ b ∷ prev) in
      let size : length up ≡ (length (a ∷ b ∷ prev) + 1) / 2 = length-next_level (a ∷ b ∷ prev) in
      let (above, e, l) = levels_from-Levels fuel up (omega (arith, size)) (omega (arith, size)) in
      ((a ∷ b ∷ prev) ∷ above, ground (arith, e), below a b prev l)

  pub tree_levels-Levels :
      (leaves : List Bytes)
      → 0 < length leaves
      → (levels : List (List Bytes)) × (tree_levels keccak256 leaves ≡ ok levels)
        × Levels leaves levels
  unfolding tree_levels
  tree_levels-Levels [] h = absurd (omega arith)
  tree_levels-Levels (leaf ∷ leaves) h =
      let (levels, e, l) =
        levels_from-Levels (length (leaf ∷ leaves)) (leaf ∷ leaves) h (omega arith) in
      (levels, cc e, l)

  -- Any result of `tree_levels` is the tree of its leaves.
  pub Levels-of_ok :
      (leaves : List Bytes) {levels : List (List Bytes)}
      → tree_levels keccak256 leaves ≡ ok levels
      → Levels leaves levels
  unfolding tree_levels
  Levels-of_ok [] e = cc
  Levels-of_ok (leaf ∷ leaves) e =
      let (levels, e', l) = tree_levels-Levels (leaf ∷ leaves) (omega arith) in
      subst (Levels (leaf ∷ leaves)) (ok_injective (sym e' ∙ e)) l

  pub Levels-pos :
      {leaves : List Bytes} {levels : List (List Bytes)} → Levels leaves levels → 0 < length levels
  Levels-pos (top node) = omega arith
  Levels-pos (below a b prev l) = omega arith

  pub Levels-root :
      {leaves : List Bytes} {levels : List (List Bytes)}
      → Levels leaves levels
      → (root : Bytes) × (tree_root levels ≡ some root)
  unfolding tree_root
  Levels-root (top node) = (node, refl)
  Levels-root (below a b prev {above} l) =
      let (root, e) = Levels-root l in
      (root, tree_root-cons (a ∷ b ∷ prev) above (Levels-pos l) ∙ e)

  pub Levels-depth :
      {leaves : List Bytes} {levels : List (List Bytes)}
      → Levels leaves levels
      → (2 * length leaves ≤ 2 ^ length levels)
        × ((length leaves ≡ 1) × (2 ^ length levels ≡ 2)
            ⊎ (2 ^ length levels + 4 ≤ 4 * length leaves))
  Levels-depth (top node) = (omega arith, inl (refl, refl))
  Levels-depth (below a b prev {above} l) =
      let (wide, tight) = Levels-depth l in
      let size = length-next_level (a ∷ b ∷ prev) in
      let power = pow-suc 2 (length above) in
      (omega (arith, wide, size, power), inr (omega (arith, tight, size, power)))

  depth_bound :
      (n p : ℕ) → (2 * n ≤ p) × ((n ≡ 1) × (p ≡ 2) ⊎ (p + 4 ≤ 4 * n)) → (2 * n ≤ p) × (p < 4 * n)
  depth_bound n p h = ground arith

  -- Over any list of leaves that is not empty `tree_levels` returns: its loop ends before the fuel
  -- does. The tree has a root, and its number of levels is one more than the logarithm of the number
  -- of leaves, rounded up: with n leaves and d levels, n ≤ 2 ^ (d - 1) and 2 ^ (d - 2) < n.
  pub tree_levels_depth :
      (leaves : List Bytes)
      → 0 < length leaves
      → (levels : List (List Bytes)) × (root : Bytes) × (tree_levels keccak256 leaves ≡ ok levels)
        × (tree_root levels ≡ some root)
        × (2 * length leaves ≤ 2 ^ length levels)
        × (2 ^ length levels < 4 * length leaves)
  tree_levels_depth leaves h =
      let (levels, e, l) = tree_levels-Levels leaves h in
      let (root, r) = Levels-root l in
      let (wide, tight) = depth_bound (length leaves) (2 ^ length levels) (Levels-depth l) in
      (levels, root, e, r, wide, tight)
