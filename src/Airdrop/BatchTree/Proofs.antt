-- ===== src/Airdrop/BatchTree/Proofs.antt =====
-- Every leaf's proof leads to the root.
use harmony_migration.Base.{
  some_injective, ℕ, zero, suc, ◌/◌, ◌<◌, ◌≡◌, refl, sym, ap, ◌∙◌, true, Option, none, some, List,
  [], ◌∷◌, arith, length, get_elem?, ok,
}
use harmony_migration.Base.Order.{
  text_lt_total, text_lt_trans, text_lt_irrefl, text_eq, text_eq_refl,
}
use harmony_migration.Airdrop.BatchTree.{
  Bytes, sibling, hash_pair, next_level, tree_levels, climb, tree_verify, tree_root, add_node,
  tree_proof,
}
use harmony_migration.Airdrop.BatchTree.Siblings.{sibling_lem}
use harmony_migration.Airdrop.BatchTree.Levels.{
  Levels, top, below, Levels-of_ok, Levels-pos, tree_root-cons,
}

tree_proof-cons :
    (level : List Bytes) (levels : List (List Bytes)) (idx : ℕ)
    → 0 < length levels
    → tree_proof (level ∷ levels) idx
      ≡ add_node (get_elem? level (sibling idx)) (tree_proof levels (idx / 2))
unfolding tree_proof
tree_proof-cons level [] idx h = absurd (omega arith)
tree_proof-cons level (above ∷ levels) idx h = refl

module _ (keccak256 : Bytes → Bytes) where
  -- A pair is hashed smaller first, so its order does not matter.
  pub hash_pair_comm : (a b : Bytes) → hash_pair keccak256 a b ≡ hash_pair keccak256 b a
  unfolding hash_pair
  hash_pair_comm a b = ground (arith, text_lt_total a b, text_lt_trans a b a, text_lt_irrefl a)

  -- The parent of a node: its hash with its sibling, or the node itself where it has none.
  abbrev parent : Bytes → Option Bytes → Bytes
  parent h none = h
  parent h (some s) = hash_pair keccak256 h s

  get_elem?-next_level :
      (prev : List Bytes) (i : ℕ) (h : Bytes)
      → get_elem? prev i ≡ some h
      → get_elem? (next_level keccak256 prev) (i / 2) ≡ some (parent h (get_elem? prev (sibling i)))
  unfolding next_level
  get_elem?-next_level [] i h e = cc
  get_elem?-next_level (a ∷ []) zero h e = rw (sibling_lem 0) e
  get_elem?-next_level (a ∷ []) (suc i) h e = cc
  get_elem?-next_level (a ∷ b ∷ prev) zero h e = rw (sibling_lem 0) (cc e)
  get_elem?-next_level (a ∷ b ∷ prev) (suc zero) h e =
      rw (sibling_lem 1) (cc (e, hash_pair_comm a b))
  get_elem?-next_level (a ∷ b ∷ prev) (suc (suc i)) h e =
      let shift : sibling (suc (suc i)) ≡ suc (suc (sibling i)) =
        ground (arith, sibling_lem i, sibling_lem (suc (suc i))) in
      let half : suc (suc i) / 2 ≡ suc (i / 2) = omega arith in
      rw (shift, half) (get_elem?-next_level prev i h e)

  add_node-climb :
      (o : Option Bytes) (proof : List Bytes) (h : Bytes)
      → climb keccak256 (add_node o proof) h ≡ climb keccak256 proof (parent h o)
  unfolding climb add_node
  add_node-climb none proof h = refl
  add_node-climb (some s) proof h = refl

  Levels-climb :
      {leaves : List Bytes} {levels : List (List Bytes)}
      → Levels keccak256 leaves levels
      → (i : ℕ) (h : Bytes) → get_elem? leaves i ≡ some h
      → some (climb keccak256 (tree_proof levels i) h) ≡ tree_root levels
  unfolding tree_proof climb tree_root
  Levels-climb (top node) zero h e = sym e
  Levels-climb (top node) (suc i) h e = cc
  Levels-climb (below a b prev {above} l) i h e =
      let level = a ∷ b ∷ prev in
      let s = get_elem? level (sibling i) in
      let rest = tree_proof above (i / 2) in
      let up = get_elem?-next_level level i h e in
      ap (λ p. some (climb keccak256 p h)) (tree_proof-cons level above i (Levels-pos keccak256 l))
      ∙ ap some (add_node-climb s rest h)
      ∙ Levels-climb l (i / 2) (parent h s) up
      ∙ sym (tree_root-cons level above (Levels-pos keccak256 l))

  -- Every proof that `tree_proof` makes is accepted: for the leaf at any index of the list that
  -- the tree was built over, `tree_verify` returns true with the tree's root.
  pub proof_verifies :
      (leaves : List Bytes) (levels : List (List Bytes)) (i : ℕ) (leaf root : Bytes)
      → tree_levels keccak256 leaves ≡ ok levels
      → tree_root levels ≡ some root
      → get_elem? leaves i ≡ some leaf
      → tree_verify keccak256 (tree_proof levels i) root leaf ≡ true
  unfolding tree_verify
  proof_verifies leaves levels i leaf root built rooted at =
      let climbed = Levels-climb (Levels-of_ok keccak256 leaves built) i leaf at ∙ rooted in
      ap (λ c. text_eq c root) (some_injective climbed) ∙ text_eq_refl root
