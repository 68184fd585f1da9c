-- ===== src/Airdrop/BatchTree/Binding.antt =====
-- What a root commits to. `leaf` of claim_tree.py and `batch_leaf` of common.py hash twice, so a
-- leaf is a hash of 32 bytes and an inner node a hash of 64. A proof for a row that was not
-- committed therefore yields two different inputs of keccak256 with one hash.
use mathlib.Core.Path.{subst}
use mathlib.Core.Bool.{false≢true}
use harmony_migration.Base.{
  some_injective, ◌≡◌, ◌≢◌, refl, sym, ap, ◌∙◌, ◌⊎◌, inl, inr, true, some, List, [], ◌∷◌, ◌++◌, map,
  arith, length, length-append, ok, Bool-cases, All,
}
use harmony_migration.Base.Order.{text_lt, text_eq, text_eq_sound, text_eq_refl}
use harmony_migration.Airdrop.BatchTree.{
  Bytes, hash_pair, next_level, tree_levels, climb, tree_verify, tree_root,
}
use harmony_migration.Airdrop.BatchTree.Levels.{
  Levels, top, below, Levels-of_ok, Levels-pos, tree_root-cons,
}

-- `keccak256(keccak256(row))`, the leaf of an encoded row
unfoldable pub double_hash : (Bytes → Bytes) → Bytes → Bytes
double_hash keccak256 row = keccak256 (keccak256 row)

-- Two different inputs with one hash.
abbrev pub Collision : (Bytes → Bytes) → Type 0
Collision keccak256 = (u : Bytes) × (v : Bytes) × (u ≢ v) × (keccak256 u ≡ keccak256 v)

-- Whether a row is among the rows.
abbrev pub Among : Bytes → List Bytes → Type 0
Among row [] = ⊥
Among row (r ∷ rows) = (row ≡ r) ⊎ Among row rows

pub append_injective : (a b c d : Bytes) → length a ≡ length c → a ++ b ≡ c ++ d → (a ≡ c) × (b ≡ d)
append_injective [] b [] d h e = (refl, e)
append_injective [] b (y ∷ c) d h e = absurd (omega arith)
append_injective (x ∷ a) b [] d h e = absurd (omega arith)
append_injective (x ∷ a) b (y ∷ c) d h e = ground (arith, append_injective a b c d)

-- A proof step that may end in a collision.
pub then_or {ℓ κ μ} : {A : Type ℓ} {B : Type κ} {C : Type μ} → A ⊎ C → (A → B ⊎ C) → B ⊎ C
then_or (inl a) f = f a
then_or (inr c) f = inr c

module _ (keccak256 : Bytes → Bytes) (size : (b : Bytes) → length (keccak256 b) ≡ 32) where
  -- The nodes of the tree over the leaves of some rows.
  data Node (rows : List Bytes) : Bytes → Type 0 where
    leaf_node : (row : Bytes) → Among row rows → Node rows (double_hash keccak256 row)
    inner_node : (a b : Bytes) → Node rows a → Node rows b → Node rows (hash_pair keccak256 a b)

  length-Node : {rows : List Bytes} {n : Bytes} → Node rows n → length n ≡ 32
  unfolding double_hash hash_pair
  length-Node (leaf_node row m) = size (keccak256 row)
  length-Node (inner_node a b na nb) = ground (arith, size (a ++ b), size (b ++ a))

  pub eq_or_Collision : (u v : Bytes) → keccak256 u ≡ keccak256 v → (u ≡ v) ⊎ Collision keccak256
  eq_or_Collision u v e = elim (Bool-cases (text_eq u v)) [
    | inl same ↦ inl (text_eq_sound u v same)
    | inr differ ↦ inr (
      u,
      v,
      (λ p. false≢true (sym differ ∙ subst (λ w. text_eq u w ≡ true) p (text_eq_refl u))),
      e,
    )
  ]

  -- The two ways in which a pair is hashed.
  pair_input :
      (a b : Bytes)
      → (hash_pair keccak256 a b ≡ keccak256 (a ++ b))
        ⊎ (hash_pair keccak256 a b ≡ keccak256 (b ++ a))
  unfolding hash_pair
  pair_input a b = elim (Bool-cases (text_lt a b)) [
    | inl lt ↦ inl (rw lt refl)
    | inr ge ↦ inr (rw ge refl)
  ]

  inputs_collide :
      (u v : Bytes) → length u ≢ length v → keccak256 u ≡ keccak256 v → Collision keccak256
  inputs_collide u v h e = (u, v, (λ p. h (ap length p)), e)

  cat_inner :
      (a b c d : Bytes)
      → length a ≡ 32
      → length c ≡ 32
      → keccak256 (a ++ b) ≡ keccak256 (c ++ d)
      → ((a ≡ c) × (b ≡ d)) ⊎ Collision keccak256
  cat_inner a b c d ha hc e =
      then_or (eq_or_Collision (a ++ b) (c ++ d) e)
        (λ p. inl (append_injective a b c d (omega arith) p))

  hash_pair-inj :
      (h p a b : Bytes)
      → (length h ≡ 32) × (length p ≡ 32)
      → (length a ≡ 32) × (length b ≡ 32)
      → hash_pair keccak256 h p ≡ hash_pair keccak256 a b
      → ((h ≡ a) ⊎ (h ≡ b)) ⊎ Collision keccak256
  hash_pair-inj h p a b (lh, lp) (la, lb) e = go (pair_input h p) (pair_input a b)
    where
      go :
          (hash_pair keccak256 h p ≡ keccak256 (h ++ p))
            ⊎ (hash_pair keccak256 h p ≡ keccak256 (p ++ h))
          → (hash_pair keccak256 a b ≡ keccak256 (a ++ b))
            ⊎ (hash_pair keccak256 a b ≡ keccak256 (b ++ a))
          → ((h ≡ a) ⊎ (h ≡ b)) ⊎ Collision keccak256
      go (inl x) (inl y) = then_or (cat_inner h p a b lh la (sym x ∙ e ∙ y)) (λ q. inl (inl q.0))
      go (inl x) (inr y) = then_or (cat_inner h p b a lh lb (sym x ∙ e ∙ y)) (λ q. inl (inr q.0))
      go (inr x) (inl y) = then_or (cat_inner p h a b lp la (sym x ∙ e ∙ y)) (λ q. inl (inr q.1))
      go (inr x) (inr y) = then_or (cat_inner p h b a lp lb (sym x ∙ e ∙ y)) (λ q. inl (inl q.1))

  leaf_vs_pair :
      (row h p : Bytes)
      → length h ≡ 32
      → length p ≡ 32
      → double_hash keccak256 row ≡ hash_pair keccak256 h p
      → Collision keccak256
  unfolding double_hash
  leaf_vs_pair row h p lh lp e = elim (pair_input h p) [
    | inl x ↦
        inputs_collide (keccak256 row) (h ++ p) (omega (arith, size row, length-append h p)) (e ∙ x)
    | inr x ↦
        inputs_collide (keccak256 row) (p ++ h) (omega (arith, size row, length-append p h)) (e ∙ x)
  ]

  -- A node that is the hash of a pair has the pair's first part below it.
  child-Node :
      (rows : List Bytes) {n : Bytes} (h p : Bytes)
      → Node rows n
      → length h ≡ 32
      → length p ≡ 32
      → n ≡ hash_pair keccak256 h p
      → Node rows h ⊎ Collision keccak256
  child-Node rows h p (leaf_node row m) lh lp e = inr (leaf_vs_pair row h p lh lp e)
  child-Node rows h p (inner_node a b na nb) lh lp e =
      then_or (hash_pair-inj h p a b (lh, lp) (length-Node na, length-Node nb) (sym e)) λ q.
        elim q [
          | inl x ↦ inl (subst (Node rows) (sym x) na)
          | inr x ↦ inl (subst (Node rows) (sym x) nb)
        ]

  climb-Node :
      (rows proof : List Bytes) (h : Bytes)
      → All (λ p. length p ≡ 32) proof
      → length h ≡ 32
      → Node rows (climb keccak256 proof h)
      → Node rows h ⊎ Collision keccak256
  unfolding climb
  climb-Node rows [] h sizes lh n = inl n
  climb-Node rows (p ∷ proof) h sizes lh n =
      let up = hash_pair keccak256 h p in
      let lu : length up ≡ 32 = unfold hash_pair in ground (arith, size (h ++ p), size (p ++ h)) in
      then_or (climb-Node rows proof up sizes.1 lu n) (λ m. child-Node rows h p m lh sizes.0 refl)

  row-Node :
      (rows : List Bytes) {n : Bytes} (row : Bytes)
      → Node rows n
      → n ≡ double_hash keccak256 row
      → Among row rows ⊎ Collision keccak256
  unfolding double_hash
  row-Node rows row (leaf_node r m) e =
      then_or (eq_or_Collision (keccak256 r) (keccak256 row) e)
        λ e'. then_or (eq_or_Collision r row e') λ e''. inl (subst (λ w. Among w rows) e'' m)
  row-Node rows row (inner_node a b na nb) e =
      inr (leaf_vs_pair row a b (length-Node na) (length-Node nb) (sym e))

  next_level-Node :
      (rows prev : List Bytes) → All (Node rows) prev → All (Node rows) (next_level keccak256 prev)
  unfolding next_level
  next_level-Node rows [] h = h
  next_level-Node rows (a ∷ []) h = h
  next_level-Node rows (a ∷ b ∷ prev) h =
      (inner_node a b h.0 h.1.0, next_level-Node rows prev h.1.1)

  leaves-Node :
      (rows done : List Bytes)
      → ((r : Bytes) → Among r done → Among r rows)
      → All (Node rows) (map (double_hash keccak256) done)
  leaves-Node rows [] within = tt
  leaves-Node rows (r ∷ done) within =
      (leaf_node r (within r (inl refl)), leaves-Node rows done (λ s m. within s (inr m)))

  root-Node :
      (rows : List Bytes) {leaves : List Bytes} {levels : List (List Bytes)} (root : Bytes)
      → Levels keccak256 leaves levels
      → All (Node rows) leaves
      → tree_root levels ≡ some root
      → Node rows root
  root-Node rows root (top node) h e = unfold tree_root in subst (Node rows) (some_injective e) h.0
  root-Node rows root (below a b prev {above} l) h e =
      root-Node rows root l (next_level-Node rows (a ∷ b ∷ prev) h)
        (sym (tree_root-cons (a ∷ b ∷ prev) above (Levels-pos keccak256 l)) ∙ e)

  -- If `tree_verify` accepts a proof of 32-byte nodes for a row's leaf against the root of the tree
  -- over the leaves of some rows, then the row is one of them, or two different inputs of keccak256
  -- with one hash are at hand. It is assumed that keccak256 returns 32 bytes.
  pub accepted_row_is_committed :
      (rows proof : List Bytes) (levels : List (List Bytes)) (row root : Bytes)
      → tree_levels keccak256 (map (double_hash keccak256) rows) ≡ ok levels
      → tree_root levels ≡ some root
      → All (λ p. length p ≡ 32) proof
      → tree_verify keccak256 proof root (double_hash keccak256 row) ≡ true
      → Among row rows ⊎ Collision keccak256
  unfolding tree_verify
  accepted_row_is_committed rows proof levels row root built rooted sizes verified =
      let leaves = map (double_hash keccak256) rows in
      let l = Levels-of_ok keccak256 leaves built in
      let leaf = double_hash keccak256 row in
      let at_root = root-Node rows root l (leaves-Node rows rows (λ r m. m)) rooted in
      let climbed = text_eq_sound (climb keccak256 proof leaf) root verified in
      let lr : length leaf ≡ 32 = unfold double_hash in size (keccak256 row) in
      then_or (climb-Node rows proof leaf sizes lr (subst (Node rows) (sym climbed) at_root))
        (λ n. row-Node rows row n refl)
