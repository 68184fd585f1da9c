-- ===== src/Airdrop/Run/Commitment.antt =====
-- What the root of a run commits to.
use mathlib.Core.Path.{subst}
use harmony_migration.Base.{
  ℕ, suc, ◌+◌, ◌≡◌, ◌⊎◌, refl, sym, ap, ◌∙◌, inl, inr, true, ◌||◌, some, List, [], ◌∷◌, map, arith,
  length, get_elem?, All, ltb, Result, ok, err, >>=-eq-ok, ok_injective, raise_if,
}
use harmony_migration.Abi.Bytes.{Bytes}
use harmony_migration.Abi.Words.{AbiError}
use harmony_migration.Abi.Batch.{abi_encode_batch, IsAddress, abi_encode_batch-injective}
use harmony_migration.Airdrop.BatchTree.{TreeError, tree_levels, tree_root, tree_verify}
use harmony_migration.Airdrop.BatchTree.Binding.{
  double_hash, Collision, Among, accepted_row_is_committed,
}
use harmony_migration.Airdrop.Recipients.{Recipient, chunk}
use harmony_migration.Airdrop.Run.{
  bad_batch_size, max_batch_size, lift_abi, lift_tree, batch_leaf, batch_leaves, write_run,
}

lift_abi-eq-ok {ℓ} : {A : Type ℓ} (r : Result AbiError A) {a : A} → lift_abi r ≡ ok a → r ≡ ok a
unfolding lift_abi
lift_abi-eq-ok (ok a) h = ap ok (ok_injective h)
lift_abi-eq-ok (err e) h = cc

lift_tree-eq-ok {ℓ} : {A : Type ℓ} (r : Result TreeError A) {a : A} → lift_tree r ≡ ok a → r ≡ ok a
unfolding lift_tree
lift_tree-eq-ok (ok a) h = ap ok (ok_injective h)
lift_tree-eq-ok (err e) h = cc

abbrev encode : ℕ → List Recipient → Result AbiError Bytes
encode i b = abi_encode_batch i (map (λ r. r.address) b) (map (λ r. r.amount) b)

-- The encodings under the leaves.
abbrev AreEncodings : ℕ → List (List Recipient) → List Bytes → Type 0
AreEncodings i [] [] = Unit
AreEncodings i [] (e ∷ es) = ⊥
AreEncodings i (b ∷ bs) [] = ⊥
AreEncodings i (b ∷ bs) (e ∷ es) = (encode i b ≡ ok e) × AreEncodings (suc i) bs es

batch_leaves-encodings :
    (keccak256 : Bytes → Bytes) (i : ℕ) (batches : List (List Recipient)) {leaves : List Bytes}
    → batch_leaves keccak256 i batches ≡ ok leaves
    → (es : List Bytes) × AreEncodings i batches es × (map (double_hash keccak256) es ≡ leaves)
unfolding batch_leaves batch_leaf double_hash
batch_leaves-encodings keccak256 i [] h = ([], tt, ok_injective h)
batch_leaves-encodings keccak256 i (b ∷ batches) h =
    let (leaf, hashed, h1) =
      >>=-eq-ok (batch_leaf keccak256 i (map (λ r. r.address) b) (map (λ r. r.amount) b)) _ h in
    let (leaves, others, h2) = >>=-eq-ok (batch_leaves keccak256 (suc i) batches) _ h1 in
    let (e, encoded, h3) = >>=-eq-ok (encode i b) _ hashed in
    let (es, are, made) = batch_leaves-encodings keccak256 (suc i) batches others in
    let first : double_hash keccak256 e ≡ leaf = ok_injective h3 in
    (e ∷ es, (encoded, are), (λ k. first k ∷ made k) ∙ ok_injective h2)

-- A batch with its index.
abbrev pub IsBatch : List (List Recipient) → ℕ → List Bytes → List ℕ → Type 0
IsBatch batches i rs xs =
    (b : List Recipient) × (get_elem? batches i ≡ some b)
    × (map (λ r. r.address) b ≡ rs)
    × (map (λ r. r.amount) b ≡ xs)

abbrev pub HaveAddresses : List (List Recipient) → Type 0
HaveAddresses = All (λ b. All IsAddress (map (λ r. r.address) b))

Among-IsBatch :
    (i j : ℕ) (batches : List (List Recipient)) (es : List Bytes) (e : Bytes) (rs : List Bytes)
    (xs : List ℕ)
    → AreEncodings i batches es
    → HaveAddresses batches
    → All IsAddress rs
    → abi_encode_batch j rs xs ≡ ok e
    → Among e es
    → (k : ℕ) × (j ≡ i + k) × IsBatch batches k rs xs
Among-IsBatch i j [] [] e rs xs are valid hr h m = absurd m
Among-IsBatch i j [] (d ∷ es) e rs xs are valid hr h m = absurd are
Among-IsBatch i j (b ∷ batches) [] e rs xs are valid hr h m = absurd m
Among-IsBatch i j (b ∷ batches) (d ∷ es) e rs xs are valid hr h (inl same) =
    let (index, recipients, amounts) =
      abi_encode_batch-injective j i rs (map (λ r. r.address) b) xs (map (λ r. r.amount) b) hr
        (valid.0) h (are.0 ∙ ap ok (sym same)) in
    (0, omega (arith, index), (b, refl, sym recipients, sym amounts))
Among-IsBatch i j (b ∷ batches) (d ∷ es) e rs xs are valid hr h (inr later) =
    let (k, index, batch) =
      Among-IsBatch (suc i) j batches es e rs xs (are.1) (valid.1) hr h later in
    (suc k, omega (arith, index), batch)

module _ (keccak256 : Bytes → Bytes) (size : (row : Bytes) → length (keccak256 row) ≡ 32) where
  -- If the tree of a run was built, and a proof of 32-byte nodes is accepted against its root for
  -- the leaf of some index, recipients and amounts, then the batch of the list at that index has
  -- these recipients and amounts, or two inputs of keccak256 with one hash are at hand. It is
  -- assumed that addresses have 20 bytes and that keccak256 returns 32.
  pub write_run-binds :
      (rows : List Recipient) (batch_size i : ℕ) (rs : List Bytes) (xs : List ℕ)
      (proof : List Bytes) (levels : List (List Bytes)) (root leaf : Bytes)
      → HaveAddresses (chunk rows batch_size)
      → All IsAddress rs
      → write_run keccak256 rows batch_size ≡ ok levels
      → tree_root levels ≡ some root
      → batch_leaf keccak256 i rs xs ≡ ok leaf
      → All (λ p. length p ≡ 32) proof
      → tree_verify keccak256 proof root leaf ≡ true
      → IsBatch (chunk rows batch_size) i rs xs ⊎ Collision keccak256
  unfolding write_run batch_leaf double_hash
  write_run-binds rows batch_size i rs xs proof levels root leaf valid hr run rooted made sizes
        accepted =
      let (_, _, h1) =
        >>=-eq-ok (raise_if (ltb batch_size 1 || ltb max_batch_size batch_size) bad_batch_size) _
          run in
      let (leaves, hashed, h2) =
        >>=-eq-ok (lift_abi (batch_leaves keccak256 0 (chunk rows batch_size))) _ h1 in
      let built = lift_tree-eq-ok (tree_levels keccak256 leaves) h2 in
      let (es, are, same) =
        batch_leaves-encodings keccak256 0 (chunk rows batch_size)
          (lift_abi-eq-ok (batch_leaves keccak256 0 (chunk rows batch_size)) hashed) in
      let (e, encoded, h3) = >>=-eq-ok (abi_encode_batch i rs xs) _ made in
      let leaf_of : double_hash keccak256 e ≡ leaf = ok_injective h3 in
      let committed =
        accepted_row_is_committed keccak256 size es proof levels e root
          (ap (tree_levels keccak256) same ∙ built) rooted sizes
          (ap (tree_verify keccak256 proof root) leaf_of ∙ accepted) in
      elim committed [
        | inr c ↦ inr c
        | inl m ↦
            let (k, index, batch) =
              Among-IsBatch 0 i (chunk rows batch_size) es e rs xs are valid hr encoded m in
            let at : k ≡ i = omega (arith, index) in
            inl (subst (λ n. IsBatch (chunk rows batch_size) n rs xs) at batch)
      ]
