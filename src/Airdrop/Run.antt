-- ===== src/Airdrop/Run.antt =====
-- A run of the airdrop: `batch_leaf` and the list, batches and tree of `write_run` of
-- airdrop/tools/common.py. The files of the run are left out.
use harmony_migration.Base.{
  ℕ, zero, suc, ◌+◌, Bool, ◌||◌, List, [], ◌∷◌, map, ltb, Result, ok, err, ◌>>=◌, ◌>>◌, raise_if,
}
use harmony_migration.Abi.Bytes.{Bytes}
use harmony_migration.Abi.Words.{AbiError}
use harmony_migration.Abi.Batch.{abi_encode_batch}
use harmony_migration.Airdrop.BatchTree.{TreeError, tree_levels}
use harmony_migration.Airdrop.Recipients.{Recipient, chunk}
pub mod Commitment
mod Tests

pub data RunError : Type 0 where
  bad_batch_size : RunError
  abi : AbiError → RunError
  tree : TreeError → RunError

abbrev pub max_batch_size : ℕ
max_batch_size = 500

unfoldable pub lift_abi {ℓ} : {A : Type ℓ} → Result AbiError A → Result RunError A
lift_abi (ok a) = ok a
lift_abi (err e) = err (abi e)

unfoldable pub lift_tree {ℓ} : {A : Type ℓ} → Result TreeError A → Result RunError A
lift_tree (ok a) = ok a
lift_tree (err e) = err (tree e)

module _ (keccak256 : Bytes → Bytes) where
  unfoldable pub batch_leaf : ℕ → List Bytes → List ℕ → Result AbiError Bytes
  batch_leaf batch_index recipients amounts = do
    encoded ← abi_encode_batch batch_index recipients amounts
    ok (keccak256 (keccak256 encoded))

  -- `[batch_leaf(i, ...) for i, b in enumerate(batches)]`
  unfoldable pub batch_leaves : ℕ → List (List Recipient) → Result AbiError (List Bytes)
  batch_leaves i [] = ok []
  batch_leaves i (b ∷ batches) = do
    leaf ← batch_leaf i (map (λ r. r.address) b) (map (λ r. r.amount) b)
    leaves ← batch_leaves (suc i) batches
    ok (leaf ∷ leaves)

  -- The levels of the tree that `write_run` commits to.
  unfoldable pub write_run : List Recipient → ℕ → Result RunError (List (List Bytes))
  write_run rows batch_size = do
    raise_if (ltb batch_size 1 || ltb max_batch_size batch_size) bad_batch_size
    leaves ← lift_abi (batch_leaves 0 (chunk rows batch_size))
    lift_tree (tree_levels keccak256 leaves)
