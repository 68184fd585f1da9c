-- ===== src/Airdrop/Run/Tests.antt =====
-- A run of one batch, and the theorems about lists at small inputs.
use harmony_migration.Base.{
  ℕ, zero, suc, ◌≤◌, ◌<◌, ◌≡◌, ◌⊎◌, refl, true, List, [], ◌∷◌, arith, length, All, ok, some,
}
use harmony_migration.Base.Order.{text_ordered}
use harmony_migration.Base.Sorting.{sort_by, insert_by}
use harmony_migration.Abi.Bytes.{Bytes, big_endian, number_from, bound}
use harmony_migration.Abi.Words.{put_words, words}
use harmony_migration.Abi.Batch.{abi_encode_batch, IsAddress}
use harmony_migration.Airdrop.BatchTree.{
  tree_levels, tree_root, tree_verify, levels_from, next_level, climb,
}
use harmony_migration.Airdrop.BatchTree.Binding.{Collision}
use harmony_migration.Airdrop.Recipients.{
  Recipient, by_address, consolidate, see, see_all, add_recipient, put_in_order, chunk, chunk_from,
}
use harmony_migration.Airdrop.Recipients.Consolidating.{Distinct, paid, consolidate_exact}
use harmony_migration.Airdrop.Recipients.Chunks.{concat, chunk_partition}
use harmony_migration.Airdrop.Run.{write_run, batch_leaf, batch_leaves, lift_abi, lift_tree}
use harmony_migration.Airdrop.Run.Commitment.{IsBatch, HaveAddresses, write_run-binds}

-- An address, and a hash that returns 32 ones.
abbrev twenty : ℕ → Bytes
twenty b = 0 ∷ 0 ∷ 0 ∷ 0 ∷ 0 ∷ 0 ∷ 0 ∷ 0 ∷ 0 ∷ 0 ∷ 0 ∷ 0 ∷ 0 ∷ 0 ∷ 0 ∷ 0 ∷ 0 ∷ 0 ∷ 0 ∷ b ∷ []

abbrev ones : ℕ → Bytes
ones zero = []
ones (suc n) = 1 ∷ ones n

length-ones : (n : ℕ) → length (ones n) ≡ n
length-ones zero = refl
length-ones (suc n) = omega (arith, length-ones n)

abbrev constant_hash : Bytes → Bytes
constant_hash row = ones 32

length-constant_hash : (row : Bytes) → length (constant_hash row) ≡ 32
length-constant_hash row = length-ones 32

abbrev one_payment : List Recipient
one_payment = record { address = twenty 7; amount = 5 } ∷ []

one_run : write_run constant_hash one_payment 1 ≡ ok ((ones 32 ∷ []) ∷ [])
unfolding write_run lift_abi lift_tree batch_leaves batch_leaf abi_encode_batch words put_words
    big_endian number_from bound chunk chunk_from tree_levels levels_from next_level
one_run = refl

one_leaf : batch_leaf constant_hash 0 (twenty 7 ∷ []) (5 ∷ []) ≡ ok (ones 32)
unfolding batch_leaf abi_encode_batch words put_words big_endian number_from bound
one_leaf = refl

one_root : tree_root ((ones 32 ∷ []) ∷ []) ≡ some (ones 32)
unfolding tree_root
one_root = refl

accepted_one : tree_verify constant_hash [] (ones 32) (ones 32) ≡ true
unfolding tree_verify climb
accepted_one = refl

twenty-IsAddress : IsAddress (twenty 7)
twenty-IsAddress = (refl, omega arith)

one-HaveAddresses : HaveAddresses (chunk one_payment 1)
unfolding chunk chunk_from
one-HaveAddresses = ((twenty-IsAddress, tt), tt)

write_run-binds_example :
    IsBatch (chunk one_payment 1) 0 (twenty 7 ∷ []) (5 ∷ []) ⊎ Collision constant_hash
write_run-binds_example =
    write_run-binds constant_hash length-constant_hash one_payment 1 0 (twenty 7 ∷ []) (5 ∷ []) []
      ((ones 32 ∷ []) ∷ []) (ones 32) (ones 32) one-HaveAddresses (twenty-IsAddress, tt) one_run
      one_root one_leaf tt accepted_one

abbrev pay : ℕ → ℕ → Recipient
pay a n = record { address = a ∷ []; amount = n }

abbrev payments : List Recipient
payments = pay 2 10 ∷ pay 1 20 ∷ pay 2 5 ∷ []

consolidate_runs : consolidate payments by_address true ≡ ok (pay 1 20 ∷ pay 2 15 ∷ [])
unfolding consolidate see_all see add_recipient put_in_order sort_by insert_by
consolidate_runs = refl

consolidate_exact_example :
    Distinct (pay 1 20 ∷ pay 2 15 ∷ [])
    × ((a : Bytes) → paid a (pay 1 20 ∷ pay 2 15 ∷ []) ≡ paid a payments)
consolidate_exact_example =
    consolidate_exact payments (pay 1 20 ∷ pay 2 15 ∷ []) by_address true consolidate_runs

chunk_partition_example :
    (concat (chunk payments 2) ≡ payments)
    × All (λ b. (0 < length b) × (length b ≤ 2)) (chunk payments 2)
chunk_partition_example = chunk_partition payments 2 (omega arith)
