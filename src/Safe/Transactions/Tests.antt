-- ===== src/Safe/Transactions/Tests.antt =====
-- Safe transactions of a small list.
use harmony_migration.Base.{
  ℕ, zero, suc, ◌≡◌, ◌⊎◌, refl, none, some, List, [], ◌∷◌, arith, length, All, Result, ok, err,
}
use harmony_migration.Abi.Bytes.{Bytes, big_endian, number_from, bound}
use harmony_migration.Abi.Words.{words, put_words}
use harmony_migration.Airdrop.Recipients.{Recipient}
use harmony_migration.Airdrop.BatchTree.Binding.{Collision}
use harmony_migration.Safe.MultiSend.{
  pack_call, pack_calls, padding, multisend_calls, transfer_data, transfer_calls, multisend_data,
}
use harmony_migration.Safe.MultiSend.Describing.{HaveRecipients, transfers_of}
use harmony_migration.Safe.Transactions.{
  SafeTx, transfers_tx, transactions_from, build_transactions, slices, plain_tx, split_sizes,
  near_equal, domain_hash, message_bytes, message_hash, safe_tx_hash,
}
use harmony_migration.Safe.Transactions.Sizes.{total, AtMost, split_sizes-total}
use harmony_migration.Safe.Transactions.Paying.{shown, IsPlain, build_transactions-pays}
use harmony_migration.Safe.Transactions.Signing.{SameTx, HasAddresses, safe_tx_hash-binds}

-- An address, and a hash that returns 32 ones.
abbrev twenty : ℕ → Bytes
twenty b = 0 ∷ 0 ∷ 0 ∷ 0 ∷ 0 ∷ 0 ∷ 0 ∷ 0 ∷ 0 ∷ 0 ∷ 0 ∷ 0 ∷ 0 ∷ 0 ∷ 0 ∷ 0 ∷ 0 ∷ 0 ∷ 0 ∷ b ∷ []

abbrev ones : ℕ → Bytes
ones zero = []
ones (suc n) = 1 ∷ ones n

length-ones : (n : ℕ) → length (ones n) ≡ n
length-ones zero = refl
length-ones (suc n) = omega (arith, length-ones n)

abbrev constant_hash : Bytes → Bytes
constant_hash row = ones 32

length-constant_hash : (row : Bytes) → length (constant_hash row) ≡ 32
length-constant_hash row = length-ones 32

abbrev four : ℕ → Bytes
four b = b ∷ b ∷ b ∷ b ∷ []

abbrev three_rows : List Recipient
three_rows =
    record { address = twenty 1; amount = 10 }
    ∷ record { address = twenty 2; amount = 300 }
    ∷ record { address = twenty 3; amount = 5 }
    ∷ []

three_rows-HaveRecipients : HaveRecipients three_rows
three_rows-HaveRecipients = ((refl, omega arith), ((refl, omega arith), ((refl, omega arith), tt)))

sizes_of_three : split_sizes 3 2 (some 1) ≡ ok (1 ∷ 2 ∷ [])
unfolding split_sizes near_equal
sizes_of_three = refl

sizes_of_ten : split_sizes 10 4 none ≡ ok (4 ∷ 3 ∷ 3 ∷ [])
unfolding split_sizes near_equal
sizes_of_ten = refl

no_sizes : split_sizes 0 4 none ≡ ok []
unfolding split_sizes near_equal
no_sizes = refl

split_sizes-total_example :
    (sizes : List ℕ) × (split_sizes 3 2 (some 1) ≡ ok sizes) × (total sizes ≡ 3) × AtMost 2 sizes
split_sizes-total_example = split_sizes-total 3 2 (some 1) (omega arith) (omega arith)

abbrev made_or_none {ℓ κ} : {E : Type ℓ} {A : Type κ} → Result E (List A) → List A
made_or_none (err e) = []
made_or_none (ok as') = as'

abbrev three_txs : List SafeTx
unfolding build_transactions
three_txs =
    made_or_none (
      build_transactions (four 7) (four 9) (twenty 50) (twenty 60) three_rows (1 ∷ 2 ∷ []) (some 4))

three_built :
    build_transactions (four 7) (four 9) (twenty 50) (twenty 60) three_rows (1 ∷ 2 ∷ []) (some 4)
    ≡ ok three_txs
unfolding build_transactions transactions_from slices transfers_tx multisend_data transfer_calls
    multisend_calls transfer_data pack_calls pack_call padding words put_words big_endian
    number_from bound
three_built = refl

build_transactions-pays_example :
    (shown (four 7) (four 9) three_txs
      ≡ ok (record { transfers = transfers_of (twenty 50) three_rows; other = 0; undecoded = 0 }))
    × All (IsPlain (twenty 50) (twenty 60)) three_txs
build_transactions-pays_example =
    build_transactions-pays (four 7) (four 9) refl refl (twenty 50) (twenty 60) three_rows
      (1 ∷ 2 ∷ []) (some 4) refl three_rows-HaveRecipients refl three_built

abbrev one_tx : SafeTx
one_tx = plain_tx (twenty 60) (four 7) 1 (some 4)

one_hash : safe_tx_hash constant_hash (ones 32) (ones 32) 1 (twenty 70) one_tx 4 ≡ ok (ones 32)
unfolding safe_tx_hash domain_hash message_hash message_bytes words put_words big_endian number_from
    bound
one_hash = refl

one_tx-HasAddresses : HasAddresses one_tx
one_tx-HasAddresses = ((refl, omega arith), (refl, omega arith), (refl, omega arith))

safe_tx_hash-binds_example :
    ((◌≡◌ {A = ℕ} 1 1) × (twenty 70 ≡ twenty 70) × (◌≡◌ {A = ℕ} 4 4) × SameTx one_tx one_tx)
    ⊎ Collision constant_hash
safe_tx_hash-binds_example =
    safe_tx_hash-binds constant_hash length-constant_hash (ones 32) (ones 32) 1 1 (twenty 70)
      (twenty 70) one_tx one_tx 4 4 (refl, omega arith) (refl, omega arith) one_tx-HasAddresses
      one_tx-HasAddresses one_hash one_hash
