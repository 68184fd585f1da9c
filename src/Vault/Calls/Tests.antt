-- ===== src/Vault/Calls/Tests.antt =====
-- A deposit of two amounts, written and read back.
use harmony_migration.Base.{ℕ, ◌≡◌, refl, some, none, [], ◌∷◌, arith, Result, ok, err}
use harmony_migration.Abi.Bytes.{Bytes, big_endian, number_from, bound}
use harmony_migration.Abi.Words.{AbiError, words, put_words}
use harmony_migration.Vault.Calls.{deposit_batch_data, decode_deposit_batch}
use harmony_migration.Vault.Calls.Reading.{AreAddresses, decode_deposit_batch-deposit_batch_data}

abbrev twenty : ℕ → Bytes
twenty b = 0 ∷ 0 ∷ 0 ∷ 0 ∷ 0 ∷ 0 ∷ 0 ∷ 0 ∷ 0 ∷ 0 ∷ 0 ∷ 0 ∷ 0 ∷ 0 ∷ 0 ∷ 0 ∷ 0 ∷ 0 ∷ 0 ∷ b ∷ []

abbrev bytes_or_none : Result AbiError Bytes → Bytes
bytes_or_none (err e) = []
bytes_or_none (ok bs) = bs

abbrev selector : Bytes
selector = 194 ∷ 255 ∷ 247 ∷ 129 ∷ []

abbrev two_deposits : Bytes
two_deposits =
    bytes_or_none (deposit_batch_data selector (10 ∷ 300 ∷ []) (twenty 1 ∷ twenty 2 ∷ []))

two_deposits_made :
    deposit_batch_data selector (10 ∷ 300 ∷ []) (twenty 1 ∷ twenty 2 ∷ []) ≡ ok two_deposits
unfolding deposit_batch_data words put_words big_endian number_from bound
two_deposits_made = refl

too_short : decode_deposit_batch selector selector ≡ none
unfolding decode_deposit_batch
too_short = refl

twenties-AreAddresses : AreAddresses (twenty 1 ∷ twenty 2 ∷ [])
twenties-AreAddresses = ((refl, omega arith), ((refl, omega arith), tt))

decode_deposit_batch-deposit_batch_data_example :
    decode_deposit_batch selector two_deposits ≡ some (10 ∷ 300 ∷ [], twenty 1 ∷ twenty 2 ∷ [])
decode_deposit_batch-deposit_batch_data_example =
    decode_deposit_batch-deposit_batch_data selector (10 ∷ 300 ∷ []) (twenty 1 ∷ twenty 2 ∷ []) refl
      refl twenties-AreAddresses two_deposits_made
