-- ===== src/Abi/Tests.antt =====
-- The encodings at small inputs.
use harmony_migration.Base.{ℕ, ◌≡◌, refl, ◌∷◌, [], ok, Result, err, arith}
use harmony_migration.Abi.Bytes.{Bytes, big_endian, number_from, bound}
use harmony_migration.Abi.Words.{AbiError, words, put_words, word_at}
use harmony_migration.Abi.Batch.{encode_row, encode_row-injective}

third_word : word_at (put_words (1 ∷ 2 ∷ 300 ∷ [])) 64 ≡ 300
unfolding word_at put_words big_endian number_from
third_word = refl

abbrev twenty : ℕ → Bytes
twenty b = 0 ∷ 0 ∷ 0 ∷ 0 ∷ 0 ∷ 0 ∷ 0 ∷ 0 ∷ 0 ∷ 0 ∷ 0 ∷ 0 ∷ 0 ∷ 0 ∷ 0 ∷ 0 ∷ 0 ∷ 0 ∷ 0 ∷ b ∷ []

abbrev bytes_or_none : Result AbiError Bytes → Bytes
bytes_or_none (err e) = []
bytes_or_none (ok bs) = bs

abbrev row_bytes : Bytes
row_bytes = bytes_or_none (encode_row 3 (twenty 1) (twenty 2) 500)

row_encoded : encode_row 3 (twenty 1) (twenty 2) 500 ≡ ok row_bytes
unfolding encode_row words put_words big_endian number_from bound
row_encoded = refl

encode_row-injective_example :
    (◌≡◌ {A = ℕ} 3 3) × (twenty 1 ≡ twenty 1) × (twenty 2 ≡ twenty 2) × (◌≡◌ {A = ℕ} 500 500)
encode_row-injective_example =
    encode_row-injective 3 3 (twenty 1) (twenty 1) (twenty 2) (twenty 2) 500 500 (refl, omega arith)
      (refl, omega arith) (refl, omega arith) (refl, omega arith) row_encoded row_encoded
