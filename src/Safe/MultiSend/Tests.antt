-- ===== src/Safe/MultiSend/Tests.antt =====
-- A batch of two calls, written and read back.
use harmony_migration.Base.{◌≡◌, refl, some, List, [], ◌∷◌, ◌++◌, map, Result, ok, err}
use harmony_migration.Abi.Bytes.{Bytes, big_endian, number_from, bound}
use harmony_migration.Abi.Words.{words, put_words, word_at}
use harmony_migration.Safe.MultiSend.{
  zeros, pack_call, pack_calls, padding, multisend_calls, decode_multisend, shorter_than_declared,
}
use harmony_migration.Safe.MultiSend.Decoding.{plain_call, decode_multisend-multisend_calls}

abbrev selector : Bytes
selector = 141 ∷ 128 ∷ 255 ∷ 10 ∷ []

abbrev two_calls : List (Bytes × Bytes)
two_calls = (zeros 20, 1 ∷ 2 ∷ 3 ∷ []) ∷ (zeros 20, []) ∷ []

abbrev bytes_or_none {ℓ} : {E : Type ℓ} → Result E Bytes → Bytes
bytes_or_none (err e) = []
bytes_or_none (ok bs) = bs

abbrev two_calls_data : Bytes
two_calls_data = bytes_or_none (multisend_calls selector two_calls)

two_calls_made : multisend_calls selector two_calls ≡ ok two_calls_data
unfolding multisend_calls pack_calls pack_call padding words put_words big_endian bound
two_calls_made = refl

cut_short :
    decode_multisend selector (selector ++ (big_endian 32 32 ++ big_endian 32 1))
    ≡ err shorter_than_declared
unfolding decode_multisend word_at big_endian number_from
cut_short = refl

decode_multisend-multisend_calls_example :
    decode_multisend selector two_calls_data ≡ ok (some (map plain_call two_calls))
decode_multisend-multisend_calls_example =
    decode_multisend-multisend_calls selector two_calls refl (refl, (refl, tt)) two_calls_made
