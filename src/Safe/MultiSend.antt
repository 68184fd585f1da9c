-- ===== src/Safe/MultiSend.antt =====
-- The call data of airdrop/tools/safe_batch.py (`transfer_data`, `pack_call`, `multisend_data`,
-- `decode_multisend`, `decode_transfer`) and `multisend_calls` of airdrop/tools/vault_batch.py. The
-- selectors, four bytes of a hash each, are parameters.
use mathlib.Core.List
use harmony_migration.Base.{
  ℕ, zero, suc, ◌+◌, ◌-◌, ◌*◌, ◌%◌, Bool, true, false, not, ◌||◌, ◌&&◌, Option, none, some, List,
  [], ◌∷◌, ◌++◌, map, if◌then◌else◌, ltb, ◌==◌, any_of, length, take, drop, Result, ok, err, ◌>>=◌,
  ◌>>◌, raise_if,
}
use harmony_migration.Base.Order.{text_eq}
use harmony_migration.Abi.Bytes.{Bytes, number_of}
use harmony_migration.Abi.Words.{AbiError, words, word_at}
use harmony_migration.Airdrop.Recipients.{Recipient}
pub mod Decoding
pub mod Transfers
pub mod Describing
mod Tests

-- One call of a batch.
pub record Call : Type 0 where
  pub operation : ℕ
  pub to : Bytes
  pub value : ℕ
  pub body : Bytes

-- What `decode_multisend` raises; the fuel of its loop cannot run out, see Decoding.
pub data DecodeError : Type 0 where
  shorter_than_declared ends_in_entry shorter_entry out_of_fuel : DecodeError

abbrev pub zeros : ℕ → Bytes
zeros zero = []
zeros (suc n) = 0 ∷ zeros n

-- `bytes([CALL]) + unhex(to) + word(0) + word(len(data)) + data`
unfoldable pub pack_call : Bytes → Bytes → Result AbiError Bytes
pack_call to body = do head ← words (0 ∷ length body ∷ []); ok (0 ∷ (to ++ (head ++ body)))

-- `b"".join(pack_call(to, data) for to, data in calls)`
unfoldable pub pack_calls : List (Bytes × Bytes) → Result AbiError Bytes
pack_calls [] = ok []
pack_calls ((to, body) ∷ calls) = do
  call ← pack_call to body
  rest ← pack_calls calls
  ok (call ++ rest)

-- `-len(packed) % 32`
unfoldable pub padding : ℕ → ℕ
padding size = (32 - size % 32) % 32

-- One turn of the loop of `decode_multisend`: the entry at the front, its `size` read, and what is
-- after it.
unfoldable pub decode_sized : ℕ → ℕ → Bytes → Bytes → Result DecodeError (Call × Bytes)
decode_sized size operation rest packed =
    let body = take size (drop 85 packed) in
    raise_if (not (length body == size)) shorter_entry
    >> ok (
      record { operation = operation; to = take 20 rest; value = word_at packed 21; body = body },
      drop (85 + size) packed,
    )

unfoldable pub decode_entry : ℕ → Bytes → Result DecodeError (Call × Bytes)
decode_entry operation rest =
    let packed : Bytes = operation ∷ rest in
    raise_if (ltb (length packed) 85) ends_in_entry
    >> decode_sized (word_at packed 53) operation rest packed

-- The `while` loop of `decode_multisend`, on `packed[i:]`.
unfoldable pub decode_entries : ℕ → Bytes → Result DecodeError (List Call)
decode_entries fuel [] = ok []
decode_entries zero (operation ∷ rest) = err out_of_fuel
decode_entries (suc fuel) (operation ∷ rest) = do
  read ← decode_entry operation rest
  calls ← decode_entries fuel read.1
  ok (read.0 ∷ calls)

module _ (multisend_selector : Bytes) where
  unfoldable pub multisend_calls : List (Bytes × Bytes) → Result AbiError Bytes
  multisend_calls calls = do
    packed ← pack_calls calls
    head ← words (32 ∷ length packed ∷ [])
    ok (multisend_selector ++ (head ++ (packed ++ zeros (padding (length packed)))))

  unfoldable pub decode_multisend : Bytes → Result DecodeError (Option (List Call))
  decode_multisend bytes =
      if not (text_eq (take 4 bytes) multisend_selector) || ltb (length bytes) 68
      then ok none
      else (do
        let start = 4 + word_at bytes 4
        let size = word_at bytes start
        let packed = take size (drop (start + 32) bytes)
        raise_if (not (length packed == size)) shorter_than_declared
        calls ← decode_entries (length packed) packed
        ok (some calls))

module _ (transfer_selector : Bytes) where
  unfoldable pub transfer_data : Bytes → ℕ → Result AbiError Bytes
  transfer_data recipient amount = do
    arguments ← words (number_of recipient ∷ amount ∷ [])
    ok (transfer_selector ++ arguments)

  -- The calls of `multisend_data`: a transfer on the token for each row.
  unfoldable pub transfer_calls : Bytes → List Recipient → Result AbiError (List (Bytes × Bytes))
  transfer_calls token [] = ok []
  transfer_calls token (r ∷ rows) = do
    body ← transfer_data r.address r.amount
    rest ← transfer_calls token rows
    ok ((token, body) ∷ rest)

  unfoldable pub decode_transfer : Bytes → Option (Bytes × ℕ)
  decode_transfer body =
      if not (length body == 68)
        || not (text_eq (take 4 body) transfer_selector)
        || any_of (λ b. not (b == 0)) (take 12 (drop 4 body))
      then none
      else some (take 20 (drop 16 body), word_at body 36)

unfoldable pub multisend_data : Bytes → Bytes → Bytes → List Recipient → Result AbiError Bytes
multisend_data multisend_selector transfer_selector token rows =
    transfer_calls transfer_selector token rows >>= multisend_calls multisend_selector
