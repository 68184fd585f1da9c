-- ===== src/Safe/Transactions.antt =====
-- The Safe transactions of airdrop/tools/safe_batch.py: `SafeTx`, `transfers_tx`, `split_sizes`,
-- `slices`, `build_transactions`, and the hashes that the signers sign. The hash, the selectors and
-- the two type hashes are parameters.
use harmony_migration.Base.{
  ℕ, zero, suc, ◌+◌, ◌-◌, ◌*◌, ◌/◌, ◌%◌, ◌≡◌, Bool, true, false, not, ◌&&◌, Option, none, some,
  List, [], ◌∷◌, ◌++◌, map, if◌then◌else◌, ltb, ◌==◌, length, take, drop, Result, ok, err, ◌>>=◌,
  ◌>>◌, raise_if,
}
use harmony_migration.Abi.Bytes.{Bytes, number_of}
use harmony_migration.Abi.Words.{AbiError, words}
use harmony_migration.Airdrop.Recipients.{Recipient}
use harmony_migration.Safe.MultiSend.{zeros, transfer_data, multisend_data}
pub mod Sizes
pub mod Paying
pub mod Signing
mod Tests

-- A Safe transaction, with its default gas fields; `nonce` is none where it is chosen later.
pub record SafeTx : Type 0 where
  pub to : Bytes
  pub value : ℕ
  pub calldata : Bytes
  pub operation : ℕ
  pub nonce : Option ℕ
  pub safe_tx_gas : ℕ
  pub base_gas : ℕ
  pub gas_price : ℕ
  pub gas_token : Bytes
  pub refund_receiver : Bytes

abbrev pub zero_address : Bytes
zero_address = zeros 20

-- `SafeTx(to, 0, data, operation, nonce)`
abbrev pub plain_tx : Bytes → Bytes → ℕ → Option ℕ → SafeTx
plain_tx to calldata operation nonce = record {
  to = to;
  value = 0;
  calldata = calldata;
  operation = operation;
  nonce = nonce;
  safe_tx_gas = 0;
  base_gas = 0;
  gas_price = 0;
  gas_token = zero_address;
  refund_receiver = zero_address;
}

pub data SizeError : Type 0 where
  division_by_zero : SizeError

abbrev pub repeat {ℓ} : {A : Type ℓ} → ℕ → A → List A
repeat zero a = []
repeat (suc n) a = a ∷ repeat n a

-- `-(-left // max_transfers)`
abbrev pub parts_of : ℕ → ℕ → ℕ
parts_of left max_transfers = (left + (max_transfers - 1)) / max_transfers

-- The near-equal sizes at the end of `split_sizes`.
unfoldable pub near_equal : ℕ → ℕ → Result SizeError (List ℕ)
near_equal left max_transfers =
    if left == 0
    then ok []
    else (raise_if (max_transfers == 0) division_by_zero
        >> ok (
            let parts = parts_of left max_transfers in
            let base = left / parts in
            let extra = left % parts in repeat extra (base + 1) ++ repeat (parts - extra) base))

-- `min(first, left)`
abbrev pub min_of : ℕ → ℕ → ℕ
min_of a b = if ltb b a then b else a

-- `first` of 0 counts as no first, as `if first` does.
unfoldable pub split_sizes : ℕ → ℕ → Option ℕ → Result SizeError (List ℕ)
split_sizes count max_transfers none = near_equal count max_transfers
split_sizes count max_transfers (some first) =
    if first == 0 then near_equal count max_transfers else (do
      let taken = min_of first count
      rest ← near_equal (count - taken) max_transfers
      ok (taken ∷ rest))

unfoldable pub slices {ℓ} : {A : Type ℓ} → List A → List ℕ → List (List A)
slices rows [] = []
slices rows (size ∷ sizes) = take size rows ∷ slices (drop size rows) sizes

-- `None if first_nonce is None else first_nonce + i`
abbrev pub nonce_at : Option ℕ → ℕ → Option ℕ
nonce_at none i = none
nonce_at (some first_nonce) i = some (first_nonce + i)

module _ (multisend_selector transfer_selector : Bytes) where
  unfoldable pub transfers_tx : Bytes → Bytes → List Recipient → Option ℕ → Result AbiError SafeTx
  transfers_tx token multisend [] nonce = do
    calldata ← multisend_data multisend_selector transfer_selector token []
    ok (plain_tx multisend calldata 1 nonce)
  transfers_tx token multisend (r ∷ []) nonce = do
    calldata ← transfer_data transfer_selector r.address r.amount
    ok (plain_tx token calldata 0 nonce)
  transfers_tx token multisend (r ∷ s ∷ rows) nonce = do
    calldata ← multisend_data multisend_selector transfer_selector token (r ∷ s ∷ rows)
    ok (plain_tx multisend calldata 1 nonce)

  -- The transactions of the slices from the `i`-th on.
  unfoldable pub transactions_from :
      Bytes → Bytes → Option ℕ → ℕ → List (List Recipient) → Result AbiError (List SafeTx)
  transactions_from token multisend first_nonce i [] = ok []
  transactions_from token multisend first_nonce i (rows ∷ chunks) = do
    tx ← transfers_tx token multisend rows (nonce_at first_nonce i)
    rest ← transactions_from token multisend first_nonce (suc i) chunks
    ok (tx ∷ rest)

  unfoldable pub build_transactions :
      Bytes → Bytes → List Recipient → List ℕ → Option ℕ → Result AbiError (List SafeTx)
  build_transactions token multisend rows sizes first_nonce =
      transactions_from token multisend first_nonce 0 (slices rows sizes)

module _ (keccak256 : Bytes → Bytes) (domain_typehash safe_tx_typehash : Bytes) where
  unfoldable pub domain_hash : ℕ → Bytes → Result AbiError Bytes
  domain_hash chain_id safe = do
    arguments ← words (chain_id ∷ number_of safe ∷ [])
    ok (keccak256 (domain_typehash ++ arguments))

  -- The bytes under `message_hash`, of a transaction that has a nonce.
  unfoldable pub message_bytes : SafeTx → ℕ → Result AbiError Bytes
  message_bytes tx at_nonce = do
    front ← words (number_of tx.to ∷ tx.value ∷ [])
    back ← words (
        tx.operation
        ∷ tx.safe_tx_gas
        ∷ tx.base_gas
        ∷ tx.gas_price
        ∷ number_of tx.gas_token
        ∷ number_of tx.refund_receiver
        ∷ at_nonce
        ∷ [])
    ok (safe_tx_typehash ++ (front ++ (keccak256 tx.calldata ++ back)))

  unfoldable pub message_hash : SafeTx → ℕ → Result AbiError Bytes
  message_hash tx at_nonce = do bytes ← message_bytes tx at_nonce; ok (keccak256 bytes)

  -- `b"\x19\x01" + domain_hash(chain_id, safe) + message_hash(tx)`, hashed
  unfoldable pub safe_tx_hash : ℕ → Bytes → SafeTx → ℕ → Result AbiError Bytes
  safe_tx_hash chain_id safe tx at_nonce = do
    domain ← domain_hash chain_id safe
    message ← message_hash tx at_nonce
    ok (keccak256 (25 ∷ 1 ∷ (domain ++ message)))
