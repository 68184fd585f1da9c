-- ===== src/Safe/Transactions/Paying.antt =====
-- What the Safe transactions of a list pay, as their call data reads.
use mathlib.Core.Path.{subst}
use mathlib.Core.List.{map-append}
use harmony_migration.Base.{
  ℕ, zero, suc, ◌+◌, ◌≡◌, refl, sym, ap, ◌∙◌, ◌⊎◌, inl, inr, Option, List, [], ◌∷◌, ◌++◌, length,
  take, drop, All, Result, ok, ◌>>=◌, >>=-eq-ok, ok_injective,
}
use harmony_migration.Abi.Bytes.{Bytes}
use harmony_migration.Abi.Batch.{IsAddress}
use harmony_migration.Airdrop.Recipients.{Recipient}
use harmony_migration.Airdrop.Recipients.Chunks.{concat}
use harmony_migration.Safe.MultiSend.{DecodeError, transfer_data, multisend_data}
use harmony_migration.Safe.MultiSend.Transfers.{decode_transfer-transfer_data}
use harmony_migration.Safe.MultiSend.Describing.{
  Described, describe_calls, describe_single, describe_lone, calls_of, HaveRecipients, transfers_of,
  describe_calls-multisend_data,
}
use harmony_migration.Safe.Transactions.{
  SafeTx, transfers_tx, transactions_from, build_transactions, nonce_at, slices, plain_tx,
  zero_address,
}
use harmony_migration.Safe.Transactions.Sizes.{total, slices_lem}

-- What the transactions of a list do together, as `describe_calls` shows each.
abbrev pub together : Described → Described → Described
together d rest = record {
  transfers = d.transfers ++ rest.transfers;
  other = d.other + rest.other;
  undecoded = d.undecoded + rest.undecoded;
}

-- A transaction that moves no native coin and refunds no gas, and that calls the token, or
-- delegates to the batch contract.
abbrev pub IsPlain : Bytes → Bytes → SafeTx → Type 0
IsPlain token multisend tx =
    (((tx.operation ≡ 0) × (tx.to ≡ token)) ⊎ ((tx.operation ≡ 1) × (tx.to ≡ multisend)))
    × (tx.value ≡ 0)
    × (tx.safe_tx_gas ≡ 0)
    × (tx.base_gas ≡ 0)
    × (tx.gas_price ≡ 0)
    × (tx.gas_token ≡ zero_address)
    × (tx.refund_receiver ≡ zero_address)

All-drop {ℓ κ} : {A : Type ℓ} (P : A → Type κ) (n : ℕ) (xs : List A) → All P xs → All P (drop n xs)
All-drop P zero xs h = h
All-drop P (suc n) [] h = h
All-drop P (suc n) (x ∷ xs) h = All-drop P n xs h.1

All-take {ℓ κ} : {A : Type ℓ} (P : A → Type κ) (n : ℕ) (xs : List A) → All P xs → All P (take n xs)
All-take P zero xs h = tt
All-take P (suc n) [] h = tt
All-take P (suc n) (x ∷ xs) h = (h.0, All-take P n xs h.1)

pub All-of-slices {ℓ κ} :
    {A : Type ℓ} (P : A → Type κ) (xs : List A) (sizes : List ℕ)
    → All P xs
    → All (All P) (slices xs sizes)
unfolding slices
All-of-slices P xs [] h = tt
All-of-slices P xs (n ∷ sizes) h =
    (All-take P n xs h, All-of-slices P (drop n xs) sizes (All-drop P n xs h))

module _ (multisend_selector transfer_selector : Bytes) where
  unfoldable pub shown : List SafeTx → Result DecodeError Described
  shown [] = ok (record { transfers = []; other = 0; undecoded = 0 })
  shown (tx ∷ txs) = do
    here ← describe_calls multisend_selector transfer_selector tx.to tx.calldata tx.operation
    rest ← shown txs
    ok (together here rest)

module _ (multisend_selector transfer_selector : Bytes) (h : length multisend_selector ≡ 4)
    (k : length transfer_selector ≡ 4) where
  -- Call data of a batch, sent to the batch contract.
  batch_shown :
      (token multisend : Bytes) (rows : List Recipient) (n : Option ℕ) {tx : SafeTx}
      → length token ≡ 20
      → HaveRecipients rows
      → (multisend_data multisend_selector transfer_selector token rows >>= λ calldata.
          ok (plain_tx multisend calldata 1 n))
        ≡ ok tx
      → describe_calls multisend_selector transfer_selector tx.to tx.calldata tx.operation
        ≡ ok (record { transfers = transfers_of token rows; other = 0; undecoded = 0 })
  batch_shown token multisend rows n t a made =
      let (calldata, written, joined) =
        >>=-eq-ok (multisend_data multisend_selector transfer_selector token rows) _ made in
      subst
        (λ tx'.
          describe_calls multisend_selector transfer_selector tx'.to tx'.calldata tx'.operation
          ≡ ok (record { transfers = transfers_of token rows; other = 0; undecoded = 0 }))
        (ok_injective joined)
        (describe_calls-multisend_data multisend_selector transfer_selector multisend token rows h k
          t a written)

  batch-IsPlain :
      (token multisend : Bytes) (rows : List Recipient) (n : Option ℕ) {tx : SafeTx}
      → (multisend_data multisend_selector transfer_selector token rows >>= λ calldata.
          ok (plain_tx multisend calldata 1 n))
        ≡ ok tx
      → IsPlain token multisend tx
  batch-IsPlain token multisend rows n made =
      let (_, _, joined) =
        >>=-eq-ok (multisend_data multisend_selector transfer_selector token rows) _ made in
      subst (IsPlain token multisend) (ok_injective joined)
        ((inr (refl, refl), refl, refl, refl, refl, refl, refl))

  transfers_tx-IsPlain :
      (token multisend : Bytes) (rows : List Recipient) (n : Option ℕ) {tx : SafeTx}
      → transfers_tx multisend_selector transfer_selector token multisend rows n ≡ ok tx
      → IsPlain token multisend tx
  unfolding transfers_tx
  transfers_tx-IsPlain token multisend [] n made = batch-IsPlain token multisend [] n made
  transfers_tx-IsPlain token multisend (r ∷ []) n made =
      let (_, _, joined) = >>=-eq-ok (transfer_data transfer_selector r.address r.amount) _ made in
      subst (IsPlain token multisend) (ok_injective joined)
        ((inl (refl, refl), refl, refl, refl, refl, refl, refl))
  transfers_tx-IsPlain token multisend (r ∷ s ∷ rows) n made =
      batch-IsPlain token multisend (r ∷ s ∷ rows) n made

  transactions_from-IsPlain :
      (token multisend : Bytes) (first : Option ℕ) (i : ℕ) (chunks : List (List Recipient))
      {txs : List SafeTx}
      → transactions_from multisend_selector transfer_selector token multisend first i chunks
        ≡ ok txs
      → All (IsPlain token multisend) txs
  unfolding transactions_from
  transactions_from-IsPlain token multisend first i [] made =
      subst (All (IsPlain token multisend)) (ok_injective made) tt
  transactions_from-IsPlain token multisend first i (rows ∷ chunks) made =
      let (tx, first_made, rest_made) =
        >>=-eq-ok
          (transfers_tx multisend_selector transfer_selector token multisend rows
            (nonce_at first i))
          _ made in
      let (txs, others, joined) =
        >>=-eq-ok
          (transactions_from multisend_selector transfer_selector token multisend first (suc i)
            chunks)
          _ rest_made in
      subst (All (IsPlain token multisend)) (ok_injective joined) (
        (
          transfers_tx-IsPlain token multisend rows (nonce_at first i) first_made,
          transactions_from-IsPlain token multisend first (suc i) chunks others,
        ))

  pub transfers_tx-shown :
      (token multisend : Bytes) (rows : List Recipient) (n : Option ℕ) {tx : SafeTx}
      → length token ≡ 20
      → HaveRecipients rows
      → transfers_tx multisend_selector transfer_selector token multisend rows n ≡ ok tx
      → describe_calls multisend_selector transfer_selector tx.to tx.calldata tx.operation
        ≡ ok (record { transfers = transfers_of token rows; other = 0; undecoded = 0 })
  unfolding transfers_tx describe_calls calls_of describe_single
  transfers_tx-shown token multisend [] n t a made = batch_shown token multisend [] n t a made
  transfers_tx-shown token multisend (r ∷ []) n t a made =
      let (calldata, written, joined) =
        >>=-eq-ok (transfer_data transfer_selector r.address r.amount) _ made in
      let read = decode_transfer-transfer_data transfer_selector r.address r.amount k a.0 written in
      subst
        (λ tx'.
          describe_calls multisend_selector transfer_selector tx'.to tx'.calldata tx'.operation
          ≡ ok (record { transfers = transfers_of token (r ∷ []); other = 0; undecoded = 0 }))
        (ok_injective joined)
        (ap (λ d. ok (describe_lone token 0 d)) read ∙ unfold describe_lone in refl)
  transfers_tx-shown token multisend (r ∷ s ∷ rows) n t a made =
      batch_shown token multisend (r ∷ s ∷ rows) n t a made

  transactions_from-shown :
      (token multisend : Bytes) (first : Option ℕ) (i : ℕ) (chunks : List (List Recipient))
      {txs : List SafeTx}
      → length token ≡ 20
      → All HaveRecipients chunks
      → transactions_from multisend_selector transfer_selector token multisend first i chunks
        ≡ ok txs
      → shown multisend_selector transfer_selector txs
        ≡ ok (record { transfers = transfers_of token (concat chunks); other = 0; undecoded = 0 })
  unfolding transactions_from shown
  transactions_from-shown token multisend first i [] t a made =
      subst
        (λ txs.
          shown multisend_selector transfer_selector txs
          ≡ ok (record { transfers = []; other = 0; undecoded = 0 }))
        (ok_injective made) refl
  transactions_from-shown token multisend first i (rows ∷ chunks) t a made =
      let (tx, first_made, rest_made) =
        >>=-eq-ok
          (transfers_tx multisend_selector transfer_selector token multisend rows
            (nonce_at first i))
          _ made in
      let (txs, others, joined) =
        >>=-eq-ok
          (transactions_from multisend_selector transfer_selector token multisend first (suc i)
            chunks)
          _ rest_made in
      let here = transfers_tx-shown token multisend rows (nonce_at first i) t a.0 first_made in
      let rest = transactions_from-shown token multisend first (suc i) chunks t a.1 others in
      subst
        (λ txs'.
          shown multisend_selector transfer_selector txs'
          ≡ ok (record {
            transfers = transfers_of token (rows ++ concat chunks);
            other = 0;
            undecoded = 0;
          }))
        (ok_injective joined)
        (rw (here, rest)
          (ap (λ l. ok (record { transfers = l; other = 0; undecoded = 0 }))
            (sym (map-append (λ r. (token, (r.address, r.amount))) rows (concat chunks)))))

  -- Where the sizes add up to the number of rows, the selectors have four bytes, and the token
  -- and the recipients are addresses, the Safe transactions that were built together transfer
  -- the token to each recipient of the list in turn, with its amount, and do nothing else:
  -- `describe_calls` decodes the call data of every transaction and finds no other call, and every
  -- transaction calls the token or delegates to the batch contract, moves no native coin and
  -- refunds no gas.
  pub build_transactions-pays :
      (token multisend : Bytes) (rows : List Recipient) (sizes : List ℕ) (first : Option ℕ)
      {txs : List SafeTx}
      → length token ≡ 20
      → HaveRecipients rows
      → total sizes ≡ length rows
      → build_transactions multisend_selector transfer_selector token multisend rows sizes first
        ≡ ok txs
      → (shown multisend_selector transfer_selector txs
          ≡ ok (record { transfers = transfers_of token rows; other = 0; undecoded = 0 }))
        × All (IsPlain token multisend) txs
  unfolding build_transactions
  build_transactions-pays token multisend rows sizes first {txs} t a sum made = (
    subst
        (λ all.
          shown multisend_selector transfer_selector txs
          ≡ ok (record { transfers = transfers_of token all; other = 0; undecoded = 0 }))
        ((slices_lem rows sizes sum).0)
        (transactions_from-shown token multisend first 0 (slices rows sizes) t
          (All-of-slices (λ r. IsAddress r.address) rows sizes a) made),
    transactions_from-IsPlain token multisend first 0 (slices rows sizes) made,
  )
