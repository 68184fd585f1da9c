-- ===== src/Safe/MultiSend/Describing.antt =====
-- `describe_calls` of airdrop/tools/safe_batch.py, what `hash` shows a signer of call data: the
-- transfers, the number of other calls, and whether the call data was decoded at all. The lines of
-- text are left out.
use mathlib.Core.Path.{subst}
use harmony_migration.Base.{
  ℕ, suc, ◌≡◌, refl, sym, ap, ◌∙◌, ◌&&◌, Option, none, some, List, [], ◌∷◌, map, if◌then◌else◌,
  ◌==◌, length, All, Result, ok, ◌>>=◌, >>=-eq-ok, ok_injective,
}
use harmony_migration.Abi.Bytes.{Bytes}
use harmony_migration.Abi.Batch.{IsAddress}
use harmony_migration.Airdrop.Recipients.{Recipient}
use harmony_migration.Safe.MultiSend.{
  Call, DecodeError, decode_multisend, transfer_data, transfer_calls, decode_transfer,
  multisend_data,
}
use harmony_migration.Safe.MultiSend.Decoding.{
  plain_call, HaveTargets, decode_multisend-multisend_calls,
}
use harmony_migration.Safe.MultiSend.Transfers.{decode_transfer-transfer_data}

-- A token, the recipient and the amount.
abbrev pub Transfer : Type 0
Transfer = Bytes × (Bytes × ℕ)

-- The transfers that were found, the number of other calls, and whether (1) or not (0) the call
-- data is reported as not decoded.
pub record Described : Type 0 where
  pub transfers : List Transfer
  pub other : ℕ
  pub undecoded : ℕ

-- What the loop over the calls does with a call and its body read as a transfer, before the turns
-- after it.
unfoldable pub describe_decoded : Option (Bytes × ℕ) → Call → Described → Described
describe_decoded none call rest = record rest { other = suc rest.other }
describe_decoded (some decoded) call rest =
    if call.operation == 0 && (call.value == 0)
    then record rest { transfers = (call.to, decoded) ∷ rest.transfers }
    else record rest { other = suc rest.other }

-- Call data that is no batch, read as a transfer.
unfoldable pub describe_lone : Bytes → ℕ → Option (Bytes × ℕ) → Described
describe_lone to operation none = record { transfers = []; other = 0; undecoded = 1 }
describe_lone to operation (some decoded) =
    if operation == 0
    then record { transfers = (to, decoded) ∷ []; other = 0; undecoded = 0 }
    else record { transfers = []; other = 0; undecoded = 1 }

module _ (transfer_selector : Bytes) where
  unfoldable pub describe_call : Call → Described → Described
  describe_call call rest = describe_decoded (decode_transfer transfer_selector call.body) call rest

  unfoldable pub describe_all : List Call → Described
  describe_all [] = record { transfers = []; other = 0; undecoded = 0 }
  describe_all (call ∷ calls) = describe_call call (describe_all calls)

  unfoldable pub describe_single : Bytes → Bytes → ℕ → Described
  describe_single to body operation =
      describe_lone to operation (decode_transfer transfer_selector body)

module _ (multisend_selector transfer_selector : Bytes) where
  -- `decode_multisend(data) if operation == DELEGATECALL else None`
  unfoldable pub calls_of : Bytes → ℕ → Result DecodeError (Option (List Call))
  calls_of body operation =
      if operation == 1 then decode_multisend multisend_selector body else ok none

  unfoldable pub describe_calls : Bytes → Bytes → ℕ → Result DecodeError Described
  describe_calls to body operation = do
    calls ← calls_of body operation
    ok (elim calls [
      | none ↦ describe_single transfer_selector to body operation
      | some entries ↦ describe_all transfer_selector entries
    ])

abbrev pub HaveRecipients : List Recipient → Type 0
HaveRecipients = All (λ r. IsAddress r.address)

abbrev pub transfers_of : Bytes → List Recipient → List Transfer
transfers_of token rows = map (λ r. (token, (r.address, r.amount))) rows

module _ (transfer_selector : Bytes) (h : length transfer_selector ≡ 4) where
  describe_call-transfer :
      (token body : Bytes) (r : Recipient) (rest : Described)
      → IsAddress r.address
      → transfer_data transfer_selector r.address r.amount ≡ ok body
      → describe_call transfer_selector (plain_call (token, body)) rest
        ≡ record rest { transfers = (token, (r.address, r.amount)) ∷ rest.transfers }
  unfolding describe_call
  describe_call-transfer token body r rest a made =
      ap (λ d. describe_decoded d (plain_call (token, body)) rest)
        (decode_transfer-transfer_data transfer_selector r.address r.amount h a made)
      ∙ unfold describe_decoded in refl

  describe_all-transfer_calls :
      (token : Bytes) (rows : List Recipient) {calls : List (Bytes × Bytes)}
      → HaveRecipients rows
      → transfer_calls transfer_selector token rows ≡ ok calls
      → describe_all transfer_selector (map plain_call calls)
        ≡ record { transfers = transfers_of token rows; other = 0; undecoded = 0 }
  unfolding transfer_calls describe_all
  describe_all-transfer_calls token [] a made =
      subst
        (λ cs.
          describe_all transfer_selector (map plain_call cs)
          ≡ record { transfers = []; other = 0; undecoded = 0 })
        (ok_injective made) refl
  describe_all-transfer_calls token (r ∷ rows) a made =
      let (body, body_made, rest_made) =
        >>=-eq-ok (transfer_data transfer_selector r.address r.amount) _ made in
      let (rest, others, joined) =
        >>=-eq-ok (transfer_calls transfer_selector token rows) _ rest_made in
      ap (λ cs. describe_all transfer_selector (map plain_call cs)) (sym (ok_injective joined))
      ∙ ap (describe_call transfer_selector (plain_call (token, body)))
          (describe_all-transfer_calls token rows a.1 others)
      ∙ describe_call-transfer token body r _ a.0 body_made

transfer_calls-HaveTargets :
    (selector token : Bytes) (rows : List Recipient) {calls : List (Bytes × Bytes)}
    → length token ≡ 20
    → transfer_calls selector token rows ≡ ok calls
    → HaveTargets calls
unfolding transfer_calls
transfer_calls-HaveTargets selector token [] h made = subst HaveTargets (ok_injective made) tt
transfer_calls-HaveTargets selector token (r ∷ rows) h made =
    let (body, body_made, rest_made) =
      >>=-eq-ok (transfer_data selector r.address r.amount) _ made in
    let (rest, others, joined) = >>=-eq-ok (transfer_calls selector token rows) _ rest_made in
    subst HaveTargets (ok_injective joined)
      (h, transfer_calls-HaveTargets selector token rows h others)

-- The call data of a payment in a token, where it was made, is shown to the signers as a transfer of
-- that token to each recipient in turn with its amount, and no other call, and as decoded.
pub describe_calls-multisend_data :
    (multisend_selector transfer_selector multisend token : Bytes) (rows : List Recipient)
    {out : Bytes}
    → length multisend_selector ≡ 4
    → length transfer_selector ≡ 4
    → length token ≡ 20
    → HaveRecipients rows
    → multisend_data multisend_selector transfer_selector token rows ≡ ok out
    → describe_calls multisend_selector transfer_selector multisend out 1
      ≡ ok (record { transfers = transfers_of token rows; other = 0; undecoded = 0 })
unfolding describe_calls multisend_data calls_of
describe_calls-multisend_data multisend_selector transfer_selector multisend token rows {out} h k t
      a made =
    let (calls, calls_made, joined) =
      >>=-eq-ok (transfer_calls transfer_selector token rows) _ made in
    let read =
      decode_multisend-multisend_calls multisend_selector calls h
        (transfer_calls-HaveTargets transfer_selector token rows t calls_made) joined in
    rw (read, describe_all-transfer_calls transfer_selector k token rows a calls_made) refl
