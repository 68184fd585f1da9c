-- ===== src/Vault/Plan/Funding.antt =====
-- What the calls of a funding transaction do, as their call data reads: every approval is used by
-- the deposit after it, and a deposit gives its delegators their amounts.
use mathlib.Core.Path.{subst}
use harmony_migration.Base.{
  ℕ, ◌+◌, ◌≡◌, refl, sym, ap, ◌∙◌, Bool, false, Option, none, some, List, [], ◌∷◌, ◌++◌, map,
  sum_of, length, length-map, take, arith, if◌then◌else◌, All, All-map, ok, >>=-eq-ok, ok_injective,
}
use harmony_migration.Base.Order.{text_eq}
use harmony_migration.Abi.Bytes.{Bytes, number_of}
use harmony_migration.Abi.Words.{words, take-append_self}
use harmony_migration.Abi.Batch.{IsAddress}
use harmony_migration.Safe.MultiSend.{transfer_data}
use harmony_migration.Safe.MultiSend.Transfers.{decode_transfer-transfer_data}
use harmony_migration.Vault.Calls.{
  approve_data, deposit_batch_data, decode_approve, decode_deposit_batch,
}
use harmony_migration.Vault.Calls.Reading.{decode_deposit_batch-deposit_batch_data}
use harmony_migration.Vault.Plan.{Deposit, Vault, Item, fund_calls}

-- What deposits give a delegator.
abbrev pub given : Bytes → List Deposit → ℕ
given d = sum_of (λ r. if text_eq r.delegator d then r.amount else 0)

-- What the decoded call data of a deposit gives a delegator.
abbrev paid_to : Bytes → List ℕ → List Bytes → ℕ
paid_to d [] ds = 0
paid_to d (n ∷ ns) [] = 0
paid_to d (n ∷ ns) (e ∷ es) = (if text_eq e d then n else 0) + paid_to d ns es

abbrev decoded_gives : Bytes → Option (List ℕ × List Bytes) → ℕ
decoded_gives d none = 0
decoded_gives d (some (amounts, ds)) = paid_to d amounts ds

-- What a call gives a delegator in the vault at an address.
abbrev pub call_gives : Bytes → Bytes → Bytes → Bytes × Bytes → ℕ
call_gives deposit_selector a d (to, body) =
    if text_eq to a then decoded_gives d (decode_deposit_batch deposit_selector body) else 0

-- The call data of a deposit whose amounts come to what the call data of an approval lets the vault
-- take.
abbrev IsPaired : Bytes → Bytes → Bytes → Bytes → Bytes → Type 0
IsPaired approve_selector deposit_selector vault approval deposit =
    (amounts : List ℕ) × (ds : List Bytes) × (decode_deposit_batch deposit_selector deposit
      ≡ some (amounts, ds))
    × (decode_approve approve_selector approval ≡ some (vault, sum_of (λ n. n) amounts))

-- Calls that are pairs of an approval on the token and the deposit that uses it.
abbrev pub ArePairs : Bytes → Bytes → Bytes → List (Bytes × Bytes) → Type 0
ArePairs approve_selector deposit_selector token [] = Unit
ArePairs approve_selector deposit_selector token (call ∷ []) = ⊥
ArePairs approve_selector deposit_selector token ((to, approval) ∷ (vault, deposit) ∷ calls) =
    (to ≡ token)
    × IsPaired approve_selector deposit_selector vault approval deposit
    × ArePairs approve_selector deposit_selector token calls

-- A part whose vault and delegators are addresses, and such a vault.
abbrev pub HasAddresses : Item → Type 0
HasAddresses it = IsAddress it.vault.address × All (λ r. IsAddress r.delegator) it.rows

abbrev pub IsFundable : Vault → Type 0
IsFundable v = IsAddress v.address × All (λ r. IsAddress r.delegator) v.deposits

paid_to-map :
    (d : Bytes) (rows : List Deposit)
    → paid_to d (map (λ r. r.amount) rows) (map (λ r. r.delegator) rows) ≡ given d rows
paid_to-map d [] = refl
paid_to-map d (r ∷ rows) = omega (arith, paid_to-map d rows)

sum_of-amounts :
    (rows : List Deposit) → sum_of (λ n. n) (map (λ r. r.amount) rows) ≡ sum_of (λ r. r.amount) rows
sum_of-amounts [] = refl
sum_of-amounts (r ∷ rows) = omega (arith, sum_of-amounts rows)

-- Call data under another selector is no deposit.
decode_deposit_batch-other :
    (x y rest : Bytes)
    → length x ≡ 4
    → text_eq x y ≡ false
    → decode_deposit_batch y (x ++ rest) ≡ none
unfolding decode_deposit_batch
decode_deposit_batch-other x y rest h apart =
    let chosen : take 4 (x ++ rest) ≡ x = take-append_self 4 x rest h in rw (chosen, apart) refl

approve_data-other :
    (x y spender : Bytes) (amount : ℕ) {out : Bytes}
    → length x ≡ 4
    → text_eq x y ≡ false
    → approve_data x spender amount ≡ ok out
    → decode_deposit_batch y out ≡ none
unfolding approve_data transfer_data
approve_data-other x y spender amount h apart made =
    let (arguments, _, joined) = >>=-eq-ok (words (number_of spender ∷ amount ∷ [])) _ made in
    subst (λ out. decode_deposit_batch y out ≡ none) (ok_injective joined)
      (decode_deposit_batch-other x y arguments h apart)

decode_approve-approve_data :
    (x spender : Bytes) (amount : ℕ) {out : Bytes}
    → length x ≡ 4
    → IsAddress spender
    → approve_data x spender amount ≡ ok out
    → decode_approve x out ≡ some (spender, amount)
unfolding approve_data decode_approve
decode_approve-approve_data x spender amount h a made =
    decode_transfer-transfer_data x spender amount h a made

if_zero : (b : Bool) → ◌≡◌ {A = ℕ} (if b then 0 else 0) 0
if_zero b = ground arith

module _ (approve_selector deposit_selector token : Bytes) (h : length approve_selector ≡ 4)
    (k : length deposit_selector ≡ 4)
    (apart : text_eq approve_selector deposit_selector ≡ false) where
  -- The deposit of a part.
  item_decoded :
      (it : Item) {deposit : Bytes}
      → HasAddresses it
      → deposit_batch_data deposit_selector
          (map (λ d. d.amount) it.rows)
          (map (λ d. d.delegator) it.rows)
        ≡ ok deposit
      → decode_deposit_batch deposit_selector deposit
        ≡ some (map (λ d. d.amount) it.rows, map (λ d. d.delegator) it.rows)
  item_decoded it has made =
      decode_deposit_batch-deposit_batch_data deposit_selector (map (λ d. d.amount) it.rows)
        (map (λ d. d.delegator) it.rows) k
        (length-map (λ d. d.delegator) it.rows ∙ sym (length-map (λ d. d.amount) it.rows))
        (All-map IsAddress (λ d. d.delegator) it.rows has.1) made

  -- The calls of parts are pairs, and give what the parts do.
  pub fund_calls-gives :
      (items : List Item) {calls : List (Bytes × Bytes)}
      → All HasAddresses items
      → fund_calls approve_selector deposit_selector token items ≡ ok calls
      → ((a d : Bytes)
          → sum_of (call_gives deposit_selector a d) calls
            ≡ sum_of (λ it. if text_eq it.vault.address a then given d it.rows else 0) items)
        × ArePairs approve_selector deposit_selector token calls
  unfolding fund_calls
  fund_calls-gives [] has made =
      subst
        (λ calls.
          ((a d : Bytes) → sum_of (call_gives deposit_selector a d) calls ≡ 0)
          × ArePairs approve_selector deposit_selector token calls)
        (ok_injective made) (((λ a d. refl), tt))
  fund_calls-gives (it ∷ items) has made =
      let total = sum_of (λ d. d.amount) it.rows in
      let (approval, approved, r0) =
        >>=-eq-ok (approve_data approve_selector it.vault.address total) _ made in
      let (deposit, deposited, r1) =
        >>=-eq-ok
          (deposit_batch_data deposit_selector (map (λ d. d.amount) it.rows)
            (map (λ d. d.delegator) it.rows))
          _ r0 in
      let (rest, others, joined) =
        >>=-eq-ok (fund_calls approve_selector deposit_selector token items) _ r1 in
      let (gives, pairs) = fund_calls-gives items has.1 others in
      let read = item_decoded it has.0 deposited in
      let other =
        approve_data-other approve_selector deposit_selector it.vault.address total h apart
          approved in
      subst
        (λ calls.
          ((a d : Bytes)
            → sum_of (call_gives deposit_selector a d) calls
              ≡ sum_of (λ i. if text_eq i.vault.address a then given d i.rows else 0) (it ∷ items))
          × ArePairs approve_selector deposit_selector token calls)
        (ok_injective joined)
        ((
          (λ a d.
              let first : call_gives deposit_selector a d (token, approval) ≡ 0 =
                ap (λ o. if text_eq token a then decoded_gives d o else 0) other
                ∙ if_zero (text_eq token a) in
              let second : call_gives deposit_selector a d (it.vault.address, deposit)
                  ≡ (if text_eq it.vault.address a then given d it.rows else 0) =
                ap (λ o. if text_eq it.vault.address a then decoded_gives d o else 0) read
                ∙ ap (λ n. if text_eq it.vault.address a then n else 0) (paid_to-map d it.rows) in
              omega (arith, first, second, gives a d)),
          (
            refl,
            (
              map (λ d. d.amount) it.rows,
              map (λ d. d.delegator) it.rows,
              read,
              decode_approve-approve_data approve_selector it.vault.address total h (has.0).0
                    approved
                  ∙ ap (λ n. some (it.vault.address, n)) (sym (sum_of-amounts it.rows)),
            ),
            pairs,
          ),
        ))
