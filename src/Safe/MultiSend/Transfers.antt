-- ===== src/Safe/MultiSend/Transfers.antt =====
-- `decode_transfer` reads back what `transfer_data` wrote.
use mathlib.Core.List.{append_assoc}
use harmony_migration.Base.{
  ℕ, ◌+◌, ◌<◌, ◌≡◌, refl, sym, ap, ◌∙◌, some, [], ◌∷◌, ◌++◌, arith, length, length-append, take,
  drop, ok, >>=-eq-ok, ok_injective,
}
use harmony_migration.Base.Order.{text_eq_refl}
use harmony_migration.Abi.Bytes.{
  Bytes, big_endian, number_of, bound, length-big_endian, big_endian-number_of,
}
use harmony_migration.Abi.Words.{
  word, words, put_words, words-eq-ok, word_at, take-append_self, drop-append_self,
}
use harmony_migration.Abi.Batch.{IsAddress}
use harmony_migration.Safe.MultiSend.{zeros, transfer_data, decode_transfer}
use harmony_migration.Safe.MultiSend.Decoding.{word_at-append}

-- The word of an address.
pub word_of_address : (a : Bytes) → IsAddress a → word (number_of a) ≡ zeros 12 ++ a
unfolding big_endian
word_of_address a h =
    ap (λ n. big_endian n (number_of a)) (ap (λ n. n + 12) (sym h.0))
    ∙ big_endian-number_of 12 a h.1

-- The call data of a transfer.
abbrev plain_transfer : Bytes → Bytes → ℕ → Bytes
plain_transfer selector a amount = selector ++ (zeros 12 ++ (a ++ (word amount ++ [])))

transfer_data-eq-ok :
    (selector a : Bytes) (amount : ℕ) {out : Bytes}
    → IsAddress a
    → transfer_data selector a amount ≡ ok out
    → (amount < bound 32) × (out ≡ plain_transfer selector a amount)
unfolding transfer_data put_words
transfer_data-eq-ok selector a amount h made =
    let (arguments, written, joined) = >>=-eq-ok (words (number_of a ∷ amount ∷ [])) _ made in
    let (fit, arguments_are) = words-eq-ok (number_of a ∷ amount ∷ []) written in
    (
      fit.1.0,
      sym (ok_injective joined)
          ∙ ap (λ r. selector ++ r) (sym arguments_are)
          ∙ ap (λ r. selector ++ (r ++ (word amount ++ []))) (word_of_address a h)
          ∙ ap (λ r. selector ++ r) (append_assoc (zeros 12) a (word amount ++ [])),
    )

transfer_amount :
    (selector a : Bytes) (amount : ℕ)
    → length selector ≡ 4
    → IsAddress a
    → amount < bound 32
    → word_at (plain_transfer selector a amount) 36 ≡ amount
transfer_amount selector a amount h ha fit =
    ap (λ r. word_at r 36)
      (ap (λ r. selector ++ r) (sym (append_assoc (zeros 12) a (word amount ++ [])))
        ∙ sym (append_assoc selector (zeros 12 ++ a) (word amount ++ [])))
    ∙ word_at-append 36 (selector ++ (zeros 12 ++ a)) amount []
        (omega (arith, length-append selector (zeros 12 ++ a), length-append (zeros 12) a, ha.0))
        fit

transfer_recipient :
    (selector a : Bytes) (amount : ℕ)
    → length selector ≡ 4
    → IsAddress a
    → take 20 (drop 16 (plain_transfer selector a amount)) ≡ a
transfer_recipient selector a amount h ha =
    ap (λ r. take 20 (drop 16 r))
      (sym (append_assoc selector (zeros 12) (a ++ (word amount ++ []))))
    ∙ ap (take 20) (
        drop-append_self 16 (selector ++ zeros 12) (a ++ (word amount ++ []))
          (omega (arith, length-append selector (zeros 12))))
    ∙ take-append_self 20 a (word amount ++ []) ha.0

length-plain_transfer :
    (selector a : Bytes) (amount : ℕ)
    → length selector ≡ 4
    → IsAddress a
    → length (plain_transfer selector a amount) ≡ 68
length-plain_transfer selector a amount h ha = omega (
  arith,
  length-append selector (zeros 12 ++ (a ++ (word amount ++ []))),
  length-append (zeros 12) (a ++ (word amount ++ [])),
  length-append a (word amount ++ []),
  length-append (word amount) [],
  length-big_endian 32 amount,
  ha.0,
)

transfer_gap :
    (selector rest : Bytes)
    → length selector ≡ 4
    → take 12 (drop 4 (selector ++ (zeros 12 ++ rest))) ≡ zeros 12
transfer_gap selector rest h = ap (take 12) (drop-append_self 4 selector (zeros 12 ++ rest) h)

-- The call data of a transfer to an address, where it was made, is read back as the recipient and the
-- amount.
pub decode_transfer-transfer_data :
    (selector a : Bytes) (amount : ℕ) {out : Bytes}
    → length selector ≡ 4
    → IsAddress a
    → transfer_data selector a amount ≡ ok out
    → decode_transfer selector out ≡ some (a, amount)
unfolding decode_transfer
decode_transfer-transfer_data selector a amount {out} h ha made =
    let (fit, is) = transfer_data-eq-ok selector a amount ha made in
    let chosen : take 4 (plain_transfer selector a amount) ≡ selector =
      take-append_self 4 selector _ h in
    rw
      (
        is,
        length-plain_transfer selector a amount h ha,
        chosen,
        text_eq_refl selector,
        transfer_gap selector (a ++ (word amount ++ [])) h,
        transfer_recipient selector a amount h ha,
        transfer_amount selector a amount h ha fit,
      )
      refl
