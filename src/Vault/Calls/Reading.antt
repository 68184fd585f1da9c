-- ===== src/Vault/Calls/Reading.antt =====
-- `decode_deposit_batch` reads back what `deposit_batch_data` wrote.
use mathlib.Core.List.{append_assoc, append-nil}
use harmony_migration.Base.{
  ℕ, ◌+◌, ◌*◌, ◌%◌, ◌≡◌, refl, sym, ap, ◌∙◌, false, some, List, [], ◌∷◌, ◌++◌, arith, map, ltb,
  le→ltb_false, any_of, length, length-append, length-map, take, drop, All, ok, >>=-eq-ok,
  ok_injective,
}
use harmony_migration.Base.Order.{text_eq_refl}
use harmony_migration.Base.Keys.{nat_eq_refl}
use harmony_migration.Abi.Bytes.{Bytes, number_of, length-big_endian}
use harmony_migration.Abi.Words.{
  word, words, put_words, words-eq-ok, word_at, word_at-put_words, put_words-append,
  length-put_words, Fit, take-append_self, drop-append_self,
}
use harmony_migration.Abi.Batch.{IsAddress}
use harmony_migration.Safe.MultiSend.Transfers.{word_of_address}
use harmony_migration.Vault.Calls.{
  any_nonzero, deposit_words, deposit_batch_data, read_words, read_slices, decode_lists,
  decode_deposit_batch,
}

-- A slice of joined words.
slice-put_words :
    (vs ws : List ℕ) (v n : ℕ)
    → 32 * length vs ≡ n
    → take 32 (drop n (put_words (vs ++ (v ∷ ws)))) ≡ word v
slice-put_words vs ws v n e =
    let there : drop n (put_words (vs ++ (v ∷ ws))) ≡ word v ++ put_words ws =
      ap (drop n) (put_words-append vs (v ∷ ws))
      ∙ unfold put_words in
        drop-append_self n (put_words vs) (put_words (v ∷ ws)) (length-put_words vs ∙ e) in
    ap (take 32) there ∙ take-append_self 32 (word v) (put_words ws) (length-big_endian 32 v)

-- One word more in front.
shifted :
    (front vs : List ℕ) (v n : ℕ) → 32 * length front ≡ n → 32 * length (front ++ (v ∷ [])) ≡ n + 32
shifted front vs v n e = omega (arith, length-append front (v ∷ []))

read_words_lem :
    (front vs back : List ℕ) (n : ℕ)
    → Fit vs
    → 32 * length front ≡ n
    → read_words (length vs) n (put_words (front ++ (vs ++ back))) ≡ vs
unfolding read_words
read_words_lem front [] back n h e = refl
read_words_lem front (v ∷ vs) back n h e =
    let first = word_at-put_words front (vs ++ back) v n h.0 e in
    let moved = ap put_words (sym (append_assoc front (v ∷ []) (vs ++ back))) in
    let rest =
      ap (read_words (length vs) (n + 32)) moved
      ∙ read_words_lem (front ++ (v ∷ [])) vs back (n + 32) h.1 (shifted front vs v n e) in
    λ i. first i ∷ rest i

read_slices_lem :
    (front vs back : List ℕ) (n : ℕ)
    → 32 * length front ≡ n
    → read_slices (length vs) n (put_words (front ++ (vs ++ back))) ≡ map word vs
unfolding read_slices
read_slices_lem front [] back n e = refl
read_slices_lem front (v ∷ vs) back n e =
    let first = slice-put_words front (vs ++ back) v n e in
    let moved = ap put_words (sym (append_assoc front (v ∷ []) (vs ++ back))) in
    let rest =
      ap (read_slices (length vs) (n + 32)) moved
      ∙ read_slices_lem (front ++ (v ∷ [])) vs back (n + 32) (shifted front vs v n e) in
    λ i. first i ∷ rest i

abbrev pub AreAddresses : List Bytes → Type 0
AreAddresses = All IsAddress

-- The words of addresses have no bytes in front of them.
clean_slices :
    (ds : List Bytes)
    → AreAddresses ds
    → any_of (λ x. any_nonzero (take 12 x)) (map word (map number_of ds)) ≡ false
clean_slices [] h = refl
clean_slices (d ∷ ds) h =
    let front : any_nonzero (take 12 (word (number_of d))) ≡ false =
      ap (λ x. any_nonzero (take 12 x)) (word_of_address d h.0) in
    rw front (clean_slices ds h.1)

addresses_of_slices :
    (ds : List Bytes) → AreAddresses ds → map (drop 12) (map word (map number_of ds)) ≡ ds
addresses_of_slices [] h = refl
addresses_of_slices (d ∷ ds) h =
    let first : drop 12 (word (number_of d)) ≡ d = ap (drop 12) (word_of_address d h.0) in
    let rest = addresses_of_slices ds h.1 in λ i. first i ∷ rest i

All-front : (vs ws : List ℕ) → Fit (vs ++ ws) → Fit vs
All-front [] ws h = tt
All-front (v ∷ vs) ws h = (h.0, All-front vs ws h.1)

All-back : (vs ws : List ℕ) → Fit (vs ++ ws) → Fit ws
All-back [] ws h = h
All-back (v ∷ vs) ws h = All-back vs ws h.1

-- The bytes of a deposit of as many amounts as delegators.
module _ (amounts : List ℕ) (ds : List Bytes) (same : length ds ≡ length amounts) where
  abbrev all_words : List ℕ
  all_words = deposit_words amounts (map number_of ds)

  length-all_words :
      length (put_words all_words) ≡ 96 + 32 * length amounts + 32 + 32 * length amounts
  length-all_words = omega (
    arith,
    length-put_words all_words,
    length-append amounts (length amounts ∷ map number_of ds),
    length-map number_of ds,
  )

  slices_of_words :
      read_slices (length amounts) (128 + 32 * length amounts) (put_words all_words)
      ≡ map word (map number_of ds)
  slices_of_words =
      let n = length amounts in
      let front = (64 ∷ (64 + 32 + 32 * n) ∷ n ∷ []) ++ (amounts ++ (n ∷ [])) in
      let count : n ≡ length (map number_of ds) = omega (arith, length-map number_of ds) in
      let parts : all_words ≡ front ++ (map number_of ds ++ []) =
        ap (λ r. 64 ∷ (64 + 32 + 32 * n) ∷ n ∷ r)
          (ap (λ r. amounts ++ (n ∷ r)) (sym (append-nil (map number_of ds)))
            ∙ sym (append_assoc amounts (n ∷ []) (map number_of ds ++ []))) in
      ap (λ k. read_slices k (128 + 32 * n) (put_words all_words)) count
      ∙ ap (λ w. read_slices (length (map number_of ds)) (128 + 32 * n) (put_words w)) parts
      ∙ read_slices_lem front (map number_of ds) [] (128 + 32 * n)
          (omega (arith, length-append amounts (n ∷ [])))

  decode_lists-all_words :
      Fit all_words
      → AreAddresses ds
      → decode_lists (length amounts) (put_words all_words) ≡ some (amounts, ds)
  unfolding decode_lists
  decode_lists-all_words (f0, (f1, (f2, f))) a =
      let n = length amounts in
      let front = 64 ∷ (64 + 32 + 32 * n) ∷ n ∷ [] in
      let fa = All-front amounts (n ∷ map number_of ds) f in
      let fb = All-back amounts (n ∷ map number_of ds) f in
      let second : word_at (put_words all_words) 32 ≡ 96 + 32 * n =
        word_at-put_words (64 ∷ []) (n ∷ (amounts ++ (n ∷ map number_of ds))) (64 + 32 + 32 * n) 32
          f1 refl in
      let count : word_at (put_words all_words) (96 + 32 * n) ≡ n =
        word_at-put_words (front ++ amounts) (map number_of ds) n (96 + 32 * n) fb.0
          (omega arith) in
      let read : read_words n 96 (put_words all_words) ≡ amounts =
        read_words_lem front amounts (n ∷ map number_of ds) 96 fa refl in
      rw
        (
          second,
          nat_eq_refl (96 + 32 * n),
          length-all_words,
          nat_eq_refl (96 + 32 * n + 32 + 32 * n),
          count,
          nat_eq_refl n,
          slices_of_words,
          clean_slices ds a,
          read,
          addresses_of_slices ds a,
        )
        refl

  pub decode_deposit_batch-all_words :
      (selector : Bytes)
      → length selector ≡ 4
      → Fit all_words
      → AreAddresses ds
      → decode_deposit_batch selector (selector ++ put_words all_words) ≡ some (amounts, ds)
  unfolding decode_deposit_batch
  decode_deposit_batch-all_words selector h f a =
      let n = length amounts in
      let chosen : take 4 (selector ++ put_words all_words) ≡ selector =
        take-append_self 4 selector (put_words all_words) h in
      let rest : drop 4 (selector ++ put_words all_words) ≡ put_words all_words =
        drop-append_self 4 selector (put_words all_words) h in
      let long : ltb (length (put_words all_words)) 128 ≡ false =
        le→ltb_false 128 (length (put_words all_words)) (omega (arith, length-all_words)) in
      let whole : length (put_words all_words) % 32 ≡ 0 = omega (arith, length-all_words) in
      let first : word_at (put_words all_words) 0 ≡ 64 =
        word_at-put_words [] ((64 + 32 + 32 * n) ∷ n ∷ (amounts ++ (n ∷ map number_of ds))) 64 0 f.0
          refl in
      let third : word_at (put_words all_words) 64 ≡ n =
        word_at-put_words (64 ∷ (64 + 32 + 32 * n) ∷ []) (amounts ++ (n ∷ map number_of ds)) n 64
          (f.1.1.0) refl in
      rw (chosen, text_eq_refl selector, rest, long, whole, first, third)
        (decode_lists-all_words f a)

-- The call data of a deposit of as many amounts as delegators, which are addresses, under a
-- selector of four bytes, where it was made, is read back as the amounts and the delegators.
pub decode_deposit_batch-deposit_batch_data :
    (selector : Bytes) (amounts : List ℕ) (ds : List Bytes) {out : Bytes}
    → length selector ≡ 4
    → length ds ≡ length amounts
    → AreAddresses ds
    → deposit_batch_data selector amounts ds ≡ ok out
    → decode_deposit_batch selector out ≡ some (amounts, ds)
unfolding deposit_batch_data
decode_deposit_batch-deposit_batch_data selector amounts ds {out} h same a made =
    let vs = deposit_words amounts (map number_of ds) in
    let (arguments, written, joined) = >>=-eq-ok (words vs) _ made in
    let (fit, arguments_are) = words-eq-ok vs written in
    let whole : out ≡ selector ++ put_words vs =
      sym (ok_injective joined) ∙ ap (λ r. selector ++ r) (sym arguments_are) in
    ap (decode_deposit_batch selector) whole
    ∙ decode_deposit_batch-all_words amounts ds same selector h fit a
