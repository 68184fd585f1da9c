-- ===== src/Abi/Batch.antt =====
-- `abi_encode_batch` of airdrop/tools/common.py and `encode_row` of
-- bridge-claims/tools/claim_tree.py, the bytes under a leaf. They determine what they encode.
use harmony_migration.Base.{
  ℕ, ◌+◌, ◌*◌, ◌<◌, ◌≡◌, refl, sym, ap, ◌∙◌, not, ◌==◌, List, [], ◌∷◌, ◌++◌, map, arith, length,
  take, drop, All, Result, ok, ◌>>◌, raise_if, >>=-eq-ok,
}
use harmony_migration.Abi.Bytes.{
  Bytes, AreBytes, big_endian, number_of, bound, length-big_endian, number_of-big_endian,
  big_endian-number_of,
}
use harmony_migration.Abi.Words.{
  AbiError, lengths_differ, word, put_words, words, words-eq-ok, Fit, length-put_words,
  take-append_self, drop-append_self,
}

-- The words of a batch.
abbrev pub batch_words : ℕ → List ℕ → List ℕ → List ℕ
batch_words batch_index recipients amounts =
    let n = length recipients in
    batch_index ∷ 3 * 32 ∷ (3 * 32 + 32 + 32 * n) ∷ n ∷ (recipients ++ (n ∷ amounts))

-- `int(addr, 16)` is the number of an address's bytes.
unfoldable pub abi_encode_batch : ℕ → List Bytes → List ℕ → Result AbiError Bytes
abi_encode_batch batch_index recipients amounts =
    raise_if (not (length recipients == length amounts)) lengths_differ
    >> words (batch_words batch_index (map number_of recipients) amounts)

unfoldable pub encode_row : ℕ → Bytes → Bytes → ℕ → Result AbiError Bytes
encode_row index account token amount =
    words (index ∷ number_of account ∷ number_of token ∷ amount ∷ [])

-- The first word, and the others.
put_words-take : (v : ℕ) (vs : List ℕ) → v < bound 32 → number_of (take 32 (put_words (v ∷ vs))) ≡ v
unfolding put_words
put_words-take v vs h =
    ap number_of (take-append_self 32 (word v) (put_words vs) (length-big_endian 32 v))
    ∙ number_of-big_endian 32 v h

put_words-drop : (v : ℕ) (vs : List ℕ) → drop 32 (put_words (v ∷ vs)) ≡ put_words vs
unfolding put_words
put_words-drop v vs = drop-append_self 32 (word v) (put_words vs) (length-big_endian 32 v)

pub put_words-injective : (vs ws : List ℕ) → Fit vs → Fit ws → put_words vs ≡ put_words ws → vs ≡ ws
put_words-injective [] [] h k e = refl
put_words-injective [] (w ∷ ws) h k e =
    absurd (omega (arith, length-put_words [], length-put_words (w ∷ ws), ap length e))
put_words-injective (v ∷ vs) [] h k e =
    absurd (omega (arith, length-put_words [], length-put_words (v ∷ vs), ap length e))
put_words-injective (v ∷ vs) (w ∷ ws) h k e =
    let first : v ≡ w =
      sym (put_words-take v vs h.0) ∙ ap (λ b. number_of (take 32 b)) e ∙ put_words-take w ws k.0 in
    let others =
      put_words-injective vs ws h.1 k.1
        (sym (put_words-drop v vs) ∙ ap (drop 32) e ∙ put_words-drop w ws) in
    λ i. first i ∷ others i

-- Equal joins of words have equal words.
pub words-injective :
    (vs ws : List ℕ) {out : Bytes} → words vs ≡ ok out → words ws ≡ ok out → vs ≡ ws
words-injective vs ws h k =
    let (fv, ev) = words-eq-ok vs h in
    let (fw, ew) = words-eq-ok ws k in put_words-injective vs ws fv fw (ev ∙ sym ew)

abbrev pub head_or : ℕ → List ℕ → ℕ
head_or d [] = d
head_or d (v ∷ vs) = v

batch_words-injective :
    (i j : ℕ) (rs as' ss bs : List ℕ)
    → batch_words i rs as' ≡ batch_words j ss bs
    → (i ≡ j) × (rs ≡ ss) × (as' ≡ bs)
batch_words-injective i j rs as' ss bs e =
    let n : length rs ≡ length ss = ap (λ l. head_or 0 (drop 3 l)) e in
    let rest : rs ++ (length rs ∷ as') ≡ ss ++ (length ss ∷ bs) = ap (drop 4) e in
    let front : rs ≡ ss =
      sym (take-append_self (length rs) rs (length rs ∷ as') refl)
      ∙ ap (take (length rs)) rest
      ∙ take-append_self (length rs) ss (length ss ∷ bs) (sym n) in
    let back : length rs ∷ as' ≡ length ss ∷ bs =
      sym (drop-append_self (length rs) rs (length rs ∷ as') refl)
      ∙ ap (drop (length rs)) rest
      ∙ drop-append_self (length rs) ss (length ss ∷ bs) (sym n) in
    (ap (head_or 0) e, front, ap (drop 1) back)

-- An address: twenty bytes.
abbrev pub IsAddress : Bytes → Type 0
IsAddress a = (length a ≡ 20) × AreBytes a

pub number_of-injective :
    (a b : Bytes) → IsAddress a → IsAddress b → number_of a ≡ number_of b → a ≡ b
unfolding big_endian
number_of-injective a b ha hb e =
    let back = λ (c : Bytes) (h : IsAddress c). sym (big_endian-number_of 0 c (h.1)) in
    let same : length a + 0 ≡ length b + 0 = omega arith in
    back a ha
    ∙ ap (λ n. big_endian n (number_of a)) same
    ∙ ap (big_endian (length b + 0)) e
    ∙ sym (back b hb)

map-number_of_injective :
    (rs ss : List Bytes)
    → All IsAddress rs
    → All IsAddress ss
    → map number_of rs ≡ map number_of ss
    → rs ≡ ss
map-number_of_injective [] [] h k e = refl
map-number_of_injective [] (s ∷ ss) h k e = cc
map-number_of_injective (r ∷ rs) [] h k e = cc
map-number_of_injective (r ∷ rs) (s ∷ ss) h k e =
    let first = number_of-injective r s (h.0) (k.0) (ap (head_or 0) e) in
    let others = map-number_of_injective rs ss h.1 k.1 (ap (drop 1) e) in λ i. first i ∷ others i

-- The encoding of a batch determines its index, its recipients and its amounts.
pub abi_encode_batch-injective :
    (i j : ℕ) (rs ss : List Bytes) (xs ys : List ℕ) {out : Bytes}
    → All IsAddress rs
    → All IsAddress ss
    → abi_encode_batch i rs xs ≡ ok out
    → abi_encode_batch j ss ys ≡ ok out
    → (i ≡ j) × (rs ≡ ss) × (xs ≡ ys)
unfolding abi_encode_batch
abi_encode_batch-injective i j rs ss xs ys hr hs h k =
    let (_, _, h1) = >>=-eq-ok (raise_if (not (length rs == length xs)) lengths_differ) _ h in
    let (_, _, k1) = >>=-eq-ok (raise_if (not (length ss == length ys)) lengths_differ) _ k in
    let same =
      words-injective (batch_words i (map number_of rs) xs) (batch_words j (map number_of ss) ys) h1
        k1 in
    let (index, recipients, amounts) =
      batch_words-injective i j (map number_of rs) xs (map number_of ss) ys same in
    (index, map-number_of_injective rs ss hr hs recipients, amounts)

-- The encoding of a row of a bridge claim, whose account and token are addresses, determines its
-- index, account, token and amount.
pub encode_row-injective :
    (i j : ℕ) (a b t u : Bytes) (x y : ℕ) {out : Bytes}
    → IsAddress a
    → IsAddress b
    → IsAddress t
    → IsAddress u
    → encode_row i a t x ≡ ok out
    → encode_row j b u y ≡ ok out
    → (i ≡ j) × (a ≡ b) × (t ≡ u) × (x ≡ y)
unfolding encode_row
encode_row-injective i j a b t u x y ha hb ht hu h k =
    let same =
      words-injective (i ∷ number_of a ∷ number_of t ∷ x ∷ [])
        (j ∷ number_of b ∷ number_of u ∷ y ∷ []) h k in
    (
      ap (head_or 0) same,
      number_of-injective a b ha hb (ap (λ l. head_or 0 (drop 1 l)) same),
      number_of-injective t u ht hu (ap (λ l. head_or 0 (drop 2 l)) same),
      ap (λ l. head_or 0 (drop 3 l)) same,
    )
