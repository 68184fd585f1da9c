-- ===== src/Abi/Words.antt =====
-- 32-byte words: `_word` of airdrop/tools/common.py, `word` and `address_word` of
-- airdrop/tools/safe_batch.py and their kin. A call that raises where a value does not fit is an
-- error here. An address is its 20 bytes; its hexadecimal text and checksum are left out.
use mathlib.Core.List.{append_assoc}
use harmony_migration.Base.{
  ℕ, zero, suc, ◌*◌, ◌<◌, ◌≡◌, refl, sym, ap, ◌∙◌, Bool, true, false, not, List, [], ◌∷◌, ◌++◌,
  arith, length, length-append, take, drop, All, ltb, ltb→lt, lt→ltb, any_of, Result, ok, ◌>>◌,
  raise_if, Bool-cases, inl, inr, >>=-eq-ok, raise_if-eq-ok, ok_injective,
}
use harmony_migration.Abi.Bytes.{
  Bytes, big_endian, number_of, bound, length-big_endian, number_of-big_endian,
}

pub data AbiError : Type 0 where
  does_not_fit lengths_differ : AbiError

-- `value.to_bytes(32, "big")` of a value that fits
abbrev pub word : ℕ → Bytes
word v = big_endian 32 v

-- `value >= 1 << 256`
abbrev pub is_too_big : ℕ → Bool
is_too_big v = not (ltb v (bound 32))

-- Words one after another.
unfoldable pub put_words : List ℕ → Bytes
put_words [] = []
put_words (v ∷ vs) = word v ++ put_words vs

-- A join of `_word`s.
unfoldable pub words : List ℕ → Result AbiError Bytes
words vs = raise_if (any_of is_too_big vs) does_not_fit >> ok (put_words vs)

-- `int.from_bytes(a[i:i + 32], "big")`
unfoldable pub word_at : Bytes → ℕ → ℕ
word_at a i = number_of (take 32 (drop i a))

abbrev pub Fit : List ℕ → Type 0
Fit = All (λ v. v < bound 32)

fits : (vs : List ℕ) → any_of is_too_big vs ≡ false → Fit vs
fits [] h = tt
fits (v ∷ vs) h = elim (Bool-cases (ltb v (bound 32))) [
  | inl e ↦ (ltb→lt v (bound 32) e, fits vs (rw e at h))
  | inr e ↦ cc (rw e at h)
]

-- What a join of words that was made is, and that its values fit.
pub words-eq-ok : (vs : List ℕ) {out : Bytes} → words vs ≡ ok out → Fit vs × (put_words vs ≡ out)
unfolding words
words-eq-ok vs h =
    let (_, small, made) = >>=-eq-ok (raise_if (any_of is_too_big vs) does_not_fit) _ h in
    (fits vs (raise_if-eq-ok (any_of is_too_big vs) does_not_fit small), ok_injective made)

none_too_big : (vs : List ℕ) → Fit vs → any_of is_too_big vs ≡ false
none_too_big [] h = refl
none_too_big (v ∷ vs) h =
    let e : ltb v (bound 32) ≡ true = lt→ltb v (bound 32) h.0 in rw e (none_too_big vs h.1)

pub words_total : (vs : List ℕ) → Fit vs → words vs ≡ ok (put_words vs)
unfolding words
words_total vs h = rw (none_too_big vs h) refl

pub length-put_words : (vs : List ℕ) → length (put_words vs) ≡ 32 * length vs
unfolding put_words
length-put_words [] = refl
length-put_words (v ∷ vs) =
    omega
      (arith, length-append (word v) (put_words vs), length-big_endian 32 v, length-put_words vs)

pub put_words-append : (vs ws : List ℕ) → put_words (vs ++ ws) ≡ put_words vs ++ put_words ws
unfolding put_words
put_words-append [] ws = refl
put_words-append (v ∷ vs) ws =
    ap (λ r. word v ++ r) (put_words-append vs ws)
    ∙ sym (append_assoc (word v) (put_words vs) (put_words ws))

module _ {ℓ} {A : Type ℓ} where
  pub take-append_self : (n : ℕ) (xs ys : List A) → length xs ≡ n → take n (xs ++ ys) ≡ xs
  take-append_self zero [] ys h = refl
  take-append_self (suc n) [] ys h = absurd (omega (arith, h))
  take-append_self zero (x ∷ xs) ys h = absurd (omega (arith, h))
  take-append_self (suc n) (x ∷ xs) ys h =
      ap (λ r. x ∷ r) (take-append_self n xs ys (omega (arith, h)))

  pub drop-append_self : (n : ℕ) (xs ys : List A) → length xs ≡ n → drop n (xs ++ ys) ≡ ys
  drop-append_self zero [] ys h = refl
  drop-append_self (suc n) [] ys h = absurd (omega (arith, h))
  drop-append_self zero (x ∷ xs) ys h = absurd (omega (arith, h))
  drop-append_self (suc n) (x ∷ xs) ys h = drop-append_self n xs ys (omega (arith, h))

-- The word after some others.
pub word_at-put_words :
    (vs ws : List ℕ) (v n : ℕ)
    → v < bound 32
    → 32 * length vs ≡ n
    → word_at (put_words (vs ++ (v ∷ ws))) n ≡ v
unfolding word_at
word_at-put_words vs ws v n h e =
    let parts = put_words-append vs (v ∷ ws) in
    let there : drop n (put_words (vs ++ (v ∷ ws))) ≡ word v ++ put_words ws =
      ap (drop n) parts
      ∙ unfold put_words in
        drop-append_self n (put_words vs) (put_words (v ∷ ws)) (length-put_words vs ∙ e) in
    ap (λ r. number_of (take 32 r)) there
    ∙ ap number_of (take-append_self 32 (word v) (put_words ws) (length-big_endian 32 v))
    ∙ number_of-big_endian 32 v h
