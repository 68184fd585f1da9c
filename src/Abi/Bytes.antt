-- ===== src/Abi/Bytes.antt =====
-- Python's `int.to_bytes(n, "big")` and `int.from_bytes(_, "big")`, and what they undo. A `bytes`
-- value is the list of its bytes.
use mathlib.Core.List.{append_assoc, append-nil}
use harmony_migration.Base.{
  ℕ, zero, suc, ◌+◌, ◌*◌, ◌/◌, ◌%◌, ◌<◌, ◌≡◌, refl, sym, ap, ◌∙◌, List, [], ◌∷◌, ◌++◌, arith,
  length, length-append, All, Text,
}

abbrev pub Bytes : Type 0
Bytes = Text

abbrev pub AreBytes : Bytes → Type 0
AreBytes = All (λ b. b < 256)

-- `value.to_bytes(n, "big")`, of the last `n` digits
unfoldable pub big_endian : ℕ → ℕ → Bytes
big_endian zero v = []
big_endian (suc n) v = big_endian n (v / 256) ++ (v % 256 ∷ [])

unfoldable pub number_from : ℕ → Bytes → ℕ
number_from acc [] = acc
number_from acc (b ∷ bs) = number_from (acc * 256 + b) bs

-- `int.from_bytes(bs, "big")`
abbrev pub number_of : Bytes → ℕ
number_of bs = number_from 0 bs

-- The bound of `n` bytes.
unfoldable pub bound : ℕ → ℕ
bound zero = 1
bound (suc n) = bound n * 256

pub length-big_endian : (n v : ℕ) → length (big_endian n v) ≡ n
unfolding big_endian
length-big_endian zero v = refl
length-big_endian (suc n) v =
    omega
      (arith, length-append (big_endian n (v / 256)) (v % 256 ∷ []), length-big_endian n (v / 256))

number_from-snoc :
    (acc : ℕ) (bs : Bytes) (b : ℕ) → number_from acc (bs ++ (b ∷ [])) ≡ number_from acc bs * 256 + b
unfolding number_from
number_from-snoc acc [] b = refl
number_from-snoc acc (c ∷ bs) b = number_from-snoc (acc * 256 + c) bs b

number_of-big_endian-suc :
    (n v : ℕ)
    → number_of (big_endian (suc n) v) ≡ number_of (big_endian n (v / 256)) * 256 + v % 256
unfolding big_endian
number_of-big_endian-suc n v = number_from-snoc 0 (big_endian n (v / 256)) (v % 256)

-- Reading back a number that fits.
pub number_of-big_endian : (n v : ℕ) → v < bound n → number_of (big_endian n v) ≡ v
unfolding bound big_endian number_from
number_of-big_endian zero v h = omega arith
number_of-big_endian (suc n) v h =
    omega (arith, number_of-big_endian-suc n v, number_of-big_endian n (v / 256) (omega arith))

pub All-append {ℓ κ} :
    {A : Type ℓ} (P : A → Type κ) (xs ys : List A) → All P xs → All P ys → All P (xs ++ ys)
All-append P [] ys h k = k
All-append P (x ∷ xs) ys h k = (h.0, All-append P xs ys h.1 k)

pub big_endian-AreBytes : (n v : ℕ) → AreBytes (big_endian n v)
unfolding big_endian
big_endian-AreBytes zero v = tt
big_endian-AreBytes (suc n) v =
    All-append (λ b. b < 256) (big_endian n (v / 256)) (v % 256 ∷ [])
      (big_endian-AreBytes n (v / 256)) ((omega arith, tt))

big_endian_digit :
    (k acc b : ℕ) → b < 256 → big_endian (suc k) (acc * 256 + b) ≡ big_endian k acc ++ (b ∷ [])
unfolding big_endian
big_endian_digit k acc b h =
    let high : (acc * 256 + b) / 256 ≡ acc = omega arith in
    let low : (acc * 256 + b) % 256 ≡ b = omega arith in rw (high, low) refl

-- Writing a number that was read, with leading zeros.
big_endian-number_from :
    (k acc : ℕ) (bs : Bytes)
    → AreBytes bs
    → big_endian (length bs + k) (number_from acc bs) ≡ big_endian k acc ++ bs
unfolding number_from
big_endian-number_from k acc [] h =
    let none_more : 0 + k ≡ k = omega arith in
    ap (λ n. big_endian n acc) none_more ∙ sym (append-nil (big_endian k acc))
big_endian-number_from k acc (b ∷ bs) h =
    let moved : suc (length bs) + k ≡ length bs + suc k = omega arith in
    ap (λ n. big_endian n (number_from (acc * 256 + b) bs)) moved
    ∙ big_endian-number_from (suc k) (acc * 256 + b) bs h.1
    ∙ ap (λ r. r ++ bs) (big_endian_digit k acc b h.0)
    ∙ append_assoc (big_endian k acc) (b ∷ []) bs

pub big_endian-number_of :
    (k : ℕ) (bs : Bytes)
    → AreBytes bs
    → big_endian (length bs + k) (number_of bs) ≡ big_endian k 0 ++ bs
big_endian-number_of k bs h = big_endian-number_from k 0 bs h
