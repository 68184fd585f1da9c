-- ===== src/Safe/MultiSend/Decoding.antt =====
-- `decode_multisend` reads back what `multisend_calls` wrote.
use mathlib.Core.Path.{subst}
use mathlib.Core.List.{append_assoc, append-nil}
use harmony_migration.Base.{
  ℕ, zero, suc, ◌+◌, ◌≤◌, ◌<◌, ◌≡◌, refl, sym, ap, ◌∙◌, false, some, List, [], ◌∷◌, ◌++◌, map,
  arith, ltb, length, length-append, take, drop, All, ok, le→ltb_false, ◌>>=◌, >>=-eq-ok,
  ok_injective,
}
use harmony_migration.Base.Order.{text_eq_refl}
use harmony_migration.Base.Keys.{nat_eq_refl}
use harmony_migration.Abi.Bytes.{Bytes, number_of, bound, length-big_endian, number_of-big_endian}
use harmony_migration.Abi.Words.{
  word, words, words-eq-ok, put_words, word_at, put_words, take-append_self, drop-append_self,
}
use harmony_migration.Safe.MultiSend.{
  Call, zeros, pack_call, pack_calls, padding, multisend_calls, decode_entries, decode_entry,
  decode_sized, decode_multisend,
}

-- A word at the front of some bytes, and after others.
word_front : (v : ℕ) (back : Bytes) → v < bound 32 → number_of (take 32 (word v ++ back)) ≡ v
word_front v back h =
    ap number_of (take-append_self 32 (word v) back (length-big_endian 32 v))
    ∙ number_of-big_endian 32 v h

pub word_at-append :
    (n : ℕ) (front : Bytes) (v : ℕ) (back : Bytes)
    → length front ≡ n
    → v < bound 32
    → word_at (front ++ (word v ++ back)) n ≡ v
unfolding word_at
word_at-append n front v back e h =
    ap (λ r. number_of (take 32 r)) (drop-append_self n front (word v ++ back) e)
    ∙ word_front v back h

-- The bytes of one call, followed by others.
abbrev entry : Bytes → Bytes → Bytes → Bytes
entry to body more = 0 ∷ (to ++ (word 0 ++ (word (length body) ++ (body ++ more))))

abbrev pub plain_call : Bytes × Bytes → Call
plain_call (to, body) = record { operation = 0; to = to; value = 0; body = body }

length-entry :
    (to body more : Bytes)
    → length to ≡ 20
    → length (entry to body more) ≡ 85 + length body + length more
length-entry to body more h = omega (
  arith,
  length-append to (word 0 ++ (word (length body) ++ (body ++ more))),
  length-append (word 0) (word (length body) ++ (body ++ more)),
  length-append (word (length body)) (body ++ more),
  length-append body more,
  length-big_endian 32 0,
  length-big_endian 32 (length body),
)

abbrev head_of_entry : Bytes → Bytes → Bytes
head_of_entry to body = 0 ∷ (to ++ word 0)

entry_value : (to body more : Bytes) → length to ≡ 20 → word_at (entry to body more) 21 ≡ 0
entry_value to body more h =
    word_at-append 21 (0 ∷ to) 0 (word (length body) ++ (body ++ more)) (omega (arith, h))
      (unfold bound in omega arith)

entry_size :
    (to body more : Bytes)
    → length to ≡ 20
    → length body < bound 32
    → word_at (entry to body more) 53 ≡ length body
entry_size to body more h fit =
    ap (λ r. word_at (0 ∷ r) 53)
      (sym (append_assoc to (word 0) (word (length body) ++ (body ++ more))))
    ∙ word_at-append 53 (0 ∷ (to ++ word 0)) (length body) (body ++ more)
        (omega (arith, length-append to (word 0), length-big_endian 32 0)) fit

-- The 85 bytes before the body.
abbrev entry_head : Bytes → Bytes → Bytes
entry_head to body = 0 ∷ ((to ++ word 0) ++ word (length body))

entry_split : (to body more : Bytes) → entry to body more ≡ entry_head to body ++ (body ++ more)
entry_split to body more =
    ap (λ r. 0 ∷ r)
      (sym (append_assoc to (word 0) (word (length body) ++ (body ++ more)))
        ∙ sym (append_assoc (to ++ word 0) (word (length body)) (body ++ more)))

length-entry_head : (to body : Bytes) → length to ≡ 20 → length (entry_head to body) ≡ 85
length-entry_head to body h = omega (
  arith,
  length-append (to ++ word 0) (word (length body)),
  length-append to (word 0),
  length-big_endian 32 0,
  length-big_endian 32 (length body),
)

entry_body :
    (to body more : Bytes)
    → length to ≡ 20
    → take (length body) (drop 85 (entry to body more)) ≡ body
entry_body to body more h =
    ap (λ r. take (length body) (drop 85 r)) (entry_split to body more)
    ∙ ap (take (length body))
        (drop-append_self 85 (entry_head to body) (body ++ more) (length-entry_head to body h))
    ∙ take-append_self (length body) body more refl

entry_rest :
    (to body more : Bytes) → length to ≡ 20 → drop (85 + length body) (entry to body more) ≡ more
entry_rest to body more h =
    ap (drop (85 + length body))
      (entry_split to body more ∙ sym (append_assoc (entry_head to body) body more))
    ∙ drop-append_self (85 + length body) (entry_head to body ++ body) more
        (omega (arith, length-append (entry_head to body) body, length-entry_head to body h))

decode_sized-entry :
    (to body more : Bytes)
    → length to ≡ 20
    → decode_sized
        (length body)
        0
        (to ++ (word 0 ++ (word (length body) ++ (body ++ more))))
        (entry to body more)
      ≡ ok (plain_call (to, body), more)
unfolding decode_sized
decode_sized-entry to body more h =
    let rest = to ++ (word 0 ++ (word (length body) ++ (body ++ more))) in
    let read : take 20 rest ≡ to = take-append_self 20 to _ h in
    rw
      (
        entry_body to body more h,
        nat_eq_refl (length body),
        entry_rest to body more h,
        entry_value to body more h,
        read,
      )
      refl

decode_entry_lem :
    (to body more : Bytes)
    → length to ≡ 20
    → length body < bound 32
    → decode_entry 0 (to ++ (word 0 ++ (word (length body) ++ (body ++ more))))
      ≡ ok (plain_call (to, body), more)
unfolding decode_entry
decode_entry_lem to body more h fit =
    let rest = to ++ (word 0 ++ (word (length body) ++ (body ++ more))) in
    let long : ltb (length (entry to body more)) 85 ≡ false =
      le→ltb_false 85 (length (entry to body more)) (omega (arith, length-entry to body more h)) in
    rw long (
      ap (λ n. decode_sized n 0 rest (entry to body more)) (entry_size to body more h fit)
      ∙ decode_sized-entry to body more h)

decode_entries_step :
    (fuel : ℕ) (to body more : Bytes)
    → length to ≡ 20
    → length body < bound 32
    → decode_entries (suc fuel) (entry to body more)
      ≡ (decode_entries fuel more >>= λ calls. ok (plain_call (to, body) ∷ calls))
unfolding decode_entries
decode_entries_step fuel to body more h fit = rw (decode_entry_lem to body more h fit) refl

-- The parts of a call, whatever they hold, in either order of joining.
joined_parts :
    (to a b body more : Bytes)
    → (to ++ ((a ++ (b ++ [])) ++ body)) ++ more ≡ to ++ (a ++ (b ++ (body ++ more)))
joined_parts to a b body more =
    append_assoc to ((a ++ (b ++ [])) ++ body) more
    ∙ ap (λ r. to ++ r)
        (append_assoc (a ++ (b ++ [])) body more
          ∙ append_assoc a (b ++ []) (body ++ more)
          ∙ ap (λ r. a ++ (r ++ (body ++ more))) (append-nil b))

-- What a packed call is.
pack_call-eq-ok :
    (to body : Bytes) {call : Bytes}
    → pack_call to body ≡ ok call
    → (length body < bound 32) × ((more : Bytes) → call ++ more ≡ entry to body more)
unfolding pack_call put_words
pack_call-eq-ok to body {call} h =
    let (head, made, joined) = >>=-eq-ok (words (0 ∷ length body ∷ [])) _ h in
    let (fit, head_is) = words-eq-ok (0 ∷ length body ∷ []) made in
    (
      fit.1.0,
      λ more.
          ap (λ c. c ++ more) (sym (ok_injective joined))
          ∙ ap (λ r. (0 ∷ (to ++ (r ++ body))) ++ more) (sym head_is)
          ∙ ap (λ r. 0 ∷ r) (joined_parts to (word 0) (word (length body)) body more),
    )

-- The calls of a batch go to addresses.
abbrev pub HaveTargets : List (Bytes × Bytes) → Type 0
HaveTargets = All (λ c. length c.0 ≡ 20)

-- An entry and what decodes after it.
decode_first :
    (fuel : ℕ) (to body rest : Bytes) (calls : List Call)
    → length to ≡ 20
    → length body < bound 32
    → length rest < fuel
    → ((n : ℕ) → length rest ≤ n → decode_entries n rest ≡ ok calls)
    → decode_entries fuel (entry to body rest) ≡ ok (plain_call (to, body) ∷ calls)
decode_first zero to body rest calls h fit f next = absurd (omega arith)
decode_first (suc fuel) to body rest calls h fit f next =
    decode_entries_step fuel to body rest h fit
    ∙ ap (λ r. r >>= λ calls'. ok (plain_call (to, body) ∷ calls')) (next fuel (omega arith))

decode_entries-pack_calls :
    (calls : List (Bytes × Bytes)) (fuel : ℕ) {packed : Bytes}
    → HaveTargets calls
    → pack_calls calls ≡ ok packed
    → length packed ≤ fuel
    → decode_entries fuel packed ≡ ok (map plain_call calls)
unfolding pack_calls
decode_entries-pack_calls [] fuel t h f =
    subst (λ p. decode_entries fuel p ≡ ok []) (ok_injective h) (unfold decode_entries in refl)
decode_entries-pack_calls ((to, body) ∷ calls) fuel {packed} t h f =
    let (call, packed_call, rest_made) = >>=-eq-ok (pack_call to body) _ h in
    let (rest, packed_rest, joined) = >>=-eq-ok (pack_calls calls) _ rest_made in
    let (fit, is_entry) = pack_call-eq-ok to body packed_call in
    let whole : packed ≡ entry to body rest = sym (ok_injective joined) ∙ is_entry rest in
    let size = ap length whole ∙ length-entry to body rest t.0 in
    subst (λ p. decode_entries fuel p ≡ ok (plain_call (to, body) ∷ map plain_call calls))
      (sym whole)
      (decode_first fuel to body rest (map plain_call calls) t.0 fit (omega arith)
        (λ fuel' enough. decode_entries-pack_calls calls fuel' t.1 packed_rest enough))

-- The call data of a batch.
abbrev batch : Bytes → Bytes → Bytes → Bytes
batch selector packed tail = selector ++ (word 32 ++ (word (length packed) ++ (packed ++ tail)))

batch_offset :
    (selector packed tail : Bytes)
    → length selector ≡ 4
    → word_at (batch selector packed tail) 4 ≡ 32
batch_offset selector packed tail h =
    word_at-append 4 selector 32 (word (length packed) ++ (packed ++ tail)) h
      (unfold bound in omega arith)

batch_front :
    (selector packed tail : Bytes)
    → batch selector packed tail
      ≡ (selector ++ word 32) ++ (word (length packed) ++ (packed ++ tail))
batch_front selector packed tail =
    sym (append_assoc selector (word 32) (word (length packed) ++ (packed ++ tail)))

batch_size :
    (selector packed tail : Bytes)
    → length selector ≡ 4
    → length packed < bound 32
    → word_at (batch selector packed tail) 36 ≡ length packed
batch_size selector packed tail h fit =
    ap (λ r. word_at r 36) (batch_front selector packed tail)
    ∙ word_at-append 36 (selector ++ word 32) (length packed) (packed ++ tail)
        (omega (arith, length-append selector (word 32), length-big_endian 32 32)) fit

batch_packed :
    (selector packed tail : Bytes)
    → length selector ≡ 4
    → take (length packed) (drop 68 (batch selector packed tail)) ≡ packed
batch_packed selector packed tail h =
    ap (λ r. take (length packed) (drop 68 r))
      (batch_front selector packed tail
        ∙ sym (append_assoc (selector ++ word 32) (word (length packed)) (packed ++ tail)))
    ∙ ap (take (length packed)) (
        drop-append_self 68 ((selector ++ word 32) ++ word (length packed)) (packed ++ tail) (
          omega (
            arith,
            length-append (selector ++ word 32) (word (length packed)),
            length-append selector (word 32),
            length-big_endian 32 32,
            length-big_endian 32 (length packed),
          )))
    ∙ take-append_self (length packed) packed tail refl

length-batch :
    (selector packed tail : Bytes) → length selector ≡ 4 → 68 ≤ length (batch selector packed tail)
length-batch selector packed tail h = omega (
  arith,
  length-append selector (word 32 ++ (word (length packed) ++ (packed ++ tail))),
  length-append (word 32) (word (length packed) ++ (packed ++ tail)),
  length-append (word (length packed)) (packed ++ tail),
  length-big_endian 32 32,
  length-big_endian 32 (length packed),
)

decode_multisend-batch :
    (selector packed tail : Bytes) {calls : List Call}
    → length selector ≡ 4
    → length packed < bound 32
    → decode_entries (length packed) packed ≡ ok calls
    → decode_multisend selector (batch selector packed tail) ≡ ok (some calls)
unfolding decode_multisend
decode_multisend-batch selector packed tail {calls} h fit decoded =
    let chosen : take 4 (batch selector packed tail) ≡ selector = take-append_self 4 selector _ h in
    let long = le→ltb_false 68 _ (length-batch selector packed tail h) in
    rw
      (
        chosen,
        text_eq_refl selector,
        long,
        batch_offset selector packed tail h,
        batch_size selector packed tail h fit,
        batch_packed selector packed tail h,
        nat_eq_refl (length packed),
        decoded,
      )
      refl

-- The call data of a batch of calls to targets of 20 bytes, under a selector of four, where it
-- was made, is read back as its calls, each a plain call without value.
pub decode_multisend-multisend_calls :
    (selector : Bytes) (calls : List (Bytes × Bytes)) {data_made : Bytes}
    → length selector ≡ 4
    → HaveTargets calls
    → multisend_calls selector calls ≡ ok data_made
    → decode_multisend selector data_made ≡ ok (some (map plain_call calls))
unfolding multisend_calls put_words
decode_multisend-multisend_calls selector calls {data_made} h t made =
    let (packed, packed_calls, rest_made) = >>=-eq-ok (pack_calls calls) _ made in
    let (head, head_made, joined) = >>=-eq-ok (words (32 ∷ length packed ∷ [])) _ rest_made in
    let (fit, head_is) = words-eq-ok (32 ∷ length packed ∷ []) head_made in
    let tail = zeros (padding (length packed)) in
    let whole : data_made ≡ batch selector packed tail =
      sym (ok_injective joined)
      ∙ ap (λ r. selector ++ (r ++ (packed ++ tail))) (sym head_is)
      ∙ ap (λ r. selector ++ r)
          (append_assoc (word 32) (word (length packed) ++ []) (packed ++ tail)
            ∙ ap (λ r. word 32 ++ (r ++ (packed ++ tail))) (append-nil (word (length packed)))) in
    ap (decode_multisend selector) whole
    ∙ decode_multisend-batch selector packed tail h fit.1.0
        (decode_entries-pack_calls calls (length packed) t packed_calls (omega arith))
