-- ===== src/Chain/Logs/Fetching.antt =====
-- The fetched logs are those of the blocks of the range, each once and in order.
use mathlib.Core.Path.{subst}
use harmony_migration.Base.{
  ℕ, zero, suc, ◌+◌, ◌-◌, ◌/◌, ◌≤◌, ◌<◌, ◌≡◌, ◌⊎◌, refl, sym, ap, ◌∙◌, inl, inr, Bool, true, false,
  Bool-cases, ◌==◌, any_of, arith, List, [], ◌++◌, Result, ok, err, ◌>>=◌, ◌>>◌, >>=-eq-ok,
  ok_injective, raise_if,
}
use mathlib.Core.List.{append_assoc}
use harmony_migration.Chain.Logs.{
  Answer, answered, rate_limited, failed, removed_log, failed_at_block, ask, logs_range,
}

-- The logs of `count` blocks from `start` on.
abbrev pub span {ℓ} : {Log : Type ℓ} → (ℕ → List Log) → ℕ → ℕ → List Log
span at start zero = []
span at start (suc count) = at start ++ span at (suc start) count

pub span-append {ℓ} :
    {Log : Type ℓ} (at : ℕ → List Log) (start m n : ℕ)
    → span at start m ++ span at (start + m) n ≡ span at start (m + n)
span-append at start zero n =
    let s : start + 0 ≡ start = omega arith in
    let c : 0 + n ≡ n = omega arith in ap (λ b. span at b n) s ∙ ap (span at start) (sym c)
span-append at start (suc m) n =
    let s : start + suc m ≡ suc start + m = omega arith in
    let c : suc m + n ≡ suc (m + n) = omega arith in
    ap (λ b. at start ++ span at (suc start) m ++ span at b n) s
    ∙ append_assoc (at start) (span at (suc start) m) (span at (suc start + m) n)
    ∙ ap (λ r. at start ++ r) (span-append at (suc start) m n)
    ∙ ap (span at start) (sym c)

-- Two parts that meet.
span-join {ℓ} :
    {Log : Type ℓ} (at : ℕ → List Log) (start middle end : ℕ)
    → start ≤ middle
    → middle < end
    → span at start (middle - start + 1) ++ span at (middle + 1) (end - (middle + 1) + 1)
      ≡ span at start (end - start + 1)
span-join at start middle end l k =
    let next : middle + 1 ≡ start + (middle - start + 1) = omega arith in
    let count : middle - start + 1 + (end - (middle + 1) + 1) ≡ end - start + 1 = omega arith in
    ap (λ b. span at start (middle - start + 1) ++ span at b (end - (middle + 1) + 1)) next
    ∙ span-append at start (middle - start + 1) (end - (middle + 1) + 1)
    ∙ ap (span at start) count

Answer-cases {ℓ} :
    {Log : Type ℓ} (a : Answer Log)
    → ((found : List Log) × (a ≡ answered found)) ⊎ ((a ≡ rate_limited) ⊎ (a ≡ failed))
Answer-cases (answered found) = inl (found, refl)
Answer-cases rate_limited = inr (inl refl)
Answer-cases failed = inr (inr refl)

limited_is_no_answer {ℓ} :
    {Log : Type ℓ} {found : List Log} → ◌≡◌ {A = Answer Log} rate_limited (answered found) → ⊥
limited_is_no_answer h = cc

raised {ℓ κ} : {E : Type ℓ} {A : Type κ} {e : E} {a : A} → ◌≡◌ {A = Result E A} (err e) (ok a) → ⊥
raised h = cc

failed_is_no_answer {ℓ} :
    {Log : Type ℓ} {found : List Log} → ◌≡◌ {A = Answer Log} failed (answered found) → ⊥
failed_is_no_answer h = cc

module _ {ℓ} {Log : Type ℓ} (removed : Log → Bool) (answer : ℕ → ℕ → ℕ → Answer Log)
    (at : ℕ → List Log) where
  -- What a node answers is the logs of the asked blocks.
  abbrev pub IsConsistent : Type ℓ
  IsConsistent =
      (start end attempt : ℕ) (found : List Log)
      → start ≤ end
      → answer start end attempt ≡ answered found
      → found ≡ span at start (end - start + 1)

  ask-answer :
      (start end attempt retries : ℕ) (found : List Log)
      → ask removed answer start end attempt retries ≡ answered found
      → (k : ℕ) × (answer start end k ≡ answered found)
  unfolding ask
  ask-answer start end attempt zero found h = (attempt, h)
  ask-answer start end attempt (suc retries) found h =
      elim (Answer-cases (answer start end attempt)) [
        | inl (got, e) ↦ (attempt, e ∙ rw (ask, e) at h)
        | inr (inl e) ↦ ask-answer start end (attempt + 1) retries found (rw (ask, e) at h)
        | inr (inr e) ↦ absurd (failed_is_no_answer (rw (ask, e) at h))
      ]

  -- The answer that a failed range is split for.
  abbrev IsSplit : ℕ → ℕ → Type ℓ
  IsSplit start end =
      (ask removed answer start end 0 6 ≡ rate_limited)
      ⊎ (ask removed answer start end 0 6 ≡ failed)

  split_range :
      (fuel start end : ℕ)
      → IsSplit start end
      → (start == end) ≡ false
      → logs_range removed answer (suc fuel) start end ≡ (
          logs_range removed answer fuel start (start + (end - start) / 2) >>= λ left.
          logs_range removed answer fuel (start + (end - start) / 2 + 1) end >>= λ right.
          ok (left ++ right))
  unfolding logs_range
  split_range fuel start end (inl e) f = rw (logs_range, e, f) refl
  split_range fuel start end (inr e) f = rw (logs_range, e, f) refl

  one_block :
      (fuel start end : ℕ)
      → IsSplit start end
      → (start == end) ≡ true
      → logs_range removed answer (suc fuel) start end ≡ err failed_at_block
  unfolding logs_range
  one_block fuel start end (inl e) f = rw (logs_range, e, f) refl
  one_block fuel start end (inr e) f = rw (logs_range, e, f) refl

  answered_range :
      (fuel start end : ℕ) (found : List Log)
      → ask removed answer start end 0 6 ≡ answered found
      → logs_range removed answer (suc fuel) start end
        ≡ (raise_if (any_of removed found) removed_log >> ok found)
  unfolding logs_range
  answered_range fuel start end found e = rw (logs_range, e) refl

  pub logs_range_exact :
      IsConsistent
      → (fuel start end : ℕ) (out : List Log) → start ≤ end
      → logs_range removed answer fuel start end ≡ ok out
      → out ≡ span at start (end - start + 1)
  unfolding logs_range
  logs_range_exact same zero start end out le h = cc
  logs_range_exact same (suc fuel) start end out le h =
      elim (Answer-cases (ask removed answer start end 0 6)) [
        | inl (found, e) ↦
            let (k, given) = ask-answer start end 0 6 found e in
            let (_, _, h1) =
              >>=-eq-ok (raise_if (any_of removed found) removed_log) _
                (sym (answered_range fuel start end found e) ∙ h) in
            sym (ok_injective h1) ∙ same start end k found le given
        | inr no_answer ↦ elim (Bool-cases (start == end)) [
          | inl f ↦ absurd (raised (sym (one_block fuel start end no_answer f) ∙ h))
          | inr f ↦
              let middle = start + (end - start) / 2 in
              let lt : start < end = ground arith in
              let (left, h1, r1) =
                >>=-eq-ok (logs_range removed answer fuel start middle) _
                  (sym (split_range fuel start end no_answer f) ∙ h) in
              let (right, h2, r2) =
                >>=-eq-ok (logs_range removed answer fuel (middle + 1) end) _ r1 in
              let l = logs_range_exact same fuel start middle left (omega arith) h1 in
              let r = logs_range_exact same fuel (middle + 1) end right (omega arith) h2 in
              sym (ok_injective r2)
              ∙ ap (λ x. x ++ right) l
              ∙ ap (λ x. span at start (middle - start + 1) ++ x) r
              ∙ span-join at start middle end (omega arith) (omega arith)
        ]
      ]

  -- No answer has a log that was removed, and single blocks are answered.
  abbrev pub IsClean : Type ℓ
  IsClean =
      (start end attempt : ℕ) (found : List Log)
      → answer start end attempt ≡ answered found
      → any_of removed found ≡ false

  abbrev pub AnswersBlocks : Type ℓ
  AnswersBlocks = (block : ℕ) → (found : List Log) × (answer block block 0 ≡ answered found)

  block_is_answered :
      AnswersBlocks → (start end : ℕ) → (start == end) ≡ true → IsSplit start end → ⊥
  unfolding ask
  block_is_answered alone start end f split =
      let same : start ≡ end = ground arith in
      let (found, e) = alone start in
      let e' : ask removed answer start end 0 6 ≡ answered found =
        subst (λ b. ask removed answer start b 0 6 ≡ answered found) same (rw (ask, e) refl) in
      elim split [
        | inl s ↦ limited_is_no_answer (sym s ∙ e')
        | inr s ↦ failed_is_no_answer (sym s ∙ e')
      ]

  pub logs_range_total :
      IsConsistent
      → IsClean
      → AnswersBlocks
      → (fuel start end : ℕ) → start ≤ end
      → end - start < fuel
      → logs_range removed answer fuel start end ≡ ok (span at start (end - start + 1))
  unfolding logs_range
  logs_range_total same clean alone zero start end le f = absurd (omega arith)
  logs_range_total same clean alone (suc fuel) start end le f =
      elim (Answer-cases (ask removed answer start end 0 6)) [
        | inl (found, e) ↦
            let (k, given) = ask-answer start end 0 6 found e in
            answered_range fuel start end found e
            ∙ ap (λ b. raise_if b removed_log >> ok found) (clean start end k found given)
            ∙ ap ok (same start end k found le given)
        | inr no_answer ↦ elim (Bool-cases (start == end)) [
          | inl one ↦ absurd (block_is_answered alone start end one no_answer)
          | inr more ↦
              let middle = start + (end - start) / 2 in
              let lt : start < end = ground arith in
              let l =
                logs_range_total same clean alone fuel start middle (omega arith) (omega arith) in
              let r =
                logs_range_total same clean alone fuel (middle + 1) end (omega arith)
                  (omega arith) in
              split_range fuel start end no_answer more
              ∙ rw (l, r) (ap ok (span-join at start middle end (omega arith) (omega arith)))
        ]
      ]
