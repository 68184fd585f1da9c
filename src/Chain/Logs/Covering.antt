-- ===== src/Chain/Logs/Covering.antt =====
-- The parts of a range of blocks cover it.
use harmony_migration.Base.{
  ℕ, zero, suc, ◌+◌, ◌-◌, ◌≤◌, ◌<◌, ◌≡◌, sym, ap, ◌∙◌, inl, inr, Bool, Bool-cases, ltb, arith, List,
  [], ◌++◌, ok, >>=-eq-ok, ok_injective,
}
use Prim.Native.Nat.{min}
use harmony_migration.Chain.Logs.{Answer, logs_range, ranges, fetch_ranges, logs}
use harmony_migration.Chain.Logs.Fetching.{
  span, span-append, IsConsistent, IsClean, AnswersBlocks, logs_range_exact, logs_range_total,
}

-- A first part, and the rest.
span-part {ℓ} :
    {Log : Type ℓ} (at : ℕ → List Log) (start end to_block : ℕ)
    → start ≤ end
    → end ≤ to_block
    → span at start (end - start + 1) ++ span at (end + 1) (to_block + 1 - (end + 1))
      ≡ span at start (to_block + 1 - start)
span-part at start end to_block l k =
    let next : end + 1 ≡ start + (end - start + 1) = omega arith in
    let count : end - start + 1 + (to_block + 1 - (end + 1)) ≡ to_block + 1 - start = omega arith in
    ap (λ b. span at start (end - start + 1) ++ span at b (to_block + 1 - (end + 1))) next
    ∙ span-append at start (end - start + 1) (to_block + 1 - (end + 1))
    ∙ ap (span at start) count

module _ {ℓ} {Log : Type ℓ} (removed : Log → Bool) (answer : ℕ → ℕ → ℕ → Answer Log)
    (at : ℕ → List Log) (range_size : ℕ) (some_size : 0 < range_size) where
  no_more : (start to_block : ℕ) → to_block < start → [] ≡ span at start (to_block + 1 - start)
  no_more start to_block h =
      let none_left : 0 ≡ to_block + 1 - start = omega arith in ap (span at start) none_left

  fetch_ranges_exact :
      IsConsistent removed answer at
      → (fuel start to_block : ℕ) (out : List Log) → to_block + 1 - start ≤ fuel
      → fetch_ranges removed answer (ranges removed answer range_size fuel start to_block) ≡ ok out
      → out ≡ span at start (to_block + 1 - start)
  unfolding fetch_ranges ranges
  fetch_ranges_exact same zero start to_block out f h =
      sym (ok_injective h) ∙ no_more start to_block (omega arith)
  fetch_ranges_exact same (suc fuel) start to_block out f h =
      elim (Bool-cases (ltb to_block start)) [
        | inl e ↦ sym (ok_injective (rw (ranges, e) at h)) ∙ no_more start to_block (ground arith)
        | inr e ↦
            let end = min to_block (start + range_size - 1) in
            let le : start ≤ to_block = ground arith in
            let (part, h1, r1) =
              >>=-eq-ok (logs_range removed answer (end - start + 1) start end) _
                (rw (ranges, e) at h) in
            let (parts, h2, r2) =
              >>=-eq-ok
                (fetch_ranges removed answer
                  (ranges removed answer range_size fuel (end + 1) to_block))
                _ r1 in
            let p =
              logs_range_exact removed answer at same (end - start + 1) start end part (omega arith)
                h1 in
            let q = fetch_ranges_exact same fuel (end + 1) to_block parts (omega arith) h2 in
            sym (ok_injective r2)
            ∙ ap (λ x. x ++ parts) p
            ∙ ap (λ x. span at start (end - start + 1) ++ x) q
            ∙ span-part at start end to_block (omega arith) (omega arith)
      ]

  fetch_ranges_total :
      IsConsistent removed answer at
      → IsClean removed answer at
      → AnswersBlocks removed answer at
      → (fuel start to_block : ℕ) → to_block + 1 - start ≤ fuel
      → fetch_ranges removed answer (ranges removed answer range_size fuel start to_block)
        ≡ ok (span at start (to_block + 1 - start))
  unfolding fetch_ranges ranges
  fetch_ranges_total same clean alone zero start to_block f =
      ap ok (no_more start to_block (omega arith))
  fetch_ranges_total same clean alone (suc fuel) start to_block f =
      elim (Bool-cases (ltb to_block start)) [
        | inl e ↦ rw (ranges, e) (ap ok (no_more start to_block (ground arith)))
        | inr e ↦
            let end = min to_block (start + range_size - 1) in
            let le : start ≤ to_block = ground arith in
            let p =
              logs_range_total removed answer at same clean alone (end - start + 1) start end
                (omega arith) (omega arith) in
            let q = fetch_ranges_total same clean alone fuel (end + 1) to_block (omega arith) in
            rw (ranges, e, p, q)
              (ap ok (span-part at start end to_block (omega arith) (omega arith)))
      ]

  -- If what the node answers are the logs of the asked blocks, then what `logs` returns are the
  -- logs of the blocks of the range, each once and in their order, however the range was split.
  pub logs_exact :
      (from_block to_block : ℕ) (out : List Log)
      → IsConsistent removed answer at
      → logs removed answer range_size from_block to_block ≡ ok out
      → out ≡ span at from_block (to_block + 1 - from_block)
  unfolding logs
  logs_exact from_block to_block out same h =
      fetch_ranges_exact same (to_block + 1 - from_block) from_block to_block out (omega arith) h

  -- If, besides, the node answers every call for a single block and gives no removed log, then
  -- `logs` returns, even if it answers no call for more than one block.
  pub logs_total :
      (from_block to_block : ℕ)
      → IsConsistent removed answer at
      → IsClean removed answer at
      → AnswersBlocks removed answer at
      → logs removed answer range_size from_block to_block
        ≡ ok (span at from_block (to_block + 1 - from_block))
  unfolding logs
  logs_total from_block to_block same clean alone =
      fetch_ranges_total same clean alone (to_block + 1 - from_block) from_block to_block
        (omega arith)
