-- ===== src/Chain/Logs.antt =====
-- `logs` and `_logs_range` of toolkit/scripts/bridge/bridge_lib.py: the logs of a range of blocks,
-- fetched in parts, with a part split where the node does not answer. The node is a parameter:
-- what it answers to the calls for a range, the first and every repeated one. The thread pool
-- returns the parts in the order of the ranges, so it is a loop here.
use harmony_migration.Base.{
  ℕ, zero, suc, ◌+◌, ◌-◌, ◌/◌, Bool, true, false, if◌then◌else◌, ltb, ◌==◌, any_of, List, [], ◌∷◌,
  ◌++◌, Result, ok, err, ◌>>=◌, ◌>>◌, raise_if,
}
use Prim.Native.Nat.{min}
pub mod Fetching
pub mod Covering

-- A list of logs, an error of the rate limit, or another error.
pub data Answer {ℓ} (Log : Type ℓ) : Type ℓ where
  answered : List Log → Answer Log
  rate_limited failed : Answer Log

pub data LogsError : Type 0 where
  removed_log failed_at_block out_of_fuel : LogsError

module _ {ℓ} {Log : Type ℓ} (removed : Log → Bool) (answer : ℕ → ℕ → ℕ → Answer Log) where
  -- `for attempt in range(6)`, after the first call
  unfoldable pub ask : ℕ → ℕ → ℕ → ℕ → Answer Log
  ask start end attempt zero = answer start end attempt
  ask start end attempt (suc retries) = elim (answer start end attempt) [
    | answered logs ↦ answered logs
    | failed ↦ failed
    | rate_limited ↦ ask start end (attempt + 1) retries
  ]

  unfoldable pub logs_range : ℕ → ℕ → ℕ → Result LogsError (List Log)
  logs_range zero start end = err out_of_fuel
  logs_range (suc fuel) start end = elim (ask start end 0 6) [
    | answered logs ↦ (raise_if (any_of removed logs) removed_log >> ok logs)
    | _ ↦ elim (start == end) [
      | true ↦ err failed_at_block
      | false ↦
          let middle = start + (end - start) / 2 in
          (logs_range fuel start middle >>= λ left.
          logs_range fuel (middle + 1) end >>= λ right. ok (left ++ right))
    ]
  ]

  -- `while start <= to_block`, with the ranges in order
  unfoldable pub ranges : ℕ → ℕ → ℕ → ℕ → List (ℕ × ℕ)
  ranges range_size zero start to_block = []
  ranges range_size (suc fuel) start to_block =
      let end = min to_block (start + range_size - 1) in
      elim (ltb to_block start) [
        | true ↦ []
        | false ↦ (start, end) ∷ ranges range_size fuel (end + 1) to_block
      ]

  unfoldable pub fetch_ranges : List (ℕ × ℕ) → Result LogsError (List Log)
  fetch_ranges [] = ok []
  fetch_ranges ((start, end) ∷ rest) = logs_range (end - start + 1) start end >>= λ part.
      fetch_ranges rest >>= λ parts. ok (part ++ parts)

  unfoldable pub logs : ℕ → ℕ → ℕ → Result LogsError (List Log)
  logs range_size from_block to_block =
      fetch_ranges (ranges range_size (to_block + 1 - from_block) from_block to_block)
