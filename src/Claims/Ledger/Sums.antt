-- ===== src/Claims/Ledger/Sums.antt =====
-- The ledger adds up, and its loop ends.
use mathlib.Core.Path.{subst}
use harmony_migration.Base.{
  ℕ, zero, suc, ◌+◌, ◌≡◌, refl, sym, ap, Option, none, some, List, [], ◌∷◌, arith, sum_of, Text,
  Dict, ◌==◌, Result, ok, err, >>=-eq-ok, ok_injective, raise_if,
}
use harmony_migration.Base.Int.{ℤ, pos_part, neg_part}
use harmony_migration.Base.Order.{text_ordered}
use harmony_migration.Claims.Ledger.{
  LedgerError, out_of_fuel, LedgerRow, PendingEntry, Sources, RoundRows, Amounts, int_field,
  least_key, current_of, rows_after, advance, current_at, addresses_of, address_for, amounts_of,
  wallet_of, ledger_row, merge_round, next_round, ledger_rounds, non_positive_claim,
}
use harmony_migration.Claims.Ledger.Rounds.{int_field-rows_after, least_key-none}

-- The sum of a field over a source, and of what is below zero in it.
abbrev pub sum_up {ℓ} : {R : Type ℓ} → (R → ℤ) → List R → ℕ
sum_up field = sum_of (λ r. pos_part (field r))

abbrev pub debts {ℓ} : {R : Type ℓ} → (R → ℤ) → List R → ℕ
debts field = sum_of (λ r. neg_part (field r))

-- A column of the ledger holds a source, none of whose amounts is negative.
abbrev pub Holds {ℓ} : {R : Type ℓ} → (LedgerRow → ℕ) → (R → ℤ) → List LedgerRow → List R → Type 0
Holds column field out source = (sum_of column out ≡ sum_up field source) × (debts field source ≡ 0)

-- The columns of the ledger that come from the exports of balances and of staking.
abbrev pub HoldsAll : List LedgerRow → Sources → Type 0
HoldsAll out s =
    Holds (λ r. r.liquid_shard0_atto) (λ r. r.balance_atto) out s.liquid0
    × Holds (λ r. r.liquid_shard1_atto) (λ r. r.balance_atto) out s.liquid1
    × Holds (λ r. r.active_delegation_atto) (λ r. r.active_delegation_atto) out s.staking
    × Holds (λ r. r.pending_undelegation_atto) (λ r. r.pending_undelegation_atto) out s.staking
    × Holds (λ r. r.unclaimed_reward_atto) (λ r. r.unclaimed_reward_atto) out s.staking

-- A source that has ended, and one round more.
Holds-ended {ℓ} :
    {R : Type ℓ} (column : LedgerRow → ℕ) (field : R → ℤ) (source : List R)
    → source ≡ []
    → Holds column field [] source
Holds-ended column field source e = (ap (sum_up field) (sym e), ap (debts field) e)

Holds-round {ℓ} :
    {R : Type ℓ} (column : LedgerRow → ℕ) (field : R → ℤ) (key_of : R → Text) (key : Text)
    (row : LedgerRow) (out : List LedgerRow) (source : List R)
    → int_field field (current_of key_of key source) ≡ ok (column row)
    → Holds column field out (rows_after key_of key source)
    → Holds column field (row ∷ out) source
Holds-round column field key_of key row out source h (p, n) =
    let (q, m) = int_field-rows_after key_of field key source h in
    (omega (arith, p, q), omega (arith, n, m))

module _ (secure_key_of : Text → Text) where
  -- The fields that a round reads, and the claim of its row.
  abbrev pub Reads : RoundRows → LedgerRow → Type 0
  Reads c row =
      (int_field (λ r. r.balance_atto) c.current0 ≡ ok row.liquid_shard0_atto)
      × (int_field (λ r. r.balance_atto) c.current1 ≡ ok row.liquid_shard1_atto)
      × (int_field (λ r. r.active_delegation_atto) c.current_stake ≡ ok row.active_delegation_atto)
      × (int_field (λ r. r.pending_undelegation_atto) c.current_stake
          ≡ ok row.pending_undelegation_atto)
      × (int_field (λ r. r.unclaimed_reward_atto) c.current_stake ≡ ok row.unclaimed_reward_atto)

  amounts_of-Reads :
      (key address : Text) (c : RoundRows) {a : Amounts}
      → amounts_of c ≡ ok a
      → Reads c (ledger_row key address c a)
  unfolding amounts_of
  amounts_of-Reads key address c {a} h =
      let (v0, h0, r0) = >>=-eq-ok (int_field (λ r. r.balance_atto) c.current0) _ h in
      let (v1, h1, r1) = >>=-eq-ok (int_field (λ r. r.balance_atto) c.current1) _ r0 in
      let (v2, h2, r2) =
        >>=-eq-ok (int_field (λ r. r.active_delegation_atto) c.current_stake) _ r1 in
      let (v3, h3, r3) =
        >>=-eq-ok (int_field (λ r. r.pending_undelegation_atto) c.current_stake) _ r2 in
      let (v4, h4, r4) =
        >>=-eq-ok (int_field (λ r. r.unclaimed_reward_atto) c.current_stake) _ r3 in
      subst (λ b. Reads c (ledger_row key address c b)) (ok_injective r4) ((h0, h1, h2, h3, h4))

  pub merge_round-Reads :
      (key : Text) (c : RoundRows) {row : LedgerRow}
      → merge_round secure_key_of key c ≡ ok row
      → Reads c row
  unfolding merge_round
  merge_round-Reads key c h =
      let (address, _, r0) = >>=-eq-ok (address_for secure_key_of key (addresses_of c)) _ h in
      let (a, read, r1) = >>=-eq-ok (amounts_of c) _ r0 in
      let (_, _, r2) = >>=-eq-ok (raise_if (wallet_of a + a.active == 0) non_positive_claim) _ r1 in
      subst (Reads c) (ok_injective r2) (amounts_of-Reads key address c read)

  next_round-Holds :
      (claims : Dict Text PendingEntry) (s : Sources)
      (later : Sources → Result LedgerError (List LedgerRow)) {out : List LedgerRow}
      → ((s' : Sources) (rest : List LedgerRow) → later s' ≡ ok rest → HoldsAll rest s')
      → (k : Option Text) → least_key s ≡ k
      → next_round secure_key_of claims s later k ≡ ok out
      → HoldsAll out s
  unfolding next_round
  next_round-Holds claims s later ih none e h =
      let (e0, e1, e2, _) = least_key-none s e in
      subst (λ out. HoldsAll out s) (ok_injective h)
        ((
          Holds-ended (λ r. r.liquid_shard0_atto) (λ r. r.balance_atto) s.liquid0 e0,
          Holds-ended (λ r. r.liquid_shard1_atto) (λ r. r.balance_atto) s.liquid1 e1,
          Holds-ended (λ r. r.active_delegation_atto) (λ r. r.active_delegation_atto) s.staking e2,
          Holds-ended (λ r. r.pending_undelegation_atto) (λ r. r.pending_undelegation_atto)
              s.staking e2,
          Holds-ended (λ r. r.unclaimed_reward_atto) (λ r. r.unclaimed_reward_atto) s.staking e2,
        ))
  next_round-Holds claims s later ih (some key) e h =
      let (row, made, r0) =
        >>=-eq-ok (merge_round secure_key_of key (current_at claims key s)) _ h in
      let (rest, others, r1) = >>=-eq-ok (later (advance key s)) _ r0 in
      let (h0, h1, h2, h3, h4) = merge_round-Reads key (current_at claims key s) made in
      let (i0, i1, i2, i3, i4) = ih (advance key s) rest others in
      subst (λ out. HoldsAll out s) (ok_injective r1)
        ((
          Holds-round (λ r. r.liquid_shard0_atto) (λ r. r.balance_atto) (λ r. r.secure_key) key row
              rest s.liquid0 h0 i0,
          Holds-round (λ r. r.liquid_shard1_atto) (λ r. r.balance_atto) (λ r. r.secure_key) key row
              rest s.liquid1 h1 i1,
          Holds-round (λ r. r.active_delegation_atto) (λ r. r.active_delegation_atto)
              (λ r. r.secure_key) key row rest s.staking h2 i2,
          Holds-round (λ r. r.pending_undelegation_atto) (λ r. r.pending_undelegation_atto)
              (λ r. r.secure_key) key row rest s.staking h3 i3,
          Holds-round (λ r. r.unclaimed_reward_atto) (λ r. r.unclaimed_reward_atto)
              (λ r. r.secure_key) key row rest s.staking h4 i4,
        ))

  -- The columns of a ledger that was merged, whatever the order of the sources, add up to the balances
  -- of both shards, the delegations, the undelegations and the rewards of the sources, of which none is
  -- negative.
  pub ledger_rounds-Holds :
      (claims : Dict Text PendingEntry) (fuel : ℕ) (s : Sources) {out : List LedgerRow}
      → ledger_rounds secure_key_of claims fuel s ≡ ok out
      → HoldsAll out s
  unfolding ledger_rounds
  ledger_rounds-Holds claims zero s h =
      next_round-Holds claims s (λ s'. err out_of_fuel) (λ s' rest k. cc) (least_key s) refl h
  ledger_rounds-Holds claims (suc fuel) s h =
      next_round-Holds claims s (λ s'. ledger_rounds secure_key_of claims fuel s')
        (λ s' rest k. ledger_rounds-Holds claims fuel s' k) (least_key s) refl h
