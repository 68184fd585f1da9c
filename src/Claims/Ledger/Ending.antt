-- ===== src/Claims/Ledger/Ending.antt =====
-- The loop of the ledger ends: it is never out of fuel.
use harmony_migration.Base.{
  ℕ, zero, suc, ◌+◌, ◌≤◌, ◌≡◌, refl, Bool, true, false, not, Option, none, some, List, [], ◌∷◌,
  arith, any_of, Text, Dict, ◌==◌, Result, ok, err, ◌>>=◌, raise_if,
}
use harmony_migration.Base.Int.{ℤ, pos, negsuc}
use harmony_migration.Base.Literals.{lower}
use harmony_migration.Base.Order.{text_eq, text_ordered}
use harmony_migration.Claims.Ledger.{
  LedgerError, out_of_fuel, keys_not_increasing, receipt_mismatch, pending_sum_differs, wrong_key,
  negative_field, address_mismatch, non_positive_claim, LedgerRow, PendingEntry, Sources, RoundRows,
  amount_of, int_field, least_key, advance, current_at, addresses_of, address_for, amounts_of,
  wallet_of, merge_round, next_round, ledger_rounds,
}
use harmony_migration.Claims.Ledger.Rounds.{rows_left, advance_shrinks}

-- Whether an error is that of the fuel, and a result that ends.
abbrev is_fuel : LedgerError → Bool
is_fuel out_of_fuel = true
is_fuel keys_not_increasing = false
is_fuel wrong_key = false
is_fuel negative_field = false
is_fuel address_mismatch = false
is_fuel receipt_mismatch = false
is_fuel pending_sum_differs = false
is_fuel non_positive_claim = false

abbrev pub Ends {ℓ} : {A : Type ℓ} → Result LedgerError A → Type 0
Ends (ok a) = Unit
Ends (err e) = is_fuel e ≡ false

>>=-Ends {ℓ κ} :
    {A : Type ℓ} {B : Type κ} (first : Result LedgerError A) (rest : A → Result LedgerError B)
    → Ends first
    → ((a : A) → Ends (rest a))
    → Ends (first >>= rest)
>>=-Ends (err e) rest h k = h
>>=-Ends (ok a) rest h k = k a

raise_if-Ends : (bad : Bool) (e : LedgerError) → is_fuel e ≡ false → Ends (raise_if bad e)
raise_if-Ends true e h = h
raise_if-Ends false e h = tt

amount_of-Ends : (z : ℤ) → Ends (amount_of z)
unfolding amount_of
amount_of-Ends (pos n) = tt
amount_of-Ends (negsuc n) = refl

int_field-Ends {ℓ} : {R : Type ℓ} (field : R → ℤ) (row : Option R) → Ends (int_field field row)
unfolding int_field
int_field-Ends field none = tt
int_field-Ends field (some row) = amount_of-Ends (field row)

amounts_of-Ends : (c : RoundRows) → Ends (amounts_of c)
unfolding amounts_of
amounts_of-Ends c =
    >>=-Ends (int_field (λ r. r.balance_atto) c.current0) _
      (int_field-Ends (λ r. r.balance_atto) c.current0)
      (λ v0.
        >>=-Ends (int_field (λ r. r.balance_atto) c.current1) _
          (int_field-Ends (λ r. r.balance_atto) c.current1)
          (λ v1.
            >>=-Ends (int_field (λ r. r.active_delegation_atto) c.current_stake) _
              (int_field-Ends (λ r. r.active_delegation_atto) c.current_stake)
              (λ v2.
                >>=-Ends (int_field (λ r. r.pending_undelegation_atto) c.current_stake) _
                  (int_field-Ends (λ r. r.pending_undelegation_atto) c.current_stake)
                  (λ v3.
                    >>=-Ends (int_field (λ r. r.unclaimed_reward_atto) c.current_stake) _
                      (int_field-Ends (λ r. r.unclaimed_reward_atto) c.current_stake) (λ v4. tt)))))

module _ (secure_key_of : Text → Text) where
  address_for-Ends :
      (key : Text) (addresses : List Text) → Ends (address_for secure_key_of key addresses)
  unfolding address_for
  address_for-Ends key [] = tt
  address_for-Ends key (a ∷ others) =
      >>=-Ends (raise_if (any_of (λ b. not (text_eq (lower b) (lower a))) others) address_mismatch)
        _
        (raise_if-Ends (any_of (λ b. not (text_eq (lower b) (lower a))) others) address_mismatch
          refl)
        (λ u.
          >>=-Ends (raise_if (not (text_eq key (secure_key_of a))) wrong_key) _
            (raise_if-Ends (not (text_eq key (secure_key_of a))) wrong_key refl) (λ v. tt))

  merge_round-Ends : (key : Text) (c : RoundRows) → Ends (merge_round secure_key_of key c)
  unfolding merge_round
  merge_round-Ends key c =
      >>=-Ends (address_for secure_key_of key (addresses_of c)) _
        (address_for-Ends key (addresses_of c))
        (λ address. >>=-Ends (amounts_of c) _ (amounts_of-Ends c) (λ a.
          >>=-Ends (raise_if (wallet_of a + a.active == 0) non_positive_claim) _
            (raise_if-Ends (wallet_of a + a.active == 0) non_positive_claim refl) (λ u. tt)))

  next_round-Ends :
      (claims : Dict Text PendingEntry) (s : Sources)
      (later : Sources → Result LedgerError (List LedgerRow))
      → ((key : Text) → least_key s ≡ some key → Ends (later (advance key s)))
      → (k : Option Text) → least_key s ≡ k
      → Ends (next_round secure_key_of claims s later k)
  unfolding next_round
  next_round-Ends claims s later ih none e = tt
  next_round-Ends claims s later ih (some key) e =
      >>=-Ends (merge_round secure_key_of key (current_at claims key s)) _
        (merge_round-Ends key (current_at claims key s))
        (λ row. >>=-Ends (later (advance key s)) _ (ih key e) (λ rest. tt))

  -- With as much fuel as the sources have rows, the loop of the ledger ends with rows or with one of the
  -- code's errors, and does not run out of fuel.
  pub ledger_rounds-Ends :
      (claims : Dict Text PendingEntry) (fuel : ℕ) (s : Sources)
      → rows_left s ≤ fuel
      → Ends (ledger_rounds secure_key_of claims fuel s)
  unfolding ledger_rounds
  ledger_rounds-Ends claims zero s h =
      next_round-Ends claims s (λ s'. err out_of_fuel)
        (λ key e. absurd (omega (arith, advance_shrinks s key e))) (least_key s) refl
  ledger_rounds-Ends claims (suc fuel) s h =
      next_round-Ends claims s (λ s'. ledger_rounds secure_key_of claims fuel s')
        (λ key e.
          ledger_rounds-Ends claims fuel (advance key s) (omega (arith, advance_shrinks s key e)))
        (least_key s) refl
