-- ===== src/Vault/Assembly/Checking.antt =====
-- What the check of recipients keeps out of the plan.
use harmony_migration.Base.{
  ℕ, ◌+◌, ◌*◌, ◌≤◌, ◌<◌, ◌≡◌, refl, ap, ◌∙◌, inl, inr, Bool, true, false, Bool-cases, List, [], ◌∷◌,
  ◌++◌, map, any_of, sum_of, keep, length, arith, All, All-keep, ok, raise_if-eq-ok,
}
use harmony_migration.Base.Order.{text_eq, text_eq_sound}
use harmony_migration.Abi.Bytes.{Bytes}
use harmony_migration.Vault.Plan.{
  Deposit, Vault, PlannedTx, forbidden_recipient, fund_txs, has_deposits, fund_base_gas,
  fund_call_gas, fund_row_gas,
}
use harmony_migration.Vault.Plan.Packing.{vault_gives, tx_gives, fund_txs_exact}
use harmony_migration.Vault.Plan.Funding.{given, IsFundable}
use harmony_migration.Vault.Assembly.{check_recipients}

-- Whether an address is a vault's or a forbidden one.
abbrev pub is_barred : List Vault → List Bytes → Bytes → Bool
is_barred vaults forbidden d = any_of (λ b. text_eq b d) (map (λ v. v.address) vaults ++ forbidden)

none_given :
    (bad : List Bytes) (d : Bytes) (rows : List Deposit)
    → any_of (λ b. text_eq b d) bad ≡ true
    → any_of (λ r. any_of (λ b. text_eq b r.delegator) bad) rows ≡ false
    → given d rows ≡ 0
none_given bad d [] h c = refl
none_given bad d (r ∷ rows) h c = elim (Bool-cases (text_eq r.delegator d)) [
  | inl e ↦
      let same = text_eq_sound r.delegator d e in
      let hit : any_of (λ b. text_eq b r.delegator) bad ≡ true =
        ap (λ x. any_of (λ b. text_eq b x) bad) same ∙ h in
      cc (rw hit at c)
  | inr e ↦ elim (Bool-cases (any_of (λ b. text_eq b r.delegator) bad)) [
    | inl f ↦ cc (rw f at c)
    | inr f ↦ rw e (omega (arith, none_given bad d rows h (rw f at c)))
  ]
]

none_held :
    (bad : List Bytes) (d : Bytes) (vaults : List Vault)
    → any_of (λ b. text_eq b d) bad ≡ true
    → any_of (λ v. any_of (λ r. any_of (λ b. text_eq b r.delegator) bad) v.deposits) vaults ≡ false
    → All (λ v. given d v.deposits ≡ 0) vaults
none_held bad d [] h c = tt
none_held bad d (v ∷ vaults) h c =
    elim (Bool-cases (any_of (λ r. any_of (λ b. text_eq b r.delegator) bad) v.deposits)) [
      | inl f ↦ cc (rw f at c)
      | inr f ↦ (none_given bad d v.deposits h f, none_held bad d vaults h (rw f at c))
    ]

vaults_give_none :
    (a d : Bytes) (vaults : List Vault)
    → All (λ v. given d v.deposits ≡ 0) vaults
    → sum_of (vault_gives a d) vaults ≡ 0
vaults_give_none a d [] h = refl
vaults_give_none a d (v ∷ vaults) h = ground (arith, vaults_give_none a d vaults h.1, h.0)

-- Where the two selectors are different and of four bytes, the vaults and delegators are addresses,
-- a call has one row at least, and a call of the most rows is within the gas target, the calls of
-- funding transactions that were planned for vaults whose recipients were checked deposit nothing,
-- as they are decoded, for a vault's own address or for a forbidden one.
pub checked_plan_pays_none :
    (approve_selector deposit_selector token : Bytes) (vaults : List Vault) (forbidden : List Bytes)
    (gas_target max_rows : ℕ) (a d : Bytes) {txs : List PlannedTx} {done : Unit {0}}
    → length approve_selector ≡ 4
    → length deposit_selector ≡ 4
    → text_eq approve_selector deposit_selector ≡ false
    → All IsFundable vaults
    → 0 < max_rows
    → fund_base_gas + (fund_call_gas + fund_row_gas * max_rows) ≤ gas_target
    → check_recipients vaults forbidden ≡ ok done
    → fund_txs approve_selector deposit_selector token
        (keep has_deposits vaults)
        gas_target
        max_rows
      ≡ ok txs
    → is_barred vaults forbidden d ≡ true
    → sum_of (tx_gives deposit_selector a d) txs ≡ 0
unfolding check_recipients
checked_plan_pays_none x y token vaults forbidden target n a d lx ly apart fundable h room checked
      made barred =
    let bad = map (λ v. v.address) vaults ++ forbidden in
    let clean =
      raise_if-eq-ok
        (any_of (λ v. any_of (λ r. any_of (λ b. text_eq b r.delegator) bad) v.deposits) vaults)
        forbidden_recipient checked in
    let held = none_held bad d vaults barred clean in
    let (exact, _) =
      fund_txs_exact x y token (keep has_deposits vaults) target n lx ly apart
        (All-keep IsFundable has_deposits vaults fundable) h room made in
    exact a d
    ∙ vaults_give_none a d (keep has_deposits vaults)
        (All-keep (λ v. given d v.deposits ≡ 0) has_deposits vaults held)
