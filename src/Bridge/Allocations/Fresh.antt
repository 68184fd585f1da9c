-- ===== src/Bridge/Allocations/Fresh.antt =====
-- The rows before the sharing: no share is set, and no status is below the minimum.
use mathlib.Core.Path.{subst}
use harmony_migration.Base.{
  ◌≡◌, refl, sym, inl, inr, Bool, false, List, [], ◌∷◌, arith, All, ok, >>=-eq-ok, ok_injective,
  Text, Option, none, some, Option-cases, lookup,
}
use harmony_migration.Base.Order.{text_ordered}
use harmony_migration.Base.Keys.{pair_ordered}
use harmony_migration.Bridge.Allocations.{
  Status, Row, Pool, is_below, account_row, account_rows, status_for, first_contract,
  contract_elsewhere, class_of, status_by_class, status_by_policy, apply_override, Override,
  get_keyed,
}

-- A row before the collateral is shared out.
abbrev pub IsFresh : Row → Type 0
IsFresh row = (row.allocation_raw ≡ 0) × (is_below row.status ≡ false)

-- No status is below the minimum before the shares are set.
status_for_fresh : (c : Option Text) (h k : Text) → is_below (status_for c h k) ≡ false
unfolding status_for
status_for_fresh none h k = refl
status_for_fresh (some c) h k = ground arith

abbrev is_below_some : Option Status → Bool
is_below_some none = false
is_below_some (some s) = is_below s

first_contract_fresh :
    (h k : Text) (chains : List (Text × Text)) → is_below_some (first_contract h k chains) ≡ false
unfolding first_contract
first_contract_fresh h k [] = refl
first_contract_fresh h k ((chain, other) ∷ chains) =
    ground (arith, first_contract_fresh h k chains, status_for_fresh (some other) chain k)

contract_elsewhere_fresh :
    (a h k : Text) (classes : _) → is_below_some (contract_elsewhere a h k classes) ≡ false
unfolding contract_elsewhere
contract_elsewhere_fresh a h k classes = elim (Option-cases (lookup a classes)) [
  | inl none_there ↦ rw (contract_elsewhere, none_there) refl
  | inr (chains, there) ↦ rw (contract_elsewhere, there) (first_contract_fresh h k _)
]

status_by_class_fresh : (pool : Pool) (a : Text) → is_below (status_by_class pool a) ≡ false
unfolding status_by_class
status_by_class_fresh pool a = ground (
  arith,
  status_for_fresh (class_of pool a) pool.holder_chain pool.claim_chain,
  contract_elsewhere_fresh a pool.holder_chain pool.claim_chain pool.chain_classes,
)

status_by_policy_fresh : (pool : Pool) (a : Text) → is_below (status_by_policy pool a) ≡ false
unfolding status_by_policy
status_by_policy_fresh pool a = ground (arith, status_by_class_fresh pool a)

module _ (address : Text → Option Text) where
  apply_override_fresh :
      (a : Text) (s : Status) (o : Option Override) {out : Status × Text}
      → is_below s ≡ false
      → apply_override address a s o ≡ ok out
      → is_below (out.0) ≡ false
  unfolding apply_override
  apply_override_fresh a s none f h = rw (sym (ok_injective h)) f
  apply_override_fresh a s (some o) f h = ground arith

  account_row-IsFresh :
      (pool : Pool) (a : Text) {row : Row} → account_row address pool a ≡ ok row → IsFresh row
  unfolding account_row
  account_row-IsFresh pool a h =
      let ((status, payee), settled, h1) =
        >>=-eq-ok
          (apply_override address a (status_by_policy pool a)
            (get_keyed pool.pool_id a pool.overrides))
          _ h in
      subst IsFresh (ok_injective h1)
        ((refl, apply_override_fresh a _ _ (status_by_policy_fresh pool a) settled))

  pub account_rows-IsFresh :
      (pool : Pool) (accounts : List Text) {rows : List Row}
      → account_rows address pool accounts ≡ ok rows
      → All IsFresh rows
  unfolding account_rows
  account_rows-IsFresh pool [] h = subst (All IsFresh) (ok_injective h) tt
  account_rows-IsFresh pool (a ∷ accounts) h =
      let (row, made, h1) = >>=-eq-ok (account_row address pool a) _ h in
      let (rows, rest, h2) = >>=-eq-ok (account_rows address pool accounts) _ h1 in
      subst (All IsFresh) (ok_injective h2)
        ((account_row-IsFresh pool a made, account_rows-IsFresh pool accounts rest))
