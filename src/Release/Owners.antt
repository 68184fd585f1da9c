-- ===== src/Release/Owners.antt =====
-- `owner_setup_calls` and `custody_problems` of bridge-claims/tools/release_plan.py. An address is a
-- text. The lines of a call that repeat its owner and threshold for the signers are left out, and so
-- are the names of the problems of a Safe's identity, of which only the number is kept.
use harmony_migration.Base.{
  ℕ, zero, suc, ◌+◌, Bool, true, false, not, ◌||◌, ◌&&◌, List, [], ◌∷◌, ◌++◌, keep, any_of, length,
  ◌==◌, if◌then◌else◌, Text,
}
use harmony_migration.Base.Order.{text_eq, text_ordered}
use harmony_migration.Base.Sorting.{sort_by}
pub mod Setup
mod Tests

abbrev pub is_in : Text → List Text → Bool
is_in a owners = any_of (λ o. text_eq o a) owners

-- `addOwnerWithThreshold(owner, threshold)`
abbrev pub OwnerCall : Type 0
OwnerCall = Text × ℕ

-- `[o for o in target_owners if o not in set(current_owners)]`
unfoldable pub to_add : List Text → List Text → List Text
to_add current target = keep (λ o. not (is_in o current)) target

abbrev pub reversed : List Text → List Text
reversed [] = []
reversed (o ∷ owners) = reversed owners ++ (o ∷ [])

-- The loop over `ordered`; the last call has the target threshold.
unfoldable pub setup_calls : ℕ → List Text → List OwnerCall
setup_calls target_threshold [] = []
setup_calls target_threshold (o ∷ []) = (o, target_threshold) ∷ []
setup_calls target_threshold (o ∷ p ∷ ordered) = (o, 1) ∷ setup_calls target_threshold (p ∷ ordered)

unfoldable pub owner_setup_calls : List Text → List Text → ℕ → List OwnerCall
owner_setup_calls current_owners target_owners target_threshold =
    setup_calls target_threshold (reversed (to_add current_owners target_owners))

-- `info["status"]`
pub data CustodyStatus : Type 0 where
  not_a_safe ready needs_owner_setup unexpected_owners : CustodyStatus

pub record SafeInfo : Type 0 where
  pub is_safe : Bool
  pub owners : List Text
  pub threshold : ℕ

abbrev pub texts_eq : List Text → List Text → Bool
texts_eq [] [] = true
texts_eq [] (b ∷ bs) = false
texts_eq (a ∷ as') [] = false
texts_eq (a ∷ as') (b ∷ bs) = let rest = texts_eq as' bs in if text_eq a b then rest else false

abbrev pub sorted : List Text → List Text
sorted owners = sort_by (λ o. o) owners

-- `len(owners) == 1 and owners[0] in set(roster)`
abbrev pub is_sole_of : List Text → List Text → Bool
is_sole_of [] roster = false
is_sole_of (o ∷ []) roster = is_in o roster
is_sole_of (o ∷ p ∷ owners) roster = false

-- The status, and the number of problems, of which the identity has some already.
unfoldable pub custody_problems : SafeInfo → ℕ → List Text → ℕ → CustodyStatus × ℕ
custody_problems info identity_problems roster threshold =
    if not info.is_safe
    then (not_a_safe, 1)
    else if texts_eq (sorted info.owners) (sorted roster) && (info.threshold == threshold)
    then (ready, identity_problems)
    else if is_sole_of info.owners roster && (info.threshold == 1)
    then (needs_owner_setup, identity_problems)
    else (unexpected_owners, identity_problems + 1)
