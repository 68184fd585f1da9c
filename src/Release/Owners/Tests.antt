-- ===== src/Release/Owners/Tests.antt =====
-- A Safe that gets the other owners of its roster.
use harmony_migration.Base.{
  ◌+◌, ◌≡◌, ◌↔◌, refl, true, false, ◌||◌, Option, some, none, List, [], ◌∷◌, arith, length, ltb,
  ◌==◌, le→ltb_false, if◌then◌else◌, Text,
}
use harmony_migration.Base.Literals.{codes}
use harmony_migration.Base.Order.{text_ordered}
use harmony_migration.Base.Sorting.{sort_by, insert_by}
use harmony_migration.Release.Owners.{
  is_in, OwnerCall, to_add, setup_calls, owner_setup_calls, custody_problems, needs_owner_setup,
  unexpected_owners,
}
use harmony_migration.Release.Owners.Setup.{
  SafeState, AddsAtHead, after_calls, owner_setup_calls-order,
}

-- A Safe that refuses an owner it has, and a threshold it cannot reach.
abbrev strict_safe : OwnerCall → SafeState → Option SafeState
strict_safe (o, t) (owners, u) =
    if is_in o owners || (t == 0 || ltb (length owners + 1) t) then none else some (o ∷ owners, t)

strict_safe-AddsAtHead : AddsAtHead strict_safe
strict_safe-AddsAtHead o t u owners out h k =
    let positive : (t == 0) ≡ false = ground arith in
    let reached = le→ltb_false t (length owners + 1) k in rw (out, positive, reached) refl

middle_first :
    after_calls strict_safe
      (owner_setup_calls (codes "b" ∷ []) (codes "a" ∷ codes "b" ∷ codes "c" ∷ []) 2)
      (codes "b" ∷ [], 1)
    ≡ some (codes "a" ∷ codes "c" ∷ codes "b" ∷ [], 2)
unfolding owner_setup_calls setup_calls to_add
middle_first = refl

middle_accepted :
    custody_problems
      (record { is_safe = true; owners = codes "b" ∷ []; threshold = 1 })
      0
      (codes "a" ∷ codes "b" ∷ codes "c" ∷ [])
      2
    ≡ (needs_owner_setup, 0)
unfolding custody_problems sort_by insert_by
middle_accepted = refl

stranger_refused :
    custody_problems
      (record { is_safe = true; owners = codes "x" ∷ []; threshold = 1 })
      0
      (codes "a" ∷ codes "b" ∷ [])
      2
    ≡ (unexpected_owners, 0 + 1)
unfolding custody_problems sort_by insert_by
stranger_refused = refl

owner_setup_calls-order_example :
    (after_calls strict_safe
        (owner_setup_calls (codes "b" ∷ []) (codes "a" ∷ codes "b" ∷ codes "c" ∷ []) 2)
        (codes "b" ∷ [], 1)
      ≡ some (codes "a" ∷ codes "c" ∷ codes "b" ∷ [], 2))
    × ((◌≡◌ {A = List Text}
          (codes "a" ∷ codes "c" ∷ codes "b" ∷ [])
          (codes "a" ∷ codes "b" ∷ codes "c" ∷ []))
        ↔ (◌≡◌ {A = List Text} (codes "c" ∷ []) []))
owner_setup_calls-order_example =
    owner_setup_calls-order strict_safe strict_safe-AddsAtHead (codes "a" ∷ []) (codes "c" ∷ [])
      (codes "b") 2 (omega arith) ((refl, tt), (tt, tt)) (refl, tt) (refl, tt) (omega arith)
      (omega arith)
