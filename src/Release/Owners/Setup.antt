-- ===== src/Release/Owners/Setup.antt =====
-- The owners that the setup calls leave. The Safe is a contract that is not in this repository: its
-- `addOwnerWithThreshold` is a parameter, of which the calls rely on the head of the linked list being
-- where an owner goes.
use mathlib.Core.Path.{subst}
use mathlib.Core.List.{append_assoc, append-nil}
use harmony_migration.Base.{
  ℕ, ◌+◌, ◌≤◌, ◌<◌, ◌≡◌, ◌↔◌, refl, sym, ap, ◌∙◌, false, not, Option, some, none, List, [], ◌∷◌,
  ◌++◌, arith, keep, length, length-append, All, AllPairs, Text,
}
use harmony_migration.Base.Order.{text_eq, text_eq_refl}
use harmony_migration.Abi.Bytes.{All-append}
use harmony_migration.Airdrop.Recipients.Consolidating.{text_eq_sym}
use harmony_migration.Release.Owners.{
  is_in, OwnerCall, to_add, reversed, setup_calls, owner_setup_calls,
}

-- The owners of a Safe in the order of `getOwners()`, and its threshold.
abbrev pub SafeState : Type 0
SafeState = List Text × ℕ

abbrev pub Apart : List Text → Type 0
Apart = AllPairs (λ a b. text_eq a b ≡ false)

-- An owner that is not in goes to the head, under a threshold from one to the number of owners.
abbrev pub AddsAtHead : (OwnerCall → SafeState → Option SafeState) → Type 0
AddsAtHead add_owner =
    (o : Text) (t u : ℕ) (owners : List Text)
    → is_in o owners ≡ false
    → 0 < t
    → t ≤ length owners + 1
    → add_owner (o, t) (owners, u) ≡ some (o ∷ owners, t)

All-reversed : (P : Text → Type 0) (xs : List Text) → All P xs → All P (reversed xs)
All-reversed P [] h = tt
All-reversed P (x ∷ xs) h = All-append P (reversed xs) (x ∷ []) (All-reversed P xs h.1) ((h.0, tt))

Apart-snoc :
    (xs : List Text) (x : Text)
    → Apart xs
    → All (λ y. text_eq y x ≡ false) xs
    → Apart (xs ++ (x ∷ []))
Apart-snoc [] x h k = (tt, tt)
Apart-snoc (y ∷ xs) x h k =
    (All-append (λ z. text_eq y z ≡ false) xs (x ∷ []) h.0 ((k.0, tt)), Apart-snoc xs x h.1 k.1)

All-flip :
    (x : Text) (xs : List Text)
    → All (λ y. text_eq x y ≡ false) xs
    → All (λ y. text_eq y x ≡ false) xs
All-flip x [] h = tt
All-flip x (y ∷ xs) h = (text_eq_sym x y h.0, All-flip x xs h.1)

reversed-Apart : (xs : List Text) → Apart xs → Apart (reversed xs)
reversed-Apart [] h = tt
reversed-Apart (x ∷ xs) h =
    Apart-snoc (reversed xs) x (reversed-Apart xs h.1)
      (All-reversed (λ y. text_eq y x ≡ false) xs (All-flip x xs h.0))

reversed-append : (xs : List Text) (x : Text) → reversed (xs ++ (x ∷ [])) ≡ x ∷ reversed xs
reversed-append [] x = refl
reversed-append (y ∷ xs) x = ap (λ r. r ++ (y ∷ [])) (reversed-append xs x)

reversed_twice : (xs : List Text) → reversed (reversed xs) ≡ xs
reversed_twice [] = refl
reversed_twice (x ∷ xs) = reversed-append (reversed xs) x ∙ ap (λ r. x ∷ r) (reversed_twice xs)

length-reversed : (xs : List Text) → length (reversed xs) ≡ length xs
length-reversed [] = refl
length-reversed (x ∷ xs) = omega (arith, length-append (reversed xs) (x ∷ []), length-reversed xs)

-- None of some owners is in a list; with one more in it.
abbrev NoneIn : List Text → List Text → Type 0
NoneIn owners = All (λ y. is_in y owners ≡ false)

NoneIn-cons :
    (y : Text) (owners ys : List Text)
    → All (λ z. text_eq y z ≡ false) ys
    → NoneIn owners ys
    → NoneIn (y ∷ owners) ys
NoneIn-cons y owners [] h k = tt
NoneIn-cons y owners (z ∷ ys) h k =
    let apart = h.0 in (rw apart (k.0), NoneIn-cons y owners ys h.1 k.1)

module _ (add_owner : OwnerCall → SafeState → Option SafeState) where
  -- The Safe's state after some calls, none where one of them reverts.
  abbrev pub after_calls : List OwnerCall → SafeState → Option SafeState
  after_calls [] s = some s
  after_calls (call ∷ calls) s = elim (add_owner call s) [
    | none ↦ none
    | some s' ↦ after_calls calls s'
  ]

  module _ (adds : AddsAtHead add_owner) where
    setup_lem :
        (th u : ℕ) (y : Text) (ys owners : List Text)
        → 0 < th
        → th ≤ length owners + length ys + 1
        → Apart (y ∷ ys)
        → NoneIn owners (y ∷ ys)
        → after_calls (setup_calls th (y ∷ ys)) (owners, u) ≡ some (reversed (y ∷ ys) ++ owners, th)
    unfolding setup_calls
    setup_lem th u y [] owners h k a n = rw (adds y th u owners n.0 h (omega arith)) refl
    setup_lem th u y (z ∷ ys) owners h k a n =
        let first = adds y 1 u owners n.0 (omega arith) (omega arith) in
        let rest =
          setup_lem th 1 z ys (y ∷ owners) h (omega arith) a.1
            (NoneIn-cons y owners (z ∷ ys) a.0 n.1) in
        rw first
          (rest ∙ ap (λ r. some (r, th)) (sym (append_assoc (reversed (z ∷ ys)) (y ∷ []) owners)))

-- The owners to add to a Safe of one owner of the roster: the others, in the roster's order.
others_kept :
    (o : Text) (xs : List Text)
    → All (λ x. text_eq o x ≡ false) xs
    → keep (λ x. not (is_in x (o ∷ []))) xs ≡ xs
others_kept o [] h = refl
others_kept o (x ∷ xs) h = let apart = h.0 in rw apart (ap (λ r. x ∷ r) (others_kept o xs h.1))

to_add-roster :
    (o : Text) (front back : List Text)
    → All (λ x. text_eq o x ≡ false) front
    → All (λ x. text_eq o x ≡ false) back
    → to_add (o ∷ []) (front ++ (o ∷ back)) ≡ front ++ back
unfolding to_add
to_add-roster o [] back h k = let same = text_eq_refl o in rw same (others_kept o back k)
to_add-roster o (x ∷ front) back h k =
    let apart = h.0 in
    rw apart (ap (λ r. x ∷ r) (unfold to_add in to_add-roster o front back h.1 k))

-- Where one owner ends up when it is moved to the end.
moved_to_end :
    (front back : List Text) (o : Text)
    → All (λ x. text_eq o x ≡ false) back
    → (front ++ back) ++ (o ∷ []) ≡ front ++ (o ∷ back)
    → back ≡ []
moved_to_end [] [] o h e = refl
moved_to_end [] (b ∷ back) o h e = cc (h.0, text_eq_refl o)
moved_to_end (x ∷ front) back o h e = moved_to_end front back o h (ap rest_of e)
  where
    rest_of : List Text → List Text
    rest_of [] = []
    rest_of (y ∷ ys) = ys

apart_NoneIn : (o : Text) (xs : List Text) → All (λ x. text_eq o x ≡ false) xs → NoneIn (o ∷ []) xs
apart_NoneIn o [] h = tt
apart_NoneIn o (x ∷ xs) h = let apart = h.0 in (rw apart refl, apart_NoneIn o xs h.1)

-- The calls for the reversed list of the others.
setup_reversed :
    (add_owner : OwnerCall → SafeState → Option SafeState)
    → AddsAtHead add_owner
    → (others : List Text) (o : Text) (th : ℕ) → 0 < length others
    → Apart others
    → All (λ x. text_eq o x ≡ false) others
    → 0 < th
    → th ≤ length others + 1
    → after_calls add_owner (setup_calls th (reversed others)) (o ∷ [], 1)
      ≡ some (others ++ (o ∷ []), th)
setup_reversed add_owner adds others o th more apart from_first h k = go (reversed others) refl
  where
    go :
        (ys : List Text)
        → reversed others ≡ ys
        → after_calls add_owner (setup_calls th (reversed others)) (o ∷ [], 1)
          ≡ some (others ++ (o ∷ []), th)
    go [] e = absurd (omega (arith, length-reversed others, ap length e))
    go (y ∷ ys) e =
        ap (λ l. after_calls add_owner (setup_calls th l) (o ∷ [], 1)) e
        ∙ setup_lem add_owner adds th 1 y ys (o ∷ []) h
            (omega (arith, length-reversed others, ap length e))
            (subst Apart e (reversed-Apart others apart))
            (subst (NoneIn (o ∷ [])) e (
              All-reversed (λ x. is_in x (o ∷ []) ≡ false) others
                (apart_NoneIn o others from_first)))
        ∙ ap (λ l. some (reversed l ++ (o ∷ []), th)) (sym e)
        ∙ ap (λ l. some (l ++ (o ∷ []), th)) (reversed_twice others)

module _ (add_owner : OwnerCall → SafeState → Option SafeState) (adds : AddsAtHead add_owner) where
  -- A Safe of one owner of a roster of more than one, all different, under a contract that puts
  -- an owner at the head, ends with the threshold asked for, which is from one to the number of
  -- owners, and with the other owners in the roster's order and the first owner after them.
  -- These are in the order of the roster exactly where the first owner is the last of it.
  pub owner_setup_calls-order :
      (front back : List Text) (o : Text) (th : ℕ)
      → 0 < length (front ++ back)
      → Apart (front ++ back)
      → All (λ x. text_eq o x ≡ false) front
      → All (λ x. text_eq o x ≡ false) back
      → 0 < th
      → th ≤ length (front ++ (o ∷ back))
      → (after_calls add_owner (owner_setup_calls (o ∷ []) (front ++ (o ∷ back)) th) (o ∷ [], 1)
          ≡ some ((front ++ back) ++ (o ∷ []), th))
        × (((front ++ back) ++ (o ∷ []) ≡ front ++ (o ∷ back)) ↔ (back ≡ []))
  unfolding owner_setup_calls
  owner_setup_calls-order front back o th more apart hf hb h k =
      let others = front ++ back in
      let all_apart = All-append (λ x. text_eq o x ≡ false) front back hf hb in
      let few : th ≤ length others + 1 =
        omega (arith, length-append front (o ∷ back), length-append front back) in
      (
        ap (λ l. after_calls add_owner (setup_calls th (reversed l)) (o ∷ [], 1))
              (to_add-roster o front back hf hb)
            ∙ setup_reversed add_owner adds others o th more apart all_apart h few,
        (
          (λ e. moved_to_end front back o hb e),
          (λ e.
              ap (λ b. (front ++ b) ++ (o ∷ [])) e
              ∙ ap (λ r. r ++ (o ∷ [])) (append-nil front)
              ∙ ap (λ b. front ++ (o ∷ b)) (sym e)),
        ),
      )
