-- ===== src/Routing/Destinations.antt =====
-- `resolve_destination` of toolkit/scripts/routing/apply-routes.py: where a route's amount goes. A
-- route whose destination is not known yet is a hold.
use harmony_migration.Base.{
  ◌≡◌, ◌⊎◌, Bool, true, false, not, Option, none, some, [], ◌∷◌, arith, if◌then◌else◌, Result, ok,
  err, Text, lookup, Dict,
}
use harmony_migration.Base.Order.{text_ordered}

-- `DESTINATION_STATUSES`
pub data Status : Type 0 where
  ready hold not_issuing redistributed exchange_manual : Status

pub record Destination : Type 0 where
  pub address : Text
  pub status : Status

-- The columns of a route row that are read here. An empty `status` column is `none`; a text that
-- is no status is refused when the column is read, as the first test of the source does.
pub record RouteRow : Type 0 where
  pub destination_address : Text
  pub destination_id : Text
  pub explicit_status : Option Status

pub data ResolveError : Type 0 where
  cannot_have_an_address no_address_or_id undefined_id status_mismatch invalid_address :
      ResolveError

abbrev pub is_empty : Text → Bool
is_empty [] = true
is_empty (c ∷ t) = false

-- `explicit_status in {"not_issuing", "redistributed"}`
abbrev pub has_no_address : Option Status → Bool
has_no_address (some not_issuing) = true
has_no_address (some redistributed) = true
has_no_address _ = false

-- `explicit_status in {"ready", "not_issuing", "redistributed", EXCHANGE_MANUAL_STATUS}`
abbrev pub needs_destination : Option Status → Bool
needs_destination none = false
needs_destination (some hold) = false
needs_destination _ = true

-- The three tests of an explicit status against the destination's own.
abbrev pub agrees : Option Status → Status → Bool
agrees (some not_issuing) not_issuing = true
agrees (some not_issuing) _ = false
agrees (some redistributed) redistributed = true
agrees (some redistributed) _ = false
agrees (some exchange_manual) exchange_manual = true
agrees (some exchange_manual) hold = true
agrees (some exchange_manual) _ = false
agrees _ _ = true

abbrev pub or_ready : Option Status → Status
or_ready none = ready
or_ready (some s) = s

-- `"hold" if explicit_status == "hold" else destination["status"]`
abbrev pub held_or : Option Status → Status → Status
held_or (some hold) _ = hold
held_or _ s = s

-- `canonical` is `lib.to_checksum(lib.normalize_address(direct))`, `none` where that raises.
module _ (canonical : Text → Option Text) where
  -- The id, the address and the status.
  unfoldable pub resolve_destination :
      RouteRow → Dict Text Destination → Result ResolveError (Text × Text × Status)
  resolve_destination row destinations =
      if not (is_empty row.destination_address)
      then (if has_no_address row.explicit_status
          then err cannot_have_an_address
          else elim (canonical row.destination_address) [
            | none ↦ err invalid_address
            | some a ↦ ok (row.destination_id, a, or_ready row.explicit_status)
          ])
      else if is_empty row.destination_id
      then (if needs_destination row.explicit_status
          then err no_address_or_id
          else ok ([], [], hold))
      else elim (lookup row.destination_id destinations) [
        | none ↦
            if needs_destination row.explicit_status
            then err undefined_id
            else ok (row.destination_id, [], hold)
        | some d ↦
            if agrees row.explicit_status d.status
            then ok (row.destination_id, d.address, held_or row.explicit_status d.status)
            else err status_mismatch
      ]

  -- Where a status other than hold comes from: the row's own address, or a destination of that id.
  abbrev pub IsBacked : RouteRow → Dict Text Destination → Text × Text × Status → Type 0
  IsBacked row destinations (i, a, s) =
      (canonical row.destination_address ≡ some a)
        × (s ≡ or_ready row.explicit_status)
        × (has_no_address (some s) ≡ false)
      ⊎ ((d : Destination) × (lookup row.destination_id destinations ≡ some d)
          × (a ≡ d.address)
          × (s ≡ d.status))

  -- A route is never sent anywhere by default: a result is a hold, or its address and status are
  -- those of the row's own address (and then the status is one that may have an address), or those
  -- of the destination that the row names. An explicit hold stays a hold, and an explicit status
  -- other than hold and ready that is resolved without a hold is the status of the result.
  pub resolved-IsBacked :
      (row : RouteRow) (destinations : Dict Text Destination) (i a : Text) (s : Status)
      → resolve_destination row destinations ≡ ok (i, a, s)
      → ((s ≡ hold) ⊎ IsBacked row destinations (i, a, s))
        × (row.explicit_status ≡ some hold → s ≡ hold)
        × ((e : Status) → row.explicit_status ≡ some e → (s ≡ hold) ⊎ (s ≡ e) ⊎ (e ≡ ready))
  unfolding resolve_destination
  resolved-IsBacked row destinations i a s h = (ground arith, ground arith, λ e x. ground arith)
