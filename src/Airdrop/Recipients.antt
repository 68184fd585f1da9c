-- ===== src/Airdrop/Recipients.antt =====
-- The recipient list of airdrop/tools/common.py: `consolidate` and `chunk`. An address is its
-- bytes, so that `address.lower()` is the address itself, and the order of the lower-case texts is
-- that of the bytes. The place of a row in its file, for messages, is left out.
use harmony_migration.Base.{
  ℕ, zero, suc, ◌+◌, Bool, true, false, not, ◌&&◌, Option, none, some, List, [], ◌∷◌, if◌then◌else◌,
  ltb, ◌==◌, any_of, length, take, drop, Result, ok, err, ◌>>=◌, ◌>>◌, raise_if,
}
use harmony_migration.Base.Order.{text_eq, text_ordered}
use harmony_migration.Base.Sorting.{sort_by}
use harmony_migration.Abi.Bytes.{Bytes}
pub mod Consolidating
pub mod Chunks

pub record Recipient : Type 0 where
  pub address : Bytes
  pub amount : ℕ

pub data InputError : Type 0 where
  duplicate_addresses unknown_order : InputError

-- The values of `--order`.
pub data Order : Type 0 where
  by_address by_input other_order : Order

-- The values of the dictionary `by_address` in its order, and the number of duplicates.
pub record Seen : Type 0 where
  pub rows : List Recipient
  pub duplicates : ℕ

-- `key in by_address`
abbrev pub has_address : Bytes → List Recipient → Bool
has_address a = any_of (λ r. text_eq r.address a)

-- Adds the amount at the address, or the row at the end.
unfoldable pub add_recipient : Recipient → List Recipient → List Recipient
add_recipient row [] = row ∷ []
add_recipient row (r ∷ rows) =
    let rest = add_recipient row rows in
    if text_eq r.address row.address
    then record r { amount = r.amount + row.amount } ∷ rows
    else r ∷ rest

-- The body of the loop of `consolidate`.
unfoldable pub see : Bool → Recipient → Seen → Seen
see merge_duplicates row seen =
    if has_address row.address seen.rows && not merge_duplicates
    then record seen { duplicates = suc seen.duplicates }
    else record seen { rows = add_recipient row seen.rows }

unfoldable pub see_all : Bool → List Recipient → Seen → Seen
see_all merge_duplicates [] seen = seen
see_all merge_duplicates (row ∷ rows) seen =
    see_all merge_duplicates rows (see merge_duplicates row seen)

unfoldable pub put_in_order : Order → List Recipient → Result InputError (List Recipient)
put_in_order by_address rows = ok (sort_by (λ r. r.address) rows)
put_in_order by_input rows = ok rows
put_in_order other_order rows = err unknown_order

unfoldable pub consolidate : List Recipient → Order → Bool → Result InputError (List Recipient)
consolidate rows order merge_duplicates =
    let seen = see_all merge_duplicates rows (record { rows = []; duplicates = 0 }) in
    raise_if (not (seen.duplicates == 0)) duplicate_addresses >> put_in_order order seen.rows

-- `[rows[i:i + size] for i in range(0, len(rows), size)]`
unfoldable pub chunk_from {ℓ} : {A : Type ℓ} → ℕ → ℕ → List A → List (List A)
chunk_from zero size rows = []
chunk_from (suc fuel) size [] = []
chunk_from (suc fuel) size (row ∷ rows) =
    take size (row ∷ rows) ∷ chunk_from fuel size (drop size (row ∷ rows))

-- There are at most as many steps as rows, as the size is not 0.
unfoldable pub chunk {ℓ} : {A : Type ℓ} → List A → ℕ → List (List A)
chunk rows size = chunk_from (length rows) size rows
