-- ===== src/Vault/Plan/Packing.antt =====
-- What the funding transactions of a plan deposit, and their gas.
use mathlib.Core.Path.{subst}
use harmony_migration.Base.{
  ℕ, suc, ◌+◌, ◌*◌, ◌≤◌, ◌<◌, ◌≡◌, refl, sym, ap, ◌∙◌, false, none, List, [], ◌∷◌, sum_of,
  sum_of-append, arith, if◌then◌else◌, length, All, All-imp, Result, ok, err, >>=-eq-ok,
  ok_injective,
}
use harmony_migration.Base.Order.{text_eq, text_ordered}
use harmony_migration.Base.Keys.{nat_ordered, int_ordered, pair_ordered}
use harmony_migration.Base.Sorting.{sort_by, sum_of-sort_by, All-sort_by}
use harmony_migration.Abi.Bytes.{Bytes, All-append}
use harmony_migration.Abi.Words.{AbiError}
use harmony_migration.Airdrop.Recipients.Chunks.{concat}
use harmony_migration.Safe.Transactions.{SizeError, split_sizes, slices}
use harmony_migration.Safe.Transactions.Sizes.{total, AtMost, Sized, split_sizes-total, slices_lem}
use harmony_migration.Abi.Batch.{IsAddress}
use harmony_migration.Safe.Transactions.Paying.{All-of-slices}
use harmony_migration.Vault.Plan.Bins.{
  in_bins, in_bins-place_all, Members, place_all-Members, Roomy, place_all-Roomy,
  parts_from-Members,
}
use harmony_migration.Vault.Plan.Funding.{
  given, call_gives, ArePairs, HasAddresses, IsFundable, fund_calls-gives,
}
use harmony_migration.Vault.Plan.{
  Deposit, Vault, PlannedTx, lift_fit, lift_size, fund_base_gas, fund_call_gas, fund_row_gas, Item,
  parts_from, items_of, Bin, place_all, decreasing, by_validator, fund_calls, fund_tx, fund_each,
  fund_txs,
}

-- What a vault, a part and a transaction deposit for a delegator in the vault at an address; a
-- transaction as its call data reads.
abbrev pub vault_gives : Bytes → Bytes → Vault → ℕ
vault_gives a d v = if text_eq v.address a then given d v.deposits else 0

abbrev item_gives : Bytes → Bytes → Item → ℕ
item_gives a d it = if text_eq it.vault.address a then given d it.rows else 0

abbrev pub tx_gives : Bytes → Bytes → Bytes → PlannedTx → ℕ
tx_gives deposit_selector a d tx = sum_of (call_gives deposit_selector a d) tx.calls

parts_from-gives :
    (a d : Bytes) (v : Vault) (i : ℕ) (chunks : List (List Deposit))
    → sum_of (item_gives a d) (parts_from v i chunks)
      ≡ (if text_eq v.address a then given d (concat chunks) else 0)
unfolding parts_from
parts_from-gives a d v i [] = ground arith
parts_from-gives a d v i (rows ∷ chunks) = ground (
  arith,
  parts_from-gives a d v (suc i) chunks,
  sum_of-append (λ r. if text_eq r.delegator d then r.amount else 0) rows (concat chunks),
)

-- The gas of the parts of at most some rows.
abbrev Small : ℕ → List Item → Type 0
Small n = All (λ it. it.gas ≤ fund_call_gas + fund_row_gas * n)

parts_from-Small :
    (v : Vault) (n i : ℕ) (chunks : List (List Deposit)) (sizes : List ℕ)
    → Sized chunks sizes
    → AtMost n sizes
    → Small n (parts_from v i chunks)
unfolding parts_from
parts_from-Small v n i [] sizes s h = tt
parts_from-Small v n i (rows ∷ chunks) [] s h = absurd s
parts_from-Small v n i (rows ∷ chunks) (size ∷ sizes) s h =
    (omega (arith, s.0, h.0), parts_from-Small v n (suc i) chunks sizes s.1 h.1)

items_of-Members :
    (vaults : List Vault) (n : ℕ) {items : List Item}
    → All IsFundable vaults
    → items_of vaults n ≡ ok items
    → All HasAddresses items
unfolding items_of
items_of-Members [] n f made = subst (All HasAddresses) (ok_injective made) tt
items_of-Members (v ∷ vaults) n f made =
    let (sizes, _, rest_made) = >>=-eq-ok (split_sizes (length v.deposits) n none) _ made in
    let (rest, others, joined) = >>=-eq-ok (items_of vaults n) _ rest_made in
    subst (All HasAddresses) (ok_injective joined) (
      All-append HasAddresses (parts_from v 0 (slices v.deposits sizes)) rest
        (parts_from-Members v 0 (slices v.deposits sizes) (f.0).0
          (All-of-slices (λ r. IsAddress r.delegator) v.deposits sizes (f.0).1))
        (items_of-Members vaults n f.1 others))

-- The parts of the vaults deposit what the vaults do, and are small.
items_of_lem :
    (vaults : List Vault) (n : ℕ) {items : List Item}
    → 0 < n
    → items_of vaults n ≡ ok items
    → ((a d : Bytes) → sum_of (item_gives a d) items ≡ sum_of (vault_gives a d) vaults)
      × Small n items
unfolding items_of
items_of_lem [] n h made =
    subst (λ its. ((a d : Bytes) → sum_of (item_gives a d) its ≡ 0) × Small n its)
      (ok_injective made) (((λ a d. refl), tt))
items_of_lem (v ∷ vaults) n {items} h made =
    let (sizes, sized, rest_made) = >>=-eq-ok (split_sizes (length v.deposits) n none) _ made in
    let (rest, others, joined) = >>=-eq-ok (items_of vaults n) _ rest_made in
    let (expected, computed, sum, small) = split_sizes-total (length v.deposits) n none h tt in
    let same : expected ≡ sizes = ok_injective (sym computed ∙ sized) in
    let fits : (total sizes ≡ length v.deposits) × AtMost n sizes =
      subst (λ s. (total s ≡ length v.deposits) × AtMost n s) same (sum, small) in
    let (whole, each) = slices_lem v.deposits sizes fits.0 in
    let (gives, rest_small) = items_of_lem vaults n h others in
    let parts = parts_from v 0 (slices v.deposits sizes) in
    subst
      (λ its.
        ((a d : Bytes) → sum_of (item_gives a d) its ≡ sum_of (vault_gives a d) (v ∷ vaults))
        × Small n its)
      (ok_injective joined)
      ((
        (λ a d.
            sum_of-append (item_gives a d) parts rest
            ∙ (λ i. parts_from-gives a d v 0 (slices v.deposits sizes) i + gives a d i)
            ∙ ap
                (λ l.
                  (if text_eq v.address a then given d l else 0) + sum_of (vault_gives a d) vaults)
                whole),
        All-append (λ it. it.gas ≤ fund_call_gas + fund_row_gas * n) parts rest
            (parts_from-Small v n 0 (slices v.deposits sizes) sizes each fits.1) rest_small,
      ))

-- A transaction that deposits and approves as its call data says, within the target.
abbrev pub IsFunding : Bytes → Bytes → Bytes → ℕ → PlannedTx → Type 0
IsFunding approve_selector deposit_selector token target tx =
    ArePairs approve_selector deposit_selector token tx.calls × (tx.estimated_gas ≤ target)

module _ (x y token : Bytes) (h : length x ≡ 4) (k : length y ≡ 4)
    (apart : text_eq x y ≡ false) where
  -- A transaction of a bin.
  fund_tx-gives :
      (b : Bin) {tx : PlannedTx}
      → All HasAddresses b.members
      → fund_tx x y token b ≡ ok tx
      → ((a d : Bytes) → tx_gives y a d tx ≡ sum_of (item_gives a d) b.members)
        × ArePairs x y token tx.calls
        × (tx.estimated_gas ≡ fund_base_gas + b.used)
  unfolding fund_tx
  fund_tx-gives b has made =
      let members = sort_by by_validator b.members in
      let (calls, written, joined) = >>=-eq-ok (fund_calls x y token members) _ made in
      let (gives, pairs) =
        fund_calls-gives x y token h k apart members
          (All-sort_by by_validator HasAddresses b.members has) written in
      subst
        (λ tx'.
          ((a d : Bytes) → tx_gives y a d tx' ≡ sum_of (item_gives a d) b.members)
          × ArePairs x y token tx'.calls
          × (tx'.estimated_gas ≡ fund_base_gas + b.used))
        (ok_injective joined)
        (((λ a d. gives a d ∙ sum_of-sort_by by_validator (item_gives a d) b.members), pairs, refl))

  fund_each-gives :
      (target : ℕ) (bins : List Bin) {txs : List PlannedTx}
      → fund_each x y token bins ≡ ok txs
      → Members bins
      → Roomy target bins
      → ((a d : Bytes) → sum_of (tx_gives y a d) txs ≡ in_bins (item_gives a d) bins)
        × All (IsFunding x y token target) txs
  unfolding fund_each
  fund_each-gives target [] made m r =
      subst
        (λ txs.
          ((a d : Bytes) → sum_of (tx_gives y a d) txs ≡ 0) × All (IsFunding x y token target) txs)
        (ok_injective made) (((λ a d. refl), tt))
  fund_each-gives target (b ∷ bins) made m r =
      let (tx, first_made, rest_made) = >>=-eq-ok (fund_tx x y token b) _ made in
      let (txs, others, joined) = >>=-eq-ok (fund_each x y token bins) _ rest_made in
      let (gives, pairs, gas) = fund_tx-gives b m.0 first_made in
      let (rest_gives, rest) = fund_each-gives target bins others m.1 r.1 in
      subst
        (λ txs'.
          ((a d : Bytes) → sum_of (tx_gives y a d) txs' ≡ in_bins (item_gives a d) (b ∷ bins))
          × All (IsFunding x y token target) txs')
        (ok_injective joined)
        ((
          (λ a d. omega (arith, gives a d, rest_gives a d)),
          ((pairs, omega (arith, gas, r.0)), rest),
        ))

lift_fit-ok : {A : Type 0} (r : Result AbiError A) {a : A} → lift_fit r ≡ ok a → r ≡ ok a
unfolding lift_fit
lift_fit-ok (err e) h = cc
lift_fit-ok (ok a) h = ap ok (ok_injective h)

lift_size-ok : {A : Type 0} (r : Result SizeError A) {a : A} → lift_size r ≡ ok a → r ≡ ok a
unfolding lift_size
lift_size-ok (err e) h = cc
lift_size-ok (ok a) h = ap ok (ok_injective h)

-- Where the two selectors are different and of four bytes, the vaults and delegators are addresses,
-- a call has one row at least, and a call of the most rows is within the gas target, the calls of
-- the funding transactions that were planned deposit, as they are decoded, in every vault for every
-- delegator what the deposits of the vault are. The calls of each transaction are pairs of an
-- approval on the token and the deposit that uses up exactly its amount, and its estimated gas is
-- within the target.
pub fund_txs_exact :
    (approve_selector deposit_selector token : Bytes) (vaults : List Vault)
    (gas_target max_rows : ℕ) {txs : List PlannedTx}
    → length approve_selector ≡ 4
    → length deposit_selector ≡ 4
    → text_eq approve_selector deposit_selector ≡ false
    → All IsFundable vaults
    → 0 < max_rows
    → fund_base_gas + (fund_call_gas + fund_row_gas * max_rows) ≤ gas_target
    → fund_txs approve_selector deposit_selector token vaults gas_target max_rows ≡ ok txs
    → ((a d : Bytes) → sum_of (tx_gives deposit_selector a d) txs ≡ sum_of (vault_gives a d) vaults)
      × All (IsFunding approve_selector deposit_selector token gas_target) txs
unfolding fund_txs
fund_txs_exact x y token vaults target n lx ly apart fundable h room made =
    let (items, lifted, rest_made) = >>=-eq-ok (lift_size (items_of vaults n)) _ made in
    let made_items = lift_size-ok (items_of vaults n) lifted in
    let (gives, small) = items_of_lem vaults n h made_items in
    let order = sort_by decreasing items in
    let bins = place_all target order [] in
    let fits : All (λ it. fund_base_gas + it.gas ≤ target) order =
      All-sort_by decreasing (λ it. fund_base_gas + it.gas ≤ target) items
        (All-imp (λ it. it.gas ≤ fund_call_gas + fund_row_gas * n)
          (λ it. fund_base_gas + it.gas ≤ target) items (λ it le. omega (arith, le, room)) small) in
    let has : All HasAddresses order =
      All-sort_by decreasing HasAddresses items (items_of-Members vaults n fundable made_items) in
    let (tx_sum, funding) =
      fund_each-gives x y token lx ly apart target bins
        (lift_fit-ok (fund_each x y token bins) rest_made)
        (place_all-Members target order [] has tt) (place_all-Roomy target order [] fits tt) in
    (
      (λ a d. omega (
        arith,
        tx_sum a d,
        in_bins-place_all (item_gives a d) target order [],
        sum_of-sort_by decreasing (item_gives a d) items,
        gives a d,
      )),
      funding,
    )
