-- ===== src/Routing/Compile/Conservation.antt =====
-- The rows of a claim add up to the claim.
use mathlib.Core.Path.{subst}
use native.Mathlib.Decide.{dec_le}
use harmony_migration.Base.{
  ℕ, suc, ◌+◌, ◌≤◌, ◌≡◌, ◌⊎◌, some, Option-cases, true, false, refl, sym, ap, ◌∙◌, inl, inr, List,
  [], ◌∷◌, map, arith, sum_of, sum_of-append, Result, ok, err, ok_injective, >>=-eq-ok, raise_if,
  Text, Bool, Bool-cases, if◌then◌else◌,
}
use Prim.Native.Nat.{min}
use harmony_migration.Base.Int.{ℤ, pos, negsuc, pos_part, neg_part, ltb_ℤ, eqb_ℤ}
use harmony_migration.Base.Keys.{int_eq_sound}
use harmony_migration.Routing.ProRata.{Position, RateError, pro_rata}
use harmony_migration.Routing.ProRata.Totality.{total_remaining, pro_rata_total, pro_rata_exceeds}
use harmony_migration.Routing.Compile.{
  CompileError, exceeds_wallet, Amount, all_left, shard0_liquid, fixed, left_after, rate_amount,
  Method, Route, Claim, Compiled, WalletRow, ShareRow, exceeds_remaining, compiles_to_zero,
  Progress, route_treatment, append_wallet, append_shares, lift_rate, asked, split, take_route,
  take_routes, default_route, compile_claim, vault_only_pro_rata, wallet_only,
  wallet_first_pro_rata_vault,
}

-- What the wallet rows pay, and what the negative ones among them take back.
abbrev pub wallet_total : List WalletRow → ℕ
wallet_total = sum_of (λ r. pos_part r.wallet_airdrop_atto)

abbrev pub wallet_debt : List WalletRow → ℕ
wallet_debt = sum_of (λ r. neg_part r.wallet_airdrop_atto)

-- A claim whose liquid balance on shard 0 is given as a negative number.
abbrev pub HasNegativeLiquid : Claim → Type 0
HasNegativeLiquid claim = (n : ℕ) × (claim.liquid_shard0 ≡ some (negsuc n))

abbrev pub share_total : List ShareRow → ℕ
share_total = sum_of (λ r. r.staked_to_vault_atto)

-- Any answer of `pro_rata` takes exactly the amount.
pub pro_rata_takes :
    (amount : ℕ) (positions left : List Position) (taken : List (Position × ℕ))
    → pro_rata amount positions ≡ ok (left, taken)
    → (sum_of (λ (p, share). share) taken ≡ amount)
      × (total_remaining left + amount ≡ total_remaining positions)
pro_rata_takes amount positions left taken e = elim (dec_le amount (total_remaining positions)) [
  | yes h ↦
      let (l, t, e', s, r) = pro_rata_total amount positions h in
      let same = ok_injective (sym e' ∙ e) in
      (
        subst (λ x. sum_of (λ (p, share). share) x.1 ≡ amount) same s,
        subst (λ x. total_remaining x.0 + amount ≡ total_remaining positions) same r,
      )
  | no h ↦
      let refused = pro_rata_exceeds amount positions (omega arith) in
      (cc (refused, e), cc (refused, e))
]

-- An integer of at most a number.
abbrev Fits : ℕ → ℤ → Type 0
Fits n (pos a) = a ≤ n
Fits n (negsuc a) = Unit

min_le : (a b : ℕ) → min a b ≤ a
min_le a b = omega arith

not_more : (n : ℕ) (amount : ℤ) → ltb_ℤ (pos n) amount ≡ false → Fits n amount
not_more n (pos a) h = ground arith
not_more n (negsuc a) h = tt

else_ok {ℓ} :
    {A : Type ℓ} (b : Bool) (x : CompileError) (y : A) {z : A}
    → (if b then err x else ok y) ≡ ok z
    → (b ≡ false) × (y ≡ z)
else_ok true x y h = cc
else_ok false x y h = (refl, ok_injective h)

split_parts :
    (m : Method) (wallet : ℕ) (amount a b : ℤ)
    → split m wallet amount ≡ ok (a, b)
    → Fits wallet a × (neg_part a ≤ neg_part amount)
unfolding split
split_parts wallet_first_pro_rata_vault wallet (pos n) a b e =
    subst (λ x. Fits wallet (x.0) × (neg_part (x.0) ≤ 0)) (ok_injective e)
      ((min_le wallet n, omega arith))
split_parts wallet_first_pro_rata_vault wallet (negsuc n) a b e =
    subst (λ x. Fits wallet (x.0) × (neg_part (x.0) ≤ suc n)) (ok_injective e) ((tt, omega arith))
split_parts wallet_only wallet amount a b e =
    let (fits, same) = else_ok (ltb_ℤ (pos wallet) amount) exceeds_wallet (amount, pos 0) e in
    subst (λ x. Fits wallet (x.0) × (neg_part (x.0) ≤ neg_part amount)) same
      ((not_more wallet amount fits, omega arith))
split_parts vault_only_pro_rata wallet amount a b e =
    subst (λ x. Fits wallet (x.0) × (neg_part (x.0) ≤ neg_part amount)) (ok_injective e)
      ((omega arith, omega arith))

left_after_parts :
    (wallet : ℕ) (a : ℤ) → Fits wallet a → left_after wallet a + pos_part a ≡ wallet + neg_part a
left_after_parts wallet (pos a) h = omega arith
left_after_parts wallet (negsuc a) h = omega arith

-- A negative amount is that of the liquid balance.
asked_parts :
    (claim : Claim) (n : ℕ) (amount : Amount) {z : ℤ}
    → asked claim n amount ≡ ok z
    → (neg_part z ≡ 0) ⊎ HasNegativeLiquid claim
unfolding asked
asked_parts claim n all_left e = inl (ap neg_part (sym (ok_injective e)))
asked_parts claim n shard0_liquid {z = z} e = elim (Option-cases claim.liquid_shard0) [
  | inl f ↦ cc (rw f at e)
  | inr (y, f) ↦ go y f (ok_injective (rw f at e))
]
  where
    go : (y : ℤ) → claim.liquid_shard0 ≡ some y → y ≡ z → (neg_part z ≡ 0) ⊎ HasNegativeLiquid claim
    go (pos a) f same = inl (ap neg_part (sym same))
    go (negsuc a) f same = inr (a, f)
asked_parts claim n (fixed a) e = inl (ap neg_part (sym (ok_injective e)))

wallet_total-append_wallet :
    (rows : List WalletRow) (claim : Claim) (amount : ℤ) (c : Compiled)
    → (wallet_total (append_wallet rows claim amount c) ≡ wallet_total rows + pos_part amount)
      × (wallet_debt (append_wallet rows claim amount c) ≡ wallet_debt rows + neg_part amount)
unfolding append_wallet
wallet_total-append_wallet rows claim amount c = elim (Bool-cases (eqb_ℤ amount (pos 0))) [
  | inl none_left ↦
      let same = int_eq_sound amount (pos 0) none_left in
      let paid = ap pos_part same in
      let debt = ap neg_part same in rw none_left ((omega (arith, paid), omega (arith, debt)))
  | inr some_left ↦
      let row : WalletRow = record {
        source_secure_key = claim.key;
        wallet_airdrop_atto = amount;
        by = c;
      } in
      rw some_left (
        (
          omega (arith, sum_of-append (λ r. pos_part r.wallet_airdrop_atto) rows (row ∷ [])),
          omega (arith, sum_of-append (λ r. neg_part r.wallet_airdrop_atto) rows (row ∷ [])),
        ))
]

share_total-append_shares :
    (rows : List ShareRow) (taken : List (Position × ℕ)) (c : Compiled)
    → share_total (append_shares rows taken c)
      ≡ share_total rows + sum_of (λ (p, share). share) taken
unfolding append_shares
share_total-append_shares rows taken c =
    sum_of-append (λ r. r.staked_to_vault_atto) rows _
    ∙ ap (λ n. share_total rows + n) (listed taken)
  where
    listed :
        (t : List (Position × ℕ))
        → share_total (
            map
              (λ (p, share). record {
                validator_secure_key = p.validator_secure_key;
                staked_to_vault_atto = share;
                by = c;
              })
              t)
          ≡ sum_of (λ (p, share). share) t
    listed [] = refl
    listed ((p, share) ∷ t) = omega (arith, listed t)

-- What the rows hold and what is left add up to the claim, and no row is negative but for a
-- negative liquid balance.
abbrev pub Conserves : Claim → ℕ → Progress → Type 0
Conserves claim staked s =
    (s.wallet_remaining + wallet_total s.wallet_rows ≡ claim.wallet + wallet_debt s.wallet_rows)
    × (total_remaining s.positions + share_total s.share_rows ≡ staked)
    × ((wallet_debt s.wallet_rows ≡ 0) ⊎ HasNegativeLiquid claim)

lift_rate-eq-ok : {A : Type 0} (r : Result RateError A) {a : A} → lift_rate r ≡ ok a → r ≡ ok a
unfolding lift_rate
lift_rate-eq-ok (ok a) e = ap ok (ok_injective e)
lift_rate-eq-ok (err x) e = cc

-- An amount that is shared out among the positions.
rate_amount_takes :
    (amount : ℤ) (positions left : List Position) (taken : List (Position × ℕ))
    → rate_amount amount positions ≡ ok (left, taken)
    → total_remaining left + sum_of (λ (p, share). share) taken ≡ total_remaining positions
unfolding rate_amount
rate_amount_takes (pos a) positions left taken e =
    let (t, r) = pro_rata_takes a positions left taken (lift_rate-eq-ok (pro_rata a positions) e) in
    omega (arith, t, r)
rate_amount_takes (negsuc a) positions left taken e = cc

routed-Conserves :
    (staked : ℕ) (claim : Claim) (s : Progress) (c : Compiled) (wallet_amount vault_amount : ℤ)
    (left : List Position) (taken : List (Position × ℕ))
    → Fits s.wallet_remaining wallet_amount
    → (neg_part wallet_amount ≡ 0) ⊎ HasNegativeLiquid claim
    → rate_amount vault_amount s.positions ≡ ok (left, taken)
    → Conserves claim staked s
    → Conserves claim staked (record {
      wallet_remaining = left_after s.wallet_remaining wallet_amount;
      positions = left;
      wallet_rows = append_wallet s.wallet_rows claim wallet_amount c;
      share_rows = append_shares s.share_rows taken c;
    })
routed-Conserves staked claim s c wallet_amount vault_amount left taken fits negative e
      (kept, shared, debts) =
    let r = rate_amount_takes vault_amount s.positions left taken e in
    let (paid, owed) = wallet_total-append_wallet s.wallet_rows claim wallet_amount c in
    let rest = left_after_parts s.wallet_remaining wallet_amount fits in
    (
      omega (arith, paid, owed, rest, kept),
      omega (arith, share_total-append_shares s.share_rows taken c, r, shared),
      both s.wallet_rows debts negative,
    )
  where
    both :
        (rows : List WalletRow)
        → (wallet_debt rows ≡ 0) ⊎ HasNegativeLiquid claim
        → (neg_part wallet_amount ≡ 0) ⊎ HasNegativeLiquid claim
        → (wallet_debt (append_wallet rows claim wallet_amount c) ≡ 0) ⊎ HasNegativeLiquid claim
    both rows (inl d) (inl n) =
        inl (omega (arith, d, n, (wallet_total-append_wallet rows claim wallet_amount c).1))
    both rows (inl d) (inr n) = inr n
    both rows (inr d) n = inr d

take_route-Conserves :
    (staked : ℕ) (claim : Claim) (route : Route) (s s' : Progress)
    → take_route claim route s ≡ ok s'
    → Conserves claim staked s
    → Conserves claim staked s'
unfolding take_route
take_route-Conserves staked claim route s s' e h =
    let remaining_total = s.wallet_remaining + total_remaining s.positions in
    let (treatment, _, e1) = >>=-eq-ok (route_treatment route) _ e in
    let (amount, asks, e2) = >>=-eq-ok (asked claim remaining_total route.amount) _ e1 in
    let (_, _, e3) =
      >>=-eq-ok (raise_if (ltb_ℤ (pos remaining_total) amount) exceeds_remaining) _ e2 in
    let (_, _, e4) = >>=-eq-ok (raise_if (eqb_ℤ amount (pos 0)) compiles_to_zero) _ e3 in
    let ((wallet_amount, vault_amount), parts, e5) =
      >>=-eq-ok (split route.method s.wallet_remaining amount) _ e4 in
    let ((left, taken), rated, e6) = >>=-eq-ok (rate_amount vault_amount s.positions) _ e5 in
    let (fits, below) =
      split_parts route.method s.wallet_remaining amount wallet_amount vault_amount parts in
    let negative : (neg_part wallet_amount ≡ 0) ⊎ HasNegativeLiquid claim =
      elim (asked_parts claim remaining_total route.amount asks) [
        | inl n ↦ inl (omega (arith, n, below))
        | inr n ↦ inr n
      ] in
    subst (Conserves claim staked) (ok_injective e6) (
      routed-Conserves staked claim s _ wallet_amount vault_amount left taken fits negative rated h)

take_routes-Conserves :
    (staked : ℕ) (claim : Claim) (routes : List Route) (s s' : Progress)
    → take_routes claim routes s ≡ ok s'
    → Conserves claim staked s
    → Conserves claim staked s'
unfolding take_routes
take_routes-Conserves staked claim [] s s' e h = subst (Conserves claim staked) (ok_injective e) h
take_routes-Conserves staked claim (route ∷ routes) s s' e h =
    let (s1, e1, e2) = >>=-eq-ok (take_route claim route s) (take_routes claim routes) e in
    take_routes-Conserves staked claim routes s1 s' e2
      (take_route-Conserves staked claim route s s1 e1 h)

-- Where no row exists yet.
abbrev pub start : Claim → List Position → Progress
start claim positions = record {
  wallet_remaining = claim.wallet;
  positions = positions;
  wallet_rows = [];
  share_rows = [];
}

-- The rows of a compiled claim.
abbrev pub IsClosed : Claim → List Position → Progress → Type 0
IsClosed claim positions s =
    (wallet_total s.wallet_rows ≡ claim.wallet + wallet_debt s.wallet_rows)
    × (share_total s.share_rows ≡ total_remaining positions)
    × (total_remaining s.positions ≡ 0)
    × ((wallet_debt s.wallet_rows ≡ 0) ⊎ HasNegativeLiquid claim)

defaulted-IsClosed :
    (claim : Claim) (positions : List Position) (s : Progress) (c : Compiled) (left : List Position)
    (taken : List (Position × ℕ))
    → pro_rata (total_remaining s.positions) s.positions ≡ ok (left, taken)
    → Conserves claim (total_remaining positions) s
    → IsClosed claim positions (record {
      wallet_remaining = s.wallet_remaining;
      positions = left;
      wallet_rows = append_wallet s.wallet_rows claim (pos s.wallet_remaining) c;
      share_rows = append_shares s.share_rows taken c;
    })
defaulted-IsClosed claim positions s c left taken e (kept, shared, debts) =
    let (t, r) = pro_rata_takes (total_remaining s.positions) s.positions left taken e in
    let (paid, owed) = wallet_total-append_wallet s.wallet_rows claim (pos s.wallet_remaining) c in
    (
      omega (arith, paid, owed, kept),
      omega (arith, share_total-append_shares s.share_rows taken c, t, shared),
      omega (arith, r),
      (elim debts [ inl d ↦ inl (omega (arith, d, owed)) | inr n ↦ inr n ]),
    )

-- Whatever the routes of a claim are, if they compile, then the wallet rows of the claim add up to
-- its wallet amount, negative rows taken off, its share rows add up to its vault positions, and no
-- position keeps anything. A wallet row is negative only where the claim's liquid balance on shard
-- 0, which is read without a test of its sign, is negative.
pub compile_claim_conserves :
    (to_checksum : Text → Text) (validator_accounts : Text) (claim : Claim) (routes : List Route)
    (positions : List Position) (s : Progress)
    → compile_claim to_checksum validator_accounts claim routes (start claim positions) ≡ ok s
    → IsClosed claim positions s
unfolding compile_claim
compile_claim_conserves to_checksum validator_accounts claim routes positions s e =
    let (s1, e1, e2) = >>=-eq-ok (take_routes claim routes (start claim positions)) _ e in
    let ((left, taken), rated, e3) =
      >>=-eq-ok (lift_rate (pro_rata (total_remaining s1.positions) s1.positions)) _ e2 in
    let kept =
      take_routes-Conserves (total_remaining positions) claim routes (start claim positions) s1 e1
        (omega arith, omega arith, inl refl) in
    subst (IsClosed claim positions) (ok_injective e3) (
      defaulted-IsClosed claim positions s1 (default_route to_checksum validator_accounts claim)
        left taken (lift_rate-eq-ok (pro_rata (total_remaining s1.positions) s1.positions) rated)
        kept)
