-- ===== src/Base/Keys.antt =====
-- Further ordered keys: numbers, integers, and tuples, which Python compares part by part.
use mathlib.Core.Path.{◌≡◌}
use mathlib.Core.Bool.{Bool, true, false}
use Prim.Native.Nat.{ℕ}
use native.Mathlib.Omega.{arith}
use harmony_migration.Base.Tests.{ltb, ◌==◌, if◌then◌else◌}
use harmony_migration.Base.Int.{ℤ, ltb_ℤ, eqb_ℤ}
use harmony_migration.Base.Order.{Ordered}

pub nat_eq_sound : (a b : ℕ) → (a == b) ≡ true → a ≡ b
nat_eq_sound a b h = ground arith

pub nat_eq_refl : (a : ℕ) → (a == a) ≡ true
nat_eq_refl a = ground arith

pub nat_lt_irrefl : (a : ℕ) → ltb a a ≡ false
nat_lt_irrefl a = ground arith

pub nat_lt_trans : (a b c : ℕ) → ltb a b ≡ true → ltb b c ≡ true → ltb a c ≡ true
nat_lt_trans a b c h k = ground arith

pub nat_lt_total : (a b : ℕ) → ltb a b ≡ false → ltb b a ≡ false → a ≡ b
nat_lt_total a b h k = ground arith

instance abbrev pub nat_ordered : Ordered ℕ
nat_ordered = record {
  lt = ltb;
  eq = ◌==◌;
  eq_sound = nat_eq_sound;
  eq_refl = nat_eq_refl;
  lt_irrefl = nat_lt_irrefl;
  lt_trans = nat_lt_trans;
  lt_total = nat_lt_total;
}

pub int_eq_sound : (a b : ℤ) → eqb_ℤ a b ≡ true → a ≡ b
int_eq_sound a b h = ground arith

pub int_eq_refl : (a : ℤ) → eqb_ℤ a a ≡ true
int_eq_refl a = ground arith

pub int_lt_irrefl : (a : ℤ) → ltb_ℤ a a ≡ false
int_lt_irrefl a = ground arith

pub int_lt_trans : (a b c : ℤ) → ltb_ℤ a b ≡ true → ltb_ℤ b c ≡ true → ltb_ℤ a c ≡ true
int_lt_trans a b c h k = ground arith

pub int_lt_total : (a b : ℤ) → ltb_ℤ a b ≡ false → ltb_ℤ b a ≡ false → a ≡ b
int_lt_total a b h k = ground arith

instance abbrev pub int_ordered : Ordered ℤ
int_ordered = record {
  lt = ltb_ℤ;
  eq = eqb_ℤ;
  eq_sound = int_eq_sound;
  eq_refl = int_eq_refl;
  lt_irrefl = int_lt_irrefl;
  lt_trans = int_lt_trans;
  lt_total = int_lt_total;
}

module _ {ℓ κ} {A : Type ℓ} {B : Type κ} ⦃a : Ordered A⦄ ⦃b : Ordered B⦄ where
  abbrev pub pair_lt : A × B → A × B → Bool
  pair_lt (x, y) (x', y') = if a.lt x x' then true else if a.eq x x' then b.lt y y' else false

  abbrev pub pair_eq : A × B → A × B → Bool
  pair_eq (x, y) (x', y') = if a.eq x x' then b.eq y y' else false

  pub pair_eq_sound : (p q : A × B) → pair_eq p q ≡ true → p ≡ q
  pair_eq_sound (x, y) (x', y') h = ground (arith, a.eq_sound x x', b.eq_sound y y')

  pub pair_eq_refl : (p : A × B) → pair_eq p p ≡ true
  pair_eq_refl (x, y) = ground (arith, a.eq_refl x, b.eq_refl y)

  pub pair_lt_irrefl : (p : A × B) → pair_lt p p ≡ false
  pair_lt_irrefl (x, y) = ground (arith, a.lt_irrefl x, a.eq_refl x, b.lt_irrefl y)

  pub pair_lt_trans : (p q r : A × B) → pair_lt p q ≡ true → pair_lt q r ≡ true → pair_lt p r ≡ true
  pair_lt_trans (x, y) (x', y') (x'', y'') h k = ground (
    arith,
    a.lt_trans x x' x'',
    b.lt_trans y y' y'',
    a.eq_sound x x',
    a.eq_sound x' x'',
    a.eq_refl x,
  )

  pub pair_lt_total : (p q : A × B) → pair_lt p q ≡ false → pair_lt q p ≡ false → p ≡ q
  pair_lt_total (x, y) (x', y') h k =
      ground (arith, a.lt_total x x', b.lt_total y y', a.eq_refl x, a.eq_refl x')

  instance abbrev pub pair_ordered : Ordered (A × B)
  pair_ordered = record {
    lt = pair_lt;
    eq = pair_eq;
    eq_sound = pair_eq_sound;
    eq_refl = pair_eq_refl;
    lt_irrefl = pair_lt_irrefl;
    lt_trans = pair_lt_trans;
    lt_total = pair_lt_total;
  }
