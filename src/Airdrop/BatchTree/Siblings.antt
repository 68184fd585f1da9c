-- ===== src/Airdrop/BatchTree/Siblings.antt =====
-- `idx ^ 1` swaps the two nodes of each pair.
use Prim.Native.Nat.{digits, differ, bit_xor-bitwise}
use harmony_migration.Base.{
  ℕ, zero, suc, ◌+◌, ◌-◌, ◌/◌, ◌%◌, ◌≤◌, ◌≡◌, refl, arith, ◌==◌, if◌then◌else◌,
}
use harmony_migration.Airdrop.BatchTree.{sibling}

abbrev xor_digits : ℕ → ℕ → ℕ → ℕ
xor_digits n a b = digits (λ b. b) differ n a b

differ-zero : (x : ℕ) → differ x 0 ≡ x
differ-zero zero = refl
differ-zero (suc x) = refl

xor_digits-zero : (n a : ℕ) → a ≤ n → xor_digits n a 0 ≡ a
xor_digits-zero zero zero h = refl
xor_digits-zero zero (suc a) h = absurd (omega arith)
xor_digits-zero (suc n) zero h = refl
xor_digits-zero (suc n) (suc a) h =
    ground (arith, xor_digits-zero n (suc a / 2) (omega arith), differ-zero (suc a % 2))

pub sibling_lem : (i : ℕ) → sibling i ≡ (if i % 2 == 0 then i + 1 else i - 1)
unfolding sibling
sibling_lem zero = refl
sibling_lem (suc i) =
    grind (arith, bit_xor-bitwise (suc i) 1, xor_digits-zero i (suc i / 2) (omega arith))
