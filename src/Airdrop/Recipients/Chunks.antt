-- ===== src/Airdrop/Recipients/Chunks.antt =====
-- The batches of a list.
use harmony_migration.Base.{
  ℕ, zero, suc, ◌≤◌, ◌<◌, ◌≡◌, refl, ap, ◌∙◌, List, [], ◌∷◌, ◌++◌, arith, length, take, drop, All,
  take-append-drop, length-take, length-drop,
}
use harmony_migration.Airdrop.Recipients.{chunk_from, chunk}

-- The lists of a list, joined.
abbrev pub concat {ℓ} : {A : Type ℓ} → List (List A) → List A
concat [] = []
concat (xs ∷ xss) = xs ++ concat xss

chunk_from_lem {ℓ} :
    {A : Type ℓ} (fuel size : ℕ) (rows : List A)
    → 0 < size
    → length rows ≤ fuel
    → (concat (chunk_from fuel size rows) ≡ rows)
      × All (λ b. (0 < length b) × (length b ≤ size)) (chunk_from fuel size rows)
unfolding chunk_from
chunk_from_lem zero size [] h f = (refl, tt)
chunk_from_lem zero size (row ∷ rows) h f = absurd (omega arith)
chunk_from_lem (suc fuel) size [] h f = (refl, tt)
chunk_from_lem (suc fuel) size (row ∷ rows) h f =
    let (joined, sizes) =
      chunk_from_lem fuel size (drop size (row ∷ rows)) h
        (omega (arith, length-drop size (row ∷ rows))) in
    (
      ap (λ r. take size (row ∷ rows) ++ r) joined ∙ take-append-drop size (row ∷ rows),
      (
        (
          omega (arith, length-take size (row ∷ rows)),
          omega (arith, length-take size (row ∷ rows)),
        ),
        sizes,
      ),
    )

-- The batches of a list are the list cut in order, and each has at least one row and at most the
-- given number.
pub chunk_partition {ℓ} :
    {A : Type ℓ} (rows : List A) (size : ℕ)
    → 0 < size
    → (concat (chunk rows size) ≡ rows)
      × All (λ b. (0 < length b) × (length b ≤ size)) (chunk rows size)
unfolding chunk
chunk_partition rows size h = chunk_from_lem (length rows) size rows h (omega arith)
