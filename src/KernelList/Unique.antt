-- ===== src/KernelList/Unique.antt =====
-- list.c: what list_unique leaves.
use buaa755os.Base.{
  ◌+◌, ◌≡◌, refl, Bool, true, false, not, ◌&&◌, ◌||◌, List, [], ◌∷◌, ◌++◌, length, arith,
  Bool-cases, inl, inr,
}
use buaa755os.KernelList.{unique_from, list_unique}

-- Each element differs from the one behind it.
abbrev pub AdjacentDiffer {ℓ} : {A : Type ℓ} → (A → A → Bool) → A → List A → Type 0
AdjacentDiffer less x [] = Unit
AdjacentDiffer less x (y ∷ ys) = (less x y || less y x ≡ true) × AdjacentDiffer less y ys

module _ {ℓ} {A : Type ℓ} (less : A → A → Bool) where
  differ : (a b : Bool) → not a && not b ≡ false → a || b ≡ true
  differ true b h = refl
  differ false true h = refl
  differ false false h = cc

  unique_from_lem :
      (x : A) (xs : List A)
      → AdjacentDiffer less x (unique_from less x xs).0
        × (length (unique_from less x xs).0 + length (unique_from less x xs).1 ≡ length xs)
  unfolding unique_from
  unique_from_lem x [] = (tt, refl)
  unique_from_lem x (y ∷ ys) = elim (Bool-cases (not (less x y) && not (less y x))) [
    | inl equal ↦ let (d, n) = unique_from_lem x ys in rw equal (d, omega (arith, n))
    | inr other ↦
        let (d, n) = unique_from_lem y ys in
        rw other ((differ (less x y) (less y x) other, d), omega (arith, n))
  ]

  -- list_unique of a list that is not empty keeps its first element, leaves no two neighbours that
  -- are equal by LESS, and appends to the duplicates as many elements as it
  -- drops from the list.
  pub list_unique_lem :
      (x : A) (xs duplicates : List A)
      → (kept : List A) × (removed : List A) × (list_unique less (x ∷ xs) duplicates
          ≡ (x ∷ kept, duplicates ++ removed))
        × AdjacentDiffer less x kept
        × (length kept + length removed ≡ length xs)
  unfolding list_unique
  list_unique_lem x xs duplicates =
      let (d, n) = unique_from_lem x xs in
      ((unique_from less x xs).0, (unique_from less x xs).1, refl, d, n)
