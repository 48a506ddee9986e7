-- ===== src/KernelList/Sort.antt =====
-- list.c: list_sort, which merges neighbouring runs until one run is left.
use buaa755os.Base.{
  ℕ, zero, suc, Bool, true, false, Option, none, some, List, [], ◌∷◌, ◌++◌, length, if◌then◌else◌,
  ltb, ◌>>=◌, ◌>>◌, assert,
}

module _ {ℓ} {A : Type ℓ} where
  -- The loop of is_sorted, behind an element.
  unfoldable pub sorted_from : (A → A → Bool) → A → List A → Bool
  sorted_from less a [] = true
  sorted_from less a (e ∷ es) = if less e a then false else sorted_from less e es

  unfoldable pub is_sorted : (A → A → Bool) → List A → Bool
  unfolding sorted_from
  is_sorted less [] = true
  is_sorted less (x ∷ xs) = sorted_from less x xs

  -- The loop of find_end_of_run, behind an element: what belongs to its run, and the rest.
  unfoldable pub run_from : (A → A → Bool) → A → List A → List A × List A
  run_from less a [] = ([], [])
  run_from less a (e ∷ es) =
      let r = run_from less e es in if less e a then ([], e ∷ es) else (e ∷ r.0, r.1)

  unfoldable pub find_end_of_run : (A → A → Bool) → List A → Option (List A × List A)
  unfolding run_from
  find_end_of_run less [] = none
  find_end_of_run less (x ∷ xs) = let r = run_from less x xs in some (x ∷ r.0, r.1)

  -- The loop of inplace_merge: the elements between a0 and a1b0, and those between a1b0 and b1.
  unfoldable pub merge : (A → A → Bool) → List A → List A → List A
  merge less [] ys = ys
  merge less (x ∷ xs) [] = x ∷ xs
  merge less (x ∷ xs) (y ∷ ys) = elim (less y x) [
    | true ↦ y ∷ merge less (x ∷ xs) ys
    | false ↦ x ∷ merge less xs (y ∷ ys)
  ]

  unfoldable pub inplace_merge : (A → A → Bool) → List A → List A → Option (List A)
  inplace_merge less xs ys =
      assert (is_sorted less xs) >> (assert (is_sorted less ys) >> some (merge less xs ys))

  -- What a round of a pass does with the first run and the elements behind it; `rest` is the rest
  -- of the pass.
  unfoldable pub merge_next :
      (A → A → Bool) → List A → List A → (List A → Option (ℕ × List A)) → Option (ℕ × List A)
  merge_next less run [] rest = some (1, run)
  merge_next less run (y ∷ ys) rest = find_end_of_run less (y ∷ ys) >>= λ second.
      inplace_merge less run second.0 >>= λ merged.
      rest second.1 >>= λ r. some (suc r.0, merged ++ r.1)

  -- One pass: how many runs it put out, and the list after it. A round uses up elements, so that the
  -- length of the list bounds the rounds.
  unfoldable pub pass : (A → A → Bool) → ℕ → List A → Option (ℕ × List A)
  pass less n [] = some (0, [])
  pass less zero (x ∷ xs) = none
  pass less (suc n) (x ∷ xs) = find_end_of_run less (x ∷ xs) >>= λ first.
      merge_next less first.0 first.1 (λ ys. pass less n ys)

  -- The passes, on fuel.
  unfoldable pub passes : (A → A → Bool) → ℕ → List A → Option (List A)
  passes less zero xs = none
  passes less (suc n) xs = pass less (length xs) xs >>= λ r.
      if ltb 1 r.0 then passes less n r.1 else assert (is_sorted less r.1) >> some r.1

  unfoldable pub list_sort : (A → A → Bool) → List A → Option (List A)
  list_sort less xs = passes less (suc (length xs)) xs
