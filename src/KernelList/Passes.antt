-- ===== src/KernelList/Passes.antt =====
-- list.c: the passes of list_sort end, with the elements of the list in order.
use mathlib.Core.Path.{subst}
use mathlib.Core.List.{Perm, append_assoc, append-nil}
use mathlib.Core.List.Perm
use buaa755os.Base.{
  ℕ, zero, suc, ◌+◌, ◌/◌, ◌≤◌, ◌<◌, ◌≡◌, refl, Bool, true, false, Option, some, List, [], ◌∷◌, ◌++◌,
  length, length-append, ltb, arith, Bool-cases, inl, inr, sym, ap, ◌∙◌,
}
use buaa755os.KernelList.Sort.{
  is_sorted, run_from, find_end_of_run, merge, inplace_merge, merge_next, pass, passes, list_sort,
}
use buaa755os.KernelList.Sorted.{
  runs, runs-append, runs-sorted, sorted-runs, runs_le, run_from-sorted, run_from-append,
  run_from-runs, merge-IsSorted, merge-perm,
}

module _ {ℓ} {A : Type ℓ} (less : A → A → Bool)
    (asym : (a b : A) → less a b ≡ true → less b a ≡ false) where
  -- A pass returns the same elements, with at most as many runs as it counts, and it counts at most
  -- half of the bound, rounded down.
  PassResult : Option (ℕ × List A) → ℕ → List A → Type ℓ
  PassResult o bound xs =
      (c : ℕ) × (out : List A) × (o ≡ some (c, out))
      × (c ≤ bound / 2)
      × (runs less out ≤ c)
      × Perm xs out

  merge_next_lem :
      (run zs : List A) (rest : List A → Option (ℕ × List A))
      → is_sorted less run ≡ true
      → ((ws : List A) → length ws < length zs → PassResult (rest ws) (runs less ws + 1) ws)
      → PassResult (merge_next less run zs rest) (runs less zs + 2) (run ++ zs)
  unfolding PassResult merge_next runs find_end_of_run inplace_merge is_sorted
  merge_next_lem run [] rest s f = (
    1,
    run,
    refl,
    omega arith,
    runs-sorted less run s,
    subst (λ xs. Perm xs run) (sym (append-nil run)) (Perm.refl run),
  )
  merge_next_lem run (y ∷ ys) rest s f = go (f ws short)
    where
      second : List A
      second = y ∷ (run_from less y ys).0

      ws : List A
      ws = (run_from less y ys).1

      merged : List A
      merged = merge less run second

      second-sorted : is_sorted less second ≡ true
      second-sorted = run_from-sorted less y ys

      short : length ws < length (y ∷ ys)
      short =
          omega
            (arith, length-append (run_from less y ys).0 ws, ap length (run_from-append less y ys))

      go :
          PassResult (rest ws) (runs less ws + 1) ws
          → PassResult (merge_next less run (y ∷ ys) rest) (runs less (y ∷ ys) + 2) (run ++ y ∷ ys)
      go (c, out, e, half, few, perm) = (
        suc c,
        merged ++ out,
        rw s (rw second-sorted (rw e refl)),
        omega (arith, run_from-runs less y ys),
        omega (
          arith,
          runs-append less merged out,
          runs-sorted less merged (merge-IsSorted less asym run second s second-sorted),
        ),
        subst (λ zs. Perm zs (merged ++ out))
            (append_assoc run second ws ∙ ap (λ zs. run ++ y ∷ zs) (run_from-append less y ys))
            (Perm.append (merge-perm less run second) perm),
      )

  pass_lem :
      (n : ℕ) (xs : List A) → length xs ≤ n → PassResult (pass less n xs) (runs less xs + 1) xs
  unfolding PassResult pass runs find_end_of_run is_sorted
  pass_lem zero [] h = (0, [], refl, omega arith, omega arith, Perm.refl [])
  pass_lem (suc n) [] h = (0, [], refl, omega arith, omega arith, Perm.refl [])
  pass_lem zero (x ∷ xs) h = absurd (omega arith)
  pass_lem (suc n) (x ∷ xs) h = go (
      merge_next_lem (x ∷ first) behind (λ ws. pass less n ws) first-sorted
        (λ ws short. pass_lem n ws (fits ws short)))
    where
      first : List A
      first = (run_from less x xs).0

      behind : List A
      behind = (run_from less x xs).1

      first-sorted : is_sorted less (x ∷ first) ≡ true
      first-sorted = run_from-sorted less x xs

      fits : (ws : List A) → length ws < length behind → length ws ≤ n
      fits ws short =
          omega (arith, length-append first behind, ap length (run_from-append less x xs))

      go :
          PassResult
            (merge_next less (x ∷ first) behind (λ ws. pass less n ws))
            (runs less behind + 2)
            (x ∷ first ++ behind)
          → PassResult (pass less (suc n) (x ∷ xs)) (runs less (x ∷ xs) + 1) (x ∷ xs)
      go (c, out, e, half, few, perm) = (
        c,
        out,
        e,
        omega (arith, run_from-runs less x xs),
        few,
        subst (λ zs. Perm (x ∷ zs) out) (run_from-append less x xs) perm,
      )

  Sorts : Option (List A) → List A → Type ℓ
  Sorts o xs = (out : List A) × (o ≡ some out) × (is_sorted less out ≡ true) × Perm xs out

  -- The last pass.
  last_pass :
      (n : ℕ) (xs : List A) (c : ℕ) (out : List A)
      → pass less (length xs) xs ≡ some (c, out)
      → ltb 1 c ≡ false
      → runs less out ≤ c
      → Perm xs out
      → Sorts (passes less (suc n) xs) xs
  unfolding Sorts passes
  last_pass n xs c out e one few perm =
      let s = sorted-runs less out (ground arith) in (out, rw e (rw one (rw s refl)), s, perm)

  -- One more pass halves the runs.
  passes_lem : (n : ℕ) (xs : List A) → runs less xs ≤ suc n → Sorts (passes less (suc n) xs) xs
  unfolding Sorts passes PassResult
  passes_lem zero xs h = go (pass_lem (length xs) xs (omega arith))
    where
      go : PassResult (pass less (length xs) xs) (runs less xs + 1) xs → Sorts (passes less 1 xs) xs
      go (c, out, e, half, few, perm) = last_pass zero xs c out e (ground arith) few perm
  passes_lem (suc n) xs h =
      go (pass_lem (length xs) xs (omega arith)) (λ ys fits. passes_lem n ys fits)
    where
      go :
          PassResult (pass less (length xs) xs) (runs less xs + 1) xs
          → ((ys : List A) → runs less ys ≤ suc n → Sorts (passes less (suc n) ys) ys)
          → Sorts (passes less (suc (suc n)) xs) xs
      go (c, out, e, half, few, perm) f = elim (Bool-cases (ltb 1 c)) [
        | inr one ↦ last_pass (suc n) xs c out e one few perm
        | inl more ↦
            let (out', e', s, perm') = f out (ground arith) in
            (out', rw e (rw more e'), s, Perm.trans perm perm')
      ]

  -- list_sort, with a comparison that never holds both ways, ends and no assertion in it fails: it
  -- returns the elements of the list, in an order in which none is less than the one before it.
  pub list_sort_lem :
      (xs : List A)
      → (out : List A) × (list_sort less xs ≡ some out) × (is_sorted less out ≡ true) × Perm xs out
  unfolding list_sort Sorts
  list_sort_lem xs = passes_lem (length xs) xs (omega (arith, runs_le less xs))
