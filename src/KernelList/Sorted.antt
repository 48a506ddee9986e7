-- ===== src/KernelList/Sorted.antt =====
-- list.c: runs of a list, and that the merge of two runs is one run of the same elements.
use mathlib.Core.Path.{subst}
use mathlib.Core.List.{Perm, perm_middle, append-nil}
use mathlib.Core.List.Perm
use buaa755os.Base.{
  ℕ, suc, ◌+◌, ◌≤◌, ◌≡◌, refl, Bool, true, false, List, [], ◌∷◌, ◌++◌, length, if◌then◌else◌, arith,
  Bool-cases, inl, inr, sym, ap,
}
use buaa755os.KernelList.Sort.{sorted_from, is_sorted, run_from, merge}

module _ {ℓ} {A : Type ℓ} (less : A → A → Bool) where
  -- How often an element is less than the one before it.
  unfoldable pub descents_from : A → List A → ℕ
  descents_from a [] = 0
  descents_from a (e ∷ es) = (if less e a then 1 else 0) + descents_from e es

  -- The runs of a list: it begins one, and each descent another.
  unfoldable pub runs : List A → ℕ
  unfolding descents_from
  runs [] = 0
  runs (x ∷ xs) = suc (descents_from x xs)

  descents-sorted : (a : A) (es : List A) → sorted_from less a es ≡ true → descents_from a es ≡ 0
  unfolding descents_from sorted_from
  descents-sorted a [] h = refl
  descents-sorted a (e ∷ es) h = elim (Bool-cases (less e a)) [
    | inl down ↦ absurd (cc (rw down at h))
    | inr up ↦ rw up (omega (arith, descents-sorted e es (rw up at h)))
  ]

  sorted-descents : (a : A) (es : List A) → descents_from a es ≡ 0 → sorted_from less a es ≡ true
  unfolding descents_from sorted_from
  sorted-descents a [] h = refl
  sorted-descents a (e ∷ es) h = elim (Bool-cases (less e a)) [
    | inl down ↦ absurd (omega (arith, rw down at h))
    | inr up ↦ rw up (sorted-descents e es (omega (arith, rw up at h)))
  ]

  descents_le : (a : A) (es : List A) → descents_from a es ≤ length es
  unfolding descents_from
  descents_le a [] = omega arith
  descents_le a (e ∷ es) = elim (Bool-cases (less e a)) [
    | inl down ↦ rw down (omega (arith, descents_le e es))
    | inr up ↦ rw up (omega (arith, descents_le e es))
  ]

  descents-append :
      (a : A) (xs ys : List A) → descents_from a (xs ++ ys) ≤ descents_from a xs + runs ys
  unfolding descents_from runs
  descents-append a [] [] = omega arith
  descents-append a [] (y ∷ ys) = elim (Bool-cases (less y a)) [
    | inl down ↦ rw down (omega arith)
    | inr up ↦ rw up (omega arith)
  ]
  descents-append a (x ∷ xs) ys = omega (arith, descents-append x xs ys)

  pub runs-append : (xs ys : List A) → runs (xs ++ ys) ≤ runs xs + runs ys
  unfolding runs
  runs-append [] ys = omega arith
  runs-append (x ∷ xs) ys = omega (arith, descents-append x xs ys)

  -- A list with one run at most is in order, and the other way round.
  pub runs-sorted : (xs : List A) → is_sorted less xs ≡ true → runs xs ≤ 1
  unfolding runs is_sorted
  runs-sorted [] h = omega arith
  runs-sorted (x ∷ xs) h = omega (arith, descents-sorted x xs h)

  pub sorted-runs : (xs : List A) → runs xs ≤ 1 → is_sorted less xs ≡ true
  unfolding runs is_sorted
  sorted-runs [] h = refl
  sorted-runs (x ∷ xs) h = sorted-descents x xs (omega arith)

  pub runs_le : (xs : List A) → runs xs ≤ length xs
  unfolding runs
  runs_le [] = omega arith
  runs_le (x ∷ xs) = omega (arith, descents_le x xs)

  -- An element in front of a list in order.
  in_front :
      (p x : A) (xs : List A)
      → less x p ≡ false
      → sorted_from less x xs ≡ true
      → sorted_from less p (x ∷ xs) ≡ true
  unfolding sorted_from
  in_front p x xs h s = rw h s

  not_less : (p x : A) (xs : List A) → sorted_from less p (x ∷ xs) ≡ true → less x p ≡ false
  unfolding sorted_from
  not_less p x xs h = elim (Bool-cases (less x p)) [
    | inl down ↦ absurd (cc (rw down at h))
    | inr up ↦ up
  ]

  behind :
      (p x : A) (xs : List A) → sorted_from less p (x ∷ xs) ≡ true → sorted_from less x xs ≡ true
  unfolding sorted_from
  behind p x xs h = elim (Bool-cases (less x p)) [
    | inl down ↦ absurd (cc (rw down at h))
    | inr up ↦ rw up at h
  ]

  -- A run is in order, its elements are the first ones, and a list that goes on begins a new run.
  pub run_from-sorted : (a : A) (es : List A) → sorted_from less a (run_from less a es).0 ≡ true
  unfolding sorted_from run_from
  run_from-sorted a [] = refl
  run_from-sorted a (e ∷ es) = elim (Bool-cases (less e a)) [
    | inl down ↦ rw down refl
    | inr up ↦ rw up (rw up (run_from-sorted e es))
  ]

  pub run_from-append :
      (a : A) (es : List A) → (run_from less a es).0 ++ (run_from less a es).1 ≡ es
  unfolding run_from
  run_from-append a [] = refl
  run_from-append a (e ∷ es) = elim (Bool-cases (less e a)) [
    | inl down ↦ rw down refl
    | inr up ↦ rw up (ap (λ xs. e ∷ xs) (run_from-append e es))
  ]

  pub run_from-runs : (a : A) (es : List A) → descents_from a es ≡ runs (run_from less a es).1
  unfolding run_from descents_from runs
  run_from-runs a [] = refl
  run_from-runs a (e ∷ es) = elim (Bool-cases (less e a)) [
    | inl down ↦ rw down (omega arith)
    | inr up ↦ rw up (omega (arith, run_from-runs e es))
  ]

  -- What the merge of two runs has in front: the head of the one or of the other.
  merge-sorted :
      ((a b : A) → less a b ≡ true → less b a ≡ false)
      → (p : A) (xs ys : List A) → sorted_from less p xs ≡ true
      → sorted_from less p ys ≡ true
      → sorted_from less p (merge less xs ys) ≡ true
  unfolding sorted_from merge
  merge-sorted asym p [] ys hx hy = hy
  merge-sorted asym p (x ∷ xs) [] hx hy = hx
  merge-sorted asym p (x ∷ xs) (y ∷ ys) hx hy = elim (Bool-cases (less y x)) [
    | inl first ↦
        rw (merge, first)
          (in_front p y (merge less (x ∷ xs) ys) (not_less p y ys hy) (
            merge-sorted asym y (x ∷ xs) ys (in_front y x xs (asym y x first) (behind p x xs hx))
              (behind p y ys hy)))
    | inr second ↦
        rw (merge, second)
          (in_front p x (merge less xs (y ∷ ys)) (not_less p x xs hx) (
            merge-sorted asym x xs (y ∷ ys) (behind p x xs hx)
              (in_front x y ys second (behind p y ys hy))))
  ]

  pub merge-IsSorted :
      ((a b : A) → less a b ≡ true → less b a ≡ false)
      → (xs ys : List A) → is_sorted less xs ≡ true
      → is_sorted less ys ≡ true
      → is_sorted less (merge less xs ys) ≡ true
  unfolding is_sorted merge
  merge-IsSorted asym [] ys hx hy = hy
  merge-IsSorted asym (x ∷ xs) [] hx hy = hx
  merge-IsSorted asym (x ∷ xs) (y ∷ ys) hx hy = elim (Bool-cases (less y x)) [
    | inl first ↦
        rw (merge, first) (merge-sorted asym y (x ∷ xs) ys (in_front y x xs (asym y x first) hx) hy)
    | inr second ↦
        rw (merge, second) (merge-sorted asym x xs (y ∷ ys) hx (in_front x y ys second hy))
  ]

  pub merge-perm : (xs ys : List A) → Perm (xs ++ ys) (merge less xs ys)
  unfolding merge
  merge-perm [] ys = Perm.refl ys
  merge-perm (x ∷ xs) [] =
      subst (λ zs. Perm zs (x ∷ xs)) (sym (append-nil (x ∷ xs))) (Perm.refl (x ∷ xs))
  merge-perm (x ∷ xs) (y ∷ ys) = elim (Bool-cases (less y x)) [
    | inl first ↦
        rw (merge, first)
          (Perm.trans (perm_middle (x ∷ xs) ys) (Perm.cons y (merge-perm (x ∷ xs) ys)))
    | inr second ↦ rw (merge, second) (Perm.cons x (merge-perm xs (y ∷ ys)))
  ]
