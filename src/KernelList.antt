-- ===== src/KernelList.antt =====
-- pintos_3/src/lib/kernel/list.c: the operations of the kernel's lists, over the sequence of the
-- elements between head and tail. The end of a list is `none` where an operation returns it.
pub mod Ordered
pub mod Unique
pub mod Sort
pub mod Sorted
pub mod Passes
mod Tests
use buaa755os.Base.{
  not, ◌&&◌, ℕ, zero, suc, ◌+◌, Bool, true, false, Option, none, some, List, [], ◌∷◌, ◌++◌,
  if◌then◌else◌, ◌==◌,
}

module _ {ℓ} {A : Type ℓ} where
  unfoldable pub list_push_front : A → List A → List A
  list_push_front x xs = x ∷ xs

  unfoldable pub list_push_back : A → List A → List A
  list_push_back x xs = xs ++ x ∷ []

  unfoldable pub list_front : List A → Option A
  list_front [] = none
  list_front (x ∷ xs) = some x

  unfoldable pub list_empty : List A → Bool
  list_empty [] = true
  list_empty (x ∷ xs) = false

  unfoldable pub list_insert_ordered : (A → A → Bool) → A → List A → List A
  list_insert_ordered less x [] = x ∷ []
  list_insert_ordered less x (e ∷ es) =
      if less x e then x ∷ e ∷ es else e ∷ list_insert_ordered less x es

  -- The loop of list_max, with the largest element so far.
  unfoldable pub max_from : (A → A → Bool) → A → List A → A
  max_from less m [] = m
  max_from less m (e ∷ es) = max_from less (if less m e then e else m) es

  unfoldable pub list_max : (A → A → Bool) → List A → Option A
  unfolding max_from
  list_max less [] = none
  list_max less (x ∷ xs) = some (max_from less x xs)

  unfoldable pub list_pop_front : List A → Option (A × List A)
  list_pop_front [] = none
  list_pop_front (x ∷ xs) = some (x, xs)

  -- The loop of list_min, with the smallest element so far.
  unfoldable pub min_from : (A → A → Bool) → A → List A → A
  min_from less m [] = m
  min_from less m (e ∷ es) = min_from less (if less e m then e else m) es

  unfoldable pub list_min : (A → A → Bool) → List A → Option A
  unfolding min_from
  list_min less [] = none
  list_min less (x ∷ xs) = some (min_from less x xs)

  -- The loop of list_unique at an element: the elements behind it that stay, and those removed.
  unfoldable pub unique_from : (A → A → Bool) → A → List A → List A × List A
  unique_from less elem [] = ([], [])
  unique_from less elem (next ∷ es) =
      let equal = not (less elem next) && not (less next elem) in
      let (kept, removed) = unique_from less (if equal then elem else next) es in
      if equal then (kept, next ∷ removed) else (next ∷ kept, removed)

  -- The list and the duplicates after it.
  unfoldable pub list_unique : (A → A → Bool) → List A → List A → List A × List A
  unfolding unique_from
  list_unique less [] duplicates = ([], duplicates)
  list_unique less (x ∷ xs) duplicates =
      let (kept, removed) = unique_from less x xs in (x ∷ kept, duplicates ++ removed)

-- list_remove: the element whose address is `x`.
unfoldable pub list_remove : ℕ → List ℕ → List ℕ
list_remove x [] = []
list_remove x (e ∷ es) = if x == e then es else e ∷ list_remove x es
