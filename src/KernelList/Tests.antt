-- ===== src/KernelList/Tests.antt =====
-- The ordered operations of list.c on short lists.
use buaa755os.Base.{true, arith, List, ℕ, ◌≡◌, refl, some, [], ◌∷◌, ltb, ◌%◌}
use mathlib.Core.List.{Perm}
use buaa755os.KernelList.Sort.{list_sort, is_sorted}
use buaa755os.KernelList.Passes.{list_sort_lem}
use buaa755os.KernelList.{list_unique, list_max, list_insert_ordered}
use buaa755os.KernelList.Ordered.{greater}

-- The earliest of the greatest elements by their last digit.
max_last_digit : list_max (λ a b. ltb (a % 10) (b % 10)) (21 ∷ 17 ∷ 7 ∷ []) ≡ some 17
unfolding list_max
max_last_digit = refl

-- An equal element goes behind those that are there.
insert_equal : list_insert_ordered (greater (λ n. n % 10)) 17 (9 ∷ 7 ∷ 5 ∷ []) ≡ 9 ∷ 7 ∷ 17 ∷ 5 ∷ []
unfolding list_insert_ordered
insert_equal = refl

sort_five : list_sort ltb (3 ∷ 1 ∷ 4 ∷ 1 ∷ 5 ∷ []) ≡ some (1 ∷ 1 ∷ 3 ∷ 4 ∷ 5 ∷ [])
unfolding list_sort buaa755os.KernelList.Sort.passes buaa755os.KernelList.Sort.pass
    buaa755os.KernelList.Sort.find_end_of_run buaa755os.KernelList.Sort.merge_next
    buaa755os.KernelList.Sort.inplace_merge is_sorted buaa755os.KernelList.Sort.merge
sort_five = refl

list_sort_example :
    (out : List ℕ) × (list_sort ltb (3 ∷ 1 ∷ 4 ∷ 1 ∷ 5 ∷ []) ≡ some out)
    × (is_sorted ltb out ≡ true)
    × Perm (3 ∷ 1 ∷ 4 ∷ 1 ∷ 5 ∷ []) out
list_sort_example = list_sort_lem ltb (λ a b h. ground arith) (3 ∷ 1 ∷ 4 ∷ 1 ∷ 5 ∷ [])
