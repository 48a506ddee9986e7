-- ===== src/HashTable/Tests.antt =====
-- hash.c on a table of numbers, hashed by their last digit, in which numbers with the same last
-- digit are equal.
use mathlib.Core.Path.{subst}
use buaa755os.Base.{
  ℕ, ◌%◌, ◌≤◌, ◌≡◌, refl, Bool, true, false, some, [], ◌∷◌, ltb, if◌then◌else◌, ◌==◌, arith, inl,
  inr, ap, sym, ◌∙◌,
}
use buaa755os.HashTable.{
  Hash, find_bucket, hash_size, equal, is_power_of_2, turn_off_least_1bit, hash_find, hash_insert,
  hash_delete, hash_replace,
}
use buaa755os.HashTable.Buckets.{OneOf, one_of-cons}
use buaa755os.HashTable.Tables.{IsPlaced}
use buaa755os.HashTable.Inserts.{IsTable, InsertResult, hash_insert_lem}
use buaa755os.HashTable.Counts.{copies}
use buaa755os.HashTable.Deletes.{Once, DeleteResult, hash_delete_lem}
use buaa755os.HashTable.Replaces.{ReplaceResult, hash_replace_lem}

abbrev digit : ℕ → ℕ
digit n = n % 10

abbrev less_digit : ℕ → ℕ → Bool
less_digit a b = ltb (a % 10) (b % 10)

-- The number 26 in the third of four buckets.
abbrev table : Hash ℕ
table = record { elem_cnt = 1; bucket_cnt = 4; buckets = λ i. if i == 2 then 26 ∷ [] else [] }

digit_compat : (x y : ℕ) → equal less_digit x y ≡ true → digit x ≡ digit y
unfolding equal
digit_compat x y q = ground arith

find_sixteen : hash_find digit less_digit table 16 ≡ some 26
unfolding hash_find buaa755os.HashTable.find_elem find_bucket buaa755os.HashTable.and_bits
find_sixteen = refl

clear_lowest : turn_off_least_1bit 12 ≡ 8
unfolding turn_off_least_1bit
clear_lowest = refl

only_element : (x j : ℕ) → OneOf x (table.buckets j) → (j ≡ 2) × (x ≡ 26)
only_element x j o = go (j == 2) refl o
  where
    single : OneOf x (26 ∷ []) → x ≡ 26
    single q = elim (one_of-cons q) [ inl e ↦ e | inr r ↦ absurd (elim r [ ]) ]

    go : (b : Bool) → (j == 2) ≡ b → OneOf x (if b then 26 ∷ [] else []) → (j ≡ 2) × (x ≡ 26)
    go true e q = (ground arith, single q)
    go false e q = absurd (elim q [ ])

bucket_of_26 : find_bucket digit 4 26 ≡ 2
unfolding find_bucket buaa755os.HashTable.and_bits
bucket_of_26 = refl

table-IsPlaced : IsPlaced digit table
table-IsPlaced = record {
  some_buckets = omega arith;
  placed = λ x j o.
      ap (find_bucket digit 4) (only_element x j o).1 ∙ bucket_of_26 ∙ sym (only_element x j o).0;
}

table-IsTable : IsTable digit less_digit table
table-IsTable = record {
  placed = table-IsPlaced;
  unique = λ x y ox oy q. (only_element x _ ox).1 ∙ sym (only_element y _ oy).1;
}

-- An element that equals one of the table.
insert_sixteen : (hash_insert digit less_digit true table 16).0 ≡ some 26
unfolding hash_insert buaa755os.HashTable.find_elem find_bucket buaa755os.HashTable.and_bits
insert_sixteen = refl

-- The buckets stay four.
insert_three : hash_size (hash_insert digit less_digit true table 3).1 ≡ 2
unfolding hash_insert hash_size buaa755os.HashTable.find_elem find_bucket
    buaa755os.HashTable.and_bits buaa755os.HashTable.rehash buaa755os.HashTable.ideal_bucket_cnt
    buaa755os.HashTable.insert_elem is_power_of_2 turn_off_least_1bit
insert_three = refl

delete_six : (hash_delete digit less_digit true table 6).0 ≡ some 26
unfolding hash_delete buaa755os.HashTable.find_elem find_bucket buaa755os.HashTable.and_bits
delete_six = refl

hash_insert_example :
    InsertResult digit less_digit digit_compat table 3 (hash_insert digit less_digit true table 3)
hash_insert_example = hash_insert_lem digit less_digit digit_compat true table 3 table-IsTable

digit_trans :
    (x y z : ℕ)
    → equal less_digit x y ≡ true
    → equal less_digit y z ≡ true
    → equal less_digit x z ≡ true
unfolding equal
digit_trans x y z p q = ground arith

one_copy : copies digit less_digit digit_compat table 26 ≤ 1
unfolding find_bucket buaa755os.HashTable.and_bits equal
one_copy = omega arith

table-Once : Once digit less_digit digit_compat table
table-Once x o =
    subst (λ x. copies digit less_digit digit_compat table x ≤ 1) (sym (only_element x _ o).1)
      one_copy

hash_delete_example :
    DeleteResult digit less_digit digit_compat table 6 (hash_delete digit less_digit true table 6)
hash_delete_example =
    hash_delete_lem digit less_digit digit_compat true table 6 digit_trans table-IsTable table-Once

hash_replace_example :
    ReplaceResult digit less_digit digit_compat table 16
      (hash_replace digit less_digit true table 16)
hash_replace_example =
    hash_replace_lem digit less_digit digit_compat true table 16 digit_trans table-IsTable
      table-Once
