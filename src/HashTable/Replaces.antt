-- ===== src/HashTable/Replaces.antt =====
-- hash.c: that no element stands twice after an insertion, and hash_replace.
use mathlib.Core.Path.{subst}
use buaa755os.Base.{
  ℕ, ◌+◌, ◌≤◌, ◌≡◌, Bool, true, false, Option, none, some, if◌then◌else◌, ◌↔◌, inl, inr, ◌⊎◌, arith,
  sym,
}
use buaa755os.HashTable.{
  Hash, find_bucket, equal, insert_elem, remove_elem, rehash, hash_find, hash_insert, insert_found,
  hash_replace, replace_found,
}
use buaa755os.HashTable.Buckets.{OneOf}
use buaa755os.HashTable.Tables.{In, IsPlaced, rehash-IsPlaced, insert_elem-IsPlaced}
use buaa755os.HashTable.Counts.{count_none, copies, pushed_count, copies-rehash}
use buaa755os.HashTable.Inserts.{IsTable, FindResult, equal_comm, hash_find_lem, new_unique}
use buaa755os.HashTable.Deletes.{
  Once, removed, removed-IsPlaced, removed_iff, removed_copies, Once-key,
}

module _ {ℓ} {A : Type ℓ} (hash : A → ℕ) (less : A → A → Bool)
    (compat : (x y : A) → equal less x y ≡ true → hash x ≡ hash y) where
  abbrev inserted : Hash A → A → Hash A
  inserted h e = insert_elem h (find_bucket hash h.bucket_cnt e) e

  insert_elem-Once :
      (h : Hash A) (e : A)
      → IsPlaced hash h
      → Once hash less compat h
      → ((x : A) → In hash h x → equal less x e ≡ false)
      → Once hash less compat (inserted h e)
  unfolding insert_elem
  insert_elem-Once h e v once absent x o = elim (((insert_elem-IsPlaced hash h e v).1 x).0 o) [
    | inl q ↦
        subst (λ x. copies hash less compat (inserted h e) x ≤ 1) (sym q)
          (subst (λ n. n ≤ 1) (sym (counted e)) (first (equal less e e)))
    | inr o' ↦
        subst (λ n. n ≤ 1) (sym (counted x))
          (rw (equal_comm hash less e x, absent x o')
            (other (copies hash less compat h x) (once x o')))
  ]
    where
      counted :
          (x : A)
          → copies hash less compat (inserted h e) x
            ≡ copies hash less compat h x + (if equal less e x then 1 else 0)
      counted x = pushed_count hash less compat h.bucket_cnt h.buckets e x

      none_equal : copies hash less compat h e ≡ 0
      none_equal = count_none less e (h.buckets (find_bucket hash h.bucket_cnt e)) (λ y oy.
          absent y (
            subst (λ i. OneOf y (h.buckets i))
              (sym (v.placed y (find_bucket hash h.bucket_cnt e) oy)) oy))

      first : (b : Bool) → copies hash less compat h e + (if b then 1 else 0) ≤ 1
      first true = omega (arith, none_equal)
      first false = omega (arith, none_equal)

      other : (n : ℕ) → n ≤ 1 → n + 0 ≤ 1
      other n l = omega arith

  rehash-Once :
      (memory : Bool) (h : Hash A)
      → IsPlaced hash h
      → Once hash less compat h
      → Once hash less compat (rehash hash memory h)
  rehash-Once memory h v once x o =
      at_most (copies hash less compat (rehash hash memory h) x) (copies hash less compat h x)
        (copies-rehash hash less compat memory h x v)
        (once x (((rehash-IsPlaced hash memory h v).1 x).0 o))
    where
      at_most : (a b : ℕ) → a ≤ b → b ≤ 1 → a ≤ 1
      at_most a b l m = omega arith

  insert_found-Once :
      (memory : Bool) (h : Hash A) (e : A) (r : Option A)
      → IsTable hash less h
      → Once hash less compat h
      → FindResult hash less h e r
      → Once hash less compat (insert_found hash less memory h e r).1
  unfolding insert_found
  insert_found-Once memory h e none v once absent =
      rehash-Once memory (inserted h e) (insert_elem-IsPlaced hash h e v.placed).0
        (insert_elem-Once h e v.placed once absent)
  insert_found-Once memory h e (some old) v once f = rehash-Once memory h v.placed once

  -- hash_insert keeps that no element stands twice.
  pub hash_insert-Once :
      (memory : Bool) (h : Hash A) (e : A)
      → IsTable hash less h
      → Once hash less compat h
      → Once hash less compat (hash_insert hash less memory h e).1
  unfolding hash_insert
  hash_insert-Once memory h e v once =
      insert_found-Once memory h e (hash_find hash less h e) v once
        (hash_find_lem hash less compat h e v.placed)

  abbrev pub ReplaceResult : Hash A → A → Option A × Hash A → Type ℓ
  ReplaceResult h e r =
      IsTable hash less r.1
      × Once hash less compat r.1
      × ((x : A) → In hash r.1 x ↔ ((x ≡ e) ⊎ (In hash h x × (equal less x e ≡ false))))
      × FindResult hash less h e r.0

  -- A new element in a table in which none equals it, and which may get other buckets.
  put :
      (memory : Bool) (h h₁ : Hash A) (e : A) (r : Option A)
      → IsTable hash less h₁
      → Once hash less compat h₁
      → ((x : A) → In hash h₁ x ↔ (In hash h x × (equal less x e ≡ false)))
      → FindResult hash less h e r
      → ReplaceResult h e (r, rehash hash memory (inserted h₁ e))
  put memory h h₁ e r v once only f =
      let (p₁, in₁) = insert_elem-IsPlaced hash h₁ e v.placed in
      let (p₂, in₂) = rehash-IsPlaced hash memory (inserted h₁ e) p₁ in
      let absent = λ (x : A) (o : In hash h₁ x). ((only x).0 o).1 in
      (
        record {
          placed = p₂;
          unique =
              new_unique hash less compat h₁ (rehash hash memory (inserted h₁ e)) e v absent
                (λ x o. (in₁ x).0 ((in₂ x).0 o));
        },
        rehash-Once memory (inserted h₁ e) p₁ (insert_elem-Once h₁ e v.placed once absent),
        (λ x. (
          (λ o. elim ((in₁ x).0 ((in₂ x).0 o)) [ inl q ↦ inl q | inr o' ↦ inr ((only x).0 o') ]),
          (λ s. (in₂ x).1 ((in₁ x).1 (elim s [ inl q ↦ inl q | inr p ↦ inr ((only x).1 p) ]))),
        )),
        f,
      )

  replace_found_lem :
      (memory : Bool) (h : Hash A) (e : A) (r : Option A)
      → ((x y z : A) → equal less x y ≡ true → equal less y z ≡ true → equal less x z ≡ true)
      → IsTable hash less h
      → Once hash less compat h
      → FindResult hash less h e r
      → ReplaceResult h e (replace_found hash less memory h e r)
  unfolding replace_found remove_elem
  replace_found_lem memory h e none trans v once absent =
      put memory h h e none v once (λ x. ((λ o. (o, absent x o)), (λ p. p.0))) absent
  replace_found_lem memory h e (some old) trans v once f =
      let only =
        removed_iff hash less compat h e (Once-key hash less compat h e old trans once f) in
      put memory h (removed hash less compat h e) e (some old)
        (record {
          placed = removed-IsPlaced hash less compat h e v.placed;
          unique = λ x y ox oy m. v.unique x y ((only x).0 ox).0 ((only y).0 oy).0 m;
        })
        (λ x o.
          at_most (copies hash less compat (removed hash less compat h e) x)
            (copies hash less compat h x) (removed_copies hash less compat h e x)
            (once x ((only x).0 o).0))
        only f
    where
      at_most : (a b : ℕ) → a ≤ b → b ≤ 1 → a ≤ 1
      at_most a b l m = omega arith

  -- hash_replace, in a table in which no two elements are equal and none stands twice, where equality is
  -- transitive and equal elements have the same hash, whether or not there is memory for other buckets,
  -- leaves such a table, which has the new element and those that do not equal it. It returns an
  -- element of the old table that equals the new one, or none when there is none.
  pub hash_replace_lem :
      (memory : Bool) (h : Hash A) (e : A)
      → ((x y z : A) → equal less x y ≡ true → equal less y z ≡ true → equal less x z ≡ true)
      → IsTable hash less h
      → Once hash less compat h
      → ReplaceResult h e (hash_replace hash less memory h e)
  unfolding hash_replace
  hash_replace_lem memory h e trans v once =
      replace_found_lem memory h e (hash_find hash less h e) trans v once
        (hash_find_lem hash less compat h e v.placed)
