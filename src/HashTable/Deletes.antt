-- ===== src/HashTable/Deletes.antt =====
-- hash.c: deleting from a table in which no element stands twice.
use mathlib.Core.Path.{subst}
use buaa755os.Base.{
  ℕ, ◌≤◌, ◌≡◌, refl, Bool, true, false, Option, none, some, update, update_self, update_ne, ◌==◌,
  ◌↔◌, inl, inr, ◌⊎◌, arith, ◌∙◌, sym, Bool-cases,
}
use buaa755os.HashTable.{
  Hash, find_bucket, equal, remove_first, remove_elem, rehash, hash_find, hash_delete, delete_found,
}
use buaa755os.HashTable.Buckets.{OneOf}
use buaa755os.HashTable.Tables.{In, IsPlaced, rehash-IsPlaced}
use buaa755os.HashTable.Counts.{
  count, removed_back, removed_kept, removed_differs, removed_count, count_le, copies, same_bucket,
  copies-rehash,
}
use buaa755os.HashTable.Inserts.{IsTable, FindResult, equal_comm, hash_find_lem}

module _ {ℓ} {A : Type ℓ} (hash : A → ℕ) (less : A → A → Bool)
    (compat : (x y : A) → equal less x y ≡ true → hash x ≡ hash y) where
  -- No element stands twice in the table.
  abbrev pub Once : Hash A → Type ℓ
  Once h = (x : A) → In hash h x → copies hash less compat h x ≤ 1

  abbrev pub removed : Hash A → A → Hash A
  removed h e = remove_elem less h (find_bucket hash h.bucket_cnt e) e

  bucket_hit :
      (h : Hash A) (e : A) (j : ℕ)
      → find_bucket hash h.bucket_cnt e ≡ j
      → (removed h e).buckets j ≡ remove_first less (h.buckets j) e
  unfolding remove_elem
  bucket_hit h e j q =
      subst
        (λ j.
          update h.buckets i (remove_first less (h.buckets i) e) j
          ≡ remove_first less (h.buckets j) e)
        q (update_self h.buckets i (remove_first less (h.buckets i) e))
    where
      i : ℕ
      i = find_bucket hash h.bucket_cnt e

  bucket_miss :
      (h : Hash A) (e : A) (j : ℕ)
      → (find_bucket hash h.bucket_cnt e ≡ j → ⊥)
      → (removed h e).buckets j ≡ h.buckets j
  unfolding remove_elem
  bucket_miss h e j n =
      update_ne h.buckets (find_bucket hash h.bucket_cnt e) j
        (remove_first less (h.buckets (find_bucket hash h.bucket_cnt e)) e) n

  same_or_not : (i j : ℕ) → (i ≡ j) ⊎ (i ≡ j → ⊥)
  same_or_not i j = elim (Bool-cases (i == j)) [
    | inl q ↦ inl (ground arith)
    | inr q ↦ inr (ground arith)
  ]

  removed_in :
      (h : Hash A) (e x : A) (j : ℕ) → OneOf x ((removed h e).buckets j) → OneOf x (h.buckets j)
  removed_in h e x j o = elim (same_or_not (find_bucket hash h.bucket_cnt e) j) [
    | inl q ↦ removed_back less e x (h.buckets j) (subst (OneOf x) (bucket_hit h e j q) o)
    | inr n ↦ subst (OneOf x) (bucket_miss h e j n) o
  ]

  pub removed-IsPlaced : (h : Hash A) (e : A) → IsPlaced hash h → IsPlaced hash (removed h e)
  unfolding remove_elem
  removed-IsPlaced h e v = record {
    some_buckets = v.some_buckets;
    placed = λ x j o. v.placed x j (removed_in h e x j o);
  }

  pub removed_iff :
      (h : Hash A) (e : A)
      → copies hash less compat h e ≤ 1
      → (x : A) → In hash (removed h e) x ↔ (In hash h x × (equal less x e ≡ false))
  unfolding remove_elem
  removed_iff h e once x = ((λ o. (removed_in h e x j o, differs o)), (λ p. keeps p.0 p.1))
    where
      i : ℕ
      i = find_bucket hash h.bucket_cnt e

      j : ℕ
      j = find_bucket hash h.bucket_cnt x

      differs : OneOf x ((removed h e).buckets j) → equal less x e ≡ false
      differs o = elim (Bool-cases (equal less x e)) [
        | inr n ↦ n
        | inl q ↦
            let s = sym (same_bucket hash less compat h.bucket_cnt x e q) in
            removed_differs less e x (h.buckets j)
              (subst (λ k. count less e (h.buckets k) ≤ 1) s once)
              (subst (OneOf x) (bucket_hit h e j s) o)
      ]

      keeps : OneOf x (h.buckets j) → equal less x e ≡ false → OneOf x ((removed h e).buckets j)
      keeps o n = elim (same_or_not i j) [
        | inl q ↦
            subst (OneOf x) (sym (bucket_hit h e j q)) (removed_kept less e x (h.buckets j) o n)
        | inr q ↦ subst (OneOf x) (sym (bucket_miss h e j q)) o
      ]

  pub removed_copies :
      (h : Hash A) (e x : A) → copies hash less compat (removed h e) x ≤ copies hash less compat h x
  unfolding remove_elem
  removed_copies h e x = elim (same_or_not (find_bucket hash h.bucket_cnt e) j) [
    | inl q ↦
        subst (λ xs. count less x xs ≤ count less x (h.buckets j)) (sym (bucket_hit h e j q))
          (removed_count less e x (h.buckets j))
    | inr q ↦
        subst (λ xs. count less x xs ≤ count less x (h.buckets j)) (sym (bucket_miss h e j q))
          (omega arith)
  ]
    where
      j : ℕ
      j = find_bucket hash h.bucket_cnt x

  -- An element that equals one of the table equals only one.
  pub Once-key :
      (h : Hash A) (e old : A)
      → ((x y z : A) → equal less x y ≡ true → equal less y z ≡ true → equal less x z ≡ true)
      → Once h
      → In hash h old × (equal less old e ≡ true)
      → copies hash less compat h e ≤ 1
  Once-key h e old trans once (o, q) =
      at_most (copies hash less compat h e) (copies hash less compat h old)
        (subst (λ i. count less e (h.buckets i) ≤ copies hash less compat h old)
          (same_bucket hash less compat h.bucket_cnt old e q)
          (count_le less e old (h.buckets (find_bucket hash h.bucket_cnt old))
            (λ x t. trans x e old t (equal_comm hash less e old ∙ q))))
        (once old o)
    where
      at_most : (a b : ℕ) → a ≤ b → b ≤ 1 → a ≤ 1
      at_most a b l m = omega arith

  abbrev pub DeleteResult : Hash A → A → Option A × Hash A → Type ℓ
  DeleteResult h e r =
      IsTable hash less r.1
      × Once r.1
      × ((x : A) → In hash r.1 x ↔ (In hash h x × (equal less x e ≡ false)))
      × (((r.0 ≡ none) × (r.1 ≡ h))
          ⊎ ((old : A) × (r.0 ≡ some old) × In hash h old × (equal less old e ≡ true)))

  delete_found_lem :
      (memory : Bool) (h : Hash A) (e : A) (r : Option A)
      → ((x y z : A) → equal less x y ≡ true → equal less y z ≡ true → equal less x z ≡ true)
      → IsTable hash less h
      → Once h
      → FindResult hash less h e r
      → DeleteResult h e (delete_found hash less memory h e r)
  unfolding delete_found
  delete_found_lem memory h e none trans v once absent =
      (v, once, (λ x. ((λ o. (o, absent x o)), (λ p. p.0))), inl (refl, refl))
  delete_found_lem memory h e (some old) trans v once (o, q) =
      let p₁ = removed-IsPlaced h e v.placed in
      let in₁ = removed_iff h e one in
      let (p₂, in₂) = rehash-IsPlaced hash memory (removed h e) p₁ in
      (
        record {
          placed = p₂;
          unique = λ x y ox oy m.
              v.unique x y ((in₁ x).0 ((in₂ x).0 ox)).0 ((in₁ y).0 ((in₂ y).0 oy)).0 m;
        },
        (λ x ox.
            at_most (copies hash less compat (rehash hash memory (removed h e)) x)
              (copies hash less compat (removed h e) x) (copies hash less compat h x)
              (copies-rehash hash less compat memory (removed h e) x p₁) (removed_copies h e x)
              (once x ((in₁ x).0 ((in₂ x).0 ox)).0)),
        (λ x. ((λ ox. (in₁ x).0 ((in₂ x).0 ox)), (λ p. (in₂ x).1 ((in₁ x).1 p)))),
        inr (old, refl, o, q),
      )
    where
      at_most : (a b c : ℕ) → a ≤ b → b ≤ c → c ≤ 1 → a ≤ 1
      at_most a b c l m n = omega arith

      one : copies hash less compat h e ≤ 1
      one = Once-key h e old trans once (o, q)

  -- hash_delete, in a table in which no two elements are equal and none stands twice, where equality is
  -- transitive and equal elements have the same hash, whether or not there is memory for other buckets,
  -- leaves such a table, which has the elements that do not equal the one given. It returns the element
  -- that does, or none when there is none, and then the table is as before.
  pub hash_delete_lem :
      (memory : Bool) (h : Hash A) (e : A)
      → ((x y z : A) → equal less x y ≡ true → equal less y z ≡ true → equal less x z ≡ true)
      → IsTable hash less h
      → Once h
      → DeleteResult h e (hash_delete hash less memory h e)
  unfolding hash_delete
  hash_delete_lem memory h e trans v once =
      delete_found_lem memory h e (hash_find hash less h e) trans v once
        (hash_find_lem hash less compat h e v.placed)
