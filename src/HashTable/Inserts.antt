-- ===== src/HashTable/Inserts.antt =====
-- hash.c: finding and inserting in a table in which no two elements are equal.
use mathlib.Core.Path.{subst}
use buaa755os.Base.{
  ℕ, ◌-◌, ◌≡◌, refl, Bool, true, false, not, ◌&&◌, Option, none, some, List, [], ◌∷◌, ◌↔◌, inl, inr,
  ◌⊎◌, arith, ap, ◌∙◌, sym, Bool-cases,
}
use buaa755os.HashTable.{
  Hash, and_bits, find_bucket, equal, find_elem, insert_elem, rehash, hash_init, hash_find,
  hash_insert, insert_found,
}
use buaa755os.HashTable.Buckets.{OneOf, one_of-cons}
use buaa755os.HashTable.Tables.{In, IsPlaced, rehash-IsPlaced, insert_elem-IsPlaced}

module _ {ℓ} {A : Type ℓ} (hash : A → ℕ) (less : A → A → Bool) where
  -- A table in which no two elements are equal.
  pub record IsTable (h : Hash A) : Type ℓ where
    pub placed : IsPlaced hash h
    pub unique : (x y : A) → In hash h x → In hash h y → equal less x y ≡ true → x ≡ y

  -- What is found in a table: an equal element, or there is none.
  abbrev pub FindResult : Hash A → A → Option A → Type ℓ
  FindResult h e none = (x : A) → In hash h x → equal less x e ≡ false
  FindResult h e (some old) = In hash h old × (equal less old e ≡ true)

  abbrev FoundIn : List A → A → Option A → Type ℓ
  FoundIn xs e none = (x : A) → OneOf x xs → equal less x e ≡ false
  FoundIn xs e (some old) = OneOf old xs × (equal less old e ≡ true)

  found_behind :
      (y : A) (xs : List A) (e : A) (r : Option A)
      → equal less y e ≡ false
      → FoundIn xs e r
      → FoundIn (y ∷ xs) e r
  found_behind y xs e none n f = λ x o. go x (one_of-cons o)
    where
      go : (x : A) → (x ≡ y) ⊎ OneOf x xs → equal less x e ≡ false
      go x (inl q) = ap (λ z. equal less z e) q ∙ n
      go x (inr o) = f x o
  found_behind y xs e (some old) n (o, q) = (OneOf.later y xs o, q)

  find_elem_lem : (xs : List A) (e : A) → FoundIn xs e (find_elem less xs e)
  unfolding find_elem
  find_elem_lem [] e = λ x o. absurd (elim o [ ])
  find_elem_lem (y ∷ xs) e = elim (Bool-cases (equal less y e)) [
    | inl q ↦ rw q (OneOf.first xs, q)
    | inr n ↦ rw n (found_behind y xs e (find_elem less xs e) n (find_elem_lem xs e))
  ]

  pub equal_comm : (x y : A) → equal less x y ≡ equal less y x
  unfolding equal
  equal_comm x y = go (less x y) (less y x)
    where
      go : (b c : Bool) → (not b && not c) ≡ (not c && not b)
      go true true = refl
      go true false = refl
      go false true = refl
      go false false = refl

  module _ (compat : (x y : A) → equal less x y ≡ true → hash x ≡ hash y) where
    same_bucket :
        (cnt : ℕ) (x y : A)
        → equal less x y ≡ true
        → find_bucket hash cnt x ≡ find_bucket hash cnt y
    unfolding find_bucket
    same_bucket cnt x y q = ap (λ n. and_bits 32 n (cnt - 1)) (compat x y q)

    -- hash_find, in a valid table whose hash function gives equal elements the same hash, returns an
    -- element of the table that is equal to the one asked for, or none if the table has none.
    pub hash_find_lem :
        (h : Hash A) (e : A) → IsPlaced hash h → FindResult h e (hash_find hash less h e)
    unfolding hash_find
    hash_find_lem h e v = go (find_elem less (h.buckets i) e) (find_elem_lem (h.buckets i) e)
      where
        i : ℕ
        i = find_bucket hash h.bucket_cnt e

        no_match :
            (x : A)
            → In hash h x
            → ((y : A) → OneOf y (h.buckets i) → equal less y e ≡ false)
            → (b : Bool) → equal less x e ≡ b
            → b ≡ false
        no_match x o f true q =
            sym q ∙ f x (subst (λ n. OneOf x (h.buckets n)) (same_bucket h.bucket_cnt x e q) o)
        no_match x o f false q = refl

        go : (r : Option A) → FoundIn (h.buckets i) e r → FindResult h e r
        go none f = λ x o. no_match x o f (equal less x e) refl
        go (some old) (o, q) = (subst (λ n. OneOf old (h.buckets n)) (sym (v.placed old i o)) o, q)

    abbrev pub InsertResult : Hash A → A → Option A × Hash A → Type ℓ
    InsertResult h e r =
        IsTable r.1
        × (((r.0 ≡ none)
              × ((x : A) → In hash h x → equal less x e ≡ false)
              × ((x : A) → In hash r.1 x ↔ ((x ≡ e) ⊎ In hash h x)))
            ⊎ ((old : A) × (r.0 ≡ some old)
                × (In hash h old × (equal less old e ≡ true))
                × ((x : A) → In hash r.1 x ↔ In hash h x)))

    -- A new element that no other one equals.
    pub new_unique :
        (h h' : Hash A) (e : A)
        → IsTable h
        → ((x : A) → In hash h x → equal less x e ≡ false)
        → ((x : A) → In hash h' x → (x ≡ e) ⊎ In hash h x)
        → (x y : A) → In hash h' x
        → In hash h' y
        → equal less x y ≡ true
        → x ≡ y
    new_unique h h' e v absent back x y ox oy q = go (back x ox) (back y oy)
      where
        clash : (z : A) → In hash h z → equal less z e ≡ true → x ≡ y
        clash z o m = absurd (cc (absent z o))

        go : (x ≡ e) ⊎ In hash h x → (y ≡ e) ⊎ In hash h y → x ≡ y
        go (inl a) (inl b) = a ∙ sym b
        go (inl a) (inr o) = clash y o (equal_comm y e ∙ ap (λ z. equal less z y) (sym a) ∙ q)
        go (inr o) (inl b) = clash x o (ap (equal less x) (sym b) ∙ q)
        go (inr o) (inr o') = v.unique x y o o' q

    insert_found_lem :
        (memory : Bool) (h : Hash A) (e : A) (r : Option A)
        → IsTable h
        → FindResult h e r
        → InsertResult h e (insert_found hash less memory h e r)
    unfolding insert_found
    insert_found_lem memory h e none v absent =
        let (p₁, in₁) = insert_elem-IsPlaced hash h e v.placed in
        let h₁ = insert_elem h (find_bucket hash h.bucket_cnt e) e in
        let (p₂, in₂) = rehash-IsPlaced hash memory h₁ p₁ in
        (
          record {
            placed = p₂;
            unique =
                new_unique h (rehash hash memory h₁) e v absent (λ x o. (in₁ x).0 ((in₂ x).0 o));
          },
          inl (refl, absent, λ x. ((λ o. (in₁ x).0 ((in₂ x).0 o)), (λ s. (in₂ x).1 ((in₁ x).1 s)))),
        )
    insert_found_lem memory h e (some old) v (o, q) =
        let (p, i) = rehash-IsPlaced hash memory h v.placed in
        (
          record { placed = p; unique = λ x y ox oy m. v.unique x y ((i x).0 ox) ((i y).0 oy) m },
          inr (old, refl, (o, q), i),
        )

    -- hash_insert, in a table in which no two elements are equal and whose hash function gives equal
    -- elements the same hash, whether or not there is memory for other buckets, leaves such a table.
    -- If no element equals the new one it returns none, and the table has the new one and the old
    -- ones; else it returns an equal one, and the table has the same elements as before.
    pub hash_insert_lem :
        (memory : Bool) (h : Hash A) (e : A)
        → IsTable h
        → InsertResult h e (hash_insert hash less memory h e)
    unfolding hash_insert
    hash_insert_lem memory h e v =
        insert_found_lem memory h e (hash_find hash less h e) v (hash_find_lem h e v.placed)

  -- A new table has no elements.
  pub hash_init-IsTable :
      (h : Hash A) → hash_init {A = A} true ≡ some h → IsTable h × ((x : A) → ¬ In hash h x)
  unfolding hash_init
  hash_init-IsTable h e =
      let empty : Hash A = record { elem_cnt = 0; bucket_cnt = 4; buckets = λ i. [] } in
      let same : empty ≡ h = cc in
      subst (λ k. IsTable k × ((x : A) → ¬ In hash k x)) same
        (
          record {
            placed = record { some_buckets = omega arith; placed = λ x j o. absurd (elim o [ ]) };
            unique = λ x y ox oy q. absurd (elim ox [ ]);
          },
          λ x o. elim o [ ],
        )
