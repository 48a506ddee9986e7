-- ===== src/HashTable/Counts.antt =====
-- hash.c: how many elements of a table equal one, before and after they are moved.
use mathlib.Core.Path.{subst}
use buaa755os.Base.{
  ℕ, zero, suc, ◌+◌, ◌-◌, ◌≤◌, ◌≡◌, ◌≢◌, refl, Bool, true, false, not, ◌&&◌, List, [], ◌∷◌, update,
  update_self, update_ne, if◌then◌else◌, leb, ◌==◌, inl, inr, arith, ap, ◌∙◌, sym, Bool-cases,
}
use buaa755os.HashTable.{
  Hash, and_bits, find_bucket, equal, move_bucket, move_buckets, ideal_bucket_cnt, rehash,
  remove_first,
}
use buaa755os.HashTable.Buckets.{OneOf, one_of-cons}
use buaa755os.HashTable.Tables.{IsPlaced}

module _ {ℓ} {A : Type ℓ} (less : A → A → Bool) where
  -- How many of the elements equal `e`.
  abbrev pub count : A → List A → ℕ
  count e [] = 0
  count e (x ∷ xs) = if equal less x e then suc (count e xs) else count e xs

  pub count_none :
      (e : A) (xs : List A) → ((x : A) → OneOf x xs → equal less x e ≡ false) → count e xs ≡ 0
  count_none e [] h = refl
  count_none e (x ∷ xs) h =
      rw (h x (OneOf.first xs)) (count_none e xs (λ y o. h y (OneOf.later x xs o)))

  pub count_some : (e x : A) (xs : List A) → count e xs ≡ 0 → OneOf x xs → equal less x e ≡ false
  count_some e x [] h o = absurd (elim o [ ])
  count_some e x (y ∷ xs) h o = elim (Bool-cases (equal less y e)) [
    | inl q ↦ absurd (positive (rw q at h))
    | inr q ↦ elim (one_of-cons o) [
      | inl s ↦ ap (λ z. equal less z e) s ∙ q
      | inr o' ↦ count_some e x xs (rw q at h) o'
    ]
  ]
    where
      positive : suc (count e xs) ≡ 0 → ⊥
      positive z = omega arith

  -- Without the first element that equals one, what remains.
  pub removed_back : (e x : A) (xs : List A) → OneOf x (remove_first less xs e) → OneOf x xs
  unfolding remove_first
  removed_back e x [] o = o
  removed_back e x (y ∷ xs) o = elim (Bool-cases (equal less y e)) [
    | inl q ↦ OneOf.later y xs (rw q at o)
    | inr q ↦ elim (one_of-cons (rw q at o)) [
      | inl s ↦ subst (λ z. OneOf z (y ∷ xs)) (sym s) (OneOf.first xs)
      | inr o' ↦ OneOf.later y xs (removed_back e x xs o')
    ]
  ]

  pub removed_kept :
      (e x : A) (xs : List A)
      → OneOf x xs
      → equal less x e ≡ false
      → OneOf x (remove_first less xs e)
  unfolding remove_first
  removed_kept e x [] o n = o
  removed_kept e x (y ∷ xs) o n = elim (Bool-cases (equal less y e)) [
    | inl q ↦ rw q (elim (one_of-cons o) [
      | inl s ↦ absurd (cc (ap (λ z. equal less z e) s, q, n))
      | inr o' ↦ o'
    ])
    | inr q ↦ rw q (elim (one_of-cons o) [
      | inl s ↦
          subst (λ z. OneOf z (y ∷ remove_first less xs e)) (sym s)
            (OneOf.first (remove_first less xs e))
      | inr o' ↦ OneOf.later y (remove_first less xs e) (removed_kept e x xs o' n)
    ])
  ]

  pub removed_differs :
      (e x : A) (xs : List A)
      → count e xs ≤ 1
      → OneOf x (remove_first less xs e)
      → equal less x e ≡ false
  unfolding remove_first
  removed_differs e x [] h o = absurd (elim o [ ])
  removed_differs e x (y ∷ xs) h o = elim (Bool-cases (equal less y e)) [
    | inl q ↦ count_some e x xs (none_left (rw q at h)) (rw q at o)
    | inr q ↦ elim (one_of-cons (rw q at o)) [
      | inl s ↦ ap (λ z. equal less z e) s ∙ q
      | inr o' ↦ removed_differs e x xs (rw q at h) o'
    ]
  ]
    where
      none_left : suc (count e xs) ≤ 1 → count e xs ≡ 0
      none_left h = omega arith

  pub removed_count : (e x : A) (xs : List A) → count x (remove_first less xs e) ≤ count x xs
  unfolding remove_first
  removed_count e x [] = omega arith
  removed_count e x (y ∷ xs) = elim (Bool-cases (equal less y e)) [
    | inl q ↦ rw q (less_first (equal less y x))
    | inr q ↦ rw q (both (equal less y x) (removed_count e x xs))
  ]
    where
      less_first : (c : Bool) → count x xs ≤ (if c then suc (count x xs) else count x xs)
      less_first true = omega arith
      less_first false = omega arith

      both :
          (c : Bool)
          → count x (remove_first less xs e) ≤ count x xs
          → (if c then suc (count x (remove_first less xs e)) else count x (remove_first less xs e))
            ≤ (if c then suc (count x xs) else count x xs)
      both true h = omega arith
      both false h = h

  -- An element that equals `e` equals all that `e` does.
  pub count_le :
      (e f : A) (xs : List A)
      → ((x : A) → equal less x e ≡ true → equal less x f ≡ true)
      → count e xs ≤ count f xs
  count_le e f [] h = omega arith
  count_le e f (x ∷ xs) h = elim (Bool-cases (equal less x e)) [
    | inl q ↦ rw (q, h x q) (omega (arith, count_le e f xs h))
    | inr q ↦ rw q (more (equal less x f) (count_le e f xs h))
  ]
    where
      more :
          (c : Bool)
          → count e xs ≤ count f xs
          → count e xs ≤ (if c then suc (count f xs) else count f xs)
      more true h = omega arith
      more false h = h

module _ {ℓ} {A : Type ℓ} (hash : A → ℕ) (less : A → A → Bool)
    (compat : (x y : A) → equal less x y ≡ true → hash x ≡ hash y) where
  -- How many elements of the table equal `e`: they are in its bucket.
  abbrev pub copies : Hash A → A → ℕ
  copies h e = count less e (h.buckets (find_bucket hash h.bucket_cnt e))

  pub same_bucket :
      (cnt : ℕ) (x y : A) → equal less x y ≡ true → find_bucket hash cnt x ≡ find_bucket hash cnt y
  unfolding find_bucket
  same_bucket cnt x y q = ap (λ n. and_bits 32 n (cnt - 1)) (compat x y q)

  pub pushed_count :
      (cnt : ℕ) (new : ℕ → List A) (x e : A)
      → count less e (
          update new
            (find_bucket hash cnt x)
            (x ∷ new (find_bucket hash cnt x))
            (find_bucket hash cnt e))
        ≡ count less e (new (find_bucket hash cnt e)) + (if equal less x e then 1 else 0)
  pushed_count cnt new x e =
      go (find_bucket hash cnt x) (find_bucket hash cnt e) (same_bucket cnt x e)
    where
      here : (b : Bool) (n : ℕ) → (if b then suc n else n) ≡ n + (if b then 1 else 0)
      here true n = omega arith
      here false n = omega arith

      go :
          (i j : ℕ)
          → (equal less x e ≡ true → i ≡ j)
          → count less e (update new i (x ∷ new i) j)
            ≡ count less e (new j) + (if equal less x e then 1 else 0)
      go i j s = elim (Bool-cases (i == j)) [
        | inl q ↦
            subst
              (λ j.
                count less e (update new i (x ∷ new i) j)
                ≡ count less e (new j) + (if equal less x e then 1 else 0))
              (ground arith)
              (ap (count less e) (update_self new i (x ∷ new i))
                ∙ here (equal less x e) (count less e (new i)))
        | inr q ↦
            ap (count less e) (update_ne new i j (x ∷ new i) (λ z. ground arith))
            ∙ (elim (Bool-cases (equal less x e)) [
              | inl t ↦ absurd (differ (s t) q)
              | inr t ↦ rw t (omega arith)
            ])
      ]
        where
          differ : i ≡ j → (i == j) ≡ false → ⊥
          differ p q = ground arith

  bucket_count :
      (cnt : ℕ) (new : ℕ → List A) (xs : List A) (e : A)
      → count less e (move_bucket hash cnt new xs (find_bucket hash cnt e))
        ≡ count less e (new (find_bucket hash cnt e)) + count less e xs
  unfolding move_bucket
  bucket_count cnt new [] e = omega arith
  bucket_count cnt new (x ∷ xs) e =
      bucket_count cnt (update new (find_bucket hash cnt x) (x ∷ new (find_bucket hash cnt x))) xs e
      ∙ (ap (λ n. n + count less e xs) (pushed_count cnt new x e)
          ∙ sum (equal less x e) (count less e (new (find_bucket hash cnt e))) (count less e xs))
    where
      sum : (b : Bool) (m n : ℕ) → m + (if b then 1 else 0) + n ≡ m + (if b then suc n else n)
      sum true m n = omega arith
      sum false m n = omega arith

  -- The elements that equal `e` stand in one of the buckets that are moved.
  buckets_count :
      (cnt : ℕ) (old new : ℕ → List A) (b i left : ℕ) (e : A)
      → ((k : ℕ) → k ≢ b → count less e (old k) ≡ 0)
      → count less e (move_buckets hash cnt old new i left (find_bucket hash cnt e))
        ≤ count less e (new (find_bucket hash cnt e))
          + (if leb i b then count less e (old b) else 0)
  unfolding move_buckets
  buckets_count cnt old new b i zero e h = omega arith
  buckets_count cnt old new b i (suc left) e h =
      step
        (count less e (
          move_buckets hash cnt old (move_bucket hash cnt new (old i)) (i + 1) left
            (find_bucket hash cnt e)))
        (count less e (move_bucket hash cnt new (old i) (find_bucket hash cnt e)))
        (count less e (new (find_bucket hash cnt e))) (count less e (old i)) (count less e (old b))
        (buckets_count cnt old (move_bucket hash cnt new (old i)) b (i + 1) left e h)
        (bucket_count cnt new (old i) e) (h i) (λ q. ap (λ k. count less e (old k)) q)
    where
      step :
          (final moved before here there : ℕ)
          → final ≤ moved + (if leb (i + 1) b then there else 0)
          → moved ≡ before + here
          → (i ≢ b → here ≡ 0)
          → (i ≡ b → here ≡ there)
          → final ≤ before + (if leb i b then there else 0)
      step final moved before here there l m n p = ground arith

  pub copies-rehash :
      (memory : Bool) (h : Hash A) (e : A)
      → IsPlaced hash h
      → copies (rehash hash memory h) e ≤ copies h e
  unfolding rehash
  copies-rehash memory h e v = go (not (ideal_bucket_cnt h.elem_cnt == h.bucket_cnt) && memory)
    where
      b : ℕ
      b = find_bucket hash h.bucket_cnt e

      cnt : ℕ
      cnt = ideal_bucket_cnt h.elem_cnt

      elsewhere : (k : ℕ) → k ≢ b → count less e (h.buckets k) ≡ 0
      elsewhere k n = count_none less e (h.buckets k) (λ x o. elim (Bool-cases (equal less x e)) [
        | inl q ↦ absurd (n (sym (v.placed x k o) ∙ same_bucket h.bucket_cnt x e q))
        | inr q ↦ q
      ])

      go :
          (r : Bool)
          → copies
              (if r
                then record h {
                  bucket_cnt = cnt;
                  buckets = move_buckets hash cnt h.buckets (λ i. []) 0 h.bucket_cnt;
                }
                else h)
              e
            ≤ copies h e
      go true =
          clean (count less e (h.buckets b))
            (buckets_count cnt h.buckets (λ i. []) b 0 h.bucket_cnt e elsewhere)
        where
          clean :
              (n : ℕ)
              → count less e (
                  move_buckets hash cnt h.buckets (λ i. []) 0 h.bucket_cnt (find_bucket hash cnt e))
                ≤ 0 + (if leb 0 b then n else 0)
              → count less e (
                  move_buckets hash cnt h.buckets (λ i. []) 0 h.bucket_cnt (find_bucket hash cnt e))
                ≤ n
          clean n l = ground arith
      go false = omega arith
