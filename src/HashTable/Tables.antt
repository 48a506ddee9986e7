-- ===== src/HashTable/Tables.antt =====
-- hash.c: a table as a set of elements, each of which stands in its bucket.
use mathlib.Core.Path.{subst}
use buaa755os.Base.{
  ℕ, ◌<◌, ◌≡◌, Bool, true, false, not, ◌&&◌, [], ◌∷◌, update, if◌then◌else◌, ◌==◌, ◌↔◌, inl, inr,
  ◌⊎◌, arith, ap, ◌∙◌, sym,
}
use buaa755os.HashTable.{Hash, find_bucket, insert_elem, move_buckets, ideal_bucket_cnt, rehash}
use buaa755os.HashTable.Buckets.{
  OneOf, bucket_in, ideal_pos, buckets_moved, buckets_inv, pushed_self, pushed_kept, pushed_inv,
}

module _ {ℓ} {A : Type ℓ} (hash : A → ℕ) where
  -- An element of the table stands in the bucket where it is looked for.
  abbrev pub In : Hash A → A → Type ℓ
  In h x = OneOf x (h.buckets (find_bucket hash h.bucket_cnt x))

  -- Each element stands in its bucket.
  pub record IsPlaced (h : Hash A) : Type ℓ where
    pub some_buckets : 0 < h.bucket_cnt
    pub placed : (x : A) (j : ℕ) → OneOf x (h.buckets j) → find_bucket hash h.bucket_cnt x ≡ j

  -- rehash keeps the elements.
  moved_inv :
      (h : Hash A) (cnt : ℕ) (x : A) (j : ℕ)
      → IsPlaced h
      → ((k : ℕ) × OneOf x (h.buckets k) × (find_bucket hash cnt x ≡ j)) ⊎ OneOf x []
      → In h x × (find_bucket hash cnt x ≡ j)
  moved_inv h cnt x j v (inl (k, o, s)) =
      (subst (λ n. OneOf x (h.buckets n)) (sym (v.placed x k o)) o, s)
  moved_inv h cnt x j v (inr o) = absurd (elim o [ ])

  moved : Hash A → ℕ → Hash A
  moved h cnt = record h {
    bucket_cnt = cnt;
    buckets = move_buckets hash cnt h.buckets (λ i. []) 0 h.bucket_cnt;
  }

  moved-IsPlaced :
      (h : Hash A) (cnt : ℕ)
      → 0 < cnt
      → IsPlaced h
      → IsPlaced (moved h cnt) × ((x : A) → In (moved h cnt) x ↔ In h x)
  unfolding moved
  moved-IsPlaced h cnt pos v = (
    record { some_buckets = pos; placed = λ x j o. (back x j o).1 },
    λ x. (
      (λ o. (back x (find_bucket hash cnt x) o).0),
      (λ o.
          buckets_moved hash cnt h.buckets (λ i. []) 0 h.bucket_cnt
            (find_bucket hash h.bucket_cnt x) x (omega arith)
            (omega (arith, bucket_in hash h.bucket_cnt x v.some_buckets)) o),
    ),
  )
    where
      back :
          (x : A) (j : ℕ)
          → OneOf x (move_buckets hash cnt h.buckets (λ i. []) 0 h.bucket_cnt j)
          → In h x × (find_bucket hash cnt x ≡ j)
      back x j o =
          moved_inv h cnt x j v (buckets_inv hash cnt h.buckets (λ i. []) 0 h.bucket_cnt x j o)

  pub rehash-IsPlaced :
      (memory : Bool) (h : Hash A)
      → IsPlaced h
      → IsPlaced (rehash hash memory h) × ((x : A) → In (rehash hash memory h) x ↔ In h x)
  unfolding rehash moved
  rehash-IsPlaced memory h v = go (not (ideal_bucket_cnt h.elem_cnt == h.bucket_cnt) && memory)
    where
      go :
          (b : Bool)
          → IsPlaced (if b then moved h (ideal_bucket_cnt h.elem_cnt) else h)
            × ((x : A) → In (if b then moved h (ideal_bucket_cnt h.elem_cnt) else h) x ↔ In h x)
      go false = (v, λ x. ((λ o. o), (λ o. o)))
      go true = moved-IsPlaced h (ideal_bucket_cnt h.elem_cnt) (ideal_pos h.elem_cnt) v

  pub insert_elem-IsPlaced :
      (h : Hash A) (e : A)
      → IsPlaced h
      → IsPlaced (insert_elem h (find_bucket hash h.bucket_cnt e) e)
        × ((x : A) → In (insert_elem h (find_bucket hash h.bucket_cnt e) e) x ↔ ((x ≡ e) ⊎ In h x))
  unfolding insert_elem
  insert_elem-IsPlaced h e v = (
    record {
      some_buckets = v.some_buckets;
      placed = λ x j o. stands x j (pushed_inv hash h.buckets e x i j o);
    },
    λ x. (
      (λ o. one x (pushed_inv hash h.buckets e x i (find_bucket hash h.bucket_cnt x) o)),
      (λ s. into x s),
    ),
  )
    where
      i : ℕ
      i = find_bucket hash h.bucket_cnt e

      stands :
          (x : A) (j : ℕ)
          → ((x ≡ e) × (i ≡ j)) ⊎ OneOf x (h.buckets j)
          → find_bucket hash h.bucket_cnt x ≡ j
      stands x j (inl (q, s)) = ap (find_bucket hash h.bucket_cnt) q ∙ s
      stands x j (inr o) = v.placed x j o

      one : (x : A) → ((x ≡ e) × (i ≡ find_bucket hash h.bucket_cnt x)) ⊎ In h x → (x ≡ e) ⊎ In h x
      one x (inl (q, s)) = inl q
      one x (inr o) = inr o

      into :
          (x : A)
          → (x ≡ e) ⊎ In h x
          → OneOf x (update h.buckets i (e ∷ h.buckets i) (find_bucket hash h.bucket_cnt x))
      into x (inl q) =
          subst
            (λ y. OneOf y (update h.buckets i (e ∷ h.buckets i) (find_bucket hash h.bucket_cnt y)))
            (sym q) (pushed_self hash h.buckets e i)
      into x (inr o) = pushed_kept hash h.buckets e x i (find_bucket hash h.bucket_cnt x) o
