-- ===== src/HashTable/Buckets.antt =====
-- hash.c: which elements the buckets hold, before and after they are moved.
use mathlib.Core.Path.{subst}
use buaa755os.Base.{
  ℕ, zero, suc, ◌+◌, ◌-◌, ◌/◌, ◌≤◌, ◌<◌, ◌≡◌, refl, true, false, not, ◌&&◌, List, [], ◌∷◌, update,
  update_self, if◌then◌else◌, ltb, ◌==◌, inl, inr, ◌⊎◌, arith, ap, ◌∙◌, sym, Bool-cases,
}
use buaa755os.HashTable.{
  and_bits, turn_off_least_1bit, is_power_of_2, round_down, find_bucket, move_bucket, move_buckets,
  ideal_bucket_cnt,
}

and_bits_le : (bits a b : ℕ) → and_bits bits a b ≤ b
unfolding and_bits
and_bits_le zero a b = omega arith
and_bits_le (suc bits) a b = ground (arith, and_bits_le bits (a / 2) (b / 2))

turn_off_le : (x : ℕ) → turn_off_least_1bit x ≤ x - 1
unfolding turn_off_least_1bit
turn_off_le x = and_bits_le 32 x (x - 1)

smaller :
    (x fuel : ℕ)
    → 0 < x
    → x ≤ suc fuel
    → is_power_of_2 x ≡ false
    → (0 < turn_off_least_1bit x) × (turn_off_least_1bit x ≤ fuel)
unfolding is_power_of_2
smaller x fuel p h e = go (turn_off_least_1bit x) (turn_off_le x) e
  where
    go : (t : ℕ) → t ≤ x - 1 → (not (x == 0) && t == 0) ≡ false → (0 < t) × (t ≤ fuel)
    go t le e = ground arith

power_pos : (x : ℕ) → is_power_of_2 x ≡ true → 0 < x
unfolding is_power_of_2
power_pos x h = ground arith

-- The loop of rehash ends with a power of 2.
round_down_lem : (fuel x : ℕ) → 0 < x → x ≤ fuel → is_power_of_2 (round_down fuel x) ≡ true
unfolding round_down
round_down_lem zero x p h = absurd (omega arith)
round_down_lem (suc fuel) x p h = elim (Bool-cases (is_power_of_2 x)) [
  | inl e ↦ rw e e
  | inr e ↦
      let (pos, le) = smaller x fuel p h e in
      rw e (round_down_lem fuel (turn_off_least_1bit x) pos le)
]

pub ideal_pos : (n : ℕ) → 0 < ideal_bucket_cnt n
unfolding ideal_bucket_cnt
ideal_pos n =
    let m = if ltb (n / 2) 4 then 4 else n / 2 in
    power_pos (round_down m m) (round_down_lem m m (ground arith) (omega arith))

-- An element of a list.
pub data OneOf {ℓ} {A : Type ℓ} (x : A) : List A → Type ℓ where
  first : (xs : List A) → OneOf x (x ∷ xs)
  later : (y : A) (xs : List A) → OneOf x xs → OneOf x (y ∷ xs)

pub one_of-cons {ℓ} : {A : Type ℓ} {x y : A} {ys : List A} → OneOf x (y ∷ ys) → (x ≡ y) ⊎ OneOf x ys
one_of-cons (OneOf.first xs) = inl refl
one_of-cons (OneOf.later y xs o) = inr o

module _ {ℓ} {A : Type ℓ} (hash : A → ℕ) where
  pub bucket_in : (cnt : ℕ) (e : A) → 0 < cnt → find_bucket hash cnt e < cnt
  unfolding find_bucket
  bucket_in cnt e h = omega (arith, and_bits_le 32 (hash e) (cnt - 1))

  -- An element pushed in front of a bucket is in it, and no element is lost.
  pub pushed_self : (new : ℕ → List A) (e : A) (i : ℕ) → OneOf e (update new i (e ∷ new i) i)
  pushed_self new e i = rw (update_self new i (e ∷ new i)) (OneOf.first (new i))

  pub pushed_kept :
      (new : ℕ → List A) (e x : A) (i j : ℕ)
      → OneOf x (new j)
      → OneOf x (update new i (e ∷ new i) j)
  pushed_kept new e x i j h = elim (Bool-cases (i == j)) [
    | inl same ↦
        rw same (OneOf.later e (new i) (subst (λ k. OneOf x (new k)) (sym (ground arith)) h))
    | inr differ ↦ rw differ h
  ]

  pub pushed_inv :
      (new : ℕ → List A) (e x : A) (i j : ℕ)
      → OneOf x (update new i (e ∷ new i) j)
      → ((x ≡ e) × (i ≡ j)) ⊎ OneOf x (new j)
  pushed_inv new e x i j h = elim (Bool-cases (i == j)) [
    | inl same ↦ go (ground arith) (one_of-cons (rw same at h))
    | inr differ ↦ inr (rw differ at h)
  ]
    where
      go : i ≡ j → (x ≡ e) ⊎ OneOf x (new i) → ((x ≡ e) × (i ≡ j)) ⊎ OneOf x (new j)
      go s (inl q) = inl (q, s)
      go s (inr o) = inr (subst (λ k. OneOf x (new k)) s o)

  -- The buckets after one element has been moved.
  abbrev push : ℕ → (ℕ → List A) → A → ℕ → List A
  push cnt new e = update new (find_bucket hash cnt e) (e ∷ new (find_bucket hash cnt e))

  bucket_kept :
      (cnt : ℕ) (new : ℕ → List A) (es : List A) (x : A) (j : ℕ)
      → OneOf x (new j)
      → OneOf x (move_bucket hash cnt new es j)
  unfolding move_bucket
  bucket_kept cnt new [] x j h = h
  bucket_kept cnt new (e ∷ es) x j h =
      bucket_kept cnt (push cnt new e) es x j (pushed_kept new e x (find_bucket hash cnt e) j h)

  bucket_moved :
      (cnt : ℕ) (x : A) (new : ℕ → List A) (es : List A)
      → OneOf x es
      → OneOf x (move_bucket hash cnt new es (find_bucket hash cnt x))
  unfolding move_bucket
  bucket_moved cnt x new _ (OneOf.first xs) =
      bucket_kept cnt (push cnt new x) xs x (find_bucket hash cnt x)
        (pushed_self new x (find_bucket hash cnt x))
  bucket_moved cnt x new _ (OneOf.later y xs o) = bucket_moved cnt x (push cnt new y) xs o

  bucket_inv :
      (cnt : ℕ) (new : ℕ → List A) (es : List A) (x : A) (j : ℕ)
      → OneOf x (move_bucket hash cnt new es j)
      → (OneOf x es × (find_bucket hash cnt x ≡ j)) ⊎ OneOf x (new j)
  unfolding move_bucket
  bucket_inv cnt new [] x j h = inr h
  bucket_inv cnt new (e ∷ es) x j h = go (bucket_inv cnt (push cnt new e) es x j h)
    where
      back :
          ((x ≡ e) × (find_bucket hash cnt e ≡ j)) ⊎ OneOf x (new j)
          → (OneOf x (e ∷ es) × (find_bucket hash cnt x ≡ j)) ⊎ OneOf x (new j)
      back (inl (q, s)) =
          inl (
            subst (λ y. OneOf y (e ∷ es)) (sym q) (OneOf.first es),
            ap (find_bucket hash cnt) q ∙ s,
          )
      back (inr o) = inr o

      go :
          (OneOf x es × (find_bucket hash cnt x ≡ j))
            ⊎ OneOf x (update new (find_bucket hash cnt e) (e ∷ new (find_bucket hash cnt e)) j)
          → (OneOf x (e ∷ es) × (find_bucket hash cnt x ≡ j)) ⊎ OneOf x (new j)
      go (inl (o, s)) = inl (OneOf.later e es o, s)
      go (inr o) = back (pushed_inv new e x (find_bucket hash cnt e) j o)

  buckets_kept :
      (cnt : ℕ) (old new : ℕ → List A) (i left : ℕ) (x : A) (j : ℕ)
      → OneOf x (new j)
      → OneOf x (move_buckets hash cnt old new i left j)
  unfolding move_buckets
  buckets_kept cnt old new i zero x j h = h
  buckets_kept cnt old new i (suc left) x j h =
      buckets_kept cnt old (move_bucket hash cnt new (old i)) (i + 1) left x j
        (bucket_kept cnt new (old i) x j h)

  pub buckets_moved :
      (cnt : ℕ) (old new : ℕ → List A) (i left k : ℕ) (x : A)
      → i ≤ k
      → k < i + left
      → OneOf x (old k)
      → OneOf x (move_buckets hash cnt old new i left (find_bucket hash cnt x))
  unfolding move_buckets
  buckets_moved cnt old new i zero k x lo hi h = absurd (omega arith)
  buckets_moved cnt old new i (suc left) k x lo hi h = elim (Bool-cases (i == k)) [
    | inl here ↦
        buckets_kept cnt old (move_bucket hash cnt new (old i)) (i + 1) left x
          (find_bucket hash cnt x)
          (bucket_moved cnt x new (old i) (subst (λ n. OneOf x (old n)) (ground arith) h))
    | inr further ↦
        buckets_moved cnt old (move_bucket hash cnt new (old i)) (i + 1) left k x (ground arith)
          (omega arith) h
  ]

  pub buckets_inv :
      (cnt : ℕ) (old new : ℕ → List A) (i left : ℕ) (x : A) (j : ℕ)
      → OneOf x (move_buckets hash cnt old new i left j)
      → ((k : ℕ) × OneOf x (old k) × (find_bucket hash cnt x ≡ j)) ⊎ OneOf x (new j)
  unfolding move_buckets
  buckets_inv cnt old new i zero x j h = inr h
  buckets_inv cnt old new i (suc left) x j h =
      go (buckets_inv cnt old (move_bucket hash cnt new (old i)) (i + 1) left x j h)
    where
      back :
          (OneOf x (old i) × (find_bucket hash cnt x ≡ j)) ⊎ OneOf x (new j)
          → ((k : ℕ) × OneOf x (old k) × (find_bucket hash cnt x ≡ j)) ⊎ OneOf x (new j)
      back (inl (o, s)) = inl (i, o, s)
      back (inr o) = inr o

      go :
          ((k : ℕ) × OneOf x (old k) × (find_bucket hash cnt x ≡ j))
            ⊎ OneOf x (move_bucket hash cnt new (old i) j)
          → ((k : ℕ) × OneOf x (old k) × (find_bucket hash cnt x ≡ j)) ⊎ OneOf x (new j)
      go (inl (k, o, s)) = inl (k, o, s)
      go (inr o) = back (bucket_inv cnt new (old i) x j o)
