-- ===== src/HashTable.antt =====
-- pintos_3/src/lib/kernel/hash.c: a table of elements, chained in as many buckets as fit their number.
pub mod Buckets
pub mod Tables
pub mod Inserts
pub mod Counts
pub mod Deletes
pub mod Replaces
mod Tests
use buaa755os.Base.{
  ℕ, zero, suc, ◌+◌, ◌-◌, ◌*◌, ◌/◌, ◌%◌, Bool, true, false, not, ◌&&◌, Option, none, some, List, [],
  ◌∷◌, update, if◌then◌else◌, ltb, ◌==◌,
}

-- a & b, on the low bits.
unfoldable pub and_bits : ℕ → ℕ → ℕ → ℕ
and_bits zero a b = 0
and_bits (suc bits) a b =
    (if (a % 2 == 1) && (b % 2 == 1) then 1 else 0) + 2 * and_bits bits (a / 2) (b / 2)

unfoldable pub turn_off_least_1bit : ℕ → ℕ
unfolding and_bits
turn_off_least_1bit x = and_bits 32 x (x - 1)

unfoldable pub is_power_of_2 : ℕ → Bool
is_power_of_2 x = not (x == 0) && turn_off_least_1bit x == 0

-- The loop of rehash that makes a power of 2; each round makes the number less.
unfoldable pub round_down : ℕ → ℕ → ℕ
round_down zero x = x
round_down (suc fuel) x = if is_power_of_2 x then x else round_down fuel (turn_off_least_1bit x)

-- `struct hash`, less its functions, and the buckets by their index.
pub record Hash {ℓ} (A : Type ℓ) : Type ℓ where
  pub elem_cnt : ℕ
  pub bucket_cnt : ℕ
  pub buckets : ℕ → List A

module _ {ℓ} {A : Type ℓ} where
  -- hash_init, where malloc returned memory or not.
  unfoldable pub hash_init : Bool → Option (Hash A)
  hash_init true = some (record { elem_cnt = 0; bucket_cnt = 4; buckets = λ i. [] })
  hash_init false = none

  unfoldable pub insert_elem : Hash A → ℕ → A → Hash A
  insert_elem h bucket e = record h {
    elem_cnt = h.elem_cnt + 1;
    buckets = update h.buckets bucket (e ∷ h.buckets bucket);
  }

module _ {ℓ} {A : Type ℓ} (less : A → A → Bool) where
  unfoldable pub equal : A → A → Bool
  equal x e = not (less x e) && not (less e x)

  unfoldable pub find_elem : List A → A → Option A
  unfolding equal
  find_elem [] e = none
  find_elem (x ∷ xs) e = if equal x e then some x else find_elem xs e

  -- list_remove of the element that find_elem finds.
  unfoldable pub remove_first : List A → A → List A
  unfolding equal
  remove_first [] e = []
  remove_first (x ∷ xs) e = if equal x e then xs else x ∷ remove_first xs e

  unfoldable pub remove_elem : Hash A → ℕ → A → Hash A
  unfolding remove_first
  remove_elem h bucket e = record h {
    elem_cnt = h.elem_cnt - 1;
    buckets = update h.buckets bucket (remove_first (h.buckets bucket) e);
  }

unfoldable pub ideal_bucket_cnt : ℕ → ℕ
unfolding round_down
ideal_bucket_cnt elem_cnt =
    let n = if ltb (elem_cnt / 2) 4 then 4 else elem_cnt / 2 in round_down n n

module _ {ℓ} {A : Type ℓ} (hash : A → ℕ) where
  -- The bucket that an element belongs in, in a table of so many.
  unfoldable pub find_bucket : ℕ → A → ℕ
  find_bucket bucket_cnt e = and_bits 32 (hash e) (bucket_cnt - 1)

  -- The inner loop of rehash, over the elements of an old bucket.
  unfoldable pub move_bucket : ℕ → (ℕ → List A) → List A → ℕ → List A
  move_bucket cnt new [] = new
  move_bucket cnt new (e ∷ es) =
      let i = find_bucket cnt e in move_bucket cnt (update new i (e ∷ new i)) es

  -- The outer loop, over the `left` old buckets from one on.
  unfoldable pub move_buckets : ℕ → (ℕ → List A) → (ℕ → List A) → ℕ → ℕ → ℕ → List A
  unfolding move_bucket
  move_buckets cnt old new i zero = new
  move_buckets cnt old new i (suc left) =
      move_buckets cnt old (move_bucket cnt new (old i)) (i + 1) left

  -- rehash, where malloc returns memory for new buckets or not.
  unfoldable pub rehash : Bool → Hash A → Hash A
  rehash memory h =
      let cnt = ideal_bucket_cnt h.elem_cnt in
      if not (cnt == h.bucket_cnt) && memory
      then record h {
        bucket_cnt = cnt;
        buckets = move_buckets cnt h.buckets (λ i. []) 0 h.bucket_cnt;
      }
      else h

module _ {ℓ} {A : Type ℓ} (hash : A → ℕ) (less : A → A → Bool) where
  unfoldable pub hash_find : Hash A → A → Option A
  hash_find h e = find_elem less (h.buckets (find_bucket hash h.bucket_cnt e)) e

  -- The end of hash_insert, for the element that was found.
  unfoldable pub insert_found : Bool → Hash A → A → Option A → Option A × Hash A
  insert_found memory h e none =
      (none, rehash hash memory (insert_elem h (find_bucket hash h.bucket_cnt e) e))
  insert_found memory h e (some old) = (some old, rehash hash memory h)

  unfoldable pub hash_insert : Bool → Hash A → A → Option A × Hash A
  unfolding insert_found hash_find
  hash_insert memory h e = insert_found memory h e (hash_find h e)

  -- The end of hash_replace.
  unfoldable pub replace_found : Bool → Hash A → A → Option A → Option A × Hash A
  replace_found memory h e none =
      (none, rehash hash memory (insert_elem h (find_bucket hash h.bucket_cnt e) e))
  replace_found memory h e (some old) =
      let bucket = find_bucket hash h.bucket_cnt e in
      (some old, rehash hash memory (insert_elem (remove_elem less h bucket e) bucket e))

  unfoldable pub hash_replace : Bool → Hash A → A → Option A × Hash A
  unfolding replace_found hash_find
  hash_replace memory h e = replace_found memory h e (hash_find h e)

  -- The end of hash_delete.
  unfoldable pub delete_found : Bool → Hash A → A → Option A → Option A × Hash A
  delete_found memory h e none = (none, h)
  delete_found memory h e (some old) =
      (some old, rehash hash memory (remove_elem less h (find_bucket hash h.bucket_cnt e) e))

  unfoldable pub hash_delete : Bool → Hash A → A → Option A × Hash A
  unfolding delete_found hash_find
  hash_delete memory h e = delete_found memory h e (hash_find h e)

unfoldable pub hash_size {ℓ} : {A : Type ℓ} → Hash A → ℕ
hash_size h = h.elem_cnt

unfoldable pub hash_empty {ℓ} : {A : Type ℓ} → Hash A → Bool
hash_empty h = h.elem_cnt == 0
