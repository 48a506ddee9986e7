-- ===== src/KernelList/Ordered.antt =====
-- The ordered operations of list.c: where list_insert_ordered puts an element of a list in
-- descending order, what list_remove leaves, and which element list_max picks.
use buaa755os.Base.{
  ℕ, ◌≤◌, ◌<◌, ◌≡◌, ◌≢◌, refl, Bool, some, List, [], ◌∷◌, ◌++◌, ◌==◌, ltb, arith, Bool-cases, inl,
  inr, sym, ltb→lt,
}
use mathlib.Core.List.{append_assoc, append-nil}
use buaa755os.KernelList.{list_insert_ordered, list_remove, list_max, max_from}

-- A predicate of every element.
abbrev pub All {ℓ κ} : {A : Type ℓ} → (A → Type κ) → List A → Type κ
All P [] = Unit
All P (x ∷ xs) = P x × All P xs

pub All-map {ℓ κ} :
    {A : Type ℓ} {P Q : A → Type κ} (xs : List A) → ((a : A) → P a → Q a) → All P xs → All Q xs
All-map [] f h = tt
All-map (x ∷ xs) f h = (f x h.0, All-map xs f h.1)

pub All-append {ℓ κ} :
    {A : Type ℓ} (P : A → Type κ) (xs ys : List A) → All P xs → All P ys → All P (xs ++ ys)
All-append P [] ys h k = k
All-append P (x ∷ xs) ys h k = (h.0, All-append P xs ys h.1 k)

abbrev pub NotIn : ℕ → List ℕ → Type 0
NotIn t xs = All (λ u. t ≢ u) xs

abbrev pub Distinct : List ℕ → Type 0
Distinct [] = Unit
Distinct (x ∷ xs) = NotIn x xs × Distinct xs

-- In descending order of the key.
abbrev pub Descending : (ℕ → ℕ) → List ℕ → Type 0
Descending key [] = Unit
Descending key (x ∷ xs) = All (λ y. key y ≤ key x) xs × Descending key xs

-- The order that puts the greatest key in front.
abbrev pub greater : (ℕ → ℕ) → ℕ → ℕ → Bool
greater key a b = ltb (key b) (key a)

pub insert-All {κ} :
    (P : ℕ → Type κ) (less : ℕ → ℕ → Bool) (x : ℕ) (xs : List ℕ)
    → P x
    → All P xs
    → All P (list_insert_ordered less x xs)
unfolding list_insert_ordered
insert-All P less x [] p h = (p, tt)
insert-All P less x (e ∷ es) p h = elim (Bool-cases (less x e)) [
  | inl here ↦ rw here (p, h)
  | inr later ↦ rw later (h.0, insert-All P less x es p h.1)
]

pub insert-Distinct :
    (less : ℕ → ℕ → Bool) (x : ℕ) (xs : List ℕ)
    → NotIn x xs
    → Distinct xs
    → Distinct (list_insert_ordered less x xs)
unfolding list_insert_ordered
insert-Distinct less x [] n d = (tt, tt)
insert-Distinct less x (e ∷ es) n d = elim (Bool-cases (less x e)) [
  | inl here ↦ rw here (n, d)
  | inr later ↦
      rw later (
        insert-All (λ u. e ≢ u) less x es (λ q. n.0 (sym q)) d.0,
        insert-Distinct less x es n.1 d.1,
      )
]

pub insert-Descending :
    (key : ℕ → ℕ) (x : ℕ) (xs : List ℕ)
    → Descending key xs
    → Descending key (list_insert_ordered (greater key) x xs)
unfolding list_insert_ordered
insert-Descending key x [] d = (tt, tt)
insert-Descending key x (e ∷ es) d = elim (Bool-cases (greater key x e)) [
  | inl here ↦ rw here (
    (
      omega (arith, ltb→lt (key e) (key x) here),
      All-map es (λ u q. omega (arith, ltb→lt (key e) (key x) here)) d.0,
    ),
    d,
  )
  | inr later ↦ rw later (
    insert-All (λ u. key u ≤ key e) (greater key) x es (ground arith) d.0,
    insert-Descending key x es d.1,
  )
]

-- Only the keys of the listed elements matter.
pub Descending-agree :
    (f g : ℕ → ℕ) (xs : List ℕ) → All (λ u. f u ≡ g u) xs → Descending f xs → Descending g xs
Descending-agree f g [] a d = tt
Descending-agree f g (x ∷ xs) a d = (zip xs a.1 d.0, Descending-agree f g xs a.1 d.1)
  where
    zip :
        (ys : List ℕ) → All (λ u. f u ≡ g u) ys → All (λ u. f u ≤ f x) ys → All (λ u. g u ≤ g x) ys
    zip [] e h = tt
    zip (y ∷ ys) e h = (omega (arith, a.0, e.0, h.0), zip ys e.1 h.1)

pub remove-All {κ} : (P : ℕ → Type κ) (x : ℕ) (xs : List ℕ) → All P xs → All P (list_remove x xs)
unfolding list_remove
remove-All P x [] h = tt
remove-All P x (e ∷ es) h = elim (Bool-cases (x == e)) [
  | inl here ↦ rw here h.1
  | inr later ↦ rw later (h.0, remove-All P x es h.1)
]

pub remove-Distinct : (x : ℕ) (xs : List ℕ) → Distinct xs → Distinct (list_remove x xs)
unfolding list_remove
remove-Distinct x [] d = tt
remove-Distinct x (e ∷ es) d = elim (Bool-cases (x == e)) [
  | inl here ↦ rw here d.1
  | inr later ↦ rw later (remove-All (λ u. e ≢ u) x es d.0, remove-Distinct x es d.1)
]

pub remove-Descending :
    (key : ℕ → ℕ) (x : ℕ) (xs : List ℕ) → Descending key xs → Descending key (list_remove x xs)
unfolding list_remove
remove-Descending key x [] d = tt
remove-Descending key x (e ∷ es) d = elim (Bool-cases (x == e)) [
  | inl here ↦ rw here d.1
  | inr later ↦ rw later (remove-All (λ u. key u ≤ key e) x es d.0, remove-Descending key x es d.1)
]

pub remove-NotIn : (x : ℕ) (xs : List ℕ) → Distinct xs → NotIn x (list_remove x xs)
unfolding list_remove
remove-NotIn x [] d = tt
remove-NotIn x (e ∷ es) d = elim (Bool-cases (x == e)) [
  | inl here ↦ rw here (let q : x ≡ e = ground arith in rw q d.0)
  | inr later ↦ rw later (ground arith, remove-NotIn x es d.1)
]

-- The element that list_max picks: no later one is greater, and every earlier one is less.
pub record IsMax (key : ℕ → ℕ) (xs : List ℕ) (m : ℕ) : Type 0 where
  pub before : List ℕ
  pub after : List ℕ
  pub split : xs ≡ before ++ m ∷ after
  pub less_before : All (λ u. key u < key m) before
  pub le_after : All (λ u. key u ≤ key m) after

-- The loop, with the greatest element so far behind smaller ones and before no greater ones.
max_from_lem :
    (key : ℕ → ℕ) (before : List ℕ) (m : ℕ) (mid es : List ℕ)
    → All (λ u. key u < key m) before
    → All (λ u. key u ≤ key m) mid
    → IsMax key (before ++ m ∷ (mid ++ es)) (max_from (λ a b. ltb (key a) (key b)) m es)
unfolding max_from
max_from_lem key before m mid [] b a = record {
  before = before;
  after = mid;
  split = rw (append-nil mid);
  less_before = b;
  le_after = a;
}
max_from_lem key before m mid (e ∷ es) b a = elim (Bool-cases (ltb (key m) (key e))) [
  | inl up ↦
      let lt = ltb→lt (key m) (key e) up in
      let all_less : All (λ u. key u < key e) (before ++ m ∷ mid) =
        All-append (λ u. key u < key e) before (m ∷ mid) (All-map before (λ u h. omega arith) b)
          (lt, All-map mid (λ u h. omega arith) a) in
      rw (up, ← append_assoc before (m ∷ mid) (e ∷ es))
        (max_from_lem key (before ++ m ∷ mid) e [] es all_less tt)
  | inr stay ↦
      rw (stay, ← append_assoc mid (e ∷ []) es)
        (max_from_lem key before m (mid ++ e ∷ []) es b
          (All-append (λ u. key u ≤ key m) mid (e ∷ []) a (ground arith, tt)))
]

-- list_max, over a list that is not empty, picks the earliest of the elements with the greatest
-- key: every element before it has a smaller key, and none after it has a greater one.
pub list_max_lem :
    (key : ℕ → ℕ) (x : ℕ) (xs : List ℕ)
    → (m : ℕ) × (list_max (λ a b. ltb (key a) (key b)) (x ∷ xs) ≡ some m) × IsMax key (x ∷ xs) m
unfolding list_max
list_max_lem key x xs = (_, refl, max_from_lem key [] x [] xs tt tt)
