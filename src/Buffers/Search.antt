-- ===== src/Buffers/Search.antt =====
-- buffers.c: what the searches of the cache find, and what a turn does to its buffer.
use buaa755os.Base.{
  ℕ, ◌≡◌, ◌≢◌, refl, Bool, true, false, not, ◌&&◌, ◌||◌, Option, none, some, List, [], ◌∷◌,
  if◌then◌else◌, ◌==◌, inl, inr, ◌⊎◌, arith, ap, ◌∙◌, Bool-cases,
}
use buaa755os.Buffers.{
  Buffer, Cache, uint_max, or_else, preferred, acquire_from, get_buffer_to_acquire, write_back_from,
  get_buffer_to_write_back,
}
use buaa755os.HashTable.Buckets.{OneOf, one_of-cons}

-- No buffer of the list holds or evicts the sector.
abbrev pub Absent : (ℕ → Buffer) → ℕ → List ℕ → Type 0
Absent buffers s is =
    (j : ℕ) → OneOf j is → (s ≢ (buffers j).sector) × (s ≢ (buffers j).evicting_sector)

-- A buffer of which nobody needs the sector.
abbrev pub IsUnused : Buffer → Type 0
IsUnused b = (b.waiting ≡ 0) × (b.in_use ≡ false)

-- The buffer found holds or evicts the sector, or no buffer does and it is unused.
abbrev pub AcquireResult : (ℕ → Buffer) → ℕ → List ℕ → Option ℕ → Type 0
AcquireResult buffers s is none = Absent buffers s is
AcquireResult buffers s is (some i) =
    ((s ≡ (buffers i).sector) ⊎ (s ≡ (buffers i).evicting_sector))
    ⊎ (Absent buffers s is × IsUnused (buffers i))

abbrev Candidate : (ℕ → Buffer) → Option ℕ → Type 0
Candidate buffers none = Unit
Candidate buffers (some i) = IsUnused (buffers i)

or_else_lem :
    (buffers : ℕ → Buffer) (b : Bool) (o : Option ℕ) (i : ℕ)
    → Candidate buffers o
    → (b ≡ true → IsUnused (buffers i))
    → Candidate buffers (if b then or_else o i else o)
or_else_lem buffers true none i h u = u refl
or_else_lem buffers true (some j) i h u = h
or_else_lem buffers false o i h u = h

preferred_lem :
    (buffers : ℕ → Buffer) (s : ℕ) (d m : Option ℕ)
    → Candidate buffers d
    → Candidate buffers m
    → AcquireResult buffers s [] (preferred d m)
preferred_lem buffers s none none hd hm = λ j o. absurd (elim o [ ])
preferred_lem buffers s none (some i) hd hm = inr ((λ j o. absurd (elim o [ ])), hm)
preferred_lem buffers s (some i) m hd hm = inr ((λ j o. absurd (elim o [ ])), hd)

one_more :
    (buffers : ℕ → Buffer) (s i : ℕ) (is : List ℕ) (r : Option ℕ)
    → s ≢ (buffers i).sector
    → s ≢ (buffers i).evicting_sector
    → AcquireResult buffers s is r
    → AcquireResult buffers s (i ∷ is) r
one_more buffers s i is r n e h = go r h
  where
    absent : Absent buffers s is → Absent buffers s (i ∷ is)
    absent f j o = elim (one_of-cons o) [
      | inl q ↦ (
        (λ z. n (z ∙ ap (λ k. (buffers k).sector) q)),
        (λ z. e (z ∙ ap (λ k. (buffers k).evicting_sector) q)),
      )
      | inr o' ↦ f j o'
    ]

    go : (r : Option ℕ) → AcquireResult buffers s is r → AcquireResult buffers s (i ∷ is) r
    go none f = absent f
    go (some k) (inl q) = inl q
    go (some k) (inr (f, u)) = inr (absent f, u)

acquire_from_lem :
    (buffers : ℕ → Buffer) (s : ℕ) (is : List ℕ) (m d : Option ℕ)
    → Candidate buffers m
    → Candidate buffers d
    → AcquireResult buffers s is (acquire_from buffers s is m d)
unfolding acquire_from
acquire_from_lem buffers s [] m d hm hd = preferred_lem buffers s d m hd hm
acquire_from_lem buffers s (i ∷ is) m d hm hd =
    elim (Bool-cases (s == b.sector || s == b.evicting_sector)) [
      | inl q ↦ rw q (inl (ground arith))
      | inr q ↦ rw q (
          one_more buffers s i is _ (ground arith) (ground arith) (
            acquire_from_lem buffers s is (if unused && b.is_meta then or_else m i else m)
              (if unused && not b.is_meta then or_else d i else d)
              (or_else_lem buffers (unused && b.is_meta) m i hm (λ t. ground arith))
              (or_else_lem buffers (unused && not b.is_meta) d i hd (λ t. ground arith))))
    ]
  where
    b : Buffer
    b = buffers i

    unused : Bool
    unused = b.waiting == 0 && not b.in_use

pub get_buffer_to_acquire_lem :
    (c : Cache) (s : ℕ) → AcquireResult c.buffers s c.cache (get_buffer_to_acquire c s)
unfolding get_buffer_to_acquire
get_buffer_to_acquire_lem c s = acquire_from_lem c.buffers s c.cache none none tt tt

-- A buffer of the list that is found.
abbrev pub Listed : List ℕ → Option ℕ → Type 0
Listed is none = Unit
Listed is (some i) = OneOf i is

or_else-Listed :
    (is : List ℕ) (b : Bool) (o : Option ℕ) (i : ℕ)
    → Listed is o
    → OneOf i is
    → Listed is (if b then or_else o i else o)
or_else-Listed is true none i h u = u
or_else-Listed is true (some j) i h u = h
or_else-Listed is false o i h u = h

preferred-Listed :
    (is : List ℕ) (d m : Option ℕ) → Listed is d → Listed is m → Listed is (preferred d m)
preferred-Listed is none m hd hm = hm
preferred-Listed is (some i) m hd hm = hd

acquire_from-Listed :
    (buffers : ℕ → Buffer) (s : ℕ) (all is : List ℕ) (m d : Option ℕ)
    → ((j : ℕ) → OneOf j is → OneOf j all)
    → Listed all m
    → Listed all d
    → Listed all (acquire_from buffers s is m d)
unfolding acquire_from
acquire_from-Listed buffers s all [] m d h hm hd = preferred-Listed all d m hd hm
acquire_from-Listed buffers s all (i ∷ is) m d h hm hd =
    elim (Bool-cases (s == b.sector || s == b.evicting_sector)) [
      | inl q ↦ rw q (h i (OneOf.first is))
      | inr q ↦ rw q (
          acquire_from-Listed buffers s all is (if unused && b.is_meta then or_else m i else m)
            (if unused && not b.is_meta then or_else d i else d) (λ j o. h j (OneOf.later i is o))
            (or_else-Listed all (unused && b.is_meta) m i hm (h i (OneOf.first is)))
            (or_else-Listed all (unused && not b.is_meta) d i hd (h i (OneOf.first is))))
    ]
  where
    b : Buffer
    b = buffers i

    unused : Bool
    unused = b.waiting == 0 && not b.in_use

pub get_buffer_to_acquire-Listed : (c : Cache) (s : ℕ) → Listed c.cache (get_buffer_to_acquire c s)
unfolding get_buffer_to_acquire
get_buffer_to_acquire-Listed c s =
    acquire_from-Listed c.buffers s c.cache c.cache none none (λ j o. o) tt tt

-- A buffer to write back is dirty, and not being evicted.
abbrev pub WriteBackResult : (ℕ → Buffer) → List ℕ → Option ℕ → Type 0
WriteBackResult buffers is none = Unit
WriteBackResult buffers is (some i) =
    ((buffers i).dirty ≡ true) × ((buffers i).evicting_sector ≡ uint_max) × OneOf i is

write_back_from_lem :
    (buffers : ℕ → Buffer) (is : List ℕ) → WriteBackResult buffers is (write_back_from buffers is)
unfolding write_back_from
write_back_from_lem buffers [] = tt
write_back_from_lem buffers (i ∷ is) =
    elim (Bool-cases (b.dirty && b.evicting_sector == uint_max)) [
      | inl q ↦ rw q (ground arith, ground arith, OneOf.first is)
      | inr q ↦ rw q (weaken (write_back_from buffers is) (write_back_from_lem buffers is))
    ]
  where
    b : Buffer
    b = buffers i

    weaken : (r : Option ℕ) → WriteBackResult buffers is r → WriteBackResult buffers (i ∷ is) r
    weaken none h = tt
    weaken (some j) (d, e, o) = (d, e, OneOf.later i is o)

pub get_buffer_to_write_back_lem :
    (c : Cache) → WriteBackResult c.buffers c.cache (get_buffer_to_write_back c)
unfolding get_buffer_to_write_back
get_buffer_to_write_back_lem c = write_back_from_lem c.buffers c.cache
