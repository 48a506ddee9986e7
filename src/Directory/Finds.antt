-- ===== src/Directory/Finds.antt =====
-- directory.c: a directory as a map from names to sectors, and what lookup finds in it.
use mathlib.Core.Path.{ap₂}
use buaa755os.Base.{
  ℕ, suc, ◌+◌, ◌≡◌, refl, Bool, true, false, ◌&&◌, Option, none, some, List, [], ◌∷◌, if◌then◌else◌,
  ◌==◌, ==_refl, inl, inr, ◌⊎◌, arith, ap, ◌∙◌, Bool-cases,
}
use buaa755os.Directory.{DirEntry, same_name, matches, lookup_from}

-- The sector of a name: the abstract view of a directory.
unfoldable pub sector_of : List DirEntry → List ℕ → Option ℕ
sector_of [] name = none
sector_of (e ∷ es) name = if matches name e then some e.inode_sector else sector_of es name

-- No name is in use twice.
abbrev pub IsValid : List DirEntry → Type 0
IsValid [] = Unit
IsValid (e ∷ es) = (e.in_use ≡ true → sector_of es e.name ≡ none) × IsValid es

pub same_name_refl : (cs : List ℕ) → same_name cs cs ≡ true
unfolding same_name
same_name_refl [] = refl
same_name_refl (c ∷ cs) = rw (==_refl c) (same_name_refl cs)

pub same_name-eq : (cs ds : List ℕ) → same_name cs ds ≡ true → cs ≡ ds
unfolding same_name
same_name-eq [] [] h = refl
same_name-eq [] (d ∷ ds) h = absurd (cc)
same_name-eq (c ∷ cs) [] h = absurd (cc)
same_name-eq (c ∷ cs) (d ∷ ds) h = elim (Bool-cases (c == d)) [
  | inl e ↦ ap₂ ◌∷◌ (ground arith) (same_name-eq cs ds (rw e at h))
  | inr e ↦ absurd (cc (rw e at h))
]

-- An entry that matches is in use under that name.
pub matches-inv :
    (name : List ℕ) (e : DirEntry) → matches name e ≡ true → (e.in_use ≡ true) × (name ≡ e.name)
unfolding matches
matches-inv name e h = go e.in_use refl h
  where
    go :
        (b : Bool)
        → e.in_use ≡ b
        → (b && same_name name e.name) ≡ true
        → (e.in_use ≡ true) × (name ≡ e.name)
    go true u m = (u, same_name-eq name e.name m)
    go false u m = absurd (cc)

-- Where lookup finds a name.
pub data FoundAt (name : List ℕ) : List DirEntry → ℕ → DirEntry → Type 0 where
  here : (e : DirEntry) (es : List DirEntry) → matches name e ≡ true → FoundAt name (e ∷ es) 0 e
  there :
      (x : DirEntry) (xs : List DirEntry) (i : ℕ) (e : DirEntry)
      → matches name x ≡ false
      → FoundAt name xs i e
      → FoundAt name (x ∷ xs) (suc i) e

abbrev pub LookupResult : List DirEntry → ℕ → List ℕ → Option (DirEntry × ℕ) → Type 0
LookupResult dir ofs name r =
    ((r ≡ none) × (sector_of dir name ≡ none))
    ⊎ ((e : DirEntry) × (i : ℕ) × (r ≡ some (e, ofs + i))
        × FoundAt name dir i e
        × (sector_of dir name ≡ some e.inode_sector))

lookup_behind :
    (x : DirEntry) (xs : List DirEntry) (ofs : ℕ) (name : List ℕ)
    → matches name x ≡ false
    → LookupResult xs (ofs + 1) name (lookup_from xs (ofs + 1) name)
    → LookupResult (x ∷ xs) ofs name (lookup_from (x ∷ xs) ofs name)
unfolding lookup_from sector_of
lookup_behind x xs ofs name h (inl (e, s)) = rw h (inl (e, s))
lookup_behind x xs ofs name h (inr (e, i, r, f, s)) =
    rw h (inr (e, suc i, r ∙ ap (λ k. some (e, k)) (omega arith), FoundAt.there x xs i e h f, s))

pub lookup_from_lem :
    (dir : List DirEntry) (ofs : ℕ) (name : List ℕ)
    → LookupResult dir ofs name (lookup_from dir ofs name)
unfolding lookup_from sector_of
lookup_from_lem [] ofs name = inl (refl, refl)
lookup_from_lem (x ∷ xs) ofs name = elim (Bool-cases (matches name x)) [
  | inl m ↦ rw m (inr (x, 0, ap (λ k. some (x, k)) (omega arith), FoundAt.here x xs m, refl))
  | inr m ↦ lookup_behind x xs ofs name m (lookup_from_lem xs (ofs + 1) name)
]
