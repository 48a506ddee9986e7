-- ===== src/PathLookup/Elements.antt =====
-- path.c: skip_elem takes the names of a path one by one.
use mathlib.Core.Path.{ap₂}
use buaa755os.Base.{
  ℕ, ◌≤◌, ◌<◌, ◌≡◌, refl, false, Option, none, some, List, [], ◌∷◌, length, take, if◌then◌else◌,
  ltb, ◌==◌, inl, inr, arith, ap, ◌∙◌, sym, Bool-cases,
}
use buaa755os.Directory.{name_max}
use buaa755os.PathLookup.{
  slash, skip_slashes, first_name, after_name, Element, element_at, skip_elem,
}

-- An empty piece is no name.
abbrev with_name : List ℕ → List (List ℕ) → List (List ℕ)
with_name [] names = names
with_name (c ∷ cs) names = (c ∷ cs) ∷ names

-- The first piece of a path up to a slash, and the names behind that slash.
unfoldable pub split : List ℕ → List ℕ × List (List ℕ)
split [] = ([], [])
split (c ∷ cs) = let r = split cs in if c == slash then ([], with_name r.0 r.1) else (c ∷ r.0, r.1)

-- The names of a path, which is split at its slashes.
unfoldable pub components : List ℕ → List (List ℕ)
components path = with_name (split path).0 (split path).1

first_name-split : (path : List ℕ) → first_name path ≡ (split path).0
unfolding first_name split
first_name-split [] = refl
first_name-split (c ∷ cs) = elim (Bool-cases (c == slash)) [
  | inl e ↦ rw e refl
  | inr e ↦ rw e (ap (λ w. c ∷ w) (first_name-split cs))
]

after_name-split : (path : List ℕ) → components (after_name path) ≡ (split path).1
unfolding after_name split components
after_name-split [] = refl
after_name-split (c ∷ cs) = elim (Bool-cases (c == slash)) [
  | inl e ↦ rw e (rw e refl)
  | inr e ↦ rw e (after_name-split cs)
]

skip_slashes-components : (path : List ℕ) → components (skip_slashes path) ≡ components path
unfolding skip_slashes components split
skip_slashes-components [] = refl
skip_slashes-components (c ∷ cs) = elim (Bool-cases (c == slash)) [
  | inl e ↦ rw e (skip_slashes-components cs)
  | inr e ↦ rw e (rw e refl)
]

length-skip_slashes : (path : List ℕ) → length (skip_slashes path) ≤ length path
unfolding skip_slashes
length-skip_slashes [] = omega arith
length-skip_slashes (c ∷ cs) = elim (Bool-cases (c == slash)) [
  | inl e ↦ rw e (omega (arith, length-skip_slashes cs))
  | inr e ↦ rw e (omega arith)
]

length-after_name : (path : List ℕ) → length (after_name path) ≤ length path
unfolding after_name
length-after_name [] = omega arith
length-after_name (c ∷ cs) = elim (Bool-cases (c == slash)) [
  | inl e ↦ rw e (omega arith)
  | inr e ↦ rw e (omega (arith, length-after_name cs))
]

-- What does not begin with a slash.
abbrev pub Trimmed : List ℕ → Type 0
Trimmed [] = Unit
Trimmed (c ∷ cs) = (c == slash) ≡ false

-- What skip_elem finds: no name, or the first one, cut to 14 characters, and a shorter path with the
-- others.
abbrev pub SkipResult : List ℕ → Option Element → Type 0
SkipResult path none = components path ≡ []
SkipResult path (some e) =
    (word : List ℕ) × (components path ≡ word ∷ components e.rest)
    × (e.name ≡ take name_max word)
    × (e.len_exceeded ≡ ltb name_max (length word))
    × (length e.rest < length path)
    × Trimmed e.rest

skip_slashes-Trimmed : (path : List ℕ) → Trimmed (skip_slashes path)
unfolding skip_slashes
skip_slashes-Trimmed [] = tt
skip_slashes-Trimmed (c ∷ cs) = elim (Bool-cases (c == slash)) [
  | inl e ↦ rw e (skip_slashes-Trimmed cs)
  | inr e ↦ rw e e
]

element_at_lem : (path : List ℕ) → Trimmed path → SkipResult path (element_at path)
unfolding element_at components split first_name after_name
element_at_lem [] t = refl
element_at_lem (c ∷ cs) t = rw t (
  c ∷ first_name cs,
  ap₂ (λ w names. (c ∷ w) ∷ names) (sym (first_name-split cs))
      (sym (skip_slashes-components (after_name cs) ∙ after_name-split cs)),
  refl,
  refl,
  omega (arith, length-skip_slashes (after_name cs), length-after_name cs),
  skip_slashes-Trimmed (after_name cs),
)

longer_path :
    (path' path : List ℕ) (r : Option Element)
    → components path' ≡ components path
    → length path' ≤ length path
    → SkipResult path' r
    → SkipResult path r
longer_path path' path none e l h = sym e ∙ h
longer_path path' path (some x) e l (word, c, n, x', s, t) =
    (word, sym e ∙ c, n, x', omega (arith, l, s), t)

pub skip_elem_lem : (path : List ℕ) → SkipResult path (skip_elem path)
unfolding skip_elem
skip_elem_lem path =
    let trimmed = skip_slashes path in
    longer_path trimmed path (element_at trimmed) (skip_slashes-components path)
      (length-skip_slashes path) (element_at_lem trimmed (skip_slashes-Trimmed path))

-- A path that does not begin with a slash has a name, if it has a character.
pub Trimmed-components :
    (c : ℕ) (cs : List ℕ)
    → Trimmed (c ∷ cs)
    → (word : List ℕ) × (words : List (List ℕ)) × (components (c ∷ cs) ≡ word ∷ words)
unfolding components split
Trimmed-components c cs t = rw t (c ∷ (split cs).0, (split cs).1, refl)
