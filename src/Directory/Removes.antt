-- ===== src/Directory/Removes.antt =====
-- directory.c: an entry that is no longer in use, and the map from names to sectors after it.
use mathlib.Core.Path.{subst}
use buaa755os.Base.{
  ℕ, ◌≡◌, refl, Bool, true, false, ◌&&◌, none, some, List, if◌then◌else◌, inl, inr, ap, ◌∙◌, sym,
  Bool-cases,
}
use buaa755os.Directory.{DirEntry, same_name, matches, write_entry}
use buaa755os.Directory.Finds.{sector_of, IsValid, same_name-eq, matches-inv, FoundAt}
use buaa755os.Directory.Adds.{with_sector}

no_match : (n : List ℕ) (e : DirEntry) → same_name n e.name ≡ false → matches n e ≡ false
unfolding matches
no_match n e h = rw h (go e.in_use)
  where
    go : (b : Bool) → (b && false) ≡ false
    go true = refl
    go false = refl

other_match :
    (name n : List ℕ) (x : DirEntry)
    → matches name x ≡ false
    → matches n x ≡ true
    → same_name n name ≡ false
other_match name n x h m = elim (Bool-cases (same_name n name)) [
  | inr differ ↦ differ
  | inl same ↦ absurd (cc (subst (λ k. matches k x ≡ true) (same_name-eq n name same) m))
]

-- The entry that is found and taken out of use.
abbrev pub unused : DirEntry → DirEntry
unused e = record e { in_use = false }

unused_match : (n : List ℕ) (e : DirEntry) → matches n (unused e) ≡ false
unfolding matches
unused_match n e = refl

pub sector_of-remove :
    (name : List ℕ) (dir : List DirEntry) (i : ℕ) (e : DirEntry) (n : List ℕ)
    → FoundAt name dir i e
    → IsValid dir
    → sector_of (write_entry dir i (unused e)) n ≡ with_sector (sector_of dir) name none n
unfolding sector_of write_entry
sector_of-remove name _ _ _ n (FoundAt.here e es m) (ve, v) =
    let (used, same) = matches-inv name e m in
    ap (λ b. if b then some e.inode_sector else sector_of es n) (unused_match n e)
    ∙ elim (Bool-cases (same_name n name)) [
      | inl eq ↦ rw eq (ap (sector_of es) (same_name-eq n name eq ∙ same) ∙ ve used)
      | inr ne ↦ rw (ne, no_match n e (ap (same_name n) (sym same) ∙ ne)) refl
    ]
sector_of-remove name _ _ _ n (FoundAt.there x xs i e m f) (vx, v) =
    ap (λ r. if matches n x then some x.inode_sector else r) (sector_of-remove name xs i e n f v)
    ∙ elim (Bool-cases (matches n x)) [
      | inl mn ↦ rw (mn, other_match name n x m mn) refl
      | inr mn ↦ rw mn refl
    ]

pub remove-IsValid :
    (name : List ℕ) (dir : List DirEntry) (i : ℕ) (e : DirEntry)
    → FoundAt name dir i e
    → IsValid dir
    → IsValid (write_entry dir i (unused e))
unfolding write_entry
remove-IsValid name _ _ _ (FoundAt.here e es m) (ve, v) = ((λ u. absurd (cc)), v)
remove-IsValid name _ _ _ (FoundAt.there x xs i e m f) (vx, v) = (
  (λ u. sector_of-remove name xs i e x.name f v ∙ absent (same_name x.name name) (vx u)),
  remove-IsValid name xs i e f v,
)
  where
    absent :
        (b : Bool) → sector_of xs x.name ≡ none → (if b then none else sector_of xs x.name) ≡ none
    absent true h = refl
    absent false h = h
