-- ===== src/Directory/Adds.antt =====
-- directory.c: a new entry, and the map from names to sectors after it.
use mathlib.Core.Path.{subst}
use buaa755os.Base.{
  ℕ, ◌≡◌, refl, Bool, true, false, Option, none, some, List, [], ◌∷◌, if◌then◌else◌, inl, inr, ap,
  ◌∙◌, Bool-cases,
}
use buaa755os.Directory.{DirEntry, same_name, matches, free_slot, write_entry}
use buaa755os.Directory.Finds.{sector_of, IsValid, same_name_refl, same_name-eq}

-- The view in which one name has another sector, or none.
abbrev pub with_sector : (List ℕ → Option ℕ) → List ℕ → Option ℕ → List ℕ → Option ℕ
with_sector view name sector n = if same_name n name then sector else view n

-- A name that is that of an entry is not one that differs from it.
other_name :
    (name n k : List ℕ) → same_name name k ≡ false → same_name n k ≡ true → same_name n name ≡ false
other_name name n k h m = elim (Bool-cases (same_name n name)) [
  | inr differ ↦ differ
  | inl same ↦ absurd (cc (subst (λ l. same_name l k ≡ true) (same_name-eq n name same) m))
]

-- An entry in front of which a name is looked up without success.
absent_behind :
    (name k : List ℕ) (s : ℕ) (r : Option ℕ)
    → (if same_name name k then some s else r) ≡ none
    → (same_name name k ≡ false) × (r ≡ none)
absent_behind name k s r h = go (same_name name k) refl h
  where
    go :
        (b : Bool)
        → same_name name k ≡ b
        → (if b then some s else r) ≡ none
        → (same_name name k ≡ false) × (r ≡ none)
    go true e h = absurd (cc)
    go false e h = (e, h)

-- An entry in use in front of a directory that has changed.
in_front :
    (name n k : List ℕ) (s : ℕ) (sector r : Option ℕ)
    → same_name name k ≡ false
    → (if same_name n k then some s else (if same_name n name then sector else r))
      ≡ (if same_name n name then sector else (if same_name n k then some s else r))
in_front name n k s sector r h = elim (Bool-cases (same_name n k)) [
  | inl m ↦ rw (m, other_name name n k h m) refl
  | inr m ↦ rw m refl
]

-- An entry that is free or in use, before or after the write.
abbrev pub entry : ℕ → List ℕ → Bool → DirEntry
entry s k b = record { inode_sector = s; name = k; in_use = b }

pub sector_of-add :
    (dir : List DirEntry) (name : List ℕ) (sector : ℕ) (n : List ℕ)
    → sector_of dir name ≡ none
    → sector_of (write_entry dir (free_slot dir) (entry sector name true)) n
      ≡ with_sector (sector_of dir) name (some sector) n
unfolding sector_of write_entry free_slot matches
sector_of-add [] name sector n h = refl
sector_of-add (x ∷ xs) name sector n h =
    go x.inode_sector x.name x.in_use h (λ e. sector_of-add xs name sector n e)
  where
    go :
        (s : ℕ) (k : List ℕ) (b : Bool)
        → sector_of (entry s k b ∷ xs) name ≡ none
        → (sector_of xs name ≡ none
            → sector_of (write_entry xs (free_slot xs) (entry sector name true)) n
              ≡ with_sector (sector_of xs) name (some sector) n)
        → sector_of
            (write_entry (entry s k b ∷ xs) (free_slot (entry s k b ∷ xs)) (entry sector name true))
            n
          ≡ with_sector (sector_of (entry s k b ∷ xs)) name (some sector) n
    go s k false h f = refl
    go s k true h f =
        let (differ, absent) = absent_behind name k s (sector_of xs name) h in
        ap (λ r. if same_name n k then some s else r) (f absent)
        ∙ in_front name n k s (some sector) (sector_of xs n) differ

pub add-IsValid :
    (dir : List DirEntry) (name : List ℕ) (sector : ℕ)
    → IsValid dir
    → sector_of dir name ≡ none
    → IsValid (write_entry dir (free_slot dir) (entry sector name true))
unfolding write_entry free_slot sector_of matches
add-IsValid [] name sector v h = ((λ u. refl), tt)
add-IsValid (x ∷ xs) name sector (vx, v) h =
    go x.inode_sector x.name x.in_use vx h (λ e. add-IsValid xs name sector v e)
  where
    go :
        (s : ℕ) (k : List ℕ) (b : Bool)
        → (b ≡ true → sector_of xs k ≡ none)
        → sector_of (entry s k b ∷ xs) name ≡ none
        → (sector_of xs name ≡ none
            → IsValid (write_entry xs (free_slot xs) (entry sector name true)))
        → IsValid
            (write_entry (entry s k b ∷ xs) (free_slot (entry s k b ∷ xs)) (entry sector name true))
    go s k false vx h f = ((λ u. h), v)
    go s k true vx h f =
        let (differ, absent) = absent_behind name k s (sector_of xs name) h in
        (
          (λ u.
              sector_of-add xs name sector k absent
              ∙ rw (other_name name k k differ (same_name_refl k)) (vx refl)),
          f absent,
        )
