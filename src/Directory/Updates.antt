-- ===== src/Directory/Updates.antt =====
-- directory.c: dir_add and dir_remove update the map from names to sectors.
use mathlib.Core.Path.{subst}
use buaa755os.Base.{
  ℕ, zero, suc, ◌≤◌, ◌≡◌, ◌≢◌, refl, Bool, true, false, ◌||◌, Option, none, some, List, [], ◌∷◌,
  length, take, if◌then◌else◌, ltb, ◌==◌, inl, inr, ◌⊎◌, arith, ap, ◌∙◌, sym,
}
use buaa755os.Directory.{
  DirEntry, lookup, lookup_from, new_entry, add_absent, dir_add, remove_found, dir_remove,
  dir_lookup, sector_found,
}
use buaa755os.Directory.Finds.{sector_of, IsValid, lookup_from_lem, LookupResult}
use buaa755os.Directory.Adds.{with_sector, sector_of-add, add-IsValid}
use buaa755os.Directory.Removes.{sector_of-remove, remove-IsValid}

-- dir_lookup finds the sector that a name has in the map.
pub dir_lookup_lem :
    (dir : List DirEntry) (name : List ℕ) → dir_lookup dir name ≡ sector_of dir name
unfolding dir_lookup lookup
dir_lookup_lem dir name = go (lookup_from dir 0 name) (lookup_from_lem dir 0 name)
  where
    go :
        (r : Option (DirEntry × ℕ))
        → LookupResult dir 0 name r
        → sector_found r ≡ sector_of dir name
    go r (inl (e, h)) = ap sector_found e ∙ sym h
    go r (inr (e, i, q, f, h)) = ap sector_found q ∙ sym h

-- A name that is not empty and not too long.
abbrev pub IsName : List ℕ → Type 0
IsName name = (1 ≤ length name) × (length name ≤ 14)

abbrev pub Updated : List DirEntry → List ℕ → Option ℕ → List DirEntry → Type 0
Updated dir name sector dir' =
    IsValid dir' × ((n : List ℕ) → sector_of dir' n ≡ with_sector (sector_of dir) name sector n)

abbrev pub AddResult : List DirEntry → List ℕ → ℕ → Bool × List DirEntry → Type 0
AddResult dir name sector r =
    ((r.0 ≡ true) × IsName name × (sector_of dir name ≡ none) × Updated dir name (some sector) r.1)
    ⊎ ((r.0 ≡ false) × (r.1 ≡ dir) × ((¬ IsName name) ⊎ (sector_of dir name ≢ none)))

pub take_short : (name : List ℕ) (n : ℕ) → length name ≤ n → take n name ≡ name
take_short [] zero h = refl
take_short [] (suc n) h = refl
take_short (c ∷ cs) zero h = absurd (omega arith)
take_short (c ∷ cs) (suc n) h = ap (λ ds. c ∷ ds) (take_short cs n (omega arith))

add_absent_lem :
    (dir : List DirEntry) (name : List ℕ) (sector : ℕ)
    → IsValid dir
    → IsName name
    → AddResult dir name sector (add_absent none dir name sector (lookup dir name))
unfolding add_absent lookup new_entry
add_absent_lem dir name sector v n = go (lookup_from dir 0 name) (lookup_from_lem dir 0 name)
  where
    go :
        (r : Option (DirEntry × ℕ))
        → LookupResult dir 0 name r
        → AddResult dir name sector (add_absent none dir name sector r)
    go none (inl (e, h)) = rw (take_short name 14 n.1) (
        inl (refl, n, h, (add-IsValid dir name sector v h, λ k. sector_of-add dir name sector k h)))
    go (some q) (inl (e, h)) = absurd (cc)
    go none (inr (x, i, e, f, h)) = absurd (cc)
    go (some q) (inr (x, i, e, f, h)) = inr (refl, refl, inr (λ z. cc))

-- dir_add, in a valid directory and with the entry written as a whole, either succeeds, when the
-- name is not empty, not longer than 14 characters and not there yet: the directory stays valid and
-- exactly that name gets the sector; or it fails, and nothing changes.
pub dir_add_lem :
    (dir : List DirEntry) (name : List ℕ) (sector : ℕ)
    → IsValid dir
    → AddResult dir name sector (dir_add none dir name sector)
unfolding dir_add
dir_add_lem dir name sector v = go (length name == 0 || ltb 14 (length name)) refl
  where
    go :
        (b : Bool)
        → (length name == 0 || ltb 14 (length name)) ≡ b
        → AddResult dir name sector
            (if b then (false, dir) else add_absent none dir name sector (lookup dir name))
    go true e = inr (refl, refl, inl (λ n. ground (arith, n.0, n.1)))
    go false e = add_absent_lem dir name sector v (ground arith, ground arith)

abbrev pub RemoveResult : List DirEntry → List ℕ → Bool × List DirEntry → Type 0
RemoveResult dir name r =
    ((r.0 ≡ true) × (sector_of dir name ≢ none) × Updated dir name none r.1)
    ⊎ ((r.0 ≡ false) × (r.1 ≡ dir) × (sector_of dir name ≡ none))

-- dir_remove, in a valid directory and with the entry written as a whole, either succeeds, when the
-- name is there: the directory stays valid and exactly that name has no sector any more; or it fails,
-- and nothing changes.
pub dir_remove_lem :
    (dir : List DirEntry) (name : List ℕ)
    → IsValid dir
    → RemoveResult dir name (dir_remove none dir name)
unfolding dir_remove lookup
dir_remove_lem dir name v = go (lookup_from dir 0 name) (lookup_from_lem dir 0 name)
  where
    go :
        (r : Option (DirEntry × ℕ))
        → LookupResult dir 0 name r
        → RemoveResult dir name (remove_found none dir r)
    go none (inl (e, h)) = inr (refl, refl, h)
    go (some q) (inl (e, h)) = absurd (cc)
    go none (inr (x, i, e, f, h)) = absurd (cc)
    go (some q) (inr (x, i, e, f, h)) =
        subst (λ r. RemoveResult dir name (remove_found none dir r))
          (sym (e ∙ ap (λ k. some (x, k)) (omega arith)))
          (inl (
            refl,
            (λ z. cc),
            (remove-IsValid name dir i x f v, λ k. sector_of-remove name dir i x k f v),
          ))
