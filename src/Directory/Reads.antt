-- ===== src/Directory/Reads.antt =====
-- directory.c: what dir_readdir and dir_is_empty see behind the entries of "." and "..".
use buaa755os.Base.{
  ℕ, zero, suc, ◌+◌, ◌-◌, ◌≤◌, ◌<◌, ◌≡◌, refl, Bool, true, false, Option, none, some, List, [], ◌∷◌,
  length, take, drop, if◌then◌else◌, ==_ne, inl, inr, ◌⊎◌, ◌↔◌, arith, ap, ◌∙◌, sym, Bool-cases,
}
use buaa755os.Directory.{DirEntry, name_max, read_next, dir_readdir, none_in_use, dir_is_empty}

-- The names of the entries in use.
unfoldable pub names : List DirEntry → List (List ℕ)
names [] = []
names (e ∷ es) = if e.in_use then take name_max e.name ∷ names es else names es

-- The names that repeated calls of dir_readdir return, until one returns none, or on fuel.
abbrev then_more : Option (List ℕ) × ℕ → (ℕ → List (List ℕ)) → List (List ℕ)
then_more (none, pos) more = []
then_more (some name, pos) more = name ∷ more pos

unfoldable pub readdir_all : List DirEntry → ℕ → ℕ → List (List ℕ)
readdir_all dir zero pos = []
readdir_all dir (suc fuel) pos = then_more (dir_readdir dir pos) (λ pos'. readdir_all dir fuel pos')

abbrev NextName : List DirEntry → ℕ → Option (List ℕ) × ℕ → Type 0
NextName es pos r =
    ((p : ℕ) × (r ≡ (none, p)) × (names es ≡ []))
    ⊎ ((name : List ℕ) × (k : ℕ) × (r ≡ (some name, pos + suc k))
        × (names es ≡ name ∷ names (drop (suc k) es)))

read_behind :
    (e : DirEntry) (es : List DirEntry) (pos : ℕ)
    → e.in_use ≡ false
    → NextName es (pos + 1) (read_next es (pos + 1))
    → NextName (e ∷ es) pos (read_next (e ∷ es) pos)
unfolding read_next names
read_behind e es pos off (inl (p, r, h)) = rw off (inl (p, r, h))
read_behind e es pos off (inr (name, k, r, h)) =
    rw off (inr (name, suc k, r ∙ ap (λ i. (some name, i)) (omega arith), h))

read_next_lem : (es : List DirEntry) (pos : ℕ) → NextName es pos (read_next es pos)
unfolding read_next names
read_next_lem [] pos = inl (pos, refl, refl)
read_next_lem (e ∷ es) pos = elim (Bool-cases e.in_use) [
  | inl on ↦ inr (take name_max e.name, 0, on_read e es pos on, on_names e es on)
  | inr off ↦ read_behind e es pos off (read_next_lem es (pos + 1))
]
  where
    on_read :
        (e : DirEntry) (es : List DirEntry) (pos : ℕ)
        → e.in_use ≡ true
        → read_next (e ∷ es) pos ≡ (some (take name_max e.name), pos + 1)
    on_read e es pos on = rw on refl

    on_names :
        (e : DirEntry) (es : List DirEntry)
        → e.in_use ≡ true
        → names (e ∷ es) ≡ take name_max e.name ∷ names es
    on_names e es on = rw on refl

drop-nil : (n : ℕ) → ◌≡◌ {A = List DirEntry} (drop n []) []
drop-nil zero = refl
drop-nil (suc n) = refl

drop-drop : (xs : List DirEntry) (m k : ℕ) → drop k (drop m xs) ≡ drop (m + k) xs
drop-drop xs zero k = ap (λ i. drop i xs) (omega arith)
drop-drop [] (suc m) k = drop-nil k ∙ sym (drop-nil (suc m + k))
drop-drop (x ∷ xs) (suc m) k =
    drop-drop xs m k ∙ ap (λ i. drop i (x ∷ xs)) {x = suc (m + k)} (omega arith)

length-drop : (xs : List DirEntry) (n : ℕ) → length (drop n xs) ≡ length xs - n
length-drop xs zero = omega arith
length-drop [] (suc n) = omega arith
length-drop (x ∷ xs) (suc n) = omega (arith, length-drop xs n)

-- The next call of a directory that is read on.
next_call :
    (dir : List DirEntry) (pos : ℕ) → 0 < pos → dir_readdir dir pos ≡ read_next (drop pos dir) pos
unfolding dir_readdir
next_call dir pos h = rw (==_ne pos 0 (omega arith)) refl

read_on :
    (dir : List DirEntry) (start : ℕ) (more : ℕ → List (List ℕ))
    → ((pos : ℕ) → start < pos → more pos ≡ names (drop pos dir))
    → then_more (read_next (drop start dir) start) more ≡ names (drop start dir)
read_on dir start more f =
    go (read_next (drop start dir) start) (read_next_lem (drop start dir) start)
  where
    go :
        (r : Option (List ℕ) × ℕ)
        → NextName (drop start dir) start r
        → then_more r more ≡ names (drop start dir)
    go r (inl (p, e, h)) = ap (λ x. then_more x more) e ∙ sym h
    go r (inr (name, k, e, h)) =
        ap (λ x. then_more x more) e
        ∙ ap (λ ns. name ∷ ns)
            (f (start + suc k) (omega arith) ∙ ap names (sym (drop-drop dir start (suc k))))
        ∙ sym h

no_names : (es : List DirEntry) → length es ≡ 0 → [] ≡ names es
unfolding names
no_names [] e = refl
no_names (x ∷ xs) e = absurd (omega (arith, e))

readdir_from :
    (dir : List DirEntry) (fuel pos : ℕ)
    → 0 < pos
    → length dir ≤ fuel + pos
    → readdir_all dir fuel pos ≡ names (drop pos dir)
unfolding readdir_all
readdir_from dir zero pos h l = no_names (drop pos dir) (omega (arith, length-drop dir pos))
readdir_from dir (suc fuel) pos h l =
    ap (λ r. then_more r (λ p. readdir_all dir fuel p)) (next_call dir pos h)
    ∙ read_on dir pos (λ p. readdir_all dir fuel p)
        (λ p q. readdir_from dir fuel p (omega arith) (omega arith))

-- Calls of dir_readdir from the start on, until one finds no more, at most as many as there are
-- entries, return the names of all entries in use but the first two, in their order and once each.
pub readdir_all_lem : (dir : List DirEntry) → readdir_all dir (length dir) 0 ≡ names (drop 2 dir)
unfolding readdir_all dir_readdir names
readdir_all_lem [] = refl
readdir_all_lem (x ∷ xs) =
    read_on (x ∷ xs) 2 (λ p. readdir_all (x ∷ xs) (length xs) p)
      (λ p q. readdir_from (x ∷ xs) (length xs) p (omega arith) (omega arith))

none_in_use-names : (es : List DirEntry) → (none_in_use es ≡ true) ↔ (names es ≡ [])
unfolding none_in_use names
none_in_use-names [] = ((λ h. refl), (λ h. refl))
none_in_use-names (e ∷ es) = go e.in_use (none_in_use-names es)
  where
    go :
        (b : Bool)
        → (none_in_use es ≡ true) ↔ (names es ≡ [])
        → ((if b then false else none_in_use es) ≡ true)
          ↔ ((if b then take name_max e.name ∷ names es else names es) ≡ [])
    go true h = ((λ z. absurd (cc)), (λ z. absurd (cc)))
    go false h = h

-- dir_is_empty says that a directory is empty if and only if calls of dir_readdir from the start on
-- return no name.
pub dir_is_empty_lem :
    (dir : List DirEntry) → (dir_is_empty dir ≡ true) ↔ (readdir_all dir (length dir) 0 ≡ [])
unfolding dir_is_empty
dir_is_empty_lem dir =
    let (to, fro) = none_in_use-names (drop 2 dir) in
    ((λ h. readdir_all_lem dir ∙ to h), (λ h. fro (sym (readdir_all_lem dir) ∙ h)))
