-- ===== src/PathLookup/Parents.antt =====
-- path.c: the walk to the directory of the last name of a path.
use mathlib.Core.Path.{subst, ap₂}
use buaa755os.Base.{
  ℕ, zero, suc, ◌≤◌, ◌≡◌, refl, Bool, true, false, not, ◌&&◌, ◌||◌, Option, none, some, List, [],
  ◌∷◌, length, take, if◌then◌else◌, ltb, arith, ap, ◌∙◌, sym,
}
use buaa755os.Directory.{name_max, dir_lookup}
use buaa755os.Directory.Updates.{dir_lookup_lem, take_short}
use buaa755os.PathLookup.{
  Node, Tree, opened, closed, Element, skip_elem, Found, is_empty, walk_end, give_up, walk_on,
  walk_round, walk, start_inode, lookup, path_lookup_parent,
}
use buaa755os.PathLookup.Elements.{
  components, SkipResult, skip_elem_lem, Trimmed, Trimmed-components,
}
use buaa755os.PathLookup.Walks.{searched, step_to, and_then, Reached, Opened, given_up, walk_on_lem}

-- What all names but the last lead to, if it is a directory and the last name is not too long.
unfoldable pub resolve_parent : Tree → ℕ → List (List ℕ) → Option ℕ
resolve_parent t inode [] = none
resolve_parent t inode (name ∷ []) =
    if not (ltb name_max (length name)) && searched t inode then some inode else none
resolve_parent t inode (name ∷ next ∷ names) =
    and_then (step_to t inode name) (λ i. resolve_parent t i (next ∷ names))

-- Nothing is found where a name is too long, or looked up in what is no directory.
stuck :
    (t : Tree) (inode : ℕ) (word : List ℕ) (words : List (List ℕ))
    → (not (ltb name_max (length word)) && searched t inode) ≡ false
    → resolve_parent t inode (word ∷ words) ≡ none
unfolding resolve_parent step_to
stuck t inode word [] h = rw h refl
stuck t inode word (next ∷ words) h = rw h refl

-- A round in a directory goes on along the names behind the first.
parent_on :
    (t : Tree) (inode : ℕ) (e : Element) (before cnt : ℕ → ℕ) (next : ℕ → (ℕ → ℕ) → Option Found)
    (word : List ℕ) (words : List (List ℕ))
    → (not (ltb name_max (length e.name)) && searched t inode) ≡ true
    → Opened inode before cnt
    → ((i : ℕ) (c : ℕ → ℕ)
        → Opened i before c
        → Reached (next i c) (resolve_parent t i (word ∷ words)) before)
    → Reached
        (walk_on t inode e.name cnt (dir_lookup (t.nodes inode).entries e.name) next)
        (resolve_parent t inode (e.name ∷ word ∷ words))
        before
unfolding resolve_parent step_to
parent_on t inode e before cnt next word words ok h g =
    rw (ok, sym (dir_lookup_lem (t.nodes inode).entries e.name))
      (walk_on_lem t inode e.name before cnt (dir_lookup (t.nodes inode).entries e.name) next
        (λ i. resolve_parent t i (word ∷ words)) h g)

-- The test for the last name.
parent_round :
    (t : Tree) (inode : ℕ) (e : Element) (before cnt : ℕ → ℕ) (next : ℕ → (ℕ → ℕ) → Option Found)
    (rest : List ℕ)
    → (not (ltb name_max (length e.name)) && searched t inode) ≡ true
    → Opened inode before cnt
    → ((i : ℕ) (c : ℕ → ℕ)
        → Opened i before c
        → Reached (next i c) (resolve_parent t i (components rest)) before)
    → Trimmed rest
    → Reached
        (if is_empty rest
          then some (record { inode = some inode; name = e.name; open_cnt = cnt })
          else walk_on t inode e.name cnt (dir_lookup (t.nodes inode).entries e.name) next)
        (resolve_parent t inode (e.name ∷ components rest))
        before
unfolding resolve_parent Opened components buaa755os.PathLookup.Elements.split
parent_round t inode e before cnt next [] ok h g trimmed = rw ok (_, refl, refl, h)
parent_round t inode e before cnt next (c ∷ cs) ok h g trimmed =
    let (word, words, q) = Trimmed-components c cs trimmed in
    subst
      (λ names.
        Reached (walk_on t inode e.name cnt (dir_lookup (t.nodes inode).entries e.name) next)
          (resolve_parent t inode (e.name ∷ names)) before)
      (sym q)
      (parent_on t inode e before cnt next word words ok h (λ i d o.
        subst (λ names. Reached (next i d) (resolve_parent t i names) before) q (g i d o)))

-- A round, whatever the inode is.
parent_round_any :
    (t : Tree) (inode : ℕ) (e : Element) (before cnt : ℕ → ℕ) (next : ℕ → (ℕ → ℕ) → Option Found)
    → ltb name_max (length e.name) ≡ false
    → Opened inode before cnt
    → ((i : ℕ) (c : ℕ → ℕ)
        → Opened i before c
        → Reached (next i c) (resolve_parent t i (components e.rest)) before)
    → Trimmed e.rest
    → Reached
        (walk_round t true inode e cnt next)
        (resolve_parent t inode (e.name ∷ components e.rest))
        before
unfolding walk_round
parent_round_any t inode e before cnt next short h g trimmed =
    go (t.nodes inode).is_dir (t.nodes inode).removed refl refl
  where
    flags :
        {d r : Bool}
        → (t.nodes inode).is_dir ≡ d
        → (t.nodes inode).removed ≡ r
        → searched t inode ≡ (d && not r)
    flags p q = ap₂ (λ d r. d && not r) p q

    no_dir :
        searched t inode ≡ false
        → Reached
            (give_up inode e.name cnt)
            (resolve_parent t inode (e.name ∷ components e.rest))
            before
    no_dir f =
        subst (λ goal. Reached (give_up inode e.name cnt) goal before)
          (sym (stuck t inode e.name (components e.rest) (rw (short, f) refl)))
          (given_up inode e.name before cnt h)

    go :
        (d r : Bool)
        → (t.nodes inode).is_dir ≡ d
        → (t.nodes inode).removed ≡ r
        → Reached
            (if not d || r
              then give_up inode e.name cnt
              else if true && is_empty e.rest
              then some (record { inode = some inode; name = e.name; open_cnt = cnt })
              else walk_on t inode e.name cnt (dir_lookup (t.nodes inode).entries e.name) next)
            (resolve_parent t inode (e.name ∷ components e.rest))
            before
    go false r p q = no_dir (ap (λ d. d && not (t.nodes inode).removed) p)
    go true true p q = no_dir (flags p q)
    go true false p q =
        parent_round t inode e before cnt next e.rest
          (ap (λ b. not b && searched t inode) short ∙ flags p q) h g trimmed

-- A round on an element whose name is too long, or is not cut.
parent_element :
    (t : Tree) (inode : ℕ) (e : Element) (word : List ℕ) (before cnt : ℕ → ℕ)
    (next : ℕ → (ℕ → ℕ) → Option Found) (b : Bool)
    → e.name ≡ take name_max word
    → ltb name_max (length word) ≡ b
    → Opened inode before cnt
    → ((i : ℕ) (c : ℕ → ℕ)
        → Opened i before c
        → Reached (next i c) (resolve_parent t i (components e.rest)) before)
    → Trimmed e.rest
    → Reached
        (if b
          then some (walk_end true true inode e.name cnt)
          else walk_round t true inode e cnt next)
        (resolve_parent t inode (word ∷ components e.rest))
        before
unfolding walk_end give_up
parent_element t inode e word before cnt next true n long h g trimmed =
    subst (λ goal. Reached (give_up inode e.name cnt) goal before)
      (sym (stuck t inode word (components e.rest) (rw long refl)))
      (given_up inode e.name before cnt h)
parent_element t inode e word before cnt next false n short h g trimmed =
    let whole : e.name ≡ word = n ∙ take_short word 14 (ground arith) in
    subst
      (λ w.
        Reached (walk_round t true inode e cnt next)
          (resolve_parent t inode (w ∷ components e.rest)) before)
      whole
      (parent_round_any t inode e before cnt next (ap (λ w. ltb name_max (length w)) whole ∙ short)
        h g trimmed)

walk_parent_lem :
    (t : Tree) (fuel inode : ℕ) (name path : List ℕ) (r : Option Element) (before cnt : ℕ → ℕ)
    → SkipResult path r
    → length path ≤ fuel
    → Opened inode before cnt
    → Reached (walk t true fuel inode name r cnt) (resolve_parent t inode (components path)) before
unfolding walk walk_end resolve_parent give_up
walk_parent_lem t fuel inode name path none before cnt s l h =
    rw s (given_up inode name before cnt h)
walk_parent_lem t zero inode name path (some e) before cnt (word, c, n, x, s, trimmed) l h =
    absurd (omega (arith, s))
walk_parent_lem t (suc fuel) inode name path (some e) before cnt (word, c, n, x, s, trimmed) l h =
    rw (c, x)
      (parent_element t inode e word before cnt
        (λ i d. walk t true fuel i e.name (skip_elem e.rest) d) (ltb name_max (length word)) n refl
        h
        (λ i d hd.
          walk_parent_lem t fuel i e.name e.rest (skip_elem e.rest) before d (skip_elem_lem e.rest)
            (omega (arith, s)) hd)
        trimmed)

-- path_lookup_parent, where the inode at which it begins can be opened, ends. It returns the directory
-- that all names of the path but the last one lead to, or null if the path has no name, a name is
-- longer than 14 characters, one of those names is not there, or what they lead to is a file or a
-- directory that was removed, or cannot be opened. The inode that it returns is open once more than
-- before, and every other one as often as before.
pub path_lookup_parent_lem :
    (t : Tree) (path name : List ℕ)
    → Reached
        (path_lookup_parent t path name)
        (resolve_parent t (start_inode t path) (components path))
        t.open_cnt
unfolding path_lookup_parent Opened
path_lookup_parent_lem t path name =
    walk_parent_lem t (length path) (start_inode t path) name path (skip_elem path) t.open_cnt
      (opened (start_inode t path) t.open_cnt) (skip_elem_lem path) (omega arith) (λ a. refl)
