-- ===== src/PathLookup/Walks.antt =====
-- path.c: the walk goes along the names of the path, and leaves one more open inode, or none.
use mathlib.Core.Path.{subst}
use buaa755os.Base.{
  ℕ, zero, suc, ◌≤◌, ◌≡◌, refl, Bool, true, false, not, ◌&&◌, ◌||◌, Option, none, some, List, [],
  ◌∷◌, length, take, if◌then◌else◌, ltb, arith, ap, ◌∙◌, sym,
}
use buaa755os.Directory.{name_max, dir_lookup}
use buaa755os.Directory.Finds.{sector_of}
use buaa755os.Directory.Updates.{dir_lookup_lem, take_short}
use buaa755os.PathLookup.{
  Tree, opened, closed, Element, skip_elem, Found, walk_end, give_up, walk_on, walk_round, walk,
  start_inode, path_lookup,
}
use buaa755os.PathLookup.Elements.{components, SkipResult, skip_elem_lem}

-- A directory in which names are looked up.
abbrev pub searched : Tree → ℕ → Bool
searched t inode = (t.nodes inode).is_dir && not (t.nodes inode).removed

-- One step: the inode of a name of at most 14 characters in a directory, if it can be opened.
abbrev pub opens : Tree → Option ℕ → Option ℕ
opens t none = none
opens t (some sector) = if t.can_open sector then some sector else none

unfoldable pub step_to : Tree → ℕ → List ℕ → Option ℕ
step_to t inode name =
    if not (ltb name_max (length name)) && searched t inode
    then opens t (sector_of (t.nodes inode).entries name)
    else none

abbrev pub and_then : Option ℕ → (ℕ → Option ℕ) → Option ℕ
and_then none f = none
and_then (some i) f = f i

-- What a list of names leads to from an inode.
unfoldable pub resolve : Tree → ℕ → List (List ℕ) → Option ℕ
resolve t inode [] = some inode
resolve t inode (name ∷ names) = and_then (step_to t inode name) (λ i. resolve t i names)

-- How often each inode is open when one more inode, or none, has been opened.
abbrev pub held : Option ℕ → (ℕ → ℕ) → ℕ → ℕ
held none cnt = cnt
held (some inode) cnt = opened inode cnt

-- What the walk returns.
abbrev pub Reached : Option Found → Option ℕ → (ℕ → ℕ) → Type 0
Reached o goal cnt =
    (r : Found) × (o ≡ some r) × (r.inode ≡ goal) × ((a : ℕ) → r.open_cnt a ≡ held goal cnt a)

closed-opened : (inode : ℕ) (cnt : ℕ → ℕ) (a : ℕ) → closed inode (opened inode cnt) a ≡ cnt a
closed-opened inode cnt a = ground arith

-- The inode of a round is closed, and the next one has been opened.
unfoldable pub Opened : ℕ → (ℕ → ℕ) → (ℕ → ℕ) → Type 0
Opened inode before cnt = (a : ℕ) → cnt a ≡ opened inode before a

moved_on :
    (inode sector : ℕ) (before cnt : ℕ → ℕ)
    → Opened inode before cnt
    → Opened sector before (closed inode (opened sector cnt))
unfolding Opened
moved_on inode sector before cnt h a = ground (arith, h a, h inode, h sector)

pub given_up :
    (inode : ℕ) (name : List ℕ) (before cnt : ℕ → ℕ)
    → Opened inode before cnt
    → Reached (give_up inode name cnt) none before
unfolding give_up Opened
given_up inode name before cnt h = (_, refl, refl, λ a. ground (arith, h a, h inode))

pub walk_on_lem :
    (t : Tree) (inode : ℕ) (name : List ℕ) (before cnt : ℕ → ℕ) (o : Option ℕ)
    (next : ℕ → (ℕ → ℕ) → Option Found) (f : ℕ → Option ℕ)
    → Opened inode before cnt
    → ((i : ℕ) (c : ℕ → ℕ) → Opened i before c → Reached (next i c) (f i) before)
    → Reached (walk_on t inode name cnt o next) (and_then (opens t o) f) before
unfolding walk_on
walk_on_lem t inode name before cnt none next f h g = given_up inode name before cnt h
walk_on_lem t inode name before cnt (some sector) next f h g = go (t.can_open sector)
  where
    go :
        (b : Bool)
        → Reached
            (if b then next sector (closed inode (opened sector cnt)) else give_up inode name cnt)
            (and_then (if b then some sector else none) f)
            before
    go true = g sector _ (moved_on inode sector before cnt h)
    go false = given_up inode name before cnt h

walk_round_lem :
    (t : Tree) (inode : ℕ) (e : Element) (before cnt : ℕ → ℕ) (next : ℕ → (ℕ → ℕ) → Option Found)
    (f : ℕ → Option ℕ)
    → ltb name_max (length e.name) ≡ false
    → Opened inode before cnt
    → ((i : ℕ) (c : ℕ → ℕ) → Opened i before c → Reached (next i c) (f i) before)
    → Reached (walk_round t false inode e cnt next) (and_then (step_to t inode e.name) f) before
unfolding walk_round step_to
walk_round_lem t inode e before cnt next f short h g =
    rw short (go (t.nodes inode).is_dir (t.nodes inode).removed)
  where
    entries : Option ℕ
    entries = dir_lookup (t.nodes inode).entries e.name

    go :
        (d r : Bool)
        → Reached
            (if not d || r
              then give_up inode e.name cnt
              else walk_on t inode e.name cnt (dir_lookup (t.nodes inode).entries e.name) next)
            (and_then
              (if d && not r then opens t (sector_of (t.nodes inode).entries e.name) else none)
              f)
            before
    go false r = given_up inode e.name before cnt h
    go true true = given_up inode e.name before cnt h
    go true false = rw (sym (dir_lookup_lem (t.nodes inode).entries e.name)) (
        walk_on_lem t inode e.name before cnt (dir_lookup (t.nodes inode).entries e.name) next f h
          g)

-- A round on an element whose name is too long, or is not cut.
element_lem :
    (t : Tree) (inode : ℕ) (e : Element) (word : List ℕ) (before cnt : ℕ → ℕ)
    (next : ℕ → (ℕ → ℕ) → Option Found) (f : ℕ → Option ℕ) (b : Bool)
    → e.name ≡ take name_max word
    → ltb name_max (length word) ≡ b
    → Opened inode before cnt
    → ((i : ℕ) (c : ℕ → ℕ) → Opened i before c → Reached (next i c) (f i) before)
    → Reached
        (if b
          then some (walk_end false true inode e.name cnt)
          else walk_round t false inode e cnt next)
        (and_then (step_to t inode word) f)
        before
unfolding walk_end step_to give_up
element_lem t inode e word before cnt next f true n long h g =
    rw long (given_up inode e.name before cnt h)
element_lem t inode e word before cnt next f false n short h g =
    let whole : e.name ≡ word = n ∙ take_short word 14 (ground arith) in
    subst
      (λ w. Reached (walk_round t false inode e cnt next) (and_then (step_to t inode w) f) before)
      whole
      (walk_round_lem t inode e before cnt next f (ap (λ w. ltb name_max (length w)) whole ∙ short)
        h g)

walk_lem :
    (t : Tree) (fuel inode : ℕ) (name path : List ℕ) (r : Option Element) (before cnt : ℕ → ℕ)
    → SkipResult path r
    → length path ≤ fuel
    → Opened inode before cnt
    → Reached (walk t false fuel inode name r cnt) (resolve t inode (components path)) before
unfolding walk walk_end resolve Opened
walk_lem t fuel inode name path none before cnt s l h = rw s (_, refl, refl, h)
walk_lem t zero inode name path (some e) before cnt (word, c, n, x, s, _) l h =
    absurd (omega (arith, s))
walk_lem t (suc fuel) inode name path (some e) before cnt (word, c, n, x, s, _) l h =
    rw (c, x)
      (element_lem t inode e word before cnt
        (λ i d. walk t false fuel i e.name (skip_elem e.rest) d)
        (λ i. resolve t i (components e.rest)) (ltb name_max (length word)) n refl h
        (λ i d hd.
          walk_lem t fuel i e.name e.rest (skip_elem e.rest) before d (skip_elem_lem e.rest)
            (omega (arith, s)) hd))

-- path_lookup, where the inode at which it begins can be opened, ends. It returns what the names
-- between the slashes of the path lead to, from the root for a path that begins with a slash and else
-- from the working directory, or null if a name is longer than 14 characters or not there, or lies in
-- a file or in a directory that was removed, or an inode cannot be opened. The inode that it returns
-- is open once more than before, and every other one as often as before.
pub path_lookup_lem :
    (t : Tree) (path : List ℕ)
    → Reached (path_lookup t path) (resolve t (start_inode t path) (components path)) t.open_cnt
unfolding path_lookup Opened
path_lookup_lem t path =
    walk_lem t (length path) (start_inode t path) [] path (skip_elem path) t.open_cnt
      (opened (start_inode t path) t.open_cnt) (skip_elem_lem path) (omega arith) (λ a. refl)
