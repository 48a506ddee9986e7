-- ===== src/PathLookup.antt =====
-- pintos_3/src/filesys/path.c: the walk along a path from directory to directory. A path is the
-- sequence of its characters.
pub mod Elements
pub mod Walks
pub mod Parents
mod Tests
use buaa755os.Base.{
  ℕ, zero, suc, ◌+◌, ◌-◌, Bool, true, false, not, ◌&&◌, ◌||◌, Option, none, some, List, [], ◌∷◌,
  length, take, update, if◌then◌else◌, ltb, ◌==◌,
}
use buaa755os.Directory.{DirEntry, name_max, dir_lookup}

abbrev pub slash : ℕ
slash = 47

abbrev pub root_dir_sector : ℕ
root_dir_sector = 1

-- What the walk reads of an inode.
pub record Node : Type 0 where
  pub is_dir : Bool
  pub removed : Bool
  pub entries : List DirEntry

-- The inodes by sector, whether inode_open of a sector succeeds, the working directory of the
-- thread, and how often each inode is open.
pub record Tree : Type 0 where
  pub nodes : ℕ → Node
  pub can_open : ℕ → Bool
  pub cwd : ℕ
  pub open_cnt : ℕ → ℕ

abbrev pub opened : ℕ → (ℕ → ℕ) → ℕ → ℕ
opened i cnt = update cnt i (cnt i + 1)

abbrev pub closed : ℕ → (ℕ → ℕ) → ℕ → ℕ
closed i cnt = update cnt i (cnt i - 1)

-- The loops of skip_elem.
unfoldable pub skip_slashes : List ℕ → List ℕ
skip_slashes [] = []
skip_slashes (c ∷ cs) = if c == slash then skip_slashes cs else c ∷ cs

unfoldable pub first_name : List ℕ → List ℕ
first_name [] = []
first_name (c ∷ cs) = if c == slash then [] else c ∷ first_name cs

unfoldable pub after_name : List ℕ → List ℕ
after_name [] = []
after_name (c ∷ cs) = if c == slash then c ∷ cs else after_name cs

-- An element of a path: what is copied to `name`, `*len_exceeded`, and the path behind it.
pub record Element : Type 0 where
  pub name : List ℕ
  pub len_exceeded : Bool
  pub rest : List ℕ

-- The part of skip_elem behind the leading slashes.
unfoldable pub element_at : List ℕ → Option Element
element_at [] = none
element_at (c ∷ cs) =
    let word = first_name (c ∷ cs) in
    some (record {
      name = take name_max word;
      len_exceeded = ltb name_max (length word);
      rest = skip_slashes (after_name (c ∷ cs));
    })

unfoldable pub skip_elem : List ℕ → Option Element
skip_elem path = element_at (skip_slashes path)

-- What lookup returns, with `name` as it leaves it.
pub record Found : Type 0 where
  pub inode : Option ℕ
  pub name : List ℕ
  pub open_cnt : ℕ → ℕ

abbrev pub is_empty : List ℕ → Bool
is_empty [] = true
is_empty (c ∷ cs) = false

-- lookup after its loop.
unfoldable pub walk_end : Bool → Bool → ℕ → List ℕ → (ℕ → ℕ) → Found
walk_end parent len_exceeded inode name cnt =
    if parent || len_exceeded
    then record { inode = none; name = name; open_cnt = closed inode cnt }
    else record { inode = some inode; name = name; open_cnt = cnt }

-- A return of a null pointer from the loop, where the inode is closed.
unfoldable pub give_up : ℕ → List ℕ → (ℕ → ℕ) → Option Found
give_up inode name cnt = some (record { inode = none; name = name; open_cnt = closed inode cnt })

-- The end of a round of the loop, for the sector that dir_lookup found; `next` goes on from there.
unfoldable pub walk_on :
    Tree → ℕ → List ℕ → (ℕ → ℕ) → Option ℕ → (ℕ → (ℕ → ℕ) → Option Found) → Option Found
unfolding give_up
walk_on t inode name cnt none next = give_up inode name cnt
walk_on t inode name cnt (some sector) next =
    if t.can_open sector
    then next sector (closed inode (opened sector cnt))
    else give_up inode name cnt

-- A round of the loop.
unfoldable pub walk_round :
    Tree → Bool → ℕ → Element → (ℕ → ℕ) → (ℕ → (ℕ → ℕ) → Option Found) → Option Found
unfolding walk_on
walk_round t parent inode e cnt next =
    if not (t.nodes inode).is_dir || (t.nodes inode).removed
    then give_up inode e.name cnt
    else if parent && is_empty e.rest
    then some (record { inode = some inode; name = e.name; open_cnt = cnt })
    else walk_on t inode e.name cnt (dir_lookup (t.nodes inode).entries e.name) next

-- The loop of lookup, with the element that skip_elem found last. A round takes an element off the
-- path, so that the length of the path is fuel enough.
unfoldable pub walk : Tree → Bool → ℕ → ℕ → List ℕ → Option Element → (ℕ → ℕ) → Option Found
unfolding walk_end walk_round
walk t parent fuel inode name none cnt = some (walk_end parent false inode name cnt)
walk t parent zero inode name (some e) cnt = none
walk t parent (suc fuel) inode name (some e) cnt =
    if e.len_exceeded
    then some (walk_end parent true inode e.name cnt)
    else walk_round t parent inode e cnt (λ i c. walk t parent fuel i e.name (skip_elem e.rest) c)

-- The inode at which lookup begins.
unfoldable pub start_inode : Tree → List ℕ → ℕ
start_inode t [] = t.cwd
start_inode t (c ∷ cs) = if c == slash then root_dir_sector else t.cwd

-- lookup, where the inode at which it begins can be opened.
unfoldable pub lookup : Tree → List ℕ → Bool → List ℕ → Option Found
unfolding start_inode skip_elem walk
lookup t path parent name =
    let inode = start_inode t path in
    walk t parent (length path) inode name (skip_elem path) (opened inode t.open_cnt)

unfoldable pub path_lookup : Tree → List ℕ → Option Found
unfolding lookup
path_lookup t path = lookup t path false []

unfoldable pub path_lookup_parent : Tree → List ℕ → List ℕ → Option Found
unfolding lookup
path_lookup_parent t path name = lookup t path true name

-- The loop of path_has_trailing_slash, with the last character.
unfoldable pub last_is_slash : List ℕ → ℕ → Bool
last_is_slash [] c = c == slash
last_is_slash (d ∷ ds) c = last_is_slash ds d

unfoldable pub path_has_trailing_slash : List ℕ → Bool
unfolding last_is_slash
path_has_trailing_slash path = last_is_slash path 0

unfoldable pub path_is_empty : Option (List ℕ) → Bool
path_is_empty none = true
path_is_empty (some path) = is_empty path
