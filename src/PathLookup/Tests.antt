-- ===== src/PathLookup/Tests.antt =====
-- path.c on a tree in which the root has a directory "a" with a file "b".
use buaa755os.Base.{ℕ, ◌≡◌, refl, true, false, Option, none, some, [], ◌∷◌, if◌then◌else◌, ◌==◌}
use buaa755os.Directory.{DirEntry}
use buaa755os.PathLookup.{
  Node, Tree, Element, skip_elem, Found, path_lookup, path_lookup_parent, path_has_trailing_slash,
  start_inode,
}
use buaa755os.PathLookup.Elements.{components}
use buaa755os.PathLookup.Parents.{resolve_parent, path_lookup_parent_lem}
use buaa755os.PathLookup.Walks.{resolve, Reached, path_lookup_lem}

abbrev node : ℕ → Node
node i =
    if i == 1
    then record {
      is_dir = true;
      removed = false;
      entries = record { inode_sector = 5; name = 97 ∷ []; in_use = true } ∷ [];
    }
    else if i == 5
    then record {
      is_dir = true;
      removed = false;
      entries = record { inode_sector = 9; name = 98 ∷ []; in_use = true } ∷ [];
    }
    else record { is_dir = false; removed = false; entries = [] }

abbrev tree : Tree
tree = record {
  nodes = node;
  can_open = λ i. true;
  cwd = 5;
  open_cnt = λ i. if i == 5 then 1 else 0;
}

abbrev inode_of : Option Found → Option ℕ
inode_of none = none
inode_of (some r) = r.inode

-- "//a///b/" has the element "a" in front of "b/".
skip_first :
    skip_elem (47 ∷ 47 ∷ 97 ∷ 47 ∷ 47 ∷ 47 ∷ 98 ∷ 47 ∷ [])
    ≡ some (record { name = 97 ∷ []; len_exceeded = false; rest = 98 ∷ 47 ∷ [] })
unfolding skip_elem buaa755os.PathLookup.element_at buaa755os.PathLookup.skip_slashes
    buaa755os.PathLookup.first_name buaa755os.PathLookup.after_name
skip_first = refl

-- "b", from the working directory "a".
find_b : inode_of (path_lookup tree (98 ∷ [])) ≡ some 9
unfolding path_lookup buaa755os.PathLookup.element_at buaa755os.PathLookup.skip_slashes
    buaa755os.PathLookup.first_name buaa755os.Directory.dir_lookup buaa755os.Directory.lookup
    buaa755os.Directory.lookup_from buaa755os.Directory.matches buaa755os.PathLookup.after_name
find_b = refl

-- The parent of "/a/c", where there is no "c", is "a".
find_parent : inode_of (path_lookup_parent tree (47 ∷ 97 ∷ 47 ∷ 99 ∷ []) []) ≡ some 5
unfolding path_lookup_parent buaa755os.PathLookup.element_at buaa755os.PathLookup.skip_slashes
    buaa755os.PathLookup.first_name buaa755os.PathLookup.after_name buaa755os.Directory.dir_lookup
    buaa755os.Directory.lookup buaa755os.Directory.lookup_from buaa755os.Directory.matches
find_parent = refl

-- A file has no names: "/a/b/c".
below_file : inode_of (path_lookup tree (47 ∷ 97 ∷ 47 ∷ 98 ∷ 47 ∷ 99 ∷ [])) ≡ none
unfolding path_lookup buaa755os.PathLookup.element_at buaa755os.PathLookup.skip_slashes
    buaa755os.PathLookup.first_name buaa755os.Directory.dir_lookup buaa755os.Directory.lookup
    buaa755os.Directory.lookup_from buaa755os.Directory.matches buaa755os.PathLookup.after_name
below_file = refl

trailing : path_has_trailing_slash (97 ∷ 47 ∷ []) ≡ true
unfolding path_has_trailing_slash
trailing = refl

path_lookup_example :
    Reached
      (path_lookup tree (47 ∷ 97 ∷ 47 ∷ 98 ∷ []))
      (resolve tree
        (start_inode tree (47 ∷ 97 ∷ 47 ∷ 98 ∷ []))
        (components (47 ∷ 97 ∷ 47 ∷ 98 ∷ [])))
      tree.open_cnt
path_lookup_example = path_lookup_lem tree (47 ∷ 97 ∷ 47 ∷ 98 ∷ [])

path_lookup_parent_example :
    Reached
      (path_lookup_parent tree (47 ∷ 97 ∷ 47 ∷ 99 ∷ []) [])
      (resolve_parent tree
        (start_inode tree (47 ∷ 97 ∷ 47 ∷ 99 ∷ []))
        (components (47 ∷ 97 ∷ 47 ∷ 99 ∷ [])))
      tree.open_cnt
path_lookup_parent_example = path_lookup_parent_lem tree (47 ∷ 97 ∷ 47 ∷ 99 ∷ []) []
