-- ===== src/Directory/Tests.antt =====
-- directory.c on a directory with ".", "..", "ab" and, in a free entry, "c".
use buaa755os.Base.{◌≡◌, refl, true, false, none, some, List, [], ◌∷◌, length, drop}
use buaa755os.Directory.{DirEntry, dir_add, dir_remove, dir_lookup, dir_is_empty, dir_readdir}
use buaa755os.Directory.Finds.{IsValid, sector_of}
use buaa755os.Directory.Updates.{AddResult, RemoveResult, dir_add_lem, dir_remove_lem}
use buaa755os.Directory.Reads.{readdir_all, names, readdir_all_lem}

abbrev dir : List DirEntry
dir =
    record { inode_sector = 1; name = 46 ∷ []; in_use = true }
    ∷ record { inode_sector = 1; name = 46 ∷ 46 ∷ []; in_use = true }
    ∷ record { inode_sector = 9; name = 99 ∷ []; in_use = false }
    ∷ record { inode_sector = 7; name = 97 ∷ 98 ∷ []; in_use = true }
    ∷ []

dir-IsValid : IsValid dir
unfolding sector_of buaa755os.Directory.matches
dir-IsValid = ((λ u. refl), ((λ u. refl), ((λ u. refl), ((λ u. refl), tt))))

-- The new name takes the free entry.
add_d : dir_add none dir (100 ∷ []) 5 ≡ (
  true,
  record { inode_sector = 1; name = 46 ∷ []; in_use = true }
      ∷ record { inode_sector = 1; name = 46 ∷ 46 ∷ []; in_use = true }
      ∷ record { inode_sector = 5; name = 100 ∷ []; in_use = true }
      ∷ record { inode_sector = 7; name = 97 ∷ 98 ∷ []; in_use = true }
      ∷ [],
)
unfolding dir_add buaa755os.Directory.lookup buaa755os.Directory.lookup_from
    buaa755os.Directory.matches buaa755os.Directory.free_slot buaa755os.Directory.new_entry
add_d = refl

add_again : dir_add none dir (97 ∷ 98 ∷ []) 5 ≡ (false, dir)
unfolding dir_add buaa755os.Directory.lookup buaa755os.Directory.lookup_from
    buaa755os.Directory.matches
add_again = refl

read_first : dir_readdir dir 0 ≡ (some (97 ∷ 98 ∷ []), 4)
unfolding dir_readdir
read_first = refl

dir_add_example : AddResult dir (100 ∷ []) 5 (dir_add none dir (100 ∷ []) 5)
dir_add_example = dir_add_lem dir (100 ∷ []) 5 dir-IsValid

dir_remove_example : RemoveResult dir (97 ∷ 98 ∷ []) (dir_remove none dir (97 ∷ 98 ∷ []))
dir_remove_example = dir_remove_lem dir (97 ∷ 98 ∷ []) dir-IsValid

readdir_all_example : readdir_all dir (length dir) 0 ≡ names (drop 2 dir)
readdir_all_example = readdir_all_lem dir
