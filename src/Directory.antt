-- ===== src/Directory.antt =====
-- pintos_3/src/filesys/directory.c: a directory is the sequence of the entries that its inode holds,
-- and an offset in it counts whole entries. A name is the sequence of its characters.
pub mod Finds
pub mod Adds
pub mod Removes
pub mod Updates
pub mod Reads
mod Tests
use buaa755os.Base.{
  ℕ, zero, suc, ◌+◌, Bool, true, false, not, ◌&&◌, ◌||◌, Option, none, some, List, [], ◌∷◌, length,
  take, drop, if◌then◌else◌, ltb, ◌==◌,
}

abbrev pub name_max : ℕ
name_max = 14

pub record DirEntry : Type 0 where
  pub inode_sector : ℕ
  pub name : List ℕ
  pub in_use : Bool

-- strcmp of two names finds no difference.
unfoldable pub same_name : List ℕ → List ℕ → Bool
same_name [] [] = true
same_name [] (d ∷ ds) = false
same_name (c ∷ cs) [] = false
same_name (c ∷ cs) (d ∷ ds) = (c == d) && same_name cs ds

-- The test of lookup on an entry.
unfoldable pub matches : List ℕ → DirEntry → Bool
unfolding same_name
matches name e = e.in_use && same_name name e.name

-- The loop of lookup from an offset on: the entry and its offset.
unfoldable pub lookup_from : List DirEntry → ℕ → List ℕ → Option (DirEntry × ℕ)
lookup_from [] ofs name = none
lookup_from (e ∷ es) ofs name =
    if matches name e then some (e, ofs) else lookup_from es (ofs + 1) name

unfoldable pub lookup : List DirEntry → List ℕ → Option (DirEntry × ℕ)
lookup dir name = lookup_from dir 0 name

abbrev pub sector_found : Option (DirEntry × ℕ) → Option ℕ
sector_found none = none
sector_found (some (e, ofs)) = some e.inode_sector

-- What dir_lookup passes to inode_open.
unfoldable pub dir_lookup : List DirEntry → List ℕ → Option ℕ
dir_lookup dir name = sector_found (lookup dir name)

-- The loop of dir_add: the offset of the first free entry, or of the end.
unfoldable pub free_slot : List DirEntry → ℕ
free_slot [] = 0
free_slot (e ∷ es) = if e.in_use then suc (free_slot es) else 0

-- A write of an entry, which may make the directory longer; what it skips is zeros.
unfoldable pub write_entry : List DirEntry → ℕ → DirEntry → List DirEntry
write_entry [] zero e = e ∷ []
write_entry [] (suc ofs) e =
    record { inode_sector = 0; name = []; in_use = false } ∷ write_entry [] ofs e
write_entry (x ∷ xs) zero e = e ∷ xs
write_entry (x ∷ xs) (suc ofs) e = x ∷ write_entry xs ofs e

-- inode_write_at of an entry: whether all of it was written. A short write leaves what is given.
unfoldable pub write_at :
    Option (List DirEntry) → List DirEntry → ℕ → DirEntry → Bool × List DirEntry
unfolding write_entry
write_at none dir ofs e = (true, write_entry dir ofs e)
write_at (some left) dir ofs e = (false, left)

-- strlcpy into the name of an entry.
unfoldable pub new_entry : List ℕ → ℕ → DirEntry
new_entry name inode_sector = record {
  inode_sector = inode_sector;
  name = take name_max name;
  in_use = true;
}

-- The end of dir_add, for what lookup found.
unfoldable pub add_absent :
    Option (List DirEntry)
    → List DirEntry
    → List ℕ
    → ℕ
    → Option (DirEntry × ℕ)
    → Bool × List DirEntry
unfolding write_at
add_absent short dir name inode_sector (some _) = (false, dir)
add_absent short dir name inode_sector none =
    write_at short dir (free_slot dir) (new_entry name inode_sector)

unfoldable pub dir_add : Option (List DirEntry) → List DirEntry → List ℕ → ℕ → Bool × List DirEntry
unfolding add_absent
dir_add short dir name inode_sector =
    if length name == 0 || ltb name_max (length name)
    then (false, dir)
    else add_absent short dir name inode_sector (lookup dir name)

-- The end of dir_remove.
unfoldable pub remove_found :
    Option (List DirEntry) → List DirEntry → Option (DirEntry × ℕ) → Bool × List DirEntry
unfolding write_at
remove_found short dir none = (false, dir)
remove_found short dir (some (e, ofs)) = write_at short dir ofs (record e { in_use = false })

unfoldable pub dir_remove : Option (List DirEntry) → List DirEntry → List ℕ → Bool × List DirEntry
unfolding remove_found
dir_remove short dir name = remove_found short dir (lookup dir name)

-- The loop of dir_readdir over the entries from the position on: the name, and the position after it.
unfoldable pub read_next : List DirEntry → ℕ → Option (List ℕ) × ℕ
read_next [] pos = (none, pos)
read_next (e ∷ es) pos =
    let rest = read_next es (pos + 1) in
    if e.in_use then (some (take name_max e.name), pos + 1) else rest

unfoldable pub dir_readdir : List DirEntry → ℕ → Option (List ℕ) × ℕ
unfolding read_next
dir_readdir dir pos = let start = if pos == 0 then 2 else pos in read_next (drop start dir) start

-- The loop of dir_is_empty.
unfoldable pub none_in_use : List DirEntry → Bool
none_in_use [] = true
none_in_use (e ∷ es) = if e.in_use then false else none_in_use es

unfoldable pub dir_is_empty : List DirEntry → Bool
unfolding none_in_use
dir_is_empty dir = none_in_use (drop 2 dir)
