-- ===== src/FreeMap.antt =====
-- pintos_3/src/filesys/free-map.c: the map of the sectors in use. bitmap_write, which writes the
-- map to its file through inode.c, is a parameter: whether it succeeds, and what it does to the words of
-- the sectors.
pub mod Alloc
mod Tests
use buaa755os.Base.{
  ℕ, Bool, true, false, not, ◌&&◌, Option, none, some, List, if◌then◌else◌, ◌==◌, ◌>>=◌, ◌>>◌,
  assert,
}
use buaa755os.Bitmap.{
  Bitmap, bitmap_error, bitmap_create, bitmap_mark, bitmap_set_multiple, bitmap_scan_and_flip,
  bitmap_all,
}

abbrev pub free_map_sector : ℕ
free_map_sector = 0

abbrev pub root_dir_sector : ℕ
root_dir_sector = 1

-- The variables `free_map` and `free_map_file`, of which it counts whether the file is open.
pub record FreeMap : Type 0 where
  pub map : Bitmap
  pub has_file : Bool

-- `storage` is what malloc returns for the bitmap of a device of `size` sectors.
unfoldable pub free_map_init : Option (List ℕ) → ℕ → Option FreeMap
unfolding bitmap_create bitmap_mark
free_map_init storage size = bitmap_create true storage size >>= λ o. elim o [
  | none ↦ none
  | some b ↦ some (record {
    map = bitmap_mark (bitmap_mark b free_map_sector) root_dir_sector;
    has_file = false;
  })
]

-- The words of the sectors, by sector and place.
abbrev pub Words : Type 0
Words = ℕ → ℕ → ℕ

-- bitmap_write to `free_map_file`: whether it succeeds, and the words after it, also when it fails.
abbrev pub Writer : Type 0
Writer = Bitmap → Words → Bool × Words

-- The result is the first sector, or `none` for false, with the words after it.
unfoldable pub free_map_allocate :
    Writer → FreeMap → Words → ℕ → Option (Option ℕ × FreeMap × Words)
free_map_allocate bitmap_write f words cnt = bitmap_scan_and_flip f.map 0 cnt false >>= λ r.
    if r.0 == bitmap_error
    then some (none, record f { map = r.1 }, words)
    else (if f.has_file
        then (if (bitmap_write r.1 words).0
            then some (some r.0, record f { map = r.1 }, (bitmap_write r.1 words).1)
            else (bitmap_set_multiple r.1 r.0 cnt false >>= λ b.
                some (none, record f { map = b }, (bitmap_write r.1 words).1)))
        else some (some r.0, record f { map = r.1 }, words))

-- `none` also where the file is not open, which bitmap_write would follow as a null pointer.
unfoldable pub free_map_release : Writer → FreeMap → Words → ℕ → ℕ → Option (FreeMap × Words)
free_map_release bitmap_write f words sector cnt = bitmap_all f.map sector cnt >>= λ all.
    assert all
    >> (bitmap_set_multiple f.map sector cnt false >>= λ b.
        assert f.has_file >> some (record f { map = b }, (bitmap_write b words).1))
