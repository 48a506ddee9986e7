-- ===== src/Inode.antt =====
-- pintos_3/src/filesys/inode.c: from an offset in a file to the sector that holds it. The buffer
-- cache is left out: a sector that is acquired, changed and released is changed on the disk.
pub mod Index
pub mod Sector
mod Tests
use buaa755os.Base.{
  ℕ, zero, suc, ◌+◌, ◌-◌, ◌*◌, ◌/◌, ◌%◌, Bool, true, false, Option, none, some, List, if◌then◌else◌,
  ◌==◌, ltb, ◌>>=◌, ◌>>◌, assert, update,
}
use buaa755os.FreeMap.{FreeMap, Words, Writer, free_map_allocate}

abbrev pub block_sector_size : ℕ
block_sector_size = 512

abbrev pub ndirect_sectors : ℕ
ndirect_sectors = 124

abbrev pub nindirect_sectors : ℕ
nindirect_sectors = 128

abbrev pub ndirect_bytes : ℕ
ndirect_bytes = ndirect_sectors * block_sector_size

abbrev pub ndindirect_bytes : ℕ
ndindirect_bytes = nindirect_sectors * block_sector_size

abbrev pub max_pos : ℕ
max_pos = 8 * 1024 * 1024

unfoldable pub direct_sector_idx : ℕ → ℕ
direct_sector_idx pos = pos / block_sector_size

-- These two are for an offset behind the direct sectors.
unfoldable pub indirect_sector_idx : ℕ → ℕ
indirect_sector_idx pos = (pos - ndirect_bytes) / ndindirect_bytes

unfoldable pub dindirect_sector_idx : ℕ → ℕ
dindirect_sector_idx pos = (pos - ndirect_bytes) / block_sector_size % nindirect_sectors

-- The disk: the sectors in use, and the 32-bit words of each sector.
pub record Disk : Type 0 where
  pub free_map : FreeMap
  pub words : Words

-- In `struct inode_disk` the array `sectors` begins with the fourth word.
abbrev pub sectors_word : ℕ
sectors_word = 3

-- A new sector, with a pointer to it in word `idx` of `block`, is filled with zeros.
unfoldable pub link : Disk → ℕ → ℕ → ℕ → ℕ → ℕ → ℕ
link d block idx sector =
    update (update d.words block (update (d.words block) idx sector)) sector (λ i. 0)

-- The sector that word `idx` of `block` points to, allocated if there is none, or `none` where the
-- disk is full or the free map could not be written; and the disk.
unfoldable pub follow : Writer → Disk → ℕ → ℕ → Option (Option ℕ × Disk)
unfolding link
follow bitmap_write d block idx =
    if d.words block idx == 0
    then (free_map_allocate bitmap_write d.free_map d.words 1 >>= λ r.
        let d₁ : Disk = record { free_map = r.1; words = r.2 } in
        some (elim r.0 [
          | none ↦ (none, d₁)
          | some sector ↦ (some sector, record d₁ { words = link d₁ block idx sector })
        ]))
    else some (some (d.words block idx), d)

-- The next level of the index, if there was a sector for the one before.
unfoldable pub then_follow : Writer → Option ℕ × Disk → ℕ → Option (Option ℕ × Disk)
unfolding follow
then_follow bitmap_write (none, d) idx = some (none, d)
then_follow bitmap_write (some block, d) idx = follow bitmap_write d block idx

-- byte_to_sector, less the inode's lock; bitmap_write is indexed by the level at which it is called.
unfoldable pub byte_to_sector : (ℕ → Writer) → Disk → ℕ → ℕ → Option (Option ℕ × Disk)
byte_to_sector bitmap_write d inode_sector pos =
    assert (ltb pos max_pos)
    >> (if ltb (direct_sector_idx pos) ndirect_sectors
        then follow (bitmap_write 0) d inode_sector (sectors_word + direct_sector_idx pos)
        else (follow (bitmap_write 0) d inode_sector (sectors_word + ndirect_sectors) >>= λ r₁.
            then_follow (bitmap_write 1) r₁ (indirect_sector_idx pos) >>= λ r₂.
            then_follow (bitmap_write 2) r₂ (dindirect_sector_idx pos)))
