-- ===== src/Inode/Index.antt =====
-- inode.c: the indices that an offset is taken apart into.
use buaa755os.Base.{ℕ, ◌+◌, ◌*◌, ◌≤◌, ◌<◌, ◌≡◌, arith}
use buaa755os.Inode.{
  ndirect_bytes, max_pos, direct_sector_idx, indirect_sector_idx, dindirect_sector_idx,
}

-- Behind the direct sectors and below the greatest file size, the index into the indirect sector
-- and the one into the doubly indirect sector are below 128, and together they give back the number
-- of the sector within the file: no two sectors of a file share an entry, and none lies outside.
pub index_lem :
    (pos : ℕ)
    → ndirect_bytes ≤ pos
    → pos < max_pos
    → (indirect_sector_idx pos < 128)
      × (dindirect_sector_idx pos < 128)
      × (indirect_sector_idx pos * 128 + dindirect_sector_idx pos + 124 ≡ direct_sector_idx pos)
unfolding direct_sector_idx indirect_sector_idx dindirect_sector_idx
index_lem pos lo hi = (omega arith, omega arith, omega arith)
