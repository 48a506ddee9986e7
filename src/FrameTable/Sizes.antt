-- ===== src/FrameTable/Sizes.antt =====
-- frametable.c: the bytes of a page that come from a file.
use buaa755os.Base.{ℕ, ◌+◌, ◌%◌, ◌≤◌, ◌<◌, ◌≡◌, lt→ltb, arith}
use buaa755os.FrameTable.{offset, size}

-- For an end offset behind the begin of the file, the page starts at a multiple of the page's size, has
-- between one byte and a whole page of the file, and ends at the end offset.
pub size_lem :
    (end_offset : ℕ)
    → 0 < end_offset
    → (offset end_offset % 4096 ≡ 0)
      × (0 < size end_offset)
      × (size end_offset ≤ 4096)
      × (offset end_offset + size end_offset ≡ end_offset)
unfolding offset size
size_lem n p = rw (lt→ltb 0 n p) (omega arith, omega arith, omega arith, omega arith)
