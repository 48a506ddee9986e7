-- ===== src/Bitmap/InUse.antt =====
-- bitmap.c: giving back a run of bits that are in use, as the allocators do it; a bitmap in a buffer.
use buaa755os.Base.{
  ℕ, ◌+◌, ◌≤◌, ◌<◌, ◌≡◌, Bool, true, false, some, List, length, lt→ltb, le→leb, arith,
}
use buaa755os.Bitmap.{
  Bitmap, bitmap_error, bitmap_buf_size, bitmap_create_in_buf, bitmap_set_all, bitmap_size,
  bitmap_all, bitmap_contains,
}
use buaa755os.Bitmap.Bits.{words_for, IsValid, bit_at, bitmap_set_multiple_lem}
use buaa755os.Bitmap.Scan.{Run, Contains, bitmap_contains_lem}

-- bitmap_all of a run that is set.
pub bitmap_all-Run :
    (b : Bitmap) (start cnt : ℕ)
    → IsValid b
    → start + cnt ≤ b.bit_cnt
    → Run b start cnt true
    → bitmap_all b start cnt ≡ some true
unfolding bitmap_all
bitmap_all-Run b start cnt v h run = go (bitmap_contains_lem b start cnt false v h)
  where
    go :
        (r : Bool) × (bitmap_contains b start cnt false ≡ some r) × Contains b start cnt false r
        → bitmap_all b start cnt ≡ some true
    go (true, e, (j, lo, hi, off)) = absurd (cc (run j lo hi))
    go (false, e, c) = rw e

pub bitmap_create_in_buf_lem :
    (bit_cnt : ℕ) (bits : List ℕ) (block_size : ℕ)
    → words_for bit_cnt ≤ length bits
    → bit_cnt < bitmap_error
    → bitmap_buf_size bit_cnt ≤ block_size
    → (b : Bitmap) × (bitmap_create_in_buf bit_cnt bits block_size ≡ some b)
      × IsValid b
      × (b.bit_cnt ≡ bit_cnt)
      × ((j : ℕ) → j < bit_cnt → bit_at b j ≡ false)
unfolding bitmap_create_in_buf bitmap_set_all bitmap_size
bitmap_create_in_buf_lem bit_cnt bits block_size h small room =
    let b₀ : Bitmap = record { bit_cnt = bit_cnt; bits = bits } in
    let (b, e, c) =
      bitmap_set_multiple_lem b₀ 0 bit_cnt false (record { storage = h; small = small })
        (omega arith) in
    (
      b,
      rw (le→leb (bitmap_buf_size bit_cnt) block_size room) e,
      c.valid,
      c.size,
      λ j p. rw (c.bits j, lt→ltb j (0 + bit_cnt) (omega arith), le→leb 0 j (omega arith)),
    )
