-- ===== src/Swap.antt =====
-- pintos_3/src/vm/swap.c: pages on the swap device, one bit of a bitmap for each.
pub mod RoundTrip
mod Tests
use buaa755os.Base.{
  ℕ, zero, suc, ◌+◌, ◌-◌, ◌*◌, ◌/◌, ◌%◌, Bool, true, false, Option, none, some, List, if◌then◌else◌,
  ◌==◌, ◌>>=◌, ◌>>◌, assert, update,
}
use buaa755os.Bitmap.{
  Bitmap, size_mod, bitmap_error, bitmap_create, bitmap_set_multiple, bitmap_scan_and_flip,
  bitmap_all,
}

-- PGSIZE / BLOCK_SECTOR_SIZE
abbrev pub sectors_per_page : ℕ
sectors_per_page = 8

-- The map, and the device as what each of its sectors holds.
pub record Swap : Type 0 where
  pub swap_map : Bitmap
  pub device : ℕ → List ℕ

-- `storage` is what malloc returns for the bitmap of a device of `size` sectors.
unfoldable pub swap_init : Option (List ℕ) → ℕ → (ℕ → List ℕ) → Option Swap
unfolding bitmap_create
swap_init storage size device = bitmap_create true storage (size / sectors_per_page) >>= λ o.
    elim o [ none ↦ none | some b ↦ some (record { swap_map = b; device = device }) ]

-- The result is the first sector, or `none` for false.
unfoldable pub swap_map_allocate : Swap → Option (Option ℕ × Swap)
swap_map_allocate sw = bitmap_scan_and_flip sw.swap_map 0 1 false >>= λ r. some (
  if r.0 == bitmap_error then none else some (r.0 * sectors_per_page % size_mod),
  record sw { swap_map = r.1 },
)

unfoldable pub swap_map_release : Swap → ℕ → Option Swap
swap_map_release sw sector = bitmap_all sw.swap_map (sector / sectors_per_page) 1 >>= λ all.
    assert all
    >> (bitmap_set_multiple sw.swap_map (sector / sectors_per_page) 1 false >>= λ b.
        some (record sw { swap_map = b }))

unfoldable pub swap_release : Swap → ℕ → Option Swap
unfolding swap_map_release
swap_release sw sector = swap_map_release sw sector

-- The rounds left of the loop of swap_write, with the part `i` of the page next.
unfoldable pub write_sectors : ℕ → (ℕ → List ℕ) → ℕ → (ℕ → List ℕ) → ℕ → ℕ → List ℕ
write_sectors zero device sector page i = device
write_sectors (suc n) device sector page i =
    write_sectors n (update device sector (page i)) (sector + 1) page (i + 1)

-- A page is its eight parts of the size of a sector. A full device panics.
unfoldable pub swap_write : Swap → (ℕ → List ℕ) → Option (ℕ × Swap)
unfolding write_sectors
swap_write sw page = swap_map_allocate sw >>= λ r. elim r.0 [
  | none ↦ none
  | some sector ↦
      some (sector, record r.1 { device = write_sectors sectors_per_page r.1.device sector page 0 })
]

-- The rounds left of the loop of swap_read.
unfoldable pub read_sectors : ℕ → (ℕ → List ℕ) → ℕ → (ℕ → List ℕ) → ℕ → ℕ → List ℕ
read_sectors zero device sector page i = page
read_sectors (suc n) device sector page i =
    read_sectors n device (sector + 1) (update page i (device sector)) (i + 1)

-- The page read over what `page` held, and the swap space without it.
unfoldable pub swap_read : Swap → ℕ → (ℕ → List ℕ) → Option ((ℕ → List ℕ) × Swap)
unfolding read_sectors
swap_read sw sector page = swap_release sw sector >>= λ sw'.
    some (read_sectors sectors_per_page sw.device sector page 0, sw')
