-- ===== src/Palloc.antt =====
-- pintos_3/src/threads/palloc.c: the page allocator, two pools of pages with a bitmap each.
-- Addresses are 32-bit numbers, and memory is a function from addresses to bytes.
pub mod Pages
pub mod Frees
pub mod RoundTrip
pub mod Init
mod Tests
use buaa755os.Base.{
  ℕ, zero, suc, ◌+◌, ◌-◌, ◌*◌, ◌/◌, ◌%◌, ◌^◌, Bool, true, false, not, ◌&&◌, ◌||◌, Option, none,
  some, List, if◌then◌else◌, ltb, leb, ◌==◌, ◌>>=◌, ◌>>◌, assert,
}
use buaa755os.Bitmap.{
  Bitmap, bitmap_error, bitmap_size, bitmap_buf_size, bitmap_create_in_buf, bitmap_scan_and_flip,
  bitmap_all, bitmap_set_multiple,
}

abbrev pub pgsize : ℕ
pgsize = 4096

-- `struct pool`, less its lock.
pub record Pool : Type 0 where
  pub used_map : Bitmap
  pub base : ℕ

pub record Pools : Type 0 where
  pub kernel_pool : Pool
  pub user_pool : Pool
  pub memory : ℕ → ℕ

-- `enum palloc_flags`
pub record PallocFlags : Type 0 where
  pub pal_assert : Bool
  pub pal_zero : Bool
  pub pal_user : Bool

-- memset
unfoldable pub fill : (ℕ → ℕ) → ℕ → ℕ → ℕ → ℕ → ℕ
fill memory start value size a = if leb start a && ltb a (start + size) then value else memory a

unfoldable pub page_from_pool : Pool → ℕ → Bool
unfolding bitmap_size
page_from_pool pool page =
    let page_no = page / pgsize in
    let start_page = pool.base / pgsize in
    leb start_page page_no && ltb page_no (start_page + bitmap_size pool.used_map)

abbrev pub pool_of : Bool → Pools → Pool
pool_of true p = p.user_pool
pool_of false p = p.kernel_pool

abbrev pub set_pool : Bool → Pools → Pool → Pools
set_pool true p q = record p { user_pool = q }
set_pool false p q = record p { kernel_pool = q }

-- The end of palloc_get_multiple, with the address found, which is 0 for a null pointer.
unfoldable pub got_pages : PallocFlags → Pools → ℕ → ℕ → Option (ℕ × Pools)
unfolding fill
got_pages flags p pages page_cnt =
    if pages == 0
    then (if flags.pal_assert then none else some (0, p))
    else some (
      pages,
      if flags.pal_zero then record p { memory = fill p.memory pages 0 (pgsize * page_cnt) } else p,
    )

unfoldable pub palloc_get_multiple : PallocFlags → Pools → ℕ → Option (ℕ × Pools)
palloc_get_multiple flags p page_cnt =
    let pool = pool_of flags.pal_user p in
    if page_cnt == 0
    then some (0, p)
    else (bitmap_scan_and_flip pool.used_map 0 page_cnt false >>= λ r.
        got_pages flags (set_pool flags.pal_user p (record pool { used_map = r.1 }))
          (if r.0 == bitmap_error then 0 else (pool.base + pgsize * r.0) % 2 ^ 32) page_cnt)

unfoldable pub palloc_get_page : PallocFlags → Pools → Option (ℕ × Pools)
unfolding palloc_get_multiple
palloc_get_page flags p = palloc_get_multiple flags p 1

-- The end of palloc_free_multiple, with the pool that the pages are from.
unfoldable pub free_in : Bool → Pools → ℕ → ℕ → Option Pools
free_in user p pages page_cnt =
    let pool = pool_of user p in
    let page_idx = pages / pgsize - pool.base / pgsize in
    bitmap_all pool.used_map page_idx page_cnt >>= λ all.
    assert all
    >> (bitmap_set_multiple pool.used_map page_idx page_cnt false >>= λ b.
        some (record (set_pool user p (record pool { used_map = b })) {
          memory = fill p.memory pages 204 (pgsize * page_cnt);
        }))

unfoldable pub palloc_free_multiple : Pools → ℕ → ℕ → Option Pools
palloc_free_multiple p pages page_cnt =
    assert (pages % pgsize == 0)
    >> (if pages == 0 || page_cnt == 0
        then some p
        else if page_from_pool p.kernel_pool pages
        then free_in false p pages page_cnt
        else if page_from_pool p.user_pool pages
        then free_in true p pages page_cnt
        else none)

unfoldable pub palloc_free_page : Pools → ℕ → Option Pools
unfolding palloc_free_multiple
palloc_free_page p page = palloc_free_multiple p page 1

-- `bits` is what the memory behind the structure of the bitmap holds.
unfoldable pub init_pool : List ℕ → ℕ → ℕ → Option Pool
init_pool bits base page_cnt =
    let bm_pages = (bitmap_buf_size page_cnt + pgsize - 1) / pgsize in
    assert (leb bm_pages page_cnt)
    >> (bitmap_create_in_buf (page_cnt - bm_pages) bits (bm_pages * pgsize) >>= λ b.
        some (record { used_map = b; base = base + bm_pages * pgsize }))

-- ptov of 1 MB, and of the end of RAM.
abbrev pub free_start : ℕ
free_start = 3221225472 + 1024 * 1024

unfoldable pub palloc_init : List ℕ → List ℕ → ℕ → ℕ → (ℕ → ℕ) → Option Pools
palloc_init kernel_bits user_bits init_ram_pages user_page_limit memory =
    let free_end = 3221225472 + init_ram_pages * pgsize in
    let free_pages = (free_end - free_start) / pgsize in
    let user_pages =
      if ltb user_page_limit (free_pages / 2) then user_page_limit else free_pages / 2 in
    let kernel_pages = free_pages - user_pages in
    init_pool kernel_bits free_start kernel_pages >>= λ k.
    init_pool user_bits (free_start + kernel_pages * pgsize) user_pages >>= λ u.
    some (record { kernel_pool = k; user_pool = u; memory = memory })
