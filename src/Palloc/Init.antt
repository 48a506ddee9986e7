-- ===== src/Palloc/Init.antt =====
-- palloc.c: the two pools that palloc_init makes.
use buaa755os.Base.{
  ℕ, ◌+◌, ◌-◌, ◌*◌, ◌/◌, ◌%◌, ◌^◌, ◌≤◌, ◌<◌, ◌≡◌, refl, false, some, List, length, if◌then◌else◌,
  ltb, le→leb, arith,
}
use buaa755os.Bitmap.{bitmap_buf_size}
use buaa755os.Bitmap.Bits.{words_for, bit_at}
use buaa755os.Bitmap.InUse.{bitmap_create_in_buf_lem}
use buaa755os.Palloc.{Pool, Pools, init_pool, palloc_init}
use buaa755os.Palloc.Pages.{IsPool, ArePools}

abbrev pub IsFree : Pool → Type 0
IsFree q = (j : ℕ) → j < q.used_map.bit_cnt → bit_at q.used_map j ≡ false

init_pool_lem :
    (bits : List ℕ) (base page_cnt : ℕ)
    → words_for page_cnt ≤ length bits
    → 1 ≤ page_cnt
    → base % 4096 ≡ 0
    → 4096 ≤ base
    → base + 4096 * page_cnt < 4294967296
    → (q : Pool) × (init_pool bits base page_cnt ≡ some q)
      × IsPool q
      × IsFree q
      × (base ≤ q.base)
      × (q.base + 4096 * q.used_map.bit_cnt ≡ base + 4096 * page_cnt)
unfolding init_pool bitmap_buf_size
init_pool_lem bits base page_cnt h pos al ab be =
    let bm = (8 + 4 * ((page_cnt + 32 - 1) % 2 ^ 32 / 32) + 4096 - 1) / 4096 in
    let fits : bm ≤ page_cnt = omega arith in
    let (b, e, v, n, free) =
      bitmap_create_in_buf_lem (page_cnt - bm) bits (bm * 4096) (omega arith) (omega arith)
        (omega arith) in
    (
      record { used_map = b; base = base + bm * 4096 },
      rw (le→leb bm page_cnt fits) (rw e refl),
      record { valid = v; aligned = omega arith; above = omega arith; below = omega (arith, n) },
      (λ j p. free j (omega (arith, n))),
      omega arith,
      omega (arith, n),
    )

-- The pages that the user pool gets, of those that are free.
abbrev user_share : ℕ → ℕ → ℕ
user_share free_pages limit = if ltb limit (free_pages / 2) then limit else free_pages / 2

share_bounds :
    (n limit : ℕ) → 2 ≤ n → 1 ≤ limit → (1 ≤ user_share n limit) × (user_share n limit ≤ n / 2)
share_bounds n limit h l = ground arith

abbrev all_pages : ℕ → ℕ
all_pages ram = (3221225472 + ram * 4096 - 3222274048) / 4096

palloc_init-pools :
    (kernel_bits user_bits : List ℕ) (ram limit : ℕ) (memory : ℕ → ℕ) (k u : Pool)
    → init_pool kernel_bits 3222274048 (all_pages ram - user_share (all_pages ram) limit) ≡ some k
    → init_pool user_bits
        (3222274048 + (all_pages ram - user_share (all_pages ram) limit) * 4096)
        (user_share (all_pages ram) limit)
      ≡ some u
    → palloc_init kernel_bits user_bits ram limit memory
      ≡ some (record { kernel_pool = k; user_pool = u; memory = memory })
unfolding palloc_init
palloc_init-pools kernel_bits user_bits ram limit memory k u ek eu = rw ek (rw eu refl)

-- palloc_init, with RAM of more than 1 MB and less than 1 GB, at least two free pages and a limit
-- of at least one, and with memory for the bitmaps, does not panic: both pools are valid, the user
-- pool lies above the kernel pool, and all pages of both are free.
pub palloc_init_lem :
    (kernel_bits user_bits : List ℕ) (init_ram_pages user_page_limit : ℕ) (memory : ℕ → ℕ)
    → 258 ≤ init_ram_pages
    → init_ram_pages < 262144
    → 1 ≤ user_page_limit
    → words_for init_ram_pages ≤ length kernel_bits
    → words_for init_ram_pages ≤ length user_bits
    → (p : Pools) × (palloc_init kernel_bits user_bits init_ram_pages user_page_limit memory
        ≡ some p)
      × ArePools p
      × IsFree p.kernel_pool
      × IsFree p.user_pool
palloc_init_lem kernel_bits user_bits ram limit memory lo hi l hk hu =
    join
      (init_pool_lem kernel_bits 3222274048 (pages - user) (omega arith) (omega (arith, shares))
        refl (omega arith) (omega (arith, shares)))
      (init_pool_lem user_bits (3222274048 + (pages - user) * 4096) user (omega (arith, shares))
        (omega (arith, shares)) (omega arith) (omega arith) (omega (arith, shares)))
  where
    pages : ℕ
    pages = all_pages ram

    user : ℕ
    user = user_share pages limit

    shares : (pages ≡ ram - 256) × (1 ≤ user) × (user ≤ pages / 2)
    shares = let (a, b) = share_bounds pages limit (omega arith) l in (omega arith, a, b)

    join :
        (q : Pool) × (init_pool kernel_bits 3222274048 (pages - user) ≡ some q)
          × IsPool q
          × IsFree q
          × (3222274048 ≤ q.base)
          × (q.base + 4096 * q.used_map.bit_cnt ≡ 3222274048 + 4096 * (pages - user))
        → (q : Pool) × (init_pool user_bits (3222274048 + (pages - user) * 4096) user ≡ some q)
          × IsPool q
          × IsFree q
          × (3222274048 + (pages - user) * 4096 ≤ q.base)
          × (q.base + 4096 * q.used_map.bit_cnt ≡ 3222274048 + (pages - user) * 4096 + 4096 * user)
        → (p : Pools) × (palloc_init kernel_bits user_bits ram limit memory ≡ some p)
          × ArePools p
          × IsFree p.kernel_pool
          × IsFree p.user_pool
    join (k, ek, vk, fk, _, endk) (u, eu, vu, fu, startu, _) = (
      record { kernel_pool = k; user_pool = u; memory = memory },
      palloc_init-pools kernel_bits user_bits ram limit memory k u ek eu,
      record { kernel = vk; user = vu; apart = omega (arith, endk, startu) },
      fk,
      fu,
    )
