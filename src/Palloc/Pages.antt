-- ===== src/Palloc/Pages.antt =====
-- palloc.c: what an allocation of pages returns.
use mathlib.Core.Path.{subst}
use buaa755os.Base.{
  ℕ, ◌+◌, ◌*◌, ◌%◌, ◌≤◌, ◌<◌, ◌≡◌, ◌≢◌, refl, Bool, true, false, not, Option, none, some,
  if◌then◌else◌, arith, inl, inr, ◌⊎◌, sym, ap, ◌∙◌, ==_ne, lt→ltb, le→leb,
}
use buaa755os.Bitmap.{Bitmap, bitmap_error, bitmap_scan_and_flip}
use buaa755os.Bitmap.Bits.{IsValid, in_range, Changed}
use buaa755os.Bitmap.Alloc.{IsFirstRun, NoRun, FlipResult, bitmap_scan_and_flip_lem}
use buaa755os.Palloc.{
  Pool, Pools, PallocFlags, fill, page_from_pool, pool_of, set_pool, got_pages, palloc_get_multiple,
}

-- A pool of whole pages, above address 0 and below 2 ^ 32.
pub record IsPool (q : Pool) : Type 0 where
  pub valid : IsValid q.used_map
  pub aligned : q.base % 4096 ≡ 0
  pub above : 4096 ≤ q.base
  pub below : q.base + 4096 * q.used_map.bit_cnt < 4294967296

-- Two pools, the user pool above the kernel pool.
pub record ArePools (p : Pools) : Type 0 where
  pub kernel : IsPool p.kernel_pool
  pub user : IsPool p.user_pool
  pub apart : p.kernel_pool.base + 4096 * p.kernel_pool.used_map.bit_cnt ≤ p.user_pool.base

pub pool_of-IsPool : (user : Bool) (p : Pools) → ArePools p → IsPool (pool_of user p)
pool_of-IsPool true p a = a.user
pool_of-IsPool false p a = a.kernel

-- The page with this number in a pool, by its address.
abbrev pub address : Pool → ℕ → ℕ
address q idx = q.base + 4096 * idx

-- A page of a pool is found in that pool, and no page of the user pool is taken for one of the
-- kernel pool.
pub found_in :
    (q : Pool) (idx : ℕ)
    → IsPool q
    → idx < q.used_map.bit_cnt
    → page_from_pool q (address q idx) ≡ true
unfolding page_from_pool
found_in q idx v h = ground (arith, v.aligned)

pub not_in_kernel :
    (p : Pools) (idx : ℕ)
    → ArePools p
    → idx < p.user_pool.used_map.bit_cnt
    → page_from_pool p.kernel_pool (address p.user_pool idx) ≡ false
unfolding page_from_pool
not_in_kernel p idx a h = ground (arith, a.kernel.aligned, a.user.aligned, a.apart)

-- What a successful allocation did: it took the first run of free pages of its pool and left the
-- other pool alone, and the pages are zeros if that was asked for.
pub record Taken (flags : PallocFlags) (p : Pools) (cnt idx : ℕ) (p' : Pools) : Type 0 where
  pub first : IsFirstRun (pool_of flags.pal_user p).used_map 0 cnt false idx
  pub changed :
      Changed
        (pool_of flags.pal_user p).used_map
        (in_range idx cnt)
        true
        (pool_of flags.pal_user p').used_map
  pub base : (pool_of flags.pal_user p').base ≡ (pool_of flags.pal_user p).base
  pub other : pool_of (not flags.pal_user) p' ≡ pool_of (not flags.pal_user) p
  pub zeroed :
      flags.pal_zero ≡ true
      → (a : ℕ) → address (pool_of flags.pal_user p) idx ≤ a
      → a < address (pool_of flags.pal_user p) idx + 4096 * cnt
      → p'.memory a ≡ 0

abbrev pub GetResult : PallocFlags → Pools → ℕ → Type 0
GetResult flags p cnt =
    ((idx : ℕ) × (p' : Pools) × (palloc_get_multiple flags p cnt
        ≡ some (address (pool_of flags.pal_user p) idx, p'))
      × Taken flags p cnt idx p')
    ⊎ (NoRun (pool_of flags.pal_user p).used_map 0 cnt false
        × (palloc_get_multiple flags p cnt ≡ (if flags.pal_assert then none else some (0, p))))

pub pool_of-set_pool : (user : Bool) (p : Pools) (q : Pool) → pool_of user (set_pool user p q) ≡ q
pool_of-set_pool true p q = refl
pool_of-set_pool false p q = refl

pub pool_of-other :
    (user : Bool) (p : Pools) (q : Pool)
    → pool_of (not user) (set_pool user p q) ≡ pool_of (not user) p
pool_of-other true p q = refl
pool_of-other false p q = refl

pub pool_of-memory :
    (user : Bool) (p : Pools) (m : ℕ → ℕ) → pool_of user (record p { memory = m }) ≡ pool_of user p
pool_of-memory true p m = refl
pool_of-memory false p m = refl

set_pool-same :
    (user : Bool) (p : Pools)
    → set_pool user p (record (pool_of user p) { used_map = (pool_of user p).used_map }) ≡ p
set_pool-same true p = refl
set_pool-same false p = refl

-- The pools after an allocation, by whether the pages were filled.
abbrev filled : Bool → Pools → ℕ → ℕ → Pools
filled true p pages cnt = record p { memory = fill p.memory pages 0 (4096 * cnt) }
filled false p pages cnt = p

pool_of-filled :
    (user z : Bool) (p : Pools) (pages cnt : ℕ)
    → pool_of user (filled z p pages cnt) ≡ pool_of user p
pool_of-filled user true p pages cnt = pool_of-memory user p _
pool_of-filled user false p pages cnt = refl

zeros :
    (z : Bool) (p : Pools) (pages cnt a : ℕ)
    → z ≡ true
    → pages ≤ a
    → a < pages + 4096 * cnt
    → (filled z p pages cnt).memory a ≡ 0
unfolding fill
zeros true p pages cnt a e lo hi = rw (le→leb pages a lo, lt→ltb a (pages + 4096 * cnt) hi) refl
zeros false p pages cnt a e lo hi = absurd (cc)

got_some :
    (flags : PallocFlags) (p : Pools) (pages cnt : ℕ)
    → pages ≢ 0
    → got_pages flags p pages cnt ≡ some (pages, filled flags.pal_zero p pages cnt)
unfolding got_pages
got_some flags p pages cnt ne = rw (==_ne pages 0 ne) (go flags.pal_zero)
  where
    go :
        (z : Bool)
        → ◌≡◌ {A = Option (ℕ × Pools)}
            (some
              (pages, if z then record p { memory = fill p.memory pages 0 (4096 * cnt) } else p))
            (some (pages, filled z p pages cnt))
    go true = refl
    go false = refl

got_none :
    (flags : PallocFlags) (p : Pools) (cnt : ℕ)
    → got_pages flags p 0 cnt ≡ (if flags.pal_assert then none else some (0, p))
unfolding got_pages
got_none flags p cnt = refl

-- palloc_get_multiple, for at least one page and with valid pools, either returns the address of the
-- first run of free pages of its pool, which it marks and, if asked, fills with zeros, and leaves
-- the other pool alone; or there is no such run, and it panics if PAL_ASSERT is set and else returns
-- a null pointer and changes nothing.
pub palloc_get_lem :
    (flags : PallocFlags) (p : Pools) (cnt : ℕ) → ArePools p → 0 < cnt → GetResult flags p cnt
unfolding palloc_get_multiple
palloc_get_lem flags p cnt a pos =
    go (
      bitmap_scan_and_flip_lem q.used_map 0 cnt false (pool_of-IsPool u p a).valid pos
        (omega arith))
  where
    u : Bool
    u = flags.pal_user

    q : Pool
    q = pool_of flags.pal_user p

    go :
        (idx : ℕ) × (b : Bitmap) × (bitmap_scan_and_flip q.used_map 0 cnt false ≡ some (idx, b))
          × FlipResult q.used_map 0 cnt false idx b
        → GetResult flags p cnt
    go (idx, b, e, inr (err, absent, same_map)) = inr (
      absent,
      rw (==_ne cnt 0 (omega arith)) (
          rw e (
            rw err (
              got_none flags (set_pool u p (record q { used_map = b })) cnt
              ∙ ap (λ x. if flags.pal_assert then none else some (0, x))
                  (ap (λ m. set_pool u p (record q { used_map = m })) same_map
                    ∙ set_pool-same u p)))),
    )
    go (idx, b, e, inl (ne, first, c)) =
        let iq = pool_of-IsPool u p a in
        let pages = address q idx in
        let p₁ = set_pool u p (record q { used_map = b }) in
        let inside : pages % 4294967296 ≡ pages = omega (arith, iq.below, first.to) in
        let pe : pool_of u (filled flags.pal_zero p₁ pages cnt) ≡ record q { used_map = b } =
          pool_of-filled u flags.pal_zero p₁ pages cnt
          ∙ pool_of-set_pool u p (record q { used_map = b }) in
        inl (
          idx,
          filled flags.pal_zero p₁ pages cnt,
          rw (==_ne cnt 0 (omega arith)) (
              rw e (
                rw (==_ne idx bitmap_error ne)
                  (rw inside (got_some flags p₁ pages cnt (omega (arith, iq.above)))))),
          record {
            first = first;
            changed = subst (λ x. Changed q.used_map (in_range idx cnt) true x.used_map) (sym pe) c;
            base = ap (λ x. x.base) pe;
            other =
                pool_of-filled (not u) flags.pal_zero p₁ pages cnt
                ∙ pool_of-other u p (record q { used_map = b });
            zeroed = λ z a lo hi. zeros flags.pal_zero p₁ pages cnt a z lo hi;
          },
        )
