-- ===== src/Palloc/Frees.antt =====
-- palloc.c: what freeing a run of pages does.
use mathlib.Core.Path.{subst}
use buaa755os.Base.{
  ℕ, ◌+◌, ◌-◌, ◌*◌, ◌/◌, ◌≤◌, ◌≡◌, refl, Bool, true, false, not, some, arith, sym, ap, ◌∙◌,
}
use buaa755os.Bitmap.Bits.{in_range, Changed, bitmap_set_multiple_lem}
use buaa755os.Bitmap.Scan.{Run}
use buaa755os.Bitmap.InUse.{bitmap_all-Run}
use buaa755os.Palloc.{Pools, fill, pool_of, set_pool, free_in}
use buaa755os.Palloc.Pages.{IsPool, address, pool_of-memory, pool_of-set_pool, pool_of-other}

-- Freeing a run of pages that are in use.
abbrev pub Freed : Bool → Pools → ℕ → ℕ → Pools → Type 0
Freed user p idx cnt p' =
    Changed (pool_of user p).used_map (in_range idx cnt) false (pool_of user p').used_map
    × ((pool_of user p').base ≡ (pool_of user p).base)
    × (pool_of (not user) p' ≡ pool_of (not user) p)

pub free_in_lem :
    (user : Bool) (p : Pools) (idx cnt : ℕ)
    → IsPool (pool_of user p)
    → idx + cnt ≤ (pool_of user p).used_map.bit_cnt
    → Run (pool_of user p).used_map idx cnt true
    → (p' : Pools) × (free_in user p (address (pool_of user p) idx) cnt ≡ some p')
      × Freed user p idx cnt p'
unfolding free_in
free_in_lem user p idx cnt v h run =
    let q = pool_of user p in
    let at_idx : address q idx / 4096 - q.base / 4096 ≡ idx = omega (arith, v.aligned) in
    let (b, sets, c) = bitmap_set_multiple_lem q.used_map idx cnt false v.valid h in
    let pe =
      pool_of-memory user (set_pool user p (record q { used_map = b }))
        (fill p.memory (address q idx) 204 (4096 * cnt))
      ∙ pool_of-set_pool user p (record q { used_map = b }) in
    (
      _,
      rw at_idx (rw (bitmap_all-Run q.used_map idx cnt v.valid h run) (rw sets refl)),
      (
        subst (λ x. Changed q.used_map (in_range idx cnt) false x.used_map) (sym pe) c,
        ap (λ x. x.base) pe,
        pool_of-memory (not user) (set_pool user p (record q { used_map = b })) _
            ∙ pool_of-other user p (record q { used_map = b }),
      ),
    )
