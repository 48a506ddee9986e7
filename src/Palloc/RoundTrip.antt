-- ===== src/Palloc/RoundTrip.antt =====
-- palloc.c: pages that are allocated and freed again.
use mathlib.Core.Path.{subst}
use buaa755os.Base.{
  ℕ, ◌+◌, ◌*◌, ◌%◌, ◌≤◌, ◌<◌, ◌≡◌, ◌≢◌, refl, Bool, true, false, not, Option, none, some,
  if◌then◌else◌, arith, inl, inr, sym, ap, ◌∙◌, ==_ne,
}
use buaa755os.Bitmap.Bits.{bit_at, in_range, Changed}
use buaa755os.Bitmap.Scan.{Run}
use buaa755os.Bitmap.Alloc.{undo}
use buaa755os.Palloc.{
  Pool, Pools, PallocFlags, pool_of, palloc_get_multiple, free_in, palloc_free_multiple,
}
use buaa755os.Palloc.Pages.{
  IsPool, ArePools, pool_of-IsPool, address, found_in, not_in_kernel, Taken, palloc_get_lem,
}
use buaa755os.Palloc.Frees.{Freed, free_in_lem}

-- The pool of the pages is found.
finds_pool :
    (user : Bool) (p : Pools) (idx cnt : ℕ)
    → ArePools p
    → 0 < cnt
    → idx < (pool_of user p).used_map.bit_cnt
    → palloc_free_multiple p (address (pool_of user p) idx) cnt
      ≡ free_in user p (address (pool_of user p) idx) cnt
unfolding palloc_free_multiple
finds_pool false p idx cnt a pos h =
    let pages = address p.kernel_pool idx in
    let e : pages % 4096 ≡ 0 = omega (arith, a.kernel.aligned) in
    rw e (
      rw (==_ne pages 0 (omega (arith, a.kernel.above)))
        (rw (==_ne cnt 0 (omega arith)) (rw (found_in p.kernel_pool idx a.kernel h) refl)))
finds_pool true p idx cnt a pos h =
    let pages = address p.user_pool idx in
    let e : pages % 4096 ≡ 0 = omega (arith, a.user.aligned) in
    rw e (
      rw (==_ne pages 0 (omega (arith, a.user.above))) (
        rw (==_ne cnt 0 (omega arith))
          (rw (not_in_kernel p idx a h) (rw (found_in p.user_pool idx a.user h) refl))))

-- palloc_free_multiple, of a run of pages of a valid pool that are all in use, does not panic, and
-- makes exactly those pages free.
pub palloc_free_lem :
    (user : Bool) (p : Pools) (idx cnt : ℕ)
    → ArePools p
    → 0 < cnt
    → idx + cnt ≤ (pool_of user p).used_map.bit_cnt
    → Run (pool_of user p).used_map idx cnt true
    → (p' : Pools) × (palloc_free_multiple p (address (pool_of user p) idx) cnt ≡ some p')
      × Freed user p idx cnt p'
palloc_free_lem user p idx cnt a pos h run =
    let (p', e, f) = free_in_lem user p idx cnt (pool_of-IsPool user p a) h run in
    (p', finds_pool user p idx cnt a pos (omega arith) ∙ e, f)

-- The pools stay valid under a change of a map.
Changed-IsPool :
    (q q' : Pool) (chosen : ℕ → Bool) (value : Bool)
    → IsPool q
    → Changed q.used_map chosen value q'.used_map
    → q'.base ≡ q.base
    → IsPool q'
Changed-IsPool q q' chosen value v c e = record {
  valid = c.valid;
  aligned = omega (arith, v.aligned);
  above = omega (arith, v.above);
  below = omega (arith, v.below, c.size);
}

Changed-ArePools :
    (user : Bool) (p p' : Pools) (chosen : ℕ → Bool) (value : Bool)
    → ArePools p
    → Changed (pool_of user p).used_map chosen value (pool_of user p').used_map
    → (pool_of user p').base ≡ (pool_of user p).base
    → pool_of (not user) p' ≡ pool_of (not user) p
    → ArePools p'
Changed-ArePools true p p' chosen value a c e o = record {
  kernel = subst IsPool (sym o) a.kernel;
  user = Changed-IsPool p.user_pool p'.user_pool chosen value a.user c e;
  apart = omega (arith, a.apart, ap (λ q. q.base) o, ap (λ q. q.used_map.bit_cnt) o);
}
Changed-ArePools false p p' chosen value a c e o = record {
  kernel = Changed-IsPool p.kernel_pool p'.kernel_pool chosen value a.kernel c e;
  user = subst IsPool (sym o) a.user;
  apart = omega (arith, a.apart, c.size, ap (λ q. q.base) o);
}

-- An allocation keeps the pools valid.
pub Taken-ArePools :
    (flags : PallocFlags) (p : Pools) (cnt idx : ℕ) (p' : Pools)
    → ArePools p
    → Taken flags p cnt idx p'
    → ArePools p'
Taken-ArePools flags p cnt idx p' a t =
    Changed-ArePools flags.pal_user p p' (in_range idx cnt) true a t.changed t.base t.other

-- After the second call every page of both pools is in use as before the first.
abbrev pub GivenBack : Bool → Pools → ℕ → ℕ → Pools → Type 0
GivenBack user p pages cnt p' =
    (p'' : Pools) × (palloc_free_multiple p' pages cnt ≡ some p'')
    × ((j : ℕ) → bit_at (pool_of user p'').used_map j ≡ bit_at (pool_of user p).used_map j)
    × (pool_of (not user) p'' ≡ pool_of (not user) p)

-- palloc_get_multiple, for at least one page and with valid pools, that returns pages, followed by
-- palloc_free_multiple of them: neither panics, and in both pools the same pages are in use as before.
pub get_free :
    (flags : PallocFlags) (p : Pools) (cnt pages : ℕ) {p' : Pools}
    → ArePools p
    → 0 < cnt
    → palloc_get_multiple flags p cnt ≡ some (pages, p')
    → pages ≢ 0
    → GivenBack flags.pal_user p pages cnt p'
get_free flags p cnt pages {p'} a pos e ne = elim (palloc_get_lem flags p cnt a pos) [
  | inl (idx, p₁, e', t) ↦
      let ep : p₁ ≡ p' = cc in
      let ea : address (pool_of flags.pal_user p) idx ≡ pages = cc in
      subst (GivenBack flags.pal_user p pages cnt) ep
        (subst (λ x. GivenBack flags.pal_user p x cnt p₁) ea (back idx p₁ t))
  | inr (_, e') ↦ absurd (refused flags.pal_assert (sym e' ∙ e))
]
  where
    refused :
        (c : Bool)
        → ◌≡◌ {A = Option (ℕ × Pools)} (if c then none else some (0, p)) (some (pages, p'))
        → ⊥
    refused true q = cc
    refused false q = ne (cc)

    back :
        (idx : ℕ) (p₁ : Pools)
        → Taken flags p cnt idx p₁
        → GivenBack flags.pal_user p (address (pool_of flags.pal_user p) idx) cnt p₁
    back idx p₁ t =
        let q = pool_of flags.pal_user p in
        let run : Run (pool_of flags.pal_user p₁).used_map idx cnt true =
          λ j lo hi. ground (arith, t.changed.bits j) in
        let (p₂, f, d) =
          palloc_free_lem flags.pal_user p₁ idx cnt (Taken-ArePools flags p cnt idx p₁ a t) pos
            (omega (arith, t.first.to, t.changed.size)) run in
        let same_address : address (pool_of flags.pal_user p₁) idx ≡ address q idx =
          ap (λ b. b + 4096 * idx) t.base in
        (
          p₂,
          (rw same_address at f),
          undo q.used_map (pool_of flags.pal_user p₁).used_map (pool_of flags.pal_user p₂).used_map
              idx cnt t.first.run t.changed d.0,
          d.2 ∙ t.other,
        )
