-- ===== src/Buffers/Acquires.antt =====
-- buffers.c: the invariant after the turns that take a buffer, wait for it or give it another sector.
use mathlib.Core.Path.{subst}
use buaa755os.Base.{
  ℕ, ◌-◌, ◌≡◌, ◌≢◌, refl, Bool, true, false, List, ◌∷◌, some, update, update_self, arith, sym, ap,
  ◌∙◌,
}
use buaa755os.Buffers.{Sector, Buffer, Cache, uint_max, set_buffer, wake_buffer}
use buaa755os.Buffers.Steps.{Stage, State, goes_on, must_wait, wakes}
use buaa755os.Buffers.Turns.{taken, awaited, wake_some}
use buaa755os.Buffers.Invariant.{Loaded, StageInv, Wants, Clean, Inv}
use buaa755os.Buffers.Moves.{Set, updates, stays, quiet, unused-free}

-- What a thread takes a buffer for.
abbrev pub taken_for : Bool → Stage
taken_for true = Stage.flushing
taken_for false = Stage.held false

taken_for_lem :
    (flush : Bool) (b : Buffer) (contents : ℕ → Sector)
    → b.in_use ≡ true
    → b.evicting_sector ≡ uint_max
    → b.sector ≢ uint_max
    → Loaded b contents
    → StageInv (taken_for flush) b contents
taken_for_lem true b k u e n l = ((u, e, n), l)
taken_for_lem false b k u e n l = ((u, e, n), l)

taken_for-Clean :
    (flush : Bool) (b : Buffer) (s : ℕ)
    → Clean (taken_for flush) b s
    → b.sector ≡ s
    → b.dirty ≡ false
taken_for-Clean true b s c e = absurd (c e)
taken_for-Clean false b s c e = let (d, q) = c e in d

-- A buffer that is not in use is taken, to be used or to be flushed.
takes :
    (m m' : State) (flush : Bool) (i n : ℕ) (w : List ℕ)
    → Inv m
    → (m.cache.buffers i).in_use ≡ false
    → (m.cache.buffers i).sector ≢ uint_max
    → Wants n (m.cache.buffers i).sector w
    → m' ≡ record m {
      cache = set_buffer m.cache i (record (m.cache.buffers i) { waiting = n; in_use = true });
      stage = update m.stage i (taken_for flush);
      wanted = m'.wanted;
    }
    → Set m'.wanted m.wanted i w
    → Inv m'
takes m m' flush i n w v u ne ws e sw =
    let (l, ws') = v.each i in
    let (st, (u', ev, ld, d)) = unused-free (m.stage i) (m.cache.buffers i) m.contents l u in
    let b = record (m.cache.buffers i) { waiting = n; in_use = true } in
    subst Inv (sym e) (
      quiet m _ i (record { buffer = b; stage = taken_for flush; wanted = w }) v
        (updates m.cache.buffers i b) (updates m.stage i (taken_for flush)) sw refl refl refl
        (taken_for_lem flush b m.contents refl ev ne ld, ws) (v.apart i) (v.listed i)
        (λ s n c.
          subst (λ st. Clean st (m.cache.buffers i) s) (sym st) (taken_for-Clean flush b s c)))

pub has-Inv :
    (m : State) (flush : Bool) (i : ℕ)
    → Inv m
    → (m.cache.buffers i).in_use ≡ false
    → (m.cache.buffers i).sector ≢ uint_max
    → Inv (goes_on m i (set_buffer m.cache i (taken (m.cache.buffers i))) (taken_for flush))
has-Inv m flush i v u n =
    let (l, ws) = v.each i in
    takes m (goes_on m i (set_buffer m.cache i (taken (m.cache.buffers i))) (taken_for flush)) flush
      i (m.cache.buffers i).waiting (m.wanted i) v u n ws refl (stays m.wanted i)

pub wakes-Inv :
    (m : State) (flush : Bool) (i s : ℕ) (rest : List ℕ) (c : Cache)
    → Inv m
    → m.wanted i ≡ s ∷ rest
    → wake_buffer m.cache i ≡ some c
    → Inv (wakes m i c (taken_for flush) rest)
wakes-Inv m flush i s rest c v w e =
    let (ec, u) = wake_some m.cache i c e in
    let (l, ws) = v.each i in
    let (k, q, n, ws') =
      subst (Wants (m.cache.buffers i).waiting (m.cache.buffers i).sector) w ws in
    takes m (wakes m i c (taken_for flush) rest) flush i ((m.cache.buffers i).waiting - 1) rest v u
      (λ z. n (q ∙ z)) ws' (ap (λ c. wakes m i c (taken_for flush) rest) ec)
      (updates m.wanted i rest)

-- A thread that waits counts itself.
pub must_wait-Inv :
    (m : State) (i : ℕ)
    → Inv m
    → (m.cache.buffers i).sector ≢ uint_max
    → Inv (must_wait m i (set_buffer m.cache i (awaited (m.cache.buffers i))))
must_wait-Inv m i v n =
    let (l, ws) = v.each i in
    quiet m (must_wait m i (set_buffer m.cache i b)) i
      (record { buffer = b; stage = m.stage i; wanted = b.sector ∷ m.wanted i }) v
      (updates m.cache.buffers i b) (stays m.stage i)
      (subst (λ s. Set (update m.wanted i (s ∷ m.wanted i)) m.wanted i (b.sector ∷ m.wanted i))
        (sym (ap (λ b. b.sector) (update_self m.cache.buffers i b)))
        (updates m.wanted i (b.sector ∷ m.wanted i)))
      refl refl refl
      (
        same_stage (m.stage i) l,
        ((λ z. omega arith), refl, n, subst (λ n. Wants n b.sector (m.wanted i)) (omega arith) ws),
      )
      (v.apart i) (v.listed i) (λ s n c. same_clean (m.stage i) s c)
  where
    b : Buffer
    b = awaited (m.cache.buffers i)

    same_stage :
        (st : Stage) → StageInv st (m.cache.buffers i) m.contents → StageInv st b m.contents
    same_stage Stage.free l = l
    same_stage Stage.evicting l = l
    same_stage Stage.evicted l = l
    same_stage Stage.loading l = l
    same_stage (Stage.held wrote) l = l
    same_stage Stage.flushing l = l
    same_stage Stage.flushed l = l

    same_clean : (st : Stage) (s : ℕ) → Clean st b s → Clean st (m.cache.buffers i) s
    same_clean Stage.free s c = c
    same_clean Stage.evicting s c = c
    same_clean Stage.evicted s c = c
    same_clean Stage.loading s c = c
    same_clean (Stage.held wrote) s c = c
    same_clean Stage.flushing s c = c
    same_clean Stage.flushed s c = c
