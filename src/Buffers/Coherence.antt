-- ===== src/Buffers/Coherence.antt =====
-- buffers.c: what holds after any turns of any threads.
use mathlib.Core.Path.{subst}
use buaa755os.Base.{
  ℕ, ◌≡◌, ◌≢◌, refl, Bool, true, false, none, some, update_self, inl, inr, sym, ap, ◌∙◌,
}
use buaa755os.HashTable.Buckets.{OneOf}
use buaa755os.Buffers.{
  Sector, Buffer, Cache, uint_max, Turn, new_buffer, buffers_init, set_buffer, buffer_acquire,
  read_ahead, wake_buffer, read_buffer, buffer_release, flush_all, end_flush,
}
use buaa755os.Buffers.Steps.{Stage, State, goes_on, must_wait, Step, start_state, Reach}
use buaa755os.Buffers.Turns.{
  awoken, wake_some, AcquireTurn, buffer_acquire_lem, read_ahead_lem, FlushTurn, flush_all_lem,
}
use buaa755os.Buffers.Invariant.{slot, StageInv, CleanSlot, Inv, same_or}
use buaa755os.Buffers.Acquires.{taken_for, has-Inv, wakes-Inv, must_wait-Inv}
use buaa755os.Buffers.Loads.{loads-Inv, evicts-Inv}
use buaa755os.Buffers.Holds.{never_fails, Holds, Acquired, unused-Holds, acquired_lem, wanted_lem}
use buaa755os.Buffers.Transfers.{
  staged, evict_writes-Inv, flush_writes-Inv, evict_ends-Inv, filled, read_lem, reads-Inv,
  holder_writes-Inv,
}
use buaa755os.Buffers.Releases.{releases-Inv, flush_ends-Inv, release_used}

start-Inv : (device : ℕ → Sector) (bytes : Sector) → Inv (start_state device bytes)
unfolding start_state buffers_init new_buffer
start-Inv device bytes = record {
  each = λ i. ((refl, refl, (λ n. absurd (n refl)), (λ e. absurd cc)), refl);
  apart = λ i j n. ((λ e. refl), (λ e. refl), (λ e. refl), (λ e. refl));
  listed = λ i. inr (refl, refl);
  saved = λ s n f. refl;
}

-- The state that a turn of buffer_acquire, of read_ahead or of flush_all leads to satisfies Inv.
abbrev After : State → Bool → Turn → Type 0
After m flush Turn.idle = Unit
After m flush Turn.fails = Unit
After m flush (Turn.waits_for i c) = Inv (must_wait m i c)
After m flush (Turn.has i c) = Inv (goes_on m i c (taken_for flush))
After m flush (Turn.writes_out i c) = Inv (goes_on m i c Stage.evicting)
After m flush (Turn.reads_in i c) = Inv (goes_on m i c Stage.loading)

acquired :
    (m : State) (s : ℕ) (is_meta : Bool) (t : Turn)
    → Inv m
    → s ≢ uint_max
    → AcquireTurn m.cache s is_meta t
    → After m false t
acquired m s is_meta Turn.idle v n h = tt
acquired m s is_meta Turn.fails v n h = tt
acquired m s is_meta (Turn.waits_for i c) v n (e, u, q) =
    subst (λ c. Inv (must_wait m i c)) (sym e) (must_wait-Inv m i v (λ z. n (q ∙ z)))
acquired m s is_meta (Turn.has i c) v n (e, u, q) =
    subst (λ c. Inv (goes_on m i c (Stage.held false))) (sym e)
      (has-Inv m false i v u (λ z. n (q ∙ z)))
acquired m s is_meta (Turn.writes_out i c) v n (e, d, l) =
    subst (λ c. Inv (goes_on m i c Stage.evicting)) (sym e) (evicts-Inv m i s is_meta v n d l)
acquired m s is_meta (Turn.reads_in i c) v n (e, d, l) =
    subst (λ c. Inv (goes_on m i c Stage.loading)) (sym e) (loads-Inv m i s is_meta v n d l)

-- A dirty buffer that is not being evicted has a sector.
dirty_sector :
    (st : Stage) (b : Buffer) (contents : ℕ → Sector)
    → StageInv st b contents
    → b.dirty ≡ true
    → b.evicting_sector ≡ uint_max
    → b.sector ≢ uint_max
dirty_sector Stage.free b k (u, e, l, d) q w = d q
dirty_sector Stage.evicting b k (u, e, n, l) q w = n
dirty_sector Stage.evicted b k (u, e, n) q w = n
dirty_sector Stage.loading b k ((u, e, n), d) q w = n
dirty_sector (Stage.held wrote) b k ((u, e, n), l) q w = n
dirty_sector Stage.flushing b k ((u, e, n), l) q w = n
dirty_sector Stage.flushed b k ((u, e, n), l) q w = n

flush_turn : (m : State) (t : Turn) → Inv m → FlushTurn m.cache t → After m true t
flush_turn m Turn.idle v h = tt
flush_turn m Turn.fails v h = tt
flush_turn m (Turn.waits_for i c) v (e, u, (d, q)) =
    subst (λ c. Inv (must_wait m i c)) (sym e)
      (must_wait-Inv m i v
        (dirty_sector (m.stage i) (m.cache.buffers i) m.contents (let (l, ws) = v.each i in l) d q))
flush_turn m (Turn.has i c) v (e, u, (d, q)) =
    subst (λ c. Inv (goes_on m i c Stage.flushing)) (sym e)
      (has-Inv m true i v u
        (dirty_sector (m.stage i) (m.cache.buffers i) m.contents (let (l, ws) = v.each i in l) d q))
flush_turn m (Turn.writes_out i c) v h = absurd h
flush_turn m (Turn.reads_in i c) v h = absurd h

After-buffer_acquire :
    (m : State) (s : ℕ) (is_meta : Bool) (t : Turn)
    → Inv m
    → s ≢ uint_max
    → buffer_acquire m.cache s is_meta ≡ t
    → After m false t
After-buffer_acquire m s is_meta t v n e =
    acquired m s is_meta t v n
      (subst (AcquireTurn m.cache s is_meta) e (buffer_acquire_lem m.cache s is_meta))

After-read_ahead :
    (m : State) (s : ℕ) (is_meta : Bool) (t : Turn)
    → Inv m
    → s ≢ uint_max
    → read_ahead m.cache s is_meta ≡ t
    → After m false t
After-read_ahead m s is_meta t v n e =
    acquired m s is_meta t v n
      (subst (AcquireTurn m.cache s is_meta) e (read_ahead_lem m.cache s is_meta))

After-flush_all : (m : State) (t : Turn) → Inv m → flush_all m.cache ≡ t → After m true t
After-flush_all m t v e = flush_turn m t v (subst (FlushTurn m.cache) e (flush_all_lem m.cache))

read_some :
    (m : State) (i : ℕ) (c : Cache)
    → Inv m
    → m.stage i ≡ Stage.loading
    → read_buffer m.cache i ≡ some c
    → set_buffer m.cache i (filled m.cache i) ≡ c
read_some m i c v e r = let w = read_lem m i v e in cc

Step-Inv : (m m' : State) → Inv m → Step m m' → Inv m'
Step-Inv m m' v (Step.acquire_has s is_meta i c n e) =
    After-buffer_acquire m s is_meta (Turn.has i c) v n e
Step-Inv m m' v (Step.acquire_waits s is_meta i c n e) =
    After-buffer_acquire m s is_meta (Turn.waits_for i c) v n e
Step-Inv m m' v (Step.acquire_evicts s is_meta i c n e) =
    After-buffer_acquire m s is_meta (Turn.writes_out i c) v n e
Step-Inv m m' v (Step.acquire_reads s is_meta i c n e) =
    After-buffer_acquire m s is_meta (Turn.reads_in i c) v n e
Step-Inv m m' v (Step.ahead_evicts s is_meta i c n e) =
    After-read_ahead m s is_meta (Turn.writes_out i c) v n e
Step-Inv m m' v (Step.ahead_reads s is_meta i c n e) =
    After-read_ahead m s is_meta (Turn.reads_in i c) v n e
Step-Inv m m' v (Step.acquire_wakes i s rest c w e) = wakes-Inv m false i s rest c v w e
Step-Inv m m' v (Step.evict_writes i e) = evict_writes-Inv m i v e
Step-Inv m m' v (Step.evict_ends i e) = evict_ends-Inv m i v e
Step-Inv m m' v (Step.reads i c e r) =
    subst (λ c. Inv (goes_on m i c (Stage.held false))) (read_some m i c v e r) (reads-Inv m i v e)
Step-Inv m m' v (Step.holder_writes i wrote bytes e) = holder_writes-Inv m i wrote bytes v e
Step-Inv m m' v (Step.releases i wrote dirty c e h r) = releases-Inv m i wrote dirty c v e h r
Step-Inv m m' v (Step.flush_has i c e) = After-flush_all m (Turn.has i c) v e
Step-Inv m m' v (Step.flush_waits i c e) = After-flush_all m (Turn.waits_for i c) v e
Step-Inv m m' v (Step.flush_wakes i s rest c w e) = wakes-Inv m true i s rest c v w e
Step-Inv m m' v (Step.flush_writes i e) = flush_writes-Inv m i v e
Step-Inv m m' v (Step.flush_ends i c e r) = flush_ends-Inv m i c v e r

Reach-Inv : (device : ℕ → Sector) (bytes : Sector) (m : State) → Reach device bytes m → Inv m
Reach-Inv device bytes m Reach.start = start-Inv device bytes
Reach-Inv device bytes m (Reach.later {m = m'} r s) = Step-Inv m' m (Reach-Inv device bytes m' r) s

-- After any turns from the start, of any threads that acquire sectors other than UINT_MAX and release
-- a buffer as dirty when they wrote to it, the bytes of a buffer that a thread holds are what was last
-- written to its sector, through whichever buffer: the contents that the device had at the start, or
-- those that a holder of the sector wrote last.
pub coherence :
    (device : ℕ → Sector) (bytes : Sector) (m : State) (i : ℕ) (wrote : Bool)
    → Reach device bytes m
    → m.stage i ≡ Stage.held wrote
    → (m.cache.buffers i).bytes ≡ m.contents (m.cache.buffers i).sector
coherence device bytes m i wrote r e =
    let (((u, ev, n), l), ws) = staged m i (Stage.held wrote) (Reach-Inv device bytes m r) e in
    sym (l n)

-- After any turns from the start, of any threads that acquire sectors other than UINT_MAX and release
-- a buffer as dirty when they wrote to it, a turn of buffer_acquire for a sector other than UINT_MAX
-- that takes a buffer without reading it in takes one that holds this sector, and whose bytes are what
-- was last written to it; so does a thread that waited for a buffer to become available and is woken,
-- for the sector that it wants, which is the sector of the turn at whose end it began to wait; a turn
-- that goes on to read in or to write out a buffer has given it this sector; and a buffer read in has
-- the bytes that were last written to its sector.
pub buffer_acquire_has :
    (device : ℕ → Sector) (bytes : Sector) (m : State)
    → Reach device bytes m
    → ((s : ℕ) (is_meta : Bool) (t : Turn)
        → s ≢ uint_max
        → buffer_acquire m.cache s is_meta ≡ t
        → Acquired m s t)
      × ((i s : ℕ) (c : Cache)
          → OneOf s (m.wanted i)
          → wake_buffer m.cache i ≡ some c
          → Holds m i c s)
      × ((i : ℕ) (c : Cache)
          → m.stage i ≡ Stage.loading
          → read_buffer m.cache i ≡ some c
          → Holds m i c (m.cache.buffers i).sector)
buffer_acquire_has device bytes m r = (
  (λ s is_meta t n e.
      acquired_lem m s is_meta t v n
        (subst (AcquireTurn m.cache s is_meta) e (buffer_acquire_lem m.cache s is_meta))),
  (λ i s c o e.
      let (l, ws) = v.each i in
      let (q, n) =
        wanted_lem (m.cache.buffers i).waiting (m.cache.buffers i).sector s (m.wanted i) ws o in
      let (ec, u) = wake_some m.cache i c e in
      unused-Holds m i s c (awoken (m.cache.buffers i)) v ec refl refl u q n),
  (λ i c e q.
      let (((u, ev, n), l), ws) =
        staged (goes_on m i (set_buffer m.cache i (filled m.cache i)) (Stage.held false)) i
          (Stage.held false) (reads-Inv m i v e) (update_self m.stage i (Stage.held false)) in
      let b = update_self m.cache.buffers i (filled m.cache i) in
      let ec = sym (read_some m i c v e q) in
      (
        ap (λ c. (c.buffers i).sector) ec ∙ ap (λ b. b.sector) b,
        ap (λ c. (c.buffers i).bytes) ec ∙ (sym (l n) ∙ ap m.contents (ap (λ b. b.sector) b)),
      )),
)
  where
    v : Inv m
    v = Reach-Inv device bytes m r

-- After any turns from the start, of any threads that acquire sectors other than UINT_MAX and release
-- a buffer as dirty when they wrote to it, no two buffers hold one sector.
pub one_buffer_per_sector :
    (device : ℕ → Sector) (bytes : Sector) (m : State) (i j : ℕ)
    → Reach device bytes m
    → (m.cache.buffers i).sector ≡ (m.cache.buffers j).sector
    → (m.cache.buffers i).sector ≢ uint_max
    → i ≡ j
one_buffer_per_sector device bytes m i j r e n = elim (same_or i j) [
  | inl q ↦ q
  | inr d ↦ let (f, g, h, k) = (Reach-Inv device bytes m r).apart i j d in absurd (n (f e))
]

-- After any turns from the start, of any threads that acquire sectors other than UINT_MAX and release
-- a buffer as dirty when they wrote to it, a sector other than UINT_MAX of which no buffer has
-- anything still to be written (a dirty buffer with it that is free, a buffer with it that is held and
-- is dirty or was written to, a buffer with it that is about to be flushed, or one that is about to be
-- written out as it is evicted) is on the device as it was last written.
pub clean_on_device :
    (device : ℕ → Sector) (bytes : Sector) (m : State) (s : ℕ)
    → Reach device bytes m
    → s ≢ uint_max
    → ((i : ℕ) → CleanSlot (slot m i) s)
    → m.cache.fs_device s ≡ m.contents s
clean_on_device device bytes m s r n f = sym ((Reach-Inv device bytes m r).saved s n f)

-- After any turns from the start, of any threads that acquire sectors other than UINT_MAX and release
-- a buffer as dirty when they wrote to it, no assertion of buffers.c fails: neither those of
-- buffer_acquire and of read_ahead for a sector other than UINT_MAX, up to where they let go of
-- cache_lock, nor that of load_buffer before it reads a buffer in, nor that of buffer_release at the
-- end of a use or of a flush.
pub no_assertion_fails :
    (device : ℕ → Sector) (bytes : Sector) (m : State) (s : ℕ) (is_meta : Bool)
    → Reach device bytes m
    → s ≢ uint_max
    → (buffer_acquire m.cache s is_meta ≢ Turn.fails)
      × (read_ahead m.cache s is_meta ≢ Turn.fails)
      × ((i : ℕ) → m.stage i ≡ Stage.loading → read_buffer m.cache i ≢ none)
      × ((i : ℕ) (wrote dirty : Bool)
          → m.stage i ≡ Stage.held wrote
          → buffer_release m.cache i dirty ≢ none)
      × ((i : ℕ) → m.stage i ≡ Stage.flushed → end_flush m.cache i ≢ none)
unfolding end_flush
no_assertion_fails device bytes m s is_meta r n = (
  (λ e.
      never_fails m s is_meta v n
        (subst (AcquireTurn m.cache s is_meta) e (buffer_acquire_lem m.cache s is_meta))),
  (λ e.
      never_fails m s is_meta v n
        (subst (AcquireTurn m.cache s is_meta) e (read_ahead_lem m.cache s is_meta))),
  (λ i e z. let w = read_lem m i v e in absurd cc),
  (λ i wrote dirty e z.
      let (((u, ev, k), l), ws) = staged m i (Stage.held wrote) v e in
      release_used m.cache i dirty u z),
  (λ i e z.
      let (((u, ev, k), l), ws) = staged m i Stage.flushed v e in
      let cleaned = record (m.cache.buffers i) { dirty = false } in
      release_used (set_buffer m.cache i cleaned) i false
        (ap (λ b. b.in_use) (update_self m.cache.buffers i cleaned) ∙ u) z),
)
  where
    v : Inv m
    v = Reach-Inv device bytes m r
