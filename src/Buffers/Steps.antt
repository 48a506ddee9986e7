-- ===== src/Buffers/Steps.antt =====
-- buffers.c: the turns of any number of threads in any order, and what the sectors should hold.
use buaa755os.Base.{ℕ, ◌≡◌, ◌≢◌, Bool, true, false, some, List, [], ◌∷◌, update}
use buaa755os.Buffers.{
  Sector, Cache, uint_max, Turn, buffers_init, set_buffer, buffer_acquire, read_ahead, wake_buffer,
  write_evicted, end_eviction, read_buffer, buffer_release, flush_all, write_flushed, end_flush,
}

-- Where the thread is that uses a buffer: nowhere, before the write or after the write of
-- load_buffer's eviction, before its read, between buffer_acquire and buffer_release (and whether it
-- has written), and before or after the write of flush_all.
pub data Stage : Type 0 where
  free evicting evicted loading : Stage
  held : Bool → Stage
  flushing flushed : Stage

-- The cache, the stage of each buffer, the sectors that the threads waiting for a buffer to become
-- available want, and the contents of each sector: those last written through a buffer.
pub record State : Type 0 where
  pub cache : Cache
  pub stage : ℕ → Stage
  pub wanted : ℕ → List ℕ
  pub contents : ℕ → Sector

abbrev pub goes_on : State → ℕ → Cache → Stage → State
goes_on m i c st = record m { cache = c; stage = update m.stage i st }

abbrev pub must_wait : State → ℕ → Cache → State
must_wait m i c = record m {
  cache = c;
  wanted = update m.wanted i ((c.buffers i).sector ∷ m.wanted i);
}

abbrev pub wakes : State → ℕ → Cache → Stage → List ℕ → State
wakes m i c st rest = record m {
  cache = c;
  stage = update m.stage i st;
  wanted = update m.wanted i rest;
}

-- The code of a thread that holds a buffer writes to its bytes.
abbrev pub writes : State → ℕ → Sector → State
writes m i bytes =
    let b = m.cache.buffers i in
    record m {
      cache = set_buffer m.cache i (record b { bytes = bytes });
      stage = update m.stage i (Stage.held true);
      contents = update m.contents b.sector bytes;
    }

-- What the caller of buffer_release says: a buffer that was written to is dirty.
abbrev pub Honest : Bool → Bool → Type 0
Honest wrote dirty = wrote ≡ true → dirty ≡ true

pub data Step (m : State) : State → Type 0 where
  acquire_has :
      (s : ℕ) (is_meta : Bool) (i : ℕ) (c : Cache)
      → s ≢ uint_max
      → buffer_acquire m.cache s is_meta ≡ Turn.has i c
      → Step m (goes_on m i c (Stage.held false))
  acquire_waits :
      (s : ℕ) (is_meta : Bool) (i : ℕ) (c : Cache)
      → s ≢ uint_max
      → buffer_acquire m.cache s is_meta ≡ Turn.waits_for i c
      → Step m (must_wait m i c)
  acquire_evicts :
      (s : ℕ) (is_meta : Bool) (i : ℕ) (c : Cache)
      → s ≢ uint_max
      → buffer_acquire m.cache s is_meta ≡ Turn.writes_out i c
      → Step m (goes_on m i c Stage.evicting)
  acquire_reads :
      (s : ℕ) (is_meta : Bool) (i : ℕ) (c : Cache)
      → s ≢ uint_max
      → buffer_acquire m.cache s is_meta ≡ Turn.reads_in i c
      → Step m (goes_on m i c Stage.loading)
  ahead_evicts :
      (s : ℕ) (is_meta : Bool) (i : ℕ) (c : Cache)
      → s ≢ uint_max
      → read_ahead m.cache s is_meta ≡ Turn.writes_out i c
      → Step m (goes_on m i c Stage.evicting)
  ahead_reads :
      (s : ℕ) (is_meta : Bool) (i : ℕ) (c : Cache)
      → s ≢ uint_max
      → read_ahead m.cache s is_meta ≡ Turn.reads_in i c
      → Step m (goes_on m i c Stage.loading)
  acquire_wakes :
      (i s : ℕ) (rest : List ℕ) (c : Cache)
      → m.wanted i ≡ s ∷ rest
      → wake_buffer m.cache i ≡ some c
      → Step m (wakes m i c (Stage.held false) rest)
  evict_writes :
      (i : ℕ)
      → m.stage i ≡ Stage.evicting
      → Step m (goes_on m i (write_evicted m.cache i) Stage.evicted)
  evict_ends :
      (i : ℕ)
      → m.stage i ≡ Stage.evicted
      → Step m (goes_on m i (end_eviction m.cache i) Stage.loading)
  reads :
      (i : ℕ) (c : Cache)
      → m.stage i ≡ Stage.loading
      → read_buffer m.cache i ≡ some c
      → Step m (goes_on m i c (Stage.held false))
  holder_writes :
      (i : ℕ) (wrote : Bool) (bytes : Sector)
      → m.stage i ≡ Stage.held wrote
      → Step m (writes m i bytes)
  releases :
      (i : ℕ) (wrote dirty : Bool) (c : Cache)
      → m.stage i ≡ Stage.held wrote
      → Honest wrote dirty
      → buffer_release m.cache i dirty ≡ some c
      → Step m (goes_on m i c Stage.free)
  flush_has :
      (i : ℕ) (c : Cache) → flush_all m.cache ≡ Turn.has i c → Step m (goes_on m i c Stage.flushing)
  flush_waits :
      (i : ℕ) (c : Cache) → flush_all m.cache ≡ Turn.waits_for i c → Step m (must_wait m i c)
  flush_wakes :
      (i s : ℕ) (rest : List ℕ) (c : Cache)
      → m.wanted i ≡ s ∷ rest
      → wake_buffer m.cache i ≡ some c
      → Step m (wakes m i c Stage.flushing rest)
  flush_writes :
      (i : ℕ)
      → m.stage i ≡ Stage.flushing
      → Step m (goes_on m i (write_flushed m.cache i) Stage.flushed)
  flush_ends :
      (i : ℕ) (c : Cache)
      → m.stage i ≡ Stage.flushed
      → end_flush m.cache i ≡ some c
      → Step m (goes_on m i c Stage.free)

-- The start: no buffer holds a sector, and the sectors hold what is on the device.
unfoldable pub start_state : (ℕ → Sector) → Sector → State
unfolding buffers_init
start_state device bytes = record {
  cache = buffers_init device bytes;
  stage = λ i. Stage.free;
  wanted = λ i. [];
  contents = device;
}

pub data Reach (device : ℕ → Sector) (bytes : Sector) : State → Type 0 where
  start : Reach device bytes (start_state device bytes)
  later : {m m' : State} → Reach device bytes m → Step m m' → Reach device bytes m'
