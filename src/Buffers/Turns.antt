-- ===== src/Buffers/Turns.antt =====
-- buffers.c: what a turn of buffer_acquire, read_ahead and flush_all does, by how it ends.
use mathlib.Core.Path.{subst}
use buaa755os.Base.{
  ℕ, ◌+◌, ◌-◌, ◌≡◌, ◌≢◌, refl, Bool, true, false, not, ◌&&◌, Option, none, some, if◌then◌else◌,
  ◌==◌, inl, inr, arith, Bool-cases,
}
use buaa755os.HashTable.Buckets.{OneOf}
use buaa755os.Buffers.{
  Buffer, Cache, uint_max, set_buffer, Turn, load_buffer, take_buffer, wake_buffer, acquire_found,
  buffer_acquire, read_ahead_found, read_ahead, get_buffer_to_acquire, flush_found, flush_all,
  get_buffer_to_write_back,
}
use buaa755os.Buffers.Search.{
  Absent, AcquireResult, get_buffer_to_acquire_lem, Listed, get_buffer_to_acquire-Listed,
  WriteBackResult, get_buffer_to_write_back_lem,
}

abbrev pub taken : Buffer → Buffer
taken b = record b { in_use = true }

abbrev pub awoken : Buffer → Buffer
awoken b = record (taken b) { waiting = b.waiting - 1 }

abbrev pub awaited : Buffer → Buffer
awaited b = record b { waiting = b.waiting + 1 }

abbrev pub loads : Buffer → ℕ → Bool → Buffer
loads b s is_meta = record b { in_use = true; is_meta = is_meta; sector = s }

abbrev pub evicts : Buffer → ℕ → Bool → Buffer
evicts b s is_meta = record b {
  in_use = true;
  is_meta = is_meta;
  evicting_sector = b.sector;
  sector = s;
}

-- The buffer is unused, and no buffer holds or evicts the sector.
abbrev pub Loadable : Cache → ℕ → ℕ → Type 0
Loadable c s i =
    ((c.buffers i).waiting ≡ 0)
    × ((c.buffers i).in_use ≡ false)
    × Absent c.buffers s c.cache
    × OneOf i c.cache

-- What a turn for a sector says of the cache it starts from and of the one it ends with.
abbrev pub AcquireTurn : Cache → ℕ → Bool → Turn → Type 0
AcquireTurn c s is_meta Turn.idle = Unit
AcquireTurn c s is_meta (Turn.waits_for i c') =
    (c' ≡ set_buffer c i (awaited (c.buffers i)))
    × ((c.buffers i).in_use ≡ true)
    × (s ≡ (c.buffers i).sector)
AcquireTurn c s is_meta (Turn.has i c') =
    (c' ≡ set_buffer c i (taken (c.buffers i)))
    × ((c.buffers i).in_use ≡ false)
    × (s ≡ (c.buffers i).sector)
AcquireTurn c s is_meta (Turn.writes_out i c') =
    (c' ≡ set_buffer c i (evicts (c.buffers i) s is_meta))
    × ((c.buffers i).dirty ≡ true)
    × Loadable c s i
AcquireTurn c s is_meta (Turn.reads_in i c') =
    (c' ≡ set_buffer c i (loads (c.buffers i) s is_meta))
    × ((c.buffers i).dirty ≡ false)
    × Loadable c s i
AcquireTurn c s is_meta Turn.fails =
    (i : ℕ) × ((c.buffers i).in_use ≡ false) × (s ≡ (c.buffers i).evicting_sector)

load_lem :
    (c : Cache) (s : ℕ) (is_meta : Bool) (i : ℕ)
    → Loadable c s i
    → AcquireTurn c s is_meta (load_buffer c s is_meta i)
unfolding load_buffer
load_lem c s is_meta i (w, u, a, o) = rw u (dirty b.dirty refl)
  where
    b : Buffer
    b = c.buffers i

    dirty :
        (d : Bool)
        → b.dirty ≡ d
        → AcquireTurn c s is_meta (
            if d
            then Turn.writes_out i (set_buffer c i (evicts b s is_meta))
            else Turn.reads_in i (set_buffer c i (loads b s is_meta)))
    dirty true d = (refl, d, (w, u, a, o))
    dirty false d = (refl, d, (w, u, a, o))

take_lem :
    (c : Cache) (is_meta : Bool) (i : ℕ)
    → AcquireTurn c (c.buffers i).sector is_meta (take_buffer c i)
unfolding take_buffer
take_lem c is_meta i = go (c.buffers i).in_use refl
  where
    go :
        (u : Bool)
        → (c.buffers i).in_use ≡ u
        → AcquireTurn c (c.buffers i).sector is_meta (
            if u
            then Turn.waits_for i (set_buffer c i (awaited (c.buffers i)))
            else Turn.has i (set_buffer c i (taken (c.buffers i))))
    go true u = (refl, u, refl)
    go false u = (refl, u, refl)

-- A buffer found that neither holds nor evicts the sector can be loaded.
loadable :
    (c : Cache) (s i : ℕ)
    → s ≢ (c.buffers i).sector
    → s ≢ (c.buffers i).evicting_sector
    → AcquireResult c.buffers s c.cache (some i)
    → OneOf i c.cache
    → Loadable c s i
loadable c s i n e (inl (inl q)) o = absurd (n q)
loadable c s i n e (inl (inr q)) o = absurd (e q)
loadable c s i n e (inr (a, (w, u))) o = (w, u, a, o)

acquire_found_lem :
    (c : Cache) (s : ℕ) (is_meta : Bool) (o : Option ℕ)
    → AcquireResult c.buffers s c.cache o
    → Listed c.cache o
    → AcquireTurn c s is_meta (acquire_found c s is_meta o)
unfolding acquire_found
acquire_found_lem c s is_meta none h l = tt
acquire_found_lem c s is_meta (some i) h l = elim (Bool-cases (s == (c.buffers i).sector)) [
  | inl q ↦
      rw q (
        subst (λ s. AcquireTurn c s is_meta (take_buffer c i)) (ground arith)
          (take_lem c is_meta i))
  | inr q ↦ rw q (elim (Bool-cases (s == (c.buffers i).evicting_sector)) [
    | inl e ↦ rw e (elim (Bool-cases (c.buffers i).in_use) [
      | inl u ↦ rw u tt
      | inr u ↦ rw u (i, u, (ground arith))
    ])
    | inr e ↦ rw e (load_lem c s is_meta i (loadable c s i (ground arith) (ground arith) h l))
  ])
]

pub buffer_acquire_lem :
    (c : Cache) (s : ℕ) (is_meta : Bool) → AcquireTurn c s is_meta (buffer_acquire c s is_meta)
unfolding buffer_acquire
buffer_acquire_lem c s is_meta =
    acquire_found_lem c s is_meta (get_buffer_to_acquire c s) (get_buffer_to_acquire_lem c s)
      (get_buffer_to_acquire-Listed c s)

read_ahead_found_lem :
    (c : Cache) (s : ℕ) (is_meta : Bool) (o : Option ℕ)
    → AcquireResult c.buffers s c.cache o
    → Listed c.cache o
    → AcquireTurn c s is_meta (read_ahead_found c s is_meta o)
unfolding read_ahead_found
read_ahead_found_lem c s is_meta none h l = tt
read_ahead_found_lem c s is_meta (some i) h l =
    elim (Bool-cases
      (not (s == (c.buffers i).sector) && not (s == (c.buffers i).evicting_sector))) [
        | inl q ↦ rw q (load_lem c s is_meta i (loadable c s i (ground arith) (ground arith) h l))
        | inr q ↦ rw q tt
      ]

pub read_ahead_lem :
    (c : Cache) (s : ℕ) (is_meta : Bool) → AcquireTurn c s is_meta (read_ahead c s is_meta)
unfolding read_ahead
read_ahead_lem c s is_meta =
    read_ahead_found_lem c s is_meta (get_buffer_to_acquire c s) (get_buffer_to_acquire_lem c s)
      (get_buffer_to_acquire-Listed c s)

-- The buffer is dirty, and not being evicted.
abbrev pub Flushable : Buffer → Type 0
Flushable b = (b.dirty ≡ true) × (b.evicting_sector ≡ uint_max)

-- What a turn of flush_all says.
abbrev pub FlushTurn : Cache → Turn → Type 0
FlushTurn c (Turn.waits_for i c') =
    (c' ≡ set_buffer c i (awaited (c.buffers i)))
    × ((c.buffers i).in_use ≡ true)
    × Flushable (c.buffers i)
FlushTurn c (Turn.has i c') =
    (c' ≡ set_buffer c i (taken (c.buffers i)))
    × ((c.buffers i).in_use ≡ false)
    × Flushable (c.buffers i)
FlushTurn c Turn.idle = Unit
FlushTurn c Turn.fails = ⊥
FlushTurn c (Turn.writes_out i c') = ⊥
FlushTurn c (Turn.reads_in i c') = ⊥

flush_found_lem :
    (c : Cache) (o : Option ℕ) → WriteBackResult c.buffers c.cache o → FlushTurn c (flush_found c o)
unfolding flush_found take_buffer
flush_found_lem c none h = tt
flush_found_lem c (some i) (d, e, l) = go (c.buffers i).in_use refl
  where
    go :
        (u : Bool)
        → (c.buffers i).in_use ≡ u
        → FlushTurn c (
            if u
            then Turn.waits_for i (set_buffer c i (awaited (c.buffers i)))
            else Turn.has i (set_buffer c i (taken (c.buffers i))))
    go true u = (refl, u, (d, e))
    go false u = (refl, u, (d, e))

pub flush_all_lem : (c : Cache) → FlushTurn c (flush_all c)
unfolding flush_all
flush_all_lem c = flush_found_lem c (get_buffer_to_write_back c) (get_buffer_to_write_back_lem c)

-- A woken thread has the buffer, or goes on waiting.
abbrev WakeTurn : Cache → ℕ → Option Cache → Type 0
WakeTurn c i none = (c.buffers i).in_use ≡ true
WakeTurn c i (some c') =
    (c' ≡ set_buffer c i (awoken (c.buffers i))) × ((c.buffers i).in_use ≡ false)

wake_lem : (c : Cache) (i : ℕ) → WakeTurn c i (wake_buffer c i)
unfolding wake_buffer
wake_lem c i = go (c.buffers i).in_use refl
  where
    go :
        (u : Bool)
        → (c.buffers i).in_use ≡ u
        → WakeTurn c i (
            if u
            then none
            else some (
                set_buffer c i
                  (record (c.buffers i) { waiting = (c.buffers i).waiting - 1; in_use = true })))
    go true u = u
    go false u = (refl, u)

pub wake_some :
    (c : Cache) (i : ℕ) (c' : Cache) → wake_buffer c i ≡ some c' → WakeTurn c i (some c')
wake_some c i c' e = subst (WakeTurn c i) e (wake_lem c i)
