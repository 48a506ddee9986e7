-- ===== src/Buffers.antt =====
-- pintos_3/src/filesys/buffers.c: the cache of sectors. A call is cut into turns, each up to where it
-- lets go of cache_lock; a thread that waits for a condition tests again in a later turn.
pub mod Steps
pub mod Search
pub mod Turns
pub mod Moves
pub mod Acquires
pub mod Loads
pub mod Transfers
pub mod Releases
pub mod Holds
pub mod Coherence
pub mod ReadAhead
pub mod Invariant
mod Tests
use buaa755os.Base.{
  ℕ, zero, suc, ◌+◌, ◌-◌, Bool, true, false, not, ◌&&◌, ◌||◌, Option, none, some, List, [], ◌∷◌,
  ◌++◌, update, if◌then◌else◌, ltb, ◌==◌,
}
use buaa755os.KernelList.{list_remove, list_push_back}

-- UINT_MAX, which is no sector.
abbrev pub uint_max : ℕ
uint_max = 4294967295

-- What a sector holds.
abbrev pub Sector : Type 0
Sector = List ℕ

-- `struct buffer`, less its conditions.
pub record Buffer : Type 0 where
  pub in_use : Bool
  pub dirty : Bool
  pub is_meta : Bool
  pub sector : ℕ
  pub evicting_sector : ℕ
  pub waiting : ℕ
  pub bytes : Sector

-- The buffers by index, the list `cache` of indices, and what fs_device holds.
pub record Cache : Type 0 where
  pub buffers : ℕ → Buffer
  pub cache : List ℕ
  pub fs_device : ℕ → Sector

abbrev pub set_buffer : Cache → ℕ → Buffer → Cache
set_buffer c i b = record c { buffers = update c.buffers i b }

unfoldable pub new_buffer : Sector → Buffer
new_buffer bytes = record {
  in_use = false;
  dirty = false;
  is_meta = false;
  sector = uint_max;
  evicting_sector = uint_max;
  waiting = 0;
  bytes = bytes;
}

-- The loop of buffers_init over the first `n` buffers.
unfoldable pub first_buffers : ℕ → List ℕ
first_buffers zero = []
first_buffers (suc n) = list_push_back n (first_buffers n)

unfoldable pub buffers_init : (ℕ → Sector) → Sector → Cache
unfolding new_buffer first_buffers
buffers_init device bytes = record {
  buffers = λ i. new_buffer bytes;
  cache = first_buffers 64;
  fs_device = device;
}

-- `meta_buffer == NULL ? buffer : meta_buffer`
abbrev pub or_else : Option ℕ → ℕ → Option ℕ
or_else none i = some i
or_else (some j) i = some j

abbrev pub preferred : Option ℕ → Option ℕ → Option ℕ
preferred none meta_buffer = meta_buffer
preferred (some i) meta_buffer = some i

-- The loop of get_buffer_to_acquire.
unfoldable pub acquire_from : (ℕ → Buffer) → ℕ → List ℕ → Option ℕ → Option ℕ → Option ℕ
acquire_from buffers sector [] meta_buffer data_buffer = preferred data_buffer meta_buffer
acquire_from buffers sector (i ∷ is) meta_buffer data_buffer =
    let b = buffers i in
    let unused = b.waiting == 0 && not b.in_use in
    let rest =
      acquire_from buffers sector is
        (if unused && b.is_meta then or_else meta_buffer i else meta_buffer)
        (if unused && not b.is_meta then or_else data_buffer i else data_buffer) in
    if sector == b.sector || sector == b.evicting_sector then some i else rest

unfoldable pub get_buffer_to_acquire : Cache → ℕ → Option ℕ
unfolding acquire_from
get_buffer_to_acquire c sector = acquire_from c.buffers sector c.cache none none

-- The loop of get_buffer_to_write_back.
unfoldable pub write_back_from : (ℕ → Buffer) → List ℕ → Option ℕ
write_back_from buffers [] = none
write_back_from buffers (i ∷ is) =
    let b = buffers i in
    if b.dirty && b.evicting_sector == uint_max then some i else write_back_from buffers is

unfoldable pub get_buffer_to_write_back : Cache → Option ℕ
unfolding write_back_from
get_buffer_to_write_back c = write_back_from c.buffers c.cache

-- How a turn ends: nothing changed (the call waits for another buffer, or has nothing to do), the
-- call waits for the buffer to become available, it has the buffer, it goes on to write out or to
-- read in the buffer, or an assertion failed.
pub data Turn : Type 0 where
  idle : Turn
  waits_for : ℕ → Cache → Turn
  has : ℕ → Cache → Turn
  writes_out : ℕ → Cache → Turn
  reads_in : ℕ → Cache → Turn
  fails : Turn

-- load_buffer, up to where it lets go of the lock.
unfoldable pub load_buffer : Cache → ℕ → Bool → ℕ → Turn
load_buffer c sector is_meta i =
    let b = c.buffers i in
    if b.in_use
    then fails
    else if b.dirty
    then writes_out i (
        set_buffer c i (record b {
          in_use = true;
          is_meta = is_meta;
          evicting_sector = b.sector;
          sector = sector;
        }))
    else reads_in i
        (set_buffer c i (record b { in_use = true; is_meta = is_meta; sector = sector }))

-- The loops that wait until a buffer is not in use, at their first test, with what follows them.
unfoldable pub take_buffer : Cache → ℕ → Turn
take_buffer c i =
    let b = c.buffers i in
    if b.in_use
    then waits_for i (set_buffer c i (record b { waiting = b.waiting + 1 }))
    else has i (set_buffer c i (record b { in_use = true }))

-- These loops at a later test: the thread has the buffer, or goes on waiting.
unfoldable pub wake_buffer : Cache → ℕ → Option Cache
wake_buffer c i =
    let b = c.buffers i in
    if b.in_use
    then none
    else some (set_buffer c i (record b { waiting = b.waiting - 1; in_use = true }))

-- The body of buffer_acquire's loop, for the buffer found.
unfoldable pub acquire_found : Cache → ℕ → Bool → Option ℕ → Turn
unfolding take_buffer load_buffer
acquire_found c sector is_meta none = idle
acquire_found c sector is_meta (some i) =
    let b = c.buffers i in
    if sector == b.sector
    then take_buffer c i
    else if sector == b.evicting_sector
    then (if b.in_use then idle else fails)
    else load_buffer c sector is_meta i

-- A round of the loop of buffer_acquire.
unfoldable pub buffer_acquire : Cache → ℕ → Bool → Turn
unfolding acquire_found
buffer_acquire c sector is_meta = acquire_found c sector is_meta (get_buffer_to_acquire c sector)

-- A round of the loop of read_ahead, for the buffer found.
unfoldable pub read_ahead_found : Cache → ℕ → Bool → Option ℕ → Turn
unfolding load_buffer
read_ahead_found c sector is_meta none = idle
read_ahead_found c sector is_meta (some i) =
    let b = c.buffers i in
    if not (sector == b.sector) && not (sector == b.evicting_sector)
    then load_buffer c sector is_meta i
    else idle

-- A round of the loop of read_ahead, for a sector off the queue.
unfoldable pub read_ahead : Cache → ℕ → Bool → Turn
unfolding read_ahead_found
read_ahead c sector is_meta = read_ahead_found c sector is_meta (get_buffer_to_acquire c sector)

-- load_buffer: block_write of the sector that is evicted.
unfoldable pub write_evicted : Cache → ℕ → Cache
write_evicted c i =
    let b = c.buffers i in record c { fs_device = update c.fs_device b.evicting_sector b.bytes }

-- load_buffer, after block_write.
unfoldable pub end_eviction : Cache → ℕ → Cache
end_eviction c i =
    set_buffer c i (record (c.buffers i) { evicting_sector = uint_max; dirty = false })

-- load_buffer, after it let go of the lock: its second assertion and block_read.
unfoldable pub read_buffer : Cache → ℕ → Option Cache
read_buffer c i =
    let b = c.buffers i in
    if b.evicting_sector == uint_max
    then some (set_buffer c i (record b { bytes = c.fs_device b.sector }))
    else none

unfoldable pub buffer_release : Cache → ℕ → Bool → Option Cache
buffer_release c i dirty =
    let b = c.buffers i in
    let c' = set_buffer c i (record b { in_use = false; dirty = b.dirty || dirty }) in
    if b.in_use
    then some (
        if ltb 0 b.waiting
        then c'
        else record c' { cache = list_push_back i (list_remove i c'.cache) })
    else none

-- The loop of flush_all for the buffer found, up to where it lets go of the lock.
unfoldable pub flush_found : Cache → Option ℕ → Turn
unfolding take_buffer
flush_found c none = idle
flush_found c (some i) = take_buffer c i

unfoldable pub flush_all : Cache → Turn
unfolding flush_found
flush_all c = flush_found c (get_buffer_to_write_back c)

-- flush_all: block_write.
unfoldable pub write_flushed : Cache → ℕ → Cache
write_flushed c i =
    let b = c.buffers i in record c { fs_device = update c.fs_device b.sector b.bytes }

-- flush_all, after block_write.
unfoldable pub end_flush : Cache → ℕ → Option Cache
unfolding buffer_release
end_flush c i = buffer_release (set_buffer c i (record (c.buffers i) { dirty = false })) i false
