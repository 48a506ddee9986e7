-- ===== src/Buffers/Tests.antt =====
-- buffers.c: a thread writes to sector 5 while another waits for it.
use buaa755os.Base.{
  ℕ, ◌+◌, ◌≡◌, ◌≢◌, refl, Bool, true, false, Option, none, some, [], ◌∷◌, arith, ==_ne,
}
use buaa755os.Buffers.{
  Sector, Cache, Turn, uint_max, buffer_acquire, read_ahead, end_flush, read_buffer, buffer_release,
  wake_buffer, set_buffer,
}
use buaa755os.HashTable.Buckets.{OneOf}
use buaa755os.Buffers.Steps.{Stage, State, Step, Reach, start_state, goes_on, must_wait, writes}
use buaa755os.Buffers.Invariant.{slot, CleanSlot}
use buaa755os.Buffers.Moves.{clean_all}
use buaa755os.Buffers.ReadAhead.{ReadAhead, Appends, Takes, read_ahead_queue_lem}
use buaa755os.Buffers.Holds.{Holds}
use buaa755os.Buffers.Coherence.{
  coherence, buffer_acquire_has, one_buffer_per_sector, clean_on_device, no_assertion_fails,
}

abbrev device : ℕ → Sector
device s = s ∷ []

abbrev after : Turn → Cache → Cache
after Turn.idle c = c
after Turn.fails c = c
after (Turn.waits_for i c') c = c'
after (Turn.has i c') c = c'
after (Turn.writes_out i c') c = c'
after (Turn.reads_in i c') c = c'

abbrev got : Option Cache → Cache → Cache
got none c = c
got (some c') c = c'

abbrev started : State
started = start_state device []

abbrev loading : State
loading =
    goes_on started 0 (after (buffer_acquire started.cache 5 false) started.cache) Stage.loading

abbrev read : State
read = goes_on loading 0 (got (read_buffer loading.cache 0) loading.cache) (Stage.held false)

abbrev written : State
written = writes read 0 (9 ∷ [])

abbrev awaited : State
awaited = must_wait written 0 (after (buffer_acquire written.cache 5 true) written.cache)

abbrev released : State
released = goes_on awaited 0 (got (buffer_release awaited.cache 0 true) awaited.cache) Stage.free

is_sector : 5 ≢ uint_max
is_sector e = omega arith

loading-Reach : Reach device [] loading
unfolding buffer_acquire buaa755os.Buffers.get_buffer_to_acquire start_state
    buaa755os.KernelList.list_push_back
loading-Reach = Reach.later Reach.start (Step.acquire_reads 5 false 0 loading.cache is_sector refl)

read-Reach : Reach device [] read
unfolding read_buffer buffer_acquire buaa755os.Buffers.get_buffer_to_acquire start_state
    buaa755os.KernelList.list_push_back
read-Reach = Reach.later loading-Reach (Step.reads 0 read.cache refl refl)

written-Reach : Reach device [] written
written-Reach = Reach.later read-Reach (Step.holder_writes 0 false (9 ∷ []) refl)

awaited-Reach : Reach device [] awaited
unfolding buffer_acquire buaa755os.Buffers.get_buffer_to_acquire read_buffer start_state
    buaa755os.KernelList.list_push_back
awaited-Reach = Reach.later written-Reach (Step.acquire_waits 5 true 0 awaited.cache is_sector refl)

released-Reach : Reach device [] released
unfolding buffer_release buffer_acquire buaa755os.Buffers.get_buffer_to_acquire read_buffer
    start_state buaa755os.KernelList.list_push_back
released-Reach =
    Reach.later awaited-Reach (Step.releases 0 true true released.cache refl (λ e. refl) refl)

coherence_example : (written.cache.buffers 0).bytes ≡ written.contents 5
unfolding read_buffer buffer_acquire buaa755os.Buffers.get_buffer_to_acquire start_state
    buaa755os.KernelList.list_push_back
coherence_example = coherence device [] written 0 true written-Reach refl

buffer_acquire_has_example :
    let c = after (buffer_acquire released.cache 5 false) released.cache in
    let w = got (wake_buffer released.cache 0) released.cache in
    Holds released 0 c 5 × Holds released 0 w 5
unfolding wake_buffer buffer_acquire buaa755os.Buffers.get_buffer_to_acquire buffer_release
    read_buffer start_state buaa755os.KernelList.list_push_back
buffer_acquire_has_example =
    let (acquires, wakes, loads) = buffer_acquire_has device [] released released-Reach in
    (
      acquires 5 false (buffer_acquire released.cache 5 false) is_sector refl,
      wakes 0 5 (got (wake_buffer released.cache 0) released.cache) (OneOf.first []) refl,
    )

one_buffer_per_sector_example : ◌≡◌ {A = ℕ} 0 0
unfolding read_buffer buffer_acquire buaa755os.Buffers.get_buffer_to_acquire start_state
    buaa755os.KernelList.list_push_back
one_buffer_per_sector_example =
    one_buffer_per_sector device [] written 0 0 written-Reach refl is_sector

read-Clean : (i : ℕ) → CleanSlot (slot read i) 5
unfolding read_buffer buffer_acquire buaa755os.Buffers.get_buffer_to_acquire start_state
    buaa755os.KernelList.list_push_back
read-Clean = clean_all read 0 5 (λ e. (refl, refl)) (λ j n. rw (==_ne 0 j n) (λ e. refl))

clean_on_device_example : read.cache.fs_device 5 ≡ read.contents 5
clean_on_device_example = clean_on_device device [] read 5 read-Reach is_sector read-Clean

no_assertion_fails_example :
    (buffer_acquire written.cache 5 true ≢ Turn.fails)
    × (read_ahead written.cache 5 true ≢ Turn.fails)
    × ((i : ℕ) → written.stage i ≡ Stage.loading → read_buffer written.cache i ≢ none)
    × ((i : ℕ) (wrote dirty : Bool)
        → written.stage i ≡ Stage.held wrote
        → buffer_release written.cache i dirty ≢ none)
    × ((i : ℕ) → written.stage i ≡ Stage.flushed → end_flush written.cache i ≢ none)
no_assertion_fails_example = no_assertion_fails device [] written 5 true written-Reach is_sector

-- Two sectors, around the end of the ring.
abbrev ahead : ReadAhead
ahead = record {
  read_ahead_sectors = λ i. record { sector = i + 100; is_meta = false };
  sectors_head = 65;
  sectors_tail = 63;
  sectors_size = 2;
}

read_ahead_queue_example : Appends ahead 7 true × Takes ahead
read_ahead_queue_example =
    read_ahead_queue_lem ahead 7 true (record { ends = omega arith; fits = omega arith })
