-- ===== src/FrameTable.antt =====
-- pintos_3/src/vm/frametable.c: the frames, the clock over them and the choice of the one to evict.
pub mod Clock
pub mod Accessed
pub mod Visits
pub mod Rounds
pub mod Evicts
pub mod Sizes
pub mod Adds
mod Tests
use buaa755os.Base.{
  ℕ, zero, suc, ◌+◌, ◌-◌, ◌*◌, ◌/◌, Bool, true, false, not, ◌&&◌, ◌||◌, Option, none, some, List,
  [], ◌∷◌, update, if◌then◌else◌, ltb, ◌==◌, length,
}

-- The offset in a file of the page that ends at `end_offset`, pages having 2 ^ 12 bytes.
unfoldable pub offset : ℕ → ℕ
offset end_offset = if ltb 0 end_offset then (end_offset - 1) / 4096 * 4096 else 0

unfoldable pub size : ℕ → ℕ
unfolding offset
size end_offset = end_offset - offset end_offset

-- The frames by address with the pages that they hold, the list of frames, and the accessed bits of the
-- pages in their page directories.
pub record FrameTable : Type 0 where
  pub frame_list : List ℕ
  pub clock_hand : ℕ
  pub lock : ℕ → ℕ
  pub page_info_list : ℕ → List ℕ
  pub accessed : ℕ → Bool

-- list_begin of a list of frames that is not empty.
abbrev pub list_begin : List ℕ → ℕ → ℕ
list_begin [] hand = hand
list_begin (f ∷ fs) hand = f

abbrev pub front : List ℕ → Option ℕ
front [] = none
front (f ∷ fs) = some f

-- list_next, `none` at the end of the list.
unfoldable pub list_next : List ℕ → ℕ → Option ℕ
list_next [] hand = none
list_next (f ∷ fs) hand = if f == hand then front fs else list_next fs hand

abbrev pub or_begin : Option ℕ → List ℕ → ℕ → ℕ
or_begin (some f) fs hand = f
or_begin none fs hand = list_begin fs hand

-- The next frame, after the last one the first.
unfoldable pub next_frame : List ℕ → ℕ → ℕ
next_frame fs hand = or_begin (list_next fs hand) fs hand

-- The loop over the pages of a frame: whether one was accessed, and the bits, which it clears.
unfoldable pub clear_accessed : (ℕ → Bool) → List ℕ → Bool → Bool × (ℕ → Bool)
clear_accessed bits [] accessed = (accessed, bits)
clear_accessed bits (p ∷ ps) accessed = clear_accessed (update bits p false) ps (accessed || bits p)

-- What the visit of a frame says: it can be evicted, it cannot, or an assertion failed.
pub data Visit : Type 0 where
  finds : FrameTable → Visit
  passes : FrameTable → Visit
  visit_fails : Visit

abbrev pub visited : FrameTable → Bool × (ℕ → Bool) → Visit
visited t (accessed, bits) =
    if accessed then passes (record t { accessed = bits }) else finds (record t { accessed = bits })

abbrev pub visit_pages : FrameTable → List ℕ → Visit
unfolding clear_accessed
visit_pages t [] = visit_fails
visit_pages t (p ∷ ps) = visited t (clear_accessed t.accessed (p ∷ ps) false)

unfoldable pub visit : FrameTable → ℕ → Visit
unfolding clear_accessed
visit t f = if t.lock f == 0 then visit_pages t (t.page_info_list f) else passes t

abbrev pub advance : FrameTable → FrameTable
unfolding next_frame list_next
advance t = record t { clock_hand = next_frame t.frame_list t.clock_hand }

-- How the loop ends: it found a frame, it is back at the first one, or an assertion failed.
pub data Round : Type 0 where
  found : ℕ → FrameTable → Round
  back : FrameTable → Round
  round_fails : Round

abbrev pub table : FrameTable → Visit → FrameTable
table t (finds t') = t'
table t (passes t') = t'
table t visit_fails = t

-- The end of a round that visited frame `f`, in the table with the hand moved on, given how the later
-- rounds end.
abbrev pub end_round : ℕ → ℕ → FrameTable → Visit → Round → Round
end_round start f t (finds t') rest = found f t
end_round start f t (passes t') rest = if t.clock_hand == start then back t else rest
end_round start f t visit_fails rest = round_fails

-- The loop of get_frame_to_evict; the first argument are the rounds left.
unfoldable pub evict_loop : ℕ → ℕ → FrameTable → Round
unfolding visit next_frame
evict_loop zero start t = round_fails
evict_loop (suc n) start t =
    let v = visit t t.clock_hand in
    let t' = advance (table t v) in
    let rest = evict_loop n start t' in end_round start t.clock_hand t' v rest

-- What get_frame_to_evict says: the frame to evict, a panic, or a failed assertion.
pub data Eviction : Type 0 where
  evicts : ℕ → FrameTable → Eviction
  no_frame : Eviction
  fails : Eviction

abbrev pub after_loop : Round → Eviction
unfolding next_frame
after_loop (found f t) = evicts f t
after_loop (back t) =
    if ltb 0 (t.lock t.clock_hand) then no_frame else evicts t.clock_hand (advance t)
after_loop round_fails = fails

unfoldable pub get_frame_to_evict : FrameTable → Eviction
unfolding evict_loop next_frame
get_frame_to_evict t =
    if length t.frame_list == 0
    then fails
    else after_loop (evict_loop (length t.frame_list) t.clock_hand t)

-- allocate_frame: the list with a frame put before the clock hand.
unfoldable pub insert_before : ℕ → ℕ → List ℕ → List ℕ
insert_before hand f [] = f ∷ []
insert_before hand f (g ∷ gs) = if g == hand then f ∷ g ∷ gs else g ∷ insert_before hand f gs

-- allocate_frame, with the new frame.
unfoldable pub add_frame : FrameTable → ℕ → FrameTable
unfolding insert_before
add_frame t f =
    let new = record t {
      lock = update t.lock f 0;
      page_info_list = update t.page_info_list f [];
    } in
    if length t.frame_list == 0
    then record new { frame_list = f ∷ []; clock_hand = f }
    else record new { frame_list = insert_before t.clock_hand f t.frame_list }
