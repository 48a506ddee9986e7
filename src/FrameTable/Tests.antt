-- ===== src/FrameTable/Tests.antt =====
-- frametable.c: frames 1, 2 and 3 with a page each.
use buaa755os.Base.{
  ℕ, ◌*◌, ◌/◌, ltb, ◌≡◌, ◌≢◌, refl, true, false, List, inl, inr, [], ◌∷◌, arith, update,
}
use buaa755os.HashTable.Buckets.{OneOf, one_of-cons}
use buaa755os.FrameTable.{FrameTable, Eviction, get_frame_to_evict}
use buaa755os.FrameTable.Evicts.{EvictResult, get_frame_to_evict_lem, get_frame_to_evict_panics}

-- The clock hand is at frame 2, of whose page 20 nothing was accessed.
abbrev idle : FrameTable
idle = record {
  frame_list = 1 ∷ 2 ∷ 3 ∷ [];
  clock_hand = 2;
  lock = λ f. 0;
  page_info_list = λ f. f * 10 ∷ [];
  accessed = λ p. ltb p 15;
}

-- All pages were accessed, and frame 2 is locked.
abbrev busy : FrameTable
busy = record idle { lock = update (λ f. 0) 2 1; accessed = λ p. true }

idle-evicts :
    get_frame_to_evict idle
    ≡ Eviction.evicts 2 (record idle { clock_hand = 3; accessed = update idle.accessed 20 false })
unfolding get_frame_to_evict buaa755os.FrameTable.advance
idle-evicts = refl

owned : (f q : ℕ) → OneOf q (f * 10 ∷ []) → q / 10 ≡ f
owned f q o = elim (one_of-cons o) [ inl e ↦ omega arith | inr o' ↦ absurd (elim o' [ ]) ]

has_page : (f : ℕ) → ◌≢◌ {A = List ℕ} (f * 10 ∷ []) []
has_page f e = absurd cc

get_frame_to_evict_example : EvictResult idle (2 ∷ 3 ∷ 1 ∷ []) (get_frame_to_evict idle)
get_frame_to_evict_example =
    get_frame_to_evict_lem idle (λ q. q / 10) (1 ∷ []) (3 ∷ []) refl
      (((λ e. omega arith), ((λ e. omega arith), tt)), (((λ e. omega arith), tt), (tt, tt)))
      (has_page 2, (has_page 3, (has_page 1, tt))) owned

get_frame_to_evict_panics_example : get_frame_to_evict busy ≡ Eviction.no_frame
get_frame_to_evict_panics_example =
    get_frame_to_evict_panics busy (λ q. q / 10) (1 ∷ []) (3 ∷ []) refl
      (((λ e. omega arith), ((λ e. omega arith), tt)), (((λ e. omega arith), tt), (tt, tt)))
      (has_page 2, (has_page 3, (has_page 1, tt))) owned (λ e. omega arith) (λ f o z. refl)
