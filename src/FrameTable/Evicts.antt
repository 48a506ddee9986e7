-- ===== src/FrameTable/Evicts.antt =====
-- frametable.c: which frame get_frame_to_evict picks.
use mathlib.Core.Path.{subst}
use buaa755os.Base.{
  ℕ, suc, ◌+◌, ◌≡◌, ◌≢◌, refl, Bool, true, false, Option, none, some, List, [], ◌∷◌, ◌++◌,
  if◌then◌else◌, ltb, ◌==◌, ==_ne, inl, inr, ◌⊎◌, ◌∙◌, sym, ap, length, length-append, arith,
  Bool-cases,
}
use buaa755os.KernelList.Ordered.{All, Distinct}
use buaa755os.HashTable.Buckets.{OneOf}
use buaa755os.FrameTable.{
  FrameTable, next_frame, advance, Round, evict_loop, Eviction, after_loop, get_frame_to_evict,
}
use buaa755os.FrameTable.Accessed.{any_accessed, is_idle, first_idle}
use buaa755os.FrameTable.Rounds.{Swept, up_to_idle, LoopResult, Owned, loop_lem}
use buaa755os.FrameTable.Visits.{turned}
use buaa755os.FrameTable.Clock.{Trip, round-Trip, Distinct-swap}

-- What get_frame_to_evict says, the frames from the clock hand on being `order`.
abbrev pub EvictResult : FrameTable → List ℕ → Eviction → Type 0
EvictResult t order (Eviction.evicts f t') =
    (bits : ℕ → Bool) × (t' ≡ turned t (next_frame t.frame_list f) bits)
    × (t.lock f ≡ 0)
    × Swept t (up_to_idle t order) t.accessed bits
    × ((first_idle t order ≡ some f) ⊎ ((first_idle t order ≡ none) × (f ≡ t.clock_hand)))
EvictResult t order Eviction.no_frame = (first_idle t order ≡ none) × (t.lock t.clock_hand ≢ 0)
EvictResult t order Eviction.fails = ⊥

first_idle-unlocked :
    (t : FrameTable) (order : List ℕ) (f : ℕ) → first_idle t order ≡ some f → t.lock f ≡ 0
first_idle-unlocked t [] f e = absurd cc
first_idle-unlocked t (g ∷ gs) f e = elim (Bool-cases (is_idle t g)) [
  | inl i ↦
      same g f (subst (λ b. (if b then some g else first_idle t gs) ≡ some f) i e) (ground arith)
  | inr i ↦
      first_idle-unlocked t gs f (subst (λ b. (if b then some g else first_idle t gs) ≡ some f) i e)
]
  where
    same : (g f : ℕ) → ◌≡◌ {A = Option ℕ} (some g) (some f) → t.lock g ≡ 0 → t.lock f ≡ 0
    same g f e z = cc

after_loop_lem :
    (t : FrameTable) (vs : List ℕ) (r : Round)
    → LoopResult t t.clock_hand (t.clock_hand ∷ vs) t.accessed r
    → EvictResult t (t.clock_hand ∷ vs) (after_loop r)
unfolding advance
after_loop_lem t vs Round.round_fails l = l
after_loop_lem t vs (Round.found f t') (e, b, q, c) =
    (b, q, first_idle-unlocked t (t.clock_hand ∷ vs) f e, c, inl e)
after_loop_lem t vs (Round.back t') (e, b, q, w) =
    subst (λ t'. EvictResult t (t.clock_hand ∷ vs) (after_loop (Round.back t'))) (sym q)
      (unlocked (ltb 0 (t.lock t.clock_hand)) refl)
  where
    unlocked :
        (l : Bool)
        → ltb 0 (t.lock t.clock_hand) ≡ l
        → EvictResult t (t.clock_hand ∷ vs) (
            if l
            then Eviction.no_frame
            else Eviction.evicts t.clock_hand (turned t (next_frame t.frame_list t.clock_hand) b))
    unlocked true u = (e, ground arith)
    unlocked false u =
        let z : t.lock t.clock_hand ≡ 0 = ground arith in (b, refl, z, w, inr (e, refl))

-- Let the frames of the list be distinct, each of them have a page, and no page belong to two frames. Then
-- no assertion of get_frame_to_evict fails. When a frame of the list is idle, not locked and with no
-- page accessed, it picks the first one from the clock hand on, around the list. When there is none it
-- picks the frame at the clock hand, or panics when this one is locked. The frame picked is not locked,
-- the hand is at the next frame, the accessed bits of the frames visited that are not locked are
-- cleared, which are those from the clock hand on up to the first idle frame, this one included, or all
-- when none is idle, no other accessed bit changed, and nothing else of the table did.
pub get_frame_to_evict_lem :
    (t : FrameTable) (frame_of : ℕ → ℕ) (before after : List ℕ)
    → t.frame_list ≡ before ++ t.clock_hand ∷ after
    → Distinct (before ++ t.clock_hand ∷ after)
    → All (λ f. t.page_info_list f ≢ []) (t.clock_hand ∷ after ++ before)
    → Owned t frame_of
    → EvictResult t (t.clock_hand ∷ after ++ before) (get_frame_to_evict t)
unfolding get_frame_to_evict
get_frame_to_evict_lem t frame_of before after e d np ow = rw some_frame (
    after_loop_lem t (after ++ before) (evict_loop (length t.frame_list) t.clock_hand t) (
      loop_lem t frame_of t.clock_hand (length t.frame_list) t.clock_hand (after ++ before)
        t.accessed ow
        (subst (λ fs. Trip fs t.clock_hand t.clock_hand (after ++ before)) (sym e)
          (round-Trip before after t.clock_hand d))
        np (Distinct-swap before (t.clock_hand ∷ after) d)
        (omega (arith, len, length-append after before)) (λ f o q oq. refl)))
  where
    len : length t.frame_list ≡ length before + suc (length after)
    len = ap length e ∙ length-append before (t.clock_hand ∷ after)

    some_frame : (length t.frame_list == 0) ≡ false
    some_frame = ==_ne (length t.frame_list) 0 (λ z. omega (arith, len))

-- Let the frames of the list be distinct, each of them have a page, and no page belong to two frames. When
-- the frame at the clock hand is locked, and of every other frame of the list that is not locked a page
-- was accessed, get_frame_to_evict panics, also when there are such frames.
pub get_frame_to_evict_panics :
    (t : FrameTable) (frame_of : ℕ → ℕ) (before after : List ℕ)
    → t.frame_list ≡ before ++ t.clock_hand ∷ after
    → Distinct (before ++ t.clock_hand ∷ after)
    → All (λ f. t.page_info_list f ≢ []) (t.clock_hand ∷ after ++ before)
    → Owned t frame_of
    → t.lock t.clock_hand ≢ 0
    → ((f : ℕ)
        → OneOf f (after ++ before)
        → t.lock f ≡ 0
        → any_accessed t.accessed (t.page_info_list f) ≡ true)
    → get_frame_to_evict t ≡ Eviction.no_frame
get_frame_to_evict_panics t frame_of before after e d np ow locked busy =
    go (get_frame_to_evict t) (get_frame_to_evict_lem t frame_of before after e d np ow)
  where
    none_idle :
        (fs : List ℕ)
        → ((f : ℕ)
            → OneOf f fs
            → t.lock f ≡ 0
            → any_accessed t.accessed (t.page_info_list f) ≡ true)
        → first_idle t fs ≡ none
    none_idle [] h = refl
    none_idle (f ∷ fs) h =
        rw (not_idle (t.lock f == 0) refl) (none_idle fs (λ g o. h g (OneOf.later f fs o)))
      where
        not_idle : (b : Bool) → (t.lock f == 0) ≡ b → is_idle t f ≡ false
        not_idle true u = rw (u, h f (OneOf.first fs) (ground arith)) refl
        not_idle false u = rw u refl

    none_of_all : first_idle t (t.clock_hand ∷ after ++ before) ≡ none
    none_of_all = rw (==_ne (t.lock t.clock_hand) 0 locked) (none_idle (after ++ before) busy)

    go : (r : Eviction) → EvictResult t (t.clock_hand ∷ after ++ before) r → r ≡ Eviction.no_frame
    go Eviction.no_frame h = refl
    go Eviction.fails h = absurd h
    go (Eviction.evicts f t') (b, q, z, c, inl i) = absurd (cc none_of_all)
    go (Eviction.evicts f t') (b, q, z, c, inr (i, k)) =
        absurd (locked (subst (λ f. t.lock f ≡ 0) k z))
