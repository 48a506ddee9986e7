-- ===== src/FrameTable/Rounds.antt =====
-- frametable.c: the rounds of the loop of get_frame_to_evict.
use mathlib.Core.Path.{subst}
use buaa755os.Base.{
  ℕ, zero, suc, ◌≤◌, ◌≡◌, ◌≢◌, refl, Bool, true, false, none, some, List, [], ◌∷◌, if◌then◌else◌,
  ◌==◌, ==_refl, ==_ne, inl, inr, ◌∙◌, sym, ap, length, arith,
}
use buaa755os.KernelList.Ordered.{All, NotIn, Distinct}
use buaa755os.HashTable.Buckets.{OneOf, one_of-cons}
use buaa755os.FrameTable.{
  FrameTable, next_frame, Visit, visit, advance, table, Round, end_round, evict_loop,
}
use buaa755os.FrameTable.Accessed.{is_idle, first_idle, any_same}
use buaa755os.FrameTable.Visits.{turned, VisitResult, visit_lem}
use buaa755os.FrameTable.Clock.{All-OneOf, Trip}

-- The frame's pages were cleared.
abbrev pub Unmarked : FrameTable → ℕ → (ℕ → Bool) → Type 0
Unmarked t f bits = (q : ℕ) → OneOf q (t.page_info_list f) → bits q ≡ false

-- The frames up to the first idle one, this one included.
abbrev pub up_to_idle : FrameTable → List ℕ → List ℕ
up_to_idle t [] = []
up_to_idle t (f ∷ fs) = f ∷ (if is_idle t f then [] else up_to_idle t fs)

-- Of the frames given the accessed bits of those that are not locked were cleared, and no other bit was
-- changed.
abbrev pub Swept : FrameTable → List ℕ → (ℕ → Bool) → (ℕ → Bool) → Type 0
Swept t fs bits bits' =
    ((f : ℕ) → OneOf f fs → t.lock f ≡ 0 → Unmarked t f bits')
    × ((q : ℕ)
        → ((g : ℕ) → OneOf g fs → t.lock g ≡ 0 → OneOf q (t.page_info_list g) → ⊥)
        → bits' q ≡ bits q)

-- What the loop says that visits the frames `order`, from the bits given on.
abbrev pub LoopResult : FrameTable → ℕ → List ℕ → (ℕ → Bool) → Round → Type 0
LoopResult t start order bits (Round.found f t') =
    (first_idle t order ≡ some f)
    × (bits' : ℕ → Bool) × (t' ≡ turned t (next_frame t.frame_list f) bits')
    × Swept t (up_to_idle t order) bits bits'
LoopResult t start order bits (Round.back t') =
    (first_idle t order ≡ none)
    × (bits' : ℕ → Bool) × (t' ≡ turned t start bits')
    × Swept t (up_to_idle t order) bits bits'
LoopResult t start order bits Round.round_fails = ⊥

-- The pages of a frame are its own.
abbrev pub Owned : FrameTable → (ℕ → ℕ) → Type 0
Owned t frame_of = (f q : ℕ) → OneOf q (t.page_info_list f) → frame_of q ≡ f

foreign :
    (t : FrameTable) (frame_of : ℕ → ℕ) (h : ℕ) (vs : List ℕ) (g q : ℕ)
    → Owned t frame_of
    → NotIn h vs
    → OneOf g vs
    → OneOf q (t.page_info_list g)
    → OneOf q (t.page_info_list h)
    → ⊥
foreign t frame_of h vs g q ow n og o o' =
    All-OneOf (λ v. h ≢ v) g vs n og (sym (ow h q o') ∙ ow g q o)

-- A frame that was visited and not picked.
abbrev Passed : FrameTable → ℕ → (ℕ → Bool) → (ℕ → Bool) → Type 0
Passed t h bits bits' =
    (is_idle t h ≡ false)
    × (t.lock h ≡ 0 → Unmarked t h bits')
    × ((q : ℕ) → (t.lock h ≡ 0 → OneOf q (t.page_info_list h) → ⊥) → bits' q ≡ bits q)

-- The loop after a visit that does not pick the frame.
abbrev goes_on : ℕ → ℕ → FrameTable → Round
goes_on n start t = if t.clock_hand == start then Round.back t else evict_loop n start t

idle_same :
    (t : FrameTable) (h : ℕ) (bits : ℕ → Bool)
    → ((q : ℕ) → OneOf q (t.page_info_list h) → bits q ≡ t.accessed q)
    → is_idle (turned t h bits) h ≡ is_idle t h
idle_same t h bits same = rw (any_same t.accessed bits (t.page_info_list h) same) refl

pub unlocked : (t : FrameTable) (f : ℕ) → is_idle t f ≡ true → t.lock f ≡ 0
unlocked t f i = ground arith

round_lem :
    (t : FrameTable) (start n h : ℕ) (vs : List ℕ) (bits : ℕ → Bool) (v : Visit)
    → VisitResult (turned t h bits) h v
    → (t.page_info_list h ≢ [])
    → ((q : ℕ) → OneOf q (t.page_info_list h) → bits q ≡ t.accessed q)
    → ((bits' : ℕ → Bool)
        → Passed t h bits bits'
        → LoopResult t start
            (h ∷ vs)
            bits
            (goes_on n start (turned t (next_frame t.frame_list h) bits')))
    → LoopResult t start (h ∷ vs) bits (
        end_round start h
          (advance (table (turned t h bits) v))
          v
          (evict_loop n start (advance (table (turned t h bits) v))))
unfolding advance
round_lem t start n h vs bits Visit.visit_fails e np same next = absurd (np e)
round_lem t start n h vs bits (Visit.finds t1) (bits', e, c, i) np same next =
    let idle = sym (idle_same t h bits same) ∙ i in
    (
      rw idle refl,
      bits',
      ap advance e,
      rw idle (
        (λ f o z q oq. elim (one_of-cons o) [
          | inl e ↦ c.0 q (subst (λ f. OneOf q (t.page_info_list f)) e oq)
          | inr o' ↦ elim o' [ ]
        ]),
        (λ q n. c.1 q (λ oq. n h (OneOf.first []) (unlocked t h idle) oq)),
      ),
    )
round_lem t start n h vs bits (Visit.passes t1) (bits', e, (c, k), i) np same next =
    subst (λ t1. LoopResult t start (h ∷ vs) bits (goes_on n start (advance t1))) (sym e)
      (next bits' (sym (idle_same t h bits same) ∙ i, c, k))

up_to_idle-OneOf : (t : FrameTable) (vs : List ℕ) (g : ℕ) → OneOf g (up_to_idle t vs) → OneOf g vs
up_to_idle-OneOf t [] g o = o
up_to_idle-OneOf t (v ∷ vs) g o = elim (one_of-cons o) [
  | inl e ↦ subst (λ v. OneOf g (v ∷ vs)) e (OneOf.first vs)
  | inr o' ↦ later (is_idle t v) (up_to_idle-OneOf t vs g) o'
]
  where
    later :
        (b : Bool)
        → (OneOf g (up_to_idle t vs) → OneOf g vs)
        → OneOf g (if b then [] else up_to_idle t vs)
        → OneOf g (v ∷ vs)
    later true f o = elim o [ ]
    later false f o = OneOf.later v vs (f o)

Swept-more :
    (t : FrameTable) (frame_of : ℕ → ℕ) (h : ℕ) (vs : List ℕ) (bits bits' b : ℕ → Bool)
    → Owned t frame_of
    → NotIn h vs
    → Passed t h bits bits'
    → Swept t (up_to_idle t vs) bits' b
    → Swept t (h ∷ up_to_idle t vs) bits b
Swept-more t frame_of h vs bits bits' b ow n (i, u, k) (c, w) = (
  (λ f o z x ox. elim (one_of-cons o) [
    | inl e ↦
        let ox' = subst (λ f. OneOf x (t.page_info_list f)) e ox in
        w x (λ g og y oy. foreign t frame_of h vs g x ow n (up_to_idle-OneOf t vs g og) oy ox')
        ∙ u (subst (λ f. t.lock f ≡ 0) e z) x ox'
    | inr o' ↦ c f o' z x ox
  ]),
  (λ x nx.
      w x (λ g og y oy. nx g (OneOf.later h (up_to_idle t vs) og) y oy)
      ∙ k x (λ y oy. nx h (OneOf.first (up_to_idle t vs)) y oy)),
)

-- What holds of the later frames holds of all when the first was passed.
more :
    (t : FrameTable) (frame_of : ℕ → ℕ) (start h : ℕ) (vs : List ℕ) (bits bits' : ℕ → Bool)
    (r : Round)
    → Owned t frame_of
    → NotIn h vs
    → Passed t h bits bits'
    → LoopResult t start vs bits' r
    → LoopResult t start (h ∷ vs) bits r
more t frame_of start h vs bits bits' Round.round_fails ow n p l = l
more t frame_of start h vs bits bits' (Round.found f t') ow n (i, u, k) (e, b, q, w) =
    (rw i e, b, q, rw i (Swept-more t frame_of h vs bits bits' b ow n (i, u, k) w))
more t frame_of start h vs bits bits' (Round.back t') ow n (i, u, k) (e, b, q, w) =
    (rw i e, b, q, rw i (Swept-more t frame_of h vs bits bits' b ow n (i, u, k) w))

pub loop_lem :
    (t : FrameTable) (frame_of : ℕ → ℕ) (start n h : ℕ) (vs : List ℕ) (bits : ℕ → Bool)
    → Owned t frame_of
    → Trip t.frame_list start h vs
    → All (λ f. t.page_info_list f ≢ []) (h ∷ vs)
    → Distinct (h ∷ vs)
    → length (h ∷ vs) ≤ n
    → ((f : ℕ) → OneOf f (h ∷ vs) → (q : ℕ) → OneOf q (t.page_info_list f) → bits q ≡ t.accessed q)
    → LoopResult t start (h ∷ vs) bits (evict_loop n start (turned t h bits))
unfolding evict_loop
loop_lem t frame_of start zero h vs bits ow tr np d le same = absurd (omega arith)
loop_lem t frame_of start (suc n) h [] bits ow tr np d le same =
    round_lem t start n h [] bits (visit (turned t h bits) h) (visit_lem (turned t h bits) h) np.0
      (same h (OneOf.first []))
      (λ bits' p.
        subst (λ x. LoopResult t start (h ∷ []) bits (goes_on n start (turned t x bits'))) (sym tr)
          (rw (==_refl start) (
            more t frame_of start h [] bits bits' (Round.back (turned t start bits')) ow tt p
              (refl, bits', refl, ((λ f o. absurd (elim o [ ])), (λ q x. refl))))))
loop_lem t frame_of start (suc n) h (v ∷ vs) bits ow (tr, ne, trs) np (nh, d) le same =
    round_lem t start n h (v ∷ vs) bits (visit (turned t h bits) h) (visit_lem (turned t h bits) h)
      np.0 (same h (OneOf.first (v ∷ vs)))
      (λ bits' p.
        subst (λ x. LoopResult t start (h ∷ v ∷ vs) bits (goes_on n start (turned t x bits')))
          (sym tr)
          (rw (==_ne v start ne) (
            more t frame_of start h (v ∷ vs) bits bits' (evict_loop n start (turned t v bits')) ow
              nh p
              (loop_lem t frame_of start n v vs bits' ow trs np.1 d (omega arith) (λ f o q oq.
                p.2 q (λ y o'. foreign t frame_of h (v ∷ vs) f q ow nh o oq o')
                ∙ same f (OneOf.later h (v ∷ vs) o) q oq)))))
