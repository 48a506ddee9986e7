-- ===== src/FrameTable/Adds.antt =====
-- frametable.c: where a new frame is put.
use buaa755os.Base.{
  ℕ, ◌≡◌, ◌≢◌, refl, List, [], ◌∷◌, ◌++◌, ==_refl, ==_ne, ◌∙◌, ap, length, length-append, arith,
}
use buaa755os.KernelList.Ordered.{NotIn, Distinct}
use buaa755os.FrameTable.{FrameTable, insert_before, add_frame}

insert_before_lem :
    (hand f : ℕ) (before after : List ℕ)
    → Distinct (before ++ hand ∷ after)
    → insert_before hand f (before ++ hand ∷ after) ≡ (before ++ f ∷ []) ++ hand ∷ after
unfolding insert_before
insert_before_lem hand f [] after d = rw (==_refl hand) refl
insert_before_lem hand f (b ∷ bs) after (n, d) =
    rw (==_ne b hand (middle bs n), insert_before_lem hand f bs after d) refl
  where
    middle : (bs : List ℕ) → NotIn b (bs ++ hand ∷ after) → b ≢ hand
    middle [] n = n.0
    middle (c ∷ cs) n = middle cs n.1

-- Let the frames of the list be distinct. Then a new frame is the last one that the clock hand comes
-- to: the list from the hand on is as before, with the new frame at its end. In an empty list it is the only frame, and the hand is at it.
pub add_frame_lem :
    (t : FrameTable) (f : ℕ) (before after : List ℕ)
    → Distinct (before ++ t.clock_hand ∷ after)
    → (t.frame_list ≡ before ++ t.clock_hand ∷ after
        → ((add_frame t f).frame_list ≡ (before ++ f ∷ []) ++ t.clock_hand ∷ after)
          × ((add_frame t f).clock_hand ≡ t.clock_hand))
      × (t.frame_list ≡ []
          → ((add_frame t f).frame_list ≡ f ∷ []) × ((add_frame t f).clock_hand ≡ f))
unfolding add_frame
add_frame_lem t f before after d = (
  (λ e.
      let n =
        ==_ne (length t.frame_list) 0
          (λ z. omega (arith, ap length e ∙ length-append before (t.clock_hand ∷ after))) in
      (
        rw n
            (ap (insert_before t.clock_hand f) e ∙ insert_before_lem t.clock_hand f before after d),
        rw n refl,
      )),
  (λ e. (rw e refl, rw e refl)),
)
