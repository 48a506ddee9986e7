-- ===== src/FrameTable/Clock.antt =====
-- frametable.c: the way of the clock hand around the list.
use buaa755os.Base.{ℕ, ◌≡◌, ◌≢◌, refl, List, [], ◌∷◌, ◌++◌, ==_refl, ==_ne, inl, inr, ◌∙◌, sym, ap}
use buaa755os.KernelList.Ordered.{All, All-append, NotIn, Distinct}
use buaa755os.HashTable.Buckets.{OneOf, one_of-cons}
use buaa755os.FrameTable.{list_begin, list_next, front, or_begin, next_frame}

pub All-OneOf : (P : ℕ → Type 0) (u : ℕ) (xs : List ℕ) → All P xs → OneOf u xs → P u
All-OneOf P u [] a o = absurd (elim o [ ])
All-OneOf P u (x ∷ xs) (p, ps) o = elim (one_of-cons o) [
  | inl e ↦ rw e p
  | inr o' ↦ All-OneOf P u xs ps o'
]

one_of_middle : (xs ys : List ℕ) (h : ℕ) → OneOf h (xs ++ h ∷ ys)
one_of_middle [] ys h = OneOf.first ys
one_of_middle (x ∷ xs) ys h = OneOf.later x (xs ++ h ∷ ys) (one_of_middle xs ys h)

one_of_end : (xs ys : List ℕ) (u : ℕ) → OneOf u ys → OneOf u (xs ++ ys)
one_of_end [] ys u o = o
one_of_end (x ∷ xs) ys u o = OneOf.later x (xs ++ ys) (one_of_end xs ys u o)

-- From one of the frames of `tail` the list goes on as `tail` does.
abbrev Follows : List ℕ → List ℕ → Type 0
Follows fs tail = (u : ℕ) → OneOf u tail → list_next fs u ≡ list_next tail u

next_later :
    (h u : ℕ) (tail : List ℕ)
    → NotIn h tail
    → OneOf u tail
    → list_next (h ∷ tail) u ≡ list_next tail u
unfolding list_next
next_later h u tail n o = rw (==_ne h u (All-OneOf (λ v. h ≢ v) u tail n o)) refl

Follows-tail :
    (fs : List ℕ) (h : ℕ) (tail : List ℕ) → Follows fs (h ∷ tail) → NotIn h tail → Follows fs tail
Follows-tail fs h tail f n u o = f u (OneOf.later h tail o) ∙ next_later h u tail n o

Follows-append : (xs tail : List ℕ) → Distinct (xs ++ tail) → Follows (xs ++ tail) tail
Follows-append [] tail d u o = refl
Follows-append (x ∷ xs) tail (n, d) u o =
    next_later x u (xs ++ tail) n (one_of_end xs tail u o) ∙ Follows-append xs tail d u o

-- The hand's frame and what the list says of the frame after it.
next_front :
    (fs : List ℕ) (h : ℕ) (tail : List ℕ)
    → Follows fs (h ∷ tail)
    → next_frame fs h ≡ or_begin (front tail) fs h
unfolding next_frame list_next
next_front fs h tail f =
    ap (λ o. or_begin o fs h) {y = front tail} (f h (OneOf.first tail) ∙ (rw (==_refl h) refl))

-- From frame `h` the hand moves over the frames `vs`, and then to `start`.
abbrev pub Trip : List ℕ → ℕ → ℕ → List ℕ → Type 0
Trip fs start h [] = next_frame fs h ≡ start
Trip fs start h (v ∷ vs) = (next_frame fs h ≡ v) × (v ≢ start) × Trip fs start v vs

Trip-before :
    (fs : List ℕ) (start h : ℕ) (zs after : List ℕ)
    → Follows fs (h ∷ zs ++ start ∷ after)
    → Distinct (h ∷ zs ++ start ∷ after)
    → Trip fs start h zs
Trip-before fs start h [] after f d = next_front fs h (start ∷ after) f
Trip-before fs start h (z ∷ zs) after f (n, d) = (
  next_front fs h (z ∷ zs ++ start ∷ after) f,
  All-OneOf (λ v. z ≢ v) start (zs ++ start ∷ after) d.0 (one_of_middle zs after start),
  Trip-before fs start z zs after (Follows-tail fs h (z ∷ zs ++ start ∷ after) f n) d,
)

-- From the begin of the list the hand moves over the frames `vs`, and then to `start`.
abbrev Begins : List ℕ → ℕ → List ℕ → Type 0
Begins fs start [] = (d : ℕ) → list_begin fs d ≡ start
Begins fs start (v ∷ vs) = ((d : ℕ) → list_begin fs d ≡ v) × (v ≢ start) × Trip fs start v vs

begins :
    (before after : List ℕ) (start : ℕ)
    → Distinct (before ++ start ∷ after)
    → Begins (before ++ start ∷ after) start before
begins [] after start d = λ h. refl
begins (b ∷ bs) after start (n, d) = (
  (λ h. refl),
  All-OneOf (λ v. b ≢ v) start (bs ++ start ∷ after) n (one_of_middle bs after start),
  Trip-before (b ∷ bs ++ start ∷ after) start b bs after (λ u o. refl) (n, d),
)

Trip-after :
    (fs : List ℕ) (start h : ℕ) (ys before : List ℕ)
    → Follows fs (h ∷ ys)
    → Distinct (h ∷ ys)
    → NotIn start ys
    → Begins fs start before
    → Trip fs start h (ys ++ before)
Trip-after fs start h [] [] f d n b = next_front fs h [] f ∙ b h
Trip-after fs start h [] (v ∷ vs) f d n (b, m, t) = (next_front fs h [] f ∙ b h, m, t)
Trip-after fs start h (y ∷ ys) before f (n', d) n b = (
  next_front fs h (y ∷ ys) f,
  (λ e. n.0 (sym e)),
  Trip-after fs start y ys before (Follows-tail fs h (y ∷ ys) f n') d n.1 b,
)

Distinct-end : (xs ys : List ℕ) → Distinct (xs ++ ys) → Distinct ys
Distinct-end [] ys d = d
Distinct-end (x ∷ xs) ys d = Distinct-end xs ys d.1

-- The hand goes around: over the frames behind `start`, then those before it, and back to it.
pub round-Trip :
    (before after : List ℕ) (start : ℕ)
    → Distinct (before ++ start ∷ after)
    → Trip (before ++ start ∷ after) start start (after ++ before)
round-Trip before after start d =
    let d' = Distinct-end before (start ∷ after) d in
    Trip-after (before ++ start ∷ after) start start after before
      (Follows-append before (start ∷ after) d) d' d'.0 (begins before after start d)

All-middle :
    (P : ℕ → Type 0) (xs ys : List ℕ) (x : ℕ) → All P (xs ++ ys) → P x → All P (xs ++ x ∷ ys)
All-middle P [] ys x a p = (p, a)
All-middle P (z ∷ xs) ys x (q, a) p = (q, All-middle P xs ys x a p)

All-swap : (P : ℕ → Type 0) (xs ys : List ℕ) → All P (xs ++ ys) → All P (ys ++ xs)
All-swap P [] ys a = All-append P ys [] a tt
All-swap P (x ∷ xs) ys (p, a) = All-middle P ys xs x (All-swap P xs ys a) p

Distinct-middle :
    (xs ys : List ℕ) (x : ℕ) → Distinct (xs ++ ys) → NotIn x (xs ++ ys) → Distinct (xs ++ x ∷ ys)
Distinct-middle [] ys x d n = (n, d)
Distinct-middle (z ∷ xs) ys x (q, d) (m, n) =
    (All-middle (λ u. z ≢ u) xs ys x q (λ e. m (sym e)), Distinct-middle xs ys x d n)

Distinct-nil : (ys : List ℕ) → Distinct ys → Distinct (ys ++ [])
Distinct-nil [] d = tt
Distinct-nil (y ∷ ys) (n, d) = (All-append (λ u. y ≢ u) ys [] n tt, Distinct-nil ys d)

pub Distinct-swap : (xs ys : List ℕ) → Distinct (xs ++ ys) → Distinct (ys ++ xs)
Distinct-swap [] ys d = Distinct-nil ys d
Distinct-swap (x ∷ xs) ys (n, d) =
    Distinct-middle ys xs x (Distinct-swap xs ys d) (All-swap (λ u. x ≢ u) xs ys n)
