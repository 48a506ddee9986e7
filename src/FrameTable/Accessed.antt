-- ===== src/FrameTable/Accessed.antt =====
-- frametable.c: the accessed bits of the pages of a frame.
use mathlib.Core.Path.{subst}
use buaa755os.Base.{
  ℕ, ◌≡◌, refl, Bool, true, false, not, ◌&&◌, ◌||◌, Option, none, some, List, [], ◌∷◌, update,
  update_self, update_ne, if◌then◌else◌, ◌==◌, inl, inr, ◌∙◌, sym, ap, arith, Bool-cases,
}
use buaa755os.HashTable.Buckets.{OneOf, one_of-cons}
use buaa755os.FrameTable.{FrameTable, clear_accessed}

-- One of the pages was accessed.
abbrev pub any_accessed : (ℕ → Bool) → List ℕ → Bool
any_accessed bits [] = false
any_accessed bits (p ∷ ps) = bits p || any_accessed bits ps

-- The frame is not locked, and none of its pages was accessed.
abbrev pub is_idle : FrameTable → ℕ → Bool
is_idle t f = t.lock f == 0 && not (any_accessed t.accessed (t.page_info_list f))

-- The first idle frame.
abbrev pub first_idle : FrameTable → List ℕ → Option ℕ
first_idle t [] = none
first_idle t (f ∷ fs) = if is_idle t f then some f else first_idle t fs

pub any_same :
    (bits bits' : ℕ → Bool) (ps : List ℕ)
    → ((q : ℕ) → OneOf q ps → bits' q ≡ bits q)
    → any_accessed bits' ps ≡ any_accessed bits ps
any_same bits bits' [] h = refl
any_same bits bits' (p ∷ ps) h =
    rw (h p (OneOf.first ps), any_same bits bits' ps (λ q o. h q (OneOf.later p ps o))) refl

or_any :
    (bits : ℕ → Bool) (p : ℕ) (ps : List ℕ) (acc : Bool)
    → (acc || bits p) || any_accessed (update bits p false) ps ≡ acc || any_accessed bits (p ∷ ps)
or_any bits p ps acc = go acc (bits p) refl
  where
    same : bits p ≡ false → (q : ℕ) → update bits p false q ≡ bits q
    same e q = elim (Bool-cases (p == q)) [
      | inl r ↦ rw r (sym e ∙ ap bits (ground arith))
      | inr r ↦ rw r refl
    ]

    go :
        (acc b : Bool)
        → bits p ≡ b
        → (acc || b) || any_accessed (update bits p false) ps ≡ acc || (b || any_accessed bits ps)
    go true b e = refl
    go false true e = refl
    go false false e = any_same bits (update bits p false) ps (λ q o. same e q)

-- The bits of the pages are cleared, and the others are as they were.
abbrev pub Cleared : (ℕ → Bool) → (ℕ → Bool) → List ℕ → Type 0
Cleared bits bits' ps =
    ((q : ℕ) → OneOf q ps → bits' q ≡ false) × ((q : ℕ) → (OneOf q ps → ⊥) → bits' q ≡ bits q)

or_false : (b : Bool) → b ≡ b || false
or_false true = refl
or_false false = refl

if_false : (b c : Bool) → c ≡ false → (if b then false else c) ≡ false
if_false true c e = refl
if_false false c e = e

pub clear_accessed_lem :
    (bits : ℕ → Bool) (ps : List ℕ) (acc : Bool)
    → ((clear_accessed bits ps acc).0 ≡ acc || any_accessed bits ps)
      × Cleared bits (clear_accessed bits ps acc).1 ps
      × ((q : ℕ) → bits q ≡ false → (clear_accessed bits ps acc).1 q ≡ false)
unfolding clear_accessed
clear_accessed_lem bits [] acc =
    (or_false acc, ((λ q o. absurd (elim o [ ])), (λ q n. refl)), (λ q e. e))
clear_accessed_lem bits (p ∷ ps) acc =
    let (a, (c, k), m) = clear_accessed_lem (update bits p false) ps (acc || bits p) in
    (
      a ∙ or_any bits p ps acc,
      (
        (λ q o. elim (one_of-cons o) [
          | inl e ↦ m q (rw (sym e) (update_self bits q false))
          | inr o' ↦ c q o'
        ]),
        (λ q n.
            k q (λ o. n (OneOf.later p ps o))
            ∙ update_ne bits p q false (λ e. n (subst (λ x. OneOf x (p ∷ ps)) e (OneOf.first ps)))),
      ),
      (λ q e. m q (if_false (p == q) (bits q) e)),
    )
