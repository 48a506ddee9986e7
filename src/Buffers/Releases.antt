-- ===== src/Buffers/Releases.antt =====
-- buffers.c: the invariant after buffer_release, at the end of a use or of a flush.
use mathlib.Core.Path.{subst}
use buaa755os.Base.{
  ℕ, ◌≡◌, ◌≢◌, refl, Bool, true, false, ◌||◌, Option, none, some, List, [], ◌∷◌, ◌++◌, update,
  update_self, update_ne, if◌then◌else◌, ltb, ◌==◌, inl, inr, arith, sym, ap, ◌∙◌, Bool-cases,
}
use buaa755os.KernelList.{list_remove, list_push_back}
use buaa755os.HashTable.Buckets.{OneOf, one_of-cons}
use buaa755os.Buffers.{Buffer, Cache, set_buffer, buffer_release, end_flush}
use buaa755os.Buffers.Steps.{Stage, State, goes_on, Honest}
use buaa755os.Buffers.Invariant.{
  slot, Slot, Busy, Loaded, Clean, CleanSlot, Inv, Change-Inv, same_or,
}
use buaa755os.Buffers.Moves.{Set, updates, stays, slot_self, slot_others, clean_all}
use buaa755os.Buffers.Transfers.{staged}

abbrev released : Buffer → Bool → Buffer
released b dirty = record b { in_use = false; dirty = b.dirty || dirty }

one_of-front : (j : ℕ) (x : ℕ) (is : List ℕ) → OneOf j is → OneOf j (is ++ x ∷ [])
one_of-front j x [] o = absurd (elim o [ ])
one_of-front j x (i ∷ is) o = elim (one_of-cons o) [
  | inl e ↦ rw e (OneOf.first (is ++ x ∷ []))
  | inr o' ↦ OneOf.later i (is ++ x ∷ []) (one_of-front j x is o')
]

one_of-last : (x : ℕ) (is : List ℕ) → OneOf x (is ++ x ∷ [])
one_of-last x [] = OneOf.first []
one_of-last x (i ∷ is) = OneOf.later i (is ++ x ∷ []) (one_of-last x is)

one_of-removed : (i j : ℕ) (is : List ℕ) → i ≢ j → OneOf j is → OneOf j (list_remove i is)
unfolding list_remove
one_of-removed i j [] n o = absurd (elim o [ ])
one_of-removed i j (k ∷ ks) n o = elim (Bool-cases (i == k)) [
  | inl q ↦ rw q (elim (one_of-cons o) [ inl e ↦ absurd (ground arith) | inr o' ↦ o' ])
  | inr q ↦ rw q (elim (one_of-cons o) [
    | inl e ↦ rw e (OneOf.first (list_remove i ks))
    | inr o' ↦ OneOf.later k (list_remove i ks) (one_of-removed i j ks n o')
  ])
]

-- The list after a buffer is moved to its end has the same buffers.
one_of-moved : (i j : ℕ) (is : List ℕ) → OneOf j is → OneOf j (list_push_back i (list_remove i is))
unfolding list_push_back
one_of-moved i j is o = elim (same_or i j) [
  | inl e ↦ rw (sym e) (one_of-last i (list_remove i is))
  | inr n ↦ one_of-front j i (list_remove i is) (one_of-removed i j is n o)
]

-- What buffer_release says when it returns: the buffer was in use, and which list it leaves.
abbrev ReleaseTurn : Cache → ℕ → Bool → Option Cache → Type 0
ReleaseTurn c i dirty none = (c.buffers i).in_use ≡ false
ReleaseTurn c i dirty (some c') =
    (is : List ℕ) × (c'
      ≡ record c { buffers = update c.buffers i (released (c.buffers i) dirty); cache = is })
    × ((j : ℕ) → OneOf j c.cache → OneOf j is)
    × ((c.buffers i).in_use ≡ true)

release_turn : (c : Cache) (i : ℕ) (dirty : Bool) → ReleaseTurn c i dirty (buffer_release c i dirty)
unfolding buffer_release
release_turn c i dirty = used (c.buffers i).in_use refl
  where
    b : Buffer
    b = released (c.buffers i) dirty

    moved : List ℕ
    moved = list_push_back i (list_remove i c.cache)

    done :
        (w : Bool)
        → (c.buffers i).in_use ≡ true
        → ReleaseTurn c i dirty (
            some (
              if w
              then set_buffer c i b
              else record c { buffers = update c.buffers i b; cache = moved }))
    done true u = (c.cache, refl, (λ j o. o), u)
    done false u = (moved, refl, (λ j o. one_of-moved i j c.cache o), u)

    used :
        (u : Bool)
        → (c.buffers i).in_use ≡ u
        → ReleaseTurn c i dirty (
            if u
            then some (
                if ltb 0 (c.buffers i).waiting
                then set_buffer c i b
                else record c { buffers = update c.buffers i b; cache = moved })
            else none)
    used true u = done (ltb 0 (c.buffers i).waiting) u
    used false u = u

pub release_used :
    (c : Cache) (i : ℕ) (dirty : Bool)
    → (c.buffers i).in_use ≡ true
    → buffer_release c i dirty ≡ none
    → ⊥
release_used c i dirty u e = let u' = subst (ReleaseTurn c i dirty) e (release_turn c i dirty) in cc

-- A buffer that is given back, with what is still to be written of its sector.
gives_back :
    (m : State) (i : ℕ) (c : Cache) (d : Bool)
    → Inv m
    → Busy (m.cache.buffers i)
    → Loaded (m.cache.buffers i) m.contents
    → Set c.buffers m.cache.buffers i (record (m.cache.buffers i) { in_use = false; dirty = d })
    → c.fs_device ≡ m.cache.fs_device
    → ((j : ℕ) → OneOf j m.cache.cache → OneOf j c.cache)
    → ((s : ℕ) → ((m.cache.buffers i).sector ≡ s → d ≡ false) → CleanSlot (slot m i) s)
    → Inv (goes_on m i c Stage.free)
gives_back m i c d v (u, e, n) l sb ed o cl =
    let (li, ws) = v.each i in
    Change-Inv m m' i x v (record {
      self = slot_self m m' i x sb (updates m.stage i Stage.free) (stays m.wanted i);
      others = slot_others m m' i x sb (updates m.stage i Stage.free) (stays m.wanted i);
      local = ((refl, e, l, λ z. n), ws);
      kept = λ j q. v.each j;
      away = v.apart i;
      here = elim (v.listed i) [ inl p ↦ inl (o i p) | inr q ↦ inr q ];
      there = λ j q p. o j p;
      written = λ s q k f. v.saved s q (clean_all m i s (cl s k) f) ∙ ap (λ g. g s) (sym ed);
    })
  where
    m' : State
    m' = goes_on m i c Stage.free

    x : Slot
    x = record {
      buffer = record (m.cache.buffers i) { in_use = false; dirty = d };
      stage = Stage.free;
      wanted = m.wanted i;
    }

pub releases-Inv :
    (m : State) (i : ℕ) (wrote dirty : Bool) (c : Cache)
    → Inv m
    → m.stage i ≡ Stage.held wrote
    → Honest wrote dirty
    → buffer_release m.cache i dirty ≡ some c
    → Inv (goes_on m i c Stage.free)
releases-Inv m i wrote dirty c v e h r =
    let (is, ec, o, u) = subst (ReleaseTurn m.cache i dirty) r (release_turn m.cache i dirty) in
    let ((b, l), ws) = staged m i (Stage.held wrote) v e in
    subst (λ c. Inv (goes_on m i c Stage.free)) (sym ec)
      (gives_back m i
        (record (m.cache) {
          buffers = update m.cache.buffers i (released (m.cache.buffers i) dirty);
          cache = is;
        })
        ((m.cache.buffers i).dirty || dirty) v b l
        (updates m.cache.buffers i (released (m.cache.buffers i) dirty)) refl o
        (λ s k.
          subst (λ st. Clean st (m.cache.buffers i) s) (sym e)
            (λ q. honest (m.cache.buffers i).dirty dirty wrote h (k q))))
  where
    honest : (d e w : Bool) → Honest w e → (d || e) ≡ false → (d ≡ false) × (w ≡ false)
    honest false false true h q = (refl, sym (h refl))
    honest false false false h q = (refl, refl)
    honest false true w h q = absurd cc
    honest true e w h q = absurd cc

pub flush_ends-Inv :
    (m : State) (i : ℕ) (c : Cache)
    → Inv m
    → m.stage i ≡ Stage.flushed
    → end_flush m.cache i ≡ some c
    → Inv (goes_on m i c Stage.free)
unfolding end_flush
flush_ends-Inv m i c v e r =
    let (is, ec, o, u) = subst (ReleaseTurn c1 i false) r (release_turn c1 i false) in
    let ((b, l), ws) = staged m i Stage.flushed v e in
    subst (λ c. Inv (goes_on m i c Stage.free)) (sym ec)
      (gives_back m i
        (record c1 { buffers = update c1.buffers i (released (c1.buffers i) false); cache = is })
        false v b l (twice c1.buffers refl) refl o
        (λ s k. subst (λ st. Clean st (m.cache.buffers i) s) (sym e) tt))
  where
    cleaned : Buffer
    cleaned = record (m.cache.buffers i) { dirty = false }

    c1 : Cache
    c1 = set_buffer m.cache i cleaned

    twice :
        (f : ℕ → Buffer)
        → f ≡ update m.cache.buffers i cleaned
        → Set
            (update f i (released (f i) false))
            m.cache.buffers
            i
            (record (m.cache.buffers i) { in_use = false; dirty = false })
    twice f q = (
      update_self f i (released (f i) false)
          ∙ ap (λ b. released b false) (ap (λ g. g i) q ∙ update_self m.cache.buffers i cleaned),
      λ j n.
          update_ne f i j (released (f i) false) n
          ∙ (ap (λ g. g j) q ∙ update_ne m.cache.buffers i j cleaned n),
    )
