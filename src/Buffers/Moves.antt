-- ===== src/Buffers/Moves.antt =====
-- buffers.c: the invariant after a change of one buffer that leaves the sectors' contents and the
-- device alone.
use mathlib.Core.Path.{subst}
use buaa755os.Base.{ℕ, ◌≡◌, ◌≢◌, refl, false, List, update, update_self, update_ne, inl, inr, sym}
use buaa755os.HashTable.Buckets.{OneOf}
use buaa755os.Buffers.{Sector, Buffer, uint_max}
use buaa755os.Buffers.Steps.{Stage, State}
use buaa755os.Buffers.Invariant.{
  Slot, slot, StageInv, Local, Apart, CleanSlot, InCache, Inv, Change-Inv, same_or,
}

-- The second function with another value at one place.
abbrev pub Set {ℓ} : {A : Type ℓ} → (ℕ → A) → (ℕ → A) → ℕ → A → Type ℓ
Set f' f i a = (f' i ≡ a) × ((j : ℕ) → i ≢ j → f' j ≡ f j)

pub updates {ℓ} : {A : Type ℓ} (f : ℕ → A) (i : ℕ) (a : A) → Set (update f i a) f i a
updates f i a = (update_self f i a, λ j n. update_ne f i j a n)

pub stays {ℓ} : {A : Type ℓ} (f : ℕ → A) (i : ℕ) → Set f f i (f i)
stays f i = (refl, λ j n. refl)

slot_eq :
    (b b' : Buffer) (st st' : Stage) (w w' : List ℕ)
    → b ≡ b'
    → st ≡ st'
    → w ≡ w'
    → ◌≡◌ {A = Slot}
        (record { buffer = b; stage = st; wanted = w })
        (record { buffer = b'; stage = st'; wanted = w' })
slot_eq b b' st st' w w' e f g = rw (e, f, g) refl

pub slot_self :
    (m m' : State) (i : ℕ) (x : Slot)
    → Set m'.cache.buffers m.cache.buffers i x.buffer
    → Set m'.stage m.stage i x.stage
    → Set m'.wanted m.wanted i x.wanted
    → slot m' i ≡ x
slot_self m m' i x (b, b') (s, s') (w, w') =
    slot_eq (m'.cache.buffers i) x.buffer (m'.stage i) x.stage (m'.wanted i) x.wanted b s w

pub slot_others :
    (m m' : State) (i : ℕ) (x : Slot)
    → Set m'.cache.buffers m.cache.buffers i x.buffer
    → Set m'.stage m.stage i x.stage
    → Set m'.wanted m.wanted i x.wanted
    → (j : ℕ) → i ≢ j
    → slot m' j ≡ slot m j
slot_others m m' i x (b, b') (s, s') (w, w') j n =
    slot_eq (m'.cache.buffers j) (m.cache.buffers j) (m'.stage j) (m.stage j) (m'.wanted j)
      (m.wanted j) (b' j n) (s' j n) (w' j n)

-- What is clean in the others and in the changed buffer is clean in all.
pub clean_all :
    (m : State) (i s : ℕ)
    → CleanSlot (slot m i) s
    → ((j : ℕ) → i ≢ j → CleanSlot (slot m j) s)
    → (j : ℕ) → CleanSlot (slot m j) s
clean_all m i s c f j = elim (same_or i j) [
  | inl e ↦ subst (λ k. CleanSlot (slot m k) s) e c
  | inr n ↦ f j n
]

pub quiet :
    (m m' : State) (i : ℕ) (x : Slot)
    → Inv m
    → Set m'.cache.buffers m.cache.buffers i x.buffer
    → Set m'.stage m.stage i x.stage
    → Set m'.wanted m.wanted i x.wanted
    → m'.cache.cache ≡ m.cache.cache
    → m'.cache.fs_device ≡ m.cache.fs_device
    → m'.contents ≡ m.contents
    → Local x m.contents
    → ((j : ℕ) → i ≢ j → Apart x.buffer (slot m j).buffer)
    → InCache m.cache.cache i x.buffer
    → ((s : ℕ) → s ≢ uint_max → CleanSlot x s → CleanSlot (slot m i) s)
    → Inv m'
quiet m m' i x v sb ss sw ec ed ek l a h c = Change-Inv m m' i x v (record {
  self = slot_self m m' i x sb ss sw;
  others = slot_others m m' i x sb ss sw;
  local = subst (Local x) (sym ek) l;
  kept = λ j n. subst (Local (slot m j)) (sym ek) (v.each j);
  away = a;
  here = subst (λ is. InCache is i x.buffer) (sym ec) h;
  there = λ j n o. subst (OneOf j) (sym ec) o;
  written = λ s n d f. rw (ek, ed) (v.saved s n (clean_all m i s (c s n d) f));
})

-- A buffer that is not in use is at no stage.
pub unused-free :
    (st : Stage) (b : Buffer) (contents : ℕ → Sector)
    → StageInv st b contents
    → b.in_use ≡ false
    → (st ≡ Stage.free) × StageInv Stage.free b contents
unused-free Stage.free b k h u = (refl, h)
unused-free Stage.evicting b k (h, n, s, e) u = absurd cc
unused-free Stage.evicted b k (h, n, s) u = absurd cc
unused-free Stage.loading b k ((h, e, s), q) u = absurd cc
unused-free (Stage.held wrote) b k ((h, e, s), q) u = absurd cc
unused-free Stage.flushing b k ((h, e, s), q) u = absurd cc
unused-free Stage.flushed b k ((h, e, s), q) u = absurd cc
