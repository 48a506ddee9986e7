-- ===== src/Buffers/Invariant.antt =====
-- buffers.c: the invariant of the cache and its threads, buffer by buffer and pair by pair.
use mathlib.Core.Path.{subst}
use buaa755os.Base.{
  ℕ, ◌-◌, ◌≡◌, ◌≢◌, true, false, List, [], ◌∷◌, ◌==◌, inl, inr, ◌⊎◌, Bool-cases, arith, sym, ◌∙◌,
}
use buaa755os.HashTable.Buckets.{OneOf}
use buaa755os.Buffers.{Sector, Buffer, uint_max}
use buaa755os.Buffers.Steps.{Stage, State}

-- A buffer, its stage and the sectors that the threads that wait for it want.
pub record Slot : Type 0 where
  pub buffer : Buffer
  pub stage : Stage
  pub wanted : List ℕ

abbrev pub slot : State → ℕ → Slot
slot m i = record { buffer = m.cache.buffers i; stage = m.stage i; wanted = m.wanted i }

-- A thread has the buffer, and no eviction is under way.
abbrev pub Busy : Buffer → Type 0
Busy b = (b.in_use ≡ true) × (b.evicting_sector ≡ uint_max) × (b.sector ≢ uint_max)

-- The buffer's bytes are what its sector holds.
abbrev pub Loaded : Buffer → (ℕ → Sector) → Type 0
Loaded b contents = b.sector ≢ uint_max → contents b.sector ≡ b.bytes

abbrev pub StageInv : Stage → Buffer → (ℕ → Sector) → Type 0
StageInv Stage.free b contents =
    (b.in_use ≡ false)
    × (b.evicting_sector ≡ uint_max)
    × Loaded b contents
    × (b.dirty ≡ true → b.sector ≢ uint_max)
StageInv Stage.evicting b contents =
    (b.in_use ≡ true)
    × (b.evicting_sector ≢ uint_max)
    × (b.sector ≢ uint_max)
    × (contents b.evicting_sector ≡ b.bytes)
StageInv Stage.evicted b contents =
    (b.in_use ≡ true) × (b.evicting_sector ≢ uint_max) × (b.sector ≢ uint_max)
StageInv Stage.loading b contents = Busy b × (b.dirty ≡ false)
StageInv (Stage.held wrote) b contents = Busy b × Loaded b contents
StageInv Stage.flushing b contents = Busy b × Loaded b contents
StageInv Stage.flushed b contents = Busy b × Loaded b contents

-- The threads that wait want the buffer's sector.
abbrev pub Wants : ℕ → ℕ → List ℕ → Type 0
Wants waiting sector [] = waiting ≡ 0
Wants waiting sector (s ∷ ss) =
    (waiting ≢ 0) × (s ≡ sector) × (s ≢ uint_max) × Wants (waiting - 1) sector ss

-- What holds of one buffer.
abbrev pub Local : Slot → (ℕ → Sector) → Type 0
Local x contents =
    StageInv x.stage x.buffer contents × Wants x.buffer.waiting x.buffer.sector x.wanted

-- Two buffers have no sector in common.
abbrev pub Apart : Buffer → Buffer → Type 0
Apart a b =
    (a.sector ≡ b.sector → a.sector ≡ uint_max)
    × (a.sector ≡ b.evicting_sector → a.sector ≡ uint_max)
    × (a.evicting_sector ≡ b.sector → a.evicting_sector ≡ uint_max)
    × (a.evicting_sector ≡ b.evicting_sector → a.evicting_sector ≡ uint_max)

-- The buffer has nothing of the sector that is still to be written.
abbrev pub Clean : Stage → Buffer → ℕ → Type 0
Clean Stage.free b s = b.sector ≡ s → b.dirty ≡ false
Clean Stage.evicting b s = b.evicting_sector ≢ s
Clean Stage.evicted b s = Unit
Clean Stage.loading b s = Unit
Clean (Stage.held wrote) b s = b.sector ≡ s → (b.dirty ≡ false) × (wrote ≡ false)
Clean Stage.flushing b s = b.sector ≢ s
Clean Stage.flushed b s = Unit

abbrev pub CleanSlot : Slot → ℕ → Type 0
CleanSlot x s = Clean x.stage x.buffer s

-- The buffer is in the cache's list, or has no sector.
abbrev pub InCache : List ℕ → ℕ → Buffer → Type 0
InCache is i b = OneOf i is ⊎ ((b.sector ≡ uint_max) × (b.evicting_sector ≡ uint_max))

pub record Inv (m : State) : Type 0 where
  pub each : (i : ℕ) → Local (slot m i) m.contents
  pub apart : (i j : ℕ) → i ≢ j → Apart (slot m i).buffer (slot m j).buffer
  pub listed : (i : ℕ) → InCache m.cache.cache i (slot m i).buffer
  pub saved :
      (s : ℕ)
      → s ≢ uint_max
      → ((i : ℕ) → CleanSlot (slot m i) s)
      → m.contents s ≡ m.cache.fs_device s

pub Apart-sym : (a b : Buffer) → Apart a b → Apart b a
Apart-sym a b (f, g, h, k) =
    ((λ e. e ∙ f (sym e)), (λ e. e ∙ h (sym e)), (λ e. e ∙ g (sym e)), (λ e. e ∙ k (sym e)))

-- A state that differs in one buffer, what its sector holds and what is on the device.
pub record Change (m m' : State) (i : ℕ) (x : Slot) : Type 0 where
  pub self : slot m' i ≡ x
  pub others : (j : ℕ) → i ≢ j → slot m' j ≡ slot m j
  pub local : Local x m'.contents
  pub kept : (j : ℕ) → i ≢ j → Local (slot m j) m'.contents
  pub away : (j : ℕ) → i ≢ j → Apart x.buffer (slot m j).buffer
  pub here : InCache m'.cache.cache i x.buffer
  pub there : (j : ℕ) → i ≢ j → OneOf j m.cache.cache → OneOf j m'.cache.cache
  pub written :
      (s : ℕ)
      → s ≢ uint_max
      → CleanSlot x s
      → ((j : ℕ) → i ≢ j → CleanSlot (slot m j) s)
      → m'.contents s ≡ m'.cache.fs_device s

pub same_or : (i j : ℕ) → (i ≡ j) ⊎ (i ≢ j)
same_or i j = elim (Bool-cases (i == j)) [ inl e ↦ inl (ground arith) | inr e ↦ inr (ground arith) ]

-- What holds of the buffer changed and of the others holds of all.
at_each :
    {m m' : State} {i : ℕ} {x : Slot}
    → Change m m' i x
    → (P : ℕ → Slot → Type 0) → P i x
    → ((j : ℕ) → i ≢ j → P j (slot m j))
    → (j : ℕ) → P j (slot m' j)
at_each {m} {m'} {i} {x} c P p f j = elim (same_or i j) [
  | inl e ↦ subst (λ k. P k (slot m' k)) e (subst (P i) (sym c.self) p)
  | inr n ↦ subst (P j) (sym (c.others j n)) (f j n)
]

pub Change-Inv : (m m' : State) (i : ℕ) (x : Slot) → Inv m → Change m m' i x → Inv m'
Change-Inv m m' i x v c = record {
  each = at_each c (λ j y. Local y m'.contents) c.local c.kept;
  apart =
      at_each c (λ j y. (k : ℕ) → j ≢ k → Apart y.buffer (slot m' k).buffer)
        (λ k n. subst (λ y. Apart x.buffer y.buffer) (sym (c.others k n)) (c.away k n))
        (λ j d.
          at_each c (λ k y. j ≢ k → Apart (slot m j).buffer y.buffer)
            (λ n. Apart-sym x.buffer (slot m j).buffer (c.away j d)) (λ k d' n. v.apart j k n));
  listed =
      at_each c (λ j y. InCache m'.cache.cache j y.buffer) c.here
        (λ j n. elim (v.listed j) [ inl o ↦ inl (c.there j n o) | inr e ↦ inr e ]);
  saved = λ s n f.
      c.written s n (subst (λ y. CleanSlot y s) c.self (f i))
        (λ j d. subst (λ y. CleanSlot y s) (c.others j d) (f j));
}
