-- ===== src/Strings/Move.antt =====
-- string.c: copies of blocks, and where they may overlap.
use buaa755os.Base.{
  ℕ, zero, suc, ◌+◌, ◌-◌, ◌≤◌, ◌<◌, ◌≡◌, ◌≢◌, refl, true, ◌&&◌, some, update, if◌then◌else◌, ltb,
  leb, ==_ne, lt→ltb, le→leb, ◌⊎◌, inl, inr, arith, ◌∙◌, sym, Bool-cases,
}
use buaa755os.Strings.{Memory, is_block, copy_up, copy_down, memcpy, memmove}

-- The memory after all bytes of a block have been copied at once.
abbrev pub copied : Memory → ℕ → ℕ → ℕ → Memory
copied m dst src size a = if leb dst a && ltb a (dst + size) then m (src + (a - dst)) else m a

pub copied_in :
    (m : Memory) (dst src size a : ℕ) (v : ℕ)
    → dst ≤ a
    → a < dst + size
    → m (src + (a - dst)) ≡ v
    → copied m dst src size a ≡ v
copied_in m dst src size a v lo hi e = rw (le→leb dst a lo, lt→ltb a (dst + size) hi) e

pub copied_out :
    (m : Memory) (dst src size a : ℕ) → (a < dst) ⊎ (dst + size ≤ a) → copied m dst src size a ≡ m a
copied_out m dst src size a h = ground arith

copy_up-copied :
    (m : Memory) (dst src size a : ℕ)
    → (dst < src) ⊎ (src + size ≤ dst)
    → copy_up m dst src size a ≡ copied m dst src size a
unfolding copy_up
copy_up-copied m dst src zero a h = sym (copied_out m dst src 0 a (ground arith))
copy_up-copied m dst src (suc size) a h =
    copy_up-copied (update m dst (m src)) (dst + 1) (src + 1) size a (ground arith) ∙ ground arith

copy_down-copied :
    (m : Memory) (dst src size a : ℕ)
    → size ≤ src
    → src ≤ dst
    → copy_down m dst src size a ≡ copied m (dst - size) (src - size) size a
unfolding copy_down
copy_down-copied m dst src zero a s h = sym (copied_out m (dst - 0) (src - 0) 0 a (ground arith))
copy_down-copied m dst src (suc size) a s h =
    copy_down-copied (update m (dst - 1) (m (src - 1))) (dst - 1) (src - 1) size a (omega arith)
      (omega arith)
    ∙ ground arith

-- A pointer that is not null passes the assertions.
pub is_block-true : (p size : ℕ) → p ≢ 0 → is_block p size ≡ true
is_block-true p size h = rw (==_ne p 0 h) refl

-- memcpy, between blocks that do not overlap, returns the destination and copies the block.
pub memcpy_lem :
    (m : Memory) (dst src size : ℕ)
    → dst ≢ 0
    → src ≢ 0
    → (dst + size ≤ src) ⊎ (src + size ≤ dst)
    → (m' : Memory) × (memcpy m dst src size ≡ some (dst, m'))
      × ((a : ℕ) → m' a ≡ copied m dst src size a)
unfolding memcpy
memcpy_lem m dst src zero d s h = (
  m,
  rw (is_block-true dst 0 d, is_block-true src 0 s) refl,
  λ a. sym (copied_out m dst src 0 a (ground arith)),
)
memcpy_lem m dst src (suc size) d s h = (
  copy_up m dst src (suc size),
  rw (is_block-true dst (suc size) d, is_block-true src (suc size) s) refl,
  λ a. copy_up-copied m dst src (suc size) a (ground arith),
)

-- memmove, between blocks that may overlap in any way, leaves the memory in which all bytes of the
-- block have been copied at once. It returns the destination when that is not below the source, and
-- else the end of the destination.
pub memmove_lem :
    (m : Memory) (dst src size : ℕ)
    → dst ≢ 0
    → src ≢ 0
    → (m' : Memory) × (memmove m dst src size
        ≡ some ((if ltb dst src then dst + size else dst), m'))
      × ((a : ℕ) → m' a ≡ copied m dst src size a)
unfolding memmove
memmove_lem m dst src size d s = elim (Bool-cases (ltb dst src)) [
  | inl up ↦ (
    copy_up m dst src size,
    rw (is_block-true dst size d, is_block-true src size s, up) refl,
    λ a. copy_up-copied m dst src size a (ground arith),
  )
  | inr down ↦ (
    copy_down m (dst + size) (src + size) size,
    rw (is_block-true dst size d, is_block-true src size s, down) refl,
    λ a.
        copy_down-copied m (dst + size) (src + size) size a (omega arith) (ground arith)
        ∙ ground arith,
  )
]
