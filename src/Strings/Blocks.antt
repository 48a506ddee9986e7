-- ===== src/Strings/Blocks.antt =====
-- string.c: memset, memcmp, memchr and strnlen, which look at a bounded block.
use buaa755os.Base.{
  ℕ, zero, suc, ◌+◌, ◌%◌, ◌^◌, ◌<◌, ◌≡◌, ◌≢◌, refl, ◌&&◌, Option, none, some, update, if◌then◌else◌,
  ltb, leb, ◌==◌, inl, inr, arith, ap, ◌∙◌, Bool-cases,
}
use buaa755os.Base.Int.{ℤ, pos, negsuc}
use buaa755os.Strings.{Memory, set_up, memset, compare_blocks, memcmp, find_byte, memchr}
use buaa755os.Strings.Move.{is_block-true}

set_up_lem :
    (m : Memory) (dst value size a : ℕ)
    → set_up m dst value size a ≡ (if leb dst a && ltb a (dst + size) then value % 2 ^ 8 else m a)
unfolding set_up
set_up_lem m dst value zero a = ground arith
set_up_lem m dst value (suc size) a =
    set_up_lem (update m dst (value % 2 ^ 8)) (dst + 1) value size a ∙ ground arith

-- The first place where two blocks differ, or none.
pub data Compared (m : Memory) (a b size : ℕ) : ℤ → Type 0 where
  same_bytes : ((i : ℕ) → i < size → m (a + i) ≡ m (b + i)) → Compared m a b size (pos 0)
  greater_at :
      (i : ℕ)
      → i < size
      → ((j : ℕ) → j < i → m (a + j) ≡ m (b + j))
      → m (b + i) < m (a + i)
      → Compared m a b size (pos 1)
  less_at :
      (i : ℕ)
      → i < size
      → ((j : ℕ) → j < i → m (a + j) ≡ m (b + j))
      → m (a + i) < m (b + i)
      → Compared m a b size (negsuc 0)

same_more :
    (m : Memory) (a b i : ℕ)
    → m a ≡ m b
    → ((j : ℕ) → j < i → m (a + 1 + j) ≡ m (b + 1 + j))
    → (j : ℕ) → j < suc i
    → m (a + j) ≡ m (b + j)
same_more m a b i e h zero p = grind arith
same_more m a b i e h (suc j) p = ap m (omega arith) ∙ h j (omega arith) ∙ ap m (omega arith)

-- What is in front of a block that has been compared.
one_more :
    (m : Memory) (a b size : ℕ) (r : ℤ)
    → m a ≡ m b
    → Compared m (a + 1) (b + 1) size r
    → Compared m a b (suc size) r
one_more m a b size _ e (Compared.same_bytes h) = Compared.same_bytes (same_more m a b size e h)
one_more m a b size _ e (Compared.greater_at i p h g) =
    Compared.greater_at (suc i) (omega arith) (same_more m a b i e h) (grind (arith, g))
one_more m a b size _ e (Compared.less_at i p h g) =
    Compared.less_at (suc i) (omega arith) (same_more m a b i e h) (grind (arith, g))

compare_blocks_lem : (m : Memory) (a b size : ℕ) → Compared m a b size (compare_blocks m a b size)
unfolding compare_blocks
compare_blocks_lem m a b zero = Compared.same_bytes (λ i p. absurd (omega arith))
compare_blocks_lem m a b (suc size) = elim (Bool-cases (m a == m b)) [
  | inl same ↦ rw same (
      one_more m a b size (compare_blocks m (a + 1) (b + 1) size) (ground arith)
        (compare_blocks_lem m (a + 1) (b + 1) size))
  | inr differ ↦ rw differ (elim (Bool-cases (ltb (m b) (m a))) [
    | inl greater ↦
        rw greater (Compared.greater_at 0 (omega arith) (λ j p. absurd (omega arith)) (grind arith))
    | inr less ↦
        rw less (Compared.less_at 0 (omega arith) (λ j p. absurd (omega arith)) (grind arith))
  ])
]

-- memcmp of two blocks says where they first differ and which byte is the greater there, or that
-- all bytes agree.
pub memcmp_lem :
    (m : Memory) (a b size : ℕ)
    → a ≢ 0
    → b ≢ 0
    → (r : ℤ) × (memcmp m a b size ≡ some r) × Compared m a b size r
unfolding memcmp
memcmp_lem m a b size na nb = (
  compare_blocks m a b size,
  rw (is_block-true a size na, is_block-true b size nb) refl,
  compare_blocks_lem m a b size,
)

-- memset fills a block with the low byte of the value, and leaves other bytes alone.
pub memset_lem :
    (m : Memory) (dst value size : ℕ)
    → dst ≢ 0
    → (m' : Memory) × (memset m dst value size ≡ some (dst, m'))
      × ((a : ℕ) → m' a ≡ (if leb dst a && ltb a (dst + size) then value % 2 ^ 8 else m a))
unfolding memset
memset_lem m dst value size d =
    (set_up m dst value size, rw (is_block-true dst size d) refl, set_up_lem m dst value size)

-- The first place of a byte in a block, or none.
abbrev pub FirstPlace : Memory → ℕ → ℕ → ℕ → Option ℕ → Type 0
FirstPlace m block ch size none = (i : ℕ) → i < size → m (block + i) ≢ ch
FirstPlace m block ch size (some p) =
    (i : ℕ) × (p ≡ block + i) × (i < size) × (m p ≡ ch) × ((j : ℕ) → j < i → m (block + j) ≢ ch)

not_before :
    (m : Memory) (block ch n : ℕ)
    → m block ≢ ch
    → ((j : ℕ) → j < n → m (block + 1 + j) ≢ ch)
    → (j : ℕ) → j < suc n
    → m (block + j) ≢ ch
not_before m block ch n ne h zero p e = ne (ap m (omega arith) ∙ e)
not_before m block ch n ne h (suc j) p e = h j (omega arith) (ap m (omega arith) ∙ e)

later_place :
    (m : Memory) (block ch size : ℕ) (r : Option ℕ)
    → m block ≢ ch
    → FirstPlace m (block + 1) ch size r
    → FirstPlace m block ch (suc size) r
later_place m block ch size none ne h = not_before m block ch size ne h
later_place m block ch size (some p) ne (i, e, q, here, h) =
    (suc i, omega (arith, e), omega arith, here, not_before m block ch i ne h)

find_byte_lem :
    (m : Memory) (block ch size : ℕ) → FirstPlace m block ch size (find_byte m block ch size)
unfolding find_byte
find_byte_lem m block ch zero = λ i p. absurd (omega arith)
find_byte_lem m block ch (suc size) = elim (Bool-cases (m block == ch)) [
  | inl here ↦ rw here (0, omega arith, omega arith, ground arith, λ j p. absurd (omega arith))
  | inr later ↦ rw later (
      later_place m block ch size (find_byte m (block + 1) ch size) (ground arith)
        (find_byte_lem m (block + 1) ch size))
]

-- memchr returns the first place of the byte in the block, or null if it is not there.
pub memchr_lem :
    (m : Memory) (block ch size : ℕ)
    → block ≢ 0
    → (r : Option ℕ) × (memchr m block ch size ≡ some r) × FirstPlace m block (ch % 2 ^ 8) size r
unfolding memchr
memchr_lem m block ch size n = (
  find_byte m block (ch % 2 ^ 8) size,
  rw (is_block-true block size n) refl,
  find_byte_lem m block (ch % 2 ^ 8) size,
)
