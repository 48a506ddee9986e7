-- ===== src/Bitmap/Bits.antt =====
-- bitmap.c against the abstract view of a bitmap as a function from indices to Booleans: single
-- bits and ranges.
use buaa755os.Base.{
  ℕ, ◌/◌, zero, suc, ◌+◌, ◌%◌, ◌≤◌, ◌<◌, ◌≡◌, ◌≢◌, refl, Bool, true, false, not, ◌&&◌, some,
  if◌then◌else◌, ltb, leb, ◌==◌, length, get_or, length-set, get_or-set_self, get_or-set_ne, arith,
  lt→ltb, ==_refl, ==_ne, le→leb, ◌∙◌,
}
use native.Mathlib.Decide.{ℕ_discrete}
use buaa755os.Bitmap.{
  Bitmap, elem_idx, bit_mask, update_elem, bitmap_mark, bitmap_reset, bitmap_flip, bitmap_set,
  bitmap_test, set_from, bitmap_set_multiple,
}
use buaa755os.Bitmap.Word.{
  test_mask, or_mask, and_not_mask, xor_mask, test_mask-or_self, test_mask-or_ne,
  test_mask-and_not_self, test_mask-and_not_ne, test_mask-xor_self, test_mask-xor_ne,
}

-- The 32-bit words that so many bits need.
abbrev pub words_for : ℕ → ℕ
words_for bit_cnt = (bit_cnt + 31) / 32

-- The storage holds every bit, and no bit number is BITMAP_ERROR.
pub record IsValid (b : Bitmap) : Type 0 where
  pub storage : words_for b.bit_cnt ≤ length b.bits
  pub small : b.bit_cnt < 4294967295

-- The abstract view: the bit at an index.
abbrev pub bit_at : Bitmap → ℕ → Bool
bit_at b i = test_mask (get_or b.bits (elem_idx i) 0) (bit_mask i)

pub bitmap_test_lem : (b : Bitmap) (i : ℕ) → i < b.bit_cnt → bitmap_test b i ≡ some (bit_at b i)
unfolding bitmap_test
bitmap_test_lem b i h = rw (lt→ltb i b.bit_cnt h)

-- Two indices in one element are told apart by their masks.
mask-ne : (i j : ℕ) → i ≢ j → elem_idx i ≡ elem_idx j → bit_mask i ≢ bit_mask j
mask-ne i j h e = omega arith

-- A change of one bit of one element is a change of one bit of the bitmap.
bit_at-update :
    (f : ℕ → ℕ → ℕ) (new : Bool) (b : Bitmap) (i j : ℕ)
    → IsValid b
    → i < b.bit_cnt
    → ((w k : ℕ) → w ≡ get_or b.bits (elem_idx i) 0 → k ≡ bit_mask i → test_mask (f w k) k ≡ new)
    → ((w k m : ℕ) → k ≢ m → test_mask (f w k) m ≡ test_mask w m)
    → bit_at (update_elem f b i) j ≡ (if i == j then new else bit_at b j)
bit_at-update f new b i j v h self other = elim (ℕ_discrete i j) [
  | yes e ↦
      rw
        (
          ← e,
          ==_refl i,
          get_or-set_self b.bits (elem_idx i) (f (get_or b.bits (elem_idx i) 0) (bit_mask i)) 0
              (omega (arith, v.storage)),
        )
        (self _ _ refl refl)
  | no ne ↦ elim (ℕ_discrete (elem_idx i) (elem_idx j)) [
    | yes e ↦
        rw
          (
            ==_ne i j ne,
            ← e,
            get_or-set_self b.bits (elem_idx i) (f (get_or b.bits (elem_idx i) 0) (bit_mask i)) 0
                (omega (arith, v.storage)),
          )
          (other _ _ _ (mask-ne i j ne e))
    | no far ↦ rw (
      ==_ne i j ne,
      get_or-set_ne b.bits (elem_idx i) (elem_idx j) (f (get_or b.bits (elem_idx i) 0) (bit_mask i))
          0 far,
    )
  ]
]

update-IsValid : (f : ℕ → ℕ → ℕ) (b : Bitmap) (i : ℕ) → IsValid b → IsValid (update_elem f b i)
update-IsValid f b i v = record {
  storage =
      rw (length-set b.bits (elem_idx i) (f (get_or b.bits (elem_idx i) 0) (bit_mask i))) v.storage;
  small = v.small;
}

pub bit_at-mark :
    (b : Bitmap) (i j : ℕ)
    → IsValid b
    → i < b.bit_cnt
    → bit_at (bitmap_mark b i) j ≡ (if i == j then true else bit_at b j)
unfolding bitmap_mark
bit_at-mark b i j v h =
    bit_at-update or_mask true b i j v h (λ w k _ _. test_mask-or_self w k) test_mask-or_ne

bit_at-reset :
    (b : Bitmap) (i j : ℕ)
    → IsValid b
    → i < b.bit_cnt
    → bit_at (bitmap_reset b i) j ≡ (if i == j then false else bit_at b j)
unfolding bitmap_reset
bit_at-reset b i j v h =
    bit_at-update and_not_mask false b i j v h (λ w k _ _. test_mask-and_not_self w k)
      test_mask-and_not_ne

pub mark-IsValid : (b : Bitmap) (i : ℕ) → IsValid b → IsValid (bitmap_mark b i)
unfolding bitmap_mark
mark-IsValid b i v = update-IsValid or_mask b i v

pub size-mark : (b : Bitmap) (i : ℕ) → (bitmap_mark b i).bit_cnt ≡ b.bit_cnt
unfolding bitmap_mark
size-mark b i = refl

-- bitmap_flip negates exactly the bit at the index, in a valid bitmap.
pub bit_at-flip :
    (b : Bitmap) (i j : ℕ)
    → IsValid b
    → i < b.bit_cnt
    → bit_at (bitmap_flip b i) j ≡ (if i == j then not (bit_at b i) else bit_at b j)
unfolding bitmap_flip
bit_at-flip b i j v h =
    bit_at-update xor_mask (not (bit_at b i)) b i j v h
      (λ w k ew ek. rw (ew, ek) (test_mask-xor_self (get_or b.bits (elem_idx i) 0) (bit_mask i)))
      test_mask-xor_ne

-- What a change of some bits to `value` has done: those that `chosen` names have it, the others
-- are as before.
pub record Changed (b : Bitmap) (chosen : ℕ → Bool) (value : Bool) (b' : Bitmap) : Type 0 where
  pub valid : IsValid b'
  pub size : b'.bit_cnt ≡ b.bit_cnt
  pub bits : (j : ℕ) → bit_at b' j ≡ (if chosen j then value else bit_at b j)

-- bitmap_set, at an index within the bitmap, does not panic and changes that bit alone.
pub bitmap_set_lem :
    (b : Bitmap) (i : ℕ) (value : Bool)
    → IsValid b
    → i < b.bit_cnt
    → (b' : Bitmap) × (bitmap_set b i value ≡ some b') × Changed b (λ j. i == j) value b'
unfolding bitmap_set
bitmap_set_lem b i true v h = (
  bitmap_mark b i,
  rw (lt→ltb i b.bit_cnt h),
  record { valid = mark-IsValid b i v; size = size-mark b i; bits = λ j. bit_at-mark b i j v h },
)
bitmap_set_lem b i false v h = (
  bitmap_reset b i,
  rw (lt→ltb i b.bit_cnt h),
  record {
    valid = unfold bitmap_reset in update-IsValid and_not_mask b i v;
    size = unfold bitmap_reset in refl;
    bits = λ j. bit_at-reset b i j v h;
  },
)

-- Within [start, start + cnt).
abbrev pub in_range : ℕ → ℕ → ℕ → Bool
in_range start cnt j = leb start j && ltb j (start + cnt)

pub set_from_lem :
    (n : ℕ) (b : Bitmap) (i : ℕ) (value : Bool)
    → IsValid b
    → i + n ≤ b.bit_cnt
    → (b' : Bitmap) × (set_from n b i value ≡ some b') × Changed b (in_range i n) value b'
unfolding set_from
set_from_lem zero b i value v h =
    (b, refl, record { valid = v; size = refl; bits = λ j. ground arith })
set_from_lem (suc n) b i value v h =
    let (b₁, e₁, c₁) = bitmap_set_lem b i value v (omega arith) in
    let (b₂, e₂, c₂) = set_from_lem n b₁ (i + 1) value c₁.valid (omega (arith, c₁.size)) in
    (
      b₂,
      rw (e₁) e₂,
      record {
        valid = c₂.valid;
        size = c₂.size ∙ c₁.size;
        bits = λ j. ground (arith, c₁.bits j, c₂.bits j);
      },
    )

-- bitmap_set_multiple, on a range within a valid bitmap, does not panic, and gives VALUE to the
-- bits of the range and to no other.
pub bitmap_set_multiple_lem :
    (b : Bitmap) (start cnt : ℕ) (value : Bool)
    → IsValid b
    → start + cnt ≤ b.bit_cnt
    → (b' : Bitmap) × (bitmap_set_multiple b start cnt value ≡ some b')
      × Changed b (in_range start cnt) value b'
unfolding bitmap_set_multiple
bitmap_set_multiple_lem b start cnt value v h =
    let (b', e, c) = set_from_lem cnt b start value v h in
    (
      b',
      rw
          (
            le→leb start b.bit_cnt (omega arith),
            le→leb ((start + cnt) % 4294967296) b.bit_cnt (omega (arith, v.small)),
          )
          e,
      c,
    )
