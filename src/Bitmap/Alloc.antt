-- ===== src/Bitmap/Alloc.antt =====
-- bitmap.c: a search over the whole bitmap, the allocation of a run of bits, creation, counting.
use native.Mathlib.Decide.{dec_le}
use buaa755os.Base.{
  ℕ, zero, suc, ◌+◌, ◌-◌, ◌%◌, ◌≤◌, ◌<◌, ◌≡◌, ◌≢◌, refl, Bool, true, false, not, some, length,
  arith, Bool-cases, lt→ltb, inl, inr, ==_ne, le→leb, List, ◌⊎◌,
}
use buaa755os.Bitmap.{
  Bitmap, bitmap_error, bitmap_size, bitmap_set_all, bitmap_create, scan_from, bitmap_scan,
  bitmap_scan_and_flip, count_from, bitmap_count,
}
use buaa755os.Bitmap.Bits.{
  words_for, IsValid, bit_at, bitmap_test_lem, Changed, in_range, bitmap_set_multiple_lem,
}
use buaa755os.Bitmap.Scan.{Run, Found, Missing, scan_from_lem}

-- The first run of `cnt` bits at or after `start`, and that there is none.
pub record IsFirstRun (b : Bitmap) (start cnt : ℕ) (value : Bool) (idx : ℕ) : Type 0 where
  pub from : start ≤ idx
  pub to : idx + cnt ≤ b.bit_cnt
  pub run : Run b idx cnt value
  pub first : (k : ℕ) → start ≤ k → k < idx → ¬ Run b k cnt value

abbrev pub NoRun : Bitmap → ℕ → ℕ → Bool → Type 0
NoRun b start cnt value = (k : ℕ) → start ≤ k → k + cnt ≤ b.bit_cnt → ¬ Run b k cnt value

abbrev pub ScanResult : Bitmap → ℕ → ℕ → Bool → ℕ → Type 0
ScanResult b start cnt value idx =
    ((idx ≢ bitmap_error) × IsFirstRun b start cnt value idx)
    ⊎ ((idx ≡ bitmap_error) × NoRun b start cnt value)

scan_short :
    (b : Bitmap) (start cnt : ℕ) (value : Bool)
    → cnt ≤ b.bit_cnt
    → ¬ (start ≤ b.bit_cnt - cnt)
    → scan_from (b.bit_cnt - cnt + 1 - start) b start cnt value ≡ some bitmap_error
unfolding scan_from
scan_short b start cnt value h p = let e : b.bit_cnt - cnt + 1 - start ≡ 0 = omega arith in rw e

-- bitmap_scan, for at least one bit in a valid bitmap, does not panic; it returns the start of the
-- first run of CNT bits with the value at or after START, or BITMAP_ERROR if there is no such run.
pub bitmap_scan_lem :
    (b : Bitmap) (start cnt : ℕ) (value : Bool)
    → IsValid b
    → 0 < cnt
    → start ≤ b.bit_cnt
    → (idx : ℕ) × (bitmap_scan b start cnt value ≡ some idx) × ScanResult b start cnt value idx
unfolding bitmap_scan
bitmap_scan_lem b start cnt value v pos h = elim (dec_le cnt b.bit_cnt) [
  | yes fits ↦ elim (dec_le start (b.bit_cnt - cnt)) [
    | yes room ↦
        let (idx, e, r) =
          scan_from_lem (b.bit_cnt - cnt + 1 - start) b start cnt value v (omega arith) in
        (idx, rw (le→leb start b.bit_cnt h, le→leb cnt b.bit_cnt fits) e, outcome fits room idx r)
    | no short ↦ (
      bitmap_error,
      rw (le→leb start b.bit_cnt h, le→leb cnt b.bit_cnt fits)
          (scan_short b start cnt value fits short),
      inr (refl, λ k p q. absurd (omega arith)),
    )
  ]
  | no big ↦ (bitmap_error, ground arith, inr (refl, λ k p q. absurd (omega arith)))
]
  where
    outcome :
        cnt ≤ b.bit_cnt
        → start ≤ b.bit_cnt - cnt
        → (idx : ℕ)
        → Found b start (b.bit_cnt - cnt + 1 - start) cnt value idx
          ⊎ Missing b start (b.bit_cnt - cnt + 1 - start) cnt value idx
        → ScanResult b start cnt value idx
    outcome fits room idx (inl f) = inl (
      omega (arith, f.to, v.small),
      record { from = f.from; to = omega (arith, f.to); run = f.run; first = f.first },
    )
    outcome fits room idx (inr m) = inr (m.error, λ k p q. m.absent k p (omega arith))

-- What bitmap_scan_and_flip leaves behind: the first run flipped and nothing else, or the bitmap
-- untouched where there is no run.
abbrev pub FlipResult : Bitmap → ℕ → ℕ → Bool → ℕ → Bitmap → Type 0
FlipResult b start cnt value idx b' =
    ((idx ≢ bitmap_error)
      × IsFirstRun b start cnt value idx
      × Changed b (in_range idx cnt) (not value) b')
    ⊎ ((idx ≡ bitmap_error) × NoRun b start cnt value × (b' ≡ b))

-- bitmap_scan_and_flip, for at least one bit in a valid bitmap and a START of at most its number of
-- bits, does not panic; it flips exactly the first run at or after START and returns its start, or
-- returns BITMAP_ERROR, with the bitmap unchanged, if there is no run.
pub bitmap_scan_and_flip_lem :
    (b : Bitmap) (start cnt : ℕ) (value : Bool)
    → IsValid b
    → 0 < cnt
    → start ≤ b.bit_cnt
    → (idx : ℕ) × (b' : Bitmap) × (bitmap_scan_and_flip b start cnt value ≡ some (idx, b'))
      × FlipResult b start cnt value idx b'
unfolding bitmap_scan_and_flip
bitmap_scan_and_flip_lem b start cnt value v pos h = go (bitmap_scan_lem b start cnt value v pos h)
  where
    go :
        (idx : ℕ) × (bitmap_scan b start cnt value ≡ some idx) × ScanResult b start cnt value idx
        → (idx : ℕ) × (b' : Bitmap) × (bitmap_scan_and_flip b start cnt value ≡ some (idx, b'))
          × FlipResult b start cnt value idx b'
    go (idx, e, inl (ne, r)) =
        let (b', e', c) = bitmap_set_multiple_lem b idx cnt (not value) v r.to in
        (idx, b', rw (e, ==_ne idx bitmap_error ne, e'), inl (ne, r, c))
    go (idx, e, inr (err, none_there)) = (idx, b, rw (e, err), inr (err, none_there, refl))

-- bitmap_create, given its memory, whatever that holds, does not panic, and makes a valid bitmap
-- of BIT_CNT bits, all of them false.
pub bitmap_create_lem :
    (bits : List ℕ) (bit_cnt : ℕ)
    → words_for bit_cnt ≤ length bits
    → bit_cnt < bitmap_error
    → (b : Bitmap) × (bitmap_create true (some bits) bit_cnt ≡ some (some b))
      × IsValid b
      × (b.bit_cnt ≡ bit_cnt)
      × ((j : ℕ) → j < bit_cnt → bit_at b j ≡ false)
unfolding bitmap_create bitmap_set_all bitmap_size
bitmap_create_lem bits bit_cnt h small =
    let b₀ : Bitmap = record { bit_cnt = bit_cnt; bits = bits } in
    let (b, e, c) =
      bitmap_set_multiple_lem b₀ 0 bit_cnt false (record { storage = h; small = small })
        (omega arith) in
    (
      b,
      rw e,
      c.valid,
      c.size,
      λ j p. rw (c.bits j, lt→ltb j (0 + bit_cnt) (omega arith), le→leb 0 j (omega arith)),
    )

-- Counting the two values over a range accounts for every bit of it.
count_from_lem :
    (n : ℕ) (b : Bitmap) (i a c : ℕ)
    → i + n ≤ b.bit_cnt
    → (x : ℕ) × (y : ℕ) × (count_from n b i true a ≡ some x)
      × (count_from n b i false c ≡ some y)
      × (x + y ≡ a + c + n)
unfolding count_from
count_from_lem zero b i a c h = (a, c, refl, refl, omega arith)
count_from_lem (suc n) b i a c h = elim (Bool-cases (bit_at b i)) [
  | inl set_bit ↦
      let (x, y, e, f, s) = count_from_lem n b (i + 1) (a + 1) c (omega arith) in
      (
        x,
        y,
        rw (bitmap_test_lem b i (omega arith), set_bit) e,
        rw (bitmap_test_lem b i (omega arith), set_bit) f,
        omega arith,
      )
  | inr clear_bit ↦
      let (x, y, e, f, s) = count_from_lem n b (i + 1) a (c + 1) (omega arith) in
      (
        x,
        y,
        rw (bitmap_test_lem b i (omega arith), clear_bit) e,
        rw (bitmap_test_lem b i (omega arith), clear_bit) f,
        omega arith,
      )
]

-- bitmap_count, on a range within a valid bitmap, does not panic, and the counts for true and for
-- false add up to the length of the range.
pub bitmap_count_lem :
    (b : Bitmap) (start cnt : ℕ)
    → IsValid b
    → start + cnt ≤ b.bit_cnt
    → (x : ℕ) × (y : ℕ) × (bitmap_count b start cnt true ≡ some x)
      × (bitmap_count b start cnt false ≡ some y)
      × (x + y ≡ cnt)
unfolding bitmap_count
bitmap_count_lem b start cnt v h =
    let (x, y, e, f, s) = count_from_lem cnt b start 0 0 h in
    let inside = le→leb start b.bit_cnt (omega arith) in
    let whole = le→leb ((start + cnt) % 4294967296) b.bit_cnt (omega (arith, v.small)) in
    (x, y, rw (inside, whole) e, rw (inside, whole) f, omega arith)

-- Setting a run of free bits and clearing it again leaves every bit as it was.
pub undo :
    (b b₁ b₂ : Bitmap) (i cnt : ℕ)
    → Run b i cnt false
    → Changed b (in_range i cnt) true b₁
    → Changed b₁ (in_range i cnt) false b₂
    → (j : ℕ) → bit_at b₂ j ≡ bit_at b j
undo b b₁ b₂ i cnt run c d j = elim (Bool-cases (in_range i cnt j)) [
  | inl inside ↦ ground (arith, c.bits j, d.bits j, run j)
  | inr outside ↦ ground (arith, c.bits j, d.bits j)
]
