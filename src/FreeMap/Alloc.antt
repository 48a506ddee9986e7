-- ===== src/FreeMap/Alloc.antt =====
-- free-map.c: which sectors an allocation takes, that it takes them from nobody, and that a release
-- gives them back.
use buaa755os.Base.{
  ℕ, ◌+◌, ◌≤◌, ◌<◌, ◌≡◌, refl, Bool, true, false, Option, none, some, ltb, List, arith, Bool-cases,
  inl, inr, ==_ne, ◌∙◌, ◌⊎◌, length,
}
use buaa755os.Bitmap.{
  Bitmap, bitmap_error, bitmap_scan_and_flip, bitmap_all, bitmap_create, bitmap_contains,
  bitmap_mark,
}
use buaa755os.Bitmap.Bits.{
  words_for, IsValid, bit_at, Changed, in_range, bitmap_set_multiple_lem, bit_at-mark, mark-IsValid,
  size-mark,
}
use buaa755os.Bitmap.Scan.{Run, Contains, bitmap_contains_lem}
use buaa755os.Bitmap.Alloc.{
  undo, IsFirstRun, FlipResult, bitmap_scan_and_flip_lem, bitmap_create_lem,
}
use buaa755os.FreeMap.{Words, Writer, FreeMap, free_map_allocate, free_map_release, free_map_init}

-- What an allocation did: it took the first free run, or it failed and left every bit as it was.
abbrev pub Allocated : Bitmap → ℕ → Option ℕ → Bitmap → Type 0
Allocated b cnt (some sector) b' =
    IsFirstRun b 0 cnt false sector × Changed b (in_range sector cnt) true b'
Allocated b cnt none b' =
    IsValid b' × (b'.bit_cnt ≡ b.bit_cnt) × ((j : ℕ) → bit_at b' j ≡ bit_at b j)

-- The words of the sectors that are not the map's are as they were.
abbrev pub Kept : (ℕ → Bool) → Words → Words → Type 0
Kept is_map words words' = (s i : ℕ) → is_map s ≡ false → words' s i ≡ words s i

-- bitmap_write writes to the sectors of the map's file only.
abbrev pub OnlyMap : Writer → (ℕ → Bool) → Type 0
OnlyMap bitmap_write is_map =
    (b : Bitmap) (words : Words) → Kept is_map words (bitmap_write b words).1

abbrev pub Allocates : Writer → FreeMap → Words → ℕ → (ℕ → Bool) → Type 0
Allocates bitmap_write f words cnt is_map =
    (r : Option ℕ) × (b : Bitmap) × (words' : Words) × (free_map_allocate bitmap_write f words cnt
      ≡ some (r, record f { map = b }, words'))
    × Allocated f.map cnt r b
    × Kept is_map words words'

-- free_map_allocate, for at least one sector and with a valid map, does not panic. It returns the
-- start of the first run of free sectors and marks exactly that run; or it returns false, where
-- there is no such run or the map's file could not be written, and every bit is as before. It writes
-- to no sector but those of the map's file.
pub free_map_allocate_lem :
    (bitmap_write : Writer) (is_map : ℕ → Bool) (f : FreeMap) (words : Words) (cnt : ℕ)
    → OnlyMap bitmap_write is_map
    → IsValid f.map
    → 0 < cnt
    → Allocates bitmap_write f words cnt is_map
unfolding free_map_allocate
free_map_allocate_lem bitmap_write is_map f words cnt only v pos =
    go (bitmap_scan_and_flip_lem f.map 0 cnt false v pos (omega arith)) (Bool-cases f.has_file)
  where
    go :
        (idx : ℕ) × (b : Bitmap) × (bitmap_scan_and_flip f.map 0 cnt false ≡ some (idx, b))
          × FlipResult f.map 0 cnt false idx b
        → (f.has_file ≡ true) ⊎ (f.has_file ≡ false)
        → Allocates bitmap_write f words cnt is_map
    go (idx, b, e, inr (err, absent, same_map)) _ =
        (none, b, words, rw (e, err), rw same_map (v, refl, λ j. refl), λ s i m. refl)
    go (idx, b, e, inl (ne, first, c)) (inr closed) =
        (some idx, b, words, rw (e, ==_ne idx bitmap_error ne, closed), (first, c), λ s i m. refl)
    go (idx, b, e, inl (ne, first, c)) (inl open_file) =
        elim (Bool-cases (bitmap_write b words).0) [
          | inl written ↦ (
            some idx,
            b,
            (bitmap_write b words).1,
            rw (e, ==_ne idx bitmap_error ne, open_file, written),
            (first, c),
            only b words,
          )
          | inr unwritten ↦
              let (b', e', d) =
                bitmap_set_multiple_lem b idx cnt false c.valid (omega (arith, c.size, first.to)) in
              (
                none,
                b',
                (bitmap_write b words).1,
                rw (e, ==_ne idx bitmap_error ne, open_file, unwritten, e'),
                (d.valid, d.size ∙ c.size, undo f.map b b' idx cnt first.run c d),
                only b words,
              )
        ]

-- A release of a run that is marked, in a valid map whose file is open, does not panic, clears exactly
-- that run and writes the map.
pub free_map_release_lem :
    (bitmap_write : Writer) (f : FreeMap) (words : Words) (sector cnt : ℕ)
    → IsValid f.map
    → f.has_file ≡ true
    → sector + cnt ≤ f.map.bit_cnt
    → Run f.map sector cnt true
    → (b : Bitmap) × (free_map_release bitmap_write f words sector cnt
        ≡ some (record f { map = b }, (bitmap_write b words).1))
      × Changed f.map (in_range sector cnt) false b
unfolding free_map_release bitmap_all
free_map_release_lem bitmap_write f words sector cnt v open_file h run =
    go (bitmap_contains_lem f.map sector cnt false v h)
  where
    go :
        (r : Bool) × (bitmap_contains f.map sector cnt false ≡ some r)
          × Contains f.map sector cnt false r
        → (b : Bitmap) × (free_map_release bitmap_write f words sector cnt
            ≡ some (record f { map = b }, (bitmap_write b words).1))
          × Changed f.map (in_range sector cnt) false b
    go (true, e, (j, lo, hi, off)) = absurd (cc (run j lo hi))
    go (false, e, c) =
        let (b, e', d) = bitmap_set_multiple_lem f.map sector cnt false v h in
        (b, rw (e, e', open_file), d)

-- free_map_init, with memory for the map of a device of at least two sectors, does not panic; the
-- map is valid, and of its sectors exactly those of the free map and of the root directory are in
-- use, so that no later allocation returns sector 0.
pub free_map_init_lem :
    (storage : List ℕ) (size : ℕ)
    → words_for size ≤ length storage
    → size < bitmap_error
    → 2 ≤ size
    → (f : FreeMap) × (free_map_init (some storage) size ≡ some f)
      × IsValid f.map
      × ((j : ℕ) → j < size → bit_at f.map j ≡ ltb j 2)
unfolding free_map_init
free_map_init_lem storage size h small two = go (bitmap_create_lem storage size h small)
  where
    second : (b : Bitmap) → b.bit_cnt ≡ size → 1 < (bitmap_mark b 0).bit_cnt
    second b n = omega (arith, size-mark b 0)

    go :
        (b : Bitmap) × (bitmap_create true (some storage) size ≡ some (some b))
          × IsValid b
          × (b.bit_cnt ≡ size)
          × ((j : ℕ) → j < size → bit_at b j ≡ false)
        → (f : FreeMap) × (free_map_init (some storage) size ≡ some f)
          × IsValid f.map
          × ((j : ℕ) → j < size → bit_at f.map j ≡ ltb j 2)
    go (b, e, v, n, off) =
        let v₁ = mark-IsValid b 0 v in
        (
          record { map = bitmap_mark (bitmap_mark b 0) 1; has_file = false },
          rw e,
          mark-IsValid (bitmap_mark b 0) 1 v₁,
          λ j p. ground (
            arith,
            bit_at-mark (bitmap_mark b 0) 1 j v₁ (second b n),
            bit_at-mark b 0 j v (omega (arith, n)),
            off j p,
          ),
        )
