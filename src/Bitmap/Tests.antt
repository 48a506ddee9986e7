-- ===== src/Bitmap/Tests.antt =====
-- bitmap.c on a bitmap of forty bits, of which 0, 1, 3 and 33 are set.
use buaa755os.Base.{ℕ, ◌≡◌, refl, true, false, none, some, [], ◌∷◌, arith}
use buaa755os.Bitmap.{
  Bitmap, bitmap_create, bitmap_flip, bitmap_set, bitmap_set_multiple, bitmap_count,
  bitmap_contains, bitmap_scan, bitmap_scan_and_flip, bitmap_test, set_from, contains_from,
  scan_from, count_from, bitmap_mark, bitmap_reset, bitmap_error,
}
use buaa755os.Bitmap.Bits.{IsValid}
use buaa755os.Bitmap.Alloc.{FlipResult, bitmap_scan_and_flip_lem}

abbrev forty : Bitmap
forty = record { bit_cnt = 40; bits = 11 ∷ 2 ∷ [] }

forty-IsValid : IsValid forty
forty-IsValid = record { storage = omega arith; small = omega arith }

-- The first two free bits in a row are 4 and 5.
scan_two : bitmap_scan forty 0 2 false ≡ some 4
unfolding bitmap_scan bitmap_contains bitmap_test buaa755os.Bitmap.Word.test_mask
scan_two = refl

-- The only set run of two bits after bit 1 would be further on: there is none.
scan_none : bitmap_scan forty 1 2 true ≡ some bitmap_error
unfolding bitmap_scan bitmap_contains bitmap_test buaa755os.Bitmap.Word.test_mask
scan_none = refl

flip_two :
    bitmap_scan_and_flip forty 0 2 false ≡ some (4, record { bit_cnt = 40; bits = 59 ∷ 2 ∷ [] })
unfolding bitmap_scan_and_flip bitmap_contains bitmap_test buaa755os.Bitmap.Word.test_mask
    bitmap_set buaa755os.Bitmap.Word.or_mask
flip_two = refl

count_set : bitmap_count forty 0 6 true ≡ some 3
unfolding bitmap_count bitmap_test buaa755os.Bitmap.Word.test_mask
count_set = refl

-- A bit behind the last one panics.
test_outside : bitmap_test forty 40 ≡ none
unfolding bitmap_test
test_outside = refl

bitmap_scan_and_flip_example :
    (idx : ℕ) × (b : Bitmap) × (bitmap_scan_and_flip forty 0 2 false ≡ some (idx, b))
    × FlipResult forty 0 2 false idx b
bitmap_scan_and_flip_example =
    bitmap_scan_and_flip_lem forty 0 2 false forty-IsValid (omega arith) (omega arith)
