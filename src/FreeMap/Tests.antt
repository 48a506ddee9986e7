-- ===== src/FreeMap/Tests.antt =====
-- free-map.c on a device of eight sectors, of which 0, 1 and 4 are in use.
use buaa755os.Base.{
  ℕ, zero, suc, ◌≡◌, refl, Bool, true, false, none, some, List, [], ◌∷◌, arith, update, get_or,
}
use buaa755os.Bitmap.{Bitmap}
use buaa755os.Bitmap.Bits.{IsValid}
use buaa755os.Bitmap.Scan.{Run}
use buaa755os.FreeMap.{Words, Writer, FreeMap, free_map_allocate, free_map_release}

abbrev device : FreeMap
device = record { map = record { bit_cnt = 8; bits = 19 ∷ [] }; has_file = true }

abbrev taken : FreeMap
taken = record { map = record { bit_cnt = 8; bits = 31 ∷ [] }; has_file = true }

device-IsValid : IsValid device.map
device-IsValid = record { storage = omega arith; small = omega arith }

abbrev no_words : Words
no_words s i = 0

-- It writes the map's bits to sector 4, or fails after that.
abbrev writes_map : Bool → Writer
writes_map success b words = (success, update words 4 (λ i. get_or b.bits i 0))

abbrev map_words : List ℕ → Words
map_words bits = update no_words 4 (λ i. get_or bits i 0)

allocate_two :
    free_map_allocate (writes_map true) device no_words 2
    ≡ some (some 2, taken, map_words (31 ∷ []))
unfolding free_map_allocate buaa755os.Bitmap.bitmap_scan_and_flip buaa755os.Bitmap.bitmap_contains
    buaa755os.Bitmap.bitmap_test buaa755os.Bitmap.Word.test_mask buaa755os.Bitmap.bitmap_set
    buaa755os.Bitmap.Word.or_mask
allocate_two = refl

-- The map's file could not be written: the bits are free again.
allocate_unwritten :
    free_map_allocate (writes_map false) device no_words 2
    ≡ some (none, device, map_words (31 ∷ []))
unfolding free_map_allocate buaa755os.Bitmap.bitmap_scan_and_flip buaa755os.Bitmap.bitmap_contains
    buaa755os.Bitmap.bitmap_test buaa755os.Bitmap.Word.test_mask buaa755os.Bitmap.bitmap_set
    buaa755os.Bitmap.Word.and_not_mask buaa755os.Bitmap.Word.or_mask
allocate_unwritten = refl

-- A release of a sector that is free panics.
release_free : free_map_release (writes_map true) device no_words 2 1 ≡ none
unfolding free_map_release buaa755os.Bitmap.bitmap_all buaa755os.Bitmap.bitmap_test
    buaa755os.Bitmap.Word.test_mask
release_free = refl

first_two : Run device.map 0 2 true
unfolding buaa755os.Bitmap.Word.test_mask
first_two zero p q = refl
first_two (suc zero) p q = refl
first_two (suc (suc j)) p q = absurd (omega arith)
