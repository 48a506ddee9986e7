-- ===== src/Palloc/Tests.antt =====
-- palloc.c on two pools of eight pages, of which the kernel's pages 0, 1 and 4 are in use.
use buaa755os.Base.{zero, suc, ◌≡◌, refl, true, false, none, some, [], ◌∷◌, arith}
use buaa755os.Bitmap.{Bitmap}
use buaa755os.Bitmap.Scan.{Run}
use buaa755os.Palloc.{
  Pool, Pools, PallocFlags, palloc_get_multiple, palloc_get_page, palloc_free_multiple,
  palloc_free_page, palloc_init,
}
use buaa755os.Palloc.Pages.{ArePools, GetResult, palloc_get_lem}
use buaa755os.Palloc.RoundTrip.{GivenBack, get_free}

abbrev pools : Pools
pools = record {
  kernel_pool = record { used_map = record { bit_cnt = 8; bits = 19 ∷ [] }; base = 4096 };
  user_pool = record { used_map = record { bit_cnt = 8; bits = 0 ∷ [] }; base = 65536 };
  memory = λ a. 7;
}

abbrev taken : Pools
taken = record pools {
  kernel_pool = record { used_map = record { bit_cnt = 8; bits = 31 ∷ [] }; base = 4096 };
}

abbrev kernel_flags : PallocFlags
kernel_flags = record { pal_assert = true; pal_zero = false; pal_user = false }

abbrev user_flags : PallocFlags
user_flags = record { pal_assert = false; pal_zero = true; pal_user = true }

pools-ArePools : ArePools pools
pools-ArePools = record {
  kernel = record {
    valid = record { storage = omega arith; small = omega arith };
    aligned = refl;
    above = omega arith;
    below = omega arith;
  };
  user = record {
    valid = record { storage = omega arith; small = omega arith };
    aligned = refl;
    above = omega arith;
    below = omega arith;
  };
  apart = omega arith;
}

-- The first two free pages of the kernel pool are 2 and 3.
get_two : palloc_get_multiple kernel_flags pools 2 ≡ some (12288, taken)
unfolding palloc_get_multiple buaa755os.Bitmap.bitmap_scan_and_flip buaa755os.Bitmap.bitmap_contains
    buaa755os.Bitmap.bitmap_test buaa755os.Bitmap.Word.test_mask buaa755os.Bitmap.bitmap_set
    buaa755os.Palloc.got_pages buaa755os.Bitmap.Word.or_mask
get_two = refl

-- Nine pages are more than the pool has: PAL_ASSERT makes that a panic.
get_nine : palloc_get_multiple kernel_flags pools 9 ≡ none
unfolding palloc_get_multiple buaa755os.Bitmap.bitmap_scan_and_flip buaa755os.Palloc.got_pages
get_nine = refl

get_nine_user : palloc_get_multiple user_flags pools 9 ≡ some (0, pools)
unfolding palloc_get_multiple buaa755os.Bitmap.bitmap_scan_and_flip buaa755os.Palloc.got_pages
get_nine_user = refl

-- A page that is free cannot be freed, nor can an address inside a page.
free_twice : palloc_free_page pools 12288 ≡ none
unfolding palloc_free_page buaa755os.Palloc.page_from_pool buaa755os.Palloc.free_in
    buaa755os.Bitmap.bitmap_all buaa755os.Bitmap.bitmap_test buaa755os.Bitmap.Word.test_mask
free_twice = refl

free_inside : palloc_free_page pools 4100 ≡ none
unfolding palloc_free_page
free_inside = refl

first_two : Run pools.kernel_pool.used_map 0 2 true
unfolding buaa755os.Bitmap.Word.test_mask
first_two zero p q = refl
first_two (suc zero) p q = refl
first_two (suc (suc j)) p q = absurd (omega arith)

palloc_get_example : GetResult user_flags pools 3
palloc_get_example = palloc_get_lem user_flags pools 3 pools-ArePools (omega arith)

get_free_example : GivenBack false pools 12288 2 taken
get_free_example =
    get_free kernel_flags pools 2 12288 pools-ArePools (omega arith) get_two (omega arith)
