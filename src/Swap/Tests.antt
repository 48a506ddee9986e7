-- ===== src/Swap/Tests.antt =====
-- swap.c on a device of five pages, of which the first and the third are in use.
use buaa755os.Base.{refl, [], ◌∷◌, arith}
use buaa755os.Bitmap.{Bitmap}
use buaa755os.Bitmap.Bits.{IsValid}
use buaa755os.Swap.{Swap}
use buaa755os.Swap.RoundTrip.{RoundTrip, swap_round_trip}

abbrev swap : Swap
swap = record { swap_map = record { bit_cnt = 5; bits = 5 ∷ [] }; device = λ s. s ∷ [] }

swap-IsValid : IsValid swap.swap_map
swap-IsValid = record { storage = omega arith; small = omega arith }

swap_round_trip_example : RoundTrip swap (λ i. i ∷ 7 ∷ []) (λ i. [])
unfolding buaa755os.Bitmap.Word.test_mask
swap_round_trip_example =
    swap_round_trip swap (λ i. i ∷ 7 ∷ []) (λ i. []) 1 swap-IsValid (omega arith) (omega arith) refl
