-- ===== src/Bitmap.antt =====
-- pintos_3/src/lib/kernel/bitmap.c: bit arrays over 32-bit elements.
pub mod Word
pub mod Bits
pub mod Scan
pub mod Alloc
pub mod InUse
mod Tests
use buaa755os.Base.{
  ℕ, zero, suc, ◌+◌, ◌-◌, ◌*◌, ◌/◌, ◌%◌, ◌^◌, Bool, true, false, not, Option, none, some, List, [],
  if◌then◌else◌, ltb, leb, ◌==◌, same, get_or, set, ◌>>=◌, ◌>>◌, assert,
}
use Word.{or_mask, and_not_mask, xor_mask, test_mask}

-- `elem_type` is `unsigned long`, 32 bits on the i386.
abbrev pub elem_bits : ℕ
elem_bits = 32

-- The modulus of `size_t`.
abbrev pub size_mod : ℕ
size_mod = 2 ^ 32

-- BITMAP_ERROR is SIZE_MAX.
abbrev pub bitmap_error : ℕ
bitmap_error = size_mod - 1

pub record Bitmap : Type 0 where
  pub bit_cnt : ℕ
  pub bits : List ℕ

abbrev pub elem_idx : ℕ → ℕ
elem_idx bit_idx = bit_idx / elem_bits

-- The mask is `1 << bit_mask`: a mask of one bit is kept as that bit's position.
abbrev pub bit_mask : ℕ → ℕ
bit_mask bit_idx = bit_idx % elem_bits

-- DIV_ROUND_UP (bit_cnt, ELEM_BITS), whose sum wraps.
abbrev pub elem_cnt : ℕ → ℕ
elem_cnt bit_cnt = (bit_cnt + elem_bits - 1) % 2 ^ 32 / elem_bits

abbrev pub byte_cnt : ℕ → ℕ
byte_cnt bit_cnt = 4 * elem_cnt bit_cnt

unfoldable pub bitmap_size : Bitmap → ℕ
bitmap_size b = b.bit_cnt

-- bits[idx] = f (bits[idx], mask), one instruction on memory.
abbrev pub update_elem : (ℕ → ℕ → ℕ) → Bitmap → ℕ → Bitmap
update_elem f b bit_idx =
    let idx = elem_idx bit_idx in
    record b { bits = set b.bits idx (f (get_or b.bits idx 0) (bit_mask bit_idx)) }

unfoldable pub bitmap_mark : Bitmap → ℕ → Bitmap
bitmap_mark b bit_idx = update_elem or_mask b bit_idx

unfoldable pub bitmap_reset : Bitmap → ℕ → Bitmap
bitmap_reset b bit_idx = update_elem and_not_mask b bit_idx

unfoldable pub bitmap_flip : Bitmap → ℕ → Bitmap
bitmap_flip b bit_idx = update_elem xor_mask b bit_idx

unfoldable pub bitmap_set : Bitmap → ℕ → Bool → Option Bitmap
unfolding bitmap_mark bitmap_reset
bitmap_set b idx value = do
  assert (ltb idx b.bit_cnt)
  some (if value then bitmap_mark b idx else bitmap_reset b idx)

unfoldable pub bitmap_test : Bitmap → ℕ → Option Bool
bitmap_test b idx = do
  assert (ltb idx b.bit_cnt)
  some (test_mask (get_or b.bits (elem_idx idx) 0) (bit_mask idx))

-- ASSERT (start <= b->bit_cnt); ASSERT (start + cnt <= b->bit_cnt), the sum in `size_t`.
abbrev pub assert_range : Bitmap → ℕ → ℕ → Option (Unit {0})
assert_range b start cnt = do
  assert (leb start b.bit_cnt)
  assert (leb ((start + cnt) % size_mod) b.bit_cnt)

-- The rounds left of the loop of bitmap_set_multiple, at bit `i`. A bit past `bit_cnt` stops the
-- kernel, so `i` never reaches the modulus.
unfoldable pub set_from : ℕ → Bitmap → ℕ → Bool → Option Bitmap
set_from zero b i value = some b
set_from (suc n) b i value = do b' ← bitmap_set b i value; set_from n b' (i + 1) value

unfoldable pub bitmap_set_multiple : Bitmap → ℕ → ℕ → Bool → Option Bitmap
unfolding set_from
bitmap_set_multiple b start cnt value = do assert_range b start cnt; set_from cnt b start value

unfoldable pub bitmap_set_all : Bitmap → Bool → Option Bitmap
unfolding bitmap_set_multiple bitmap_size
bitmap_set_all b value = bitmap_set_multiple b 0 (bitmap_size b) value

-- The outer option is the panic, the inner one the null pointer. `has_struct` says whether the
-- first malloc succeeds, and `storage` is the memory that the second returns, with what it holds.
unfoldable pub bitmap_create : Bool → Option (List ℕ) → ℕ → Option (Option Bitmap)
unfolding bitmap_set_all
bitmap_create false storage bit_cnt = some none
bitmap_create true (some bits) bit_cnt = do
  b ← bitmap_set_all (record { bit_cnt = bit_cnt; bits = bits }) false
  some (some b)
bitmap_create true none bit_cnt =
    if bit_cnt == 0
    then (bitmap_set_all (record { bit_cnt = bit_cnt; bits = [] }) false >>= λ b. some (some b))
    else some none

-- sizeof (struct bitmap) is 8.
unfoldable pub bitmap_buf_size : ℕ → ℕ
bitmap_buf_size bit_cnt = 8 + byte_cnt bit_cnt

-- `bits` is what the block holds behind the structure.
unfoldable pub bitmap_create_in_buf : ℕ → List ℕ → ℕ → Option Bitmap
unfolding bitmap_set_all bitmap_buf_size
bitmap_create_in_buf bit_cnt bits block_size = do
  assert (leb (bitmap_buf_size bit_cnt) block_size)
  bitmap_set_all (record { bit_cnt = bit_cnt; bits = bits }) false

-- The rounds left of the loop of bitmap_count, at bit `i`.
unfoldable pub count_from : ℕ → Bitmap → ℕ → Bool → ℕ → Option ℕ
count_from zero b i value value_cnt = some value_cnt
count_from (suc n) b i value value_cnt = do
  bit ← bitmap_test b i
  count_from n b (i + 1) value (if same bit value then value_cnt + 1 else value_cnt)

unfoldable pub bitmap_count : Bitmap → ℕ → ℕ → Bool → Option ℕ
unfolding count_from
bitmap_count b start cnt value = do assert_range b start cnt; count_from cnt b start value 0

-- The rounds left of the loop of bitmap_contains, at bit `i`.
unfoldable pub contains_from : ℕ → Bitmap → ℕ → Bool → Option Bool
contains_from zero b i value = some false
contains_from (suc n) b i value = do
  bit ← bitmap_test b i
  let rest = contains_from n b (i + 1) value
  if same bit value then some true else rest

unfoldable pub bitmap_contains : Bitmap → ℕ → ℕ → Bool → Option Bool
unfolding contains_from
bitmap_contains b start cnt value = do assert_range b start cnt; contains_from cnt b start value

unfoldable pub bitmap_any : Bitmap → ℕ → ℕ → Option Bool
unfolding bitmap_contains
bitmap_any b start cnt = bitmap_contains b start cnt true

unfoldable pub bitmap_none : Bitmap → ℕ → ℕ → Option Bool
unfolding bitmap_contains
bitmap_none b start cnt = bitmap_contains b start cnt true >>= λ c. some (not c)

unfoldable pub bitmap_all : Bitmap → ℕ → ℕ → Option Bool
unfolding bitmap_contains
bitmap_all b start cnt = bitmap_contains b start cnt false >>= λ c. some (not c)

-- The rounds left of the loop of bitmap_scan, at bit `i`: `last + 1 - i` of them.
unfoldable pub scan_from : ℕ → Bitmap → ℕ → ℕ → Bool → Option ℕ
scan_from zero b i cnt value = some bitmap_error
scan_from (suc n) b i cnt value = do
  other ← bitmap_contains b i cnt (not value)
  let rest = scan_from n b (i + 1) cnt value
  if other then rest else some i

unfoldable pub bitmap_scan : Bitmap → ℕ → ℕ → Bool → Option ℕ
unfolding scan_from
bitmap_scan b start cnt value = do
  assert (leb start b.bit_cnt)
  (if leb cnt b.bit_cnt
      then scan_from (b.bit_cnt - cnt + 1 - start) b start cnt value
      else some bitmap_error)

unfoldable pub bitmap_scan_and_flip : Bitmap → ℕ → ℕ → Bool → Option (ℕ × Bitmap)
unfolding bitmap_scan bitmap_set_multiple
bitmap_scan_and_flip b start cnt value = do
  idx ← bitmap_scan b start cnt value
  (if idx == bitmap_error
      then some (idx, b)
      else (bitmap_set_multiple b idx cnt (not value) >>= λ b'. some (idx, b')))

-- bitmap_file_size
unfoldable pub bitmap_file_size : Bitmap → ℕ
bitmap_file_size b = byte_cnt b.bit_cnt
