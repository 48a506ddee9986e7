-- ===== src/Strings.antt =====
-- pintos_3/src/lib/string.c, on memory as a function from addresses to bytes. Address 0 is the null
-- pointer. A loop that runs to the end of a string recurs on fuel, and is `none` without enough.
pub mod Blocks
pub mod Move
pub mod Copy
pub mod Compare
pub mod Tokens
pub mod Words
pub mod Split
pub mod AllTokens
pub mod Spans
mod Tests
use buaa755os.Base.{
  ℕ, zero, suc, ◌+◌, ◌-◌, ◌%◌, ◌^◌, Bool, true, false, not, ◌&&◌, ◌||◌, Option, none, some, update,
  if◌then◌else◌, ltb, ◌==◌, ◌>>=◌, ◌>>◌, assert,
}
use buaa755os.Base.Int.{ℤ, pos, negsuc}

abbrev pub Memory : Type 0
Memory = ℕ → ℕ

-- ASSERT (p != NULL || size == 0)
abbrev pub is_block : ℕ → ℕ → Bool
is_block p size = not (p == 0) || size == 0

-- The loop of memcpy, and that of memmove towards higher addresses.
unfoldable pub copy_up : Memory → ℕ → ℕ → ℕ → Memory
copy_up m dst src zero = m
copy_up m dst src (suc size) = copy_up (update m dst (m src)) (dst + 1) (src + 1) size

-- The loop of memmove towards lower addresses.
unfoldable pub copy_down : Memory → ℕ → ℕ → ℕ → Memory
copy_down m dst src zero = m
copy_down m dst src (suc size) =
    copy_down (update m (dst - 1) (m (src - 1))) (dst - 1) (src - 1) size

-- The result of a function that writes is the pointer that it returns, and the memory.
unfoldable pub memcpy : Memory → ℕ → ℕ → ℕ → Option (ℕ × Memory)
unfolding copy_up
memcpy m dst src size =
    assert (is_block dst size) >> (assert (is_block src size) >> some (dst, copy_up m dst src size))

unfoldable pub memmove : Memory → ℕ → ℕ → ℕ → Option (ℕ × Memory)
unfolding copy_up copy_down
memmove m dst src size =
    assert (is_block dst size)
    >> (assert (is_block src size)
        >> (if ltb dst src
            then some (dst + size, copy_up m dst src size)
            else some (dst, copy_down m (dst + size) (src + size) size)))

-- The loop of memset; a byte keeps the low eight bits.
unfoldable pub set_up : Memory → ℕ → ℕ → ℕ → Memory
set_up m dst value zero = m
set_up m dst value (suc size) = set_up (update m dst (value % 2 ^ 8)) (dst + 1) value size

unfoldable pub memset : Memory → ℕ → ℕ → ℕ → Option (ℕ × Memory)
unfolding set_up
memset m dst value size = assert (is_block dst size) >> some (dst, set_up m dst value size)

-- The loop of memcmp.
unfoldable pub compare_blocks : Memory → ℕ → ℕ → ℕ → ℤ
compare_blocks m a b zero = pos 0
compare_blocks m a b (suc size) =
    if m a == m b
    then compare_blocks m (a + 1) (b + 1) size
    else (if ltb (m b) (m a) then pos 1 else negsuc 0)

unfoldable pub memcmp : Memory → ℕ → ℕ → ℕ → Option ℤ
unfolding compare_blocks
memcmp m a b size =
    assert (is_block a size) >> (assert (is_block b size) >> some (compare_blocks m a b size))

-- The loop of memchr. A null pointer is `none`.
unfoldable pub find_byte : Memory → ℕ → ℕ → ℕ → Option ℕ
find_byte m block ch zero = none
find_byte m block ch (suc size) =
    if m block == ch then some block else find_byte m (block + 1) ch size

unfoldable pub memchr : Memory → ℕ → ℕ → ℕ → Option (Option ℕ)
unfolding find_byte
memchr m block ch size = assert (is_block block size) >> some (find_byte m block (ch % 2 ^ 8) size)

-- The loop of strlen, which ends at the terminator.
unfoldable pub find_end : Memory → ℕ → ℕ → Option ℕ
find_end m zero p = none
find_end m (suc fuel) p = if m p == 0 then some p else find_end m fuel (p + 1)

unfoldable pub strlen : Memory → ℕ → ℕ → Option ℕ
unfolding find_end
strlen m fuel string =
    assert (not (string == 0)) >> (find_end m fuel string >>= λ p. some (p - string))

-- The loop of strnlen, `left` places before maxlen.
unfoldable pub length_within : Memory → ℕ → ℕ → ℕ → ℕ
length_within m string length zero = length
length_within m string length (suc left) =
    if m (string + length) == 0 then length else length_within m string (length + 1) left

unfoldable pub strnlen : Memory → ℕ → ℕ → ℕ
unfolding length_within
strnlen m string maxlen = length_within m string 0 maxlen

-- The loop of strcmp, up to where the strings differ or end.
unfoldable pub find_difference : Memory → ℕ → ℕ → ℕ → Option (ℕ × ℕ)
find_difference m zero a b = none
find_difference m (suc fuel) a b =
    if not (m a == 0) && m a == m b then find_difference m fuel (a + 1) (b + 1) else some (a, b)

unfoldable pub strcmp : Memory → ℕ → ℕ → ℕ → Option ℤ
unfolding find_difference
strcmp m fuel a b =
    assert (not (a == 0))
    >> (assert (not (b == 0))
        >> (find_difference m fuel a b >>= λ r. some (
            if ltb (m r.0) (m r.1)
            then negsuc 0
            else if ltb (m r.1) (m r.0)
            then pos 1
            else pos 0)))

unfoldable pub strlcpy : Memory → ℕ → ℕ → ℕ → ℕ → Option (ℕ × Memory)
strlcpy m fuel dst src size =
    assert (not (dst == 0))
    >> (assert (not (src == 0))
        >> (strlen m fuel src >>= λ src_len.
            if size == 0
            then some (src_len, m)
            else (let dst_len = if ltb src_len (size - 1) then src_len else size - 1 in
                memcpy m dst src dst_len >>= λ r. some (src_len, update r.1 (dst + dst_len) 0))))

unfoldable pub strlcat : Memory → ℕ → ℕ → ℕ → ℕ → Option (ℕ × Memory)
strlcat m fuel dst src size =
    assert (not (dst == 0))
    >> (assert (not (src == 0))
        >> (strlen m fuel src >>= λ src_len. strlen m fuel dst >>= λ dst_len.
            if ltb dst_len size
            then (let copy_cnt =
                  if ltb src_len (size - dst_len - 1) then src_len else size - dst_len - 1 in
                memcpy m (dst + dst_len) src copy_cnt >>= λ r.
                some (src_len + dst_len, update r.1 (dst + dst_len + copy_cnt) 0))
            else some (src_len + dst_len, m)))
