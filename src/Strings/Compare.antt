-- ===== src/Strings/Compare.antt =====
-- string.c: strcmp, against memcmp.
use buaa755os.Base.{
  ℕ, zero, suc, ◌+◌, ◌<◌, ◌≡◌, ◌≢◌, Option, some, if◌then◌else◌, ltb, ◌==◌, ==_ne, ◌>>=◌, inl, inr,
  arith, ap, ◌∙◌, Bool-cases,
}
use buaa755os.Base.Int.{ℤ, pos, negsuc}
use buaa755os.Strings.{Memory, compare_blocks, memcmp, find_difference, strcmp}
use buaa755os.Strings.Copy.{IsString}

-- What strcmp returns for the places where its loop stopped.
abbrev sign : Memory → ℕ × ℕ → Option ℤ
sign m r =
    some (if ltb (m r.0) (m r.1) then negsuc 0 else if ltb (m r.1) (m r.0) then pos 1 else pos 0)

find_difference_lem :
    (m : Memory) (fuel a b n : ℕ)
    → IsString m a n
    → n < fuel
    → (find_difference m fuel a b >>= sign m) ≡ some (compare_blocks m a b (suc n))
unfolding find_difference compare_blocks
find_difference_lem m zero a b n s h = absurd (omega arith)
find_difference_lem m (suc fuel) a b zero s h =
    let e : m a ≡ 0 = ap m (omega arith) ∙ s.ends in ground arith
find_difference_lem m (suc fuel) a b (suc n) s h =
    let ne : m a ≢ 0 = λ e. s.bytes 0 (omega arith) (ap m (omega arith) ∙ e) in
    elim (Bool-cases (m a == m b)) [
      | inl same ↦
          rw (==_ne (m a) 0 ne, same)
            (find_difference_lem m fuel (a + 1) (b + 1) n
              (record {
                bytes = λ i q e. s.bytes (suc i) (omega arith) (ap m (omega arith) ∙ e);
                ends = ap m (omega arith) ∙ s.ends;
              })
              (omega arith))
      | inr differ ↦ rw (==_ne (m a) 0 ne, differ) (ground arith)
    ]

-- strcmp of a string with the bytes from any other place on, with enough fuel, is memcmp of the
-- bytes of the first string, its terminator included.
pub strcmp_lem :
    (m : Memory) (fuel a b n : ℕ)
    → a ≢ 0
    → b ≢ 0
    → IsString m a n
    → n < fuel
    → strcmp m fuel a b ≡ memcmp m a b (suc n)
unfolding strcmp memcmp
strcmp_lem m fuel a b n na nb s h =
    rw (==_ne a 0 na, ==_ne b 0 nb) (find_difference_lem m fuel a b n s h)
