-- ===== src/Strings/Tests.antt =====
-- string.c on a memory that holds "ABC" at 8 and "AB" at 20.
use buaa755os.Base.{ℕ, zero, suc, ◌+◌, ◌<◌, ◌≡◌, ◌≢◌, refl, some, inl, [], ◌∷◌, get_or, arith}
use buaa755os.Base.Int.{pos}
use buaa755os.Strings.{Memory, memmove, memchr, strcmp, strnlen}
use buaa755os.Strings.Move.{copied, memmove_lem}
use buaa755os.Strings.Copy.{IsString}
use buaa755os.Strings.Tokens.{all_tokens}
use buaa755os.Strings.Words.{Text}
use buaa755os.Strings.Split.{words}
use buaa755os.Strings.AllTokens.{AllTokens, all_tokens_lem}

abbrev memory : Memory
memory a =
    get_or
      (0 ∷ 0 ∷ 0 ∷ 0 ∷ 0 ∷ 0 ∷ 0 ∷ 0 ∷ 65 ∷ 66 ∷ 67 ∷ 0 ∷ 0 ∷ 0 ∷ 0 ∷ 0 ∷ 0 ∷ 0 ∷ 0 ∷ 0 ∷ 65 ∷ 66
        ∷ 0 ∷ [])
      a 0

three-IsString : IsString memory 8 3
three-IsString = record { bytes = bytes; ends = refl }
  where
    bytes : (i : ℕ) → i < 3 → memory (8 + i) ≢ 0
    bytes zero p = omega arith
    bytes (suc zero) p = omega arith
    bytes (suc (suc zero)) p = omega arith
    bytes (suc (suc (suc i))) p = absurd (omega arith)

two-IsString : IsString memory 20 2
two-IsString = record { bytes = bytes; ends = refl }
  where
    bytes : (i : ℕ) → i < 2 → memory (20 + i) ≢ 0
    bytes zero p = omega arith
    bytes (suc zero) p = omega arith
    bytes (suc (suc i)) p = absurd (omega arith)

compare_strings : strcmp memory 10 8 20 ≡ some (pos 1)
unfolding strcmp
compare_strings = refl

length_cut : strnlen memory 8 2 ≡ 2
unfolding strnlen
length_cut = refl

find_b : memchr memory 8 66 3 ≡ some (some 9)
unfolding memchr
find_b = refl

-- A copy one place down within a block.
memmove_example :
    (m' : Memory) × (memmove memory 7 8 3 ≡ some (10, m'))
    × ((a : ℕ) → m' a ≡ copied memory 7 8 3 a)
memmove_example = memmove_lem memory 7 8 3 (omega arith) (omega arith)

-- " ab  c" at 8, and " " at 4.
abbrev line : Memory
line a = get_or (0 ∷ 0 ∷ 0 ∷ 0 ∷ 32 ∷ 0 ∷ 0 ∷ 0 ∷ 32 ∷ 97 ∷ 98 ∷ 32 ∷ 32 ∷ 99 ∷ []) a 0

line-words : words (32 ∷ []) (32 ∷ 97 ∷ 98 ∷ 32 ∷ 32 ∷ 99 ∷ []) ≡ (97 ∷ 98 ∷ []) ∷ (99 ∷ []) ∷ []
line-words = refl

space-Text : Text line 4 (32 ∷ [])
space-Text = (refl, (λ e. omega arith), omega arith, refl)

line-Text : Text line 8 (32 ∷ 97 ∷ 98 ∷ 32 ∷ 32 ∷ 99 ∷ [])
line-Text = (
  refl,
  (λ e. omega arith),
  omega arith,
  (
    refl,
    (λ e. omega arith),
    omega arith,
    (
      refl,
      (λ e. omega arith),
      omega arith,
      (
        refl,
        (λ e. omega arith),
        omega arith,
        (refl, (λ e. omega arith), omega arith, (refl, (λ e. omega arith), omega arith, refl)),
      ),
    ),
  ),
)

all_tokens_example :
    AllTokens line 8
      (32 ∷ 97 ∷ 98 ∷ 32 ∷ 32 ∷ 99 ∷ [])
      ((97 ∷ 98 ∷ []) ∷ (99 ∷ []) ∷ [])
      (all_tokens 7 line 2 7 4 8 0)
all_tokens_example =
    all_tokens_lem line 2 7 7 4 8 0 (32 ∷ []) (32 ∷ 97 ∷ 98 ∷ 32 ∷ 32 ∷ 99 ∷ []) (λ e. omega arith)
      (λ e. omega arith) space-Text line-Text (omega arith) (omega arith) (omega arith)
      (inl (omega arith))
