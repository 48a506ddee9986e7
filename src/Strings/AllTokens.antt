-- ===== src/Strings/AllTokens.antt =====
-- string.c: the tokens of a text, by the loop that the comment above strtok_r shows.
use mathlib.Core.Path.{subst}
use buaa755os.Base.{
  ℕ, zero, suc, ◌+◌, ◌≤◌, ◌<◌, ◌≡◌, ◌≢◌, refl, Option, some, List, [], ◌∷◌, ==_ne, ◌⊎◌, arith, ap,
  ◌∙◌, sym, length,
}
use buaa755os.Strings.{Memory}
use buaa755os.Strings.Tokens.{strtok_r, all_tokens}
use buaa755os.Strings.Words.{Text, Text-same, drop_delimiters, token, drop_token}
use buaa755os.Strings.Split.{
  words, tail, words-drop_delimiters, words-token, words-tail, dropped, Kept, TokenResult,
  strtok_r_lem,
}

-- At each address is the string of the word.
abbrev pub WordsAt : Memory → List ℕ → List (List ℕ) → Type 0
WordsAt m [] [] = Unit
WordsAt m [] (w ∷ ws) = ⊥
WordsAt m (t ∷ ts) [] = ⊥
WordsAt m (t ∷ ts) (w ∷ ws) = Text m t w × WordsAt m ts ws

-- The string of delimiters is not within the text.
abbrev Away : ℕ → List ℕ → ℕ → List ℕ → Type 0
Away d ds p xs = (a : ℕ) → d ≤ a → a ≤ d + length ds → (a < p) ⊎ (p + length xs ≤ a)

-- The tokens are the words, and nothing outside the text changed.
abbrev pub AllTokens : Memory → ℕ → List ℕ → List (List ℕ) → Option (List ℕ × Memory) → Type 0
AllTokens m p xs ws r =
    (ts : List ℕ) × (m' : Memory) × (r ≡ some (ts, m'))
    × WordsAt m' ts ws
    × Kept m m' p (p + length xs)

-- The rest of the loop, from any text on that is short enough.
abbrev Later : ℕ → ℕ → ℕ → ℕ → List ℕ → Type 0
Later rounds chars fuel d ds =
    (m : Memory) (p : ℕ) (xs : List ℕ)
    → p ≢ 0
    → Text m d ds
    → Text m p xs
    → length xs < fuel
    → length xs < rounds
    → Away d ds p xs
    → AllTokens m p xs (words ds xs) (all_tokens rounds m chars fuel d 0 p)

round_lem :
    (rounds : ℕ) (m : Memory) (chars fuel d p : ℕ) (ds xs ys : List ℕ)
    → Later rounds chars fuel d ds
    → p ≢ 0
    → Text m d ds
    → length xs < fuel
    → length xs ≤ rounds
    → Away d ds p xs
    → drop_delimiters ds xs ≡ ys
    → TokenResult m ds p xs ys (strtok_r m chars fuel d 0 p)
    → AllTokens m p xs (words ds xs) (all_tokens (suc rounds) m chars fuel d 0 p)
unfolding all_tokens
round_lem rounds m chars fuel d p ds xs [] ih np td hf hr aw e (q, r) = (
  [],
  m,
  rw r refl,
  subst (WordsAt m []) (sym (words-drop_delimiters ds xs ∙ ap (words ds) e)) tt,
  (λ a o. refl),
)
round_lem rounds m chars fuel d p ds xs (y ∷ ys) ih np td hf hr aw e
      (t, q, m', r, tx, tr, k, l1, l2, l3, safe) =
    let (ts, m'', r', ws, k') =
      ih m' q (tail (drop_token ds ys)) (λ z. omega arith)
        (Text-same m m' d ds (λ a u v. k a (aw a u v)) td) tr (omega arith) (omega arith)
        (λ a u v. wider a (aw a u v)) in
    (
      t ∷ ts,
      m'',
      rw (r, r') refl,
      subst (WordsAt m'' (t ∷ ts)) (sym split)
          (Text-same m' m'' t (y ∷ token ds ys) (λ a u v. k' a (safe a u v)) tx, ws),
      (λ a o. k' a (wider a o) ∙ k a o),
    )
  where
    split : words ds xs ≡ (y ∷ token ds ys) ∷ words ds (tail (drop_token ds ys))
    split =
        words-drop_delimiters ds xs
        ∙ (ap (words ds) e
            ∙ (words-token ds y ys (dropped ds xs y ys e)
                ∙ ap (λ ws. (y ∷ token ds ys) ∷ ws) (words-tail ds ys)))

    wider :
        (a : ℕ)
        → (a < p) ⊎ (p + length xs ≤ a)
        → (a < q) ⊎ (q + length (tail (drop_token ds ys)) ≤ a)
    wider a o = ground arith

later_lem :
    (rounds chars fuel d : ℕ) (ds : List ℕ)
    → d ≢ 0
    → length ds < chars
    → Later rounds chars fuel d ds
unfolding all_tokens
later_lem zero chars fuel d ds nd hd m p xs np td t hf hr aw = absurd (omega arith)
later_lem (suc rounds) chars fuel d ds nd hd m p xs np td t hf hr aw =
    round_lem rounds m chars fuel d p ds xs (drop_delimiters ds xs)
      (λ m p xs np td t hf hr aw. later_lem rounds chars fuel d ds nd hd m p xs np td t hf hr aw) np
      td hf (omega arith) aw refl (strtok_r_lem m chars fuel d p ds xs nd np td hd t hf)

-- Let memory hold the text `xs` at `s` and the text `ds` of delimiters at `d`, neither at the null pointer,
-- the delimiters before or behind the text, and let the fuel be more than the lengths. Then calling
-- strtok_r until it returns null, first with `s` and then with null, ends, and the tokens are the words of
-- the text in their order: at each of them memory then holds the string of the word. Outside the
-- text nothing changes.
pub all_tokens_lem :
    (m : Memory) (chars fuel rounds d s save : ℕ) (ds xs : List ℕ)
    → d ≢ 0
    → s ≢ 0
    → Text m d ds
    → Text m s xs
    → length ds < chars
    → length xs < fuel
    → length xs < rounds
    → (d + length ds < s) ⊎ (s + length xs ≤ d)
    → AllTokens m s xs (words ds xs) (all_tokens rounds m chars fuel d s save)
unfolding all_tokens strtok_r
all_tokens_lem m chars fuel zero d s save ds xs nd ns td t hd hf hr aw = absurd (omega arith)
all_tokens_lem m chars fuel (suc rounds) d s save ds xs nd ns td t hd hf hr aw =
    rw (==_ne s 0 ns)
      (later_lem (suc rounds) chars fuel d ds nd hd m s xs ns td t hf hr (λ a u v. ground arith))
