-- ===== src/Strings/Split.antt =====
-- string.c: strtok_r, and the tokens that calling it again and again finds.
use mathlib.Core.Path.{subst}
use buaa755os.Base.{
  ℕ, ◌+◌, ◌≤◌, ◌<◌, ◌≡◌, ◌≢◌, refl, Bool, true, false, not, Option, none, some, List, [], ◌∷◌,
  update, update_self, update_ne, if◌then◌else◌, ==_ne, inl, inr, ◌⊎◌, arith, ap, ◌∙◌, sym,
  Bool-cases, length,
}
use buaa755os.Strings.{Memory}
use buaa755os.Strings.Tokens.{end_token, take_token, strtok_r}
use buaa755os.Strings.Words.{
  Part, Text, Part-Text, Text-same, Part-same, is_delimiter, drop_delimiters, token, drop_token,
  token_at, skip_delimiters_lem, skip_token_lem,
}

-- A character before words: it starts the first of them, or is a word of its own.
abbrev pub join : Bool → ℕ → List (List ℕ) → List (List ℕ)
join true x [] = (x ∷ []) ∷ []
join true x (w ∷ ws) = (x ∷ w) ∷ ws
join false x ws = (x ∷ []) ∷ ws

-- The text goes on with a character of a word.
abbrev pub goes_on : List ℕ → List ℕ → Bool
goes_on ds [] = false
goes_on ds (x ∷ xs) = not (is_delimiter ds x)

-- The words of a text: its longest parts without delimiters.
abbrev pub words : List ℕ → List ℕ → List (List ℕ)
words ds [] = []
words ds (x ∷ xs) = if is_delimiter ds x then words ds xs else join (goes_on ds xs) x (words ds xs)

pub words-drop_delimiters : (ds xs : List ℕ) → words ds xs ≡ words ds (drop_delimiters ds xs)
words-drop_delimiters ds [] = refl
words-drop_delimiters ds (x ∷ xs) = elim (Bool-cases (is_delimiter ds x)) [
  | inl e ↦ rw e (words-drop_delimiters ds xs)
  | inr e ↦ rw (e, e) refl
]

abbrev pub tail : List ℕ → List ℕ
tail [] = []
tail (x ∷ xs) = xs

pub words-token :
    (ds : List ℕ) (y : ℕ) (ys : List ℕ)
    → is_delimiter ds y ≡ false
    → words ds (y ∷ ys) ≡ (y ∷ token ds ys) ∷ words ds (drop_token ds ys)
words-token ds y [] e = rw e refl
words-token ds y (z ∷ zs) e = elim (Bool-cases (is_delimiter ds z)) [
  | inl q ↦ rw (e, q, q) refl
  | inr q ↦
      rw (e, q)
        (ap (join true y) {y = (z ∷ token ds zs) ∷ words ds (drop_token ds zs)}
          (sym (rw q refl) ∙ words-token ds z zs q))
]

pub words-tail : (ds ys : List ℕ) → words ds (drop_token ds ys) ≡ words ds (tail (drop_token ds ys))
words-tail ds [] = refl
words-tail ds (y ∷ ys) = elim (Bool-cases (is_delimiter ds y)) [
  | inl e ↦ rw (e, e) refl
  | inr e ↦ rw e (words-tail ds ys)
]

-- What drop_delimiters leaves starts with a word.
pub dropped :
    (ds xs : List ℕ) (y : ℕ) (ys : List ℕ)
    → drop_delimiters ds xs ≡ y ∷ ys
    → is_delimiter ds y ≡ false
dropped ds [] y ys e = absurd cc
dropped ds (x ∷ xs) y ys e = elim (Bool-cases (is_delimiter ds x)) [
  | inl q ↦
      dropped ds xs y ys (subst (λ b. (if b then drop_delimiters ds xs else x ∷ xs) ≡ y ∷ ys) q e)
  | inr q ↦ same (subst (λ b. (if b then drop_delimiters ds xs else x ∷ xs) ≡ y ∷ ys) q e) q
]
  where
    same : x ∷ xs ≡ y ∷ ys → is_delimiter ds x ≡ false → is_delimiter ds y ≡ false
    same e q = cc

-- Outside the addresses from `p` to before `q` the memories agree.
abbrev pub Kept : Memory → Memory → ℕ → ℕ → Type 0
Kept m m' p q = (a : ℕ) → (a < p) ⊎ (q ≤ a) → m' a ≡ m a

-- What strtok_r does to the text at `p`, `ys` being the text without the delimiters it starts with.
abbrev pub TokenResult :
    Memory → List ℕ → ℕ → List ℕ → List ℕ → Option (Option ℕ × ℕ × Memory) → Type 0
TokenResult m ds p xs [] r = (q : ℕ) × (r ≡ some (none, q, m))
TokenResult m ds p xs (y ∷ ys) r =
    (t q : ℕ) × (m' : Memory) × (r ≡ some (some t, q, m'))
    × Text m' t (y ∷ token ds ys)
    × Text m' q (tail (drop_token ds ys))
    × Kept m m' p (p + length xs)
    × (p ≤ q)
    × (q + length (tail (drop_token ds ys)) ≤ p + length xs)
    × (length (tail (drop_token ds ys)) < length xs)
    × ((a : ℕ)
        → t ≤ a
        → a ≤ t + length (y ∷ token ds ys)
        → (a < q) ⊎ (q + length (tail (drop_token ds ys)) ≤ a))

-- The end of a token `w` at `t`, when the text goes on with `z` at `s` up to `end`.
abbrev EndResult :
    Memory → ℕ → ℕ → ℕ → List ℕ → List ℕ → ℕ → Option (Option ℕ × ℕ × Memory) → Type 0
EndResult m p end t w z n r =
    (q : ℕ) × (m' : Memory) × (r ≡ some (some t, q, m'))
    × Text m' t w
    × Text m' q (tail z)
    × Kept m m' p end
    × (p ≤ q)
    × (q + length (tail z) ≤ end)
    × (length (tail z) < n)
    × ((a : ℕ) → t ≤ a → a ≤ t + length w → (a < q) ⊎ (q + length (tail z) ≤ a))

end_token_lem :
    (m : Memory) (p end t s n : ℕ) (w z : List ℕ)
    → Part m t w
    → Text m s z
    → s ≡ t + length w
    → p ≤ t
    → 0 < length w
    → length w + length z ≤ n
    → s + length z ≡ end
    → EndResult m p end t w z n (some (end_token m t s))
end_token_lem m p end t s n w [] pt ts e le pw ln len = (
  s,
  m,
  rw ts refl,
  Part-Text m t w pt (ap m (sym e) ∙ ts),
  ts,
  (λ a o. refl),
  omega arith,
  omega arith,
  omega arith,
  (λ a u v. inr_le s a),
)
  where
    inr_le : (s a : ℕ) → (a < s) ⊎ (s + 0 ≤ a)
    inr_le s a = ground arith
end_token_lem m p end t s n w (c ∷ z) pt (q, nc, l, ts) e le pw ln len = (
  s + 1,
  update m s 0,
  rw (q, ==_ne c 0 nc) refl,
  Part-Text (update m s 0) t w
      (Part-same m (update m s 0) t w (λ a u v. update_ne m s a 0 (λ x. omega arith)) pt)
      (ap (update m s 0) (sym e) ∙ update_self m s 0),
  Text-same m (update m s 0) (s + 1) z (λ a u v. update_ne m s a 0 (λ x. omega arith)) ts,
  (λ a o. update_ne m s a 0 (λ x. ground arith)),
  omega arith,
  omega arith,
  omega arith,
  (λ a u v. inl (omega arith)),
)

take_token_lem :
    (m : Memory) (chars fuel d p t : ℕ) (ds xs : List ℕ) (y : ℕ) (ys : List ℕ)
    → d ≢ 0
    → Text m d ds
    → length ds < chars
    → Text m t (y ∷ ys)
    → length (y ∷ ys) < fuel
    → is_delimiter ds y ≡ false
    → p ≤ t
    → t + length (y ∷ ys) ≡ p + length xs
    → TokenResult m ds p xs (y ∷ ys) (take_token m chars fuel d (some t, t))
take_token_lem m chars fuel d p t ds xs y ys nd td hd tt' h e le len =
    let (s, f, se, pt, ts, sl) = skip_token_lem m chars fuel d t ds (y ∷ ys) nd td hd tt' h in
    let tok : token ds (y ∷ ys) ≡ y ∷ token ds ys = rw e refl in
    let rest : drop_token ds (y ∷ ys) ≡ drop_token ds ys = rw e refl in
    let (q, m', r, tx, tr, k, l1, l2, l3, safe) =
      end_token_lem m p (p + length xs) t s (length xs) (y ∷ token ds ys) (drop_token ds ys)
        (subst (Part m t) tok pt) (subst (Text m s) rest ts) (se ∙ ap (λ w. t + length w) tok) le
        (omega arith) (omega (arith, se, ap length tok, sl, ap length rest, len, le))
        (ap (λ z. s + length z) (sym rest) ∙ (sl ∙ len)) in
    (t, q, m', rw f r, tx, tr, k, l1, l2, l3, safe)

pub strtok_r_lem :
    (m : Memory) (chars fuel d p : ℕ) (ds xs : List ℕ)
    → d ≢ 0
    → p ≢ 0
    → Text m d ds
    → length ds < chars
    → Text m p xs
    → length xs < fuel
    → TokenResult m ds p xs (drop_delimiters ds xs) (strtok_r m chars fuel d 0 p)
unfolding strtok_r
strtok_r_lem m chars fuel d p ds xs nd np td hd t h =
    let (s, f, ts, le, len) = skip_delimiters_lem m chars fuel d p ds xs nd td hd t h in
    rw (==_ne d 0 nd, ==_ne p 0 np, f) (go (drop_delimiters ds xs) refl s ts le len)
  where
    go :
        (ys : List ℕ)
        → drop_delimiters ds xs ≡ ys
        → (s : ℕ) → Text m s ys
        → p ≤ s
        → s + length ys ≡ p + length xs
        → TokenResult m ds p xs ys (take_token m chars fuel d (token_at ys s, s))
    go [] e s ts le len = (s, refl)
    go (y ∷ ys) e s ts le len =
        take_token_lem m chars fuel d p s ds xs y ys nd td hd ts (omega arith)
          (dropped ds xs y ys e) le len
