-- ===== src/Strings/Words.antt =====
-- string.c: the words of a text, and what the searches of strtok_r find in it.
use buaa755os.Base.{
  ℕ, zero, suc, ◌+◌, ◌%◌, ◌≤◌, ◌<◌, ◌≡◌, ◌≢◌, refl, Bool, true, false, not, ◌||◌, Option, none,
  some, List, [], ◌∷◌, if◌then◌else◌, ◌==◌, ==_ne, ◌>>=◌, inl, inr, arith, ap, ◌∙◌, Bool-cases,
  length,
}
use buaa755os.Strings.{Memory}
use buaa755os.Strings.Tokens.{find_char, strchr, is_null, skip_delimiters, skip_token}

-- At `s` the memory holds the characters, none of which is the terminator.
abbrev pub Part : Memory → ℕ → List ℕ → Type 0
Part m s [] = Unit
Part m s (x ∷ xs) = (m s ≡ x) × (x ≢ 0) × (x < 256) × Part m (s + 1) xs

-- At `s` the memory holds the string of the characters.
abbrev pub Text : Memory → ℕ → List ℕ → Type 0
Text m s [] = m s ≡ 0
Text m s (x ∷ xs) = (m s ≡ x) × (x ≢ 0) × (x < 256) × Text m (s + 1) xs

pub Part-Text :
    (m : Memory) (s : ℕ) (xs : List ℕ) → Part m s xs → m (s + length xs) ≡ 0 → Text m s xs
Part-Text m s [] p e = ap m (omega arith) ∙ e
Part-Text m s (x ∷ xs) (q, n, l, p) e = (q, n, l, Part-Text m (s + 1) xs p (ap m (omega arith) ∙ e))

pub Text-same :
    (m m' : Memory) (s : ℕ) (xs : List ℕ)
    → ((a : ℕ) → s ≤ a → a ≤ s + length xs → m' a ≡ m a)
    → Text m s xs
    → Text m' s xs
Text-same m m' s [] h e = h s (omega arith) (omega arith) ∙ e
Text-same m m' s (x ∷ xs) h (q, n, l, t) = (
  h s (omega arith) (omega arith) ∙ q,
  n,
  l,
  Text-same m m' (s + 1) xs (λ a u v. h a (omega arith) (omega arith)) t,
)

pub Part-same :
    (m m' : Memory) (s : ℕ) (xs : List ℕ)
    → ((a : ℕ) → s ≤ a → a < s + length xs → m' a ≡ m a)
    → Part m s xs
    → Part m' s xs
Part-same m m' s [] h e = tt
Part-same m m' s (x ∷ xs) h (q, n, l, t) = (
  h s (omega arith) (omega arith) ∙ q,
  n,
  l,
  Part-same m m' (s + 1) xs (λ a u v. h a (omega arith) (omega arith)) t,
)

abbrev pub is_delimiter : List ℕ → ℕ → Bool
is_delimiter [] c = false
is_delimiter (d ∷ ds) c = d == c || is_delimiter ds c

-- The character is a delimiter or the terminator.
abbrev pub stops : List ℕ → ℕ → Bool
stops [] c = 0 == c
stops (d ∷ ds) c = d == c || stops ds c

pub stops_char : (ds : List ℕ) (c : ℕ) → c ≢ 0 → stops ds c ≡ is_delimiter ds c
stops_char [] c n = ground arith
stops_char (d ∷ ds) c n = rw (stops_char ds c n) refl

pub stops_zero : (ds : List ℕ) → stops ds 0 ≡ true
stops_zero [] = refl
stops_zero (d ∷ ds) = rw (stops_zero ds) (go (d == 0))
  where
    go : (b : Bool) → b || true ≡ true
    go true = refl
    go false = refl

find_char_lem :
    (m : Memory) (fuel p c : ℕ) (ds : List ℕ)
    → Text m p ds
    → length ds < fuel
    → (r : Option ℕ) × (find_char m fuel p c ≡ some r) × (is_null r ≡ not (stops ds c))
unfolding find_char
find_char_lem m zero p c ds t h = absurd (omega arith)
find_char_lem m (suc fuel) p c [] t h = elim (Bool-cases (0 == c)) [
  | inl e ↦ (some p, rw (t, e) refl, rw e refl)
  | inr e ↦ (none, rw (t, e) refl, rw e refl)
]
find_char_lem m (suc fuel) p c (d ∷ ds) (q, n, l, t) h = elim (Bool-cases (d == c)) [
  | inl e ↦ (some p, rw (q, e) refl, rw e refl)
  | inr e ↦
      let (r, f, k) = find_char_lem m fuel (p + 1) c ds t (omega arith) in
      (r, rw (q, e, ==_ne d 0 n) f, rw e k)
]

-- A test of what strchr finds among the delimiters.
pub strchr_test {ℓ} :
    {X : Type ℓ} (m : Memory) (chars p c : ℕ) (ds : List ℕ) (a b : Option X)
    → p ≢ 0
    → Text m p ds
    → length ds < chars
    → c < 256
    → (strchr m chars p c >>= λ r. if is_null r then a else b) ≡ (if stops ds c then b else a)
unfolding strchr
strchr_test m chars p c ds a b n t h l =
    let (r, f, k) = find_char_lem m chars p c ds t h in
    let same : c % 256 ≡ c = omega arith in rw (==_ne p 0 n, same, f, k) (go (stops ds c))
  where
    go : (s : Bool) → (if not s then a else b) ≡ (if s then b else a)
    go true = refl
    go false = refl

-- The text without the delimiters that it starts with.
abbrev pub drop_delimiters : List ℕ → List ℕ → List ℕ
drop_delimiters ds [] = []
drop_delimiters ds (x ∷ xs) = if is_delimiter ds x then drop_delimiters ds xs else x ∷ xs

-- The characters before the first delimiter, and those from it on.
abbrev pub token : List ℕ → List ℕ → List ℕ
token ds [] = []
token ds (x ∷ xs) = if is_delimiter ds x then [] else x ∷ token ds xs

abbrev pub drop_token : List ℕ → List ℕ → List ℕ
drop_token ds [] = []
drop_token ds (x ∷ xs) = if is_delimiter ds x then x ∷ xs else drop_token ds xs

abbrev pub token_at : List ℕ → ℕ → Option ℕ
token_at [] p = none
token_at (y ∷ ys) p = some p

-- Where the first loop of strtok_r stops, `ys` being what it leaves of the text.
abbrev Skipped : Memory → ℕ → List ℕ → List ℕ → Option (Option ℕ × ℕ) → Type 0
Skipped m s xs ys r =
    (p : ℕ) × (r ≡ some (token_at ys p, p))
    × Text m p ys
    × (s ≤ p)
    × (p + length ys ≡ s + length xs)

pub skip_delimiters_lem :
    (m : Memory) (chars fuel d s : ℕ) (ds xs : List ℕ)
    → d ≢ 0
    → Text m d ds
    → length ds < chars
    → Text m s xs
    → length xs < fuel
    → Skipped m s xs (drop_delimiters ds xs) (skip_delimiters m chars fuel d s)
unfolding skip_delimiters
skip_delimiters_lem m chars zero d s ds xs nd td hd t h = absurd (omega arith)
skip_delimiters_lem m chars (suc fuel) d s ds [] nd td hd t h = (
  s,
  strchr_test m chars d (m s) ds (some (some s, s))
        (if m s == 0 then some (none, s) else skip_delimiters m chars fuel d (s + 1)) nd td hd
        (omega (arith, t))
      ∙ rw (t, stops_zero ds) refl,
  t,
  omega arith,
  omega arith,
)
skip_delimiters_lem m chars (suc fuel) d s ds (x ∷ xs) nd td hd (q, n, l, t) h =
    elim (Bool-cases (is_delimiter ds x)) [
      | inl e ↦
          let (p, f, tp, le, len) =
            skip_delimiters_lem m chars fuel d (s + 1) ds xs nd td hd t (omega arith) in
          rw e (p, test ∙ rw (stops_char ds x n, e, ==_ne x 0 n) f, tp, omega arith, omega arith)
      | inr e ↦ rw e (s, test ∙ rw (stops_char ds x n, e) refl, (q, n, l, t), omega arith, refl)
    ]
  where
    test :
        (strchr m chars d (m s) >>= λ r.
        if is_null r
        then some (some s, s)
        else if m s == 0
        then some (none, s)
        else skip_delimiters m chars fuel d (s + 1))
        ≡ (if stops ds x
            then (if x == 0 then some (none, s) else skip_delimiters m chars fuel d (s + 1))
            else some (some s, s))
    test = rw q (
        strchr_test m chars d x ds (some (some s, s))
          (if x == 0 then some (none, s) else skip_delimiters m chars fuel d (s + 1)) nd td hd l)

pub skip_token_lem :
    (m : Memory) (chars fuel d s : ℕ) (ds xs : List ℕ)
    → d ≢ 0
    → Text m d ds
    → length ds < chars
    → Text m s xs
    → length xs < fuel
    → (e : ℕ) × (skip_token m chars fuel d s ≡ some e)
      × (e ≡ s + length (token ds xs))
      × Part m s (token ds xs)
      × Text m e (drop_token ds xs)
      × (e + length (drop_token ds xs) ≡ s + length xs)
unfolding skip_token
skip_token_lem m chars zero d s ds xs nd td hd t h = absurd (omega arith)
skip_token_lem m chars (suc fuel) d s ds [] nd td hd t h = (
  s,
  strchr_test m chars d (m s) ds (skip_token m chars fuel d (s + 1)) (some s) nd td hd
        (omega (arith, t))
      ∙ rw (t, stops_zero ds) refl,
  omega arith,
  tt,
  t,
  omega arith,
)
skip_token_lem m chars (suc fuel) d s ds (x ∷ xs) nd td hd (q, n, l, t) h =
    elim (Bool-cases (is_delimiter ds x)) [
      | inl e ↦ rw e (s, test ∙ rw (stops_char ds x n, e) refl, omega arith, tt, (q, n, l, t), refl)
      | inr e ↦
          let (p, f, le, pt, tp, len) =
            skip_token_lem m chars fuel d (s + 1) ds xs nd td hd t (omega arith) in
          rw e (p, test ∙ rw (stops_char ds x n, e) f, omega arith, (q, n, l, pt), tp, omega arith)
    ]
  where
    test :
        (strchr m chars d (m s) >>= λ r.
        if is_null r then skip_token m chars fuel d (s + 1) else some s)
        ≡ (if stops ds x then some s else skip_token m chars fuel d (s + 1))
    test = rw q (strchr_test m chars d x ds (skip_token m chars fuel d (s + 1)) (some s) nd td hd l)
