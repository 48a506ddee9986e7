-- ===== src/Strings/Tokens.antt =====
-- string.c: the searches for characters, and strtok_r.
use buaa755os.Base.{
  ℕ, zero, suc, ◌+◌, ◌%◌, ◌^◌, Bool, true, false, not, Option, none, some, List, [], ◌∷◌, update,
  if◌then◌else◌, ◌==◌, ◌>>=◌, ◌>>◌, assert,
}
use buaa755os.Strings.{Memory}

-- The loop of strchr. A null pointer is `none`.
unfoldable pub find_char : Memory → ℕ → ℕ → ℕ → Option (Option ℕ)
find_char m zero string c = none
find_char m (suc fuel) string c =
    let rest = find_char m fuel (string + 1) c in
    if m string == c then some (some string) else if m string == 0 then some none else rest

unfoldable pub strchr : Memory → ℕ → ℕ → ℕ → Option (Option ℕ)
unfolding find_char
strchr m fuel string c = assert (not (string == 0)) >> find_char m fuel string (c % 2 ^ 8)

abbrev pub is_null : Option ℕ → Bool
is_null none = true
is_null (some p) = false

-- The loop of strcspn, at `length`; the first fuel is that of strchr.
unfoldable pub span_until : Memory → ℕ → ℕ → ℕ → ℕ → ℕ → Option ℕ
span_until m chars zero string stop length = none
span_until m chars (suc fuel) string stop length =
    let rest = span_until m chars fuel string stop (length + 1) in
    if m (string + length) == 0
    then some length
    else (strchr m chars stop (m (string + length)) >>= λ r.
        if is_null r then rest else some length)

unfoldable pub strcspn : Memory → ℕ → ℕ → ℕ → ℕ → Option ℕ
unfolding span_until
strcspn m chars fuel string stop = span_until m chars fuel string stop 0

-- The loop of strtok_r that skips delimiters: the token, or `none` at the end, and where it stopped.
unfoldable pub skip_delimiters : Memory → ℕ → ℕ → ℕ → ℕ → Option (Option ℕ × ℕ)
skip_delimiters m chars zero delimiters s = none
skip_delimiters m chars (suc fuel) delimiters s =
    let rest = skip_delimiters m chars fuel delimiters (s + 1) in
    strchr m chars delimiters (m s) >>= λ r.
    if is_null r then some (some s, s) else if m s == 0 then some (none, s) else rest

-- The loop of strtok_r that skips what is no delimiter.
unfoldable pub skip_token : Memory → ℕ → ℕ → ℕ → ℕ → Option ℕ
skip_token m chars zero delimiters s = none
skip_token m chars (suc fuel) delimiters s =
    let rest = skip_token m chars fuel delimiters (s + 1) in
    strchr m chars delimiters (m s) >>= λ r. if is_null r then rest else some s

-- The end of a token, where a delimiter is overwritten: the token, the saved place and the memory.
abbrev pub end_token : Memory → ℕ → ℕ → Option ℕ × ℕ × Memory
end_token m token s =
    if not (m s == 0) then (some token, s + 1, update m s 0) else (some token, s, m)

-- strtok_r from where it found a token or the end.
abbrev pub take_token : Memory → ℕ → ℕ → ℕ → Option ℕ × ℕ → Option (Option ℕ × ℕ × Memory)
take_token m chars fuel delimiters (none, s) = some (none, s, m)
take_token m chars fuel delimiters (some token, s) =
    skip_token m chars fuel delimiters token >>= λ e. some (end_token m token e)

-- The last argument but one is the string or null, the last what *save_ptr holds.
unfoldable pub strtok_r : Memory → ℕ → ℕ → ℕ → ℕ → ℕ → Option (Option ℕ × ℕ × Memory)
unfolding skip_delimiters skip_token
strtok_r m chars fuel delimiters s save =
    let from = if s == 0 then save else s in
    assert (not (delimiters == 0))
    >> (assert (not (from == 0))
        >> (skip_delimiters m chars fuel delimiters from >>= take_token m chars fuel delimiters))

abbrev pub add_token : Option ℕ → Memory → Option (List ℕ × Memory) → Option (List ℕ × Memory)
add_token none m rest = some ([], m)
add_token (some token) m rest = rest >>= λ ts. some (token ∷ ts.0, ts.1)

-- The loop that the comment above strtok_r shows, with the rounds left: the tokens, and the memory.
unfoldable pub all_tokens : ℕ → Memory → ℕ → ℕ → ℕ → ℕ → ℕ → Option (List ℕ × Memory)
all_tokens zero m chars fuel delimiters s save = none
all_tokens (suc rounds) m chars fuel delimiters s save =
    strtok_r m chars fuel delimiters s save >>= λ r.
    let rest = all_tokens rounds r.2 chars fuel delimiters 0 r.1 in add_token r.0 r.2 rest
