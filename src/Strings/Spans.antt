-- ===== src/Strings/Spans.antt =====
-- string.c: strchr and strcspn.
use mathlib.Core.Path.{subst}
use buaa755os.Base.{
  ℕ, zero, suc, ◌+◌, ◌<◌, ◌≡◌, ◌≢◌, some, List, [], ◌∷◌, if◌then◌else◌, ==_ne, ◌>>=◌, inl, inr,
  arith, ap, ◌∙◌, Bool-cases, length,
}
use buaa755os.Strings.{Memory}
use buaa755os.Strings.Tokens.{strchr, is_null, span_until, strcspn}
use buaa755os.Strings.Words.{Text, is_delimiter, stops, stops_char, strchr_test, token}

span_until_lem :
    (m : Memory) (chars fuel s d k : ℕ) (ds xs : List ℕ)
    → d ≢ 0
    → Text m d ds
    → length ds < chars
    → Text m (s + k) xs
    → length xs < fuel
    → span_until m chars fuel s d k ≡ some (k + length (token ds xs))
unfolding span_until
span_until_lem m chars zero s d k ds xs nd td hd t h = absurd (omega arith)
span_until_lem m chars (suc fuel) s d k ds [] nd td hd t h =
    rw t (ap some {x = k} {y = k + 0} (omega arith))
span_until_lem m chars (suc fuel) s d k ds (x ∷ xs) nd td hd (q, n, l, t) h =
    rw (q, ==_ne x 0 n)
      (test
        ∙ rw (stops_char ds x n) (elim (Bool-cases (is_delimiter ds x)) [
          | inl e ↦ rw e (ap some {x = k} {y = k + 0} (omega arith))
          | inr e ↦ rw e (
              span_until_lem m chars fuel s d (k + 1) ds xs nd td hd
                (subst (λ a. Text m a xs) {x = s + k + 1} {y = s + (k + 1)} (omega arith) t)
                (omega arith)
              ∙ ap some {x = k + 1 + length (token ds xs)} {y = k + suc (length (token ds xs))}
                  (omega arith))
        ]))
  where
    test :
        (strchr m chars d x >>= λ r.
        if is_null r then span_until m chars fuel s d (k + 1) else some k)
        ≡ (if stops ds x then some k else span_until m chars fuel s d (k + 1))
    test = strchr_test m chars d x ds (span_until m chars fuel s d (k + 1)) (some k) nd td hd l

-- strcspn of a string is the number of characters before the first that is in `stop`.
pub strcspn_lem :
    (m : Memory) (chars fuel s d : ℕ) (ds xs : List ℕ)
    → d ≢ 0
    → Text m d ds
    → Text m s xs
    → length ds < chars
    → length xs < fuel
    → strcspn m chars fuel s d ≡ some (length (token ds xs))
unfolding strcspn
strcspn_lem m chars fuel s d ds xs nd td t hd h =
    span_until_lem m chars fuel s d 0 ds xs nd td hd
      (subst (λ a. Text m a xs) {x = s} {y = s + 0} (omega arith) t) h
    ∙ ap some {x = 0 + length (token ds xs)} {y = length (token ds xs)} (omega arith)
