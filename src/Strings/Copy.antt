-- ===== src/Strings/Copy.antt =====
-- string.c: strings in memory, their length, and copies of them that are cut to a size.
use buaa755os.Base.{
  ℕ, zero, suc, ◌+◌, ◌-◌, ◌≤◌, ◌<◌, ◌≡◌, ◌≢◌, refl, some, update, update_self, update_ne,
  if◌then◌else◌, ltb, ==_ne, lt→ltb, ◌⊎◌, inl, inr, arith, ap, ◌∙◌, sym,
}
use buaa755os.Strings.{Memory, find_end, strlen, strlcpy, strlcat}
use buaa755os.Strings.Move.{copied, copied_in, copied_out, memcpy_lem}

-- A string of this length, with its terminator.
pub record IsString (m : Memory) (s n : ℕ) : Type 0 where
  pub bytes : (i : ℕ) → i < n → m (s + i) ≢ 0
  pub ends : m (s + n) ≡ 0

find_end_lem :
    (m : Memory) (fuel p n : ℕ) → IsString m p n → n < fuel → find_end m fuel p ≡ some (p + n)
unfolding find_end
find_end_lem m zero p n s h = absurd (omega arith)
find_end_lem m (suc fuel) p zero s h =
    let e : m p ≡ 0 = ap m (omega arith) ∙ s.ends in rw e (ap some (omega arith))
find_end_lem m (suc fuel) p (suc n) s h =
    let ne : m p ≢ 0 = λ e. s.bytes 0 (omega arith) (ap m (omega arith) ∙ e) in
    rw (==_ne (m p) 0 ne) (
      find_end_lem m fuel (p + 1) n
        (record {
          bytes = λ i q e. s.bytes (suc i) (omega arith) (ap m (omega arith) ∙ e);
          ends = ap m (omega arith) ∙ s.ends;
        })
        (omega arith)
      ∙ ap some (omega arith))

pub strlen_lem :
    (m : Memory) (fuel s n : ℕ) → s ≢ 0 → IsString m s n → n < fuel → strlen m fuel s ≡ some n
unfolding strlen
strlen_lem m fuel s n ne str h =
    rw (==_ne s 0 ne) (rw (find_end_lem m fuel s n str h) (ap some (omega arith)))

-- What strlcpy leaves: the string, cut to what fits, and no other byte is written.
abbrev pub cut : ℕ → ℕ → ℕ
cut n size = if ltb n (size - 1) then n else size - 1

pub record CopiedString (m : Memory) (dst src n size : ℕ) (m' : Memory) : Type 0 where
  pub string : IsString m' dst (cut n size)
  pub bytes : (i : ℕ) → i < cut n size → m' (dst + i) ≡ m (src + i)
  pub kept : (a : ℕ) → (a < dst) ⊎ (dst + size ≤ a) → m' a ≡ m a

-- A terminator behind a copy of the first bytes of a string.
terminated :
    (m m' : Memory) (dst src n c i : ℕ)
    → ((a : ℕ) → m' a ≡ copied m dst src c a)
    → i < c
    → update m' (dst + c) 0 (dst + i) ≡ m (src + i)
terminated m m' dst src n c i e h =
    update_ne m' (dst + c) (dst + i) 0 (omega arith)
    ∙ e (dst + i)
    ∙ copied_in m dst src c (dst + i) (m (src + i)) (omega arith) (omega arith) (ap m (omega arith))

terminated-IsString :
    (m m' : Memory) (dst src n c : ℕ)
    → IsString m src n
    → c ≤ n
    → ((a : ℕ) → m' a ≡ copied m dst src c a)
    → IsString (update m' (dst + c) 0) dst c
terminated-IsString m m' dst src n c str h e = record {
  bytes = λ i p q. str.bytes i (omega arith) (sym (terminated m m' dst src n c i e p) ∙ q);
  ends = update_self m' (dst + c) 0;
}

terminated_kept :
    (m m' : Memory) (dst src c a : ℕ)
    → ((a : ℕ) → m' a ≡ copied m dst src c a)
    → (a < dst) ⊎ (dst + c < a)
    → update m' (dst + c) 0 a ≡ m a
terminated_kept m m' dst src c a e h =
    update_ne m' (dst + c) a 0 (ground arith) ∙ e a ∙ copied_out m dst src c a (ground arith)

cut_le : (n size : ℕ) → 0 < size → (cut n size ≤ n) × (cut n size < size)
cut_le n size h = ground arith

-- strlcpy, of a string to a place of at least one byte that does not overlap it, with enough fuel,
-- returns the string's length and leaves the string at the destination, cut to what fits with its
-- terminator; it writes nothing outside the place.
pub strlcpy_lem :
    (m : Memory) (fuel dst src n size : ℕ)
    → dst ≢ 0
    → src ≢ 0
    → IsString m src n
    → n < fuel
    → 0 < size
    → (dst + size ≤ src) ⊎ (src + n < dst)
    → (m' : Memory) × (strlcpy m fuel dst src size ≡ some (n, m'))
      × CopiedString m dst src n size m'
unfolding strlcpy
strlcpy_lem m fuel dst src n size d s str f pos apart =
    let (le, lt) = cut_le n size pos in
    let (m', e, h) = memcpy_lem m dst src (cut n size) d s (ground arith) in
    (
      update m' (dst + cut n size) 0,
      rw (==_ne dst 0 d, ==_ne src 0 s, strlen_lem m fuel src n s str f, ==_ne size 0 (omega arith))
          (rw e refl),
      record {
        string = terminated-IsString m m' dst src n (cut n size) str le h;
        bytes = λ i p. terminated m m' dst src n (cut n size) i h p;
        kept = λ a p. terminated_kept m m' dst src (cut n size) a h (ground arith);
      },
    )

-- What strlcat leaves: the string that was there, behind it the other one, cut to what fits, and no
-- byte outside the place is written.
pub record AppendedString (m : Memory) (dst k src n size : ℕ) (m' : Memory) : Type 0 where
  pub string : IsString m' dst (k + cut n (size - k))
  pub front : (i : ℕ) → i < k → m' (dst + i) ≡ m (dst + i)
  pub back : (i : ℕ) → i < cut n (size - k) → m' (dst + k + i) ≡ m (src + i)
  pub kept : (a : ℕ) → (a < dst) ⊎ (dst + size ≤ a) → m' a ≡ m a

joined :
    (m : Memory) (s k c : ℕ)
    → ((i : ℕ) → i < k → m (s + i) ≢ 0)
    → IsString m (s + k) c
    → IsString m s (k + c)
joined m s k c h str = record {
  bytes = λ i p. bytes_at i p (lt-cases i k);
  ends = ap m (omega arith) ∙ str.ends;
}
  where
    bytes_at : (i : ℕ) → i < k + c → (i < k) ⊎ (k ≤ i) → m (s + i) ≢ 0
    bytes_at i p (inl q) e = h i q e
    bytes_at i p (inr q) e = str.bytes (i - k) (omega arith) (ap m (omega arith) ∙ e)

    lt-cases : (a b : ℕ) → (a < b) ⊎ (b ≤ a)
    lt-cases a b = ground arith

-- strlcat, of a string to a string in a place that is longer than it and does not overlap the first,
-- with enough fuel, returns the sum of both lengths and leaves the first string behind the other,
-- cut to what fits with its terminator; it writes nothing outside the place.
pub strlcat_lem :
    (m : Memory) (fuel dst k src n size : ℕ)
    → dst ≢ 0
    → src ≢ 0
    → IsString m dst k
    → IsString m src n
    → n + k < fuel
    → k < size
    → (dst + size ≤ src) ⊎ (src + n < dst)
    → (m' : Memory) × (strlcat m fuel dst src size ≡ some (n + k, m'))
      × AppendedString m dst k src n size m'
unfolding strlcat
strlcat_lem m fuel dst k src n size d s there str f room apart =
    let (le, lt) = cut_le n (size - k) (omega arith) in
    let (m', e, h) =
      memcpy_lem m (dst + k) src (cut n (size - k)) (λ z. d (omega arith)) s (ground arith) in
    let front : (i : ℕ) → i < k → update m' (dst + k + cut n (size - k)) 0 (dst + i) ≡ m (dst + i) =
      λ i p. terminated_kept m m' (dst + k) src (cut n (size - k)) (dst + i) h (ground arith) in
    (
      update m' (dst + k + cut n (size - k)) 0,
      rw
          (
            ==_ne dst 0 d,
            ==_ne src 0 s,
            strlen_lem m fuel src n s str (omega arith),
            strlen_lem m fuel dst k d there (omega arith),
            lt→ltb k size room,
          )
          (rw e refl),
      record {
        string =
            joined (update m' (dst + k + cut n (size - k)) 0) dst k (cut n (size - k))
              (λ i p q. there.bytes i p (sym (front i p) ∙ q))
              (terminated-IsString m m' (dst + k) src n (cut n (size - k)) str le h);
        front = front;
        back = λ i p. terminated m m' (dst + k) src n (cut n (size - k)) i h p;
        kept = λ a p. terminated_kept m m' (dst + k) src (cut n (size - k)) a h (ground arith);
      },
    )
