-- ===== src/Intq/Refine.antt =====
-- intq.c: the circular buffer as a queue of bytes.
use buaa755os.Base.{
  ℕ, zero, suc, ◌+◌, ◌-◌, ◌%◌, ◌<◌, ◌≡◌, ◌≢◌, refl, none, List, [], ◌∷◌, ◌++◌, length, update,
  update_self, update_ne, ◌==◌, ==_ne, arith, ap, ◌∙◌, sym,
}
use buaa755os.Threads.{Kernel}
use buaa755os.Intq.{
  Intq, Round, returned, next, intq_empty, intq_full, must_wait, signal, signal_thread, intq_getc,
  intq_putc,
}

pub record IsValid (q : Intq) : Type 0 where
  pub head_in : q.head < 64
  pub tail_in : q.tail < 64

-- The `n` bytes from a position of the buffer on.
abbrev pub bytes : (ℕ → ℕ) → ℕ → ℕ → List ℕ
bytes buf i zero = []
bytes buf i (suc n) = buf i ∷ bytes buf ((i + 1) % 64) n

-- How many bytes are in the queue.
abbrev pub count : Intq → ℕ
count q = (q.head + 64 - q.tail) % 64

-- The bytes in the queue, the oldest first.
abbrev pub contents : Intq → List ℕ
contents q = bytes q.buf q.tail (count q)

length-bytes : (buf : ℕ → ℕ) (i n : ℕ) → length (bytes buf i n) ≡ n
length-bytes buf i zero = refl
length-bytes buf i (suc n) = ap suc (length-bytes buf ((i + 1) % 64) n)

-- The byte behind the last one.
bytes-snoc :
    (buf : ℕ → ℕ) (i n : ℕ)
    → i < 64
    → bytes buf i (suc n) ≡ bytes buf i n ++ buf ((i + n) % 64) ∷ []
bytes-snoc buf i zero h = ap (λ j. buf j ∷ []) (omega arith)
bytes-snoc buf i (suc n) h =
    ap (λ xs. buf i ∷ xs)
      (bytes-snoc buf ((i + 1) % 64) n (omega arith)
        ∙ ap (λ j. bytes buf ((i + 1) % 64) n ++ buf j ∷ []) (omega arith))

-- A write behind the bytes leaves them alone.
bytes-update :
    (buf : ℕ → ℕ) (i n at byte : ℕ)
    → i < 64
    → n < 64
    → at ≡ (i + n) % 64
    → bytes (update buf at byte) i n ≡ bytes buf i n
bytes-update buf i n at byte h small e = go i n at h (λ j p. omega (arith, e))
  where
    go :
        (i n at : ℕ)
        → i < 64
        → ((j : ℕ) → j < n → (i + j) % 64 ≢ at)
        → bytes (update buf at byte) i n ≡ bytes buf i n
    go i zero at h apart = refl
    go i (suc n) at h apart =
        rw (update_ne buf at i byte (λ e. apart 0 (omega arith) (omega (arith, e)))) (
          ap (λ xs. buf i ∷ xs)
            (go ((i + 1) % 64) n at (omega arith)
              (λ j p e. apart (j + 1) (omega arith) (omega (arith, e)))))

pub intq_full_lem : (q : Intq) → IsValid q → intq_full q ≡ (length (contents q) == 63)
unfolding intq_full
intq_full_lem q v = rw (length-bytes q.buf q.tail (count q)) (ground (arith, v.head_in, v.tail_in))

pub intq_empty_lem : (q : Intq) → IsValid q → intq_empty q ≡ (length (contents q) == 0)
unfolding intq_empty
intq_empty_lem q v = rw (length-bytes q.buf q.tail (count q)) (ground (arith, v.head_in, v.tail_in))

-- The call returns this value, and the queue is valid with these bytes in it.
abbrev pub ReturnsWith : {A : Type 0} → Round A → A → List ℕ → Kernel → Type 0
ReturnsWith r a xs k = (q' : Intq) × (r ≡ returned a q' k) × IsValid q' × (contents q' ≡ xs)

-- intq_putc on a valid queue of less than 63 bytes, in which no thread waits to read, returns and
-- leaves a valid queue with the new byte behind the others.
pub intq_putc_lem :
    (q : Intq) (byte : ℕ) (k : Kernel)
    → IsValid q
    → length (contents q) < 63
    → q.not_empty ≡ none
    → ReturnsWith (intq_putc q byte k) tt (contents q ++ byte ∷ []) k
unfolding intq_putc intq_full signal must_wait intq_empty signal_thread
intq_putc_lem q byte k v fits idle =
    let room : count q < 63 = omega (arith, fits, length-bytes q.buf q.tail (count q)) in
    let q' : Intq = record q { buf = update q.buf q.head byte; head = next q.head } in
    let at_head : (q.tail + count q) % 64 ≡ q.head = omega (arith, v.head_in, v.tail_in) in
    (
      q',
      rw (==_ne ((q.head + 1) % 64) q.tail (omega (arith, v.head_in, v.tail_in))) (rw idle refl),
      record { head_in = omega arith; tail_in = v.tail_in },
      ap (bytes q'.buf q.tail) {y = suc (count q)} (omega (arith, v.head_in, v.tail_in))
          ∙ bytes-snoc q'.buf q.tail (count q) v.tail_in
          ∙ rw at_head (
              rw (update_self q.buf q.head byte) (
                ap (λ xs. xs ++ byte ∷ [])
                  (bytes-update q.buf q.tail (count q) q.head byte v.tail_in (omega arith)
                    (sym at_head)))),
    )

-- intq_getc on a valid queue whose oldest byte is b, and in which no thread waits to store, returns
-- b and leaves a valid queue of the other bytes in their order.
pub intq_getc_lem :
    (q : Intq) (k : Kernel) (b : ℕ) (bs : List ℕ)
    → IsValid q
    → contents q ≡ b ∷ bs
    → q.not_full ≡ none
    → ReturnsWith (intq_getc q k) b bs k
unfolding intq_getc intq_empty signal must_wait intq_full signal_thread
intq_getc_lem q k b bs v e idle =
    let q' : Intq = record q { tail = next q.tail } in
    let some_bytes : 0 < count q =
      omega (arith, length-bytes q.buf q.tail (count q), ap length e) in
    let unrolled : bytes q.buf q.tail (suc (count q')) ≡ b ∷ bs =
      ap (bytes q.buf q.tail) {x = suc (count q')} {y = count q}
        (omega (arith, v.head_in, v.tail_in))
      ∙ e in
    let eb : q.buf q.tail ≡ b = cc in
    (
      q',
      rw (==_ne q.head q.tail (omega (arith, v.tail_in))) (
          rw (==_ne ((q.head + 1) % 64) (next q.tail) (omega (arith, v.head_in, v.tail_in)))
            (rw idle (rw eb refl))),
      record { head_in = v.head_in; tail_in = omega arith },
      cc,
    )
