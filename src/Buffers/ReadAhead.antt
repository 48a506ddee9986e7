-- ===== src/Buffers/ReadAhead.antt =====
-- buffers.c: the queue of sectors to read ahead, a ring of 64 places.
use buaa755os.Base.{
  ℕ, zero, suc, ◌+◌, ◌-◌, ◌%◌, ◌≤◌, ◌<◌, ◌≡◌, refl, Bool, Option, none, some, List, [], ◌∷◌, ◌++◌,
  update, update_self, update_ne, if◌then◌else◌, ltb, lt→ltb, ◌==◌, ==_ne, arith, ap, ◌∙◌, sym,
}

-- `struct read_ahead_sector`
pub record ReadAheadSector : Type 0 where
  pub sector : ℕ
  pub is_meta : Bool

pub record ReadAhead : Type 0 where
  pub read_ahead_sectors : ℕ → ReadAheadSector
  pub sectors_head : ℕ
  pub sectors_tail : ℕ
  pub sectors_size : ℕ

-- INT_MAX: `sectors_head` and `sectors_tail` are signed and are only ever incremented.
abbrev pub int_max : ℕ
int_max = 2147483647

-- `none` is the increment of `sectors_head` beyond INT_MAX, which C leaves undefined.
unfoldable pub buffer_read_ahead : ReadAhead → ℕ → Bool → Option ReadAhead
buffer_read_ahead q sector is_meta =
    if ltb q.sectors_size 64
    then (if ltb q.sectors_head int_max
        then some (record q {
          read_ahead_sectors =
              update q.read_ahead_sectors (q.sectors_head % 64)
                (record { sector = sector; is_meta = is_meta });
          sectors_head = q.sectors_head + 1;
          sectors_size = q.sectors_size + 1;
        })
        else none)
    else some q

-- read_ahead takes a sector off the queue, or waits when it is empty, which is `some none`; `none`
-- is the increment of `sectors_tail` beyond INT_MAX.
unfoldable pub take_read_ahead : ReadAhead → Option (Option (ReadAheadSector × ReadAhead))
take_read_ahead q =
    if q.sectors_size == 0
    then some none
    else (if ltb q.sectors_tail int_max
        then some (
            some (
              q.read_ahead_sectors (q.sectors_tail % 64),
              record q { sectors_tail = q.sectors_tail + 1; sectors_size = q.sectors_size - 1 },
            ))
        else none)

-- The queue is a ring: its entries are the `sectors_size` ones from the tail to the head.
pub record IsRing (q : ReadAhead) : Type 0 where
  pub ends : q.sectors_head ≡ q.sectors_tail + q.sectors_size
  pub fits : q.sectors_size ≤ 64

-- So many entries, from the place `tail` on.
abbrev pub entries : (ℕ → ReadAheadSector) → ℕ → ℕ → List ReadAheadSector
entries f tail zero = []
entries f tail (suc n) = f (tail % 64) ∷ entries f (tail + 1) n

abbrev pub queue : ReadAhead → List ReadAheadSector
queue q = entries q.read_ahead_sectors q.sectors_tail q.sectors_size

entries-update :
    (f : ℕ → ReadAheadSector) (x : ReadAheadSector) (tail n k : ℕ)
    → tail + n ≤ k
    → k < tail + 64
    → entries (update f (k % 64) x) tail n ≡ entries f tail n
entries-update f x tail zero k l h = refl
entries-update f x tail (suc n) k l h =
    rw
      (
        update_ne f (k % 64) (tail % 64) x (λ e. apart e),
        entries-update f x (tail + 1) n k (omega arith) (omega arith),
      )
      refl
  where
    apart : k % 64 ≡ tail % 64 → ⊥
    apart e = omega arith

entries-append :
    (f : ℕ → ReadAheadSector) (tail n : ℕ)
    → entries f tail (suc n) ≡ entries f tail n ++ f ((tail + n) % 64) ∷ []
entries-append f tail zero = ap (λ i. f (i % 64) ∷ []) {x = tail} {y = tail + 0} (omega arith)
entries-append f tail (suc n) =
    ap (λ xs. f (tail % 64) ∷ xs)
      (entries-append f (tail + 1) n
        ∙ ap (λ i. entries f (tail + 1) n ++ f (i % 64) ∷ []) {x = tail + 1 + n} {y = tail + suc n}
            (omega arith))

-- What buffer_read_ahead does to a ring.
abbrev pub Appends : ReadAhead → ℕ → Bool → Type 0
Appends q sector is_meta =
    (q.sectors_size < 64
      → q.sectors_head < int_max
      → (q' : ReadAhead) × (buffer_read_ahead q sector is_meta ≡ some q')
        × IsRing q'
        × (queue q' ≡ queue q ++ record { sector = sector; is_meta = is_meta } ∷ []))
    × (q.sectors_size < 64 → q.sectors_head ≡ int_max → buffer_read_ahead q sector is_meta ≡ none)
    × (q.sectors_size ≡ 64 → buffer_read_ahead q sector is_meta ≡ some q)

-- What the thread that reads ahead does to a ring.
abbrev pub Takes : ReadAhead → Type 0
Takes q =
    (q.sectors_size ≡ 0 → take_read_ahead q ≡ some none)
    × ((n : ℕ)
        → q.sectors_size ≡ suc n
        → q.sectors_tail < int_max
        → (x : ReadAheadSector) × (q' : ReadAhead) × (take_read_ahead q ≡ some (some (x, q')))
          × IsRing q'
          × (queue q ≡ x ∷ queue q'))
    × ((n : ℕ) → q.sectors_size ≡ suc n → q.sectors_tail ≡ int_max → take_read_ahead q ≡ none)

-- Let the queue be a ring. With less than 64 sectors in it, buffer_read_ahead appends the sector to
-- the queue, which stays a ring, as long as sectors_head is below INT_MAX, and overflows sectors_head
-- when it is INT_MAX; with 64 it does nothing. The thread that reads ahead finds no sector in the
-- empty queue; else it takes the oldest off and leaves a ring, as long as sectors_tail is below
-- INT_MAX, and overflows sectors_tail when it is INT_MAX.
pub read_ahead_queue_lem :
    (q : ReadAhead) (sector : ℕ) (is_meta : Bool) → IsRing q → Appends q sector is_meta × Takes q
unfolding buffer_read_ahead take_read_ahead
read_ahead_queue_lem q s m v = ((appends, full_head, full), (empty, takes, full_tail))
  where
    x : ReadAheadSector
    x = record { sector = s; is_meta = m }

    grown : ReadAhead
    grown = record q {
      read_ahead_sectors = update q.read_ahead_sectors (q.sectors_head % 64) x;
      sectors_head = q.sectors_head + 1;
      sectors_size = q.sectors_size + 1;
    }

    f' : ℕ → ReadAheadSector
    f' = update q.read_ahead_sectors (q.sectors_head % 64) x

    longer : q.sectors_size < 64 → queue grown ≡ queue q ++ x ∷ []
    longer h =
        ap (entries f' q.sectors_tail) {x = q.sectors_size + 1} {y = suc q.sectors_size}
          (omega arith)
        ∙ (entries-append f' q.sectors_tail q.sectors_size
            ∙ (ap (λ xs. xs ++ f' ((q.sectors_tail + q.sectors_size) % 64) ∷ [])
                  (entries-update q.read_ahead_sectors x q.sectors_tail q.sectors_size
                    q.sectors_head (omega (arith, v.ends)) (omega (arith, v.ends)))
                ∙ ap (λ y. queue q ++ y ∷ [])
                    (ap (λ i. f' (i % 64)) (sym v.ends)
                      ∙ update_self q.read_ahead_sectors (q.sectors_head % 64) x)))

    ring : q.sectors_size < 64 → IsRing grown
    ring h = record { ends = omega (arith, v.ends); fits = omega arith }

    appends :
        q.sectors_size < 64
        → q.sectors_head < int_max
        → (q' : ReadAhead) × (buffer_read_ahead q s m ≡ some q')
          × IsRing q'
          × (queue q' ≡ queue q ++ x ∷ [])
    appends h l = (
      grown,
      rw (lt→ltb q.sectors_size 64 h, lt→ltb q.sectors_head int_max l) refl,
      ring h,
      longer h,
    )

    full_head : q.sectors_size < 64 → q.sectors_head ≡ int_max → buffer_read_ahead q s m ≡ none
    full_head h e = rw (lt→ltb q.sectors_size 64 h, e) refl

    full : q.sectors_size ≡ 64 → buffer_read_ahead q s m ≡ some q
    full e = rw e refl

    empty : q.sectors_size ≡ 0 → take_read_ahead q ≡ some none
    empty e = rw e refl

    full_tail :
        (n : ℕ) → q.sectors_size ≡ suc n → q.sectors_tail ≡ int_max → take_read_ahead q ≡ none
    full_tail n e t = rw (==_ne q.sectors_size 0 (λ z. omega arith), t) refl

    takes :
        (n : ℕ)
        → q.sectors_size ≡ suc n
        → q.sectors_tail < int_max
        → (x : ReadAheadSector) × (q' : ReadAhead) × (take_read_ahead q ≡ some (some (x, q')))
          × IsRing q'
          × (queue q ≡ x ∷ queue q')
    takes n e l = (
      q.read_ahead_sectors (q.sectors_tail % 64),
      record q { sectors_tail = q.sectors_tail + 1; sectors_size = q.sectors_size - 1 },
      rw (==_ne q.sectors_size 0 (λ z. omega arith), lt→ltb q.sectors_tail int_max l) refl,
      record { ends = omega (arith, v.ends); fits = omega (arith, v.fits) },
      ap (entries q.read_ahead_sectors q.sectors_tail) e
          ∙ ap
              (λ k.
                q.read_ahead_sectors (q.sectors_tail % 64)
                ∷ entries q.read_ahead_sectors (q.sectors_tail + 1) k)
              {x = n} {y = q.sectors_size - 1} (omega arith),
    )
