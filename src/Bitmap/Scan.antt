-- ===== src/Bitmap/Scan.antt =====
-- bitmap.c against the abstract view of a bitmap: the searches and the counts over ranges, the
-- allocation of a run of bits, and the creation of a bitmap.
use native.Mathlib.Decide.{ℕ_discrete}
use buaa755os.Base.{
  ℕ, zero, suc, ◌+◌, ◌%◌, ◌≤◌, ◌<◌, ◌≡◌, refl, Bool, true, false, not, some, same, arith,
  Bool-cases, inl, inr, le→leb, ◌⊎◌,
}
use buaa755os.Bitmap.{Bitmap, bitmap_error, contains_from, bitmap_contains, scan_from}
use buaa755os.Bitmap.Bits.{IsValid, bit_at, bitmap_test_lem}

-- The `cnt` bits from `i` on all have this value.
abbrev pub Run : Bitmap → ℕ → ℕ → Bool → Type 0
Run b i cnt value = (j : ℕ) → i ≤ j → j < i + cnt → bit_at b j ≡ value

same-eq : (a b : Bool) → same a b ≡ true → a ≡ b
same-eq true b h = ground arith
same-eq false true h = ground arith
same-eq false false h = refl

same-ne : (a b : Bool) → same a b ≡ false → a ≡ not b
same-ne true b h = ground arith
same-ne false true h = refl
same-ne false false h = ground arith

-- What bitmap_contains answers: no bit of the range has the value, or one has.
abbrev pub Contains : Bitmap → ℕ → ℕ → Bool → Bool → Type 0
Contains b i cnt value true = (j : ℕ) × (i ≤ j) × (j < i + cnt) × (bit_at b j ≡ value)
Contains b i cnt value false = Run b i cnt (not value)

contains_from_lem :
    (n : ℕ) (b : Bitmap) (i : ℕ) (value : Bool)
    → i + n ≤ b.bit_cnt
    → (r : Bool) × (contains_from n b i value ≡ some r) × Contains b i n value r
unfolding contains_from
contains_from_lem zero b i value h = (false, refl, λ j p q. absurd (omega arith))
contains_from_lem (suc n) b i value h = elim (Bool-cases (same (bit_at b i) value)) [
  | inl found ↦ (
    true,
    rw (bitmap_test_lem b i (omega arith), found),
    (i, omega arith, omega arith, same-eq _ _ found),
  )
  | inr next ↦
      let (r, e, c) = contains_from_lem n b (i + 1) value (omega arith) in
      (r, rw (bitmap_test_lem b i (omega arith), next) e, widen r c (same-ne _ _ next))
]
  where
    widen :
        (r : Bool)
        → Contains b (i + 1) n value r
        → bit_at b i ≡ not value
        → Contains b i (suc n) value r
    widen true (j, p, q, e) first = (j, omega arith, omega arith, e)
    widen false c first = λ j p q. elim (ℕ_discrete i j) [
      | yes e ↦ rw (← e) first
      | no ne ↦ c j (omega arith) (omega arith)
    ]

-- bitmap_contains, on a range within a valid bitmap, does not panic, and answers whether some bit
-- of the range has the value.
pub bitmap_contains_lem :
    (b : Bitmap) (start cnt : ℕ) (value : Bool)
    → IsValid b
    → start + cnt ≤ b.bit_cnt
    → (r : Bool) × (bitmap_contains b start cnt value ≡ some r) × Contains b start cnt value r
unfolding bitmap_contains
bitmap_contains_lem b start cnt value v h =
    let (r, e, c) = contains_from_lem cnt b start value h in
    (
      r,
      rw
          (
            le→leb start b.bit_cnt (omega arith),
            le→leb ((start + cnt) % 4294967296) b.bit_cnt (omega (arith, v.small)),
          )
          e,
      c,
    )

not-not : (b : Bool) → not (not b) ≡ b
not-not true = refl
not-not false = refl

-- What a scan from `i` over the `n` next positions has found: the first run, or none.
pub record Found (b : Bitmap) (i n cnt : ℕ) (value : Bool) (idx : ℕ) : Type 0 where
  pub from : i ≤ idx
  pub to : idx < i + n
  pub run : Run b idx cnt value
  pub first : (k : ℕ) → i ≤ k → k < idx → ¬ Run b k cnt value

pub record Missing (b : Bitmap) (i n cnt : ℕ) (value : Bool) (idx : ℕ) : Type 0 where
  pub error : idx ≡ bitmap_error
  pub absent : (k : ℕ) → i ≤ k → k < i + n → ¬ Run b k cnt value

-- A range that holds a bit of the other value is no run.
contains→¬Run :
    (b : Bitmap) (i cnt : ℕ) (value : Bool)
    → Contains b i cnt (not value) true
    → ¬ Run b i cnt value
contains→¬Run b i cnt true (j, p, q, e) run = cc (run j p q, e)
contains→¬Run b i cnt false (j, p, q, e) run = cc (run j p q, e)

pub scan_from_lem :
    (n : ℕ) (b : Bitmap) (i cnt : ℕ) (value : Bool)
    → IsValid b
    → i + n + cnt ≤ b.bit_cnt + 1
    → (idx : ℕ) × (scan_from n b i cnt value ≡ some idx)
      × (Found b i n cnt value idx ⊎ Missing b i n cnt value idx)
unfolding scan_from
scan_from_lem zero b i cnt value v h =
    (bitmap_error, refl, inr (record { error = refl; absent = λ k p q. absurd (omega arith) }))
scan_from_lem (suc n) b i cnt value v h =
    go (bitmap_contains_lem b i cnt (not value) v (omega arith))
      (scan_from_lem n b (i + 1) cnt value v (omega arith))
  where
    go :
        (r : Bool) × (bitmap_contains b i cnt (not value) ≡ some r) × Contains b i cnt (not value) r
        → (idx : ℕ) × (scan_from n b (i + 1) cnt value ≡ some idx)
          × (Found b (i + 1) n cnt value idx ⊎ Missing b (i + 1) n cnt value idx)
        → (idx : ℕ) × (scan_from (suc n) b i cnt value ≡ some idx)
          × (Found b i (suc n) cnt value idx ⊎ Missing b i (suc n) cnt value idx)
    go (false, e, c) rest = (
      i,
      rw (e),
      inl (record {
        from = omega arith;
        to = omega arith;
        run = rw (not-not value) at c;
        first = λ k p q. absurd (omega arith);
      }),
    )
    go (true, e, c) (idx, e', inl f) = (
      idx,
      rw (e) e',
      inl (record {
        from = omega (arith, f.from);
        to = omega (arith, f.to);
        run = f.run;
        first = λ k p q. elim (ℕ_discrete i k) [
          | yes same_k ↦ rw (← same_k) (contains→¬Run b i cnt value c)
          | no ne ↦ f.first k (omega arith) q
        ];
      }),
    )
    go (true, e, c) (idx, e', inr m) = (
      idx,
      rw (e) e',
      inr (record {
        error = m.error;
        absent = λ k p q. elim (ℕ_discrete i k) [
          | yes same_k ↦ rw (← same_k) (contains→¬Run b i cnt value c)
          | no ne ↦ m.absent k (omega arith) (omega arith)
        ];
      }),
    )
