-- ===== src/Bitmap/Word.antt =====
-- The machine's or, and, exclusive or of an element with a mask of one bit, digit by digit.
-- `w | 1 << k`, `w & ~(1 << k)`, `w ^ 1 << k` and `(w & 1 << k) != 0`, at every width.
use buaa755os.Base.{
  ℕ, zero, suc, ◌+◌, ◌-◌, ◌*◌, ◌/◌, ◌%◌, ◌<◌, ◌≡◌, ◌≢◌, refl, ap, Bool, true, false, not, ◌==◌,
  arith,
}

unfoldable pub or_mask : ℕ → ℕ → ℕ
or_mask w zero = w / 2 * 2 + 1
or_mask w (suc k) = or_mask (w / 2) k * 2 + w % 2

unfoldable pub and_not_mask : ℕ → ℕ → ℕ
and_not_mask w zero = w / 2 * 2
and_not_mask w (suc k) = and_not_mask (w / 2) k * 2 + w % 2

unfoldable pub xor_mask : ℕ → ℕ → ℕ
xor_mask w zero = w / 2 * 2 + (1 - w % 2)
xor_mask w (suc k) = xor_mask (w / 2) k * 2 + w % 2

unfoldable pub test_mask : ℕ → ℕ → Bool
test_mask w zero = w % 2 == 1
test_mask w (suc k) = test_mask (w / 2) k

-- Dropping the last digit of `a * 2 + d`.
half_digit : (a d : ℕ) → d < 2 → (a * 2 + d) / 2 ≡ a
half_digit a d h = omega arith

pub test_mask-or_self : (w k : ℕ) → test_mask (or_mask w k) k ≡ true
unfolding test_mask or_mask
test_mask-or_self w zero = ground arith
test_mask-or_self w (suc k) =
    rw (half_digit (or_mask (w / 2) k) (w % 2) (omega arith)) (test_mask-or_self (w / 2) k)

pub test_mask-or_ne : (w k j : ℕ) → k ≢ j → test_mask (or_mask w k) j ≡ test_mask w j
unfolding test_mask or_mask
test_mask-or_ne w zero zero h = absurd (h refl)
test_mask-or_ne w zero (suc j) h = ap (λ x. test_mask x j) (omega arith)
test_mask-or_ne w (suc k) zero h = ground arith
test_mask-or_ne w (suc k) (suc j) h =
    rw (half_digit (or_mask (w / 2) k) (w % 2) (omega arith))
      (test_mask-or_ne (w / 2) k j (λ e. h (ap suc e)))

pub test_mask-and_not_self : (w k : ℕ) → test_mask (and_not_mask w k) k ≡ false
unfolding test_mask and_not_mask
test_mask-and_not_self w zero = ground arith
test_mask-and_not_self w (suc k) =
    rw (half_digit (and_not_mask (w / 2) k) (w % 2) (omega arith))
      (test_mask-and_not_self (w / 2) k)

pub test_mask-and_not_ne : (w k j : ℕ) → k ≢ j → test_mask (and_not_mask w k) j ≡ test_mask w j
unfolding test_mask and_not_mask
test_mask-and_not_ne w zero zero h = absurd (h refl)
test_mask-and_not_ne w zero (suc j) h = ap (λ x. test_mask x j) (omega arith)
test_mask-and_not_ne w (suc k) zero h = ground arith
test_mask-and_not_ne w (suc k) (suc j) h =
    rw (half_digit (and_not_mask (w / 2) k) (w % 2) (omega arith))
      (test_mask-and_not_ne (w / 2) k j (λ e. h (ap suc e)))

pub test_mask-xor_self : (w k : ℕ) → test_mask (xor_mask w k) k ≡ not (test_mask w k)
unfolding test_mask xor_mask
test_mask-xor_self w zero = ground arith
test_mask-xor_self w (suc k) =
    rw (half_digit (xor_mask (w / 2) k) (w % 2) (omega arith)) (test_mask-xor_self (w / 2) k)

pub test_mask-xor_ne : (w k j : ℕ) → k ≢ j → test_mask (xor_mask w k) j ≡ test_mask w j
unfolding test_mask xor_mask
test_mask-xor_ne w zero zero h = absurd (h refl)
test_mask-xor_ne w zero (suc j) h = ap (λ x. test_mask x j) (omega arith)
test_mask-xor_ne w (suc k) zero h = ground arith
test_mask-xor_ne w (suc k) (suc j) h =
    rw (half_digit (xor_mask (w / 2) k) (w % 2) (omega arith))
      (test_mask-xor_ne (w / 2) k j (λ e. h (ap suc e)))
