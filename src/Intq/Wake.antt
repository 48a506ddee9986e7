-- ===== src/Intq/Wake.antt =====
-- intq.c: what happens to a thread that waits for a byte or for space.
use mathlib.Core.Path.{subst}
use buaa755os.Base.{
  ℕ, ◌+◌, ◌%◌, ◌≡◌, refl, Bool, true, false, not, some, if◌then◌else◌, ◌==◌, ==_ne, arith, update,
  ap, ◌∙◌, sym,
}
use buaa755os.Threads.{Kernel, Run, done, switched, panic, assert}
use buaa755os.Threads.Synch.{lock_acquire, lock_release}
use buaa755os.Intq.{
  Intq, Waiter, Round, Point, failed, lost, again, returned, then_do, next, intq_empty, intq_full,
  waiter_of, must_wait, signal, signal_thread, wait, after_wait, wait_locked, sleep, then_signal,
  intq_getc, intq_putc,
}

assert_panic : (b : Bool) → assert b panic ≡ panic
assert_panic true = refl
assert_panic false = refl

thread_panics :
    (waiter : Waiter) (q : Intq) (k : Kernel) (t : ℕ)
    → (signal_thread waiter q k (some t)).1 ≡ panic
unfolding signal_thread
thread_panics Waiter.not_full q k t = refl
thread_panics Waiter.not_empty q k t = refl

-- signal clears the pointer before it passes it on.
signal_panics :
    (waiter : Waiter) (q : Intq) (k : Kernel) (t : ℕ)
    → waiter_of waiter q ≡ some t
    → (signal waiter q k).1 ≡ panic
unfolding signal
signal_panics waiter q k t e =
    ap (λ x. assert (not (must_wait waiter q)) (signal_thread waiter q k x).1) e
    ∙ ap (assert (not (must_wait waiter q))) (thread_panics waiter q k t)
    ∙ assert_panic (not (must_wait waiter q))

then_signal_fails :
    {A : Type 0} (a : A) (waiter : Waiter) (q : Intq) (k : Kernel) (t : ℕ)
    → waiter_of waiter q ≡ some t
    → then_signal a waiter q k ≡ failed
then_signal_fails a waiter q k t e =
    ap
      (λ r.
        then_do r Point.in_signal (signal waiter q k).0 (λ k'. returned a (signal waiter q k).0 k'))
      (signal_panics waiter q k t e)

-- A thread that waits for a byte is recorded before it loses the processor.
sleep_records :
    (q : Intq) (k : Kernel) (q' : Intq) (k₁ : Kernel)
    → ◌≡◌ {A = Round ℕ} (sleep Waiter.not_empty q k) (lost Point.in_wait q' k₁)
    → (t : ℕ) × (q' ≡ record q { not_empty = some t })
unfolding sleep wait
sleep_records q k q' k₁ e = tested k.in_interrupt e
  where
    released :
        (q'' : Intq) (r : Run)
        → ◌≡◌ {A = Round ℕ}
            (then_do r Point.in_release q'' (λ k'. again q'' k'))
            (lost Point.in_wait q' k₁)
        → q' ≡ q''
    released q'' (done k') e = absurd (cc)
    released q'' (switched k') e = absurd (cc)
    released q'' panic e = absurd (cc)

    blocked :
        (q'' : Intq) (r : Run)
        → ◌≡◌ {A = Round ℕ}
            (then_do r Point.in_wait q'' (λ k'. after_wait q'' k'))
            (lost Point.in_wait q' k₁)
        → q' ≡ q''
    blocked q'' (done k') e = released q'' (lock_release k' q''.lock) e
    blocked q'' (switched k') e = cc
    blocked q'' panic e = absurd (cc)

    locked :
        (r : Run)
        → ◌≡◌ {A = Round ℕ}
            (then_do r Point.in_acquire q (λ k'. wait_locked Waiter.not_empty q k'))
            (lost Point.in_wait q' k₁)
        → (t : ℕ) × (q' ≡ record q { not_empty = some t })
    locked (done k') e = (k'.current, blocked _ (wait Waiter.not_empty q k').1 e)
    locked (switched k') e = absurd (cc)
    locked panic e = absurd (cc)

    tested :
        (b : Bool)
        → ◌≡◌ {A = Round ℕ}
            (if b
              then failed
              else then_do
                  (lock_acquire k q.lock)
                  Point.in_acquire
                  q
                  (λ k'. wait_locked Waiter.not_empty q k'))
            (lost Point.in_wait q' k₁)
        → (t : ℕ) × (q' ≡ record q { not_empty = some t })
    tested true e = absurd (cc)
    tested false e = locked (lock_acquire k q.lock) e

-- Once an intq_getc has gone to sleep in wait, the next intq_putc stops at a failed assertion,
-- whatever the other threads have done to the kernel in between: signal clears the pointer to the
-- sleeping thread and passes a null pointer to thread_unblock.
pub getc_putc_fails :
    (q : Intq) (k : Kernel) (q' : Intq) (k₁ k₂ : Kernel) (byte : ℕ)
    → intq_getc q k ≡ lost Point.in_wait q' k₁
    → intq_putc q' byte k₂ ≡ failed
unfolding intq_getc intq_putc intq_full intq_empty
getc_putc_fails q k q' k₁ k₂ byte e = tested (q.head == q.tail) refl e
  where
    fails :
        (q.head == q.tail) ≡ true
        → (t : ℕ) × (q' ≡ record q { not_empty = some t })
        → intq_putc q' byte k₂ ≡ failed
    fails h (t, e') =
        subst (λ x. intq_putc x byte k₂ ≡ failed) (sym e')
          (rw (==_ne ((q.head + 1) % 64) q.tail (ground arith)) (
            then_signal_fails tt Waiter.not_empty
              (record q { not_empty = some t; buf = update q.buf q.head byte; head = next q.head })
              k₂ t refl))

    no_wait :
        (b : ℕ) (q'' : Intq) (r : Run)
        → then_do r Point.in_signal q'' (λ k'. returned b q'' k') ≡ lost Point.in_wait q' k₁
        → ⊥
    no_wait b q'' (done k') e = cc
    no_wait b q'' (switched k') e = cc
    no_wait b q'' panic e = cc

    tested :
        (b : Bool)
        → (q.head == q.tail) ≡ b
        → (if b
            then sleep Waiter.not_empty q k
            else then_signal (q.buf q.tail) Waiter.not_full (record q { tail = next q.tail }) k)
          ≡ lost Point.in_wait q' k₁
        → intq_putc q' byte k₂ ≡ failed
    tested true h e = fails h (sleep_records q k q' k₁ e)
    tested false h e =
        absurd (no_wait _ _ (signal Waiter.not_full (record q { tail = next q.tail }) k).1 e)
