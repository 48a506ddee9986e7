-- ===== src/Intq.antt =====
-- pintos_3/src/devices/intq.c: the byte queue between threads and interrupt handlers. Interrupts
-- are off in every call, so a call is one step up to where its thread loses the processor.
pub mod Refine
pub mod Wake
mod Tests
use buaa755os.Base.{
  ℕ, ◌+◌, ◌%◌, Bool, true, false, not, Option, none, some, update, if◌then◌else◌, ◌==◌,
}
use buaa755os.Threads.{Kernel, Run, done, switched, panic, assert}
use buaa755os.Threads.Sched.{thread_block, thread_unblock}
use buaa755os.Threads.Synch.{lock_acquire, lock_release}

abbrev pub intq_bufsize : ℕ
intq_bufsize = 64

-- `struct intq`, with its lock by address, and null for no waiting thread.
pub record Intq : Type 0 where
  pub lock : ℕ
  pub not_full : Option ℕ
  pub not_empty : Option ℕ
  pub buf : ℕ → ℕ
  pub head : ℕ
  pub tail : ℕ

-- Which member a `struct thread **` points to.
pub data Waiter : Type 0 where
  not_full not_empty : Waiter

-- Where a call lost the processor.
pub data Point : Type 0 where
  in_acquire in_wait in_release in_signal : Point

-- How a round of a call ends: it returns, its loop tests its condition again, its thread lost the
-- processor, or an assertion failed.
pub data Round (A : Type 0) : Type 0 where
  returned : A → Intq → Kernel → Round A
  again : Intq → Kernel → Round A
  lost : Point → Intq → Kernel → Round A
  failed : Round A

-- What follows a call of the kernel.
abbrev pub then_do : {A : Type 0} → Run → Point → Intq → (Kernel → Round A) → Round A
then_do (done k) p q f = f k
then_do (switched k) p q f = lost p q k
then_do panic p q f = failed

unfoldable pub intq_init : ℕ → (ℕ → ℕ) → Intq
intq_init lock buf = record {
  lock = lock;
  not_full = none;
  not_empty = none;
  buf = buf;
  head = 0;
  tail = 0;
}

unfoldable pub next : ℕ → ℕ
next pos = (pos + 1) % intq_bufsize

unfoldable pub intq_empty : Intq → Bool
intq_empty q = q.head == q.tail

unfoldable pub intq_full : Intq → Bool
unfolding next
intq_full q = next q.head == q.tail

abbrev pub waiter_of : Waiter → Intq → Option ℕ
waiter_of Waiter.not_full q = q.not_full
waiter_of Waiter.not_empty q = q.not_empty

abbrev pub set_waiter : Waiter → Intq → Option ℕ → Intq
set_waiter Waiter.not_full q t = record q { not_full = t }
set_waiter Waiter.not_empty q t = record q { not_empty = t }

-- Whether what the member's thread waits for is still missing.
unfoldable pub must_wait : Waiter → Intq → Bool
must_wait Waiter.not_full q = intq_full q
must_wait Waiter.not_empty q = intq_empty q

unfoldable pub wait : Waiter → Intq → Kernel → Intq × Run
wait waiter q k = (
  set_waiter waiter q (some k.current),
  assert (not k.in_interrupt) (assert (must_wait waiter q) (thread_block k)),
)

-- thread_unblock of a pointer: ASSERT (is_thread (t)) fails for a null pointer.
unfoldable pub thread_unblock_at : Kernel → Option ℕ → Run
thread_unblock_at k none = panic
thread_unblock_at k (some t) = thread_unblock k t

-- The end of signal, for what `*waiter` was.
unfoldable pub signal_thread : Waiter → Intq → Kernel → Option ℕ → Intq × Run
unfolding thread_unblock_at
signal_thread waiter q k none = (q, done k)
signal_thread waiter q k (some t) =
    let q' = set_waiter waiter q none in (q', thread_unblock_at k (waiter_of waiter q'))

unfoldable pub signal : Waiter → Intq → Kernel → Intq × Run
signal waiter q k =
    let (q', r) = signal_thread waiter q k (waiter_of waiter q) in
    (q', assert (not (must_wait waiter q)) r)

-- The loop's body once a thread has been woken.
unfoldable pub after_wait : {A : Type 0} → Intq → Kernel → Round A
after_wait q k = then_do (lock_release k q.lock) Point.in_release q (λ k'. again q k')

-- The loop's body once the lock is taken.
unfoldable pub wait_locked : {A : Type 0} → Waiter → Intq → Kernel → Round A
unfolding after_wait
wait_locked waiter q k =
    let (q', r) = wait waiter q k in then_do r Point.in_wait q' (λ k'. after_wait q' k')

-- The loop's body.
unfoldable pub sleep : {A : Type 0} → Waiter → Intq → Kernel → Round A
unfolding wait_locked
sleep waiter q k =
    if k.in_interrupt
    then failed
    else then_do (lock_acquire k q.lock) Point.in_acquire q (λ k'. wait_locked waiter q k')

-- The end of a call, which signals.
abbrev pub then_signal : {A : Type 0} → A → Waiter → Intq → Kernel → Round A
then_signal a waiter q k =
    let (q', r) = signal waiter q k in then_do r Point.in_signal q' (λ k'. returned a q' k')

-- One round of intq_getc.
unfoldable pub intq_getc : Intq → Kernel → Round ℕ
unfolding next
intq_getc q k =
    if intq_empty q
    then sleep Waiter.not_empty q k
    else then_signal (q.buf q.tail) Waiter.not_full (record q { tail = next q.tail }) k

-- One round of intq_putc.
unfoldable pub intq_putc : Intq → ℕ → Kernel → Round (Unit {0})
unfolding next
intq_putc q byte k =
    if intq_full q
    then sleep Waiter.not_full q k
    else then_signal tt Waiter.not_empty
        (record q { buf = update q.buf q.head byte; head = next q.head }) k
