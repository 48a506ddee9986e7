-- ===== src/Threads/Cond.antt =====
-- threads/synch.c: condition variables, over semaphores and locks.
use buaa755os.Base.{
  ℕ, zero, suc, Bool, not, ◌&&◌, Option, none, some, List, [], if◌then◌else◌, ltb, ◌==◌, length,
}
use buaa755os.Threads.{Kernel, Run, done, switched, panic, ◌>>=◌, assert, priority_of}
use buaa755os.Threads.Synch.{
  sema_init, sema_down, sema_up, lock_acquire, lock_release, lock_held_by_current_thread,
}
use buaa755os.KernelList.{list_max, list_push_back, list_remove, list_empty}

-- `struct condition`. A `struct semaphore_elem` is named by the address of its semaphore, and
-- `thread` is the thread that waits with it.
pub record Condition : Type 0 where
  pub waiters : List ℕ
  pub thread : ℕ → ℕ

unfoldable pub cond_init : Condition → Condition
cond_init cond = record cond { waiters = [] }

-- waiters_priority_compare
abbrev pub waits_below : Kernel → Condition → ℕ → ℕ → Bool
waits_below k cond a b = ltb (priority_of k (cond.thread a)) (priority_of k (cond.thread b))

-- The condition with the current thread among those that wait, at the semaphore `waiter`, which is
-- new and on the thread's stack.
unfoldable pub join_waiters : Kernel → Condition → ℕ → Condition
unfolding list_push_back
join_waiters k cond waiter = record {
  waiters = list_push_back waiter cond.waiters;
  thread = λ w. if w == waiter then k.current else cond.thread w;
}

-- cond_wait: the condition that others see from the release of the lock on, and the run.
unfoldable pub cond_wait : Kernel → Condition → ℕ → ℕ → Condition × Run
unfolding join_waiters
cond_wait k cond waiter lock = (
  join_waiters k cond waiter,
  assert (not k.in_interrupt && lock_held_by_current_thread k lock) (
      lock_release (sema_init k waiter 0) lock >>= λ k₁.
      sema_down k₁ waiter >>= λ k₂. lock_acquire k₂ lock),
)

-- What cond_signal does with the waiter that it picks.
unfoldable pub signal_waiter : Kernel → Condition → Option ℕ → Condition × Run
unfolding list_remove
signal_waiter k cond none = (cond, done k)
signal_waiter k cond (some w) = (record cond { waiters = list_remove w cond.waiters }, sema_up k w)

-- The condition after cond_signal, where it does not panic, and the run.
unfoldable pub cond_signal : Kernel → Condition → ℕ → Condition × Run
unfolding list_max
cond_signal k cond lock =
    let (cond', r) = signal_waiter k cond (list_max (waits_below k cond) cond.waiters) in
    (cond', assert (not k.in_interrupt && lock_held_by_current_thread k lock) r)

-- cond_broadcast, with as many rounds as threads wait: a signal takes one of them away.
unfoldable pub broadcast : ℕ → Kernel → Condition → ℕ → Condition × Run
unfolding list_empty
broadcast zero k cond lock = (cond, done k)
broadcast (suc n) k cond lock =
    if list_empty cond.waiters
    then (cond, done k)
    else next (λ k' c'. broadcast n k' c' lock) (cond_signal k cond lock)
  where
    next : (Kernel → Condition → Condition × Run) → Condition × Run → Condition × Run
    next again (cond', done k') = again k' cond'
    next again (cond', switched k') = (cond', switched k')
    next again (cond', panic) = (cond', panic)

unfoldable pub cond_broadcast : Kernel → Condition → ℕ → Condition × Run
unfolding broadcast
cond_broadcast k cond lock = broadcast (length cond.waiters) k cond lock
