-- ===== src/Threads/Synch.antt =====
-- threads/synch.c: semaphores, locks and condition variables, over the scheduler.
use buaa755os.Base.{
  update, ℕ, ◌+◌, ◌-◌, Bool, true, false, not, ◌&&◌, Option, none, some, [], if◌then◌else◌, ◌==◌,
  ltb,
}
use buaa755os.Threads.{Semaphore, Kernel, Run, done, switched, panic, ◌>>=◌, assert, is_some}
use buaa755os.Threads.Sched.{thread_block, thread_unblock}
use buaa755os.Threads.Priority.{
  less_priority, thread_lock_acquired, thread_lock_will_wait, thread_lock_released,
}
use buaa755os.KernelList.{list_max, list_push_back, list_remove}

abbrev pub set_sema : Kernel → ℕ → Semaphore → Kernel
set_sema k s x = record k { semas = update k.semas s x }

unfoldable pub sema_init : Kernel → ℕ → ℕ → Kernel
sema_init k s value = set_sema k s (record { value = value; waiters = [] })

-- A thread that went to sleep in sema_down: its loop begins again when it wakes up.
unfoldable pub asleep : Run → Run
asleep (done k) = switched k
asleep (switched k) = switched k
asleep panic = panic

-- sema_down up to its return, or up to the point where the thread goes to sleep. When it wakes up
-- the loop begins again, so the rest of the call is the same call.
unfoldable pub sema_down : Kernel → ℕ → Run
unfolding thread_block list_push_back asleep
sema_down k s =
    let x = k.semas s in
    assert (not k.in_interrupt) (
      if x.value == 0
      then asleep
          (thread_block (set_sema k s (record x { waiters = list_push_back k.current x.waiters })))
      else done (set_sema k s (record x { value = x.value - 1 })))

unfoldable pub sema_try_down : Kernel → ℕ → Kernel × Bool
sema_try_down k s =
    let x = k.semas s in
    if ltb 0 x.value then (set_sema k s (record x { value = x.value - 1 }), true) else (k, false)

unfoldable pub sema_up : Kernel → ℕ → Run
unfolding list_max list_remove thread_unblock
sema_up k s =
    let x = k.semas s in
    elim (list_max (less_priority k) x.waiters) [
      | none ↦ done (set_sema k s (record x { value = x.value + 1 }))
      | some t ↦
          thread_unblock
            (set_sema k s (record { value = x.value + 1; waiters = list_remove t x.waiters })) t
    ]

unfoldable pub set_holder : Kernel → ℕ → Option ℕ → Kernel
set_holder k lock h = record k { holder = update k.holder lock h }

unfoldable pub lock_init : Kernel → ℕ → Kernel
unfolding set_holder sema_init
lock_init k lock = sema_init (set_holder k lock none) lock 1

unfoldable pub lock_held_by_current_thread : Kernel → ℕ → Bool
lock_held_by_current_thread k lock = is_some (k.holder lock) k.current

-- The end of lock_acquire, once the semaphore is down.
unfoldable pub lock_taken : Kernel → ℕ → Run
unfolding set_holder thread_lock_acquired
lock_taken k lock = thread_lock_acquired (set_holder k lock (some k.current)) lock

unfoldable pub lock_acquire : Kernel → ℕ → Run
lock_acquire k lock =
    let (k', success) = sema_try_down k lock in
    assert (not k.in_interrupt && not (lock_held_by_current_thread k lock)) (
      if success
      then lock_taken k' lock
      else (thread_lock_will_wait k lock >>= λ k₁. sema_down k₁ lock >>= λ k₂. lock_taken k₂ lock))

-- The rest of a lock_acquire that lost the processor, when its thread runs again.
unfoldable pub lock_acquire_resumed : Kernel → ℕ → Run
lock_acquire_resumed k lock = sema_down k lock >>= λ k'. lock_taken k' lock

-- The result says whether the lock was taken; a failed assertion is `none`.
unfoldable pub lock_try_acquire : Kernel → ℕ → Option (Kernel × Bool)
unfolding lock_held_by_current_thread sema_try_down set_holder
lock_try_acquire k lock =
    let (k', success) = sema_try_down k lock in
    if lock_held_by_current_thread k lock
    then none
    else some (if success then set_holder k' lock (some k.current) else k', success)

unfoldable pub lock_release : Kernel → ℕ → Run
lock_release k lock =
    assert (lock_held_by_current_thread k lock)
      (sema_up (set_holder k lock none) lock >>= λ k'. thread_lock_released k' lock)
