-- ===== src/Threads/Tests.antt =====
-- The scheduler and the locks on a kernel with five threads. Thread 0 runs, with locks 7 and 8;
-- thread 1 is ready and holds lock 5; thread 2 waits for semaphore 9; thread 3 holds lock 6 and
-- waits for lock 5; thread 4 waits for lock 8.
use buaa755os.Base.{
  ℕ, zero, suc, ◌≤◌, ◌≡◌, refl, false, Option, none, some, List, [], ◌∷◌, if◌then◌else◌, ◌==◌,
  arith, inl, inr,
}
use buaa755os.Base.Int.{pos}
use buaa755os.Threads.{Thread, Semaphore, Kernel, Status, Run, panic, priority_of}
use buaa755os.Threads.Priority.{thread_set_priority, donate, thread_lock_released}
use buaa755os.Threads.Synch.{lock_held_by_current_thread, sema_up, lock_acquire}
use buaa755os.Threads.Valid.{IsQueued, IsValid, Returns}
use buaa755os.Threads.Donation.{donate-Reaches}
use buaa755os.Threads.Locks.{lock_acquire-IsValid}
use buaa755os.Threads.Wake.{Woken, sema_up-Woken}
use buaa755os.Threads.Release.{
  Released, thread_lock_released-Released, release_panics, RunsBelow, set_priority_drops,
}
use buaa755os.Threads.Cond.{Condition, cond_signal}
use buaa755os.Threads.Signal.{Signalled, cond_signal-Signalled}

abbrev thread : Status → ℕ → ℕ → Option ℕ → List ℕ → Thread
thread status base_priority priority waiting_lock locks_owned_list = record {
  status = status;
  priority = priority;
  base_priority = base_priority;
  waiting_lock = waiting_lock;
  locks_owned_list = locks_owned_list;
  wakeup_ticks = 0;
  nice = pos 0;
  recent_cpu = pos 0;
}

abbrev who : ℕ → ℕ → Thread
who base zero = thread Status.running base 35 none (7 ∷ 8 ∷ [])
who base (suc zero) = thread Status.ready 31 31 none (5 ∷ [])
who base (suc (suc zero)) = thread Status.blocked 40 40 none []
who base (suc (suc (suc zero))) = thread Status.blocked 20 20 (some 5) (6 ∷ [])
who base (suc (suc (suc (suc zero)))) = thread Status.blocked 33 33 (some 8) []
who base (suc (suc (suc (suc (suc n))))) = thread Status.dying 31 31 none []

abbrev world : ℕ → Kernel
world base = record {
  threads = who base;
  semas = λ s.
      if s == 5
      then record { value = 0; waiters = 3 ∷ [] }
      else if s == 8
      then record { value = 0; waiters = 4 ∷ [] }
      else if s == 9
      then record { value = 0; waiters = 2 ∷ [] }
      else if s == 6
      then record { value = 0; waiters = [] }
      else record { value = 1; waiters = [] };
  holder =
      λ l. if l == 5 then some 1 else if l == 6 then some 3 else if l == 8 then some 0 else none;
  ready_list = 1 ∷ [];
  current = 0;
  idle_thread = 99;
  thread_mlfqs = false;
  in_interrupt = false;
  yield_on_return = false;
}

-- A base priority of 30 under a donated one of 35.
abbrev kernel : Kernel
kernel = world 30

floor_who : (base u : ℕ) → base ≤ 35 → (who base u).base_priority ≤ (who base u).priority
floor_who base zero h = h
floor_who base (suc zero) h = omega arith
floor_who base (suc (suc zero)) h = omega arith
floor_who base (suc (suc (suc zero))) h = omega arith
floor_who base (suc (suc (suc (suc zero)))) h = omega arith
floor_who base (suc (suc (suc (suc (suc n))))) h = omega arith

world-IsQueued : (base : ℕ) → base ≤ 35 → IsQueued (world base)
world-IsQueued base h = record {
  sorted = (tt, tt);
  are_ready = (refl, tt);
  distinct = (tt, tt);
  floor = λ u. floor_who base u h;
}

world-IsValid : (base : ℕ) → base ≤ 35 → IsValid (world base)
world-IsValid base h = record {
  queued = world-IsQueued base h;
  is_running = refl;
  top = λ _. (omega arith, tt);
}

kernel-IsQueued : IsQueued kernel
kernel-IsQueued = world-IsQueued 30 (omega arith)

kernel-IsValid : IsValid kernel
kernel-IsValid = world-IsValid 30 (omega arith)

-- A donation to the holder of lock 6 goes on to the holder of lock 5.
donate_chain : priority_of (donate 8 (some 3) kernel) 1 ≡ 35
unfolding donate
donate_chain = refl

donate-Reaches_example : priority_of kernel 0 ≤ priority_of (donate 8 (some 3) kernel) 1
donate-Reaches_example =
    donate-Reaches 8 3 1 kernel refl kernel-IsQueued (inr (refl, (5, 1, refl, refl, inl refl)))
      (inr refl)

lock_acquire-IsValid_example : Returns IsValid (lock_acquire kernel 6)
unfolding buaa755os.Threads.Priority.lock_in_thread_locks_owned_list
lock_acquire-IsValid_example = lock_acquire-IsValid kernel 6 refl refl refl kernel-IsValid

sema_up-Woken_example : (t : ℕ) × Returns (Woken kernel 9 t) (sema_up kernel 9)
sema_up-Woken_example = sema_up-Woken kernel 9 2 [] refl (refl, tt) kernel-IsValid

thread_lock_released-Released_example : Returns (Released kernel 7) (thread_lock_released kernel 7)
unfolding buaa755os.Threads.Priority.lock_in_thread_locks_owned_list
thread_lock_released-Released_example =
    thread_lock_released-Released kernel 7 refl refl refl
      ((λ ne. absurd (ne refl)), ((λ _. (omega arith, tt)), tt)) kernel-IsValid

-- Thread 0 below the priority of the thread that waits for its lock 8.
abbrev dropped : Kernel
dropped = record kernel {
  threads = λ t. if t == 0 then thread Status.running 30 30 none (7 ∷ 8 ∷ []) else who 30 t;
}

release_panics_example : thread_lock_released dropped 7 ≡ panic
release_panics_example =
    release_panics dropped 7 8 4 (7 ∷ []) [] [] [] refl refl (λ e. absurd (omega (arith, e))) refl
      (omega arith)

set_priority_drops_example :
    Returns (RunsBelow (world 35) 0 8 4) (thread_set_priority (world 35) (pos 10))
set_priority_drops_example =
    set_priority_drops (world 35) 10 8 4 (7 ∷ []) [] [] [] refl refl refl
      (λ e. absurd (omega (arith, e))) (omega arith) (omega arith) (world-IsValid 35 (omega arith))

-- A condition on lock 8, for which threads 3 and 2 wait, at semaphores 5 and 9.
abbrev condition : Condition
condition = record { waiters = 5 ∷ 9 ∷ []; thread = λ w. if w == 5 then 3 else 2 }

cond_signal-Signalled_example :
    (v : ℕ) × Signalled kernel condition v
      (cond_signal kernel condition 8).0
      (cond_signal kernel condition 8).1
unfolding lock_held_by_current_thread
cond_signal-Signalled_example =
    cond_signal-Signalled kernel condition 8 5 (9 ∷ []) refl refl refl
      ((refl, refl), ((refl, refl), tt)) kernel-IsValid
