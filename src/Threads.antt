-- ===== src/Threads.antt =====
-- pintos_3/src/threads/thread.c, thread.h and synch.c: the state of the threads and of the locks.
pub mod Sched
pub mod Valid
pub mod Switch
pub mod Priority
pub mod Raise
pub mod Donation
pub mod Kept
pub mod Running
pub mod Locks
pub mod Wake
pub mod Waiting
pub mod Release
pub mod TryAcquire
pub mod Synch
pub mod Cond
pub mod Signal
mod Tests
use buaa755os.Base.{update, ℕ, Bool, true, false, Option, none, some, List, if◌then◌else◌, ◌==◌}
use buaa755os.Base.Int.{ℤ}

pub data Status : Type 0 where
  running ready blocked dying : Status

-- `struct thread`, less its name, its stack and what belongs to user programs. A lock is named by
-- its address.
pub record Thread : Type 0 where
  pub status : Status
  pub priority : ℕ
  pub base_priority : ℕ
  pub waiting_lock : Option ℕ
  pub locks_owned_list : List ℕ
  pub wakeup_ticks : ℕ
  pub nice : ℤ
  pub recent_cpu : ℤ

-- `struct semaphore`: a waiting thread stands for its list element.
pub record Semaphore : Type 0 where
  pub value : ℕ
  pub waiters : List ℕ

-- The variables of thread.c, the threads by number, and the locks and semaphores by address. The
-- semaphore inside the lock at an address is the semaphore of that address.
pub record Kernel : Type 0 where
  pub threads : ℕ → Thread
  pub semas : ℕ → Semaphore
  pub holder : ℕ → Option ℕ
  pub ready_list : List ℕ
  pub current : ℕ
  pub idle_thread : ℕ
  pub thread_mlfqs : Bool
  pub in_interrupt : Bool
  pub yield_on_return : Bool

abbrev pub pri_min : ℕ
pri_min = 0

abbrev pub pri_max : ℕ
pri_max = 63

abbrev pub set_thread : Kernel → ℕ → Thread → Kernel
set_thread k t x = record k { threads = update k.threads t x }

abbrev pub priority_of : Kernel → ℕ → ℕ
priority_of k t = (k.threads t).priority

-- How a call ends: it returns, or the thread loses the processor inside it (what is left of the
-- call runs when the thread is scheduled again), or an assertion fails.
pub data Run : Type 0 where
  done : Kernel → Run
  switched : Kernel → Run
  panic : Run

infixl 5 ◌>>=◌
abbrev pub ◌>>=◌ : Run → (Kernel → Run) → Run
done k >>= f = f k
switched k >>= f = switched k
panic >>= f = panic

-- ASSERT (c), before what follows.
abbrev pub assert : Bool → Run → Run
assert true r = r
assert false r = panic

abbrev pub is_status : Status → Status → Bool
is_status Status.running Status.running = true
is_status Status.ready Status.ready = true
is_status Status.blocked Status.blocked = true
is_status Status.dying Status.dying = true
is_status _ _ = false

-- Pointer comparison with a possibly null pointer.
abbrev pub is_some : Option ℕ → ℕ → Bool
is_some none t = false
is_some (some u) t = u == t
