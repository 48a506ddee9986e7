-- ===== src/Threads/Running.antt =====
-- The invariant under changes of the running thread's own record: its priority and its locks.
use buaa755os.Base.{
  update, update_self, ℕ, ◌≤◌, ◌≡◌, refl, Bool, true, false, not, Option, some, arith, ap, ◌∙◌,
  ◌&&◌, ==_refl,
}
use buaa755os.Base.Int.{ℤ}
use buaa755os.KernelList.Ordered.{All-map, NotIn}
use buaa755os.Threads.{Thread, Semaphore, Kernel, Status, set_thread, is_some}
use buaa755os.Threads.Priority.{
  with_base, trim_priority, thread_set_priority, thread_lock_acquired,
  lock_in_thread_locks_owned_list,
}
use buaa755os.Threads.Synch.{set_holder, lock_taken}
use buaa755os.Threads.Valid.{
  IsQueued, IsValid, Returns, assert_holds, Returns-if, set_thread-IsQueued, NotIn-status,
  update_keeps,
}
use buaa755os.Threads.Switch.{maybe_yield-IsValid}

-- The running thread is not in the ready list.
pub current-NotIn :
    (k : Kernel)
    → (k.threads k.current).status ≡ Status.running
    → IsQueued k
    → NotIn k.current k.ready_list
current-NotIn k run q = NotIn-status k k.current k.ready_list (λ e. cc) q.are_ready

with_base-floor : (t : Thread) (p : ℕ) → (with_base t p).base_priority ≤ (with_base t p).priority
unfolding with_base
with_base-floor t p = ground arith

with_base-status : (t : Thread) (p : ℕ) → (with_base t p).status ≡ t.status
unfolding with_base
with_base-status t p = refl

-- thread_set_priority, in a valid state, does not panic, and leaves a valid state.
pub thread_set_priority-IsValid :
    (k : Kernel) (p : ℤ) → IsValid k → Returns IsValid (thread_set_priority k p)
unfolding thread_set_priority
thread_set_priority-IsValid k p v =
    let x = with_base (k.threads k.current) (trim_priority p) in
    let out = current-NotIn k v.is_running v.queued in
    maybe_yield-IsValid (set_thread k k.current x)
      (ap (λ y. y.status) (update_self k.threads k.current x)
        ∙ with_base-status (k.threads k.current) (trim_priority p)
        ∙ v.is_running)
      (set_thread-IsQueued k k.current x out
        (with_base-floor (k.threads k.current) (trim_priority p)) v.queued)

-- Semaphores and holders are no part of the invariant.
pub frame-IsQueued :
    (k : Kernel) (s : ℕ → Semaphore) (h : ℕ → Option ℕ)
    → IsQueued k
    → IsQueued (record k { semas = s; holder = h })
frame-IsQueued k s h q = record {
  sorted = q.sorted;
  are_ready = q.are_ready;
  distinct = q.distinct;
  floor = q.floor;
}

pub frame-IsValid :
    (k : Kernel) (s : ℕ → Semaphore) (h : ℕ → Option ℕ)
    → IsValid k
    → IsValid (record k { semas = s; holder = h })
frame-IsValid k s h v = record {
  queued = frame-IsQueued k s h v.queued;
  is_running = v.is_running;
  top = v.top;
}

-- A change of the running thread's record that leaves its status and priorities.
own_record-IsValid :
    (k : Kernel) (x : Thread)
    → x.status ≡ (k.threads k.current).status
    → x.priority ≡ (k.threads k.current).priority
    → x.base_priority ≡ (k.threads k.current).base_priority
    → IsValid k
    → IsValid (set_thread k k.current x)
own_record-IsValid k x s p b v = record {
  queued =
      set_thread-IsQueued k k.current x (current-NotIn k v.is_running v.queued)
        (omega (arith, v.queued.floor k.current)) v.queued;
  is_running = ap (λ y. y.status) (update_self k.threads k.current x) ∙ s ∙ v.is_running;
  top = λ e.
      All-map k.ready_list
        (λ u h. omega (
          arith,
          update_keeps (λ y. y.priority) k.threads k.current u x p,
          update_keeps (λ y. y.priority) k.threads k.current k.current x p,
        ))
        (v.top e);
}

all_three : (a b c : Bool) → a ≡ false → b ≡ true → c ≡ false → not a && b && not c ≡ true
all_three a b c ha hb hc = rw (ha, hb, hc)

thread_lock_acquired-IsValid :
    (k : Kernel) (lock : ℕ)
    → k.in_interrupt ≡ false
    → is_some (k.holder lock) k.current ≡ true
    → lock_in_thread_locks_owned_list lock (k.threads k.current).locks_owned_list ≡ false
    → IsValid k
    → Returns IsValid (thread_lock_acquired k lock)
unfolding thread_lock_acquired
thread_lock_acquired-IsValid k lock calm held new v =
    Returns-if IsValid k.thread_mlfqs _ _ (λ _. v)
      (λ _.
        assert_holds IsValid _ _ (all_three _ _ _ calm held new)
          (own_record-IsValid k _ refl refl refl v))

-- The end of lock_acquire.
pub lock_taken-IsValid :
    (k : Kernel) (lock : ℕ)
    → k.in_interrupt ≡ false
    → lock_in_thread_locks_owned_list lock (k.threads k.current).locks_owned_list ≡ false
    → IsValid k
    → Returns IsValid (lock_taken k lock)
unfolding lock_taken set_holder
lock_taken-IsValid k lock calm new v =
    thread_lock_acquired-IsValid (record k { holder = update k.holder lock (some k.current) }) lock
      calm (rw (update_self k.holder lock (some k.current)) (==_refl k.current)) new
      (frame-IsValid k k.semas (update k.holder lock (some k.current)) v)
