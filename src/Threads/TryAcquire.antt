-- ===== src/Threads/TryAcquire.antt =====
-- A lock that was taken by lock_try_acquire cannot be released: lock_try_acquire does not list it
-- among the locks that the thread owns, and thread_lock_released asserts that it is listed.
use buaa755os.Base.{
  update, update_self, ℕ, ◌≡◌, ◌+◌, refl, Bool, true, false, not, ◌&&◌, none, some, List, [],
  if◌then◌else◌, ltb, ap, ◌∙◌, ==_refl,
}
use buaa755os.KernelList.{list_max, list_remove}
use buaa755os.Threads.{Kernel, Run, done, panic, ◌>>=◌, assert, is_some}
use buaa755os.Threads.Sched.{thread_unblock}
use buaa755os.Threads.Priority.{
  lock_in_thread_locks_owned_list, thread_lock_released, less_priority,
}
use buaa755os.Threads.Synch.{
  lock_try_acquire, lock_release, lock_held_by_current_thread, set_holder, sema_up, set_sema,
}
use buaa755os.Threads.Locks.{took_sema, try_down-free}

sema_up-alone :
    (k : Kernel) (s : ℕ)
    → (k.semas s).waiters ≡ []
    → sema_up k s ≡ done (set_sema k s (record (k.semas s) { value = (k.semas s).value + 1 }))
unfolding sema_up list_max
sema_up-alone k s e =
    ap
      (λ (l : List ℕ). elim (list_max (less_priority k) l) [
        | none ↦ done (set_sema k s (record (k.semas s) { value = (k.semas s).value + 1 }))
        | some t ↦
            thread_unblock
              (set_sema k s (record {
                value = (k.semas s).value + 1;
                waiters = list_remove t (k.semas s).waiters;
              }))
              t
      ])
      e

not_listed :
    (k : Kernel) (lock : ℕ)
    → k.thread_mlfqs ≡ false
    → lock_in_thread_locks_owned_list lock (k.threads k.current).locks_owned_list ≡ false
    → thread_lock_released k lock ≡ panic
unfolding thread_lock_released
not_listed k lock donates new =
    stops k.thread_mlfqs (is_some (k.holder lock) k.current) _ _ _ donates new
  where
    stops :
        (c a b : Bool) (x : Kernel) (r : Run)
        → c ≡ false
        → b ≡ false
        → (if c then done x else assert (not a && b) r) ≡ panic
    stops true a b x r hc hb = cc
    stops false true b x r hc hb = refl
    stops false false true x r hc hb = cc
    stops false false false x r hc hb = refl

-- Without the multi-level scheduler, a free lock that the running thread does not list can be taken
-- by lock_try_acquire, and the lock_release that gives it back panics.
pub try_acquire_release :
    (k : Kernel) (lock : ℕ)
    → k.thread_mlfqs ≡ false
    → is_some (k.holder lock) k.current ≡ false
    → ltb 0 (k.semas lock).value ≡ true
    → (k.semas lock).waiters ≡ []
    → lock_in_thread_locks_owned_list lock (k.threads k.current).locks_owned_list ≡ false
    → (k' : Kernel) × (lock_try_acquire k lock ≡ some (k', true)) × (lock_release k' lock ≡ panic)
unfolding lock_try_acquire lock_held_by_current_thread lock_release set_holder
try_acquire_release k lock donates other free alone new =
    let k₁ = took_sema k lock in
    let k₂ : Kernel = record k₁ { holder = update k₁.holder lock (some k₁.current) } in
    let k₃ : Kernel = record k₂ { holder = update k₂.holder lock none } in
    let empty : (k₃.semas lock).waiters ≡ [] =
      ap (λ x. x.waiters) (update_self k.semas lock _) ∙ alone in
    let held : is_some (k₂.holder lock) k₂.current ≡ true =
      ap (λ o. is_some o k.current) (update_self k.holder lock (some k.current))
      ∙ ==_refl k.current in
    let k₄ = set_sema k₃ lock (record (k₃.semas lock) { value = (k₃.semas lock).value + 1 }) in
    let up : sema_up k₃ lock ≡ done k₄ = sema_up-alone k₃ lock empty in
    (
      k₂,
      rw (other, try_down-free k lock free),
      goes _ _ held
          ∙ ap (λ r. r >>= λ k'. thread_lock_released k' lock) up
          ∙ not_listed k₄ lock donates new,
    )
  where
    goes : (c : Bool) (r : Run) → c ≡ true → assert c r ≡ r
    goes true r h = refl
    goes false r h = cc
