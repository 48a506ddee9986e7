-- ===== src/Threads/Signal.antt =====
-- synch.c: which thread a signal wakes.
use buaa755os.Base.{ℕ, ◌≡◌, Bool, true, false, not, ◌&&◌, some, List, [], ◌∷◌, ◌++◌, ap, ◌∙◌, sym}
use mathlib.Core.Path.{subst}
use buaa755os.KernelList.{list_max, list_remove}
use buaa755os.KernelList.Ordered.{All, IsMax, list_max_lem}
use buaa755os.Threads.{Kernel, Status, Run, priority_of}
use buaa755os.Threads.Synch.{sema_up, lock_held_by_current_thread}
use buaa755os.Threads.Cond.{Condition, waits_below, signal_waiter, cond_signal}
use buaa755os.Threads.Valid.{IsValid, Returns, Returns-map, assert_holds}
use buaa755os.Threads.Wake.{Woken, sema_up-Woken, All-middle}

-- A signal took this waiter, the earliest of those whose threads have the highest priority, off the
-- list, and woke the thread at its semaphore.
pub record Signalled (k : Kernel) (cond : Condition) (w : ℕ) (cond' : Condition) (r : Run)
    : Type 0 where
  pub highest : IsMax (λ v. priority_of k (cond.thread v)) cond.waiters w
  pub waiters : cond'.waiters ≡ list_remove w cond.waiters
  pub woken : Returns (Woken k w (cond.thread w)) r

both : (a b : Bool) → a ≡ false → b ≡ true → not a && b ≡ true
both a b e f = cc

-- The greatest element of a list of one.
only_one : (before : List ℕ) (t u : ℕ) (after : List ℕ) → t ∷ [] ≡ before ++ u ∷ after → u ≡ t
only_one [] t u after e = cc
only_one (x ∷ []) t u after e = absurd (cc)
only_one (x ∷ y ∷ before) t u after e = absurd (cc)

-- A semaphore at which just one thread waits wakes that thread.
wakes_one :
    (k : Kernel) (s t : ℕ)
    → (k.semas s).waiters ≡ t ∷ []
    → (k.threads t).status ≡ Status.blocked
    → IsValid k
    → Returns (Woken k s t) (sema_up k s)
wakes_one k s t e b v =
    let (u, r) =
      sema_up-Woken k s t [] e
        (subst (All (λ x. (k.threads x).status ≡ Status.blocked)) (sym e) (b, tt)) v in
    Returns-map (Woken k s u) (Woken k s t) (sema_up k s)
      (λ k' q.
        (let m : IsMax (priority_of k) (t ∷ []) u =
            subst (λ l. IsMax (priority_of k) l u) e q.highest in
          subst (λ x. Woken k s x k') (only_one m.before t u m.after m.split) q))
      r

-- cond_signal, outside an interrupt, by the holder of the lock, with threads that wait, each blocked
-- at its own semaphore, in a valid state, does not panic. It takes the earliest waiter of those whose
-- threads have the highest priority off the list, wakes its thread, and leaves a valid state.
pub cond_signal-Signalled :
    (k : Kernel) (cond : Condition) (lock w : ℕ) (ws : List ℕ)
    → k.in_interrupt ≡ false
    → lock_held_by_current_thread k lock ≡ true
    → cond.waiters ≡ w ∷ ws
    → All
        (λ v.
          ((k.semas v).waiters ≡ cond.thread v ∷ [])
          × ((k.threads (cond.thread v)).status ≡ Status.blocked))
        cond.waiters
    → IsValid k
    → (v : ℕ) × Signalled k cond v (cond_signal k cond lock).0 (cond_signal k cond lock).1
unfolding cond_signal signal_waiter
cond_signal-Signalled k cond lock w ws calm held e asleep v =
    let key : ℕ → ℕ = λ a. priority_of k (cond.thread a) in
    let (top, picked, m) = list_max_lem key w ws in
    let max : IsMax key cond.waiters top = subst (λ l. IsMax key l top) (sym e) m in
    let chosen : list_max (waits_below k cond) cond.waiters ≡ some top =
      ap (list_max (waits_below k cond)) e ∙ picked in
    let (alone, blocked) =
      All-middle
        (λ v.
          ((k.semas v).waiters ≡ cond.thread v ∷ [])
          × ((k.threads (cond.thread v)).status ≡ Status.blocked))
        max.before top max.after cond.waiters max.split asleep in
    (
      top,
      record {
        highest = max;
        waiters = ap (λ o. (signal_waiter k cond o).0.waiters) chosen;
        woken = assert_holds (Woken k top (cond.thread top)) _ _ (both _ _ calm held) (
            subst (λ o. Returns (Woken k top (cond.thread top)) (signal_waiter k cond o).1)
              (sym chosen) (wakes_one k top (cond.thread top) alone blocked v));
      },
    )
