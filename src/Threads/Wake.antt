-- ===== src/Threads/Wake.antt =====
-- sema_up: whom it wakes; and thread_lock_released: what priority is left after a release.
use buaa755os.Base.{
  update_self, ℕ, ◌+◌, ◌≡◌, ◌≢◌, refl, none, some, List, [], ◌∷◌, ◌++◌, sym, ap, ◌∙◌,
}
use mathlib.Core.Path.{subst}
use buaa755os.KernelList.{list_max, list_remove}
use buaa755os.KernelList.Ordered.{All, IsMax, list_max_lem}
use buaa755os.Threads.{
  Semaphore, Kernel, Status, Run, done, switched, panic, priority_of, is_status,
}
use buaa755os.Threads.Sched.{thread_unblock, maybe_yield_to_ready_thread, set_status, insert_ready}
use buaa755os.Threads.Priority.{less_priority}
use buaa755os.Threads.Synch.{sema_up, set_sema}
use buaa755os.Threads.Valid.{IsValid, Returns, Returns-map, assert_holds}
use buaa755os.Threads.Switch.{thread_unblock-IsValid}
use buaa755os.Threads.Kept.{Kept, maybe_yield-Kept}
use buaa755os.Threads.Running.{frame-IsValid}

-- A predicate of both results of a call.
pub Returns-both :
    (P Q : Kernel → Type 0) (r : Run) → Returns P r → Returns Q r → Returns (λ k. P k × Q k) r
Returns-both P Q (done k) p q = (p, q)
Returns-both P Q (switched k) p q = (p, q)
Returns-both P Q panic p q = p

abbrev Awake : Kernel → ℕ → Kernel → Type 0
Awake k t k' = ((k'.threads t).status ≢ Status.blocked) × (k'.semas ≡ k.semas)

-- An unblocked thread is not blocked any more, and no semaphore or priority has changed.
thread_unblock-wakes :
    (k : Kernel) (t : ℕ)
    → (k.threads t).status ≡ Status.blocked
    → Returns (Awake k t) (thread_unblock k t)
unfolding thread_unblock set_status insert_ready
thread_unblock-wakes k t b =
    let k₁ = set_status (insert_ready k t) t Status.ready in
    assert_holds (Awake k t) (is_status (k.threads t).status Status.blocked)
      (maybe_yield_to_ready_thread k₁) (rw b)
      (Returns-map (Kept k₁) (Awake k t) (maybe_yield_to_ready_thread k₁)
        (λ k' q. (
          q.awake t (λ e. cc (
            ap (λ x. x.status)
                (update_self k.threads t (record (k.threads t) { status = Status.ready })),
            e,
          )),
          q.same_semas,
        ))
        (maybe_yield-Kept k₁))

pub All-middle :
    (P : ℕ → Type 0) (before : List ℕ) (m : ℕ) (after xs : List ℕ)
    → xs ≡ before ++ m ∷ after
    → All P xs
    → P m
All-middle P [] m after xs e h = (subst (All P) e h).0
All-middle P (x ∷ before) m after xs e h =
    All-middle P before m after (before ++ m ∷ after) refl (subst (All P) e h).1

-- What sema_up does to a semaphore: the value goes up by one, and a waiting thread, the earliest of
-- those with the highest priority, leaves the waiters and is not blocked any more.
pub record Woken (k : Kernel) (s : ℕ) (t : ℕ) (k' : Kernel) : Type 0 where
  pub valid : IsValid k'
  pub highest : IsMax (priority_of k) (k.semas s).waiters t
  pub value : (k'.semas s).value ≡ (k.semas s).value + 1
  pub waiters : (k'.semas s).waiters ≡ list_remove t (k.semas s).waiters
  pub awake : (k'.threads t).status ≢ Status.blocked

-- sema_up, in a valid state, on a semaphore for which blocked threads wait, does not panic; it
-- raises the value, wakes the earliest of the waiting threads with the highest priority, and leaves
-- a valid state.
pub sema_up-Woken :
    (k : Kernel) (s w : ℕ) (ws : List ℕ)
    → (k.semas s).waiters ≡ w ∷ ws
    → All (λ u. (k.threads u).status ≡ Status.blocked) (k.semas s).waiters
    → IsValid k
    → (t : ℕ) × Returns (Woken k s t) (sema_up k s)
unfolding sema_up
sema_up-Woken k s w ws e b v =
    let (t, picked, m) = list_max_lem (priority_of k) w ws in
    let x = k.semas s in
    let top : IsMax (priority_of k) x.waiters t =
      subst (λ l. IsMax (priority_of k) l t) (sym e) m in
    let chosen : list_max (less_priority k) x.waiters ≡ some t =
      ap (list_max (less_priority k)) e ∙ picked in
    let x' : Semaphore = record { value = x.value + 1; waiters = list_remove t x.waiters } in
    let k' = set_sema k s x' in
    let tb =
      All-middle (λ u. (k.threads u).status ≡ Status.blocked) top.before t top.after x.waiters
        top.split b in
    (
      t,
      subst
          (λ o. Returns (Woken k s t) (elim o [
            | none ↦ done (set_sema k s (record x { value = x.value + 1 }))
            | some t ↦
                thread_unblock
                  (set_sema k s (record { value = x.value + 1; waiters = list_remove t x.waiters }))
                  t
          ]))
          (sym chosen)
          (Returns-map _ _ (thread_unblock k' t)
            (λ k'' h. record {
              valid = h.0;
              highest = top;
              value = ap (λ g. (g s).value) h.1.1 ∙ ap (λ y. y.value) (update_self k.semas s x');
              waiters =
                  ap (λ g. (g s).waiters) h.1.1 ∙ ap (λ y. y.waiters) (update_self k.semas s x');
              awake = h.1.0;
            })
            (Returns-both _ _ (thread_unblock k' t)
              (thread_unblock-IsValid k' t tb (frame-IsValid k _ k.holder v))
              (thread_unblock-wakes k' t tb))),
    )
