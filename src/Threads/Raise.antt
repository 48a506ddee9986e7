-- ===== src/Threads/Raise.antt =====
-- One round of a donation (thread_lock_will_wait): what a raise of one thread leaves alone.
use buaa755os.Base.{
  update, update_ne, update_self, ℕ, ◌≤◌, ◌≡◌, ◌≢◌, refl, if◌then◌else◌, ltb, arith, Bool-cases,
  inl, inr, sym, ap, ltb→lt, ◌∙◌,
}
use mathlib.Core.Path.{subst}
use buaa755os.Threads.{Thread, Kernel, Status, set_thread, priority_of}
use buaa755os.Threads.Sched.{shuffle_ready_thread, insert_ready}
use buaa755os.Threads.Priority.{maybe_raise_priority}
use buaa755os.Threads.Valid.{
  IsQueued, set_thread-IsQueued, shuffle-IsQueued, NotIn-status, update_keeps, update-le,
}

-- What a donation by the running thread may change: the priorities of other threads, upwards, and
-- with them the order of the ready list.
pub record Raised (k k' : Kernel) : Type 0 where
  pub queued : IsQueued k'
  pub same_current : k'.current ≡ k.current
  pub same_running : k'.threads k.current ≡ k.threads k.current
  pub same_status : (u : ℕ) → (k'.threads u).status ≡ (k.threads u).status
  pub same_waits : (u : ℕ) → (k'.threads u).waiting_lock ≡ (k.threads u).waiting_lock
  pub same_owned : (u : ℕ) → (k'.threads u).locks_owned_list ≡ (k.threads u).locks_owned_list
  pub same_holder : k'.holder ≡ k.holder
  pub same_semas : k'.semas ≡ k.semas
  pub same_interrupt : k'.in_interrupt ≡ k.in_interrupt
  pub raised : (u : ℕ) → priority_of k u ≤ priority_of k' u

pub Raised-refl : (k : Kernel) → IsQueued k → Raised k k
Raised-refl k q = record {
  queued = q;
  same_current = refl;
  same_running = refl;
  same_status = λ u. refl;
  same_waits = λ u. refl;
  same_owned = λ u. refl;
  same_holder = refl;
  same_semas = refl;
  same_interrupt = refl;
  raised = λ u. omega arith;
}

pub Raised-trans : (a b c : Kernel) → Raised a b → Raised b c → Raised a c
Raised-trans a b c p q = record {
  queued = q.queued;
  same_current = q.same_current ∙ p.same_current;
  same_running = (rw (← p.same_current) q.same_running) ∙ p.same_running;
  same_status = λ u. q.same_status u ∙ p.same_status u;
  same_waits = λ u. q.same_waits u ∙ p.same_waits u;
  same_owned = λ u. q.same_owned u ∙ p.same_owned u;
  same_holder = q.same_holder ∙ p.same_holder;
  same_semas = q.same_semas ∙ p.same_semas;
  same_interrupt = q.same_interrupt ∙ p.same_interrupt;
  raised = λ u. omega (arith, p.raised u, q.raised u);
}

-- The thread record that a raise to `p` leaves.
abbrev pub lifted : Thread → ℕ → Thread
lifted t p = (maybe_raise_priority t p).0

-- A thread record that is at least at priority `p`, and else is as it was.
abbrev IsLifted : Thread → ℕ → Thread → Type 0
IsLifted t p x =
    (x.status ≡ t.status)
    × (x.waiting_lock ≡ t.waiting_lock)
    × (x.locks_owned_list ≡ t.locks_owned_list)
    × (x.base_priority ≡ t.base_priority)
    × (t.priority ≤ x.priority)
    × (p ≤ x.priority)

lifted_lem : (t : Thread) (p : ℕ) → IsLifted t p (lifted t p)
unfolding maybe_raise_priority
lifted_lem t p = ground arith

-- One thread of the chain is lifted, in a state whose ready list is in order again.
lift-Raised :
    (k k' : Kernel) (t p : ℕ) (x : Thread)
    → IsLifted (k.threads t) p x
    → t ≢ k.current
    → k'.threads ≡ update k.threads t x
    → k'.current ≡ k.current
    → k'.holder ≡ k.holder
    → k'.semas ≡ k.semas
    → k'.in_interrupt ≡ k.in_interrupt
    → IsQueued k'
    → Raised k k' × (p ≤ priority_of k' t)
lift-Raised k k' t p x l other threads current holder semas interrupt q = (
  record {
    queued = q;
    same_current = current;
    same_running = rw threads (update_ne k.threads t k.current x other);
    same_status = λ u. rw threads (update_keeps (λ y. y.status) k.threads t u x l.0);
    same_waits = λ u. rw threads (update_keeps (λ y. y.waiting_lock) k.threads t u x l.1);
    same_owned = λ u. rw threads (update_keeps (λ y. y.locks_owned_list) k.threads t u x l.2);
    same_holder = holder;
    same_semas = semas;
    same_interrupt = interrupt;
    raised = λ u.
        subst (λ f. (k.threads u).priority ≤ (f u).priority) (sym threads)
          (update-le (λ y. y.priority) k.threads t u x l.4);
  },
  subst (λ f. p ≤ (f t).priority) (sym threads)
      (subst (λ y. p ≤ y.priority) (sym (update_self k.threads t x)) l.5),
)

-- One round at a blocked thread.
pub lift_blocked :
    (k : Kernel) (t p : ℕ)
    → (k.threads k.current).status ≡ Status.running
    → (k.threads t).status ≡ Status.blocked
    → IsQueued k
    → let k' = set_thread k t (lifted (k.threads t) p) in Raised k k' × (p ≤ priority_of k' t)
lift_blocked k t p run b q =
    let l = lifted_lem (k.threads t) p in
    lift-Raised k (set_thread k t (lifted (k.threads t) p)) t p (lifted (k.threads t) p) l
      (λ e. cc (ap (λ u. (k.threads u).status) e)) refl refl refl refl refl
      (set_thread-IsQueued k t (lifted (k.threads t) p)
        (NotIn-status k t k.ready_list (λ e. cc) q.are_ready) (omega (arith, l.3, l.4, q.floor t))
        q)

-- The last round, at a ready thread.
pub lift_ready :
    (k : Kernel) (t p : ℕ)
    → (k.threads k.current).status ≡ Status.running
    → (k.threads t).status ≡ Status.ready
    → IsQueued k
    → let (x, changed) = maybe_raise_priority (k.threads t) p in
      let k' = (if changed then shuffle_ready_thread (set_thread k t x) t else k) in
      Raised k k' × (p ≤ priority_of k' t)
unfolding maybe_raise_priority shuffle_ready_thread insert_ready
lift_ready k t p run r q = elim (Bool-cases (ltb (k.threads t).priority p)) [
  | inl up ↦ rw up (
      let x : Thread = record (k.threads t) { priority = p } in
      lift-Raised k (shuffle_ready_thread (set_thread k t x) t) t p x
        (refl, refl, refl, refl, omega (arith, ltb→lt (k.threads t).priority p up), omega arith)
        (λ e. cc (ap (λ u. (k.threads u).status) e)) refl refl refl refl refl
        (shuffle-IsQueued k t x r (omega (arith, q.floor t, ltb→lt (k.threads t).priority p up)) q))
  | inr stay ↦ rw stay (Raised-refl k q, ground arith)
]
