-- ===== src/Threads/Switch.antt =====
-- The scheduler of thread.c keeps its invariant: schedule, yielding, blocking, unblocking.
use buaa755os.Base.{
  update_ne, update_self, ℕ, ◌≤◌, ◌≡◌, ◌≢◌, refl, Bool, true, false, not, List, [], ◌∷◌,
  if◌then◌else◌, ◌==◌, arith, Bool-cases, inl, inr, ap, ◌∙◌,
}
use buaa755os.KernelList.Ordered.{All, All-map, NotIn, Descending}
use buaa755os.Threads.{Kernel, Status, done, switched, priority_of, is_status}
use buaa755os.Threads.Sched.{
  insert_ready, set_status, schedule, next_thread_to_run, pick, thread_yield, thread_block,
  maybe_yield_to_ready_thread, front_outranks, thread_unblock,
}
use buaa755os.Threads.Valid.{
  IsQueued, IsValid, Returns, set_status-IsQueued, enqueue-IsQueued, NotIn-status,
  priority-set_status, assert_holds,
}

-- The next thread becomes the running one.
run_next-IsValid :
    (k : Kernel) (t : ℕ) (ts : List ℕ)
    → NotIn t ts
    → All (λ u. priority_of k u ≤ priority_of k t) ts
    → IsQueued (record k { ready_list = ts })
    → IsValid (set_status (record k { ready_list = ts; current = t }) t Status.running)
unfolding set_status
run_next-IsValid k t ts out below q =
    let k' : Kernel = record k { ready_list = ts; current = t } in
    record {
      queued = set_status-IsQueued k' t Status.running out (record {
        sorted = q.sorted;
        are_ready = q.are_ready;
        distinct = q.distinct;
        floor = q.floor;
      });
      is_running =
          ap (λ x. x.status)
            (update_self k.threads t (record (k.threads t) { status = Status.running }));
      top = λ _.
          All-map ts
            (λ u h.
              rw
                (
                  priority-set_status k' t u Status.running,
                  priority-set_status k' t t Status.running,
                )
                h)
            below;
    }

-- What next_thread_to_run picks, and leaves, of a list in order.
pick_lem :
    (k : Kernel) (l : List ℕ)
    → IsQueued (record k { ready_list = l })
    → let (t, ts) = pick k.idle_thread l in
      NotIn t ts
      × All (λ u. priority_of k u ≤ priority_of k t) ts
      × IsQueued (record k { ready_list = ts })
unfolding pick
pick_lem k [] q = (tt, tt, q)
pick_lem k (t ∷ ts) q = (
  q.distinct.0,
  q.sorted.0,
  record {
    sorted = q.sorted.1;
    are_ready = q.are_ready.1;
    distinct = q.distinct.1;
    floor = q.floor;
  },
)

-- A call returns, or loses the processor, in a state with the property.
pub either_way :
    (P : Kernel → Type 0) (c : Bool) (k : Kernel)
    → P k
    → Returns P (if c then done k else switched k)
either_way P true k h = h
either_way P false k h = h

-- schedule, with the running thread no longer marked as running, does not panic; it leaves a valid
-- state, whose running thread has the highest priority of those that were ready.
pub schedule-IsValid :
    (k : Kernel)
    → is_status (k.threads k.current).status Status.running ≡ false
    → IsQueued k
    → Returns IsValid (schedule k)
unfolding schedule next_thread_to_run
schedule-IsValid k off q =
    let n = pick k.idle_thread k.ready_list in
    let (out, below, rest) = pick_lem k k.ready_list q in
    rw off (either_way IsValid _ _ (run_next-IsValid k n.0 n.1 out below rest))

pub now_ready :
    (k : Kernel) (t : ℕ) (s : Status)
    → is_status s Status.running ≡ false
    → is_status ((set_status k t s).threads t).status Status.running ≡ false
unfolding set_status
now_ready k t s h = rw (update_self k.threads t (record (k.threads t) { status = s })) h

-- thread_yield, outside an interrupt, with the ready list in order and the current thread not in it,
-- does not panic, and leaves a valid state.
pub thread_yield-IsValid :
    (k : Kernel)
    → k.in_interrupt ≡ false
    → NotIn k.current k.ready_list
    → IsQueued k
    → Returns IsValid (thread_yield k)
unfolding thread_yield
thread_yield-IsValid k calm out q =
    assert_holds IsValid (not k.in_interrupt) _ (ap not calm) (go (k.current == k.idle_thread))
  where
    go :
        (c : Bool)
        → Returns IsValid (
            schedule
              (set_status (if c then k else insert_ready k k.current) k.current Status.ready))
    go true =
        schedule-IsValid (set_status k k.current Status.ready)
          (now_ready k k.current Status.ready refl)
          (set_status-IsQueued k k.current Status.ready out q)
    go false =
        schedule-IsValid (set_status (insert_ready k k.current) k.current Status.ready)
          (now_ready (insert_ready k k.current) k.current Status.ready refl)
          (enqueue-IsQueued k k.current out q)

-- thread_block, outside an interrupt, with the ready list in order and the current thread not in it,
-- does not panic, and leaves a valid state.
pub thread_block-IsValid :
    (k : Kernel)
    → k.in_interrupt ≡ false
    → NotIn k.current k.ready_list
    → IsQueued k
    → Returns IsValid (thread_block k)
unfolding thread_block
thread_block-IsValid k calm out q = assert_holds IsValid (not k.in_interrupt) _ (ap not calm) (
    schedule-IsValid (set_status k k.current Status.blocked)
      (now_ready k k.current Status.blocked refl)
      (set_status-IsQueued k k.current Status.blocked out q))

not_outranked :
    (k : Kernel) (l : List ℕ)
    → Descending (priority_of k) l
    → front_outranks k l ≡ false
    → All (λ t. priority_of k t ≤ priority_of k k.current) l
unfolding front_outranks
not_outranked k [] d h = tt
not_outranked k (t ∷ ts) d h =
    let first : priority_of k t ≤ priority_of k k.current = ground arith in
    (first, All-map ts (λ u q. omega arith) d.0)

-- maybe_yield_to_ready_thread, called by a running thread with the ready list in order, does not
-- panic, and leaves a valid state.
pub maybe_yield-IsValid :
    (k : Kernel)
    → (k.threads k.current).status ≡ Status.running
    → IsQueued k
    → Returns IsValid (maybe_yield_to_ready_thread k)
unfolding maybe_yield_to_ready_thread
maybe_yield-IsValid k run q = elim (Bool-cases (front_outranks k k.ready_list)) [
  | inl up ↦ rw up (flag k.in_interrupt (λ calm. thread_yield-IsValid k calm out q))
  | inr stay ↦ rw stay (record {
    queued = q;
    is_running = run;
    top = λ _. not_outranked k k.ready_list q.sorted stay;
  })
]
  where
    out : NotIn k.current k.ready_list
    out = NotIn-status k k.current k.ready_list (λ e. cc) q.are_ready

    flag :
        (c : Bool)
        → (c ≡ false → Returns IsValid (thread_yield k))
        → Returns IsValid (if c then done (record k { yield_on_return = true }) else thread_yield k)
    flag true h = record {
      queued = record {
        sorted = q.sorted;
        are_ready = q.are_ready;
        distinct = q.distinct;
        floor = q.floor;
      };
      is_running = run;
      top = λ e. absurd (cc);
    }
    flag false h = h refl

-- thread_unblock, of a blocked thread in a valid state, does not panic, and leaves a valid state.
pub thread_unblock-IsValid :
    (k : Kernel) (t : ℕ)
    → (k.threads t).status ≡ Status.blocked
    → IsValid k
    → Returns IsValid (thread_unblock k t)
unfolding thread_unblock
thread_unblock-IsValid k t b v = assert_holds IsValid _ _ (rw b) (
    maybe_yield-IsValid (set_status (insert_ready k t) t Status.ready) still
      (enqueue-IsQueued k t (NotIn-status k t k.ready_list (λ e. cc) v.queued.are_ready) v.queued))
  where
    apart : t ≢ k.current
    apart e = cc (ap (λ u. (k.threads u).status) e, v.is_running)

    still :
        ((set_status (insert_ready k t) t Status.ready).threads k.current).status ≡ Status.running
    still =
        unfold set_status in
        unfold insert_ready in
        (ap (λ x. x.status)
            (update_ne k.threads t k.current (record (k.threads t) { status = Status.ready }) apart)
          ∙ v.is_running)
