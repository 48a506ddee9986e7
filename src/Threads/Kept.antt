-- ===== src/Threads/Kept.antt =====
-- What a switch to another thread leaves alone: everything but statuses, the ready list and who
-- runs; and it blocks no thread.
use buaa755os.Base.{
  ℕ, ◌≡◌, ◌≢◌, refl, Bool, true, false, not, List, if◌then◌else◌, ◌==◌, Bool-cases, inl, inr, ap,
  ◌∙◌,
}
use buaa755os.KernelList.{list_insert_ordered}
use buaa755os.Threads.{Kernel, Status, priority_of, is_status}
use buaa755os.Threads.Sched.{
  set_status, insert_ready, schedule, next_thread_to_run, pick, thread_yield,
  maybe_yield_to_ready_thread, front_outranks, runs_before,
}
use buaa755os.Threads.Valid.{Returns, Returns-if, Returns-map, assert_holds, update_keeps}
use buaa755os.Threads.Switch.{now_ready, either_way}

pub record Kept (k k' : Kernel) : Type 0 where
  pub same_semas : k'.semas ≡ k.semas
  pub same_holder : k'.holder ≡ k.holder
  pub same_priority : (u : ℕ) → priority_of k' u ≡ priority_of k u
  pub same_base : (u : ℕ) → (k'.threads u).base_priority ≡ (k.threads u).base_priority
  pub same_owned : (u : ℕ) → (k'.threads u).locks_owned_list ≡ (k.threads u).locks_owned_list
  pub awake :
      (u : ℕ) → (k.threads u).status ≢ Status.blocked → (k'.threads u).status ≢ Status.blocked

pub Kept-refl : (k : Kernel) → Kept k k
Kept-refl k = record {
  same_semas = refl;
  same_holder = refl;
  same_priority = λ u. refl;
  same_base = λ u. refl;
  same_owned = λ u. refl;
  awake = λ u h. h;
}

pub Kept-trans : (a b c : Kernel) → Kept a b → Kept b c → Kept a c
Kept-trans a b c p q = record {
  same_semas = q.same_semas ∙ p.same_semas;
  same_holder = q.same_holder ∙ p.same_holder;
  same_priority = λ u. q.same_priority u ∙ p.same_priority u;
  same_base = λ u. q.same_base u ∙ p.same_base u;
  same_owned = λ u. q.same_owned u ∙ p.same_owned u;
  awake = λ u h. q.awake u (p.awake u h);
}

-- A new status that is not blocked, whoever runs and whatever the ready list.
set_status-Kept :
    (k : Kernel) (t c : ℕ) (l : List ℕ) (s : Status)
    → s ≢ Status.blocked
    → Kept k (set_status (record k { ready_list = l; current = c }) t s)
unfolding set_status
set_status-Kept k t c l s free = record {
  same_semas = refl;
  same_holder = refl;
  same_priority = λ u. update_keeps (λ y. y.priority) k.threads t u _ refl;
  same_base = λ u. update_keeps (λ y. y.base_priority) k.threads t u _ refl;
  same_owned = λ u. update_keeps (λ y. y.locks_owned_list) k.threads t u _ refl;
  awake = λ u h. elim (Bool-cases (t == u)) [ inl e ↦ rw e free | inr ne ↦ rw ne h ];
}

pub schedule-Kept :
    (k : Kernel)
    → is_status (k.threads k.current).status Status.running ≡ false
    → Returns (Kept k) (schedule k)
unfolding schedule next_thread_to_run
schedule-Kept k off =
    let n = pick k.idle_thread k.ready_list in
    assert_holds (Kept k) _ _ (ap not off)
      (either_way (Kept k) _ _ (set_status-Kept k n.0 n.0 n.1 Status.running (λ e. cc)))

pub thread_yield-Kept : (k : Kernel) → k.in_interrupt ≡ false → Returns (Kept k) (thread_yield k)
unfolding thread_yield insert_ready
thread_yield-Kept k calm =
    assert_holds (Kept k) (not k.in_interrupt) _ (ap not calm) (go (k.current == k.idle_thread))
  where
    through :
        (l : List ℕ)
        → Returns (Kept k) (
            schedule (
              set_status (record k { ready_list = l; current = k.current }) k.current Status.ready))
    through l =
        let k₁ =
          set_status (record k { ready_list = l; current = k.current }) k.current Status.ready in
        Returns-map (Kept k₁) (Kept k) (schedule k₁)
          (λ k₂ q.
            Kept-trans k k₁ k₂ (set_status-Kept k k.current k.current l Status.ready (λ e. cc)) q)
          (schedule-Kept k₁ (now_ready (record k { ready_list = l }) k.current Status.ready refl))

    go :
        (c : Bool)
        → Returns (Kept k) (
            schedule
              (set_status (if c then k else insert_ready k k.current) k.current Status.ready))
    go true = through k.ready_list
    go false = through (list_insert_ordered (runs_before k) k.current k.ready_list)

pub maybe_yield-Kept : (k : Kernel) → Returns (Kept k) (maybe_yield_to_ready_thread k)
unfolding maybe_yield_to_ready_thread
maybe_yield-Kept k =
    Returns-if (Kept k) (front_outranks k k.ready_list) _ _
      (λ _.
        Returns-if (Kept k) k.in_interrupt _ _
          (λ _. record {
            same_semas = refl;
            same_holder = refl;
            same_priority = λ u. refl;
            same_base = λ u. refl;
            same_owned = λ u. refl;
            awake = λ u h. h;
          })
          (λ calm. thread_yield-Kept k calm))
      (λ _. Kept-refl k)
