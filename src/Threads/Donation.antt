-- ===== src/Threads/Donation.antt =====
-- Priority donation (thread_lock_will_wait): what it leaves alone, and whom it reaches.
use buaa755os.Base.{
  ℕ, zero, suc, ◌≤◌, ◌≡◌, refl, Option, none, some, if◌then◌else◌, inl, inr, ap, ◌∙◌, ◌⊎◌,
}
use mathlib.Core.Path.{subst}
use native.Mathlib.Nat.{le_trans}
use buaa755os.Threads.{Kernel, Status, set_thread, priority_of}
use buaa755os.Threads.Sched.{shuffle_ready_thread}
use buaa755os.Threads.Priority.{maybe_raise_priority, donate, by_status, next_holder}
use buaa755os.Threads.Valid.{IsQueued}
use buaa755os.Threads.Raise.{Raised, Raised-refl, Raised-trans, lifted, lift_blocked, lift_ready}

-- The threads that a donation reaches: from a thread on, at most so many hops along blocked
-- threads, each to the holder of the lock that it waits for.
abbrev pub Reaches : Kernel → ℕ → ℕ → ℕ → Type 0
Reaches k zero t u = ⊥
Reaches k (suc nesting) t u =
    (t ≡ u)
    ⊎ (((k.threads t).status ≡ Status.blocked)
        × ((lock : ℕ) × (v : ℕ) × ((k.threads t).waiting_lock ≡ some lock)
            × (k.holder lock ≡ some v)
            × Reaches k nesting v u))

-- A donation changes no status, wait or holder, so it changes no chain.
Reaches-Raised :
    (nesting : ℕ) (k k' : Kernel) (t u : ℕ)
    → Raised k k'
    → Reaches k nesting t u
    → Reaches k' nesting t u
Reaches-Raised zero k k' t u r h = h
Reaches-Raised (suc nesting) k k' t u r (inl e) = inl e
Reaches-Raised (suc nesting) k k' t u r (inr (b, (lock, v, w, o, rest))) = inr (
  r.same_status t ∙ b,
  (
    lock,
    v,
    r.same_waits t ∙ w,
    ap (λ f. f lock) r.same_holder ∙ o,
    Reaches-Raised nesting k k' v u r rest,
  ),
)

by_status-blocked :
    {A : Type 0} {s : Status} (x y z : A) → s ≡ Status.blocked → by_status s x y z ≡ x
unfolding by_status
by_status-blocked x y z e = ap (λ s. by_status s x y z) e

by_status-ready : {A : Type 0} {s : Status} (x y z : A) → s ≡ Status.ready → by_status s x y z ≡ y
unfolding by_status
by_status-ready x y z e = ap (λ s. by_status s x y z) e

by_status-other :
    {A : Type 0} {s : Status} (x y z : A)
    → (s ≡ Status.running) ⊎ (s ≡ Status.dying)
    → by_status s x y z ≡ z
unfolding by_status
by_status-other x y z (inl e) = ap (λ s. by_status s x y z) e
by_status-other x y z (inr e) = ap (λ s. by_status s x y z) e

next_holder-some :
    (k : Kernel) (t l : ℕ) → (k.threads t).waiting_lock ≡ some l → next_holder k t ≡ k.holder l
unfolding next_holder
next_holder-some k t l e = ap (λ w. elim w [ none ↦ none | some l ↦ k.holder l ]) e

-- The rounds of thread_lock_will_wait, by the status of the thread that they are at.
donate-blocked :
    (nesting t : ℕ) (k : Kernel)
    → (k.threads t).status ≡ Status.blocked
    → donate (suc nesting) (some t) k
      ≡ donate nesting
          (next_holder k t)
          (set_thread k t (lifted (k.threads t) (priority_of k k.current)))
unfolding donate
donate-blocked nesting t k b = by_status-blocked _ _ _ b

donate-ready :
    (nesting t : ℕ) (k : Kernel)
    → (k.threads t).status ≡ Status.ready
    → let (x, changed) = maybe_raise_priority (k.threads t) (priority_of k k.current) in
      donate (suc nesting) (some t) k
      ≡ (if changed then shuffle_ready_thread (set_thread k t x) t else k)
unfolding donate
donate-ready nesting t k r = by_status-ready _ _ _ r

donate-other :
    (nesting t : ℕ) (k : Kernel)
    → ((k.threads t).status ≡ Status.running) ⊎ ((k.threads t).status ≡ Status.dying)
    → donate (suc nesting) (some t) k ≡ k
unfolding donate
donate-other nesting t k o = by_status-other _ _ _ o

Status-cases :
    (s : Status)
    → (s ≡ Status.blocked) ⊎ ((s ≡ Status.ready) ⊎ ((s ≡ Status.running) ⊎ (s ≡ Status.dying)))
Status-cases Status.running = inr (inr (inl refl))
Status-cases Status.ready = inr (inl refl)
Status-cases Status.blocked = inl refl
Status-cases Status.dying = inr (inr (inr refl))

-- In a state whose ready list is in order, and whose current thread is running, the loop of
-- thread_lock_will_wait, from any thread or none and with any bound, only raises priorities of other
-- threads than the current one, and leaves the ready list in order.
pub donate-Raised :
    (nesting : ℕ) (o : Option ℕ) (k : Kernel)
    → (k.threads k.current).status ≡ Status.running
    → IsQueued k
    → Raised k (donate nesting o k)
donate-Raised zero o k run q = unfold donate in Raised-refl k q
donate-Raised (suc nesting) none k run q = unfold donate in Raised-refl k q
donate-Raised (suc nesting) (some t) k run q = elim (Status-cases (k.threads t).status) [
  | inl b ↦
      let p = priority_of k k.current in
      let k' = set_thread k t (lifted (k.threads t) p) in
      let (r, _) = lift_blocked k t p run b q in
      rw (donate-blocked nesting t k b) (
        Raised-trans k k' (donate nesting (next_holder k t) k') r
          (donate-Raised nesting (next_holder k t) k' (r.same_status k.current ∙ run) r.queued))
  | inr (inl e) ↦
      rw (donate-ready nesting t k e) (lift_ready k t (priority_of k k.current) run e q).0
  | inr (inr o) ↦ rw (donate-other nesting t k o) (Raised-refl k q)
]

-- In a state whose ready list is in order, and whose current thread is running: every blocked or
-- ready thread that a donation of so many rounds reaches, along blocked threads and the holders of
-- the locks that they wait for, ends with at least the priority of the current thread.
pub donate-Reaches :
    (nesting t u : ℕ) (k : Kernel)
    → (k.threads k.current).status ≡ Status.running
    → IsQueued k
    → Reaches k nesting t u
    → ((k.threads u).status ≡ Status.blocked) ⊎ ((k.threads u).status ≡ Status.ready)
    → priority_of k k.current ≤ priority_of (donate nesting (some t) k) u
donate-Reaches zero t u k run q h s = absurd h
donate-Reaches (suc nesting) t u k run q (inl e) (inl b) =
    let p = priority_of k k.current in
    let k' = set_thread k t (lifted (k.threads t) p) in
    let bt : (k.threads t).status ≡ Status.blocked = ap (λ v. (k.threads v).status) e ∙ b in
    let (r, up) = lift_blocked k t p run bt q in
    let rest =
      donate-Raised nesting (next_holder k t) k' (r.same_status k.current ∙ run) r.queued in
    rw (← e, donate-blocked nesting t k bt) (le_trans up (rest.raised t))
donate-Reaches (suc nesting) t u k run q (inl e) (inr r) =
    let rt : (k.threads t).status ≡ Status.ready = ap (λ v. (k.threads v).status) e ∙ r in
    rw (← e, donate-ready nesting t k rt) (lift_ready k t (priority_of k k.current) run rt q).1
donate-Reaches (suc nesting) t u k run q (inr (b, (lock, v, w, o, rest))) s =
    let p = priority_of k k.current in
    let k' = set_thread k t (lifted (k.threads t) p) in
    let (r, up) = lift_blocked k t p run b q in
    let goes : next_holder k t ≡ some v = next_holder-some k t lock w ∙ o in
    let same : priority_of k' k'.current ≡ p = ap (λ x. x.priority) r.same_running in
    rw (donate-blocked nesting t k b, goes)
      (subst (λ n. n ≤ priority_of (donate nesting (some v) k') u) same
        (donate-Reaches nesting v u k' (r.same_status k.current ∙ run) r.queued
          (Reaches-Raised nesting k k' v u r rest) (still r s)))
  where
    still :
        {k' : Kernel}
        → Raised k k'
        → ((k.threads u).status ≡ Status.blocked) ⊎ ((k.threads u).status ≡ Status.ready)
        → ((k'.threads u).status ≡ Status.blocked) ⊎ ((k'.threads u).status ≡ Status.ready)
    still r (inl e) = inl (r.same_status u ∙ e)
    still r (inr e) = inr (r.same_status u ∙ e)
