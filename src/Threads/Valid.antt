-- ===== src/Threads/Valid.antt =====
-- What holds of the scheduler's state between calls, and the lemmas that keep its parts under the
-- changes that the scheduler makes.
use buaa755os.Base.{
  update, update_ne, update_self, ℕ, ◌≤◌, ◌≡◌, ◌≢◌, refl, Bool, true, false, List, [], ◌∷◌,
  if◌then◌else◌, ◌==◌, arith, Bool-cases, inl, inr, sym, ap, ==_iff, ◌∙◌,
}
use native.Mathlib.Decide.{ℕ_discrete}
use buaa755os.KernelList.{list_remove}
use buaa755os.KernelList.Ordered.{
  All, NotIn, Distinct, Descending, Descending-agree, insert-All, insert-Distinct,
  insert-Descending, remove-All, remove-Distinct, remove-Descending, remove-NotIn,
}
use buaa755os.Threads.{
  Thread, Kernel, Status, Run, done, switched, panic, assert, set_thread, priority_of,
}
use buaa755os.Threads.Sched.{insert_ready, set_status, shuffle_ready_thread}

-- The ready list holds ready threads, each once, the highest priority first, and no thread runs
-- below its base priority.
pub record IsQueued (k : Kernel) : Type 0 where
  pub sorted : Descending (priority_of k) k.ready_list
  pub are_ready : All (λ t. (k.threads t).status ≡ Status.ready) k.ready_list
  pub distinct : Distinct k.ready_list
  pub floor : (t : ℕ) → (k.threads t).base_priority ≤ (k.threads t).priority

-- No ready thread has a higher priority than the running one, unless the interrupt handler is
-- about to yield.
abbrev pub IsTop : Kernel → Type 0
IsTop k =
    k.yield_on_return ≡ false → All (λ t. priority_of k t ≤ priority_of k k.current) k.ready_list

pub record IsValid (k : Kernel) : Type 0 where
  pub queued : IsQueued k
  pub is_running : (k.threads k.current).status ≡ Status.running
  pub top : IsTop k

-- A call that does not panic, and whose state, when it returns or loses the processor, satisfies P.
abbrev pub Returns : (Kernel → Type 0) → Run → Type 0
Returns P (done k) = P k
Returns P (switched k) = P k
Returns P panic = ⊥

-- An assertion that holds lets the call go on.
pub assert_holds :
    (P : Kernel → Type 0) (c : Bool) (r : Run) → c ≡ true → Returns P r → Returns P (assert c r)
assert_holds P true r h p = p
assert_holds P false r h p = absurd (cc)

pub Returns-if :
    (P : Kernel → Type 0) (c : Bool) (r s : Run)
    → (c ≡ true → Returns P r)
    → (c ≡ false → Returns P s)
    → Returns P (if c then r else s)
Returns-if P true r s f g = f refl
Returns-if P false r s f g = g refl

pub Returns-map :
    (P Q : Kernel → Type 0) (r : Run) → ((k : Kernel) → P k → Q k) → Returns P r → Returns Q r
Returns-map P Q (done k) f p = f k p
Returns-map P Q (switched k) f p = f k p
Returns-map P Q panic f p = p

-- A change of one thread that keeps a part of it keeps that part of every thread.
pub update_keeps :
    {A B : Type 0} (g : A → B) (f : ℕ → A) (t u : ℕ) (x : A)
    → g x ≡ g (f t)
    → g (update f t x u) ≡ g (f u)
update_keeps g f t u x h = elim (Bool-cases (t == u)) [
  | inl e ↦ rw e (let q = (==_iff t u).0 e in rw (← q) h)
  | inr ne ↦ rw ne
]

pub update-le :
    (g : Thread → ℕ) (f : ℕ → Thread) (t u : ℕ) (x : Thread)
    → g (f t) ≤ g x
    → g (f u) ≤ g (update f t x u)
update-le g f t u x h = elim (Bool-cases (t == u)) [
  | inl e ↦ rw e (let q = (==_iff t u).0 e in rw (← q) h)
  | inr ne ↦ rw ne (omega arith)
]

pub priority-set_status :
    (k : Kernel) (t u : ℕ) (s : Status) → priority_of (set_status k t s) u ≡ priority_of k u
unfolding set_status
priority-set_status k t u s = update_keeps (λ x. x.priority) k.threads t u _ refl

pub base-set_status :
    (k : Kernel) (t u : ℕ) (s : Status)
    → ((set_status k t s).threads u).base_priority ≡ (k.threads u).base_priority
unfolding set_status
base-set_status k t u s = update_keeps (λ x. x.base_priority) k.threads t u _ refl

same_priorities :
    (k : Kernel) (t : ℕ) (s : Status) (xs : List ℕ)
    → All (λ u. priority_of k u ≡ priority_of (set_status k t s) u) xs
same_priorities k t s [] = tt
same_priorities k t s (x ∷ xs) = (sym (priority-set_status k t x s), same_priorities k t s xs)

others_ready :
    (k : Kernel) (t : ℕ) (s : Status) (xs : List ℕ)
    → NotIn t xs
    → All (λ u. (k.threads u).status ≡ Status.ready) xs
    → All (λ u. ((set_status k t s).threads u).status ≡ Status.ready) xs
unfolding set_status
others_ready k t s [] o h = tt
others_ready k t s (x ∷ xs) o h = (
  rw (update_ne k.threads t x (record (k.threads t) { status = s }) o.0) h.0,
  others_ready k t s xs o.1 h.1,
)

-- A new status of a thread that is not in the ready list.
pub set_status-IsQueued :
    (k : Kernel) (t : ℕ) (s : Status)
    → NotIn t k.ready_list
    → IsQueued k
    → IsQueued (set_status k t s)
unfolding set_status
set_status-IsQueued k t s out q = record {
  sorted =
      Descending-agree (priority_of k) _ k.ready_list (same_priorities k t s k.ready_list) q.sorted;
  are_ready = others_ready k t s k.ready_list out q.are_ready;
  distinct = q.distinct;
  floor = λ u. rw (priority-set_status k t u s, base-set_status k t u s) (q.floor u);
}

-- A thread joins the ready list and becomes ready.
pub enqueue-IsQueued :
    (k : Kernel) (t : ℕ)
    → NotIn t k.ready_list
    → IsQueued k
    → IsQueued (set_status (insert_ready k t) t Status.ready)
unfolding set_status insert_ready
enqueue-IsQueued k t out q = record {
  sorted =
      Descending-agree (priority_of k) _ _ (same_priorities k t Status.ready _)
        (insert-Descending (priority_of k) t k.ready_list q.sorted);
  are_ready =
      insert-All (λ u. ((set_status k t Status.ready).threads u).status ≡ Status.ready) _ t
        k.ready_list
        (ap (λ x. x.status)
          (update_self k.threads t (record (k.threads t) { status = Status.ready })))
        (others_ready k t Status.ready k.ready_list out q.are_ready);
  distinct = insert-Distinct _ t k.ready_list out q.distinct;
  floor = λ u.
      rw (priority-set_status k t u Status.ready, base-set_status k t u Status.ready) (q.floor u);
}

-- A new priority, not below the base priority, of a thread that is not in the ready list.
pub set_thread-IsQueued :
    (k : Kernel) (t : ℕ) (x : Thread)
    → NotIn t k.ready_list
    → x.base_priority ≤ x.priority
    → IsQueued k
    → IsQueued (set_thread k t x)
set_thread-IsQueued k t x out h q = record {
  sorted =
      Descending-agree (priority_of k) _ k.ready_list (agree (λ y. y.priority) k.ready_list out)
        q.sorted;
  are_ready = ready_still k.ready_list out q.are_ready;
  distinct = q.distinct;
  floor = λ u. elim (ℕ_discrete t u) [
    | yes e ↦ rw (← e, update_self k.threads t x) h
    | no ne ↦ rw (update_ne k.threads t u x ne) (q.floor u)
  ];
}
  where
    agree :
        (g : Thread → ℕ) (xs : List ℕ)
        → NotIn t xs
        → All (λ u. g (k.threads u) ≡ g (update k.threads t x u)) xs
    agree g [] o = tt
    agree g (y ∷ ys) o = (ap g (sym (update_ne k.threads t y x o.0)), agree g ys o.1)

    ready_still :
        (xs : List ℕ)
        → NotIn t xs
        → All (λ u. (k.threads u).status ≡ Status.ready) xs
        → All (λ u. (update k.threads t x u).status ≡ Status.ready) xs
    ready_still [] o h = tt
    ready_still (y ∷ ys) o h = (rw (update_ne k.threads t y x o.0) h.0, ready_still ys o.1 h.1)

-- A thread that is not ready is not in the ready list.
pub NotIn-status :
    (k : Kernel) (t : ℕ) (xs : List ℕ)
    → (k.threads t).status ≢ Status.ready
    → All (λ u. (k.threads u).status ≡ Status.ready) xs
    → NotIn t xs
NotIn-status k t [] n h = tt
NotIn-status k t (x ∷ xs) n h =
    ((λ e. n (ap (λ u. (k.threads u).status) e ∙ h.0)), NotIn-status k t xs n h.1)

-- A ready thread joins the ready list.
pub insert_ready-IsQueued :
    (k : Kernel) (t : ℕ)
    → NotIn t k.ready_list
    → (k.threads t).status ≡ Status.ready
    → IsQueued k
    → IsQueued (insert_ready k t)
unfolding insert_ready
insert_ready-IsQueued k t out r q = record {
  sorted = insert-Descending (priority_of k) t k.ready_list q.sorted;
  are_ready = insert-All (λ u. (k.threads u).status ≡ Status.ready) _ t k.ready_list r q.are_ready;
  distinct = insert-Distinct _ t k.ready_list out q.distinct;
  floor = q.floor;
}

-- A ready thread with a new priority moves to its place in the ready list.
pub shuffle-IsQueued :
    (k : Kernel) (t : ℕ) (x : Thread)
    → x.status ≡ Status.ready
    → x.base_priority ≤ x.priority
    → IsQueued k
    → IsQueued (shuffle_ready_thread (set_thread k t x) t)
unfolding shuffle_ready_thread
shuffle-IsQueued k t x r h q =
    let l = list_remove t k.ready_list in
    let out = remove-NotIn t k.ready_list q.distinct in
    let k₁ : Kernel = record k { ready_list = l } in
    let q₁ : IsQueued k₁ = record {
      sorted = remove-Descending (priority_of k) t k.ready_list q.sorted;
      are_ready = remove-All (λ u. (k.threads u).status ≡ Status.ready) t k.ready_list q.are_ready;
      distinct = remove-Distinct t k.ready_list q.distinct;
      floor = q.floor;
    } in
    insert_ready-IsQueued (set_thread k₁ t x) t out
      (ap (λ y. y.status) (update_self k.threads t x) ∙ r) (set_thread-IsQueued k₁ t x out h q₁)
