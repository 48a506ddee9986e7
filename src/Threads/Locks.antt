-- ===== src/Threads/Locks.antt =====
-- Locks and base priorities keep the scheduler's invariant: thread_set_priority, lock_acquire,
-- sema_up and sema_down.
use buaa755os.Base.{
  update, update_self, ℕ, ◌-◌, ◌≡◌, refl, Bool, true, false, not, some, [], ◌∷◌, ◌++◌,
  if◌then◌else◌, ◌==◌, ltb, arith, Bool-cases, inl, inr, ap, ==_iff, ◌∙◌, ◌&&◌,
}
use buaa755os.KernelList.{list_push_back}
use buaa755os.Threads.{Thread, Kernel, Status, Run, done, switched, panic, ◌>>=◌, assert, is_some}
use buaa755os.Threads.Priority.{
  donate, thread_lock_will_wait, set_waiting_lock, lock_in_thread_locks_owned_list,
}
use buaa755os.Threads.Synch.{
  sema_down, asleep, sema_try_down, lock_taken, lock_acquire, lock_held_by_current_thread,
}
use buaa755os.Threads.Valid.{
  IsQueued, IsValid, Returns, assert_holds, Returns-if, set_thread-IsQueued,
}
use buaa755os.Threads.Switch.{thread_block-IsValid}
use buaa755os.Threads.Donation.{donate-Raised}
use buaa755os.Threads.Running.{current-NotIn, frame-IsQueued, frame-IsValid, lock_taken-IsValid}

-- What sema_down needs to sleep: all of the invariant but that the running thread is on top.
record CanSleep (k : Kernel) : Type 0 where
  queued : IsQueued k
  is_running : (k.threads k.current).status ≡ Status.running
  calm : k.in_interrupt ≡ false

-- A thread that waits in sema_down goes to sleep in a valid state, and does not return.
abbrev Sleeps : Run → Type 0
Sleeps (done k) = ⊥
Sleeps (switched k) = IsValid k
Sleeps panic = ⊥

asleep-Sleeps : (r : Run) → Returns IsValid r → Sleeps (asleep r)
unfolding asleep
asleep-Sleeps (done k) h = h
asleep-Sleeps (switched k) h = h
asleep-Sleeps panic h = h

Sleeps-if : (c : Bool) (r s : Run) → c ≡ true → Sleeps r → Sleeps (if c then r else s)
Sleeps-if true r s h p = p
Sleeps-if false r s h p = absurd (cc)

Sleeps-assert : (c : Bool) (r : Run) → c ≡ true → Sleeps r → Sleeps (assert c r)
Sleeps-assert true r h p = p
Sleeps-assert false r h p = absurd (cc)

Sleeps-Returns : (r : Run) → Sleeps r → Returns IsValid r
Sleeps-Returns (done k) h = absurd h
Sleeps-Returns (switched k) h = h
Sleeps-Returns panic h = h

sema_down-Sleeps :
    (k : Kernel) (s : ℕ) → CanSleep k → (k.semas s).value ≡ 0 → Sleeps (sema_down k s)
unfolding sema_down list_push_back
sema_down-Sleeps k s c zero_value =
    let x = k.semas s in
    let semas' = update k.semas s (record x { waiters = x.waiters ++ k.current ∷ [] }) in
    let k' : Kernel = record k { semas = semas' } in
    Sleeps-assert _ _ (ap not c.calm) (
      Sleeps-if _ _ _ ((==_iff x.value 0).1 zero_value) (
        asleep-Sleeps _ (
          thread_block-IsValid k' c.calm (current-NotIn k c.is_running c.queued)
            (frame-IsQueued k semas' k.holder c.queued))))

-- sema_down, outside an interrupt, in a valid state, does not panic, and leaves a valid state.
pub sema_down-IsValid :
    (k : Kernel) (s : ℕ) → k.in_interrupt ≡ false → IsValid k → Returns IsValid (sema_down k s)
unfolding sema_down
sema_down-IsValid k s calm v = assert_holds IsValid _ _ (ap not calm) (
    Returns-if IsValid ((k.semas s).value == 0) _ _
      (λ e. Sleeps-Returns _ (
        asleep-Sleeps _ (
          thread_block-IsValid _ calm (current-NotIn k v.is_running v.queued)
            (frame-IsQueued k _ k.holder v.queued))))
      (λ _. frame-IsValid k _ k.holder v))

Sleeps-bind : (r : Run) (f : Kernel → Run) → Sleeps r → Sleeps (r >>= f)
Sleeps-bind (done k) f h = absurd h
Sleeps-bind (switched k) f h = h
Sleeps-bind panic f h = h

no_one : (a b c : Bool) → a ≡ false → b ≡ false → c ≡ false → not a && not b && not c ≡ true
no_one a b c ha hb hc = rw (ha, hb, hc)

-- The thread that waits has recorded its lock, and all that it needs to sleep is in place.
set_waiting_lock-CanSleep :
    (k : Kernel) (lock : ℕ)
    → IsQueued k
    → (k.threads k.current).status ≡ Status.running
    → k.in_interrupt ≡ false
    → CanSleep (set_waiting_lock k lock)
unfolding set_waiting_lock
set_waiting_lock-CanSleep k lock q run calm =
    let x : Thread = record (k.threads k.current) { waiting_lock = some lock } in
    record {
      queued = set_thread-IsQueued k k.current x (current-NotIn k run q) (q.floor k.current) q;
      is_running = ap (λ y. y.status) (update_self k.threads k.current x) ∙ run;
      calm = calm;
    }

if_true : (c : Bool) (r s : Run) → c ≡ true → (if c then r else s) ≡ r
if_true true r s h = refl
if_true false r s h = cc

if_false : (c : Bool) (r s : Run) → c ≡ false → (if c then r else s) ≡ s
if_false true r s h = cc
if_false false r s h = refl

assert-true : (c : Bool) (r : Run) → c ≡ true → assert c r ≡ r
assert-true true r h = refl
assert-true false r h = cc

-- thread_lock_will_wait returns, after the donation, with the semaphores untouched.
will_wait-CanSleep :
    (k : Kernel) (lock : ℕ)
    → k.in_interrupt ≡ false
    → is_some (k.holder lock) k.current ≡ false
    → lock_in_thread_locks_owned_list lock (k.threads k.current).locks_owned_list ≡ false
    → IsValid k
    → (k' : Kernel) × (thread_lock_will_wait k lock ≡ done k') × CanSleep k' × (k'.semas ≡ k.semas)
unfolding thread_lock_will_wait set_waiting_lock
will_wait-CanSleep k lock calm other new v = elim (Bool-cases k.thread_mlfqs) [
  | inl mlfqs ↦ (
    k,
    if_true k.thread_mlfqs _ _ mlfqs,
    record { queued = v.queued; is_running = v.is_running; calm = calm },
    refl,
  )
  | inr donates ↦
      let r = donate-Raised 8 (k.holder lock) k v.is_running v.queued in
      let kd = donate 8 (k.holder lock) k in
      (
        set_waiting_lock kd lock,
        if_false k.thread_mlfqs _ _ donates ∙ assert-true _ _ (no_one _ _ _ calm other new),
        set_waiting_lock-CanSleep kd lock r.queued
            (ap (λ t. (kd.threads t).status) r.same_current
              ∙ r.same_status k.current
              ∙ v.is_running)
            (r.same_interrupt ∙ calm),
        r.same_semas,
      )
]

-- Waiting for a lock: the donation, then sleep.
lock_wait-Sleeps :
    (k : Kernel) (lock : ℕ) (f : Kernel → Run)
    → k.in_interrupt ≡ false
    → is_some (k.holder lock) k.current ≡ false
    → lock_in_thread_locks_owned_list lock (k.threads k.current).locks_owned_list ≡ false
    → (k.semas lock).value ≡ 0
    → IsValid k
    → Sleeps (thread_lock_will_wait k lock >>= λ k₁. sema_down k₁ lock >>= f)
lock_wait-Sleeps k lock f calm other new zero_value v =
    let (k', e, c, s) = will_wait-CanSleep k lock calm other new v in
    rw e (
      Sleeps-bind (sema_down k' lock) f
        (sema_down-Sleeps k' lock c (ap (λ g. (g lock).value) s ∙ zero_value)))

-- The state after a semaphore is decremented.
abbrev pub took_sema : Kernel → ℕ → Kernel
took_sema k s = record k {
  semas = update k.semas s (record (k.semas s) { value = (k.semas s).value - 1 });
}

pub try_down-free :
    (k : Kernel) (s : ℕ)
    → ltb 0 (k.semas s).value ≡ true
    → sema_try_down k s ≡ (took_sema k s, true)
unfolding sema_try_down
try_down-free k s h = rw h

try_down-taken :
    (k : Kernel) (s : ℕ) → ltb 0 (k.semas s).value ≡ false → sema_try_down k s ≡ (k, false)
unfolding sema_try_down
try_down-taken k s h = rw h

-- lock_acquire, outside an interrupt and in a valid state, of a lock that the running thread neither
-- holds nor lists among its own, does not panic, and leaves a valid state, whether it returns or the
-- thread goes to sleep.
pub lock_acquire-IsValid :
    (k : Kernel) (lock : ℕ)
    → k.in_interrupt ≡ false
    → is_some (k.holder lock) k.current ≡ false
    → lock_in_thread_locks_owned_list lock (k.threads k.current).locks_owned_list ≡ false
    → IsValid k
    → Returns IsValid (lock_acquire k lock)
unfolding lock_acquire lock_held_by_current_thread
lock_acquire-IsValid k lock calm other new v =
    assert_holds IsValid _ _ (no_two _ _ calm other)
      (elim (Bool-cases (ltb 0 (k.semas lock).value)) [
        | inl free ↦
            rw (try_down-free k lock free)
              (lock_taken-IsValid (took_sema k lock) lock calm new (frame-IsValid k _ k.holder v))
        | inr taken ↦ rw (try_down-taken k lock taken) (
            Sleeps-Returns _
              (lock_wait-Sleeps k lock (λ k₂. lock_taken k₂ lock) calm other new (ground arith) v))
      ])
  where
    no_two : (a b : Bool) → a ≡ false → b ≡ false → not a && not b ≡ true
    no_two a b ha hb = rw (ha, hb)
