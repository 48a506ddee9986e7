-- ===== src/Threads/Release.antt =====
-- thread_lock_released: the priority that is left after a release; and two ways in which the code
-- fails the threads that wait.
use buaa755os.Base.{
  update_self, update_ne, ℕ, ◌≤◌, ◌<◌, ◌≡◌, ◌≢◌, refl, Bool, true, false, not, List, ◌∷◌, ◌++◌,
  if◌then◌else◌, ltb, leb, arith, Bool-cases, inl, inr, ap, ltb→lt, ==_iff, ◌∙◌, ◌&&◌, le→leb,
}
use native.Mathlib.Nat.{le_trans}
use buaa755os.Base.Int.{pos}
use buaa755os.KernelList.Ordered.{All-map}
use buaa755os.Threads.{
  Thread, Kernel, Status, Run, done, panic, ◌>>=◌, set_thread, priority_of, assert, is_some,
}
use buaa755os.Threads.Sched.{maybe_yield_to_ready_thread}
use buaa755os.Threads.Priority.{
  top_waiting, kept_locks, thread_lock_released, maybe_lower_priority, lowered, thread_set_priority,
  with_base, trim_priority, lock_in_thread_locks_owned_list,
}
use buaa755os.Threads.Valid.{
  IsValid, Returns, Returns-if, Returns-map, assert_holds, set_thread-IsQueued,
}
use buaa755os.Threads.Switch.{maybe_yield-IsValid}
use buaa755os.Threads.Kept.{Kept, maybe_yield-Kept}
use buaa755os.Threads.Wake.{All-middle, Returns-both}
use buaa755os.Threads.Running.{current-NotIn}
use buaa755os.Threads.Waiting.{WaitBelow, OthersBelow, top_waiting-IsTopOf}

-- What a release of `lock` leaves: the thread that released it runs at the least priority that is
-- neither below its base priority nor below that of a thread waiting for a lock that it still owns.
pub record Released (k : Kernel) (lock : ℕ) (k' : Kernel) : Type 0 where
  pub valid : IsValid k'
  pub above_base : (k.threads k.current).base_priority ≤ priority_of k' k.current
  pub above_waiting :
      OthersBelow k lock (k.threads k.current).locks_owned_list (priority_of k' k.current)
  pub least :
      (b : ℕ)
      → (k.threads k.current).base_priority ≤ b
      → OthersBelow k lock (k.threads k.current).locks_owned_list b
      → priority_of k' k.current ≤ b

lowered_lem :
    (t : Thread) (p : ℕ)
    → (t.base_priority ≤ (lowered t p).priority)
      × (p ≤ (lowered t p).priority)
      × ((b : ℕ) → t.base_priority ≤ b → p ≤ b → (lowered t p).priority ≤ b)
      × ((lowered t p).base_priority ≡ t.base_priority)
      × ((lowered t p).status ≡ t.status)
unfolding lowered
lowered_lem t p = elim (Bool-cases (ltb p t.base_priority)) [
  | inl up ↦ rw up (omega arith, omega (arith, ltb→lt p t.base_priority up), λ b x y. x, refl, refl)
  | inr stay ↦ rw stay (ground arith, omega arith, λ b x y. y, refl, refl)
]

both_hold : (a b : Bool) → a ≡ false → b ≡ true → not a && b ≡ true
both_hold a b ha hb = rw (ha, hb)

assert_then :
    (P : Kernel → Type 0) (c : Bool) (k : Kernel) (f : Kernel → Run)
    → c ≡ true
    → Returns P (f k)
    → Returns P (assert c (done k) >>= f)
assert_then P true k f h p = p
assert_then P false k f h p = absurd (cc)

OthersBelow-le :
    (k : Kernel) (lock : ℕ) (ls : List ℕ) {a b : ℕ}
    → a ≤ b
    → OthersBelow k lock ls a
    → OthersBelow k lock ls b
OthersBelow-le k lock ls h o =
    All-map ls (λ l f ne. All-map (k.semas l).waiters (λ w q. le_trans q h) (f ne)) o

-- thread_lock_released, without the multi-level scheduler and in a valid state, for a lock that the
-- running thread lists among its own and is not the holder of any more, does not panic if the thread runs at no lower priority than any thread that waits for another of
-- its locks. The thread then runs at the least priority that is neither below its base priority nor
-- below that of a thread that waits for a lock that it still owns, and the state is valid.
pub thread_lock_released-Released :
    (k : Kernel) (lock : ℕ)
    → k.thread_mlfqs ≡ false
    → is_some (k.holder lock) k.current ≡ false
    → lock_in_thread_locks_owned_list lock (k.threads k.current).locks_owned_list ≡ true
    → OthersBelow k lock (k.threads k.current).locks_owned_list (priority_of k k.current)
    → IsValid k
    → Returns (Released k lock) (thread_lock_released k lock)
unfolding thread_lock_released maybe_lower_priority
thread_lock_released-Released k lock donates free owned donated v =
    let cur = k.threads k.current in
    let highest = top_waiting k lock cur.locks_owned_list 0 in
    let (_, above, least) = top_waiting-IsTopOf k lock cur.locks_owned_list 0 in
    let kept : Thread = record cur { locks_owned_list = kept_locks lock cur.locks_owned_list } in
    let k₁ = set_thread k k.current kept in
    let self₁ = update_self k.threads k.current kept in
    let t₂ = lowered (k₁.threads k.current) highest in
    let (base_le, top_le, low_least, same_base, same_status) =
      lowered_lem (k₁.threads k.current) highest in
    let k₂ = set_thread k₁ k.current t₂ in
    let self₂ = update_self k₁.threads k.current t₂ in
    let out = current-NotIn k v.is_running v.queued in
    let q₁ = set_thread-IsQueued k k.current kept out (v.queued.floor k.current) v.queued in
    let q₂ = set_thread-IsQueued k₁ k.current t₂ out (omega (arith, base_le, same_base)) q₁ in
    let run : (k₂.threads k.current).status ≡ Status.running =
      ap (λ y. y.status) self₂ ∙ same_status ∙ ap (λ y. y.status) self₁ ∙ v.is_running in
    let fits : highest ≤ priority_of k₁ k.current =
      omega (
        arith,
        ap (λ y. y.priority) self₁,
        least (priority_of k k.current) (omega arith) donated,
      ) in
    Returns-if (Released k lock) k.thread_mlfqs _ _ (λ m. absurd (cc))
      (λ _. assert_holds (Released k lock) _ _ (both_hold _ _ free owned) (
        assert_then (Released k lock) _ k₂ maybe_yield_to_ready_thread
          (le→leb highest (priority_of k₁ k.current) fits)
          (Returns-map _ (Released k lock) (maybe_yield_to_ready_thread k₂)
            (λ k' r.
              let p : priority_of k' k.current ≡ t₂.priority =
                r.1.same_priority k.current ∙ ap (λ y. y.priority) self₂ in
              let base₁ = ap (λ y. y.base_priority) self₁ in
              record {
                valid = r.0;
                above_base = omega (arith, p, base_le, base₁);
                above_waiting =
                    OthersBelow-le k lock cur.locks_owned_list (omega (arith, p, top_le)) above;
                least = λ b x y.
                    omega (arith, p, low_least b (omega (arith, base₁)) (least b (omega arith) y));
              })
            (Returns-both IsValid (Kept k₂) (maybe_yield_to_ready_thread k₂)
              (maybe_yield-IsValid k₂ run q₂) (maybe_yield-Kept k₂)))))

lt→not_leb : (a b : ℕ) → b < a → leb a b ≡ false
lt→not_leb a b h = ground arith

refused :
    (c a d : Bool) (r x : Kernel) (f : Kernel → Run)
    → c ≡ false
    → d ≡ false
    → (if c then done r else assert a (assert d (done x) >>= f)) ≡ panic
refused true a d r x f hc hd = cc
refused false true true r x f hc hd = cc
refused false true false r x f hc hd = refl
refused false false d r x f hc hd = refl

-- thread_lock_released, without the multi-level scheduler, panics where the running thread lists
-- among its own another lock for which a thread of a higher priority than its own waits.
pub release_panics :
    (k : Kernel) (lock other w : ℕ) (before after : List ℕ) (ws vs : List ℕ)
    → k.thread_mlfqs ≡ false
    → (k.threads k.current).locks_owned_list ≡ before ++ other ∷ after
    → lock ≢ other
    → (k.semas other).waiters ≡ ws ++ w ∷ vs
    → priority_of k k.current < priority_of k w
    → thread_lock_released k lock ≡ panic
unfolding thread_lock_released maybe_lower_priority
release_panics k lock other w before after ws vs donates owned ne waits above =
    let cur = k.threads k.current in
    let kept : Thread = record cur { locks_owned_list = kept_locks lock cur.locks_owned_list } in
    let highest = top_waiting k lock cur.locks_owned_list 0 in
    let (_, bound, _) = top_waiting-IsTopOf k lock cur.locks_owned_list 0 in
    let of_other =
      All-middle (λ l. lock ≢ l → WaitBelow k highest l) before other after cur.locks_owned_list
        owned bound ne in
    let of_w =
      All-middle (λ u. priority_of k u ≤ highest) ws w vs (k.semas other).waiters waits of_other in
    let same = ap (λ y. y.priority) (update_self k.threads k.current kept) in
    refused k.thread_mlfqs _ _ _ _ _ donates (
      lt→not_leb highest (priority_of (set_thread k k.current kept) k.current)
        (omega (arith, same, of_w)))

trim_priority-pos : (p : ℕ) → p ≤ 63 → trim_priority (pos p) ≡ p
unfolding trim_priority
trim_priority-pos p h = ground arith

with_base-equal : (t : Thread) (p : ℕ) → t.base_priority ≡ t.priority → (with_base t p).priority ≡ p
unfolding with_base
with_base-equal t p e = rw ((==_iff t.base_priority t.priority).1 e)

with_base-owned : (t : Thread) (p : ℕ) → (with_base t p).locks_owned_list ≡ t.locks_owned_list
unfolding with_base
with_base-owned t p = refl

-- The thread owns the lock, for which `w` waits, and runs below it.
abbrev pub RunsBelow : Kernel → ℕ → ℕ → ℕ → Kernel → Type 0
RunsBelow k cur lock w k' =
    ((k'.threads cur).locks_owned_list ≡ (k.threads cur).locks_owned_list)
    × ((k'.semas lock).waiters ≡ (k.semas lock).waiters)
    × (priority_of k' cur < priority_of k' w)

-- thread_set_priority loses a donation that did not have to raise the priority: in a valid state
-- where the running thread's base and effective priority agree and it owns a lock for which another
-- thread waits, a new priority of at most 63 and below the waiting thread's does not panic and
-- leaves the running thread with the lock, the other waiting for it, and the running thread at a
-- lower priority than the one that waits.
pub set_priority_drops :
    (k : Kernel) (p lock w : ℕ) (before after ws vs : List ℕ)
    → (k.threads k.current).base_priority ≡ priority_of k k.current
    → (k.threads k.current).locks_owned_list ≡ before ++ lock ∷ after
    → (k.semas lock).waiters ≡ ws ++ w ∷ vs
    → k.current ≢ w
    → p < priority_of k w
    → p ≤ 63
    → IsValid k
    → Returns (RunsBelow k k.current lock w) (thread_set_priority k (pos p))
unfolding thread_set_priority
set_priority_drops k p lock w before after ws vs b owned waits ne below small v =
    let x = with_base (k.threads k.current) (trim_priority (pos p)) in
    let k₁ = set_thread k k.current x in
    let self = update_self k.threads k.current x in
    Returns-map (Kept k₁) (RunsBelow k k.current lock w) (maybe_yield_to_ready_thread k₁)
      (λ k' r.
        let own : priority_of k' k.current ≡ p =
          r.same_priority k.current
          ∙ ap (λ y. y.priority) self
          ∙ with_base-equal (k.threads k.current) (trim_priority (pos p)) b
          ∙ trim_priority-pos p small in
        let theirs : priority_of k' w ≡ priority_of k w =
          r.same_priority w ∙ ap (λ y. y.priority) (update_ne k.threads k.current w x ne) in
        (
          r.same_owned k.current
              ∙ ap (λ y. y.locks_owned_list) self
              ∙ with_base-owned (k.threads k.current) (trim_priority (pos p)),
          ap (λ g. (g lock).waiters) r.same_semas,
          omega (arith, own, theirs, below),
        ))
      (maybe_yield-Kept k₁)
