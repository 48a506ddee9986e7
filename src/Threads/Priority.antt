-- ===== src/Threads/Priority.antt =====
-- threads/thread.c: effective and base priorities, donation, and the locks that a thread owns.
use buaa755os.Base.{
  ℕ, zero, suc, Bool, true, false, not, ◌&&◌, ◌||◌, Option, none, some, List, [], ◌∷◌,
  if◌then◌else◌, ◌==◌, ltb, leb,
}
use buaa755os.Base.Int.{ℤ, pos, ltb_ℤ, pos_part}
use buaa755os.Threads.{
  Thread, Kernel, Status, Run, done, ◌>>=◌, assert, set_thread, priority_of, is_some, pri_min,
  pri_max,
}
use buaa755os.Threads.Sched.{maybe_yield_to_ready_thread, shuffle_ready_thread}
use buaa755os.KernelList.{list_max, list_push_front}

unfoldable pub trim_priority : ℤ → ℕ
trim_priority p =
    if ltb_ℤ (pos pri_max) p then pri_max else if ltb_ℤ p (pos pri_min) then pri_min else pos_part p

unfoldable pub maybe_raise_priority : Thread → ℕ → Thread × Bool
maybe_raise_priority t p =
    if ltb t.priority p then (record t { priority = p }, true) else (t, false)

unfoldable pub lowered : Thread → ℕ → Thread
lowered t p = record t { priority = if ltb p t.base_priority then t.base_priority else p }

unfoldable pub maybe_lower_priority : Kernel → ℕ → ℕ → Run
unfolding lowered
maybe_lower_priority k t p =
    assert (leb p (priority_of k t)) (done (set_thread k t (lowered (k.threads t) p)))

-- The new thread record of thread_set_priority, for the trimmed priority.
unfoldable pub with_base : Thread → ℕ → Thread
with_base t p = record t {
  priority = if t.base_priority == t.priority || ltb t.priority p then p else t.priority;
  base_priority = p;
}

unfoldable pub thread_set_priority : Kernel → ℤ → Run
unfolding with_base trim_priority maybe_yield_to_ready_thread
thread_set_priority k new_priority =
    let p = trim_priority new_priority in
    maybe_yield_to_ready_thread (set_thread k k.current (with_base (k.threads k.current) p))

unfoldable pub thread_get_priority : Kernel → ℕ
thread_get_priority k = priority_of k k.current

unfoldable pub lock_in_thread_locks_owned_list : ℕ → List ℕ → Bool
lock_in_thread_locks_owned_list lock [] = false
lock_in_thread_locks_owned_list lock (l ∷ ls) = lock == l || lock_in_thread_locks_owned_list lock ls

unfoldable pub thread_lock_acquired : Kernel → ℕ → Run
unfolding lock_in_thread_locks_owned_list list_push_front
thread_lock_acquired k lock =
    let cur = k.threads k.current in
    if k.thread_mlfqs
    then done k
    else assert
        (not k.in_interrupt
          && is_some (k.holder lock) k.current
          && not (lock_in_thread_locks_owned_list lock cur.locks_owned_list))
        (done (
          set_thread k k.current (record cur {
            locks_owned_list = list_push_front lock cur.locks_owned_list;
            waiting_lock = none;
          })))

-- What a round does: at a blocked thread, at a ready one, at any other.
unfoldable pub by_status : {A : Type 0} → Status → A → A → A → A
by_status Status.blocked x y z = x
by_status Status.ready x y z = y
by_status _ x y z = z

-- The holder of the lock that a thread waits for, if it waits for one.
unfoldable pub next_holder : Kernel → ℕ → Option ℕ
next_holder k t = elim (k.threads t).waiting_lock [ none ↦ none | some l ↦ k.holder l ]

-- The loop of thread_lock_will_wait: `nesting` rounds left, at a thread of the chain.
unfoldable pub donate : ℕ → Option ℕ → Kernel → Kernel
unfolding by_status next_holder maybe_raise_priority shuffle_ready_thread
donate zero thread k = k
donate (suc nesting) none k = k
donate (suc nesting) (some t) k =
    let (raised, changed) = maybe_raise_priority (k.threads t) (priority_of k k.current) in
    let k' = set_thread k t raised in
    let further = donate nesting (next_holder k t) k' in
    by_status (k.threads t).status further (if changed then shuffle_ready_thread k' t else k) k

abbrev pub pri_max_donation_nesting : ℕ
pri_max_donation_nesting = 8

unfoldable pub set_waiting_lock : Kernel → ℕ → Kernel
set_waiting_lock k lock =
    set_thread k k.current (record (k.threads k.current) { waiting_lock = some lock })

unfoldable pub thread_lock_will_wait : Kernel → ℕ → Run
unfolding donate lock_in_thread_locks_owned_list set_waiting_lock
thread_lock_will_wait k lock =
    if k.thread_mlfqs
    then done k
    else assert
        (not k.in_interrupt
          && not (is_some (k.holder lock) k.current)
          && not (lock_in_thread_locks_owned_list lock (k.threads k.current).locks_owned_list))
        (done (set_waiting_lock (donate pri_max_donation_nesting (k.holder lock) k) lock))

-- thread_priority_compare of synch.c
abbrev pub less_priority : Kernel → ℕ → ℕ → Bool
less_priority k a b = ltb (priority_of k a) (priority_of k b)

-- lock_get_highest_priority_waiting_thread
unfoldable pub highest_waiting : Kernel → ℕ → Option ℕ
unfolding list_max
highest_waiting k lock = list_max (less_priority k) (k.semas lock).waiters

-- The highest priority so far, against the thread that waits, if one does.
unfoldable pub higher_of : Kernel → ℕ → Option ℕ → ℕ
higher_of k highest none = highest
higher_of k highest (some w) = if ltb highest (priority_of k w) then priority_of k w else highest

-- One round over an owned lock that stays: the highest priority seen so far.
unfoldable pub higher : Kernel → ℕ → ℕ → ℕ
unfolding higher_of highest_waiting
higher k owned highest = higher_of k highest (highest_waiting k owned)

-- The loop of thread_lock_released over the owned locks: the locks that stay owned, and the highest
-- priority that waits for one of them.
unfoldable pub kept_locks : ℕ → List ℕ → List ℕ
kept_locks lock [] = []
kept_locks lock (owned ∷ ls) =
    if lock == owned then kept_locks lock ls else owned ∷ kept_locks lock ls

unfoldable pub top_waiting : Kernel → ℕ → List ℕ → ℕ → ℕ
unfolding higher
top_waiting k lock [] highest = highest
top_waiting k lock (owned ∷ ls) highest =
    top_waiting k lock ls (if lock == owned then highest else higher k owned highest)

unfoldable pub thread_lock_released : Kernel → ℕ → Run
thread_lock_released k lock =
    let cur = k.threads k.current in
    let highest = top_waiting k lock cur.locks_owned_list pri_min in
    let kept : Thread = record cur { locks_owned_list = kept_locks lock cur.locks_owned_list } in
    if k.thread_mlfqs
    then done k
    else assert
        (not (is_some (k.holder lock) k.current)
          && lock_in_thread_locks_owned_list lock cur.locks_owned_list)
        (maybe_lower_priority (set_thread k k.current kept) k.current highest
          >>= maybe_yield_to_ready_thread)
