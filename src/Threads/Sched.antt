-- ===== src/Threads/Sched.antt =====
-- threads/thread.c: the ready list, switching, blocking, unblocking and yielding.
use buaa755os.Base.{ℕ, Bool, true, false, not, List, [], ◌∷◌, if◌then◌else◌, ◌==◌, ltb}
use buaa755os.Threads.{
  Kernel, Status, Run, done, switched, assert, set_thread, priority_of, is_status,
}
use buaa755os.KernelList.{list_insert_ordered, list_remove}

-- thread_priority_compare of thread.c: the ready list has the highest priority in front.
abbrev pub runs_before : Kernel → ℕ → ℕ → Bool
runs_before k a b = ltb (priority_of k b) (priority_of k a)

unfoldable pub insert_ready : Kernel → ℕ → Kernel
insert_ready k t = record k { ready_list = list_insert_ordered (runs_before k) t k.ready_list }

unfoldable pub set_status : Kernel → ℕ → Status → Kernel
set_status k t s = set_thread k t (record (k.threads t) { status = s })

-- The front of a list, with what is behind it, or the idle thread.
unfoldable pub pick : ℕ → List ℕ → ℕ × List ℕ
pick idle [] = (idle, [])
pick idle (t ∷ ts) = (t, ts)

-- next_thread_to_run, with the ready list that it leaves.
unfoldable pub next_thread_to_run : Kernel → ℕ × List ℕ
unfolding pick
next_thread_to_run k = pick k.idle_thread k.ready_list

-- schedule, with thread_schedule_tail, which marks the next thread as running.
unfoldable pub schedule : Kernel → Run
unfolding next_thread_to_run set_status
schedule k =
    let (next, rest) = next_thread_to_run k in
    let k' = set_status (record k { ready_list = rest; current = next }) next Status.running in
    assert (not (is_status (k.threads k.current).status Status.running))
      (if k.current == next then done k' else switched k')

unfoldable pub thread_yield : Kernel → Run
unfolding schedule insert_ready set_status
thread_yield k =
    let queued = if k.current == k.idle_thread then k else insert_ready k k.current in
    assert (not k.in_interrupt) (schedule (set_status queued k.current Status.ready))

-- thread_block
unfoldable pub thread_block : Kernel → Run
unfolding schedule set_status
thread_block k = assert (not k.in_interrupt) (schedule (set_status k k.current Status.blocked))

-- The test of maybe_yield_to_ready_thread, on the ready list: its front outranks the running thread.
unfoldable pub front_outranks : Kernel → List ℕ → Bool
front_outranks k [] = false
front_outranks k (t ∷ ts) = ltb (priority_of k k.current) (priority_of k t)

unfoldable pub maybe_yield_to_ready_thread : Kernel → Run
unfolding thread_yield front_outranks
maybe_yield_to_ready_thread k =
    if front_outranks k k.ready_list
    then (if k.in_interrupt then done (record k { yield_on_return = true }) else thread_yield k)
    else done k

unfoldable pub thread_unblock : Kernel → ℕ → Run
unfolding insert_ready set_status maybe_yield_to_ready_thread
thread_unblock k t =
    assert (is_status (k.threads t).status Status.blocked)
      (maybe_yield_to_ready_thread (set_status (insert_ready k t) t Status.ready))

-- shuffle_ready_thread
unfoldable pub shuffle_ready_thread : Kernel → ℕ → Kernel
unfolding insert_ready
shuffle_ready_thread k t = insert_ready (record k { ready_list = list_remove t k.ready_list }) t
