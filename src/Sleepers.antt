-- ===== src/Sleepers.antt =====
-- pintos_3/src/threads/thread.c: the list of sleeping threads (thread_sleep, sleepers_tick_compare
-- and the end of thread_tick). Each thread holds the ticks that it sleeps longer than the one
-- before it.
pub mod Delta
mod Tests
use buaa755os.Base.{ℕ, ◌+◌, ◌-◌, List, [], ◌∷◌, Bool, true, false, not, ◌&&◌, if◌then◌else◌, ltb}
use buaa755os.Threads.{Kernel, Run}
use buaa755os.Threads.Sched.{thread_block}

-- A thread of the list, with its `wakeup_ticks`.
pub record Sleeper : Type 0 where
  pub tid : ℕ
  pub wakeup_ticks : ℕ

-- list_insert_ordered with sleepers_tick_compare, which changes the ticks of the two threads that
-- it compares: of the later one, which it then knows to come after the other.
unfoldable pub insert_sleeper : Sleeper → List Sleeper → List Sleeper
insert_sleeper s [] = s ∷ []
insert_sleeper s (e ∷ es) =
    let further = insert_sleeper (record s { wakeup_ticks = s.wakeup_ticks - e.wakeup_ticks }) es in
    if ltb s.wakeup_ticks e.wakeup_ticks
    then s ∷ record e { wakeup_ticks = e.wakeup_ticks - s.wakeup_ticks } ∷ es
    else e ∷ further

-- thread_sleep of the current thread, with what its assertions ask: that it is outside an interrupt
-- and that interrupts are off. A negative number of ticks is as 0.
unfoldable pub thread_sleep : Kernel → Bool → ℕ → List Sleeper → Run × List Sleeper
unfolding insert_sleeper thread_block
thread_sleep k interrupts_off ticks sleep_list =
    if not k.in_interrupt && interrupts_off
    then (if ltb 0 ticks
        then (
          thread_block k,
          insert_sleeper (record { tid = k.current; wakeup_ticks = ticks }) sleep_list,
        )
        else (Run.done k, sleep_list))
    else (Run.panic, sleep_list)

-- The loop at the end of thread_tick: the threads that it unblocks, in order, and those that stay.
unfoldable pub wake_front : List Sleeper → List ℕ × List Sleeper
wake_front [] = ([], [])
wake_front (s ∷ ss) =
    let (woken, rest) = wake_front ss in
    if ltb 0 s.wakeup_ticks then ([], s ∷ ss) else (s.tid ∷ woken, rest)

-- The end of thread_tick. The front sleeps for at least one more tick before it (the code would
-- count below 0 else), so the subtraction does not stop at 0.
unfoldable pub tick_sleepers : List Sleeper → List ℕ × List Sleeper
unfolding wake_front
tick_sleepers [] = ([], [])
tick_sleepers (s ∷ ss) = wake_front (record s { wakeup_ticks = s.wakeup_ticks - 1 } ∷ ss)
