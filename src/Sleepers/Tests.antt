-- ===== src/Sleepers/Tests.antt =====
-- The sleeping list with two threads: one sleeps for 3 ticks, the other for 5.
use buaa755os.Base.{◌≡◌, refl, true, false, none, List, [], ◌∷◌, if◌then◌else◌, ◌==◌, arith}
use buaa755os.Base.Int.{pos}
use buaa755os.Threads.{Thread, Kernel, Status}
use buaa755os.Threads.Sched.{thread_block}
use buaa755os.Sleepers.{Sleeper, thread_sleep, tick_sleepers}
use buaa755os.Sleepers.Delta.{
  due, insert_due, elapse, expired, pending, thread_sleep-due, tick_sleepers-due,
}

abbrev first : Sleeper
first = record { tid = 4; wakeup_ticks = 3 }

abbrev others : List Sleeper
others = record { tid = 6; wakeup_ticks = 2 } ∷ []

-- Thread 9 runs, 1 and 2 are ready.
abbrev thread : Status → Thread
thread status = record {
  status = status;
  priority = 31;
  base_priority = 31;
  waiting_lock = none;
  locks_owned_list = [];
  wakeup_ticks = 0;
  nice = pos 0;
  recent_cpu = pos 0;
}

abbrev kernel : Kernel
kernel = record {
  threads = λ t. if t == 9 then thread Status.running else thread Status.ready;
  semas = λ s. record { value = 1; waiters = [] };
  holder = λ l. none;
  ready_list = 1 ∷ 2 ∷ [];
  current = 9;
  idle_thread = 99;
  thread_mlfqs = false;
  in_interrupt = false;
  yield_on_return = false;
}

sleep_between :
    (thread_sleep kernel true 4 (first ∷ others)).1
    ≡ first ∷ record { tid = 9; wakeup_ticks = 1 } ∷ record { tid = 6; wakeup_ticks = 1 } ∷ []
unfolding thread_sleep
sleep_between = refl

thread_sleep-due_example :
    (due (thread_sleep kernel true 4 (first ∷ others)).1
      ≡ insert_due (record { tid = 9; ticks = 4 }) (due (first ∷ others)))
    × ((thread_sleep kernel true 4 (first ∷ others)).0 ≡ thread_block kernel)
thread_sleep-due_example = thread_sleep-due kernel 4 (first ∷ others) refl (omega arith)

tick_sleepers-due_example :
    ((tick_sleepers (first ∷ others)).0 ≡ expired (elapse (due (first ∷ others))))
    × (due (tick_sleepers (first ∷ others)).1 ≡ pending (elapse (due (first ∷ others))))
tick_sleepers-due_example = tick_sleepers-due first others (omega arith)
