-- ===== src/Intq/Tests.antt =====
-- intq.c on queues of two bytes and of none, with two threads that are ready to run.
use buaa755os.Base.{
  ◌≡◌, refl, true, false, none, some, [], ◌∷◌, ◌++◌, update, if◌then◌else◌, ◌==◌, arith,
}
use buaa755os.Base.Int.{pos}
use buaa755os.Threads.{Thread, Kernel, Status}
use buaa755os.Intq.{Intq, Point, Round, failed, lost, returned, intq_init, intq_getc, intq_putc}
use buaa755os.Intq.Refine.{IsValid, ReturnsWith, contents, intq_putc_lem, intq_getc_lem}
use buaa755os.Intq.Wake.{getc_putc_fails}

abbrev thread : Status → Thread
thread status = record {
  status = status;
  priority = 31;
  base_priority = 31;
  waiting_lock = none;
  locks_owned_list = [];
  wakeup_ticks = 0;
  nice = pos 0;
  recent_cpu = pos 0;
}

abbrev kernel : Kernel
kernel = record {
  threads = λ t. if t == 0 then thread Status.running else thread Status.ready;
  semas = λ s. record { value = 1; waiters = [] };
  holder = λ l. none;
  ready_list = 1 ∷ 2 ∷ [];
  current = 0;
  idle_thread = 99;
  thread_mlfqs = false;
  in_interrupt = false;
  yield_on_return = false;
}

abbrev no_bytes : Intq
no_bytes = intq_init 5 (λ i. 0)

-- The bytes 70 and 71, in the last and the first place of the buffer.
abbrev two_bytes : Intq
two_bytes = record no_bytes { buf = update (λ i. 71) 63 70; head = 1; tail = 63 }

two_bytes-IsValid : IsValid two_bytes
two_bytes-IsValid = record { head_in = omega arith; tail_in = omega arith }

-- An interrupt handler must not wait for a byte.
getc_in_interrupt : intq_getc no_bytes (record kernel { in_interrupt = true }) ≡ failed
unfolding intq_getc intq_init buaa755os.Intq.intq_empty buaa755os.Intq.sleep
getc_in_interrupt = refl

intq_putc_example :
    ReturnsWith (intq_putc two_bytes 72 kernel) tt (contents two_bytes ++ 72 ∷ []) kernel
unfolding intq_init
intq_putc_example = intq_putc_lem two_bytes 72 kernel two_bytes-IsValid (omega arith) refl

intq_getc_example : ReturnsWith (intq_getc two_bytes kernel) 70 (71 ∷ []) kernel
unfolding intq_init
intq_getc_example = intq_getc_lem two_bytes kernel 70 (71 ∷ []) two_bytes-IsValid refl refl

getc_putc_fails_example : intq_putc (record no_bytes { not_empty = some 0 }) 65 kernel ≡ failed
unfolding intq_getc buaa755os.Intq.intq_empty intq_init buaa755os.Intq.sleep
    buaa755os.Threads.Synch.lock_acquire buaa755os.Threads.Synch.lock_held_by_current_thread
    buaa755os.Threads.Synch.sema_try_down buaa755os.Threads.Synch.lock_taken buaa755os.Intq.wait
    buaa755os.Intq.must_wait buaa755os.Threads.Sched.thread_block
getc_putc_fails_example =
    getc_putc_fails no_bytes kernel (record no_bytes { not_empty = some 0 }) _ kernel 65 refl
