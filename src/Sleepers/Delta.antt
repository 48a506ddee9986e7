-- ===== src/Sleepers/Delta.antt =====
-- The sleeping list against what it stands for: the ticks that each thread has left to sleep.
use buaa755os.Base.{
  ℕ, ◌+◌, ◌-◌, ◌<◌, ◌≡◌, refl, true, false, List, [], ◌∷◌, if◌then◌else◌, ltb, arith, Bool-cases,
  inl, inr, ltb→lt, lt→ltb, ap, sym, ◌∙◌,
}
use buaa755os.Threads.{Kernel}
use buaa755os.Threads.Sched.{thread_block}
use buaa755os.Sleepers.{Sleeper, insert_sleeper, thread_sleep, wake_front, tick_sleepers}

-- A thread and the ticks that it has left.
pub record Due : Type 0 where
  pub tid : ℕ
  pub ticks : ℕ

-- What a list stands for, if `base` ticks pass before its front counts.
abbrev pub due_from : ℕ → List Sleeper → List Due
due_from base [] = []
due_from base (s ∷ ss) =
    record { tid = s.tid; ticks = base + s.wakeup_ticks } ∷ due_from (base + s.wakeup_ticks) ss

abbrev pub due : List Sleeper → List Due
due = due_from 0

-- The abstract insertion: before the first thread that is due later.
abbrev pub insert_due : Due → List Due → List Due
insert_due d [] = d ∷ []
insert_due d (e ∷ es) = if ltb d.ticks e.ticks then d ∷ e ∷ es else e ∷ insert_due d es

-- The insertion below a base.
insert_sleeper-due :
    (base tid ticks : ℕ) (ss : List Sleeper)
    → due_from base (insert_sleeper (record { tid = tid; wakeup_ticks = ticks }) ss)
      ≡ insert_due (record { tid = tid; ticks = base + ticks }) (due_from base ss)
unfolding insert_sleeper
insert_sleeper-due base tid ticks [] = refl
insert_sleeper-due base tid ticks (e ∷ es) = elim (Bool-cases (ltb ticks e.wakeup_ticks)) [
  | inl before ↦
      let front : ltb (base + ticks) (base + e.wakeup_ticks) ≡ true = ground arith in
      rw (before, front)
        (ap
          (λ n.
            record { tid = tid; ticks = base + ticks }
            ∷ record { tid = e.tid; ticks = n }
            ∷ due_from n es)
          (omega (arith, ltb→lt ticks e.wakeup_ticks before)))
  | inr behind ↦
      let front : ltb (base + ticks) (base + e.wakeup_ticks) ≡ false = ground arith in
      rw (behind, front)
        (ap (λ l. record { tid = e.tid; ticks = base + e.wakeup_ticks } ∷ l)
          (insert_sleeper-due (base + e.wakeup_ticks) tid (ticks - e.wakeup_ticks) es
            ∙ ap
                (λ n.
                  insert_due (record { tid = tid; ticks = n })
                    (due_from (base + e.wakeup_ticks) es))
                (ground arith)))
]

-- thread_sleep, outside an interrupt and with interrupts off, for at least one tick, puts the current
-- thread into the list to be due in exactly TICKS ticks, behind the threads that are due no later,
-- leaves what every other thread has left, and blocks the thread.
pub thread_sleep-due :
    (k : Kernel) (ticks : ℕ) (sleep_list : List Sleeper)
    → k.in_interrupt ≡ false
    → 0 < ticks
    → (due (thread_sleep k true ticks sleep_list).1
        ≡ insert_due (record { tid = k.current; ticks = ticks }) (due sleep_list))
      × ((thread_sleep k true ticks sleep_list).0 ≡ thread_block k)
unfolding thread_sleep
thread_sleep-due k ticks sleep_list calm pos =
    rw (calm, lt→ltb 0 ticks pos)
      (
        insert_sleeper-due 0 k.current ticks sleep_list
            ∙ ap (λ n. insert_due (record { tid = k.current; ticks = n }) (due sleep_list))
                (omega arith),
        refl,
      )

-- One tick passes for every thread.
abbrev pub elapse : List Due → List Due
elapse [] = []
elapse (d ∷ ds) = record d { ticks = d.ticks - 1 } ∷ elapse ds

due-cons :
    (s : Sleeper) (ss : List Sleeper)
    → due (s ∷ ss) ≡ record { tid = s.tid; ticks = s.wakeup_ticks } ∷ due_from s.wakeup_ticks ss
due-cons s ss = ap (λ n. record { tid = s.tid; ticks = n } ∷ due_from n ss) (omega arith)

-- The threads that have no tick left, and those that have.
abbrev pub expired : List Due → List ℕ
expired [] = []
expired (d ∷ ds) = if ltb 0 d.ticks then expired ds else d.tid ∷ expired ds

abbrev pub pending : List Due → List Due
pending [] = []
pending (d ∷ ds) = if ltb 0 d.ticks then d ∷ pending ds else pending ds

elapse-due_from :
    (base : ℕ) (ss : List Sleeper) → 0 < base → elapse (due_from base ss) ≡ due_from (base - 1) ss
elapse-due_from base [] h = refl
elapse-due_from base (s ∷ ss) h =
    let e : base + s.wakeup_ticks - 1 ≡ base - 1 + s.wakeup_ticks = omega arith in
    ap (λ l. record { tid = s.tid; ticks = base + s.wakeup_ticks - 1 } ∷ l)
      (elapse-due_from (base + s.wakeup_ticks) ss (omega arith))
    ∙ ap (λ n. record { tid = s.tid; ticks = n } ∷ due_from n ss) e

-- Behind a thread that still sleeps, all do.
expired-none : (base : ℕ) (ss : List Sleeper) → 0 < base → expired (due_from base ss) ≡ []
expired-none base [] h = refl
expired-none base (s ∷ ss) h =
    rw (lt→ltb 0 (base + s.wakeup_ticks) (omega arith))
      (expired-none (base + s.wakeup_ticks) ss (omega arith))

pending-all :
    (base : ℕ) (ss : List Sleeper) → 0 < base → pending (due_from base ss) ≡ due_from base ss
pending-all base [] h = refl
pending-all base (s ∷ ss) h = rw (lt→ltb 0 (base + s.wakeup_ticks) (omega arith)) (
    ap (λ l. record { tid = s.tid; ticks = base + s.wakeup_ticks } ∷ l)
      (pending-all (base + s.wakeup_ticks) ss (omega arith)))

wake_front-due :
    (ss : List Sleeper)
    → ((wake_front ss).0 ≡ expired (due ss)) × (due (wake_front ss).1 ≡ pending (due ss))
unfolding wake_front
wake_front-due [] = (refl, refl)
wake_front-due (s ∷ ss) =
    let (woken, rest) = front (wake_front-due ss) in
    (woken ∙ ap expired (sym (due-cons s ss)), rest ∙ ap pending (sym (due-cons s ss)))
  where
    counted : List Due
    counted = record { tid = s.tid; ticks = s.wakeup_ticks } ∷ due_from s.wakeup_ticks ss

    front :
        ((wake_front ss).0 ≡ expired (due ss)) × (due (wake_front ss).1 ≡ pending (due ss))
        → ((wake_front (s ∷ ss)).0 ≡ expired counted)
          × (due (wake_front (s ∷ ss)).1 ≡ pending counted)
    front (woken, rest) = elim (Bool-cases (ltb 0 s.wakeup_ticks)) [
      | inl sleeps ↦
          let pos = ltb→lt 0 s.wakeup_ticks sleeps in
          rw sleeps (
            sym (expired-none s.wakeup_ticks ss pos),
            due-cons s ss
                ∙ ap (λ l. record { tid = s.tid; ticks = s.wakeup_ticks } ∷ l)
                    (sym (pending-all s.wakeup_ticks ss pos)),
          )
      | inr done_now ↦
          let zero_left : s.wakeup_ticks ≡ 0 = ground arith in
          rw done_now (
            ap (λ l. s.tid ∷ l) (woken ∙ ap (λ n. expired (due_from n ss)) (sym zero_left)),
            rest ∙ ap (λ n. pending (due_from n ss)) (sym zero_left),
          )
    ]

-- A tick, where the front of the list still has a tick to sleep, takes one tick from every thread;
-- it wakes exactly the threads that have none left, in order, and keeps the others.
pub tick_sleepers-due :
    (s : Sleeper) (ss : List Sleeper)
    → 0 < s.wakeup_ticks
    → ((tick_sleepers (s ∷ ss)).0 ≡ expired (elapse (due (s ∷ ss))))
      × (due (tick_sleepers (s ∷ ss)).1 ≡ pending (elapse (due (s ∷ ss))))
unfolding tick_sleepers
tick_sleepers-due s ss pos =
    let s₁ : Sleeper = record s { wakeup_ticks = s.wakeup_ticks - 1 } in
    let e : elapse (due (s ∷ ss)) ≡ due (s₁ ∷ ss) =
      ap elapse (due-cons s ss)
      ∙ ap (λ l. record { tid = s.tid; ticks = s.wakeup_ticks - 1 } ∷ l)
          (elapse-due_from s.wakeup_ticks ss pos)
      ∙ sym (due-cons s₁ ss) in
    let (woken, rest) = wake_front-due (s₁ ∷ ss) in
    (woken ∙ ap expired (sym e), rest ∙ ap pending (sym e))
