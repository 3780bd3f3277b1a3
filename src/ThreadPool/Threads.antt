-- ===== src/ThreadPool/Threads.antt =====
-- The counters of the pool over any steps.
use networking_programming.Base.{
  ℕ, zero, suc, ◌+◌, ◌<◌, ◌≡◌, refl, true, ◌&&◌, Option, none, some, List, ltb, ◌==◌, arith,
  Bool-cases, inl, inr, if_either,
}
use networking_programming.Base.Int.{pos, ◌+ℤ◌, ltb_ℤ}
use networking_programming.Memory.{IfOk}
use networking_programming.ThreadPool.{
  Task, Pool, Worker, unborn, starting, asleep, working, finishing, exiting, gone, Manager, testing,
  slept, joined, measured, stopping, begin_add, add_task, woken, worker_step, number, grow,
  manager_step, delete_pool, Action, tests, adds, shuts, deletes, manages, works, act, Reach, here,
  later,
}
use networking_programming.ThreadPool.Cases.{woken_cases, with_pool_cases, delete_arg_cases}
use networking_programming.ThreadPool.Counters.{
  Origin, Counts, live_threads, busy_threads, test_queue-Counts, dismissed-Counts, same-Counts,
  finishing-Counts, starting-Counts, gone-Counts, spawn-Counts,
}

-- The loop of the manager goes on only while there is room.
pub room :
    (num : ℕ) (s : Pool)
    → (ltb num number && ltb s.alive_num s.max_num) ≡ true
    → s.alive_num < s.max_num
room num s on = ground arith

module _ (origin : Origin) where
  woken-Counts :
      (i : ℕ) (queue : List Task) (s : Pool)
      → Counts origin s
      → s.worker i ≡ asleep
      → IfOk (Counts origin) (woken i queue s)
  woken-Counts i queue s c e =
      woken_cases (IfOk (Counts origin)) i queue s
        (dismissed-Counts c i (record { stands = e; alive = refl; idle = refl }))
        (test_queue-Counts (same-Counts c _ s.task_q s.added s.ran s.manager) i queue
          (record { stands = e; alive = refl; idle = refl }))
        (test_queue-Counts c i queue (record { stands = e; alive = refl; idle = refl }))

  worker_step-Counts :
      (v : Worker) (i : ℕ) (s : Pool)
      → Counts origin s
      → s.worker i ≡ v
      → IfOk (Counts origin) (worker_step v i s)
  unfolding worker_step
  worker_step-Counts unborn i s c e = c
  worker_step-Counts starting i s c e =
      with_pool_cases (Counts origin) s.task_q _
        (λ queue _. test_queue-Counts c i queue (record { stands = e; alive = refl; idle = refl }))
  worker_step-Counts asleep i s c e =
      with_pool_cases (Counts origin) s.task_q _ (λ queue _. woken-Counts i queue s c e)
  worker_step-Counts (working task) i s c e =
      delete_arg_cases (Counts origin) task.arg _ (finishing-Counts c i _ e)
  worker_step-Counts finishing i s c e =
      with_pool_cases (Counts origin) s.task_q _ (λ _ _. starting-Counts c i e)
  worker_step-Counts exiting i s c e =
      with_pool_cases (Counts origin) s.task_q _ (λ _ _. gone-Counts c i _ e)
  worker_step-Counts gone i s c e = c

  pub grow-Counts :
      (left i num : ℕ) (s : Pool) → Counts origin s → Counts origin (grow left i num s)
  unfolding grow
  grow-Counts zero i num s c = c
  grow-Counts (suc left) i num s c =
      elim (Bool-cases (ltb num number && ltb s.alive_num s.max_num)) [
        | inr stop ↦ rw stop c
        | inl on ↦ elim (Bool-cases (s.thread_ids i == 0)) [
          | inl free ↦
              rw (on, free)
                (grow-Counts left (i + 1) (num + 1) _ (spawn-Counts c i (room num s on)))
          | inr taken ↦ rw (on, taken) (grow-Counts left (i + 1) num s c)
        ]
      ]

  manager_step-Counts :
      (m : Manager) (queue : List Task) (s : Pool)
      → Counts origin s
      → Counts origin (manager_step m queue s)
  unfolding manager_step
  manager_step-Counts testing queue s c =
      if_either (Counts origin) s.shutdown (same-Counts c s.exit_num s.task_q s.added s.ran joined)
        (same-Counts c s.exit_num s.task_q s.added s.ran slept)
  manager_step-Counts slept queue s c = same-Counts c s.exit_num s.task_q s.added s.ran _
  manager_step-Counts (measured q l b) queue s c = elim (Bool-cases (ltb l q && ltb l s.max_num)) [
    | inl more ↦
        let g = grow-Counts s.max_num 0 0 s c in
        let t : Pool = grow s.max_num 0 0 s in
        rw more (same-Counts g t.exit_num t.task_q t.added t.ran _)
    | inr enough ↦ rw enough (same-Counts c s.exit_num s.task_q s.added s.ran _)
  ]
  manager_step-Counts (stopping q l b) queue s c =
      if_either (Counts origin) (ltb_ℤ (b +ℤ b) (pos l) && ltb s.min_num l)
        (same-Counts c (pos number) s.task_q s.added s.ran testing)
        (same-Counts c s.exit_num s.task_q s.added s.ran testing)
  manager_step-Counts joined queue s c = c

  -- What the counters say does not depend on the tasks.
  tasks-Counts :
      (s : Pool) (q : Option (List Task)) (adding : ℕ → Option Task) (added : List Task)
      → Counts origin s
      → Counts origin (record s { task_q = q; adding = adding; added = added })
  unfolding live_threads busy_threads
  tasks-Counts s q adding added c = record {
    lowest = c.lowest;
    highest = c.highest;
    least = c.least;
    most = c.most;
    fresh = c.fresh;
    live = c.live;
    exact = c.exact;
    busy = c.busy;
  }

  begin_add-Counts :
      (k : ℕ) (task : Task) (found : Option Task) (s : Pool)
      → Counts origin s
      → Counts origin (begin_add k task found s)
  unfolding begin_add
  begin_add-Counts k task (some other) s c = c
  begin_add-Counts k task none s c =
      if_either (Counts origin) s.shutdown c (tasks-Counts s s.task_q _ s.added c)

  add_task-Counts :
      (k : ℕ) (found : Option Task) (queue : List Task) (s : Pool)
      → Counts origin s
      → Counts origin (add_task k found queue s)
  unfolding add_task
  add_task-Counts k none queue s c = c
  add_task-Counts k (some task) queue s c = tasks-Counts s _ _ _ c

  delete_pool-Counts : (m : Manager) (s : Pool) → Counts origin s → Counts origin (delete_pool m s)
  unfolding delete_pool
  delete_pool-Counts joined s c = same-Counts c s.exit_num none s.added s.ran s.manager
  delete_pool-Counts testing s c = c
  delete_pool-Counts slept s c = c
  delete_pool-Counts (measured q l b) s c = c
  delete_pool-Counts (stopping q l b) s c = c

  shuts-Counts : (s : Pool) → Counts origin s → Counts origin (record s { shutdown = true })
  unfolding live_threads busy_threads
  shuts-Counts s c = record {
    lowest = c.lowest;
    highest = c.highest;
    least = c.least;
    most = c.most;
    fresh = c.fresh;
    live = c.live;
    exact = λ up. cc;
    busy = c.busy;
  }

  act-Counts : (a : Action) (s : Pool) → Counts origin s → IfOk (Counts origin) (act a s)
  unfolding act
  act-Counts (tests k task) s c =
      with_pool_cases (Counts origin) s.task_q _ (λ _ _. begin_add-Counts k task (s.adding k) s c)
  act-Counts (adds k) s c =
      with_pool_cases (Counts origin) s.task_q _
        (λ queue _. add_task-Counts k (s.adding k) queue s c)
  act-Counts shuts s c = with_pool_cases (Counts origin) s.task_q _ (λ _ _. shuts-Counts s c)
  act-Counts deletes s c =
      with_pool_cases (Counts origin) s.task_q _ (λ _ _. delete_pool-Counts s.manager s c)
  act-Counts manages s c =
      with_pool_cases (Counts origin) s.task_q _
        (λ queue _. manager_step-Counts s.manager queue s c)
  act-Counts (works i) s c = worker_step-Counts (s.worker i) i s c refl

  pub Reach-Counts : {s t : Pool} → Counts origin s → Reach s t → Counts origin t
  Reach-Counts c here = c
  Reach-Counts c (later {t} r a e) = rw e at (act-Counts a t (Reach-Counts c r))
