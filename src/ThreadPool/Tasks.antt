-- ===== src/ThreadPool/Tasks.antt =====
-- The tasks of the pool: in what order they are taken, and how often they are run.
use networking_programming.Base.{
  ℕ, zero, suc, ◌+◌, ◌≤◌, ◌≡◌, ◌≢◌, refl, sym, ap, ◌∙◌, Bool, true, ◌&&◌, Option, none, some, List,
  [], ◌∷◌, ◌++◌, ltb, ◌==◌, arith, Bool-cases, inl, inr, if_either, append_assoc,
}
use networking_programming.Base.Int.{ℤ, pos, ◌+ℤ◌, ltb_ℤ}
use networking_programming.Base.Counting.{put, sum_below, sum_below-put, sum_below-put_next}
use networking_programming.Memory.{ok, IfOk}
use networking_programming.ThreadPool.{
  Task, Pool, Worker, unborn, starting, asleep, working, finishing, exiting, gone, Manager, testing,
  slept, joined, measured, stopping, queue_add, spawn, spawn_first, create_pool, begin_add,
  add_task, test_queue, woken, worker_step, number, grow, manager_step, delete_pool, Action, tests,
  adds, shuts, deletes, manages, works, act, Reach, here, later,
}
use networking_programming.ThreadPool.Cases.{
  taking, test_queue_cases, woken_cases, with_pool_cases, delete_arg_cases,
}
use networking_programming.ThreadPool.Counters.{Origin, Counts, born, same-Counts, spawn-Counts}
use networking_programming.ThreadPool.Threads.{Reach-Counts, grow-Counts, room}
use networking_programming.ThreadPool.Start.{created, create_pool-Counts}

-- The weight of some tasks, with a weight for each.
unfoldable pub weigh : (Task → ℕ) → List Task → ℕ
weigh w [] = 0
weigh w (task ∷ tasks) = w task + weigh w tasks

weigh-append : (w : Task → ℕ) (xs ys : List Task) → weigh w (xs ++ ys) ≡ weigh w xs + weigh w ys
unfolding weigh
weigh-append w [] ys = omega arith
weigh-append w (x ∷ xs) ys = omega (arith, weigh-append w xs ys)

weigh-one :
    (w : Task → ℕ) (xs : List Task) (task : Task) → weigh w (xs ++ task ∷ []) ≡ weigh w xs + w task
unfolding weigh
weigh-one w xs task = omega (arith, weigh-append w xs (task ∷ []))

-- The task that a worker is about to run.
abbrev pub in_hand : (Task → ℕ) → Worker → ℕ
in_hand w (working task) = w task
in_hand w _ = 0

-- The weight of the tasks that the workers are about to run.
unfoldable pub in_hands : (Task → ℕ) → Pool → ℕ
in_hands w s = sum_below (in_hand w) s.next_id s.worker

module _ (w : Task → ℕ) where
  record Queued (s : Pool) : Type 0 where
    order : (queue : List Task) → s.task_q ≡ some queue → s.added ≡ s.taken ++ queue
    once : weigh w s.taken ≡ weigh w s.ran + in_hands w s

  spawn-Queued :
      (s : Pool) (slot n : ℕ) → Queued s → Queued (spawn slot (record s { alive_num = n }))
  unfolding spawn in_hands
  spawn-Queued s slot n q = record {
    order = q.order;
    once = omega (arith, q.once, sum_below-put_next (in_hand w) s.next_id s.worker starting);
  }

  spawn_first-Queued : (left i : ℕ) (s : Pool) → Queued s → IfOk Queued (spawn_first left i s)
  unfolding spawn_first
  spawn_first-Queued zero i s q = q
  spawn_first-Queued (suc left) i s q =
      if_either (IfOk Queued) (ltb i s.max_num)
        (spawn_first-Queued left (i + 1) (spawn i s) (spawn-Queued s i s.alive_num q)) tt

  created-Queued : (origin : Origin) → IfOk Queued (created origin)
  unfolding create_pool in_hands weigh sum_below
  created-Queued origin =
      spawn_first-Queued origin.min_num 0 _ (record { order = λ queue same. cc; once = refl })

  module _ {origin : Origin} {s : Pool} (c : Counts origin s) (q : Queued s) where
    hands :
        (i : ℕ) {v : Worker} (u : Worker)
        → s.worker i ≡ v
        → v ≢ unborn
        → sum_below (in_hand w) s.next_id (put s.worker i u) + in_hand w v
          ≡ in_hands w s + in_hand w u
    unfolding in_hands
    hands i {v} u e ne = rw e at (sum_below-put (in_hand w) s.next_id s.worker i u (born c i e ne))

    -- A worker without a task goes on without one.
    empty-Queued :
        (i : ℕ) {v : Worker} (u : Worker) (exit_num busy_num : ℤ) (alive_num : ℕ) (ids : ℕ → ℕ)
        → s.worker i ≡ v
        → v ≢ unborn
        → in_hand w v ≡ 0
        → in_hand w u ≡ 0
        → Queued (record s {
          worker = put s.worker i u;
          exit_num = exit_num;
          busy_num = busy_num;
          alive_num = alive_num;
          thread_ids = ids;
        })
    unfolding in_hands
    empty-Queued i u x b a ids e ne idle still = record {
      order = q.order;
      once = omega (arith, q.once, hands i u e ne, idle, still);
    }

    taking-Queued :
        (i : ℕ) (task : Task) (rest : List Task) {v : Worker}
        → s.task_q ≡ some (task ∷ rest)
        → s.worker i ≡ v
        → v ≢ unborn
        → in_hand w v ≡ 0
        → Queued (taking i task rest s)
    unfolding in_hands
    taking-Queued i task rest found e ne idle = record {
      order = λ queue same.
          q.order (task ∷ rest) found
          ∙ sym (append_assoc s.taken (task ∷ []) rest)
          ∙ ap (λ l. (s.taken ++ task ∷ []) ++ l) (cc);
      once = omega (arith, q.once, hands i (working task) e ne, idle, weigh-one w s.taken task);
    }

    finishing-Queued :
        (i : ℕ) {task : Task}
        → s.worker i ≡ working task
        → Queued (record s { worker = put s.worker i finishing; ran = s.ran ++ task ∷ [] })
    unfolding in_hands
    finishing-Queued i {task} e = record {
      order = q.order;
      once = omega (arith, q.once, hands i finishing e (λ h. cc), weigh-one w s.ran task);
    }

    test_queue-Queued :
        (i : ℕ) (queue : List Task) {v : Worker}
        → s.task_q ≡ some queue
        → s.worker i ≡ v
        → v ≢ unborn
        → in_hand w v ≡ 0
        → IfOk Queued (test_queue i queue s)
    test_queue-Queued i queue found e ne idle =
        test_queue_cases (IfOk Queued) i queue s
          (λ _ _.
            empty-Queued i asleep s.exit_num s.busy_num s.alive_num s.thread_ids e ne idle refl)
          (λ _.
            empty-Queued i exiting s.exit_num s.busy_num s.alive_num s.thread_ids e ne idle refl)
          (λ task rest _ same. taking-Queued i task rest (found ∙ ap some same) e ne idle)

    same-Queued :
        (n : ℤ) (m : Manager) (down : Bool)
        → Queued (record s { exit_num = n; manager = m; shutdown = down })
    unfolding in_hands
    same-Queued n m down = record { order = q.order; once = q.once }

    begin_add-Queued :
        (k : ℕ) (task : Task) (found : Option Task) → Queued (begin_add k task found s)
    unfolding begin_add in_hands
    begin_add-Queued k task (some other) = q
    begin_add-Queued k task none =
        if_either Queued s.shutdown q (record { order = q.order; once = q.once })

    add_task-Queued :
        (k : ℕ) (pending : Option Task) (queue : List Task)
        → s.task_q ≡ some queue
        → Queued (add_task k pending queue s)
    unfolding add_task queue_add in_hands
    add_task-Queued k none queue found = q
    add_task-Queued k (some task) queue found = record {
      order = λ l same.
          ap (λ (added : List Task). added ++ task ∷ []) (q.order queue found)
          ∙ append_assoc s.taken queue (task ∷ [])
          ∙ ap (λ (rest : List Task). s.taken ++ rest) (cc);
      once = q.once;
    }

    delete_pool-Queued : (m : Manager) → Queued (delete_pool m s)
    unfolding delete_pool in_hands
    delete_pool-Queued joined = record { order = λ queue same. cc; once = q.once }
    delete_pool-Queued testing = q
    delete_pool-Queued slept = q
    delete_pool-Queued (measured x y z) = q
    delete_pool-Queued (stopping x y z) = q

  module _ {origin : Origin} where
    woken-Queued :
        (i : ℕ) (queue : List Task) (s : Pool)
        → Counts origin s
        → Queued s
        → s.task_q ≡ some queue
        → s.worker i ≡ asleep
        → IfOk Queued (woken i queue s)
    woken-Queued i queue s c q found e =
        woken_cases (IfOk Queued) i queue s
          (λ _. empty-Queued c q i exiting _ s.busy_num _ s.thread_ids e (λ h. cc) refl refl)
          (test_queue-Queued (same-Counts c _ s.task_q s.added s.ran s.manager)
            (same-Queued c q _ s.manager s.shutdown) i queue found e (λ h. cc) refl)
          (test_queue-Queued c q i queue found e (λ h. cc) refl)

    worker_step-Queued :
        (v : Worker) (i : ℕ) (s : Pool)
        → Counts origin s
        → Queued s
        → s.worker i ≡ v
        → IfOk Queued (worker_step v i s)
    unfolding worker_step
    worker_step-Queued unborn i s c q e = q
    worker_step-Queued starting i s c q e =
        with_pool_cases Queued s.task_q _
          (λ queue found. test_queue-Queued c q i queue found e (λ h. cc) refl)
    worker_step-Queued asleep i s c q e =
        with_pool_cases Queued s.task_q _ (λ queue found. woken-Queued i queue s c q found e)
    worker_step-Queued (working task) i s c q e =
        delete_arg_cases Queued task.arg _ (finishing-Queued c q i e)
    worker_step-Queued finishing i s c q e = with_pool_cases Queued s.task_q _ (λ _ _.
        empty-Queued c q i starting s.exit_num _ s.alive_num s.thread_ids e (λ h. cc) refl refl)
    worker_step-Queued exiting i s c q e =
        with_pool_cases Queued s.task_q _
          (λ _ _. empty-Queued c q i gone s.exit_num s.busy_num s.alive_num _ e (λ h. cc) refl refl)
    worker_step-Queued gone i s c q e = q

    grow-Queued :
        (left i num : ℕ) (s : Pool) → Counts origin s → Queued s → Queued (grow left i num s)
    unfolding grow
    grow-Queued zero i num s c q = q
    grow-Queued (suc left) i num s c q =
        elim (Bool-cases (ltb num number && ltb s.alive_num s.max_num)) [
          | inr stop ↦ rw stop q
          | inl on ↦ elim (Bool-cases (s.thread_ids i == 0)) [
            | inl free ↦
                rw (on, free)
                  (grow-Queued left (i + 1) (num + 1) _ (spawn-Counts c i (room num s on))
                    (spawn-Queued s i (s.alive_num + 1) q))
            | inr taken ↦ rw (on, taken) (grow-Queued left (i + 1) num s c q)
          ]
        ]

    manager_step-Queued :
        (m : Manager) (queue : List Task) (s : Pool)
        → Counts origin s
        → Queued s
        → Queued (manager_step m queue s)
    unfolding manager_step
    manager_step-Queued testing queue s c q =
        if_either Queued s.shutdown (same-Queued c q s.exit_num joined s.shutdown)
          (same-Queued c q s.exit_num slept s.shutdown)
    manager_step-Queued slept queue s c q = same-Queued c q s.exit_num _ s.shutdown
    manager_step-Queued (measured x y z) queue s c q =
        elim (Bool-cases (ltb y x && ltb y s.max_num)) [
          | inl more ↦
              let t : Pool = grow s.max_num 0 0 s in
              rw more (
                same-Queued (grow-Counts origin s.max_num 0 0 s c) (grow-Queued s.max_num 0 0 s c q)
                  t.exit_num _ t.shutdown)
          | inr enough ↦ rw enough (same-Queued c q s.exit_num _ s.shutdown)
        ]
    manager_step-Queued (stopping x y z) queue s c q =
        if_either Queued (ltb_ℤ (z +ℤ z) (pos y) && ltb s.min_num y)
          (same-Queued c q (pos number) testing s.shutdown)
          (same-Queued c q s.exit_num testing s.shutdown)
    manager_step-Queued joined queue s c q = q

    act-Queued : (a : Action) (s : Pool) → Counts origin s → Queued s → IfOk Queued (act a s)
    unfolding act
    act-Queued (tests k task) s c q =
        with_pool_cases Queued s.task_q _ (λ _ _. begin_add-Queued c q k task (s.adding k))
    act-Queued (adds k) s c q =
        with_pool_cases Queued s.task_q _
          (λ queue found. add_task-Queued c q k (s.adding k) queue found)
    act-Queued shuts s c q =
        with_pool_cases Queued s.task_q _ (λ _ _. same-Queued c q s.exit_num s.manager true)
    act-Queued deletes s c q =
        with_pool_cases Queued s.task_q _ (λ _ _. delete_pool-Queued c q s.manager)
    act-Queued manages s c q =
        with_pool_cases Queued s.task_q _ (λ queue _. manager_step-Queued s.manager queue s c q)
    act-Queued (works i) s c q = worker_step-Queued (s.worker i) i s c q refl

    Reach-Queued : {s t : Pool} → Counts origin s → Queued s → Reach s t → Queued t
    Reach-Queued c q here = q
    Reach-Queued c q (later {t} r a e) =
        rw e at (act-Queued a t (Reach-Counts origin c r) (Reach-Queued c q r))

-- If `minNum` is at most `maxNum`, after any steps the tasks that were added are those that workers
-- have taken, in the same order, and then those in the queue, as long as the pool is not deleted;
-- and each task that was taken has been run as often as it was taken, but for those that a worker
-- has in hand: for any weights, the tasks taken weigh as much as those run and those in hand.
pub Reach-weigh :
    (origin : Origin)
    → origin.min_num ≤ origin.max_num
    → (s : Pool) × (created origin ≡ ok s)
      × ((t : Pool)
          → Reach s t
          → ((queue : List Task) → t.task_q ≡ some queue → t.added ≡ t.taken ++ queue)
            × ((w : Task → ℕ) → weigh w t.taken ≡ weigh w t.ran + in_hands w t))
Reach-weigh origin ordered =
    let (s, e, c) = create_pool-Counts origin ordered in
    let first = λ (w : Task → ℕ). rw e at (created-Queued w origin) in
    (
      s,
      e,
      λ t r. (
        (Reach-Queued (λ task. 0) c (first (λ task. 0)) r).order,
        λ w. (Reach-Queued w c (first w) r).once,
      ),
    )
