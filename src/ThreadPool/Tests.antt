-- ===== src/ThreadPool/Tests.antt =====
-- A pool of at least one and at most three threads.
use networking_programming.Base.{
  ℕ, ◌+◌, ◌≤◌, ◌≡◌, refl, true, false, none, some, List, [], ◌∷◌, ◌++◌, arith,
}
use networking_programming.Base.Int.{ℤ, pos, ◌+ℤ◌}
use networking_programming.Memory.{Outcome, ok, fault, ◌>>=◌}
use networking_programming.ThreadPool.{
  Task, Pool, asleep, joined, Action, tests, adds, shuts, deletes, manages, works, create_pool,
  spawn_first, spawn, act, with_pool, delete_arg, worker_step, test_queue, queue_add, queue_get,
  begin_add, add_task, manager_step, delete_pool, start_task, Reach,
}
use networking_programming.ThreadPool.Counters.{Origin, live_threads, busy_threads}
use networking_programming.ThreadPool.Start.{created, Reach-create_pool}
use networking_programming.ThreadPool.Tasks.{weigh, in_hands, Reach-weigh}

abbrev small : Origin
small = record { min_num = 1; max_num = 3; exit_num = pos 0; busy_num = pos 0 }

abbrev task : ℕ → Task
task n = record { function = n; arg = none }

abbrev follow : List Action → Pool → Outcome Pool
follow [] s = ok s
follow (a ∷ as_) s = act a s >>= follow as_

-- The first task is run while the second waits; the destructor deletes the pool under a sleeping
-- worker, which then wakes.
abbrev history : List Action
history =
    tests 0 (task 5)
    ∷ tests 1 (task 6)
    ∷ adds 0
    ∷ adds 1
    ∷ works 1
    ∷ works 1
    ∷ works 1
    ∷ works 1
    ∷ manages
    ∷ []

abbrev tasks_of : Pool → Outcome (List Task × List Task × ℤ)
tasks_of s = ok (s.ran, s.taken, s.busy_num)

ran_first :
    (created small >>= follow history >>= tasks_of) ≡ ok (task 5 ∷ [], task 5 ∷ task 6 ∷ [], pos 1)
unfolding create_pool spawn_first spawn act with_pool delete_arg worker_step test_queue queue_add
    queue_get begin_add add_task start_task manager_step ◌+ℤ◌
ran_first = refl

use_after_delete :
    (created small >>= follow (works 1 ∷ shuts ∷ manages ∷ deletes ∷ works 1 ∷ [])) ≡ fault
unfolding create_pool spawn_first spawn act with_pool worker_step test_queue queue_get start_task
    manager_step delete_pool
use_after_delete = refl

abbrev idle_pool : Pool
idle_pool = record {
  task_q = some [];
  thread_ids = λ i. 0;
  alive_num = 1;
  min_num = 1;
  max_num = 3;
  exit_num = pos 0;
  busy_num = pos 0;
  shutdown = true;
  worker = λ i. asleep;
  manager = joined;
  next_id = 2;
  adding = λ k. none;
  added = [];
  taken = [];
  ran = [];
}

Reach-create_pool_example :
    (s : Pool) × (created small ≡ ok s)
    × ((t : Pool)
        → Reach s t
        → (1 ≤ t.alive_num)
          × (t.alive_num ≤ 3)
          × (live_threads t ≤ t.alive_num)
          × (t.shutdown ≡ false → live_threads t ≡ t.alive_num)
          × (t.busy_num ≡ pos 0 +ℤ pos (busy_threads t)))
Reach-create_pool_example = Reach-create_pool small (omega arith)

Reach-weigh_example :
    (s : Pool) × (created small ≡ ok s)
    × ((t : Pool)
        → Reach s t
        → ((queue : List Task) → t.task_q ≡ some queue → t.added ≡ t.taken ++ queue)
          × ((w : Task → ℕ) → weigh w t.taken ≡ weigh w t.ran + in_hands w t))
Reach-weigh_example = Reach-weigh small (omega arith)
