-- ===== src/ThreadPool.antt =====
-- ThreadPool: a pool of worker threads over one queue of tasks, and a manager thread that starts
-- and stops workers. Each region that the mutex guards is one step, and so are `threadExit`, a task
-- with the `delete` behind it, and the test of `addTask`, which is not guarded. A wait on the
-- condition may end at any time, as POSIX allows, so signals add no behaviour. `pthread_create`
-- succeeds, and a thread's id, which is never given again, is a number from 1 on.
-- ThreadPool/Threads is about the counters, ThreadPool/Tasks about the queue, ThreadPool/Safe about
-- the steps that are defined.
mod Cases
pub mod Counters
pub mod Threads
pub mod Start
pub mod Tasks
pub mod Safe
mod Tests
use networking_programming.Base.{
  ℕ, zero, suc, ◌+◌, ◌-◌, ◌*◌, ◌≡◌, Bool, true, false, ◌&&◌, not, Option, none, some, List, [], ◌∷◌,
  ◌++◌, length, ltb, ◌==◌, if◌then◌else◌,
}
use networking_programming.Base.Int.{ℤ, pos, negsuc, ◌+ℤ◌, ltb_ℤ}
use networking_programming.Base.Counting.{put}
use networking_programming.Memory.{Outcome, ok, fault, ◌>>=◌}

-- `struct Task`; a null argument is `none`.
pub record Task : Type 0 where
  pub function : ℕ
  pub arg : Option ℕ

-- `TaskQueue::addTask` and `TaskQueue::getTask`; what `getTask` gives of an empty queue is
-- indeterminate.
unfoldable pub queue_add : List Task → Task → List Task
queue_add queue task = queue ++ task ∷ []

unfoldable pub queue_get : List Task → Option Task × List Task
queue_get [] = (none, [])
queue_get (task ∷ rest) = (some task, rest)

-- Where a worker stands: at the head of its loop, in `pthread_cond_wait`, before and behind the call
-- of its task, at the beginning of `threadExit`, behind its end. No thread has the id `unborn` yet.
pub data Worker : Type 0 where
  unborn starting asleep finishing exiting gone : Worker
  working : Task → Worker

-- Where the manager stands: at the test of its loop, behind `sleep`, and behind each of its next two
-- regions with the sizes that it has read (`queueSize`, `liveNum`, `busyNum`); `joined` has returned.
pub data Manager : Type 0 where
  testing slept joined : Manager
  measured stopping : ℕ → ℕ → ℤ → Manager

-- `class ThreadPool`, the threads, the task of each caller that is in `addTask` behind its test, and
-- what has happened to the tasks: added to the queue, taken from it and run, each in order. A deleted
-- pool has no queue.
pub record Pool : Type 0 where
  pub task_q : Option (List Task)
  pub thread_ids : ℕ → ℕ
  pub alive_num : ℕ
  pub min_num : ℕ
  pub max_num : ℕ
  pub exit_num : ℤ
  pub busy_num : ℤ
  pub shutdown : Bool
  pub worker : ℕ → Worker
  pub manager : Manager
  pub next_id : ℕ
  pub adding : ℕ → Option Task
  pub added : List Task
  pub taken : List Task
  pub ran : List Task

-- `pthread_create(&m_threadIDs[slot], nullptr, worker, this)`
unfoldable pub spawn : ℕ → Pool → Pool
spawn slot s = record s {
  thread_ids = put s.thread_ids slot s.next_id;
  worker = put s.worker s.next_id starting;
  next_id = suc s.next_id;
}

-- `for (int i = 0; i < minNum; i ++)` of the constructor; the first argument is the number of rounds
-- left. The array of ids has `maxNum` places.
unfoldable pub spawn_first : ℕ → ℕ → Pool → Outcome Pool
spawn_first zero i s = ok s
spawn_first (suc left) i s =
    let rest = spawn_first left (i + 1) (spawn i s) in if ltb i s.max_num then rest else fault

-- The constructor. It leaves `m_exitNum` and `m_busyNum` as they are in memory: the last arguments.
unfoldable pub create_pool : ℕ → ℕ → ℤ → ℤ → Outcome Pool
create_pool min_num max_num exit_num busy_num = spawn_first min_num 0 (record {
  task_q = some [];
  thread_ids = λ i. 0;
  alive_num = min_num;
  min_num = min_num;
  max_num = max_num;
  exit_num = exit_num;
  busy_num = busy_num;
  shutdown = false;
  worker = λ i. unborn;
  manager = testing;
  next_id = 1;
  adding = λ k. none;
  added = [];
  taken = [];
  ran = [];
})

-- `addTask` of caller `k` up to its test of `m_shutdown`, which no lock guards. A caller that is still
-- in `addTask` makes no other call.
unfoldable pub begin_add : ℕ → Task → Option Task → Pool → Pool
begin_add k task (some other) s = s
begin_add k task none s = if s.shutdown then s else record s { adding = put s.adding k (some task) }

-- The rest of it, behind the lock.
unfoldable pub add_task : ℕ → Option Task → List Task → Pool → Pool
unfolding queue_add
add_task k none queue s = s
add_task k (some task) queue s = record s {
  task_q = some (queue_add queue task);
  adding = put s.adding k none;
  added = s.added ++ task ∷ [];
}

-- A worker with what `getTask` gave it. To call an indeterminate function is undefined.
unfoldable pub start_task : Option Task → ℕ → List Task → Pool → Outcome Pool
start_task none i rest s = fault
start_task (some task) i rest s = ok (record s {
  task_q = some rest;
  busy_num = s.busy_num +ℤ pos 1;
  worker = put s.worker i (working task);
  taken = s.taken ++ task ∷ [];
})

-- The test of the inner loop of `worker`, and what follows it up to the next unlock.
unfoldable pub test_queue : ℕ → List Task → Pool → Outcome Pool
unfolding queue_get
test_queue i queue s =
    if length queue == 0 && not s.shutdown
    then ok (record s { worker = put s.worker i asleep })
    else if s.shutdown
    then ok (record s { worker = put s.worker i exiting })
    else (let (found, rest) = queue_get queue in start_task found i rest s)

-- Behind `pthread_cond_wait`.
unfoldable pub woken : ℕ → List Task → Pool → Outcome Pool
woken i queue s =
    let s' : Pool = record s { exit_num = s.exit_num +ℤ negsuc 0 } in
    if ltb_ℤ (pos 0) s.exit_num
    then (if ltb s.min_num s.alive_num
        then ok (record s' { alive_num = s.alive_num - 1; worker = put s.worker i exiting })
        else test_queue i queue s')
    else test_queue i queue s

-- The loop of `threadExit`: the first place that holds the id is cleared. The first argument is the
-- number of rounds left.
unfoldable pub clear_id : ℕ → ℕ → ℕ → (ℕ → ℕ) → ℕ → ℕ
clear_id zero i tid ids = ids
clear_id (suc left) i tid ids =
    let rest = clear_id left (i + 1) tid ids in if ids i == tid then put ids i 0 else rest

-- To lock or read a pool that is deleted is undefined.
unfoldable pub with_pool : Option (List Task) → (List Task → Outcome Pool) → Outcome Pool
with_pool none next = fault
with_pool (some queue) next = next queue

-- `delete task.arg`: the argument is a `void *`, and to delete one that is not null is undefined.
unfoldable pub delete_arg : Option ℕ → Pool → Outcome Pool
delete_arg none s = ok s
delete_arg (some arg) s = fault

-- One step of worker `i`. To run its task it does not look at the pool.
unfoldable pub worker_step : Worker → ℕ → Pool → Outcome Pool
worker_step unborn i s = ok s
worker_step starting i s = with_pool s.task_q (λ queue. test_queue i queue s)
worker_step asleep i s = with_pool s.task_q (λ queue. woken i queue s)
worker_step (working task) i s =
    delete_arg task.arg (record s { worker = put s.worker i finishing; ran = s.ran ++ task ∷ [] })
worker_step finishing i s =
    with_pool s.task_q (λ queue.
      ok (record s { busy_num = s.busy_num +ℤ negsuc 0; worker = put s.worker i starting }))
worker_step exiting i s = with_pool s.task_q (λ queue.
    ok
      (record s { thread_ids = clear_id s.max_num 0 i s.thread_ids; worker = put s.worker i gone }))
worker_step gone i s = ok s

-- NUMBER
abbrev pub number : ℕ
number = 2

-- The loop of `manager` that starts threads: rounds left, `i`, `num`.
unfoldable pub grow : ℕ → ℕ → ℕ → Pool → Pool
unfolding spawn
grow zero i num s = s
grow (suc left) i num s =
    let free = s.thread_ids i == 0 in
    let s' : Pool = if free then spawn i (record s { alive_num = s.alive_num + 1 }) else s in
    let rest = grow left (i + 1) (if free then num + 1 else num) s' in
    if ltb num number && ltb s.alive_num s.max_num then rest else s

-- One step of the manager, on a pool with this queue.
unfoldable pub manager_step : Manager → List Task → Pool → Pool
manager_step testing queue s =
    if s.shutdown then record s { manager = joined } else record s { manager = slept }
manager_step slept queue s = record s { manager = measured (length queue) s.alive_num s.busy_num }
manager_step (measured queue_size live_num busy_num) queue s =
    let grown =
      if ltb live_num queue_size && ltb live_num s.max_num then grow s.max_num 0 0 s else s in
    record grown { manager = stopping queue_size live_num busy_num }
manager_step (stopping queue_size live_num busy_num) queue s =
    if ltb_ℤ (busy_num +ℤ busy_num) (pos live_num) && ltb s.min_num live_num
    then record s { exit_num = pos number; manager = testing }
    else record s { manager = testing }
manager_step joined queue s = s

-- The destructor deletes the pool when the manager has returned; it waits for no worker.
unfoldable pub delete_pool : Manager → Pool → Pool
delete_pool joined s = record s { task_q = none }
delete_pool _ s = s

-- What may happen next: a caller tests `m_shutdown` in `addTask` or adds its task, the destructor
-- sets `m_shutdown` or goes on behind `pthread_join`, a thread moves.
pub data Action : Type 0 where
  tests : ℕ → Task → Action
  adds : ℕ → Action
  shuts deletes manages : Action
  works : ℕ → Action

unfoldable pub act : Action → Pool → Outcome Pool
act (tests k task) s = with_pool s.task_q (λ queue. ok (begin_add k task (s.adding k) s))
act (adds k) s = with_pool s.task_q (λ queue. ok (add_task k (s.adding k) queue s))
act shuts s = with_pool s.task_q (λ queue. ok (record s { shutdown = true }))
act deletes s = with_pool s.task_q (λ queue. ok (delete_pool s.manager s))
act manages s = with_pool s.task_q (λ queue. ok (manager_step s.manager queue s))
act (works i) s = worker_step (s.worker i) i s

-- What a sequence of steps makes of a pool.
pub data Reach (s : Pool) : Pool → Type 0 where
  here : Reach s s
  later : {t u : Pool} → Reach s t → (a : Action) → act a t ≡ ok u → Reach s u
