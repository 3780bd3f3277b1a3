-- ===== src/ThreadPool/Counters.antt =====
-- The counters of the pool and the threads that they count, when one thread moves.
use networking_programming.Base.{
  ℕ, ◌+◌, ◌-◌, ◌≤◌, ◌<◌, ◌≡◌, ◌≢◌, sym, ◌∙◌, true, false, Option, List, ltb, arith, Bool-cases, inl,
  inr, ltb→lt,
}
use networking_programming.Base.Int.{ℤ, pos, negsuc, pos_part, neg_part, ◌+ℤ◌, +ℤ_parts}
use networking_programming.Base.Counting.{put, sum_below, sum_below-put, sum_below-put_next}
use networking_programming.Memory.{IfOk}
use networking_programming.ThreadPool.{
  Task, Pool, Worker, unborn, starting, asleep, working, finishing, exiting, gone, Manager, spawn,
  test_queue,
}
use networking_programming.ThreadPool.Cases.{sleeping, leaving, taking, dismissed, test_queue_cases}

-- A worker that is in its loop, and one that has a task.
abbrev pub is_live : Worker → ℕ
is_live unborn = 0
is_live exiting = 0
is_live gone = 0
is_live _ = 1

abbrev pub is_busy : Worker → ℕ
is_busy (working task) = 1
is_busy finishing = 1
is_busy _ = 0

unfoldable pub live_threads : Pool → ℕ
live_threads s = sum_below is_live s.next_id s.worker

unfoldable pub busy_threads : Pool → ℕ
busy_threads s = sum_below is_busy s.next_id s.worker

-- The arguments of the constructor, and what was in memory for `m_exitNum` and `m_busyNum`.
pub record Origin : Type 0 where
  pub min_num : ℕ
  pub max_num : ℕ
  pub exit_num : ℤ
  pub busy_num : ℤ

-- What the counters say of a pool with this origin.
pub record Counts (origin : Origin) (s : Pool) : Type 0 where
  pub lowest : s.min_num ≡ origin.min_num
  pub highest : s.max_num ≡ origin.max_num
  pub least : s.min_num ≤ s.alive_num
  pub most : s.alive_num ≤ s.max_num
  pub fresh : (i : ℕ) → s.next_id ≤ i → s.worker i ≡ unborn
  pub live : live_threads s ≤ s.alive_num
  pub exact : s.shutdown ≡ false → live_threads s ≡ s.alive_num
  pub busy :
      pos_part s.busy_num + neg_part origin.busy_num
      ≡ neg_part s.busy_num + pos_part origin.busy_num + busy_threads s

module _ {origin : Origin} {s : Pool} (c : Counts origin s) where
  -- Worker `i` goes from `v` to `w`.
  record Goes (i : ℕ) (v w : Worker) : Type 0 where
    fresh : (j : ℕ) → s.next_id ≤ j → put s.worker i w j ≡ unborn
    live : sum_below is_live s.next_id (put s.worker i w) + is_live v ≡ live_threads s + is_live w
    busy : sum_below is_busy s.next_id (put s.worker i w) + is_busy v ≡ busy_threads s + is_busy w

  pub born : (i : ℕ) {v : Worker} → s.worker i ≡ v → v ≢ unborn → i < s.next_id
  born i e ne = elim (Bool-cases (ltb i s.next_id)) [
    | inl lt ↦ ltb→lt i s.next_id lt
    | inr ge ↦ absurd (ne (sym e ∙ c.fresh i (ground arith)))
  ]

  goes : (i : ℕ) {v : Worker} (w : Worker) → s.worker i ≡ v → v ≢ unborn → Goes i v w
  unfolding live_threads busy_threads
  goes i {v} w e ne =
      let lt = born i e ne in
      record {
        fresh = λ j above. ground (arith, c.fresh j);
        live = rw e at (sum_below-put is_live s.next_id s.worker i w lt);
        busy = rw e at (sum_below-put is_busy s.next_id s.worker i w lt);
      }

  -- A worker that is in its loop without a task.
  pub record IsIdle (i : ℕ) (v : Worker) : Type 0 where
    pub stands : s.worker i ≡ v
    pub alive : is_live v ≡ 1
    pub idle : is_busy v ≡ 0

  pub idle-ne-unborn : {i : ℕ} {v : Worker} → IsIdle i v → v ≢ unborn
  idle-ne-unborn at e = no_life (rw e at at.alive)
    where
      no_life : ◌≡◌ {A = ℕ} 0 1 → ⊥
      no_life h = omega arith

  leaving-Counts :
      (i : ℕ) {v : Worker} → IsIdle i v → s.shutdown ≡ true → Counts origin (leaving i s)
  unfolding live_threads busy_threads
  leaving-Counts i at down =
      let g = goes i exiting at.stands (idle-ne-unborn at) in
      record {
        lowest = c.lowest;
        highest = c.highest;
        least = c.least;
        most = c.most;
        fresh = g.fresh;
        live = omega (arith, g.live, c.live, at.alive);
        exact = λ up. cc;
        busy = omega (arith, g.busy, c.busy, at.idle);
      }

  -- The same, counted down.
  pub dismissed-Counts :
      (i : ℕ) {v : Worker}
      → IsIdle i v
      → s.min_num < s.alive_num
      → Counts origin (leaving i (record (dismissed s) { alive_num = s.alive_num - 1 }))
  unfolding live_threads busy_threads
  dismissed-Counts i at more =
      let g = goes i exiting at.stands (idle-ne-unborn at) in
      record {
        lowest = c.lowest;
        highest = c.highest;
        least = omega arith;
        most = omega (arith, c.most);
        fresh = g.fresh;
        live = omega (arith, g.live, c.live, at.alive);
        exact = λ up. omega (arith, g.live, c.exact up, at.alive);
        busy = omega (arith, g.busy, c.busy, at.idle);
      }

  sleeping-Counts : (i : ℕ) {v : Worker} → IsIdle i v → Counts origin (sleeping i s)
  unfolding live_threads busy_threads
  sleeping-Counts i at =
      let g = goes i asleep at.stands (idle-ne-unborn at) in
      record {
        lowest = c.lowest;
        highest = c.highest;
        least = c.least;
        most = c.most;
        fresh = g.fresh;
        live = omega (arith, g.live, c.live, at.alive);
        exact = λ up. omega (arith, g.live, c.exact up, at.alive);
        busy = omega (arith, g.busy, c.busy, at.idle);
      }

  taking-Counts :
      (i : ℕ) (task : Task) (rest : List Task) {v : Worker}
      → IsIdle i v
      → Counts origin (taking i task rest s)
  unfolding live_threads busy_threads
  taking-Counts i task rest at =
      let g = goes i (working task) at.stands (idle-ne-unborn at) in
      record {
        lowest = c.lowest;
        highest = c.highest;
        least = c.least;
        most = c.most;
        fresh = g.fresh;
        live = omega (arith, g.live, c.live, at.alive);
        exact = λ up. omega (arith, g.live, c.exact up, at.alive);
        busy = omega (arith, g.busy, c.busy, at.idle, +ℤ_parts s.busy_num (pos 1));
      }

  pub test_queue-Counts :
      (i : ℕ) (queue : List Task) {v : Worker}
      → IsIdle i v
      → IfOk (Counts origin) (test_queue i queue s)
  test_queue-Counts i queue at =
      test_queue_cases (IfOk (Counts origin)) i queue s (λ _ _. sleeping-Counts i at)
        (leaving-Counts i at) (λ task rest _ _. taking-Counts i task rest at)

  pub same-Counts :
      (n : ℤ) (q : Option (List Task)) (added ran : List Task) (m : Manager)
      → Counts origin (record s { exit_num = n; task_q = q; added = added; ran = ran; manager = m })
  unfolding live_threads busy_threads
  same-Counts n q added ran m = record {
    lowest = c.lowest;
    highest = c.highest;
    least = c.least;
    most = c.most;
    fresh = c.fresh;
    live = c.live;
    exact = c.exact;
    busy = c.busy;
  }

  pub finishing-Counts :
      (i : ℕ) {task : Task} (ran : List Task)
      → s.worker i ≡ working task
      → Counts origin (record s { worker = put s.worker i finishing; ran = ran })
  unfolding live_threads busy_threads
  finishing-Counts i ran e =
      let g = goes i finishing e (λ h. cc) in
      record {
        lowest = c.lowest;
        highest = c.highest;
        least = c.least;
        most = c.most;
        fresh = g.fresh;
        live = omega (arith, g.live, c.live);
        exact = λ up. omega (arith, g.live, c.exact up);
        busy = omega (arith, g.busy, c.busy);
      }

  pub starting-Counts :
      (i : ℕ)
      → s.worker i ≡ finishing
      → Counts origin
          (record s { busy_num = s.busy_num +ℤ negsuc 0; worker = put s.worker i starting })
  unfolding live_threads busy_threads
  starting-Counts i e =
      let g = goes i starting e (λ h. cc) in
      record {
        lowest = c.lowest;
        highest = c.highest;
        least = c.least;
        most = c.most;
        fresh = g.fresh;
        live = omega (arith, g.live, c.live);
        exact = λ up. omega (arith, g.live, c.exact up);
        busy = omega (arith, g.busy, c.busy, +ℤ_parts s.busy_num (negsuc 0));
      }

  pub gone-Counts :
      (i : ℕ) (ids : ℕ → ℕ)
      → s.worker i ≡ exiting
      → Counts origin (record s { thread_ids = ids; worker = put s.worker i gone })
  unfolding live_threads busy_threads
  gone-Counts i ids e =
      let g = goes i gone e (λ h. cc) in
      record {
        lowest = c.lowest;
        highest = c.highest;
        least = c.least;
        most = c.most;
        fresh = g.fresh;
        live = omega (arith, g.live, c.live);
        exact = λ up. omega (arith, g.live, c.exact up);
        busy = omega (arith, g.busy, c.busy);
      }

  -- A new thread that is counted.
  pub spawn-Counts :
      (slot : ℕ)
      → s.alive_num < s.max_num
      → Counts origin (spawn slot (record s { alive_num = s.alive_num + 1 }))
  unfolding spawn live_threads busy_threads
  spawn-Counts slot room = record {
    lowest = c.lowest;
    highest = c.highest;
    least = omega (arith, c.least);
    most = omega arith;
    fresh = λ j above. ground (arith, c.fresh j);
    live = omega (arith, sum_below-put_next is_live s.next_id s.worker starting, c.live);
    exact = λ up. omega (arith, sum_below-put_next is_live s.next_id s.worker starting, c.exact up);
    busy = omega (arith, sum_below-put_next is_busy s.next_id s.worker starting, c.busy);
  }
