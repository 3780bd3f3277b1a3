-- ===== src/ThreadPool/Start.antt =====
-- The counters of the pool from its constructor on.
use networking_programming.Base.{
  ℕ, zero, suc, ◌+◌, ◌≤◌, ◌≡◌, refl, sym, ap, ◌∙◌, false, arith, lt→ltb,
}
use networking_programming.Base.Int.{ℤ, pos, pos_part, neg_part, ◌+ℤ◌, +ℤ_parts, eq_of_parts}
use networking_programming.Base.Counting.{sum_below, sum_below-put_next}
use networking_programming.Memory.{Outcome, ok}
use networking_programming.ThreadPool.{
  Pool, unborn, starting, spawn, spawn_first, create_pool, Reach,
}
use networking_programming.ThreadPool.Counters.{
  Origin, Counts, live_threads, busy_threads, is_live, is_busy,
}
use networking_programming.ThreadPool.Threads.{Reach-Counts}

-- The pool while the constructor starts its threads, `i` of them so far.
record Starts (min_num max_num i : ℕ) (busy_num : ℤ) (s : Pool) : Type 0 where
  lowest : s.min_num ≡ min_num
  highest : s.max_num ≡ max_num
  alive : s.alive_num ≡ min_num
  fresh : (j : ℕ) → s.next_id ≤ j → s.worker j ≡ unborn
  live : live_threads s ≡ i
  busy : busy_threads s ≡ 0
  garbage : s.busy_num ≡ busy_num

spawn-Starts :
    {min_num max_num i : ℕ} {busy_num : ℤ} (slot : ℕ) (s : Pool)
    → Starts min_num max_num i busy_num s
    → Starts min_num max_num (i + 1) busy_num (spawn slot s)
unfolding spawn live_threads busy_threads
spawn-Starts slot s p = record {
  lowest = p.lowest;
  highest = p.highest;
  alive = p.alive;
  fresh = λ j above. ground (arith, p.fresh j);
  live = omega (arith, sum_below-put_next is_live s.next_id s.worker starting, p.live);
  busy = omega (arith, sum_below-put_next is_busy s.next_id s.worker starting, p.busy);
  garbage = p.garbage;
}

spawn_first-Starts :
    {min_num max_num : ℕ} {busy_num : ℤ} (n left i : ℕ) (s : Pool)
    → Starts min_num max_num i busy_num s
    → i + left ≡ n
    → n ≤ max_num
    → (t : Pool) × (spawn_first left i s ≡ ok t) × Starts min_num max_num n busy_num t
unfolding spawn_first
spawn_first-Starts n zero i s p last room = let e : i ≡ n = omega arith in (s, refl, rw e at p)
spawn_first-Starts n (suc left) i s p last room =
    let (t, e, q) =
      spawn_first-Starts n left (i + 1) (spawn i s) (spawn-Starts i s p) (omega arith) room in
    (t, rw (lt→ltb i s.max_num (omega (arith, p.highest))) e, q)

Starts-Counts :
    (origin : Origin) (s : Pool)
    → origin.min_num ≤ origin.max_num
    → Starts origin.min_num origin.max_num origin.min_num origin.busy_num s
    → Counts origin s
Starts-Counts origin s ordered p = record {
  lowest = p.lowest;
  highest = p.highest;
  least = omega (arith, p.lowest, p.alive);
  most = omega (arith, p.highest, p.alive);
  fresh = p.fresh;
  live = omega (arith, p.live, p.alive);
  exact = λ up. p.live ∙ sym p.alive;
  busy = omega (arith, ap pos_part p.garbage, ap neg_part p.garbage, p.busy);
}

-- The constructor's call, with what was in memory.
abbrev pub created : Origin → Outcome Pool
created origin = create_pool origin.min_num origin.max_num origin.exit_num origin.busy_num

pub create_pool-Counts :
    (origin : Origin)
    → origin.min_num ≤ origin.max_num
    → (s : Pool) × (created origin ≡ ok s) × Counts origin s
unfolding create_pool live_threads busy_threads sum_below
create_pool-Counts origin ordered =
    let (s, e, p) =
      spawn_first-Starts origin.min_num origin.min_num 0 _
        (record {
          lowest = refl;
          highest = refl;
          alive = refl;
          fresh = λ j above. refl;
          live = refl;
          busy = refl;
          garbage = refl;
        })
        (omega arith) ordered in
    (s, e, Starts-Counts origin s ordered p)

-- If `minNum` is at most `maxNum`, the constructor succeeds, and after any steps `m_aliveNum` lies
-- between the two, at most that many workers are in their loop, exactly that many as long as the
-- pool is not shut down, and `m_busyNum` is the number of those with a task, counted on from what
-- was in memory for it.
pub Reach-create_pool :
    (origin : Origin)
    → origin.min_num ≤ origin.max_num
    → (s : Pool) × (created origin ≡ ok s)
      × ((t : Pool)
          → Reach s t
          → (origin.min_num ≤ t.alive_num)
            × (t.alive_num ≤ origin.max_num)
            × (live_threads t ≤ t.alive_num)
            × (t.shutdown ≡ false → live_threads t ≡ t.alive_num)
            × (t.busy_num ≡ origin.busy_num +ℤ pos (busy_threads t)))
Reach-create_pool origin ordered =
    let (s, e, c) = create_pool-Counts origin ordered in
    (
      s,
      e,
      λ t r.
          let d = Reach-Counts origin c r in
          (
            omega (arith, d.lowest, d.least),
            omega (arith, d.highest, d.most),
            d.live,
            d.exact,
            eq_of_parts t.busy_num (origin.busy_num +ℤ pos (busy_threads t))
                (omega (arith, d.busy, +ℤ_parts origin.busy_num (pos (busy_threads t)))),
          ),
    )
