-- ===== src/ThreadPool/Cases.antt =====
-- The ways that a worker can go on from its loop: one rule for each region of `worker`.
use networking_programming.Base.{
  ℕ, ◌-◌, ◌<◌, ◌≡◌, refl, true, false, List, [], ◌∷◌, ◌++◌, length, ltb, ltb→lt, ◌==◌, arith,
  Bool-cases, inl, inr, Option, none, some,
}
use networking_programming.Base.Int.{pos, negsuc, ◌+ℤ◌, ltb_ℤ}
use networking_programming.Base.Counting.{put}
use networking_programming.Memory.{Outcome, ok, IfOk}
use networking_programming.ThreadPool.{
  Task, Pool, asleep, exiting, working, queue_get, start_task, test_queue, woken, with_pool,
  delete_arg,
}

abbrev pub sleeping : ℕ → Pool → Pool
sleeping i s = record s { worker = put s.worker i asleep }

abbrev pub leaving : ℕ → Pool → Pool
leaving i s = record s { worker = put s.worker i exiting }

abbrev pub taking : ℕ → Task → List Task → Pool → Pool
taking i task rest s = record s {
  task_q = some rest;
  busy_num = s.busy_num +ℤ pos 1;
  worker = put s.worker i (working task);
  taken = s.taken ++ task ∷ [];
}

-- One request to exit is taken up.
abbrev pub dismissed : Pool → Pool
dismissed s = record s { exit_num = s.exit_num +ℤ negsuc 0 }

some_left : (task : Task) (rest : List Task) → (length (task ∷ rest) == 0) ≡ false
some_left task rest = ground arith

pub test_queue_cases {ℓ} :
    (P : Outcome Pool → Type ℓ) (i : ℕ) (queue : List Task) (s : Pool)
    → (s.shutdown ≡ false → queue ≡ [] → P (ok (sleeping i s)))
    → (s.shutdown ≡ true → P (ok (leaving i s)))
    → ((task : Task) (rest : List Task)
        → s.shutdown ≡ false
        → queue ≡ task ∷ rest
        → P (ok (taking i task rest s)))
    → P (test_queue i queue s)
unfolding test_queue start_task queue_get
test_queue_cases P i [] s waits leaves takes = elim (Bool-cases s.shutdown) [
  | inl down ↦ rw down (rw down at (leaves down))
  | inr up ↦ rw up (rw up at (waits up refl))
]
test_queue_cases P i (task ∷ rest) s waits leaves takes = elim (Bool-cases s.shutdown) [
  | inl down ↦ rw (some_left task rest, down) (rw down at (leaves down))
  | inr up ↦ rw (some_left task rest, up) (rw up at (takes task rest up refl))
]

pub woken_cases {ℓ} :
    (P : Outcome Pool → Type ℓ) (i : ℕ) (queue : List Task) (s : Pool)
    → (s.min_num < s.alive_num
        → P (ok (leaving i (record (dismissed s) { alive_num = s.alive_num - 1 }))))
    → P (test_queue i queue (dismissed s))
    → P (test_queue i queue s)
    → P (woken i queue s)
unfolding woken
woken_cases P i queue s leaves stays waits = elim (Bool-cases (ltb_ℤ (pos 0) s.exit_num)) [
  | inl asked ↦ elim (Bool-cases (ltb s.min_num s.alive_num)) [
    | inl more ↦ rw (asked, more) (leaves (ltb→lt s.min_num s.alive_num more))
    | inr few ↦ rw (asked, few) stays
  ]
  | inr calm ↦ rw calm waits
]

-- What holds of the pool that is read holds behind the step.
pub with_pool_cases {ℓ} :
    (P : Pool → Type ℓ) (found : Option (List Task)) (next : List Task → Outcome Pool)
    → ((queue : List Task) → found ≡ some queue → IfOk P (next queue))
    → IfOk P (with_pool found next)
unfolding with_pool
with_pool_cases P none next h = tt
with_pool_cases P (some queue) next h = h queue refl

pub delete_arg_cases {ℓ} :
    (P : Pool → Type ℓ) (arg : Option ℕ) (s : Pool) → P s → IfOk P (delete_arg arg s)
unfolding delete_arg
delete_arg_cases P none s h = h
delete_arg_cases P (some arg) s h = tt
