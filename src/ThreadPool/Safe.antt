-- ===== src/ThreadPool/Safe.antt =====
-- The steps of the pool that are defined.
use networking_programming.Base.{◌≡◌, none}
use networking_programming.Memory.{Outcome, ok}
use networking_programming.ThreadPool.{Pool, Worker, working}

-- The step is defined.
abbrev pub Returns : Outcome Pool → Type 0
Returns r = (t : Pool) × (r ≡ ok t)

-- The task that the worker is about to run, if it is, has no argument.
abbrev pub HasNullArg : Worker → Type 0
HasNullArg (working task) = task.arg ≡ none
HasNullArg _ = Unit
