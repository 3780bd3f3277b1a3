-- ===== src/Coroutine.antt =====
-- 2.3.1-Coroutine/ucontext.c: three coroutines that count together to thirty, and the scheduler that
-- resumes them in turn. Its hooks of `read` and `write` are in Hook. Coroutine/Turns is about the end
-- of the scheduler, and about its output; Coroutine/Jump is about setjmp.c.
pub mod Turns
pub mod Jump
mod Tests
use networking_programming.Base.{
  ℕ, zero, suc, ◌+◌, ◌%◌, List, [], ◌∷◌, ◌++◌, ltb, leb, ◌==◌, if◌then◌else◌,
}
use networking_programming.Memory.{Outcome, ok, fault, timeout, ◌>>=◌}

-- Where a context stands: at the beginning of its function, behind `swapcontext` in the loop, or
-- behind the return of its function.
pub data Phase : Type 0 where
  fresh suspended finished : Phase

-- The globals `count` and `ctx`, and the digits that are printed, one on a line.
pub record State : Type 0 where
  pub count : ℕ
  pub phase : ℕ → Phase
  pub printed : List ℕ

abbrev pub set_phase : (ℕ → Phase) → ℕ → Phase → ℕ → Phase
set_phase phase k p j = if k == j then p else phase j

abbrev pub print : ℕ → State → State
print digit s = record s { printed = s.printed ++ digit ∷ [] }

-- `func1`, `func2` and `func3` are numbers 0, 1 and 2: the test of the loop with its `count ++`, and
-- what follows up to `swapcontext` or to the return, which goes on with `main` through `uc_link`.
unfoldable pub turn : ℕ → State → State
turn k s =
    if ltb s.count 30
    then record {
      count = s.count + 1;
      phase = set_phase s.phase k suspended;
      printed = s.printed ++ (k + 1) ∷ [];
    }
    else record { count = s.count + 1; phase = set_phase s.phase k finished; printed = s.printed }

-- What goes on when context `k` is resumed where it stands. To resume a context whose function has
-- returned is undefined.
abbrev pub resume_at : Phase → ℕ → State → Outcome State
resume_at fresh k s = ok (turn k s)
resume_at suspended k s = ok (turn k (print (k + 4) s))
resume_at finished k s = fault

-- `swapcontext(&main_ctx, &ctx[k])`
unfoldable pub resume : ℕ → State → Outcome State
resume k s = resume_at (s.phase k) k s

-- `while (count <= 30)` in `main`, on fuel.
unfoldable pub schedule : ℕ → State → Outcome State
schedule zero s = timeout
schedule (suc fuel) s =
    let rest = resume (s.count % 3) s >>= λ s'. schedule fuel s' in
    if leb s.count 30 then rest else ok s

-- What `main` starts from.
abbrev pub start : State
start = record { count = 0; phase = λ k. fresh; printed = [] }
