-- ===== src/Coroutine/Tests.antt =====
-- The three coroutines from the start of `main`.
use networking_programming.Base.{◌≡◌, refl, [], ◌∷◌, arith}
use networking_programming.Memory.{ok}
use networking_programming.Coroutine.{State, schedule, start}
use networking_programming.Coroutine.Turns.{digits_from, schedule-start}

-- The last lines of the output, by evaluation.
last_digits : digits_from 1 29 ≡ 6 ∷ 3 ∷ 4 ∷ []
unfolding digits_from
last_digits = refl

schedule-start_example :
    (t : State) × (schedule 32 start ≡ ok t) × (t.printed ≡ 1 ∷ 2 ∷ 3 ∷ digits_from 27 3)
schedule-start_example = schedule-start 32 (omega arith)
