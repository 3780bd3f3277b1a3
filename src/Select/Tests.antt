-- ===== src/Select/Tests.antt =====
-- The `select` server on a system whose next client gets descriptor 7.
use networking_programming.Base.{ℕ, ◌<◌, ◌≡◌, refl, Bool, true, false, arith, ◌==◌, ◌||◌}
use networking_programming.Memory.{ok}
use networking_programming.Net.Systems.{working, working-OsLaws, working_alive, working_short}
use networking_programming.Select.{State, select_round}
use networking_programming.Select.Watch.{IsBounded, select_round-IsBounded, select_round_forgets}

-- The listening socket 3 and one client, both watched and ready.
abbrev three_and : ℕ → ℕ → Bool
three_and client j = j == 3 || j == client

abbrev watching : ℕ → State (Unit {0})
watching client = record { rfds = three_and client; maxfd = client; world = tt }

watching-IsBounded : IsBounded (watching 5)
watching-IsBounded j h = ground arith

select_round-IsBounded_example :
    (t : State (Unit {0})) × (select_round working 3 (three_and 5) (watching 5) ≡ ok t)
    × IsBounded t
    × ((j : ℕ) → three_and 5 j ≡ true → three_and 5 j ≡ false → t.rfds j ≡ true)
select_round-IsBounded_example =
    select_round-IsBounded working working-OsLaws working_alive working_short 3 (three_and 5)
      (watching 5) watching-IsBounded (λ _. (7, omega arith, (refl, omega arith)))

select_round_forgets_example :
    (t : State (Unit {0})) × (select_round working 3 (three_and 9) (watching 9) ≡ ok t)
    × (t.rfds 9 ≡ true)
    × (t.maxfd < 9)
select_round_forgets_example =
    select_round_forgets working working-OsLaws working_alive working_short 3 (three_and 9)
      (watching 9) 7 9 refl (refl, omega arith) (omega arith) (omega arith) refl
