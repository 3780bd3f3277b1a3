-- ===== src/Poll/Tests.antt =====
-- The `poll` server with its first client.
use networking_programming.Base.{ℕ, refl, arith, ◌==◌}
use networking_programming.Memory.Agree.{Agree}
use networking_programming.Net.Systems.{working}
use networking_programming.Select
use networking_programming.Select.{select_round}
use networking_programming.Poll.{PollFd, at_start, poll_round}
use networking_programming.Poll.Alike.{Alike, at_start-Alike}
use networking_programming.Poll.Same.{poll_round-Agree}

-- Every watched entry that it is given is ready.
abbrev poll : (ℕ → PollFd) → ℕ → Unit {0} → (ℕ → PollFd) × Unit {0}
poll fds n w = (λ j. record (fds j) { revents = (fds j).events }, w)

abbrev listening : Select.State (Unit {0})
listening = record { rfds = λ j. 3 == j; maxfd = 3; world = tt }

poll_round-Agree_example :
    Agree Alike
      (select_round working 3 (λ j. (((at_start 3 tt).fds) j).events) listening)
      (poll_round working poll 3 (at_start 3 tt))
poll_round-Agree_example =
    poll_round-Agree working poll (λ fds n w j. (refl, refl)) 3 listening (at_start 3 tt)
      (omega arith) (at_start-Alike 3 tt (omega arith))
