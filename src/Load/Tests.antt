-- ===== src/Load/Tests.antt =====
-- The load generator on a system whose calls all succeed.
use networking_programming.Base.{
  ℕ, zero, suc, ◌+◌, ◌≤◌, ◌≡◌, refl, true, false, Option, none, some, List, [], ◌∷◌, ◌++◌, length,
  arith, replicate,
}
use networking_programming.Base.Int.{ℤ, pos, negsuc, ◌+ℤ◌}
use networking_programming.Base.Decimal.{digits, IsDecimal}
use networking_programming.Memory.{Bytes, ok, IfOk, patch, splice, overwrite, cstr}
use networking_programming.Base.Words.{htons}
use networking_programming.Memory.Text.{codes, print_text}
use networking_programming.Net.{EpollEvent}
use networking_programming.Load.{
  Calls, Load, round, rounds, start, hello_text, open_connection, opened, connected, look, finish,
  is_due, next_index, nty_set_nonblock, nty_set_reuse_addr, set_nonblock_of,
}
use networking_programming.Load.Events.{IsRunning, IsBounded}
use networking_programming.Load.Opening.{OnSome}
use networking_programming.Load.Rounds.{rounds-Runs}
use networking_programming.Load.Greeting.{round-greets}
use networking_programming.Load.Full.{round-Kept}

abbrev sent : ℕ → Bytes → ℕ → ℕ
sent zero bytes w = w
sent (suc fd) bytes w = w + length bytes

abbrev event : EpollEvent
event = record { fd = 7; readable = false; writable = true }

abbrev events : ℤ → Option (List EpollEvent)
events (pos zero) = some []
events (pos (suc n)) = some (event ∷ [])
events (negsuc n) = none

-- Its state is the number of bytes that were sent to descriptors other than 0; each round has one
-- event, EPOLLOUT on descriptor 7.
abbrev system : Calls
system = record {
  World = ℕ;
  o_nonblock = 2048;
  epoll_create = λ n w. (pos 3, w);
  socket = λ w. (pos 4, w);
  connect = λ fd port w. (pos 0, w);
  get_flags = λ fd w. (pos 2, w);
  set_flags = λ fd flags w. (pos 0, w);
  reuse_addr = λ fd w. (pos 0, w);
  send = λ fd bytes w. (pos (length bytes), sent fd bytes w);
  recv = λ fd n w. (pos 0, [], w);
  is_interrupted = λ w. false;
  epoll_add = λ epoll_fd fd w. (pos 0, w);
  epoll_wait = λ epoll_fd m w. (events m, w);
  close = λ fd w. w;
}

-- "Hello Server: client --> 0\n" in the first round.
first_round :
    (t : Load ℕ) × (round system (pos 3) 8000 (start system 0).1 ≡ ok (some t))
    × (t.world ≡ 27)
    × (t.connections ≡ pos 1)
unfolding round start open_connection opened connected print_text patch splice overwrite hello_text
    digits look finish is_due next_index htons nty_set_nonblock nty_set_reuse_addr set_nonblock_of
    cstr ◌+ℤ◌
first_round = (_, refl, refl, refl)

few : (n : ℕ) (es : List EpollEvent) → events (pos n) ≡ some es → length es ≤ n
few zero es e = ground (arith, e)
few (suc n) es e = ground (arith, e)

system-IsBounded : IsBounded system
system-IsBounded = record {
  by_recv = λ fd n w. omega arith;
  by_wait = λ epoll_fd n w es e. few n es e;
}

rounds-Runs_example :
    (r : Option (Load ℕ)) × (rounds system (pos 3) 8000 2500 (start system 0).1 ≡ ok r)
    × OnSome (IsRunning 2500 0) r
unfolding start
rounds-Runs_example = rounds-Runs system system-IsBounded 8000 2500 0 (omega arith)

-- With all connections.
abbrev busy : Load ℕ
busy = record {
  connections = pos 500000;
  index = 3;
  is_continue = false;
  buffer = replicate 128 0;
  world = 11;
}

round-Kept_example :
    IfOk
      (λ (r : Option (Load ℕ)). (t : Load ℕ) × (r ≡ some t) × (t.world ≡ 11))
      (round system (pos 3) 8000 busy)
round-Kept_example =
    round-Kept system (λ w. w ≡ 11)
      (record {
        by_wait = λ epoll_fd m w p. p;
        by_close = λ fd w p. p;
        by_send = λ bytes w p. p;
        by_recv = λ n w p. p;
      })
      (pos 3) 8000 500000 busy refl (omega arith) refl

-- Before the first round.
abbrev fresh : Load ℕ
fresh = record {
  connections = pos 0;
  index = 0;
  is_continue = false;
  buffer = replicate 128 0;
  world = 0;
}

round-greets_example :
    (t : Load ℕ) × (digits : Bytes) × (round system (pos 3) 8000 fresh ≡ ok (some t))
    × (t.connections ≡ pos 1)
    × IsDecimal 0 digits
    × (t.world ≡ 0 + length (codes "Hello Server: client --> " ++ digits ++ 10 ∷ []))
unfolding nty_set_nonblock nty_set_reuse_addr set_nonblock_of
round-greets_example =
    round-greets system (pos 3) 8000 0 0 4 0 fresh
      (record {
        count = 0;
        connections = refl;
        low = omega arith;
        high = omega arith;
        rounds = omega arith;
        index = refl;
        going = refl;
        room = refl;
      })
      refl (omega arith) (λ e. omega arith) refl refl
