-- ===== src/Epoll/Tests.antt =====
-- A system that remembers to whom was sent and what was closed.
use networking_programming.Base.{ℕ, ◌<◌, true, false, List, [], ◌∷◌, arith, All}
use networking_programming.Base.Int.{pos}
use networking_programming.Memory.{IfOk}
use networking_programming.Net.{Os, EpollEvent}
use networking_programming.Epoll.{epoll_round}
use networking_programming.Epoll.Index.{IsKept, epoll_round-Kept}

abbrev logging : Os
logging = record {
  World = List ℕ;
  accept = λ fd w. (pos 7, w);
  recv = λ fd n w. (pos 1, b'A' ∷ [], w);
  send = λ fd bytes w. (pos 1, fd ∷ w);
  epoll_ctl = λ op fd event w. (pos 0, w);
  close = λ fd w. fd ∷ w;
}

abbrev AllBelow : ℕ → List ℕ → Type 0
AllBelow n w = All (λ fd. fd < n) w

logging-IsKept : IsKept logging 2 (AllBelow 2)
logging-IsKept = record {
  by_accept = λ fd w p. p;
  by_recv = λ fd k w p. p;
  by_ctl = λ op fd e w p. p;
  by_send = λ fd bytes w low p. (low, p);
  by_close = λ fd w low p. (low, p);
}

-- A new client, and a byte from client 9.
abbrev events : List EpollEvent
events =
    record { fd = 3; readable = true; writable = false }
    ∷ record { fd = 9; readable = true; writable = false }
    ∷ []

epoll_round-Kept_example : IfOk (AllBelow 2) (epoll_round logging 3 0 events [])
epoll_round-Kept_example =
    epoll_round-Kept logging 2 (AllBelow 2) logging-IsKept 3 0 events [] (omega arith) tt
