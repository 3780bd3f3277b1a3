-- ===== src/Thread/Tests.antt =====
-- A client that says "A" and leaves.
use networking_programming.Base.{ℕ, ◌≡◌, refl, [], ◌∷◌, length, arith, ◌==◌, if◌then◌else◌}
use networking_programming.Base.Int.{pos}
use networking_programming.Memory.{ok}
use networking_programming.Net.{Os}
use networking_programming.Thread.{client_thread}
use networking_programming.Thread.Echo.{client_thread-Says}

abbrev talking : Os
talking = record {
  World = ℕ;
  accept = λ fd w. (pos 7, w);
  recv = λ fd n w. if w == 0 then (pos 1, b'A' ∷ [], 1) else (pos 0, [], w);
  send = λ fd bytes w. (pos (length bytes), 2);
  epoll_ctl = λ op fd event w. (pos 0, w);
  close = λ fd w. 3;
}

client_thread-Says_example : client_thread talking 2 7 0 ≡ ok 3
client_thread-Says_example =
    client_thread-Says talking 7 ((b'A' ∷ []) ∷ []) 2 0 3 (omega arith)
      (refl, refl, omega arith, omega arith, (refl, refl))
