-- ===== src/Peer/Tests.antt =====
-- Peers whose state counts the calls of `connect` and `recv`.
use networking_programming.Base.{ℕ, zero, suc, ◌≡◌, refl, Bool, true, false, [], ◌∷◌, length, arith}
use networking_programming.Base.Int.{ℤ, pos, negsuc}
use networking_programming.Memory.{Bytes, ok, patch, splice, overwrite, cstr}
use networking_programming.Memory.Text.{codes}
use networking_programming.Peer.{Calls, client_thread, receive_loop, received, start}
use networking_programming.Peer.Runs.{start-Refuses, client_thread-quit}

-- The second `connect` succeeds. `poll` finds nothing, then "A", and then the end.
abbrev second_try : ℕ → ℤ × ℕ
second_try zero = (negsuc 0, 1)
second_try (suc n) = (pos 0, 2)

abbrev says : ℕ → ℤ × Bytes × ℕ
says zero = (negsuc 0, [], 0)
says (suc zero) = (pos 1, b'A' ∷ [], 2)
says (suc (suc n)) = (pos 0, [], 3)

abbrev polls : ℕ → Bool × ℕ
polls zero = (false, 1)
polls (suc n) = (true, suc n)

abbrev peer : Calls
peer = record {
  World = ℕ;
  socket = λ w. (pos 3, w);
  bind = λ fd port w. (pos 0, w);
  connect = λ fd port w. second_try w;
  poll = λ fd w. polls w;
  send = λ fd bytes w. (pos (length bytes), suc w);
  recv = λ fd n w. says w;
  close = λ fd w. 9;
}

start-Refuses_example : start peer 2 8000 0 ≡ ok (pos 3, 2)
start-Refuses_example =
    start-Refuses peer 3 1 2 8000 0 2 0 refl refl (omega arith) (refl, (refl, refl))

client_thread-quit_example :
    client_thread peer (pos 3) (codes "hello" ∷ codes "world" ∷ codes "quit" ∷ codes "more" ∷ []) 0
    ≡ ok (true, 2)
client_thread-quit_example =
    client_thread-quit peer (pos 3) (codes "hello" ∷ codes "world" ∷ []) (codes "more" ∷ []) 0
      ((omega arith, omega arith, λ e. cc), ((omega arith, omega arith, λ e. cc), tt))

hears_one : receive_loop peer 3 (pos 3) 0 ≡ ok 9
unfolding receive_loop received patch splice overwrite cstr
hears_one = refl
