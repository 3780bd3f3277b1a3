-- ===== src/Load/Greeting.antt =====
-- A round of the load generator that opens a connection.
use networking_programming.Base.{
  ℕ, ◌+◌, ◌%◌, ◌^◌, ◌<◌, ◌≡◌, ◌≢◌, refl, false, some, [], ◌∷◌, ◌++◌, arith,
}
use networking_programming.Base.Int.{ℤ, pos, ◌+ℤ◌}
use networking_programming.Base.Decimal.{decimal, IsDecimal, digits-IsDecimal}
use networking_programming.Base.Words.{htons}
use networking_programming.Memory.{Bytes, ok}
use networking_programming.Memory.Text.{codes}
use networking_programming.Load.{
  Calls, Load, hello_text, is_due, connected, opened, open_connection, look, finish, round,
  nty_set_nonblock, nty_set_reuse_addr,
}
use networking_programming.Load.Events.{IsRunning}
use networking_programming.Load.Hello.{greeted, print-hello_text}
use networking_programming.Load.Opening.{can_open, one_more}
use networking_programming.Load.Rounds.{next_index-mod}

not_due : (i : ℤ) (n : ℕ) → i ≡ pos n → n < 500000 → n % 1000 ≢ 999 → is_due i ≡ false
unfolding is_due
not_due i n at below other = ground arith

module _ (calls : Calls) (epoll_fd : ℤ) (port : ℕ) where
  open calls use {World}

  -- The state of the system between the calls of `connect` and `send`.
  abbrev prepared : ℕ → ℕ → World → World
  prepared sockfd sin_port w =
      (nty_set_reuse_addr calls sockfd
        (nty_set_nonblock calls sockfd (calls.connect sockfd sin_port w).1).1).1

  -- If, behind `n` rounds, fewer than 499999 connections are counted, and their number is not 998
  -- modulo 1000, and `socket` and the `connect` to `port + (n + 1) % 20` succeed, then the round
  -- sends on its socket, in one message, the greeting with the decimal text of the number of
  -- connections before it (digits that stand for it, without a 0 in front but for zero itself),
  -- registers the socket with epoll, counts it, and waits for no event.
  pub round-greets :
      (n count sockfd k : ℕ) (s : Load World)
      → IsRunning n 0 s
      → s.connections ≡ pos count
      → count < 499999
      → count % 1000 ≢ 998
      → (calls.socket s.world).0 ≡ pos sockfd
      → (calls.connect sockfd (htons ((port + (n + 1) % 20) % 2 ^ 16)) (calls.socket s.world).1).0
        ≡ pos k
      → (t : Load World) × (digits : Bytes) × (round calls epoll_fd port s ≡ ok (some t))
        × (t.connections ≡ pos (count + 1))
        × IsDecimal count digits
        × (t.world
            ≡ (calls.epoll_add epoll_fd sockfd
                (calls.send sockfd (codes "Hello Server: client --> " ++ digits ++ 10 ∷ []) (
                  prepared sockfd
                    (htons ((port + (n + 1) % 20) % 2 ^ 16))
                    (calls.socket s.world).1)).1).1)
  unfolding round open_connection opened connected finish look hello_text
  round-greets n count sockfd k s h at below other socket connect =
      let sin_port : ℕ = htons ((port + (n + 1) % 20) % 2 ^ 16) in
      let s' : Load World = record s {
        index = (n + 1) % 20;
        world = (calls.connect sockfd sin_port (calls.socket s.world).1).1;
      } in
      (
        greeted calls epoll_fd sockfd s',
        decimal (pos count),
        rw
            (
              next_index-mod s.index n h.index,
              can_open s.connections s.is_continue count at h.going (omega arith),
              socket,
              connect,
              print-hello_text s.buffer s.connections h.room,
              not_due (s.connections +ℤ pos 1) (count + 1) (one_more s.connections count at)
                  (omega arith) (λ e. other (omega arith)),
            )
            refl,
        one_more s.connections count at,
        digits-IsDecimal 10 count (omega arith) (omega arith),
        rw at refl,
      )
