-- ===== src/Http/Setup.antt =====
-- 2.1.1-multi-io/http-server.c: the beginning of `main`, up to its loop. Setup/Socket is about the
-- entry of the listening socket.
pub mod Socket
use networking_programming.Base.{ℕ, Option, none, some, replicate, ltb, if◌then◌else◌}
use networking_programming.Base.Int.{ℤ, pos, negsuc}
use networking_programming.Base.Words.{htons}
use networking_programming.Memory.{Outcome, ok, fault, ◌>>=◌}
use networking_programming.Net.{Os, add, epollin, is_error}
use networking_programming.Http.{
  ConnItem, State, accept_cb, conn_len, buffer_len, store, set_event, failed,
}

-- An entry of `conn_list` before `main`: all bytes are zero.
abbrev pub zero_item : ConnItem
zero_item = record {
  fd = 0;
  rbuffer = replicate buffer_len 0;
  rlen = 0;
  wbuffer = replicate buffer_len 0;
  wlen = 0;
  recv_t = none;
  send_callback = none;
}

-- `socket`, `bind` on a port in network order, `listen`, and `epoll_create`.
module _ (os : Os) (socket : os.World → ℤ × os.World) (bind : ℤ → ℕ → os.World → ℤ × os.World)
    (listen : ℤ → os.World → os.World) (epoll_create : os.World → ℤ × os.World) where
  open os use {World}

  -- `epoll_create` and `set_event` on the listening socket; `none` is the return of -1.
  unfoldable pub watch : ℕ → State World → Option (State World)
  watch sockfd s =
      let (epfd, w1) = epoll_create s.world in
      let (r, w2) = set_event os sockfd add epollin w1 in
      if is_error epfd then none else if failed os r then none else some (record s { world = w2 })

  -- The entry of the listening socket, and what follows it.
  unfoldable pub listening : ℤ → World → Outcome (Option (State World))
  listening (negsuc n) w = fault
  listening (pos sockfd) w =
      let item : ConnItem = record zero_item { fd = sockfd; recv_t = some accept_cb } in
      if ltb sockfd conn_len
      then ok (watch sockfd (record { conn_list = store (λ fd. zero_item) sockfd item; world = w }))
      else fault

  -- `main` up to its loop.
  unfoldable pub set_up : World → Outcome (Option (State World))
  set_up w =
      let (sockfd, w1) = socket w in
      let (r, w2) = bind sockfd (htons 2048) w1 in
      let go_on = listening sockfd (listen sockfd w2) in
      if is_error sockfd then ok none else if is_error r then ok none else go_on
