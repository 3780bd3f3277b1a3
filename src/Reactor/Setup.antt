-- ===== src/Reactor/Setup.antt =====
-- 2.1.1-multi-io/reactor.c: `init_server`, and the beginning of `main`, which listens on twenty
-- ports. Setup/Ports is about the entries that it leaves.
pub mod Ports
mod Tests
use networking_programming.Base.{
  ℕ, zero, suc, ◌+◌, ◌%◌, ◌^◌, Bool, true, false, Option, none, some, List, replicate, ltb,
  if◌then◌else◌,
}
use networking_programming.Base.Int.{ℤ, pos, negsuc}
use networking_programming.Base.Words.{htons}
use networking_programming.Memory.{Outcome, ok, fault, ◌>>=◌}
use networking_programming.Net.{Os, add, epollin, is_error, EpollEvent}
use networking_programming.Reactor.{
  ConnItem, State, accept_cb, conn_len, buffer_len, store, set_event, run,
}

-- PORT and PORT_CNT
abbrev pub first_port : ℕ
first_port = 2048

abbrev pub port_cnt : ℕ
port_cnt = 20

-- An entry of `connlist` before `main`: all bytes are zero.
abbrev pub zero_item : ConnItem
zero_item = record {
  fd = 0;
  rbuffer = replicate buffer_len 0;
  rlen = pos 0;
  wbuffer = replicate buffer_len 0;
  wlen = pos 0;
  recv_t = none;
  send_callback = none;
}

-- `socket`, `bind` on a port in network order, `listen`, and `epoll_create`.
module _ (os : Os) (socket : os.World → ℤ × os.World) (bind : ℤ → ℕ → os.World → ℤ × os.World)
    (listen : ℤ → os.World → os.World) (epoll_create : os.World → ℤ × os.World) where
  open os use {World}

  unfoldable pub init_server : ℕ → World → ℤ × World
  init_server port w =
      let (sockfd, w1) = socket w in
      let (r, w2) = bind sockfd (htons port) w1 in
      if is_error sockfd
      then (negsuc 0, w1)
      else if is_error r
      then (negsuc 0, w2)
      else (sockfd, listen sockfd w2)

  -- The entry of a listening socket, which `init_server` returned. There is no `connlist[-1]`.
  unfoldable pub listening : ℤ → State World → Outcome (State World)
  listening (negsuc n) s = fault
  listening (pos sockfd) s =
      let item : ConnItem = record (s.connlist sockfd) { fd = sockfd; recv_t = some accept_cb } in
      let (_, w) = set_event os sockfd add epollin s.world in
      if ltb sockfd conn_len
      then ok (record { connlist = store s.connlist sockfd item; world = w })
      else fault

  -- One round of the loop over the ports.
  unfoldable pub listen_port : ℕ → State World → Outcome (State World)
  listen_port port s =
      let (sockfd, w) = init_server port s.world in listening sockfd (record s { world = w })

  -- `for (int i = 0; i < port_cnt; i ++)`; the first argument is the number of rounds left, and the
  -- port is an `unsigned short`.
  unfoldable pub listen_ports : ℕ → ℕ → State World → Outcome (State World)
  listen_ports zero i s = ok s
  listen_ports (suc left) i s =
      listen_port ((first_port + i) % 2 ^ 16) s >>= λ s'. listen_ports left (i + 1) s'

  -- `main` up to the first `epoll_wait`; `none` if it has returned.
  unfoldable pub set_up : World → Outcome (Option (State World))
  set_up w =
      let (epfd, w') = epoll_create w in
      let ready =
        listen_ports port_cnt 0 (record { connlist = λ fd. zero_item; world = w' }) >>= λ s.
        ok (some s) in
      if is_error epfd then ok none else ready

  -- The loop, if `main` has not returned.
  unfoldable pub run_some : List EpollEvent → Option (State World) → Outcome (Option (State World))
  run_some es none = ok none
  run_some es (some s) = run os es s >>= λ s'. ok (some s')

  -- `main` over the events of all its rounds.
  unfoldable pub main : List EpollEvent → World → Outcome (Option (State World))
  main es w = set_up w >>= run_some es
