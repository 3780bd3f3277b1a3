-- ===== src/WebServer.antt =====
-- WebServerDemo: the echo server of 2.1.1-multi-io/reactor.c again, with an object for each descriptor
-- and a virtual method in place of the callbacks. An object is known by its place in `connList` alone,
-- so it is a value there. WebServer/Same compares a batch of events with the other server,
-- WebServer/SameStart the set-up.
pub mod Relation
pub mod Same
pub mod Batch
pub mod SameStart
mod Tests
use networking_programming.Base.{
  ℕ, zero, suc, ◌+◌, ◌-◌, ◌%◌, ◌^◌, Bool, true, false, Option, none, some, List, [], ◌∷◌, replicate,
  ltb, leb, if◌then◌else◌,
}
use networking_programming.Base.Int.{ℤ, pos, negsuc, ◌+ℤ◌}
use networking_programming.Base.Words.{htons}
use networking_programming.Base.Counting.{put}
use networking_programming.Memory.{Bytes, Outcome, ok, fault, ◌>>=◌, as_size, slice, patch}
use networking_programming.Net.{
  Os, CtlOp, add, mod_event, del, Interest, epollin, epollout, EpollEvent, is_error,
}

-- BUFFER_LEN, the size of `connList`, and PORT_CNT.
abbrev pub buffer_len : ℕ
buffer_len = 512

abbrev pub conn_len : ℕ
conn_len = 1048576

abbrev pub port_cnt : ℕ
port_cnt = 20

-- The classes ConnItemListen and ConnItemRecv.
pub data Kind : Type 0 where
  listens receives : Kind

-- `class ConnItem`, without `epfd`, which is the same for all.
pub record ConnItem : Type 0 where
  pub kind : Kind
  pub fd : ℕ
  pub rbuffer : Bytes
  pub rlen : ℤ
  pub wbuffer : Bytes
  pub wlen : ℤ

-- A new object, with what its creator writes into it.
abbrev pub new_item : Kind → ℕ → ConnItem
new_item kind fd = record {
  kind = kind;
  fd = fd;
  rbuffer = replicate buffer_len 0;
  rlen = pos 0;
  wbuffer = replicate buffer_len 0;
  wlen = pos 0;
}

-- The global `connList`, a null pointer being `none`, and the system.
pub record State (World : Type 0) : Type 0 where
  pub conn_list : ℕ → Option ConnItem
  pub world : World

module _ (os : Os) where
  open os use {World}

  -- `ConnItem::set_event`, and `Server::set_event`, which is the same.
  unfoldable pub set_event : ℕ → CtlOp → Interest → World → ℤ × World
  set_event fd op event w =
      let (r, w') = os.epoll_ctl op fd (some event) w in
      if is_error r then (negsuc 0, w') else (pos 1, w')

  -- `ConnItemListen::epollInCallBack` behind the call of `accept`, which returned the first argument.
  unfoldable pub accepted : ℤ → State World → Outcome (ℤ × State World)
  accepted (pos clientfd) s =
      let (_, w) = set_event clientfd add epollin s.world in
      if ltb clientfd conn_len
      then ok (
        pos clientfd,
        record {
          conn_list = put s.conn_list clientfd (some (new_item receives clientfd));
          world = w;
        },
      )
      else fault
  accepted (negsuc zero) s = ok (negsuc 0, s)
  accepted (negsuc (suc n)) s = fault

  -- `ConnItemRecv::epollInCallBack` of the object at `place`, behind the call of `recv`, which
  -- returned `cnt` and wrote `bytes` at `rbuffer + idx`.
  unfoldable pub received : ℕ → ConnItem → ℕ → ℤ → Bytes → State World → Outcome (ℤ × State World)
  received place item idx (pos zero) bytes s =
      let (_, w) = os.epoll_ctl del item.fd none s.world in
      ok (negsuc 0, record s { world = os.close item.fd w })
  received place item idx cnt bytes s =
      let rlen = item.rlen +ℤ cnt in
      patch item.rbuffer idx bytes >>= λ rbuffer. as_size rlen >>= λ n.
      slice rbuffer 0 n >>= λ copied. patch item.wbuffer 0 copied >>= λ wbuffer.
      let item' = record item { rbuffer = rbuffer; rlen = pos 0; wbuffer = wbuffer; wlen = rlen } in
      let (_, w) = set_event item.fd mod_event epollout s.world in
      ok (cnt, record { conn_list = put s.conn_list place (some item'); world = w })

  -- The virtual method `epollInCallBack`.
  unfoldable pub in_callback : Kind → ℕ → ConnItem → State World → Outcome (ℤ × State World)
  in_callback listens place item s =
      let (clientfd, w) = os.accept item.fd s.world in accepted clientfd (record s { world = w })
  in_callback receives place item s = as_size item.rlen >>= λ idx.
      if leb idx buffer_len
      then (let (cnt, bytes, w) = os.recv item.fd (buffer_len - idx) s.world in
          received place item idx cnt bytes (record s { world = w }))
      else fault

  -- `ConnItem::epollOutCallBack`
  unfoldable pub out_callback : ConnItem → State World → Outcome (ℤ × State World)
  out_callback item s = as_size item.wlen >>= λ n. slice item.wbuffer 0 n >>= λ bytes.
      let (cnt, w) = os.send item.fd bytes s.world in
      let (_, w') = set_event item.fd mod_event epollin w in ok (cnt, record s { world = w' })

  -- What is called through the pointer at `place`, if it is not null.
  unfoldable pub dispatch : Bool → Bool → ℕ → Option ConnItem → State World → Outcome (State World)
  dispatch true writable place none s = fault
  dispatch true writable place (some item) s =
      in_callback item.kind place item s >>= λ (_, s'). ok s'
  dispatch false true place none s = fault
  dispatch false true place (some item) s = out_callback item s >>= λ (_, s'). ok s'
  dispatch false false place found s = ok s

  -- One round of the loop over the events.
  unfoldable pub handle : EpollEvent → State World → Outcome (State World)
  handle e s =
      if ltb e.fd conn_len then dispatch e.readable e.writable e.fd (s.conn_list e.fd) s else fault

  -- `for (int i = 0; i < nready; i ++)`, and so the main loop over the events of all its rounds.
  unfoldable pub run : List EpollEvent → State World → Outcome (State World)
  run [] s = ok s
  run (e ∷ es) s = handle e s >>= run es

  -- `socket`, `bind` on a port in network order, `listen`, and `epoll_create`.
  module _ (socket : World → ℤ × World) (bind : ℤ → ℕ → World → ℤ × World)
      (listen : ℤ → World → World) (epoll_create : World → ℤ × World) where
    unfoldable pub init_server : ℕ → World → ℤ × World
    init_server port w =
        let (sockfd, w1) = socket w in
        let (r, w2) = bind sockfd (htons port) w1 in
        if is_error sockfd
        then (negsuc 0, w1)
        else if is_error r
        then (negsuc 0, w2)
        else (sockfd, listen sockfd w2)

    -- The object of a listening socket, which `init_server` returned. There is no `connList[-1]`.
    unfoldable pub listening : ℤ → State World → Outcome (State World)
    listening (negsuc n) s = fault
    listening (pos listenfd) s =
        let (_, w) = set_event listenfd add epollin s.world in
        if ltb listenfd conn_len
        then ok (record {
          conn_list = put s.conn_list listenfd (some (new_item listens listenfd));
          world = w;
        })
        else fault

    unfoldable pub listen_port : ℕ → State World → Outcome (State World)
    listen_port port s =
        let (listenfd, w) = init_server port s.world in listening listenfd (record s { world = w })

    -- `for (int i = 0; i < PORT_CNT; i ++)`; the first argument is the number of rounds left.
    unfoldable pub listen_ports : ℕ → ℕ → ℕ → State World → Outcome (State World)
    listen_ports zero port i s = ok s
    listen_ports (suc left) port i s =
        listen_port ((port + i) % 2 ^ 16) s >>= λ s'. listen_ports left port (i + 1) s'

    -- `Server::run` up to the first `epoll_wait`; `none` if it has returned.
    unfoldable pub start : ℕ → World → Outcome (Option (State World))
    start port w =
        let (epfd, w') = epoll_create w in
        let ready =
          listen_ports port_cnt port 0 (record { conn_list = λ fd. none; world = w' }) >>= λ s.
          ok (some s) in
        if is_error epfd then ok none else ready

    -- The loop, if `run` has not returned.
    unfoldable pub run_some :
        List EpollEvent → Option (State World) → Outcome (Option (State World))
    run_some es none = ok none
    run_some es (some s) = run es s >>= λ s'. ok (some s')

    -- `Server::run` over the events of all its rounds.
    unfoldable pub serve : ℕ → List EpollEvent → World → Outcome (Option (State World))
    serve port es w = start port w >>= run_some es
