-- ===== src/Reactor.antt =====
-- 2.1.1-multi-io/reactor.c: a TCP echo server whose connections hold their buffers and callbacks
-- in the array `connlist`. The timing that is printed at every thousandth connection is left out.
-- Reactor/Safe and Reactor/Events are about the bounds of the arrays, Reactor/Echo about what a
-- client gets back.
pub mod Items
pub mod Safe
pub mod Events
pub mod Echo
pub mod Setup
mod Tests
use networking_programming.Base.{
  ℕ, zero, suc, ◌+◌, ◌-◌, Bool, true, false, Option, none, some, List, [], ◌∷◌, length, replicate,
  ltb, leb, ◌==◌, if◌then◌else◌,
}
use networking_programming.Base.Int.{ℤ, pos, negsuc, ◌+ℤ◌}
use networking_programming.Memory.{Bytes, Outcome, ok, fault, ◌>>=◌, as_size, slice, patch}
use networking_programming.Net.{
  Os, CtlOp, add, mod_event, del, Interest, epollin, epollout, EpollEvent,
}

-- CONN_LEN and BUFFER_LEN
abbrev pub conn_len : ℕ
conn_len = 1048576

abbrev pub buffer_len : ℕ
buffer_len = 512

-- The functions that an `RCALLBACK` points to.
pub data Callback : Type 0 where
  accept_cb recv_cb send_cb : Callback

-- `struct conn_item`; the union `recv_t` is one pointer, and a null pointer is `none`.
pub record ConnItem : Type 0 where
  pub fd : ℕ
  pub rbuffer : Bytes
  pub rlen : ℤ
  pub wbuffer : Bytes
  pub wlen : ℤ
  pub recv_t : Option Callback
  pub send_callback : Option Callback

-- The global `connlist`, and the system.
pub record State (World : Type 0) : Type 0 where
  pub connlist : ℕ → ConnItem
  pub world : World

-- `connlist[fd] = item`
abbrev pub store : (ℕ → ConnItem) → ℕ → ConnItem → ℕ → ConnItem
store connlist fd item j = if fd == j then item else connlist j

-- What `accept_cb` writes into the entry of a new connection. `wbuffer` is not among the arrays
-- that are cleared.
abbrev pub opened : ConnItem → ℕ → ConnItem
opened item clientfd = record item {
  fd = clientfd;
  rbuffer = replicate buffer_len 0;
  rlen = pos 0;
  wlen = pos 0;
  recv_t = some recv_cb;
  send_callback = some send_cb;
}

module _ (os : Os) where
  open os use {World}

  -- `set_event`: 1, or -1 if `epoll_ctl` fails.
  unfoldable pub set_event : ℕ → CtlOp → Interest → World → ℤ × World
  set_event fd op event w =
      let (r, w') = os.epoll_ctl op fd (some event) w in
      elim r [ negsuc n ↦ (if n == 0 then negsuc 0 else pos 1, w') | pos n ↦ (pos 1, w') ]

  -- `accept_cb` behind the call of `accept`, which returned the first argument.
  unfoldable pub accepted : ℤ → State World → Outcome (ℤ × State World)
  accepted (pos clientfd) s =
      if ltb clientfd conn_len
      then (let item = opened (s.connlist clientfd) clientfd in
          let (_, w) = set_event clientfd add epollin s.world in
          ok (pos clientfd, record { connlist = store s.connlist clientfd item; world = w }))
      else fault
  accepted (negsuc zero) s = ok (negsuc 0, s)
  accepted (negsuc (suc n)) s = fault

  unfoldable pub accept_callback : ℕ → State World → Outcome (ℤ × State World)
  unfolding accepted
  accept_callback fd s =
      let (clientfd, w) = os.accept fd s.world in accepted clientfd (record s { world = w })

  -- `recv_cb` behind the call of `recv`, which returned `cnt` and wrote `bytes` at `buffer + idx`.
  unfoldable pub received : ℕ → ℕ → ℤ → Bytes → State World → Outcome (ℤ × State World)
  received fd idx (pos zero) bytes s =
      let (_, w) = os.epoll_ctl del fd none s.world in
      ok (negsuc 0, record s { world = os.close fd w })
  received fd idx cnt bytes s =
      let item = s.connlist fd in
      let rlen = item.rlen +ℤ cnt in
      patch item.rbuffer idx bytes >>= λ rbuffer. as_size rlen >>= λ n.
      slice rbuffer 0 n >>= λ copied. patch item.wbuffer 0 copied >>= λ wbuffer.
      let item' = record item { rbuffer = rbuffer; rlen = pos 0; wbuffer = wbuffer; wlen = rlen } in
      let (_, w) = set_event fd mod_event epollout s.world in
      ok (cnt, record { connlist = store s.connlist fd item'; world = w })

  -- `recv_cb`: there is room for `BUFFER_LEN - idx` bytes behind `rbuffer + idx`.
  unfoldable pub recv_callback : ℕ → State World → Outcome (ℤ × State World)
  recv_callback fd s = as_size (s.connlist fd).rlen >>= λ idx.
      if leb idx buffer_len
      then (let (cnt, bytes, w) = os.recv fd (buffer_len - idx) s.world in
          received fd idx cnt bytes (record s { world = w }))
      else fault

  -- `send_cb`
  unfoldable pub send_callback_of : ℕ → State World → Outcome (ℤ × State World)
  send_callback_of fd s =
      let item = s.connlist fd in
      as_size item.wlen >>= λ idx. slice item.wbuffer 0 idx >>= λ bytes.
      let (cnt, w) = os.send fd bytes s.world in
      let (_, w') = set_event fd mod_event epollin w in ok (cnt, record s { world = w' })

  -- A call through a pointer.
  unfoldable pub call : Option Callback → ℕ → State World → Outcome (ℤ × State World)
  call none fd s = fault
  call (some accept_cb) fd s = accept_callback fd s
  call (some recv_cb) fd s = recv_callback fd s
  call (some send_cb) fd s = send_callback_of fd s

  -- One round of the loop over the events.
  unfoldable pub handle : EpollEvent → State World → Outcome (State World)
  handle e s =
      if ltb e.fd conn_len
      then (if e.readable
          then (call (s.connlist e.fd).recv_t e.fd s >>= λ (_, s'). ok s')
          else if e.writable
          then (call (s.connlist e.fd).send_callback e.fd s >>= λ (_, s'). ok s')
          else ok s)
      else fault

  -- `for (int i = 0; i < nready; i ++)`, and so the main loop over the events of all its rounds.
  unfoldable pub run : List EpollEvent → State World → Outcome (State World)
  run [] s = ok s
  run (e ∷ es) s = handle e s >>= run es
