-- ===== src/Http.antt =====
-- 2.1.1-multi-io/http-server.c: a server that answers whatever it receives with one fixed page.
-- The printing, and `resource`, which nothing uses, are left out. Http/Safe and Http/Events are
-- about the bounds of the arrays, Http/Page about what a client is sent, Http/Full about how long
-- a connection can last.
pub mod Items
pub mod Safe
pub mod Events
pub mod Page
pub mod Full
pub mod Setup
mod Tests
use Prim.Native.String.{String}
use networking_programming.Base.{
  ℕ, zero, suc, ◌+◌, ◌-◌, Bool, true, false, Option, none, some, List, [], ◌∷◌, ◌++◌, length,
  replicate, ltb, leb, ◌==◌, if◌then◌else◌,
}
use networking_programming.Base.Int.{ℤ, pos, negsuc}
use networking_programming.Memory.{Bytes, Outcome, ok, fault, ◌>>=◌, slice, patch}
use networking_programming.Memory.Text.{codes}
use networking_programming.Net.{
  Os, CtlOp, add, mod_event, del, Interest, epollin, epollout, EpollEvent,
}

-- BUFFER_LEN, and the number of entries of `conn_list`.
abbrev pub buffer_len : ℕ
buffer_len = 1024

abbrev pub conn_len : ℕ
conn_len = 1024

-- The functions that an `RCALLBACK` points to.
pub data Callback : Type 0 where
  accept_cb recv_cb send_cb : Callback

-- `struct conn_item`; `rlen` and `wlen` are never negative in this program.
pub record ConnItem : Type 0 where
  pub fd : ℕ
  pub rbuffer : Bytes
  pub rlen : ℕ
  pub wbuffer : Bytes
  pub wlen : ℕ
  pub recv_t : Option Callback
  pub send_callback : Option Callback

-- The global `conn_list`, and the system.
pub record State (World : Type 0) : Type 0 where
  pub conn_list : ℕ → ConnItem
  pub world : World

-- `conn_list[fd] = item`
abbrev pub store : (ℕ → ConnItem) → ℕ → ConnItem → ℕ → ConnItem
store conn_list fd item j = if fd == j then item else conn_list j

abbrev line : String → Bytes
line s = codes s ++ (13 ∷ 10 ∷ [])

-- The text that `sprintf` writes: the header lines, the page and two empty lines.
unfoldable pub response : Bytes
response =
    line "HTTP/1.1 200 OK"
    ++ (line "Accept-Ranges: bytes"
        ++ (line "Content-Length: 115"
            ++ (line "Content-Type: text/html"
                ++ (line "Date: Thu, 22 Aug 2024 07:45:31 GMT"
                    ++ (line ""
                        ++ (line
                              "<!DOCTYPE html><html><head><title>192.168.113.128</title></head><body><h1> test --> html in 192.168.113.128</h1></body></html>"
                            ++ line ""))))))

-- `http_request`
abbrev pub http_request : ConnItem → ℤ × ConnItem
http_request conn = (pos 0, conn)

-- `http_response`: `sprintf` writes the text and its NUL, and returns the length of the text.
unfoldable pub http_response : ConnItem → Outcome (ℕ × ConnItem)
http_response conn = patch conn.wbuffer 0 (response ++ 0 ∷ []) >>= λ wbuffer.
    ok (length response, record conn { wbuffer = wbuffer; wlen = length response })

-- What `accept_cb` writes into the entry of a new connection.
abbrev pub opened : ConnItem → ℕ → ConnItem
opened item clientfd = record item {
  fd = clientfd;
  rbuffer = replicate buffer_len 0;
  wbuffer = replicate buffer_len 0;
  rlen = 0;
  wlen = 0;
  recv_t = some recv_cb;
  send_callback = some send_cb;
}

module _ (os : Os) where
  open os use {World}

  -- `set_event`: 1, or -1 if an addition fails and 0 if a change fails.
  unfoldable pub set_event : ℕ → CtlOp → Interest → World → ℤ × World
  set_event fd op event w =
      let (r, w') = os.epoll_ctl op fd (some event) w in
      elim r [ negsuc zero ↦ (elim op [ add ↦ negsuc 0 | _ ↦ pos 0 ], w') | _ ↦ (pos 1, w') ]

  -- `1 != set_event(…)`
  abbrev pub failed : ℤ → Bool
  failed (pos n) = if n == 1 then false else true
  failed (negsuc n) = true

  -- `accept_cb` behind the call of `accept`, which returned the first argument.
  unfoldable pub accepted : ℤ → State World → Outcome (ℤ × State World)
  accepted (negsuc n) s = ok (negsuc 0, s)
  accepted (pos clientfd) s =
      let (r, w) = set_event clientfd add epollin s.world in
      if failed r
      then ok (negsuc 0, record s { world = w })
      else if ltb clientfd conn_len
      then ok (
        pos clientfd,
        record {
          conn_list = store s.conn_list clientfd (opened (s.conn_list clientfd) clientfd);
          world = w;
        },
      )
      else fault

  unfoldable pub accept_callback : ℕ → State World → Outcome (ℤ × State World)
  accept_callback fd s =
      let (clientfd, w) = os.accept fd s.world in accepted clientfd (record s { world = w })

  -- The end of a connection in `recv_cb`.
  unfoldable pub disconnect : ℕ → State World → Outcome (ℤ × State World)
  disconnect fd s =
      let (_, w) = os.epoll_ctl del fd none s.world in
      ok (negsuc 0, record s { world = os.close fd w })

  -- `recv_cb` behind the call of `recv`, which returned `cnt` and wrote `bytes` at `buffer + idx`.
  unfoldable pub received : ℕ → ℕ → ℤ → Bytes → State World → Outcome (ℤ × State World)
  received fd idx (negsuc n) bytes s = disconnect fd s
  received fd idx (pos zero) bytes s = disconnect fd s
  received fd idx (pos (suc k)) bytes s = patch (s.conn_list fd).rbuffer idx bytes >>= λ rbuffer.
      let item : ConnItem = record (s.conn_list fd) { rbuffer = rbuffer; rlen = idx + suc k } in
      http_response (http_request item).1 >>= λ (_, item').
      let (r, w) = set_event fd mod_event epollout s.world in
      let s' : State World = record { conn_list = store s.conn_list fd item'; world = w } in
      if failed r then ok (negsuc 0, s') else ok (pos (suc k), s')

  -- `recv_cb`: there is room for `BUFFER_LEN - idx` bytes behind `buffer + idx`.
  unfoldable pub recv_callback : ℕ → State World → Outcome (ℤ × State World)
  recv_callback fd s =
      let idx = (s.conn_list fd).rlen in
      if leb idx buffer_len
      then (let (cnt, bytes, w) = os.recv fd (buffer_len - idx) s.world in
          received fd idx cnt bytes (record s { world = w }))
      else fault

  -- `send_cb` behind the call of `send`, which returned the second argument.
  unfoldable pub sent : ℕ → ℤ → State World → Outcome (ℤ × State World)
  sent fd (negsuc zero) s = ok (negsuc 0, s)
  sent fd cnt s =
      let (r, w) = set_event fd mod_event epollin s.world in
      let s' : State World = record s { world = w } in
      if failed r then ok (negsuc 0, s') else ok (cnt, s')

  -- `send_cb`: the copy to `send_buf`, which is only printed, and the call of `send`.
  unfoldable pub send_callback_of : ℕ → State World → Outcome (ℤ × State World)
  send_callback_of fd s =
      let item = s.conn_list fd in
      slice item.wbuffer 0 item.wlen >>= λ bytes.
      patch (replicate buffer_len 0) 0 bytes >>= λ send_buf.
      let (cnt, w) = os.send fd bytes s.world in sent fd cnt (record s { world = w })

  -- A call through a pointer.
  unfoldable pub call : Option Callback → ℕ → State World → Outcome (ℤ × State World)
  call none fd s = fault
  call (some accept_cb) fd s = accept_callback fd s
  call (some recv_cb) fd s = recv_callback fd s
  call (some send_cb) fd s = send_callback_of fd s

  -- One round of the loop over the events.
  unfoldable pub handle : EpollEvent → State World → Outcome (State World)
  handle e s =
      if ltb e.fd conn_len
      then (if e.readable
          then (call (s.conn_list e.fd).recv_t e.fd s >>= λ (_, s'). ok s')
          else if e.writable
          then (call (s.conn_list e.fd).send_callback e.fd s >>= λ (_, s'). ok s')
          else ok s)
      else fault

  -- `for (int i = 0; i < nready; i ++)`
  unfoldable pub run : List EpollEvent → State World → Outcome (State World)
  run [] s = ok s
  run (e ∷ es) s = handle e s >>= run es
