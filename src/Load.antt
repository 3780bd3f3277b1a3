-- ===== src/Load.antt =====
-- 2.1.1-multi-io/mul_port_client_epoll.c, the load generator: it opens connections to 20 ports, one in
-- a round, and every thousandth round it looks at their events. Load/Hello is about the texts that it
-- sends, Load/Events and Load/Opening about the two halves of a round, Load/Rounds about any number of
-- rounds, Load/Greeting about a round that opens a connection, Load/Full about the descriptor that the
-- answers to events go to. The port, `atoi` of an argument, is taken not to be negative.
pub mod Hello
pub mod Events
pub mod Opening
pub mod Rounds
pub mod Greeting
pub mod Full
mod Tests
use Prim.Native.Nat.{bit_or}
use networking_programming.Base.{
  ℕ, zero, suc, ◌+◌, ◌%◌, ◌^◌, Bool, true, false, Option, none, some, List, [], ◌∷◌, ◌++◌, length,
  replicate, leb, ◌==◌, ◌&&◌, ◌||◌, not, if◌then◌else◌,
}
use networking_programming.Base.Int.{ℤ, pos, negsuc, ◌+ℤ◌, ltb_ℤ}
use networking_programming.Base.Decimal.{decimal}
use networking_programming.Base.Words.{htons}
use networking_programming.Memory.{Bytes, Outcome, ok, fault, ◌>>=◌, patch, splice}
use networking_programming.Memory.Text.{codes, print_text}
use networking_programming.Net.{EpollEvent}

-- The calls, on a state of the system. `connect` is given `sin_port`, `epoll_add` asks for EPOLLIN and
-- EPOLLOUT, `epoll_wait` is given its `maxevents` and gives what it writes into the array, or nothing
-- if it fails; `is_interrupted` is `errno == EINTR` behind a `recv`. A `socket` that fails returns -1.
pub record Calls : Type 1 where
  pub World : Type 0
  pub o_nonblock : ℕ
  pub epoll_create : ℕ → World → ℤ × World
  pub socket : World → ℤ × World
  pub connect : ℕ → ℕ → World → ℤ × World
  pub get_flags : ℕ → World → ℤ × World
  pub set_flags : ℕ → ℕ → World → ℤ × World
  pub reuse_addr : ℕ → World → ℤ × World
  pub send : ℕ → Bytes → World → ℤ × World
  pub recv : ℕ → ℕ → World → ℤ × Bytes × World
  pub is_interrupted : World → Bool
  pub epoll_add : ℤ → ℕ → World → ℤ × World
  pub epoll_wait : ℤ → ℤ → World → Option (List EpollEvent) × World
  pub close : ℕ → World → World

abbrev pub max_buffer : ℕ
max_buffer = 128

abbrev pub max_epollsize : ℕ
max_epollsize = 393216

abbrev pub max_port : ℕ
max_port = 20

-- The bound on `connections`, which the source has no name for.
abbrev pub max_connections : ℕ
max_connections = 500000

-- The variables of `main`, and the global `isContinue`.
pub record Load (World : Type 0) : Type 0 where
  pub connections : ℤ
  pub index : ℕ
  pub is_continue : Bool
  pub buffer : Bytes
  pub world : World

-- The texts that the two `sprintf`s write.
unfoldable pub hello_text : ℤ → Bytes
hello_text connections = codes "Hello Server: client --> " ++ decimal connections ++ 10 ∷ []

unfoldable pub data_text : ℕ → Bytes
data_text clientfd = codes "data from " ++ decimal (pos clientfd) ++ 10 ∷ []

-- `!strcmp(s, text)` for an array `s`: the text and its NUL stand at its beginning.
unfoldable pub is_text : Bytes → Bytes → Bool
is_text [] text = false
is_text (c ∷ s) [] = c == 0
is_text (c ∷ s) (d ∷ text) = c == d && is_text s text

-- `if (++index >= MAX_PORT) index = 0;`
unfoldable pub next_index : ℕ → ℕ
next_index index = if leb max_port (index + 1) then 0 else index + 1

-- `connections % 1000 == 999 || connections >= 500000`
unfoldable pub is_due : ℤ → Bool
is_due (pos n) = n % 1000 == 999 || leb max_connections n
is_due (negsuc n) = false

module _ (calls : Calls) where
  open calls use {World}

  unfoldable pub set_nonblock_of : ℕ → ℤ → World → ℤ × World
  set_nonblock_of fd (negsuc n) w = (negsuc n, w)
  set_nonblock_of fd (pos flags) w =
      let (r, w') = calls.set_flags fd (bit_or flags calls.o_nonblock) w in
      elim r [ pos n ↦ (pos 0, w') | negsuc n ↦ (negsuc 0, w') ]

  -- `ntySetNonblock`
  unfoldable pub nty_set_nonblock : ℕ → World → ℤ × World
  nty_set_nonblock fd w = let (flags, w') = calls.get_flags fd w in set_nonblock_of fd flags w'

  -- `ntySetReUseAddr`
  unfoldable pub nty_set_reuse_addr : ℕ → World → ℤ × World
  nty_set_reuse_addr fd w = calls.reuse_addr fd w

  -- What is done with a new connection, behind `connect`; `none` if `main` returns.
  unfoldable pub connected : ℤ → ℕ → ℤ → Load World → Outcome (Option (ℕ × Load World))
  connected epoll_fd sockfd (negsuc n) s = ok none
  connected epoll_fd sockfd (pos n) s =
      let w1 = (nty_set_reuse_addr sockfd (nty_set_nonblock sockfd s.world).1).1 in
      print_text s.buffer (hello_text s.connections) >>= λ (buffer, message).
      let w2 = (calls.epoll_add epoll_fd sockfd (calls.send sockfd message w1).1).1 in
      ok (
        some
          (sockfd, record s { connections = s.connections +ℤ pos 1; buffer = buffer; world = w2 }))

  -- The same behind `socket`.
  unfoldable pub opened : ℤ → ℕ → ℤ → Load World → Outcome (Option (ℕ × Load World))
  opened epoll_fd port (negsuc n) s = ok none
  opened epoll_fd port (pos sockfd) s =
      let (r, w) = calls.connect sockfd (htons ((port + s.index) % 2 ^ 16)) s.world in
      connected epoll_fd sockfd r (record s { world = w })

  -- The first half of a round: this round's `sockfd`, which is 0 if there is no new connection.
  unfoldable pub open_connection : ℤ → ℕ → Load World → Outcome (Option (ℕ × Load World))
  open_connection epoll_fd port s =
      let (r, w) = calls.socket s.world in
      if ltb_ℤ s.connections (pos max_connections) && not s.is_continue
      then opened epoll_fd port r (record s { world = w })
      else ok (some (0, s))

  -- What is done with the result of `recv`, and what is in `rBuffer`.
  unfoldable pub received : ℕ → ℤ → Bytes → Load World → Load World
  received clientfd (pos (suc k)) r_buffer s =
      if is_text r_buffer (codes "quit") then record s { is_continue = false } else s
  received clientfd (pos zero) r_buffer s = record s {
    connections = s.connections +ℤ negsuc 0;
    world = calls.close clientfd s.world;
  }
  received clientfd (negsuc n) r_buffer s =
      if calls.is_interrupted s.world then s else record s { world = calls.close clientfd s.world }

  -- One event of an `epoll_wait`.
  unfoldable pub handle : ℕ → EpollEvent → Load World → Outcome (Load World)
  handle sockfd e s =
      let answered = print_text s.buffer (data_text e.fd) >>= λ (buffer, message).
      ok (record s { buffer = buffer; world = (calls.send sockfd message s.world).1 }) in
      let (count, bytes, w) = calls.recv sockfd max_buffer s.world in
      let read = patch (replicate max_buffer 0) 0 bytes >>= λ r_buffer.
      ok (received e.fd count r_buffer (record s { world = w })) in
      if e.writable
      then answered
      else if e.readable
      then read
      else ok (record s { world = calls.close e.fd s.world })

  -- `for (i = 0;i < nfds;i ++)`
  unfoldable pub handle_all : ℕ → List EpollEvent → Load World → Outcome (Load World)
  handle_all sockfd [] s = ok s
  handle_all sockfd (e ∷ es) s = handle sockfd e s >>= handle_all sockfd es

  -- What `epoll_wait` gives must fit into `events`.
  unfoldable pub waited : ℕ → Option (List EpollEvent) → Load World → Outcome (Load World)
  waited sockfd none s = ok s
  waited sockfd (some es) s =
      if leb (length es) max_epollsize then handle_all sockfd es s else fault

  -- The second half of a round.
  unfoldable pub look : ℤ → ℕ → Load World → Outcome (Load World)
  look epoll_fd sockfd s =
      let (found, w) = calls.epoll_wait epoll_fd s.connections s.world in
      if is_due s.connections then waited sockfd found (record s { world = w }) else ok s

  unfoldable pub finish : ℤ → Option (ℕ × Load World) → Outcome (Option (Load World))
  finish epoll_fd none = ok none
  finish epoll_fd (some (sockfd, s)) = look epoll_fd sockfd s >>= λ t. ok (some t)

  -- A round of `while (1)`; `none` if `main` returns.
  unfoldable pub round : ℤ → ℕ → Load World → Outcome (Option (Load World))
  round epoll_fd port s =
      open_connection epoll_fd port (record s { index = next_index s.index }) >>= finish epoll_fd

  -- Some rounds, or fewer if `main` returns.
  unfoldable pub rounds : ℤ → ℕ → ℕ → Load World → Outcome (Option (Load World))
  rounds epoll_fd port zero s = ok (some s)
  rounds epoll_fd port (suc n) s = round epoll_fd port s >>= λ found. elim found [
    | none ↦ ok none
    | some t ↦ rounds epoll_fd port n t
  ]

  -- The variables before the first round, and the descriptor of epoll.
  unfoldable pub start : World → ℤ × Load World
  start w =
      let (epoll_fd, w') = calls.epoll_create max_epollsize w in
      (
        epoll_fd,
        record {
          connections = pos 0;
          index = 0;
          is_continue = false;
          buffer = splice (replicate max_buffer 0) 0 (codes " Data From MulClient\n" ++ 0 ∷ []);
          world = w';
        },
      )
