-- ===== src/Dns/Client.antt =====
-- async_dns_client_noblock.c: the client around the messages. `dns_async_client_commit` sends a query
-- and registers its socket, `dns_async_client_proc` waits for replies in a thread of its own, and
-- `dns_client_commit` does both in a row. A block on the heap is known by a number that is never used
-- twice. Client/Free is about `dns_async_client_free_domains`, Client/Serve about the replies,
-- Client/Commit about the queries, Client/Steps about the two threads together, Client/Proc about the
-- batches of the second, Client/Alone about `dns_client_commit`, Client/Exchange
-- about a query together with its reply.
pub mod Free
pub mod Serve
pub mod Commit
pub mod Grown
pub mod Owned
pub mod Steps
pub mod Proc
pub mod Alone
pub mod Exchange
mod Tests
use Prim.Native.Nat.{bit_and, bit_or}
use networking_programming.Base.{
  ℕ, zero, suc, ◌+◌, ◌-◌, ◌*◌, Bool, true, false, Option, none, some, List, [], ◌∷◌, ◌++◌, length,
  get_elem?, replicate, leb, ◌==◌, if◌then◌else◌,
}
use networking_programming.Base.Int.{ℤ, pos, negsuc}
use networking_programming.Base.Counting.{put}
use networking_programming.Memory.{
  Bytes, Outcome, ok, fault, timeout, ◌>>=◌, of_option, slice, patch,
}
use networking_programming.Dns.Request.{
  zero_header, zero_question, DnsQuestion, create_header, create_question, build_request,
}
use networking_programming.Dns.Response.{DnsItem, parse_response}

-- `async_result_cb`: the lines that the function prints, each a name and an address.
abbrev pub ResultCallback : Type 0
ResultCallback = Option (List DnsItem) → ℤ → Outcome (List (Bytes × Bytes))

-- `struct ep_arg`
pub record EpArg : Type 0 where
  pub sockfd : ℕ
  pub cb : ResultCallback

-- What is in a block: an `ep_arg`, or characters, a list or the context.
pub data Block : Type 0 where
  ep_arg : EpArg → Block
  plain : Block

abbrev pub Heap : Type 0
Heap = ℕ → Option Block

-- The calls, on a state of the system. Sockets are UDP sockets, `connect` and `sendto` are for port
-- 53 of DNS_SVR, `recvfrom` gives its result and what it writes. `calloc` tells of the calls from
-- here on, by their number, whether they give a block.
pub record Udp : Type 1 where
  pub World : Type 0
  pub o_nonblock : ℕ
  pub socket : World → ℤ × World
  pub get_flags : ℕ → World → ℤ × World
  pub set_flags : ℕ → ℕ → World → ℤ × World
  pub connect : ℕ → World → ℤ × World
  pub sendto : ℕ → Bytes → World → ℤ × World
  pub recvfrom : ℕ → World → ℤ × Bytes × World
  pub epoll_create : World → ℤ × World
  pub epoll_add : ℕ → ℕ → World → ℤ × World
  pub epoll_del : ℕ → World → ℤ × World
  pub close : ℕ → World → World
  pub pthread_create : World → ℤ × World
  pub random : World → ℕ
  pub malloc : World → ℕ → Option Bytes
  pub strdup : World → Bytes → Option Bytes
  pub calloc : World → ℕ → Bool
  pub inet_ntop : Bytes → Bytes

-- The heap, with the number that the next block gets, the descriptors that are open, and the output.
pub record Client (World : Type 0) : Type 0 where
  pub heap : Heap
  pub next : ℕ
  pub is_open : ℕ → Bool
  pub printed : List (Bytes × Bytes)
  pub world : World

-- `free`; of a null pointer it does nothing.
unfoldable pub free : Option ℕ → Heap → Outcome Heap
free none heap = ok heap
free (some p) heap = of_option (heap p) >>= λ _. ok (put heap p none)

-- `list[i].domain` in the list at an address; its `ip` is the block behind it.
unfoldable pub domain_of : Option ℕ → ℕ → Heap → Outcome ℕ
domain_of none i heap = fault
domain_of (some list) i heap = of_option (heap list) >>= λ _. ok (list + 2 * i + 1)

-- `for (i = 0;i < count;i ++)`; the first argument is the number of rounds left.
unfoldable pub free_items : ℕ → ℕ → Option ℕ → Heap → Outcome Heap
free_items zero i list heap = ok heap
free_items (suc left) i list heap = domain_of list i heap >>= λ domain.
    free (some domain) heap >>= λ heap1. domain_of list i heap1 >>= λ domain1.
    free (some (domain1 + 1)) heap1 >>= λ heap2. free_items left (i + 1) list heap2

-- How often such a loop runs.
abbrev pub rounds : ℤ → ℕ
rounds (pos n) = n
rounds (negsuc n) = 0

-- `dns_async_client_free_domains`
unfoldable pub free_domains : Option ℕ → ℤ → Heap → Outcome Heap
free_domains list count heap = free_items (rounds count) 0 list heap >>= free list

-- `list[i]`, which is printed.
unfoldable pub item_line : Option (List DnsItem) → ℕ → Outcome (Bytes × Bytes)
item_line none i = fault
item_line (some list) i = of_option (get_elem? list i) >>= λ item. ok (item.domain, item.ip)

unfoldable pub item_lines : ℕ → ℕ → Option (List DnsItem) → Outcome (List (Bytes × Bytes))
item_lines zero i list = ok []
item_lines (suc left) i list =
    item_line list i >>= λ line. item_lines left (i + 1) list >>= λ lines. ok (line ∷ lines)

-- `dns_async_client_result_callback`
unfoldable pub result_callback : ResultCallback
result_callback list count = item_lines (rounds count) 0 list

-- `sizeof buffer` and `sizeof request`
abbrev pub message_size : ℕ
message_size = 1024

-- The `struct ep_arg` at an address.
unfoldable pub arg_at : Heap → ℕ → Outcome EpArg
arg_at heap p = of_option (heap p) >>= λ block. elim block [ ep_arg a ↦ ok a | plain ↦ fault ]

-- That many more blocks.
unfoldable pub allocate : ℕ → ℕ → Heap → Heap
allocate zero p heap = heap
allocate (suc n) p heap = allocate n (p + 1) (put heap p (some plain))

-- The blocks of a list, with those of its names and addresses, in the order of the calls.
abbrev pub block_count : Option (List DnsItem) → ℕ
block_count none = 0
block_count (some list) = 2 * length list + 1

-- Where the list is, if the next block is number `p`.
abbrev pub address : Option (List DnsItem) → ℕ → Option ℕ
address none p = none
address (some list) p = some p

-- `n <= 0`
abbrev pub is_silent : ℤ → Bool
is_silent (pos n) = n == 0
is_silent (negsuc n) = true

-- What `epoll_wait` may give: an interruption or nothing, another error, or `data.ptr` of the events.
pub data Waited : Type 0 where
  again broken : Waited
  ready : List ℕ → Waited

module _ (os : Udp) where
  open os use {World}

  -- `set_block` behind the first `fcntl`, which returned the third argument.
  unfoldable pub set_flags_of : ℕ → Bool → ℤ → World → ℤ × World
  set_flags_of fd block (negsuc n) w = (negsuc n, w)
  set_flags_of fd block (pos flags) w =
      let (r, w') =
        os.set_flags fd
          (if block then flags - bit_and flags os.o_nonblock else bit_or flags os.o_nonblock) w in
      elim r [ pos n ↦ (pos 0, w') | negsuc n ↦ (negsuc 0, w') ]

  unfoldable pub set_block : ℕ → Bool → World → ℤ × World
  set_block fd block w = let (flags, w') = os.get_flags fd w in set_flags_of fd block flags w'

  -- The block of a question's name, which nothing frees.
  unfoldable pub keep_name : DnsQuestion → Client World → Client World
  keep_name question s = elim question.qname [
    | none ↦ s
    | some qname ↦ record s { heap = put s.heap s.next (some plain); next = s.next + 1 }
  ]

  -- The query for a domain, sent through an open socket.
  unfoldable pub query : ℕ → Bytes → Client World → Outcome (Client World)
  query sockfd domain s =
      let (_, w1) = set_block sockfd false s.world in
      let (_, w2) = os.connect sockfd w1 in
      let (_, header) = create_header (os.random w2) (some zero_header) in
      of_option header >>= λ header.
      create_question (os.malloc w2) (os.strdup w2) (some zero_question) domain >>= λ (_, question).
      of_option question >>= λ question.
      build_request header question (replicate message_size 0) >>= λ (req_len, request).
      slice request 0 req_len >>= λ sent.
      let (_, w3) = os.sendto sockfd sent w2 in ok (record (keep_name question s) { world = w3 })

  -- The end of `dns_async_client_commit`: a new `ep_arg`, and its socket for epoll.
  unfoldable pub register : ℕ → ResultCallback → Client World → ℤ × Client World
  register sockfd cb s =
      let (ret, w) = os.epoll_add sockfd s.next s.world in
      if os.calloc s.world 0
      then (
        ret,
        record s {
          heap = put s.heap s.next (some (ep_arg (record { sockfd = sockfd; cb = cb })));
          next = s.next + 1;
          world = w;
        },
      )
      else (negsuc 0, s)

  -- `dns_async_client_commit` behind the call of `socket`; `none` if it exits.
  unfoldable pub committed :
      ℤ → Bytes → ResultCallback → Client World → Outcome (Option (ℤ × Client World))
  committed (negsuc n) domain cb s = ok none
  committed (pos sockfd) domain cb s =
      query sockfd domain (record s { is_open = put s.is_open sockfd true }) >>= λ s'.
      ok (some (register sockfd cb s'))

  unfoldable pub commit :
      Bytes → ResultCallback → Client World → Outcome (Option (ℤ × Client World))
  commit domain cb s =
      let (sockfd, w) = os.socket s.world in committed sockfd domain cb (record s { world = w })

  module _ (fuel : ℕ) where
    -- A message from a socket, and what `dns_parse_response` makes of the array that it is read into:
    -- what `recvfrom` returns, the number and the list.
    unfoldable pub reply : ℕ → World → Outcome (ℤ × Option (List DnsItem))
    reply sockfd w =
        let (_, bytes, w') = os.recvfrom sockfd w in
        patch (replicate message_size 0) 0 bytes >>= parse_response os.inet_ntop (os.calloc w') fuel

    -- One round of the loop over the events of an `epoll_wait`.
    unfoldable pub serve_event : ℕ → Client World → Outcome (Client World)
    serve_event p s = arg_at s.heap p >>= λ arg. reply arg.sockfd s.world >>= λ (count, list).
        arg.cb list count >>= λ lines.
        let (_, w) = os.epoll_del arg.sockfd (os.recvfrom arg.sockfd s.world).2 in
        free_domains (address list s.next) count (allocate (block_count list) s.next s.heap)
        >>= λ heap1. free (some p) heap1 >>= λ heap2. ok (record {
          heap = heap2;
          next = s.next + block_count list;
          is_open = put s.is_open arg.sockfd false;
          printed = s.printed ++ lines;
          world = os.close arg.sockfd w;
        })

    unfoldable pub serve_events : List ℕ → Client World → Outcome (Client World)
    serve_events [] s = ok s
    serve_events (p ∷ ps) s = serve_event p s >>= serve_events ps

    -- `dns_async_client_proc`, on the results of its `epoll_wait`s.
    unfoldable pub proc : List Waited → Client World → Outcome (Client World)
    proc [] s = ok s
    proc (again ∷ waits) s = proc waits s
    proc (broken ∷ waits) s = ok s
    proc (ready ps ∷ waits) s = serve_events ps s >>= proc waits

    -- The loop of `dns_client_commit`, which frees nothing.
    unfoldable pub await_reply : ℕ → ℕ → Client World → Outcome (Client World)
    await_reply zero sockfd s = timeout
    await_reply (suc left) sockfd s =
        let (n, bytes, w) = os.recvfrom sockfd s.world in
        let rest = await_reply left sockfd (record s { world = w }) in
        let answered = reply sockfd s.world >>= λ (count, list). ok (record s {
          heap = allocate (block_count list) s.next s.heap;
          next = s.next + block_count list;
          world = w;
        }) in
        if is_silent n then rest else answered

    -- `dns_client_commit` behind the call of `socket`; `none` if it exits.
    unfoldable pub committed_alone : ℤ → Bytes → Client World → Outcome (Option (Client World))
    committed_alone (negsuc n) domain s = ok none
    committed_alone (pos sockfd) domain s =
        query sockfd domain (record s { is_open = put s.is_open sockfd true })
        >>= await_reply fuel sockfd
        >>= λ s'. ok (some s')

    unfoldable pub client_commit : Bytes → Client World → Outcome (Option (Client World))
    client_commit domain s =
        let (sockfd, w) = os.socket s.world in
        committed_alone sockfd domain (record s { world = w })

  -- `dns_async_client_init` behind `epoll_create`; false if it returns NULL.
  unfoldable pub created : ℤ → Client World → Bool × Client World
  created (negsuc n) s = (false, s)
  created (pos epfd) s =
      let opened : Client World = record s {
        is_open = put s.is_open epfd true;
        heap = put s.heap s.next (some plain);
        next = s.next + 1;
        world = (os.pthread_create s.world).1;
      } in
      if os.calloc s.world 0
      then (elim (os.pthread_create s.world).0 [
        | pos n ↦ (leb n 0, opened)
        | negsuc n ↦ (false, opened)
      ])
      else (false, record s { world = os.close epfd s.world })

  unfoldable pub client_init : Client World → Bool × Client World
  client_init s = let (epfd, w) = os.epoll_create s.world in created epfd (record s { world = w })

  -- The loop of `main` over the domains; `none` if it exits.
  unfoldable pub commit_all : List Bytes → Client World → Outcome (Option (Client World))
  commit_all [] s = ok (some s)
  commit_all (domain ∷ domains) s = commit domain result_callback s >>= λ found. elim found [
    | none ↦ ok none
    | some (ret, s') ↦ commit_all domains s'
  ]
