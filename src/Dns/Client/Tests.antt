-- ===== src/Dns/Client/Tests.antt =====
-- The client on a system whose first message is missing, and whose others are a reply with an address.
use networking_programming.Base.{
  ℕ, zero, suc, ◌-◌, ◌≡◌, refl, true, false, none, some, [], ◌∷◌, ◌++◌, length, ◌==◌, if◌then◌else◌,
  arith, replicate, length-replicate, All,
}
use networking_programming.Base.Int.{ℤ, pos, negsuc}
use networking_programming.Base.Counting.{put}
use networking_programming.Memory.{cstr, Bytes, ok, patch, splice, overwrite, read, slice}
use networking_programming.Base.Words.{htons}
use networking_programming.Dns.Name.{parse_name, name_loop, is_pointer}
use networking_programming.Dns.Response.{
  DnsItem, parse_response, net_short, skip_queries, skip_name, parse_answers, parse_answer,
  store_host, answer_data,
}
use networking_programming.Dns.Client.{
  Client, Udp, ep_arg, EpArg, result_callback, commit, reply, serve_event, plain, set_block,
  set_flags_of,
}
use networking_programming.Dns.Request.{header_bytes}
use networking_programming.Dns.Request.Tokens.{encode, join, IsLabel}
use networking_programming.Dns.Client.Free.{Fresh}
use networking_programming.Dns.Client.Serve.{Served, lines_of}
use networking_programming.Dns.Client.Commit.{header_of, registered, commit-join}
use networking_programming.Dns.Client.Owned.{IsOwned}
use networking_programming.Dns.Client.Steps.{Reach, here, asks, Reach-IsOwned, Reach-Served}
use networking_programming.Dns.Client.Exchange.{commit-serve_event}
use networking_programming.Dns.Response.Reply.{HostRecord, reply_bytes, records_bytes, record_head}

-- "a.b" has the address 1.2.3.4.
abbrev answer : Bytes
answer =
    0 ∷ 7 ∷ 129 ∷ 0 ∷ 0 ∷ 1 ∷ 0 ∷ 1 ∷ 0 ∷ 0 ∷ 0 ∷ 0 ∷ 1 ∷ b'a' ∷ 1 ∷ b'b' ∷ 0 ∷ 0 ∷ 1 ∷ 0 ∷ 1 ∷ 192
    ∷ 12 ∷ 0 ∷ 1 ∷ 0 ∷ 1 ∷ 0 ∷ 0 ∷ 0 ∷ 9 ∷ 0 ∷ 4 ∷ 1 ∷ 2 ∷ 3 ∷ 4 ∷ []

abbrev receive : ℕ → ℤ × Bytes × ℕ
receive zero = (negsuc 0, [], 1)
receive (suc n) = (pos 37, answer, suc (suc n))

-- Its state is the number of calls of `recvfrom`; each socket is descriptor 5.
abbrev udp : Udp
udp = record {
  World = ℕ;
  o_nonblock = 2048;
  socket = λ w. (pos 5, w);
  get_flags = λ fd w. (pos 2, w);
  set_flags = λ fd flags w. (pos 0, w);
  connect = λ fd w. (pos 0, w);
  sendto = λ fd bytes w. (pos (length bytes), w);
  recvfrom = λ fd w. receive w;
  epoll_create = λ w. (pos 4, w);
  epoll_add = λ fd p w. (pos 0, w);
  epoll_del = λ fd w. (pos 0, w);
  close = λ fd w. w;
  pthread_create = λ w. (pos 0, w);
  random = λ w. 7;
  malloc = λ w n. some (replicate n 9);
  strdup = λ w h. some h;
  calloc = λ w k. true;
  inet_ntop = λ b. b;
}

abbrev item : DnsItem
item = record { domain = b'a' ∷ b'.' ∷ b'b' ∷ []; ip = 1 ∷ 2 ∷ 3 ∷ 4 ∷ []; ttl = 0 }

reply_missing : (sockfd : ℕ) → reply udp 9 sockfd 0 ≡ ok (pos 0, some [])
unfolding reply patch splice overwrite parse_response net_short read htons skip_queries
    parse_answers
reply_missing sockfd = refl

reply_answer : (sockfd n : ℕ) → reply udp 9 sockfd (suc n) ≡ ok (pos 1, some (item ∷ []))
unfolding reply patch splice overwrite parse_response net_short read htons skip_queries skip_name
    parse_answers parse_answer parse_name name_loop is_pointer store_host answer_data cstr slice
reply_answer sockfd n = refl

-- Before the first query: the context is block 0.
abbrev started : Client ℕ
started = record {
  heap = λ p. if 0 == p then some plain else none;
  next = 1;
  is_open = λ fd. fd == 4;
  printed = [];
  world = 1;
}

started-Fresh : Fresh started.next started.heap
started-Fresh q above = ground arith

-- "a" and "b"
abbrev label_a : Bytes
label_a = b'a' ∷ []

abbrev label_b : Bytes
label_b = b'b' ∷ []

labels : All IsLabel (label_a ∷ label_b ∷ [])
labels = (
  (λ e. cc, omega arith, (λ e. omega arith, tt)),
  ((λ e. cc, omega arith, (λ e. omega arith, tt)), tt),
)

abbrev sent : Bytes
sent =
    header_bytes (header_of 7)
    ++ (encode (label_a ∷ label_b ∷ []) ++ 0 ∷ [])
    ++ (0 ∷ 1 ∷ [])
    ++ 0 ∷ 1 ∷ []

abbrev waiting : Client ℕ
waiting = registered udp 5 result_callback started sent

commit-join_example :
    (bytes : Bytes) × (ret : ℤ) × (commit udp
        (join (label_a ∷ label_b ∷ []))
        result_callback
        started
      ≡ ok (some (ret, registered udp 5 result_callback started bytes)))
    × (bytes ≡ sent)
    × (ret ≡ pos 0)
unfolding join
commit-join_example =
    commit-join udp (λ w n. (replicate n 9, refl, length-replicate n 9)) (λ w h. refl) (λ w. refl) 5
      label_a (label_b ∷ []) result_callback started refl labels (omega arith)

asked :
    commit udp (join (label_a ∷ label_b ∷ [])) result_callback started ≡ ok (some (pos 0, waiting))
asked = let (bytes, ret, e, same, is) = commit-join_example in (rw is at e)

reached : Reach udp 9 started (put (λ p. false) (3 - 1) true) waiting
reached = asks (join (label_a ∷ label_b ∷ [])) (pos 0) here (λ fd e. ground arith) asked

Reach-IsOwned_example : IsOwned (put (λ p. false) (3 - 1) true) waiting
Reach-IsOwned_example = Reach-IsOwned udp 9 started-Fresh reached

Reach-Served_example :
    (a : EpArg) × (u : Client ℕ) × (waiting.heap 2 ≡ some (ep_arg a))
    × (serve_event udp 9 2 waiting ≡ ok u)
    × Served 2 a.sockfd (some (item ∷ [])) (lines_of (some (item ∷ []))) waiting u
unfolding set_block set_flags_of
Reach-Served_example =
    Reach-Served udp 9 2 (pos 1) (some (item ∷ [])) started-Fresh reached refl
      (λ a at. reply_answer a.sockfd 0)

-- The record of the address in `answer`.
abbrev address_record : HostRecord
address_record = record { t3 = 0; t2 = 0; t1 = 0; t0 = 9; address = 1 ∷ 2 ∷ 3 ∷ 4 ∷ [] }

-- The system whose messages all are that reply.
abbrev answering : Udp
answering = record udp { recvfrom = λ fd w. (pos 37, answer, suc w) }

commit-serve_event_example :
    (ret : ℤ) × (t : Client ℕ) × (u : Client ℕ) × (commit answering
        (join (label_a ∷ label_b ∷ []))
        result_callback
        started
      ≡ ok (some (ret, t)))
    × (serve_event answering 9 2 t ≡ ok u)
    × (u.printed ≡ (join (label_a ∷ label_b ∷ []), 1 ∷ 2 ∷ 3 ∷ 4 ∷ []) ∷ [])
    × ((q : ℕ) → u.heap q ≡ put started.heap 1 (some plain) q)
    × (u.is_open 5 ≡ false)
unfolding join reply_bytes encode records_bytes record_head
commit-serve_event_example =
    commit-serve_event answering (λ w n. (replicate n 9, refl, length-replicate n 9)) (λ w h. refl)
      (λ w k. refl) 9 5 0 7 129 0 label_a (label_b ∷ []) (address_record ∷ []) started refl
      started-Fresh labels (record { short = omega arith; fits = omega arith; plain = omega arith })
      (omega arith) (omega arith) (omega arith) (λ w. refl) (omega arith)
