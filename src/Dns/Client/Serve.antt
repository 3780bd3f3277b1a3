-- ===== src/Dns/Client/Serve.antt =====
-- What a reply does to the client: one round of the loop of `dns_async_client_proc`.
use networking_programming.Base.{
  ℕ, ◌+◌, ◌≡◌, refl, sym, ◌∙◌, Bool, false, Option, none, some, List, [], ◌∷◌, ◌++◌, length,
  get_elem?, map, append_assoc, arith, length-append,
}
use networking_programming.Base.Int.{ℤ}
use networking_programming.Base.Counting.{put}
use networking_programming.Memory.{Bytes, Outcome, ok, fault, timeout, ◌>>=◌}
use networking_programming.Dns.Response.{DnsItem, parse_response}
use networking_programming.Dns.Client.{
  Client, ep_arg, EpArg, Udp, result_callback, item_line, item_lines, arg_at, block_count, reply,
  serve_event,
}
use networking_programming.Dns.Client.Free.{
  Fresh, Consistent, free_live, free_domains-allocate, parse_response-Consistent,
}

abbrev pub line_of : DnsItem → Bytes × Bytes
line_of item = (item.domain, item.ip)

-- What there is to print of a list.
abbrev pub lines_of : Option (List DnsItem) → List (Bytes × Bytes)
lines_of none = []
lines_of (some list) = map line_of list

get_elem?-append :
    (before list : List DnsItem) (item : DnsItem)
    → get_elem? (before ++ item ∷ list) (length before) ≡ some item
get_elem?-append [] list item = refl
get_elem?-append (b ∷ before) list item = get_elem?-append before list item

item_lines-map :
    (before list : List DnsItem)
    → item_lines (length list) (length before) (some (before ++ list)) ≡ ok (map line_of list)
unfolding item_lines item_line
item_lines-map before [] = refl
item_lines-map before (item ∷ list) =
    let next : length (before ++ item ∷ []) ≡ length before + 1 =
      length-append before (item ∷ []) in
    rw
      (
        get_elem?-append before list item,
        sym next,
        sym (append_assoc before (item ∷ []) list),
        item_lines-map (before ++ item ∷ []) list,
      )
      refl

-- The callback of `main` prints the items, all of them.
pub result_callback-lines_of :
    (list : Option (List DnsItem)) (count : ℤ)
    → Consistent list count
    → result_callback list count ≡ ok (lines_of list)
unfolding result_callback
result_callback-lines_of none count same = rw same (unfold item_lines in refl)
result_callback-lines_of (some list) count same = rw same (item_lines-map [] list)

-- What is changed when the reply to an `ep_arg` at `p` has been served.
pub record Served {W : Type 0} (p sockfd : ℕ) (list : Option (List DnsItem))
    (lines : List (Bytes × Bytes)) (s t : Client W) : Type 0 where
  pub heap : (q : ℕ) → t.heap q ≡ put s.heap p none q
  pub next : t.next ≡ s.next + block_count list
  pub is_open : t.is_open ≡ put s.is_open sockfd false
  pub printed : t.printed ≡ s.printed ++ lines

read-Consistent :
    (inet_ntop : Bytes → Bytes) (calloc : ℕ → Bool) (fuel : ℕ) (m : Outcome Bytes) (count : ℤ)
    (list : Option (List DnsItem))
    → (m >>= parse_response inet_ntop calloc fuel) ≡ ok (count, list)
    → Consistent list count
read-Consistent inet_ntop calloc fuel (ok buffer) count list e =
    parse_response-Consistent inet_ntop calloc fuel buffer count list e
read-Consistent inet_ntop calloc fuel fault count list e = cc
read-Consistent inet_ntop calloc fuel timeout count list e = cc

module _ (os : Udp) (fuel : ℕ) where
  open os use {World}

  pub reply-Consistent :
      (sockfd : ℕ) (w : World) (count : ℤ) (list : Option (List DnsItem))
      → reply os fuel sockfd w ≡ ok (count, list)
      → Consistent list count
  unfolding reply
  reply-Consistent sockfd w count list e = read-Consistent os.inet_ntop _ fuel _ count list e

  -- If there is an `ep_arg` at `p`, and its socket's message is read without undefined behaviour, and
  -- so is the callback, the round frees the blocks that it allocated and the `ep_arg`, each once, and
  -- no others, closes the socket, and has printed what the callback does.
  pub serve_event-Served :
      (p : ℕ) (a : EpArg) (s : Client World) (count : ℤ) (list : Option (List DnsItem))
      (lines : List (Bytes × Bytes))
      → s.heap p ≡ some (ep_arg a)
      → Fresh s.next s.heap
      → reply os fuel a.sockfd s.world ≡ ok (count, list)
      → a.cb list count ≡ ok lines
      → (t : Client World) × (serve_event os fuel p s ≡ ok t) × Served p a.sockfd list lines s t
  unfolding serve_event arg_at
  serve_event-Served p a s count list lines at fresh read call =
      let (heap1, e, same) =
        free_domains-allocate list count s.next s.heap fresh
          (reply-Consistent a.sockfd s.world count list read) in
      (
        record {
          heap = put heap1 p none;
          next = s.next + block_count list;
          is_open = put s.is_open a.sockfd false;
          printed = s.printed ++ lines;
          world = os.close a.sockfd (os.epoll_del a.sockfd (os.recvfrom a.sockfd s.world).2).1;
        },
        rw (at, read, call, e, free_live p heap1 (ep_arg a) (same p ∙ at)) refl,
        record { heap = λ q. ground (arith, same q); next = refl; is_open = refl; printed = refl },
      )
