-- ===== src/Dns/Client/Commit.antt =====
-- What `dns_async_client_commit` sends, and what it leaves for the other thread.
use networking_programming.Base.{
  ℕ, ◌+◌, ◌%◌, ◌^◌, ◌≤◌, ◌≡◌, refl, true, false, some, List, [], ◌∷◌, ◌++◌, length, replicate,
  length-replicate, arith, le→leb, All, length-append,
}
use networking_programming.Base.Int.{ℤ, pos}
use networking_programming.Base.Counting.{put}
use networking_programming.Base.Words.{htons}
use networking_programming.Memory.{Bytes, ok}
use networking_programming.Memory.Laws.{slice-splice}
use networking_programming.Dns.Request.Tokens.{encode, join, IsLabel}
use networking_programming.Dns.Request.{
  DnsHeader, DnsQuestion, zero_header, zero_question, create_header, create_question, header_bytes,
  short_bytes,
}
use networking_programming.Dns.Request.Layout.{
  question_of, create_question-join, length-encode-join,
}
use networking_programming.Dns.Request.Build.{
  request_bytes, build_request_lem, length-request_bytes,
}
use networking_programming.Dns.Client.{
  Client, plain, ep_arg, Udp, ResultCallback, message_size, set_block, keep_name, query, register,
  committed, commit,
}

-- The header of a query.
abbrev pub header_of : ℕ → DnsHeader
header_of id = record zero_header { id = id % 2 ^ 16; flags = 1; qdcount = 256 }

-- The bytes of a query.
abbrev pub query_bytes : ℕ → ℕ → Bytes → Bytes
query_bytes id n qname = request_bytes (header_of id) (question_of n qname) qname

module _ (os : Udp) where
  open os use {World}

  -- The state of the system before the query is written.
  abbrev pub connected : ℕ → World → World
  connected sockfd w = (os.connect sockfd (set_block os sockfd false w).1).1

  query-sent :
      (sockfd : ℕ) (domain qname : Bytes) (s : Client World)
      → create_question
          (os.malloc (connected sockfd s.world))
          (os.strdup (connected sockfd s.world))
          (some zero_question)
          domain
        ≡ ok (pos 0, some (question_of (length domain) qname))
      → length qname ≡ length domain + 2
      → length domain ≤ 1006
      → query os sockfd domain s
        ≡ ok (record s {
          heap = put s.heap s.next (some plain);
          next = s.next + 1;
          world =
              (os.sendto sockfd
                (query_bytes (os.random (connected sockfd s.world)) (length domain) qname)
                (connected sockfd s.world)).1;
        })
  unfolding query create_header keep_name htons
  query-sent sockfd domain qname s made full fits =
      rw
        (
          made,
          build_request_lem header question refl full (replicate message_size 0),
          le→leb (length domain + 2 + 16) (length (replicate {A = ℕ} message_size 0))
              (omega (arith, room)),
          slice-splice (replicate message_size 0) (request_bytes header question qname)
              (length-request_bytes header question refl full) (omega (arith, room)),
        )
        refl
    where
      header : DnsHeader
      header = header_of (os.random (connected sockfd s.world))

      question : DnsQuestion
      question = question_of (length domain) qname

      room : length (replicate {A = ℕ} message_size 0) ≡ 1024
      room = length-replicate {A = ℕ} message_size 0

  -- The rest of a successful `dns_async_client_commit`.
  abbrev pub registered : ℕ → ResultCallback → Client World → Bytes → Client World
  registered sockfd cb s sent = record s {
    heap =
        put (put s.heap s.next (some plain)) (s.next + 1)
          (some (ep_arg (record { sockfd = sockfd; cb = cb })));
    next = s.next + 1 + 1;
    is_open = put s.is_open sockfd true;
    world =
        (os.epoll_add sockfd (s.next + 1) (os.sendto sockfd sent (connected sockfd s.world)).1).1;
  }

  module _
      (memory : (w : World) (n : ℕ)
        → (block : Bytes) × (os.malloc w n ≡ some block) × (length block ≡ n))
      (copies : (w : World) (h : Bytes) → os.strdup w h ≡ some h)
      (room : (w : World) → os.calloc w 0 ≡ true) where
    -- If `socket` gives a descriptor, and `malloc`, `strdup` and `calloc` give their blocks, then
    -- `dns_async_client_commit`, for a hostname of one or more labels with dots between them and at
    -- most 1006 bytes, each label of 1 to 255 bytes without a dot, sends a query for it in one
    -- message: a header with a random number and one question, the labels behind their lengths, a
    -- zero byte, type 1 and class 1. Then it registers the open socket with a new `ep_arg` that
    -- holds it and the callback, and returns what `epoll_ctl` does. The block of the question's
    -- name stays on the heap.
    pub commit-join :
        (sockfd : ℕ) (l : Bytes) (ls : List Bytes) (cb : ResultCallback) (s : Client World)
        → (os.socket s.world).0 ≡ pos sockfd
        → All IsLabel (l ∷ ls)
        → length (join (l ∷ ls)) ≤ 1006
        → (sent : Bytes) × (ret : ℤ) × (commit os (join (l ∷ ls)) cb s
            ≡ ok (
                some (ret, registered sockfd cb (record s { world = (os.socket s.world).1 }) sent)))
          × (sent
              ≡ header_bytes (header_of (os.random (connected sockfd (os.socket s.world).1)))
                ++ (encode (l ∷ ls) ++ 0 ∷ [])
                ++ (0 ∷ 1 ∷ [])
                ++ 0 ∷ 1 ∷ [])
          × (ret
              ≡ (os.epoll_add sockfd
                  (s.next + 1)
                  (os.sendto sockfd sent (connected sockfd (os.socket s.world).1)).1).0)
    unfolding commit committed register request_bytes
    commit-join sockfd l ls cb s opened labels fits =
        let w : World = (os.socket s.world).1 in
        let (block, got, sized) = memory (connected sockfd w) (length (join (l ∷ ls)) + 2) in
        (
          query_bytes (os.random (connected sockfd w)) (length (join (l ∷ ls)))
              (encode (l ∷ ls) ++ 0 ∷ []),
          _,
          rw
              (
                opened,
                query-sent sockfd (join (l ∷ ls)) (encode (l ∷ ls) ++ 0 ∷ [])
                    (record s { world = w; is_open = put s.is_open sockfd true })
                    (create_question-join (os.malloc (connected sockfd w))
                      (os.strdup (connected sockfd w)) zero_question (join (l ∷ ls)) got sized
                      (copies (connected sockfd w) (join (l ∷ ls))) l ls labels refl)
                    (omega
                      (arith, length-append (encode (l ∷ ls)) (0 ∷ []), length-encode-join l ls))
                    fits,
                room,
              )
              refl,
          (unfold short_bytes htons in refl),
          refl,
        )
