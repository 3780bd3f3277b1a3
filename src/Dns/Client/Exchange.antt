-- ===== src/Dns/Client/Exchange.antt =====
-- A query and its reply: `dns_async_client_commit`, and the round of `dns_async_client_proc` for what
-- a server sends back.
use networking_programming.Base.{
  ℕ, ◌+◌, ◌-◌, ◌^◌, ◌≤◌, ◌<◌, ◌≡◌, refl, sym, ap, ◌∙◌, true, false, some, List, [], ◌∷◌, ◌++◌,
  length, map, replicate, arith, All, length-replicate, append_assoc, append-nil, length-map,
}
use networking_programming.Base.Int.{ℤ, pos}
use networking_programming.Base.Counting.{put}
use networking_programming.Memory.{Bytes, Outcome, ok, patch, ◌>>=◌}
use networking_programming.Memory.Laws.{patch-ok}
use networking_programming.Memory.Text.{splice_front}
use networking_programming.Dns.Request.Tokens.{join, IsLabel}
use networking_programming.Dns.Response.{parse_response, DnsItem}
use networking_programming.Dns.Response.Reply.{
  HostRecord, IsHost, IsName, reply_bytes, found, parse_response-reply,
}
use networking_programming.Dns.Client.{
  Client, plain, EpArg, Udp, result_callback, message_size, reply, commit, serve_event,
}
use networking_programming.Dns.Client.Free.{Fresh}
use networking_programming.Dns.Client.Serve.{serve_event-Served, line_of, result_callback-lines_of}
use networking_programming.Dns.Client.Commit.{registered, commit-join}

-- So it is when the call that reads it is given the array.
patch_front :
    (n : ℕ) (bs : Bytes)
    → length bs ≤ n
    → patch (replicate n 0) 0 bs ≡ ok (bs ++ replicate (n - length bs) 0)
patch_front n bs fits =
    patch-ok (replicate n 0) 0 bs (omega (arith, length-replicate {A = ℕ} n 0))
    ∙ ap ok (splice_front n bs fits)

-- What follows a reply in the array stands behind its records.
reply_bytes-append :
    (i0 i1 f0 f1 : ℕ) (ls : List Bytes) (rs : List HostRecord) (rest : Bytes)
    → reply_bytes i0 i1 f0 f1 ls rs [] ++ rest ≡ reply_bytes i0 i1 f0 f1 ls rs rest
unfolding reply_bytes
reply_bytes-append i0 i1 f0 f1 ls rs rest = simp (append_assoc, append-nil) refl

-- The lines for the items of a reply.
map-found :
    (inet_ntop : Bytes → Bytes) (name : Bytes) (rs : List HostRecord)
    → map line_of (map (found inet_ntop name) rs)
      ≡ map (λ (r : HostRecord). (name, inet_ntop r.address)) rs
map-found inet_ntop name [] = refl
map-found inet_ntop name (r ∷ rs) =
    ap (λ (x : List (Bytes × Bytes)). (name, inet_ntop r.address) ∷ x) (map-found inet_ntop name rs)

module _ (os : Udp)
    (memory : (w : os.World) (n : ℕ)
      → (block : Bytes) × (os.malloc w n ≡ some block) × (length block ≡ n))
    (copies : (w : os.World) (h : Bytes) → os.strdup w h ≡ some h)
    (room : (w : os.World) (k : ℕ) → os.calloc w k ≡ true) where
  open os use {World}

  reply-found :
      (fuel sockfd i0 i1 f0 f1 : ℕ) (l : Bytes) (ls : List Bytes) (rs : List HostRecord) (w : World)
      → IsName (l ∷ ls)
      → All IsHost rs
      → length rs < 2 ^ 16
      → length ls + 3 ≤ fuel
      → (os.recvfrom sockfd w).1 ≡ reply_bytes i0 i1 f0 f1 (l ∷ ls) rs []
      → length (reply_bytes i0 i1 f0 f1 (l ∷ ls) rs []) ≤ message_size
      → reply os fuel sockfd w
        ≡ ok (pos (length rs), some (map (found os.inet_ntop (join (l ∷ ls))) rs))
  unfolding reply
  reply-found fuel sockfd i0 i1 f0 f1 l ls rs w name hosts many few sent fits =
      ap
        (λ (bytes : Bytes).
          patch (replicate message_size 0) 0 bytes
          >>= parse_response os.inet_ntop (os.calloc (os.recvfrom sockfd w).2) fuel)
        sent
      ∙ ap
          (λ (m : Outcome Bytes).
            m >>= parse_response os.inet_ntop (os.calloc (os.recvfrom sockfd w).2) fuel)
          (patch_front message_size (reply_bytes i0 i1 f0 f1 (l ∷ ls) rs []) fits
            ∙ ap ok (reply_bytes-append i0 i1 f0 f1 (l ∷ ls) rs _))
      ∙ parse_response-reply os.inet_ntop (os.calloc (os.recvfrom sockfd w).2) fuel i0 i1 f0 f1 l ls
          rs _ name hosts many few (room (os.recvfrom sockfd w).2)

  -- If `malloc`, `strdup` and every `calloc` succeed, `socket` gives a descriptor, no block has a
  -- number that is still to come, and each message on that descriptor is a reply of at most 1024
  -- bytes to the query for the labels `l ∷ ls`, with one question and fewer than 2^16 host records
  -- of type 1, then `dns_async_client_commit` for the labels with dots between them returns, and so
  -- does the round for its reply: it has printed the hostname with the text of each address, in
  -- order, the descriptor is closed, and of what both allocated only the block of the question's
  -- name is left. The labels have 1 to 191 bytes, no dot and no zero byte, the hostname has less
  -- than 128, and the fuel is three more than the labels behind the first.
  pub commit-serve_event :
      (fuel sockfd i0 i1 f0 f1 : ℕ) (l : Bytes) (ls : List Bytes) (rs : List HostRecord)
      (s : Client World)
      → (os.socket s.world).0 ≡ pos sockfd
      → Fresh s.next s.heap
      → All IsLabel (l ∷ ls)
      → IsName (l ∷ ls)
      → All IsHost rs
      → length rs < 2 ^ 16
      → length ls + 3 ≤ fuel
      → ((w : World) → (os.recvfrom sockfd w).1 ≡ reply_bytes i0 i1 f0 f1 (l ∷ ls) rs [])
      → length (reply_bytes i0 i1 f0 f1 (l ∷ ls) rs []) ≤ message_size
      → (ret : ℤ) × (t : Client World) × (u : Client World) × (commit os
            (join (l ∷ ls))
            result_callback
            s
          ≡ ok (some (ret, t)))
        × (serve_event os fuel (s.next + 1) t ≡ ok u)
        × (u.printed
            ≡ s.printed ++ map (λ (r : HostRecord). (join (l ∷ ls), os.inet_ntop r.address)) rs)
        × ((q : ℕ) → u.heap q ≡ put s.heap s.next (some plain) q)
        × (u.is_open sockfd ≡ false)
  commit-serve_event fuel sockfd i0 i1 f0 f1 l ls rs s opened fresh labels name hosts many few sent
        fits =
      let (bytes, ret, e, _, _) =
        commit-join os memory copies (λ w. room w 0) sockfd l ls result_callback s opened labels
          (omega (arith, name.fits)) in
      let t : Client World =
        registered os sockfd result_callback (record s { world = (os.socket s.world).1 }) bytes in
      let a : EpArg = record { sockfd = sockfd; cb = result_callback } in
      let list : List DnsItem = map (found os.inet_ntop (join (l ∷ ls))) rs in
      let (u, served, is) =
        serve_event-Served os fuel (s.next + 1) a t (pos (length rs)) (some list) (map line_of list)
          (ground arith) (λ q above. ground (arith, fresh q))
          (reply-found fuel sockfd i0 i1 f0 f1 l ls rs t.world name hosts many few (sent t.world)
            fits)
          (result_callback-lines_of (some list) (pos (length rs))
            (ap pos (sym (length-map rs (found os.inet_ntop (join (l ∷ ls))))))) in
      (
        ret,
        t,
        u,
        e,
        served,
        is.printed
            ∙ ap (λ (x : List (Bytes × Bytes)). s.printed ++ x)
                (map-found os.inet_ntop (join (l ∷ ls)) rs),
        (λ q. ground (arith, is.heap q, fresh (s.next + 1))),
        ground (arith, is.is_open),
      )
