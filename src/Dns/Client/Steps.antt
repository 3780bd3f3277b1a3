-- ===== src/Dns/Client/Steps.antt =====
-- The two threads of the client in any order: the one of `main` that commits queries, and the one
-- that serves the replies. They share the heap, the descriptors and epoll.
use networking_programming.Base.{
  ℕ, ◌≡◌, refl, sym, ◌∙◌, Bool, true, false, Option, none, some, List, ◌==◌, arith, Bool-cases, inl,
  inr, ==_iff,
}
use networking_programming.Base.Int.{ℤ, pos}
use networking_programming.Base.Counting.{put}
use networking_programming.Memory.{Bytes, Outcome, ok, fault, timeout}
use networking_programming.Dns.Response.{DnsItem}
use networking_programming.Dns.Client.{
  Client, ep_arg, EpArg, Udp, result_callback, commit, reply, serve_event, arg_at,
}
use networking_programming.Dns.Client.Free.{Fresh}
use networking_programming.Dns.Client.Serve.{
  Served, serve_event-Served, lines_of, reply-Consistent, result_callback-lines_of,
}
use networking_programming.Dns.Client.Owned.{IsOwned, watched, committed-IsOwned}

module _ (os : Udp) (fuel : ℕ) where
  open os use {World}

  -- A query for a domain, for which `socket` gives a descriptor that is not open, if it gives one; and
  -- a reply to a pointer that epoll holds.
  pub data Reach (s : Client World) : (ℕ → Bool) → Client World → Type 0 where
    here : Reach s (λ p. false) s
    asks :
        {pending : ℕ → Bool} {t u : Client World} (domain : Bytes) (ret : ℤ)
        → Reach s pending t
        → ((fd : ℕ) → (os.socket t.world).0 ≡ pos fd → t.is_open fd ≡ false)
        → commit os domain result_callback t ≡ ok (some (ret, u))
        → Reach s (watched ret u.next pending) u
    serves :
        {pending : ℕ → Bool} {t u : Client World} (p : ℕ)
        → Reach s pending t
        → pending p ≡ true
        → serve_event os fuel p t ≡ ok u
        → Reach s (put pending p false) u

  others :
      (pending : ℕ → Bool) (p q : ℕ)
      → put pending p false q ≡ true
      → ((p == q) ≡ false) × (pending q ≡ true)
  others pending p q held = elim (Bool-cases (p == q)) [
    | inl same ↦ absurd (false_true (rw same at held))
    | inr other ↦ (other, rw other at held)
  ]
    where
      false_true : false ≡ true → ⊥
      false_true e = cc

  other_heap :
      (p q : ℕ) (list : Option (List DnsItem)) (lines : List (Bytes × Bytes)) (fd : ℕ)
      (s t : Client World)
      → Served p fd list lines s t
      → (p == q) ≡ false
      → t.heap q ≡ s.heap q
  other_heap p q list lines fd s t served other = served.heap q ∙ (rw other refl)

  -- To serve a pointer takes it and its socket from the others.
  Served-IsOwned :
      (pending : ℕ → Bool) (p : ℕ) (a : EpArg) (list : Option (List DnsItem))
      (lines : List (Bytes × Bytes)) (s t : Client World)
      → IsOwned pending s
      → pending p ≡ true
      → s.heap p ≡ some (ep_arg a)
      → Served p a.sockfd list lines s t
      → IsOwned (put pending p false) t
  Served-IsOwned pending p a list lines s t owned held at served = record {
    fresh = λ q above.
        let free : s.heap q ≡ none = owned.fresh q (omega (arith, served.next)) in
        served.heap q ∙ (ground arith);
    arg = λ q later.
        let (other, was) = others pending p q later in
        let (b, atb, is, opened) = owned.arg q was in
        (
          b,
          other_heap p q list lines a.sockfd s t served other ∙ atb,
          is,
          rw served.is_open (elim (Bool-cases (a.sockfd == b.sockfd)) [
            | inl same ↦ absurd (
                differ p q other
                  (owned.apart p q a b held was at atb ((==_iff a.sockfd b.sockfd).0 same)))
            | inr apart ↦ rw apart opened
          ]),
        );
    apart = λ q r b c hq hr atq atr same.
        let (otherq, wasq) = others pending p q hq in
        let (otherr, wasr) = others pending p r hr in
        owned.apart q r b c wasq wasr
          (sym (other_heap p q list lines a.sockfd s t served otherq) ∙ atq)
          (sym (other_heap p r list lines a.sockfd s t served otherr) ∙ atr) same;
  }
    where
      differ : (p q : ℕ) → (p == q) ≡ false → p ≡ q → ⊥
      differ p q other same = ground arith

  -- A round that returns has read its message.
  serve_event-reply :
      (p : ℕ) (a : EpArg) (s t : Client World) (r : Outcome (ℤ × Option (List DnsItem)))
      → s.heap p ≡ some (ep_arg a)
      → reply os fuel a.sockfd s.world ≡ r
      → serve_event os fuel p s ≡ ok t
      → (x : ℤ × Option (List DnsItem)) × (r ≡ ok x)
  unfolding serve_event arg_at
  serve_event-reply p a s t (ok x) at read e = (x, refl)
  serve_event-reply p a s t fault at read e = cc (rw (at, read) at e)
  serve_event-reply p a s t timeout at read e = cc (rw (at, read) at e)

  -- What the invariant gives of a round.
  pub serve_event-IsOwned :
      (pending : ℕ → Bool) (p : ℕ) (a : EpArg) (s : Client World) (count : ℤ)
      (list : Option (List DnsItem))
      → IsOwned pending s
      → s.heap p ≡ some (ep_arg a)
      → a.cb ≡ result_callback
      → reply os fuel a.sockfd s.world ≡ ok (count, list)
      → (t : Client World) × (serve_event os fuel p s ≡ ok t)
        × Served p a.sockfd list (lines_of list) s t
  serve_event-IsOwned pending p a s count list owned at is read =
      serve_event-Served os fuel p a s count list (lines_of list) at owned.fresh read (
        rw is (
          result_callback-lines_of list count
            (reply-Consistent os fuel a.sockfd s.world count list read)))

  pub step-IsOwned :
      (pending : ℕ → Bool) (p : ℕ) (s t : Client World)
      → IsOwned pending s
      → pending p ≡ true
      → serve_event os fuel p s ≡ ok t
      → IsOwned (put pending p false) t
  step-IsOwned pending p s t owned held e =
      let (a, at, is, opened) = owned.arg p held in
      let ((count, list), read) =
        serve_event-reply p a s t (reply os fuel a.sockfd s.world) at refl e in
      let (u, e', served) = serve_event-IsOwned pending p a s count list owned at is read in
      let same : u ≡ t = cc in
      Served-IsOwned pending p a list (lines_of list) s t owned held at (rw same at served)

  commit-IsOwned :
      (pending : ℕ → Bool) (domain : Bytes) (ret : ℤ) (s t : Client World)
      → IsOwned pending s
      → ((fd : ℕ) → (os.socket s.world).0 ≡ pos fd → s.is_open fd ≡ false)
      → commit os domain result_callback s ≡ ok (some (ret, t))
      → IsOwned (watched ret t.next pending) t
  unfolding commit
  commit-IsOwned pending domain ret s t owned closed e =
      let known =
        committed-IsOwned os pending (os.socket s.world).0 domain
          (record s { world = (os.socket s.world).1 }) closed
          (record { fresh = owned.fresh; arg = owned.arg; apart = owned.apart }) in
      (rw e at known)

  -- From a start at which no block has a number that is still to come, after any commits and
  -- replies, in any order, every pointer that epoll holds is that of an `ep_arg` that is not freed,
  -- with the callback of `main`; its socket is open, and no other pointer's.
  pub Reach-IsOwned :
      {s : Client World} {pending : ℕ → Bool} {t : Client World}
      → Fresh s.next s.heap
      → Reach s pending t
      → IsOwned pending t
  Reach-IsOwned fresh here = record {
    fresh = fresh;
    arg = λ p held. absurd (no_pointer held);
    apart = λ p q a b hp hq atp atq same. absurd (no_pointer hp);
  }
    where
      no_pointer : false ≡ true → ⊥
      no_pointer e = cc
  Reach-IsOwned fresh (asks domain ret before closed e) =
      commit-IsOwned _ domain ret _ _ (Reach-IsOwned fresh before) closed e
  Reach-IsOwned fresh (serves p before held e) =
      step-IsOwned _ p _ _ (Reach-IsOwned fresh before) held e

  -- From a start at which no block has a number that is still to come, at any time, if the next
  -- message on the socket of a pointer that epoll holds is read without undefined behaviour, the
  -- round for that pointer has none either. It frees what it allocated and the `ep_arg`, each once,
  -- and no other block, closes the pointer's socket, and has printed the name and address of every
  -- item of the reply.
  pub Reach-Served :
      {s : Client World} {pending : ℕ → Bool} {t : Client World} (p : ℕ) (count : ℤ)
      (list : Option (List DnsItem))
      → Fresh s.next s.heap
      → Reach s pending t
      → pending p ≡ true
      → ((a : EpArg)
          → t.heap p ≡ some (ep_arg a)
          → reply os fuel a.sockfd t.world ≡ ok (count, list))
      → (a : EpArg) × (u : Client World) × (t.heap p ≡ some (ep_arg a))
        × (serve_event os fuel p t ≡ ok u)
        × Served p a.sockfd list (lines_of list) t u
  Reach-Served {s} {pending} {t} p count list fresh reach held read =
      let owned = Reach-IsOwned fresh reach in
      let (a, at, is, opened) = owned.arg p held in
      let (u, e, served) = serve_event-IsOwned pending p a t count list owned at is (read a at) in
      (a, u, at, e, served)
