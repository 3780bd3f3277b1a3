-- ===== src/Dns/Client/Proc.antt =====
-- The loop of `dns_async_client_proc` over the results of `epoll_wait`.
use networking_programming.Base.{ℕ, ◌≡◌, refl, Bool, true, false, Option, List, [], ◌∷◌}
use networking_programming.Base.Int.{ℤ}
use networking_programming.Base.Counting.{put}
use networking_programming.Memory.{ok}
use networking_programming.Dns.Response.{DnsItem}
use networking_programming.Dns.Client.{
  Client, Udp, reply, serve_events, proc, Waited, again, broken, ready,
}
use networking_programming.Dns.Client.Owned.{IsOwned}
use networking_programming.Dns.Client.Steps.{serve_event-IsOwned, step-IsOwned}

module _ (os : Udp) (fuel : ℕ) where
  open os use {World}

  -- Those that are left to serve behind a batch, and behind the results of `epoll_wait`.
  abbrev pub remaining : (ℕ → Bool) → List ℕ → ℕ → Bool
  remaining pending [] = pending
  remaining pending (p ∷ ps) = remaining (put pending p false) ps

  -- Every event is for a pointer that epoll holds when its turn comes.
  abbrev pub AllPending : (ℕ → Bool) → List ℕ → Type 0
  AllPending pending [] = Unit
  AllPending pending (p ∷ ps) = (pending p ≡ true) × AllPending (put pending p false) ps

  abbrev pub AllWaited : (ℕ → Bool) → List Waited → Type 0
  AllWaited pending [] = Unit
  AllWaited pending (again ∷ waits) = AllWaited pending waits
  AllWaited pending (broken ∷ waits) = Unit
  AllWaited pending (ready ps ∷ waits) =
      AllPending pending ps × AllWaited (remaining pending ps) waits

  module _
      (read : (sockfd : ℕ) (w : World)
        → (r : ℤ × Option (List DnsItem)) × (reply os fuel sockfd w ≡ ok r)) where
    serve_events-IsOwned :
        (ps : List ℕ) (pending : ℕ → Bool) (s : Client World)
        → IsOwned pending s
        → AllPending pending ps
        → (t : Client World) × (serve_events os fuel ps s ≡ ok t) × IsOwned (remaining pending ps) t
    unfolding serve_events
    serve_events-IsOwned [] pending s owned all = (s, refl, owned)
    serve_events-IsOwned (p ∷ ps) pending s owned (held, all) =
        let (a, at, is, opened) = owned.arg p held in
        let ((count, list), r) = read a.sockfd s.world in
        let (u, e, served) = serve_event-IsOwned os fuel pending p a s count list owned at is r in
        let (t, e', rest) =
          serve_events-IsOwned ps (put pending p false) u
            (step-IsOwned os fuel pending p s u owned held e) all in
        (t, rw e e', rest)

    -- From a state in which every pointer that epoll holds has its own `ep_arg` and open socket,
    -- if every message is read without undefined behaviour, and every event is for a pointer that
    -- epoll holds when its turn comes, the thread serves all of them without undefined behaviour.
    pub proc-Returns :
        (waits : List Waited) (pending : ℕ → Bool) (s : Client World)
        → IsOwned pending s
        → AllWaited pending waits
        → (t : Client World) × (proc os fuel waits s ≡ ok t)
    unfolding proc
    proc-Returns [] pending s owned all = (s, refl)
    proc-Returns (again ∷ waits) pending s owned all = proc-Returns waits pending s owned all
    proc-Returns (broken ∷ waits) pending s owned all = (s, refl)
    proc-Returns (ready ps ∷ waits) pending s owned (now, later) =
        let (u, e, owned') = serve_events-IsOwned ps pending s owned now in
        let (t, e') = proc-Returns waits (remaining pending ps) u owned' later in (t, rw e e')
