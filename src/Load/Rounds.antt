-- ===== src/Load/Rounds.antt =====
-- Any number of rounds of the load generator.
use networking_programming.Base.{
  ℕ, zero, suc, ◌+◌, ◌%◌, ◌≤◌, ◌≡◌, refl, sym, ap, ◌∙◌, Option, none, some, List, [], ◌∷◌, ◌++◌,
  length, arith, replicate, le→leb, Bool-cases, inl, inr,
}
use networking_programming.Base.Int.{ℤ, pos}
use networking_programming.Memory.{ok}
use networking_programming.Memory.Laws.{length-splice}
use networking_programming.Memory.Text.{codes}
use networking_programming.Net.{EpollEvent}
use networking_programming.Load.{
  Calls, Load, max_buffer, max_epollsize, next_index, is_due, waited, look, finish, round, rounds,
  start,
}
use networking_programming.Load.Events.{IsRunning, IsBounded, alike, handle_all-IsRunning}
use networking_programming.Load.Opening.{OnSome, open_connection-IsRunning}

pub next_index-mod : (index n : ℕ) → index ≡ n % 20 → next_index index ≡ (n + 1) % 20
unfolding next_index
next_index-mod index n e = ground arith

module _ (calls : Calls) (bounded : IsBounded calls) where
  open calls use {World}

  waited-IsRunning :
      (sockfd : ℕ) (found : Option (List EpollEvent)) (n : ℕ) (s : Load World)
      → IsRunning n 0 s
      → ((es : List EpollEvent) (c : ℕ) → found ≡ some es → s.connections ≡ pos c → length es ≤ c)
      → n ≤ max_epollsize
      → (t : Load World) × (waited calls sockfd found s ≡ ok t) × IsRunning n 0 t
  unfolding waited
  waited-IsRunning sockfd none n s h given early = (s, refl, h)
  waited-IsRunning sockfd (some es) n s h given early =
      let low : length es ≤ h.count = given es h.count refl h.connections in
      let (t, e, k) = handle_all-IsRunning calls bounded sockfd es n s (record {
        count = h.count;
        connections = h.connections;
        low = low;
        high = h.high;
        rounds = omega (arith, h.rounds);
        index = h.index;
        going = h.going;
        room = h.room;
      }) in
      (t, rw (le→leb (length es) max_epollsize (omega (arith, h.rounds))) e, k)

  look-IsRunning :
      (epoll_fd : ℤ) (sockfd n : ℕ) (s : Load World)
      → IsRunning n 0 s
      → n ≤ max_epollsize
      → (t : Load World) × (look calls epoll_fd sockfd s ≡ ok t) × IsRunning n 0 t
  unfolding look
  look-IsRunning epoll_fd sockfd n s h early = elim (Bool-cases (is_due s.connections)) [
    | inl due ↦
        let (t, e, k) =
          waited-IsRunning sockfd (calls.epoll_wait epoll_fd s.connections s.world).0 n
            (record s { world = (calls.epoll_wait epoll_fd s.connections s.world).1 })
            (alike calls bounded _ h (omega arith) refl refl h.going h.room)
            (λ es c e at.
              let asked : (calls.epoll_wait epoll_fd (pos c) s.world).0 ≡ some es =
                sym (ap (λ i. (calls.epoll_wait epoll_fd i s.world).0) at) ∙ e in
              bounded.by_wait epoll_fd c s.world es asked)
            early in
        (t, rw due e, k)
    | inr calm ↦ (s, rw calm refl, h)
  ]

  finish-IsRunning :
      (epoll_fd : ℤ) (n : ℕ) (found : Option (ℕ × Load World))
      → OnSome (λ (x : ℕ × Load World). IsRunning n 0 x.1) found
      → n ≤ max_epollsize
      → (r : Option (Load World)) × (finish calls epoll_fd found ≡ ok r) × OnSome (IsRunning n 0) r
  unfolding finish
  finish-IsRunning epoll_fd n none h early = (none, refl, tt)
  finish-IsRunning epoll_fd n (some (sockfd, s)) h early =
      let (t, e, k) = look-IsRunning epoll_fd sockfd n s h early in (some t, rw e refl, k)

  round-IsRunning :
      (epoll_fd : ℤ) (port n : ℕ) (s : Load World)
      → IsRunning n 0 s
      → n + 1 ≤ max_epollsize
      → (r : Option (Load World)) × (round calls epoll_fd port s ≡ ok r)
        × OnSome (IsRunning (n + 1) 0) r
  unfolding round
  round-IsRunning epoll_fd port n s h early =
      let (found, e, k) =
        open_connection-IsRunning calls bounded epoll_fd port (n + 1)
          (record s { index = next_index s.index })
          (record {
            count = h.count;
            connections = h.connections;
            low = h.low;
            high = h.high;
            rounds = omega (arith, h.rounds);
            index = next_index-mod s.index n h.index;
            going = h.going;
            room = h.room;
          })
          (omega (arith, h.rounds)) in
      let (r, e', k') = finish-IsRunning epoll_fd (n + 1) found k early in (r, rw e e', k')

  rounds-IsRunning :
      (epoll_fd : ℤ) (port n k : ℕ) (s : Load World)
      → IsRunning k 0 s
      → k + n ≤ max_epollsize
      → (r : Option (Load World)) × (rounds calls epoll_fd port n s ≡ ok r)
        × OnSome (IsRunning (k + n) 0) r
  unfolding rounds
  rounds-IsRunning epoll_fd port zero k s h early =
      (some s, refl, (let same : k ≡ k + 0 = omega arith in (rw same at h)))
  rounds-IsRunning epoll_fd port (suc n) k s h early =
      let (found, e, j) = round-IsRunning epoll_fd port k s h (omega arith) in
      let (r, e', j') =
        go found j (λ t h. rounds-IsRunning epoll_fd port n (k + 1) t h (omega arith)) in
      (r, rw e e', j')
    where
      go :
          (found : Option (Load World))
          → OnSome (IsRunning (k + 1) 0) found
          → ((t : Load World)
              → IsRunning (k + 1) 0 t
              → (r : Option (Load World)) × (rounds calls epoll_fd port n t ≡ ok r)
                × OnSome (IsRunning (k + 1 + n) 0) r)
          → (r : Option (Load World)) × ((elim found [
            | none ↦ ok none
            | some t ↦ rounds calls epoll_fd port n t
          ])
              ≡ ok r)
            × OnSome (IsRunning (k + suc n) 0) r
      go none h more = (none, refl, tt)
      go (some t) h more =
          let same : k + 1 + n ≡ k + suc n = omega arith in
          let (r, e, h') = more t h in (r, e, (rw same at h'))

  start-IsRunning : (w : World) → IsRunning 0 0 (start calls w).1
  unfolding start
  start-IsRunning w = record {
    count = 0;
    connections = refl;
    low = omega arith;
    high = omega arith;
    rounds = omega arith;
    index = refl;
    going = refl;
    room = length-splice (replicate max_buffer 0) 0 (codes " Data From MulClient\n" ++ 0 ∷ []);
  }

  -- If `recv` writes no more than it is asked for, and `epoll_wait` gives no more events than it is
  -- asked for, then up to 393216 rounds, as many as `events` has places, are run without undefined
  -- behaviour, or `main` returns in one of them. Behind `n` rounds the number of connections is at
  -- most `n` and 500000, `index` is `n` modulo 20, `isContinue` is still 0 and `buffer` has its 128
  -- bytes.
  pub rounds-Runs :
      (port n : ℕ) (w : World)
      → n ≤ max_epollsize
      → (r : Option (Load World)) × (rounds calls (start calls w).0 port n (start calls w).1 ≡ ok r)
        × OnSome (IsRunning n 0) r
  rounds-Runs port n w early =
      let all : 0 + n ≡ n = omega arith in
      let (r, e, h) =
        rounds-IsRunning (start calls w).0 port n 0 (start calls w).1 (start-IsRunning w)
          (omega arith) in
      (r, e, (rw all at h))
