-- ===== src/Select/Watch.antt =====
-- Which descriptors `multi-io.c` watches with `select`.
use networking_programming.Base.{
  ℕ, ◌+◌, ◌-◌, ◌≤◌, ◌<◌, ◌≡◌, ◌≢◌, refl, ◌∙◌, Bool, true, false, arith, Bool-cases, inl, inr,
}
use networking_programming.Base.Int.{pos, negsuc}
use networking_programming.Memory.{ok}
use networking_programming.Net.{Os, OsLaws}
use networking_programming.Select.{
  State, buffer_size, fd_setsize, fd_put, accepted, accept_client, select_round,
}
use networking_programming.Select.Scan.{Scanned, scan-Scanned}

-- Every watched descriptor is one that the loop comes to.
abbrev pub IsBounded : {W : Type 0} → State W → Type 0
IsBounded s = (j : ℕ) → s.rfds j ≡ true → j ≤ s.maxfd

-- `accept` gives a descriptor that the set has room for.
abbrev pub Arrives : (os : Os) → ℕ → State os.World → ℕ → Type 0
Arrives os sockfd s c = ((os.accept sockfd s.world).0 ≡ pos c) × (c < fd_setsize)

put_bounded :
    (rfds : ℕ → Bool) (c m : ℕ)
    → ((j : ℕ) → rfds j ≡ true → j ≤ m)
    → m ≤ c
    → (j : ℕ) → fd_put rfds c true j ≡ true
    → j ≤ c
put_bounded rfds c m bounded le j h = ground (arith, bounded j)

put_keeps : (rfds : ℕ → Bool) (c j : ℕ) → rfds j ≡ true → fd_put rfds c true j ≡ true
put_keeps rfds c j h = ground arith

module _ (os : Os) where
  open os use {World}

  -- The state after a client has been accepted.
  abbrev with_client : ℕ → State World → ℕ → State World
  with_client sockfd s c = record {
    rfds = fd_put s.rfds c true;
    maxfd = c;
    world = (os.accept sockfd s.world).1;
  }

  accept_client-Arrives :
      (sockfd : ℕ) (rset : ℕ → Bool) (s : State World) (c : ℕ)
      → rset sockfd ≡ true
      → Arrives os sockfd s c
      → accept_client os sockfd rset s ≡ ok (with_client sockfd s c)
  unfolding accept_client accepted
  accept_client-Arrives sockfd rset s c ready (e, lt) = rw (ready, e) (ground arith)

  accept_client_idle :
      (sockfd : ℕ) (rset : ℕ → Bool) (s : State World)
      → rset sockfd ≡ false
      → accept_client os sockfd rset s ≡ ok s
  unfolding accept_client
  accept_client_idle sockfd rset s idle = rw idle refl

  module _ (laws : OsLaws os)
      (alive : (fd n : ℕ) (w : World) (k : ℕ) → (os.recv fd n w).0 ≢ negsuc k)
      (short : (fd : ℕ) (w : World) → (os.recv fd buffer_size w).0 ≢ pos buffer_size) where
    round_from :
        (sockfd : ℕ) (rset : ℕ → Bool) (s s' : State World)
        → accept_client os sockfd rset s ≡ ok s'
        → (t : State World) × (select_round os sockfd rset s ≡ ok t)
          × Scanned (sockfd + 1) (sockfd + 1 + (s'.maxfd - sockfd)) rset s' t
    unfolding select_round
    round_from sockfd rset s s' e =
        let (t, runs, p) =
          scan-Scanned os laws alive short (s'.maxfd - sockfd) (sockfd + 1) rset s' in
        (t, rw e runs, p)

    Scanned-IsBounded :
        (i stop : ℕ) (rset : ℕ → Bool) (s t : State World)
        → IsBounded s
        → Scanned i stop rset s t
        → IsBounded t
    Scanned-IsBounded i stop rset s t bounded p j h =
        omega (arith, p.maxfd, bounded j (p.none_added j h))

    -- If no `recv` fails and none fills its array, every watched descriptor is at most `maxfd`, and a new client, if the
    -- listening socket is ready, gets a descriptor of at least `maxfd` and below FD_SETSIZE, the
    -- round ends without undefined behaviour, every watched descriptor is again at most `maxfd`,
    -- and those that were not ready are still watched.
    pub select_round-IsBounded :
        (sockfd : ℕ) (rset : ℕ → Bool) (s : State World)
        → IsBounded s
        → (rset sockfd ≡ true → (c : ℕ) × (s.maxfd ≤ c) × Arrives os sockfd s c)
        → (t : State World) × (select_round os sockfd rset s ≡ ok t)
          × IsBounded t
          × ((j : ℕ) → s.rfds j ≡ true → rset j ≡ false → t.rfds j ≡ true)
    select_round-IsBounded sockfd rset s bounded arrives = elim (Bool-cases (rset sockfd)) [
      | inl ready ↦
          let (c, le, here) = arrives ready in
          let (t, runs, p) =
            round_from sockfd rset s (with_client sockfd s c)
              (accept_client-Arrives sockfd rset s c ready here) in
          (
            t,
            runs,
            Scanned-IsBounded _ _ rset (with_client sockfd s c) t
                (put_bounded s.rfds c s.maxfd bounded le) p,
            λ j h idle. p.not_ready j idle ∙ put_keeps s.rfds c j h,
          )
      | inr idle ↦
          let (t, runs, p) = round_from sockfd rset s s (accept_client_idle sockfd rset s idle) in
          (t, runs, Scanned-IsBounded _ _ rset s t bounded p, λ j h calm. p.not_ready j calm ∙ h)
    ]

    -- If no `recv` fails and none fills its array and a new client gets a descriptor `c` above the listening one and below a
    -- watched descriptor `j`, the round ends with `j` still watched, and above `maxfd`.
    pub select_round_forgets :
        (sockfd : ℕ) (rset : ℕ → Bool) (s : State World) (c j : ℕ)
        → rset sockfd ≡ true
        → Arrives os sockfd s c
        → sockfd < c
        → c < j
        → s.rfds j ≡ true
        → (t : State World) × (select_round os sockfd rset s ≡ ok t)
          × (t.rfds j ≡ true)
          × (t.maxfd < j)
    select_round_forgets sockfd rset s c j ready here above lt watched =
        let (t, runs, p) =
          round_from sockfd rset s (with_client sockfd s c)
            (accept_client-Arrives sockfd rset s c ready here) in
        (t, runs, p.above j (omega arith) ∙ put_keeps s.rfds c j watched, omega (arith, p.maxfd))
