-- ===== src/Poll/Same.antt =====
-- POLL_MODE and SELECT_MODE of multi-io.c on the same ready descriptors.
use networking_programming.Base.{
  ℕ, zero, suc, ◌+◌, ◌-◌, ◌≤◌, ◌<◌, ◌≡◌, refl, sym, ap, ◌∙◌, Bool, ltb, lt→ltb, ◌==◌, ==_iff,
  Bool-cases, inl, inr, arith, replicate,
}
use networking_programming.Base.Int.{ℤ, pos, negsuc}
use networking_programming.Memory.{Bytes, slice, patch, cstr}
use networking_programming.Memory.Agree.{Agree, Agree->>=, Agree-eq, Agree-if, Agree-weaken}
use networking_programming.Net.{Os}
use networking_programming.Select
use networking_programming.Select.{buffer_size, select_round}
use networking_programming.Poll.{
  PollFd, State, fds_len, accepted, accept_client, received, visit, scan, poll_round,
}
use networking_programming.Poll.Alike.{is_watched, is_watched-is_watched, Alike, Alert, world-Alert}

module _ (os : Os) where
  open os use {World}

  accepted-Alert :
      (rset : ℕ → Bool) (cnt : ℤ) (s : Select.State World) (t : State World)
      → Alert rset s t
      → Agree (Alert rset) (Select.accepted os cnt s) (accepted os cnt t)
  unfolding Select.accepted accepted
  accepted-Alert rset (negsuc n) s t same = tt
  accepted-Alert rset (pos c) s t (same, ready) = elim (Bool-cases (ltb c 1024)) [
    | inl fits ↦ rw fits (
      record {
        world = same.world;
        maxfd = refl;
        range = ground arith;
        same_watch = λ j. elim (Bool-cases (c == j)) [
          | inl new ↦ rw new refl
          | inr old ↦ rw old (same.same_watch j)
        ];
        named = λ j e. elim (Bool-cases (c == j)) [
          | inl new ↦ rw new (ap pos ((==_iff c j).0 new))
          | inr old ↦ rw old (same.named j (rw old at e))
        ];
      },
      λ j. elim (Bool-cases (c == j)) [
        | inl new ↦ rw (new, (==_iff c j).0 new) (ready j)
        | inr old ↦ rw old (ready j)
      ],
    )
    | inr big ↦ rw big tt
  ]

  accept_client-Alert :
      (sockfd : ℕ) (rset : ℕ → Bool) (s : Select.State World) (t : State World)
      → sockfd < fds_len
      → Alert rset s t
      → Agree (Alert rset) (Select.accept_client os sockfd rset s) (accept_client os sockfd t)
  unfolding Select.accept_client accept_client
  accept_client-Alert sockfd rset s t low (same, ready) =
      rw (lt→ltb sockfd fds_len low, ready sockfd, same.world)
        (Agree-if (Alert rset) (t.fds sockfd).revents _ _ _ _
          (accepted-Alert rset (os.accept sockfd t.world).0 _ _
            (world-Alert _ _ (same, ready) refl))
          (world-Alert _ _ (same, ready) refl))

  received-Alert :
      (i : ℕ) (rset : ℕ → Bool) (cnt : ℤ) (bytes : Bytes) (s : Select.State World) (t : State World)
      → Alert rset s t
      → Agree (Alert rset) (Select.received os i cnt bytes s) (received os i cnt bytes t)
  unfolding Select.received received
  received-Alert i rset (negsuc n) bytes s t same = tt
  received-Alert i rset (pos zero) bytes s t (same, ready) = (
    record {
      world = rw same.world refl;
      maxfd = same.maxfd;
      range = same.range;
      same_watch = λ j. elim (Bool-cases (i == j)) [
        | inl gone ↦ rw gone refl
        | inr other ↦ rw other (same.same_watch j)
      ];
      named = λ j e. elim (Bool-cases (i == j)) [
        | inl gone ↦ cc (rw gone at e)
        | inr other ↦ rw other (same.named j (rw other at e))
      ];
    },
    λ j. elim (Bool-cases (i == j)) [
      | inl gone ↦ rw (gone, (==_iff i j).0 gone) (ready j)
      | inr other ↦ rw other (ready j)
    ],
  )
  received-Alert i rset (pos (suc k)) bytes s t same =
      Agree-eq (Alert rset) (patch (replicate buffer_size 0) 0 bytes) _ _ _ refl λ buffer e.
        Agree-eq (Alert rset) (slice buffer 0 (suc k)) _ _ _ refl λ message e'.
          Agree-eq (Alert rset) (cstr buffer) _ _ _ refl
            λ text e''. world-Alert _ _ same (rw same.0.world refl)

  visit-Alert :
      (i : ℕ) (rset : ℕ → Bool) (s : Select.State World) (t : State World)
      → i < fds_len
      → Alert rset s t
      → Agree (Alert rset) (Select.visit os i rset s) (visit os i t)
  unfolding Select.visit visit
  visit-Alert i rset s t low (same, ready) =
      rw (lt→ltb i fds_len low, ready i, same.world)
        (Agree-if (Alert rset) (t.fds i).revents _ _ _ _
          (received-Alert i rset (os.recv i buffer_size t.world).0 (os.recv i buffer_size t.world).1
            _ _ (world-Alert _ _ (same, ready) refl))
          (world-Alert _ _ (same, ready) refl))

  scan-Alert :
      (left i : ℕ) (rset : ℕ → Bool) (s : Select.State World) (t : State World)
      → i + left ≤ fds_len
      → Alert rset s t
      → Agree (Alert rset) (Select.scan os left i rset s) (scan os left i t)
  unfolding Select.scan scan
  scan-Alert zero i rset s t low same = same
  scan-Alert (suc left) i rset s t low same =
      Agree->>= {R = Alert rset} (Alert rset) _ _ _ _ (visit-Alert i rset s t (omega arith) same)
        λ s' t' same'. scan-Alert left (i + 1) rset s' t' (omega arith) same'

  scan_all-Alert :
      (sockfd : ℕ) (rset : ℕ → Bool) (s : Select.State World) (t : State World)
      → sockfd < fds_len
      → Alert rset s t
      → Agree
          (Alert rset)
          (Select.scan os (s.maxfd - sockfd) (sockfd + 1) rset s)
          (scan os (t.maxfd - sockfd) (sockfd + 1) t)
  scan_all-Alert sockfd rset s t low (same, ready) =
      let range : t.maxfd < 1024 = same.range in
      let e : s.maxfd - sockfd ≡ t.maxfd - sockfd = ap (λ (n : ℕ). n - sockfd) same.maxfd in
      rw e (scan-Alert (t.maxfd - sockfd) (sockfd + 1) rset s t (omega arith) (same, ready))

  -- If both servers watch the same descriptors, and `poll` changes nothing but `revents`, then a
  -- round of SELECT_MODE in which `select` finds the descriptors ready that `poll` does, behind a
  -- call with the same effect on the system, agrees with a round of POLL_MODE, whatever the other
  -- calls return, if the listening socket has a descriptor below 1024: both rounds come to
  -- undefined behaviour, or both end with the same calls behind them and the same descriptors
  -- watched.
  pub poll_round-Agree :
      (poll : (ℕ → PollFd) → ℕ → World → (ℕ → PollFd) × World)
      → ((fds : ℕ → PollFd) (n : ℕ) (w : World) (j : ℕ)
          → (((poll fds n w).0 j).fd ≡ (fds j).fd) × (((poll fds n w).0 j).events ≡ (fds j).events))
      → (sockfd : ℕ) (s : Select.State World) (t : State World) → sockfd < fds_len
      → Alike s t
      → Agree Alike
          (select_round os sockfd
            (λ j. ((poll t.fds (t.maxfd + 1) t.world).0 j).revents)
            (record s { world = (poll t.fds (t.maxfd + 1) t.world).1 }))
          (poll_round os poll sockfd t)
  unfolding select_round poll_round
  poll_round-Agree poll keeps sockfd s t low same =
      Agree-weaken {R = Alert rset} {S = Alike} _ _
        (Agree->>= {R = Alert rset} (Alert rset) _ _ _ _
          (accept_client-Alert sockfd rset _ _ low (polled, λ j. refl))
          λ s' t' same'. scan_all-Alert sockfd rset s' t' low same')
        λ s' t' is. is.0
    where
      rset : ℕ → Bool
      rset j = ((poll t.fds (t.maxfd + 1) t.world).0 j).revents

      watched : (j : ℕ) → is_watched (t.fds j) ≡ is_watched ((poll t.fds (t.maxfd + 1) t.world).0 j)
      watched j =
          let (f, e) = keeps t.fds (t.maxfd + 1) t.world j in
          sym (is_watched-is_watched ((poll t.fds (t.maxfd + 1) t.world).0 j) (t.fds j) f e)

      polled :
          Alike
            (record s { world = (poll t.fds (t.maxfd + 1) t.world).1 })
            (record t {
              fds = (poll t.fds (t.maxfd + 1) t.world).0;
              world = (poll t.fds (t.maxfd + 1) t.world).1;
            })
      polled = record {
        world = refl;
        maxfd = same.maxfd;
        range = same.range;
        same_watch = λ j. same.same_watch j ∙ watched j;
        named = λ j is.
            let (f, e) = keeps t.fds (t.maxfd + 1) t.world j in f ∙ same.named j (watched j ∙ is);
      }
