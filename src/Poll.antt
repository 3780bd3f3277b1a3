-- ===== src/Poll.antt =====
-- 2.1.1-multi-io/multi-io.c, compiled with POLL_MODE: the server of Select with an array of
-- `struct pollfd` in place of the set, which is compared with it in Poll/Same.
pub mod Alike
pub mod Same
mod Tests
use networking_programming.Base.{
  ℕ, zero, suc, ◌+◌, ◌-◌, Bool, true, false, replicate, ltb, ◌==◌, if◌then◌else◌,
}
use networking_programming.Base.Int.{ℤ, pos, negsuc}
use networking_programming.Base.Counting.{put}
use networking_programming.Memory.{Bytes, Outcome, ok, fault, ◌>>=◌, slice, patch, cstr}
use networking_programming.Net.{Os}
use networking_programming.Select.{buffer_size}

-- The length of `fds`.
abbrev pub fds_len : ℕ
fds_len = 1024

-- `struct pollfd`: whether POLLIN is in `events` and in `revents`.
pub record PollFd : Type 0 where
  pub fd : ℤ
  pub events : Bool
  pub revents : Bool

-- `fds`, `maxfd` and the system.
pub record State (World : Type 0) : Type 0 where
  pub fds : ℕ → PollFd
  pub maxfd : ℕ
  pub world : World

-- What the declaration of `fds` leaves in an entry.
abbrev pub zero_entry : PollFd
zero_entry = record { fd = pos 0; events = false; revents = false }

-- An entry whose descriptor is watched for POLLIN, with the same `revents`.
abbrev pub polling : PollFd → ℤ → PollFd
polling entry fd = record entry { fd = fd; events = true }

-- The state before the loop.
abbrev pub at_start : {W : Type 0} → ℕ → W → State W
at_start sockfd w = record {
  fds = put (λ fd. zero_entry) sockfd (polling zero_entry (pos sockfd));
  maxfd = sockfd;
  world = w;
}

module _ (os : Os) where
  open os use {World}

  -- The branch for a new client behind the call of `accept`, which returned the first argument.
  unfoldable pub accepted : ℤ → State World → Outcome (State World)
  accepted (negsuc n) s = fault
  accepted (pos clientfd) s =
      if ltb clientfd fds_len
      then ok (record s {
        fds = put s.fds clientfd (polling (s.fds clientfd) (pos clientfd));
        maxfd = clientfd;
      })
      else fault

  -- `if (fds[sockfd].revents & POLLIN)`
  unfoldable pub accept_client : ℕ → State World → Outcome (State World)
  accept_client sockfd s =
      let (clientfd, w) = os.accept sockfd s.world in
      let next =
        if (s.fds sockfd).revents then accepted clientfd (record s { world = w }) else ok s in
      if ltb sockfd fds_len then next else fault

  -- What is done with descriptor `i` behind the call of `recv`, which returned `cnt` and wrote
  -- `bytes`.
  unfoldable pub received : ℕ → ℤ → Bytes → State World → Outcome (State World)
  received i (negsuc n) bytes s = fault
  received i (pos zero) bytes s =
      ok (record s { fds = put s.fds i (polling (s.fds i) (negsuc 0)); world = os.close i s.world })
  received i (pos (suc k)) bytes s = patch (replicate buffer_size 0) 0 bytes >>= λ buffer.
      slice buffer 0 (suc k) >>= λ message.
      let (_, w) = os.send i message s.world in cstr buffer >>= λ text. ok (record s { world = w })

  -- `if (fds[i].revents & POLLIN)`
  unfoldable pub visit : ℕ → State World → Outcome (State World)
  visit i s =
      let (cnt, bytes, w) = os.recv i buffer_size s.world in
      let next =
        if (s.fds i).revents then received i cnt bytes (record s { world = w }) else ok s in
      if ltb i fds_len then next else fault

  -- `for (int i = sockfd + 1; i <= maxfd; i ++)`; the first argument is the number of rounds left.
  unfoldable pub scan : ℕ → ℕ → State World → Outcome (State World)
  scan zero i s = ok s
  scan (suc left) i s = visit i s >>= λ s'. scan left (i + 1) s'

  -- One round of `while (1)`. `poll` is given the array and the number of its entries to look at.
  unfoldable pub poll_round :
      ((ℕ → PollFd) → ℕ → World → (ℕ → PollFd) × World) → ℕ → State World → Outcome (State World)
  poll_round poll sockfd s =
      let (fds, w) = poll s.fds (s.maxfd + 1) s.world in
      accept_client sockfd (record s { fds = fds; world = w }) >>= λ s'.
      scan (s'.maxfd - sockfd) (sockfd + 1) s'
