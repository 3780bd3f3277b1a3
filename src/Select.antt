-- ===== src/Select.antt =====
-- 2.1.1-multi-io/multi-io.c, compiled with SELECT_MODE: a TCP echo server that watches a set of
-- descriptors with `select`. Select/Scan is about the loop over the ready descriptors, Select/Watch
-- about which descriptors are watched.
pub mod Scan
pub mod Watch
mod Tests
use networking_programming.Base.{
  ℕ, zero, suc, ◌+◌, ◌-◌, Bool, true, false, replicate, ltb, ◌==◌, if◌then◌else◌,
}
use networking_programming.Base.Int.{ℤ, pos, negsuc}
use networking_programming.Memory.{Bytes, Outcome, ok, fault, ◌>>=◌, slice, patch, cstr}
use networking_programming.Net.{Os}

-- `sizeof buffer`, and the number of descriptors that an `fd_set` has room for.
abbrev pub buffer_size : ℕ
buffer_size = 128

abbrev pub fd_setsize : ℕ
fd_setsize = 1024

-- `rfds`, `maxfd` and the system.
pub record State (World : Type 0) : Type 0 where
  pub rfds : ℕ → Bool
  pub maxfd : ℕ
  pub world : World

-- `FD_SET` and `FD_CLR`
abbrev pub fd_put : (ℕ → Bool) → ℕ → Bool → ℕ → Bool
fd_put rfds fd member j = if fd == j then member else rfds j

module _ (os : Os) where
  open os use {World}

  -- The branch for a new client behind the call of `accept`, which returned the first argument.
  -- `FD_SET` writes outside the set for a descriptor that it has no room for.
  unfoldable pub accepted : ℤ → State World → Outcome (State World)
  accepted (negsuc n) s = fault
  accepted (pos clientfd) s =
      if ltb clientfd fd_setsize
      then ok (record s { rfds = fd_put s.rfds clientfd true; maxfd = clientfd })
      else fault

  -- `if (FD_ISSET(sockfd, &rset))`
  unfoldable pub accept_client : ℕ → (ℕ → Bool) → State World → Outcome (State World)
  accept_client sockfd rset s =
      let (clientfd, w) = os.accept sockfd s.world in
      if rset sockfd then accepted clientfd (record s { world = w }) else ok s

  -- What is done with descriptor `i` behind the call of `recv`, which returned `cnt` and wrote
  -- `bytes`. A count of -1 becomes a `size_t` that `buffer` has no room for. `printf` looks for the end
  -- of the text in `buffer`, `cstr`.
  unfoldable pub received : ℕ → ℤ → Bytes → State World → Outcome (State World)
  received i (negsuc n) bytes s = fault
  received i (pos zero) bytes s =
      ok (record s { rfds = fd_put s.rfds i false; world = os.close i s.world })
  received i (pos (suc k)) bytes s = patch (replicate buffer_size 0) 0 bytes >>= λ buffer.
      slice buffer 0 (suc k) >>= λ message.
      let (_, w) = os.send i message s.world in cstr buffer >>= λ text. ok (record s { world = w })

  -- `if (FD_ISSET(i, &rset))`
  unfoldable pub visit : ℕ → (ℕ → Bool) → State World → Outcome (State World)
  visit i rset s =
      let (cnt, bytes, w) = os.recv i buffer_size s.world in
      if rset i then received i cnt bytes (record s { world = w }) else ok s

  -- `for (int i = sockfd + 1; i <= maxfd; i ++)`; the first argument is the number of rounds left.
  unfoldable pub scan : ℕ → ℕ → (ℕ → Bool) → State World → Outcome (State World)
  scan zero i rset s = ok s
  scan (suc left) i rset s = visit i rset s >>= λ s'. scan left (i + 1) rset s'

  -- One round of `while (1)`, on the set of ready descriptors that `select` leaves in `rset`.
  unfoldable pub select_round : ℕ → (ℕ → Bool) → State World → Outcome (State World)
  select_round sockfd rset s =
      accept_client sockfd rset s >>= λ s'. scan (s'.maxfd - sockfd) (sockfd + 1) rset s'
