-- ===== src/Epoll.antt =====
-- 2.1.1-multi-io/multi-io.c, compiled with EPOLL_MODE. The program keeps nothing but its two
-- descriptors. Epoll/Index is about the descriptors that it answers on.
pub mod Index
mod Tests
use networking_programming.Base.{
  ℕ, zero, suc, ◌+◌, List, [], ◌∷◌, replicate, ◌==◌, if◌then◌else◌, none, some,
}
use networking_programming.Base.Int.{ℤ, pos, negsuc}
use networking_programming.Memory.{Bytes, Outcome, ok, fault, ◌>>=◌, slice, patch, cstr}
use networking_programming.Net.{Os, add, del, epollin, EpollEvent}
use networking_programming.Select.{buffer_size}

module _ (os : Os) where
  open os use {World}

  -- The branch for a new client behind the call of `accept`. `epoll_ctl` refuses the descriptor -1.
  unfoldable pub accepted : ℤ → World → World
  accepted (pos clientfd) w = (os.epoll_ctl add clientfd (some epollin) w).1
  accepted (negsuc n) w = w

  -- The other branch for event number `i`, behind the call of `recv`.
  unfoldable pub received : ℕ → ℕ → ℤ → Bytes → World → Outcome World
  received i connfd (negsuc n) bytes w = fault
  received i connfd (pos zero) bytes w = ok (os.close i (os.epoll_ctl del connfd none w).1)
  received i connfd (pos (suc k)) bytes w = patch (replicate buffer_size 0) 0 bytes >>= λ buffer.
      slice buffer 0 (suc k) >>= λ message.
      let (_, w') = os.send i message w in cstr buffer >>= λ text. ok w'

  -- One round of the loop over the events.
  unfoldable pub handle : ℕ → ℕ → EpollEvent → World → Outcome World
  handle sockfd i e w =
      let (clientfd, w1) = os.accept sockfd w in
      let (cnt, bytes, w2) = os.recv e.fd buffer_size w in
      if sockfd == e.fd
      then ok (accepted clientfd w1)
      else if e.readable
      then received i e.fd cnt bytes w2
      else ok w

  -- `for (int i = 0; i < nready; i ++)` from event number `i` on.
  unfoldable pub epoll_round : ℕ → ℕ → List EpollEvent → World → Outcome World
  epoll_round sockfd i [] w = ok w
  epoll_round sockfd i (e ∷ es) w = handle sockfd i e w >>= epoll_round sockfd (i + 1) es
