-- ===== src/Net.antt =====
-- The socket and epoll calls of the operating system that the servers of 2.1.1-multi-io make, as an
-- interface over a state of the system that the programs do not look into.
pub mod Systems
use networking_programming.Base.{
  ℕ, zero, suc, true, false, ◌≤◌, ◌≡◌, Bool, Option, none, some, List, [],
}
use networking_programming.Base.Int.{ℤ, pos, negsuc}
use networking_programming.Base.{length}
use networking_programming.Memory.{Bytes}

-- EPOLL_CTL_ADD, EPOLL_CTL_MOD, EPOLL_CTL_DEL
pub data CtlOp : Type 0 where
  add mod_event del : CtlOp

-- The sets of events that the programs ask for.
pub data Interest : Type 0 where
  epollin epollout : Interest

-- What the calls return: a number that is negative on failure, and what `recv` writes into its
-- buffer.
pub record Os : Type 1 where
  pub World : Type 0
  pub accept : ℕ → World → ℤ × World
  pub recv : ℕ → ℕ → World → ℤ × Bytes × World
  pub send : ℕ → Bytes → World → ℤ × World
  pub epoll_ctl : CtlOp → ℕ → Option Interest → World → ℤ × World
  pub close : ℕ → World → World

-- Documented of `recv`: it returns -1 and writes nothing, or the number of bytes that it writes,
-- which is at most the number asked for.
pub record OsLaws (os : Os) : Type 0 where
  pub recv_count :
      (fd n : ℕ) (w : os.World) (k : ℕ)
      → (os.recv fd n w).0 ≡ pos k
      → (length (os.recv fd n w).1 ≡ k) × (k ≤ n)
  pub recv_failure :
      (fd n : ℕ) (w : os.World) (k : ℕ) → (os.recv fd n w).0 ≡ negsuc k → (os.recv fd n w).1 ≡ []

-- An entry of the array that `epoll_wait` fills: the descriptor, and whether EPOLLIN and EPOLLOUT
-- are set.
pub record EpollEvent : Type 0 where
  pub fd : ℕ
  pub readable : Bool
  pub writable : Bool

-- `-1 == r`, the test for a call that has failed.
abbrev pub is_error : ℤ → Bool
is_error (negsuc zero) = true
is_error (negsuc (suc n)) = false
is_error (pos n) = false
