-- ===== src/Thread.antt =====
-- 2.1.1-multi-io/multi-io.c, compiled with MULTI_PTHREAD: the thread of a client. Thread/Echo is
-- about a client that sends some messages and leaves, Thread/Accept about the loop that starts the
-- threads, Thread/Single about SINGLE_MODE.
pub mod Echo
pub mod Accept
pub mod Single
mod Tests
use networking_programming.Base.{ℕ, zero, suc, replicate}
use networking_programming.Base.Int.{ℤ, pos, negsuc}
use networking_programming.Memory.{Bytes, Outcome, ok, fault, timeout, ◌>>=◌, slice, patch, cstr}
use networking_programming.Net.{Os}
use networking_programming.Select.{buffer_size}

module _ (os : Os) where
  open os use {World}

  -- What is sent back of a message that `recv` returned with this count. `printf` looks for the end of
  -- the text in `buffer`, `cstr`.
  unfoldable pub echo : ℕ → ℕ → Bytes → World → Outcome World
  echo clientfd cnt bytes w = patch (replicate buffer_size 0) 0 bytes >>= λ buffer.
      slice buffer 0 cnt >>= λ message.
      let (_, w') = os.send clientfd message w in cstr buffer >>= λ text. ok w'

  -- A round behind the call of `recv`, and what follows. A count of -1 becomes a `size_t` that
  -- `buffer` has no room for.
  unfoldable pub answered : ℕ → ℤ → Bytes → World → (World → Outcome World) → Outcome World
  answered clientfd (negsuc n) bytes w rest = fault
  answered clientfd (pos zero) bytes w rest = ok (os.close clientfd w)
  answered clientfd (pos (suc k)) bytes w rest = echo clientfd (suc k) bytes w >>= rest

  -- `client_thread`; the first argument is the number of rounds.
  unfoldable pub client_thread : ℕ → ℕ → World → Outcome World
  client_thread zero clientfd w = timeout
  client_thread (suc fuel) clientfd w =
      let (cnt, bytes, w1) = os.recv clientfd buffer_size w in
      answered clientfd cnt bytes w1 (client_thread fuel clientfd)
