-- ===== src/Peer.antt =====
-- 2.1.1-multi-io/P2P_P1.c: one of two peers that connect to each other's port, with a thread that sends
-- what is typed and a loop that receives. Peer/Runs is about the loops.
pub mod Runs
mod Tests
use networking_programming.Base.{
  ℕ, zero, suc, ◌+◌, ◌%◌, ◌^◌, Bool, true, false, Option, none, some, List, [], ◌∷◌, ◌++◌,
  replicate, ◌==◌, if◌then◌else◌,
}
use networking_programming.Base.Int.{ℤ, pos, negsuc}
use networking_programming.Base.Words.{htons}
use networking_programming.Memory.{Bytes, Outcome, ok, fault, timeout, ◌>>=◌, patch, cstr}
use networking_programming.Memory.Text.{codes, print_text}
use networking_programming.Net.{is_error}
use networking_programming.Load.{is_text}

-- The calls, on a state of the system. A descriptor may be -1. `bind` and `connect` are given
-- `sin_port`; `poll` gives whether POLLIN is set for the one descriptor of its array.
pub record Calls : Type 1 where
  pub World : Type 0
  pub socket : World → ℤ × World
  pub bind : ℤ → ℕ → World → ℤ × World
  pub connect : ℤ → ℕ → World → ℤ × World
  pub poll : ℤ → World → Bool × World
  pub send : ℤ → Bytes → World → ℤ × World
  pub recv : ℤ → ℕ → World → ℤ × Bytes × World
  pub close : ℤ → World → World

-- The port in the order of the network. A `short` has the low 16 bits of an `int`.
abbrev pub sin_port_of : ℕ → ℕ
sin_port_of port = htons (port % 2 ^ 16)

-- The length of each `buffer`.
abbrev pub buffer_len : ℕ
buffer_len = 128

-- `if (ret)`
abbrev pub is_nonzero : ℤ → Bool
is_nonzero (pos zero) = false
is_nonzero (pos (suc n)) = true
is_nonzero (negsuc n) = true

module _ (calls : Calls) where
  open calls use {World}

  -- `bind_localaddr`, which does not look at its address.
  unfoldable pub bind_localaddr : Bytes → ℕ → World → ℤ × World
  bind_localaddr ip port w =
      let (connfd, w1) = calls.socket w in
      let (ret, w2) = calls.bind connfd (sin_port_of port) w1 in
      if is_error ret then (negsuc 0, w2) else (connfd, w2)

  unfoldable pub connect_tcpserver : ℤ → ℕ → World → ℤ × World
  connect_tcpserver connfd port w =
      let (ret, w1) = calls.connect connfd (sin_port_of port) w in
      if is_nonzero ret then (negsuc 0, w1) else (connfd, w1)

  -- The first loop of `main`, on fuel.
  unfoldable pub connect_loop : ℕ → ℤ → ℕ → World → Outcome World
  connect_loop zero sockfd port w = timeout
  connect_loop (suc fuel) sockfd port w =
      let (ret, w1) = connect_tcpserver sockfd port w in
      let rest = connect_loop fuel sockfd port w1 in elim ret [ pos n ↦ ok w1 | negsuc n ↦ rest ]

  -- `client_thread`, on the words that are typed: whether it has ended, for a "quit". `scanf` writes
  -- a word of any length into `buffer`.
  unfoldable pub client_thread : ℤ → List Bytes → World → Outcome (Bool × World)
  client_thread clientfd [] w = ok (false, w)
  client_thread clientfd (word ∷ words) w =
      print_text (replicate buffer_len 0) word >>= λ (buffer, text).
      let rest = client_thread clientfd words (calls.send clientfd text w).1 in
      if is_text buffer (codes "quit") then ok (true, w) else rest

  -- What is done behind `recv`, and what follows. `printf` looks for the end of the text.
  unfoldable pub received : ℤ → ℤ → Bytes → World → Outcome World → Outcome World
  received sockfd (pos zero) bytes w rest = ok (calls.close sockfd w)
  received sockfd (pos (suc k)) bytes w rest =
      patch (replicate buffer_len 0) 0 bytes >>= λ buffer. cstr buffer >>= λ text. rest
  received sockfd (negsuc n) bytes w rest =
      patch (replicate buffer_len 0) 0 bytes >>= λ buffer. cstr buffer >>= λ text. rest

  -- The second loop of `main`, on fuel.
  unfoldable pub receive_loop : ℕ → ℤ → World → Outcome World
  receive_loop zero sockfd w = timeout
  receive_loop (suc fuel) sockfd w =
      let (is_ready, w1) = calls.poll sockfd w in
      let (count, bytes, w2) = calls.recv sockfd buffer_len w1 in
      let again = received sockfd count bytes w2 (receive_loop fuel sockfd w2) in
      let later = receive_loop fuel sockfd w1 in if is_ready then again else later

  -- `main` up to the threads: its socket, when it is connected.
  unfoldable pub start : ℕ → ℕ → World → Outcome (ℤ × World)
  start fuel port w =
      let (sockfd, w1) = bind_localaddr (codes "0.0.0.0") 8000 w in
      connect_loop fuel sockfd port w1 >>= λ w2. ok (sockfd, w2)
