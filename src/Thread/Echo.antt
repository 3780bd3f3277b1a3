-- ===== src/Thread/Echo.antt =====
-- A client that sends some messages and leaves.
use networking_programming.Base.{
  ℕ, zero, suc, ◌<◌, ◌≡◌, refl, ◌∙◌, List, [], ◌∷◌, length, replicate, length-replicate, arith,
}
use networking_programming.Base.Int.{pos}
use networking_programming.Memory.{Bytes, Outcome, ok}
use networking_programming.Memory.Laws.{patch-ok, slice-splice}
use networking_programming.Memory.Text.{cstr-short}
use networking_programming.Net.{Os}
use networking_programming.Select.{buffer_size}
use networking_programming.Thread.{echo, answered, client_thread}

module _ (os : Os) (clientfd : ℕ) where
  open os use {World}

  -- From the state `w` on, the client sends these messages, each when the one before has been sent
  -- back whole, and then leaves; the system is at `v` when its socket has been closed.
  abbrev pub Says : List Bytes → World → World → Type 0
  Says [] w v =
      ((os.recv clientfd buffer_size w).0 ≡ pos 0)
      × (os.close clientfd (os.recv clientfd buffer_size w).2 ≡ v)
  Says (m ∷ ms) w v =
      ((os.recv clientfd buffer_size w).0 ≡ pos (length m))
      × ((os.recv clientfd buffer_size w).1 ≡ m)
      × (0 < length m)
      × (length m < buffer_size)
      × Says ms (os.send clientfd m (os.recv clientfd buffer_size w).2).1 v

  echo-send :
      (m : Bytes) (w : World)
      → length m < buffer_size
      → echo os clientfd (length m) m w ≡ ok (os.send clientfd m w).1
  unfolding echo
  echo-send m w fits =
      let room : length (replicate {A = ℕ} buffer_size 0) ≡ 128 =
        length-replicate {A = ℕ} buffer_size 0 in
      let (text, printed) = cstr-short buffer_size m fits in
      rw
        (
          patch-ok (replicate buffer_size 0) 0 m (omega (arith, room)),
          slice-splice (replicate buffer_size 0) m refl (omega (arith, room)),
          printed,
        )
        refl

  answered-send :
      (m : Bytes) (w : World) (rest : World → Outcome World)
      → 0 < length m
      → length m < buffer_size
      → answered os clientfd (pos (length m)) m w rest ≡ rest (os.send clientfd m w).1
  unfolding answered
  answered-send [] w rest some_byte fits = absurd (omega arith)
  answered-send (c ∷ m) w rest some_byte fits = rw (echo-send (c ∷ m) w fits) refl

  -- If a client sends some messages of 1 to 127 bytes and leaves, its thread sends each of them
  -- back whole before it waits for the next, closes the socket and ends, in one round more than
  -- there are messages.
  pub client_thread-Says :
      (ms : List Bytes) (fuel : ℕ) (w v : World)
      → length ms < fuel
      → Says ms w v
      → client_thread os fuel clientfd w ≡ ok v
  unfolding client_thread answered
  client_thread-Says ms zero w v enough talk = absurd (omega arith)
  client_thread-Says [] (suc fuel) w v enough (left, closed) = rw (left, closed) refl
  client_thread-Says (m ∷ ms) (suc fuel) w v enough (count, bytes, some_byte, fits, talk) =
      rw (count, bytes)
        (answered-send m (os.recv clientfd buffer_size w).2 (client_thread os fuel clientfd)
          some_byte fits)
      ∙ client_thread-Says ms fuel _ v (omega arith) talk
