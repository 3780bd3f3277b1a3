-- ===== src/Thread/Single.antt =====
-- 2.1.1-multi-io/multi-io.c: the socket that all modes listen on, and SINGLE_MODE, which serves one
-- message of one client.
use networking_programming.Base.{
  ℕ, ◌<◌, ◌≡◌, refl, Option, none, some, length, replicate, length-replicate, arith, if◌then◌else◌,
}
use networking_programming.Base.Int.{ℤ, pos, negsuc}
use networking_programming.Base.Words.{htons}
use networking_programming.Memory.{Bytes, Outcome, ok, fault, ◌>>=◌, patch, slice, cstr, as_size}
use networking_programming.Memory.Laws.{patch-ok, slice-splice}
use networking_programming.Memory.Text.{cstr-short}
use networking_programming.Net.{Os, is_error}
use networking_programming.Select.{buffer_size}

module _ (os : Os) where
  open os use {World}

  -- The calls of the set-up; `bind` is given `sin_port`.
  module _ (socket : World → ℤ × World) (bind : ℤ → ℕ → World → ℤ × World)
      (listen : ℤ → ℕ → World → World) where
    -- The beginning of `main`; `none` if it returns.
    unfoldable pub open_server : World → Option ℤ × World
    open_server w =
        let (sockfd, w1) = socket w in
        let (ret, w2) = bind sockfd (htons 2048) w1 in
        if is_error ret then (none, w2) else (some sockfd, listen sockfd 10 w2)

  -- SINGLE_MODE behind `accept`. A count of -1, which there is also if `accept` fails, becomes a
  -- `size_t` that `buffer` has no room for.
  unfoldable pub serve_one : ℤ → World → Outcome World
  serve_one (negsuc n) w = fault
  serve_one (pos clientfd) w =
      let (cnt, bytes, w1) = os.recv clientfd buffer_size w in
      patch (replicate buffer_size 0) 0 bytes >>= λ buffer. cstr buffer >>= λ text.
      as_size cnt >>= λ count.
      slice buffer 0 count >>= λ message. ok (os.close clientfd (os.send clientfd message w1).1)

  unfoldable pub single_mode : ℕ → World → Outcome World
  single_mode sockfd w = let (clientfd, w1) = os.accept sockfd w in serve_one clientfd w1

  -- If `accept` gives a descriptor and the client's first message has less than 128 bytes, it is sent
  -- back whole, and the client's socket is closed.
  pub single_mode-echo :
      (sockfd clientfd : ℕ) (m : Bytes) (w : World)
      → (os.accept sockfd w).0 ≡ pos clientfd
      → (os.recv clientfd buffer_size (os.accept sockfd w).1).0 ≡ pos (length m)
      → (os.recv clientfd buffer_size (os.accept sockfd w).1).1 ≡ m
      → length m < buffer_size
      → single_mode sockfd w
        ≡ ok (
            os.close clientfd
              (os.send clientfd m (os.recv clientfd buffer_size (os.accept sockfd w).1).2).1)
  unfolding single_mode serve_one
  single_mode-echo sockfd clientfd m w accepted count bytes short =
      let room : length (replicate {A = ℕ} buffer_size 0) ≡ 128 =
        length-replicate {A = ℕ} buffer_size 0 in
      let (text, printed) = cstr-short buffer_size m short in
      rw
        (
          accepted,
          count,
          bytes,
          patch-ok (replicate buffer_size 0) 0 m (omega (arith, room)),
          printed,
          slice-splice (replicate buffer_size 0) m refl (omega (arith, room)),
        )
        refl
