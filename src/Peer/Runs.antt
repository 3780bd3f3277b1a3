-- ===== src/Peer/Runs.antt =====
-- How the loops of a peer end.
use networking_programming.Base.{
  ℕ, zero, suc, ◌-◌, append_assoc, length-append, ◌≤◌, ◌<◌, ◌≡◌, ◌≢◌, refl, sym, ap, ◌∙◌, true,
  false, List, [], ◌∷◌, ◌++◌, length, replicate, All, arith, ◌==◌, ==_iff, Bool-cases, inl, inr,
}
use networking_programming.Base.Int.{ℤ, pos, negsuc}
use networking_programming.Memory.{Bytes, ok, timeout, splice, overwrite}
use networking_programming.Memory.Laws.{patch-ok}
use networking_programming.Memory.Text.{codes, print_text, print_text-ok, splice_front, cstr-short}
use networking_programming.Load.{is_text}
use networking_programming.Peer.{
  Calls, sin_port_of, buffer_len, is_nonzero, bind_localaddr, connect_tcpserver, connect_loop,
  client_thread, received, receive_loop, start,
}

abbrev IsPlain : Bytes → Type 0
IsPlain text = All (λ c. c ≢ 0) text

no_test : false ≡ true → ⊥
no_test e = cc

-- An array that begins with a text and its NUL is no other text for `strcmp`.
is_text-eq :
    (word text rest : Bytes)
    → IsPlain word
    → IsPlain text
    → is_text (word ++ 0 ∷ rest) text ≡ true
    → word ≡ text
unfolding is_text
is_text-eq [] [] rest h k e = refl
is_text-eq [] (d ∷ text) rest h (hd, k) e = absurd (hd (ground (arith, e)))
is_text-eq (c ∷ word) [] rest (hc, h) k e = absurd (hc (ground (arith, e)))
is_text-eq (c ∷ word) (d ∷ text) rest (hc, h) (hd, k) e = elim (Bool-cases (c == d)) [
  | inl same ↦
      rw ((==_iff c d).0 same)
        (ap (λ (l : Bytes). d ∷ l) (is_text-eq word text rest h k (rw same at e)))
  | inr other ↦ absurd (no_test (rw other at e))
]

module _ (calls : Calls) where
  open calls use {World}

  module _ (fd port : ℕ) where
    -- That many attempts to connect are refused from the state `w` on, and the next leads to `v`.
    abbrev pub Refuses : ℕ → World → World → Type 0
    Refuses zero w v =
        ((calls.connect (pos fd) (sin_port_of port) w).0 ≡ pos 0)
        × ((calls.connect (pos fd) (sin_port_of port) w).1 ≡ v)
    Refuses (suc n) w v =
        (is_nonzero (calls.connect (pos fd) (sin_port_of port) w).0 ≡ true)
        × Refuses n (calls.connect (pos fd) (sin_port_of port) w).1 v

    connect_tcpserver-connect :
        (w : World)
        → (calls.connect (pos fd) (sin_port_of port) w).0 ≡ pos 0
        → connect_tcpserver calls (pos fd) port w
          ≡ (pos fd, (calls.connect (pos fd) (sin_port_of port) w).1)
    unfolding connect_tcpserver
    connect_tcpserver-connect w connects = rw connects refl

    connect_tcpserver_refused :
        (w : World)
        → is_nonzero (calls.connect (pos fd) (sin_port_of port) w).0 ≡ true
        → connect_tcpserver calls (pos fd) port w
          ≡ (negsuc 0, (calls.connect (pos fd) (sin_port_of port) w).1)
    unfolding connect_tcpserver
    connect_tcpserver_refused w refused = rw refused refl

    connect_loop-Refuses :
        (n fuel : ℕ) (w v : World)
        → n < fuel
        → Refuses n w v
        → connect_loop calls fuel (pos fd) port w ≡ ok v
    unfolding connect_loop
    connect_loop-Refuses n zero w v enough h = absurd (omega arith)
    connect_loop-Refuses zero (suc fuel) w v enough (connects, at) =
        rw
          (connect_loop, connect_tcpserver-connect w connects, connect_tcpserver-connect w connects)
          (ap ok at)
    connect_loop-Refuses (suc n) (suc fuel) w v enough (refused, h) =
        rw (connect_loop, connect_tcpserver_refused w refused, connect_tcpserver_refused w refused)
          (connect_loop-Refuses n fuel _ v (omega arith) h)

  -- Without a socket the loop goes on as long as it may.
  connect_loop_unbound :
      (fuel n port : ℕ) (w : World) → connect_loop calls fuel (negsuc n) port w ≡ timeout
  unfolding connect_loop connect_tcpserver
  connect_loop_unbound zero n port w = refl
  connect_loop_unbound (suc fuel) n port w =
      elim (Bool-cases (is_nonzero (calls.connect (negsuc n) (sin_port_of port) w).0)) [
        | inl refused ↦ rw (connect_loop, refused) (connect_loop_unbound fuel n port _)
        | inr accepted ↦ rw (connect_loop, accepted) (connect_loop_unbound fuel n port _)
      ]

  -- If port 8000 cannot be bound, `main` does not get past its first loop, however long it runs,
  -- whatever `connect` returns.
  pub start_unbound :
      (fuel port : ℕ) (w : World)
      → (calls.bind (calls.socket w).0 (sin_port_of 8000) (calls.socket w).1).0 ≡ negsuc 0
      → start calls fuel port w ≡ timeout
  unfolding start bind_localaddr
  start_unbound fuel port w taken = rw taken (rw (connect_loop_unbound fuel 0 port _) refl)

  -- If the socket is opened and bound to port 8000, and `n` attempts to connect are refused before
  -- one succeeds, the first loop of `main` ends after `n + 1` rounds.
  pub start-Refuses :
      (fd n fuel port : ℕ) (w v : World) (k : ℕ)
      → (calls.socket w).0 ≡ pos fd
      → (calls.bind (pos fd) (sin_port_of 8000) (calls.socket w).1).0 ≡ pos k
      → n < fuel
      → Refuses fd port n (calls.bind (pos fd) (sin_port_of 8000) (calls.socket w).1).1 v
      → start calls fuel port w ≡ ok (pos fd, v)
  unfolding start bind_localaddr
  start-Refuses fd n fuel port w v k opened bound enough h =
      rw (opened, bound) (rw (connect_loop-Refuses fd port n fuel _ v enough h) refl)

  -- The system when these texts have been sent.
  abbrev pub sent_all : ℤ → List Bytes → World → World
  sent_all fd [] w = w
  sent_all fd (text ∷ texts) w = sent_all fd texts (calls.send fd text w).1

  -- A word that `scanf` can read into `buffer`, other than "quit".
  abbrev pub IsWord : Bytes → Type 0
  IsWord word = (length word < buffer_len) × IsPlain word × (word ≢ codes "quit")

  word-sent :
      (word : Bytes)
      → IsWord word
      → (print_text (replicate buffer_len 0) word
          ≡ ok (splice (replicate buffer_len 0) 0 (word ++ 0 ∷ []), word))
        × (is_text (splice (replicate buffer_len 0) 0 (word ++ 0 ∷ [])) (codes "quit") ≡ false)
  word-sent word (fits, plain, other) = (
    print_text-ok (replicate buffer_len 0) word (omega arith) plain,
    elim (Bool-cases
        (is_text (splice (replicate buffer_len 0) 0 (word ++ 0 ∷ [])) (codes "quit"))) [
          | inl same ↦ absurd (
              other (
                is_text-eq word (codes "quit") (replicate (buffer_len - length (word ++ 0 ∷ [])) 0)
                  plain (omega arith)
                  (ap (λ (b : Bytes). is_text b (codes "quit")) (sym array) ∙ same)))
          | inr different ↦ different
        ],
  )
    where
      array :
          splice (replicate buffer_len 0) 0 (word ++ 0 ∷ [])
          ≡ word ++ 0 ∷ replicate (buffer_len - length (word ++ 0 ∷ [])) 0
      array =
          splice_front buffer_len (word ++ 0 ∷ []) (omega (arith, length-append word (0 ∷ [])))
          ∙ append_assoc word (0 ∷ []) (replicate (buffer_len - length (word ++ 0 ∷ [])) 0)

  -- If some words of less than 128 bytes, without a zero byte, none of them "quit", are typed
  -- before a "quit", the thread sends each of them whole, in order, ends at the "quit", and sends
  -- no more.
  pub client_thread-quit :
      (fd : ℤ) (words more : List Bytes) (w : World)
      → All IsWord words
      → client_thread calls fd (words ++ codes "quit" ∷ more) w ≡ ok (true, sent_all fd words w)
  unfolding client_thread
  client_thread-quit fd [] more w h =
      rw (print_text-ok (replicate buffer_len 0) (codes "quit") (omega arith) (omega arith))
        (unfold is_text splice overwrite in refl)
  client_thread-quit fd (word ∷ words) more w (is, h) =
      let (printed, other) = word-sent word is in
      rw (printed, other) (client_thread-quit fd words more (calls.send fd word w).1 h)

  -- What a peer hears from the state `w` on, in that many rounds: `poll` finds nothing, or there is a
  -- message of 1 to 127 bytes, until the other peer leaves; the system is at `v` when the socket has
  -- been closed.
  pub data Hears (fd : ℤ) : ℕ → World → World → Type 0 where
    leaves :
        {w : World}
        → (calls.poll fd w).0 ≡ true
        → (calls.recv fd buffer_len (calls.poll fd w).1).0 ≡ pos 0
        → Hears fd 1 w (calls.close fd (calls.recv fd buffer_len (calls.poll fd w).1).2)
    idles :
        {n : ℕ} {w v : World}
        → (calls.poll fd w).0 ≡ false
        → Hears fd n (calls.poll fd w).1 v
        → Hears fd (suc n) w v
    hears :
        {n : ℕ} {w v : World}
        → (k : ℕ) → (calls.poll fd w).0 ≡ true
        → (calls.recv fd buffer_len (calls.poll fd w).1).0 ≡ pos (suc k)
        → length (calls.recv fd buffer_len (calls.poll fd w).1).1 < buffer_len
        → Hears fd n (calls.recv fd buffer_len (calls.poll fd w).1).2 v
        → Hears fd (suc n) w v

  positive : {fd : ℤ} {n : ℕ} {w v : World} → Hears fd n w v → ¬ (n ≤ 0)
  positive (leaves ready left) few = omega arith
  positive (idles calm h) few = omega arith
  positive (hears k ready count short h) few = omega arith

  -- If the other peer's messages have 1 to 127 bytes, and then it leaves, the second loop of `main`
  -- closes the socket and ends, in as many rounds as `poll` is called.
  pub receive_loop-Hears :
      (fd : ℤ) (n fuel : ℕ) (w v : World)
      → n ≤ fuel
      → Hears fd n w v
      → receive_loop calls fuel fd w ≡ ok v
  unfolding receive_loop received
  receive_loop-Hears fd n zero w v enough h = absurd (positive h enough)
  receive_loop-Hears fd _ (suc fuel) w _ enough (leaves ready left) =
      rw (receive_loop, ready, left) refl
  receive_loop-Hears fd _ (suc fuel) w v enough (idles {n} calm h) =
      rw (receive_loop, calm) (receive_loop-Hears fd n fuel _ v (omega arith) h)
  receive_loop-Hears fd _ (suc fuel) w v enough (hears {n} k ready count short h) =
      let bytes : Bytes = (calls.recv fd buffer_len (calls.poll fd w).1).1 in
      let (text, printed) = cstr-short buffer_len bytes short in
      rw
        (
          receive_loop,
          ready,
          count,
          patch-ok (replicate buffer_len 0) 0 bytes (omega arith),
          printed,
        )
        (receive_loop-Hears fd n fuel _ v (omega arith) h)
