-- ===== src/Thread/Accept/Lost.antt =====
-- A client that is accepted before the thread of the one before has read the variable.
use networking_programming.Base.{
  ℕ, zero, suc, ◌≡◌, ◌≢◌, ◌⊎◌, inl, inr, refl, ap, true, false, List, [], ◌∷◌, ◌++◌, All,
}
use networking_programming.Base.Int.{ℤ, pos}
use networking_programming.Thread.Accept.{
  Progress, starting, serving, Server, set_thread, accept_client, hook_start, accepting,
  create_thread, read_arg, Step, accepts, creates, reads, Reach, here, next, at_start,
}

-- Steps behind which the variable does not hold `fd`: no `accept` returns it.
pub data Without (fd : ℤ) (s : Server) : Server → Type 0 where
  stay : Without fd s s
  step : {t u : Server} → Without fd s t → Step t u → u.clientfd ≢ fd → Without fd s u

abbrev NoThread : ℤ → Server → Type 0
NoThread fd s = All (λ p. p ≢ serving fd) s.threads

set_thread-All :
    (fd : ℤ) (threads : List Progress) (i : ℕ) (p : Progress)
    → All (λ q. q ≢ serving fd) threads
    → p ≢ serving fd
    → All (λ q. q ≢ serving fd) (set_thread threads i p)
unfolding set_thread
set_thread-All fd [] i p h hp = tt
set_thread-All fd (q ∷ threads) zero p (hq, h) hp = (hp, h)
set_thread-All fd (q ∷ threads) (suc i) p (hq, h) hp = (hq, set_thread-All fd threads i p h hp)

abbrev client_of : Progress → ℤ
client_of starting = pos 0
client_of (serving fd) = fd

-- Threads of different clients differ.
other_thread : (b a : ℤ) → b ≢ a → serving b ≢ serving a
other_thread b a apart same = apart (ap client_of same)

one_more-All :
    (fd : ℤ) (threads : List Progress)
    → All (λ q. q ≢ serving fd) threads
    → All (λ q. q ≢ serving fd) (threads ++ starting ∷ [])
one_more-All fd [] h = ((λ e. cc), tt)
one_more-All fd (q ∷ threads) (hq, h) = (hq, one_more-All fd threads h)

Step-NoThread : (fd : ℤ) (t u : Server) → Step t u → t.clientfd ≢ fd → NoThread fd t → NoThread fd u
unfolding accept_client create_thread read_arg
Step-NoThread fd t _ (accepts c at) other h = h
Step-NoThread fd t _ (creates true at) other h = one_more-All fd t.threads h
Step-NoThread fd t _ (creates false at) other h = h
Step-NoThread fd t _ (reads i e) other h =
    set_thread-All fd t.threads i (serving t.clientfd) h (other_thread t.clientfd fd other)

Without-NoThread :
    (fd : ℤ) {s t : Server}
    → Without fd s t
    → s.clientfd ≢ fd
    → NoThread fd s
    → (t.clientfd ≢ fd) × NoThread fd t
Without-NoThread fd stay other h = (other, h)
Without-NoThread fd (step {t} {u} w e away) other h =
    let (o, k) = Without-NoThread fd w other h in (away, Step-NoThread fd t u e o k)

-- Both clients are accepted before the first thread reads.
abbrev raced : ℤ → ℤ → ℤ → Server
raced junk a b = read_arg 1 (
    read_arg 0
      (create_thread true (accept_client b (create_thread true (accept_client a (at_start junk))))))

-- For any two descriptors `a` and `b`, `main` can accept them one after the other, and both threads
-- serve `b`; from there on, as long as no `accept` returns `a` again, no thread ever serves `a`,
-- whatever the threads and `main` do.
pub raced-NoThread :
    (junk a b : ℤ)
    → b ≢ a
    → (s : Server) × Reach (at_start junk) s
      × (s.accepted ≡ a ∷ b ∷ [])
      × (s.threads ≡ serving b ∷ serving b ∷ [])
      × ((t : Server) → Without a s t → All (λ p. p ≢ serving a) t.threads)
unfolding accept_client create_thread read_arg set_thread
raced-NoThread junk a b apart = (
  raced junk a b,
  next
      (next
        (next (next (next (next here (accepts a refl)) (creates true refl)) (accepts b refl))
          (creates true refl))
        (reads 0 refl))
      (reads 1 refl),
  refl,
  refl,
  λ t w. (Without-NoThread a w apart (other_thread b a apart, (other_thread b a apart, tt))).1,
)

-- At the start no thread serves a client, and none can be created or can read before an `accept`.
first-NoThread :
    (fd junk : ℤ) (fds : List ℤ) {t : Server}
    → Without fd (record (at_start junk) { accepted = fds }) t
    → NoThread fd t × ((t.clientfd ≢ fd) ⊎ ((t.threads ≡ []) × (t.place ≡ accepting)))
unfolding accept_client
first-NoThread fd junk fds stay = (tt, inr (refl, refl))
first-NoThread fd junk fds (step {t} {u} w e away) =
    let (h, either) = first-NoThread fd junk fds w in
    elim either [
      | inl other ↦ (Step-NoThread fd t u e other h, inl away)
      | inr idle ↦ (first_step t u e idle.0 idle.1 h, inl away)
    ]
  where
    first_step :
        (t u : Server)
        → Step t u
        → t.threads ≡ []
        → t.place ≡ accepting
        → NoThread fd t
        → NoThread fd u
    first_step t _ (accepts c at) none_yet place h = h
    first_step t _ (creates b at) none_yet place h = cc
    first_step t _ (reads i at) none_yet place h = cc

-- The first `accept` of hook-pthread.c is before its loop, and its result stays in a variable of its own.
-- As long as no other `accept` returns `a` again, no thread ever serves `a`.
pub hook_start-NoThread :
    (junk a : ℤ) (t : Server) → Without a (hook_start junk a) t → All (λ p. p ≢ serving a) t.threads
hook_start-NoThread junk a t w = (first-NoThread a junk (a ∷ []) w).0
