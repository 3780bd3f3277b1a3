-- ===== src/Thread/Accept/Prompt.antt =====
-- Threads that all read the variable before the next client is accepted.
use networking_programming.Base.{
  ℕ, zero, suc, ◌≡◌, ◌≢◌, refl, ap, true, some, List, [], ◌∷◌, ◌++◌, map, get_elem?, All,
}
use networking_programming.Base.Int.{ℤ}
use networking_programming.Thread.Accept.{
  Progress, starting, serving, accepting, creating, Server, set_thread, accept_client,
  create_thread, read_arg, at_start,
}

abbrev HasRead : Progress → Type 0
HasRead p = p ≢ starting

-- What `main` and the threads do, if every thread is created, and has read the variable when the
-- next client is accepted.
pub data PromptReach (s : Server) : Server → Type 0 where
  here : PromptReach s s
  accepts :
      {t : Server}
      → (fd : ℤ) → PromptReach s t
      → t.place ≡ accepting
      → All HasRead t.threads
      → PromptReach s (accept_client fd t)
  creates :
      {t : Server} → PromptReach s t → t.place ≡ creating → PromptReach s (create_thread true t)
  reads :
      {t : Server}
      → (i : ℕ) → PromptReach s t
      → get_elem? t.threads i ≡ some starting
      → PromptReach s (read_arg i t)

-- The three situations: all clients have their threads; the last has none; its thread has not read.
data Served (t : Server) : Type 0 where
  all : t.place ≡ accepting → t.threads ≡ map serving t.accepted → Served t
  opened :
      (before : List ℤ)
      → t.place ≡ creating
      → t.accepted ≡ before ++ t.clientfd ∷ []
      → t.threads ≡ map serving before
      → Served t
  started :
      (before : List ℤ)
      → t.place ≡ accepting
      → t.accepted ≡ before ++ t.clientfd ∷ []
      → t.threads ≡ map serving before ++ starting ∷ []
      → Served t

none_starting : (fds : List ℤ) (i : ℕ) → get_elem? (map serving fds) i ≢ some starting
none_starting [] i e = cc
none_starting (fd ∷ fds) zero e = cc
none_starting (fd ∷ fds) (suc i) e = none_starting fds i e

not_HasRead : (fds : List ℤ) → ¬ All HasRead (map serving fds ++ starting ∷ [])
not_HasRead [] h = h.0 refl
not_HasRead (fd ∷ fds) h = not_HasRead fds h.1

-- The one thread that has not read reads.
last_reads :
    (fds : List ℤ) (fd : ℤ) (i : ℕ)
    → get_elem? (map serving fds ++ starting ∷ []) i ≡ some starting
    → set_thread (map serving fds ++ starting ∷ []) i (serving fd) ≡ map serving (fds ++ fd ∷ [])
unfolding set_thread
last_reads [] fd zero e = refl
last_reads [] fd (suc i) e = cc
last_reads (x ∷ fds) fd zero e = cc
last_reads (x ∷ fds) fd (suc i) e =
    ap (λ (l : List Progress). serving x ∷ l) (last_reads fds fd i e)

accept-Served :
    (fd : ℤ) (t : Server)
    → Served t
    → t.place ≡ accepting
    → All HasRead t.threads
    → Served (accept_client fd t)
unfolding accept_client
accept-Served fd t (all place threads) at read = opened t.accepted refl refl threads
accept-Served fd t (opened before place accepted threads) at read = cc
accept-Served fd t (started before place accepted threads) at read =
    absurd (not_HasRead before (rw threads at read))

create-Served : (t : Server) → Served t → t.place ≡ creating → Served (create_thread true t)
unfolding create_thread
create-Served t (all place threads) at = cc
create-Served t (opened before place accepted threads) at =
    started before refl accepted (ap (λ (l : List Progress). l ++ starting ∷ []) threads)
create-Served t (started before place accepted threads) at = cc

read-Served :
    (i : ℕ) (t : Server) → Served t → get_elem? t.threads i ≡ some starting → Served (read_arg i t)
unfolding read_arg
read-Served i t (all place threads) e = absurd (none_starting t.accepted i (rw threads at e))
read-Served i t (opened before place accepted threads) e =
    absurd (none_starting before i (rw threads at e))
read-Served i t (started before place accepted threads) e =
    all place (rw (threads, accepted) (last_reads before t.clientfd i (rw threads at e)))

reach-Served : (fd : ℤ) {t : Server} → PromptReach (at_start fd) t → Served t
reach-Served fd here = all refl refl
reach-Served fd (accepts c r at read) = accept-Served c _ (reach-Served fd r) at read
reach-Served fd (creates r at) = create-Served _ (reach-Served fd r) at
reach-Served fd (reads i r e) = read-Served i _ (reach-Served fd r) e

Served-threads :
    (t : Server)
    → Served t
    → t.place ≡ accepting
    → All HasRead t.threads
    → t.threads ≡ map serving t.accepted
Served-threads t (all place threads) at read = threads
Served-threads t (opened before place accepted threads) at read = cc
Served-threads t (started before place accepted threads) at read =
    absurd (not_HasRead before (rw threads at read))

-- If every thread is created, and has read the variable when the next client is accepted, then at any
-- time at which `main` is about to call `accept` and all threads have read, each client has a thread of
-- its own, in the order in which they were accepted.
pub PromptReach-threads :
    (fd : ℤ) {t : Server}
    → PromptReach (at_start fd) t
    → t.place ≡ accepting
    → All HasRead t.threads
    → t.threads ≡ map serving t.accepted
PromptReach-threads fd {t} reach at read = Served-threads t (reach-Served fd reach) at read
