-- ===== src/Thread/Accept.antt =====
-- 2.1.1-multi-io/multi-io.c with MULTI_PTHREAD, and 2.3.1-Coroutine/hook-pthread.c: the loop of `main`
-- that starts a thread for each client, and the threads' first statement. They share one variable:
-- `clientfd` of the loop's block, which has the same place on the stack in every round, and whose
-- address every thread gets. Accept/Prompt is about threads that read it at once, Accept/Lost about
-- one that does not.
pub mod Prompt
pub mod Lost
mod Tests
use networking_programming.Base.{
  ℕ, zero, suc, Bool, true, false, if◌then◌else◌, ◌≡◌, Option, none, some, List, [], ◌∷◌, ◌++◌,
  get_elem?,
}
use networking_programming.Base.Int.{ℤ}

-- Where a thread stands: before it has read `*(int*)arg`, or behind it, with what it has read.
pub data Progress : Type 0 where
  starting : Progress
  serving : ℤ → Progress

-- Where `main` stands: before `accept`, or before `pthread_create`.
pub data Place : Type 0 where
  accepting creating : Place

-- The variable, the threads in the order in which they were started, and the results of `accept`.
pub record Server : Type 0 where
  pub clientfd : ℤ
  pub place : Place
  pub threads : List Progress
  pub accepted : List ℤ

-- Thread number `i` becomes another.
unfoldable pub set_thread : List Progress → ℕ → Progress → List Progress
set_thread [] i p = []
set_thread (q ∷ threads) zero p = p ∷ threads
set_thread (q ∷ threads) (suc i) p = q ∷ set_thread threads i p

-- `int clientfd = accept(sockfd, …)`
unfoldable pub accept_client : ℤ → Server → Server
accept_client fd s = record s { clientfd = fd; place = creating; accepted = s.accepted ++ fd ∷ [] }

-- `pthread_create(&thid, NULL, client_thread, &clientfd)`, which may fail; nothing looks at what it
-- returns.
unfoldable pub create_thread : Bool → Server → Server
create_thread is_created s = record s {
  place = accepting;
  threads = if is_created then s.threads ++ starting ∷ [] else s.threads;
}

-- `int clientfd = *(int*)arg`
unfoldable pub read_arg : ℕ → Server → Server
unfolding set_thread
read_arg i s = record s { threads = set_thread s.threads i (serving s.clientfd) }

-- What can happen next.
pub data Step : Server → Server → Type 0 where
  accepts : {s : Server} → (fd : ℤ) → s.place ≡ accepting → Step s (accept_client fd s)
  creates :
      {s : Server} → (is_created : Bool) → s.place ≡ creating → Step s (create_thread is_created s)
  reads : {s : Server} → (i : ℕ) → get_elem? s.threads i ≡ some starting → Step s (read_arg i s)

-- Before the first `accept`, with whatever is in the variable.
abbrev pub at_start : ℤ → Server
at_start fd = record { clientfd = fd; place = accepting; threads = []; accepted = [] }

-- The same in hook-pthread.c, which has accepted a client before its loop.
abbrev pub hook_start : ℤ → ℤ → Server
hook_start fd first = record {
  clientfd = fd;
  place = accepting;
  threads = [];
  accepted = first ∷ [];
}

-- Some steps.
pub data Reach (s : Server) : Server → Type 0 where
  here : Reach s s
  next : {t u : Server} → Reach s t → Step t u → Reach s u
