-- ===== src/Load/Events.antt =====
-- The events of a round of the load generator.
use networking_programming.Base.{
  ℕ, zero, suc, ◌-◌, ◌%◌, ◌≤◌, ◌≡◌, refl, ◌∙◌, Bool, true, false, some, List, [], ◌∷◌, ◌++◌, length,
  arith, replicate, Bool-cases, inl, inr, if◌then◌else◌,
}
use networking_programming.Base.Int.{ℤ, pos, negsuc, ◌+ℤ◌}
use networking_programming.Memory.{Bytes, ok, splice}
use networking_programming.Memory.Laws.{length-splice, patch-ok}
use networking_programming.Memory.Text.{codes}
use networking_programming.Net.{EpollEvent}
use networking_programming.Load.{
  Calls, Load, max_buffer, max_connections, data_text, received, handle, handle_all, is_text,
}
use networking_programming.Load.Hello.{print-data_text}

-- Behind `n` rounds, with at least `least` connections, and one for each round at most.
pub record IsRunning {W : Type 0} (n least : ℕ) (s : Load W) : Type 0 where
  pub count : ℕ
  pub connections : s.connections ≡ pos count
  pub low : least ≤ count
  pub high : count ≤ max_connections
  pub rounds : count ≤ n
  pub index : s.index ≡ n % 20
  pub going : s.is_continue ≡ false
  pub room : length s.buffer ≡ max_buffer

-- Documented of the calls: `recv` writes no more than it is asked for, and `epoll_wait` gives no
-- more events than it is asked for.
pub record IsBounded (calls : Calls) : Type 0 where
  pub by_recv : (fd n : ℕ) (w : calls.World) → length (calls.recv fd n w).1 ≤ n
  pub by_wait :
      (epoll_fd : ℤ) (n : ℕ) (w : calls.World) (es : List EpollEvent)
      → (calls.epoll_wait epoll_fd (pos n) w).0 ≡ some es
      → length es ≤ n

fewer : (i : ℤ) (n : ℕ) → i ≡ pos n → 1 ≤ n → i +ℤ negsuc 0 ≡ pos (n - 1)
unfolding ◌+ℤ◌
fewer i n e some_left = ground arith

module _ (calls : Calls) (bounded : IsBounded calls) where
  open calls use {World}

  if-IsRunning :
      (b : Bool) (n least : ℕ) (s t : Load World)
      → IsRunning n least s
      → IsRunning n least t
      → IsRunning n least (if b then s else t)
  if-IsRunning true n least s t h k = h
  if-IsRunning false n least s t h k = k

  -- With the same connections and index, and fewer connections required.
  pub alike :
      {n least k : ℕ} {s : Load World} (t : Load World)
      → IsRunning n least s
      → k ≤ least
      → t.connections ≡ s.connections
      → t.index ≡ s.index
      → t.is_continue ≡ false
      → length t.buffer ≡ max_buffer
      → IsRunning n k t
  alike t h few same still going room = record {
    count = h.count;
    connections = same ∙ h.connections;
    low = omega (arith, h.low);
    high = h.high;
    rounds = h.rounds;
    index = still ∙ h.index;
    going = going;
    room = room;
  }

  received-IsRunning :
      (clientfd : ℕ) (count : ℤ) (r_buffer : Bytes) (n least : ℕ) (s : Load World)
      → IsRunning n (suc least) s
      → IsRunning n least (received calls clientfd count r_buffer s)
  unfolding received
  received-IsRunning clientfd (pos (suc k)) r_buffer n least s h =
      if-IsRunning (is_text r_buffer (codes "quit")) n least _ s
        (alike _ h (omega arith) refl refl refl h.room)
        (alike _ h (omega arith) refl refl h.going h.room)
  received-IsRunning clientfd (pos zero) r_buffer n least s h = record {
    count = h.count - 1;
    connections = fewer s.connections h.count h.connections (omega (arith, h.low));
    low = omega (arith, h.low);
    high = omega (arith, h.high);
    rounds = omega (arith, h.rounds);
    index = h.index;
    going = h.going;
    room = h.room;
  }
  received-IsRunning clientfd (negsuc k) r_buffer n least s h =
      if-IsRunning (calls.is_interrupted s.world) n least s _
        (alike _ h (omega arith) refl refl h.going h.room)
        (alike _ h (omega arith) refl refl h.going h.room)

  -- An event takes at most one connection away.
  handle-IsRunning :
      (sockfd : ℕ) (e : EpollEvent) (n least : ℕ) (s : Load World)
      → IsRunning n (suc least) s
      → (t : Load World) × (handle calls sockfd e s ≡ ok t) × IsRunning n least t
  unfolding handle
  handle-IsRunning sockfd e n least s h = elim (Bool-cases e.writable) [
    | inl writable ↦ (
      record s {
        buffer = splice s.buffer 0 (data_text e.fd ++ 0 ∷ []);
        world = (calls.send sockfd (data_text e.fd) s.world).1;
      },
      rw (writable, print-data_text s.buffer e.fd h.room) refl,
      alike _ h (omega arith) refl refl h.going
          (length-splice s.buffer 0 (data_text e.fd ++ 0 ∷ []) ∙ h.room),
    )
    | inr silent ↦ elim (Bool-cases e.readable) [
      | inl readable ↦ (
        received calls e.fd (calls.recv sockfd max_buffer s.world).0
            (splice (replicate max_buffer 0) 0 (calls.recv sockfd max_buffer s.world).1)
            (record s { world = (calls.recv sockfd max_buffer s.world).2 }),
        rw
            (
              silent,
              readable,
              patch-ok (replicate max_buffer 0) 0 (calls.recv sockfd max_buffer s.world).1
                  (omega (arith, bounded.by_recv sockfd max_buffer s.world)),
            )
            refl,
        received-IsRunning e.fd _ _ n least _ (
            alike (record s { world = (calls.recv sockfd max_buffer s.world).2 }) h (omega arith)
              refl refl h.going h.room),
      )
      | inr idle ↦ (
        record s { world = calls.close e.fd s.world },
        rw (silent, idle) refl,
        alike _ h (omega arith) refl refl h.going h.room,
      )
    ]
  ]

  pub handle_all-IsRunning :
      (sockfd : ℕ) (es : List EpollEvent) (n : ℕ) (s : Load World)
      → IsRunning n (length es) s
      → (t : Load World) × (handle_all calls sockfd es s ≡ ok t) × IsRunning n 0 t
  unfolding handle_all
  handle_all-IsRunning sockfd [] n s h = (s, refl, h)
  handle_all-IsRunning sockfd (e ∷ es) n s h =
      let (t, e, k) =
        handle-IsRunning sockfd e n (length es) s
          (alike s h (omega arith) refl refl h.going h.room) in
      let (u, e', k') = handle_all-IsRunning sockfd es n t k in (u, rw e e', k')
