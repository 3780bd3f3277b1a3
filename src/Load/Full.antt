-- ===== src/Load/Full.antt =====
-- The load generator with all its connections: the descriptor that it answers on.
use networking_programming.Base.{
  ℕ, zero, suc, ◌≤◌, ◌≡◌, refl, Bool, true, false, Option, none, some, List, [], ◌∷◌, length, arith,
  replicate, ◌&&◌, not, if◌then◌else◌, leb,
}
use networking_programming.Base.Int.{ℤ, pos, negsuc, ltb_ℤ}
use networking_programming.Memory.{Bytes, IfOk, patch}
use networking_programming.Memory.Text.{print_text, codes}
use networking_programming.Memory.Post.{IfOk->>=, IfOk-IfOk, IfOk-if}
use networking_programming.Net.{EpollEvent}
use networking_programming.Load.{
  Calls, Load, max_buffer, max_epollsize, max_connections, data_text, next_index, received, handle,
  handle_all, waited, look, finish, round, open_connection, is_text, is_due,
}

-- A condition that `epoll_wait` and `close` keep, and `send` and `recv` on one descriptor.
pub record IsKept (calls : Calls) (sockfd : ℕ) (P : calls.World → Type 0) : Type 0 where
  pub by_wait : (epoll_fd m : ℤ) (w : calls.World) → P w → P (calls.epoll_wait epoll_fd m w).1
  pub by_close : (fd : ℕ) (w : calls.World) → P w → P (calls.close fd w)
  pub by_send : (bytes : Bytes) (w : calls.World) → P w → P (calls.send sockfd bytes w).1
  pub by_recv : (n : ℕ) (w : calls.World) → P w → P (calls.recv sockfd n w).2

module _ (calls : Calls) (sockfd : ℕ) (P : calls.World → Type 0)
    (kept : IsKept calls sockfd P) where
  open calls use {World}

  abbrev Holds : Load World → Type 0
  Holds s = P s.world

  if-Holds : (b : Bool) (s t : Load World) → Holds s → Holds t → Holds (if b then s else t)
  if-Holds true s t p q = p
  if-Holds false s t p q = q

  received-Kept :
      (clientfd : ℕ) (count : ℤ) (r_buffer : Bytes) (s : Load World)
      → Holds s
      → Holds (received calls clientfd count r_buffer s)
  unfolding received
  received-Kept clientfd (pos (suc k)) r_buffer s p =
      if-Holds (is_text r_buffer (codes "quit")) _ s p p
  received-Kept clientfd (pos zero) r_buffer s p = kept.by_close clientfd s.world p
  received-Kept clientfd (negsuc k) r_buffer s p =
      if-Holds (calls.is_interrupted s.world) s _ p (kept.by_close clientfd s.world p)

  handle-Kept : (e : EpollEvent) (s : Load World) → Holds s → IfOk Holds (handle calls sockfd e s)
  unfolding handle
  handle-Kept e s p =
      IfOk-if Holds e.writable _ _
        (IfOk->>= Holds (print_text s.buffer (data_text e.fd)) _ λ r. kept.by_send r.1 s.world p)
        (IfOk-if Holds e.readable _ _
          (IfOk->>= Holds
            (patch (replicate max_buffer 0) 0 (calls.recv sockfd max_buffer s.world).1) _
            λ r_buffer. received-Kept e.fd _ r_buffer _ (kept.by_recv max_buffer s.world p))
          (kept.by_close e.fd s.world p))

  handle_all-Kept :
      (es : List EpollEvent) (s : Load World) → Holds s → IfOk Holds (handle_all calls sockfd es s)
  unfolding handle_all
  handle_all-Kept [] s p = p
  handle_all-Kept (e ∷ es) s p =
      IfOk-IfOk Holds Holds (handle calls sockfd e s) _ (handle-Kept e s p)
        λ t. handle_all-Kept es t

  waited-Kept :
      (found : Option (List EpollEvent)) (s : Load World)
      → Holds s
      → IfOk Holds (waited calls sockfd found s)
  unfolding waited
  waited-Kept none s p = p
  waited-Kept (some es) s p =
      IfOk-if Holds (leb (length es) max_epollsize) _ _ (handle_all-Kept es s p) tt

  -- What a round does for its events, once its `sockfd` is known.
  pub look-Kept :
      (epoll_fd : ℤ) (s : Load World) → Holds s → IfOk Holds (look calls epoll_fd sockfd s)
  unfolding look
  look-Kept epoll_fd s p =
      IfOk-if Holds (is_due s.connections) _ _
        (waited-Kept _ _ (kept.by_wait epoll_fd s.connections s.world p)) p

full :
    (i : ℤ) (b : Bool) (n : ℕ)
    → i ≡ pos n
    → max_connections ≤ n
    → (ltb_ℤ i (pos max_connections) && not b) ≡ false
full i b n at above = ground arith

module _ (calls : Calls) (P : calls.World → Type 0) (kept : IsKept calls 0 P) where
  open calls use {World}

  -- A round with 500000 connections or more goes on, and neither sends to a descriptor other than 0
  -- nor receives from one, whoever its events are for: every condition on the system that
  -- `epoll_wait`, `close`, and `send` and `recv` on descriptor 0 keep, holds behind the round if it
  -- held before, unless something in the round was undefined.
  pub round-Kept :
      (epoll_fd : ℤ) (port n : ℕ) (s : Load World)
      → s.connections ≡ pos n
      → max_connections ≤ n
      → P s.world
      → IfOk
          (λ (r : Option (Load World)). (t : Load World) × (r ≡ some t) × P t.world)
          (round calls epoll_fd port s)
  unfolding round open_connection finish
  round-Kept epoll_fd port n s at above p = rw (full s.connections s.is_continue n at above) (
      IfOk-IfOk (λ (t : Load World). P t.world) _
        (look calls epoll_fd 0 (record s { index = next_index s.index })) _
        (look-Kept calls 0 P kept epoll_fd (record s { index = next_index s.index }) p)
        λ t q. (t, refl, q))
