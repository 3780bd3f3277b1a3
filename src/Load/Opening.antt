-- ===== src/Load/Opening.antt =====
-- The first half of a round of the load generator.
use networking_programming.Base.{
  ℕ, ◌+◌, ◌<◌, ◌≡◌, refl, ◌∙◌, Bool, true, false, Option, none, some, [], ◌∷◌, ◌++◌, arith, ◌&&◌,
  not,
}
use native.Mathlib.Decide.{dec_lt}
use networking_programming.Base.Int.{ℤ, pos, negsuc, ◌+ℤ◌, ltb_ℤ}
use networking_programming.Memory.{ok}
use networking_programming.Memory.Laws.{length-splice}
use networking_programming.Load.{
  Calls, Load, max_connections, hello_text, connected, opened, open_connection,
}
use networking_programming.Load.Events.{IsRunning, IsBounded, alike}
use networking_programming.Load.Hello.{greeted, print-hello_text}

abbrev pub OnSome : {A : Type 0} → (A → Type 0) → Option A → Type 0
OnSome P none = Unit
OnSome P (some a) = P a

pub one_more : (i : ℤ) (n : ℕ) → i ≡ pos n → i +ℤ pos 1 ≡ pos (n + 1)
unfolding ◌+ℤ◌
one_more i n e = ground arith

pub can_open :
    (i : ℤ) (b : Bool) (n : ℕ)
    → i ≡ pos n
    → b ≡ false
    → n < max_connections
    → (ltb_ℤ i (pos max_connections) && not b) ≡ true
can_open i b n at going below = ground arith

may_not_open :
    (i : ℤ) (b : Bool) (n : ℕ)
    → i ≡ pos n
    → ¬ (n < max_connections)
    → (ltb_ℤ i (pos max_connections) && not b) ≡ false
may_not_open i b n at above = ground arith

module _ (calls : Calls) (bounded : IsBounded calls) where
  open calls use {World}

  connected-IsRunning :
      (epoll_fd : ℤ) (sockfd n count : ℕ) (r : ℤ) (s : Load World)
      → IsRunning n 0 s
      → s.connections ≡ pos count
      → count < max_connections
      → count < n
      → (found : Option (ℕ × Load World)) × (connected calls epoll_fd sockfd r s ≡ ok found)
        × OnSome (λ (x : ℕ × Load World). IsRunning n 0 x.1) found
  unfolding connected
  connected-IsRunning epoll_fd sockfd n count (negsuc k) s h at below few = (none, refl, tt)
  connected-IsRunning epoll_fd sockfd n count (pos k) s h at below few = (
    some (sockfd, greeted calls epoll_fd sockfd s),
    rw (print-hello_text s.buffer s.connections h.room) refl,
    record {
      count = count + 1;
      connections = one_more s.connections count at;
      low = omega arith;
      high = omega arith;
      rounds = omega arith;
      index = h.index;
      going = h.going;
      room = length-splice s.buffer 0 (hello_text s.connections ++ 0 ∷ []) ∙ h.room;
    },
  )

  opened-IsRunning :
      (epoll_fd : ℤ) (port n count : ℕ) (r : ℤ) (s : Load World)
      → IsRunning n 0 s
      → s.connections ≡ pos count
      → count < max_connections
      → count < n
      → (found : Option (ℕ × Load World)) × (opened calls epoll_fd port r s ≡ ok found)
        × OnSome (λ (x : ℕ × Load World). IsRunning n 0 x.1) found
  unfolding opened
  opened-IsRunning epoll_fd port n count (negsuc k) s h at below few = (none, refl, tt)
  opened-IsRunning epoll_fd port n count (pos sockfd) s h at below few =
      connected-IsRunning epoll_fd sockfd n count _ _
        (alike calls bounded _ h (omega arith) refl refl h.going h.room) at below few

  pub open_connection-IsRunning :
      (epoll_fd : ℤ) (port n : ℕ) (s : Load World)
      → (h : IsRunning n 0 s) → h.count < n
      → (found : Option (ℕ × Load World)) × (open_connection calls epoll_fd port s ≡ ok found)
        × OnSome (λ (x : ℕ × Load World). IsRunning n 0 x.1) found
  unfolding open_connection
  open_connection-IsRunning epoll_fd port n s h few = elim (dec_lt h.count max_connections) [
    | yes below ↦
        let (found, e, k) =
          opened-IsRunning epoll_fd port n h.count (calls.socket s.world).0
            (record s { world = (calls.socket s.world).1 })
            (alike calls bounded _ h (omega arith) refl refl h.going h.room) h.connections below
            few in
        (found, rw (can_open s.connections s.is_continue h.count h.connections h.going below) e, k)
    | no above ↦ (
      some (0, s),
      rw (may_not_open s.connections s.is_continue h.count h.connections above) refl,
      h,
    )
  ]
